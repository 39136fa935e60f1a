-- ===== src/RingBuffer/Refine.antt =====
-- `Write` against the queue of at most N - 1 elements.
use robosw.Base.{
  ℕ, ◌+◌, ◌<◌, ◌≡◌, ap, sym, ◌∙◌, Bool, true, false, arith, length, ◌==◌, List, [], ◌∷◌, ◌++◌,
  Bool-cases, inl, inr,
}
use robosw.RingBuffer.{RingBuffer, is_full, store, push_read, write}
use robosw.RingBuffer.Inv.{IsValid, count}
use robosw.RingBuffer.Inv.{is_full-count}
use robosw.RingBuffer.Window.{contents, length-contents, rest, push}
use robosw.RingBuffer.Store.{
  contents-store, store-IsValid, count-push_read, contents-push_read, push_read-IsValid,
}

module _ {ℓ} {T : Type ℓ} where
  push_on :
      (size : ℕ) (on : Bool) (q : List T) (x : T)
      → (length q + 1 == size) ≡ true
      → on ≡ true
      → (1, rest q ++ (x ∷ [])) ≡ push size on q x
  unfolding push
  push_on size on q x e o = rw (e, o)

  push_off :
      (size : ℕ) (on : Bool) (q : List T) (x : T)
      → (length q + 1 == size) ≡ true
      → on ≡ false
      → (0, q) ≡ push size on q x
  unfolding push
  push_off size on q x e o = rw (e, o)

  push_free :
      (size : ℕ) (on : Bool) (q : List T) (x : T)
      → (length q + 1 == size) ≡ false
      → (1, q ++ (x ∷ [])) ≡ push size on q x
  unfolding push
  push_free size on q x e = rw e

  pub write_free : (r : RingBuffer T) (x : T) → is_full r ≡ false → write r x ≡ (1, store r x)
  unfolding write
  write_free r x e = rw e

  write_kept :
      (r : RingBuffer T) (x : T)
      → is_full r ≡ true
      → r.enable_overwrite ≡ false
      → write r x ≡ (0, r)
  unfolding write
  write_kept r x e o = rw (e, o)

  pub write_over :
      (r : RingBuffer T) (x : T)
      → is_full r ≡ true
      → r.enable_overwrite ≡ true
      → write r x ≡ (1, store (push_read r) x)
  unfolding write
  write_over r x e o = rw (e, o)

module _ {ℓ} {T : Type ℓ} (d : T) {bits : ℕ} {r : RingBuffer T} (v : IsValid bits r) where
  push_test : (length (contents d r) + 1 == r.size) ≡ is_full r
  push_test = rw (length-contents d v) (sym (is_full-count v))

  -- What holds of a result of `Write` against the queue.
  abbrev Matches : T → ℕ × RingBuffer T → Type ℓ
  Matches x (n, r') =
      ((n, contents d r') ≡ push r.size r.enable_overwrite (contents d r) x) × IsValid bits r'

  free_refines : (x : T) → is_full r ≡ false → Matches x (write r x)
  free_refines x e =
      let spare : count r + 1 < r.size = ground (arith, is_full-count v, v.ahead) in
      rw (write_free r x e) (
        ap (λ q. (1, q)) (contents-store d v x spare)
            ∙ push_free r.size r.enable_overwrite (contents d r) x (push_test ∙ e),
        store-IsValid d v x spare,
      )

  kept_refines : (x : T) → is_full r ≡ true → r.enable_overwrite ≡ false → Matches x (write r x)
  kept_refines x e o =
      rw (write_kept r x e o)
        (push_off r.size r.enable_overwrite (contents d r) x (push_test ∙ e) o, v)

  spare_after :
      count r + 1 ≡ r.size
      → r.read_index + 1 < r.size
      → count (push_read r) + 1 < (push_read r).size
  unfolding push_read
  spare_after e h = omega (arith, count-push_read d v e h)

  over_refines :
      (x : T)
      → is_full r ≡ true
      → r.enable_overwrite ≡ true
      → r.read_index + 1 < r.size
      → Matches x (write r x)
  over_refines x e o h =
      let full : count r + 1 ≡ r.size = ground (arith, is_full-count v) in
      let v' : IsValid bits (push_read r) = push_read-IsValid d v full h in
      rw (write_over r x e o) (
        ap (λ q. (1, q))
              (contents-store d v' x (spare_after full h)
                ∙ ap (λ q. q ++ (x ∷ [])) (contents-push_read d v full h))
            ∙ push_on r.size r.enable_overwrite (contents d r) x (push_test ∙ e) o,
        store-IsValid d v' x (spare_after full h),
      )

  -- `Write` adds to the queue as `push` does, and keeps the buffer valid: always without overwriting,
  -- and with overwriting as long as the read index does not have to pass the end of the memory.
  pub write_refines :
      (x : T)
      → (r.enable_overwrite ≡ true → count r + 1 ≡ r.size → r.read_index + 1 < r.size)
      → (((write r x).0, contents d (write r x).1)
          ≡ push r.size r.enable_overwrite (contents d r) x)
        × IsValid bits (write r x).1
  write_refines x room = elim (Bool-cases (is_full r)) [
    | inl full ↦ elim (Bool-cases r.enable_overwrite) [
      | inl on ↦ over_refines x full on (room on (ground (arith, is_full-count v)))
      | inr off ↦ kept_refines x full off
    ]
    | inr free ↦ free_refines x free
  ]
