-- ===== src/RingBuffer/Store.antt =====
-- The two updates inside `Write`: storing an element, and dropping the oldest one.
use native.Mathlib.Nat.{mod-eq_of_lt}
use robosw.Base.{
  ℕ, suc, ◌+◌, ◌-◌, ◌%◌, ◌<◌, ◌≡◌, ap, sym, ◌∙◌, arith, length-set, set, [], ◌∷◌, ◌++◌, bit_and,
}
use robosw.RingBuffer.{RingBuffer, size_t, store, push_read}
use robosw.RingBuffer.Inv.{IsValid, count, size-le, masked, narrowed}
use robosw.RingBuffer.Inv.{write-eq}
use robosw.RingBuffer.Window.{window, contents, window_extend, contents_some, rest}

module _ {ℓ} {T : Type ℓ} (d : T) {bits : ℕ} {r : RingBuffer T} (v : IsValid bits r) where
  -- Where `Write` stores.
  write_at : bit_and r.write_index r.size_mask ≡ (r.read_index + count r) % r.size
  write_at =
      masked v r.write_index
      ∙ (ap (λ t. t % r.size) (sym (write-eq v)) ∙ narrowed v (r.read_index + count r))

  pub count-store : (x : T) → count r + 1 < r.size → count (store r x) ≡ suc (count r)
  unfolding store
  count-store x h = omega (arith, v.write_in, v.read_in, size-le v)

  -- Storing with a place to spare puts the element behind the others.
  pub contents-store :
      (x : T) → count r + 1 < r.size → contents d (store r x) ≡ contents d r ++ (x ∷ [])
  unfolding store
  contents-store x h =
      ap (window d (set r.buffer (bit_and r.write_index r.size_mask) x) r.size r.read_index)
        (count-store x h)
      ∙ window_extend d r.buffer r.size r.read_index (count r) _ x v.memory (omega arith) write_at

  pub store-IsValid : (x : T) → count r + 1 < r.size → IsValid bits (store r x)
  unfolding store
  store-IsValid x h = record {
    small = v.small;
    size_pow = v.size_pow;
    mask = v.mask;
    memory = length-set r.buffer (bit_and r.write_index r.size_mask) x ∙ v.memory;
    write_in = omega arith;
    read_in = v.read_in;
    ahead = omega (arith, v.write_in, v.read_in, size-le v);
  }

  next_read :
      r.read_index + 1 < r.size → bit_and (size_t (r.read_index + 1)) r.size_mask ≡ r.read_index + 1
  next_read h = masked v _ ∙ (narrowed v (r.read_index + 1) ∙ mod-eq_of_lt h)

  pub count-push_read :
      count r + 1 ≡ r.size → r.read_index + 1 < r.size → count (push_read r) + 1 ≡ count r
  unfolding push_read
  count-push_read e h = rw (next_read h) (omega (arith, v.write_in, v.read_in, size-le v))

  -- Moving the read index forward drops the oldest element.
  pub contents-push_read :
      count r + 1 ≡ r.size
      → r.read_index + 1 < r.size
      → contents d (push_read r) ≡ rest (contents d r)
  unfolding push_read
  contents-push_read e h =
      ap (window d r.buffer r.size (bit_and (size_t (r.read_index + 1)) r.size_mask))
        (omega (arith, count-push_read e h))
      ∙ (ap (λ i. window d r.buffer r.size i (count r - 1)) (next_read h)
          ∙ ap rest (sym (contents_some d v (count r - 1) (omega (arith, count-push_read e h)))))

  pub push_read-IsValid :
      count r + 1 ≡ r.size → r.read_index + 1 < r.size → IsValid bits (push_read r)
  unfolding push_read
  push_read-IsValid e h = record {
    small = v.small;
    size_pow = v.size_pow;
    mask = v.mask;
    memory = v.memory;
    write_in = v.write_in;
    read_in = rw (next_read h) (omega (arith, size-le v));
    ahead = omega (arith, count-push_read e h);
  }
