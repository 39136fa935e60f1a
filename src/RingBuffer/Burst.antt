-- ===== src/RingBuffer/Burst.antt =====
-- `Read` and `Write` of several elements at once.
use mathlib.Core.List.{append-nil, append_assoc}
use robosw.Base.{
  ℕ, zero, suc, ◌+◌, ◌<◌, ◌≡◌, refl, ap, ap₂, sym, ◌∙◌, false, arith, length, List, [], ◌∷◌, ◌++◌,
  take, drop, inl, inr, List-cases,
}
use robosw.RingBuffer.{RingBuffer, read, store, is_full, write_from, write_all, read_from}
use robosw.RingBuffer.Inv.{IsValid, count, is_full-count}
use robosw.RingBuffer.Window.{contents, pop, read_refines, read-IsValid}
use robosw.RingBuffer.Store.{contents-store, store-IsValid, count-store}
use robosw.RingBuffer.Refine.{write_free}

module _ {ℓ} {T : Type ℓ} (d : T) (bits : ℕ) where
  -- What a `Write` of `xs` leaves, where all of it fits.
  pub record Wrote (r : RingBuffer T) (xs : List T) (i : ℕ) (out : ℕ × RingBuffer T) : Type ℓ where
    pub all : out.0 ≡ i + length xs
    pub behind : contents d out.1 ≡ contents d r ++ xs
    pub valid : IsValid bits out.1
    pub same_size : out.1.size ≡ r.size

  size-store : (r : RingBuffer T) (x : T) → (store r x).size ≡ r.size
  unfolding store
  size-store r x = refl

  size-read : (r : RingBuffer T) → (read r d).2.size ≡ r.size
  unfolding read
  size-read r = ground arith

  write_from-Wrote :
      (xs : List T) (r : RingBuffer T) (i : ℕ)
      → IsValid bits r
      → count r + length xs < r.size
      → Wrote r xs i (write_from r i xs)
  unfolding write_from
  write_from-Wrote [] r i v h = record {
    all = omega arith;
    behind = sym (append-nil (contents d r));
    valid = v;
    same_size = refl;
  }
  write_from-Wrote (x ∷ xs) r i v h =
      let w = write_from-Wrote xs (store r x) (i + 1) (store-IsValid d v x spare) room in
      rw (write_free r x free) (record {
        all = w.all ∙ omega arith;
        behind =
            w.behind
            ∙ (ap (λ q. q ++ xs) (contents-store d v x spare)
                ∙ append_assoc (contents d r) (x ∷ []) xs);
        valid = w.valid;
        same_size = w.same_size ∙ size-store r x;
      })
    where
      spare : count r + 1 < r.size
      spare = omega arith

      free : is_full r ≡ false
      free = ground (arith, is_full-count v)

      room : count (store r x) + length xs < (store r x).size
      room = rw (size-store r x) (omega (arith, count-store d v x spare))

  -- A `Write` that fits a valid buffer puts all its elements behind the others, and keeps it valid.
  pub write_all-Wrote :
      (xs : List T) (r : RingBuffer T)
      → IsValid bits r
      → count r + length xs < r.size
      → Wrote r xs 0 (write_all r xs)
  unfolding write_all
  write_all-Wrote xs r v h = write_from-Wrote xs r 0 v h

  -- A `Read` of `todo` elements takes as many of the oldest as there are.
  pub record Took (r : RingBuffer T) (todo : ℕ) (out : List T × RingBuffer T) : Type ℓ where
    pub oldest : out.0 ≡ take todo (contents d r)
    pub left : contents d out.1 ≡ drop todo (contents d r)
    pub valid : IsValid bits out.1
    pub same_size : out.1.size ≡ r.size

  Took-none :
      (todo : ℕ) (r : RingBuffer T)
      → IsValid bits r
      → contents d r ≡ []
      → Took r (suc todo) (read_from r (suc todo) d)
  unfolding read_from pop
  Took-none todo r v e =
      let n : (read r d).0 ≡ 0 = ap (λ p. p.0) (read_refines d v d) ∙ ap (λ q. (pop q d).0) e in
      rw n (record {
        oldest = sym (ap (take (suc todo)) e);
        left = e ∙ sym (ap (drop (suc todo)) e);
        valid = v;
        same_size = refl;
      })

  Took-some :
      (todo : ℕ) (r : RingBuffer T) (x : T) (q : List T)
      → IsValid bits r
      → contents d r ≡ x ∷ q
      → Took (read r d).2 todo (read_from (read r d).2 todo d)
      → Took r (suc todo) (read_from r (suc todo) d)
  unfolding read_from pop
  Took-some todo r x q v e w =
      let popped = read_refines d v d ∙ ap (λ l. pop l d) e in
      let n : (read r d).0 ≡ 1 = ap (λ p. p.0) popped in
      rw n (record {
        oldest =
            ap₂ ◌∷◌ (ap (λ p. p.1) popped) (w.oldest ∙ ap (λ p. take todo p.2) popped)
            ∙ sym (ap (take (suc todo)) e);
        left = w.left ∙ (ap (λ p. drop todo p.2) popped ∙ sym (ap (drop (suc todo)) e));
        valid = w.valid;
        same_size = w.same_size ∙ size-read r;
      })

  -- A `Read` of several elements takes as many of the oldest as there are, and leaves the others.
  pub read_from-Took :
      (todo : ℕ) (r : RingBuffer T) → IsValid bits r → Took r todo (read_from r todo d)
  unfolding read_from
  read_from-Took zero r v = record { oldest = refl; left = refl; valid = v; same_size = refl }
  read_from-Took (suc todo) r v =
      let w = read_from-Took todo (read r d).2 (read-IsValid d v d) in
      elim (List-cases (contents d r)) [
        | inl e ↦ Took-none todo r v e
        | inr (x, q, e) ↦ Took-some todo r x q v e w
      ]
