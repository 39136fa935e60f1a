-- ===== src/RingBuffer/Peek.antt =====
-- `PeekAt` and `Peek` read the queue in place.
use native.Mathlib.Nat.{mod-eq_of_lt}
use robosw.Base.{
  ℕ, zero, suc, ◌+◌, ◌%◌, ◌≤◌, ◌<◌, ◌≡◌, refl, ap, ◌∙◌, arith, length, get_or, ltb, List, [], ◌∷◌,
  if◌then◌else◌, take, drop,
}
use robosw.RingBuffer.{RingBuffer, size_t, peek_at, peek_from}
use robosw.RingBuffer.Inv.{IsValid, count, masked, narrowed}
use robosw.RingBuffer.Window.{window, contents, read_value, length-contents}

module _ {T : Type 0} (d : T) where
  get_or-window :
      (buf : List T) (s i n k : ℕ)
      → k < n
      → get_or (window d buf s i n) k d ≡ get_or buf ((i + k) % s) d
  get_or-window buf s i zero k h = absurd (omega arith)
  get_or-window buf s i (suc n) zero h = ap (λ t. get_or buf (t % s) d) (omega arith)
  get_or-window buf s i (suc n) (suc k) h =
      get_or-window buf s (i + 1) n k (omega arith) ∙ ap (λ t. get_or buf (t % s) d) (omega arith)

  -- One more element of a suffix, or its end.
  take-drop :
      (q : List T) (i n : ℕ)
      → take (suc n) (drop i q)
        ≡ (if ltb i (length q) then get_or q i d ∷ take n (drop (i + 1) q) else [])
  take-drop [] zero n = refl
  take-drop [] (suc i) n = ground arith
  take-drop (x ∷ q) zero n = ground arith
  take-drop (x ∷ q) (suc i) n = ground (arith, take-drop q i n)

module _ {T : Type 0} (d : T) {bits : ℕ} {r : RingBuffer T} (v : IsValid bits r)
    (two : 2 ≤ r.size) where
  -- `PeekAt(n)` of a valid buffer of two places or more gives the element at place `n` of the queue,
  -- where there is one.
  pub peek_at_refines :
      (old : T) (n : ℕ)
      → peek_at r old n
        ≡ (if ltb n (length (contents d r)) then (1, get_or (contents d r) n d) else (0, old))
  unfolding peek_at
  peek_at_refines old n = ground (
    arith,
    masked v 1,
    masked v 0,
    mod-eq_of_lt two,
    length-contents d v,
    read_value d v (size_t (r.read_index + n)) old,
    narrowed v (r.read_index + n),
    get_or-window d r.buffer r.size r.read_index (count r) n,
  )

  pub peek_from_refines :
      (todo i : ℕ) → peek_from (λ _. r) i todo d ≡ take todo (drop i (contents d r))
  unfolding peek_from
  peek_from_refines zero i = refl
  peek_from_refines (suc todo) i =
      rw (peek_at_refines d i, take-drop d (contents d r) i todo)
        (ground (arith, peek_from_refines todo (i + 1)))
