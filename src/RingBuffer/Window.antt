-- ===== src/RingBuffer/Window.antt =====
-- The elements of a `RingBuffer` in order, the queue that they form, and `Read` on it.
use native.Mathlib.Nat.{mod-add-mod, mod-lt}
use robosw.Base.{
  ℕ, zero, suc, ◌+◌, ◌-◌, ◌%◌, ◌<◌, ◌≡◌, refl, ap, ap₂, sym, ◌∙◌, Bool, arith, length, get_or, set,
  get_or-set_self, get_or-set_ne, ◌==◌, List, [], ◌∷◌, ◌++◌, Bool-cases, inl, inr, get_or_in,
  bit_and, if◌then◌else◌,
}
use robosw.RingBuffer.{RingBuffer, size_t, sub_size, read}
use robosw.RingBuffer.Inv.{IsValid, count, size_pos, masked, narrowed}
use robosw.RingBuffer.Inv.{turn}

module _ {ℓ} {T : Type ℓ} (d : T) where
  -- The `n` elements from place `i` on, going round at `s`.
  abbrev pub window : List T → ℕ → ℕ → ℕ → List T
  window buf s i zero = []
  window buf s i (suc n) = get_or buf (i % s) d ∷ window buf s (i + 1) n

  -- What the buffer holds, oldest first.
  abbrev pub contents : RingBuffer T → List T
  contents r = window r.buffer r.size r.read_index (count r)

  length-window : (buf : List T) (s i n : ℕ) → length (window buf s i n) ≡ n
  length-window buf s i zero = refl
  length-window buf s i (suc n) = ap suc (length-window buf s (i + 1) n)

  -- A window depends on its start only up to whole turns.
  window_turn : (buf : List T) (s i j n : ℕ) → i % s ≡ j % s → window buf s i n ≡ window buf s j n
  window_turn buf s i j zero h = refl
  window_turn buf s i j (suc n) h =
      ap₂ ◌∷◌ (ap (λ k. get_or buf k d) h) (window_turn buf s (i + 1) (j + 1) n next)
    where
      next : (i + 1) % s ≡ (j + 1) % s
      next = sym (mod-add-mod i s 1) ∙ (ap (λ t. (t + 1) % s) h ∙ mod-add-mod j s 1)

  -- A write in the place just past a window extends it.
  pub window_extend :
      (buf : List T) (s i n p : ℕ) (x : T)
      → length buf ≡ s
      → n < s
      → p ≡ (i + n) % s
      → window (set buf p x) s i (suc n) ≡ window buf s i n ++ (x ∷ [])
  window_extend buf s i zero p x hs hn e =
      let here : p ≡ i % s = e ∙ ap (λ t. t % s) (omega arith) in
      rw (here, get_or-set_self buf (i % s) x d (omega (arith, mod-lt i {m = s}))) refl
  window_extend buf s i (suc n) p x hs hn e =
      ap₂ ◌∷◌ (get_or-set_ne buf x d (ground (arith, turn s i (suc n))))
        (window_extend buf s (i + 1) n p x hs (omega arith) (e ∙ ap (λ t. t % s) (omega arith)))

-- The queue that the buffer stands for.
module _ {ℓ} {T : Type ℓ} where
  -- The queue that the buffer stands for: taking from it, and adding to it when it holds N elements
  -- at most with one place unused.
  unfoldable pub pop : List T → T → ℕ × T × List T
  pop [] old = (0, old, [])
  pop (x ∷ q) old = (1, x, q)

  abbrev pub rest : List T → List T
  rest [] = []
  rest (x ∷ q) = q

  unfoldable pub push : ℕ → Bool → List T → T → ℕ × List T
  push size overwrite q x =
      if length q + 1 == size
      then (if overwrite then (1, rest q ++ (x ∷ [])) else (0, q))
      else (1, q ++ (x ∷ []))

module _ {ℓ} {T : Type ℓ} (d : T) {bits : ℕ} {r : RingBuffer T} (v : IsValid bits r) where
  pub length-contents : length (contents d r) ≡ count r
  length-contents = length-window d r.buffer r.size r.read_index (count r)

  -- What the buffer holds after its oldest element.
  contents_next :
      (i n : ℕ)
      → i ≡ size_t (r.read_index + 1)
      → sub_size r.write_index i ≡ n
      → window d r.buffer r.size i (sub_size r.write_index i)
        ≡ window d r.buffer r.size (r.read_index + 1) n
  contents_next i n e c =
      ap (window d r.buffer r.size i) c
      ∙ window_turn d r.buffer r.size i (r.read_index + 1) n (rw e (narrowed v (r.read_index + 1)))

  pub contents_some :
      (n : ℕ)
      → count r ≡ suc n
      → contents d r
        ≡ get_or r.buffer (r.read_index % r.size) d ∷ window d r.buffer r.size (r.read_index + 1) n
  contents_some n e = ap (window d r.buffer r.size r.read_index) e

  pub contents_none : count r ≡ 0 → contents d r ≡ []
  contents_none e = ap (window d r.buffer r.size r.read_index) e

  -- A masked read index lies in the memory.
  pub in_memory : (i : ℕ) → i % r.size < length r.buffer
  in_memory i = rw v.memory (mod-lt i (size_pos v))

  pub read_value :
      (i : ℕ) (old : T)
      → get_or r.buffer (bit_and i r.size_mask) old ≡ get_or r.buffer (i % r.size) d
  read_value i old = rw (masked v i) (get_or_in r.buffer (i % r.size) old d (in_memory i))

  -- `Read` of a valid buffer takes the oldest element, and says so by its count.
  pub read_refines :
      (old : T) → let (n, x, r') = read r old in (n, x, contents d r') ≡ pop (contents d r) old
  unfolding read pop
  read_refines old = elim (Bool-cases (r.read_index == r.write_index)) [
    | inl e ↦ rw (e, contents_none (ground (arith, v.write_in, v.read_in))) refl
    | inr e ↦
        rw (e, contents_some (count r - 1) (ground (arith, v.write_in, v.read_in)))
          λ i. (
            1,
            read_value r.read_index old i,
            contents_next _ (count r - 1) refl (ground (arith, v.write_in, v.read_in)) i,
          )
  ]

  pub read-IsValid : (old : T) → IsValid bits (read r old).2
  unfolding read
  read-IsValid old = ground (arith, v.write_in, v.read_in)
