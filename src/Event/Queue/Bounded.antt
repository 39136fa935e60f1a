-- ===== src/Event/Queue/Bounded.antt =====
-- What the bounded queue keeps.
use mathlib.Core.List.{append-nil, append_assoc}
use robosw.Base.{
  ℕ, suc, ◌+◌, ◌-◌, ◌<◌, ◌≤◌, ◌≡◌, ap, sym, ◌∙◌, arith, true, false, List, [], ◌∷◌, ◌++◌, length,
  length-append, drop, ◌==◌, if◌then◌else◌, Bool-cases, inl, inr,
}
use robosw.Event.Queue.{push, drop_front}

module _ {ℓ} {T : Type ℓ} where
  abbrev pub push_all : ℕ → List T → List T → List T
  push_all n q [] = q
  push_all n q (x ∷ xs) = push_all n (push n q x) xs

  pub push_full :
      (n : ℕ) (y : T) (q : List T) (x : T) → length q + 1 ≡ n → push n (y ∷ q) x ≡ q ++ x ∷ []
  unfolding push
  push_full n y q x h =
      let full : (length (y ∷ q) == n) ≡ true = ground (arith, h) in
      ap (λ b. (if b then q else y ∷ q) ++ x ∷ []) full

  pub push_spare : (n : ℕ) (q : List T) (x : T) → length q < n → push n q x ≡ q ++ x ∷ []
  unfolding push
  push_spare n q x h =
      let differs : (length q == n) ≡ false = ground (arith, h) in
      ap (λ b. (if b then drop_front q else q) ++ x ∷ []) differs

  -- One element more before those that follow, which are pushed as `ih` says.
  push_step :
      (n : ℕ) (xs : List T) (x y : T) (q : List T)
      → ((l : List T) → length l ≤ n → push_all n l xs ≡ drop (length l + length xs - n) (l ++ xs))
      → length (y ∷ q) ≤ n
      → push_all n (push n (y ∷ q) x) xs
        ≡ drop (length (y ∷ q) + length (x ∷ xs) - n) ((y ∷ q) ++ x ∷ xs)
  push_step n xs x y q ih h = elim (Bool-cases (length (y ∷ q) == n)) [
    | inl e ↦ full (ground (arith, e))
    | inr e ↦ spare (ground (arith, e))
  ]
    where
      k : length (q ++ x ∷ []) ≡ length q + 1
      k = length-append q (x ∷ [])

      full :
          length q + 1 ≡ n
          → push_all n (push n (y ∷ q) x) xs
            ≡ drop (length (y ∷ q) + length (x ∷ xs) - n) ((y ∷ q) ++ x ∷ xs)
      full e =
          ap (λ l. push_all n l xs) (push_full n y q x e)
          ∙ (ih (q ++ x ∷ []) (omega (arith, k))
              ∙ (ap (λ t. drop t ((q ++ x ∷ []) ++ xs)) {y = length xs} (omega (arith, k))
                  ∙ (ap (drop (length xs)) (append_assoc q (x ∷ []) xs)
                      ∙ ap (λ t. drop t ((y ∷ q) ++ x ∷ xs)) {x = suc (length xs)} (omega arith))))

      spare :
          length q + 1 < n
          → push_all n (push n (y ∷ q) x) xs
            ≡ drop (length (y ∷ q) + length (x ∷ xs) - n) ((y ∷ q) ++ x ∷ xs)
      spare e =
          ap (λ l. push_all n l xs) (push_spare n (y ∷ q) x (omega arith))
          ∙ (ih ((y ∷ q) ++ x ∷ []) (omega (arith, k))
              ∙ (ap (λ t. drop t (((y ∷ q) ++ x ∷ []) ++ xs))
                    {y = length (y ∷ q) + length (x ∷ xs) - n} (omega (arith, k))
                  ∙ ap (drop (length (y ∷ q) + length (x ∷ xs) - n))
                      (append_assoc (y ∷ q) (x ∷ []) xs)))

  push_all_lem :
      (n : ℕ) (xs q : List T)
      → 0 < n
      → length q ≤ n
      → push_all n q xs ≡ drop (length q + length xs - n) (q ++ xs)
  push_all_lem n [] q p h = sym (ap (λ k. drop k (q ++ [])) {y = 0} (omega arith) ∙ append-nil q)
  push_all_lem n (x ∷ xs) [] p h =
      ap (λ l. push_all n l xs) (push_spare n [] x p)
      ∙ (push_all_lem n xs (x ∷ []) p (omega arith)
          ∙ ap (λ k. drop k (x ∷ xs)) {x = 1 + length xs - n} (omega arith))
  push_all_lem n (x ∷ xs) (y ∷ q) p h = push_step n xs x y q (λ l. push_all_lem n xs l p) h

  -- Of everything that is pushed into an empty queue of capacity n, the last n elements are kept, in
  -- order.
  pub push_all-latest : (n : ℕ) (xs : List T) → 0 < n → push_all n [] xs ≡ drop (length xs - n) xs
  push_all-latest n xs p =
      push_all_lem n xs [] p (omega arith) ∙ ap (λ k. drop k xs) {y = length xs - n} (omega arith)
