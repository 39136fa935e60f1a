-- ===== src/Base/Loops.antt =====
-- `for (i = start; i < start + count; ++i)` whose body can fail, and its invariant rule.
use robosw.Base.{ℕ, zero, suc, ◌+◌, ◌≤◌, ◌<◌, ◌≡◌, refl, ap, ◌∙◌, subst, Option, none, some, arith}

abbrev pub and_then {ℓ} : {A B : Type ℓ} → Option A → (A → Option B) → Option B
and_then none f = none
and_then (some a) f = f a

module _ {S : Type 0} where
  unfoldable pub for_each : (count start : ℕ) → (ℕ → S → Option S) → S → Option S
  for_each zero start body s = some s
  for_each (suc count) start body s = and_then (body start s) (for_each count (suc start) body)

  -- What each round keeps up, the loop arrives at.
  pub for_each-invariant :
      (P : ℕ → S → Type 0) (body : ℕ → S → Option S) (count start : ℕ)
      → ((i : ℕ) (s : S)
          → start ≤ i
          → i < start + count
          → P i s
          → (t : S) × (body i s ≡ some t) × P (suc i) t)
      → (s : S) → P start s
      → (t : S) × (for_each count start body s ≡ some t) × P (start + count) t
  unfolding for_each
  for_each-invariant P body zero start round s p = (s, refl, subst (λ n. P n s) (omega arith) p)
  for_each-invariant P body (suc count) start round s p =
      let first = round start s (omega arith) (omega arith) p in
      let rest =
        for_each-invariant P body count (suc start)
          (λ i u lo hi. round i u (omega arith) (omega arith)) first.0 first.2 in
      (
        rest.0,
        ap (λ o. and_then o (for_each count (suc start) body)) first.1 ∙ rest.1,
        subst (λ n. P n rest.0) (omega arith) rest.2,
      )
