-- ===== src/Sbus/Validate.antt =====
-- `ValidateSbusMessage` decides whether a message may be used.
use robosw.Base.{
  ℕ, suc, ◌+◌, ◌≤◌, ◌≡◌, ◌↔◌, refl, true, false, List, [], ◌∷◌, arith, get_or, ◌==◌, if◌then◌else◌,
}
use robosw.Sbus.{SbusMessage, count_zeros, validate_message}

-- How many entries are zero.
abbrev pub zeros : List ℕ → ℕ
zeros [] = 0
zeros (c ∷ cs) = if c == 0 then suc (zeros cs) else zeros cs

-- The loop ends exactly when the running count never passes four, which is when it does not at the end.
count_zeros-zeros : (n : ℕ) (cs : List ℕ) → n ≤ 4 → (count_zeros n cs ≡ true) ↔ (n + zeros cs ≤ 4)
unfolding count_zeros
count_zeros-zeros n [] h = (λ _. omega arith, λ _. refl)
count_zeros-zeros n (c ∷ cs) h =
    ground (arith, count_zeros-zeros n cs, count_zeros-zeros (n + 1) cs)

abbrev pub first_eight : List ℕ → List ℕ
first_eight cs =
    get_or cs 0 0
    ∷ get_or cs 1 0
    ∷ get_or cs 2 0
    ∷ get_or cs 3 0
    ∷ get_or cs 4 0
    ∷ get_or cs 5 0
    ∷ get_or cs 6 0
    ∷ get_or cs 7 0
    ∷ []

-- A message is valid exactly when neither flag is set and at most four of the first eight channels
-- are zero.
pub validate_iff :
    (msg : SbusMessage)
    → (validate_message msg ≡ true) ↔ (
        (msg.fault_protection ≡ false)
        × (msg.frame_loss ≡ false)
        × (zeros (first_eight msg.channels) ≤ 4))
unfolding validate_message
validate_iff msg = ground (arith, count_zeros-zeros 0 (first_eight msg.channels))
