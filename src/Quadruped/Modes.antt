-- ===== src/Quadruped/Modes.antt =====
-- Which modes the quadruped gets into.
use robosw.Base.{
  ◌≤◌, ◌≡◌, refl, arith, Bool, true, false, Option, none, some, List, [], ◌∷◌, length, ◌⊎◌,
}
use robosw.Quadruped.{KeyFunction, ControlMode, transit}

-- The mode after one round of the state machine.
abbrev pub next : ControlMode → Option KeyFunction → ControlMode
next m k = elim (transit m k) [ none ↦ m | some m' ↦ m' ]

abbrev pub run : ControlMode → List (Option KeyFunction) → ControlMode
run m [] = m
run m (k ∷ ks) = run (next m k) ks

-- The modes that the keys lead to.
abbrev pub is_in_use : ControlMode → Bool
is_in_use ControlMode.move_base = false
is_in_use ControlMode.trotting = false
is_in_use other = true

next-is_in_use :
    (m : ControlMode) (k : Option KeyFunction) → is_in_use m ≡ true → is_in_use (next m k) ≡ true
unfolding transit
next-is_in_use m k h = ground arith

-- Whatever keys come, the quadruped, which starts in the passive mode, gets neither into the trotting
-- nor into the base moving mode.
pub run-is_in_use : (ks : List (Option KeyFunction)) → is_in_use (run ControlMode.passive ks) ≡ true
run-is_in_use ks = go ks ControlMode.passive refl
  where
    go :
        (ks : List (Option KeyFunction)) (m : ControlMode)
        → is_in_use m ≡ true
        → is_in_use (run m ks) ≡ true
    go [] m h = h
    go (k ∷ ks) m h = go ks (next m k) (next-is_in_use m k h)

-- The keys that lead back to the passive mode.
abbrev pub way_home : ControlMode → List (Option KeyFunction)
way_home ControlMode.passive = []
way_home ControlMode.lying_down = some KeyFunction.passive_mode ∷ []
way_home ControlMode.fixed_stand =
    some KeyFunction.fixed_stand_mode ∷ some KeyFunction.passive_mode ∷ []
way_home other =
    some KeyFunction.fixed_stand_mode
    ∷ some KeyFunction.fixed_stand_mode
    ∷ some KeyFunction.passive_mode
    ∷ []

-- From every mode in use, at most three keys lead to the passive mode.
pub run-way_home :
    (m : ControlMode)
    → is_in_use m ≡ true
    → (run m (way_home m) ≡ ControlMode.passive) × (length (way_home m) ≤ 3)
unfolding transit
run-way_home m h = ground arith

-- Among the modes in use, the passive mode is entered only from lying down, by its key.
pub next-passive :
    (m : ControlMode) (k : Option KeyFunction)
    → next m k ≡ ControlMode.passive
    → is_in_use m ≡ true
    → (m ≡ ControlMode.passive)
      ⊎ ((m ≡ ControlMode.lying_down) × (k ≡ some KeyFunction.passive_mode))
unfolding transit
next-passive m k e h = ground (arith, e)
