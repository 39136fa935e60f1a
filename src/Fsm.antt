-- ===== src/Fsm.antt =====
-- src/control/fsm/include/fsm/fsm_template.hpp: `FiniteStateMachine`. What a state does in `Update`, and the
-- transition table, are parameters, as in the template.
use robosw.Base.{Option, none, some}

pub record FiniteStateMachine (State Context : Type 0) : Type 0 where
  pub current_state : State
  pub context : Context

module _ {State Context : Type 0} where
  -- `Update()`: the state acts, then may be left for another.
  unfoldable pub update :
      (State → Context → Context)
      → (State → Context → Option State × Context)
      → FiniteStateMachine State Context
      → FiniteStateMachine State Context
  update act transit m =
      let acted = act m.current_state m.context in
      let (new_state, context) = transit m.current_state acted in
      elim new_state [
        | none ↦ record m { context = context }
        | some state ↦ record { current_state = state; context = context }
      ]
