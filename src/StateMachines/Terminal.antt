-- ===== src/StateMachines/Terminal.antt =====
-- The terminal states of the machines of apps/api/integrations/state_machines.py.
use mission_control_platform.Prelude.{◌≡◌, ◌↔◌, refl, Bool, true, false, arith}
use mission_control_platform.StateMachines.{
  Machine, State, RunState, CommandState, ApprovalState, AlertState, CredentialState, run, command,
  approval, alert, credential, can_transition, is_terminal,
}

-- A terminal state has no exit.
pub terminal_stuck :
    (m : Machine) (s d : State m) → is_terminal m s ≡ true → can_transition m s d ≡ false
unfolding is_terminal can_transition
terminal_stuck run s d h = ground arith
terminal_stuck command s d h = ground arith
terminal_stuck approval s d h = ground arith
terminal_stuck alert s d h = ground arith
terminal_stuck credential s d h = ground arith

-- Where a state that is not terminal can end at once.
abbrev closing : (m : Machine) → State m → State m
closing run s = RunState.cancelled
closing command CommandState.acknowledged = CommandState.failed
closing command s = CommandState.cancelled
closing approval s = ApprovalState.cancelled
closing alert s = AlertState.resolved
closing credential s = CredentialState.revoked

closing_lem :
    (m : Machine) (s : State m)
    → is_terminal m s ≡ false
    → (can_transition m s (closing m s) ≡ true) × (is_terminal m (closing m s) ≡ true)
unfolding is_terminal can_transition
closing_lem run s h = ground arith
closing_lem command CommandState.acknowledged h = ground arith
closing_lem command s h = ground arith
closing_lem approval s h = ground arith
closing_lem alert s h = ground arith
closing_lem credential s h = ground arith

-- In every machine, each state that is not terminal has an allowed transition to a terminal state.
pub can_close :
    (m : Machine) (s : State m)
    → is_terminal m s ≡ false
    → (d : State m) × (can_transition m s d ≡ true) × (is_terminal m d ≡ true)
can_close m s h = (closing m s, (closing_lem m s h).0, (closing_lem m s h).1)

-- In every machine, a state is listed as terminal exactly when no transition leaves it.
pub is_terminal_iff :
    (m : Machine) (s : State m)
    → (is_terminal m s ≡ true) ↔ ((d : State m) → can_transition m s d ≡ false)
is_terminal_iff m s = (λ h d. terminal_stuck m s d h, λ all. go (is_terminal m s) refl all)
  where
    go :
        (b : Bool) → is_terminal m s ≡ b → ((d : State m) → can_transition m s d ≡ false) → b ≡ true
    go true e all = refl
    go false e all = cc (all (closing m s), (closing_lem m s e).0)
