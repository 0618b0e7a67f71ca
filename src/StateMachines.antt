-- ===== src/StateMachines.antt =====
-- The frozen state machines of apps/api/integrations/state_machines.py: their states, their
-- transition tables, and the two functions that read the tables.
pub mod Terminal
pub mod Traces
use mission_control_platform.Prelude.{ℕ, Bool, true, false, List, [], ◌∷◌, ◌==◌, any_of, select}

pub data RunState : Type 0 where
  queued starting running waiting_approval blocked succeeded failed cancelled timed_out : RunState

pub data CommandState : Type 0 where
  queued delivered acknowledged succeeded failed expired cancelled : CommandState

pub data ApprovalState : Type 0 where
  pending approved rejected expired cancelled : ApprovalState

pub data AlertState : Type 0 where
  opened acknowledged resolved : AlertState

pub data CredentialState : Type 0 where
  active revoked expired : CredentialState

-- The keys of the registry of machines.
pub data Machine : Type 0 where
  run command approval alert credential : Machine

abbrev pub State : Machine → Type 0
State run = RunState
State command = CommandState
State approval = ApprovalState
State alert = AlertState
State credential = CredentialState

unfoldable pub run_transitions : RunState → List RunState
run_transitions RunState.queued = RunState.starting ∷ RunState.cancelled ∷ RunState.timed_out ∷ []
run_transitions RunState.starting = RunState.running ∷ RunState.failed ∷ RunState.cancelled ∷ []
run_transitions RunState.running =
    RunState.waiting_approval ∷ RunState.blocked ∷ RunState.succeeded ∷ RunState.failed
    ∷ RunState.cancelled ∷ RunState.timed_out ∷ []
run_transitions RunState.waiting_approval =
    RunState.running ∷ RunState.cancelled ∷ RunState.timed_out ∷ RunState.failed ∷ []
run_transitions RunState.blocked =
    RunState.running ∷ RunState.cancelled ∷ RunState.timed_out ∷ RunState.failed ∷ []
run_transitions RunState.succeeded = []
run_transitions RunState.failed = []
run_transitions RunState.cancelled = []
run_transitions RunState.timed_out = []

unfoldable pub command_transitions : CommandState → List CommandState
command_transitions CommandState.queued =
    CommandState.delivered ∷ CommandState.expired ∷ CommandState.cancelled ∷ []
command_transitions CommandState.delivered =
    CommandState.acknowledged ∷ CommandState.expired ∷ CommandState.cancelled ∷ []
command_transitions CommandState.acknowledged = CommandState.succeeded ∷ CommandState.failed ∷ []
command_transitions CommandState.succeeded = []
command_transitions CommandState.failed = []
command_transitions CommandState.expired = []
command_transitions CommandState.cancelled = []

unfoldable pub approval_transitions : ApprovalState → List ApprovalState
approval_transitions ApprovalState.pending =
    ApprovalState.approved ∷ ApprovalState.rejected ∷ ApprovalState.expired
    ∷ ApprovalState.cancelled ∷ []
approval_transitions ApprovalState.approved = []
approval_transitions ApprovalState.rejected = []
approval_transitions ApprovalState.expired = []
approval_transitions ApprovalState.cancelled = []

unfoldable pub alert_transitions : AlertState → List AlertState
alert_transitions AlertState.opened = AlertState.acknowledged ∷ AlertState.resolved ∷ []
alert_transitions AlertState.acknowledged = AlertState.resolved ∷ []
alert_transitions AlertState.resolved = []

unfoldable pub credential_transitions : CredentialState → List CredentialState
credential_transitions CredentialState.active =
    CredentialState.revoked ∷ CredentialState.expired ∷ []
credential_transitions CredentialState.revoked = []
credential_transitions CredentialState.expired = []

-- The registry, from a machine to its table.
unfoldable pub machines : (m : Machine) → State m → List (State m)
unfolding run_transitions command_transitions approval_transitions alert_transitions
    credential_transitions
machines run = run_transitions
machines command = command_transitions
machines approval = approval_transitions
machines alert = alert_transitions
machines credential = credential_transitions

-- The states of each machine, in the order of their declaration: the keys of its table.
abbrev pub states : (m : Machine) → List (State m)
states run =
    RunState.queued ∷ RunState.starting ∷ RunState.running ∷ RunState.waiting_approval
    ∷ RunState.blocked ∷ RunState.succeeded ∷ RunState.failed ∷ RunState.cancelled
    ∷ RunState.timed_out ∷ []
states command =
    CommandState.queued ∷ CommandState.delivered ∷ CommandState.acknowledged
    ∷ CommandState.succeeded ∷ CommandState.failed ∷ CommandState.expired ∷ CommandState.cancelled
    ∷ []
states approval =
    ApprovalState.pending ∷ ApprovalState.approved ∷ ApprovalState.rejected ∷ ApprovalState.expired
    ∷ ApprovalState.cancelled ∷ []
states alert = AlertState.opened ∷ AlertState.acknowledged ∷ AlertState.resolved ∷ []
states credential = CredentialState.active ∷ CredentialState.revoked ∷ CredentialState.expired ∷ []

-- A number for each state, by which two states of a machine are compared.
abbrev pub position : (m : Machine) → State m → ℕ
position run RunState.queued = 0
position run RunState.starting = 1
position run RunState.running = 2
position run RunState.waiting_approval = 3
position run RunState.blocked = 4
position run RunState.succeeded = 5
position run RunState.failed = 6
position run RunState.cancelled = 7
position run RunState.timed_out = 8
position command CommandState.queued = 0
position command CommandState.delivered = 1
position command CommandState.acknowledged = 2
position command CommandState.succeeded = 3
position command CommandState.failed = 4
position command CommandState.expired = 5
position command CommandState.cancelled = 6
position approval ApprovalState.pending = 0
position approval ApprovalState.approved = 1
position approval ApprovalState.rejected = 2
position approval ApprovalState.expired = 3
position approval ApprovalState.cancelled = 4
position alert AlertState.opened = 0
position alert AlertState.acknowledged = 1
position alert AlertState.resolved = 2
position credential CredentialState.active = 0
position credential CredentialState.revoked = 1
position credential CredentialState.expired = 2

-- Equality of two states of a machine.
abbrev pub same : (m : Machine) → State m → State m → Bool
same m a b = position m a == position m b

abbrev pub is_empty {ℓ} : {A : Type ℓ} → List A → Bool
is_empty [] = true
is_empty (x ∷ xs) = false

unfoldable pub terminal_states : (m : Machine) → List (State m)
unfolding machines
terminal_states m = select (λ s. is_empty (machines m s)) (states m)

unfoldable pub can_transition : (m : Machine) → State m → State m → Bool
unfolding machines
can_transition m src dst = any_of (λ s. same m s dst) (machines m src)

-- Membership in the set that `terminal_states` returns.
unfoldable pub is_terminal : (m : Machine) → State m → Bool
unfolding terminal_states
is_terminal m s = any_of (λ t. same m t s) (terminal_states m)
