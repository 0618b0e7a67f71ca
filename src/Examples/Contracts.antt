-- ===== src/Examples/Contracts.antt =====
-- Examples of the state machines, the capabilities, the routes and the masking.
use mission_control_platform.Prelude.{
  ◌≡◌, ◌≢◌, ◌≤◌, refl, true, false, none, some, [], ◌∷◌, ◌++◌, All, arith,
}
use mission_control_platform.Json.{Json, str, end, field, obj}
use mission_control_platform.Redaction.{redact, redact_text, redacted, is_hex}
use mission_control_platform.Redaction.Mask.{IsMasked, redact-IsMasked}
use mission_control_platform.Redaction.Credential.{credential_masked}
use mission_control_platform.StateMachines.{
  RunState, CommandState, can_transition, is_terminal, machines, run_transitions,
  command_transitions, run, command,
}
use mission_control_platform.StateMachines.Terminal.{can_close}
use mission_control_platform.StateMachines.Traces.{
  Reaches, here, next, steps, steps_bounded, Visits, succeeded-Visits_running,
}
use mission_control_platform.Access.{
  Role, grants, role_capabilities, capabilities_for_role, has_at_least, operate, level,
}
use mission_control_platform.Access.Monotone.{capabilities_monotone}
use mission_control_platform.Routes.{post, get, required_auth, route_capabilities}
use mission_control_platform.Routes.Writes.{writes_need_more}
use mission_control_platform.Rows.{AuditLog}
use mission_control_platform.Audit.{AuditEntry, audit_from_context}
use mission_control_platform.Audit.Masked.{LineMasked, audit_from_context_masked}
use mission_control_platform.Examples.{ascii, env, ctx, start}

abbrev served : Reaches command CommandState.queued CommandState.failed
unfolding can_transition machines command_transitions
served =
    next {t = CommandState.acknowledged}
      (next {t = CommandState.delivered} (next {t = CommandState.queued} here refl) refl) refl

abbrev worked : Reaches run RunState.queued RunState.succeeded
unfolding can_transition machines run_transitions
worked =
    next {t = RunState.running}
      (next {t = RunState.starting} (next {t = RunState.queued} here refl) refl) refl

abbrev payload : Json
payload = obj (field "token" (str "abc") end)

abbrev entry : AuditEntry
entry = record {
  action = "command.submitted";
  target_type = some "command";
  target_id = none;
  before = none;
  after = some (field "token" (str "abc") end);
  ip = some "10.0.0.1";
  metadata = none;
}

not_run : command ≢ run
not_run h = cc

steps_bounded_example :
    (steps served ≤ 4) × (CommandState.queued ≡ CommandState.failed → steps served ≡ 0)
steps_bounded_example = steps_bounded command served not_run

not_succeeded : RunState.queued ≢ RunState.succeeded
not_succeeded h = cc

succeeded-Visits_running_example : Visits RunState.running worked
succeeded-Visits_running_example = succeeded-Visits_running worked not_succeeded refl

can_close_example :
    (d : RunState) × (can_transition run RunState.queued d ≡ true) × (is_terminal run d ≡ true)
unfolding is_terminal
can_close_example = can_close run RunState.queued refl

capabilities_monotone_example : grants (capabilities_for_role (some "pm")) operate ≡ true
unfolding has_at_least role_capabilities level
capabilities_monotone_example = capabilities_monotone "pm" Role.developer operate refl refl

not_get : post ≢ get
not_get h = cc

writes_need_more_example : grants (role_capabilities Role.viewer) operate ≡ false
unfolding required_auth route_capabilities
writes_need_more_example =
    writes_need_more post "/agent-control/v1/alerts/{id}/resolve" operate not_get refl

redact-IsMasked_example :
    IsMasked ascii (redact ascii payload)
    × (IsMasked ascii payload → redact ascii payload ≡ payload)
redact-IsMasked_example = redact-IsMasked ascii payload

credential_masked_example : redact_text ascii "ac_0123ab.x" ≡ redacted
unfolding is_hex
credential_masked_example =
    credential_masked ascii "ac_0123ab.x" (48 ∷ 49 ∷ 50 ∷ 51 ∷ 97 ∷ 98 ∷ []) (120 ∷ []) refl refl
      (omega arith)

audit_from_context_masked_example :
    (l : AuditLog) × ((audit_from_context env ctx entry start).audits ≡ [] ++ l ∷ [])
    × All (LineMasked ascii) (audit_from_context env ctx entry start).audits
audit_from_context_masked_example = audit_from_context_masked env ctx entry start tt
