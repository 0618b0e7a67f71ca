-- ===== src/Outbox.antt =====
-- The frozen catalogue of events, apps/api/integrations/events_catalog.py, and the writer of the
-- operations' events, apps/api/agent_control/operations/outbox.py.
use Prim.Native.String.{◌++◌ as str_append}
use mission_control_platform.Prelude.{
  ◌+◌, String, Option, none, some, List, [], ◌∷◌, ◌++◌, str_eq, text_in, if◌then◌else◌,
}
use mission_control_platform.Json.{Json, Fields, end, field}
use mission_control_platform.Redaction.{redact_dict}
use mission_control_platform.Errors.{Result, Error, ok, err}
use mission_control_platform.Rows.{Uuid}
use mission_control_platform.Store.{Env, Store, uuid_text}

unfoldable pub event_types : List String
event_types =
    "agent.registered" ∷ "agent.updated" ∷ "agent.suspended" ∷ "agent.resumed" ∷ "agent.revoked"
    ∷ "agent.archived" ∷ "agent.heartbeat" ∷ "run.queued" ∷ "run.starting" ∷ "run.running"
    ∷ "run.waiting_approval" ∷ "run.blocked" ∷ "run.succeeded" ∷ "run.failed" ∷ "run.cancelled"
    ∷ "run.timed_out" ∷ "run.step.started" ∷ "run.step.completed" ∷ "run.step.failed"
    ∷ "command.queued" ∷ "command.delivered" ∷ "command.acknowledged" ∷ "command.succeeded"
    ∷ "command.failed" ∷ "command.expired" ∷ "command.cancelled" ∷ "approval.requested"
    ∷ "approval.approved" ∷ "approval.rejected" ∷ "approval.expired" ∷ "approval.cancelled"
    ∷ "alert.opened" ∷ "alert.acknowledged" ∷ "alert.resolved" ∷ "usage.recorded"
    ∷ "budget.threshold_reached" ∷ "budget.exceeded" ∷ []

-- `emit_outbox`: an event for the relay, masked as it is written. It commits nothing.
unfoldable pub emit_outbox : Env → Option Uuid → String → String → Fields → Store → Result Store
unfolding event_types redact_dict
emit_outbox env installation_id event_type topic payload s =
    if text_in event_type event_types
    then ok (record s {
      outbox =
          s.outbox
          ++ record {
            installation_id = installation_id;
            event_id = uuid_text s.next_id;
            event_type = event_type;
            topic = topic;
            sequence = none;
            payload = redact_dict env.unicode (some payload);
            status = "pending";
          }
            ∷ [];
      next_id = s.next_id + 1;
    })
    else err Error.outside_catalog

-- The value under a key of a payload.
abbrev pub get_field : String → Fields → Option Json
get_field k end = none
get_field k (field j v fs) = if str_eq j k then some v else get_field k fs

-- `f"run:{run_id}" if run_id else f"agent:{agent_id}"`, a topic of the relay.
unfoldable pub run_topic : Option Uuid → Uuid → String
run_topic none agent_id = str_append "agent:" (uuid_text agent_id)
run_topic (some run_id) agent_id = str_append "run:" (uuid_text run_id)
