-- ===== src/Examples/Telemetry.antt =====
-- Examples of the ingest of events and heartbeats.
use mission_control_platform.Prelude.{
  ℕ, none, ◌≡◌, ◌≤◌, refl, some, List, [], ◌∷◌, All, sort_by, insert_by,
}
use mission_control_platform.Json.{end}
use mission_control_platform.Errors.{ok}
use mission_control_platform.StateMachines.{is_terminal}
use mission_control_platform.Rows.{AgentState}
use mission_control_platform.Store.{Env, Store}
use mission_control_platform.Commands.Delivery.{
  AgentCredentialContext, require_scope, use_credential,
}
use mission_control_platform.Outbox.{event_types}
use mission_control_platform.Ingest.{EventEnvelope, parse_dt, replace_z, project_run}
use mission_control_platform.Ingest.Batch.{
  IngestEventsResponse, ingest_events, check_batch, take_each, take_in, verdict, accept,
  project_event, in_sequence, put_sequence,
}
use mission_control_platform.Ingest.Heartbeat.{HeartbeatIn}
use mission_control_platform.Ingest.Appended.{Appended, ingest_events-Appended}
use mission_control_platform.Ingest.Replay.{next_context, ingest_events-replay}
use mission_control_platform.Ingest.Newest.{
  Beat, all_beats, NoLater, last_moment, Newest, all_beats-Newest,
}
use mission_control_platform.Ingest.RunsMoved.{MovedRows, project_run-MovedRows}
use mission_control_platform.Ingest.RunsKept.{HasMilestones, project_run-HasMilestones}
use mission_control_platform.Examples.{env, agent, run as row, start, caller}

abbrev event : EventEnvelope
event = record {
  event_id = "e1";
  agent_key = "main:builder";
  sequence = 4;
  event_type = "run.succeeded";
  occurred_at = "2026-01-01T00:00:00Z";
  payload = end;
  run_id = some "r";
  project_id = none;
  task_id = none;
  trace_id = none;
  client_version = none;
}

abbrev again : EventEnvelope
again = record event { sequence = 5 }

abbrev stale_event : EventEnvelope
stale_event = record event { event_id = "e0"; sequence = 2 }

abbrev producer : AgentCredentialContext
producer = record caller { scopes = "ingest" ∷ [] }

abbrev batch : List EventEnvelope
batch = again ∷ event ∷ stale_event ∷ []

-- The text of the run's identifier is read as that of the run.
abbrev here : Env
here = record env { uuid_of = λ t. some 5 }

abbrev answer : IngestEventsResponse
answer = record { accepted = 1; duplicates = 1; rejected = 1; last_sequence = 4 }

abbrev ingested : Store
ingested = (ingest_events here producer batch start).1

batch_taken : ingest_events here producer batch start ≡ (ok answer, ingested)
unfolding ingest_events check_batch require_scope take_each take_in verdict parse_dt replace_z
    accept project_event in_sequence sort_by insert_by event_types
batch_taken = refl

ingest_events-Appended_example : Appended here producer batch start answer ingested
ingest_events-Appended_example =
    ingest_events-Appended here producer batch start answer ingested batch_taken

ingest_events-replay_example :
    (r : IngestEventsResponse) × (ingest_events
        (record here { now = 5000 })
        (next_context producer answer)
        batch
        ingested
      ≡ (ok r, use_credential producer 5000 (put_sequence agent 4 ingested)))
    × (r.accepted ≡ 0)
    × (r.last_sequence ≡ 4)
ingest_events-replay_example =
    ingest_events-replay here producer batch start answer ingested 5000 batch_taken

-- The run succeeds.
project_run-MovedRows_example : MovedRows (row ∷ []) (project_run here agent event 800 start).runs
project_run-MovedRows_example = project_run-MovedRows here agent event 800 start (tt, tt)

running-HasMilestones : All HasMilestones start.runs
unfolding is_terminal
running-HasMilestones = ((refl, λ e. refl), tt)

project_run-HasMilestones_example : All HasMilestones (project_run here agent event 800 start).runs
project_run-HasMilestones_example =
    project_run-HasMilestones here agent event 800 start running-HasMilestones

abbrev heartbeat : HeartbeatIn
heartbeat = record {
  agent_key = "main:builder";
  state = "working";
  task = none;
  progress = none;
  sequence = none;
}

abbrev numbered : ℕ → HeartbeatIn
numbered n = record heartbeat { sequence = some n }

-- Four heartbeats, of which one has no sequence and the last is old.
abbrev four_beats : List Beat
four_beats =
    record { moment = 900; state = AgentState.working; body = numbered 5 }
    ∷ record { moment = 910; state = AgentState.blocked; body = numbered 7 }
    ∷ record { moment = 920; state = AgentState.done; body = record heartbeat { sequence = none } }
    ∷ record { moment = 930; state = AgentState.idle; body = numbered 6 }
    ∷ []

all_beats-Newest_example :
    (3 ≤ (all_beats four_beats agent).last_sequence)
    × All (NoLater (all_beats four_beats agent).last_sequence) four_beats
    × ((all_beats four_beats agent).last_heartbeat ≡ last_moment four_beats none)
    × Newest agent four_beats (all_beats four_beats agent)
all_beats-Newest_example = all_beats-Newest four_beats agent
