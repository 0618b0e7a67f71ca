-- ===== src/Ingest/Batch.antt =====
-- The ingest of a batch, `ingest_events` of apps/api/agent_control/ingest/service.py.
use mission_control_platform.Prelude.{
  ℕ, ◌+◌, String, Bool, true, false, not, ◌&&◌, ◌||◌, Option, none, some, List, [], ◌∷◌, ◌++◌, ◌==◌,
  map, leb, ltb, any_of, length, select, sort_by, str_eq, text_in, update_where, if◌then◌else◌,
}
use mission_control_platform.Errors.{Result, Error, ok, err, ◌>>=◌, ◌>>◌}
use mission_control_platform.Rows.{Time, Agent, AgentEvent, OutboxEvent}
use mission_control_platform.Store.{Env, Store, Service, with_ok}
use mission_control_platform.Outbox.{event_types}
use mission_control_platform.Commands.Delivery.{
  AgentCredentialContext, require_scope, use_credential,
}
use mission_control_platform.Ingest.{
  EventEnvelope, parse_dt, event_uuid, project_run, project_usage, topic_for_event,
}

pub record IngestEventsResponse : Type 0 where
  pub accepted : ℕ
  pub duplicates : ℕ
  pub rejected : ℕ
  pub last_sequence : ℕ

-- What the loop over a batch keeps: its counts, the events that it has taken in and the sequence.
pub record Progress : Type 0 where
  pub accepted : ℕ
  pub duplicates : ℕ
  pub rejected : ℕ
  pub seen : List String
  pub last_seq : ℕ

-- The identifiers of the batch that the log of the agent holds already.
unfoldable pub existing_ids : Agent → List EventEnvelope → Store → List String
existing_ids agent events s =
    map (λ e. e.event_id)
      (select (λ e. (e.agent_id == agent.id) && text_in e.event_id (map (λ ev. ev.event_id) events))
        s.events)

unfoldable pub logged : Env → AgentCredentialContext → EventEnvelope → Time → AgentEvent
logged env ctx ev at = record {
  installation_id = ctx.agent.installation_id;
  agent_id = ctx.agent.id;
  event_id = ev.event_id;
  sequence = ev.sequence;
  event_type = ev.event_type;
  payload = ev.payload;
  occurred_at = at;
  request_id = ctx.credential.key_prefix;
  run_id = event_uuid env ev.run_id;
  project_id = event_uuid env ev.project_id;
  task_id = event_uuid env ev.task_id;
  trace_id = ev.trace_id;
  client_version = ev.client_version;
}

unfoldable pub announced : Agent → EventEnvelope → OutboxEvent
unfolding topic_for_event
announced agent ev = record {
  installation_id = agent.installation_id;
  event_id = ev.event_id;
  event_type = ev.event_type;
  topic = topic_for_event ev agent;
  sequence = some ev.sequence;
  payload = ev.payload;
  status = "pending";
}

-- The projections of an event, on the runs and on the consumption.
unfoldable pub project_event : Env → Agent → EventEnvelope → Time → Store → Result Store
project_event env agent ev at s =
    if str_eq ev.event_type "usage.recorded"
    then project_usage env agent ev at (project_run env agent ev at s)
    else ok (project_run env agent ev at s)

-- An event that is accepted: its line in the log, its event in the outbox and its projections.
unfoldable pub accept : Env → AgentCredentialContext → EventEnvelope → Time → Store → Result Store
unfolding logged announced
accept env ctx ev at s = project_event env ctx.agent ev at (record s {
  events = s.events ++ logged env ctx ev at ∷ [];
  outbox = s.outbox ++ announced ctx.agent ev ∷ [];
})

-- What happens to an event of the batch.
pub data Verdict : Type 0 where
  duplicate rejection : Verdict
  acceptance : Time → Verdict

abbrev pub in_order : Bool → Option Time → Verdict
in_order old none = Verdict.rejection
in_order true (some at) = Verdict.rejection
in_order false (some at) = Verdict.acceptance at

unfoldable pub verdict : Env → List String → Progress → EventEnvelope → Verdict
verdict env existing p ev =
    if text_in ev.event_id existing || text_in ev.event_id p.seen
    then Verdict.duplicate
    else if text_in ev.event_type event_types
    then in_order (leb ev.sequence p.last_seq) (parse_dt env ev.occurred_at)
    else Verdict.rejection

unfoldable pub take_in :
    Env
    → AgentCredentialContext
    → EventEnvelope
    → Verdict
    → Progress
    → Store
    → Result (Progress × Store)
take_in env ctx ev Verdict.duplicate p s = ok (record p { duplicates = p.duplicates + 1 }, s)
take_in env ctx ev Verdict.rejection p s = ok (record p { rejected = p.rejected + 1 }, s)
take_in env ctx ev (Verdict.acceptance at) p s = accept env ctx ev at s >>= λ t.
    ok (
      record p { accepted = p.accepted + 1; seen = ev.event_id ∷ p.seen; last_seq = ev.sequence },
      t,
    )

-- The loop of `ingest_events`.
unfoldable pub take_each :
    Env
    → AgentCredentialContext
    → List String
    → List EventEnvelope
    → Progress
    → Store
    → Result (Progress × Store)
unfolding take_in verdict
take_each env ctx existing [] p s = ok (p, s)
take_each env ctx existing (ev ∷ evs) p s =
    take_in env ctx ev (verdict env existing p ev) p s >>= λ (q, t).
    take_each env ctx existing evs q t

-- `sorted(events, key=lambda e: e.sequence)`.
unfoldable pub in_sequence : List EventEnvelope → List EventEnvelope
in_sequence = sort_by (λ a b. ltb a.sequence b.sequence)

abbrev pub begin : Agent → Progress
begin agent = record {
  accepted = 0;
  duplicates = 0;
  rejected = 0;
  seen = [];
  last_seq = agent.last_sequence;
}

-- The tests on the whole batch, in their order.
unfoldable pub check_batch : Env → AgentCredentialContext → List EventEnvelope → Result (Unit {0})
unfolding require_scope
check_batch env ctx events =
    require_scope ctx "ingest"
    >> (if ltb env.settings.mc_event_batch_max (length events)
        then err Error.validation_failed
        else if any_of (λ ev. not (str_eq ev.agent_key ctx.agent.agent_key)) events
        then err Error.permission_denied
        else ok tt)

unfoldable pub put_sequence : Agent → ℕ → Store → Store
put_sequence agent n s = record s {
  agents = update_where (λ a. a.id == agent.id) (λ a. record a { last_sequence = n }) s.agents;
}

-- What is committed after the loop.
unfoldable pub finish_batch : Env → AgentCredentialContext → Progress → Store → Store
unfolding put_sequence use_credential
finish_batch env ctx p s = use_credential ctx env.now (put_sequence ctx.agent p.last_seq s)

abbrev pub response : Progress → IngestEventsResponse
response p = record {
  accepted = p.accepted;
  duplicates = p.duplicates;
  rejected = p.rejected;
  last_sequence = p.last_seq;
}

unfoldable pub ingest_events :
    Env → AgentCredentialContext → List EventEnvelope → Service IngestEventsResponse
unfolding check_batch take_each in_sequence existing_ids finish_batch
ingest_events env ctx events s =
    with_ok
      (check_batch env ctx events
        >> take_each env ctx (existing_ids ctx.agent events s) (in_sequence events)
            (begin ctx.agent) s)
      s λ (p, t). (ok (response p), finish_batch env ctx p t)
