-- ===== src/Ingest/Heartbeat.antt =====
-- The heartbeat of an agent, `ingest_heartbeat_v1` of apps/api/agent_control/ingest/service.py.
use Prim.Native.String.{◌++◌ as str_append}
use mission_control_platform.Prelude.{
  ℕ, ◌+◌, String, Bool, false, not, Option, none, some, [], ◌∷◌, ◌++◌, ◌==◌, ltb, or_else, str_eq,
  update_where, if◌then◌else◌,
}
use mission_control_platform.Prelude.Int.{ℤ}
use mission_control_platform.Json.{num, str, end, field}
use mission_control_platform.Errors.{Result, Error, ok, err, ◌>>◌}
use mission_control_platform.Rows.{Time, Agent, AgentState}
use mission_control_platform.Store.{Env, Store, Service, with_ok, uuid_text}
use mission_control_platform.Commands.Delivery.{
  AgentCredentialContext, require_scope, use_credential,
}

pub record HeartbeatIn : Type 0 where
  pub agent_key : String
  pub state : String
  pub task : Option String
  pub progress : Option ℤ
  pub sequence : Option ℕ

pub record HeartbeatOut : Type 0 where
  pub agent_key : String
  pub state : AgentState
  pub last_sequence : ℕ
  pub last_heartbeat : Option Time
  pub applied : Bool

-- The states that a heartbeat may give: `AgentState(body.state)` without `stale`.
unfoldable pub heartbeat_state : String → Result AgentState
heartbeat_state t =
    if str_eq t "idle"
    then ok AgentState.idle
    else if str_eq t "working"
    then ok AgentState.working
    else if str_eq t "blocked"
    then ok AgentState.blocked
    else if str_eq t "done"
    then ok AgentState.done
    else if str_eq t "error"
    then ok AgentState.error
    else err Error.validation_failed

abbrev pub state_text : AgentState → String
state_text AgentState.idle = "idle"
state_text AgentState.working = "working"
state_text AgentState.blocked = "blocked"
state_text AgentState.done = "done"
state_text AgentState.error = "error"
state_text AgentState.stale = "stale"

-- A heartbeat that is older than the last sequence.
abbrev pub is_old : Option ℕ → ℕ → Bool
is_old none last = false
is_old (some n) last = ltb n last

abbrev pub newer : Option ℕ → ℕ → ℕ
newer none last = last
newer (some n) last = if ltb last n then n else last

abbrev pub or_keep : {A : Type 0} → Option A → Option A → Option A
or_keep none old = old
or_keep (some a) old = some a

-- The row after a heartbeat. An old one only shows that the agent lives.
unfoldable pub beat : Time → AgentState → HeartbeatIn → Agent → Agent
beat now state body a =
    if is_old body.sequence a.last_sequence
    then record a { last_heartbeat = some now }
    else record a {
      last_heartbeat = some now;
      state = state;
      task = or_keep body.task a.task;
      progress = or_else body.progress a.progress;
      last_sequence = newer body.sequence a.last_sequence;
    }

abbrev announce_beat : HeartbeatIn → Agent → Store → Store
announce_beat body a s = record s {
  outbox =
      s.outbox
      ++ record {
        installation_id = a.installation_id;
        event_id = uuid_text s.next_id;
        event_type = "agent.heartbeat";
        topic = str_append "agent:" (uuid_text a.id);
        sequence = body.sequence;
        payload =
            field "agent_key" (str a.agent_key)
              (field "state" (str (state_text a.state)) (field "progress" (num a.progress) end));
        status = "pending";
      }
        ∷ [];
  next_id = s.next_id + 1;
}

abbrev put_agent : Agent → Store → Store
put_agent a s = record s { agents = update_where (λ b. b.id == a.id) (λ b. a) s.agents }

unfoldable pub write_beat : Env → AgentCredentialContext → HeartbeatIn → AgentState → Store → Store
unfolding beat use_credential
write_beat env ctx body state s =
    let a = beat env.now state body ctx.agent in
    use_credential ctx env.now (
      if is_old body.sequence ctx.agent.last_sequence
      then put_agent a s
      else announce_beat body a (put_agent a s))

unfoldable pub ingest_heartbeat : Env → AgentCredentialContext → HeartbeatIn → Service HeartbeatOut
unfolding require_scope heartbeat_state write_beat
ingest_heartbeat env ctx body s =
    with_ok
      (require_scope ctx "ingest"
        >> (if str_eq body.agent_key ctx.agent.agent_key
            then heartbeat_state body.state
            else err Error.permission_denied))
      s
      λ state.
        let a = beat env.now state body ctx.agent in
        (
          ok (record {
            agent_key = a.agent_key;
            state = a.state;
            last_sequence = a.last_sequence;
            last_heartbeat = a.last_heartbeat;
            applied = not (is_old body.sequence ctx.agent.last_sequence);
          }),
          write_beat env ctx body state s,
        )
