-- ===== src/Registry/Health.antt =====
-- The health of an agent, `agent_health` of apps/api/agent_control/registry/service.py.
use Prim.Native.String.{String}
use mission_control_platform.Prelude.{
  ℕ, ◌-◌, ◌/◌, Bool, true, false, ◌&&◌, Option, none, some, ◌==◌, leb, ltb, opt_eq, length, select,
  str_eq, if◌then◌else◌,
}
use mission_control_platform.Prelude.Int.{ℤ, pos, negsuc}
use mission_control_platform.Errors.{Result, ok, ◌>>=◌}
use mission_control_platform.StateMachines.{RunState}
use mission_control_platform.Access.{HostContext}
use mission_control_platform.Rows.{Time, Agent, AgentState, RegistryStatus, AgentAlert}
use mission_control_platform.Alerts.{is_unresolved}
use mission_control_platform.Store.{Env, Store, RawId, tenant}
use mission_control_platform.Registry.{get_agent}

pub record AgentHealthOut : Type 0 where
  pub agent_key : String
  pub status : RegistryStatus
  pub state : AgentState
  pub last_heartbeat : Option Time
  pub seconds_since_heartbeat : Option ℤ
  pub healthy : Bool
  pub active_runs : ℕ
  pub open_alerts : ℕ

-- `int((now - t).total_seconds())`, which rounds towards zero.
unfoldable pub seconds_between : Time → Time → ℤ
seconds_between t now =
    if leb t now
    then pos ((now - t) / 1000000)
    else if ltb (t - now) 1000000
    then pos 0
    else negsuc ((t - now) / 1000000 - 1)

abbrev seconds_since : Option Time → Time → Option ℤ
seconds_since none now = none
seconds_since (some t) now = some (seconds_between t now)

-- `_stale_seconds`.
unfoldable pub stale_seconds : Env → ℕ
stale_seconds env = if env.settings.mc_stale_seconds == 0 then 30 else env.settings.mc_stale_seconds

abbrev is_fresh : ℕ → Option ℤ → Bool
is_fresh bound none = true
is_fresh bound (some (pos n)) = leb n bound
is_fresh bound (some (negsuc n)) = true

abbrev works : AgentState → Bool
works AgentState.stale = false
works AgentState.error = false
works AgentState.blocked = false
works live = true

abbrev is_active_agent : RegistryStatus → Bool
is_active_agent RegistryStatus.active = true
is_active_agent status = false

-- `_LIVE_RUN_STATES`.
abbrev is_live : RunState → Bool
is_live RunState.queued = true
is_live RunState.starting = true
is_live RunState.running = true
is_live RunState.waiting_approval = true
is_live RunState.blocked = true
is_live state = false

abbrev targets : Agent → AgentAlert → Bool
targets a x = elim (x.target_type) [
  | some t ↦ str_eq t "agent" && opt_eq x.target_id (some a.id)
  | none ↦ false
]

-- `agent_health`.
unfoldable pub agent_health : Env → HostContext → RawId → Store → Result AgentHealthOut
unfolding get_agent seconds_between stale_seconds
agent_health env ctx agent_id s = get_agent ctx agent_id s >>= λ a.
    let secs = seconds_since a.last_heartbeat env.now in
    ok (record {
      agent_key = a.agent_key;
      status = a.status;
      state = a.state;
      last_heartbeat = a.last_heartbeat;
      seconds_since_heartbeat = secs;
      healthy = is_active_agent a.status && (works a.state && is_fresh (stale_seconds env) secs);
      active_runs = length (
          select
            (λ r.
              (r.agent_id == a.id) && (opt_eq r.installation_id (tenant ctx) && is_live r.state))
            s.runs);
      open_alerts = length (
          select
            (λ x. opt_eq x.installation_id (tenant ctx) && (targets a x && is_unresolved x.status))
            s.alerts);
    })
