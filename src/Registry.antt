-- ===== src/Registry.antt =====
-- The registry of the agents of a tenant, apps/api/agent_control/registry/service.py: registration,
-- change and status of an agent, with its health and its credentials below.
pub mod Credentials
pub mod Health
pub mod Isolation
pub mod Revoked
pub mod Keys
pub mod Withdrawn
pub mod Issued
use Prim.Native.Char.{code}
use Prim.Native.String.{String, ◌++◌ as str_append}
use mission_control_platform.Prelude.{
  ℕ, ◌+◌, ◌-◌, ◌/◌, Bool, true, false, not, ◌&&◌, ◌||◌, Option, none, some, List, [], ◌∷◌, ◌++◌,
  ◌==◌, leb, ltb, opt_eq, any_of, find_first, length, select, str_eq, update_where, if◌then◌else◌,
}
use mission_control_platform.Prelude.Int.{ℤ, pos, negsuc}
use mission_control_platform.Redaction.{is_space}
use mission_control_platform.Errors.{Result, Error, ok, err, ◌>>=◌, ◌>>◌}
use mission_control_platform.StateMachines.{RunState, run, is_terminal}
use mission_control_platform.Access.{HostContext}
use mission_control_platform.Rows.{
  Uuid, Time, Agent, AgentState, RegistryStatus, AgentCredential, AgentRun, AgentAlert,
}
use mission_control_platform.Alerts.{is_unresolved}
use mission_control_platform.Security.{Draw, Generated, generate_agent_credential}
use mission_control_platform.Store.{
  Env, Store, Service, RawId, as_uuid, tenant, truthy, with_ok, or_not_found,
}

-- `str.strip()`.
unfoldable pub lstrip_text : String → String
unfolding is_space
lstrip_text String.[] = ""
lstrip_text (String.◌∷◌ c t) =
    let rest = lstrip_text t in if is_space (code c) then rest else String.◌∷◌ c t

unfoldable pub rstrip_text : String → String
unfolding is_space
rstrip_text String.[] = ""
rstrip_text (String.◌∷◌ c t) =
    let rest = rstrip_text t in
    if is_space (code c) && str_eq rest "" then "" else String.◌∷◌ c rest

-- `":" in text`.
unfoldable pub has_colon : String → Bool
has_colon String.[] = false
has_colon (String.◌∷◌ c t) = (code c == 58) || has_colon t

pub record AgentCreate : Type 0 where
  pub local_key : String
  pub display_name : Option String
  pub description : Option String
  pub runtime : Option String
  pub provider : Option String
  pub client_version : Option String
  pub environment : Option String
  pub capabilities : List String

-- A field that a change leaves out is `none`; one that it sets to null is `some none`.
pub record AgentUpdate : Type 0 where
  pub display_name : Option (Option String)
  pub description : Option (Option String)
  pub runtime : Option (Option String)
  pub provider : Option (Option String)
  pub client_version : Option (Option String)
  pub environment : Option (Option String)
  pub capabilities : Option (Option (List String))

-- The test of the tenant and of the identifier.
abbrev pub is_agent_of : Uuid → HostContext → Agent → Bool
is_agent_of aid ctx a = (a.id == aid) && opt_eq a.installation_id (tenant ctx)

abbrev pub agent_by_id : Option Uuid → HostContext → Store → Option Agent
agent_by_id none ctx s = none
agent_by_id (some aid) ctx s = find_first (is_agent_of aid ctx) s.agents

-- `get_agent`.
unfoldable pub get_agent : HostContext → RawId → Store → Result Agent
get_agent ctx agent_id s = or_not_found (agent_by_id (as_uuid agent_id) ctx s)

-- `local_key.strip()`, if it may be a part of a key.
unfoldable pub parse_local_key : String → Result String
unfolding lstrip_text rstrip_text has_colon
parse_local_key t =
    let key = rstrip_text (lstrip_text t) in
    if str_eq key "" || has_colon key then err Error.validation_failed else ok key

abbrev pub or_default_text : Option String → String → String
or_default_text t d = elim (truthy t) [ some u ↦ u | none ↦ d ]

unfoldable pub new_agent : Env → HostContext → AgentCreate → String → String → Uuid → Agent
new_agent env ctx body key agent_key id = record {
  id = id;
  agent_key = agent_key;
  installation_id = tenant ctx;
  project_id = none;
  state = AgentState.idle;
  task = none;
  progress = pos 0;
  last_heartbeat = none;
  display_name = some (or_default_text body.display_name key);
  description = body.description;
  runtime = body.runtime;
  provider = body.provider;
  client_version = body.client_version;
  environment = body.environment;
  capabilities = body.capabilities;
  status = RegistryStatus.active;
  registered_by = ctx.user.local_user_id;
  registered_at = some env.now;
  revoked_at = none;
  last_sequence = 0;
}

-- The key of an agent, from those of its installation and of itself.
abbrev pub agent_key_of : HostContext → String → String
agent_key_of ctx key = str_append ctx.installation.installation_key (str_append ":" key)

abbrev pub key_taken : String → List Agent → Bool
key_taken key = any_of (λ a. str_eq a.agent_key key)

-- `register_agent`.
unfoldable pub register_agent : Env → HostContext → AgentCreate → Service Agent
unfolding parse_local_key new_agent
register_agent env ctx body s = with_ok (parse_local_key body.local_key) s λ key.
    let a = new_agent env ctx body key (agent_key_of ctx key) s.next_id in
    if key_taken (agent_key_of ctx key) s.agents
    then (err Error.conflict, s)
    else (ok a, record s { agents = s.agents ++ a ∷ []; next_id = s.next_id + 1 })

abbrev pub put_agent : Agent → (Agent → Agent) → Store → Store
put_agent a f s = record s { agents = update_where (λ b. b.id == a.id) f s.agents }

abbrev set : {A : Type 0} → Option A → A → A
set none old = old
set (some new) old = new

abbrev set_present : {A : Type 0} → Option (Option A) → A → A
set_present (some (some new)) old = new
set_present value old = old

unfoldable pub changed : AgentUpdate → Agent → Agent
changed body a = record a {
  display_name = set body.display_name a.display_name;
  description = set body.description a.description;
  runtime = set body.runtime a.runtime;
  provider = set body.provider a.provider;
  client_version = set body.client_version a.client_version;
  environment = set body.environment a.environment;
  capabilities = set_present body.capabilities a.capabilities;
}

-- `update_agent`.
unfoldable pub update_agent : HostContext → RawId → AgentUpdate → Service Agent
unfolding get_agent changed
update_agent ctx agent_id body s =
    with_ok (get_agent ctx agent_id s) s λ a. (ok (changed body a), put_agent a (changed body) s)

-- The members of `_REGISTRY_STATUSES`.
unfoldable pub registry_status : String → Option RegistryStatus
registry_status t =
    if str_eq t "active"
    then some RegistryStatus.active
    else if str_eq t "suspended"
    then some RegistryStatus.suspended
    else if str_eq t "revoked"
    then some RegistryStatus.revoked
    else if str_eq t "archived"
    then some RegistryStatus.archived
    else none

abbrev pub valid_status : Option RegistryStatus → Result RegistryStatus
valid_status none = err Error.validation_failed
valid_status (some status) = ok status

abbrev pub first_revocation : Option Time → Time → Option Time
first_revocation none now = some now
first_revocation (some t) now = some t

-- The time of revocation under a new status.
abbrev pub revocation : RegistryStatus → Time → Option Time → Option Time
revocation RegistryStatus.archived now old = first_revocation old now
revocation RegistryStatus.active now old = none
revocation status now old = old

unfoldable pub with_status : RegistryStatus → Time → Agent → Agent
with_status status now a = record a {
  status = status;
  revoked_at = revocation status now a.revoked_at;
}

-- `set_status`.
unfoldable pub set_status : Env → HostContext → RawId → String → Service Agent
unfolding registry_status get_agent with_status
set_status env ctx agent_id new_status s =
    with_ok
      (valid_status (registry_status new_status) >>= λ status.
        get_agent ctx agent_id s >>= λ a. ok (status, a))
      s
      λ (status, a). (ok (with_status status env.now a), put_agent a (with_status status env.now) s)
