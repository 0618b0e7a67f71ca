-- ===== src/Registry/Credentials.antt =====
-- The credentials of the agents in apps/api/agent_control/registry/service.py: emission, rotation and
-- revocation.
use Prim.Native.String.{String}
use mission_control_platform.Prelude.{
  ◌+◌, Bool, true, false, ◌&&◌, Option, none, some, List, [], ◌∷◌, ◌++◌, ◌==◌, find_first,
  update_where, if◌then◌else◌,
}
use mission_control_platform.Errors.{Result, Error, ok, err, ◌>>=◌}
use mission_control_platform.Access.{HostContext}
use mission_control_platform.Rows.{Uuid, Time, Agent, RegistryStatus, AgentCredential}
use mission_control_platform.Security.{Draw, Generated, generate_agent_credential}
use mission_control_platform.Store.{Env, Store, Service, RawId, as_uuid, with_ok, or_not_found}
use mission_control_platform.Registry.{get_agent, first_revocation}

pub record CredentialCreate : Type 0 where
  pub scopes : List String
  pub expires_at : Option Time

-- An agent that gets no credential any more.
abbrev pub is_closed_agent : RegistryStatus → Bool
is_closed_agent RegistryStatus.revoked = true
is_closed_agent RegistryStatus.archived = true
is_closed_agent status = false

unfoldable pub new_credential :
    HostContext → Agent → Generated → List String → Option Time → Uuid → AgentCredential
new_credential ctx a g scopes expires_at id = record {
  id = id;
  agent_id = a.id;
  key_prefix = g.key_prefix;
  secret_hash = g.secret_hash;
  scopes = scopes;
  expires_at = expires_at;
  last_used_at = none;
  revoked_at = none;
  created_by = ctx.user.local_user_id;
}

abbrev pub add_credential : AgentCredential → Store → Store
add_credential c s = record s { credentials = s.credentials ++ c ∷ []; next_id = s.next_id + 1 }

-- `create_credential`: the credential and the complete secret.
unfoldable pub create_credential :
    Env → HostContext → Draw → RawId → CredentialCreate → Service (AgentCredential × String)
unfolding get_agent new_credential
create_credential env ctx d agent_id body s =
    with_ok
      (get_agent ctx agent_id s >>= λ a.
        if is_closed_agent a.status then err Error.conflict else ok a)
      s
      λ a.
        let g = generate_agent_credential env d in
        let c = new_credential ctx a g body.scopes body.expires_at s.next_id in
        (ok (c, g.secret), add_credential c s)

abbrev pub credential_by_id : Option Uuid → Agent → Store → Option AgentCredential
credential_by_id none a s = none
credential_by_id (some cid) a s =
    find_first (λ c. (c.id == cid) && (c.agent_id == a.id)) s.credentials

-- `_get_credential`.
unfoldable pub get_credential : Agent → RawId → Store → Result AgentCredential
get_credential a credential_id s = or_not_found (credential_by_id (as_uuid credential_id) a s)

-- The agent and its credential.
abbrev pub get_both : HostContext → RawId → RawId → Store → Result (Agent × AgentCredential)
get_both ctx agent_id credential_id s =
    get_agent ctx agent_id s >>= λ a. get_credential a credential_id s >>= λ c. ok (a, c)

-- A credential that is revoked keeps the time at which it was.
unfoldable pub revoke_row : Uuid → Time → Store → Store
revoke_row id now s = record s {
  credentials =
      update_where (λ c. c.id == id)
        (λ c. record c { revoked_at = first_revocation c.revoked_at now }) s.credentials;
}

-- `rotate_credential`.
unfoldable pub rotate_credential :
    Env → HostContext → Draw → RawId → RawId → Service (AgentCredential × String)
unfolding get_agent get_credential new_credential revoke_row
rotate_credential env ctx d agent_id credential_id s =
    with_ok (get_both ctx agent_id credential_id s) s λ (a, old).
      let g = generate_agent_credential env d in
      let c = new_credential ctx a g old.scopes old.expires_at s.next_id in
      (ok (c, g.secret), add_credential c (revoke_row old.id env.now s))

-- `revoke_credential`.
unfoldable pub revoke_credential : Env → HostContext → RawId → RawId → Service (Unit {0})
unfolding get_agent get_credential revoke_row
revoke_credential env ctx agent_id credential_id s =
    with_ok (get_both ctx agent_id credential_id s) s λ (a, c). (ok tt, revoke_row c.id env.now s)
