-- ===== src/Examples/Fleet.antt =====
-- Examples of the registry of the agents and of their credentials.
use mission_control_platform.Prelude.{
  String, none, ◌≡◌, ◌≢◌, ◌<◌, refl, some, [], ◌∷◌, find_first, str_eq, arith,
}
use mission_control_platform.Errors.{Error, ok, err}
use mission_control_platform.Rows.{AgentCredential, is_usable}
use mission_control_platform.Store.{Store, RawId}
use mission_control_platform.Commands.Delivery.{AgentCredentialContext}
use mission_control_platform.Security.{
  Draw, generate_agent_credential, split_agent_credential, before_sep, resolve_agent_credential,
}
use mission_control_platform.Registry.{
  AgentCreate, AgentUpdate, register_agent, update_agent, set_status, get_agent,
}
use mission_control_platform.Registry.Credentials.{
  CredentialCreate, create_credential, revoke_credential, get_credential, new_credential,
  revoke_row,
}
use mission_control_platform.Registry.Withdrawn.{Withdrawn, Step, Steps, withdrawn_never_resolves}
use mission_control_platform.Registry.Issued.{
  Answers, create_credential-Answers, revoke_credential-answer,
}
use mission_control_platform.Registry.Keys.{HasDistinctKeys, Steps-HasDistinctKeys}
use mission_control_platform.Registry.Isolation.{IsIsolated, registry-IsIsolated}
use mission_control_platform.Examples.{env, ctx, agent, start}

abbrev draw : Draw
draw = record { token_hex = "0a1b2c3d"; token_urlsafe = "s-e_c" }

abbrev wanted : CredentialCreate
wanted = record { scopes = "ingest" ∷ []; expires_at = some 9000 }

abbrev secret : String
secret = "ac_0a1b2c3d.s-e_c"

abbrev issued : Store
issued = (create_credential env ctx draw (RawId.uuid 7) wanted start).1

abbrev credential : AgentCredential
credential = record {
  id = 100;
  agent_id = 7;
  key_prefix = "ac_0a1b2c3d";
  secret_hash = "ac_0a1b2c3d.s-e_c";
  scopes = "ingest" ∷ [];
  expires_at = some 9000;
  last_used_at = none;
  revoked_at = none;
  created_by = some 2;
}

credential_issued :
    create_credential env ctx draw (RawId.uuid 7) wanted start ≡ (ok (credential, secret), issued)
unfolding create_credential get_agent generate_agent_credential new_credential
credential_issued = refl

no_separator : before_sep draw.token_hex ≡ none
unfolding before_sep
no_separator = refl

create_credential-Answers_example : Answers env 2000 credential secret issued
create_credential-Answers_example =
    create_credential-Answers env ctx draw (RawId.uuid 7) wanted start credential secret issued 2000
      no_separator refl credential_issued

abbrev revoked : Store
revoked = (revoke_credential env ctx (RawId.uuid 7) (RawId.uuid 100) issued).1

credential_revoked :
    revoke_credential env ctx (RawId.uuid 7) (RawId.uuid 100) issued ≡ (ok tt, revoked)
unfolding create_credential revoke_credential get_agent get_credential generate_agent_credential
    new_credential
credential_revoked = refl

secret_split : split_agent_credential secret ≡ some ("ac_0a1b2c3d", secret)
unfolding split_agent_credential
secret_split = refl

issued_found :
    find_first (λ k. str_eq k.key_prefix "ac_0a1b2c3d") issued.credentials ≡ some credential
unfolding create_credential get_agent generate_agent_credential new_credential
issued_found = refl

revoke_credential-answer_example :
    resolve_agent_credential env (some secret) revoked ≡ err Error.credential_revoked
revoke_credential-answer_example =
    revoke_credential-answer env env ctx (RawId.uuid 7) secret "ac_0a1b2c3d" credential issued
      revoked refl secret_split issued_found refl credential_revoked

-- Between the revocation and the request another credential is emitted.
abbrev second_draw : Draw
second_draw = record { token_hex = "ffffffff"; token_urlsafe = "x" }

abbrev after : Store
after = (create_credential env ctx second_draw (RawId.uuid 7) wanted revoked).1

emitted : Steps revoked after
emitted =
    Steps.one_more env revoked after after
      (Step.creates ctx second_draw (RawId.uuid 7) wanted revoked) (Steps.none_left after)

abbrev second : AgentCredentialContext
second = record {
  credential = record credential {
    id = 101;
    key_prefix = "ac_ffffffff";
    secret_hash = "ac_ffffffff.x";
  };
  agent = agent;
  scopes = "ingest" ∷ [];
}

made : 100 < issued.next_id
unfolding create_credential get_agent
made = omega arith

second_resolves : resolve_agent_credential env (some "ac_ffffffff.x") after ≡ ok second
unfolding resolve_agent_credential split_agent_credential is_usable create_credential
    revoke_credential get_agent get_credential generate_agent_credential new_credential revoke_row
second_resolves = refl

withdrawn_never_resolves_example : second.credential.id ≢ 100
withdrawn_never_resolves_example =
    withdrawn_never_resolves env 100 issued revoked after
      (Withdrawn.revoked ctx (RawId.uuid 7) issued revoked credential_revoked) made emitted env
      (some "ac_ffffffff.x") second second_resolves

abbrev newcomer : AgentCreate
newcomer = record {
  local_key = " helper";
  display_name = none;
  description = none;
  runtime = none;
  provider = none;
  client_version = none;
  environment = none;
  capabilities = [];
}

distinct : HasDistinctKeys start
distinct = (refl, tt)

Steps-HasDistinctKeys_example : HasDistinctKeys (register_agent env ctx newcomer start).1
Steps-HasDistinctKeys_example =
    Steps-HasDistinctKeys start (register_agent env ctx newcomer start).1
      (Steps.one_more env start _ _ (Step.registers ctx newcomer start) (Steps.none_left _))
      distinct

registry-IsIsolated_example :
    ((body : AgentCreate) → IsIsolated ctx start (register_agent env ctx body start).1)
    × ((body : AgentUpdate) → IsIsolated ctx start (update_agent ctx (RawId.uuid 7) body start).1)
    × ((status : String) → IsIsolated ctx start (set_status env ctx (RawId.uuid 7) status start).1)
registry-IsIsolated_example = registry-IsIsolated env ctx (RawId.uuid 7) start (tt, tt)
