-- ===== src/Security.antt =====
-- The credentials of the agents: apps/api/core/security.py, and their resolution in
-- apps/api/agent_control/ingest/auth.py. The draws of the library `secrets` are arguments.
pub mod RoundTrip
use Prim.Native.Char.{code}
use Prim.Native.String.{String, ◌++◌ as str_append}
use mathlib.Core.Option
use mission_control_platform.Prelude.{
  Bool, true, false, Option, none, some, ◌==◌, find_first, str_eq, if◌then◌else◌,
}
use mission_control_platform.Errors.{Result, Error, ok, err, ◌>>=◌}
use mission_control_platform.Rows.{Uuid, Agent, AgentCredential, is_usable}
use mission_control_platform.Store.{Env, Store, truthy}
use mission_control_platform.Commands.Delivery.{AgentCredentialContext}

-- What `secrets` draws for a credential: `token_hex(4)` and `token_urlsafe(32)`.
pub record Draw : Type 0 where
  pub token_hex : String
  pub token_urlsafe : String

-- `AGENT_CREDENTIAL_SEP`.
abbrev pub agent_credential_sep : String
agent_credential_sep = "."

pub record Generated : Type 0 where
  pub key_prefix : String
  pub secret : String
  pub secret_hash : String

abbrev pub key_prefix_of : Draw → String
key_prefix_of d = str_append "ac_" d.token_hex

-- `generate_agent_credential`. The hash is the one of `hash_reset_token`.
unfoldable pub generate_agent_credential : Env → Draw → Generated
generate_agent_credential env d =
    let secret = str_append (key_prefix_of d) (str_append agent_credential_sep d.token_urlsafe) in
    record { key_prefix = key_prefix_of d; secret = secret; secret_hash = env.sha256_hex secret }

-- What precedes the first separator, `none` without one: the beginning of `secret.partition(sep)`.
unfoldable pub before_sep : String → Option String
before_sep String.[] = none
before_sep (String.◌∷◌ c t) =
    let rest = before_sep t in
    if code c == 46 then some "" else Option.map (λ p. String.◌∷◌ c p) rest

abbrev nonempty_prefix : String → Option String → Option (String × String)
nonempty_prefix secret none = none
nonempty_prefix secret (some p) = if str_eq p "" then none else some (p, secret)

-- `split_agent_credential`.
unfoldable pub split_agent_credential : String → Option (String × String)
unfolding before_sep
split_agent_credential secret = nonempty_prefix secret (before_sep secret)

-- `X or raise`.
abbrev pub required : {A : Type 0} → Error → Option A → Result A
required e none = err e
required e (some a) = ok a

-- The tests on a credential that was found.
abbrev pub check_credential : Env → String → AgentCredential → Result AgentCredential
check_credential env secret c =
    if str_eq (env.sha256_hex secret) c.secret_hash
    then if is_usable c env.now then ok c else err Error.credential_revoked
    else err Error.credential_invalid

abbrev pub context : AgentCredential → Agent → AgentCredentialContext
context c a = record { credential = c; agent = a; scopes = c.scopes }

-- `resolve_agent_credential`, of the header of a request.
unfoldable pub resolve_agent_credential :
    Env → Option String → Store → Result AgentCredentialContext
unfolding split_agent_credential is_usable
resolve_agent_credential env header s =
    required Error.credential_invalid (truthy header) >>= λ secret.
    required Error.credential_invalid (split_agent_credential secret) >>= λ (key_prefix, full).
    required Error.credential_invalid
      (find_first (λ c. str_eq c.key_prefix key_prefix) s.credentials)
    >>= λ found. check_credential env full found >>= λ c.
        required Error.credential_invalid (find_first (λ a. a.id == c.agent_id) s.agents) >>= λ a.
        ok (context c a)
