-- ===== src/Registry/Issued.antt =====
-- The credential that apps/api/agent_control/registry/service.py emits, as a request presents it.
use Prim.Native.String.{String}
use mission_control_platform.Prelude.{
  ◌≡◌, refl, ap, ◌∙◌, subst, inl, inr, true, false, Option, none, some, List, ◌==◌, Bool-cases,
  Option-cases, find_first, find_first_test, find_first-other, find_first-update_some,
  find_first-append_none, ==_iff, ==_refl, str_eq, str_eq_refl, if◌then◌else◌,
}
use mission_control_platform.Errors.{Result, Error, ok, err, ◌>>=◌}
use mission_control_platform.Access.{HostContext}
use mission_control_platform.Rows.{Uuid, Time, Agent, AgentCredential, is_usable}
use mission_control_platform.Store.{Env, Store, RawId, as_uuid}
use mission_control_platform.Store.Keeps.{or_not_found-eq-ok, ok_inj, with_ok-eq-ok, Ensures-ok}
use mission_control_platform.Registry.{agent_by_id, get_agent, first_revocation}
use mission_control_platform.Registry.Credentials.{
  CredentialCreate, new_credential, add_credential, create_credential, is_closed_agent,
  revoke_credential, revoke_row, get_both,
}
use mission_control_platform.Registry.Withdrawn.{get_both-id}
use mission_control_platform.Security.{
  Draw, context, key_prefix_of, generate_agent_credential, before_sep, split_agent_credential,
  resolve_agent_credential,
}
use mission_control_platform.Security.RoundTrip.{split-generate, secret_nonempty}

-- The resolution of a header that holds a secret, by what the tables hold.
resolve-found :
    (env : Env) (secret prefix : String) (s : Store) (c : AgentCredential) (a : Agent)
    → str_eq secret "" ≡ false
    → split_agent_credential secret ≡ some (prefix, secret)
    → find_first (λ k. str_eq k.key_prefix prefix) s.credentials ≡ some c
    → str_eq (env.sha256_hex secret) c.secret_hash ≡ true
    → find_first (λ x. x.id == c.agent_id) s.agents ≡ some a
    → resolve_agent_credential env (some secret) s
      ≡ (if is_usable c env.now then ok (context c a) else err Error.credential_revoked)
unfolding resolve_agent_credential
resolve-found env secret prefix s c a e f g h k = elim (Bool-cases (is_usable c env.now)) [
  | inl u ↦ rw (e, f, g, h, u, k) refl
  | inr u ↦ rw (e, f, g, h, u) refl
]

-- The agent of a credential is found by its identifier alone.
agent_found :
    (ctx : HostContext) (i : RawId) (a : Agent) (s : Store)
    → get_agent ctx i s ≡ ok a
    → (b : Agent) × (find_first (λ x. x.id == a.id) s.agents ≡ some b) × (b.id ≡ a.id)
unfolding get_agent
agent_found ctx i a s h = by_id (as_uuid i) (or_not_found-eq-ok _ a h)
  where
    by_id :
        (o : Option Uuid)
        → agent_by_id o ctx s ≡ some a
        → (b : Agent) × (find_first (λ x. x.id == a.id) s.agents ≡ some b) × (b.id ≡ a.id)
    by_id none e = cc
    by_id (some aid) e =
        let (b, f) = find_first-other _ (λ x. x.id == a.id) s.agents a e (==_refl a.id) in
        (b, f, (==_iff b.id a.id).0 (find_first_test _ s.agents b f))

-- What a secret is answered at a moment: the context of its credential until it is revoked or expires.
abbrev pub Answers : Env → Time → AgentCredential → String → Store → Type 0
Answers env now c secret t =
    (a : Agent) × (a.id ≡ c.agent_id)
    × (resolve_agent_credential (record env { now = now }) (some secret) t
        ≡ (if is_usable c now then ok (context c a) else err Error.credential_revoked))

issued-Answers :
    (env : Env) (now : Time) (ctx : HostContext) (d : Draw) (i : RawId) (a : Agent)
    (scopes : List String) (expires : Option Time) (s : Store)
    → before_sep d.token_hex ≡ none
    → find_first (λ k. str_eq k.key_prefix (key_prefix_of d)) s.credentials ≡ none
    → get_agent ctx i s ≡ ok a
    → Answers env now
        (new_credential ctx a (generate_agent_credential env d) scopes expires s.next_id)
        (generate_agent_credential env d).secret
        (add_credential
          (new_credential ctx a (generate_agent_credential env d) scopes expires s.next_id)
          s)
unfolding new_credential generate_agent_credential
issued-Answers env now ctx d i a scopes expires s digits fresh h =
    let g = generate_agent_credential env d in
    let c = new_credential ctx a g scopes expires s.next_id in
    let (b, f, same) = agent_found ctx i a s h in
    (
      b,
      same,
      resolve-found (record env { now = now }) g.secret g.key_prefix (add_credential c s) c b
          (secret_nonempty env d) (split-generate env d digits)
          (find_first-append_none _ s.credentials c fresh (str_eq_refl (key_prefix_of d)))
          (str_eq_refl (env.sha256_hex g.secret)) f,
    )

-- The answer of a service that emits a credential.
abbrev Emitted : Env → Time → Result (AgentCredential × String) × Store → Type 0
Emitted env now (ok (c, secret), t) = Answers env now c secret t
Emitted env now (err e, t) = Unit

-- A credential that is emitted, if the digits drawn hold no separator and no credential has the prefix, answers to the secret that was returned: with its own context while it is usable, and as revoked after.
pub create_credential-Answers :
    (env : Env) (ctx : HostContext) (d : Draw) (i : RawId) (body : CredentialCreate) (s : Store)
    (c : AgentCredential) (secret : String) (t : Store) (now : Time)
    → before_sep d.token_hex ≡ none
    → find_first (λ k. str_eq k.key_prefix (key_prefix_of d)) s.credentials ≡ none
    → create_credential env ctx d i body s ≡ (ok (c, secret), t)
    → Answers env now c secret t
unfolding create_credential
create_credential-Answers env ctx d i body s c secret t now digits fresh h =
    let (a, e, g) =
      with_ok-eq-ok
        (get_agent ctx i s >>= λ a. if is_closed_agent a.status then err Error.conflict else ok a) s
        _ (c, secret) t h in
    subst (Emitted env now) g (
      issued-Answers env now ctx d i a body.scopes body.expires_at s digits fresh
        (open_agent (get_agent ctx i s) a e))
  where
    kept :
        (a b : Agent)
        → (if is_closed_agent a.status then err Error.conflict else ok a) ≡ ok b
        → a ≡ b
    kept a b e = elim (Bool-cases (is_closed_agent a.status)) [
      | inl f ↦ cc (rw f at e)
      | inr f ↦ ok_inj (rw f at e)
    ]

    open_agent :
        (m : Result Agent) (b : Agent)
        → (m >>= λ a. if is_closed_agent a.status then err Error.conflict else ok a) ≡ ok b
        → m ≡ ok b
    open_agent (ok a) b e = ap (λ (z : Agent). ok z) (kept a b e)
    open_agent (err x) b e = cc

resolve-unusable :
    (env : Env) (secret prefix : String) (s : Store) (c : AgentCredential)
    → str_eq secret "" ≡ false
    → split_agent_credential secret ≡ some (prefix, secret)
    → find_first (λ k. str_eq k.key_prefix prefix) s.credentials ≡ some c
    → str_eq (env.sha256_hex secret) c.secret_hash ≡ true
    → is_usable c env.now ≡ false
    → resolve_agent_credential env (some secret) s ≡ err Error.credential_revoked
unfolding resolve_agent_credential
resolve-unusable env secret prefix s c e f g h u = rw (e, f, g, h, u) refl

stamped : Time → AgentCredential → AgentCredential
stamped now c = record c { revoked_at = first_revocation c.revoked_at now }

stamped-unusable :
    (now later : Time) (c : AgentCredential) → is_usable (stamped now c) later ≡ false
unfolding is_usable stamped
stamped-unusable now later c = elim (Option-cases c.revoked_at) [
  | inl e ↦ rw e refl
  | inr (t, e) ↦ rw e refl
]

-- A well-formed secret that matches a credential is answered as revoked, not as invalid, once the credential is revoked.
pub revoke_credential-answer :
    (env later : Env) (ctx : HostContext) (i : RawId) (secret prefix : String) (c : AgentCredential)
    (s t : Store)
    → str_eq secret "" ≡ false
    → split_agent_credential secret ≡ some (prefix, secret)
    → find_first (λ k. str_eq k.key_prefix prefix) s.credentials ≡ some c
    → str_eq (later.sha256_hex secret) c.secret_hash ≡ true
    → revoke_credential env ctx i (RawId.uuid c.id) s ≡ (ok tt, t)
    → resolve_agent_credential later (some secret) t ≡ err Error.credential_revoked
unfolding revoke_credential revoke_row stamped
revoke_credential-answer env later ctx i secret prefix c s t e f g h k =
    let (r, both, same) = with_ok-eq-ok (get_both ctx i (RawId.uuid c.id) s) s _ tt t k in
    let id : r.1.id ≡ c.id =
      Ensures-ok (λ (z : Agent × AgentCredential). z.1.id ≡ c.id) _ r both
        (get_both-id ctx i c.id s) in
    subst (λ z. resolve_agent_credential later (some secret) z ≡ err Error.credential_revoked)
      (ap (λ (z : Result (Unit {0}) × Store). z.1) same)
      (resolve-unusable later secret prefix (revoke_row r.1.id env.now s) (stamped env.now c) e f
        (find_first-update_some (λ k. str_eq k.key_prefix prefix) (λ k. k.id == r.1.id)
            (stamped env.now) s.credentials (λ x. refl)
          ∙ rw (g, id, ==_refl c.id) refl)
        h (stamped-unusable env.now later.now c))
