-- ===== src/Registry/Withdrawn.antt =====
-- What apps/api/agent_control/registry/service.py withdraws, a credential that it revokes or rotates,
-- is never resolved again.
use mission_control_platform.Prelude.{
  ◌<◌, ◌≡◌, ◌≢◌, refl, sym, ap, subst, inl, inr, String, true, Option, none, some, List, [], ◌∷◌,
  ◌==◌, ==_iff, &&_both, find_first_test, All, All-append, All-update_where, Bool-cases, is_some,
  update_where, arith, if◌then◌else◌,
}
use mission_control_platform.Errors.{Result, Error, ok, err, ◌>>=◌}
use mission_control_platform.Access.{HostContext}
use mission_control_platform.Rows.{Uuid, Time, Agent, AgentCredential}
use mission_control_platform.Store.{Env, Store, RawId}
use mission_control_platform.Commands.Delivery.{AgentCredentialContext, use_credential}
use mission_control_platform.Security.{Draw, resolve_agent_credential}
use mission_control_platform.Store.Keeps.{
  Ensures, Ensures-bind, Ensures-ok, or_not_found-eq-ok, with_ok-keeps, with_ok-eq-ok,
}
use mission_control_platform.Registry.{
  AgentCreate, AgentUpdate, first_revocation, parse_local_key, key_taken, agent_key_of,
  valid_status, registry_status, get_agent, register_agent, update_agent, set_status,
}
use mission_control_platform.Registry.Credentials.{
  CredentialCreate, get_both, get_credential, is_closed_agent, new_credential, add_credential,
  revoke_row, create_credential, rotate_credential, revoke_credential,
}
use mission_control_platform.Registry.Revoked.{IsRevoked, Revoked, resolve-unrevoked}

-- A request that changes the registry or the credentials.
pub data Step (env : Env) : Store → Store → Type 0 where
  registers :
      (ctx : HostContext) (body : AgentCreate) (s : Store)
      → Step env s (register_agent env ctx body s).1
  updates :
      (ctx : HostContext) (i : RawId) (body : AgentUpdate) (s : Store)
      → Step env s (update_agent ctx i body s).1
  sets_status :
      (ctx : HostContext) (i : RawId) (status : String) (s : Store)
      → Step env s (set_status env ctx i status s).1
  creates :
      (ctx : HostContext) (d : Draw) (i : RawId) (body : CredentialCreate) (s : Store)
      → Step env s (create_credential env ctx d i body s).1
  rotates :
      (ctx : HostContext) (d : Draw) (i j : RawId) (s : Store)
      → Step env s (rotate_credential env ctx d i j s).1
  revokes :
      (ctx : HostContext) (i j : RawId) (s : Store) → Step env s (revoke_credential env ctx i j s).1
  uses : (ctx : AgentCredentialContext) (s : Store) → Step env s (use_credential ctx env.now s)

-- Any number of them, each at its moment.
pub data Steps : Store → Store → Type 0 where
  none_left : (s : Store) → Steps s s
  one_more : (env : Env) (s t u : Store) → Step env s t → Steps t u → Steps s u

add-Revoked :
    (cid : Uuid) (c : AgentCredential) (s : Store)
    → c.id ≡ s.next_id
    → Revoked cid s
    → Revoked cid (add_credential c s)
add-Revoked cid c s e h =
    (omega (arith, h.0), All-append (IsRevoked cid) s.credentials (c ∷ []) h.1 (λ f. fresh f, tt))
  where
    fresh : (c.id == cid) ≡ true → is_some c.revoked_at ≡ true
    fresh f = ground (arith, h.0, e)

first_revocation-given : (o : Option Time) (now : Time) → is_some (first_revocation o now) ≡ true
first_revocation-given none now = refl
first_revocation-given (some t) now = refl

revoke_row-Revoked :
    (cid id : Uuid) (now : Time) (s : Store) → Revoked cid s → Revoked cid (revoke_row id now s)
unfolding revoke_row
revoke_row-Revoked cid id now s h = (
  h.0,
  All-update_where (IsRevoked cid) (λ c. c.id == id)
      (λ c. record c { revoked_at = first_revocation c.revoked_at now }) s.credentials
      (λ c e k f. first_revocation-given c.revoked_at now) h.1,
)

-- Each row of the identifier is revoked by its revocation.
revoke_row-All :
    (cid : Uuid) (now : Time) (xs : List AgentCredential)
    → All (IsRevoked cid) (
        update_where
          (λ c. c.id == cid)
          (λ c. record c { revoked_at = first_revocation c.revoked_at now })
          xs)
revoke_row-All cid now [] = tt
revoke_row-All cid now (c ∷ cs) = elim (Bool-cases (c.id == cid)) [
  | inl e ↦ (rw e (λ f. first_revocation-given c.revoked_at now), revoke_row-All cid now cs)
  | inr e ↦ (rw e (λ f. cc), revoke_row-All cid now cs)
]

Step-Revoked : (env : Env) (cid : Uuid) (s t : Store) → Step env s t → Revoked cid s → Revoked cid t
unfolding register_agent update_agent set_status create_credential rotate_credential
    revoke_credential new_credential revoke_row use_credential
Step-Revoked env cid _ _ (Step.registers ctx body s) h =
    with_ok-keeps (Revoked cid) (parse_local_key body.local_key) s _ h λ key e.
      elim (Bool-cases (key_taken (agent_key_of ctx key) s.agents)) [
        | inl f ↦ rw f h
        | inr f ↦ rw f (omega (arith, h.0), h.1)
      ]
Step-Revoked env cid _ _ (Step.updates ctx i body s) h =
    with_ok-keeps (Revoked cid) (get_agent ctx i s) s _ h λ a e. h
Step-Revoked env cid _ _ (Step.sets_status ctx i status s) h =
    with_ok-keeps (Revoked cid)
      (valid_status (registry_status status) >>= λ new. get_agent ctx i s >>= λ a. ok (new, a)) s _
      h λ r e. h
Step-Revoked env cid _ _ (Step.creates ctx d i body s) h =
    with_ok-keeps (Revoked cid)
      (get_agent ctx i s >>= λ a. if is_closed_agent a.status then err Error.conflict else ok a) s _
      h λ a e. add-Revoked cid _ s refl h
Step-Revoked env cid _ _ (Step.rotates ctx d i j s) h =
    with_ok-keeps (Revoked cid) (get_both ctx i j s) s _ h λ (a, old) e.
      add-Revoked cid _ (revoke_row old.id env.now s) refl
        (revoke_row-Revoked cid old.id env.now s h)
Step-Revoked env cid _ _ (Step.revokes ctx i j s) h =
    with_ok-keeps (Revoked cid) (get_both ctx i j s) s _ h
      λ (a, c) e. revoke_row-Revoked cid c.id env.now s h
Step-Revoked env cid _ _ (Step.uses ctx s) h =
    (h.0, All-update_where (IsRevoked cid) _ _ s.credentials (λ c e k. k) h.1)

Steps-Revoked : (cid : Uuid) (s t : Store) → Steps s t → Revoked cid s → Revoked cid t
Steps-Revoked cid _ _ (Steps.none_left s) h = h
Steps-Revoked cid _ _ (Steps.one_more env s t u step steps) h =
    Steps-Revoked cid t u steps (Step-Revoked env cid s t step h)

-- A revocation or a rotation of the credential of an identifier, by the store that it commits.
pub data Withdrawn (env : Env) (cid : Uuid) : Store → Store → Type 0 where
  revoked :
      (ctx : HostContext) (i : RawId) (s t : Store)
      → revoke_credential env ctx i (RawId.uuid cid) s ≡ (ok tt, t)
      → Withdrawn env cid s t
  rotated :
      (ctx : HostContext) (d : Draw) (i : RawId) (s t : Store) (r : AgentCredential × String)
      → rotate_credential env ctx d i (RawId.uuid cid) s ≡ (ok r, t)
      → Withdrawn env cid s t

pub get_both-id :
    (ctx : HostContext) (i : RawId) (cid : Uuid) (s : Store)
    → Ensures (λ r. r.1.id ≡ cid) (get_both ctx i (RawId.uuid cid) s)
unfolding get_credential
get_both-id ctx i cid s =
    Ensures-bind (λ (r : Agent × AgentCredential). r.1.id ≡ cid) (get_agent ctx i s) _
      λ a e.
        Ensures-bind (λ (r : Agent × AgentCredential). r.1.id ≡ cid)
          (get_credential a (RawId.uuid cid) s) _
          λ c f.
            ((==_iff c.id cid).0
              (&&_both _ _ (find_first_test _ s.credentials c (or_not_found-eq-ok _ c f))).0)

revoke_row-Revokes :
    (cid id : Uuid) (now : Time) (s : Store)
    → id ≡ cid
    → cid < s.next_id
    → Revoked cid (revoke_row id now s)
unfolding revoke_row
revoke_row-Revokes cid id now s e h = (
  h,
  subst
      (λ z. All (IsRevoked cid) (
        update_where (λ c. c.id == z)
          (λ c. record c { revoked_at = first_revocation c.revoked_at now }) s.credentials))
      (sym e) (revoke_row-All cid now s.credentials),
)

Withdrawn-Revoked :
    (env : Env) (cid : Uuid) (s t : Store) → Withdrawn env cid s t → cid < s.next_id → Revoked cid t
unfolding revoke_credential rotate_credential new_credential
Withdrawn-Revoked env cid s t (Withdrawn.revoked ctx i _ _ e) h =
    let (r, f, g) = with_ok-eq-ok (get_both ctx i (RawId.uuid cid) s) s _ tt t e in
    subst (Revoked cid) (ap (λ (z : Result (Unit {0}) × Store). z.1) g) (
      revoke_row-Revokes cid r.1.id env.now s
        (Ensures-ok (λ (q : Agent × AgentCredential). q.1.id ≡ cid) _ r f (get_both-id ctx i cid s))
        h)
Withdrawn-Revoked env cid s t (Withdrawn.rotated ctx d i _ _ q e) h =
    let (r, f, g) = with_ok-eq-ok (get_both ctx i (RawId.uuid cid) s) s _ q t e in
    subst (Revoked cid) (ap (λ (z : Result (AgentCredential × String) × Store). z.1) g) (
      add-Revoked cid _ (revoke_row r.1.id env.now s) refl (
        revoke_row-Revokes cid r.1.id env.now s
          (Ensures-ok (λ (z : Agent × AgentCredential). z.1.id ≡ cid) _ r f
            (get_both-id ctx i cid s))
          h))

-- A credential that was revoked or rotated, and whose identifier the supply has passed, is resolved by no header at any later moment, whatever the registry and the agents' requests do in between.
pub withdrawn_never_resolves :
    (env : Env) (cid : Uuid) (s t u : Store)
    → Withdrawn env cid s t
    → cid < s.next_id
    → Steps t u
    → (later : Env) (header : Option String) (c : AgentCredentialContext)
    → resolve_agent_credential later header u ≡ ok c
    → c.credential.id ≢ cid
withdrawn_never_resolves env cid s t u withdrawn made steps later header c e =
    Ensures-ok (λ (c : AgentCredentialContext). c.credential.id ≢ cid) _ c e
      (resolve-unrevoked later cid header u
        (Steps-Revoked cid t u steps (Withdrawn-Revoked env cid s t withdrawn made)).1)
