-- ===== src/Registry/Revoked.antt =====
-- A credential that was revoked by apps/api/agent_control/registry/service.py, against
-- `resolve_agent_credential` of apps/api/agent_control/ingest/auth.py.
use mission_control_platform.Prelude.{
  ◌<◌, ◌≡◌, ◌≢◌, refl, ap, ◌∙◌, inl, inr, String, true, false, Option, none, some, ◌==◌, ==_refl,
  All, All-find_first, Bool-cases, Option-cases, find_first, is_some, str_eq,
}
use mission_control_platform.Errors.{Error, ok}
use mission_control_platform.Rows.{Uuid, Time, AgentCredential, is_usable}
use mission_control_platform.Store.{Env, Store, truthy}
use mission_control_platform.Commands.Delivery.{AgentCredentialContext}
use mission_control_platform.Security.{
  required, check_credential, split_agent_credential, resolve_agent_credential,
}
use mission_control_platform.Store.Keeps.{Ensures, Ensures-bind, ok_inj}

abbrev pub IsRevoked : Uuid → AgentCredential → Type 0
IsRevoked cid c = (c.id == cid) ≡ true → is_some c.revoked_at ≡ true

-- The credential was made, and each of its rows is revoked.
abbrev pub Revoked : Uuid → Store → Type 0
Revoked cid s = (cid < s.next_id) × All (IsRevoked cid) s.credentials

is_usable-unrevoked :
    (c : AgentCredential) (now : Time) → is_usable c now ≡ true → is_some c.revoked_at ≡ false
unfolding is_usable
is_usable-unrevoked c now h = elim (Option-cases c.revoked_at) [
  | inl e ↦ rw e refl
  | inr (t, e) ↦ cc (rw e at h)
]

check_credential-ok :
    (env : Env) (secret : String) (found c : AgentCredential)
    → check_credential env secret found ≡ ok c
    → (found ≡ c) × (is_some found.revoked_at ≡ false)
check_credential-ok env secret found c h =
    elim (Bool-cases (str_eq (env.sha256_hex secret) found.secret_hash)) [
      | inr e ↦ cc (rw e at h)
      | inl e ↦ elim (Bool-cases (is_usable found env.now)) [
        | inr f ↦ cc (rw (e, f) at h)
        | inl f ↦ (ok_inj (rw (e, f) at h), is_usable-unrevoked found env.now f)
      ]
    ]

required-eq-ok : {A : Type 0} (e : Error) (o : Option A) (a : A) → required e o ≡ ok a → o ≡ some a
required-eq-ok e none a h = cc
required-eq-ok e (some b) a h = cc

pub resolve-unrevoked :
    (env : Env) (cid : Uuid) (header : Option String) (s : Store)
    → All (IsRevoked cid) s.credentials
    → Ensures (λ c. c.credential.id ≢ cid) (resolve_agent_credential env header s)
unfolding resolve_agent_credential
resolve-unrevoked env cid header s h =
    let Q : AgentCredentialContext → Type 0 = λ c. c.credential.id ≢ cid in
    Ensures-bind Q (required Error.credential_invalid (truthy header)) _ λ secret e.
      Ensures-bind Q (required Error.credential_invalid (split_agent_credential secret)) _
        λ (key_prefix, full) f.
          Ensures-bind Q
            (required Error.credential_invalid
              (find_first (λ c. str_eq c.key_prefix key_prefix) s.credentials))
            _
            λ found g. Ensures-bind Q (check_credential env full found) _ λ c k.
              Ensures-bind Q
                (required Error.credential_invalid (find_first (λ a. a.id == c.agent_id) s.agents))
                _
                λ a l. other c found (check_credential-ok env full found c k) (
                  All-find_first (IsRevoked cid) _ s.credentials found (required-eq-ok _ _ found g)
                    h)
  where
    other :
        (c found : AgentCredential)
        → (found ≡ c) × (is_some found.revoked_at ≡ false)
        → IsRevoked cid found
        → c.id ≢ cid
    other c found (same, unrevoked) revoked e =
        let t : is_some found.revoked_at ≡ true =
          revoked
            (ap (λ (z : AgentCredential). z.id == cid) same ∙ ap (λ n. n == cid) e ∙ ==_refl cid) in
        cc
