-- ===== src/Security/RoundTrip.antt =====
-- The format of a credential, of apps/api/core/security.py, is read back.
use Prim.Native.Char.{Char, code}
use Prim.Native.String.{String, ◌++◌ as str_append}
use text.Mathlib.TextLemmas.{cons-append, nil-append, append-eq-nil_iff}
use mathlib.Core.Option
use mission_control_platform.Prelude.{
  false, ◌≡◌, refl, inl, inr, Option, none, some, ◌==◌, Bool-cases, str_eq, str_eq_iff,
}
use mission_control_platform.Store.{Env}
use mission_control_platform.Security.{
  Draw, generate_agent_credential, before_sep, split_agent_credential, key_prefix_of,
}

before_sep-front :
    (c : Char) (p : String) (h : before_sep (String.◌∷◌ c p) ≡ none)
    → ((code c == 46) ≡ false) × (before_sep p ≡ none)
unfolding before_sep
before_sep-front c p h = elim (Bool-cases (code c == 46)) [
  | inl e ↦ cc (rw e at h)
  | inr e ↦ (e, left (before_sep p) (rw e at h))
]
  where
    left : (o : Option String) → Option.map (λ q. String.◌∷◌ c q) o ≡ none → o ≡ none
    left none k = refl
    left (some q) k = cc

before_sep-append :
    (p t : String) → before_sep p ≡ none → before_sep (str_append p (str_append "." t)) ≡ some p
unfolding before_sep
before_sep-append String.[] t h =
    rw (nil-append (str_append "." t), cons-append "." String.[] t) refl
before_sep-append (String.◌∷◌ c p) t h =
    let (e, k) = before_sep-front c p h in
    rw (cons-append c p (str_append "." t), e, before_sep-append p t k) refl

before_sep-ac : (hex : String) → before_sep hex ≡ none → before_sep (str_append "ac_" hex) ≡ none
unfolding before_sep
before_sep-ac hex h =
    rw
      (cons-append "a" "c_" hex, cons-append "c" "_" hex, cons-append "_" "" hex, nil-append hex, h)
      refl

ac_nonempty : (hex : String) → str_eq (str_append "ac_" hex) "" ≡ false
ac_nonempty hex = elim (Bool-cases (str_eq (str_append "ac_" hex) "")) [
  | inl e ↦ cc ((append-eq-nil_iff {p = "ac_"} {q = hex}).0 ((str_eq_iff _ _).0 e)).0
  | inr e ↦ e
]

pub secret_nonempty :
    (env : Env) (d : Draw) → str_eq (generate_agent_credential env d).secret "" ≡ false
unfolding generate_agent_credential
secret_nonempty env d = elim (Bool-cases (str_eq (generate_agent_credential env d).secret "")) [
  | inl e ↦
      cc
        ((append-eq-nil_iff {p = "ac_"} {q = d.token_hex}).0
          ((append-eq-nil_iff {p = key_prefix_of d} {q = str_append "." d.token_urlsafe}).0
            ((str_eq_iff _ _).0 e)).0).0
  | inr e ↦ e
]

-- A credential that is generated is split into its prefix and itself, if the digits that were drawn hold no separator.
pub split-generate :
    (env : Env) (d : Draw)
    → before_sep d.token_hex ≡ none
    → split_agent_credential (generate_agent_credential env d).secret
      ≡ some
          ((generate_agent_credential env d).key_prefix, (generate_agent_credential env d).secret)
unfolding split_agent_credential generate_agent_credential
split-generate env d h =
    rw
      (
        before_sep-append (key_prefix_of d) d.token_urlsafe (before_sep-ac d.token_hex h),
        ac_nonempty d.token_hex,
      )
      refl
