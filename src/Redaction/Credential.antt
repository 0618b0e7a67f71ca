-- ===== src/Redaction/Credential.antt =====
-- A credential of an agent, `ac_<hex>.<secret>`, looks like a secret to
-- apps/api/agent_control/operations/redaction.py.
use mission_control_platform.Prelude.{
  ℕ, ◌≤◌, String, ◌≡◌, refl, Bool, true, ◌&&◌, List, [], ◌∷◌, ◌++◌, arith, length,
}
use mission_control_platform.Redaction.{
  Unicode, redacted, codes, is_hex, is_space, span, strip, lstrip, rstrip, keep_unless_space,
  agent_cred_here, value_looks_secret, redact_text, ends_word,
}

abbrev pub all_hex : List ℕ → Bool
all_hex [] = true
all_hex (c ∷ s) = is_hex c && all_hex s

-- `ac_`, the digits, a dot and the rest.
abbrev pub agent_credential : List ℕ → List ℕ → List ℕ
agent_credential digits rest = b'a' ∷ b'c' ∷ b'_' ∷ (digits ++ b'.' ∷ rest)

-- What precedes something that is not white space is not stripped.
rstrip-front :
    (c : ℕ) (s : List ℕ) (d : ℕ) (t : List ℕ) → rstrip s ≡ d ∷ t → rstrip (c ∷ s) ≡ c ∷ d ∷ t
unfolding rstrip
rstrip-front c s d t h = rw h

rstrip-dot : (rest : List ℕ) → rstrip (b'.' ∷ rest) ≡ b'.' ∷ rstrip rest
unfolding rstrip is_space
rstrip-dot rest = go (rstrip rest)
  where
    go : (r : List ℕ) → keep_unless_space b'.' r ≡ b'.' ∷ r
    go [] = refl
    go (d ∷ t) = refl

rstrip-digits :
    (digits rest : List ℕ) → rstrip (digits ++ b'.' ∷ rest) ≡ digits ++ b'.' ∷ rstrip rest
rstrip-digits [] rest = rstrip-dot rest
rstrip-digits (c ∷ []) rest = rstrip-front c (b'.' ∷ rest) b'.' (rstrip rest) (rstrip-dot rest)
rstrip-digits (c ∷ d ∷ s) rest =
    rstrip-front c (d ∷ s ++ b'.' ∷ rest) d (s ++ b'.' ∷ rstrip rest) (rstrip-digits (d ∷ s) rest)

strip-credential :
    (digits rest : List ℕ)
    → strip (agent_credential digits rest) ≡ agent_credential digits (rstrip rest)
unfolding strip is_space lstrip
strip-credential digits rest = rw (rstrip-digits (b'a' ∷ b'c' ∷ b'_' ∷ digits) rest)

span-digits :
    (digits rest : List ℕ)
    → all_hex digits ≡ true
    → span is_hex (digits ++ b'.' ∷ rest) ≡ (length digits, b'.' ∷ rest)
unfolding span is_hex
span-digits [] rest h = refl
span-digits (c ∷ s) rest h = ground (arith, span-digits s rest)

here-credential :
    (u : Unicode) (digits rest : List ℕ)
    → all_hex digits ≡ true
    → 6 ≤ length digits
    → agent_cred_here u (agent_credential digits rest) ≡ true
unfolding agent_cred_here ends_word
here-credential u digits rest h n = rw (span-digits digits rest h) (ground arith)

-- A text of the form `ac_<digits>.<rest>`, with at least six digits in [0-9a-f], is masked,
-- whatever follows the dot.
pub credential_masked :
    (u : Unicode) (t : String) (digits rest : List ℕ)
    → codes t ≡ agent_credential digits rest
    → all_hex digits ≡ true
    → 6 ≤ length digits
    → redact_text u t ≡ redacted
unfolding redact_text value_looks_secret
credential_masked u t digits rest e h n =
    rw (e, strip-credential digits rest)
      (ground (arith, here-credential u digits (rstrip rest) h n))
