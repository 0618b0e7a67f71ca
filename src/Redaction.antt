-- ===== src/Redaction.antt =====
-- apps/api/agent_control/operations/redaction.py: the masking of sensitive data by the name of a key
-- and by the look of a text. A text is read as its code points. The regular expressions are
-- written out as functions, and what Unicode says of the code points from 128 on (`\w` and the
-- lower case) is a record that the functions take.
pub mod Mask
pub mod Credential
use Prim.Native.Char.{code}
use mission_control_platform.Prelude.{
  ℕ, zero, suc, ◌+◌, ◌-◌, ◌≤◌, String, Bool, true, false, not, ◌&&◌, ◌||◌, Option, none, some, List,
  [], ◌∷◌, ◌++◌, ◌==◌, ltb, leb, length, if◌then◌else◌, any_of,
}
use mission_control_platform.Json.{
  Json, Items, Fields, null, flag, num, other_num, str, arr, obj, nil, cons, end, field,
}

-- The interpreter's tables for the code points from 128 on.
pub record Unicode : Type 0 where
  pub is_alnum : ℕ → Bool
  pub lower : ℕ → List ℕ

abbrev pub codes : String → List ℕ
codes String.[] = []
codes (String.◌∷◌ c s) = code c ∷ codes s

abbrev pub redacted : String
redacted = "[redacted]"

abbrev pub sensitive_key_markers : List String
sensitive_key_markers =
    "secret" ∷ "token" ∷ "password" ∷ "passwd" ∷ "authorization" ∷ "api_key" ∷ "apikey"
    ∷ "access_key" ∷ "private_key" ∷ "credential" ∷ "cred" ∷ "prompt" ∷ "raw" ∷ "cookie" ∷ "session"
    ∷ "ssn" ∷ "pin" ∷ "otp" ∷ "signature" ∷ []

unfoldable pub between : ℕ → ℕ → ℕ → Bool
between lo hi c = leb lo c && leb c hi

-- `str.isspace` of one character, which is also what `\s` matches.
unfoldable pub is_space : ℕ → Bool
unfolding between
is_space c =
    between 9 13 c
    || between 28 32 c
    || c == 133
    || c == 160
    || c == 5760
    || between 8192 8202 c
    || c == 8232
    || c == 8233
    || c == 8239
    || c == 8287
    || c == 12288

unfoldable pub is_upper : ℕ → Bool
unfolding between
is_upper c = between b'A' b'Z' c

unfoldable pub is_alnum_ascii : ℕ → Bool
unfolding between is_upper
is_alnum_ascii c = between b'0' b'9' c || is_upper c || between b'a' b'z' c

-- `[0-9a-f]`.
unfoldable pub is_hex : ℕ → Bool
unfolding between
is_hex c = between b'0' b'9' c || between b'a' b'f' c

-- `[A-Za-z0-9_-]`.
unfoldable pub is_url : ℕ → Bool
unfolding is_alnum_ascii
is_url c = is_alnum_ascii c || c == b'_' || c == b'-'

-- `[A-Za-z0-9_\-+/=]`.
unfoldable pub is_entropy : ℕ → Bool
unfolding is_url
is_entropy c = is_url c || c == b'+' || c == b'/' || c == b'='

unfoldable pub ascii_lower : ℕ → ℕ
unfolding is_upper
ascii_lower c = if is_upper c then c + 32 else c

-- Whether the first list begins the second.
unfoldable pub begins : List ℕ → List ℕ → Bool
begins [] s = true
begins (p ∷ ps) [] = false
begins (p ∷ ps) (c ∷ s) = (p == c) && begins ps s

-- `marker in text`.
unfoldable pub occurs : List ℕ → List ℕ → Bool
unfolding begins
occurs p [] = begins p []
occurs p (c ∷ s) = begins p (c ∷ s) || occurs p s

unfoldable pub lstrip : List ℕ → List ℕ
unfolding is_space
lstrip [] = []
lstrip (c ∷ s) = let rest = lstrip s in if is_space c then rest else c ∷ s

-- Puts a character before a text of which nothing but white space may have been left out.
unfoldable pub keep_unless_space : ℕ → List ℕ → List ℕ
unfolding is_space
keep_unless_space c [] = if is_space c then [] else c ∷ []
keep_unless_space c (d ∷ s) = c ∷ d ∷ s

unfoldable pub rstrip : List ℕ → List ℕ
unfolding keep_unless_space
rstrip [] = []
rstrip (c ∷ s) = keep_unless_space c (rstrip s)

unfoldable pub strip : List ℕ → List ℕ
unfolding lstrip rstrip
strip s = lstrip (rstrip s)

-- How many characters at the front pass the test, and what follows them.
unfoldable pub span : (ℕ → Bool) → List ℕ → ℕ × List ℕ
span p [] = (0, [])
span p (c ∷ s) = let (n, rest) = span p s in if p c then (suc n, rest) else (0, c ∷ s)

abbrev pub is_nil : List ℕ → Bool
is_nil [] = true
is_nil (c ∷ s) = false

-- After `Bearer`: white space, and then something that is none.
unfoldable pub bearer_rest : List ℕ → Bool
unfolding lstrip is_space
bearer_rest [] = false
bearer_rest (c ∷ s) = is_space c && not (is_nil (lstrip s))

abbrev drop6 : List ℕ → List ℕ
drop6 (a ∷ b ∷ c ∷ d ∷ e ∷ f ∷ s) = s
drop6 _ = []

-- Whether the first list begins the second, where the second's upper case counts as lower case.
unfoldable pub begins_lower : List ℕ → List ℕ → Bool
unfolding ascii_lower
begins_lower [] s = true
begins_lower (p ∷ ps) [] = false
begins_lower (p ∷ ps) (c ∷ s) = (p == ascii_lower c) && begins_lower ps s

-- `^Bearer\s+\S+`, in either case.
unfoldable pub bearer : List ℕ → Bool
unfolding begins_lower bearer_rest
bearer v = begins_lower (codes "bearer") v && bearer_rest (drop6 v)

abbrev after_dot : List ℕ → Option (List ℕ)
after_dot [] = none
after_dot (c ∷ s) = if c == b'.' then some s else none

-- A segment of a JWT: at least eight characters, then a dot; `none` if there is none.
unfoldable pub jwt_segment : List ℕ → Option (List ℕ)
unfolding span is_url
jwt_segment v = let (n, rest) = span is_url v in if leb 8 n then after_dot rest else none

unfoldable pub jwt_last : List ℕ → Bool
unfolding span is_url
jwt_last v = let (n, rest) = span is_url v in leb 8 n && is_nil rest

unfoldable pub jwt : List ℕ → Bool
unfolding jwt_segment jwt_last
jwt v = elim (jwt_segment v) [
  | none ↦ false
  | some r ↦ elim (jwt_segment r) [ none ↦ false | some t ↦ jwt_last t ]
]

-- `^[A-Za-z0-9_\-+/=]{40,}$`.
unfoldable pub high_entropy : List ℕ → Bool
unfolding span is_entropy
high_entropy v = let (n, rest) = span is_entropy v in leb 40 n && is_nil rest

module _ (u : Unicode) where
  -- `\w`.
  unfoldable pub is_word : ℕ → Bool
  unfolding is_alnum_ascii
  is_word c = if ltb c 128 then is_alnum_ascii c || c == b'_' else u.is_alnum c

  -- A boundary before what follows a character that `\w` matches.
  unfoldable pub ends_word : List ℕ → Bool
  unfolding is_word
  ends_word [] = true
  ends_word (c ∷ s) = not (is_word c)

  abbrev drop3 : List ℕ → List ℕ
  drop3 (a ∷ b ∷ c ∷ s) = s
  drop3 _ = []

  -- `ac_[0-9a-f]{6,}\b` at the front. Fewer digits than all that follow would end before a digit.
  unfoldable pub agent_cred_here : List ℕ → Bool
  unfolding begins span is_hex ends_word
  agent_cred_here v =
      begins (codes "ac_") v && (let (n, rest) = span is_hex (drop3 v) in leb 6 n && ends_word rest)

  -- `\bac_[0-9a-f]{6,}\b` anywhere, where the flag says whether `\w` matches the character before.
  unfoldable pub agent_cred : Bool → List ℕ → Bool
  unfolding agent_cred_here is_word
  agent_cred before [] = false
  agent_cred before (c ∷ s) = (not before && agent_cred_here (c ∷ s)) || agent_cred (is_word c) s

  unfoldable pub value_looks_secret : List ℕ → Bool
  unfolding strip bearer jwt agent_cred high_entropy
  value_looks_secret value =
      let v = strip value in
      if is_nil v then false else bearer v || jwt v || agent_cred false v || high_entropy v

  unfoldable pub lower : List ℕ → List ℕ
  unfolding ascii_lower
  lower [] = []
  lower (c ∷ s) = (if ltb c 128 then ascii_lower c ∷ [] else u.lower c) ++ lower s

  unfoldable pub key_is_sensitive : String → Bool
  unfolding lower occurs
  key_is_sensitive key =
      any_of (λ marker. occurs (codes marker) (lower (codes key))) sensitive_key_markers

  unfoldable pub redact_text : String → String
  unfolding value_looks_secret
  redact_text value = if value_looks_secret (codes value) then redacted else value

unfoldable mutual
  unfolding redact_text key_is_sensitive

  pub redact : Unicode → Json → Json
  redact u null = null
  redact u (flag b) = flag b
  redact u (num n) = num n
  redact u (other_num t) = other_num t
  redact u (str t) = str (redact_text u t)
  redact u (arr xs) = arr (redact_items u xs)
  redact u (obj fs) = obj (redact_fields u fs)

  pub redact_items : Unicode → Items → Items
  redact_items u nil = nil
  redact_items u (cons x xs) = cons (redact u x) (redact_items u xs)

  pub redact_fields : Unicode → Fields → Fields
  redact_fields u end = end
  redact_fields u (field key val fs) =
      let below = redact u val in
      field key (if key_is_sensitive u key then str redacted else below) (redact_fields u fs)

-- `redact_dict`. The result of `redact` on an object is an object.
unfoldable pub redact_dict : Unicode → Option Fields → Fields
redact_dict u none = end
redact_dict u (some payload) = redact_fields u payload
