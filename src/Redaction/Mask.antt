-- ===== src/Redaction/Mask.antt =====
-- What the masking of apps/api/agent_control/operations/redaction.py leaves of a JSON value.
use mathlib.Core.Path.{ap₂}
use mission_control_platform.Prelude.{
  String, ◌≡◌, refl, Bool, true, false, ◌⊎◌, inl, inr, sym, ap, Bool-cases, if◌then◌else◌,
}
use mission_control_platform.Json.{
  Json, Items, Fields, null, flag, num, other_num, str, arr, obj, nil, cons, end, field,
}
use mission_control_platform.Redaction.{
  Unicode, redacted, codes, value_looks_secret, key_is_sensitive, redact_text, redact, redact_items,
  redact_fields,
}

-- Every value under a sensitive key is the sentinel, and no other text looks like a secret, at any
-- depth.
abbrev mutual
  pub IsMasked : Unicode → Json → Type 0
  IsMasked u null = Unit
  IsMasked u (flag b) = Unit
  IsMasked u (num n) = Unit
  IsMasked u (other_num t) = Unit
  IsMasked u (str t) = (t ≡ redacted) ⊎ (value_looks_secret u (codes t) ≡ false)
  IsMasked u (arr xs) = AreMasked u xs
  IsMasked u (obj fs) = FieldsMasked u fs

  pub AreMasked : Unicode → Items → Type 0
  AreMasked u nil = Unit
  AreMasked u (cons x xs) = IsMasked u x × AreMasked u xs

  pub FieldsMasked : Unicode → Fields → Type 0
  FieldsMasked u end = Unit
  FieldsMasked u (field k v fs) =
      (key_is_sensitive u k ≡ true → v ≡ str redacted)
      × (key_is_sensitive u k ≡ false → IsMasked u v)
      × FieldsMasked u fs

text-IsMasked : (u : Unicode) (t : String) → IsMasked u (str (redact_text u t))
unfolding redact_text
text-IsMasked u t = elim (Bool-cases (value_looks_secret u (codes t))) [
  | inl e ↦ inl (rw e)
  | inr e ↦ inr (rw e e)
]

if_sentinel : (b : Bool) (t : String) → t ≡ redacted → (if b then redacted else t) ≡ t
if_sentinel true t h = sym h
if_sentinel false t h = refl

text_fixed : (u : Unicode) (t : String) → IsMasked u (str t) → redact_text u t ≡ t
unfolding redact_text
text_fixed u t h = elim h [
  | inl p ↦ if_sentinel (value_looks_secret u (codes t)) t p
  | inr e ↦ rw e
]

field-IsMasked :
    (u : Unicode) (b : Bool) (v : Json)
    → IsMasked u v
    → (b ≡ true → (if b then str redacted else v) ≡ str redacted)
      × (b ≡ false → IsMasked u (if b then str redacted else v))
field-IsMasked u true v h = (λ p. refl, λ p. cc)
field-IsMasked u false v h = (λ p. cc, λ p. h)

field_fixed :
    (b : Bool) (v r : Json)
    → (b ≡ true → v ≡ str redacted)
    → (b ≡ false → r ≡ v)
    → (if b then str redacted else r) ≡ v
field_fixed true v r h k = sym (h refl)
field_fixed false v r h k = k refl

mutual
  unfolding redact

  masked : (u : Unicode) (j : Json) → IsMasked u (redact u j)
  masked u null = tt
  masked u (flag b) = tt
  masked u (num n) = tt
  masked u (other_num t) = tt
  masked u (str t) = text-IsMasked u t
  masked u (arr xs) = items_masked u xs
  masked u (obj fs) = fields_masked u fs

  items_masked : (u : Unicode) (xs : Items) → AreMasked u (redact_items u xs)
  items_masked u nil = tt
  items_masked u (cons x xs) = (masked u x, items_masked u xs)

  fields_masked : (u : Unicode) (fs : Fields) → FieldsMasked u (redact_fields u fs)
  fields_masked u end = tt
  fields_masked u (field k v fs) = (
    (field-IsMasked u (key_is_sensitive u k) (redact u v) (masked u v)).0,
    (field-IsMasked u (key_is_sensitive u k) (redact u v) (masked u v)).1,
    fields_masked u fs,
  )

mutual
  unfolding redact

  fixed : (u : Unicode) (j : Json) → IsMasked u j → redact u j ≡ j
  fixed u null h = refl
  fixed u (flag b) h = refl
  fixed u (num n) h = refl
  fixed u (other_num t) h = refl
  fixed u (str t) h = ap str (text_fixed u t h)
  fixed u (arr xs) h = ap arr (items_fixed u xs h)
  fixed u (obj fs) h = ap obj (fields_fixed u fs h)

  items_fixed : (u : Unicode) (xs : Items) → AreMasked u xs → redact_items u xs ≡ xs
  items_fixed u nil h = refl
  items_fixed u (cons x xs) h = ap₂ cons (fixed u x h.0) (items_fixed u xs h.1)

  fields_fixed : (u : Unicode) (fs : Fields) → FieldsMasked u fs → redact_fields u fs ≡ fs
  fields_fixed u end h = refl
  fields_fixed u (field k v fs) h =
      ap₂ (field k) (field_fixed (key_is_sensitive u k) v (redact u v) h.0 (λ e. fixed u v (h.1 e)))
        (fields_fixed u fs h.2)

-- What `redact` returns has the sentinel under every sensitive key and no other text that looks
-- like a secret, at any depth; and it leaves a value that is already so as it is.
pub redact-IsMasked :
    (u : Unicode) (j : Json) → IsMasked u (redact u j) × (IsMasked u j → redact u j ≡ j)
redact-IsMasked u j = (masked u j, fixed u j)

-- To mask twice is to mask once.
pub redact_idem : (u : Unicode) (j : Json) → redact u (redact u j) ≡ redact u j
redact_idem u j = fixed u (redact u j) (masked u j)
