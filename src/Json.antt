-- ===== src/Json.antt =====
-- JSON values, as the payloads, contexts and details of the rows hold them. A number that is no
-- integer is held by its text. The keys of an object are texts.
use mission_control_platform.Prelude.{
  zero, String, Bool, true, false, not, ◌||◌, Option, none, some, str_eq, if◌then◌else◌,
}
use mission_control_platform.Prelude.Int.{ℤ, pos}

mutual
  pub data Json : Type 0 where
    null : Json
    flag : Bool → Json
    num : ℤ → Json
    other_num : String → Json
    str : String → Json
    arr : Items → Json
    obj : Fields → Json

  pub data Items : Type 0 where
    nil : Items
    cons : Json → Items → Items

  pub data Fields : Type 0 where
    end : Fields
    field : String → Json → Fields → Fields

-- `not payload`, of an object.
abbrev pub has_fields : Fields → Bool
has_fields end = false
has_fields (field k v fs) = true

-- A value that Python takes for true.
abbrev pub is_truthy : Json → Bool
is_truthy null = false
is_truthy (flag b) = b
is_truthy (num (pos zero)) = false
is_truthy (num n) = true
is_truthy (other_num t) = not (str_eq t "0.0" || str_eq t "-0.0")
is_truthy (str t) = not (str_eq t "")
is_truthy (arr nil) = false
is_truthy (arr (cons j js)) = true
is_truthy (obj fs) = has_fields fs

-- `payload.get(key)`, where a missing key is the same as `None`.
abbrev pub get_value : String → Fields → Json
get_value k end = null
get_value k (field j v fs) = if str_eq j k then v else get_value k fs

-- `value or None`.
abbrev pub or_none : Json → Option Json
or_none j = if is_truthy j then some j else none
