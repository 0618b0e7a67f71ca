-- ===== src/Prelude/Text.antt =====
-- Texts: the native strings, compared whole.
use Prim.Native.String.{String}
use mathlib.Core.Bool.{Bool}
use mathlib.Core.List.{List}
pub use text.Mathlib.Text.{◌==◌ as str_eq}
pub use text.Mathlib.TextEquality.{eq_iff as str_eq_iff}
pub use text.Mathlib.TextPositions.{eq_refl as str_eq_refl}
use mission_control_platform.Prelude.Lists.{any_of}

-- `text in collection`.
abbrev pub text_in : String → List String → Bool
text_in t = any_of (λ x. str_eq x t)
