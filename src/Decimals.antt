-- ===== src/Decimals.antt =====
-- The text of numbers in payloads: `str` of a natural number, and `str` of a `Decimal` with eight
-- places, which is in scientific notation below three digits.
use Prim.Native.String.{◌++◌ as str_append}
use mission_control_platform.Prelude.{ℕ, zero, suc, ◌/◌, ◌%◌, ◌^◌, String, ltb, if◌then◌else◌}
use mission_control_platform.Prelude.Int.{ℤ, pos, negsuc}
use mission_control_platform.Store.{hex_digit}

-- The last digits of a number, as many as the first argument says.
unfoldable pub last_digits : ℕ → ℕ → String
unfolding hex_digit
last_digits zero n = ""
last_digits (suc k) n = str_append (last_digits k (n / 10)) (hex_digit (n % 10))

-- A number has fewer digits than its successor, which bounds the recursion.
unfoldable pub digits_within : ℕ → ℕ → String
unfolding hex_digit
digits_within zero n = ""
digits_within (suc f) n =
    let front = digits_within f (n / 10) in
    if ltb n 10 then hex_digit n else str_append front (hex_digit (n % 10))

unfoldable pub nat_text : ℕ → String
unfolding digits_within
nat_text n = digits_within (suc n) n

unfoldable pub decimal_abs : ℕ → String
unfolding nat_text last_digits
decimal_abs n =
    if ltb n 10
    then str_append (nat_text n) "E-8"
    else if ltb n 100
    then str_append (nat_text (n / 10)) (str_append "." (str_append (nat_text (n % 10)) "E-7"))
    else str_append (nat_text (n / 10 ^ 8)) (str_append "." (last_digits 8 n))

unfoldable pub decimal_text : ℤ → String
unfolding decimal_abs
decimal_text (pos n) = decimal_abs n
decimal_text (negsuc n) = str_append "-" (decimal_abs (suc n))
