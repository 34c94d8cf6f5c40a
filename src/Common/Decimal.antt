-- ===== src/Common/Decimal.antt =====
-- Decimal text as the C library writes and reads it: `%d`, `%u`, `%llu` and `itoa`; `atoi`, `strtoul`
-- and `strtoull` at base 10, where `int` and `long` have 32 bits.
use esp32_common.Common.{
  ℕ, zero, suc, ◌+◌, ◌-◌, ◌*◌, ◌/◌, ◌%◌, ◌^◌, ◌≤◌, ◌<◌, ◌≡◌, ◌≢◌, refl, ap, ◌∙◌, Bool, true, false,
  List, [], ◌∷◌, ◌++◌, arith, leb, ltb, ◌==◌, if◌then◌else◌, ◌&&◌, ◌||◌, ◌⊎◌, inl, inr, Bool-cases,
  length, sym, ltb→lt, lt→ltb,
}
pub mod RoundTrip
use esp32_common.Common.Int.{ℤ, pos, negsuc}
use esp32_common.Common.Memory.{Bytes, No}

-- The digits of `n` in front of `acc`, the last digit first; `f` bounds their number.
digits_onto : ℕ → ℕ → Bytes → Bytes
digits_onto zero n acc = acc
digits_onto (suc f) n acc =
    let here = (48 + n % 10) ∷ acc in
    let more = digits_onto f (n / 10) here in if ltb n 10 then here else more

-- `%u` and `%llu`: 20 digits hold every 64-bit number.
unfoldable pub print_dec : ℕ → Bytes
unfolding digits_onto
print_dec n = digits_onto 20 n []

-- `%d`, and `itoa` at base 10.
unfoldable pub print_int : ℤ → Bytes
unfolding print_dec
print_int (pos n) = print_dec n
print_int (negsuc n) = b'-' ∷ print_dec (suc n)

abbrev pub is_digit : ℕ → Bool
is_digit c = leb b'0' c && leb c b'9'

abbrev is_space : ℕ → Bool
is_space c = c == 32 || (leb 9 c && leb c 13)

-- The number that the leading digits write, after the digits of `v`.
read_digits : ℕ → Bytes → ℕ
read_digits v [] = v
read_digits v (c ∷ cs) = if is_digit c then read_digits (v * 10 + (c - 48)) cs else v

skip_space : Bytes → Bytes
skip_space [] = []
skip_space (c ∷ cs) = if is_space c then skip_space cs else c ∷ cs

-- An optional sign, and whether it is a minus.
read_sign : Bytes → Bool × Bytes
read_sign [] = (false, [])
read_sign (c ∷ cs) =
    if c == b'-' then (true, cs) else if c == b'+' then (false, cs) else (false, c ∷ cs)

-- Sign and magnitude of the number at the front of a text, before it is clamped.
read_number : Bytes → Bool × ℕ
unfolding read_digits skip_space read_sign
read_number s = let (minus, rest) = read_sign (skip_space s) in (minus, read_digits 0 rest)

abbrev clamp_below : ℕ → ℕ → ℕ
clamp_below top n = if ltb n top then n else top - 1

-- The negative number of magnitude `n`, but not below -2^31.
abbrev negative : ℕ → ℤ
negative zero = pos 0
negative (suc n) = negsuc (clamp_below (2 ^ 31) n)

abbrev to_int : Bool × ℕ → ℤ
to_int (true, n) = negative n
to_int (false, n) = pos (clamp_below (2 ^ 31) n)

-- `(int)strtol(s, NULL, 10)`: clamped to the range of `int`.
unfoldable pub atoi : Bytes → ℤ
unfolding read_number
atoi s = to_int (read_number s)

-- A number too large gives the largest one; a minus sign negates modulo `top`.
abbrev to_unsigned : ℕ → Bool × ℕ → ℕ
to_unsigned top (minus, n) = if ltb n top then (if minus then (top - n) % top else n) else top - 1

unfoldable pub strtoul : Bytes → ℕ
unfolding read_number
strtoul s = to_unsigned (2 ^ 32) (read_number s)

unfoldable pub strtoull : Bytes → ℕ
unfolding read_number
strtoull s = to_unsigned (2 ^ 64) (read_number s)

-- A 32-bit `int`.
abbrev pub IsInt : ℤ → Type 0
IsInt (pos n) = n < 2 ^ 31
IsInt (negsuc n) = n < 2 ^ 31
