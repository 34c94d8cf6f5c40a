-- ===== src/Common/Decimal/RoundTrip.antt =====
-- What is printed in decimal is read back.
use native.Mathlib.Nat.{pow-suc}
use esp32_common.Common.{
  ℕ, zero, suc, ◌+◌, ◌-◌, ◌*◌, ◌/◌, ◌%◌, ◌^◌, ◌≤◌, ◌<◌, ◌≡◌, ◌≢◌, refl, ap, ◌∙◌, true, false, [],
  ◌∷◌, arith, ltb, ◌==◌, inl, inr, Bool-cases, sym, ltb→lt, lt→ltb,
}
use esp32_common.Common.Int.{ℤ, pos, negsuc}
use esp32_common.Common.Memory.{Bytes, No}
use esp32_common.Common.Decimal.{
  digits_onto, print_dec, print_int, is_digit, is_space, read_digits, read_number, atoi, strtoul,
  strtoull, to_int, to_unsigned, IsInt,
}

abbrev AllDigits : Bytes → Type 0
AllDigits [] = Unit {0}
AllDigits (c ∷ cs) = (48 ≤ c) × (c ≤ 57) × AllDigits cs

AllDigits-digits_onto : (f n : ℕ) (acc : Bytes) → AllDigits acc → AllDigits (digits_onto f n acc)
unfolding digits_onto
AllDigits-digits_onto zero n acc h = h
AllDigits-digits_onto (suc f) n acc h = elim (Bool-cases (ltb n 10)) [
  | inl small ↦ rw small (omega arith, omega arith, h)
  | inr large ↦ rw large (AllDigits-digits_onto f (n / 10) _ (omega arith, omega arith, h))
]

read_digits-cons :
    (v d : ℕ) (acc : Bytes) → d < 10 → read_digits v ((48 + d) ∷ acc) ≡ read_digits (v * 10 + d) acc
unfolding read_digits
read_digits-cons v d acc h =
    let digit : is_digit (48 + d) ≡ true = ground arith in
    let value : 48 + d - 48 ≡ d = omega arith in rw (digit, value)

div-lt-pow : (f n : ℕ) → n < 10 ^ suc f → n / 10 < 10 ^ f
div-lt-pow f n h = let e : 10 ^ suc f ≡ 10 ^ f * 10 = pow-suc 10 f in omega (arith, e)

read_digits-onto :
    (f n : ℕ) (acc : Bytes) → n < 10 ^ f → read_digits 0 (digits_onto f n acc) ≡ read_digits n acc
unfolding digits_onto
read_digits-onto zero n acc h =
    let e : n ≡ 0 = omega arith in ap (λ (t : ℕ). read_digits t acc) (sym e)
read_digits-onto (suc f) n acc h = elim (Bool-cases (ltb n 10)) [
  | inl small ↦
      let below : n < 10 = ltb→lt n 10 small in
      let value : 0 * 10 + n % 10 ≡ n = omega arith in
      rw small (read_digits-cons 0 (n % 10) acc (omega arith) ∙ rw value)
  | inr large ↦
      let value : n / 10 * 10 + n % 10 ≡ n = omega arith in
      rw large (
        read_digits-onto f (n / 10) _ (div-lt-pow f n h)
        ∙ read_digits-cons (n / 10) (n % 10) acc (omega arith)
        ∙ rw value)
]

-- A text of digits is read with no space and no sign before it.
read_number-digit :
    (c : ℕ) (cs : Bytes) → 48 ≤ c → c ≤ 57 → read_number (c ∷ cs) ≡ (false, read_digits 0 (c ∷ cs))
unfolding read_number
read_number-digit c cs lo hi =
    let digit : is_digit c ≡ true = ground arith in
    let space : is_space c ≡ false = ground arith in
    let minus : (c == b'-') ≡ false = ground arith in
    let plus : (c == b'+') ≡ false = ground arith in rw space (rw minus (rw plus refl))

digits-cons-eq :
    (f n : ℕ) (acc : Bytes) → (c : ℕ) × (cs : Bytes) × (digits_onto (suc f) n acc ≡ c ∷ cs)
unfolding digits_onto
digits-cons-eq zero n acc = elim (Bool-cases (ltb n 10)) [
  | inl small ↦ (48 + n % 10, acc, rw small)
  | inr large ↦ (48 + n % 10, acc, rw large)
]
digits-cons-eq (suc f) n acc = elim (Bool-cases (ltb n 10)) [
  | inl small ↦ (48 + n % 10, acc, rw small)
  | inr large ↦
      let (c, cs, e) = digits-cons-eq f (n / 10) ((48 + n % 10) ∷ acc) in (c, cs, rw large e)
]

AllDigits-print_dec : (n : ℕ) → AllDigits (print_dec n)
unfolding print_dec
AllDigits-print_dec n = AllDigits-digits_onto 20 n [] tt

read_digits-print_dec : (n : ℕ) → n < 10 ^ 20 → read_digits 0 (print_dec n) ≡ n
unfolding print_dec read_digits
read_digits-print_dec n h = read_digits-onto 20 n [] h

print_dec-cons : (n : ℕ) → (c : ℕ) × (cs : Bytes) × (print_dec n ≡ c ∷ cs)
unfolding print_dec
print_dec-cons n = digits-cons-eq 19 n []

read_number-digits : (s : Bytes) → AllDigits s → (s ≢ []) → read_number s ≡ (false, read_digits 0 s)
read_number-digits [] h ne = absurd (ne refl)
read_number-digits (c ∷ cs) h ne = read_number-digit c cs h.0 h.1

print_dec-ne-nil : (n : ℕ) → print_dec n ≢ []
print_dec-ne-nil n e = let (c, cs, p) = print_dec-cons n in cc

read_number-print_dec : (n : ℕ) → n < 10 ^ 20 → read_number (print_dec n) ≡ (false, n)
read_number-print_dec n h =
    read_number-digits (print_dec n) (AllDigits-print_dec n) (print_dec-ne-nil n)
    ∙ rw (read_digits-print_dec n h)

read_number-minus : (n : ℕ) → n < 10 ^ 20 → read_number (b'-' ∷ print_dec n) ≡ (true, n)
unfolding read_number
read_number-minus n h = rw (read_digits-print_dec n h)

pub atoi-print_int : (z : ℤ) → IsInt z → atoi (print_int z) ≡ z
unfolding atoi print_int
atoi-print_int (pos n) h =
    let e : read_number (print_dec n) ≡ (false, n) = read_number-print_dec n (omega arith) in
    let fits : ltb n (2 ^ 31) ≡ true = lt→ltb n (2 ^ 31) h in ap to_int e ∙ ground arith
atoi-print_int (negsuc n) h =
    let e : read_number (b'-' ∷ print_dec (suc n)) ≡ (true, suc n) =
      read_number-minus (suc n) (omega arith) in
    ap to_int e ∙ ground arith

pub atoi-print_dec : (n : ℕ) → n < 2 ^ 31 → atoi (print_dec n) ≡ pos n
unfolding print_int
atoi-print_dec n h = atoi-print_int (pos n) h

pub strtoul-print_dec : (n : ℕ) → n < 2 ^ 32 → strtoul (print_dec n) ≡ n
unfolding strtoul
strtoul-print_dec n h =
    ap (to_unsigned (2 ^ 32)) (read_number-print_dec n (omega arith)) ∙ ground arith

pub strtoull-print_dec : (n : ℕ) → n < 2 ^ 64 → strtoull (print_dec n) ≡ n
unfolding strtoull
strtoull-print_dec n h =
    ap (to_unsigned (2 ^ 64)) (read_number-print_dec n (omega arith)) ∙ ground arith

No-AllDigits : (b : ℕ) (s : Bytes) → (b < 48) → AllDigits s → No b s
No-AllDigits b [] h d = tt
No-AllDigits b (c ∷ cs) h d = (omega arith, No-AllDigits b cs h d.2)

-- Decimal text holds no byte below `-`, so neither NUL nor a separator.
pub No-print_dec : (b n : ℕ) → b < 45 → No b (print_dec n)
No-print_dec b n h = No-AllDigits b (print_dec n) (omega arith) (AllDigits-print_dec n)

pub No-print_int : (b : ℕ) (z : ℤ) → b < 45 → No b (print_int z)
unfolding print_int
No-print_int b (pos n) h = No-print_dec b n h
No-print_int b (negsuc n) h = (omega arith, No-print_dec b (suc n) h)
