-- ===== src/Common/Bits.antt =====
-- Binary digits of native numbers: what `bit_and` and `bit_or` do to them, and right shifts.
use Prim.Native.Nat.{
  ℕ, zero, suc, ◌+◌, ◌*◌, ◌/◌, ◌%◌, ◌^◌, ◌≤◌, min, max, digits, bit_and, bit_or, bit_and-bitwise,
  bit_or-bitwise,
}
use mathlib.Core.Path.{◌≡◌, refl, ap, sym, ◌∙◌}
use native.Mathlib.Nat.{div-div-eq-div-mul, pow-succ'}
use native.Mathlib.Omega.{arith}

-- More fuel than the number that is taken apart changes nothing.
module _ (z : ℕ → ℕ) (f : ℕ → ℕ → ℕ) where
  digits_more : (n m a b : ℕ) → a ≤ n → n ≤ m → digits z f m a b ≡ digits z f n a b
  digits_more zero zero a b h le = refl
  digits_more zero (suc m) zero b h le = refl
  digits_more zero (suc m) (suc a) b h le = absurd (omega arith)
  digits_more (suc n) zero a b h le = absurd (omega arith)
  digits_more (suc n) (suc m) zero b h le = refl
  digits_more (suc n) (suc m) (suc a) b h le =
      ap (λ (t : ℕ). t * 2 + f (suc a % 2) (b % 2))
        (digits_more n m (suc a / 2) (b / 2) (omega arith) (omega arith))

  -- One digit, with the fuel of the halves.
  lowest_digit :
      (a b : ℕ)
      → digits z f (suc a) (suc a) b
        ≡ digits z f (suc a / 2) (suc a / 2) (b / 2) * 2 + f (suc a % 2) (b % 2)
  lowest_digit a b =
      ap (λ (t : ℕ). t * 2 + f (suc a % 2) (b % 2))
        (digits_more (suc a / 2) a (suc a / 2) (b / 2) (omega arith) (omega arith))

pub bit_or-lowest : (a b : ℕ) → bit_or a b ≡ bit_or (a / 2) (b / 2) * 2 + max (a % 2) (b % 2)
bit_or-lowest zero b = omega (arith, bit_or-bitwise 0 b, bit_or-bitwise 0 (b / 2))
bit_or-lowest (suc a) b = omega (
  arith,
  bit_or-bitwise (suc a) b,
  bit_or-bitwise (suc a / 2) (b / 2),
  lowest_digit (λ y. y) max a b,
)

pub bit_and-lowest : (a b : ℕ) → bit_and a b ≡ bit_and (a / 2) (b / 2) * 2 + min (a % 2) (b % 2)
bit_and-lowest zero b = omega (arith, bit_and-bitwise 0 b, bit_and-bitwise 0 (b / 2))
bit_and-lowest (suc a) b = omega (
  arith,
  bit_and-bitwise (suc a) b,
  bit_and-bitwise (suc a / 2) (b / 2),
  lowest_digit (λ y. 0) min a b,
)

pub bit_and-div : (a b : ℕ) → bit_and a b / 2 ≡ bit_and (a / 2) (b / 2)
bit_and-div a b = omega (arith, bit_and-lowest a b)

pub bit_or-div : (a b : ℕ) → bit_or a b / 2 ≡ bit_or (a / 2) (b / 2)
bit_or-div a b = omega (arith, bit_or-lowest a b)

pub bit_or-mod : (a b : ℕ) → bit_or a b % 2 ≡ max (a % 2) (b % 2)
bit_or-mod a b = omega (arith, bit_or-lowest a b)

-- `x >> j`.
abbrev pub shr : ℕ → ℕ → ℕ
shr x zero = x
shr x (suc j) = shr (x / 2) j

pub shr-shr : (a b x : ℕ) → shr x (a + b) ≡ shr (shr x a) b
shr-shr zero b x = let e : 0 + b ≡ b = omega arith in rw e refl
shr-shr (suc a) b x = let e : suc a + b ≡ suc (a + b) = omega arith in rw e (shr-shr a b (x / 2))

pub shr-div : (j x : ℕ) → shr x j ≡ x / 2 ^ j
shr-div zero x = omega arith
shr-div (suc j) x =
    shr-div j (x / 2) ∙ div-div-eq-div-mul x 2 (2 ^ j) ∙ ap (λ (t : ℕ). x / t) (sym (pow-succ' 2 j))

pub shr-bit_or : (j x y : ℕ) → shr (bit_or x y) j ≡ bit_or (shr x j) (shr y j)
shr-bit_or zero x y = refl
shr-bit_or (suc j) x y = ap (λ (t : ℕ). shr t j) (bit_or-div x y) ∙ shr-bit_or j (x / 2) (y / 2)

pub bit_and-zero : (n a : ℕ) → a ≤ n → bit_and a 0 ≡ 0
bit_and-zero n zero h = refl
bit_and-zero zero (suc a) h = absurd (omega arith)
bit_and-zero (suc n) (suc a) h =
    omega (arith, bit_and-lowest (suc a) 0, bit_and-zero n (suc a / 2) (omega arith))

-- A mask of one bit.
pub bit_and-pow : (k x : ℕ) → bit_and x (2 ^ k) ≡ 2 ^ k * (x / 2 ^ k % 2)
bit_and-pow k x = masked k x ∙ ap (λ (t : ℕ). 2 ^ k * (t % 2)) (shr-div k x)
  where
    masked : (k x : ℕ) → bit_and x (2 ^ k) ≡ 2 ^ k * (shr x k % 2)
    masked zero x = omega (arith, bit_and-lowest x 1, bit_and-zero (x / 2) (x / 2) (omega arith))
    masked (suc k) x = rw (pow-succ' 2 k) (
        omega (
          arith,
          bit_and-lowest x (2 * 2 ^ k),
          ap (λ (t : ℕ). bit_and (x / 2) t) (halved k),
          masked k (x / 2),
          double k (shr (x / 2) k % 2),
        ))
      where
        halved : (k : ℕ) → 2 * 2 ^ k / 2 ≡ 2 ^ k
        halved k = omega arith

        double : (k r : ℕ) → 2 * 2 ^ k * r ≡ 2 * (2 ^ k * r)
        double k r = ground arith
