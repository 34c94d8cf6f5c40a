-- ===== src/FlashLed/Power.antt =====
-- `next_power_of_2`: the five shifts copy the highest bit to every bit below it.
use Prim.Native.Nat.{max}
use native.Mathlib.Nat.{pow-succ', pow-le-pow_right}
use esp32_common.Common.{
  ℕ, zero, suc, ◌+◌, ◌-◌, ◌*◌, ◌/◌, ◌%◌, ◌^◌, ◌≤◌, ◌<◌, ◌≡◌, refl, ap, sym, ◌∙◌, ltb, ◌==◌,
  if◌then◌else◌, arith, inl, inr, Bool-cases,
}
use esp32_common.Common.Bits.{shr, shr-shr, shr-div, shr-bit_or, bit_or-mod}
use esp32_common.FlashLed.Table.{smear, next_power_of_2}

-- 1 if one of the `n` lowest bits of `x` is set.
abbrev any_bit : ℕ → ℕ → ℕ
any_bit zero x = 0
any_bit (suc n) x = max (x % 2) (any_bit n (x / 2))

any_bit-add : (a b x : ℕ) → any_bit (a + b) x ≡ max (any_bit a x) (any_bit b (shr x a))
any_bit-add zero b x = let e : 0 + b ≡ b = omega arith in rw e (omega arith)
any_bit-add (suc a) b x =
    let e : suc a + b ≡ suc (a + b) = omega arith in rw e (omega (arith, any_bit-add a b (x / 2)))

any_bit_sign : (n x : ℕ) → x < 2 ^ n → any_bit n x ≡ (if x == 0 then 0 else 1)
any_bit_sign zero x h = ground arith
any_bit_sign (suc n) x h =
    let below : x / 2 < 2 ^ n = omega (arith, pow-succ' 2 n) in
    ground (arith, any_bit_sign n (x / 2) below)

-- Every bit of `y` is the disjunction of `j` bits of `m` from there.
abbrev Smeared : ℕ → ℕ → ℕ → Type 0
Smeared j m y = (i : ℕ) → shr y i % 2 ≡ any_bit j (shr m i)

Smeared-start : (m : ℕ) → Smeared 1 m m
Smeared-start m i = omega arith

smear-Smeared : (j m y : ℕ) → Smeared j m y → Smeared (j + j) m (smear (2 ^ j) y)
unfolding smear
smear-Smeared j m y h i = rw (sym (shr-div j y)) (
    rw (shr-bit_or i y (shr y j)) (
      rw (bit_or-mod (shr y i) (shr (shr y j) i)) (
        rw (h i) (
          rw (sym (shr-shr j i y)) (
            rw (h (j + i)) (
              rw (any_bit-add j j (shr m i))
                (rw (sym (shr-shr i j m)) (let e : i + j ≡ j + i = omega arith in rw e refl))))))))

-- Bits that are all set up to the highest of `m`.
full_bits :
    (n y m : ℕ)
    → y + m ≤ n
    → ((i : ℕ) → shr y i % 2 ≡ (if shr m i == 0 then 0 else 1))
    → (k : ℕ) × (y + 1 ≡ 2 ^ k) × (m ≤ y) × (y ≤ 2 * m - 1)
full_bits zero y m h bits = (0, omega arith, omega arith, omega arith)
full_bits (suc n) y m h bits = elim (Bool-cases (y + m == 0)) [
  | inl none ↦ (0, ground arith, ground arith, ground arith)
  | inr some ↦
      let (k, e, lo, hi) = full_bits n (y / 2) (m / 2) (ground arith) (λ i. bits (suc i)) in
      let low : y % 2 ≡ (if m == 0 then 0 else 1) = bits 0 in
      elim (Bool-cases (m == 0)) [
        | inl nothing ↦ (0, ground arith, ground arith, ground arith)
        | inr something ↦ (suc k, ground (arith, pow-succ' 2 k), ground arith, ground arith)
      ]
]

-- The five shifts give the bits of the least number of the form 2 ^ k - 1 that is not below.
smeared_lem :
    (m : ℕ)
    → m < 2 ^ 32
    → (k : ℕ) × (smear 65536 (smear 256 (smear 16 (smear 4 (smear 2 m)))) + 1 ≡ 2 ^ k)
      × (m < 2 ^ k)
      × (2 ^ k ≤ 2 * m - 1 + 1)
smeared_lem m h =
    let s2 : Smeared 2 m (smear 2 m) = smear-Smeared 1 m m (Smeared-start m) in
    let s4 : Smeared 4 m (smear 4 (smear 2 m)) = smear-Smeared 2 m _ s2 in
    let s8 : Smeared 8 m (smear 16 (smear 4 (smear 2 m))) = smear-Smeared 4 m _ s4 in
    let s16 : Smeared 16 m (smear 256 (smear 16 (smear 4 (smear 2 m)))) = smear-Smeared 8 m _ s8 in
    let y : ℕ = smear 65536 (smear 256 (smear 16 (smear 4 (smear 2 m)))) in
    let s32 : Smeared 32 m y = smear-Smeared 16 m _ s16 in
    let (k, e, lo, hi) =
      full_bits (y + m) y m (omega arith)
        (λ i. s32 i ∙ any_bit_sign 32 (shr m i) (shr-small i m h)) in
    (k, e, omega arith, omega arith)
  where
    shr-small : (i m : ℕ) → m < 2 ^ 32 → shr m i < 2 ^ 32
    shr-small zero m h = h
    shr-small (suc i) m h = shr-small i (m / 2) (omega arith)

-- For 1 ≤ n ≤ 2 ^ 31 the result is the least power of two that is not below n: one with
-- n ≤ 2 ^ k < 2 n.
pub next_power_of_2_least :
    (n : ℕ)
    → 1 ≤ n
    → n ≤ 2 ^ 31
    → (k : ℕ) × (next_power_of_2 n ≡ 2 ^ k) × (n ≤ 2 ^ k) × (2 ^ k < 2 * n)
unfolding next_power_of_2
next_power_of_2_least n lo hi =
    let (k, e, least, most) = smeared_lem (n - 1) (omega arith) in
    (k, ground arith, omega arith, omega arith)

-- Above 2 ^ 31 the addition wraps, and the result is 0.
pub next_power_of_2_wraps : (n : ℕ) → 2 ^ 31 < n → n < 2 ^ 32 → next_power_of_2 n ≡ 0
unfolding next_power_of_2
next_power_of_2_wraps n lo hi =
    let (k, e, least, most) = smeared_lem (n - 1) (omega arith) in
    elim (Bool-cases (ltb k 32)) [
      | inl small ↦
          let le : 2 ^ k ≤ 2 ^ 31 =
            pow-le-pow_right {n = 2} (omega arith) {i = k} {j = 31} (ground arith) in
          absurd (omega arith)
      | inr large ↦ elim (Bool-cases (ltb k 33)) [
        | inl exact ↦
            let is : k ≡ 32 = ground arith in
            let p : 2 ^ k ≡ 2 ^ 32 = ap (λ (t : ℕ). 2 ^ t) is in ground arith
        | inr over ↦
            let le : 2 ^ 33 ≤ 2 ^ k =
              pow-le-pow_right {n = 2} (omega arith) {i = 33} {j = k} (ground arith) in
            absurd (omega arith)
      ]
    ]
