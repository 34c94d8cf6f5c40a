-- ===== src/FlashLed/Blink.antt =====
-- What the periodic timer does to an LED of the table.
use Prim.Native.Nat.{min}
use native.Mathlib.Nat.{pow-succ', mul-add-div, mul-add-div_right, div-eq_of_lt, one-le-pow}
use esp32_common.Common.{
  ℕ, zero, suc, ◌+◌, ◌-◌, ◌*◌, ◌/◌, ◌%◌, ◌^◌, ◌≤◌, ◌<◌, ◌≡◌, ◌≢◌, refl, ap, sym, ◌∙◌, true, false,
  some, List, [], ◌∷◌, map, ltb, ◌==◌, if◌then◌else◌, arith, inl, inr, Bool-cases,
}
use esp32_common.Common.Bits.{bit_and-pow}
use esp32_common.FlashLed.Table.{Led, Flash, tick_led, toggles, flash_timer_callback}
use esp32_common.FlashLed.Slots.{lookup}

-- The table after `n` expiries of the timer.
unfoldable pub after_ticks : ℕ → Flash → Flash
after_ticks zero s = s
after_ticks (suc n) s = (flash_timer_callback (after_ticks n s)).0

-- The LED with its state negated `n` times, as `!` does it.
abbrev pub flips : ℕ → Led → Led
flips zero l = l
flips (suc n) l = record l { state = if (flips n l).state == 0 then 1 else 0 }

quotient_below_two : (a i : ℕ) → 0 < a → i < 2 * a → i / a ≡ (if ltb i a then 0 else 1)
quotient_below_two a i h lt = elim (Bool-cases (ltb i a)) [
  | inl below ↦ rw below (div-eq_of_lt (ground arith))
  | inr above ↦
      let e : i ≡ 1 * a + (i - a) = ground arith in
      rw above (
        ap (λ (t : ℕ). t / a) e
        ∙ mul-add-div_right h 1 (i - a)
        ∙ ap (λ (t : ℕ). 1 + t) (div-eq_of_lt (ground arith)))
]

swap_two : (a j : ℕ) → 2 * a * j ≡ a * (2 * j)
swap_two a j = ground arith

half_of : (a j i : ℕ) → 0 < a → i < 2 * a → (2 * a * j + i) / a % 2 ≡ (if ltb i a then 0 else 1)
half_of a j i h lt = rw (swap_two a j) (
    rw (mul-add-div h (2 * j) i) (
      rw (quotient_below_two a i h lt)
        (elim (Bool-cases (ltb i a)) [ inl e ↦ rw e (omega arith) | inr e ↦ rw e (omega arith) ])))

toggles-half :
    (k j i : ℕ) (l : Led)
    → l.led_pin ≢ 0
    → l.flash_tick ≡ 2 ^ k
    → i < 2 ^ suc k
    → toggles (2 ^ suc k * j + i) l ≡ ltb i (2 ^ k)
unfolding toggles
toggles-half k j i l pin e h =
    let one : 0 < 2 ^ k = one-le-pow k 2 (omega arith) in
    let two : 2 ^ suc k ≡ 2 * 2 ^ k = pow-succ' 2 k in
    let half = half_of (2 ^ k) j i one (rw two at h) in
    let masked = bit_and-pow k (2 ^ suc k * j + i) in
    rw e (
      rw masked (
        rw two (
          rw half (elim (Bool-cases (ltb i (2 ^ k))) [
            | inl below ↦ rw below (ground arith)
            | inr above ↦ rw above (ground arith)
          ]))))

led_pin-tick : (t : ℕ) (m : Led) → (tick_led t m).led_pin ≡ m.led_pin
unfolding tick_led
led_pin-tick t m = elim (Bool-cases (toggles t m)) [ inl e ↦ rw e refl | inr e ↦ rw e refl ]

lookup-here :
    (p : ℕ) (m : Led) (ls : List Led) → (m.led_pin == p) ≡ true → lookup p (m ∷ ls) ≡ some m
lookup-here p m ls h = rw h refl

lookup-there :
    (p : ℕ) (m : Led) (ls : List Led) → (m.led_pin == p) ≡ false → lookup p (m ∷ ls) ≡ lookup p ls
lookup-there p m ls h = rw h refl

lookup-tick :
    (p t : ℕ) (l : Led) (ls : List Led)
    → lookup p ls ≡ some l
    → lookup p (map (tick_led t) ls) ≡ some (tick_led t l)
lookup-tick p t l [] h = cc
lookup-tick p t l (m ∷ ls) h = elim (Bool-cases (m.led_pin == p)) [
  | inl same ↦
      lookup-here p (tick_led t m) (map (tick_led t) ls) (pin-test ∙ same)
      ∙ ap (λ (x : Led). some (tick_led t x)) (inject (sym (lookup-here p m ls same) ∙ h))
  | inr other ↦
      lookup-there p (tick_led t m) (map (tick_led t) ls) (pin-test ∙ other)
      ∙ lookup-tick p t l ls (sym (lookup-there p m ls other) ∙ h)
]
  where
    pin-test : ((tick_led t m).led_pin == p) ≡ (m.led_pin == p)
    pin-test = ap (λ (q : ℕ). q == p) (led_pin-tick t m)

    inject : {a b : Led} → some a ≡ some b → a ≡ b
    inject h = cc

tick_count_after :
    (n : ℕ) (s : Flash)
    → s.tick_count + n < 2 ^ 32
    → (after_ticks n s).tick_count ≡ s.tick_count + n
unfolding after_ticks flash_timer_callback
tick_count_after zero s h = omega arith
tick_count_after (suc n) s h = ground (arith, tick_count_after n s)

flips-pin : (n : ℕ) (l : Led) → (flips n l).led_pin ≡ l.led_pin
flips-pin zero l = refl
flips-pin (suc n) l = refl

flips-flash_tick : (n : ℕ) (l : Led) → (flips n l).flash_tick ≡ l.flash_tick
flips-flash_tick zero l = refl
flips-flash_tick (suc n) l = refl

tick_led-on :
    (n t : ℕ) (l : Led) → toggles t (flips n l) ≡ true → tick_led t (flips n l) ≡ flips (suc n) l
unfolding tick_led
tick_led-on zero t l h = rw h refl
tick_led-on (suc n) t l h = rw h refl

tick_led-off : (t : ℕ) (l : Led) → toggles t l ≡ false → tick_led t l ≡ l
unfolding tick_led
tick_led-off t l h = rw h refl

-- The step from `n` to `n + 1` ticks of the period.
tick_led-flips :
    (n k t : ℕ) (l : Led)
    → toggles t (flips (min n (2 ^ k)) l) ≡ ltb n (2 ^ k)
    → tick_led t (flips (min n (2 ^ k)) l) ≡ flips (min (suc n) (2 ^ k)) l
tick_led-flips n k t l h = elim (Bool-cases (ltb n (2 ^ k))) [
  | inl on ↦
      let now : min n (2 ^ k) ≡ n = ground arith in
      let next : min (suc n) (2 ^ k) ≡ suc n = ground arith in
      rw next (rw now (tick_led-on n t l (rw now at (h ∙ on))))
  | inr off ↦
      let stays : min (suc n) (2 ^ k) ≡ min n (2 ^ k) = ground arith in
      rw stays (tick_led-off t (flips (min n (2 ^ k)) l) (h ∙ off))
]

callback-looks :
    (p : ℕ) (s : Flash) (l : Led)
    → lookup p s.led_st ≡ some l
    → s.tick_count + 1 < 2 ^ 32
    → lookup p (flash_timer_callback s).0.led_st ≡ some (tick_led (s.tick_count + 1) l)
unfolding flash_timer_callback
callback-looks p s l look lt =
    let e : (s.tick_count + 1) % 2 ^ 32 ≡ s.tick_count + 1 = omega arith in
    rw e (lookup-tick p (s.tick_count + 1) l s.led_st look)

lookup-pin : (p : ℕ) (ls : List Led) (l : Led) → lookup p ls ≡ some l → l.led_pin ≡ p
lookup-pin p [] l h = cc
lookup-pin p (m ∷ ls) l h = ground (arith, lookup-pin p ls l)

-- An LED of the table whose rounded tick is 2 ^ k, seen from the start of a period of 2 ^ (k + 1)
-- ticks and while the counter does not wrap: in the first half of the period the state is negated at
-- every tick, and in the second half it stays.
pub after_ticks_blink :
    (n k j p : ℕ) (s : Flash) (l : Led)
    → p ≢ 0
    → lookup p s.led_st ≡ some l
    → l.flash_tick ≡ 2 ^ k
    → s.tick_count + 1 ≡ 2 ^ suc k * j
    → n ≤ 2 ^ suc k
    → s.tick_count + n < 2 ^ 32
    → lookup p (after_ticks n s).led_st ≡ some (flips (min n (2 ^ k)) l)
unfolding after_ticks
after_ticks_blink zero k j p s l h look e start le lt =
    let nothing : min 0 (2 ^ k) ≡ 0 = omega arith in rw nothing look
after_ticks_blink (suc n) k j p s l h look e start le lt =
    let before = after_ticks_blink n k j p s l h look e start (omega arith) (omega arith) in
    let m : Led = flips (min n (2 ^ k)) l in
    let count : (after_ticks n s).tick_count ≡ s.tick_count + n =
      tick_count_after n s (omega arith) in
    let now : (after_ticks n s).tick_count + 1 ≡ 2 ^ suc k * j + n = omega (arith, count, start) in
    let pin : m.led_pin ≢ 0 = λ zero_pin.
      h (sym (lookup-pin p s.led_st l look) ∙ sym (flips-pin (min n (2 ^ k)) l) ∙ zero_pin) in
    let on : toggles ((after_ticks n s).tick_count + 1) m ≡ ltb n (2 ^ k) =
      rw now (toggles-half k j n m pin (flips-flash_tick (min n (2 ^ k)) l ∙ e) le) in
    callback-looks p (after_ticks n s) m before (omega (arith, count))
    ∙ ap some (tick_led-flips n k ((after_ticks n s).tick_count + 1) l on)
