-- ===== src/FlashLed/Tests.antt =====
-- Two LEDs in a table of five slots.
use Prim.Native.Nat.{min}
use esp32_common.Common.{
  ℕ, ◌*◌, ◌^◌, ◌≤◌, ◌<◌, ◌≡◌, ◌≢◌, refl, true, false, not, ◌&&◌, ◌||◌, some, List, [], ◌∷◌,
  replicate, length, ◌==◌, if◌then◌else◌, arith,
}
use esp32_common.FlashLed.Table.{
  Led, Level, Flash, Err, esp_err_invalid_arg, smear, next_power_of_2, place, set_flash_led,
  toggles, tick_led, levels, flash_timer_callback,
}
use esp32_common.FlashLed.Power.{next_power_of_2_least}
use esp32_common.FlashLed.Slots.{lookup, uses, is_table, expected, is_ok, set_flash_led_sets}
use esp32_common.FlashLed.Blink.{after_ticks, flips, after_ticks_blink}

abbrev slot : ℕ → ℕ → ℕ → Led
slot p f st = record { led_pin = p; flash_tick = f; state = st }

abbrev blinking : Flash
blinking = record {
  led_st = slot 4 2 1 ∷ slot 7 4 0 ∷ replicate 3 (slot 0 0 0);
  tick_count = 3;
  flash_timer = true;
}

rounds_five : next_power_of_2 5 ≡ 8
unfolding next_power_of_2 smear
rounds_five = refl

callback_once : flash_timer_callback blinking ≡ (
  record blinking { tick_count = 4; led_st = slot 4 2 0 ∷ slot 7 4 0 ∷ replicate 3 (slot 0 0 0) },
  (4, 1) ∷ [],
)
unfolding flash_timer_callback tick_led toggles levels
callback_once = refl

refused : set_flash_led false true 9 1 5 blinking ≡ some (esp_err_invalid_arg, blinking, [])
unfolding set_flash_led place
refused = refl

next_power_of_2_least_example :
    (k : ℕ) × (next_power_of_2 5 ≡ 2 ^ k) × (5 ≤ 2 ^ k) × (2 ^ k < 2 * 5)
next_power_of_2_least_example = next_power_of_2_least 5 (omega arith) (omega arith)

set_flash_led_sets_example :
    (code : Err) × (t : Flash) × (out : List Level) × (set_flash_led true true 9 1 5 blinking
      ≡ some (code, t, out))
    × (code ≡ expected true 9 blinking.led_st)
    × ((q : ℕ)
        → q ≢ 0
        → lookup q t.led_st ≡ (
            if (q == 9) && is_ok code
            then some (record { led_pin = 9; flash_tick = next_power_of_2 5; state = 1 })
            else lookup q blinking.led_st))
    × (is_table t.led_st ≡ true)
    × (length t.led_st ≡ length blinking.led_st)
    × (t.flash_timer ≡ blinking.flash_timer || not (uses 9 blinking.led_st))
    × (out ≡ (if is_ok code then (9, 1) ∷ [] else []))
set_flash_led_sets_example = set_flash_led_sets true 9 1 5 blinking (omega arith) refl

after_ticks_blink_example :
    lookup 4 (after_ticks 3 blinking).led_st ≡ some (flips (min 3 (2 ^ 1)) (slot 4 2 1))
after_ticks_blink_example =
    after_ticks_blink 3 1 1 4 blinking (slot 4 2 1) (omega arith) refl refl refl (omega arith)
      (omega arith)
