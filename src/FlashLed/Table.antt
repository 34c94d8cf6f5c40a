-- ===== src/FlashLed/Table.antt =====
-- The table of blinking LEDs: `next_power_of_2`, `flash_timer_callback` and `set_flash_led` of
-- utils/utils.c. An `int` is its pattern of 32 bits: the code only copies it, tests it for zero or
-- equality, and converts it to `uint32_t`.
use Prim.Native.Nat.{bit_and, bit_or}
use esp32_common.Common.{
  ℕ, ◌+◌, ◌-◌, ◌/◌, ◌%◌, ◌^◌, Bool, true, false, not, ◌&&◌, Option, none, some, List, [], ◌∷◌, map,
  ◌==◌, if◌then◌else◌,
}

-- `n |= n >> s`, with `p` the power 2 ^ s.
unfoldable pub smear : ℕ → ℕ → ℕ
smear p n = bit_or n (n / p)

unfoldable pub next_power_of_2 : ℕ → ℕ
next_power_of_2 n =
    if n == 0
    then 0
    else (smear 65536 (smear 256 (smear 16 (smear 4 (smear 2 (n - 1))))) + 1) % 2 ^ 32

pub record Led : Type 0 where
  pub led_pin : ℕ
  pub flash_tick : ℕ
  pub state : ℕ

-- A call of `gpio_set_level`: the pin and the level.
abbrev pub Level : Type 0
Level = ℕ × ℕ

-- One LED at a tick: whether it toggles, and what it becomes.
unfoldable pub toggles : ℕ → Led → Bool
toggles tick l =
    not (l.led_pin == 0) && (not (l.flash_tick == 0) && (bit_and tick l.flash_tick == 0))

unfoldable pub tick_led : ℕ → Led → Led
tick_led tick l = if toggles tick l then record l { state = if l.state == 0 then 1 else 0 } else l

unfoldable pub levels : ℕ → List Led → List Level
levels tick [] = []
levels tick (l ∷ ls) =
    if toggles tick l then (l.led_pin, l.state) ∷ levels tick ls else levels tick ls

-- `led_st`, `tick_count`, and whether `flash_timer` exists.
pub record Flash : Type 0 where
  pub led_st : List Led
  pub tick_count : ℕ
  pub flash_timer : Bool

unfoldable pub flash_timer_callback : Flash → Flash × List Level
flash_timer_callback s =
    let tick = (s.tick_count + 1) % 2 ^ 32 in
    (record s { tick_count = tick; led_st = map (tick_led tick) s.led_st }, levels tick s.led_st)

pub data Err : Type 0 where
  esp_ok esp_fail esp_err_invalid_arg : Err

-- How the loop of `set_flash_led` ends: at the slot of the LED, at the first free slot with the
-- pin an output or not, or behind the table.
pub data End : Type 0 where
  found added not_output full : End

-- The loop, at the remaining slots, and the branch that the slot it stops at leads to. `output` is
-- `is_gpio_output(led_no)`.
unfoldable pub place : Bool → Led → List Led → End × List Led
place output new [] = (full, [])
place output new (l ∷ ls) =
    let rest = place output new ls in
    if l.led_pin == new.led_pin
    then (found, new ∷ ls)
    else if l.led_pin == 0
    then if output then (added, new ∷ ls) else (not_output, l ∷ ls)
    else (rest.0, l ∷ rest.1)

abbrev pub code_of : End → Err
code_of found = esp_ok
code_of added = esp_ok
code_of not_output = esp_err_invalid_arg
code_of full = esp_fail

abbrev pub writes_level : End → Bool
writes_level found = true
writes_level added = true
writes_level _ = false

-- Only the branch of a slot in use returns before the timer is made.
abbrev pub makes_timer : End → Bool
makes_timer found = false
makes_timer _ = true

-- `timer_made` is whether `esp_timer_create` and `esp_timer_start_periodic` return ESP_OK; `none` is
-- the stop of CRASH_ERROR_CHECK.
unfoldable pub set_flash_led : Bool → Bool → ℕ → ℕ → ℕ → Flash → Option (Err × Flash × List Level)
set_flash_led output timer_made led_no led_state tick s =
    let new : Led = record {
      led_pin = led_no;
      flash_tick = next_power_of_2 tick;
      state = led_state;
    } in
    let r = place output new s.led_st in
    let out : List Level = if writes_level r.0 then (led_no, led_state) ∷ [] else [] in
    let placed : Flash = record s { led_st = r.1 } in
    if makes_timer r.0 && not s.flash_timer
    then if timer_made then some (code_of r.0, record placed { flash_timer = true }, out) else none
    else some (code_of r.0, placed, out)
