-- ===== src/RotEnc/Handler.antt =====
-- The messages, the callbacks and one round of the loop of `rot_enc_cmd`. What a round asks of
-- FreeRTOS and of the timer drivers is a list of calls; what it asks them for, whether the
-- inactivity timer is active, comes with the message.
use esp32_common.Common.{
  ℕ, ◌+◌, ◌-◌, ◌%◌, ◌^◌, Bool, ◌&&◌, Option, none, some, List, [], ◌∷◌, ◌++◌, ltb, ◌==◌,
  if◌then◌else◌,
}

-- The fields of `msg_t` (common_defines.h) that the component uses.
pub record Msg : Type 0 where
  pub source : ℕ
  pub val : ℕ
  pub ts : ℕ  -- uint64_t
  pub ival0 : ℕ
  pub ival1 : ℕ

abbrev pub no_msg : Msg
no_msg = record { source = 0; val = 0; ts = 0; ival0 = 0; ival1 = 0 }

-- Sources of messages to the task.
abbrev pub from_rot : ℕ
from_rot = 1

abbrev pub from_key : ℕ
from_key = 2

abbrev pub from_timer : ℕ
from_timer = 3

abbrev pub from_inactivity : ℕ
from_inactivity = 4

-- Sources of messages to the user interface, and the two values of a rotation.
abbrev pub k_rot : ℕ
k_rot = 0x10

abbrev pub k_rot_left : ℕ
k_rot_left = 0x11

abbrev pub k_rot_right : ℕ
k_rot_right = 0x12

abbrev pub k_press : ℕ
k_press = 0x21

abbrev pub k_down : ℕ
k_down = 0x22

abbrev pub k_up : ℕ
k_up = 0x23

abbrev pub key_pressed : ℕ
key_pressed = 1

abbrev pub key_released : ℕ
key_released = 0

-- Microseconds.
abbrev pub push_time_short : ℕ
push_time_short = 100_000

abbrev pub push_time_long : ℕ
push_time_long = 2_000_000

abbrev pub push_time_longlong : ℕ
push_time_longlong = 10_000_000

abbrev pub push_key_repeat : ℕ
push_key_repeat = 500_000

-- Seconds.
abbrev pub rot_inactivity_time : ℕ
rot_inactivity_time = 30

abbrev pub inactivity_period : ℕ
inactivity_period = 1_000_000

-- The pins of project_specific.h.
pub record Pins : Type 0 where
  pub s1 : ℕ
  pub s2 : ℕ
  pub key : ℕ

-- `rot_enc_isr_handler` on an edge at `gpio_num`, with the levels of the pins and the time: the
-- message it puts in the queue.
unfoldable pub rot_enc_isr_handler : Pins → ℕ → (ℕ → ℕ) → ℕ → Option Msg
rot_enc_isr_handler pins gpio_num level now =
    if gpio_num == pins.s1
    then some (record no_msg { ival0 = level pins.s1; ival1 = level pins.s2; source = from_rot })
    else if gpio_num == pins.key
    then some (record no_msg { source = from_key; val = level pins.key; ts = now })
    else none

abbrev pub key_timer_callback : Msg
key_timer_callback = record no_msg { source = from_timer }

-- The static variables, and the task's local `msgs`, whose fields stay from one event to the next.
pub record Enc : Type 0 where
  pub key_state : ℕ
  pub press_time : ℕ
  pub key_count : ℕ
  pub last_key_event_time : ℕ  -- uint64_t
  pub idle_time : ℕ  -- `rot_inactivity_time`
  pub msgs : Msg

-- `inactivity_timer_callback`: the new state and the message, if one is put in the queue.
unfoldable pub inactivity_timer_callback : Enc → Enc × Option Msg
inactivity_timer_callback s =
    let idle = s.idle_time + 1 in
    (
      record s { idle_time = idle },
      if ltb rot_inactivity_time idle
          then some (record no_msg { source = from_inactivity; val = idle })
          else none,
    )

pub data Call : Type 0 where
  send_ui : Msg → Call  -- xQueueSend(ui_cmd_queue, …, 0)
  set_bl_pwm_high : Call
  start_inactivity : ℕ → Call
  stop_inactivity : Call
  set_key_alarm : ℕ → Call
  clear_key_count : Call
  start_key_timer : Call
  stop_key_timer : Call

-- `if(!esp_timer_is_active(inactivity_timer)) esp_timer_start_periodic(…)`
abbrev pub restart_inactivity : Bool → List Call
restart_inactivity active = if active then [] else start_inactivity inactivity_period ∷ []

-- The calls that set the key timer to go off after `t`.
abbrev pub arm_key_timer : ℕ → List Call
arm_key_timer t = set_key_alarm t ∷ clear_key_count ∷ start_key_timer ∷ []

-- An event for the user interface: `msgs` with its new fields, kept and sent.
abbrev say : Enc → Msg → Enc
say s m = record s { msgs = m }

-- Knob rotation.
unfoldable pub on_rot : Enc → Msg → Bool → Enc × List Call
on_rot s m active =
    let awake = record s { idle_time = 0 } in
    let calls = restart_inactivity active ++ (set_bl_pwm_high ∷ []) in
    if m.ival0 == 1 && m.ival1 == 0
    then (let msg = record s.msgs { source = k_rot; val = k_rot_right } in
        (say awake msg, calls ++ (send_ui msg ∷ [])))
    else if m.ival0 == 1 && m.ival1 == 1
    then (let msg = record s.msgs { source = k_rot; val = k_rot_left } in
        (say awake msg, calls ++ (send_ui msg ∷ [])))
    else (awake, calls)

-- The key count of a press at time `ts`: `ts - last` is a 64-bit difference.
abbrev pub next_key_count : Enc → ℕ → ℕ
next_key_count s ts =
    if ltb ((ts + 2 ^ 64 - s.last_key_event_time) % 2 ^ 64) push_key_repeat
    then s.key_count + 1
    else 0

-- Key pressed or released.
unfoldable pub on_key : Enc → Msg → Bool → Enc × List Call
on_key s m active =
    let awake = record s { idle_time = 0 } in
    let calls = set_bl_pwm_high ∷ restart_inactivity active in
    if m.val == key_released
    then (if s.key_state == key_pressed
        then (let msg = record s.msgs { source = k_up } in
            (
              record (say awake msg) { key_state = m.val },
              calls ++ (stop_key_timer ∷ send_ui msg ∷ []),
            ))
        else (awake, calls))
    else (if s.key_state == key_released
        then (let count = next_key_count s m.ts in
            let msg = record s.msgs { source = k_down; ival0 = count } in
            (
              record (say awake msg) {
                press_time = push_time_short;
                key_count = count;
                last_key_event_time = m.ts;
                key_state = m.val;
              },
              calls ++ (arm_key_timer push_time_short ++ (send_ui msg ∷ [])),
            ))
        else (awake, calls))

-- Key timer expired.
unfoldable pub on_timer : Enc → Enc × List Call
on_timer s =
    if s.key_state == key_released
    then (s, [])
    else if s.press_time == push_time_short
    then (let msg = record s.msgs { source = k_press; val = push_time_short } in
        (
          record (say s msg) { press_time = push_time_long },
          send_ui msg ∷ arm_key_timer (push_time_long - push_time_short),
        ))
    else if s.press_time == push_time_long
    then (let msg = record s.msgs { source = k_press; val = push_time_long } in
        (
          record (say s msg) { press_time = push_time_longlong },
          send_ui msg ∷ arm_key_timer (push_time_longlong - push_time_long),
        ))
    else if s.press_time == push_time_longlong
    then (let msg = record s.msgs { source = k_press; val = push_time_longlong } in
        (say s msg, send_ui msg ∷ []))
    else (s, [])

-- Too long without activity: the message goes on as it is.
unfoldable pub on_inactivity : Enc → Msg → Bool → Enc × List Call
on_inactivity s m active = (s, send_ui m ∷ (if active then stop_inactivity ∷ [] else []))

-- One round of the task's loop.
unfoldable pub handle : Enc → Msg → Bool → Enc × List Call
handle s m active =
    if m.source == from_rot
    then on_rot s m active
    else if m.source == from_key
    then on_key s m active
    else if m.source == from_timer
    then on_timer s
    else if m.source == from_inactivity
    then on_inactivity s m active
    else (s, [])

-- What the task sets before its loop; `level` is the key's level at `init_rotenc`.
abbrev pub started : ℕ → Msg → Enc
started level garbage = record {
  key_state = level;
  press_time = push_time_short;
  key_count = 0;
  last_key_event_time = 0;
  idle_time = 0;
  msgs = garbage;
}

-- The loop on a sequence of messages.
unfoldable pub rot_enc_cmd : Enc → List (Msg × Bool) → Enc × List Call
rot_enc_cmd s [] = (s, [])
rot_enc_cmd s ((m, active) ∷ ms) =
    let (s', calls) = handle s m active in
    let (s'', more) = rot_enc_cmd s' ms in (s'', calls ++ more)
