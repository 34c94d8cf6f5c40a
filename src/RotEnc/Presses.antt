-- ===== src/RotEnc/Presses.antt =====
-- How a key that is held is reported: after 100 ms, 2 s and 10 s, counted from the key-down.
use esp32_common.Common.{
  ℕ, zero, suc, ◌+◌, ◌^◌, ◌≡◌, ◌≤◌, ◌<◌, refl, ◌∙◌, ap, ◌⊎◌, Bool, true, List, [], ◌∷◌, ◌++◌, ◌==◌,
  if◌then◌else◌, arith, replicate,
}
use esp32_common.RotEnc.Handler.{
  Msg, Enc, Call, send_ui, set_key_alarm, set_bl_pwm_high, start_inactivity, stop_inactivity,
  clear_key_count, start_key_timer, stop_key_timer, key_timer_callback, key_pressed, key_released,
  push_time_short, push_time_long, push_time_longlong, push_key_repeat, from_key, on_key, on_timer,
  handle, rot_enc_cmd,
}
use esp32_common.RotEnc.Keys.{KeyEvent, down, press, key_events, key_events-append}

-- The alarms that the key timer was set to, added up.
abbrev pub alarm_total : List Call → ℕ
alarm_total [] = 0
alarm_total (set_key_alarm t ∷ cs) = t + alarm_total cs
alarm_total (c ∷ cs) = alarm_total cs

-- `n` expiries of the key timer.
abbrev pub expiries : ℕ → List (Msg × Bool)
expiries n = replicate n (key_timer_callback, true)

-- The time to report behind `t`.
abbrev pub longer : ℕ → ℕ
longer t = if t == push_time_short then push_time_long else push_time_longlong

-- What `n` expiries are to report, the first after `t` microseconds.
abbrev pub held : ℕ → ℕ → List KeyEvent
held t zero = []
held t (suc n) = press t ∷ held (longer t) n

pub record IsHeld (s : Enc) : Type 0 where
  pub is_down : s.key_state ≡ key_pressed
  pub stage :
      (s.press_time ≡ push_time_short)
      ⊎ (s.press_time ≡ push_time_long)
      ⊎ (s.press_time ≡ push_time_longlong)

expiry-IsHeld : (s : Enc) (active : Bool) → IsHeld s → IsHeld (handle s key_timer_callback active).0
unfolding handle on_timer
expiry-IsHeld s active h = ground arith

expiry-event :
    (s : Enc) (active : Bool)
    → IsHeld s
    → key_events (handle s key_timer_callback active).1 ≡ press s.press_time ∷ []
unfolding handle on_timer
expiry-event s active h = ground arith

expiry-stage :
    (s : Enc) (active : Bool)
    → IsHeld s
    → ((handle s key_timer_callback active).0.press_time ≡ longer s.press_time)
      × ((handle s key_timer_callback active).0.press_time
          ≡ s.press_time + alarm_total (handle s key_timer_callback active).1)
unfolding handle on_timer
expiry-stage s active h = ground arith

pub alarm_total-append :
    (cs ds : List Call) → alarm_total (cs ++ ds) ≡ alarm_total cs + alarm_total ds
alarm_total-append [] ds = omega arith
alarm_total-append (set_key_alarm t ∷ cs) ds = omega (arith, alarm_total-append cs ds)
alarm_total-append (send_ui m ∷ cs) ds = alarm_total-append cs ds
alarm_total-append (set_bl_pwm_high ∷ cs) ds = alarm_total-append cs ds
alarm_total-append (start_inactivity t ∷ cs) ds = alarm_total-append cs ds
alarm_total-append (stop_inactivity ∷ cs) ds = alarm_total-append cs ds
alarm_total-append (clear_key_count ∷ cs) ds = alarm_total-append cs ds
alarm_total-append (start_key_timer ∷ cs) ds = alarm_total-append cs ds
alarm_total-append (stop_key_timer ∷ cs) ds = alarm_total-append cs ds

expiries-held :
    (n : ℕ) (s : Enc) → IsHeld s → key_events (rot_enc_cmd s (expiries n)).1 ≡ held s.press_time n
unfolding rot_enc_cmd
expiries-held zero s h = refl
expiries-held (suc n) s h =
    let s' : Enc = (handle s key_timer_callback true).0 in
    key_events-append (handle s key_timer_callback true).1 (rot_enc_cmd s' (expiries n)).1
    ∙ rw (expiry-event s true h) (
        ap (λ (es : List KeyEvent). press s.press_time ∷ es)
          (expiries-held n s' (expiry-IsHeld s true h)
            ∙ ap (λ (t : ℕ). held t n) (expiry-stage s true h).0))

expiries-total :
    (n : ℕ) (s : Enc)
    → IsHeld s
    → (rot_enc_cmd s (expiries n)).0.press_time
      ≡ s.press_time + alarm_total (rot_enc_cmd s (expiries n)).1
unfolding rot_enc_cmd
expiries-total zero s h = omega arith
expiries-total (suc n) s h =
    let s' : Enc = (handle s key_timer_callback true).0 in
    omega (
      arith,
      (expiry-stage s true h).1,
      expiries-total n s' (expiry-IsHeld s true h),
      alarm_total-append (handle s key_timer_callback true).1 (rot_enc_cmd s' (expiries n)).1,
    )

-- A message that the key went down.
pub record IsDown (m : Msg) : Type 0 where
  pub source : m.source ≡ from_key
  pub val : m.val ≡ key_pressed

press-IsHeld :
    (s : Enc) (m : Msg) (active : Bool)
    → s.key_state ≡ key_released
    → IsDown m
    → IsHeld (handle s m active).0
unfolding handle on_key
press-IsHeld s m active r d = ground arith

press-event :
    (s : Enc) (m : Msg) (active : Bool)
    → s.key_state ≡ key_released
    → IsDown m
    → (key_events (handle s m active).1 ≡ down ∷ [])
      × (alarm_total (handle s m active).1 ≡ push_time_short)
      × ((handle s m active).0.press_time ≡ push_time_short)
unfolding handle on_key
press-event s m active r d = ground arith

-- A key that goes down and is held through `n` expiries of the key timer is reported as a key-down
-- and then `n` presses, of 100 ms, 2 s and from then on 10 s; and the alarms set since the key-down
-- add up to the time that the next expiry will report.
pub press-held :
    (n : ℕ) (s : Enc) (m : Msg) (active : Bool)
    → s.key_state ≡ key_released
    → IsDown m
    → let (s', calls) = rot_enc_cmd s ((m, active) ∷ expiries n) in
      (key_events calls ≡ down ∷ held push_time_short n) × (s'.press_time ≡ alarm_total calls)
unfolding rot_enc_cmd
press-held n s m active r d =
    let s' : Enc = (handle s m active).0 in
    let i : IsHeld s' = press-IsHeld s m active r d in
    let (event, total, time) = press-event s m active r d in
    (
      key_events-append (handle s m active).1 (rot_enc_cmd s' (expiries n)).1
          ∙ rw event (
              ap (λ (es : List KeyEvent). down ∷ es)
                (expiries-held n s' i ∙ ap (λ (t : ℕ). held t n) time)),
      omega (
        arith,
        expiries-total n s' i,
        alarm_total-append (handle s m active).1 (rot_enc_cmd s' (expiries n)).1,
      ),
    )

-- A key-down from a released key carries the number of quick presses before it: one more than the
-- last key-down's where it comes less than 500 ms after it, and 0 after a longer pause.
pub press-count :
    (s : Enc) (m : Msg) (active : Bool)
    → s.key_state ≡ key_released
    → IsDown m
    → s.last_key_event_time ≤ m.ts
    → m.ts < 2 ^ 64
    → let s' = (handle s m active).0 in
      (s'.last_key_event_time ≡ m.ts)
      × (s'.msgs.ival0 ≡ s'.key_count)
      × (m.ts < s.last_key_event_time + push_key_repeat → s'.key_count ≡ s.key_count + 1)
      × (s.last_key_event_time + push_key_repeat ≤ m.ts → s'.key_count ≡ 0)
unfolding handle on_key
press-count s m active r d le top =
    (ground arith, ground arith, (λ quick. ground arith), (λ slow. ground arith))
