-- ===== src/RotEnc/Activity.antt =====
-- The inactivity timer: when the user interface is told that nothing was turned or pressed.
use esp32_common.Common.{
  ℕ, zero, suc, ◌+◌, ◌≡◌, ◌≤◌, ◌<◌, ap, ◌⊎◌, Bool, none, some, List, [], ◌∷◌, if◌then◌else◌, arith,
}
use esp32_common.RotEnc.Handler.{
  Msg, no_msg, Enc, Call, send_ui, set_bl_pwm_high, start_inactivity, stop_inactivity, from_rot,
  from_key, from_inactivity, rot_inactivity_time, inactivity_timer_callback, on_rot, on_key,
  on_inactivity, handle,
}

-- `n` periods of the inactivity timer in which the task handles nothing, and the messages queued.
pub ticks : ℕ → Enc → Enc × List Msg
ticks zero s = (s, [])
ticks (suc n) s =
    let (s', m) = inactivity_timer_callback s in
    let (s'', ms) = ticks n s' in (s'', elim m [ none ↦ ms | some x ↦ x ∷ ms ])

abbrev pub starts : List Call → ℕ
starts [] = 0
starts (start_inactivity t ∷ cs) = suc (starts cs)
starts (c ∷ cs) = starts cs

abbrev pub stops : List Call → ℕ
stops [] = 0
stops (stop_inactivity ∷ cs) = suc (stops cs)
stops (c ∷ cs) = stops cs

abbrev pub lights : List Call → ℕ
lights [] = 0
lights (set_bl_pwm_high ∷ cs) = suc (lights cs)
lights (c ∷ cs) = lights cs

abbrev pub IsActivity : Msg → Type 0
IsActivity m = (m.source ≡ from_rot) ⊎ (m.source ≡ from_key)

tick_quiet :
    (s : Enc)
    → s.idle_time < rot_inactivity_time
    → inactivity_timer_callback s ≡ (record s { idle_time = s.idle_time + 1 }, none)
unfolding inactivity_timer_callback
tick_quiet s h = ground arith

ticks_quiet :
    (n : ℕ) (s : Enc)
    → s.idle_time + n ≤ rot_inactivity_time
    → ticks n s ≡ (record s { idle_time = s.idle_time + n }, [])
unfolding ticks
ticks_quiet zero s h = ground arith
ticks_quiet (suc n) s h = ground (
  arith,
  tick_quiet s (omega arith),
  ticks_quiet n (record s { idle_time = s.idle_time + 1 }) (omega arith),
)

wakes :
    (s : Enc) (m : Msg) (active : Bool)
    → IsActivity m
    → (lights (handle s m active).1 ≡ 1)
      × (starts (handle s m active).1 ≡ (if active then 0 else 1))
      × (stops (handle s m active).1 ≡ 0)
      × ((handle s m active).0.idle_time ≡ 0)
unfolding handle on_rot on_key
wakes s m active a = ground arith

-- A turn of the knob or an edge of the key lights the display once, starts the inactivity timer if
-- it had stopped, and never stops it; in the next 30 periods no inactivity message is queued.
pub activity-quiet :
    (s : Enc) (m : Msg) (active : Bool) (n : ℕ)
    → IsActivity m
    → n ≤ rot_inactivity_time
    → (lights (handle s m active).1 ≡ 1)
      × (starts (handle s m active).1 ≡ (if active then 0 else 1))
      × (stops (handle s m active).1 ≡ 0)
      × ((ticks n (handle s m active).0).1 ≡ [])
activity-quiet s m active n a h =
    let (lit, began, ended, zero_) = wakes s m active a in
    (
      lit,
      began,
      ended,
      ap (λ (r : Enc × List Msg). r.1) (ticks_quiet n (handle s m active).0 (omega (arith, zero_))),
    )

-- From the 31st period on, each period queues the message, and the task passes it on unchanged and
-- stops the timer, if that is active.
pub idle-message :
    (s : Enc) (active : Bool)
    → rot_inactivity_time ≤ s.idle_time
    → let m = record no_msg { source = from_inactivity; val = s.idle_time + 1 } in
      let (s', queued) = inactivity_timer_callback s in
      (queued ≡ some m)
      × (handle s' m active ≡ (s', send_ui m ∷ (if active then stop_inactivity ∷ [] else [])))
unfolding inactivity_timer_callback handle on_inactivity
idle-message s active h = ground arith
