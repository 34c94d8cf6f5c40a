-- ===== src/RotEnc/Tests.antt =====
-- A double press with bounces, and a long press.
use esp32_common.Common.{ℕ, ◌≡◌, refl, true, false, Bool, some, List, [], ◌∷◌, arith}
use esp32_common.RotEnc.Handler.{
  Msg, no_msg, Enc, from_key, key_timer_callback, push_time_short, started, on_key, on_timer,
  handle, rot_enc_cmd,
}
use esp32_common.RotEnc.Keys.{down, up, press, key_events, accepts, is_pressed, rot_enc_cmd-accepts}
use esp32_common.RotEnc.Presses.{alarm_total, expiries, held, press-held}

abbrev key_at : ℕ → ℕ → Msg
key_at val ts = record no_msg { source = from_key; val = val; ts = ts }

abbrev idle : Enc
idle = started 0 no_msg

-- Key-downs at 1 s and 1.3 s, the first with a bounce.
abbrev double_press : List (Msg × Bool)
double_press =
    (key_at 1 1_000_000, true)
    ∷ (key_at 1 1_000_400, true)
    ∷ (key_timer_callback, true)
    ∷ (key_at 0 1_150_000, true)
    ∷ (key_timer_callback, true)
    ∷ (key_at 1 1_300_000, false)
    ∷ []

double_press_events :
    key_events (rot_enc_cmd idle double_press).1 ≡ down ∷ press 100_000 ∷ up ∷ down ∷ []
unfolding rot_enc_cmd handle on_key on_timer
double_press_events = refl

double_press_count : (rot_enc_cmd idle double_press).0.key_count ≡ 1
unfolding rot_enc_cmd handle on_key on_timer
double_press_count = refl

rot_enc_cmd-accepts_example :
    accepts false (key_events (rot_enc_cmd idle double_press).1)
    ≡ some (is_pressed (rot_enc_cmd idle double_press).0)
rot_enc_cmd-accepts_example = rot_enc_cmd-accepts idle double_press (omega arith) (omega arith)

press-held_example :
    let (s', calls) = rot_enc_cmd idle ((key_at 1 5, true) ∷ expiries 4) in
    (key_events calls ≡ down ∷ held push_time_short 4) × (s'.press_time ≡ alarm_total calls)
press-held_example = press-held 4 idle (key_at 1 5) true refl (record { source = refl; val = refl })
