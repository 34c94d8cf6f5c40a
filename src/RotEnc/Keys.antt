-- ===== src/RotEnc/Keys.antt =====
-- The key events that the user interface is sent, as a word of an automaton with the states
-- released and pressed.
use mathlib.Core.List.{append_assoc}
use esp32_common.Common.{
  sym, ℕ, ◌≡◌, ◌≤◌, refl, ◌∙◌, ap, Bool, true, false, Option, none, some, List, [], ◌∷◌, ◌++◌, ◌==◌,
  if◌then◌else◌, arith,
}
use esp32_common.RotEnc.Handler.{
  Msg, Enc, Call, send_ui, set_bl_pwm_high, start_inactivity, stop_inactivity, set_key_alarm,
  clear_key_count, start_key_timer, stop_key_timer, from_key, key_pressed, k_down, k_up, k_press,
  on_rot, on_key, on_timer, on_inactivity, handle, rot_enc_cmd,
}

pub data KeyEvent : Type 0 where
  down up : KeyEvent
  press : ℕ → KeyEvent

-- The key event that a message to the user interface is, if it is one.
abbrev pub key_event : Msg → List KeyEvent
key_event m =
    if m.source == k_down
    then down ∷ []
    else if m.source == k_up
    then up ∷ []
    else if m.source == k_press
    then press m.val ∷ []
    else []

abbrev pub key_events : List Call → List KeyEvent
key_events [] = []
key_events (send_ui m ∷ cs) = key_event m ++ key_events cs
key_events (c ∷ cs) = key_events cs

-- The key goes down only when it is up, and goes up or is held only when it is down. The result is
-- whether it is down after the word, and `none` for any other word.
abbrev pub accepts : Bool → List KeyEvent → Option Bool
accepts p [] = some p
accepts false (down ∷ es) = accepts true es
accepts true (up ∷ es) = accepts false es
accepts true (press t ∷ es) = accepts true es
accepts p (e ∷ es) = none

abbrev pub is_pressed : Enc → Bool
is_pressed s = s.key_state == key_pressed

-- A key's level is 0 or 1, in the state and in a message.
pub record IsLevel (s : Enc) : Type 0 where
  pub level : s.key_state ≤ 1

abbrev pub IsKeyLevel : Msg → Type 0
IsKeyLevel m = m.source ≡ from_key → m.val ≤ 1

abbrev pub AreKeyLevels : List (Msg × Bool) → Type 0
AreKeyLevels [] = Unit {0}
AreKeyLevels ((m, active) ∷ ms) = IsKeyLevel m × AreKeyLevels ms

pub handle-IsLevel :
    (s : Enc) (m : Msg) (active : Bool) → IsLevel s → IsKeyLevel m → IsLevel (handle s m active).0
unfolding handle on_rot on_key on_timer on_inactivity
handle-IsLevel s m active h k = ground arith

handle-accepts :
    (s : Enc) (m : Msg) (active : Bool)
    → IsLevel s
    → IsKeyLevel m
    → accepts (is_pressed s) (key_events (handle s m active).1)
      ≡ some (is_pressed (handle s m active).0)
unfolding handle on_rot on_key on_timer on_inactivity
handle-accepts s m active h k = ground arith

pub key_events-append : (cs ds : List Call) → key_events (cs ++ ds) ≡ key_events cs ++ key_events ds
key_events-append [] ds = refl
key_events-append (send_ui m ∷ cs) ds =
    rw (key_events-append cs ds) (sym (append_assoc (key_event m) (key_events cs) (key_events ds)))
key_events-append (set_bl_pwm_high ∷ cs) ds = key_events-append cs ds
key_events-append (start_inactivity t ∷ cs) ds = key_events-append cs ds
key_events-append (stop_inactivity ∷ cs) ds = key_events-append cs ds
key_events-append (set_key_alarm t ∷ cs) ds = key_events-append cs ds
key_events-append (clear_key_count ∷ cs) ds = key_events-append cs ds
key_events-append (start_key_timer ∷ cs) ds = key_events-append cs ds
key_events-append (stop_key_timer ∷ cs) ds = key_events-append cs ds

accepts-append :
    (p q : Bool) (es fs : List KeyEvent)
    → accepts p es ≡ some q
    → accepts p (es ++ fs) ≡ accepts q fs
accepts-append p q [] fs h = let e : p ≡ q = cc in ap (λ (t : Bool). accepts t fs) e
accepts-append false q (down ∷ es) fs h = accepts-append true q es fs h
accepts-append true q (up ∷ es) fs h = accepts-append false q es fs h
accepts-append true q (press t ∷ es) fs h = accepts-append true q es fs h
accepts-append true q (down ∷ es) fs h = cc
accepts-append false q (up ∷ es) fs h = cc
accepts-append false q (press t ∷ es) fs h = cc

-- Whatever messages the task receives, in whatever order, with key levels 0 and 1: what the user
-- interface is sent begins with a key-down if the key was up and goes on by turns, so that no
-- key-down comes twice, no key-up without its key-down, and no press event while the key is up.
pub rot_enc_cmd-accepts :
    (s : Enc) (ms : List (Msg × Bool))
    → IsLevel s
    → AreKeyLevels ms
    → accepts (is_pressed s) (key_events (rot_enc_cmd s ms).1)
      ≡ some (is_pressed (rot_enc_cmd s ms).0)
unfolding rot_enc_cmd
rot_enc_cmd-accepts s [] h k = refl
rot_enc_cmd-accepts s ((m, active) ∷ ms) h k =
    let s' : Enc = (handle s m active).0 in
    ap (accepts (is_pressed s)) (key_events-append (handle s m active).1 (rot_enc_cmd s' ms).1)
    ∙ accepts-append (is_pressed s) (is_pressed s') (key_events (handle s m active).1)
        (key_events (rot_enc_cmd s' ms).1) (handle-accepts s m active h k.0)
    ∙ rot_enc_cmd-accepts s' ms (handle-IsLevel s m active h k.0) k.1
