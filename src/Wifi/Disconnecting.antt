-- ===== src/Wifi/Disconnecting.antt =====
-- A disconnect that was asked for is not undone.
use esp32_common.Common.{
  ℕ, ◌≡◌, refl, ap, sym, ◌∙◌, Bool, true, false, not, Option, none, List, [], ◌∷◌, if◌then◌else◌,
  arith,
}
use esp32_common.Wifi.Events.{
  Wifi, Event, sta_start, sta_connected, sta_disconnected, sta_got_ip, sta_lost_ip, other,
  retry_expires, rearmed, on_disconnected, wifi_retry_cb, event_handler, on_events, wait_bits,
  esp_ok, esp_fail, wifi_disconnect,
}

-- A request to disconnect with the timer stopped.
record IsQuiet (connects : ℕ) (s : Wifi) : Type 0 where
  is_asked : s.disconnect_request ≡ true
  is_stopped : s.retry_timer ≡ none
  same_connects : s.connects ≡ connects

event-IsQuiet : (n : ℕ) (e : Event) (s : Wifi) → IsQuiet n s → IsQuiet n (event_handler e s)
unfolding event_handler on_disconnected rearmed wifi_retry_cb
event-IsQuiet n sta_start s q = q
event-IsQuiet n sta_connected s q = record {
  is_asked = q.is_asked;
  is_stopped = q.is_stopped;
  same_connects = q.same_connects;
}
event-IsQuiet n sta_disconnected s q = record {
  is_asked = q.is_asked;
  is_stopped = ap (λ (b : Bool). rearmed b s.retry_delay_ms) q.is_asked;
  same_connects = q.same_connects;
}
event-IsQuiet n sta_got_ip s q = record {
  is_asked = q.is_asked;
  is_stopped = q.is_stopped;
  same_connects = q.same_connects;
}
event-IsQuiet n sta_lost_ip s q = record {
  is_asked = q.is_asked;
  is_stopped = q.is_stopped;
  same_connects = q.same_connects;
}
event-IsQuiet n other s q = q
event-IsQuiet n retry_expires s q = record {
  is_asked = q.is_asked;
  is_stopped = refl;
  same_connects = ap (λ (t : Option ℕ). wifi_retry_cb t s.connects) q.is_stopped ∙ q.same_connects;
}

events-IsQuiet : (n : ℕ) (es : List Event) (s : Wifi) → IsQuiet n s → IsQuiet n (on_events es s)
unfolding on_events
events-IsQuiet n [] s q = q
events-IsQuiet n (e ∷ es) s q = events-IsQuiet n es (event_handler e s) (event-IsQuiet n e s q)

-- While the device waits for the end of a link that was up: the link is up, or the timer is stopped.
record IsEnding (s : Wifi) : Type 0 where
  is_asked : s.disconnect_request ≡ true
  is_ending : (if s.is_connected then none else s.retry_timer) ≡ none

event-IsEnding : (e : Event) (s : Wifi) → IsEnding s → IsEnding (event_handler e s)
unfolding event_handler on_disconnected rearmed
event-IsEnding sta_start s q = q
event-IsEnding sta_connected s q = record { is_asked = q.is_asked; is_ending = refl }
event-IsEnding sta_disconnected s q = record {
  is_asked = q.is_asked;
  is_ending = ap (λ (b : Bool). rearmed b s.retry_delay_ms) q.is_asked;
}
event-IsEnding sta_got_ip s q = record { is_asked = q.is_asked; is_ending = q.is_ending }
event-IsEnding sta_lost_ip s q = record { is_asked = q.is_asked; is_ending = q.is_ending }
event-IsEnding other s q = q
event-IsEnding retry_expires s q = record {
  is_asked = q.is_asked;
  is_ending = either s.is_connected;
}
  where
    stopped : Option ℕ
    stopped = none

    either : (b : Bool) → (if b then stopped else stopped) ≡ stopped
    either true = refl
    either false = refl

wait-IsEnding :
    (bit : Wifi → Bool) (es : List Event) (s : Wifi) → IsEnding s → IsEnding (wait_bits bit es s)
unfolding wait_bits
wait-IsEnding bit [] s q = q
wait-IsEnding bit (e ∷ es) s q =
    go (bit s) (wait_bits bit es (event_handler e s))
      (wait-IsEnding bit es (event_handler e s) (event-IsEnding e s q))
  where
    go : (b : Bool) (rest : Wifi) → IsEnding rest → IsEnding (if b then s else rest)
    go true rest r = q
    go false rest r = r

-- A device that is connected is asked to disconnect, and `wifi_disconnect` returns ESP_OK. Whatever
-- events come from then on, the device does not connect again by itself: `esp_wifi_connect` is not
-- called, and the timer is not armed.
pub wifi_disconnect-stays :
    (during after : List Event) (s : Wifi)
    → s.is_connected ≡ true
    → (wifi_disconnect esp_ok during s).0 ≡ esp_ok
    → ((on_events after (wifi_disconnect esp_ok during s).1).connects
        ≡ (wifi_disconnect esp_ok during s).1.connects)
      × ((on_events after (wifi_disconnect esp_ok during s).1).retry_timer ≡ none)
unfolding wifi_disconnect
wifi_disconnect-stays during after s up ok =
    let begun : Wifi = record s { state_completed = false; disconnect_request = true } in
    let w = wait_bits (λ w. w.state_completed) during begun in
    let result : ℕ × Wifi = (if w.is_connected then esp_fail else esp_ok, w) in
    let ends =
      wait-IsEnding (λ w. w.state_completed) during begun
        (record {
          is_asked = refl;
          is_ending = ap (λ (b : Bool). if b then none else s.retry_timer) up;
        }) in
    let returns : wifi_disconnect esp_ok during s ≡ result =
      ap (λ (b : Bool). if not b then (esp_ok, s) else result) up in
    let down : w.is_connected ≡ false =
      is_down w.is_connected (ap (λ (r : ℕ × Wifi). r.0) (sym returns) ∙ ok) in
    let quiet : IsQuiet w.connects w = record {
      is_asked = ends.is_asked;
      is_stopped = ap (λ (b : Bool). if b then none else w.retry_timer) (sym down) ∙ ends.is_ending;
      same_connects = refl;
    } in
    let q = events-IsQuiet w.connects after w quiet in
    (
      ap (λ (r : ℕ × Wifi). (on_events after r.1).connects) returns
          ∙ (q.same_connects ∙ ap (λ (r : ℕ × Wifi). r.1.connects) (sym returns)),
      ap (λ (r : ℕ × Wifi). (on_events after r.1).retry_timer) returns ∙ q.is_stopped,
    )
  where
    is_down : (b : Bool) → (if b then esp_fail else esp_ok) ≡ esp_ok → b ≡ false
    is_down true h = absurd (omega arith)
    is_down false h = refl
