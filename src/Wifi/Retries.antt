-- ===== src/Wifi/Retries.antt =====
-- The delays between the attempts to connect.
use esp32_common.Common.{
  ℕ, zero, suc, ◌+◌, ◌*◌, ◌≤◌, ◌≡◌, refl, ap, ◌∙◌, Bool, true, false, Option, none, some, List, [],
  ◌∷◌, leb, ◌&&◌, arith,
}
use Prim.Native.Nat.{min}
use esp32_common.Wifi.Events.{
  max_retry_delay_ms, Wifi, at_reset, Event, sta_start, sta_connected, sta_disconnected, sta_got_ip,
  sta_lost_ip, other, retry_expires, rearmed, next_delay, on_disconnected, wifi_retry_cb,
  event_handler, on_events,
}

-- A delay of a second at least and MAX_RETRY_DELAY_MS at most.
abbrev pub is_delay : ℕ → Bool
is_delay delay = leb 1000 delay && leb delay max_retry_delay_ms

abbrev pub is_period : Option ℕ → Bool
is_period none = true
is_period (some period) = is_delay period

next_delay-delay :
    (request : Bool) (delay : ℕ)
    → is_delay delay ≡ true
    → is_delay (next_delay request delay) ≡ true
unfolding next_delay
next_delay-delay true delay h = h
next_delay-delay false delay h = ground arith

rearmed-period :
    (request : Bool) (delay : ℕ) → is_delay delay ≡ true → is_period (rearmed request delay) ≡ true
unfolding rearmed
rearmed-period true delay h = refl
rearmed-period false delay h = h

record IsPaced (s : Wifi) : Type 0 where
  paced_delay : is_delay s.retry_delay_ms ≡ true
  paced_timer : is_period s.retry_timer ≡ true

event-IsPaced : (e : Event) (s : Wifi) → IsPaced s → IsPaced (event_handler e s)
unfolding event_handler on_disconnected
event-IsPaced sta_start s p = p
event-IsPaced sta_connected s p = record {
  paced_delay = p.paced_delay;
  paced_timer = p.paced_timer;
}
event-IsPaced sta_disconnected s p = record {
  paced_delay = next_delay-delay s.disconnect_request s.retry_delay_ms p.paced_delay;
  paced_timer = rearmed-period s.disconnect_request s.retry_delay_ms p.paced_delay;
}
event-IsPaced sta_got_ip s p = record { paced_delay = p.paced_delay; paced_timer = p.paced_timer }
event-IsPaced sta_lost_ip s p = record { paced_delay = refl; paced_timer = p.paced_timer }
event-IsPaced other s p = p
event-IsPaced retry_expires s p = record { paced_delay = p.paced_delay; paced_timer = refl }

events-IsPaced : (es : List Event) (s : Wifi) → IsPaced s → IsPaced (on_events es s)
unfolding on_events
events-IsPaced [] s p = p
events-IsPaced (e ∷ es) s p = events-IsPaced es (event_handler e s) (event-IsPaced e s p)

-- A number of failed attempts, each after the timer has expired.
abbrev pub attempts : ℕ → List Event
attempts zero = []
attempts (suc n) = retry_expires ∷ sta_disconnected ∷ attempts n

-- What one attempt changes, where no disconnect was requested.
next_delay-min : (delay : ℕ) → delay ≤ 30000 → next_delay false delay ≡ min (delay + 1000) 30000
unfolding next_delay
next_delay-min delay h = ground arith

-- Whatever events came since reset, the delay before the next attempt to connect and the period of the
-- timer that is armed are between one second and MAX_RETRY_DELAY_MS.
pub on_events-delay :
    (es : List Event)
    → (is_delay (on_events es at_reset).retry_delay_ms ≡ true)
      × (is_period (on_events es at_reset).retry_timer ≡ true)
on_events-delay es =
    let p = events-IsPaced es at_reset (record { paced_delay = refl; paced_timer = refl }) in
    (p.paced_delay, p.paced_timer)

-- A connection that is lost without a request to disconnect is tried again: after `n` further attempts
-- that fail, each made when the timer expires, `esp_wifi_connect` was called `n` times more, and the
-- timer is armed again with the first delay and a second more for each attempt, up to
-- MAX_RETRY_DELAY_MS.
pub on_events-retries :
    (n : ℕ) (s : Wifi)
    → s.disconnect_request ≡ false
    → s.retry_delay_ms ≤ 30000
    → ((on_events (sta_disconnected ∷ attempts n) s).connects ≡ s.connects + n)
      × ((on_events (sta_disconnected ∷ attempts n) s).retry_timer
          ≡ some (min (s.retry_delay_ms + 1000 * n) 30000))
unfolding on_events event_handler on_disconnected wifi_retry_cb rearmed
on_events-retries zero s asked h =
    let d = s.retry_delay_ms in
    let same_delay : d ≡ min (d + 1000 * 0) 30000 = omega arith in
    (omega arith, ap (λ (b : Bool). rearmed b d) asked ∙ ap (λ (n : ℕ). some n) same_delay)
on_events-retries (suc n) s asked h =
    let t = event_handler retry_expires (on_disconnected s) in
    let d = s.retry_delay_ms in
    let calls : t.connects ≡ suc s.connects =
      ap (λ (b : Bool). wifi_retry_cb (rearmed b d) s.connects) asked in
    let delay : t.retry_delay_ms ≡ min (d + 1000) 30000 =
      ap (λ (b : Bool). next_delay b d) asked ∙ next_delay-min d h in
    let rest = on_events-retries n t asked (omega arith) in
    let longer : min (t.retry_delay_ms + 1000 * n) 30000 ≡ min (d + 1000 * suc n) 30000 =
      omega arith in
    (rest.0 ∙ omega arith, rest.1 ∙ ap (λ (n : ℕ). some n) longer)
