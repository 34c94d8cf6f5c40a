-- ===== src/MqttCtrl/Connection.antt =====
-- The connection events of `mqtt_event_handler`: the bit of `comm_event_group`, the count of failed
-- connections, and the restart after too many.
use esp32_common.Common.{
  ℕ, suc, ◌+◌, ◌≤◌, ◌<◌, ◌≡◌, refl, Bool, true, false, ◌&&◌, Option, none, some, List, [], ◌∷◌, leb,
  if◌then◌else◌, arith, inl, inr, Bool-cases,
}

-- `ip_up` is the IP_CONNECTED_BIT of `get_nw_connection_state` when the event is handled.
pub data Event : Type 0 where
  connected : Event
  disconnected : Bool → Event
  other : Event

pub record Link : Type 0 where
  pub mqtt_connected : Bool
  pub connect_fail_count : ℕ

-- `attempts` is MQTT_FAILATTEMPTS of a build with ENABLE_MQTT_FAIL_REBOOT; `none` is the restart.
module _ (attempts : ℕ) where
  unfoldable pub on_event : Event → Link → Option Link
  on_event connected s = some (record { mqtt_connected = true; connect_fail_count = 0 })
  on_event (disconnected ip_up) s =
      let count = if ip_up then suc s.connect_fail_count else s.connect_fail_count in
      if leb attempts count
      then none
      else some (record { mqtt_connected = false; connect_fail_count = count })
  on_event other s = some s

  unfoldable pub on_events : List Event → Link → Option Link
  on_events [] s = some s
  on_events (e ∷ es) s = elim (on_event e s) [ none ↦ none | some t ↦ on_events es t ]

-- The failures among events without a new connection.
abbrev pub failures : List Event → ℕ
failures [] = 0
failures (disconnected true ∷ es) = suc (failures es)
failures (e ∷ es) = failures es

abbrev pub no_connection : List Event → Bool
no_connection [] = true
no_connection (connected ∷ es) = false
no_connection (e ∷ es) = no_connection es

-- Whether the bit is still set.
abbrev pub stays_up : List Event → Bool
stays_up [] = true
stays_up (disconnected ip_up ∷ es) = false
stays_up (e ∷ es) = stays_up es

-- The result of events that bring `count` failures more.
abbrev ending : ℕ → Bool → ℕ → Option Link
ending attempts bit count =
    if leb attempts count
    then none
    else some (record { mqtt_connected = bit; connect_fail_count = count })

from_count :
    (attempts : ℕ) (es : List Event) (bit : Bool) (count : ℕ)
    → count < attempts
    → no_connection es ≡ true
    → on_events attempts es (record { mqtt_connected = bit; connect_fail_count = count })
      ≡ ending attempts (bit && stays_up es) (count + failures es)
unfolding on_events on_event
from_count attempts [] bit count h n =
    let e : count + 0 ≡ count = omega arith in
    let more : leb attempts count ≡ false = ground arith in
    let same_bit : bit && true ≡ bit = ground arith in rw e (rw more (rw same_bit refl))
from_count attempts (connected ∷ es) bit count h n = absurd (let bad : false ≡ true = n in cc)
from_count attempts (other ∷ es) bit count h n = from_count attempts es bit count h n
from_count attempts (disconnected true ∷ es) bit count h n =
    let e : count + suc (failures es) ≡ suc count + failures es = omega arith in
    let down : bit && false ≡ false = ground arith in
    elim (Bool-cases (leb attempts (suc count))) [
      | inl full ↦
          let over : leb attempts (suc count + failures es) ≡ true = ground arith in
          rw (full, on_events) (rw e (rw over refl))
      | inr room ↦
          rw (room, on_events)
            (rw e (rw down (from_count attempts es false (suc count) (ground arith) n)))
    ]
from_count attempts (disconnected false ∷ es) bit count h n =
    let room : leb attempts count ≡ false = ground arith in
    let down : bit && false ≡ false = ground arith in
    rw (room, on_events) (rw down (from_count attempts es false count h n))

-- In a build with ENABLE_MQTT_FAIL_REBOOT, after a connection and until the next: the device restarts exactly if at least MQTT_FAILATTEMPTS
-- disconnections come while the device has an address, whatever other events come between; else the
-- count is the number of them, and the connection bit is set until the first disconnection.
pub on_events-restart :
    (attempts : ℕ) (es : List Event) (s : Link)
    → 1 ≤ attempts
    → no_connection es ≡ true
    → on_events attempts (connected ∷ es) s ≡ (
        if leb attempts (failures es)
        then none
        else some (record { mqtt_connected = stays_up es; connect_fail_count = failures es }))
unfolding on_events on_event
on_events-restart attempts es s h n =
    let e : 0 + failures es ≡ failures es = omega arith in
    rw e at (from_count attempts es true 0 h n)
