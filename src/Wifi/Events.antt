-- ===== src/Wifi/Events.antt =====
-- `event_handler` of cmds/cmd_wifi.c on the bits of `comm_event_group`, with the timer that tries
-- again, and `wifi_disconnect`.
use esp32_common.Common.{
  ℕ, suc, ◌+◌, ◌^◌, ◌-◌, Bool, true, false, not, Option, none, some, List, [], ◌∷◌, ltb, ◌==◌,
  if◌then◌else◌,
}
use esp32_common.Common.Memory.{Bytes}

abbrev pub max_retry_delay_ms : ℕ
max_retry_delay_ms = 30000

-- The bits WIFI_CONNECTED_BIT, IP_CONNECTED_BIT and WIFI_STATE_COMPLETED; the static variables; the
-- period of `wifi_retry_timer` in milliseconds if it is armed; the calls of `esp_wifi_connect` so far;
-- and the names that `esp_wifi_set_config` was given last, as arrays.
pub record Wifi : Type 0 where
  pub is_initialized : Bool
  pub sta_init : Bool
  pub is_connected : Bool
  pub ip_connected : Bool
  pub state_completed : Bool
  pub retry_delay_ms : ℕ
  pub disconnect_request : Bool
  pub retry_timer : Option ℕ
  pub connects : ℕ
  pub sta_ssid : Bytes
  pub sta_password : Bytes

abbrev pub at_reset : Wifi
at_reset = record {
  is_initialized = false;
  sta_init = false;
  is_connected = false;
  ip_connected = false;
  state_completed = false;
  retry_delay_ms = 5000;
  disconnect_request = false;
  retry_timer = none;
  connects = 0;
  sta_ssid = [];
  sta_password = [];
}

-- The events of the Wi-Fi and IP layers that the handler knows, one of any other kind, and the expiry of
-- the timer.
pub data Event : Type 0 where
  sta_start sta_connected sta_disconnected sta_got_ip sta_lost_ip other retry_expires : Event

-- The timer and the next delay behind a loss of the connection: with a request to disconnect, it is
-- left stopped.
unfoldable pub rearmed : Bool → ℕ → Option ℕ
rearmed true delay = none
rearmed false delay = some delay

unfoldable pub next_delay : Bool → ℕ → ℕ
next_delay true delay = delay
next_delay false delay =
    if ltb max_retry_delay_ms (delay + 1000) then max_retry_delay_ms else delay + 1000

-- WIFI_EVENT_STA_DISCONNECTED.
unfoldable pub on_disconnected : Wifi → Wifi
on_disconnected s = record s {
  is_connected = false;
  ip_connected = false;
  state_completed = true;
  retry_timer = rearmed s.disconnect_request s.retry_delay_ms;
  retry_delay_ms = next_delay s.disconnect_request s.retry_delay_ms;
}

-- `wifi_retry_cb`, where the timer is armed.
unfoldable pub wifi_retry_cb : Option ℕ → ℕ → ℕ
wifi_retry_cb none connects = connects
wifi_retry_cb (some period) connects = suc connects

unfoldable pub event_handler : Event → Wifi → Wifi
event_handler sta_start s = s
event_handler sta_connected s = record s { is_connected = true; state_completed = true }
event_handler sta_disconnected s = on_disconnected s
event_handler sta_got_ip s = record s { ip_connected = true }
event_handler sta_lost_ip s = record s { ip_connected = false; retry_delay_ms = 1000 }
event_handler other s = s
event_handler retry_expires s = record s {
  retry_timer = none;
  connects = wifi_retry_cb s.retry_timer s.connects;
}

unfoldable pub on_events : List Event → Wifi → Wifi
on_events [] s = s
on_events (e ∷ es) s = on_events es (event_handler e s)

-- `xEventGroupWaitBits` on one bit, with the events that come within the time: the wait ends when the
-- bit is set.
unfoldable pub wait_bits : (Wifi → Bool) → List Event → Wifi → Wifi
wait_bits bit [] s = s
wait_bits bit (e ∷ es) s =
    let rest = wait_bits bit es (event_handler e s) in if bit s then s else rest

abbrev pub esp_ok : ℕ
esp_ok = 0

-- -1 as a 32-bit pattern.
abbrev pub esp_fail : ℕ
esp_fail = 2 ^ 32 - 1

abbrev pub esp_err_wifi_not_init : ℕ
esp_err_wifi_not_init = 12289

-- `wifi_disconnect`, with what `esp_wifi_get_mode` returns and the events that come while it waits.
unfoldable pub wifi_disconnect : ℕ → List Event → Wifi → ℕ × Wifi
wifi_disconnect err events s =
    if not (err == esp_ok)
    then (if err == esp_err_wifi_not_init then esp_ok else err, s)
    else if not s.is_connected
    then (esp_ok, s)
    else let t =
        wait_bits (λ w. w.state_completed) events
          (record s { state_completed = false; disconnect_request = true }) in
      (if t.is_connected then esp_fail else esp_ok, t)

-- `isConnected`, where the event group was made.
unfoldable pub is_wifi_connected : Wifi → Bool
is_wifi_connected s = s.ip_connected
