-- ===== src/Wifi/Tests.antt =====
-- A device at an access point.
use esp32_common.Common.{ℕ, ◌≡◌, refl, true, false, none, some, [], ◌∷◌, replicate, arith}
use esp32_common.Common.Memory.{Bytes, codes, c_string}
use esp32_common.CrashHandler.Strings.{strlcpy}
use esp32_common.Wifi.Events.{
  Wifi, at_reset, sta_connected, sta_disconnected, sta_got_ip, retry_expires, on_disconnected,
  event_handler, on_events, wait_bits, esp_ok, wifi_disconnect,
}
use esp32_common.Wifi.Join.{
  Stored, Call, Radio, wifi_init_sta, initialise_wifi, choose, configure, join_ready, end_link,
  wifi_join,
}
use esp32_common.Wifi.Retries.{attempts, on_events-retries}
use esp32_common.Wifi.Disconnecting.{wifi_disconnect-stays}
use esp32_common.Wifi.Joining.{IsReady, wifi_join-again}
use esp32_common.Wifi.Commands.{wifi_reason_to_str}

abbrev home : Stored
home = record {
  sta_ssid = codes "home";
  sta_pass = codes "secret";
  nvs80211_ssid = [];
  nvs80211_pass = [];
}

abbrev stored_names : Call
stored_names = record { ssid = none; pass = none; usenvs = true }

abbrev radio_on : Radio
radio_on = record {
  mode = 0;
  ssid = replicate 32 0;
  password = replicate 64 0;
  set_config = 0;
  connect = 0;
  on_disconnect = [];
  on_ready = [];
  on_connect = sta_connected ∷ sta_got_ip ∷ [];
}

-- The driver is busy.
abbrev radio_busy : Radio
radio_busy = record radio_on { connect = 12295 }

initialise_wifi-IsReady : IsReady (initialise_wifi at_reset)
unfolding initialise_wifi wifi_init_sta
initialise_wifi-IsReady = record {
  is_made = refl;
  is_down = refl;
  no_address = refl;
  is_completed = refl;
}

home_joined : c_string (wifi_join stored_names home radio_on at_reset).1.sta_ssid ≡ codes "home"
unfolding wifi_join end_link wait_bits event_handler join_ready initialise_wifi wifi_init_sta
    configure choose strlcpy
home_joined = refl

wifi_join-again_example :
    ((wifi_join stored_names home radio_busy at_reset).0 ≡ false)
    × ((wifi_join stored_names home radio_on (wifi_join stored_names home radio_busy at_reset).1).0
        ≡ true)
wifi_join-again_example =
    wifi_join-again stored_names stored_names home radio_busy radio_on at_reset
      initialise_wifi-IsReady refl refl refl

on_events-retries_example :
    ((on_events (sta_disconnected ∷ attempts 40) at_reset).connects ≡ 40)
    × ((on_events (sta_disconnected ∷ attempts 40) at_reset).retry_timer ≡ some 30000)
on_events-retries_example = on_events-retries 40 at_reset refl (omega arith)

abbrev joined_device : Wifi
joined_device = record at_reset {
  is_initialized = true;
  sta_init = true;
  is_connected = true;
  ip_connected = true;
  state_completed = true;
}

wifi_disconnect-stays_example :
    ((on_events
        (sta_disconnected ∷ retry_expires ∷ [])
        (wifi_disconnect esp_ok (sta_disconnected ∷ []) joined_device).1).connects
      ≡ (wifi_disconnect esp_ok (sta_disconnected ∷ []) joined_device).1.connects)
    × ((on_events
          (sta_disconnected ∷ retry_expires ∷ [])
          (wifi_disconnect esp_ok (sta_disconnected ∷ []) joined_device).1).retry_timer
        ≡ none)
unfolding wifi_disconnect wait_bits event_handler on_disconnected
wifi_disconnect-stays_example =
    wifi_disconnect-stays (sta_disconnected ∷ []) (sta_disconnected ∷ retry_expires ∷ [])
      joined_device refl refl

-- A name of 32 bytes, as long as the standard lets it be.
abbrev long_name : Bytes
long_name = codes "a name of exactly thirty-two chs"

-- ESP_ERR_WIFI_NOT_INIT is printed as the error of code 1.
wrong_name : (name_of : ℕ → Bytes) → wifi_reason_to_str name_of 12289 ≡ name_of 1
unfolding wifi_reason_to_str
wrong_name name_of = refl
