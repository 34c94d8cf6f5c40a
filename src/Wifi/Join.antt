-- ===== src/Wifi/Join.antt =====
-- `wifi_join` of cmds/cmd_wifi.c, with what the driver returns and the events that come as input, and
-- the names that `wifi_init_ap` configures.
use esp32_common.Common.{
  ℕ, suc, Bool, true, false, not, Option, none, some, List, [], ◌∷◌, ◌++◌, ltb, ◌==◌, if◌then◌else◌,
  length, get_or, replicate,
}
use mathlib.Core.Option
use esp32_common.Common.Memory.{Bytes, c_string, write_at}
use esp32_common.CrashHandler.Strings.{strlcpy, emptied}
use esp32_common.Wifi.Events.{Wifi, Event, wait_bits, wifi_disconnect}

-- The strings of `dev_conf`: the names for the Wi-Fi, and those found in the storage of the driver.
pub record Stored : Type 0 where
  pub sta_ssid : Bytes
  pub sta_pass : Bytes
  pub nvs80211_ssid : Bytes
  pub nvs80211_pass : Bytes

-- The arguments; `none` is NULL.
pub record Call : Type 0 where
  pub ssid : Option Bytes
  pub pass : Option Bytes
  pub usenvs : Bool

-- What the driver returns, the arrays that `esp_wifi_get_config` fills in, and the events that come
-- during the three waits.
pub record Radio : Type 0 where
  pub mode : ℕ
  pub ssid : Bytes
  pub password : Bytes
  pub set_config : ℕ
  pub connect : ℕ
  pub on_disconnect : List Event
  pub on_ready : List Event
  pub on_connect : List Event

-- The calls of both succeed, since they abort otherwise.
unfoldable pub wifi_init_sta : Wifi → Wifi
wifi_init_sta s = record s {
  sta_init = true;
  state_completed = if s.sta_init then s.state_completed else true;
}

unfoldable pub initialise_wifi : Wifi → Wifi
initialise_wifi s =
    if s.is_initialized then s else record (wifi_init_sta s) { is_initialized = true }

-- `use_ssid` and `use_pass`, arrays of 33 and 65 bytes.
unfoldable pub choose : Call → Stored → Bytes × Bytes
choose call d =
    if call.usenvs
    then elim call.ssid [
      | none ↦ (strlcpy (replicate 33 0) d.sta_ssid, strlcpy (replicate 65 0) d.sta_pass)
      | some ssid ↦ (
        strlcpy (replicate 33 0) ssid,
        elim call.pass [ none ↦ replicate 65 0 | some pass ↦ strlcpy (replicate 65 0) pass ],
      )
    ]
    else (strlcpy (replicate 33 0) d.nvs80211_ssid, strlcpy (replicate 65 0) d.nvs80211_pass)

-- The members `sta.ssid` and `sta.password` of the configuration.
unfoldable pub configure : Bytes × Bytes → Bytes × Bytes → Bytes × Bytes
configure (ssid, password) (use_ssid, use_pass) = (
  if ltb 0 (length (c_string use_ssid)) then strlcpy ssid (c_string use_ssid) else ssid,
  if get_or use_pass 0 0 == 0 then emptied password else strlcpy password (c_string use_pass),
)

-- Behind the waits, in a state that is completed.
unfoldable pub join_ready : Radio → Bytes × Bytes → Wifi → Bool × Wifi
join_ready radio config s =
    if not (radio.set_config == 0)
    then (false, record s { state_completed = true })
    else if not (radio.connect == 0)
    then (
      false,
      record s {
        state_completed = true;
        disconnect_request = false;
        connects = suc s.connects;
        sta_ssid = config.0;
        sta_password = config.1;
      },
    )
    else let t =
        wait_bits (λ w. w.ip_connected) radio.on_connect
          (record s {
            state_completed = false;
            disconnect_request = false;
            connects = suc s.connects;
            sta_ssid = config.0;
            sta_password = config.1;
          }) in
      (t.ip_connected, t)

-- The link that there may be is ended first.
unfoldable pub end_link : Radio → Wifi → Wifi
end_link radio s =
    if s.is_connected then (wifi_disconnect radio.mode radio.on_disconnect s).1 else s

unfoldable pub wifi_join : Call → Stored → Radio → Wifi → Bool × Wifi
wifi_join call d radio s =
    let config = configure (radio.ssid, radio.password) (choose call d) in
    let t : Wifi = record (initialise_wifi s) { retry_timer = none } in
    let u = wait_bits (λ w. w.state_completed) radio.on_ready (end_link radio t) in
    if u.state_completed then join_ready radio config u else (false, u)

-- `wifi_config.ap.ssid` and `wifi_config.ap.password` of `wifi_init_ap` with the strings of `dev_conf`:
-- arrays of 32 and 64 bytes that `strcpy` writes. `none` is a write past the end.
unfoldable pub ap_names : Bytes → Bytes → Option (Bytes × Bytes)
ap_names ap_ssid ap_pass = elim (write_at (replicate 32 0) 0 (ap_ssid ++ (0 ∷ []))) [
  | none ↦ none
  | some ssid ↦
      Option.map (λ password. (ssid, password)) (write_at (replicate 64 0) 0 (ap_pass ++ (0 ∷ [])))
]
