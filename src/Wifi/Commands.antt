-- ===== src/Wifi/Commands.antt =====
-- The command `wifi` of cmds/cmd_wifi.c, the names that it prints, and `get_sta_conf`.
use esp32_common.Common.{
  ℕ, ◌%◌, Bool, true, false, not, Option, none, some, List, [], ◌∷◌, ◌==◌, if◌then◌else◌,
}
use esp32_common.Common.Memory.{Bytes, codes, same}
use esp32_common.Wifi.Events.{Wifi, is_wifi_connected, wifi_disconnect}
use esp32_common.Wifi.Join.{Stored, Radio, initialise_wifi, wifi_join}

-- `wifi_reason_to_str` takes a byte; `name_of` is `esp_err_to_name`.
unfoldable pub wifi_reason_to_str : (ℕ → Bytes) → ℕ → Bytes
wifi_reason_to_str name_of reason =
    let r = reason % 256 in
    if r == 200
    then codes "WIFI_REASON_BEACON_TIMEOUT"
    else if r == 201
    then codes "WIFI_REASON_NO_AP_FOUND"
    else if r == 202
    then codes "WIFI_REASON_AUTH_FAIL"
    else if r == 203
    then codes "WIFI_REASON_ASSOC_FAIL"
    else if r == 204
    then codes "WIFI_REASON_HANDSHAKE_TIMEOUT"
    else name_of r

-- The enumerators that the code names, and any other.
pub data AuthMode : Type 0 where
  wifi_auth_open wifi_auth_wep wifi_auth_wpa_psk wifi_auth_wpa2_psk : AuthMode
  wifi_auth_wpa_wpa2_psk wifi_auth_wpa2_enterprise wifi_auth_wpa3_psk : AuthMode
  wifi_auth_wpa2_wpa3_psk wifi_auth_other : AuthMode

unfoldable pub print_auth_mode : AuthMode → Bytes
print_auth_mode wifi_auth_open = codes "WIFI_AUTH_OPEN"
print_auth_mode wifi_auth_wep = codes "WIFI_AUTH_WEP"
print_auth_mode wifi_auth_wpa_psk = codes "WIFI_AUTH_WPA_PSK"
print_auth_mode wifi_auth_wpa2_psk = codes "WIFI_AUTH_WPA2_PSK"
print_auth_mode wifi_auth_wpa_wpa2_psk = codes "WIFI_AUTH_WPA_WPA2_PSK"
print_auth_mode wifi_auth_wpa2_enterprise = codes "WIFI_AUTH_WPA2_ENTERPRISE"
print_auth_mode wifi_auth_wpa3_psk = codes "WIFI_AUTH_WPA3_PSK"
print_auth_mode wifi_auth_wpa2_wpa3_psk = codes "WIFI_AUTH_WPA2_WPA3_PSK"
print_auth_mode wifi_auth_other = codes "WIFI_AUTH_UNKNOWN"

-- `wifi_connect` without its prints: without a name it shows the connection only.
unfoldable pub wifi_connect : Option Bytes → Option Bytes → Stored → Radio → Wifi → ℕ × Wifi
wifi_connect none pwd d radio s = (0, s)
wifi_connect (some ssid) pwd d radio s =
    let r = wifi_join (record { ssid = some ssid; pass = pwd; usenvs = true }) d radio s in
    (if r.0 then 0 else 1, r.1)

-- The parsed arguments of the command: whether they are in order, the operation, the name and the
-- password.
pub record Args : Type 0 where
  pub parsed : Bool
  pub op : Bytes
  pub name : Option Bytes
  pub pwd : Option Bytes

abbrev pub both : Option Bytes → Option Bytes → Option Bytes × Option Bytes
both (some name) (some pwd) = (some name, some pwd)
both _ _ = (none, none)

-- `do_wifi`, with the scan and its prints left out.
unfoldable pub do_wifi : Args → Stored → Radio → Wifi → ℕ × Wifi
do_wifi args d radio s =
    if not args.parsed
    then (1, s)
    else if same args.op (codes "connect")
    then (0, (wifi_connect (both args.name args.pwd).0 (both args.name args.pwd).1 d radio s).1)
    else if same args.op (codes "disconnect")
    then (0, (wifi_disconnect radio.mode radio.on_disconnect s).1)
    else if same args.op (codes "scan")
    then (0, initialise_wifi s)
    else (0, s)

-- The first interface that has an address, from the list of what each of them returns.
unfoldable pub first_ip : List (Option ℕ) → Option ℕ
first_ip [] = none
first_ip (none ∷ is) = first_ip is
first_ip (some ip ∷ is) = some ip

-- `get_sta_conf` with the name of the access point, where the driver knows it, and the interfaces: what
-- it returns, the name and the address that it writes (`none`: not written), both pointers given.
unfoldable pub get_sta_conf : Option Bytes → List (Option ℕ) → Wifi → Bool × Option Bytes × Option ℕ
get_sta_conf access_point interfaces s =
    if not (is_wifi_connected s) then (false, some [], some 0) else elim access_point [
      | none ↦ (false, none, none)
      | some ssid ↦ elim (first_ip interfaces) [
        | none ↦ (false, some ssid, none)
        | some ip ↦ (true, some ssid, some ip)
      ]
    ]
