-- ===== src/SystemCmd/Names.antt =====
-- The names that cmds/cmd_system.c compares its arguments with: those of the commands, in
-- `do_system_cmd`, and those of the configuration's entries, in `nvs_conf`.
use esp32_common.Common.{ℕ, Option, none, some, List, [], ◌∷◌, if◌then◌else◌}
use esp32_common.Common.Memory.{Bytes, codes, same}
use esp32_common.NvsConf.Conf.{
  Key, sta_ssid, sta_pass, ap_ssid, ap_pass, ap_hostname, ap_ip, dev_name, dev_id, console,
  broker_url, log_server, log_port, friendly_name,
}

-- NVSSTASSID and the names after it in common_defines.h.
abbrev pub key_name : Key → Bytes
key_name sta_ssid = codes "wifi.stassid"
key_name sta_pass = codes "wifi.stapass"
key_name ap_ssid = codes "ap.ssid"
key_name ap_pass = codes "ap.pass"
key_name ap_hostname = codes "ap.hostname"
key_name ap_ip = codes "ap.ip"
key_name dev_name = codes "devName"
key_name dev_id = codes "devID"
key_name console = codes "console"
key_name broker_url = codes "mqtt.broker.url"
key_name log_server = codes "log.server"
key_name log_port = codes "log.port"
key_name friendly_name = codes "friendlyName"

-- The entries whose names `nvs_conf` accepts, by the order of its comparisons.
abbrev pub settable : List Key
settable =
    sta_ssid ∷ sta_pass ∷ dev_id ∷ dev_name ∷ console ∷ ap_hostname ∷ ap_ssid ∷ ap_pass ∷ ap_ip
    ∷ broker_url ∷ log_server ∷ log_port ∷ []

unfoldable pub named : Bytes → List Key → Option Key
named text [] = none
named text (k ∷ ks) = if same text (key_name k) then some k else named text ks

pub data Command : Type 0 where
  uptime heap ls mkdir free restart version ping boot : Command
  cat rm nvsconf echo flashled lastcrash ota : Command

-- The chain of comparisons of `do_system_cmd`, in an image with OTA_SUPPORT and without the
-- statistics of FreeRTOS.
abbrev pub command_table : List (Bytes × Command)
command_table =
    (codes "uptime", uptime)
    ∷ (codes "heap", heap)
    ∷ (codes "ls", ls)
    ∷ (codes "mkdir", mkdir)
    ∷ (codes "free", free)
    ∷ (codes "restart", restart)
    ∷ (codes "version", version)
    ∷ (codes "ping", ping)
    ∷ (codes "boot", boot)
    ∷ (codes "cat", cat)
    ∷ (codes "rm", rm)
    ∷ (codes "nvsconf", nvsconf)
    ∷ (codes "echo", echo)
    ∷ (codes "flashled", flashled)
    ∷ (codes "lastcrash", lastcrash)
    ∷ (codes "ota", ota)
    ∷ []

unfoldable pub command_named : Bytes → List (Bytes × Command) → Option Command
command_named text [] = none
command_named text (c ∷ cs) = if same text c.0 then some c.1 else command_named text cs

-- The handler that is called, and the value returned; what the handler returns is dropped.
unfoldable pub do_system_cmd : List Bytes → ℕ × Option Command
do_system_cmd [] = (0, none)
do_system_cmd (name ∷ rest) = elim (command_named name command_table) [
  | none ↦ (0, none)
  | some c ↦ (1, some c)
]
