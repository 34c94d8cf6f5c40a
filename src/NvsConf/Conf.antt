-- ===== src/NvsConf/Conf.antt =====
-- `dev_config_t` of common_defines.h, its default values, and its entries in the storage.
use esp32_common.Common.{ℕ, ◌+◌, ◌-◌, ◌*◌, ◌%◌, ◌^◌, [], ltb, if◌then◌else◌}
use esp32_common.Common.Int.{ℤ, pos, negsuc}
use esp32_common.Common.Memory.{Bytes, codes}
use esp32_common.Common.Decimal.{print_int, atoi}

-- The entries of the namespace, by the order in which `get_nvs_conf` loads them.
pub data Key : Type 0 where
  sta_ssid sta_pass ap_ssid ap_pass ap_hostname ap_ip dev_name : Key
  dev_id console broker_url log_server log_port friendly_name : Key

abbrev pub index : Key → ℕ
index sta_ssid = 0
index sta_pass = 1
index ap_ssid = 2
index ap_pass = 3
index ap_hostname = 4
index ap_ip = 5
index dev_name = 6
index dev_id = 7
index console = 8
index broker_url = 9
index log_server = 10
index log_port = 11
index friendly_name = 12

-- `char` arrays are the strings that they show.
pub record DevConf : Type 0 where
  pub cs : ℤ  -- console_state_t
  pub id : ℤ  -- int dev_id
  pub name : Bytes
  pub ssid : Bytes
  pub pass : Bytes
  pub hostname : Bytes
  pub apssid : Bytes
  pub appass : Bytes
  pub ip : ℕ  -- uint32_t ap_ip
  pub broker : Bytes
  pub server : Bytes
  pub port : ℕ  -- uint32_t log_port
  pub friendly : Bytes

abbrev pub console_on : ℤ
console_on = pos 1

-- The assignments at the head of `get_nvs_conf`.
abbrev pub defaults : DevConf
defaults = record {
  cs = console_on;
  id = pos 81;
  name = codes "gnetdev";
  ssid = [];
  pass = [];
  hostname = codes "ota-dev.local";
  apssid = codes "OTA-dev";
  appass = codes "OTA-devpass";
  ip = 2 ^ 24 + 252 * 2 ^ 16 + 168 * 2 ^ 8 + 192;
  broker = codes "mqtts://proxy.gnet:1886";
  server = codes "proxy.gnet";
  port = 8081;
  friendly = codes "unnamed device";
}

-- The size of the array that a text entry is copied to; 128 for the entries that are numbers, which
-- are read from the local array `b[128]`.
abbrev pub capacity : Key → ℕ
capacity sta_ssid = 64
capacity sta_pass = 64
capacity ap_ssid = 64
capacity ap_pass = 64
capacity ap_hostname = 32
capacity dev_name = 32
capacity broker_url = 32
capacity log_server = 32
capacity friendly_name = 64
capacity _ = 128

-- The bound that the stored size is tested against.
abbrev pub size_limit : Key → ℕ
size_limit sta_ssid = 64
size_limit sta_pass = 64
size_limit ap_ssid = 64
size_limit ap_pass = 64
size_limit ap_hostname = 32
size_limit dev_name = 32
size_limit _ = 128

-- What the code uses of lwip for the address: `inet_addr`, and `sprintf` with IPSTR and IP2STR.
pub record Net : Type 0 where
  pub inet_addr : Bytes → ℕ
  pub ip_text : ℕ → Bytes

-- An `int` stored in a `uint32_t`, and back.
abbrev pub to_u32 : ℤ → ℕ
to_u32 (pos n) = n % 2 ^ 32
to_u32 (negsuc n) = 2 ^ 32 - 1 - n % 2 ^ 32

abbrev pub to_i32 : ℕ → ℤ
to_i32 n = if ltb n (2 ^ 31) then pos n else negsuc (2 ^ 32 - 1 - n)

module _ (net : Net) where
  open net use {inet_addr, ip_text}

  -- The field of an entry takes the text read for it.
  unfoldable pub assign : Key → Bytes → DevConf → DevConf
  assign sta_ssid v c = record c { ssid = v }
  assign sta_pass v c = record c { pass = v }
  assign ap_ssid v c = record c { apssid = v }
  assign ap_pass v c = record c { appass = v }
  assign ap_hostname v c = record c { hostname = v }
  assign ap_ip v c = record c { ip = inet_addr v }
  assign dev_name v c = record c { name = v }
  assign dev_id v c = record c { id = atoi v }
  assign console v c = record c { cs = atoi v }
  assign broker_url v c = record c { broker = v }
  assign log_server v c = record c { server = v }
  assign log_port v c = record c { port = to_u32 (atoi v) }
  assign friendly_name v c = record c { friendly = v }

  -- What is stored where an entry is missing or too long: the default texts, and the numbers that
  -- the configuration holds.
  unfoldable pub fallback : Key → DevConf → Bytes
  fallback sta_ssid c = []
  fallback sta_pass c = []
  fallback ap_ssid c = codes "OTA-dev"
  fallback ap_pass c = codes "OTA-devpass"
  fallback ap_hostname c = codes "ota-dev.local"
  fallback ap_ip c = ip_text c.ip
  fallback dev_name c = codes "gnetdev"
  fallback dev_id c = print_int c.id
  fallback console c = print_int c.cs
  fallback broker_url c = codes "mqtts://proxy.gnet:1886"
  fallback log_server c = codes "proxy.gnet"
  fallback log_port c = print_int (to_i32 c.port)
  fallback friendly_name c = codes "unnamed device"
