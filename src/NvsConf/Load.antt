-- ===== src/NvsConf/Load.antt =====
-- `get_nvs_conf` of utils/utils.c.
use esp32_common.Common.{
  ℕ, ◌+◌, ◌≡◌, Bool, Option, none, some, List, [], ◌∷◌, ltb, ◌==◌, if◌then◌else◌, length,
}
use esp32_common.Common.Memory.{Bytes}
use esp32_common.NvsConf.Conf.{
  Key, sta_ssid, sta_pass, ap_ssid, ap_pass, ap_hostname, ap_ip, dev_name, dev_id, console,
  broker_url, log_server, log_port, friendly_name, index, DevConf, defaults, capacity, size_limit,
  Net, assign, fallback,
}

-- The calls of ESP-IDF's storage on an open namespace. `none` is a return value other than ESP_OK.
pub record Nvs : Type 1 where
  pub Store : Type 0
  pub get_len : Store → Key → Option ℕ  -- nvs_get_str with no buffer
  pub get_str : Store → Key → Option Bytes  -- nvs_get_str into a buffer that is large enough
  pub set_str : Store → Key → Bytes → Option Store
  pub commit : Store → Store

-- What the code relies on: the length counts the NUL, a stored text is read back, and the other
-- entries stay.
pub record IsNvs (nvs : Nvs) : Type 0 where
  pub len_lem :
      (s : nvs.Store) (k : Key)
      → nvs.get_len s k ≡ (elim (nvs.get_str s k) [ none ↦ none | some v ↦ some (length v + 1) ])
  pub get_set :
      (s t : nvs.Store) (k j : Key) (v : Bytes)
      → nvs.set_str s k v ≡ some t
      → nvs.get_str t j ≡ (if index k == index j then some v else nvs.get_str s j)
  pub get_commit : (s : nvs.Store) (k : Key) → nvs.get_str (nvs.commit s) k ≡ nvs.get_str s k

-- The order of the blocks.
abbrev pub load_order : List Key
load_order =
    sta_ssid ∷ sta_pass ∷ ap_ssid ∷ ap_pass ∷ ap_hostname ∷ ap_ip ∷ dev_name ∷ dev_id ∷ console
    ∷ broker_url ∷ log_server ∷ log_port ∷ friendly_name ∷ []

module _ (net : Net) (nvs : Nvs) where
  open nvs use {Store, get_len, get_str, set_str, commit}

  -- The configuration and the storage; `none` is a `strcpy` past the end of its array.
  abbrev pub State : Type 0
  State = DevConf × Store

  -- Copy the text read into the field.
  unfoldable pub read_entry : Key → DevConf → Bytes → Option DevConf
  read_entry k c v = if ltb (capacity k) (length v + 1) then none else some (assign net k v c)

  -- The missing or too long entry gets the default.
  unfoldable pub write_entry : Key → DevConf → Store → Store
  write_entry k c s = elim (set_str s k (fallback net k c)) [ none ↦ s | some t ↦ commit t ]

  -- The text of an entry short enough is read into its field.
  unfoldable pub fetch_entry : Key → DevConf → Store → Option State
  fetch_entry k c s = elim (get_str s k) [
    | none ↦ some (c, s)
    | some v ↦ elim (read_entry k c v) [ none ↦ none | some c' ↦ some (c', s) ]
  ]

  -- One block of the function.
  unfoldable pub load_entry : Key → DevConf → Store → Option State
  load_entry k c s = elim (get_len s k) [
    | none ↦ some (c, write_entry k c s)
    | some sz ↦ if ltb sz (size_limit k) then fetch_entry k c s else some (c, write_entry k c s)
  ]

  unfoldable pub load_entries : List Key → DevConf → Store → Option State
  load_entries [] c s = some (c, s)
  load_entries (k ∷ ks) c s = elim (load_entry k c s) [
    | none ↦ none
    | some (c', t) ↦ load_entries ks c' t
  ]

  -- `opened` is whether `nvs_open` succeeds.
  unfoldable pub get_nvs_conf : Bool → Store → Option State
  get_nvs_conf opened s = if opened then load_entries load_order defaults s else some (defaults, s)
