-- ===== src/SystemCmd/Settings.antt =====
-- `nvs_conf` of cmds/cmd_system.c: it stores an entry of the configuration, and shows the entries.
use esp32_common.Common.{ℕ, Bool, Option, none, some, List, [], ◌∷◌, ◌++◌, ltb, ◌==◌, if◌then◌else◌}
use esp32_common.Common.Int.{ℤ, eq_ℤ}
use esp32_common.Common.Memory.{Bytes}
use esp32_common.Common.Decimal.{atoi}
use esp32_common.NvsConf.Conf.{Key, console, index, DevConf}
use esp32_common.NvsConf.Load.{Nvs}
use esp32_common.SystemCmd.Names.{settable, named}

-- The arguments, where they are given.
pub record NvsArgs : Type 0 where
  pub key : Option Bytes
  pub val : Option Bytes

-- Which of the calls that open the storage succeed: `esp_partition_find`, `nvs_open` for writing
-- and `nvs_open` for reading.
pub record Opens : Type 0 where
  pub partition : Bool
  pub writing : Bool
  pub reading : Bool

pub data NvsEvent : Type 0 where
  failed : Key → NvsEvent  -- error updating
  invalid : Bytes → NvsEvent  -- Invalid key name
  shown : Key → Bytes → NvsEvent  -- set to
  restarted : ℤ → NvsEvent  -- tcp_log_init

-- MAXNVSKEYVALEN.
abbrev pub shown_size : ℕ
shown_size = 32

-- The console state that the storage holds is taken over.
unfoldable pub take_state : ℤ → DevConf → DevConf × List NvsEvent
take_state cs c = if eq_ℤ c.cs cs then (c, []) else (record c { cs = cs }, restarted cs ∷ [])

unfoldable pub show : Key → Bytes → DevConf → DevConf × List NvsEvent
show k b c =
    let r = if index k == index console then take_state (atoi b) c else (c, []) in
    (r.0, shown k b ∷ r.1)

-- `entries` are the entries that the iterator of the namespace gives, those of the configuration.
module _ (nvs : Nvs) (entries : nvs.Store → List Key) where
  open nvs use {Store, get_len, get_str, set_str, commit}

  unfoldable pub store_value : Bool → Key → Bytes → Store → Store × List NvsEvent
  store_value opened k v s =
      if opened
      then elim (set_str s k v) [ none ↦ (s, failed k ∷ []) | some t ↦ (commit t, []) ]
      else (s, failed k ∷ [])

  -- The write, with a key and a value.
  unfoldable pub store_named : Bool → Bytes → Bytes → Store → Store × List NvsEvent
  store_named opened text v s = elim (named text settable) [
    | none ↦ (s, invalid text ∷ [])
    | some k ↦ store_value opened k v s
  ]

  unfoldable pub store_args : Bool → Option Bytes → Option Bytes → Store → Store × List NvsEvent
  store_args opened none val s = (s, [])
  store_args opened (some text) none s = (s, [])
  store_args opened (some text) (some v) s = store_named opened text v s

  unfoldable pub show_text : Key → Option Bytes → DevConf → DevConf × List NvsEvent
  show_text k none c = (c, [])
  show_text k (some b) c = show k b c

  -- One turn of the loop.
  unfoldable pub show_entry : Key → Store → DevConf → DevConf × List NvsEvent
  show_entry k s c = elim (get_len s k) [
    | none ↦ (c, [])
    | some sz ↦ if ltb sz shown_size then show_text k (get_str s k) c else (c, [])
  ]

  unfoldable pub show_entries : List Key → Store → DevConf → DevConf × List NvsEvent
  show_entries [] s c = (c, [])
  show_entries (k ∷ ks) s c =
      let r = show_entry k s c in let rest = show_entries ks s r.0 in (rest.0, r.1 ++ rest.1)

  unfoldable pub show_all : Bool → Store → DevConf → DevConf × List NvsEvent
  show_all opened s c = if opened then show_entries (entries s) s c else (c, [])

  -- The configuration, the storage and the events of a run whose arguments are parsed.
  unfoldable pub nvs_conf : Opens → NvsArgs → DevConf → Store → DevConf × Store × List NvsEvent
  nvs_conf o a c s =
      if o.partition
      then (let w = store_args o.writing a.key a.val s in
          let r = show_all o.reading w.0 c in (r.0, w.0, w.1 ++ r.1))
      else (c, s, [])
