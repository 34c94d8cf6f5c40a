-- ===== src/NvsConf/Tests.antt =====
-- A storage that keeps its entries as a function, and boots on it.
use esp32_common.Common.{
  ◌+◌, ◌≡◌, refl, sym, true, Option, none, some, [], ◌∷◌, ◌==◌, if◌then◌else◌, length, replicate,
  arith, inl,
}
use esp32_common.Common.Memory.{Bytes, codes}
use esp32_common.Common.Decimal.{atoi}
use esp32_common.NvsConf.Conf.{
  Key, broker_url, log_port, index, DevConf, defaults, Net, assign, fallback,
}
use esp32_common.NvsConf.Load.{
  Nvs, IsNvs, load_order, read_entry, write_entry, fetch_entry, load_entry, load_entries,
  get_nvs_conf,
}
use esp32_common.NvsConf.Fields.{IsNet, value}
use esp32_common.NvsConf.Stored.{loaded, kept, Writable, Fits}
use esp32_common.NvsConf.Boot.{boot_loads, boot_again}
use esp32_common.NvsConf.Overflow.{boot_overflow}

abbrev Entries : Type 0
Entries = Key → Option Bytes

abbrev memory : Nvs
memory = record {
  Store = Entries;
  get_len = λ s k. elim (s k) [ none ↦ none | some v ↦ some (length v + 1) ];
  get_str = λ s k. s k;
  set_str = λ s k v. some (λ j. if index k == index j then some v else s j);
  commit = λ s. s;
}

some-eq : {s t : Entries} → some s ≡ some t → (j : Key) → s j ≡ t j
some-eq {s} {t} e j = let p : s ≡ t = cc in λ i. p i j

memory-IsNvs : IsNvs memory
memory-IsNvs = record {
  len_lem = λ s k. refl;
  get_set = λ s t k j v e. sym (some-eq e j);
  get_commit = λ s k. refl;
}

-- An address kept as one code.
abbrev one_code : Net
one_code = record { inet_addr = λ v. elim v [ [] ↦ 0 | a ∷ rest ↦ a ]; ip_text = λ a. a ∷ [] }

one_code-IsNet : IsNet one_code
one_code-IsNet = record { addr_lem = λ a h. refl; length_lem = λ a. omega arith }

memory-Writable : Writable one_code memory memory-IsNvs
memory-Writable s k v = ((λ j. if index k == index j then some v else s j), refl)

-- A broker and a port are stored, and nothing else.
abbrev saved : Entries
saved k =
    if index k == index broker_url
    then some (codes "mqtt://10.0.0.7")
    else if index k == index log_port
    then some (codes "9000")
    else none

saved-Fits : Fits one_code memory memory-IsNvs load_order saved
saved-Fits = omega arith

abbrev conf_of : Option (DevConf × Entries) → Option DevConf
conf_of none = none
conf_of (some (c, t)) = some c

loads_saved :
    conf_of (get_nvs_conf one_code memory true saved)
    ≡ some (record defaults { broker = codes "mqtt://10.0.0.7"; port = 9000 })
unfolding get_nvs_conf load_entries load_entry fetch_entry read_entry write_entry assign fallback
    atoi
loads_saved = refl

boot_loads_example :
    (c : DevConf) × (t : Entries) × (get_nvs_conf one_code memory true saved ≡ some (c, t))
    × ((j : Key) → value j c ≡ loaded one_code memory memory-IsNvs j (saved j) defaults)
    × (Writable one_code memory memory-IsNvs
        → (j : Key) → t j ≡ some (kept one_code memory memory-IsNvs j (saved j) defaults))
boot_loads_example = boot_loads one_code memory memory-IsNvs saved saved-Fits

boot_again_example :
    (c : DevConf) × (t : Entries) × (d : DevConf) × (u : Entries) × (get_nvs_conf one_code memory
        true saved
      ≡ some (c, t))
    × (get_nvs_conf one_code memory true t ≡ some (d, u))
    × ((j : Key) → value j d ≡ value j c)
boot_again_example =
    boot_again one_code memory memory-IsNvs saved one_code-IsNet memory-Writable saved-Fits

abbrev long_url : Entries
long_url k = if index k == index broker_url then some (replicate 40 b'x') else none

boot_overflow_example : get_nvs_conf one_code memory true long_url ≡ none
boot_overflow_example =
    boot_overflow one_code memory memory-IsNvs broker_url (replicate 40 b'x') long_url (inl refl)
      refl (omega arith) (omega arith)
