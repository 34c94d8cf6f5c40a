-- ===== src/SystemCmd/Tests.antt =====
-- A storage that keeps its entries as a function and gives those it holds, and commands on it.
use esp32_common.Common.{
  false, ◌++◌, ◌+◌, ◌≡◌, refl, sym, true, Option, none, some, List, [], ◌∷◌, ◌==◌, if◌then◌else◌,
  length, arith,
}
use esp32_common.Common.Int.{pos}
use esp32_common.Common.Memory.{Bytes, codes}
use esp32_common.Common.Decimal.{atoi}
use esp32_common.NvsConf.Conf.{Key, console, log_port, index, DevConf, defaults, Net}
use esp32_common.NvsConf.Load.{Nvs, IsNvs, load_order, get_nvs_conf}
use esp32_common.NvsConf.Fields.{value}
use esp32_common.NvsConf.Stored.{FitsAt, loaded}
use esp32_common.SystemCmd.Names.{settable, named, nvsconf, command_named, do_system_cmd}
use esp32_common.SystemCmd.Settings.{
  NvsArgs, Opens, invalid, shown, restarted, take_state, show, store_value, store_named, store_args,
  show_text, show_entry, show_entries, show_all, nvs_conf,
}
use esp32_common.Ota.Task.{Partition, get_updateable_partition}
use esp32_common.SystemCmd.Partitions.{
  listed, boot_set, not_found, found_part, list_parts, select_part, boot_from, boot_from-updateable,
}
use esp32_common.SystemCmd.Boots.{replaced, nvs_conf-boots}
use esp32_common.SystemCmd.Console.{Takes, nvs_conf-Takes}

abbrev Entries : Type 0
Entries = Key → Option Bytes

abbrev memory : Nvs
memory = record {
  Store = Entries;
  get_len = λ s k. elim (s k) [ none ↦ none | some v ↦ some (length v + 1) ];
  get_str = λ s k. s k;
  set_str = λ s k v. some (λ j. if index k == index j then some v else s j);
  commit = λ s. s;
}

some-eq : {s t : Entries} → some s ≡ some t → (j : Key) → s j ≡ t j
some-eq {s} {t} e j = let p : s ≡ t = cc in λ i. p i j

memory-IsNvs : IsNvs memory
memory-IsNvs = record {
  len_lem = λ s k. refl;
  get_set = λ s t k j v e. sym (some-eq e j);
  get_commit = λ s k. refl;
}

abbrev held : List Key → Entries → List Key
held [] s = []
held (k ∷ ks) s = elim (s k) [ none ↦ held ks s | some v ↦ k ∷ held ks s ]

abbrev listing : Entries → List Key
listing s = held load_order s

abbrev one_code : Net
one_code = record { inet_addr = λ v. elim v [ [] ↦ 0 | a ∷ rest ↦ a ]; ip_text = λ a. a ∷ [] }

abbrev saved : Entries
saved k = if index k == index log_port then some (codes "9000") else none

abbrev all_open : Opens
all_open = record { partition = true; writing = true; reading = true }

abbrev set_console : NvsArgs
set_console = record { key = some (codes "console"); val = some (codes "8") }

abbrev stored : Entries
stored j = if index console == index j then some (codes "8") else saved j

dispatched : do_system_cmd (codes "nvsconf" ∷ codes "console" ∷ codes "8" ∷ []) ≡ (1, some nvsconf)
unfolding do_system_cmd command_named
dispatched = refl

unknown : do_system_cmd (codes "nvs" ∷ []) ≡ (0, none)
unfolding do_system_cmd command_named
unknown = refl

refused :
    (nvs_conf memory listing all_open
      (record { key = some (codes "friendlyName"); val = some (codes "x") })
      defaults
      saved).2
    ≡ invalid (codes "friendlyName") ∷ shown log_port (codes "9000") ∷ []
unfolding nvs_conf store_args store_named named show_all show_entries show_entry show_text show
refused = refl

console_set :
    (nvs_conf memory listing all_open set_console defaults saved).2
    ≡ shown console (codes "8") ∷ restarted (pos 8) ∷ shown log_port (codes "9000") ∷ []
unfolding nvs_conf store_args store_named store_value named show_all show_entries show_entry
    show_text show take_state atoi
console_set = refl

named_console : named (codes "console") settable ≡ some console
unfolding named
named_console = refl

FitsAt-saved : (j : Key) → FitsAt j (saved j)
FitsAt-saved Key.log_port = λ h. omega arith
FitsAt-saved _ = tt

nvs_conf-boots_example :
    (d : DevConf) × (u : Entries) × (get_nvs_conf one_code memory true
        (nvs_conf memory listing all_open set_console defaults saved).1
      ≡ some (d, u))
    × ((j : Key)
        → value j d
          ≡ loaded one_code memory memory-IsNvs j
              (replaced console (codes "8") (saved j) j)
              defaults)
nvs_conf-boots_example =
    nvs_conf-boots one_code memory memory-IsNvs listing all_open (codes "console") (codes "8")
      console defaults saved stored refl refl named_console refl (λ h. omega arith) FitsAt-saved

after_set : (nvs_conf memory listing all_open set_console defaults saved).1 ≡ stored
unfolding nvs_conf store_args store_named store_value named
after_set = refl

nvs_conf-Takes_example : Takes (atoi (codes "8")) defaults (
  (nvs_conf memory listing all_open set_console defaults saved).0,
  (nvs_conf memory listing all_open set_console defaults saved).2,
)
nvs_conf-Takes_example =
    nvs_conf-Takes memory memory-IsNvs listing all_open set_console (codes "8") defaults saved refl
      refl (rw after_set refl) (rw after_set refl) refl

abbrev factory : Partition
factory = record { label = codes "factory"; address = 65536; size = 1000 }

abbrev ota_0 : Partition
ota_0 = record { label = codes "ota_0"; address = 131072; size = 2000 }

abbrev ota_1 : Partition
ota_1 = record { label = codes "ota_1"; address = 196608; size = 2000 }

abbrev parts : List Partition
parts = factory ∷ ota_0 ∷ ota_1 ∷ []

no_name :
    boot_from (λ p. true) 65536 (ota_0 ∷ []) none 65536 ≡ (65536, listed ota_0 false false ∷ [])
unfolding boot_from list_parts found_part select_part
no_name = refl

missing :
    boot_from (λ p. true) 65536 (factory ∷ []) (some (codes "ota_0")) 65536
    ≡ (65536, listed factory true true ∷ not_found (codes "ota_0") ∷ [])
unfolding boot_from list_parts found_part select_part
missing = refl

found_ota_1 : get_updateable_partition (codes "ota_1") 65536 parts ≡ some ota_1
unfolding get_updateable_partition
found_ota_1 = refl

boot_from-updateable_example : boot_from (λ p. true) 65536 parts (some (codes "ota_1")) 65536 ≡ (
  196608,
  (list_parts (some (codes "ota_1")) 65536 65536 parts none).1 ++ (boot_set ota_1 ∷ []),
)
boot_from-updateable_example =
    boot_from-updateable (λ p. true) (codes "ota_1") 65536 65536 parts ota_1 refl found_ota_1 refl
