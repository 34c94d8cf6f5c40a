-- ===== src/SystemCmd/Boots.antt =====
-- What the next boot loads after `nvs_conf` has stored an entry.
use mathlib.Core.Path.{subst}
use esp32_common.Common.{
  ◌≡◌, ap, ◌∙◌, true, Option, some, List, ◌==◌, if◌then◌else◌, Bool-cases, inl, inr,
}
use esp32_common.Common.Memory.{Bytes}
use esp32_common.NvsConf.Conf.{Key, index, DevConf, defaults, Net}
use esp32_common.NvsConf.Load.{Nvs, IsNvs, load_order, get_nvs_conf}
use esp32_common.NvsConf.Fields.{value, index-injective}
use esp32_common.NvsConf.Stored.{FitsAt, loaded}
use esp32_common.NvsConf.Boot.{boot_loads, Fits-all}
use esp32_common.SystemCmd.Names.{settable, named}
use esp32_common.SystemCmd.Settings.{Opens, store_value, store_named, store_args, nvs_conf}

-- The text of an entry once `k` is set to `v`.
abbrev pub replaced : Key → Bytes → Option Bytes → Key → Option Bytes
replaced k v o j = if index k == index j then some v else o

FitsAt-replaced :
    (k j : Key) (v : Bytes) (o : Option Bytes)
    → FitsAt k (some v)
    → FitsAt j o
    → FitsAt j (replaced k v o j)
FitsAt-replaced k j v o f g = elim (Bool-cases (index k == index j)) [
  | inl same ↦ rw same (subst (λ (i : Key). FitsAt i (some v)) (index-injective k j same) f)
  | inr other ↦ rw other g
]

module _ (net : Net) (nvs : Nvs) (laws : IsNvs nvs) (entries : nvs.Store → List Key) where
  open nvs use {Store, get_str, set_str, commit}

  -- What a run that stores an entry leaves in the storage.
  nvs_conf-stores :
      (o : Opens) (text v : Bytes) (k : Key) (c : DevConf) (s t : Store)
      → o.partition ≡ true
      → o.writing ≡ true
      → named text settable ≡ some k
      → set_str s k v ≡ some t
      → (nvs_conf nvs entries o (record { key = some text; val = some v }) c s).1 ≡ commit t
  unfolding nvs_conf store_args store_named store_value
  nvs_conf-stores o text v k c s t p w e done =
      rw p (rw (e, store_args, store_named) (rw (w, store_value) (rw done)))

  stored_text :
      (k j : Key) (v : Bytes) (s t : Store)
      → set_str s k v ≡ some t
      → get_str (commit t) j ≡ replaced k v (get_str s j) j
  stored_text k j v s t done = laws.get_commit t j ∙ laws.get_set s t k j v done

  -- A run that is given the name of an entry it accepts and a value that the storage takes, where every
  -- text, the value too, that is short enough to be read fits the array of its field. At the next boot
  -- the field of that entry is what the value says if it is shorter than the bound of its block, and the
  -- default if it is not; every other field is loaded in the same way from what was stored before.
  pub nvs_conf-boots :
      (o : Opens) (text v : Bytes) (k : Key) (c : DevConf) (s t : Store)
      → o.partition ≡ true
      → o.writing ≡ true
      → named text settable ≡ some k
      → set_str s k v ≡ some t
      → FitsAt k (some v)
      → ((j : Key) → FitsAt j (get_str s j))
      → (d : DevConf) × (u : Store) × (get_nvs_conf net nvs true
            (nvs_conf nvs entries o (record { key = some text; val = some v }) c s).1
          ≡ some (d, u))
        × ((j : Key) → value j d ≡ loaded net nvs laws j (replaced k v (get_str s j) j) defaults)
  nvs_conf-boots o text v k c s t p w e done f g =
      let fits : (j : Key) → FitsAt j (get_str (commit t) j) =
        λ j. rw (stored_text k j v s t done) (FitsAt-replaced k j v (get_str s j) f (g j)) in
      let (d, u, runs, fields, stays) =
        boot_loads net nvs laws (commit t) (Fits-all net nvs laws load_order (commit t) fits) in
      (
        d,
        u,
        ap (get_nvs_conf net nvs true) (nvs_conf-stores o text v k c s t p w e done) ∙ runs,
        (λ j.
            fields j
            ∙ ap (λ (b : Option Bytes). loaded net nvs laws j b defaults)
                (stored_text k j v s t done)),
      )
