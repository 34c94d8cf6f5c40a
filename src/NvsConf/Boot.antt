-- ===== src/NvsConf/Boot.antt =====
-- `get_nvs_conf` as a whole: what a boot loads, and that the next boot loads the same.
use mathlib.Core.Path.{subst}
use esp32_common.Common.{
  ◌≡◌, refl, sym, ◌∙◌, true, Option, none, some, List, [], ◌∷◌, ◌==◌, arith, Bool-cases, inl, inr,
}
use esp32_common.Common.Memory.{Bytes}
use esp32_common.NvsConf.Conf.{Key, index, DevConf, defaults, Net, fallback}
use esp32_common.NvsConf.Load.{Nvs, IsNvs, load_order, get_nvs_conf}
use esp32_common.NvsConf.Fields.{value, IsNet, index-injective, parsed-fallback, length-fallback}
use esp32_common.NvsConf.Stored.{contains, is_short, FitsAt, loaded, kept, Writable, Fits, Distinct}
use esp32_common.NvsConf.Blocks.{Loads, loads}

module _ (net : Net) (nvs : Nvs) (laws : IsNvs nvs) where
  open nvs use {Store, get_str}

  contains-load_order : (j : Key) → contains j load_order ≡ true
  contains-load_order Key.sta_ssid = refl
  contains-load_order _ = refl

  Distinct-load_order : Distinct net nvs laws load_order
  Distinct-load_order = (
    refl,
    (
      refl,
      (refl, (refl, (refl, (refl, (refl, (refl, (refl, (refl, (refl, (refl, (refl, tt))))))))))),
    ),
  )

  -- Where each stored text that is read fits its array: every field of the configuration is the
  -- stored value if an entry is stored and shorter than the bound of its block, and else the default;
  -- and, where writes succeed, the storage then holds every entry, those that were read unchanged and
  -- the missing and the too long ones with the default.
  pub boot_loads :
      (s : Store)
      → Fits net nvs laws load_order s
      → (c : DevConf) × (t : Store) × (get_nvs_conf net nvs true s ≡ some (c, t))
        × ((j : Key) → value j c ≡ loaded net nvs laws j (get_str s j) defaults)
        × (Writable net nvs laws
            → (j : Key) → get_str t j ≡ some (kept net nvs laws j (get_str s j) defaults))
  unfolding get_nvs_conf
  boot_loads s f =
      let r : Loads net nvs laws load_order defaults s =
        loads net nvs laws load_order defaults s Distinct-load_order f in
      (
        r.c',
        r.t,
        r.runs,
        (λ j. r.fields j ∙ rw (contains-load_order j)),
        (λ w j. r.stays w j (contains-load_order j)),
      )

  pub Fits-all :
      (ks : List Key) (s : Store) → ((j : Key) → FitsAt j (get_str s j)) → Fits net nvs laws ks s
  Fits-all [] s h = tt
  Fits-all (k ∷ ks) s h = (h k, Fits-all ks s h)

  FitsAt-kept :
      (j : Key) (o : Option Bytes)
      → IsNet net
      → FitsAt j o
      → FitsAt j (some (kept net nvs laws j o defaults))
  FitsAt-kept j none n f = λ h. (length-fallback net j n).1
  FitsAt-kept j (some v) n f = elim (Bool-cases (is_short j v)) [
    | inl short ↦ rw short (λ h. f short)
    | inr long ↦ rw long (λ h. (length-fallback net j n).1)
  ]

  loaded-fallback :
      (j : Key)
      → IsNet net
      → loaded net nvs laws j (some (fallback net j defaults)) defaults ≡ value j defaults
  loaded-fallback j n =
      let short : is_short j (fallback net j defaults) ≡ true =
        let l = (length-fallback net j n).0 in ground arith in
      rw short (parsed-fallback net j n)

  loaded-kept :
      (j : Key) (o : Option Bytes)
      → IsNet net
      → loaded net nvs laws j (some (kept net nvs laws j o defaults)) defaults
        ≡ loaded net nvs laws j o defaults
  loaded-kept j none n = loaded-fallback j n
  loaded-kept j (some v) n = elim (Bool-cases (is_short j v)) [
    | inl short ↦ rw short (rw short)
    | inr long ↦ rw long (loaded-fallback j n)
  ]

  FitsAt-order :
      (j : Key) (ks : List Key) (s : Store)
      → contains j ks ≡ true
      → Fits net nvs laws ks s
      → FitsAt j (get_str s j)
  FitsAt-order j [] s h f = absurd (cc)
  FitsAt-order j (k ∷ ks) s h f = elim (Bool-cases (index k == index j)) [
    | inl same ↦ subst (λ (i : Key). FitsAt i (get_str s i)) (index-injective k j same) f.0
    | inr other ↦ FitsAt-order j ks s (rw other at h) f.1
  ]

  -- After a boot with working storage the next boot loads every field with the same value, whatever
  -- entries were missing or too long before the first.
  pub boot_again :
      (s : Store)
      → IsNet net
      → Writable net nvs laws
      → Fits net nvs laws load_order s
      → (c : DevConf) × (t : Store) × (d : DevConf) × (u : Store) × (get_nvs_conf net nvs true s
          ≡ some (c, t))
        × (get_nvs_conf net nvs true t ≡ some (d, u))
        × ((j : Key) → value j d ≡ value j c)
  boot_again s n w f =
      let (c, t, first, fields, stored) = boot_loads s f in
      let fits : (j : Key) → FitsAt j (get_str t j) = λ j.
        rw (stored w j)
          (FitsAt-kept j (get_str s j) n (FitsAt-order j load_order s (contains-load_order j) f)) in
      let (d, u, second, fields', stored') = boot_loads t (Fits-all load_order t fits) in
      (
        c,
        t,
        d,
        u,
        first,
        second,
        (λ j. fields' j ∙ rw (stored w j) (loaded-kept j (get_str s j) n ∙ sym (fields j))),
      )
