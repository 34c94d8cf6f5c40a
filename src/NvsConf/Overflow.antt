-- ===== src/NvsConf/Overflow.antt =====
-- A stored text that passes the test of its size and does not fit its array.
use esp32_common.Common.{
  ◌+◌, ◌≤◌, ◌<◌, ◌≡◌, ap, sym, ◌∙◌, true, false, none, some, List, [], ◌∷◌, ltb, ◌==◌, length,
  arith, Bool-cases, Option-cases, inl, inr, ◌⊎◌,
}
use mathlib.Core.Path.{subst}
use esp32_common.Common.Memory.{Bytes}
use esp32_common.NvsConf.Conf.{
  Key, broker_url, log_server, friendly_name, index, DevConf, defaults, capacity, Net,
}
use esp32_common.NvsConf.Load.{
  Nvs, IsNvs, load_order, read_entry, write_entry, fetch_entry, load_entry, load_entries,
  get_nvs_conf,
}
use esp32_common.NvsConf.Fields.{index-injective}
use esp32_common.NvsConf.Stored.{contains, is_short, len-some, write_entry-other}

module _ (net : Net) (nvs : Nvs) (laws : IsNvs nvs) where
  open nvs use {Store, get_str}

  load_entry_store :
      (k : Key) (c c' : DevConf) (s t : Store)
      → load_entry net nvs k c s ≡ some (c', t)
      → (s ≡ t) ⊎ (write_entry net nvs k c s ≡ t)
  unfolding load_entry fetch_entry
  load_entry_store k c c' s t e = ground arith

  -- A block that ends leaves the other entries alone.
  load_entry-other :
      (k j : Key) (c c' : DevConf) (s t : Store)
      → (index k == index j) ≡ false
      → load_entry net nvs k c s ≡ some (c', t)
      → get_str t j ≡ get_str s j
  load_entry-other k j c c' s t ne e = elim (load_entry_store k c c' s t e) [
    | inl same ↦ ap (λ (r : Store). get_str r j) (sym same)
    | inr wrote ↦
        ap (λ (r : Store). get_str r j) (sym wrote) ∙ write_entry-other net nvs laws k j c s ne
  ]

  fetch-overflow :
      (k : Key) (v : Bytes) (c : DevConf) (s : Store)
      → get_str s k ≡ some v
      → is_short k v ≡ true
      → capacity k < length v + 1
      → load_entry net nvs k c s ≡ none
  unfolding load_entry fetch_entry read_entry
  fetch-overflow k v c s found short over =
      let full : ltb (capacity k) (length v + 1) ≡ true = ground arith in
      rw (len-some net nvs laws k s v found, load_entry)
        (rw short (rw (found, fetch_entry) (rw (full, read_entry))))

  entries-overflow :
      (ks : List Key) (k : Key) (v : Bytes) (c : DevConf) (s : Store)
      → contains k ks ≡ true
      → get_str s k ≡ some v
      → is_short k v ≡ true
      → capacity k < length v + 1
      → load_entries net nvs ks c s ≡ none
  unfolding load_entries
  entries-overflow [] k v c s h found short over = cc
  entries-overflow (k₀ ∷ ks) k v c s h found short over =
      elim (Option-cases (load_entry net nvs k₀ c s)) [
        | inl stopped ↦ rw (stopped, load_entries)
        | inr ((c', t), done) ↦ elim (Bool-cases (index k₀ == index k)) [
          | inl same ↦
              let p : k ≡ k₀ = sym (index-injective k₀ k same) in
              rw (
                subst (λ (i : Key). load_entry net nvs i c s ≡ none) p
                    (fetch-overflow k v c s found short over),
                load_entries,
              )
          | inr other ↦
              rw (done, load_entries)
                (entries-overflow ks k v c' t (rw other at h)
                  (load_entry-other k₀ k c c' s t other done ∙ found) short over)
        ]
      ]

  -- Texts of 32 to 126 bytes stored for `mqtt.broker.url` or `log.server`, and of 64 to 126 bytes for
  -- `friendlyName`, pass the test of the size against 128, and `strcpy` then writes past the end of
  -- the field.
  pub boot_overflow :
      (k : Key) (v : Bytes) (s : Store)
      → (k ≡ broker_url) ⊎ (k ≡ log_server) ⊎ (k ≡ friendly_name)
      → get_str s k ≡ some v
      → capacity k ≤ length v
      → length v ≤ 126
      → get_nvs_conf net nvs true s ≡ none
  unfolding get_nvs_conf
  boot_overflow k v s which found lo hi =
      entries-overflow load_order k v defaults s (ground arith) found (ground arith) (omega arith)
