-- ===== src/NvsConf/Stored.antt =====
-- What `get_nvs_conf` loads, and what it leaves in the storage.
use mathlib.Core.Path.{subst}
use esp32_common.Common.{
  ◌+◌, ◌≤◌, ◌≡◌, refl, ap, sym, ◌∙◌, Bool, true, false, ◌||◌, Option, none, some, List, [], ◌∷◌,
  ltb, ◌==◌, if◌then◌else◌, length, arith, Bool-cases, Option-cases, inl, inr,
}
use esp32_common.Common.Memory.{Bytes}
use esp32_common.NvsConf.Conf.{Key, index, DevConf, capacity, size_limit, Net, assign, fallback}
use esp32_common.NvsConf.Load.{Nvs, IsNvs, read_entry, write_entry, fetch_entry, load_entry}
use esp32_common.NvsConf.Fields.{Val, value, parsed, index-injective, value-assign}

abbrev pub contains : Key → List Key → Bool
contains k [] = false
contains k (j ∷ js) = index j == index k || contains k js

-- Whether a stored text is short enough to be read.
abbrev pub is_short : Key → Bytes → Bool
is_short k v = ltb (length v + 1) (size_limit k)

-- A stored text that is read fits the array of its field.
abbrev pub FitsAt : Key → Option Bytes → Type 0
FitsAt k none = Unit {0}
FitsAt k (some v) = is_short k v ≡ true → length v + 1 ≤ capacity k

module _ (net : Net) (nvs : Nvs) (laws : IsNvs nvs) where
  open nvs use {Store, get_len, get_str, set_str, commit}

  -- The value that an entry's field is to have, where it had the value of `c`.
  abbrev pub loaded : Key → Option Bytes → DevConf → Val
  loaded k none c = value k c
  loaded k (some v) c = if is_short k v then parsed net k v else value k c

  -- The text that is to be in the storage: the one there if it is read, and else the default.
  abbrev pub kept : Key → Option Bytes → DevConf → Bytes
  kept k none c = fallback net k c
  kept k (some v) c = if is_short k v then v else fallback net k c

  -- Every write succeeds.
  abbrev pub Writable : Type 0
  Writable = (s : Store) (k : Key) (v : Bytes) → (t : Store) × (set_str s k v ≡ some t)

  pub len-none : (k : Key) (s : Store) → get_str s k ≡ none → get_len s k ≡ none
  len-none k s e = laws.len_lem s k ∙ rw e

  pub len-some :
      (k : Key) (s : Store) (v : Bytes) → get_str s k ≡ some v → get_len s k ≡ some (length v + 1)
  len-some k s v e = laws.len_lem s k ∙ rw e

  -- A write leaves the other entries alone.
  pub write_entry-other :
      (k j : Key) (c : DevConf) (s : Store)
      → (index k == index j) ≡ false
      → get_str (write_entry net nvs k c s) j ≡ get_str s j
  unfolding write_entry
  write_entry-other k j c s ne = elim (Option-cases (set_str s k (fallback net k c))) [
    | inl failed ↦ rw (failed, write_entry)
    | inr (t, done) ↦
        rw (done, write_entry)
          (laws.get_commit t j ∙ laws.get_set s t k j (fallback net k c) done ∙ rw ne)
  ]

  write_entry_self :
      (k : Key) (c : DevConf) (s : Store)
      → Writable
      → get_str (write_entry net nvs k c s) k ≡ some (fallback net k c)
  unfolding write_entry
  write_entry_self k c s w =
      let (t, done) = w s k (fallback net k c) in
      let same : (index k == index k) ≡ true = ground arith in
      rw (done, write_entry)
        (laws.get_commit t k ∙ laws.get_set s t k k (fallback net k c) done ∙ rw same)

  -- One block, on an entry that fits.
  pub record Block (k : Key) (c : DevConf) (s : Store) : Type 0 where
    pub c' : DevConf
    pub t : nvs.Store
    pub runs : load_entry net nvs k c s ≡ some (c', t)
    pub field_ :
        (j : Key)
        → value j c' ≡ (if index k == index j then loaded k (get_str s k) c else value j c)
    pub others : (j : Key) → (index k == index j) ≡ false → get_str t j ≡ get_str s j
    pub stays : (w : Writable) → get_str t k ≡ some (kept k (get_str s k) c)

  unread :
      (k : Key) (c : DevConf) (s : Store)
      → load_entry net nvs k c s ≡ some (c, write_entry net nvs k c s)
      → loaded k (get_str s k) c ≡ value k c
      → kept k (get_str s k) c ≡ fallback net k c
      → Block k c s
  unread k c s e l p = record {
    c' = c;
    t = write_entry net nvs k c s;
    runs = e;
    field_ = λ j. elim (Bool-cases (index k == index j)) [
      | inl same ↦ rw same (
          subst (λ (i : Key). value i c ≡ loaded k (get_str s k) c) (index-injective k j same)
            (sym l))
      | inr other ↦ rw other
    ];
    others = λ j ne. write_entry-other k j c s ne;
    stays = λ w. write_entry_self k c s w ∙ ap some (sym p);
  }

  pub block : (k : Key) (c : DevConf) (s : Store) → FitsAt k (get_str s k) → Block k c s
  unfolding load_entry fetch_entry read_entry
  block k c s fits = elim (Option-cases (get_str s k)) [
    | inl missing ↦ unread k c s (rw (len-none k s missing, load_entry)) (rw missing) (rw missing)
    | inr (v, found) ↦ elim (Bool-cases (is_short k v)) [
      | inr long ↦
          unread k c s (rw (len-some k s v found, load_entry) (rw long)) (rw found (rw long))
            (rw found (rw long))
      | inl short ↦
          let room : ltb (capacity k) (length v + 1) ≡ false =
            let fit = (rw found at fits) short in ground arith in
          record {
            c' = assign net k v c;
            t = s;
            runs =
                rw (len-some k s v found, load_entry)
                  (rw short (rw (found, fetch_entry) (rw (room, read_entry))));
            field_ = λ j. rw found (rw short (value-assign net k j v c));
            others = λ j ne. refl;
            stays = λ w. rw found (rw short);
          }
    ]
  ]

  -- Every entry of a list is stored in a text that fits, where it is stored in one that is read.
  abbrev pub Fits : List Key → Store → Type 0
  Fits [] s = Unit {0}
  Fits (k ∷ ks) s = FitsAt k (get_str s k) × Fits ks s

  abbrev pub Distinct : List Key → Type 0
  Distinct [] = Unit {0}
  Distinct (k ∷ ks) = (contains k ks ≡ false) × Distinct ks
