-- ===== src/NvsConf/Blocks.antt =====
-- A run of blocks of `get_nvs_conf`, one for each entry of a list.
use mathlib.Core.Path.{subst}
use esp32_common.Common.{
  ℕ, ◌≡◌, refl, sym, ◌∙◌, Bool, true, false, ◌||◌, Option, none, some, List, [], ◌∷◌, ◌==◌,
  if◌then◌else◌, arith, Bool-cases, inl, inr,
}
use esp32_common.Common.Memory.{Bytes}
use esp32_common.NvsConf.Conf.{Key, index, DevConf, Net}
use esp32_common.NvsConf.Load.{Nvs, IsNvs, load_entries}
use esp32_common.NvsConf.Fields.{value, index-injective, fallback-value}
use esp32_common.NvsConf.Stored.{
  contains, FitsAt, loaded, kept, Writable, Block, block, Fits, Distinct,
}

not_head : (a b : ℕ) (p : Bool) → (a == b || p) ≡ false → ((b == a) ≡ false) × (p ≡ false)
not_head a b p h = ground arith

or_false : (p q : Bool) → (p || q) ≡ false → (p ≡ false) × (q ≡ false)
or_false p q h = ground arith

module _ (net : Net) (nvs : Nvs) (laws : IsNvs nvs) where
  open nvs use {Store, get_str}

  Fits-other :
      (k : Key) (ks : List Key) (s t : Store)
      → contains k ks ≡ false
      → ((j : Key) → (index k == index j) ≡ false → get_str t j ≡ get_str s j)
      → Fits net nvs laws ks s
      → Fits net nvs laws ks t
  Fits-other k [] s t out same f = tt
  Fits-other k (j ∷ js) s t out same f =
      let (ne, rest) = not_head (index j) (index k) (contains k js) out in
      (subst (FitsAt j) (sym (same j ne)) f.0, Fits-other k js s t rest same f.1)

  loaded-value :
      (j : Key) (o : Option Bytes) (c d : DevConf)
      → value j c ≡ value j d
      → loaded net nvs laws j o c ≡ loaded net nvs laws j o d
  loaded-value j none c d e = e
  loaded-value j (some v) c d e = rw e

  kept-value :
      (j : Key) (o : Option Bytes) (c d : DevConf)
      → value j c ≡ value j d
      → kept net nvs laws j o c ≡ kept net nvs laws j o d
  kept-value j none c d e = fallback-value net j c d e
  kept-value j (some v) c d e = rw (fallback-value net j c d e)

  -- A run of blocks on entries that fit.
  pub record Loads (ks : List Key) (c : DevConf) (s : Store) : Type 0 where
    pub c' : DevConf
    pub t : nvs.Store
    pub runs : load_entries net nvs ks c s ≡ some (c', t)
    pub fields :
        (j : Key)
        → value j c' ≡ (if contains j ks then loaded net nvs laws j (get_str s j) c else value j c)
    pub others : (j : Key) → contains j ks ≡ false → get_str t j ≡ get_str s j
    pub stays :
        Writable net nvs laws
        → (j : Key) → contains j ks ≡ true
        → get_str t j ≡ some (kept net nvs laws j (get_str s j) c)

  module _ (k : Key) (ks : List Key) (c : DevConf) (s : Store) (b : Block net nvs laws k c s)
      (r : Loads ks b.c' b.t) (once : contains k ks ≡ false) where
    cons_fields :
        (j : Key)
        → value j r.c'
          ≡ (if contains j (k ∷ ks) then loaded net nvs laws j (get_str s j) c else value j c)
    cons_fields j = elim (Bool-cases (index k == index j)) [
      | inl same ↦
          let at_k : value k r.c' ≡ loaded net nvs laws k (get_str s k) c =
            r.fields k
            ∙ rw once
                (b.field_ k ∙ (let self : (index k == index k) ≡ true = ground arith in rw self)) in
          rw same (
            subst (λ (i : Key). value i r.c' ≡ loaded net nvs laws i (get_str s i) c)
              (index-injective k j same) at_k)
      | inr other ↦
          let before : value j b.c' ≡ value j c = b.field_ j ∙ rw other in
          rw other
            (r.fields j ∙ rw (b.others j other, loaded-value j (get_str s j) b.c' c before, before))
    ]

    cons_others : (j : Key) → contains j (k ∷ ks) ≡ false → get_str r.t j ≡ get_str s j
    cons_others j h =
        let (other, rest) = or_false (index k == index j) (contains j ks) h in
        r.others j rest ∙ b.others j other

    cons_stays :
        Writable net nvs laws
        → (j : Key) → contains j (k ∷ ks) ≡ true
        → get_str r.t j ≡ some (kept net nvs laws j (get_str s j) c)
    cons_stays w j h = elim (Bool-cases (index k == index j)) [
      | inl same ↦
          subst (λ (i : Key). get_str r.t i ≡ some (kept net nvs laws i (get_str s i) c))
            (index-injective k j same) (r.others k once ∙ b.stays w)
      | inr other ↦
          let before : value j b.c' ≡ value j c = b.field_ j ∙ rw other in
          r.stays w j (rw other at h)
          ∙ rw (b.others j other, kept-value j (get_str s j) b.c' c before)
    ]

  pub loads :
      (ks : List Key) (c : DevConf) (s : Store)
      → Distinct net nvs laws ks
      → Fits net nvs laws ks s
      → Loads ks c s
  unfolding load_entries
  loads [] c s d f = record {
    c' = c;
    t = s;
    runs = refl;
    fields = λ j. refl;
    others = λ j h. refl;
    stays = λ w j h. cc;
  }
  loads (k ∷ ks) c s d f =
      let b : Block net nvs laws k c s = block net nvs laws k c s f.0 in
      let r : Loads ks b.c' b.t = loads ks b.c' b.t d.1 (Fits-other k ks s b.t d.0 b.others f.1) in
      record {
        c' = r.c';
        t = r.t;
        runs = rw (b.runs, load_entries) r.runs;
        fields = cons_fields k ks c s b r d.0;
        others = cons_others k ks c s b r d.0;
        stays = cons_stays k ks c s b r d.0;
      }
