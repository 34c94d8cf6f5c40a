-- ===== src/SystemCmd/Console.antt =====
-- The console state that `nvs_conf` takes over from the storage.
use esp32_common.Common.{
  ℕ, suc, ◌+◌, ◌≡◌, refl, ap, ◌∙◌, Bool, true, false, Option, none, some, List, [], ◌∷◌, ◌++◌, ltb,
  ◌==◌, if◌then◌else◌, length, arith, Bool-cases, Option-cases, inl, inr,
}
use esp32_common.Common.Int.{ℤ, eq_ℤ, eq_ℤ-true}
use esp32_common.Common.Memory.{Bytes}
use esp32_common.Common.Decimal.{atoi}
use esp32_common.NvsConf.Conf.{Key, console, index, DevConf}
use esp32_common.NvsConf.Load.{Nvs, IsNvs}
use esp32_common.NvsConf.Fields.{index-injective}
use esp32_common.SystemCmd.Names.{settable, named}
use esp32_common.SystemCmd.Settings.{
  NvsArgs, Opens, NvsEvent, failed, invalid, shown, restarted, shown_size, take_state, show,
  store_value, store_named, store_args, show_text, show_entry, show_entries, show_all, nvs_conf,
}

-- How often the console entry occurs.
abbrev pub consoles : List Key → ℕ
consoles [] = 0
consoles (k ∷ ks) = if index k == index console then suc (consoles ks) else consoles ks

-- The states that the network log is set up with.
abbrev pub restarts : List NvsEvent → List ℤ
restarts [] = []
restarts (restarted cs ∷ es) = cs ∷ restarts es
restarts (failed k ∷ es) = restarts es
restarts (invalid v ∷ es) = restarts es
restarts (shown k v ∷ es) = restarts es

restarts-append : (xs ys : List NvsEvent) → restarts (xs ++ ys) ≡ restarts xs ++ restarts ys
restarts-append [] ys = refl
restarts-append (restarted cs ∷ xs) ys = ap (λ (l : List ℤ). cs ∷ l) (restarts-append xs ys)
restarts-append (failed k ∷ xs) ys = restarts-append xs ys
restarts-append (invalid v ∷ xs) ys = restarts-append xs ys
restarts-append (shown k v ∷ xs) ys = restarts-append xs ys

append_nil : (xs : List ℤ) → xs ++ [] ≡ xs
append_nil [] = refl
append_nil (x ∷ xs) = ap (λ (l : List ℤ). x ∷ l) (append_nil xs)

-- The state goes from the one of `c` to `cs`, with a new set-up of the network log if it differs.
pub record Takes (cs : ℤ) (c : DevConf) (r : DevConf × List NvsEvent) : Type 0 where
  pub state : r.0 ≡ record c { cs = cs }
  pub calls : restarts r.1 ≡ (if eq_ℤ c.cs cs then [] else cs ∷ [])

-- Nothing is taken over.
record Keeps (c : DevConf) (r : DevConf × List NvsEvent) : Type 0 where
  state : r.0 ≡ c
  calls : restarts r.1 ≡ []

take_state-Takes : (cs : ℤ) (c : DevConf) → Takes cs c (take_state cs c)
unfolding take_state
take_state-Takes cs c = elim (Bool-cases (eq_ℤ c.cs cs)) [
  | inl same ↦ record {
    state = rw same (ap (λ (z : ℤ). record c { cs = z }) (eq_ℤ-true c.cs cs same));
    calls = rw same;
  }
  | inr other ↦ record { state = rw other; calls = rw other }
]

show-Takes :
    (k : Key) (b : Bytes) (c : DevConf)
    → (index k == index console) ≡ true
    → Takes (atoi b) c (show k b c)
unfolding show
show-Takes k b c e =
    rw e (let t = take_state-Takes (atoi b) c in record { state = t.state; calls = t.calls })

show-Keeps :
    (k : Key) (b : Bytes) (c : DevConf) → (index k == index console) ≡ false → Keeps c (show k b c)
unfolding show
show-Keeps k b c e = rw e (record { state = refl; calls = refl })

module _ (nvs : Nvs) (laws : IsNvs nvs) (entries : nvs.Store → List Key) where
  open nvs use {Store, get_len, get_str, set_str}

  show_entry-Keeps :
      (k : Key) (s : Store) (c : DevConf)
      → (index k == index console) ≡ false
      → Keeps c (show_entry nvs entries k s c)
  unfolding show_entry show_text
  show_entry-Keeps k s c e = elim (Option-cases (get_len s k)) [
    | inl missing ↦ rw (missing, show_entry) (record { state = refl; calls = refl })
    | inr (sz, found) ↦
        rw (found, show_entry)
          (elim (Bool-cases (ltb sz shown_size)) [
            | inl short ↦ rw short (text (get_str s k))
            | inr long ↦ rw long (record { state = refl; calls = refl })
          ])
  ]
    where
      text : (o : Option Bytes) → Keeps c (show_text nvs entries k o c)
      text none = record { state = refl; calls = refl }
      text (some b) = show-Keeps k b c e

  show_entries-Keeps :
      (ks : List Key) (s : Store) (c : DevConf)
      → consoles ks ≡ 0
      → Keeps c (show_entries nvs entries ks s c)
  unfolding show_entries
  show_entries-Keeps [] s c e = record { state = refl; calls = refl }
  show_entries-Keeps (k ∷ ks) s c e = elim (Bool-cases (index k == index console)) [
    | inl same ↦ absurd (let p = rw same at e in ground arith)
    | inr other ↦
        let r = show_entry nvs entries k s c in
        let first = show_entry-Keeps k s c other in
        let rest = show_entries-Keeps ks s r.0 (rw other at e) in
        record {
          state = rest.state ∙ first.state;
          calls =
              restarts-append r.1 (show_entries nvs entries ks s r.0).1
              ∙ rw (first.calls, rest.calls);
        }
  ]

  show_entry-Takes :
      (k : Key) (v : Bytes) (s : Store) (c : DevConf)
      → (index k == index console) ≡ true
      → get_str s console ≡ some v
      → ltb (length v + 1) shown_size ≡ true
      → Takes (atoi v) c (show_entry nvs entries k s c)
  unfolding show_entry show_text
  show_entry-Takes k v s c e found short =
      let text : get_str s k ≡ some v = ap (get_str s) (index-injective k console e) ∙ found in
      rw (laws.len_lem s k, show_entry)
        (rw text (rw short (rw (text, show_text) (show-Takes k v c e))))

  show_entries-Takes :
      (ks : List Key) (v : Bytes) (s : Store) (c : DevConf)
      → consoles ks ≡ 1
      → get_str s console ≡ some v
      → ltb (length v + 1) shown_size ≡ true
      → Takes (atoi v) c (show_entries nvs entries ks s c)
  unfolding show_entries
  show_entries-Takes [] v s c e found short = absurd (let p = e in ground arith)
  show_entries-Takes (k ∷ ks) v s c e found short = elim (Bool-cases (index k == index console)) [
    | inl same ↦
        let r = show_entry nvs entries k s c in
        let first = show_entry-Takes k v s c same found short in
        let rest = show_entries-Keeps ks s r.0 (let p = rw same at e in ground arith) in
        record {
          state = rest.state ∙ first.state;
          calls =
              restarts-append r.1 (show_entries nvs entries ks s r.0).1
              ∙ ap (λ (l : List ℤ). restarts r.1 ++ l) rest.calls
              ∙ append_nil (restarts r.1)
              ∙ first.calls;
        }
    | inr other ↦
        let r = show_entry nvs entries k s c in
        let first = show_entry-Keeps k s c other in
        let rest = show_entries-Takes ks v s r.0 (rw other at e) found short in
        record {
          state = rest.state ∙ ap (λ (d : DevConf). record d { cs = atoi v }) first.state;
          calls =
              restarts-append r.1 (show_entries nvs entries ks s r.0).1
              ∙ ap (λ (l : List ℤ). l ++ restarts (show_entries nvs entries ks s r.0).1) first.calls
              ∙ rest.calls
              ∙ ap (λ (d : DevConf). if eq_ℤ d.cs (atoi v) then [] else atoi v ∷ []) first.state;
        }
  ]

  store_value_quiet :
      (opened : Bool) (k : Key) (v : Bytes) (s : Store)
      → restarts (store_value nvs entries opened k v s).1 ≡ []
  unfolding store_value
  store_value_quiet false k v s = refl
  store_value_quiet true k v s = elim (Option-cases (set_str s k v)) [
    | inl refused ↦ rw refused
    | inr (t, done) ↦ rw done
  ]

  store_args_quiet :
      (opened : Bool) (key val : Option Bytes) (s : Store)
      → restarts (store_args nvs entries opened key val s).1 ≡ []
  unfolding store_args store_named
  store_args_quiet opened none val s = refl
  store_args_quiet opened (some text) none s = refl
  store_args_quiet opened (some text) (some v) s = elim (Option-cases (named text settable)) [
    | inl unknown ↦ rw (unknown, store_args, store_named)
    | inr (k, known) ↦ rw (known, store_args, store_named) (store_value_quiet opened k v s)
  ]

  -- A run that lists the entries, where the storage it leaves gives the console entry once, with a
  -- text `v` of at most 30 characters: the state that `v` reads as is taken over and nothing else of
  -- the configuration changes, and the network log is set up again once if the state was another
  -- one, and else not at all.
  pub nvs_conf-Takes :
      (o : Opens) (a : NvsArgs) (v : Bytes) (c : DevConf) (s : Store)
      → o.partition ≡ true
      → o.reading ≡ true
      → consoles (entries (nvs_conf nvs entries o a c s).1) ≡ 1
      → get_str (nvs_conf nvs entries o a c s).1 console ≡ some v
      → ltb (length v + 1) shown_size ≡ true
      → Takes (atoi v) c ((nvs_conf nvs entries o a c s).0, (nvs_conf nvs entries o a c s).2)
  unfolding nvs_conf show_all
  nvs_conf-Takes o a v c s p r once found short =
      let w = store_args nvs entries o.writing a.key a.val s in
      let t = show_entries-Takes (entries w.0) v w.0 c (rw p at once) (rw p at found) short in
      rw p (
        rw r (record {
          state = t.state;
          calls =
              restarts-append w.1 (show_entries nvs entries (entries w.0) w.0 c).1
              ∙ ap (λ (l : List ℤ). l ++ restarts (show_entries nvs entries (entries w.0) w.0 c).1)
                  (store_args_quiet o.writing a.key a.val s)
              ∙ t.calls;
        }))
