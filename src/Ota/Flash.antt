-- ===== src/Ota/Flash.antt =====
-- What the calls of an update write to the flash, and which partitions they begin with.
use mathlib.Core.List.{append_assoc}
use esp32_common.Common.{
  ℕ, zero, suc, ◌+◌, ◌≡◌, refl, ap, sym, ◌∙◌, Bool, true, false, ◌&&◌, List, [], ◌∷◌, ◌++◌, ◌==◌,
  if◌then◌else◌, length, arith,
}
use esp32_common.Common.Int.{ℤ}
use esp32_common.Common.Memory.{Bytes}
use esp32_common.Ota.Task.{
  Partition, Read, bytes, finished, failed, Env, Call, mqtt_destroy, client_init, ota_begin,
  ota_write, ota_end, ota_abort, client_cleanup, mqtt_start, strnstr, not_found_tag, Outcome,
  complete, stopped, on_bytes, download,
}

-- The bytes of `k` reads from the read `i` on.
abbrev pub received : (ℕ → Read) → ℕ → ℕ → Bytes
received read i zero = []
received read i (suc k) = elim (read i) [ bytes b ↦ b | _ ↦ [] ] ++ received read (suc i) k

-- The bytes that calls write to the flash.
abbrev pub written : List Call → Bytes
written [] = []
written (ota_write b ∷ cs) = b ++ written cs
written (c ∷ cs) = written cs

pub written-append : (cs ds : List Call) → written (cs ++ ds) ≡ written cs ++ written ds
written-append [] ds = refl
written-append (ota_write b ∷ cs) ds =
    ap (λ (t : Bytes). b ++ t) (written-append cs ds)
    ∙ sym (append_assoc b (written cs) (written ds))
written-append (mqtt_destroy ∷ cs) ds = written-append cs ds
written-append (client_init ∷ cs) ds = written-append cs ds
written-append (ota_begin p size ∷ cs) ds = written-append cs ds
written-append (ota_end ∷ cs) ds = written-append cs ds
written-append (ota_abort ∷ cs) ds = written-append cs ds
written-append (client_cleanup ∷ cs) ds = written-append cs ds
written-append (mqtt_start ∷ cs) ds = written-append cs ds

-- What the server has sent when a download from the read `i` on is complete.
pub record Whole (env : Env) (i : ℕ) (image : Bytes) : Type 0 where
  pub reads : ℕ
  pub all : image ≡ received env.read i reads
  pub ends : env.read (i + reads) ≡ finished
  pub closed : env.is_complete ≡ true

-- Bytes after which the download is complete were written.
bytes-complete :
    (env : Env) (i n : ℕ) (b : Bytes) (rest : List Call × Outcome)
    → (on_bytes env i n b rest).1 ≡ complete
    → (rest.1 ≡ complete) × (written (on_bytes env i n b rest).0 ≡ b ++ written rest.0)
unfolding on_bytes
bytes-complete env i n b rest = go ((n == 0) && strnstr not_found_tag b) (env.write_err i == 0)
  where
    chosen : Bool → Bool → List Call × Outcome
    chosen missing works =
        if missing
        then ([], stopped)
        else if works
        then (ota_write b ∷ rest.0, rest.1)
        else (ota_write b ∷ [], stopped)

    go :
        (missing works : Bool)
        → (chosen missing works).1 ≡ complete
        → (rest.1 ≡ complete) × (written (chosen missing works).0 ≡ b ++ written rest.0)
    go true works h = absurd (cc)
    go false true h = (h, refl)
    go false false h = absurd (cc)

pub download-Whole :
    (env : Env) (fuel i n : ℕ)
    → (download env fuel i n).1 ≡ complete
    → Whole env i (written (download env fuel i n).0)
unfolding download
download-Whole env zero i n h = cc
download-Whole env (suc fuel) i n h =
    go (env.read i) refl (λ m. download-Whole env fuel (suc i) m) h
  where
    round : Read → List Call × Outcome
    round r = elim r [
      | failed ↦ ([], stopped)
      | finished ↦ ([], if env.is_complete then complete else stopped)
      | bytes b ↦ on_bytes env i n b (download env fuel (suc i) (n + length b))
    ]

    is_closed : (c : Bool) → (if c then complete else stopped) ≡ complete → c ≡ true
    is_closed true h = refl
    is_closed false h = absurd (cc)

    go :
        (r : Read)
        → env.read i ≡ r
        → ((m : ℕ)
            → (download env fuel (suc i) m).1 ≡ complete
            → Whole env (suc i) (written (download env fuel (suc i) m).0))
        → (round r).1 ≡ complete
        → Whole env i (written (round r).0)
    go failed e later h = absurd (cc)
    go finished e later h = record {
      reads = 0;
      all = refl;
      ends = let first : i + 0 ≡ i = omega arith in ap env.read first ∙ e;
      closed = is_closed env.is_complete h;
    }
    go (bytes b) e later h =
        let rest = download env fuel (suc i) (n + length b) in
        let c = bytes-complete env i n b rest h in
        let w = later (n + length b) c.0 in
        let next : i + suc w.reads ≡ suc i + w.reads = omega arith in
        record {
          reads = suc w.reads;
          all =
              c.1
              ∙ (ap (λ (t : Bytes). b ++ t) w.all
                  ∙ ap
                      (λ (r : Read).
                        elim r as (λ r. Bytes) [ bytes b ↦ b | _ ↦ [] ]
                        ++ received env.read (suc i) w.reads)
                      (sym e));
          ends = ap env.read next ∙ w.ends;
          closed = w.closed;
        }

-- The partitions for which calls begin an update, with the size of the image.
abbrev pub begun : List Call → List (Partition × ℤ)
begun [] = []
begun (ota_begin p size ∷ cs) = (p, size) ∷ begun cs
begun (c ∷ cs) = begun cs

pub begun-append : (cs ds : List Call) → begun (cs ++ ds) ≡ begun cs ++ begun ds
begun-append [] ds = refl
begun-append (ota_begin p size ∷ cs) ds =
    ap (λ (t : List (Partition × ℤ)). (p, size) ∷ t) (begun-append cs ds)
begun-append (ota_write b ∷ cs) ds = begun-append cs ds
begun-append (mqtt_destroy ∷ cs) ds = begun-append cs ds
begun-append (client_init ∷ cs) ds = begun-append cs ds
begun-append (ota_end ∷ cs) ds = begun-append cs ds
begun-append (ota_abort ∷ cs) ds = begun-append cs ds
begun-append (client_cleanup ∷ cs) ds = begun-append cs ds
begun-append (mqtt_start ∷ cs) ds = begun-append cs ds

bytes-begun :
    (env : Env) (i n : ℕ) (b : Bytes) (rest : List Call × Outcome)
    → begun rest.0 ≡ []
    → begun (on_bytes env i n b rest).0 ≡ []
unfolding on_bytes
bytes-begun env i n b rest e = go ((n == 0) && strnstr not_found_tag b) (env.write_err i == 0)
  where
    chosen : Bool → Bool → List Call × Outcome
    chosen missing works =
        if missing
        then ([], stopped)
        else if works
        then (ota_write b ∷ rest.0, rest.1)
        else (ota_write b ∷ [], stopped)

    go : (missing works : Bool) → begun (chosen missing works).0 ≡ []
    go true works = refl
    go false true = e
    go false false = refl

-- The download loop begins no update.
pub download-begun : (env : Env) (fuel i n : ℕ) → begun (download env fuel i n).0 ≡ []
unfolding download
download-begun env zero i n = refl
download-begun env (suc fuel) i n = go (env.read i) (λ m. download-begun env fuel (suc i) m)
  where
    round : Read → List Call × Outcome
    round r = elim r [
      | failed ↦ ([], stopped)
      | finished ↦ ([], if env.is_complete then complete else stopped)
      | bytes b ↦ on_bytes env i n b (download env fuel (suc i) (n + length b))
    ]

    go :
        (r : Read) → ((m : ℕ) → begun (download env fuel (suc i) m).0 ≡ []) → begun (round r).0 ≡ []
    go failed later = refl
    go finished later = refl
    go (bytes b) later =
        bytes-begun env i n b (download env fuel (suc i) (n + length b)) (later (n + length b))
