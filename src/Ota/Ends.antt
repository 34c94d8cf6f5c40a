-- ===== src/Ota/Ends.antt =====
-- An update ends.
use esp32_common.Common.{
  ℕ, zero, suc, ◌+◌, ◌-◌, ◌≤◌, ◌<◌, ◌≡◌, refl, ap, Bool, true, false, not, ◌&&◌, Option, none, some,
  List, [], ◌∷◌, ◌++◌, ◌==◌, if◌then◌else◌, length, length-append, arith, inl, inr, Bool-cases,
}
use esp32_common.Common.Memory.{Bytes}
use esp32_common.Ota.Task.{
  Partition, get_updateable_partition, Read, bytes, finished, failed, Env, Call, mqtt_destroy,
  client_init, ota_begin, client_cleanup, mqtt_start, strnstr, not_found_tag, Outcome, complete,
  stopped, endless, on_bytes, download, esp_fail, close_update, update, fits, transfer, session,
  with_partition, ota_task,
}
use esp32_common.Ota.Flash.{received}

-- A client that gives `n` bytes at most, and in each read that gives bytes at least one.
record Gives (read : ℕ → Read) (i n : ℕ) : Type 0 where
  at_most : (k : ℕ) → length (received read i k) ≤ n
  some_bytes : (j : ℕ) (b : Bytes) → read j ≡ bytes b → 0 < length b

abbrev is_endless : Outcome → Bool
is_endless endless = true
is_endless _ = false

bytes-ends :
    (env : Env) (i n : ℕ) (b : Bytes) (rest : List Call × Outcome)
    → is_endless rest.1 ≡ false
    → is_endless (on_bytes env i n b rest).1 ≡ false
unfolding on_bytes
bytes-ends env i n b rest h = elim (Bool-cases ((n == 0) && strnstr not_found_tag b)) [
  | inl missing ↦ rw missing refl
  | inr found ↦ elim (Bool-cases (env.write_err i == 0)) [
    | inl written ↦ rw found (rw written h)
    | inr full ↦ rw found (rw full refl)
  ]
]

download-ends :
    (env : Env) (fuel i n left : ℕ)
    → Gives env.read i left
    → left < fuel
    → is_endless (download env fuel i n).1 ≡ false
unfolding download
download-ends env zero i n left g h = absurd (omega arith)
download-ends env (suc fuel) i n left g h =
    go (env.read i) refl (λ m left. download-ends env fuel (suc i) m left)
  where
    closes : (c : Bool) → is_endless (if c then complete else stopped) ≡ false
    closes true = refl
    closes false = refl

    go :
        (r : Read)
        → env.read i ≡ r
        → ((m left : ℕ)
            → Gives env.read (suc i) left
            → left < fuel
            → is_endless (download env fuel (suc i) m).1 ≡ false)
        → is_endless
            (elim r as (λ r. List Call × Outcome) [
              | failed ↦ ([], stopped)
              | finished ↦ ([], if env.is_complete then complete else stopped)
              | bytes b ↦ on_bytes env i n b (download env fuel (suc i) (n + length b))
            ]).1
          ≡ false
    go failed e later = refl
    go finished e later = closes env.is_complete
    go (bytes b) e later =
        let size = g.some_bytes i b e in
        let first = part 0 in
        bytes-ends env i n b (download env fuel (suc i) (n + length b)) (
          later (n + length b) (left - length b)
            (record { at_most = λ k. let p = part k in omega arith; some_bytes = g.some_bytes })
            (omega arith))
      where
        part : (k : ℕ) → length b + length (received env.read (suc i) k) ≤ left
        part k =
            let whole =
              ap
                (λ (r : Read).
                  length (
                    elim r as (λ r. Bytes) [ bytes b ↦ b | _ ↦ [] ] ++ received env.read (suc i) k))
                e in
            let sum = length-append b (received env.read (suc i) k) in
            let most = g.at_most (suc k) in omega (arith, whole)

-- Whether the task returns.
abbrev pub returns : Option ℕ → Bool
returns none = false
returns (some ret) = true

close-returns :
    (env : Env) (e : Outcome) → is_endless e ≡ false → returns (close_update env e).1 ≡ true
unfolding close_update
close-returns env complete h = refl
close-returns env stopped h = refl
close-returns env endless h = cc

if-returns :
    (b : Bool) (r r' : List Call × Option ℕ)
    → returns r.1 ≡ true
    → returns r'.1 ≡ true
    → returns (if◌then◌else◌ {A = List Call × Option ℕ} b r r').1 ≡ true
if-returns true r r' p p' = p
if-returns false r r' p p' = p'

-- A client from which the download ends.
module _ (env : Env) (n fuel : ℕ) (g : Gives env.read 0 n) (h : n < fuel) where
  update-returns : (p : Partition) → returns (update fuel p env).1 ≡ true
  unfolding update
  update-returns p =
      let d = download env fuel 0 0 in
      let e = close_update env d.1 in
      if-returns (not (env.begin_err == 0)) ([], some esp_fail)
        (ota_begin p env.image_size ∷ (d.0 ++ e.0), e.1) refl
        (close-returns env d.1 (download-ends env fuel 0 0 n g h))

  transfer-returns : (p : Partition) → returns (transfer fuel p env).1 ≡ true
  unfolding transfer
  transfer-returns p =
      if-returns ((env.open_err == 0) && fits env.image_size p.size) (update fuel p env)
        ([], some esp_fail) (update-returns p) refl

  session-returns : (p : Partition) → returns (session fuel p env).1 ≡ true
  unfolding session
  session-returns p =
      let t = transfer fuel p env in
      if-returns (not env.client_made) ([], some esp_fail)
        (
          client_init
              ∷ (t.0
                  ++ elim t.1 as (λ o. List Call) [ none ↦ [] | some ret ↦ client_cleanup ∷ [] ]),
          t.1,
        )
        refl (transfer-returns p)

  with_partition-returns : (p : Partition) → returns (with_partition fuel p env).1 ≡ true
  unfolding with_partition
  with_partition-returns p =
      let s = session fuel p env in
      if-returns env.mqtt_client
        (
          mqtt_destroy
              ∷ (s.0 ++ elim s.1 as (λ o. List Call) [ none ↦ [] | some ret ↦ mqtt_start ∷ [] ]),
          s.1,
        )
        s (session-returns p) (session-returns p)

-- From a client that gives `n` bytes at most, and in each read that gives bytes at least one, `ota_task`
-- returns after `n + 1` rounds of the download loop at most.
pub ota_task-returns :
    (n : ℕ) (pname : Bytes) (running : ℕ) (ps : List Partition) (env : Env)
    → ((k : ℕ) → length (received env.read 0 k) ≤ n)
    → ((j : ℕ) (b : Bytes) → env.read j ≡ bytes b → 0 < length b)
    → returns (ota_task (suc n) pname running ps env).1 ≡ true
unfolding ota_task
ota_task-returns n pname running ps env most some_bytes =
    go (get_updateable_partition pname running ps)
  where
    go :
        (o : Option Partition)
        → returns
            (elim o as (λ o. List Call × Option ℕ) [
              | none ↦ ([], some esp_fail)
              | some p ↦ with_partition (suc n) p env
            ]).1
          ≡ true
    go none = refl
    go (some p) =
        with_partition-returns env n (suc n) (record { at_most = most; some_bytes = some_bytes })
          (omega arith) p
