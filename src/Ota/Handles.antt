-- ===== src/Ota/Handles.antt =====
-- The order of the calls: every handle is given back, once.
use esp32_common.Common.{
  ℕ, zero, suc, ◌+◌, ◌≡◌, refl, ap, ◌∙◌, Bool, true, false, not, ◌&&◌, Option, none, some, List, [],
  ◌∷◌, ◌++◌, ◌==◌, if◌then◌else◌, length, inl, inr, Bool-cases,
}
use esp32_common.Common.Memory.{Bytes}
use esp32_common.Ota.Task.{
  Partition, get_updateable_partition, Read, bytes, finished, failed, Env, Call, mqtt_destroy,
  client_init, ota_begin, ota_write, ota_end, ota_abort, client_cleanup, mqtt_start, strnstr,
  not_found_tag, Outcome, complete, stopped, endless, on_bytes, download, close_update, update,
  fits, transfer, session, with_partition, ota_task, esp_fail,
}

-- What the task holds: the HTTP client, the handle of the update, and the MQTT client.
pub record Held : Type 0 where
  pub has_client : Bool
  pub has_update : Bool
  pub has_mqtt : Bool

-- A call where it may be made, and what it changes.
abbrev pub allow : Bool → Held → Option Held
allow true h = some h
allow false h = none

abbrev pub make : Call → Held → Option Held
make mqtt_destroy h = allow h.has_mqtt (record h { has_mqtt = false })
make client_init h = allow (not h.has_client) (record h { has_client = true })
make (ota_begin p size) h =
    allow (h.has_client && not h.has_update) (record h { has_update = true })
make (ota_write b) h = allow h.has_update h
make ota_end h = allow h.has_update (record h { has_update = false })
make ota_abort h = allow h.has_update (record h { has_update = false })
make client_cleanup h = allow (h.has_client && not h.has_update) (record h { has_client = false })
make mqtt_start h = allow (not h.has_mqtt) (record h { has_mqtt = true })

abbrev pub after : (Held → Option Held) → Option Held → Option Held
after f none = none
after f (some h) = f h

-- The calls in their order; `none` where one of them may not be made.
pub make_all : List Call → Held → Option Held
make_all [] h = some h
make_all (c ∷ cs) h = after (make_all cs) (make c h)

make_all-append :
    (cs ds : List Call) (h h' : Held)
    → make_all cs h ≡ some h'
    → make_all (cs ++ ds) h ≡ make_all ds h'
unfolding make_all
make_all-append [] ds h h' e = ap (after (make_all ds)) e
make_all-append (c ∷ cs) ds h h' e = go (make c h) (λ k. make_all-append cs ds k h') e
  where
    go :
        (o : Option Held)
        → ((k : Held) → make_all cs k ≡ some h' → make_all (cs ++ ds) k ≡ make_all ds h')
        → after (make_all cs) o ≡ some h'
        → after (make_all (cs ++ ds)) o ≡ make_all ds h'
    go none later e = cc
    go (some k) later e = later k e

-- The task with all that it may hold, or without the update.
abbrev updating : Bool → Held
updating mqtt = record { has_client = true; has_update = true; has_mqtt = mqtt }

abbrev connected : Bool → Held
connected mqtt = record { has_client = true; has_update = false; has_mqtt = mqtt }

abbrev pub without : Bool → Held
without mqtt = record { has_client = false; has_update = false; has_mqtt = mqtt }

bytes-held :
    (mqtt : Bool) (env : Env) (i n : ℕ) (b : Bytes) (rest : List Call × Outcome)
    → make_all rest.0 (updating mqtt) ≡ some (updating mqtt)
    → make_all (on_bytes env i n b rest).0 (updating mqtt) ≡ some (updating mqtt)
unfolding on_bytes make_all
bytes-held mqtt env i n b rest h = elim (Bool-cases ((n == 0) && strnstr not_found_tag b)) [
  | inl missing ↦ rw missing refl
  | inr found ↦ elim (Bool-cases (env.write_err i == 0)) [
    | inl written ↦ rw found (rw written h)
    | inr full ↦ rw found (rw full refl)
  ]
]

download-held :
    (mqtt : Bool) (env : Env) (fuel i n : ℕ)
    → make_all (download env fuel i n).0 (updating mqtt) ≡ some (updating mqtt)
unfolding download make_all
download-held mqtt env zero i n = refl
download-held mqtt env (suc fuel) i n = go (env.read i) (λ m. download-held mqtt env fuel (suc i) m)
  where
    go :
        (r : Read)
        → ((m : ℕ)
            → make_all (download env fuel (suc i) m).0 (updating mqtt) ≡ some (updating mqtt))
        → make_all
            (elim r as (λ r. List Call × Outcome) [
              | failed ↦ ([], stopped)
              | finished ↦ ([], if env.is_complete then complete else stopped)
              | bytes b ↦ on_bytes env i n b (download env fuel (suc i) (n + length b))
            ]).0
            (updating mqtt)
          ≡ some (updating mqtt)
    go failed later = refl
    go finished later = refl
    go (bytes b) later =
        bytes-held mqtt env i n b (download env fuel (suc i) (n + length b)) (later (n + length b))

-- A part of the task that gives back what it takes, where it returns.
abbrev Balanced : Held → List Call × Option ℕ → Type 0
Balanced h r = (ret : ℕ) → r.1 ≡ some ret → make_all r.0 h ≡ some h

close-Balanced :
    (mqtt : Bool) (env : Env) (e : Outcome) (ret : ℕ)
    → (close_update env e).1 ≡ some ret
    → make_all (close_update env e).0 (updating mqtt) ≡ some (connected mqtt)
unfolding close_update make_all
close-Balanced mqtt env complete ret h = refl
close-Balanced mqtt env stopped ret h = refl
close-Balanced mqtt env endless ret h = cc

update-Balanced :
    (mqtt : Bool) (fuel : ℕ) (p : Partition) (env : Env)
    → Balanced (connected mqtt) (update fuel p env)
unfolding update make_all
update-Balanced mqtt fuel p env = elim (Bool-cases (env.begin_err == 0)) [
  | inr fails ↦ rw fails (λ ret h. refl)
  | inl begins ↦
      let d = download env fuel 0 0 in
      rw begins (λ ret h.
        make_all-append d.0 (close_update env d.1).0 (updating mqtt) (updating mqtt)
          (download-held mqtt env fuel 0 0)
        ∙ close-Balanced mqtt env d.1 ret h)
]

transfer-Balanced :
    (mqtt : Bool) (fuel : ℕ) (p : Partition) (env : Env)
    → Balanced (connected mqtt) (transfer fuel p env)
unfolding transfer make_all
transfer-Balanced mqtt fuel p env =
    elim (Bool-cases ((env.open_err == 0) && fits env.image_size p.size)) [
      | inr fails ↦ rw fails (λ ret h. refl)
      | inl opens ↦ rw opens (update-Balanced mqtt fuel p env)
    ]

-- A part that is followed by a call where it returns.
followed :
    (c : Call) (h h' : Held) (r : List Call × Option ℕ) (ret : ℕ)
    → Balanced h r
    → r.1 ≡ some ret
    → make c h ≡ some h'
    → make_all (r.0 ++ elim r.1 as (λ o. List Call) [ none ↦ [] | some ret ↦ c ∷ [] ]) h ≡ some h'
unfolding make_all
followed c h h' r ret balanced returns made =
    let calls : List Call = r.0 in
    ap
      (λ (o : Option ℕ).
        make_all (calls ++ elim o as (λ o. List Call) [ none ↦ [] | some ret ↦ c ∷ [] ]) h)
      returns
    ∙ (make_all-append calls (c ∷ []) h h (balanced ret returns) ∙ ap (after (make_all [])) made)

if-Balanced :
    (b : Bool) (h : Held) (r r' : List Call × Option ℕ)
    → Balanced h r
    → Balanced h r'
    → Balanced h (if b then r else r')
if-Balanced true h r r' p p' = p
if-Balanced false h r r' p p' = p'

session-Balanced :
    (mqtt : Bool) (fuel : ℕ) (p : Partition) (env : Env)
    → Balanced (without mqtt) (session fuel p env)
unfolding session make_all
session-Balanced mqtt fuel p env =
    let t = transfer fuel p env in
    if-Balanced (not env.client_made) (without mqtt) ([], some esp_fail)
      (
        client_init
            ∷ (t.0 ++ elim t.1 as (λ o. List Call) [ none ↦ [] | some ret ↦ client_cleanup ∷ [] ]),
        t.1,
      )
      (λ ret h. refl)
      (λ ret h.
        followed client_cleanup (connected mqtt) (without mqtt) t ret
          (transfer-Balanced mqtt fuel p env) h refl)

with_partition-Balanced :
    (fuel : ℕ) (p : Partition) (env : Env)
    → Balanced (without env.mqtt_client) (with_partition fuel p env)
unfolding with_partition make_all
with_partition-Balanced fuel p env = go env.mqtt_client
  where
    go :
        (mqtt : Bool)
        → Balanced (without mqtt) (
            if mqtt
            then (
              mqtt_destroy
                  ∷ ((session fuel p env).0 ++ elim (session fuel p env).1 as (λ o. List Call) [
                    | none ↦ []
                    | some ret ↦ mqtt_start ∷ []
                  ]),
              (session fuel p env).1,
            )
            else session fuel p env)
    go true = λ ret h.
        followed mqtt_start (without false) (without true) (session fuel p env) ret
          (session-Balanced false fuel p env) h refl
    go false = session-Balanced false fuel p env

-- Whatever the server, the client and the flash answer, and for every length of the download: where
-- `ota_task` returns, each of its calls was made where it may be, and what it holds is what it held
-- before: the update that was begun was ended or aborted once, the HTTP client was cleaned up, and the
-- MQTT client runs exactly if it ran before, where `mqtt_start` starts it.
pub ota_task-balanced :
    (fuel : ℕ) (pname : Bytes) (running : ℕ) (ps : List Partition) (env : Env) (ret : ℕ)
    → (ota_task fuel pname running ps env).1 ≡ some ret
    → make_all (ota_task fuel pname running ps env).0 (without env.mqtt_client)
      ≡ some (without env.mqtt_client)
unfolding ota_task make_all
ota_task-balanced fuel pname running ps env ret returns =
    go (get_updateable_partition pname running ps) ret returns
  where
    go :
        (o : Option Partition)
        → Balanced
            (without env.mqtt_client)
            (elim o [ none ↦ ([], some esp_fail) | some p ↦ with_partition fuel p env ])
    go none = λ ret h. refl
    go (some p) = with_partition-Balanced fuel p env
