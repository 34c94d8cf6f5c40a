-- ===== src/Ota/Task.antt =====
-- `get_updateable_partition` and `ota_task` of utils/ota.c, with what the HTTP client and the flash
-- answer as input, and the calls that change something as output.
use esp32_common.Common.{
  ℕ, zero, suc, ◌+◌, ◌-◌, ◌^◌, Bool, true, false, not, ◌&&◌, ◌||◌, Option, none, some, List, [],
  ◌∷◌, ◌++◌, ltb, leb, ◌==◌, if◌then◌else◌, length,
}
use esp32_common.Common.Int.{ℤ, pos, negsuc}
use esp32_common.Common.Memory.{Bytes, codes, same}

-- A partition of the type APP; the address tells them apart.
pub record Partition : Type 0 where
  pub label : Bytes
  pub address : ℕ
  pub size : ℕ

-- The loop over the partitions, with the address of the one that runs.
unfoldable pub get_updateable_partition : Bytes → ℕ → List Partition → Option Partition
get_updateable_partition plabel running [] = none
get_updateable_partition plabel running (p ∷ ps) =
    if same p.label plabel && not (p.address == running)
    then some p
    else get_updateable_partition plabel running ps

-- What a call of `esp_http_client_read` returns: bytes, 0, or an error.
pub data Read : Type 0 where
  bytes : Bytes → Read
  finished failed : Read

-- What the task meets. Error codes are 0 for ESP_OK; `image_size` is what
-- `esp_http_client_fetch_headers` returns.
pub record Env : Type 0 where
  pub mqtt_client : Bool
  pub client_made : Bool
  pub open_err : ℕ
  pub image_size : ℤ
  pub begin_err : ℕ
  pub read : ℕ → Read
  pub write_err : ℕ → ℕ
  pub is_complete : Bool
  pub end_err : ℕ

-- The calls; `ota_begin` is one that succeeds, for a partition and the size of the image.
pub data Call : Type 0 where
  mqtt_destroy client_init : Call
  ota_begin : Partition → ℤ → Call
  ota_write : Bytes → Call
  ota_end ota_abort client_cleanup mqtt_start : Call

unfoldable pub starts_with : Bytes → Bytes → Bool
starts_with [] s = true
starts_with (t ∷ ts) [] = false
starts_with (t ∷ ts) (c ∷ cs) = (t == c) && starts_with ts cs

-- Whether `strnstr` finds the tag in the bytes, up to a NUL.
unfoldable pub strnstr : Bytes → Bytes → Bool
strnstr tag [] = starts_with tag []
strnstr tag (c ∷ cs) = starts_with tag (c ∷ cs) || (not (c == 0) && strnstr tag cs)

abbrev pub not_found_tag : Bytes
not_found_tag = codes "404 Not Found"

-- How the download loop ends. `endless` is a loop that the server keeps busy for longer than the fuel.
pub data Outcome : Type 0 where
  complete stopped endless : Outcome

-- The bytes of read `i` of the loop, with the rounds behind them.
unfoldable pub on_bytes : Env → ℕ → ℕ → Bytes → List Call × Outcome → List Call × Outcome
on_bytes env i binary_read b rest =
    if (binary_read == 0) && strnstr not_found_tag b
    then ([], stopped)
    else if env.write_err i == 0
    then (ota_write b ∷ rest.0, rest.1)
    else (ota_write b ∷ [], stopped)

-- The loop, with the number of the next read and the count of bytes read.
unfoldable pub download : Env → ℕ → ℕ → ℕ → List Call × Outcome
download env zero i binary_read = ([], endless)
download env (suc fuel) i binary_read = elim (env.read i) [
  | failed ↦ ([], stopped)
  | finished ↦ ([], if env.is_complete then complete else stopped)
  | bytes b ↦ on_bytes env i binary_read b (download env fuel (suc i) (binary_read + length b))
]

abbrev pub esp_ok : ℕ
esp_ok = 0

-- -1 as a 32-bit pattern.
abbrev pub esp_fail : ℕ
esp_fail = 2 ^ 32 - 1

-- Behind the loop: the end or the abort of the update. `none` is a task that does not return.
unfoldable pub close_update : Env → Outcome → List Call × Option ℕ
close_update env complete = (ota_end ∷ [], some (if env.end_err == 0 then esp_ok else esp_fail))
close_update env stopped = (ota_abort ∷ [], some esp_fail)
close_update env endless = ([], none)

-- From `esp_ota_begin`.
unfoldable pub update : ℕ → Partition → Env → List Call × Option ℕ
update fuel p env =
    if not (env.begin_err == 0)
    then ([], some esp_fail)
    else let d = download env fuel 0 0 in
      let e = close_update env d.1 in (ota_begin p env.image_size ∷ (d.0 ++ e.0), e.1)

-- Whether the size that the server reports is positive and fits the partition.
unfoldable pub fits : ℤ → ℕ → Bool
fits (pos n) size = ltb 0 n && leb n size
fits (negsuc n) size = false

-- With a connection.
unfoldable pub transfer : ℕ → Partition → Env → List Call × Option ℕ
transfer fuel p env =
    if (env.open_err == 0) && fits env.image_size p.size
    then update fuel p env
    else ([], some esp_fail)

-- With a client, which is cleaned up.
unfoldable pub session : ℕ → Partition → Env → List Call × Option ℕ
session fuel p env =
    if not env.client_made
    then ([], some esp_fail)
    else let t = transfer fuel p env in
      (client_init ∷ (t.0 ++ elim t.1 [ none ↦ [] | some ret ↦ client_cleanup ∷ [] ]), t.1)

-- With a partition: the MQTT client is destroyed first and started again at the end.
unfoldable pub with_partition : ℕ → Partition → Env → List Call × Option ℕ
with_partition fuel p env =
    let s = session fuel p env in
    if env.mqtt_client
    then (mqtt_destroy ∷ (s.0 ++ elim s.1 [ none ↦ [] | some ret ↦ mqtt_start ∷ [] ]), s.1)
    else s

unfoldable pub ota_task : ℕ → Bytes → ℕ → List Partition → Env → List Call × Option ℕ
ota_task fuel pname running ps env = elim (get_updateable_partition pname running ps) [
  | none ↦ ([], some esp_fail)
  | some p ↦ with_partition fuel p env
]
