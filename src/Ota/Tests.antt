-- ===== src/Ota/Tests.antt =====
-- An image of two reads.
use esp32_common.Common.{
  ℕ, zero, suc, ◌≤◌, ◌<◌, ◌≡◌, refl, ap, true, some, List, [], ◌∷◌, ◌++◌, length, arith,
}
use esp32_common.Common.Int.{pos}
use esp32_common.Common.Memory.{Bytes, codes}
use esp32_common.Ota.Task.{
  Partition, get_updateable_partition, Read, bytes, finished, Env, client_init, ota_begin,
  ota_write, ota_end, client_cleanup, mqtt_destroy, mqtt_start, on_bytes, download, esp_fail,
  close_update, update, fits, transfer, session, with_partition, ota_task, strnstr, starts_with,
}
use esp32_common.Ota.Handles.{make_all, without, ota_task-balanced}
use esp32_common.Ota.Flash.{received}
use esp32_common.Ota.Ends.{returns, ota_task-returns}

abbrev two_reads : ℕ → Read
two_reads zero = bytes (1 ∷ 2 ∷ 3 ∷ [])
two_reads (suc zero) = bytes (4 ∷ 5 ∷ [])
two_reads (suc (suc i)) = finished

abbrev good_server : Env
good_server = record {
  mqtt_client = true;
  client_made = true;
  open_err = 0;
  image_size = pos 5;
  begin_err = 0;
  read = two_reads;
  write_err = λ i. 0;
  is_complete = true;
  end_err = 0;
}

abbrev parts : List Partition
parts =
    record { label = codes "ota_0"; address = 65536; size = 100 }
    ∷ record { label = codes "ota_1"; address = 131072; size = 100 }
    ∷ []

image_written : ota_task 9 (codes "ota_1") 65536 parts good_server ≡ (
  mqtt_destroy
      ∷ client_init
      ∷ ota_begin (record { label = codes "ota_1"; address = 131072; size = 100 }) (pos 5)
      ∷ ota_write (1 ∷ 2 ∷ 3 ∷ [])
      ∷ ota_write (4 ∷ 5 ∷ [])
      ∷ ota_end
      ∷ client_cleanup
      ∷ mqtt_start
      ∷ [],
  some 0,
)
unfolding ota_task get_updateable_partition with_partition session transfer fits update download
    on_bytes strnstr starts_with close_update
image_written = refl

-- The partition that runs is not written.
running_kept : ota_task 9 (codes "ota_0") 65536 parts good_server ≡ ([], some esp_fail)
unfolding ota_task get_updateable_partition
running_kept = refl

-- A page that says so in place of an image.
abbrev no_image : Env
no_image = record good_server { read = λ i. bytes (codes "<html>404 Not Found</html>") }

ota_task-balanced_example :
    make_all (ota_task 9 (codes "ota_1") 65536 parts no_image).0 (without true)
    ≡ some (without true)
unfolding ota_task get_updateable_partition with_partition session transfer fits update download
    on_bytes strnstr starts_with close_update
ota_task-balanced_example = ota_task-balanced 9 (codes "ota_1") 65536 parts no_image esp_fail refl

nothing_more : (k i : ℕ) → received two_reads (suc (suc i)) k ≡ []
unfolding received
nothing_more zero i = refl
nothing_more (suc k) i = nothing_more k (suc i)

at_most_five : (k : ℕ) → length (received two_reads 0 k) ≤ 5
unfolding received
at_most_five zero = omega arith
at_most_five (suc zero) = omega arith
at_most_five (suc (suc k)) =
    let e =
      ap (λ (t : Bytes). length ((1 ∷ 2 ∷ 3 ∷ []) ++ ((4 ∷ 5 ∷ []) ++ t))) (nothing_more k 0) in
    omega (arith, e)

size_of : Read → ℕ
size_of (bytes b) = length b
size_of _ = 1

some_in_each : (j : ℕ) (b : Bytes) → two_reads j ≡ bytes b → 0 < length b
unfolding size_of
some_in_each zero b e = let s : 3 ≡ length b = ap size_of e in omega arith
some_in_each (suc zero) b e = let s : 2 ≡ length b = ap size_of e in omega arith
some_in_each (suc (suc j)) b e = absurd (cc)

ota_task-returns_example : returns (ota_task 6 (codes "ota_1") 65536 parts good_server).1 ≡ true
ota_task-returns_example =
    ota_task-returns 5 (codes "ota_1") 65536 parts good_server at_most_five some_in_each
