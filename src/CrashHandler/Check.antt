-- ===== src/CrashHandler/Check.antt =====
-- `checkLastCrash` of utils/crash_handler.c: the decision of a boot.
use esp32_common.Common.{ℕ, Bool, true, false, not, ◌&&◌, ◌==◌, if◌then◌else◌}
use esp32_common.Common.Memory.{Bytes, same, codes}
use esp32_common.CrashHandler.Record.{
  Crash, Reset, esp_rst_panic, esp_rst_int_wdt, esp_rst_task_wdt, esp_rst_wdt, esp_rst_cpu_lockup,
  other_reset, crash_magic,
}
use esp32_common.CrashHandler.Handlers.{init_crash_info, error_check_failed}

-- What the call finds on the device, by the results of the calls it makes. Codes are 0 for ESP_OK.
pub record Device : Type 0 where
  pub reset : Reset  -- esp_reset_reason
  pub running : Bytes  -- the label of esp_ota_get_running_partition
  pub has_recovery : Bool  -- esp_partition_find_first
  pub set_boot : ℕ  -- esp_ota_set_boot_partition
  pub timer_create : ℕ
  pub timer_start : ℕ

-- How the call ends: it returns with the boot timer running, it restarts, with or without the
-- recovery partition set for the next boot, or a failed check of the timer aborts.
pub data Boot : Type 0 where
  runs into_recovery restarts aborts : Boot

abbrev pub is_crash : Reset → Bool
is_crash esp_rst_panic = true
is_crash esp_rst_int_wdt = true
is_crash esp_rst_task_wdt = true
is_crash esp_rst_wdt = true
is_crash esp_rst_cpu_lockup = true
is_crash (other_reset n) = false

module _ (at_file : Bytes) (d : Device) where
  abbrev at_func : Bytes
  at_func = codes "checkLastCrash"

  -- The two checked calls of the timer.
  unfoldable pub start_boot_timer : Crash → Boot × Crash
  start_boot_timer r =
      if not (d.timer_create == 0)
      then (aborts, error_check_failed d.timer_create 159 at_file at_func r)
      else if not (d.timer_start == 0)
      then (aborts, error_check_failed d.timer_start 160 at_file at_func r)
      else (runs, r)

  -- A crash was the reason of the restart.
  unfoldable pub recover : Crash → Boot × Crash
  recover r =
      if same d.running (codes "ota_0") && (d.has_recovery && (d.set_boot == 0))
      then (into_recovery, r)
      else (restarts, record r { boot_count = 0 })

  unfoldable pub check_last_crash : Crash → Boot × Crash
  check_last_crash r₀ =
      let r = init_crash_info false r₀ in
      let noted : Crash = record r { reset_reason = d.reset } in
      if (r.magic == crash_magic) && not (r.boot_count == 0)
      then if is_crash d.reset then recover noted else start_boot_timer noted
      else start_boot_timer r
