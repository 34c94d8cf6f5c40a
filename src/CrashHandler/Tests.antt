-- ===== src/CrashHandler/Tests.antt =====
-- A panic, restarts, and a record with a count of boots.
use esp32_common.Common.{◌≡◌, refl, true, false, some, [], ◌∷◌, take, replicate, arith}
use esp32_common.Common.Memory.{codes}
use esp32_common.CrashHandler.Strings.{crash_copy_string, strlcpy, crash_copy-strlcpy}
use esp32_common.CrashHandler.Record.{Crash, esp_rst_panic, crash_exception, cleared}
use esp32_common.CrashHandler.Handlers.{PanicInfo, init_crash_info}
use esp32_common.CrashHandler.Check.{
  Device, runs, into_recovery, check_last_crash, recover, start_boot_timer,
}
use esp32_common.CrashHandler.Terminated.{IsSound}
use esp32_common.CrashHandler.Steps.{panics, timer_expires, boots, run}
use esp32_common.CrashHandler.Log.{log_crash_info, crash_of, no_crash}
use esp32_common.CrashHandler.Reported.{expiries, panic-report}
use esp32_common.CrashHandler.Boots.{by_timer, run-boot, restarts-once}

crash_copy-strlcpy_example :
    crash_copy_string (replicate 4 9) (some (1 ∷ 2 ∷ 3 ∷ 4 ∷ []))
    ≡ strlcpy (replicate 4 9) (1 ∷ 2 ∷ 3 ∷ 4 ∷ [])
crash_copy-strlcpy_example = crash_copy-strlcpy (replicate 4 9) (1 ∷ 2 ∷ 3 ∷ 4 ∷ [])

abbrev device : Device
device = record {
  reset = esp_rst_panic;
  running = codes "ota_0";
  has_recovery = true;
  set_boot = 0;
  timer_create = 0;
  timer_start = 0;
}

-- Memory after power on, without the magic number.
abbrev garbage : Crash
garbage = record cleared {
  magic = 5;
  boot_count = 77;
  boot_time = 12;
  boot_hb = 3;
  task = replicate 16 9;
}

garbage-IsSound : IsSound garbage
garbage-IsSound = record {
  sizes = record {
    file_size = refl;
    func_size = refl;
    task_size = refl;
    reason_size = refl;
    description_size = refl;
  };
  ends = λ valid. absurd (omega arith);
}

abbrev load_fault : PanicInfo
load_fault = record {
  exception = 1;
  addr = 0x40080000;
  core = 0;
  pseudo_excause = 0;
  reason = some (codes "Load access fault");
  description = some (codes "Exception was unhandled.");
}

garbage_goes : (check_last_crash [] device garbage).0 ≡ runs
unfolding check_last_crash init_crash_info start_boot_timer
garbage_goes = refl

-- The timer expires at 40 and 50 before the panic, and again behind the restart.
panic-report_example :
    log_crash_info (
      run
        (boots [] device
          ∷ expiries (40 ∷ 50 ∷ []) (panics load_fault ∷ boots [] device ∷ timer_expires 60 ∷ []))
        garbage)
    ≡ crash_of (record {
      crash_type = crash_exception;
      crash_time = 50;
      crash_hb = 2;
      err = 0;
      line = 0;
      file = [];
      func = [];
      task = [];
      addr = 0x40080000;
      exception = 1;
      core = 0;
      pseudo_excause = 0;
      reason = take 31 (codes "Load access fault");
      description = take 63 (codes "Exception was unhandled.");
    })
panic-report_example =
    panic-report [] device (40 ∷ 50 ∷ []) load_fault garbage (codes "Load access fault")
      (codes "Exception was unhandled.") (boots [] device ∷ timer_expires 60 ∷ [])
      garbage-IsSound.sizes garbage_goes refl refl (omega arith) (omega arith) refl

no_crash_logged : log_crash_info cleared ≡ no_crash 0
unfolding log_crash_info
no_crash_logged = refl

run-boot_example :
    ((run (panics load_fault ∷ boots [] device ∷ []) cleared).boot_count ≡ 0)
    × ((check_last_crash [] device (run (panics load_fault ∷ boots [] device ∷ []) cleared)).0
        ≡ by_timer device)
run-boot_example = run-boot (panics load_fault ∷ boots [] device ∷ []) [] device

-- A count of boots, which code outside the repository may set.
abbrev counted : Crash
counted = record cleared { boot_count = 2 }

counted_recovers : (check_last_crash [] device counted).0 ≡ into_recovery
unfolding check_last_crash init_crash_info recover
counted_recovers = refl

abbrev no_recovery : Device
no_recovery = record device { has_recovery = false }

restarts-once_example :
    (check_last_crash [] device (check_last_crash [] no_recovery counted).1).0 ≡ by_timer device
unfolding check_last_crash init_crash_info recover
restarts-once_example = restarts-once [] no_recovery device counted refl
