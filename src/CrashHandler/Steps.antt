-- ===== src/CrashHandler/Steps.antt =====
-- Sequences of what happens to the record, over restarts.
use esp32_common.Common.{ℕ, refl, Bool, false, not, ◌&&◌, List, [], ◌∷◌, ◌==◌, inl, inr, Bool-cases}
use esp32_common.Common.Memory.{Bytes, same, codes}
use esp32_common.CrashHandler.Record.{Crash, crash_magic}
use esp32_common.CrashHandler.Handlers.{
  PanicInfo, wrap_esp_panic_handler, stack_overflow_hook, error_check_failed, boot_timer_callback,
  init_crash_info, clear_crash_info,
}
use esp32_common.CrashHandler.Check.{Device, check_last_crash, start_boot_timer, recover, is_crash}
use esp32_common.CrashHandler.Terminated.{
  IsSound, cleared-IsSound, same_strings, panic-IsSound, overflow-IsSound, check-IsSound,
  timer-IsSound, init-IsSound,
}

pub data Event : Type 0 where
  panics : PanicInfo → Event
  overflows : Bytes → Event
  check_fails : ℕ → ℕ → Bytes → Bytes → Event
  timer_expires : ℕ → Event
  inits : Bool → Event
  clears : Event
  boots : Bytes → Device → Event

unfoldable pub step : Event → Crash → Crash
step (panics info) r = wrap_esp_panic_handler info r
step (overflows name) r = stack_overflow_hook name r
step (check_fails code n file func) r = error_check_failed code n file func r
step (timer_expires now) r = boot_timer_callback now r
step (inits force) r = init_crash_info force r
step clears r = clear_crash_info r
step (boots file d) r = (check_last_crash file d r).1

unfoldable pub run : List Event → Crash → Crash
run [] r = r
run (e ∷ es) r = run es (step e r)

start-IsSound :
    (file : Bytes) (d : Device) (r : Crash) → IsSound r → IsSound (start_boot_timer file d r).1
unfolding start_boot_timer
start-IsSound file d r s = elim (Bool-cases (not (d.timer_create == 0))) [
  | inl failed ↦
      rw failed (check-IsSound d.timer_create 159 file (codes "checkLastCrash") r s.sizes)
  | inr created ↦ elim (Bool-cases (not (d.timer_start == 0))) [
    | inl failed ↦
        rw created
          (rw failed (check-IsSound d.timer_start 160 file (codes "checkLastCrash") r s.sizes))
    | inr started ↦ rw created (rw started s)
  ]
]

recover-IsSound : (file : Bytes) (d : Device) (r : Crash) → IsSound r → IsSound (recover file d r).1
unfolding recover
recover-IsSound file d r s =
    elim (Bool-cases (same d.running (codes "ota_0") && (d.has_recovery && (d.set_boot == 0)))) [
      | inl found ↦ rw found s
      | inr lost ↦
          rw lost (same_strings r (record r { boot_count = 0 }) s refl refl refl refl refl refl)
    ]

boot-IsSound :
    (file : Bytes) (d : Device) (r : Crash) → IsSound r → IsSound (check_last_crash file d r).1
unfolding check_last_crash
boot-IsSound file d r s =
    let ready = init-IsSound false r s in
    let t = init_crash_info false r in
    let noted : IsSound (record t { reset_reason = d.reset }) =
      same_strings t (record t { reset_reason = d.reset }) ready refl refl refl refl refl refl in
    elim (Bool-cases ((t.magic == crash_magic) && not (t.boot_count == 0))) [
      | inl counted ↦ elim (Bool-cases (is_crash d.reset)) [
        | inl crash ↦ rw counted (rw crash (recover-IsSound file d _ noted))
        | inr other ↦ rw counted (rw other (start-IsSound file d _ noted))
      ]
      | inr fresh ↦ rw fresh (start-IsSound file d t ready)
    ]

step-IsSound : (e : Event) (r : Crash) → IsSound r → IsSound (step e r)
unfolding step clear_crash_info
step-IsSound (panics info) r s = panic-IsSound info r s.sizes
step-IsSound (overflows name) r s = overflow-IsSound name r s.sizes
step-IsSound (check_fails code n file func) r s = check-IsSound code n file func r s.sizes
step-IsSound (timer_expires now) r s = timer-IsSound now r s
step-IsSound (inits force) r s = init-IsSound force r s
step-IsSound clears r s = cleared-IsSound
step-IsSound (boots file d) r s = boot-IsSound file d r s

-- From memory that is no valid record, or one whose strings end inside their arrays, every sequence
-- of panics, stack overflows, failed checks, expiries of the boot timer, initialisations and boots
-- leaves the arrays of the record at their sizes, and where the magic number is in place all five
-- strings that the crash log prints end inside their arrays.
run-IsSound : (es : List Event) (r : Crash) → IsSound r → IsSound (run es r)
unfolding run
run-IsSound [] r s = s
run-IsSound (e ∷ es) r s = run-IsSound es (step e r) (step-IsSound e r s)
