-- ===== src/CrashHandler/Boots.antt =====
-- When a boot restarts the device.
use esp32_common.Common.{
  ◌≡◌, ◌≢◌, refl, sym, ◌∙◌, Bool, false, not, ◌&&◌, ◌||◌, List, [], ◌∷◌, ◌==◌, if◌then◌else◌, arith,
  inl, inr, Bool-cases,
}
use esp32_common.Common.Memory.{Bytes, same, codes}
use esp32_common.CrashHandler.Record.{Crash, crash_magic, cleared}
use esp32_common.CrashHandler.Handlers.{
  wrap_esp_panic_handler, stack_overflow_hook, error_check_failed, boot_timer_callback,
  init_crash_info, clear_crash_info,
}
use esp32_common.CrashHandler.Check.{
  Device, Boot, runs, into_recovery, restarts, aborts, check_last_crash, start_boot_timer, recover,
  is_crash,
}
use esp32_common.CrashHandler.Steps.{
  Event, panics, overflows, check_fails, timer_expires, inits, clears, boots, step, run,
}

-- A valid record that counts no boot.
record IsUncounted (r : Crash) : Type 0 where
  valid : r.magic ≡ crash_magic
  count : r.boot_count ≡ 0

-- The end of a boot that is left to the timer.
abbrev pub by_timer : Device → Boot
by_timer d = if (d.timer_create == 0) && (d.timer_start == 0) then runs else aborts

start_end : (file : Bytes) (d : Device) (r : Crash) → (start_boot_timer file d r).0 ≡ by_timer d
unfolding start_boot_timer
start_end file d r = ground arith

start-Uncounted :
    (file : Bytes) (d : Device) (r : Crash)
    → IsUncounted r
    → IsUncounted (start_boot_timer file d r).1
unfolding start_boot_timer error_check_failed
start-Uncounted file d r u = elim (Bool-cases (not (d.timer_create == 0))) [
  | inl failed ↦ rw failed (record { valid = refl; count = u.count })
  | inr created ↦ elim (Bool-cases (not (d.timer_start == 0))) [
    | inl failed ↦ rw created (rw failed (record { valid = refl; count = u.count }))
    | inr started ↦ rw created (rw started u)
  ]
]

init-Uncounted : (force : Bool) (r : Crash) → IsUncounted r → IsUncounted (init_crash_info force r)
unfolding init_crash_info
init-Uncounted force r u = elim (Bool-cases (force || not (r.magic == crash_magic))) [
  | inl fresh ↦ rw fresh (record { valid = refl; count = refl })
  | inr kept ↦ rw kept (record { valid = u.valid; count = u.count })
]

-- The boot of a record that counts no boot.
boot-Uncounted :
    (file : Bytes) (d : Device) (r : Crash)
    → IsUncounted r
    → ((check_last_crash file d r).0 ≡ by_timer d) × IsUncounted (check_last_crash file d r).1
unfolding check_last_crash
boot-Uncounted file d r u =
    let ready = init-Uncounted false r u in
    let t = init_crash_info false r in
    let fresh : ((t.magic == crash_magic) && not (t.boot_count == 0)) ≡ false =
      let c : t.boot_count ≡ 0 = ready.count in ground arith in
    (rw fresh (start_end file d t), rw fresh (start-Uncounted file d t ready))

step-Uncounted : (e : Event) (r : Crash) → IsUncounted r → IsUncounted (step e r)
unfolding step wrap_esp_panic_handler stack_overflow_hook error_check_failed boot_timer_callback
    clear_crash_info
step-Uncounted (panics info) r u = record { valid = refl; count = u.count }
step-Uncounted (overflows name) r u = record { valid = refl; count = u.count }
step-Uncounted (check_fails code n file func) r u = record { valid = refl; count = u.count }
step-Uncounted (timer_expires now) r u = record { valid = u.valid; count = refl }
step-Uncounted (inits force) r u = init-Uncounted force r u
step-Uncounted clears r u = record { valid = refl; count = refl }
step-Uncounted (boots file d) r u = (boot-Uncounted file d r u).1

run-Uncounted : (es : List Event) (r : Crash) → IsUncounted r → IsUncounted (run es r)
unfolding run
run-Uncounted [] r u = u
run-Uncounted (e ∷ es) r u = run-Uncounted es (step e r) (step-Uncounted e r u)

-- From an initialised record, whatever panics, stack overflows, failed checks, restarts and expiries
-- of the timer follow, the count of boots stays 0, and no boot switches to the recovery partition or
-- restarts: it returns if the calls of the timer succeed, and else aborts.
pub run-boot :
    (es : List Event) (file : Bytes) (d : Device)
    → ((run es cleared).boot_count ≡ 0)
      × ((check_last_crash file d (run es cleared)).0 ≡ by_timer d)
run-boot es file d =
    let u = run-Uncounted es cleared (record { valid = refl; count = refl }) in
    (u.count, (boot-Uncounted file d (run es cleared) u).0)

timer-restarts : (d : Device) → by_timer d ≢ restarts
timer-restarts d e = elim (Bool-cases ((d.timer_create == 0) && (d.timer_start == 0))) [
  | inl ok ↦ absurd (cc)
  | inr failed ↦ absurd (cc)
]

recover-Uncounted :
    (file : Bytes) (d : Device) (r : Crash)
    → r.magic ≡ crash_magic
    → (recover file d r).0 ≡ restarts
    → IsUncounted (recover file d r).1
unfolding recover
recover-Uncounted file d r v e =
    elim (Bool-cases (same d.running (codes "ota_0") && (d.has_recovery && (d.set_boot == 0)))) [
      | inl found ↦ absurd (let bad : into_recovery ≡ restarts = rw found at e in cc)
      | inr lost ↦ rw lost (record { valid = v; count = refl })
    ]

restarts-Uncounted :
    (file : Bytes) (d : Device) (r : Crash)
    → (check_last_crash file d r).0 ≡ restarts
    → IsUncounted (check_last_crash file d r).1
unfolding check_last_crash
restarts-Uncounted file d r e =
    let t = init_crash_info false r in
    let noted : Crash = record t { reset_reason = d.reset } in
    elim (Bool-cases ((t.magic == crash_magic) && not (t.boot_count == 0))) [
      | inl counted ↦ elim (Bool-cases (is_crash d.reset)) [
        | inl crash ↦
            let v : t.magic ≡ crash_magic = ground arith in
            let ended : (recover file d noted).0 ≡ restarts = rw counted at (rw crash at e) in
            rw counted (rw crash (recover-Uncounted file d noted v ended))
        | inr other ↦
            let ended : (start_boot_timer file d noted).0 ≡ restarts =
              rw counted at (rw other at e) in
            absurd (timer-restarts d (sym (start_end file d noted) ∙ ended))
      ]
      | inr fresh ↦
          let ended : (start_boot_timer file d t).0 ≡ restarts = rw fresh at e in
          absurd (timer-restarts d (sym (start_end file d t) ∙ ended))
    ]

-- A boot that ends in a restart without the recovery partition clears the count, so the next boot,
-- on whatever it finds, does not restart again on its own account: it is left to the timer.
pub restarts-once :
    (file : Bytes) (d d' : Device) (r : Crash)
    → (check_last_crash file d r).0 ≡ restarts
    → (check_last_crash file d' (check_last_crash file d r).1).0 ≡ by_timer d'
restarts-once file d d' r e =
    (boot-Uncounted file d' (check_last_crash file d r).1 (restarts-Uncounted file d r e)).0
