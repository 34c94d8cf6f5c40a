-- ===== src/CrashHandler/Reported.antt =====
-- What the crash log shows of a panic: the time and the heart beat since the boot before it.
use esp32_common.Common.{
  ℕ, suc, ◌≡◌, ◌≢◌, refl, ◌∙◌, ◌+◌, ◌%◌, ◌^◌, ◌<◌, ap, sym, true, false, not, ◌&&◌, some, List, [],
  ◌∷◌, ◌==◌, length, arith, inl, inr, Bool-cases,
}
use esp32_common.Common.Memory.{Bytes, same, No, codes}
use esp32_common.CrashHandler.Record.{Crash, crash_magic, IsRecord}
use esp32_common.CrashHandler.Handlers.{PanicInfo, boot_timer_callback, init_crash_info}
use esp32_common.CrashHandler.Check.{
  Device, check_last_crash, runs, start_boot_timer, recover, is_crash,
}
use esp32_common.CrashHandler.Steps.{Event, panics, timer_expires, boots, step, run}
use esp32_common.CrashHandler.Log.{crash_of, log_crash_info, all_quiet, panic_shown, panic-log}

-- The boot timer expires at these times.
abbrev pub expiries : List ℕ → List Event → List Event
expiries [] es = es
expiries (now ∷ nows) es = timer_expires now ∷ expiries nows es

abbrev pub last_of : ℕ → List ℕ → ℕ
last_of now [] = now
last_of now (later ∷ nows) = last_of later nows

expiries-log :
    (nows : List ℕ) (info : PanicInfo) (r : Crash) (reason description : Bytes) (es : List Event)
    → IsRecord r
    → r.boot_hb < 2 ^ 32
    → info.reason ≡ some reason
    → info.description ≡ some description
    → No 0 reason
    → No 0 description
    → all_quiet es ≡ true
    → log_crash_info (run (expiries nows (panics info ∷ es)) r)
      ≡ crash_of (
          panic_shown info
            (last_of r.boot_time nows)
            ((r.boot_hb + length nows) % 2 ^ 32)
            reason
            description)
unfolding run step boot_timer_callback
expiries-log [] info r reason description es s b i j p q quiet =
    let none : (r.boot_hb + 0) % 2 ^ 32 ≡ r.boot_hb = omega arith in
    panic-log info r reason description es s i j p q quiet
    ∙ ap (λ (n : ℕ). crash_of (panic_shown info r.boot_time n reason description)) (sym none)
expiries-log (now ∷ nows) info r reason description es s b i j p q quiet =
    let beat : ((r.boot_hb + 1) % 2 ^ 32 + length nows) % 2 ^ 32
        ≡ (r.boot_hb + suc (length nows)) % 2 ^ 32 =
      omega arith in
    expiries-log nows info (boot_timer_callback now r) reason description es
      (record {
        file_size = s.file_size;
        func_size = s.func_size;
        task_size = s.task_size;
        reason_size = s.reason_size;
        description_size = s.description_size;
      })
      (omega arith) i j p q quiet
    ∙ ap (λ (n : ℕ). crash_of (panic_shown info (last_of now nows) n reason description)) beat

-- A record behind a boot that goes on: no expiry yet.
record Fresh (r : Crash) : Type 0 where
  sizes : IsRecord r
  no_time : r.boot_time ≡ 0
  no_beat : r.boot_hb ≡ 0

init-Fresh : (r : Crash) → IsRecord r → Fresh (init_crash_info false r)
unfolding init_crash_info
init-Fresh r s = elim (Bool-cases (not (r.magic == crash_magic))) [
  | inl first ↦ rw first (record {
    sizes = record {
      file_size = refl;
      func_size = refl;
      task_size = refl;
      reason_size = refl;
      description_size = refl;
    };
    no_time = refl;
    no_beat = refl;
  })
  | inr again ↦ rw again (record {
    sizes = record {
      file_size = s.file_size;
      func_size = s.func_size;
      task_size = s.task_size;
      reason_size = s.reason_size;
      description_size = s.description_size;
    };
    no_time = refl;
    no_beat = refl;
  })
]

start-Fresh :
    (file : Bytes) (d : Device) (r : Crash)
    → Fresh r
    → (start_boot_timer file d r).0 ≡ runs
    → Fresh (start_boot_timer file d r).1
unfolding start_boot_timer
start-Fresh file d r f = elim (Bool-cases (not (d.timer_create == 0))) [
  | inl failed ↦ rw failed (λ h. absurd cc)
  | inr created ↦ elim (Bool-cases (not (d.timer_start == 0))) [
    | inl failed ↦ rw created (rw failed (λ h. absurd cc))
    | inr started ↦ rw created (rw started (λ h. f))
  ]
]

recover-restarts : (file : Bytes) (d : Device) (r : Crash) → (recover file d r).0 ≢ runs
unfolding recover
recover-restarts file d r =
    elim (Bool-cases (same d.running (codes "ota_0") && (d.has_recovery && (d.set_boot == 0)))) [
      | inl found ↦ rw found (λ h. cc)
      | inr lost ↦ rw lost (λ h. cc)
    ]

boot-Fresh :
    (file : Bytes) (d : Device) (r : Crash)
    → IsRecord r
    → (check_last_crash file d r).0 ≡ runs
    → Fresh (check_last_crash file d r).1
unfolding check_last_crash
boot-Fresh file d r s =
    let ready = init-Fresh r s in
    let t = init_crash_info false r in
    let noted : Fresh (record t { reset_reason = d.reset }) = record {
      sizes = record {
        file_size = ready.sizes.file_size;
        func_size = ready.sizes.func_size;
        task_size = ready.sizes.task_size;
        reason_size = ready.sizes.reason_size;
        description_size = ready.sizes.description_size;
      };
      no_time = ready.no_time;
      no_beat = ready.no_beat;
    } in
    elim (Bool-cases ((t.magic == crash_magic) && not (t.boot_count == 0))) [
      | inl counted ↦ elim (Bool-cases (is_crash d.reset)) [
        | inl crash ↦ rw counted (rw crash (λ h. absurd (recover-restarts file d _ h)))
        | inr other ↦ rw counted (rw other (start-Fresh file d _ noted))
      ]
      | inr fresh ↦ rw fresh (start-Fresh file d t ready)
    ]

-- A boot goes on, the boot timer then expires at some times, and a panic with a reason and a
-- description follows. However often the device restarts and the timer expires from there without a
-- new crash, the crash log shows an exception with the values that the panic handler was given, the
-- first 31 and 63 bytes of the two texts, and as time and heart beat those of the boot with the panic:
-- the time of the last expiry before it, or 0 if there was none, and the number of the expiries.
pub panic-report :
    (file : Bytes) (d : Device) (nows : List ℕ) (info : PanicInfo) (r : Crash)
    (reason description : Bytes) (es : List Event)
    → IsRecord r
    → (check_last_crash file d r).0 ≡ runs
    → info.reason ≡ some reason
    → info.description ≡ some description
    → No 0 reason
    → No 0 description
    → all_quiet es ≡ true
    → log_crash_info (run (boots file d ∷ expiries nows (panics info ∷ es)) r)
      ≡ crash_of (panic_shown info (last_of 0 nows) (length nows % 2 ^ 32) reason description)
unfolding run step
panic-report file d nows info r reason description es s goes i j p q quiet =
    let t = (check_last_crash file d r).1 in
    let f = boot-Fresh file d r s goes in
    let beat : (t.boot_hb + length nows) % 2 ^ 32 ≡ length nows % 2 ^ 32 =
      let e = f.no_beat in rw e (ap (λ (n : ℕ). n % 2 ^ 32) (omega arith)) in
    expiries-log nows info t reason description es f.sizes (let e = f.no_beat in omega arith) i j p
      q quiet
    ∙ (ap
          (λ (n : ℕ). crash_of (
            panic_shown info (last_of n nows) ((t.boot_hb + length nows) % 2 ^ 32) reason
              description))
          f.no_time
        ∙ ap (λ (n : ℕ). crash_of (panic_shown info (last_of 0 nows) n reason description)) beat)
