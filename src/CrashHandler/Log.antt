-- ===== src/CrashHandler/Log.antt =====
-- `logCrashInfo` of utils/crash_handler.c, and what it shows of a panic behind the restarts after it.
use esp32_common.Common.{
  ℕ, suc, ◌-◌, ◌≡◌, refl, ap, ◌∙◌, Bool, true, false, not, if◌then◌else◌, ◌&&◌, Option, some, List,
  [], ◌∷◌, ◌==◌, length, take, arith, inl, inr, Bool-cases,
}
use esp32_common.Common.Memory.{Bytes, same, No, c_string, codes}
use esp32_common.CrashHandler.Strings.{
  crash_copy_string, emptied, crash_copy-strlcpy, c_string-strlcpy,
}
use esp32_common.CrashHandler.Record.{Crash, crash_magic, crash_none, crash_exception, IsRecord}
use esp32_common.CrashHandler.Handlers.{
  PanicInfo, wrap_esp_panic_handler, boot_timer_callback, init_crash_info,
}
use esp32_common.CrashHandler.Check.{Device, check_last_crash, start_boot_timer, recover, is_crash}
use esp32_common.CrashHandler.Steps.{
  Event, panics, overflows, check_fails, timer_expires, inits, clears, boots, step, run,
}

-- What `logCrashInfo` prints of a valid record with a crash, less the reason of the reset.
pub record Report : Type 0 where
  pub crash_type : ℕ
  pub crash_time : ℕ
  pub crash_hb : ℕ
  pub err : ℕ
  pub line : ℕ
  pub file : Bytes
  pub func : Bytes
  pub task : Bytes
  pub addr : ℕ
  pub exception : ℕ
  pub core : ℕ
  pub pseudo_excause : ℕ
  pub reason : Bytes
  pub description : Bytes

abbrev pub report : Crash → Report
report r = record {
  crash_type = r.crash_type;
  crash_time = r.crash_time;
  crash_hb = r.crash_hb;
  err = r.err;
  line = r.line;
  file = c_string r.file;
  func = c_string r.func;
  task = c_string r.task;
  addr = r.panic_addr;
  exception = r.panic_exception;
  core = r.panic_core;
  pseudo_excause = r.panic_pseudo_excause;
  reason = c_string r.panic_reason;
  description = c_string r.panic_description;
}

-- What `logCrashInfo` prints: a crash, the heart beat where there was none, or that the record is not
-- valid.
pub data CrashLog : Type 0 where
  crash_of : Report → CrashLog
  no_crash : ℕ → CrashLog
  invalid : CrashLog

unfoldable pub log_crash_info : Crash → CrashLog
log_crash_info r =
    if r.magic == crash_magic
    then if not (r.crash_type == crash_none) then crash_of (report r) else no_crash r.boot_hb
    else invalid

-- Events of a device that runs or restarts and records no new crash.
abbrev pub is_quiet : Event → Bool
is_quiet (timer_expires now) = true
is_quiet (inits false) = true
is_quiet (boots file d) = (d.timer_create == 0) && (d.timer_start == 0)
is_quiet _ = false

abbrev pub all_quiet : List Event → Bool
all_quiet [] = true
all_quiet (e ∷ es) = is_quiet e && all_quiet es

-- The record is valid and reports the same.
record Keeps (r t : Crash) : Type 0 where
  valid : t.magic ≡ crash_magic
  shows : report t ≡ report r

init-Keeps : (r : Crash) → r.magic ≡ crash_magic → Keeps r (init_crash_info false r)
unfolding init_crash_info
init-Keeps r v =
    let fits : (r.magic == crash_magic) ≡ true = ground arith in
    rw fits (record { valid = v; shows = refl })

start-Keeps :
    (file : Bytes) (d : Device) (r t : Crash)
    → (d.timer_create == 0) ≡ true
    → (d.timer_start == 0) ≡ true
    → Keeps r t
    → Keeps r (start_boot_timer file d t).1
unfolding start_boot_timer
start-Keeps file d r t created started k = rw created (rw started k)

recover-Keeps : (file : Bytes) (d : Device) (r t : Crash) → Keeps r t → Keeps r (recover file d t).1
unfolding recover
recover-Keeps file d r t k =
    elim (Bool-cases (same d.running (codes "ota_0") && (d.has_recovery && (d.set_boot == 0)))) [
      | inl found ↦ rw found k
      | inr lost ↦ rw lost (record { valid = k.valid; shows = k.shows })
    ]

boot-Keeps :
    (file : Bytes) (d : Device) (r : Crash)
    → (d.timer_create == 0) ≡ true
    → (d.timer_start == 0) ≡ true
    → r.magic ≡ crash_magic
    → Keeps r (check_last_crash file d r).1
unfolding check_last_crash
boot-Keeps file d r created started v =
    let ready = init-Keeps r v in
    let t = init_crash_info false r in
    let noted : Keeps r (record t { reset_reason = d.reset }) = record {
      valid = ready.valid;
      shows = ready.shows;
    } in
    elim (Bool-cases ((t.magic == crash_magic) && not (t.boot_count == 0))) [
      | inl counted ↦ elim (Bool-cases (is_crash d.reset)) [
        | inl crash ↦ rw counted (rw crash (recover-Keeps file d r _ noted))
        | inr other ↦ rw counted (rw other (start-Keeps file d r _ created started noted))
      ]
      | inr fresh ↦ rw fresh (start-Keeps file d r t created started ready)
    ]

step-Keeps :
    (e : Event) (r : Crash) → is_quiet e ≡ true → r.magic ≡ crash_magic → Keeps r (step e r)
unfolding step boot_timer_callback
step-Keeps (timer_expires now) r q v = record { valid = v; shows = refl }
step-Keeps (inits false) r q v = init-Keeps r v
step-Keeps (inits true) r q v = absurd cc
step-Keeps (boots file d) r q v = boot-Keeps file d r (ground arith) (ground arith) v
step-Keeps (panics info) r q v = absurd cc
step-Keeps (overflows name) r q v = absurd cc
step-Keeps (check_fails code n file func) r q v = absurd cc
step-Keeps clears r q v = absurd cc

run-Keeps :
    (es : List Event) (r : Crash) → all_quiet es ≡ true → r.magic ≡ crash_magic → Keeps r (run es r)
unfolding run
run-Keeps [] r q v = record { valid = v; shows = refl }
run-Keeps (e ∷ es) r q v =
    let k = step-Keeps e r (ground arith) v in
    let later = run-Keeps es (step e r) (ground arith) k.valid in
    record { valid = later.valid; shows = later.shows ∙ k.shows }

-- The log of a record that reports an exception.
log-exception :
    (r t : Crash)
    → Keeps r t
    → r.crash_type ≡ crash_exception
    → log_crash_info t ≡ crash_of (report r)
unfolding log_crash_info
log-exception r t k e =
    let v : (t.magic == crash_magic) ≡ true = let m = k.valid in ground arith in
    let same_type : t.crash_type ≡ crash_exception =
      ap (λ (p : Report). p.crash_type) k.shows ∙ e in
    let crashed : (t.crash_type == crash_none) ≡ false = ground arith in
    rw v (rw crashed (ap crash_of k.shows))

copied :
    (dst text : Bytes) (src : Option Bytes) (n : ℕ)
    → length dst ≡ suc n
    → src ≡ some text
    → No 0 text
    → c_string (crash_copy_string dst src) ≡ take n text
copied dst text src n size e h =
    let room : length dst - 1 ≡ n = omega arith in
    rw e (rw (crash_copy-strlcpy dst text) (rw room at (c_string-strlcpy dst text h)))

c_string-emptied : (b : Bytes) → c_string (emptied b) ≡ []
unfolding emptied
c_string-emptied [] = refl
c_string-emptied (c ∷ cs) = refl

-- The report of a panic.
abbrev pub panic_shown : PanicInfo → ℕ → ℕ → Bytes → Bytes → Report
panic_shown info time beat reason description = record {
  crash_type = crash_exception;
  crash_time = time;
  crash_hb = beat;
  err = 0;
  line = 0;
  file = [];
  func = [];
  task = [];
  addr = info.addr;
  exception = info.exception;
  core = info.core;
  pseudo_excause = info.pseudo_excause;
  reason = take 31 reason;
  description = take 63 description;
}

pub panic-log :
    (info : PanicInfo) (r : Crash) (reason description : Bytes) (es : List Event)
    → IsRecord r
    → info.reason ≡ some reason
    → info.description ≡ some description
    → No 0 reason
    → No 0 description
    → all_quiet es ≡ true
    → log_crash_info (run (panics info ∷ es) r)
      ≡ crash_of (panic_shown info r.boot_time r.boot_hb reason description)
unfolding run step wrap_esp_panic_handler
panic-log info r reason description es s i j p q quiet =
    log-exception (wrap_esp_panic_handler info r) (run es (wrap_esp_panic_handler info r))
      (run-Keeps es (wrap_esp_panic_handler info r) quiet refl) refl
    ∙ (λ k. crash_of (record (report (wrap_esp_panic_handler info r)) {
      file = c_string-emptied r.file k;
      func = c_string-emptied r.func k;
      task = c_string-emptied r.task k;
      reason = copied r.panic_reason reason info.reason 31 s.reason_size i p k;
      description =
          copied r.panic_description description info.description 63 s.description_size j q k;
    }))
