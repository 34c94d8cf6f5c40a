-- ===== src/CrashHandler/Record.antt =====
-- `crash_record_t` of utils/crash_handler.h: the record that survives a restart.
use esp32_common.Common.{ℕ, ◌≡◌, length, replicate}
use esp32_common.Common.Memory.{Bytes}

-- `esp_reset_reason_t`: the reasons that the code names, and any other by its number.
pub data Reset : Type 0 where
  esp_rst_panic esp_rst_int_wdt esp_rst_task_wdt esp_rst_wdt esp_rst_cpu_lockup : Reset
  other_reset : ℕ → Reset

-- `crash_type_t`, by its numbers.
abbrev pub crash_none : ℕ
crash_none = 0

abbrev pub crash_abort : ℕ
crash_abort = 1

abbrev pub crash_exception : ℕ
crash_exception = 2

abbrev pub crash_stack_overflow : ℕ
crash_stack_overflow = 3

abbrev pub crash_magic : ℕ
crash_magic = 0x43525348

pub record Crash : Type 0 where
  pub magic : ℕ
  pub boot_count : ℕ
  pub crash_time : ℕ
  pub boot_time : ℕ
  pub crash_hb : ℕ
  pub boot_hb : ℕ
  pub reset_reason : Reset
  pub err : ℕ
  pub crash_type : ℕ
  pub line : ℕ
  pub file : Bytes
  pub func : Bytes
  pub task : Bytes
  pub panic_core : ℕ
  pub panic_exception : ℕ
  pub panic_pseudo_excause : ℕ
  pub panic_addr : ℕ
  pub panic_reason : Bytes
  pub panic_description : Bytes

-- `memset` of the record to 0, with the magic number.
abbrev pub cleared : Crash
cleared = record {
  magic = crash_magic;
  boot_count = 0;
  crash_time = 0;
  boot_time = 0;
  crash_hb = 0;
  boot_hb = 0;
  reset_reason = other_reset 0;
  err = 0;
  crash_type = crash_none;
  line = 0;
  file = replicate 32 0;
  func = replicate 32 0;
  task = replicate 16 0;
  panic_core = 0;
  panic_exception = 0;
  panic_pseudo_excause = 0;
  panic_addr = 0;
  panic_reason = replicate 32 0;
  panic_description = replicate 64 0;
}

-- The arrays have their declared sizes.
pub record IsRecord (r : Crash) : Type 0 where
  pub file_size : length r.file ≡ 32
  pub func_size : length r.func ≡ 32
  pub task_size : length r.task ≡ 16
  pub reason_size : length r.panic_reason ≡ 32
  pub description_size : length r.panic_description ≡ 64
