-- ===== src/CrashHandler/Handlers.antt =====
-- The handlers that write the crash record: the panic wrapper, the stack overflow hook, the failure
-- branch of CRASH_ERROR_CHECK, the boot timer, and the set-up of the record.
use esp32_common.Common.{ℕ, ◌+◌, ◌%◌, ◌^◌, Bool, not, ◌||◌, Option, some, ◌==◌, if◌then◌else◌}
use esp32_common.Common.Memory.{Bytes, codes}
use esp32_common.CrashHandler.Strings.{crash_copy_string, emptied, strlcpy, strlcat}
use esp32_common.CrashHandler.Record.{
  Crash, other_reset, crash_magic, crash_abort, crash_exception, crash_stack_overflow, cleared,
}

-- What the code reads of `panic_info_t`.
pub record PanicInfo : Type 0 where
  pub exception : ℕ
  pub addr : ℕ
  pub core : ℕ
  pub pseudo_excause : ℕ
  pub reason : Option Bytes
  pub description : Option Bytes

-- `__wrap_esp_panic_handler`, up to the call of the handler that it wraps.
unfoldable pub wrap_esp_panic_handler : PanicInfo → Crash → Crash
wrap_esp_panic_handler info r = record r {
  reset_reason = other_reset 0;
  err = 0;
  line = 0;
  file = emptied r.file;
  func = emptied r.func;
  task = emptied r.task;
  crash_time = r.boot_time;
  crash_hb = r.boot_hb;
  crash_type = crash_exception;
  panic_exception = info.exception;
  panic_addr = info.addr;
  panic_core = info.core;
  panic_pseudo_excause = info.pseudo_excause;
  panic_reason = crash_copy_string r.panic_reason info.reason;
  panic_description = crash_copy_string r.panic_description info.description;
  magic = crash_magic;
}

-- The text that the hook builds in `buf[128]`.
abbrev pub overflow_text : Bytes → Bytes
overflow_text task_name =
    strlcat 128 (strlcat 128 (codes "***ERROR*** A stack overflow in task ") task_name)
      (codes " has been detected.")

-- `vApplicationStackOverflowHook`, up to the abort.
unfoldable pub stack_overflow_hook : Bytes → Crash → Crash
stack_overflow_hook task_name r = record r {
  reset_reason = other_reset 0;
  err = 0;
  line = 0;
  file = emptied r.file;
  func = emptied r.func;
  panic_exception = 0;
  panic_addr = 0;
  panic_core = 0;
  panic_pseudo_excause = 0;
  panic_reason = emptied r.panic_reason;
  crash_time = r.boot_time;
  crash_hb = r.boot_hb;
  task = strlcpy r.task task_name;
  crash_type = crash_stack_overflow;
  panic_description = crash_copy_string r.panic_description (some (overflow_text task_name));
  magic = crash_magic;
}

-- CRASH_ERROR_CHECK for a code other than ESP_OK, up to the abort.
unfoldable pub error_check_failed : ℕ → ℕ → Bytes → Bytes → Crash → Crash
error_check_failed code at_line at_file at_func r = record r {
  reset_reason = other_reset 0;
  task = emptied r.task;
  panic_exception = 0;
  panic_addr = 0;
  panic_core = 0;
  panic_pseudo_excause = 0;
  panic_reason = emptied r.panic_reason;
  panic_description = emptied r.panic_description;
  crash_time = r.boot_time;
  crash_hb = r.boot_hb;
  crash_type = crash_abort;
  err = code;
  line = at_line;
  file = strlcpy r.file at_file;
  func = strlcpy r.func at_func;
  magic = crash_magic;
}

-- `now` is what `time(NULL)` returns.
unfoldable pub boot_timer_callback : ℕ → Crash → Crash
boot_timer_callback now r = record r {
  boot_count = 0;
  boot_time = now;
  boot_hb = (r.boot_hb + 1) % 2 ^ 32;
}

unfoldable pub init_crash_info : Bool → Crash → Crash
init_crash_info force r =
    if force || not (r.magic == crash_magic)
    then cleared
    else record r { boot_time = 0; boot_hb = 0 }

unfoldable pub clear_crash_info : Crash → Crash
clear_crash_info r = cleared
