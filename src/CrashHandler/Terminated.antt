-- ===== src/CrashHandler/Terminated.antt =====
-- Every string of a valid record ends inside its array, whatever happened before.
use esp32_common.Common.{
  ℕ, ◌<◌, ◌≡◌, refl, ◌∙◌, Bool, true, not, ◌||◌, some, ◌==◌, length, arith, inl, inr, Bool-cases,
}
use esp32_common.Common.Memory.{Bytes}
use esp32_common.CrashHandler.Strings.{
  is_terminated, strlcpy-terminated, emptied-terminated, crash_copy-terminated, length-emptied,
  length-strlcpy, length-crash_copy,
}
use esp32_common.CrashHandler.Record.{Crash, crash_magic, cleared, IsRecord}
use esp32_common.CrashHandler.Handlers.{
  PanicInfo, overflow_text, wrap_esp_panic_handler, stack_overflow_hook, error_check_failed,
  boot_timer_callback, init_crash_info,
}

-- The strings that `logCrashInfo` prints.
pub record IsTerminated (r : Crash) : Type 0 where
  pub file_ends : is_terminated r.file ≡ true
  pub func_ends : is_terminated r.func ≡ true
  pub task_ends : is_terminated r.task ≡ true
  pub reason_ends : is_terminated r.panic_reason ≡ true
  pub description_ends : is_terminated r.panic_description ≡ true

pub record IsSound (r : Crash) : Type 0 where
  pub sizes : IsRecord r
  pub ends : r.magic ≡ crash_magic → IsTerminated r

-- The strings that stay.
pub same_strings :
    (r t : Crash)
    → IsSound r
    → r.magic ≡ t.magic
    → r.file ≡ t.file
    → r.func ≡ t.func
    → r.task ≡ t.task
    → r.panic_reason ≡ t.panic_reason
    → r.panic_description ≡ t.panic_description
    → IsSound t
same_strings r t s m f g k p d = record {
  sizes = record {
    file_size = rw f at s.sizes.file_size;
    func_size = rw g at s.sizes.func_size;
    task_size = rw k at s.sizes.task_size;
    reason_size = rw p at s.sizes.reason_size;
    description_size = rw d at s.sizes.description_size;
  };
  ends = λ valid. record {
    file_ends = rw f at (s.ends (m ∙ valid)).file_ends;
    func_ends = rw g at (s.ends (m ∙ valid)).func_ends;
    task_ends = rw k at (s.ends (m ∙ valid)).task_ends;
    reason_ends = rw p at (s.ends (m ∙ valid)).reason_ends;
    description_ends = rw d at (s.ends (m ∙ valid)).description_ends;
  };
}

pub cleared-IsSound : IsSound cleared
cleared-IsSound = record {
  sizes = record {
    file_size = refl;
    func_size = refl;
    task_size = refl;
    reason_size = refl;
    description_size = refl;
  };
  ends = λ valid. record {
    file_ends = refl;
    func_ends = refl;
    task_ends = refl;
    reason_ends = refl;
    description_ends = refl;
  };
}

positive : (b : Bytes) (n : ℕ) → 0 < n → length b ≡ n → 0 < length b
positive b n h e = omega arith

pub panic-IsSound :
    (info : PanicInfo) (r : Crash) → IsRecord r → IsSound (wrap_esp_panic_handler info r)
unfolding wrap_esp_panic_handler
panic-IsSound info r s = record {
  sizes = record {
    file_size = length-emptied r.file ∙ s.file_size;
    func_size = length-emptied r.func ∙ s.func_size;
    task_size = length-emptied r.task ∙ s.task_size;
    reason_size = length-crash_copy r.panic_reason info.reason ∙ s.reason_size;
    description_size = length-crash_copy r.panic_description info.description ∙ s.description_size;
  };
  ends = λ valid. record {
    file_ends = emptied-terminated r.file (positive r.file 32 (omega arith) s.file_size);
    func_ends = emptied-terminated r.func (positive r.func 32 (omega arith) s.func_size);
    task_ends = emptied-terminated r.task (positive r.task 16 (omega arith) s.task_size);
    reason_ends =
        crash_copy-terminated r.panic_reason info.reason
          (positive r.panic_reason 32 (omega arith) s.reason_size);
    description_ends =
        crash_copy-terminated r.panic_description info.description
          (positive r.panic_description 64 (omega arith) s.description_size);
  };
}

pub overflow-IsSound :
    (name : Bytes) (r : Crash) → IsRecord r → IsSound (stack_overflow_hook name r)
unfolding stack_overflow_hook
overflow-IsSound name r s = record {
  sizes = record {
    file_size = length-emptied r.file ∙ s.file_size;
    func_size = length-emptied r.func ∙ s.func_size;
    task_size = length-strlcpy r.task name ∙ s.task_size;
    reason_size = length-emptied r.panic_reason ∙ s.reason_size;
    description_size =
        length-crash_copy r.panic_description (some (overflow_text name)) ∙ s.description_size;
  };
  ends = λ valid. record {
    file_ends = emptied-terminated r.file (positive r.file 32 (omega arith) s.file_size);
    func_ends = emptied-terminated r.func (positive r.func 32 (omega arith) s.func_size);
    task_ends = strlcpy-terminated r.task name (positive r.task 16 (omega arith) s.task_size);
    reason_ends =
        emptied-terminated r.panic_reason (positive r.panic_reason 32 (omega arith) s.reason_size);
    description_ends =
        crash_copy-terminated r.panic_description (some (overflow_text name))
          (positive r.panic_description 64 (omega arith) s.description_size);
  };
}

pub check-IsSound :
    (code n : ℕ) (file func : Bytes) (r : Crash)
    → IsRecord r
    → IsSound (error_check_failed code n file func r)
unfolding error_check_failed
check-IsSound code n file func r s = record {
  sizes = record {
    file_size = length-strlcpy r.file file ∙ s.file_size;
    func_size = length-strlcpy r.func func ∙ s.func_size;
    task_size = length-emptied r.task ∙ s.task_size;
    reason_size = length-emptied r.panic_reason ∙ s.reason_size;
    description_size = length-emptied r.panic_description ∙ s.description_size;
  };
  ends = λ valid. record {
    file_ends = strlcpy-terminated r.file file (positive r.file 32 (omega arith) s.file_size);
    func_ends = strlcpy-terminated r.func func (positive r.func 32 (omega arith) s.func_size);
    task_ends = emptied-terminated r.task (positive r.task 16 (omega arith) s.task_size);
    reason_ends =
        emptied-terminated r.panic_reason (positive r.panic_reason 32 (omega arith) s.reason_size);
    description_ends =
        emptied-terminated r.panic_description
          (positive r.panic_description 64 (omega arith) s.description_size);
  };
}

pub timer-IsSound : (now : ℕ) (r : Crash) → IsSound r → IsSound (boot_timer_callback now r)
unfolding boot_timer_callback
timer-IsSound now r s = same_strings r _ s refl refl refl refl refl refl

pub init-IsSound : (force : Bool) (r : Crash) → IsSound r → IsSound (init_crash_info force r)
unfolding init_crash_info
init-IsSound force r s = elim (Bool-cases (force || not (r.magic == crash_magic))) [
  | inl fresh ↦ rw fresh cleared-IsSound
  | inr kept ↦
      rw kept
        (same_strings r (record r { boot_time = 0; boot_hb = 0 }) s refl refl refl refl refl refl)
]
