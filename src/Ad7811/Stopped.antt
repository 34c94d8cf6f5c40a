-- ===== src/Ad7811/Stopped.antt =====
-- Conversions in range, and a sampling that fails.
use mathlib.Core.Option
use mathlib.Core.List.{append_assoc}
use esp32_common.Common.{
  ℕ, zero, suc, ◌+◌, ◌≤◌, ◌<◌, ◌≡◌, refl, ap, sym, ◌∙◌, Bool, true, false, Option, none, some, List,
  [], ◌∷◌, ◌++◌, ltb, ◌==◌, if◌then◌else◌, length, length-append, drop, arith,
}
use esp32_common.Ad7811.Sampling.{
  answered, spi_error, Bus, ad_command, received_word, millivolts, Reading, millis, read_error,
  read_ad_mv, Adc, store_sample, on_reading, adc_timer_callback, run_timer, esp_ok, esp_fail,
  first_message, adc_get_data_7911,
}
use esp32_common.Ad7811.Sampled.{
  run_stopped, run_next, run_step, under_way, set-append, values, sampled, of_answer,
}

-- Whatever two bytes a transaction returns, the millivolts are below EXTREF, and fit the 16 bits of a
-- sample.
pub millivolts-bound : (high low : ℕ) → millivolts (received_word high low) ≤ 3296
unfolding millivolts received_word
millivolts-bound high low = omega arith

-- One expiry with a failed conversion: the sample was cleared, and the timer stops.
callback_error :
    (xs : List ℕ) (y : ℕ) (ys : List ℕ) (nr e : ℕ)
    → adc_timer_callback (read_error e) (under_way xs (y ∷ ys) nr)
      ≡ some
          (record (under_way xs (0 ∷ ys) nr) { timer_runs = false; adc_evt_queue = length xs ∷ [] })
unfolding adc_timer_callback store_sample on_reading
callback_error xs y ys nr e =
    let size = length-append xs (y ∷ ys) in
    let inside : ltb (length xs) (length (xs ++ (y ∷ ys))) ≡ true = ground arith in
    rw inside (rw (set-append xs y ys 0) refl)

run_fails :
    (reading : ℕ → Reading) (v : ℕ → ℕ) (fuel i nr k e : ℕ) (xs ys : List ℕ)
    → ((j : ℕ) → j < k → reading (i + j) ≡ millis (v (i + j)))
    → reading (i + k) ≡ read_error e
    → nr ≡ length xs + length ys
    → k < length ys
    → k < fuel
    → run_timer reading fuel i (under_way xs ys nr)
      ≡ some (record {
        samples = xs ++ (values v i k ++ (0 ∷ drop (suc k) ys));
        sample_count = length xs + k;
        nr_samples = nr;
        timer_runs = false;
        adc_evt_queue = (length xs + k) ∷ [];
      })
run_fails reading v zero i nr k e xs ys good bad size inside enough = absurd (omega arith)
run_fails reading v (suc fuel) i nr k e xs [] good bad size inside enough = absurd (omega arith)
run_fails reading v (suc fuel) i nr zero e xs (y ∷ ys) good bad size inside enough =
    let here : i + zero ≡ i = omega arith in
    let count : length xs ≡ length xs + zero = omega arith in
    let stopped : ℕ → Adc = λ n. record {
      samples = xs ++ (0 ∷ ys);
      sample_count = n;
      nr_samples = nr;
      timer_runs = false;
      adc_evt_queue = n ∷ [];
    } in
    run_next reading fuel i (under_way xs (y ∷ ys) nr) (stopped (length xs)) refl (
      ap (λ (r : Reading). adc_timer_callback r (under_way xs (y ∷ ys) nr))
        (ap reading (sym here) ∙ bad)
      ∙ callback_error xs y ys nr e)
    ∙ (run_stopped reading fuel (suc i) (stopped (length xs)) refl
        ∙ ap (λ (n : ℕ). some (stopped n)) count)
run_fails reading v (suc fuel) i nr (suc k) e xs (y ∷ ys) good bad size inside enough =
    let here : i + 0 ≡ i = omega arith in
    let first : reading i ≡ millis (v i) =
      ap reading (sym here) ∙ (good 0 (omega arith) ∙ ap (λ (n : ℕ). millis (v n)) here) in
    let before : List ℕ = xs ++ (v i ∷ []) in
    let before_size : length before ≡ length xs + 1 = length-append xs (v i ∷ []) in
    let later : (j : ℕ) → j < k → reading (suc i + j) ≡ millis (v (suc i + j)) = λ j h.
      let shift : i + suc j ≡ suc i + j = omega arith in
      ap reading (sym shift) ∙ (good (suc j) (omega arith) ∙ ap (λ (n : ℕ). millis (v n)) shift) in
    let bad_shift : i + suc k ≡ suc i + k = omega arith in
    let count : length before + k ≡ length xs + suc k = omega arith in
    let whole = append_assoc xs (v i ∷ []) (values v (suc i) k ++ (0 ∷ drop (suc k) ys)) in
    run_step reading (v i) fuel i nr xs y ys first (omega arith) (omega arith)
    ∙ (run_fails reading v fuel (suc i) nr k e before ys later (ap reading (sym bad_shift) ∙ bad)
          (omega arith) (omega arith) (omega arith)
        ∙ λ t. some (record {
          samples = whole t;
          sample_count = count t;
          nr_samples = nr;
          timer_runs = false;
          adc_evt_queue = count t ∷ [];
        }))

-- The timer starts, the array has room for the samples asked for, and the transaction of sample `k`
-- fails, the ones before being answered: `adc_get_data_7911` returns ESP_FAIL, and the array holds the
-- samples before the failure, then a zero, and behind that what it held before.
pub adc_get_data-fails :
    (bus : Bus) (chn : ℕ) (s_vect : List ℕ) (k e starts_again : ℕ)
    → k < length s_vect
    → ((j : ℕ) → j < suc k → (high : ℕ) × (low : ℕ) × (bus j (ad_command chn) ≡ answered high low))
    → bus (suc k) (ad_command chn) ≡ spi_error e
    → adc_get_data_7911 bus chn s_vect (length s_vect) 0 starts_again
      ≡ some (esp_fail, values (sampled bus chn) 1 k ++ (0 ∷ drop (suc k) s_vect))
unfolding adc_get_data_7911 read_ad_mv
adc_get_data-fails bus chn s_vect k e starts_again inside answers fails =
    let nr = length s_vect in
    let reading : ℕ → Reading = λ i. read_ad_mv (bus i (ad_command chn)) in
    let good : (j : ℕ) → j < suc k → reading j ≡ millis (sampled bus chn j) =
      λ j h. let (high, low, e) = answers j h in of_answer (bus j (ad_command chn)) high low e in
    let later : (j : ℕ) → j < k → reading (1 + j) ≡ millis (sampled bus chn (1 + j)) =
      λ j h. good (1 + j) (omega arith) in
    let one : 1 + k ≡ suc k = omega arith in
    let bad : reading (1 + k) ≡ read_error e = ap reading one ∙ ap read_ad_mv fails in
    let result : Adc → ℕ × List ℕ = λ b. (
      elim (first_message b.adc_evt_queue) [
        | none ↦ esp_fail
        | some val ↦ if val == nr then esp_ok else esp_fail
      ],
      b.samples,
    ) in
    let left : List ℕ = values (sampled bus chn) 1 k ++ (0 ∷ drop (suc k) s_vect) in
    let fewer : (0 + k == nr) ≡ false = ground arith in
    ap
      (λ (r : Reading). elim r as (λ r. Option (ℕ × List ℕ)) [
        | read_error e ↦ some (esp_fail, s_vect)
        | millis dummy ↦ Option.map result (run_timer reading (suc nr) 1 (under_way [] s_vect nr))
      ])
      (good 0 (omega arith))
    ∙ (ap (Option.map result) (
          run_fails reading (sampled bus chn) (suc nr) 1 nr k e [] s_vect later bad (omega arith)
            inside (omega arith))
        ∙ ap (λ (b : Bool). some (if b then esp_ok else esp_fail, left)) fewer)
