-- ===== src/Ad7811/Sampled.antt =====
-- A sampling in which every conversion succeeds.
use mathlib.Core.Option
use mathlib.Core.List.{append_assoc}
use esp32_common.Common.{
  ℕ, zero, suc, ◌+◌, ◌≤◌, ◌<◌, ◌≡◌, refl, ap, sym, ◌∙◌, Bool, true, false, not, Option, none, some,
  List, [], ◌∷◌, ◌++◌, ltb, leb, ◌==◌, if◌then◌else◌, length, set, length-append, arith, inl, inr,
  Bool-cases,
}
use esp32_common.Ad7811.Sampling.{
  Spi, answered, Bus, ad_command, Reading, millis, read_error, read_ad_mv, Adc, store_sample,
  on_reading, adc_timer_callback, run_timer, esp_ok, esp_fail, first_message, adc_get_data_7911,
}

-- Set behind a prefix.
pub set-append :
    (xs : List ℕ) (y : ℕ) (ys : List ℕ) (v : ℕ)
    → set (xs ++ (y ∷ ys)) (length xs) v ≡ xs ++ (v ∷ ys)
set-append [] y ys v = refl
set-append (x ∷ xs) y ys v = ap (λ (t : List ℕ). x ∷ t) (set-append xs y ys v)

-- The values of `n` readings from `i` on.
abbrev pub values : (ℕ → ℕ) → ℕ → ℕ → List ℕ
values v i zero = []
values v i (suc n) = v i ∷ values v (suc i) n

-- One expiry with a good conversion, with `xs` sampled and at least one to come.
pub callback_good :
    (xs : List ℕ) (y : ℕ) (ys : List ℕ) (nr mv : ℕ) (queue : List ℕ)
    → nr ≡ length xs + suc (length ys)
    → adc_timer_callback (millis mv) (record {
      samples = xs ++ (y ∷ ys);
      sample_count = length xs;
      nr_samples = nr;
      timer_runs = true;
      adc_evt_queue = queue;
    })
      ≡ some (record {
        samples = xs ++ (mv ∷ ys);
        sample_count = length xs + 1;
        nr_samples = nr;
        timer_runs = not (length ys == 0);
        adc_evt_queue = if length ys == 0 then queue ++ ((length xs + 1) ∷ []) else queue;
      })
unfolding adc_timer_callback store_sample on_reading
callback_good xs y ys nr mv queue e =
    let size = length-append xs (y ∷ ys) in
    let inside : ltb (length xs) (length (xs ++ (y ∷ ys))) ≡ true = ground arith in
    let cleared = set-append xs y ys 0 in
    let stored = set-append xs 0 ys mv in
    elim (Bool-cases (length ys == 0)) [
      | inl last ↦
          let full : leb nr (length xs + 1) ≡ true = ground arith in
          rw inside (rw cleared (rw full (rw stored (rw last refl))))
      | inr more ↦
          let room : leb nr (length xs + 1) ≡ false = ground arith in
          rw inside (rw cleared (rw room (rw stored (rw more refl))))
    ]

pub run_stopped :
    (reading : ℕ → Reading) (fuel i : ℕ) (a : Adc)
    → a.timer_runs ≡ false
    → run_timer reading fuel i a ≡ some a
unfolding run_timer
run_stopped reading zero i a h = refl
run_stopped reading (suc fuel) i a h =
    ap
      (λ (b : Bool).
        if b
        then elim (adc_timer_callback (reading i) a) [
          | none ↦ none
          | some b ↦ run_timer reading fuel (suc i) b
        ]
        else some a)
      h

-- A sampling under way: `xs` are sampled.
abbrev pub under_way : List ℕ → List ℕ → ℕ → Adc
under_way xs ys nr = record {
  samples = xs ++ ys;
  sample_count = length xs;
  nr_samples = nr;
  timer_runs = true;
  adc_evt_queue = [];
}

-- The next expiry of a sampling under way.
pub run_next :
    (reading : ℕ → Reading) (fuel i : ℕ) (a b : Adc)
    → a.timer_runs ≡ true
    → adc_timer_callback (reading i) a ≡ some b
    → run_timer reading (suc fuel) i a ≡ run_timer reading fuel (suc i) b
unfolding run_timer
run_next reading fuel i a b runs e =
    ap
      (λ (t : Bool).
        if t
        then elim (adc_timer_callback (reading i) a) [
          | none ↦ none
          | some b ↦ run_timer reading fuel (suc i) b
        ]
        else some a)
      runs
    ∙ ap
        (λ (o : Option Adc). elim o as (λ o. Option Adc) [
          | none ↦ none
          | some b ↦ run_timer reading fuel (suc i) b
        ])
        e

-- An expiry with a good conversion, and more to come.
pub run_step :
    (reading : ℕ → Reading) (mv fuel i nr : ℕ) (xs : List ℕ) (y : ℕ) (ys : List ℕ)
    → reading i ≡ millis mv
    → nr ≡ length xs + suc (length ys)
    → 0 < length ys
    → run_timer reading (suc fuel) i (under_way xs (y ∷ ys) nr)
      ≡ run_timer reading fuel (suc i) (under_way (xs ++ (mv ∷ [])) ys nr)
run_step reading mv fuel i nr xs y ys good e more =
    let before : List ℕ = xs ++ (mv ∷ []) in
    let size : length before ≡ length xs + 1 = length-append xs (mv ∷ []) in
    let next : Adc = record {
      samples = xs ++ (mv ∷ ys);
      sample_count = length xs + 1;
      nr_samples = nr;
      timer_runs = true;
      adc_evt_queue = [];
    } in
    let unfinished : (length ys == 0) ≡ false = ground arith in
    let one =
      ap (λ (r : Reading). adc_timer_callback r (under_way xs (y ∷ ys) nr)) good
      ∙ (callback_good xs y ys nr mv [] e
          ∙ ap
              (λ (b : Bool). some (record next {
                timer_runs = not b;
                adc_evt_queue = if b then [] ++ ((length xs + 1) ∷ []) else [];
              }))
              unfinished) in
    let joined : next ≡ under_way before ys nr = λ k. record next {
      samples = sym (append_assoc xs (mv ∷ []) ys) k;
      sample_count = sym size k;
    } in
    run_next reading fuel i (under_way xs (y ∷ ys) nr) next refl one
    ∙ ap (run_timer reading fuel (suc i)) joined

run_good :
    (reading : ℕ → Reading) (v : ℕ → ℕ) (fuel i nr : ℕ) (xs ys : List ℕ)
    → ((j : ℕ) → reading j ≡ millis (v j))
    → nr ≡ length xs + length ys
    → 0 < length ys
    → length ys ≤ fuel
    → run_timer reading fuel i (under_way xs ys nr)
      ≡ some (record {
        samples = xs ++ values v i (length ys);
        sample_count = nr;
        nr_samples = nr;
        timer_runs = false;
        adc_evt_queue = nr ∷ [];
      })
run_good reading v fuel i nr xs [] good e more enough = absurd (omega arith)
run_good reading v zero i nr xs (y ∷ ys) good e more enough = absurd (omega arith)
run_good reading v (suc fuel) i nr xs (y ∷ []) good e more enough =
    let count : length xs + 1 ≡ nr = omega arith in
    let done : Adc = record {
      samples = xs ++ (v i ∷ []);
      sample_count = length xs + 1;
      nr_samples = nr;
      timer_runs = false;
      adc_evt_queue = (length xs + 1) ∷ [];
    } in
    let one =
      ap (λ (r : Reading). adc_timer_callback r (under_way xs (y ∷ []) nr)) (good i)
      ∙ callback_good xs y [] nr (v i) [] (omega arith) in
    run_next reading fuel i (under_way xs (y ∷ []) nr) done refl one
    ∙ (run_stopped reading fuel (suc i) done refl
        ∙ ap
            (λ (n : ℕ). some (record {
              samples = xs ++ (v i ∷ []);
              sample_count = n;
              nr_samples = nr;
              timer_runs = false;
              adc_evt_queue = n ∷ [];
            }))
            count)
run_good reading v (suc fuel) i nr xs (y ∷ y' ∷ ys) good e more enough =
    let before : List ℕ = xs ++ (v i ∷ []) in
    let size : length before ≡ length xs + 1 = length-append xs (v i ∷ []) in
    let whole = append_assoc xs (v i ∷ []) (values v (suc i) (length (y' ∷ ys))) in
    run_step reading (v i) fuel i nr xs y (y' ∷ ys) (good i) (omega arith) (omega arith)
    ∙ (run_good reading v fuel (suc i) nr before (y' ∷ ys) good (omega arith) (omega arith)
          (omega arith)
        ∙ ap
            (λ (t : List ℕ). some (record {
              samples = t;
              sample_count = nr;
              nr_samples = nr;
              timer_runs = false;
              adc_evt_queue = nr ∷ [];
            }))
            whole)

-- The millivolts of the transactions.
abbrev pub sampled : Bus → ℕ → ℕ → ℕ
sampled bus chn i = elim (read_ad_mv (bus i (ad_command chn))) [ millis mv ↦ mv | read_error e ↦ 0 ]

pub of_answer :
    (s : Spi) (high low : ℕ)
    → s ≡ answered high low
    → read_ad_mv s ≡ millis (elim (read_ad_mv s) [ millis mv ↦ mv | read_error e ↦ 0 ])
unfolding read_ad_mv
of_answer s high low e = rw e refl

-- The timer starts, every transaction on the bus is answered, and the array has room for the samples
-- asked for, at least one: `adc_get_data_7911` returns ESP_OK, and the array holds the millivolts of
-- the transactions behind the first, in their order, with no write past its end.
pub adc_get_data-samples :
    (bus : Bus) (chn : ℕ) (s_vect : List ℕ) (starts_again : ℕ)
    → 0 < length s_vect
    → ((i : ℕ) → (high : ℕ) × (low : ℕ) × (bus i (ad_command chn) ≡ answered high low))
    → adc_get_data_7911 bus chn s_vect (length s_vect) 0 starts_again
      ≡ some (esp_ok, values (sampled bus chn) 1 (length s_vect))
unfolding adc_get_data_7911
adc_get_data-samples bus chn s_vect starts_again some_room answers =
    let nr = length s_vect in
    let reading : ℕ → Reading = λ i. read_ad_mv (bus i (ad_command chn)) in
    let good : (j : ℕ) → reading j ≡ millis (sampled bus chn j) =
      λ j. let (high, low, e) = answers j in of_answer (bus j (ad_command chn)) high low e in
    let result : Adc → ℕ × List ℕ = λ b. (
      elim (first_message b.adc_evt_queue) [
        | none ↦ esp_fail
        | some val ↦ if val == nr then esp_ok else esp_fail
      ],
      b.samples,
    ) in
    let ran = run_timer reading (suc nr) 1 (under_way [] s_vect nr) in
    let count : (nr == nr) ≡ true = ground arith in
    ap
      (λ (r : Reading). elim r as (λ r. Option (ℕ × List ℕ)) [
        | read_error e ↦ some (esp_fail, s_vect)
        | millis dummy ↦ Option.map result ran
      ])
      (good 0)
    ∙ (ap (Option.map result) (
          run_good reading (sampled bus chn) (suc nr) 1 nr [] s_vect good (omega arith) some_room
            (omega arith))
        ∙ ap (λ (b : Bool). some (if b then esp_ok else esp_fail, values (sampled bus chn) 1 nr))
            count)
