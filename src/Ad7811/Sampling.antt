-- ===== src/Ad7811/Sampling.antt =====
-- A conversion over SPI, the callback of the timer that samples, and `adc_get_data_7911`.
use Prim.Native.Nat.{bit_or}
use mathlib.Core.Option
use esp32_common.Common.{
  ℕ, zero, suc, ◌+◌, ◌-◌, ◌*◌, ◌/◌, ◌%◌, ◌^◌, Bool, true, false, not, ◌||◌, ◌&&◌, Option, none,
  some, List, [], ◌∷◌, ◌++◌, ltb, leb, ◌==◌, if◌then◌else◌, length, set, take, replicate,
}
use esp32_common.Common.Memory.{Bytes, codes, same}

-- EXTREF, in millivolts.
abbrev pub vref : ℕ
vref = 3300

-- What a transaction returns: the two bytes received, or an error.
pub data Spi : Type 0 where
  answered : ℕ → ℕ → Spi
  spi_error : ℕ → Spi

-- The bus: what the transaction with this number returns to this command.
abbrev pub Bus : Type 0
Bus = ℕ → ℕ → Spi

-- `cmd` of `read_AD_simple` with EXTREF, 16 bits.
unfoldable pub ad_command : ℕ → ℕ
ad_command chnn = bit_or (bit_or 12288 (chnn * 256) % 2 ^ 16) 64

-- `*data` of `spiad_rw`: the bytes have no bit in common, so that `|` is a sum.
unfoldable pub received_word : ℕ → ℕ → ℕ
received_word high low = (high % 256 * 256 + low % 256) / 64 % 1024

-- `*vmv` of `read_ADmv`.
unfoldable pub millivolts : ℕ → ℕ
millivolts data_word = vref * data_word / 1024

-- `read_ADmv`: the millivolts, or the error.
pub data Reading : Type 0 where
  millis : ℕ → Reading
  read_error : ℕ → Reading

unfoldable pub read_ad_mv : Spi → Reading
read_ad_mv (answered high low) = millis (millivolts (received_word high low))
read_ad_mv (spi_error e) = read_error e

-- The static variables: the array, the counts, whether the timer runs, and the values that were sent to
-- `adc_evt_queue`.
pub record Adc : Type 0 where
  pub samples : List ℕ
  pub sample_count : ℕ
  pub nr_samples : ℕ
  pub timer_runs : Bool
  pub adc_evt_queue : List ℕ

-- `samples[sample_count]`; `none` is a write past the end of the array.
unfoldable pub store_sample : ℕ → Adc → Option Adc
store_sample v a =
    if ltb a.sample_count (length a.samples)
    then some (record a { samples = set a.samples a.sample_count v })
    else none

unfoldable pub on_reading : Reading → Adc → Adc
on_reading (millis mv) a =
    if leb a.nr_samples (a.sample_count + 1)
    then record a {
      samples = set a.samples a.sample_count mv;
      sample_count = a.sample_count + 1;
      timer_runs = false;
      adc_evt_queue = a.adc_evt_queue ++ ((a.sample_count + 1) ∷ []);
    }
    else record a { samples = set a.samples a.sample_count mv; sample_count = a.sample_count + 1 }
on_reading (read_error e) a = record a {
  timer_runs = false;
  adc_evt_queue = a.adc_evt_queue ++ (a.sample_count ∷ []);
}

-- The sample is cleared before the conversion.
unfoldable pub adc_timer_callback : Reading → Adc → Option Adc
adc_timer_callback r a = Option.map (λ b. on_reading r b) (store_sample 0 a)

-- The expiries of the timer, for as long as it runs: reading `i` is next.
unfoldable pub run_timer : (ℕ → Reading) → ℕ → ℕ → Adc → Option Adc
run_timer reading zero i a = some a
run_timer reading (suc fuel) i a =
    if a.timer_runs
    then elim (adc_timer_callback (reading i) a) [
      | none ↦ none
      | some b ↦ run_timer reading fuel (suc i) b
    ]
    else some a

abbrev pub esp_ok : ℕ
esp_ok = 0

-- -1 as a 32-bit pattern.
abbrev pub esp_fail : ℕ
esp_fail = 2 ^ 32 - 1

-- The value of the message that is taken from the queue.
abbrev pub first_message : List ℕ → Option ℕ
first_message [] = none
first_message (m ∷ ms) = some m

-- `adc_get_data_7911` on an empty queue, with what the first and the second call of `gptimer_start`
-- return: what it returns, and the array. The expiries are at most one more than the samples. `none` is a fault.
unfoldable pub adc_get_data_7911 : Bus → ℕ → List ℕ → ℕ → ℕ → ℕ → Option (ℕ × List ℕ)
adc_get_data_7911 bus chn s_vect nr_samp starts starts_again =
    let reading : ℕ → Reading = λ i. read_ad_mv (bus i (ad_command chn)) in
    elim (reading 0) [
      | read_error e ↦ some (esp_fail, s_vect)
      | millis dummy ↦
          let begun : Adc = record {
            samples = s_vect;
            sample_count = 0;
            nr_samples = nr_samp;
            timer_runs = true;
            adc_evt_queue = [];
          } in
          let ran = run_timer reading (suc nr_samp) 1 begun in
          if (starts == esp_ok) || (starts_again == esp_ok)
          then Option.map
              (λ (b : Adc). (
                elim (first_message b.adc_evt_queue) [
                  | none ↦ esp_fail
                  | some val ↦ if val == nr_samp then esp_ok else esp_fail
                ],
                b.samples,
              ))
              ran
          else some (starts_again, s_vect)
    ]

abbrev pub given_or : Option ℕ → ℕ → ℕ
given_or none d = d
given_or (some n) d = n

-- `do_ad`, with whether the arguments are in order, the operation, the channel and the number of
-- samples that may be given, whether there is memory for them, four bytes for each sample of two, and
-- what `gptimer_start` returns: what it returns, and the values that it prints.
unfoldable pub do_ad : Bus → Bool → Bytes → Option ℕ → Option ℕ → Bool → ℕ → ℕ → Option (ℕ × List ℕ)
do_ad bus parsed op arg arg1 allocated starts starts_again =
    let nrs = given_or arg1 1 in
    let got =
      adc_get_data_7911 bus (given_or arg 0) (replicate (2 * nrs) 0) nrs starts starts_again in
    if not parsed
    then some (esp_fail, [])
    else if same op (codes "r") && allocated
    then Option.map (λ (r : ℕ × List ℕ). (esp_ok, take nrs r.1)) got
    else some (esp_ok, [])
