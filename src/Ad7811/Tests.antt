-- ===== src/Ad7811/Tests.antt =====
-- Samples of a converter.
use esp32_common.Common.{
  ℕ, zero, suc, ◌<◌, ◌≡◌, refl, none, some, [], ◌∷◌, ◌++◌, ◌==◌, if◌then◌else◌, drop, arith,
}
use esp32_common.Ad7811.Sampling.{
  answered, spi_error, Bus, ad_command, received_word, millivolts, read_ad_mv, store_sample,
  on_reading, adc_timer_callback, run_timer, esp_ok, esp_fail, adc_get_data_7911,
}
use esp32_common.Ad7811.Sampled.{values, sampled, adc_get_data-samples}
use esp32_common.Ad7811.Stopped.{adc_get_data-fails}

-- Half of the range.
abbrev steady : Bus
steady i cmd = answered 128 0

-- The third sample fails.
abbrev broken_bus : Bus
broken_bus i cmd = if i == 3 then spi_error 263 else answered 128 0

commands : (ad_command 0 ≡ 12352) × (ad_command 3 ≡ 13120)
unfolding ad_command
commands = (refl, refl)

half_range : adc_get_data_7911 steady 1 (0 ∷ 0 ∷ []) 2 0 0 ≡ some (esp_ok, 1650 ∷ 1650 ∷ [])
unfolding adc_get_data_7911 read_ad_mv millivolts received_word run_timer adc_timer_callback
    store_sample on_reading
half_range = refl

-- No samples into an array of none: the first sample is written past its end.
no_samples : adc_get_data_7911 steady 1 [] 0 0 0 ≡ none
unfolding adc_get_data_7911 read_ad_mv run_timer adc_timer_callback store_sample on_reading
no_samples = refl

adc_get_data-samples_example :
    adc_get_data_7911 steady 1 (0 ∷ 0 ∷ 0 ∷ []) 3 0 0 ≡ some (esp_ok, values (sampled steady 1) 1 3)
adc_get_data-samples_example =
    adc_get_data-samples steady 1 (0 ∷ 0 ∷ 0 ∷ []) 0 (omega arith) (λ i. (128, 0, refl))

before_third :
    (j : ℕ) → j < 3 → (high : ℕ) × (low : ℕ) × (broken_bus j (ad_command 1) ≡ answered high low)
before_third zero h = (128, 0, refl)
before_third (suc zero) h = (128, 0, refl)
before_third (suc (suc zero)) h = (128, 0, refl)
before_third (suc (suc (suc j))) h = absurd (omega arith)

adc_get_data-fails_example :
    adc_get_data_7911 broken_bus 1 (7 ∷ 7 ∷ 7 ∷ 7 ∷ []) 4 0 0
    ≡ some (esp_fail, values (sampled broken_bus 1) 1 2 ++ (0 ∷ drop 3 (7 ∷ 7 ∷ 7 ∷ 7 ∷ [])))
adc_get_data-fails_example =
    adc_get_data-fails broken_bus 1 (7 ∷ 7 ∷ 7 ∷ 7 ∷ []) 2 263 0 (omega arith) before_third refl
