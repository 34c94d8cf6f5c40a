-- ===== src/FlashLed/Slots.antt =====
-- The table as a map from pins to LEDs.
use esp32_common.Common.{
  ℕ, ◌≡◌, ◌≢◌, refl, ap, ◌∙◌, Bool, true, false, not, ◌&&◌, ◌||◌, Option, none, some, List, [], ◌∷◌,
  ◌==◌, if◌then◌else◌, length, arith, inl, inr, Bool-cases,
}
use esp32_common.FlashLed.Table.{
  Led, Level, Flash, Err, esp_ok, esp_fail, esp_err_invalid_arg, End, found, added, not_output,
  full, place, code_of, writes_level, makes_timer, set_flash_led, next_power_of_2,
}

abbrev pub lookup : ℕ → List Led → Option Led
lookup p [] = none
lookup p (l ∷ ls) = if l.led_pin == p then some l else lookup p ls

abbrev pub uses : ℕ → List Led → Bool
uses p [] = false
uses p (l ∷ ls) = (l.led_pin == p) || uses p ls

abbrev pub all_free : List Led → Bool
all_free [] = true
all_free (l ∷ ls) = (l.led_pin == 0) && all_free ls

-- The slots in use come first, and no two of them have the same pin.
abbrev pub is_table : List Led → Bool
is_table [] = true
is_table (l ∷ ls) = if l.led_pin == 0 then all_free ls else not (uses l.led_pin ls) && is_table ls

-- What becomes of a request for the pin `p`.
abbrev pub expected : Bool → ℕ → List Led → Err
expected output p ls =
    if uses p ls
    then esp_ok
    else if uses 0 ls
    then if output then esp_ok else esp_err_invalid_arg
    else esp_fail

abbrev pub is_ok : Err → Bool
is_ok esp_ok = true
is_ok _ = false

all_free_unused : (p : ℕ) (ls : List Led) → p ≢ 0 → all_free ls ≡ true → uses p ls ≡ false
all_free_unused p [] h f = refl
all_free_unused p (l ∷ ls) h f = ground (arith, all_free_unused p ls h)

all_free-lookup : (p : ℕ) (ls : List Led) → p ≢ 0 → all_free ls ≡ true → lookup p ls ≡ none
all_free-lookup p [] h f = refl
all_free-lookup p (l ∷ ls) h f = ground (arith, all_free-lookup p ls h)

all_free-table : (ls : List Led) → all_free ls ≡ true → is_table ls ≡ true
all_free-table [] f = refl
all_free-table (l ∷ ls) f = ground arith

table_cons :
    (l : Led) (ls : List Led)
    → l.led_pin ≢ 0
    → uses l.led_pin ls ≡ false
    → is_table ls ≡ true
    → is_table (l ∷ ls) ≡ true
table_cons l ls h u t = ground arith

module _ (output : Bool) (new : Led) (pin : new.led_pin ≢ 0) where
  place-code :
      (ls : List Led)
      → is_table ls ≡ true
      → code_of (place output new ls).0 ≡ expected output new.led_pin ls
  unfolding place
  place-code [] t = refl
  place-code (l ∷ ls) t = elim (Bool-cases (l.led_pin == 0)) [
    | inl free ↦ ground (arith, all_free_unused new.led_pin ls pin)
    | inr taken ↦ ground (arith, place-code ls)
  ]

  length-place : (ls : List Led) → length (place output new ls).1 ≡ length ls
  unfolding place
  length-place [] = refl
  length-place (l ∷ ls) = ground (arith, length-place ls)

  -- The pins in use after it.
  uses-place :
      (q : ℕ) (ls : List Led) → q ≢ 0 → q ≢ new.led_pin → uses q (place output new ls).1 ≡ uses q ls
  unfolding place
  uses-place q [] h ne = refl
  uses-place q (l ∷ ls) h ne = ground (arith, uses-place q ls h ne)

  place-table : (ls : List Led) → is_table ls ≡ true → is_table (place output new ls).1 ≡ true
  unfolding place
  place-table [] t = refl
  place-table (l ∷ ls) t = elim (Bool-cases (l.led_pin == 0)) [
    | inl free ↦
        let others : all_free ls ≡ true = ground arith in
        let other : (l.led_pin == new.led_pin) ≡ false = ground arith in
        elim (Bool-cases output) [
          | inl can ↦ rw other (
              rw free (
                rw can (
                  table_cons new ls pin (all_free_unused new.led_pin ls pin others)
                    (all_free-table ls others))))
          | inr cannot ↦ rw other (rw free (rw cannot t))
        ]
    | inr taken ↦
        let fresh : uses l.led_pin ls ≡ false = ground arith in
        let rest : is_table ls ≡ true = ground arith in
        elim (Bool-cases (l.led_pin == new.led_pin)) [
          | inl same ↦
              let e : l.led_pin ≡ new.led_pin = ground arith in
              rw same (table_cons new ls pin (rw e at fresh) rest)
          | inr other ↦ rw other (
              rw taken (
                table_cons l (place output new ls).1 (ground arith)
                  (uses-place l.led_pin ls (ground arith) (ground arith) ∙ fresh)
                  (place-table ls rest)))
        ]
  ]

  lookup-place :
      (q : ℕ) (ls : List Led)
      → q ≢ 0
      → is_table ls ≡ true
      → lookup q (place output new ls).1 ≡ (
          if (q == new.led_pin) && is_ok (expected output new.led_pin ls)
          then some new
          else lookup q ls)
  unfolding place
  lookup-place q [] h t = ground arith
  lookup-place q (l ∷ ls) h t = elim (Bool-cases (l.led_pin == 0)) [
    | inl free ↦ ground (arith, all_free_unused new.led_pin ls pin)
    | inr taken ↦ ground (arith, lookup-place q ls h)
  ]

module _ (output : Bool) (p st tick : ℕ) (s : Flash) where
  abbrev request : Led
  request = record { led_pin = p; flash_tick = next_power_of_2 tick; state = st }

  abbrev outcome : End × List Led
  outcome = place output request s.led_st

  abbrev after : Flash
  after = record s { led_st = outcome.1; flash_timer = s.flash_timer || makes_timer outcome.0 }

  -- The call as one result.
  set_flash_led_steps :
      set_flash_led output true p st tick s
      ≡ some (code_of outcome.0, after, (if writes_level outcome.0 then (p, st) ∷ [] else []))
  unfolding set_flash_led
  set_flash_led_steps = elim (Bool-cases (makes_timer outcome.0)) [
    | inl new ↦ elim (Bool-cases s.flash_timer) [
      | inl running ↦ rw new (rw running refl)
      | inr stopped ↦ rw new (rw stopped refl)
    ]
    | inr old ↦ elim (Bool-cases s.flash_timer) [
      | inl running ↦ rw old (rw running refl)
      | inr stopped ↦ rw old (rw stopped refl)
    ]
  ]

writes_level-code_of : (e : End) → writes_level e ≡ is_ok (code_of e)
writes_level-code_of found = refl
writes_level-code_of added = refl
writes_level-code_of not_output = refl
writes_level-code_of full = refl

place-makes_timer :
    (output : Bool) (new : Led) (ls : List Led)
    → new.led_pin ≢ 0
    → is_table ls ≡ true
    → makes_timer (place output new ls).0 ≡ not (uses new.led_pin ls)
unfolding place
place-makes_timer output new [] h t = refl
place-makes_timer output new (l ∷ ls) h t = elim (Bool-cases (l.led_pin == 0)) [
  | inl free ↦ ground (arith, all_free_unused new.led_pin ls h)
  | inr taken ↦ ground (arith, place-makes_timer output new ls h)
]

-- Where the table is well formed, the pin is not 0 and the timer can be made: the call returns
-- ESP_OK for a pin in the table, and for a new pin that is an output while a slot is free; a new pin
-- is refused with ESP_ERR_INVALID_ARG if it is no output, and with ESP_FAIL if no slot is free.
-- After ESP_OK the table holds the pin with the rounded tick and the state, and as before any other
-- pin; after an error every pin as before. The table stays well formed and as long, and the timer
-- exists unless the pin had its slot before.
pub set_flash_led_sets :
    (output : Bool) (p st tick : ℕ) (s : Flash)
    → p ≢ 0
    → is_table s.led_st ≡ true
    → (code : Err) × (t : Flash) × (out : List Level) × (set_flash_led output true p st tick s
        ≡ some (code, t, out))
      × (code ≡ expected output p s.led_st)
      × ((q : ℕ)
          → q ≢ 0
          → lookup q t.led_st ≡ (
              if (q == p) && is_ok code
              then some (record { led_pin = p; flash_tick = next_power_of_2 tick; state = st })
              else lookup q s.led_st))
      × (is_table t.led_st ≡ true)
      × (length t.led_st ≡ length s.led_st)
      × (t.flash_timer ≡ s.flash_timer || not (uses p s.led_st))
      × (out ≡ (if is_ok code then (p, st) ∷ [] else []))
set_flash_led_sets output p st tick s h t =
    let code = place-code output (request output p st tick s) h s.led_st t in
    (
      code_of (outcome output p st tick s).0,
      after output p st tick s,
      _,
      set_flash_led_steps output p st tick s,
      code,
      (λ q q0. rw code (lookup-place output (request output p st tick s) h q s.led_st q0 t)),
      place-table output (request output p st tick s) h s.led_st t,
      length-place output (request output p st tick s) h s.led_st,
      ap (λ (b : Bool). s.flash_timer || b)
          (place-makes_timer output (request output p st tick s) s.led_st h t),
      rw (writes_level-code_of (outcome output p st tick s).0) refl,
    )
