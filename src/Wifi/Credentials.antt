-- ===== src/Wifi/Credentials.antt =====
-- The names that the driver is given.
use esp32_common.Common.{
  ℕ, zero, suc, ◌+◌, ◌-◌, ◌≤◌, ◌<◌, ◌≡◌, refl, ap, ◌∙◌, Bool, true, false, Option, none, some, [],
  ◌∷◌, ◌++◌, ltb, leb, ◌==◌, if◌then◌else◌, length, take, drop, length-take, length-append, get_or,
  replicate, length-replicate, arith,
}
use esp32_common.Common.Memory.{Bytes, No, c_string, c_string-terminated, write_at}
use esp32_common.CrashHandler.Strings.{strlcpy, emptied}
use esp32_common.Wifi.Join.{Stored, choose, configure, ap_names}

take-No : (n : ℕ) (s : Bytes) → No 0 s → No 0 (take n s)
take-No zero s h = tt
take-No (suc n) [] h = tt
take-No (suc n) (c ∷ cs) h = (h.0, take-No n cs h.1)

take-take : (m n : ℕ) (s : Bytes) → m ≤ n → take m (take n s) ≡ take m s
take-take zero n s h = refl
take-take (suc m) zero s h = absurd (omega arith)
take-take (suc m) (suc n) [] h = refl
take-take (suc m) (suc n) (c ∷ cs) h = ap (λ (t : Bytes). c ∷ t) (take-take m n cs (omega arith))

-- An array shows what fits in front of a NUL.
c_string-strlcpy :
    (dst src : Bytes)
    → 0 < length dst
    → No 0 src
    → c_string (strlcpy dst src) ≡ take (length dst - 1) src
unfolding strlcpy
c_string-strlcpy [] src h p = absurd (omega arith)
c_string-strlcpy (d ∷ ds) src h p =
    let e : suc (length ds) - 1 ≡ length ds = omega arith in
    rw e (
      c_string-terminated (take (length ds) src) (drop (length (take (length ds) src)) ds)
        (take-No (length ds) src p))

-- Two copies, the second into an array that is no larger.
copied_twice :
    (dst src : Bytes) (n : ℕ)
    → 0 < length dst
    → length dst ≤ suc n
    → No 0 src
    → c_string (strlcpy dst (c_string (strlcpy (replicate (suc n) 0) src)))
      ≡ take (length dst - 1) src
copied_twice dst src n h h' p =
    let zeros : Bytes = replicate (suc n) 0 in
    let pad : Bytes = replicate n 0 in
    let e : length pad ≡ n = length-replicate n 0 in
    let size : length zeros - 1 ≡ n = omega (arith, e) in
    let first : c_string (strlcpy zeros src) ≡ take n src =
      c_string-strlcpy zeros src (omega (arith, e)) p ∙ ap (λ (m : ℕ). take m src) size in
    ap (λ (t : Bytes). c_string (strlcpy dst t)) first
    ∙ (c_string-strlcpy dst (take n src) h (take-No n src p)
        ∙ take-take (length dst - 1) n src (omega arith))

-- The password that the configuration shows.
abbrev pub shown_password : Option Bytes → Bytes
shown_password none = []
shown_password (some pass) = take 63 pass

abbrev pub Clean : Option Bytes → Type 0
Clean none = Unit {0}
Clean (some pass) = No 0 pass

emptied-shows : (s : Bytes) → 0 < length s → c_string (emptied s) ≡ []
unfolding emptied
emptied-shows [] h = absurd (omega arith)
emptied-shows (c ∷ cs) h = refl

copied-shows :
    (name : Bytes)
    → 0 < length name
    → No 0 name
    → 0 < length (c_string (strlcpy (replicate 33 0) name))
copied-shows [] h p = absurd (omega arith)
copied-shows (c ∷ cs) h p =
    let e = c_string-strlcpy (replicate 33 0) (c ∷ cs) (omega arith) p in
    let l = length-take 32 (c ∷ cs) in rw e (omega arith)

first_empty : (get_or (strlcpy (replicate 65 0) []) 0 0 == 0) ≡ true
unfolding strlcpy
first_empty = refl

first_full : (c : ℕ) (cs : Bytes) → get_or (strlcpy (replicate 65 0) (c ∷ cs)) 0 0 ≡ c
unfolding strlcpy
first_full c cs = refl

-- The password of the configuration, `use_pass` being that of the call.
configure-password :
    (ssid password use_ssid : Bytes) (pass : Option Bytes)
    → length password ≡ 64
    → Clean pass
    → c_string
        (configure
          (ssid, password)
          (use_ssid, elim pass [ none ↦ replicate 65 0 | some p ↦ strlcpy (replicate 65 0) p ])).1
      ≡ shown_password pass
unfolding configure
configure-password ssid password use_ssid none h clean = emptied-shows password (omega arith)
configure-password ssid password use_ssid (some []) h clean =
    ap
      (λ (b : Bool).
        c_string (
          if b
          then emptied password
          else strlcpy password (c_string (strlcpy (replicate 65 0) []))))
      first_empty
    ∙ emptied-shows password (omega arith)
configure-password ssid password use_ssid (some (c ∷ cs)) h clean =
    let copy : Bytes = strlcpy (replicate 65 0) (c ∷ cs) in
    let starts : (c == 0) ≡ false = let n = clean.0 in ground arith in
    let size : length password - 1 ≡ 63 = omega arith in
    ap (λ (b : Bool). c_string (if b then emptied password else strlcpy password (c_string copy)))
      (ap (λ (n : ℕ). n == 0) (first_full c cs) ∙ starts)
    ∙ (copied_twice password (c ∷ cs) 64 (omega arith) (omega arith) clean
        ∙ ap (λ (m : ℕ). take m (c ∷ cs)) size)

-- A name and a password without NUL are given to `wifi_join`, the name not empty, with the storage in
-- use: the configuration, an array of 32 bytes and one of 64, shows the first 31 bytes of the name and
-- the first 63 of the password, and an empty password where there is none, whatever it showed before.
configure-given :
    (name : Bytes) (pass : Option Bytes) (d : Stored) (ssid password : Bytes)
    → length ssid ≡ 32
    → length password ≡ 64
    → (0 < length name) × No 0 name
    → Clean pass
    → (c_string
          (configure
            (ssid, password)
            (choose (record { ssid = some name; pass = pass; usenvs = true }) d)).0
        ≡ take 31 name)
      × (c_string
            (configure
              (ssid, password)
              (choose (record { ssid = some name; pass = pass; usenvs = true }) d)).1
          ≡ shown_password pass)
unfolding configure choose
configure-given name pass d ssid password h h' named clean =
    let shows = copied-shows name named.0 named.1 in
    let full : ltb 0 (length (c_string (strlcpy (replicate 33 0) name))) ≡ true = ground arith in
    let size : length ssid - 1 ≡ 31 = omega arith in
    (
      rw full (
          copied_twice ssid name 32 (omega arith) (omega arith) named.1
          ∙ ap (λ (m : ℕ). take m name) size),
      configure-password ssid password (strlcpy (replicate 33 0) name) pass h' clean,
    )

-- A name of more than 31 bytes for the access point, which the configuration of the device has room for,
-- is written past the end of the array.
pub ap_names-fault :
    (ap_ssid ap_pass : Bytes) → 32 ≤ length ap_ssid → ap_names ap_ssid ap_pass ≡ none
unfolding ap_names write_at
ap_names-fault ap_ssid ap_pass h =
    let long = length-append ap_ssid (0 ∷ []) in
    let past : leb (0 + length (ap_ssid ++ (0 ∷ []))) 32 ≡ false = ground arith in
    let fault : write_at (replicate 32 0) 0 (ap_ssid ++ (0 ∷ [])) ≡ none =
      rw (past, write_at) refl in
    rw (fault, ap_names) refl
