-- ===== src/MqttCtrl/Words.antt =====
-- The words of a command, and what trimming and `strtok` make of them.
use mathlib.Core.List.{append_assoc, append-nil}
use esp32_common.Common.{
  ℕ, zero, suc, ◌+◌, ◌≤◌, ◌<◌, ◌≡◌, refl, ap, ◌∙◌, Bool, true, false, not, ◌&&◌, List, [], ◌∷◌,
  ◌++◌, ◌==◌, length, length-append, get_or, arith,
}
use esp32_common.Common.Memory.{Bytes, c_string, take-length-append}
use esp32_common.MqttCtrl.Message.{is_eol, trim, payload_of, is_separator, ended, strtok}

-- A byte that a word may have.
abbrev pub is_plain : ℕ → Bool
is_plain c = not (is_separator c) && (not (is_eol c) && not (c == 0))

abbrev pub all_plain : Bytes → Bool
all_plain [] = true
all_plain (c ∷ cs) = is_plain c && all_plain cs

-- Words have at least one byte.
abbrev pub all_words : List Bytes → Bool
all_words [] = true
all_words (w ∷ ws) = not (length w == 0) && (all_plain w && all_words ws)

-- The words with one space between them.
abbrev pub spaced : Bytes → List Bytes → Bytes
spaced w [] = w
spaced w (v ∷ vs) = w ++ (b' ' ∷ spaced v vs)

abbrev pub all_eol : Bytes → Bool
all_eol [] = true
all_eol (c ∷ cs) = is_eol c && all_eol cs

-- Bytes that are neither a line end nor NUL.
abbrev is_inner : ℕ → Bool
is_inner c = not (is_eol c) && not (c == 0)

abbrev all_inner : Bytes → Bool
all_inner [] = true
all_inner (c ∷ cs) = is_inner c && all_inner cs

all_inner-append :
    (xs ys : Bytes) → all_inner xs ≡ true → all_inner ys ≡ true → all_inner (xs ++ ys) ≡ true
all_inner-append [] ys h g = g
all_inner-append (x ∷ xs) ys h g = ground (arith, all_inner-append xs ys)

plain_inner : (w : Bytes) → all_plain w ≡ true → all_inner w ≡ true
plain_inner [] h = refl
plain_inner (c ∷ cs) h = ground (arith, plain_inner cs)

spaced_inner :
    (w : Bytes) (ws : List Bytes) → all_words (w ∷ ws) ≡ true → all_inner (spaced w ws) ≡ true
spaced_inner w [] h = plain_inner w (ground arith)
spaced_inner w (v ∷ vs) h =
    let rest : all_inner (b' ' ∷ spaced v vs) ≡ true = spaced_inner v vs (ground arith) in
    all_inner-append w (b' ' ∷ spaced v vs) (plain_inner w (ground arith)) rest

c_string_inner : (s : Bytes) → all_inner s ≡ true → c_string s ≡ s
c_string_inner [] h = refl
c_string_inner (c ∷ cs) h = ground (arith, c_string_inner cs)

get_or-inner :
    (xs ys : Bytes) (i : ℕ)
    → all_inner xs ≡ true
    → i < length xs
    → is_eol (get_or (xs ++ ys) i 0) ≡ false
get_or-inner [] ys i h lt = absurd (omega arith)
get_or-inner (x ∷ xs) ys zero h lt = ground arith
get_or-inner (x ∷ xs) ys (suc i) h lt = get_or-inner xs ys i (ground arith) (omega arith)

get_or-eol :
    (xs ys : Bytes) (i : ℕ)
    → all_eol ys ≡ true
    → i < length ys
    → is_eol (get_or (xs ++ ys) (length xs + i) 0) ≡ true
get_or-eol [] [] i h lt = absurd (omega arith)
get_or-eol [] (y ∷ ys) zero h lt = ground arith
get_or-eol [] (y ∷ ys) (suc i) h lt =
    let e : 0 + suc i ≡ suc (0 + i) = omega arith in
    rw e (get_or-eol [] ys i (ground arith) (omega arith))
get_or-eol (x ∷ xs) ys i h lt =
    let e : suc (length xs) + i ≡ suc (length xs + i) = omega arith in
    rw e (get_or-eol xs ys i h lt)

trim-inner : (xs ys : Bytes) (n : ℕ) → all_inner xs ≡ true → n ≤ length xs → trim n (xs ++ ys) ≡ n
unfolding trim
trim-inner xs ys zero h le = refl
trim-inner xs ys (suc n) h le = rw (get_or-inner xs ys n h le) refl

trim-eol :
    (xs ys : Bytes) (n : ℕ)
    → all_inner xs ≡ true
    → all_eol ys ≡ true
    → n ≤ length ys
    → trim (length xs + n) (xs ++ ys) ≡ length xs
unfolding trim
trim-eol xs ys zero h g le =
    let e : length xs + 0 ≡ length xs = omega arith in
    rw e (trim-inner xs ys (length xs) h (omega arith))
trim-eol xs ys (suc n) h g le =
    let e : length xs + suc n ≡ suc (length xs + n) = omega arith in
    rw e (rw (get_or-eol xs ys n g le) (trim-eol xs ys n h g (omega arith)))

-- The payload of a command that ends in line ends.
pub payload_of-spaced :
    (w : Bytes) (ws : List Bytes) (eols : Bytes)
    → all_words (w ∷ ws) ≡ true
    → all_eol eols ≡ true
    → payload_of (spaced w ws ++ eols) ≡ spaced w ws ++ (b' ' ∷ [])
unfolding payload_of
payload_of-spaced w ws eols h g =
    let inner = spaced_inner w ws h in
    rw (length-append (spaced w ws) eols) (
      rw (trim-eol (spaced w ws) eols (length eols) inner g (omega arith)) (
        rw (take-length-append (spaced w ws) eols) (
          c_string_inner (spaced w ws ++ (b' ' ∷ []))
            (all_inner-append (spaced w ws) (b' ' ∷ []) inner refl))))

strtok-plain :
    (word w rest : Bytes) → all_plain w ≡ true → strtok word (w ++ rest) ≡ strtok (word ++ w) rest
unfolding strtok
strtok-plain word [] rest h = rw (append-nil word) refl
strtok-plain word (c ∷ cs) rest h =
    let plain : is_separator c ≡ false = ground arith in
    rw plain (
      strtok-plain (word ++ (c ∷ [])) cs rest (ground arith)
      ∙ rw (append_assoc word (c ∷ []) cs) refl)

ended_word :
    (w : Bytes) (tokens : List Bytes) → (length w == 0) ≡ false → ended w tokens ≡ w ∷ tokens
ended_word [] tokens h = absurd (let bad : true ≡ false = h in cc)
ended_word (c ∷ cs) tokens h = refl

-- The tokens of the payload are the words.
pub strtok-spaced :
    (w : Bytes) (ws : List Bytes)
    → all_words (w ∷ ws) ≡ true
    → strtok [] (spaced w ws ++ (b' ' ∷ [])) ≡ w ∷ ws
unfolding strtok
strtok-spaced w [] h = strtok-plain [] w (b' ' ∷ []) (ground arith) ∙ ended_word w [] (ground arith)
strtok-spaced w (v ∷ vs) h = rw (append_assoc w (b' ' ∷ spaced v vs) (b' ' ∷ [])) (
    strtok-plain [] w (b' ' ∷ (spaced v vs ++ (b' ' ∷ []))) (ground arith)
    ∙ (ended_word w (strtok [] (spaced v vs ++ (b' ' ∷ []))) (ground arith)
        ∙ ap (λ (t : List Bytes). w ∷ t) (strtok-spaced v vs (ground arith))))
