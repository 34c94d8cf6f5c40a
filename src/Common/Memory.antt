-- ===== src/Common/Memory.antt =====
-- A C array of bytes: writes that must stay inside it, and the string that a pointer shows.
use Prim.Native.Char.{code}
use Prim.Native.String.{String}
use mathlib.Core.List.{append_assoc}
use esp32_common.Common.{
  zero, suc, Bool, false, true, ◌&&◌, sym, ◌∙◌, ◌<◌, length-append, ℕ, ◌+◌, ◌≤◌, ◌≡◌, ◌≢◌, refl, ap,
  Option, none, some, List, [], ◌∷◌, ◌++◌, arith, leb, ◌==◌, if◌then◌else◌, length, take, drop,
}

abbrev pub Bytes : Type 0
Bytes = List ℕ

-- The bytes of a string literal.
abbrev pub codes : String → Bytes
codes String.[] = []
codes (String.◌∷◌ c s) = code c ∷ codes s

-- What `memcpy(buf + pos, src, length src)` leaves of an array: its bytes before `pos`, the bytes
-- written, and the rest. `none` is a write past the end of the array.
unfoldable pub write_at : Bytes → ℕ → Bytes → Option Bytes
write_at buf pos src =
    if leb (pos + length src) (length buf)
    then some (take pos buf ++ (src ++ drop (pos + length src) buf))
    else none

-- The string that a `char *` shows: the bytes up to the first NUL.
abbrev pub c_string : Bytes → Bytes
c_string [] = []
c_string (c ∷ cs) = if c == 0 then [] else c ∷ c_string cs

-- Whether `strcmp` of two strings is 0.
abbrev pub same : Bytes → Bytes → Bool
same [] [] = true
same (a ∷ x) (b ∷ y) = (a == b) && same x y
same _ _ = false

abbrev pub No : ℕ → Bytes → Type 0
No b [] = Unit {0}
No b (c ∷ cs) = (c ≢ b) × No b cs

-- A string without a NUL is read back whole in front of its terminator.
pub c_string-terminated : (s rest : Bytes) → No 0 s → c_string (s ++ (0 ∷ rest)) ≡ s
c_string-terminated [] rest h = refl
c_string-terminated (c ∷ cs) rest h = ground (arith, c_string-terminated cs rest h.1)

pub length-c_string : (s : Bytes) → length (c_string s) ≤ length s
length-c_string [] = omega arith
length-c_string (c ∷ cs) = ground (arith, length-c_string cs)

pub No-append : (b : ℕ) (xs ys : Bytes) → No b xs → No b ys → No b (xs ++ ys)
No-append b [] ys hx hy = hy
No-append b (x ∷ xs) ys hx hy = (hx.0, No-append b xs ys hx.1 hy)

pub take-length-append : (xs ys : Bytes) → take (length xs) (xs ++ ys) ≡ xs
take-length-append [] ys = refl
take-length-append (x ∷ xs) ys = ap (◌∷◌ x) (take-length-append xs ys)

drop_nil : (n : ℕ) → drop {A = ℕ} n [] ≡ []
drop_nil zero = refl
drop_nil (suc n) = refl

pub drop-drop : (m n : ℕ) (xs : Bytes) → drop n (drop m xs) ≡ drop (m + n) xs
drop-drop zero n xs = let e : n ≡ 0 + n = omega arith in ap (λ (t : ℕ). drop t xs) e
drop-drop (suc m) n [] = drop_nil n ∙ sym (drop_nil (suc m + n))
drop-drop (suc m) n (x ∷ xs) =
    let e : suc (m + n) ≡ suc m + n = omega arith in
    drop-drop m n xs ∙ ap (λ (t : ℕ). drop t (x ∷ xs)) e

pub drop-length-append : (xs ys : Bytes) → drop (length xs) (xs ++ ys) ≡ ys
drop-length-append [] ys = refl
drop-length-append (x ∷ xs) ys = drop-length-append xs ys

-- Behind the bytes `xs`, a write of `src` takes the place of the bytes that follow.
pub write_at-append :
    (xs free src : Bytes)
    → length src ≤ length free
    → write_at (xs ++ free) (length xs) src ≡ some ((xs ++ src) ++ drop (length src) free)
unfolding write_at
write_at-append xs free src h =
    let fits : leb (length xs + length src) (length (xs ++ free)) ≡ true =
      ground (arith, length-append xs free) in
    rw (fits, take-length-append, ← drop-drop, drop-length-append, append_assoc)

pub write_at_full :
    (xs free src : Bytes) → length free < length src → write_at (xs ++ free) (length xs) src ≡ none
unfolding write_at
write_at_full xs free src h =
    let full : leb (length xs + length src) (length (xs ++ free)) ≡ false =
      ground (arith, length-append xs free) in
    rw full
