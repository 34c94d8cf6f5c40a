-- ===== src/CrashHandler/Strings.antt =====
-- `crash_copy_string` of utils/crash_handler.c, and what C's string functions do to an array. A
-- source is the string up to its NUL.
use esp32_common.Common.{
  ℕ, zero, suc, ◌-◌, ◌<◌, ◌≡◌, refl, ap, Bool, true, false, ◌||◌, Option, none, some, [], ◌∷◌, ◌++◌,
  ◌==◌, length, length-append, take, length-take, drop, length-drop, arith,
}
use esp32_common.Common.Memory.{Bytes, c_string, c_string-terminated, No}

-- The loop `while (--dst_size && *src)` at the rest of the array, and the NUL behind it.
unfoldable pub copy_loop : Bytes → Bytes → Bytes
copy_loop [] src = []
copy_loop (d ∷ ds) [] = 0 ∷ ds
copy_loop (d ∷ []) (c ∷ cs) = 0 ∷ []
copy_loop (d ∷ d' ∷ ds) (c ∷ cs) = c ∷ copy_loop (d' ∷ ds) cs

-- `none` is a NULL source.
unfoldable pub crash_copy_string : Bytes → Option Bytes → Bytes
crash_copy_string [] src = []
crash_copy_string (d ∷ ds) none = 0 ∷ ds
crash_copy_string (d ∷ ds) (some src) = copy_loop (d ∷ ds) src

-- `array[0] = 0`.
unfoldable pub emptied : Bytes → Bytes
emptied [] = []
emptied (d ∷ ds) = 0 ∷ ds

-- `strlcpy`: as much of the string as fits in front of a NUL; the bytes behind the NUL stay.
unfoldable pub strlcpy : Bytes → Bytes → Bytes
strlcpy [] src = []
strlcpy (d ∷ ds) src = let copied = take (length ds) src in copied ++ (0 ∷ drop (length copied) ds)

-- `strlcat` for an array of `size` bytes that shows the string `dst`.
unfoldable pub strlcat : ℕ → Bytes → Bytes → Bytes
strlcat size dst src = dst ++ take (size - 1 - length dst) src

copy_loop-strlcpy : (dst src : Bytes) → copy_loop dst src ≡ strlcpy dst src
unfolding copy_loop strlcpy
copy_loop-strlcpy [] src = refl
copy_loop-strlcpy (d ∷ []) [] = refl
copy_loop-strlcpy (d ∷ d' ∷ ds) [] = refl
copy_loop-strlcpy (d ∷ []) (c ∷ cs) = refl
copy_loop-strlcpy (d ∷ d' ∷ ds) (c ∷ cs) =
    ap (λ (t : Bytes). c ∷ t) (copy_loop-strlcpy (d' ∷ ds) cs)

-- For an array and a string that is there, `crash_copy_string` leaves the array as `strlcpy` does.
pub crash_copy-strlcpy : (dst src : Bytes) → crash_copy_string dst (some src) ≡ strlcpy dst src
unfolding crash_copy_string strlcpy
crash_copy-strlcpy [] src = refl
crash_copy-strlcpy (d ∷ ds) src = copy_loop-strlcpy (d ∷ ds) src

-- Whether the array shows a string that ends inside it.
abbrev pub is_terminated : Bytes → Bool
is_terminated [] = false
is_terminated (c ∷ cs) = (c == 0) || is_terminated cs

pub terminated-append : (xs ys : Bytes) → is_terminated ys ≡ true → is_terminated (xs ++ ys) ≡ true
terminated-append [] ys h = h
terminated-append (x ∷ xs) ys h = ground (arith, terminated-append xs ys h)

pub strlcpy-terminated : (dst src : Bytes) → 0 < length dst → is_terminated (strlcpy dst src) ≡ true
unfolding strlcpy
strlcpy-terminated [] src h = absurd (omega arith)
strlcpy-terminated (d ∷ ds) src h =
    terminated-append (take (length ds) src) (0 ∷ drop (length (take (length ds) src)) ds) refl

pub emptied-terminated : (dst : Bytes) → 0 < length dst → is_terminated (emptied dst) ≡ true
unfolding emptied
emptied-terminated [] h = absurd (omega arith)
emptied-terminated (d ∷ ds) h = refl

pub crash_copy-terminated :
    (dst : Bytes) (src : Option Bytes)
    → 0 < length dst
    → is_terminated (crash_copy_string dst src) ≡ true
unfolding crash_copy_string
crash_copy-terminated [] src h = absurd (omega arith)
crash_copy-terminated (d ∷ ds) none h = refl
crash_copy-terminated (d ∷ ds) (some src) h =
    rw (copy_loop-strlcpy (d ∷ ds) src) (strlcpy-terminated (d ∷ ds) src h)

pub length-emptied : (dst : Bytes) → length (emptied dst) ≡ length dst
unfolding emptied
length-emptied [] = refl
length-emptied (d ∷ ds) = refl

pub length-strlcpy : (dst src : Bytes) → length (strlcpy dst src) ≡ length dst
unfolding strlcpy
length-strlcpy [] src = refl
length-strlcpy (d ∷ ds) src = omega (
  arith,
  length-append (take (length ds) src) (0 ∷ drop (length (take (length ds) src)) ds),
  length-take (length ds) src,
  length-drop (length (take (length ds) src)) ds,
)

pub length-crash_copy :
    (dst : Bytes) (src : Option Bytes) → length (crash_copy_string dst src) ≡ length dst
unfolding crash_copy_string
length-crash_copy [] src = refl
length-crash_copy (d ∷ ds) none = refl
length-crash_copy (d ∷ ds) (some src) =
    rw (copy_loop-strlcpy (d ∷ ds) src) (length-strlcpy (d ∷ ds) src)

No-take : (n : ℕ) (s : Bytes) → No 0 s → No 0 (take n s)
No-take zero s h = tt
No-take (suc n) [] h = tt
No-take (suc n) (c ∷ cs) h = (h.0, No-take n cs h.1)

-- The array then shows the string, cut to what fits in front of the NUL.
pub c_string-strlcpy :
    (dst src : Bytes) → No 0 src → c_string (strlcpy dst src) ≡ take (length dst - 1) src
unfolding strlcpy
c_string-strlcpy [] src h = refl
c_string-strlcpy (d ∷ ds) src h =
    let e : suc (length ds) - 1 ≡ length ds = omega arith in
    rw e (
      c_string-terminated (take (length ds) src) (drop (length (take (length ds) src)) ds)
        (No-take (length ds) src h))
