-- ===== src/TcpLog/Lines.antt =====
-- A line of the log: its composition by `tcp_log_message`, and the line end that `tcp_log_task` adds.
use mathlib.Core.List.{append_assoc}
use esp32_common.Common.{
  ℕ, zero, suc, ◌+◌, ◌-◌, ◌≤◌, ◌<◌, ◌≡◌, refl, ap, sym, ◌∙◌, not, ◌&&◌, [], ◌∷◌, ◌++◌, ltb, ◌==◌,
  if◌then◌else◌, length, length-append, take, drop, length-drop, get_or, replicate,
  length-replicate, arith,
}
use esp32_common.Common.Memory.{
  Bytes, No, No-append, codes, c_string, c_string-terminated, take-length-append,
  drop-length-append,
}
use esp32_common.CrashHandler.Strings.{strlcpy}

-- `strlcpy(buf + used, src, sizeof(buf) - used)`
unfoldable pub strlcpy_at : Bytes → ℕ → Bytes → Bytes
strlcpy_at buf used src = take used buf ++ strlcpy (drop used buf) src

-- `buf` of `tcp_log_message`, an array of `size` zeros: the user, a separator, and the message.
unfoldable pub compose : ℕ → Bytes → Bytes → Bytes
compose size log_user message =
    let buf = strlcpy (replicate size 0) log_user in
    let used = length log_user in
    let buf' = strlcpy_at buf used (codes ":: ") in strlcpy_at buf' (used + 3) message

-- The line that `tcp_log_task` sends: a line end behind a text that has none, where there is room.
unfoldable pub with_newline : ℕ → Bytes → Bytes
with_newline size text =
    let len = length text in
    if ltb 0 len && (ltb len (size - 1) && not (get_or text (len - 1) 0 == b'\n'))
    then text ++ (b'\n' ∷ [])
    else text

-- A string that fits, with what stays behind its NUL.
strlcpy-fits :
    (dst src : Bytes)
    → length src < length dst
    → strlcpy dst src ≡ src ++ (0 ∷ drop (suc (length src)) dst)
unfolding strlcpy
strlcpy-fits [] src h = absurd (omega arith)
strlcpy-fits (d ∷ ds) src h = rw (take_all (length ds) src (omega arith)) refl
  where
    take_all : (n : ℕ) (s : Bytes) → length s ≤ n → take n s ≡ s
    take_all zero [] h = refl
    take_all zero (c ∷ cs) h = absurd (omega arith)
    take_all (suc n) [] h = refl
    take_all (suc n) (c ∷ cs) h = ap (λ (t : Bytes). c ∷ t) (take_all n cs (omega arith))

-- Behind a string, a copy starts over its NUL.
strlcpy_at-append :
    (xs rest src : Bytes) (n : ℕ)
    → n ≡ length xs
    → strlcpy_at (xs ++ rest) n src ≡ xs ++ strlcpy rest src
unfolding strlcpy_at
strlcpy_at-append xs rest src n e =
    rw e (rw (take-length-append xs rest) (rw (drop-length-append xs rest) refl))

take-add : (xs ys : Bytes) (n m : ℕ) → m ≡ length xs + n → take m (xs ++ ys) ≡ xs ++ take n ys
take-add [] ys n m e = let f : m ≡ n = omega arith in rw f refl
take-add (x ∷ xs) ys n zero e = absurd (omega arith)
take-add (x ∷ xs) ys n (suc m) e = ap (λ (t : Bytes). x ∷ t) (take-add xs ys n m (omega arith))

No-take : (n : ℕ) (s : Bytes) → No 0 s → No 0 (take n s)
No-take zero s h = tt
No-take (suc n) [] h = tt
No-take (suc n) (c ∷ cs) h = (h.0, No-take n cs h.1)

-- Behind a prefix, the array shows the prefix and as much of the string as fits.
shown :
    (xs ds src : Bytes) (size : ℕ)
    → No 0 xs
    → No 0 src
    → size ≡ length xs + suc (length ds)
    → c_string (xs ++ strlcpy (0 ∷ ds) src) ≡ take (size - 1) (xs ++ src)
unfolding strlcpy
shown xs ds src size p q e =
    let copied : Bytes = take (length ds) src in
    let tail : Bytes = drop (length copied) ds in
    rw (sym (append_assoc xs copied (0 ∷ tail))) (
      c_string-terminated (xs ++ copied) tail (No-append 0 xs copied p (No-take (length ds) src q))
      ∙ sym (take-add xs src (length ds) (size - 1) (omega arith)))

-- Where the array has room for the user, the separator and a byte more, it shows after
-- `tcp_log_message` the user, `:: ` and the message, cut to what fits in front of a NUL.
pub compose-shows :
    (size : ℕ) (log_user message : Bytes)
    → length log_user + 4 ≤ size
    → No 0 log_user
    → No 0 message
    → c_string (compose size log_user message)
      ≡ take (size - 1) ((log_user ++ codes ":: ") ++ message)
unfolding compose
compose-shows size user message room p q =
    let zeros : Bytes = replicate size 0 in
    let full : length zeros ≡ size = length-replicate size 0 in
    let d : Bytes = drop (suc (length user)) zeros in
    let d_size : length d ≡ size - suc (length user) =
      omega (arith, length-drop (suc (length user)) zeros) in
    let e : Bytes = drop 3 d in
    let e_size : length e ≡ size - suc (length user) - 3 = omega (arith, length-drop 3 d) in
    let first : strlcpy zeros user ≡ user ++ (0 ∷ d) = strlcpy-fits zeros user (omega arith) in
    let second : strlcpy (0 ∷ d) (codes ":: ") ≡ codes ":: " ++ (0 ∷ e) =
      strlcpy-fits (0 ∷ d) (codes ":: ") (omega arith) in
    let prefix : length (user ++ codes ":: ") ≡ length user + 3 =
      length-append user (codes ":: ") in
    rw first (
      rw (strlcpy_at-append user (0 ∷ d) (codes ":: ") (length user) refl) (
        rw second (
          rw (sym (append_assoc user (codes ":: ") (0 ∷ e))) (
            rw
              (strlcpy_at-append (user ++ codes ":: ") (0 ∷ e) message (length user + 3)
                (sym prefix))
              (shown (user ++ codes ":: ") e message size
                (No-append 0 user (codes ":: ") p (omega arith)) q (omega arith))))))
