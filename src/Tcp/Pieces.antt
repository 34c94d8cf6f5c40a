-- ===== src/Tcp/Pieces.antt =====
-- What the loops that step by whole messages send: `send_task` of tcp/tcp_client.c, and those of COMMACK and
-- COMMNACK in tcp/tcp_server.c.
use esp32_common.Common.{
  ℕ, zero, suc, ◌+◌, ◌-◌, ◌*◌, ◌≤◌, ◌<◌, ◌≡◌, refl, ap, ◌∙◌, true, false, [], ◌∷◌, ◌++◌, arith, leb,
  length, take, drop,
}
use Prim.Native.Nat.{min}
use native.Mathlib.Nat.{le-mul_of_pos_right}
use mathlib.Core.List.{append-nil}
use esp32_common.Common.Memory.{Bytes}
use esp32_common.Tcp.Sending.{Answer, send_loop, send_message, took, whole}

-- A loop that has sent all.
loop_done :
    (stride : ℕ) (memory : Bytes) (size : ℕ) (answer : ℕ → Answer) (fuel i : ℕ)
    → send_loop stride memory size answer fuel i size ≡ ([], whole)
unfolding send_loop
loop_done stride memory size answer zero i =
    let full : leb size size ≡ true = ground arith in rw full refl
loop_done stride memory size answer (suc fuel) i =
    let full : leb size size ≡ true = ground arith in rw (full, send_loop) refl

-- A round that takes `k` bytes.
loop_takes :
    (stride : ℕ) (memory : Bytes) (size : ℕ) (answer : ℕ → Answer) (fuel i written n k : ℕ)
    → answer i ≡ took n
    → min n (size - written) ≡ k
    → written < size
    → 0 < fuel
    → send_loop stride memory size answer fuel i written ≡ (
        let rest = send_loop stride memory size answer (fuel - 1) (suc i) (written + k) in
        (take k (drop (stride * written) memory) ++ rest.0, rest.1))
unfolding send_loop
loop_takes stride memory size answer zero i written n k e takes room f = absurd (omega arith)
loop_takes stride memory size answer (suc fuel) i written n k e takes room f =
    let part : leb size written ≡ false = ground arith in
    let pred : suc fuel - 1 ≡ fuel = omega arith in rw (part, e, takes, pred, send_loop) refl

take-front : (n : ℕ) (xs ys : Bytes) → n ≤ length xs → take n (xs ++ ys) ≡ take n xs
take-front zero xs ys h = refl
take-front (suc n) [] ys h = absurd (omega arith)
take-front (suc n) (x ∷ xs) ys h = ap (λ (t : Bytes). x ∷ t) (take-front n xs ys (omega arith))

take_whole : (xs : Bytes) → take (length xs) xs ≡ xs
take_whole [] = refl
take_whole (x ∷ xs) = ap (λ (t : Bytes). x ∷ t) (take_whole xs)

drop-behind : (n : ℕ) (xs ys : Bytes) → length xs ≤ n → drop n (xs ++ ys) ≡ drop (n - length xs) ys
drop-behind n [] ys h = let e : n - 0 ≡ n = omega arith in rw e refl
drop-behind zero (x ∷ xs) ys h = absurd (omega arith)
drop-behind (suc n) (x ∷ xs) ys h =
    let e : suc n - suc (length xs) ≡ n - length xs = omega arith in
    rw e (drop-behind n xs ys (omega arith))

-- Where the first call of `send` takes the whole message, nothing else is sent.
pub send_message-at_once :
    (m behind : Bytes) (n : ℕ) (answer : ℕ → Answer)
    → answer 0 ≡ took n
    → length m ≤ n
    → send_message (m ++ behind) (length m) answer ≡ (m, whole)
unfolding send_message
send_message-at_once [] behind n answer e h = loop_done 0 behind 0 answer 0 0
send_message-at_once (x ∷ xs) behind n answer e h =
    let m = x ∷ xs in
    let size = length m in
    let start : size * 0 ≡ 0 = omega arith in
    let next : 0 + size ≡ size = omega arith in
    let one =
      loop_takes size (m ++ behind) size answer size 0 0 n size e (omega arith) (omega arith)
        (omega arith) in
    let bytes : take size (drop (size * 0) (m ++ behind)) ≡ m =
      rw start (take-front size m behind (omega arith) ∙ take_whole m) in
    let done : send_loop size (m ++ behind) size answer (size - 1) 1 (0 + size) ≡ ([], whole) =
      rw next (loop_done size (m ++ behind) size answer (size - 1) 1) in
    one ∙ (rw bytes (rw done (rw (append-nil m) refl)))

-- Where the first call of `send` takes `n` bytes of a message but not all, and the second the rest of
-- the count, the loop of `send_task` of tcp_client.c, and the same one around COMMACK and COMMNACK of
-- tcp_server.c, sends the first bytes of the message and then
-- bytes that lie behind the message in memory, `size * n` bytes from its address.
pub send_message-pieces :
    (m behind : Bytes) (n : ℕ) (answer : ℕ → Answer)
    → 0 < n
    → n < length m
    → answer 0 ≡ took n
    → answer 1 ≡ took (length m - n)
    → send_message (m ++ behind) (length m) answer
      ≡ (take n m ++ take (length m - n) (drop (length m * n - length m) behind), whole)
unfolding send_message
send_message-pieces m behind n answer h h' first second =
    let size = length m in
    let memory = m ++ behind in
    let start : size * 0 ≡ 0 = omega arith in
    let next : 0 + n ≡ n = omega arith in
    let full : n + (size - n) ≡ size = omega arith in
    let one =
      loop_takes size memory size answer size 0 0 n n first (omega arith) (omega arith)
        (omega arith) in
    let two =
      loop_takes size memory size answer (size - 1) 1 n (size - n) (size - n) second (omega arith)
        (omega arith) (omega arith) in
    let sent : take n (drop (size * 0) memory) ≡ take n m =
      rw start (take-front n m behind (omega arith)) in
    let stray : drop (size * n) memory ≡ drop (size * n - size) behind =
      drop-behind (size * n) m behind (le-mul_of_pos_right size h) in
    let done : send_loop size memory size answer (size - 1 - 1) 2 (n + (size - n)) ≡ ([], whole) =
      rw full (loop_done size memory size answer (size - 1 - 1) 2) in
    one
    ∙ (rw sent (
        rw next (
          rw two (
            rw done (
              rw stray (rw (append-nil (take (size - n) (drop (size * n - size) behind))) refl))))))
