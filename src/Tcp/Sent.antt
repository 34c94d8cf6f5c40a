-- ===== src/Tcp/Sent.antt =====
-- What the loops of `send_task` of the server and of COMMINIT send.
use esp32_common.Common.{
  ℕ, zero, suc, ◌+◌, ◌-◌, ◌*◌, ◌≤◌, ◌≡◌, refl, sym, ap, ◌∙◌, inl, inr, Bool, true, false, List, [],
  ◌∷◌, ◌++◌, arith, leb, ◌==◌, Bool-cases, length, take, drop,
}
use Prim.Native.Nat.{min}
use esp32_common.Common.Memory.{Bytes, drop-drop}
use esp32_common.Tcp.Sending.{
  Answer, End, send_loop, send_bytes, send_task, is_whole, kind_of, took, whole, broken, endless,
}

pub take-more : (k m : ℕ) (xs : Bytes) → take k xs ++ take m (drop k xs) ≡ take (k + m) xs
take-more k m [] = rw (take_nil k) (rw (drop_nil k) (rw (take_nil m) (rw (take_nil (k + m)) refl)))
  where
    take_nil : (n : ℕ) → take {A = ℕ} n [] ≡ []
    take_nil zero = refl
    take_nil (suc n) = refl

    drop_nil : (n : ℕ) → drop {A = ℕ} n [] ≡ []
    drop_nil zero = refl
    drop_nil (suc n) = refl
take-more zero m (x ∷ xs) = let e : zero + m ≡ m = omega arith in rw e refl
take-more (suc k) m (x ∷ xs) =
    let e : suc k + m ≡ suc (k + m) = omega arith in
    rw e (ap (λ (t : Bytes). x ∷ t) (take-more k m xs))

-- What the loop over bytes has sent from `written` on: the next bytes of the memory, all of them
-- exactly if it ends for that reason.
record Sends (memory : Bytes) (size written : ℕ) (r : Bytes × End) : Type 0 where
  count : ℕ
  bytes : r.0 ≡ take count (drop written memory)
  at_most : written + count ≤ size
  all : is_whole r.1 ≡ (written + count == size)

none_sent :
    (memory : Bytes) (size written : ℕ) (e : End)
    → written ≤ size
    → is_whole e ≡ (written + 0 == size)
    → Sends memory size written ([], e)
none_sent memory size written e h all = record {
  count = 0;
  bytes = refl;
  at_most = omega arith;
  all = all;
}

send_loop-Sends :
    (memory : Bytes) (size : ℕ) (answer : ℕ → Answer) (fuel i written : ℕ)
    → written ≤ size
    → Sends memory size written (send_loop 1 memory size answer fuel i written)
unfolding send_loop
send_loop-Sends memory size answer zero i written h = elim (Bool-cases (leb size written)) [
  | inl full ↦ rw full (none_sent memory size written whole h (ground arith))
  | inr part ↦ rw part (none_sent memory size written endless h (ground arith))
]
send_loop-Sends memory size answer (suc fuel) i written h = elim (Bool-cases (leb size written)) [
  | inl full ↦ rw (full, send_loop) (none_sent memory size written whole h (ground arith))
  | inr part ↦ elim (kind_of (answer i)) [
    | inl e ↦ rw (part, e, send_loop) (none_sent memory size written broken h (ground arith))
    | inr (n, e) ↦
        let k = min n (size - written) in
        let r = send_loop-Sends memory size answer fuel (suc i) (written + k) (omega arith) in
        let joined : take k (drop (1 * written) memory)
              ++ (send_loop 1 memory size answer fuel (suc i) (written + k)).0
            ≡ take (k + r.count) (drop written memory) =
          let one : 1 * written ≡ written = omega arith in
          rw one (
            rw r.bytes (
              rw (sym (drop-drop written k memory)) (take-more k r.count (drop written memory)))) in
        rw (part, e, send_loop)
          (record {
            count = k + r.count;
            bytes = joined;
            at_most = let b = r.at_most in omega arith;
            all = let a = r.all in ground arith;
          })
  ]
]

-- Calls that all take a byte at least: the loop ends with the last byte.
send_loop-ends :
    (memory : Bytes) (size : ℕ) (answer : ℕ → Answer) (fuel i written : ℕ)
    → size ≤ written + fuel
    → ((j : ℕ) → (n : ℕ) × (answer j ≡ took (suc n)))
    → (send_loop 1 memory size answer fuel i written).1 ≡ whole
unfolding send_loop
send_loop-ends memory size answer zero i written h takes =
    let full : leb size written ≡ true = ground arith in rw full refl
send_loop-ends memory size answer (suc fuel) i written h takes =
    let (n, e) = takes i in
    elim (Bool-cases (leb size written)) [
      | inl full ↦ rw (full, send_loop) refl
      | inr part ↦
          rw (part, e, send_loop)
            (send_loop-ends memory size answer fuel (suc i) (written + min (suc n) (size - written))
              (ground arith) takes)
    ]

-- Every call takes something.
abbrev pub Takes : (ℕ → Answer) → Type 0
Takes answer = (j : ℕ) → (n : ℕ) × (answer j ≡ took (suc n))

pub send_bytes-whole :
    (m : Bytes) (size : ℕ) (answer : ℕ → Answer)
    → length m ≡ size
    → Takes answer
    → send_bytes m size answer ≡ (m, whole)
unfolding send_bytes
send_bytes-whole m size answer e takes =
    let ends = send_loop-ends m size answer size 0 0 (omega arith) takes in
    let r = send_loop-Sends m size answer size 0 0 (omega arith) in
    let all : true ≡ (0 + r.count == size) = ap is_whole (sym ends) ∙ r.all in
    let count : r.count ≡ size = ground arith in
    let bytes : (send_loop 1 m size answer size 0 0).0 ≡ m =
      r.bytes ∙ (rw count (rw (sym e) (take_whole m))) in
    λ i. (bytes i, ends i)
  where
    take_whole : (xs : Bytes) → take (length xs) xs ≡ xs
    take_whole [] = refl
    take_whole (x ∷ xs) = ap (λ (t : Bytes). x ∷ t) (take_whole xs)

-- Whatever the socket answers, the bytes of a message that leave are its first bytes, in order and
-- each once, and the loop ends as whole exactly if these are all.
pub send_bytes-prefix :
    (m : Bytes) (size : ℕ) (answer : ℕ → Answer)
    → (count : ℕ) × ((send_bytes m size answer).0 ≡ take count m)
      × (count ≤ size)
      × (is_whole (send_bytes m size answer).1 ≡ (count == size))
unfolding send_bytes
send_bytes-prefix m size answer =
    let r = send_loop-Sends m size answer size 0 0 (omega arith) in
    let none : 0 + r.count ≡ r.count = omega arith in
    (r.count, r.bytes, (let b = r.at_most in omega arith), r.all ∙ ap (λ (c : ℕ). c == size) none)

-- The messages that come while the link is CONNECTED, one behind the other.
abbrev pub concat : List (Bool × Bytes) → Bytes
concat [] = []
concat ((true, m) ∷ ms) = m ++ concat ms
concat ((false, m) ∷ ms) = concat ms

-- All of the list have this length.
abbrev pub Sized : ℕ → List (Bool × Bytes) → Type 0
Sized size [] = Unit {0}
Sized size ((is_connected, m) ∷ ms) = (length m ≡ size) × Sized size ms

-- While every call of `send` takes a byte at least, `send_task` of the server sends the messages that
-- the queue delivers while the link is CONNECTED, whole and in their order, whatever the pieces.
pub send_task-whole :
    (size : ℕ) (answers : ℕ → ℕ → Answer) (ms : List (Bool × Bytes))
    → Sized size ms
    → ((i : ℕ) → Takes (answers i))
    → send_task size answers ms ≡ concat ms
unfolding send_task
send_task-whole size answers [] sized takes = refl
send_task-whole size answers ((true, m) ∷ ms) sized takes =
    rw (send_bytes-whole m size (answers 0) sized.0 (takes 0)) (
      ap (λ (t : Bytes). m ++ t)
        (send_task-whole size (λ i. answers (suc i)) ms sized.1 (λ i. takes (suc i))))
send_task-whole size answers ((false, m) ∷ ms) sized takes =
    send_task-whole size (λ i. answers (suc i)) ms sized.1 (λ i. takes (suc i))
