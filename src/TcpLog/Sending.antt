-- ===== src/TcpLog/Sending.antt =====
-- The branch of `tcp_log_task` that sends a line over TCP, with what the socket answers as input.
use mathlib.Core.List.{append_assoc}
use esp32_common.Common.{
  ℕ, zero, suc, ◌≤◌, ◌≡◌, ◌≢◌, refl, ap, ◌∙◌, Bool, true, false, not, ◌&&◌, ◌||◌, [], ◌∷◌, ◌++◌,
  ◌==◌, if◌then◌else◌, length, take, take-append-drop, drop, length-drop, arith, inl, inr,
  Bool-cases,
}
use esp32_common.Common.Memory.{Bytes}
use esp32_common.TcpLog.Lines.{with_newline}

-- What a call of `send` returns: the number of bytes it took, or a failure; `busy` is EWOULDBLOCK or
-- EAGAIN.
pub data Send : Type 0 where
  sent : ℕ → Send
  failed : Bool → Send

-- How the loop ends: all is sent, `send` took nothing or was busy, or the connection is broken.
pub data End : Type 0 where
  whole stopped broken out_of_fuel : End

-- The loop at the bytes that are left, with the answers from the next call on: the bytes taken and
-- the end. Each round but the last sends a byte, so the number of bytes is fuel enough.
unfoldable pub send_loop : ℕ → (ℕ → Send) → ℕ → Bytes → Bytes × End
send_loop fuel answer i [] = ([], whole)
send_loop zero answer i (c ∷ cs) = ([], out_of_fuel)
send_loop (suc fuel) answer i (c ∷ cs) = elim (answer i) [
  | sent zero ↦ ([], stopped)
  | sent (suc n) ↦
      let rest = send_loop fuel answer (suc i) (drop n cs) in ((c ∷ take n cs) ++ rest.0, rest.1)
  | failed busy ↦ ([], if busy then stopped else broken)
]

-- `init_ok` is whether `tcp_log_init(-1)` returns ESP_OK; the connections are the two calls of
-- `reconnect`, in front of the loop and after a failure in it.
pub record Env : Type 0 where
  pub init_ok : Bool
  pub connects : Bool
  pub connects_again : Bool
  pub answer : ℕ → Send

abbrev pub open_after : Env → End → Bool
open_after env broken = env.connects_again
open_after env _ = true

-- `open` is `sendsock >= 0`. The result is the bytes that the socket took, and whether there is a
-- socket for the next line.
unfoldable pub send_line : ℕ → Env → Bool → Bytes → Bytes × Bool
send_line size env is_open text =
    if not env.init_ok
    then ([], is_open)
    else if not is_open && not env.connects
    then ([], false)
    else let line = with_newline size text in
      let r = send_loop (length line) env.answer 0 line in (r.0, open_after env r.1)

abbrev pub is_whole : End → Bool
is_whole whole = true
is_whole _ = false

-- What the loop took is a prefix of the bytes, all of them exactly if it ends for that reason, and
-- the fuel is enough.
record Sends (rest : Bytes) (r : Bytes × End) : Type 0 where
  left : Bytes
  prefix : r.0 ++ left ≡ rest
  all : is_whole r.1 ≡ (length left == 0)
  enough : r.1 ≢ out_of_fuel

-- What an answer can be.
data Answer (s : Send) : Type 0 where
  nothing : s ≡ sent 0 → Answer s
  bytes : (n : ℕ) → s ≡ sent (suc n) → Answer s
  failure : (busy : Bool) → s ≡ failed busy → Answer s

kind_of : (s : Send) → Answer s
kind_of (sent zero) = nothing refl
kind_of (sent (suc n)) = bytes n refl
kind_of (failed busy) = failure busy refl

none_sent :
    (rest : Bytes) (e : End)
    → is_whole e ≡ (length rest == 0)
    → e ≢ out_of_fuel
    → Sends rest ([], e)
none_sent rest e all enough = record { left = rest; prefix = refl; all = all; enough = enough }

send_loop-Sends :
    (fuel : ℕ) (answer : ℕ → Send) (i : ℕ) (rest : Bytes)
    → length rest ≤ fuel
    → Sends rest (send_loop fuel answer i rest)
unfolding send_loop
send_loop-Sends fuel answer i [] h = record {
  left = [];
  prefix = refl;
  all = refl;
  enough = λ e. cc;
}
send_loop-Sends zero answer i (c ∷ cs) h = absurd (omega arith)
send_loop-Sends (suc fuel) answer i (c ∷ cs) h = elim (kind_of (answer i)) [
  | nothing e ↦ rw (e, send_loop) (none_sent (c ∷ cs) stopped (ground arith) (λ p. cc))
  | failure true e ↦ rw (e, send_loop) (none_sent (c ∷ cs) stopped (ground arith) (λ p. cc))
  | failure false e ↦ rw (e, send_loop) (none_sent (c ∷ cs) broken (ground arith) (λ p. cc))
  | bytes n e ↦
      let r = send_loop-Sends fuel answer (suc i) (drop n cs) (omega (arith, length-drop n cs)) in
      let joined =
        append_assoc (c ∷ take n cs) (send_loop fuel answer (suc i) (drop n cs)).0 r.left
        ∙ (ap (λ (t : Bytes). (c ∷ take n cs) ++ t) r.prefix
            ∙ ap (λ (t : Bytes). c ∷ t) (take-append-drop n cs)) in
      rw (e, send_loop) (record { left = r.left; prefix = joined; all = r.all; enough = r.enough })
]

-- While every call of `send` takes something, the loop sends all.
send_loop-positive :
    (fuel : ℕ) (answer : ℕ → Send) (i : ℕ) (rest : Bytes)
    → length rest ≤ fuel
    → ((j : ℕ) → (n : ℕ) × (answer j ≡ sent (suc n)))
    → send_loop fuel answer i rest ≡ (rest, whole)
unfolding send_loop
send_loop-positive fuel answer i [] h takes = refl
send_loop-positive zero answer i (c ∷ cs) h takes = absurd (omega arith)
send_loop-positive (suc fuel) answer i (c ∷ cs) h takes =
    let (n, e) = takes i in
    rw (e, send_loop)
      (rw
        (send_loop-positive fuel answer (suc i) (drop n cs) (omega (arith, length-drop n cs)) takes)
        (λ k. (c ∷ take-append-drop n cs k, whole)))

-- Whatever the server and the socket do, the bytes of a line that reach the socket are a prefix of
-- the line, with its line end, in order and each once.
pub send_line-prefix :
    (size : ℕ) (env : Env) (is_open : Bool) (text : Bytes)
    → (left : Bytes) × ((send_line size env is_open text).0 ++ left ≡ with_newline size text)
unfolding send_line
send_line-prefix size env is_open text =
    let line = with_newline size text in
    elim (Bool-cases env.init_ok) [
      | inr refused ↦ (line, rw refused refl)
      | inl ready ↦ elim (Bool-cases (not is_open && not env.connects)) [
        | inl alone ↦ (line, rw ready (rw alone refl))
        | inr there ↦
            let r = send_loop-Sends (length line) env.answer 0 line (omega arith) in
            (r.left, rw ready (rw there r.prefix))
      ]
    ]

-- Where the log is enabled, there is a socket or the server can be reached, and every call of `send`
-- takes at least one byte, however few: the whole line reaches the socket, which stays open.
pub send_line-whole :
    (size : ℕ) (env : Env) (is_open : Bool) (text : Bytes)
    → env.init_ok ≡ true
    → is_open || env.connects ≡ true
    → ((j : ℕ) → (n : ℕ) × (env.answer j ≡ sent (suc n)))
    → send_line size env is_open text ≡ (with_newline size text, true)
unfolding send_line
send_line-whole size env is_open text ready there takes =
    let connected : (not is_open && not env.connects) ≡ false = ground arith in
    rw
      (send_loop-positive (length (with_newline size text)) env.answer 0 (with_newline size text)
        (omega arith) takes)
      (rw ready (rw connected refl))
