-- ===== src/Tcp/Sending.antt =====
-- The loops around `send` of tcp/tcp_server.c and tcp/tcp_client.c, with the answers of the socket as
-- input, and the memory from the address of the message on.
use esp32_common.Common.{
  ℕ, zero, suc, ◌+◌, ◌-◌, ◌*◌, ◌≡◌, refl, ◌⊎◌, inl, inr, Bool, true, false, List, [], ◌∷◌, ◌++◌,
  leb, if◌then◌else◌, take, drop,
}
use Prim.Native.Nat.{min}
use esp32_common.Common.Memory.{Bytes}

-- What a call of `send` answers: the number of bytes it takes, all that it is given where these are
-- fewer, or an error.
pub data Answer : Type 0 where
  took : ℕ → Answer
  error : Answer

-- How a loop ends. A loop whose calls take nothing does not end.
pub data End : Type 0 where
  whole broken endless : End

-- The loop, of which round `i` is next, with `written` bytes sent. The address is
-- `stride * written` bytes behind that of the message: the stride is 1 for a pointer to bytes, and
-- the size of the message for a pointer to messages.
unfoldable pub send_loop : ℕ → Bytes → ℕ → (ℕ → Answer) → ℕ → ℕ → ℕ → Bytes × End
send_loop stride memory size answer zero i written =
    ([], if leb size written then whole else endless)
send_loop stride memory size answer (suc fuel) i written =
    if leb size written then ([], whole) else elim (answer i) [
      | error ↦ ([], broken)
      | took n ↦
          let k = min n (size - written) in
          let rest = send_loop stride memory size answer fuel (suc i) (written + k) in
          (take k (drop (stride * written) memory) ++ rest.0, rest.1)
    ]

-- The loops of `send_task` in tcp_server.c and of `tcp_client_task`: `(uint8_t *)&msg + written`.
unfoldable pub send_bytes : Bytes → ℕ → (ℕ → Answer) → Bytes × End
send_bytes memory size answer = send_loop 1 memory size answer size 0 0

-- The loops of `send_task` in tcp_client.c and of COMMACK and COMMNACK in `tcp_server`:
-- `(uint8_t *)(&msg + written)`.
unfoldable pub send_message : Bytes → ℕ → (ℕ → Answer) → Bytes × End
send_message memory size answer = send_loop size memory size answer size 0 0

-- `send_task` of tcp_server.c on the messages that the queue delivers, each with whether the link is
-- CONNECTED when it comes, and with the answers to the calls for it: a message behind an error is sent
-- all the same.
unfoldable pub send_task : ℕ → (ℕ → ℕ → Answer) → List (Bool × Bytes) → Bytes
send_task size answers [] = []
send_task size answers ((is_connected, m) ∷ ms) =
    (if is_connected then (send_bytes m size (answers 0)).0 else [])
    ++ send_task size (λ i. answers (suc i)) ms

-- `send_task` of tcp_client.c, which ends on an error.
unfoldable pub client_send_task : ℕ → (ℕ → ℕ → Answer) → List (Bytes × Bytes) → Bytes
client_send_task size answers [] = []
client_send_task size answers ((m, behind) ∷ ms) =
    let r = send_message (m ++ behind) size (answers 0) in
    let rest = client_send_task size (λ i. answers (suc i)) ms in
    r.0 ++ elim r.1 [ whole ↦ rest | _ ↦ [] ]

abbrev pub is_whole : End → Bool
is_whole whole = true
is_whole _ = false

pub kind_of : (a : Answer) → (a ≡ error) ⊎ ((n : ℕ) × (a ≡ took n))
kind_of error = inl refl
kind_of (took n) = inr (n, refl)
