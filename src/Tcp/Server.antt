-- ===== src/Tcp/Server.antt =====
-- `tcp_server` of tcp/tcp_server.c: its state, the receive loop, and the accept loop.
use esp32_common.Common.{
  ℕ, ◌-◌, ◌*◌, ◌/◌, ◌%◌, ◌^◌, ◌≡◌, Bool, true, false, not, List, [], ◌∷◌, ◌++◌, leb, ◌==◌,
  if◌then◌else◌, length, drop,
}
use esp32_common.Common.Memory.{Bytes}
use esp32_common.Tcp.Sending.{Answer, End, send_message, whole, broken, endless}

-- `socket_message_t` is declared by the application: its size, its members `ts` and `cmd_id`, and the
-- assignment of both.
pub record Layout : Type 0 where
  pub size : ℕ
  pub ts : Bytes → ℕ
  pub cmd_id : Bytes → ℕ
  pub set_message : ℕ → ℕ → Bytes → Bytes

-- What an assignment to a whole message is.
pub record IsLayout (l : Layout) : Type 0 where
  pub ts-set_message :
      (t c : ℕ) (m : Bytes) → length m ≡ l.size → l.ts (l.set_message t c m) ≡ t % 2 ^ 64
  pub cmd_id-set_message :
      (t c : ℕ) (m : Bytes) → length m ≡ l.size → l.cmd_id (l.set_message t c m) ≡ c % 2 ^ 32
  pub length-set_message :
      (t c : ℕ) (m : Bytes) → length m ≡ l.size → length (l.set_message t c m) ≡ l.size

abbrev pub idle : ℕ
idle = 1

abbrev pub connected : ℕ
connected = 2

abbrev pub comminit : ℕ
comminit = 1

abbrev pub commack : ℕ
commack = 2

abbrev pub commnack : ℕ
commnack = 3

abbrev pub tcp_queue_size : ℕ
tcp_queue_size = 50

-- What a call of `recv` with MSG_WAITALL returns; the bytes are at least one, and as many as asked for
-- unless the connection ends behind them.
pub data Received : Type 0 where
  failure closed : Received
  data_of : Bytes → Received

-- The bytes in front of a buffer.
unfoldable pub store : Bytes → Bytes → Bytes
store new old = new ++ drop (length new) old

-- `tasks` are the handles of the two tasks, whether they are not NULL; `set_time` is the time set last
-- by `settimeofday`; `sent` is what left over the current socket; `processed` are the calls of
-- `process_message`. The message is the buffer of the loop.
pub record Server : Type 0 where
  pub commstate : ℕ
  pub process_task : Bool
  pub send_task : Bool
  pub queue : List Bytes
  pub processed : List Bytes
  pub message : Bytes
  pub sockets : List ℕ
  pub set_time : ℕ × ℕ
  pub sent : Bytes

-- What the handling of a message meets: whether the tasks can be created, the time since boot, the
-- answers of `send`, and the memory behind the buffer of the message.
pub record Env : Type 0 where
  pub process_made : Bool
  pub send_made : Bool
  pub now : ℕ
  pub answer : ℕ → Answer
  pub behind : Bytes

-- How a round of a loop goes on: with the next round, out of the loop, with a restart of the device, or
-- in a loop without end. `waiting` is a loop that waits for a call to return.
pub data Next : Type 0 where
  again leave restart stuck waiting : Next

unfoldable pub close : ℕ → List ℕ → List ℕ
close sock [] = []
close sock (s ∷ ss) = if s == sock then ss else s ∷ close sock ss

-- Behind the loop that sends COMMACK.
unfoldable pub after_ack : End → Server → Next × Server
after_ack whole s = (again, record s { commstate = connected })
after_ack broken s = (leave, s)
after_ack endless s = (stuck, s)

-- Behind the loop that sends COMMNACK.
unfoldable pub after_nack : End → Server → Next × Server
after_nack whole s = (again, s)
after_nack broken s = (leave, s)
after_nack endless s = (stuck, s)

-- COMMINIT in the state IDLE.
unfoldable pub start_link : Layout → Env → Server → Next × Server
start_link l env s =
    let t : Server = record s {
      set_time = (l.ts s.message / 1000, l.ts s.message % 1000 * 1000);
    } in
    if not env.process_made
    then (restart, t)
    else if not env.send_made
    then (restart, record t { process_task = true })
    else let m = l.set_message env.now commack s.message in
      let r = send_message (m ++ env.behind) l.size env.answer in
      after_ack r.1
        (record t { process_task = true; send_task = true; message = m; sent = s.sent ++ r.0 })

-- COMMINIT in another state.
unfoldable pub refuse_link : Layout → Env → Server → Next × Server
refuse_link l env s =
    let m = l.set_message (2 ^ 64 - 1) commnack s.message in
    let r = send_message (m ++ env.behind) l.size env.answer in
    after_nack r.1 (record s { message = m; sent = s.sent ++ r.0 })

-- Any other message.
unfoldable pub post : List Bytes → Bytes → List Bytes
post queue m = (if leb tcp_queue_size (length queue) then [] else queue) ++ (m ∷ [])

unfoldable pub on_message : Layout → Env → Server → Next × Server
on_message l env s =
    if l.cmd_id s.message == comminit
    then if s.commstate == idle then start_link l env s else refuse_link l env s
    else (again, record s { queue = post s.queue s.message })

unfoldable pub receive : Layout → ℕ → Received → Env → Server → Next × Server
receive l sock failure env s = (leave, record s { sockets = close sock s.sockets })
receive l sock closed env s = (leave, record s { sockets = close sock s.sockets })
receive l sock (data_of bytes) env s =
    on_message l env (record s { message = store bytes s.message })

-- The calls of `process_message` and the queue after a round of `process_message_task`, where there is
-- the task: it takes a message.
unfoldable pub take_message : Bool → List Bytes → List Bytes → List Bytes × List Bytes
take_message false processed queue = (processed, queue)
take_message true processed [] = (processed, [])
take_message true processed (m ∷ ms) = (processed ++ (m ∷ []), ms)

unfoldable pub process_message_task : Server → Server
process_message_task s = record s {
  processed = (take_message s.process_task s.processed s.queue).0;
  queue = (take_message s.process_task s.processed s.queue).1;
}

-- What happens while a connection is open: `recv` returns, or the other task runs.
pub data Round : Type 0 where
  received : Received → Env → Round
  runs_task : Round

unfoldable pub receive_loop : Layout → ℕ → List Round → Server → Next × Server
receive_loop l sock [] s = (waiting, s)
receive_loop l sock (runs_task ∷ rs) s = receive_loop l sock rs (process_message_task s)
receive_loop l sock (received r env ∷ rs) s =
    let t = receive l sock r env s in elim t.0 [ again ↦ receive_loop l sock rs t.1 | e ↦ (e, t.1) ]

unfoldable pub end_tasks : Server → Server
end_tasks s = record s { process_task = false; send_task = false }

-- Behind the receive loop.
unfoldable pub after_loop : Next × Server → Next × Server
after_loop (leave, s) = (again, end_tasks s)
after_loop (e, s) = (e, s)

-- What `accept` returns: an error, or a socket, with whether the address is of IPv4 and what happens
-- on the connection.
pub data Accepted : Type 0 where
  refused : Accepted
  accepted : ℕ → Bool → List Round → Accepted

-- A round of the accept loop.
unfoldable pub serve : Layout → Accepted → Server → Next × Server
serve l refused s = (leave, record s { commstate = idle })
serve l (accepted sock ipv4 rounds) s =
    let t : Server = record s { commstate = idle; sockets = sock ∷ s.sockets; sent = [] } in
    if not ipv4 then (again, end_tasks t) else after_loop (receive_loop l sock rounds t)

-- The accept loop, for as long as it takes further connections: `leave` is an error of `accept`, which
-- ends the task.
unfoldable pub accept_loop : Layout → List Accepted → Server → Next × Server
accept_loop l [] s = (waiting, s)
accept_loop l (a ∷ more) s =
    let t = serve l a s in elim t.0 [ again ↦ accept_loop l more t.1 | e ↦ (e, t.1) ]

-- `tcp_server`, with whether `socket`, `bind` and `listen` succeed.
unfoldable pub tcp_server : Layout → Bool → List Accepted → Server → Next × Server
tcp_server l listens connections s = if listens then accept_loop l connections s else (leave, s)
