-- ===== src/Tcp/Client.antt =====
-- `tcp_client_task` of tcp/tcp_client.c: an attempt to connect, the receive loop, and the command `tcp`.
use esp32_common.Common.{
  ℕ, Bool, true, false, not, ◌&&◌, List, [], ◌∷◌, ◌++◌, leb, ◌==◌, if◌then◌else◌, length,
}
use esp32_common.Common.Memory.{Bytes, codes, same}
use esp32_common.Tcp.Sending.{Answer, End, send_bytes, whole, broken, endless}
use esp32_common.Tcp.Server.{
  Layout, idle, connected, comminit, commack, tcp_queue_size, Received, store, Next, close,
  take_message, failure, closed, data_of, again, leave, restart, stuck, waiting,
}

abbrev pub close_connection : ℕ
close_connection = 2399141888

abbrev pub tsinit : ℕ
tsinit = 275079190327040

-- As `Server`, without the time.
pub record Client : Type 0 where
  pub commstate : ℕ
  pub process_task : Bool
  pub send_task : Bool
  pub queue : List Bytes
  pub processed : List Bytes
  pub message : Bytes
  pub sockets : List ℕ
  pub sent : Bytes

-- A message behind a full queue is lost.
unfoldable pub client_post : List Bytes → Bytes → List Bytes
client_post queue m = if leb tcp_queue_size (length queue) then queue else queue ++ (m ∷ [])

-- Whether the message that the task takes is CLOSE_CONNECTION.
unfoldable pub takes_close : Layout → Bool → List Bytes → Bool
takes_close l true (m ∷ ms) = l.cmd_id m == close_connection
takes_close l _ _ = false

-- `process_message_task` takes a message.
unfoldable pub client_process : Layout → ℕ → Client → Client
client_process l sock c = record c {
  processed = (take_message c.process_task c.processed c.queue).0;
  queue = (take_message c.process_task c.processed c.queue).1;
  sockets = if takes_close l c.process_task c.queue then close sock c.sockets else c.sockets;
}

-- `do_tcp`, with whether the arguments are in order, the operation, the time since boot, and the bytes of
-- the message that is not initialised.
unfoldable pub do_tcp : Layout → Bool → Bytes → ℕ → Bytes → Client → ℕ × Client
do_tcp l parsed op now garbage c =
    if not parsed
    then (1, c)
    else if same op (codes "disconnect") && (c.commstate == connected)
    then (0, record c { queue = l.set_message now close_connection garbage ∷ [] })
    else (0, c)

-- What happens while the link is open: `recv` returns, `process_message_task` runs, `send_task` ends
-- after an error, or the command `tcp` is given, with the arguments of `do_tcp`.
pub data ClientRound : Type 0 where
  arrives : Received → ClientRound
  task_runs send_ends : ClientRound
  command_given : Bool → Bytes → ℕ → Bytes → ClientRound

unfoldable pub client_loop : Layout → ℕ → List ClientRound → Client → Next × Client
client_loop l sock [] c = (waiting, c)
client_loop l sock (task_runs ∷ rs) c = client_loop l sock rs (client_process l sock c)
client_loop l sock (send_ends ∷ rs) c = client_loop l sock rs (record c { send_task = false })
client_loop l sock (command_given parsed op now garbage ∷ rs) c =
    client_loop l sock rs (do_tcp l parsed op now garbage c).1
client_loop l sock (arrives failure ∷ rs) c = (leave, c)
client_loop l sock (arrives closed ∷ rs) c = (leave, c)
client_loop l sock (arrives (data_of bytes) ∷ rs) c =
    let m = store bytes c.message in
    client_loop l sock rs (record c { message = m; queue = client_post c.queue m })

-- Behind the receive loop.
unfoldable pub client_after : ℕ → Next × Client → Next × Client
client_after sock (leave, c) = (
  again,
  record c {
    sockets = close sock c.sockets;
    commstate = idle;
    process_task = false;
    send_task = false;
  },
)
client_after sock (e, c) = (e, c)

-- What an attempt meets: whether `connect` succeeds, the answers of `send`, what `recv` returns for the
-- answer of the server, whether the tasks can be created, and what happens on the link.
pub record Peer : Type 0 where
  pub connects : Bool
  pub answer : ℕ → Answer
  pub reply : Received
  pub process_made : Bool
  pub send_made : Bool
  pub rounds : List ClientRound

-- `close(sock); continue;`
unfoldable pub give_up : ℕ → Client → Next × Client
give_up sock c = (again, record c { sockets = close sock c.sockets })

-- Behind COMMACK.
unfoldable pub open_link : Layout → ℕ → Peer → Client → Next × Client
open_link l sock p c =
    if not p.process_made
    then (restart, c)
    else if not p.send_made
    then (restart, record c { process_task = true })
    else client_after sock (
        client_loop l sock p.rounds
          (record c { process_task = true; send_task = true; commstate = connected }))

-- Behind COMMINIT.
unfoldable pub await_ack : Layout → ℕ → Peer → Received → Client → Next × Client
await_ack l sock p failure c = give_up sock c
await_ack l sock p closed c = give_up sock c
await_ack l sock p (data_of bytes) c =
    let m = store bytes c.message in
    if l.cmd_id m == commack
    then open_link l sock p (record c { message = m })
    else give_up sock (record c { message = m })

-- Behind the loop that sends COMMINIT.
unfoldable pub after_init : Layout → ℕ → Peer → End → Client → Next × Client
after_init l sock p whole c = await_ack l sock p p.reply c
after_init l sock p broken c = give_up sock c
after_init l sock p endless c = (stuck, c)

-- What `socket` returns, with what the attempt meets.
pub data Attempt : Type 0 where
  no_socket : Attempt
  attempt : ℕ → Peer → Attempt

-- A round of the loop of `tcp_client_task`.
unfoldable pub connect_once : Layout → Attempt → Client → Next × Client
connect_once l no_socket c = (leave, c)
connect_once l (attempt sock p) c =
    let t : Client = record c { sockets = sock ∷ c.sockets; sent = [] } in
    if not p.connects
    then give_up sock t
    else let m = l.set_message tsinit comminit c.message in
      let r = send_bytes m l.size p.answer in
      after_init l sock p r.1 (record t { message = m; sent = r.0 })

unfoldable pub client_attempts : Layout → List Attempt → Client → Next × Client
client_attempts l [] c = (waiting, c)
client_attempts l (a ∷ more) c =
    let t = connect_once l a c in elim t.0 [ again ↦ client_attempts l more t.1 | e ↦ (e, t.1) ]

unfoldable pub tcp_client_task : Layout → List Attempt → Client → Next × Client
tcp_client_task l attempts c = client_attempts l attempts (record c { commstate = idle })
