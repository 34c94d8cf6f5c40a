-- ===== src/Tcp/Tests.antt =====
-- Links between a client and a server, with messages of a time, a command and four bytes.
use esp32_common.Common.{
  ℕ, zero, suc, ◌+◌, ◌*◌, ◌/◌, ◌%◌, ◌≤◌, ◌≡◌, refl, true, false, [], ◌∷◌, ◌++◌, arith, ◌==◌,
  if◌then◌else◌, length, take, drop, replicate,
}
use esp32_common.Common.Memory.{Bytes, codes}
use esp32_common.Tcp.Client.{
  Client, Peer, do_tcp, command_given, task_runs, arrives, client_process, client_loop,
  client_after, open_link, await_ack, after_init, connect_once, attempt,
}
use esp32_common.Tcp.Closing.{IsDown, connect_once-IsDown}
use esp32_common.Tcp.Delivery.{rounds_of, receive_loop-channel, comes, runs}
use esp32_common.Tcp.Handshake.{hello, served}
use esp32_common.Tcp.Links.{link}
use esp32_common.Tcp.Loops.{begins, is_free, receive_loop-link}
use esp32_common.Tcp.Pieces.{send_message-pieces}
use esp32_common.Tcp.Sending.{Answer, send_loop, send_bytes, send_message, took, error, whole}
use esp32_common.Tcp.Server.{
  Layout, tcp_queue_size, store, Server, Env, after_ack, start_link, post, on_message, receive,
  receive_loop, end_tasks, after_loop, serve, closed, failure, data_of, waiting, received,
  runs_task, accepted,
}
use esp32_common.Tcp.Sockets.{serve-sockets}

-- Little-endian bytes.
abbrev le : ℕ → ℕ → Bytes
le zero n = []
le (suc k) n = n % 256 ∷ le k (n / 256)

abbrev from_le : Bytes → ℕ
from_le [] = 0
from_le (b ∷ bs) = b + 256 * from_le bs

abbrev small : Layout
small = record {
  size = 16;
  ts = λ m. from_le (take 8 m);
  cmd_id = λ m. from_le (take 4 (drop 8 m));
  set_message = λ t c m. le 8 t ++ (le 4 c ++ drop 12 m);
}

abbrev blank : Bytes
blank = 0 ∷ 0 ∷ 0 ∷ 0 ∷ 0 ∷ 0 ∷ 0 ∷ 0 ∷ 0 ∷ 0 ∷ 0 ∷ 0 ∷ 0 ∷ 0 ∷ 0 ∷ 0 ∷ []

abbrev at_start : Server
at_start = record {
  commstate = 1;
  process_task = false;
  send_task = false;
  queue = [];
  processed = [];
  message = blank;
  sockets = 3 ∷ [];
  set_time = (0, 0);
  sent = [];
}

abbrev idle_client : Client
idle_client = record {
  commstate = 1;
  process_task = false;
  send_task = false;
  queue = [];
  processed = [];
  message = blank;
  sockets = [];
  sent = [];
}

-- Five bytes at a time.
abbrev pieces : ℕ → Answer
pieces i = took 5

abbrev at_once : ℕ → Answer
at_once i = took 1500

abbrev works : Env
works = record {
  process_made = true;
  send_made = true;
  now = 77;
  answer = at_once;
  behind = replicate 80 7;
}

-- The second call of `send` fails.
abbrev breaks : Env
breaks = record {
  process_made = true;
  send_made = true;
  now = 77;
  answer = λ i. if i == 1 then error else took 5;
  behind = replicate 80 7;
}

-- COMMACK is taken five bytes at a time.
abbrev cut : Env
cut = record {
  process_made = true;
  send_made = true;
  now = 77;
  answer = pieces;
  behind = replicate 240 7;
}

abbrev init_message : Bytes
init_message = le 8 5500 ++ (le 4 1 ++ (9 ∷ 9 ∷ 9 ∷ 9 ∷ []))

abbrev fix_message : Bytes
fix_message = le 8 0 ++ (le 4 5 ++ (1 ∷ 2 ∷ 3 ∷ 4 ∷ []))

-- A message whose first bytes alone came over the connection ends with bytes of the one before.
cut_message :
    (serve small
      (accepted 4 true (
        received (data_of init_message) works
        ∷ received (data_of (le 8 0 ++ le 4 5)) works
        ∷ received closed works
        ∷ []))
      at_start).1.queue
    ≡ (le 8 0 ++ (le 4 5 ++ (9 ∷ 9 ∷ 9 ∷ 9 ∷ []))) ∷ []
unfolding serve receive_loop receive on_message start_link send_message send_loop after_ack post
    store after_loop end_tasks
cut_message = refl

-- What the server then sends ends with bytes of the memory behind the message.
cut_ack :
    (receive_loop small 4 (received (data_of init_message) cut ∷ []) at_start).1.sent
    ≡ take 5 (le 8 77) ++ replicate 11 7
unfolding receive_loop receive on_message start_link send_message send_loop after_ack store
cut_ack = refl

send_message-pieces_example :
    send_message (fix_message ++ replicate 80 7) 16 (λ i. if i == 0 then took 3 else took 13)
    ≡ (take 3 fix_message ++ take 13 (drop 32 (replicate 80 7)), whole)
send_message-pieces_example =
    send_message-pieces fix_message (replicate 80 7) 3 (λ i. if i == 0 then took 3 else took 13)
      (omega arith) (omega arith) refl refl

receive_loop-link_example :
    (link
        (receive_loop small 4
          (received (data_of init_message) works ∷ runs_task ∷ [])
          (begins 4 at_start)).1
      ≡ true)
    × ((receive_loop small 4
          (received (data_of init_message) works ∷ runs_task ∷ [])
          (begins 4 at_start)).1.sockets
        ≡ 4 ∷ 3 ∷ [])
    × (length
          (receive_loop small 4
            (received (data_of init_message) works ∷ runs_task ∷ [])
            (begins 4 at_start)).1.queue
        ≤ tcp_queue_size)
unfolding receive_loop receive on_message start_link send_message send_loop after_ack store
receive_loop-link_example =
    receive_loop-link small 4 (received (data_of init_message) works ∷ runs_task ∷ []) at_start refl
      (omega arith) refl

-- The client is gone when COMMACK is sent.
serve-sockets_example :
    (is_free
        (serve small
          (accepted 4 true ([] ++ (received (data_of init_message) breaks ∷ [])))
          at_start).1
      ≡ true)
    × ((serve small
          (accepted 4 true ([] ++ (received (data_of init_message) breaks ∷ [])))
          at_start).1.sockets
        ≡ 4 ∷ 3 ∷ [])
unfolding serve receive_loop receive on_message start_link send_message send_loop after_ack store
    after_loop
serve-sockets_example =
    serve-sockets small 4 [] (data_of init_message) breaks at_start refl (omega arith) refl refl

abbrev up : Server
up = record at_start { commstate = 2; process_task = true; send_task = true }

receive_loop-channel_example :
    ((receive_loop small 4
        (rounds_of works (comes fix_message ∷ runs ∷ comes fix_message ∷ []))
        up).0
      ≡ waiting)
    × ((receive_loop small 4
            (rounds_of works (comes fix_message ∷ runs ∷ comes fix_message ∷ []))
            up).1.processed
          ++ (receive_loop small 4
              (rounds_of works (comes fix_message ∷ runs ∷ comes fix_message ∷ []))
              up).1.queue
        ≡ fix_message ∷ fix_message ∷ [])
receive_loop-channel_example =
    receive_loop-channel small 4 works (comes fix_message ∷ runs ∷ comes fix_message ∷ []) up refl
      (refl, refl, (refl, refl, tt)) (omega arith)

abbrev server_peer : Peer
server_peer = record {
  connects = true;
  answer = pieces;
  reply = data_of (served small 4 works (hello small idle_client) at_start).1.sent;
  process_made = true;
  send_made = true;
  rounds = [];
}

-- The command `tcp disconnect` closes the socket by the task, and `recv` then fails.
abbrev disconnecting : Peer
disconnecting = record server_peer {
  reply = data_of (le 8 77 ++ (le 4 2 ++ (9 ∷ 9 ∷ 9 ∷ 9 ∷ [])));
  rounds = command_given true (codes "disconnect") 90 blank ∷ task_runs ∷ arrives failure ∷ [];
}

connect_once-IsDown_example : IsDown [] (connect_once small (attempt 5 disconnecting) idle_client).1
unfolding connect_once send_bytes send_loop after_init await_ack open_link client_loop client_after
    do_tcp client_process store
connect_once-IsDown_example =
    connect_once-IsDown small 5 disconnecting idle_client tt
      (record { same_sockets = refl; is_idle = refl; no_process = refl; no_send = refl }) refl
