-- ===== src/Tcp/Loops.antt =====
-- What the receive loop of the server keeps, whatever comes over the connection.
use esp32_common.Common.{
  ℕ, ◌≤◌, ◌≡◌, refl, ap, ◌∙◌, Bool, true, false, not, ◌&&◌, List, [], ◌∷◌, ◌++◌, arith,
  if◌then◌else◌, length,
}
use esp32_common.Common.Memory.{Bytes}
use esp32_common.Tcp.Links.{link, is_data, goes_on, is_waiting, receive-Kept}
use esp32_common.Tcp.Server.{
  Layout, idle, tcp_queue_size, Received, Server, Env, Next, close, receive, take_message,
  process_message_task, Round, receive_loop, failure, closed, data_of, again, leave, restart, stuck,
  waiting, received, runs_task,
}

-- A server with an open connection.
pub record IsOpen (open_sockets : List ℕ) (s : Server) : Type 0 where
  pub is_link : link s ≡ true
  pub same_sockets : s.sockets ≡ open_sockets
  pub at_most : length s.queue ≤ tcp_queue_size

-- A round after which the loop goes on has received data.
receive-data :
    (l : Layout) (sock : ℕ) (r : Received) (env : Env) (s : Server)
    → goes_on (receive l sock r env s).0 ≡ true
    → is_data r ≡ true
unfolding receive
receive-data l sock failure env s h = h
receive-data l sock closed env s h = h
receive-data l sock (data_of bytes) env s h = refl

receive-IsOpen :
    (l : Layout) (sock : ℕ) (r : Received) (env : Env) (s : Server) (open_sockets : List ℕ)
    → IsOpen open_sockets s
    → goes_on (receive l sock r env s).0 ≡ true
    → IsOpen open_sockets (receive l sock r env s).1
receive-IsOpen l sock r env s open_sockets o h =
    let k = receive-Kept l sock r env s o.is_link o.at_most in
    let d = receive-data l sock r env s h in
    record {
      is_link = rw h at k.is_link;
      same_sockets =
          k.same_sockets
          ∙ (ap (λ (b : Bool). if b then s.sockets else close sock s.sockets) d ∙ o.same_sockets);
      at_most = k.at_most;
    }

length-take_message :
    (runs : Bool) (processed queue : List Bytes)
    → length (take_message runs processed queue).1 ≤ length queue
unfolding take_message
length-take_message false processed queue = omega arith
length-take_message true processed [] = omega arith
length-take_message true processed (m ∷ ms) = omega arith

task-IsOpen :
    (s : Server) (open_sockets : List ℕ)
    → IsOpen open_sockets s
    → IsOpen open_sockets (process_message_task s)
unfolding process_message_task
task-IsOpen s open_sockets o = record {
  is_link = o.is_link;
  same_sockets = o.same_sockets;
  at_most =
      let shorter = length-take_message s.process_task s.processed s.queue in
      let q = o.at_most in omega arith;
}

-- While the connection is open, the state and the tasks agree, no socket is closed or opened, and the
-- queue holds no more than it may.
pub receive_loop-IsOpen :
    (l : Layout) (sock : ℕ) (rounds : List Round) (s : Server) (open_sockets : List ℕ)
    → IsOpen open_sockets s
    → (receive_loop l sock rounds s).0 ≡ waiting
    → IsOpen open_sockets (receive_loop l sock rounds s).1
unfolding receive_loop
receive_loop-IsOpen l sock [] s open_sockets o h = o
receive_loop-IsOpen l sock (runs_task ∷ rs) s open_sockets o h =
    receive_loop-IsOpen l sock rs (process_message_task s) open_sockets
      (task-IsOpen s open_sockets o) h
receive_loop-IsOpen l sock (received r env ∷ rs) s open_sockets o h =
    go (receive l sock r env s) (receive-IsOpen l sock r env s open_sockets o) h
      (receive-Kept l sock r env s o.is_link o.at_most).returns
      (λ t k. receive_loop-IsOpen l sock rs t open_sockets k)
  where
    rest : Next × Server → Next × Server
    rest t = elim t.0 [ again ↦ receive_loop l sock rs t.1 | e ↦ (e, t.1) ]

    go :
        (t : Next × Server)
        → (goes_on t.0 ≡ true → IsOpen open_sockets t.1)
        → (rest t).0 ≡ waiting
        → is_waiting t.0 ≡ false
        → ((t : Server)
            → IsOpen open_sockets t
            → (receive_loop l sock rs t).0 ≡ waiting
            → IsOpen open_sockets (receive_loop l sock rs t).1)
        → IsOpen open_sockets (rest t).1
    go (again, t) k h w loop = loop t (k refl) h
    go (waiting, t) k h w loop = absurd (let b : true ≡ false = w in cc)
    go (leave, t) k h w loop = cc
    go (restart, t) k h w loop = cc
    go (stuck, t) k h w loop = cc

-- Behind rounds that end in a wait, the next round.
pub receive_loop-append :
    (l : Layout) (sock : ℕ) (rounds : List Round) (x : Round) (s : Server) (open_sockets : List ℕ)
    → IsOpen open_sockets s
    → (receive_loop l sock rounds s).0 ≡ waiting
    → receive_loop l sock (rounds ++ (x ∷ [])) s
      ≡ receive_loop l sock (x ∷ []) (receive_loop l sock rounds s).1
unfolding receive_loop
receive_loop-append l sock [] x s open_sockets o h = refl
receive_loop-append l sock (runs_task ∷ rs) x s open_sockets o h =
    receive_loop-append l sock rs x (process_message_task s) open_sockets
      (task-IsOpen s open_sockets o) h
receive_loop-append l sock (received r env ∷ rs) x s open_sockets o h =
    go (receive l sock r env s) (receive-IsOpen l sock r env s open_sockets o) h
      (receive-Kept l sock r env s o.is_link o.at_most).returns
      (λ t k. receive_loop-append l sock rs x t open_sockets k)
  where
    rest : List Round → Next × Server → Next × Server
    rest rs t = elim t.0 [ again ↦ receive_loop l sock rs t.1 | e ↦ (e, t.1) ]

    go :
        (t : Next × Server)
        → (goes_on t.0 ≡ true → IsOpen open_sockets t.1)
        → (rest rs t).0 ≡ waiting
        → is_waiting t.0 ≡ false
        → ((t : Server)
            → IsOpen open_sockets t
            → (receive_loop l sock rs t).0 ≡ waiting
            → receive_loop l sock (rs ++ (x ∷ [])) t
              ≡ receive_loop l sock (x ∷ []) (receive_loop l sock rs t).1)
        → rest (rs ++ (x ∷ [])) t ≡ receive_loop l sock (x ∷ []) (rest rs t).1
    go (again, t) k h w loop = loop t (k refl) h
    go (waiting, t) k h w loop = absurd (let b : true ≡ false = w in cc)
    go (leave, t) k h w loop = cc
    go (restart, t) k h w loop = cc
    go (stuck, t) k h w loop = cc

-- The state in which a connection of IPv4 begins.
abbrev pub begins : ℕ → Server → Server
begins sock s = record s { commstate = idle; sockets = sock ∷ s.sockets; sent = [] }

-- A server between two connections.
abbrev pub is_free : Server → Bool
is_free s = not s.process_task && not s.send_task

pub begins-IsOpen :
    (sock : ℕ) (s : Server)
    → is_free s ≡ true
    → length s.queue ≤ tcp_queue_size
    → IsOpen (sock ∷ s.sockets) (begins sock s)
begins-IsOpen sock s free q = record { is_link = free; same_sockets = refl; at_most = q }

-- Whatever came over a connection of IPv4 to a server without tasks, while the receive loop waits: the
-- link is IDLE without a task or CONNECTED with both, whatever COMMINIT came again; the socket of the
-- connection is open and no other was closed; and the queue holds TCP_QUEUE_SIZE messages at most.
pub receive_loop-link :
    (l : Layout) (sock : ℕ) (rounds : List Round) (s : Server)
    → is_free s ≡ true
    → length s.queue ≤ tcp_queue_size
    → (receive_loop l sock rounds (begins sock s)).0 ≡ waiting
    → (link (receive_loop l sock rounds (begins sock s)).1 ≡ true)
      × ((receive_loop l sock rounds (begins sock s)).1.sockets ≡ sock ∷ s.sockets)
      × (length (receive_loop l sock rounds (begins sock s)).1.queue ≤ tcp_queue_size)
receive_loop-link l sock rounds s free q h =
    let o =
      receive_loop-IsOpen l sock rounds (begins sock s) (sock ∷ s.sockets)
        (begins-IsOpen sock s free q) h in
    (o.is_link, o.same_sockets, o.at_most)
