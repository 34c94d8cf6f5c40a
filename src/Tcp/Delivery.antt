-- ===== src/Tcp/Delivery.antt =====
-- What the receive queue of the server does to the messages: it is a channel that keeps their order.
use esp32_common.Common.{
  ℕ, ◌+◌, ◌≤◌, ◌≡◌, refl, sym, ap, ◌∙◌, Bool, true, false, List, [], ◌∷◌, ◌++◌, arith, leb, ◌==◌,
  length, length-append, drop,
}
use mathlib.Core.List.{append_assoc}
use esp32_common.Common.Memory.{Bytes}
use esp32_common.Tcp.Server.{
  Layout, comminit, tcp_queue_size, store, Server, Env, Next, post, on_message, receive,
  take_message, process_message_task, Round, receive_loop, data_of, again, waiting, received,
  runs_task,
}

-- What happens on a link: a message comes, or the other task runs.
pub data Item : Type 0 where
  comes : Bytes → Item
  runs : Item

abbrev pub rounds_of : Env → List Item → List Round
rounds_of env [] = []
rounds_of env (comes m ∷ is) = received (data_of m) env ∷ rounds_of env is
rounds_of env (runs ∷ is) = runs_task ∷ rounds_of env is

-- The channel: the messages that came, in their order.
abbrev pub posted : List Item → List Bytes
posted [] = []
posted (comes m ∷ is) = m ∷ posted is
posted (runs ∷ is) = posted is

-- Whole messages other than COMMINIT.
abbrev pub Plain : Layout → List Item → Type 0
Plain l [] = Unit {0}
Plain l (comes m ∷ is) = (length m ≡ l.size) × ((l.cmd_id m == comminit) ≡ false) × Plain l is
Plain l (runs ∷ is) = Plain l is

pub store_whole : (m old : Bytes) → length old ≡ length m → store m old ≡ m
unfolding store
store_whole m old e = rw (sym e) (rw (drop_all old) (append_empty m))
  where
    drop_all : (xs : Bytes) → drop (length xs) xs ≡ []
    drop_all [] = refl
    drop_all (x ∷ xs) = drop_all xs

    append_empty : (xs : Bytes) → xs ++ [] ≡ xs
    append_empty [] = refl
    append_empty (x ∷ xs) = ap (λ (t : Bytes). x ∷ t) (append_empty xs)

take_message-all :
    (task : Bool) (processed queue : List Bytes)
    → (take_message task processed queue).0 ++ (take_message task processed queue).1
      ≡ processed ++ queue
unfolding take_message
take_message-all false processed queue = refl
take_message-all true processed [] = refl
take_message-all true processed (m ∷ ms) = append_assoc processed (m ∷ []) ms

take_message-shorter :
    (task : Bool) (processed queue : List Bytes)
    → length (take_message task processed queue).1 ≤ length queue
unfolding take_message
take_message-shorter false processed queue = omega arith
take_message-shorter true processed [] = omega arith
take_message-shorter true processed (m ∷ ms) = omega arith

post-room :
    (queue : List Bytes) (m : Bytes)
    → length queue + 1 ≤ tcp_queue_size
    → post queue m ≡ queue ++ (m ∷ [])
unfolding post
post-room queue m h =
    let room : leb tcp_queue_size (length queue) ≡ false = ground arith in rw room refl

receive-post :
    (l : Layout) (sock : ℕ) (env : Env) (m : Bytes) (s : Server)
    → length s.message ≡ length m
    → (l.cmd_id m == comminit) ≡ false
    → length s.queue + 1 ≤ tcp_queue_size
    → receive l sock (data_of m) env s
      ≡ (again, record s { queue = s.queue ++ (m ∷ []); message = m })
unfolding receive on_message
receive-post l sock env m s size other room =
    let posts : on_message l env (record s { message = m })
        ≡ (again, record s { queue = post s.queue m; message = m }) =
      rw other refl in
    ap (λ (b : Bytes). on_message l env (record s { message = b })) (store_whole m s.message size)
    ∙ (posts
        ∙ ap (λ (q : List Bytes). (again, record s { queue = q; message = m }))
            (post-room s.queue m room))

-- Over a link that has room in its queue for the whole messages that come, none of them COMMINIT, the
-- receive loop waits for more, and the calls of `process_message` so far with the queue behind them
-- are the messages of before with those that came, in order and each once, whenever the task runs.
pub receive_loop-channel :
    (l : Layout) (sock : ℕ) (env : Env) (items : List Item) (s : Server)
    → length s.message ≡ l.size
    → Plain l items
    → length s.queue + length (posted items) ≤ tcp_queue_size
    → ((receive_loop l sock (rounds_of env items) s).0 ≡ waiting)
      × ((receive_loop l sock (rounds_of env items) s).1.processed
            ++ (receive_loop l sock (rounds_of env items) s).1.queue
          ≡ (s.processed ++ s.queue) ++ posted items)
unfolding receive_loop process_message_task
receive_loop-channel l sock env [] s size plain room =
    (refl, sym (append_empty (s.processed ++ s.queue)))
  where
    append_empty : (xs : List Bytes) → xs ++ [] ≡ xs
    append_empty [] = refl
    append_empty (x ∷ xs) = ap (λ (t : List Bytes). x ∷ t) (append_empty xs)
receive_loop-channel l sock env (runs ∷ items) s size plain room =
    let r =
      receive_loop-channel l sock env items (process_message_task s) size plain
        (let shorter = take_message-shorter s.process_task s.processed s.queue in omega arith) in
    (
      r.0,
      r.1
          ∙ ap (λ (t : List Bytes). t ++ posted items)
              (take_message-all s.process_task s.processed s.queue),
    )
receive_loop-channel l sock env (comes m ∷ items) s size plain room =
    let t : Server = record s { queue = s.queue ++ (m ∷ []); message = m } in
    let one = receive-post l sock env m s (size ∙ sym plain.0) plain.1 (omega arith) in
    let r =
      receive_loop-channel l sock env items t plain.0 plain.2
        (let e = length-append s.queue (m ∷ []) in omega arith) in
    let goes : receive_loop l sock (rounds_of env (comes m ∷ items)) s
        ≡ receive_loop l sock (rounds_of env items) t =
      ap
        (λ (u : Next × Server). elim u.0 as (λ x. Next × Server) [
          | again ↦ receive_loop l sock (rounds_of env items) u.1
          | e ↦ (e, u.1)
        ])
        one in
    (
      ap (λ (u : Next × Server). u.0) goes ∙ r.0,
      ap (λ (u : Next × Server). u.1.processed ++ u.1.queue) goes
          ∙ (r.1
              ∙ (ap (λ (u : List Bytes). u ++ posted items)
                    (sym (append_assoc s.processed s.queue (m ∷ [])))
                  ∙ append_assoc (s.processed ++ s.queue) (m ∷ []) (posted items))),
    )
