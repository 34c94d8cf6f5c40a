-- ===== src/Tcp/Links.antt =====
-- What holds of the link of the server: its state with its tasks, and the sockets that are open.
use esp32_common.Common.{
  ℕ, ◌-◌, ◌*◌, ◌/◌, ◌%◌, ◌^◌, ◌≤◌, ◌≡◌, refl, inl, inr, Bool, true, false, not, ◌&&◌, List, [], ◌∷◌,
  ◌++◌, arith, leb, ◌==◌, if◌then◌else◌, Bool-cases, length, length-append,
}
use esp32_common.Common.Memory.{Bytes}
use esp32_common.Tcp.Sending.{send_message, whole, broken, endless}
use esp32_common.Tcp.Server.{
  Layout, idle, connected, comminit, commack, commnack, tcp_queue_size, Received, store, Server,
  Env, Next, close, after_ack, after_nack, start_link, refuse_link, post, on_message, receive,
  failure, closed, data_of, again, waiting,
}

-- Either the link is IDLE and has no task, or it is CONNECTED and has both.
abbrev pub link : Server → Bool
link s =
    if s.commstate == idle
    then not s.process_task && not s.send_task
    else (s.commstate == connected) && (s.process_task && s.send_task)

abbrev pub is_data : Received → Bool
is_data (data_of bytes) = true
is_data _ = false

abbrev pub goes_on : Next → Bool
goes_on again = true
goes_on _ = false

abbrev pub is_waiting : Next → Bool
is_waiting waiting = true
is_waiting _ = false

-- What a round of the receive loop leaves, from a state that is a link.
pub record Kept (open_sockets : List ℕ) (r : Next × Server) : Type 0 where
  pub is_link : (if goes_on r.0 then link r.1 else true) ≡ true
  pub same_sockets : r.1.sockets ≡ open_sockets
  pub at_most : length r.1.queue ≤ tcp_queue_size
  pub returns : is_waiting r.0 ≡ false

start-Kept :
    (l : Layout) (env : Env) (s : Server)
    → length s.queue ≤ tcp_queue_size
    → Kept s.sockets (start_link l env s)
unfolding start_link after_ack
start-Kept l env s q = elim (Bool-cases env.process_made) [
  | inr none ↦ rw none (record { is_link = refl; same_sockets = refl; at_most = q; returns = refl })
  | inl one ↦ elim (Bool-cases env.send_made) [
    | inr none ↦
        rw one
          (rw none (record { is_link = refl; same_sockets = refl; at_most = q; returns = refl }))
    | inl both ↦
        let m = l.set_message env.now commack s.message in
        rw one (
          rw both
            (elim (send_message (m ++ env.behind) l.size env.answer).1
              as (λ e. Kept s.sockets (
                after_ack e (record s {
                  set_time = (l.ts s.message / 1000, l.ts s.message % 1000 * 1000);
                  process_task = true;
                  send_task = true;
                  message = m;
                  sent = s.sent ++ (send_message (m ++ env.behind) l.size env.answer).0;
                }))) [
                  | whole ↦ record {
                    is_link = refl;
                    same_sockets = refl;
                    at_most = q;
                    returns = refl;
                  }
                  | broken ↦ record {
                    is_link = refl;
                    same_sockets = refl;
                    at_most = q;
                    returns = refl;
                  }
                  | endless ↦ record {
                    is_link = refl;
                    same_sockets = refl;
                    at_most = q;
                    returns = refl;
                  }
                ]))
  ]
]

refuse-Kept :
    (l : Layout) (env : Env) (s : Server)
    → link s ≡ true
    → length s.queue ≤ tcp_queue_size
    → Kept s.sockets (refuse_link l env s)
unfolding refuse_link after_nack
refuse-Kept l env s h q =
    let m = l.set_message (2 ^ 64 - 1) commnack s.message in
    elim (send_message (m ++ env.behind) l.size env.answer).1
      as (λ e. Kept s.sockets (
        after_nack e (record s {
          message = m;
          sent = s.sent ++ (send_message (m ++ env.behind) l.size env.answer).0;
        }))) [
          | whole ↦ record { is_link = h; same_sockets = refl; at_most = q; returns = refl }
          | broken ↦ record { is_link = refl; same_sockets = refl; at_most = q; returns = refl }
          | endless ↦ record { is_link = refl; same_sockets = refl; at_most = q; returns = refl }
        ]

pub length-post :
    (queue : List Bytes) (m : Bytes)
    → length queue ≤ tcp_queue_size
    → length (post queue m) ≤ tcp_queue_size
unfolding post
length-post queue m h = elim (Bool-cases (leb tcp_queue_size (length queue))) [
  | inl full ↦ rw full (omega arith)
  | inr room ↦ rw room (let e = length-append queue (m ∷ []) in let c = room in ground arith)
]

pub receive-Kept :
    (l : Layout) (sock : ℕ) (r : Received) (env : Env) (s : Server)
    → link s ≡ true
    → length s.queue ≤ tcp_queue_size
    → Kept (if is_data r then s.sockets else close sock s.sockets) (receive l sock r env s)
unfolding receive on_message
receive-Kept l sock failure env s h q = record {
  is_link = refl;
  same_sockets = refl;
  at_most = q;
  returns = refl;
}
receive-Kept l sock closed env s h q = record {
  is_link = refl;
  same_sockets = refl;
  at_most = q;
  returns = refl;
}
receive-Kept l sock (data_of bytes) env s h q =
    let t : Server = record s { message = store bytes s.message } in
    elim (Bool-cases (l.cmd_id t.message == comminit)) [
      | inl init ↦ elim (Bool-cases (s.commstate == idle)) [
        | inl first ↦ rw init (rw first (start-Kept l env t q))
        | inr second ↦ rw init (rw second (refuse-Kept l env t h q))
      ]
      | inr other ↦ rw other (record {
        is_link = h;
        same_sockets = refl;
        at_most = length-post s.queue t.message q;
        returns = refl;
      })
    ]
