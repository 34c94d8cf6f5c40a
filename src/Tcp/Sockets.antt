-- ===== src/Tcp/Sockets.antt =====
-- The sockets that a connection of the server leaves open when it ends.
use esp32_common.Common.{
  ℕ, ◌≤◌, ◌≡◌, refl, sym, ap, ◌∙◌, true, false, List, [], ◌∷◌, ◌++◌, arith, ◌==◌, if◌then◌else◌,
  length,
}
use esp32_common.Tcp.Links.{is_data, is_waiting, receive-Kept}
use esp32_common.Tcp.Loops.{
  receive_loop-IsOpen, receive_loop-append, begins, is_free, begins-IsOpen,
}
use esp32_common.Tcp.Server.{
  Layout, tcp_queue_size, Received, Server, Env, Next, close, receive, Round, receive_loop,
  end_tasks, after_loop, serve, failure, closed, data_of, again, leave, restart, stuck, waiting,
  received, accepted,
}

close_first : (sock : ℕ) (ss : List ℕ) → close sock (sock ∷ ss) ≡ ss
unfolding close
close_first sock ss = let e : (sock == sock) ≡ true = ground arith in rw e refl

-- A loop of one round, behind which the accept loop goes on.
last_round :
    (t : Next × Server)
    → is_waiting t.0 ≡ false
    → (after_loop (elim t.0 [ again ↦ (waiting, t.1) | e ↦ (e, t.1) ])).0 ≡ again
    → after_loop (elim t.0 [ again ↦ (waiting, t.1) | e ↦ (e, t.1) ]) ≡ (again, end_tasks t.1)
unfolding after_loop
last_round (leave, t) w h = refl
last_round (again, t) w h = cc
last_round (restart, t) w h = cc
last_round (stuck, t) w h = cc
last_round (waiting, t) w h = cc

-- A server without tasks takes a connection of IPv4; its receive loop waits, and a further call of
-- `recv` ends the loop so that the server accepts again. Then no task is left; and if that call failed
-- or found the connection closed, the sockets that are open are those from before, but if it received
-- data, so that the sending of an answer failed, the socket of the connection stays open.
pub serve-sockets :
    (l : Layout) (sock : ℕ) (rounds : List Round) (r : Received) (env : Env) (s : Server)
    → is_free s ≡ true
    → length s.queue ≤ tcp_queue_size
    → (receive_loop l sock rounds (begins sock s)).0 ≡ waiting
    → (serve l (accepted sock true (rounds ++ (received r env ∷ []))) s).0 ≡ again
    → (is_free (serve l (accepted sock true (rounds ++ (received r env ∷ []))) s).1 ≡ true)
      × ((serve l (accepted sock true (rounds ++ (received r env ∷ []))) s).1.sockets
          ≡ (if is_data r then sock ∷ s.sockets else s.sockets))
unfolding serve receive_loop end_tasks
serve-sockets l sock rounds r env s free q waits ends =
    let o =
      receive_loop-IsOpen l sock rounds (begins sock s) (sock ∷ s.sockets)
        (begins-IsOpen sock s free q) waits in
    let both =
      receive_loop-append l sock rounds (received r env) (begins sock s) (sock ∷ s.sockets)
        (begins-IsOpen sock s free q) waits in
    let u = (receive_loop l sock rounds (begins sock s)).1 in
    let k = receive-Kept l sock r env u o.is_link o.at_most in
    let loop : serve l (accepted sock true (rounds ++ (received r env ∷ []))) s
        ≡ after_loop (receive_loop l sock (received r env ∷ []) u) =
      ap after_loop both in
    let end : serve l (accepted sock true (rounds ++ (received r env ∷ []))) s
        ≡ (again, end_tasks (receive l sock r env u).1) =
      loop
      ∙ last_round (receive l sock r env u) k.returns
          (ap (λ (t : Next × Server). t.0) (sym loop) ∙ ends) in
    let left : (receive l sock r env u).1.sockets
        ≡ (if is_data r then sock ∷ s.sockets else s.sockets) =
      k.same_sockets ∙ go r u.sockets o.same_sockets in
    (
      ap (λ (t : Next × Server). is_free t.1) end,
      ap (λ (t : Next × Server). t.1.sockets) end ∙ left,
    )
  where
    go :
        (r : Received) (ss : List ℕ)
        → ss ≡ sock ∷ s.sockets
        → (if is_data r then ss else close sock ss)
          ≡ (if is_data r then sock ∷ s.sockets else s.sockets)
    go failure ss e = ap (close sock) e ∙ close_first sock s.sockets
    go closed ss e = ap (close sock) e ∙ close_first sock s.sockets
    go (data_of bytes) ss e = e
