-- ===== src/Tcp/Closing.antt =====
-- An attempt of the client that has ended leaves nothing behind.
use esp32_common.Common.{
  ℕ, ◌≡◌, refl, ap, ◌∙◌, ◌⊎◌, inl, inr, Bool, true, false, not, ◌&&◌, List, [], ◌∷◌, arith, ◌==◌,
  if◌then◌else◌, Bool-cases,
}
use esp32_common.Common.Memory.{Bytes, No, codes, same}
use esp32_common.Tcp.Client.{
  tsinit, Client, client_post, takes_close, client_process, ClientRound, client_loop, client_after,
  close_connection, do_tcp, Peer, give_up, open_link, await_ack, after_init, connect_once, arrives,
  task_runs, send_ends, command_given, attempt,
}
use esp32_common.Tcp.Sending.{End, send_bytes, whole, broken, endless}
use esp32_common.Tcp.Server.{
  Layout, idle, connected, comminit, commack, Received, store, Next, close, failure, closed,
  data_of, again,
}

-- The sockets from before, with that of the attempt or without it.
abbrev Within : ℕ → List ℕ → List ℕ → Type 0
Within sock before now = (now ≡ sock ∷ before) ⊎ (now ≡ before)

close_first : (sock : ℕ) (ss : List ℕ) → close sock (sock ∷ ss) ≡ ss
unfolding close
close_first sock ss = let e : (sock == sock) ≡ true = ground arith in rw e refl

close_fresh : (sock : ℕ) (ss : List ℕ) → No sock ss → close sock ss ≡ ss
unfolding close
close_fresh sock [] f = refl
close_fresh sock (s ∷ ss) f =
    let e : (s == sock) ≡ false = let d = f.0 in ground arith in
    rw e (ap (λ (t : List ℕ). s ∷ t) (close_fresh sock ss f.1))

close-before :
    (sock : ℕ) (before now : List ℕ)
    → No sock before
    → Within sock before now
    → close sock now ≡ before
close-before sock before now f (inl e) = ap (close sock) e ∙ close_first sock before
close-before sock before now f (inr e) = ap (close sock) e ∙ close_fresh sock before f

-- A client whose attempt is over.
pub record IsDown (before : List ℕ) (c : Client) : Type 0 where
  pub same_sockets : c.sockets ≡ before
  pub is_idle : c.commstate ≡ idle
  pub no_process : c.process_task ≡ false
  pub no_send : c.send_task ≡ false

abbrev Closes : List ℕ → Next × Client → Type 0
Closes before r = r.0 ≡ again → IsDown before r.1

-- The command `tcp` closes nothing itself.
do_tcp-sockets :
    (l : Layout) (parsed : Bool) (op : Bytes) (now : ℕ) (garbage : Bytes) (c : Client)
    → (do_tcp l parsed op now garbage c).1.sockets ≡ c.sockets
unfolding do_tcp
do_tcp-sockets l parsed op now garbage c =
    go (not parsed) (same op (codes "disconnect") && (c.commstate == connected))
  where
    chosen : Bool → Bool → ℕ × Client
    chosen a b =
        if a
        then (1, c)
        else if b
        then (0, record c { queue = l.set_message now close_connection garbage ∷ [] })
        else (0, c)

    go : (a b : Bool) → (chosen a b).1.sockets ≡ c.sockets
    go true b = refl
    go false true = refl
    go false false = refl

loop-Closes :
    (l : Layout) (sock : ℕ) (rounds : List ClientRound) (before : List ℕ) (c : Client)
    → No sock before
    → Within sock before c.sockets
    → Closes before (client_after sock (client_loop l sock rounds c))
unfolding client_loop client_after client_process
loop-Closes l sock [] before c f w = λ h. absurd (cc)
loop-Closes l sock (arrives failure ∷ rs) before c f w = λ h. record {
  same_sockets = close-before sock before c.sockets f w;
  is_idle = refl;
  no_process = refl;
  no_send = refl;
}
loop-Closes l sock (arrives closed ∷ rs) before c f w = λ h. record {
  same_sockets = close-before sock before c.sockets f w;
  is_idle = refl;
  no_process = refl;
  no_send = refl;
}
loop-Closes l sock (arrives (data_of bytes) ∷ rs) before c f w =
    loop-Closes l sock rs before
      (record c {
        message = store bytes c.message;
        queue = client_post c.queue (store bytes c.message);
      })
      f w
loop-Closes l sock (send_ends ∷ rs) before c f w =
    loop-Closes l sock rs before (record c { send_task = false }) f w
loop-Closes l sock (command_given parsed op now garbage ∷ rs) before c f w =
    loop-Closes l sock rs before (do_tcp l parsed op now garbage c).1 f
      (rw (do_tcp-sockets l parsed op now garbage c) w)
loop-Closes l sock (task_runs ∷ rs) before c f w =
    loop-Closes l sock rs before (client_process l sock c) f
      (go (takes_close l c.process_task c.queue))
  where
    go : (b : Bool) → Within sock before (if b then close sock c.sockets else c.sockets)
    go true = inr (close-before sock before c.sockets f w)
    go false = w

give_up-Closes :
    (sock : ℕ) (before : List ℕ) (c : Client)
    → c.sockets ≡ sock ∷ before
    → c.commstate ≡ idle
    → c.process_task ≡ false
    → c.send_task ≡ false
    → Closes before (give_up sock c)
unfolding give_up
give_up-Closes sock before c e i p s = λ h. record {
  same_sockets = ap (close sock) e ∙ close_first sock before;
  is_idle = i;
  no_process = p;
  no_send = s;
}

open_link-Closes :
    (l : Layout) (sock : ℕ) (p : Peer) (before : List ℕ) (c : Client)
    → No sock before
    → c.sockets ≡ sock ∷ before
    → Closes before (open_link l sock p c)
unfolding open_link
open_link-Closes l sock p before c f e = elim (Bool-cases p.process_made) [
  | inr none ↦ rw none (λ h. absurd (cc))
  | inl one ↦ elim (Bool-cases p.send_made) [
    | inr none ↦ rw one (rw none (λ h. absurd (cc)))
    | inl both ↦ rw one (
        rw both (
          loop-Closes l sock p.rounds before
            (record c { process_task = true; send_task = true; commstate = connected }) f (inl e)))
  ]
]

ack-Closes :
    (l : Layout) (sock : ℕ) (p : Peer) (r : Received) (before : List ℕ) (c : Client)
    → No sock before
    → c.sockets ≡ sock ∷ before
    → c.commstate ≡ idle
    → c.process_task ≡ false
    → c.send_task ≡ false
    → Closes before (await_ack l sock p r c)
unfolding await_ack
ack-Closes l sock p failure before c f e i n s = give_up-Closes sock before c e i n s
ack-Closes l sock p closed before c f e i n s = give_up-Closes sock before c e i n s
ack-Closes l sock p (data_of bytes) before c f e i n s =
    let m = store bytes c.message in
    elim (Bool-cases (l.cmd_id m == commack)) [
      | inl ack ↦ rw ack (open_link-Closes l sock p before (record c { message = m }) f e)
      | inr other ↦ rw other (give_up-Closes sock before (record c { message = m }) e i n s)
    ]

-- A client that is idle and has no task makes an attempt on a socket that is not open. When the attempt
-- is over, whatever came over the link and however the tasks and the command `tcp` took part, the sockets that are open are
-- those from before, and the client is idle and has no task again.
pub connect_once-IsDown :
    (l : Layout) (sock : ℕ) (p : Peer) (c : Client)
    → No sock c.sockets
    → IsDown c.sockets c
    → (connect_once l (attempt sock p) c).0 ≡ again
    → IsDown c.sockets (connect_once l (attempt sock p) c).1
unfolding connect_once after_init await_ack open_link
connect_once-IsDown l sock p c f d = elim (Bool-cases p.connects) [
  | inr none ↦ rw none (
      give_up-Closes sock c.sockets (record c { sockets = sock ∷ c.sockets; sent = [] }) refl
        d.is_idle d.no_process d.no_send)
  | inl there ↦
      let m = l.set_message tsinit comminit c.message in
      let r = send_bytes m l.size p.answer in
      rw there (
        go r.1 (record c { sockets = sock ∷ c.sockets; message = m; sent = r.0 }) refl d.is_idle
          d.no_process d.no_send)
]
  where
    go :
        (e : End) (t : Client)
        → t.sockets ≡ sock ∷ c.sockets
        → t.commstate ≡ idle
        → t.process_task ≡ false
        → t.send_task ≡ false
        → Closes c.sockets (after_init l sock p e t)
    go whole t e i n s = ack-Closes l sock p p.reply c.sockets t f e i n s
    go broken t e i n s = give_up-Closes sock c.sockets t e i n s
    go endless t e i n s = λ h. absurd (cc)
