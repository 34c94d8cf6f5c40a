-- ===== src/TcpLog/Init.antt =====
-- `tcp_log_init` of tcp/tcp_log.c as a transition on its static variables.
use esp32_common.Common.{
  ℕ, ◌≡◌, refl, Bool, true, false, not, ◌&&◌, ◌||◌, List, [], ◌∷◌, leb, ltb, ◌==◌, if◌then◌else◌,
  arith, inl, inr, Bool-cases,
}
use esp32_common.Common.Int.{ℤ, pos, negsuc}
use esp32_common.DevMon.Messages.{console_tcp, console_mqtt}

-- `tcp_log_task_handle` is whether the handle is not NULL.
pub record Log : Type 0 where
  pub tcp_log_enable : ℕ
  pub log_level : ℕ
  pub tcp_log_task_handle : Bool

-- What the call meets: whether the task ends within the ten polls, whether the name of the server is
-- resolved to an address, and whether the task can be created.
pub record Env : Type 0 where
  pub task_ends : Bool
  pub resolves : Bool
  pub task_made : Bool

pub data Ret : Type 0 where
  esp_ok esp_fail : Ret

-- A level between CONSOLE_OFF and CONSOLE_MQTT is taken over.
unfoldable pub next_level : ℤ → ℕ → ℕ
next_level (pos level) old = if leb level console_mqtt then level else old
next_level (negsuc n) old = old

-- The branch below CONSOLE_TCP.
unfoldable pub stop_log : Env → Log → Ret × Log
stop_log env s =
    if s.tcp_log_task_handle
    then if env.task_ends
      then (esp_ok, record s { tcp_log_enable = 0; tcp_log_task_handle = false })
      else (esp_fail, s)
    else (esp_ok, s)

-- The branch from CONSOLE_TCP.
unfoldable pub start_log : Env → Log → Ret × Log
start_log env s =
    if s.tcp_log_enable == 1
    then (esp_ok, s)
    else if not s.tcp_log_task_handle && not env.task_made
    then (esp_fail, record s { tcp_log_enable = 0 })
    else if env.resolves
    then (esp_ok, record s { tcp_log_enable = 1; tcp_log_task_handle = true })
    else (esp_fail, record s { tcp_log_enable = 0; tcp_log_task_handle = true })

unfoldable pub tcp_log_init : ℤ → Env → Log → Ret × Log
tcp_log_init level env s =
    let t : Log = record s { log_level = next_level level s.log_level } in
    if ltb t.log_level console_tcp then stop_log env t else start_log env t

-- What changes the variables: calls of `tcp_log_init`, a line logged by `tcp_log_message` without a
-- network, and the end of `tcp_log_task` on the control marker.
pub data Event : Type 0 where
  init : ℤ → Env → Event
  no_network : Event
  task_ended : Event

unfoldable pub on_event : Event → Log → Log
on_event (init level env) s = (tcp_log_init level env s).1
on_event no_network s = if leb console_tcp s.log_level then record s { tcp_log_enable = 0 } else s
on_event task_ended s = record s { tcp_log_enable = 0; tcp_log_task_handle = false }

unfoldable pub on_events : List Event → Log → Log
on_events [] s = s
on_events (e ∷ es) s = on_events es (on_event e s)

abbrev pub at_reset : Log
at_reset = record { tcp_log_enable = 0; log_level = 1; tcp_log_task_handle = false }

-- The log is enabled only with a task.
abbrev pub is_log : Log → Bool
is_log s = (s.tcp_log_enable == 0) || ((s.tcp_log_enable == 1) && s.tcp_log_task_handle)

abbrev pub is_ok : Ret → Bool
is_ok esp_ok = true
is_ok esp_fail = false

-- What ESP_OK says of the variables.
abbrev pub is_done : Log → Bool
is_done s = if ltb s.log_level console_tcp then not s.tcp_log_task_handle else s.tcp_log_enable == 1

record Sound (level : ℕ) (r : Ret × Log) : Type 0 where
  sound : is_log r.1 ≡ true
  done :
      is_ok r.0
      ≡ (if ltb level console_tcp then not r.1.tcp_log_task_handle else r.1.tcp_log_enable == 1)
  same_level : r.1.log_level ≡ level

stop-Sound :
    (env : Env) (s : Log)
    → ltb s.log_level console_tcp ≡ true
    → is_log s ≡ true
    → Sound s.log_level (stop_log env s)
unfolding stop_log
stop-Sound env s low h = elim (Bool-cases s.tcp_log_task_handle) [
  | inl task ↦ elim (Bool-cases env.task_ends) [
    | inl ends ↦ rw task (rw ends (record { sound = refl; done = rw low refl; same_level = refl }))
    | inr stays ↦
        rw task (rw stays (record { sound = ground arith; done = rw low refl; same_level = refl }))
  ]
  | inr no_task ↦
      rw no_task (record { sound = ground arith; done = rw low refl; same_level = refl })
]

start-Sound :
    (env : Env) (s : Log)
    → ltb s.log_level console_tcp ≡ false
    → is_log s ≡ true
    → Sound s.log_level (start_log env s)
unfolding start_log
start-Sound env s high h = elim (Bool-cases (s.tcp_log_enable == 1)) [
  | inl enabled ↦
      rw enabled (record { sound = h; done = rw high (rw enabled refl); same_level = refl })
  | inr disabled ↦ elim (Bool-cases (not s.tcp_log_task_handle && not env.task_made)) [
    | inl no_task ↦
        rw disabled (rw no_task (record { sound = refl; done = rw high refl; same_level = refl }))
    | inr task ↦ elim (Bool-cases env.resolves) [
      | inl found ↦
          rw disabled
            (rw task (rw found (record { sound = refl; done = rw high refl; same_level = refl })))
      | inr unknown ↦
          rw disabled
            (rw task (rw unknown (record { sound = refl; done = rw high refl; same_level = refl })))
    ]
  ]
]

init-Sound :
    (level : ℤ) (env : Env) (s : Log)
    → is_log s ≡ true
    → Sound (next_level level s.log_level) (tcp_log_init level env s)
unfolding tcp_log_init
init-Sound level env s h =
    let t : Log = record s { log_level = next_level level s.log_level } in
    elim (Bool-cases (ltb t.log_level console_tcp)) [
      | inl low ↦ rw low (stop-Sound env t low h)
      | inr high ↦ rw high (start-Sound env t high h)
    ]

event-log : (e : Event) (s : Log) → is_log s ≡ true → is_log (on_event e s) ≡ true
unfolding on_event
event-log (init level env) s h = (init-Sound level env s h).sound
event-log no_network s h = elim (Bool-cases (leb console_tcp s.log_level)) [
  | inl on ↦ rw on refl
  | inr off ↦ rw off h
]
event-log task_ended s h = refl

events-log : (es : List Event) (s : Log) → is_log s ≡ true → is_log (on_events es s) ≡ true
unfolding on_events
events-log [] s h = h
events-log (e ∷ es) s h = events-log es (on_event e s) (event-log e s h)

-- Whatever happened since reset, but for a task that cannot make its queue: the log is enabled only
-- while there is a task to send it; and a call of `tcp_log_init` returns ESP_OK exactly if
-- afterwards the log is enabled, at a level of CONSOLE_TCP or above, or there is no task, below.
pub tcp_log_init-done :
    (es : List Event) (level : ℤ) (env : Env)
    → (is_log (on_events es at_reset) ≡ true)
      × (is_ok (tcp_log_init level env (on_events es at_reset)).0
          ≡ is_done (tcp_log_init level env (on_events es at_reset)).1)
tcp_log_init-done es level env =
    let s = on_events es at_reset in
    let h : is_log s ≡ true = events-log es at_reset refl in
    let r = init-Sound level env s h in (h, rw r.same_level r.done)
