-- ===== src/TcpLog/Tests.antt =====
-- A log that is started and stopped, and a line in pieces.
use esp32_common.Common.{◌≡◌, refl, true, false, [], ◌∷◌, ◌++◌, ◌==◌, if◌then◌else◌}
use esp32_common.Common.Int.{pos, negsuc}
use esp32_common.Common.Memory.{codes}
use esp32_common.CrashHandler.Strings.{strlcpy}
use esp32_common.TcpLog.Init.{
  Log, Ret, esp_ok, esp_fail, Event, init, no_network, task_ended, next_level, stop_log, start_log,
  tcp_log_init, on_event, on_events, at_reset, is_log, is_ok, is_done, tcp_log_init-done,
}
use esp32_common.TcpLog.Lines.{strlcpy_at, compose, with_newline}
use esp32_common.TcpLog.Sending.{sent, failed, send_loop, Env, send_line, send_line-whole}
use esp32_common.TcpLog.Init

abbrev good : Init.Env
good = record { task_ends = true; resolves = true; task_made = true }

log_started :
    tcp_log_init (pos 2) good at_reset
    ≡ (esp_ok, record { tcp_log_enable = 1; log_level = 2; tcp_log_task_handle = true })
unfolding tcp_log_init next_level start_log
log_started = refl

tcp_log_init-done_example :
    (is_log (on_events (init (pos 2) good ∷ no_network ∷ []) at_reset) ≡ true)
    × (is_ok
          (tcp_log_init
            (negsuc 0)
            good
            (on_events (init (pos 2) good ∷ no_network ∷ []) at_reset)).0
        ≡ is_done
            (tcp_log_init
              (negsuc 0)
              good
              (on_events (init (pos 2) good ∷ no_network ∷ []) at_reset)).1)
tcp_log_init-done_example = tcp_log_init-done (init (pos 2) good ∷ no_network ∷ []) (negsuc 0) good

cut_short : compose 16 (codes "gnetdev81") (codes "started") ≡ codes "gnetdev81:: sta" ++ (0 ∷ [])
unfolding compose strlcpy_at strlcpy
cut_short = refl

-- Three bytes at a time.
abbrev slow : Env
slow = record { init_ok = true; connects = true; connects_again = false; answer = λ i. sent 3 }

-- The second call fails for good, and the server is gone.
abbrev cut : Env
cut = record {
  init_ok = true;
  connects = true;
  connects_again = false;
  answer = λ i. if i == 1 then failed false else sent 3;
}

line_cut : send_line 512 cut true (codes "started") ≡ (codes "sta", false)
unfolding send_line send_loop with_newline
line_cut = refl

send_line-whole_example :
    send_line 512 slow false (codes "started") ≡ (with_newline 512 (codes "started"), true)
send_line-whole_example =
    send_line-whole 512 slow false (codes "started") refl refl (λ j. (2, refl))
