-- ===== src/DevMon/Tests.antt =====
-- Two handlers on a line, and a Wi-Fi connection.
use Prim.Native.Nat.{bit_and}
use esp32_common.Common.{
  zero, suc, ◌≡◌, refl, ap, sym, some, List, [], ◌∷◌, replicate, ◌==◌, if◌then◌else◌,
}
use esp32_common.DevMon.Handlers.{
  Row, Matrix, esp_ok, esp_fail, max_evt_handlers, installed, install, add_to_row, add_handler,
}
use esp32_common.DevMon.Rows.{is_row}
use esp32_common.DevMon.Lines.{IsMatrix}
use esp32_common.DevMon.Messages.{
  StateMessage, Act, mqtt_start, Mon, mqtt_proto, console_tcp, wifi_connected_bit,
  mqtt_connected_bit, connections, on_wifi, on_message, dev_mon_task, dev_mon_task_mqtt,
}

-- Two lines are enough to see a change of one.
abbrev two_lines : Matrix
two_lines = (100 ∷ 200 ∷ replicate 8 0) ∷ replicate max_evt_handlers 0 ∷ []

two_lines-IsMatrix : IsMatrix two_lines
unfolding is_row installed
two_lines-IsMatrix zero row e = ap is_row (sym (inject e))
  where
    inject : {a b : Row} → some a ≡ some b → a ≡ b
    inject h = cc
two_lines-IsMatrix (suc zero) row e = ap is_row (sym (inject e))
  where
    inject : {a b : Row} → some a ≡ some b → a ≡ b
    inject h = cc
two_lines-IsMatrix (suc (suc i)) row e = cc

added_third :
    add_handler 0 300 two_lines
    ≡ some (esp_ok, (100 ∷ 200 ∷ 300 ∷ replicate 7 0) ∷ replicate max_evt_handlers 0 ∷ [])
unfolding add_to_row install installed
added_third = refl

full_line : add_handler 0 5 (replicate 10 7 ∷ []) ≡ some (esp_fail, replicate 10 7 ∷ [])
unfolding add_to_row install installed
full_line = refl

abbrev at_reset : Mon
at_reset = record { wifi_connected = 0; device_state = 0 }

-- A connection, its loss, and a message of another kind.
abbrev up_and_down : List StateMessage
up_and_down =
    record { message = 1; ival = 1 }
    ∷ record { message = 1; ival = 0 }
    ∷ record { message = 9; ival = 1 }
    ∷ []

tcp_build : (dev_mon_task 2 console_tcp up_and_down at_reset).1 ≡ Act.tcp_log_init console_tcp ∷ []
unfolding dev_mon_task on_message on_wifi
tcp_build = refl

dev_mon_task_mqtt_example :
    ((dev_mon_task mqtt_proto console_tcp up_and_down at_reset).1
      ≡ replicate (connections up_and_down) mqtt_start)
    × (bit_and
          (dev_mon_task mqtt_proto console_tcp up_and_down at_reset).0.device_state
          mqtt_connected_bit
        ≡ 0)
    × (bit_and
          (dev_mon_task mqtt_proto console_tcp up_and_down at_reset).0.device_state
          wifi_connected_bit
        ≡ (if connections up_and_down == 0
            then bit_and at_reset.device_state wifi_connected_bit
            else wifi_connected_bit))
dev_mon_task_mqtt_example = dev_mon_task_mqtt console_tcp up_and_down at_reset refl
