-- ===== src/MqttCtrl/Tests.antt =====
-- A command with a line end, a query, and a connection that is lost.
use esp32_common.Common.{
  ◌≡◌, ◌≢◌, refl, true, false, none, some, List, [], ◌∷◌, ◌++◌, leb, if◌then◌else◌, arith,
}
use esp32_common.Common.Memory.{Bytes, codes}
use esp32_common.MqttCtrl.Message.{
  trim, payload_of, strtok, Alloc, collect, parse_argv, app_cmd, publish_status, device_topic_q,
  dispatch, execute, execute_and_free, on_data,
}
use esp32_common.MqttCtrl.Words.{spaced}
use esp32_common.MqttCtrl.Commands.{AllOk, on_data-command}
use esp32_common.MqttCtrl.Connection.{
  Event, connected, disconnected, other, on_events, failures, stays_up, on_events-restart,
}

abbrev enough : Alloc
enough = record { realloc_ok = λ i. true; strdup_ok = λ i. true }

enough-AllOk : AllOk enough
enough-AllOk = record { arrays = λ i. refl; strings = λ i. refl }

abbrev ctrl : Bytes
ctrl = codes "gnetdev81/ctrl"

query :
    on_data true true enough true device_topic_q (codes "reqID\r\n") 7 ≡ (7, publish_status ∷ [])
unfolding on_data payload_of trim execute_and_free execute parse_argv collect strtok dispatch
query = refl

blanks : on_data true true enough true ctrl (codes "  \n\r\n") 7 ≡ (7, [])
unfolding on_data payload_of trim execute_and_free execute parse_argv collect strtok dispatch
blanks = refl

on_data-command_example :
    on_data true true enough true ctrl
      (spaced (codes "flashled") (codes "4" ∷ codes "2" ∷ []) ++ codes "\r\n")
      7
    ≡ (7, app_cmd (codes "flashled" ∷ codes "4" ∷ codes "2" ∷ []) ∷ [])
on_data-command_example =
    on_data-command enough ctrl (codes "flashled") (codes "4" ∷ codes "2" ∷ []) (codes "\r\n") 7
      enough-AllOk refl refl refl

-- Room for the array of the arguments only.
abbrev scarce : Alloc
scarce = record { realloc_ok = λ i. true; strdup_ok = λ i. false }

uptime_read : strtok [] (payload_of (codes "uptime")) ≡ codes "uptime" ∷ []
unfolding strtok payload_of trim
uptime_read = refl

uptime_token : strtok [] (payload_of (codes "uptime")) ≢ []
uptime_token e = cc uptime_read

abbrev lost : List Event
lost = disconnected true ∷ other ∷ disconnected false ∷ disconnected true ∷ []

on_events-restart_example :
    on_events 3 (connected ∷ lost) (record { mqtt_connected = false; connect_fail_count = 2 }) ≡ (
      if leb 3 (failures lost)
      then none
      else some (record { mqtt_connected = stays_up lost; connect_fail_count = failures lost }))
on_events-restart_example =
    on_events-restart 3 lost (record { mqtt_connected = false; connect_fail_count = 2 })
      (omega arith) refl
