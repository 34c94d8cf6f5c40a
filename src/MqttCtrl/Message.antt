-- ===== src/MqttCtrl/Message.antt =====
-- A received message: the payload that is handed on, `parse_argv`, and the branch of
-- `mqtt_event_handler` that executes it in the event handler.
use esp32_common.Common.{
  ℕ, zero, suc, ◌+◌, ◌-◌, Bool, true, false, not, ◌||◌, List, [], ◌∷◌, ◌++◌, ◌==◌, if◌then◌else◌,
  length, get_or, take,
}
use esp32_common.Common.Memory.{Bytes, same, codes, c_string}

abbrev pub is_eol : ℕ → Bool
is_eol c = (c == b'\n') || (c == b'\r')

-- The loop that moves `ml` in front of the line ends.
unfoldable pub trim : ℕ → Bytes → ℕ
trim zero payload = 0
trim (suc n) payload =
    let rest = trim n payload in if is_eol (get_or payload n 0) then rest else suc n

-- The string that `msg.payload` shows: the data without its line ends, and a space.
unfoldable pub payload_of : Bytes → Bytes
payload_of payload = c_string (take (trim (length payload) payload) payload ++ (b' ' ∷ []))

-- What `strtok` returns call by call for the separators " \n"; `word` is the token that is read.
abbrev pub is_separator : ℕ → Bool
is_separator c = (c == b' ') || (c == b'\n')

abbrev pub ended : Bytes → List Bytes → List Bytes
ended [] tokens = tokens
ended (c ∷ cs) tokens = (c ∷ cs) ∷ tokens

unfoldable pub strtok : Bytes → Bytes → List Bytes
strtok word [] = ended word []
strtok word (c ∷ cs) =
    let new = strtok [] cs in
    let more = strtok (word ++ (c ∷ [])) cs in if is_separator c then ended word new else more

-- Which allocations of the array and of the string of each argument succeed.
pub record Alloc : Type 0 where
  pub realloc_ok : ℕ → Bool
  pub strdup_ok : ℕ → Bool

-- The arguments and whether `argv` was allocated.
pub record Parsed : Type 0 where
  pub args : List Bytes
  pub array : Bool

module _ (alloc : Alloc) where
  -- The loop of `parse_argv`; `argc` and `array` are what it has so far.
  unfoldable pub collect : ℕ → Bool → List Bytes → Parsed
  collect argc array [] = record { args = []; array = array }
  collect argc array (p ∷ tokens) =
      let rest = collect (suc argc) true tokens in
      if not (alloc.realloc_ok argc)
      then record { args = []; array = array }
      else if not (alloc.strdup_ok argc)
      then record { args = []; array = true }
      else record rest { args = p ∷ rest.args }

  unfoldable pub parse_argv : Bytes → Parsed
  parse_argv payload = collect 0 false (strtok [] payload)

-- What a message makes the device do.
pub data Call : Type 0 where
  app_cmd : List Bytes → Call
  publish_status : Call

abbrev pub device_topic_q : Bytes
device_topic_q = codes "gnetdev/query"

abbrev pub first_is : Bytes → List Bytes → Bool
first_is text [] = false
first_is text (arg ∷ args) = same arg text

unfoldable pub dispatch : Bytes → List Bytes → List Call
dispatch topic args =
    if same topic device_topic_q
    then if first_is (codes "reqID") args then publish_status ∷ [] else []
    else app_cmd args ∷ []

-- The arguments are parsed and executed, and then freed if there are any. `heap` is the number of
-- allocated blocks.
unfoldable pub execute : Alloc → (List Bytes → List Call) → Bytes → ℕ → ℕ × List Call
execute alloc calls text heap =
    let parsed = parse_argv alloc text in
    let argc = length parsed.args in
    let array = if parsed.array then 1 else 0 in
    let used = heap + array + argc in
    if argc == 0 then (used, []) else (used - argc - array, calls parsed.args)

-- A message executed for a registered controller, and its topic and payload freed; `registered` is
-- `controller_op_registered`.
unfoldable pub execute_and_free :
    Alloc → (List Bytes → List Call) → Bool → Bytes → ℕ → ℕ × List Call
execute_and_free alloc calls registered text heap =
    let result : ℕ × List Call = if registered then execute alloc calls text heap else (heap, []) in
    (result.0 - 2, result.1)

-- MQTT_EVENT_DATA with the message processed by the handler. `topic_ok` and `payload_ok` are whether
-- the topic and the payload can be allocated.
unfoldable pub on_data : Bool → Bool → Alloc → Bool → Bytes → Bytes → ℕ → ℕ × List Call
on_data topic_ok payload_ok alloc registered topic payload heap =
    if not topic_ok
    then (heap, [])
    else if not payload_ok
    then (heap + 1 - 1, [])
    else execute_and_free alloc (dispatch topic) registered (payload_of payload) (heap + 2)

-- What `mqtt_rx_task` does with the arguments: `topic_ctrl` is TOPIC_CTRL, and `has_handler` is
-- whether `app_cmd_handler` is not NULL.
unfoldable pub dispatch_rx : Bytes → Bool → Bytes → List Bytes → List Call
dispatch_rx topic_ctrl has_handler topic args =
    if same topic topic_ctrl
    then if has_handler then app_cmd args ∷ [] else []
    else if same topic device_topic_q
    then if first_is (codes "reqID") args then publish_status ∷ [] else []
    else []

-- The task at a message of the queue.
unfoldable pub mqtt_rx : Alloc → Bytes → Bool → Bool → Bytes → Bytes → ℕ → ℕ × List Call
mqtt_rx alloc topic_ctrl has_handler registered topic text heap =
    execute_and_free alloc (dispatch_rx topic_ctrl has_handler topic) registered text heap

-- MQTT_EVENT_DATA with a queue, and the task at the message that it then receives. `queue_ok` is
-- whether the queue takes the message.
unfoldable pub on_data_queued :
    Bool → Bool → Bool → Alloc → Bytes → Bool → Bool → Bytes → Bytes → ℕ → ℕ × List Call
on_data_queued topic_ok payload_ok queue_ok alloc topic_ctrl has_handler registered topic payload
      heap =
    if not topic_ok
    then (heap, [])
    else if not payload_ok
    then (heap + 1 - 1, [])
    else if not queue_ok
    then (heap + 2, [])
    else mqtt_rx alloc topic_ctrl has_handler registered topic (payload_of payload) (heap + 2)
