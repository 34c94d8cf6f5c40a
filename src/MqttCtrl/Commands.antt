-- ===== src/MqttCtrl/Commands.antt =====
-- What a received command does, and the blocks of memory it takes.
use esp32_common.Common.{
  ℕ, suc, ◌+◌, ◌-◌, ◌≡◌, ◌≢◌, refl, ap, ◌∙◌, Bool, true, false, not, ◌&&◌, List, [], ◌∷◌, ◌++◌,
  ◌==◌, if◌then◌else◌, length, arith, inl, inr, Bool-cases,
}
use esp32_common.Common.Memory.{Bytes, same}
use esp32_common.MqttCtrl.Message.{
  payload_of, strtok, Alloc, collect, parse_argv, Call, app_cmd, device_topic_q, dispatch,
  dispatch_rx, execute, execute_and_free, on_data, mqtt_rx, on_data_queued,
}
use esp32_common.MqttCtrl.Words.{all_words, spaced, all_eol, payload_of-spaced, strtok-spaced}

-- Every allocation of an argument succeeds.
pub record AllOk (alloc : Alloc) : Type 0 where
  pub arrays : (i : ℕ) → alloc.realloc_ok i ≡ true
  pub strings : (i : ℕ) → alloc.strdup_ok i ≡ true

freed : (heap array argc : ℕ) → heap + array + argc - argc - array ≡ heap
freed heap array argc = omega arith

module _ (alloc : Alloc) where
  collect_all :
      (tokens : List Bytes) (argc : ℕ) (array : Bool)
      → AllOk alloc
      → collect alloc argc array tokens
        ≡ record { args = tokens; array = elim tokens [ [] ↦ array | t ∷ ts ↦ true ] }
  unfolding collect
  collect_all [] argc array ok = refl
  collect_all (p ∷ []) argc array ok = rw (ok.arrays argc) (rw (ok.strings argc) refl)
  collect_all (p ∷ q ∷ tokens) argc array ok =
      rw (ok.arrays argc)
        (rw (ok.strings argc) (rw (collect_all (q ∷ tokens) (suc argc) true ok) refl))

  -- No argument, no array.
  collect_empty :
      (tokens : List Bytes)
      → alloc.strdup_ok 0 ≡ true
      → (length (collect alloc 0 false tokens).args == 0) ≡ true
      → (collect alloc 0 false tokens).array ≡ false
  unfolding collect
  collect_empty [] ok h = refl
  collect_empty (p ∷ tokens) ok h = elim (Bool-cases (not (alloc.realloc_ok 0))) [
    | inl failed ↦ rw failed refl
    | inr got ↦ absurd (
        let bad : (suc (length (collect alloc 1 true tokens).args) == 0) ≡ true =
          rw ok at (rw got at h) in
        ground arith)
  ]

  collect_leak :
      (tokens : List Bytes)
      → alloc.realloc_ok 0 ≡ true
      → alloc.strdup_ok 0 ≡ false
      → tokens ≢ []
      → collect alloc 0 false tokens ≡ record { args = []; array = true }
  unfolding collect
  collect_leak [] r s some_token = absurd (some_token refl)
  collect_leak (p ∷ tokens) r s some_token = rw r (rw s refl)

  execute-heap :
      (calls : List Bytes → List Call) (text : Bytes) (heap : ℕ)
      → alloc.strdup_ok 0 ≡ true
      → (execute alloc calls text heap).0 ≡ heap
  unfolding execute parse_argv
  execute-heap calls text heap ok =
      let parsed = collect alloc 0 false (strtok [] text) in
      elim (Bool-cases (length parsed.args == 0)) [
        | inl nothing ↦
            let e : length parsed.args ≡ 0 = ground arith in
            let no_array = collect_empty (strtok [] text) ok nothing in
            rw nothing (rw e (rw no_array (omega arith)))
        | inr something ↦
            rw something (freed heap (if parsed.array then 1 else 0) (length parsed.args))
      ]

  free-heap :
      (calls : List Bytes → List Call) (registered : Bool) (text : Bytes) (heap : ℕ)
      → alloc.strdup_ok 0 ≡ true
      → (execute_and_free alloc calls registered text (heap + 2)).0 ≡ heap
  unfolding execute_and_free
  free-heap calls false text heap ok = omega arith
  free-heap calls true text heap ok = rw (execute-heap calls text (heap + 2) ok) (omega arith)

  -- Whatever arrives on whatever topic, and whatever allocations fail: once the event is handled, as
  -- many blocks are allocated as before, provided that the first string of an argument can be
  -- allocated.
  pub on_data-heap :
      (topic_ok payload_ok registered : Bool) (topic payload : Bytes) (heap : ℕ)
      → alloc.strdup_ok 0 ≡ true
      → (on_data topic_ok payload_ok alloc registered topic payload heap).0 ≡ heap
  unfolding on_data
  on_data-heap false payload_ok registered topic payload heap ok = refl
  on_data-heap true false registered topic payload heap ok = omega arith
  on_data-heap true true registered topic payload heap ok =
      free-heap (dispatch topic) registered (payload_of payload) heap ok

  -- With a queue between the event and its execution, whatever arrives on whatever topic, and whatever
  -- allocations fail but that of the first string of an argument: once the task is done, as many
  -- blocks are allocated as before, but two more where the queue does not take the message, whose
  -- topic and payload are then never freed.
  pub on_data_queued-heap :
      (topic_ok payload_ok queue_ok has_handler registered : Bool)
      (topic_ctrl topic payload : Bytes) (heap : ℕ)
      → alloc.strdup_ok 0 ≡ true
      → (on_data_queued topic_ok payload_ok queue_ok alloc topic_ctrl has_handler registered topic
          payload heap).0
        ≡ (if topic_ok && (payload_ok && not queue_ok) then heap + 2 else heap)
  unfolding on_data_queued mqtt_rx
  on_data_queued-heap false payload_ok queue_ok has_handler registered topic_ctrl topic payload heap
        ok =
      refl
  on_data_queued-heap true false queue_ok has_handler registered topic_ctrl topic payload heap ok =
      omega arith
  on_data_queued-heap true true false has_handler registered topic_ctrl topic payload heap ok = refl
  on_data_queued-heap true true true has_handler registered topic_ctrl topic payload heap ok =
      free-heap (dispatch_rx topic_ctrl has_handler topic) registered (payload_of payload) heap ok

  -- Where the first string of an argument cannot be allocated after its array was, the array of
  -- pointers is never freed: each such message of a registered controller leaves one block more.
  pub on_data-leak :
      (topic payload : Bytes) (heap : ℕ)
      → alloc.realloc_ok 0 ≡ true
      → alloc.strdup_ok 0 ≡ false
      → strtok [] (payload_of payload) ≢ []
      → (on_data true true alloc true topic payload heap).0 ≡ heap + 1
  unfolding on_data execute_and_free execute parse_argv
  on_data-leak topic payload heap r s some_token =
      rw (collect_leak (strtok [] (payload_of payload)) r s some_token) (omega arith)

  -- The words of a payload reach the calls, and all that was allocated is freed.
  words-calls :
      (calls : List Bytes → List Call) (w : Bytes) (ws : List Bytes) (eols : Bytes) (heap : ℕ)
      → AllOk alloc
      → all_words (w ∷ ws) ≡ true
      → all_eol eols ≡ true
      → execute_and_free alloc calls true (payload_of (spaced w ws ++ eols)) (heap + 2)
        ≡ (heap, calls (w ∷ ws))
  unfolding execute_and_free execute parse_argv
  words-calls calls w ws eols heap ok h g =
      let some : (suc (length ws) == 0) ≡ false = ground arith in
      let back : heap + 2 + 1 + suc (length ws) - suc (length ws) - 1 - 2 ≡ heap = omega arith in
      rw (payload_of-spaced w ws eols h g) (
        rw (strtok-spaced w ws h)
          (rw (collect_all (w ∷ ws) 0 false ok) (rw some (λ i. (back i, calls (w ∷ ws))))))

  -- In a build with PROCESS_MESSAGE_BY_HANDLER, whose event handler executes the messages itself:
  -- where a controller is registered and every allocation succeeds, words of plain bytes, sent with one
  -- space between them and any line ends behind them, reach the command handler of the application
  -- exactly as these words, on every topic but the query of the devices, and the memory taken is freed.
  pub on_data-command :
      (topic w : Bytes) (ws : List Bytes) (eols : Bytes) (heap : ℕ)
      → AllOk alloc
      → all_words (w ∷ ws) ≡ true
      → all_eol eols ≡ true
      → same topic device_topic_q ≡ false
      → on_data true true alloc true topic (spaced w ws ++ eols) heap
        ≡ (heap, app_cmd (w ∷ ws) ∷ [])
  unfolding on_data dispatch
  on_data-command topic w ws eols heap ok h g other =
      words-calls (dispatch topic) w ws eols heap ok h g
      ∙ ap (λ (c : List Call). (heap, c)) (rw other refl)

  -- With a queue that takes the message, a registered controller, a command handler, and allocations
  -- that all succeed, words of plain bytes, sent with one space between them and any line ends behind
  -- them: on the control topic of the device exactly these words reach the command handler, and on a
  -- topic that is neither this one nor the query nothing is called; the memory taken is freed.
  pub on_data_queued-command :
      (topic_ctrl topic w : Bytes) (ws : List Bytes) (eols : Bytes) (heap : ℕ)
      → AllOk alloc
      → all_words (w ∷ ws) ≡ true
      → all_eol eols ≡ true
      → same topic device_topic_q ≡ false
      → on_data_queued true true true alloc topic_ctrl true true topic (spaced w ws ++ eols) heap
        ≡ (heap, (if same topic topic_ctrl then app_cmd (w ∷ ws) ∷ [] else []))
  unfolding on_data_queued mqtt_rx dispatch_rx
  on_data_queued-command topic_ctrl topic w ws eols heap ok h g other =
      words-calls (dispatch_rx topic_ctrl true topic) w ws eols heap ok h g
      ∙ ap (λ (c : List Call). (heap, c)) (rw other refl)
