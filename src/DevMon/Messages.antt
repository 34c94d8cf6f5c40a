-- ===== src/DevMon/Messages.antt =====
-- The loop of `dev_mon_task` of utils/dev_mon.c over the messages that the queue delivers, with the
-- bits of common_defines.h.
use Prim.Native.Nat.{bit_and, bit_or}
use esp32_common.Common.{
  ℕ, suc, ◌/◌, ◌≡◌, refl, ap, ◌∙◌, Bool, true, false, not, ◌&&◌, List, [], ◌∷◌, ◌++◌, ◌==◌,
  if◌then◌else◌, arith, inl, inr, Bool-cases, replicate,
}
use esp32_common.Common.Bits.{shr-div, shr-bit_or, bit_or-mod, bit_and-pow}

abbrev pub wifi_connected_bit : ℕ
wifi_connected_bit = 0x0001

abbrev pub mqtt_connected_bit : ℕ
mqtt_connected_bit = 0x0004

abbrev pub msg_wifi : ℕ
msg_wifi = 1

abbrev pub mqtt_proto : ℕ
mqtt_proto = 1

abbrev pub console_tcp : ℕ
console_tcp = 2

abbrev pub console_mqtt : ℕ
console_mqtt = 3

-- The first two words of a message, `message` and `val.ival[0]`.
pub record StateMessage : Type 0 where
  pub message : ℕ
  pub ival : ℕ

-- The calls that the task makes.
pub data Act : Type 0 where
  mqtt_start : Act
  tcp_log_init : ℕ → Act

-- `wifi_connected` and `device_state`.
pub record Mon : Type 0 where
  pub wifi_connected : ℕ
  pub device_state : ℕ

-- `comm_proto` is COMM_PROTO of the build, and `cs` is `dev_conf.cs`.
module _ (comm_proto cs : ℕ) where
  -- The calls for a connection, with `device_state` as it is then.
  unfoldable pub on_wifi : ℕ → List Act
  on_wifi device_state =
      let mqtt = comm_proto == mqtt_proto in
      let start : List Act = if mqtt then mqtt_start ∷ [] else [] in
      let log : List Act =
        if cs == console_tcp
        then if mqtt
          then if not (bit_and device_state mqtt_connected_bit == 0)
            then tcp_log_init console_mqtt ∷ []
            else []
          else tcp_log_init console_tcp ∷ []
        else [] in
      start ++ log

  unfoldable pub on_message : StateMessage → Mon → Mon × List Act
  on_message msg s =
      let noted : Mon = record s { wifi_connected = msg.ival } in
      let state = bit_or s.device_state wifi_connected_bit in
      if msg.message == msg_wifi
      then if not (msg.ival == 0)
        then (record noted { device_state = state }, on_wifi state)
        else (noted, [])
      else (s, [])

  unfoldable pub dev_mon_task : List StateMessage → Mon → Mon × List Act
  dev_mon_task [] s = (s, [])
  dev_mon_task (msg ∷ msgs) s =
      let first = on_message msg s in
      let rest = dev_mon_task msgs first.0 in (rest.0, first.1 ++ rest.1)

-- The connections among the messages.
abbrev pub is_connection : StateMessage → Bool
is_connection msg = (msg.message == msg_wifi) && not (msg.ival == 0)

abbrev pub connections : List StateMessage → ℕ
connections [] = 0
connections (msg ∷ msgs) = if is_connection msg then suc (connections msgs) else connections msgs

other_bit :
    (x : ℕ)
    → bit_and (bit_or x wifi_connected_bit) mqtt_connected_bit ≡ bit_and x mqtt_connected_bit
other_bit x = omega (
  arith,
  bit_and-pow 2 x,
  bit_and-pow 2 (bit_or x 1),
  shr-div 2 (bit_or x 1),
  shr-bit_or 2 x 1,
  bit_or-mod (x / 2 / 2) 0,
)

own_bit : (x : ℕ) → bit_and (bit_or x wifi_connected_bit) wifi_connected_bit ≡ wifi_connected_bit
own_bit x = omega (arith, bit_and-pow 0 (bit_or x 1), bit_or-mod x 1)

on_wifi-mqtt :
    (cs x : ℕ) → bit_and x mqtt_connected_bit ≡ 0 → on_wifi mqtt_proto cs x ≡ mqtt_start ∷ []
unfolding on_wifi
on_wifi-mqtt cs x h = elim (Bool-cases (cs == console_tcp)) [
  | inl tcp ↦ rw tcp (rw h refl)
  | inr other ↦ rw other refl
]

on_message-connects :
    (cs : ℕ) (msg : StateMessage) (s : Mon)
    → bit_and s.device_state mqtt_connected_bit ≡ 0
    → is_connection msg ≡ true
    → on_message mqtt_proto cs msg s ≡ (
      record { wifi_connected = msg.ival; device_state = bit_or s.device_state wifi_connected_bit },
      mqtt_start ∷ [],
    )
unfolding on_message
on_message-connects cs msg s h e =
    let w : (msg.message == msg_wifi) ≡ true = ground arith in
    let v : (msg.ival == 0) ≡ false = ground arith in
    rw w (
      rw v (
        rw
          (on_wifi-mqtt cs (bit_or s.device_state wifi_connected_bit)
            (other_bit s.device_state ∙ h))
          refl))

on_message-quiet :
    (cs : ℕ) (msg : StateMessage) (s : Mon)
    → is_connection msg ≡ false
    → ((on_message mqtt_proto cs msg s).1 ≡ [])
      × ((on_message mqtt_proto cs msg s).0.device_state ≡ s.device_state)
unfolding on_message
on_message-quiet cs msg s e = elim (Bool-cases (msg.message == msg_wifi)) [
  | inl w ↦ let v : (msg.ival == 0) ≡ true = ground arith in (rw w (rw v refl), rw w (rw v refl))
  | inr w ↦ (rw w refl, rw w refl)
]

connected_bit :
    (n x : ℕ)
    → (if n == 0
        then bit_and (bit_or x wifi_connected_bit) wifi_connected_bit
        else wifi_connected_bit)
      ≡ (if suc n == 0 then bit_and x wifi_connected_bit else wifi_connected_bit)
connected_bit n x = ground (arith, own_bit x)

-- In a build for MQTT, while the MQTT bit of `device_state` is clear, as it is at reset: the task
-- starts the MQTT client once for every message of a connection and makes no other call, so it never
-- opens the network log, whatever the console is set to; the MQTT bit stays clear; and the Wi-Fi bit
-- is set as soon as there was a connection, and stays so, whatever messages follow.
pub dev_mon_task_mqtt :
    (cs : ℕ) (msgs : List StateMessage) (s : Mon)
    → bit_and s.device_state mqtt_connected_bit ≡ 0
    → ((dev_mon_task mqtt_proto cs msgs s).1 ≡ replicate (connections msgs) mqtt_start)
      × (bit_and (dev_mon_task mqtt_proto cs msgs s).0.device_state mqtt_connected_bit ≡ 0)
      × (bit_and (dev_mon_task mqtt_proto cs msgs s).0.device_state wifi_connected_bit ≡ (
          if connections msgs == 0
          then bit_and s.device_state wifi_connected_bit
          else wifi_connected_bit))
unfolding dev_mon_task
dev_mon_task_mqtt cs [] s h = (refl, h, refl)
dev_mon_task_mqtt cs (msg ∷ msgs) s h = elim (Bool-cases (is_connection msg)) [
  | inl up ↦
      let first = on_message-connects cs msg s h up in
      let (acts, clear, wifi) =
        dev_mon_task_mqtt cs msgs
          (record {
            wifi_connected = msg.ival;
            device_state = bit_or s.device_state wifi_connected_bit;
          })
          (other_bit s.device_state ∙ h) in
      rw up (
        rw first (
          ap (λ (calls : List Act). mqtt_start ∷ calls) acts,
          clear,
          wifi ∙ connected_bit (connections msgs) s.device_state,
        ))
  | inr down ↦
      let (none, same) = on_message-quiet cs msg s down in
      let (acts, clear, wifi) =
        dev_mon_task_mqtt cs msgs (on_message mqtt_proto cs msg s).0
          (ap (λ (x : ℕ). bit_and x mqtt_connected_bit) same ∙ h) in
      rw down (
        rw none (
          acts,
          clear,
          wifi
              ∙ ap
                  (λ (x : ℕ).
                    if connections msgs == 0
                    then bit_and x wifi_connected_bit
                    else wifi_connected_bit)
                  same,
        ))
]
