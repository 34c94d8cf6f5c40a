-- ===== src/Wifi/Joining.antt =====
-- What `wifi_join` answers, and that it can be tried again.
use esp32_common.Common.{
  suc, ◌≡◌, refl, ap, sym, ◌∙◌, Bool, true, false, ◌&&◌, none, List, [], ◌∷◌, ◌==◌, if◌then◌else◌,
  arith, inl, inr, Bool-cases,
}
use mathlib.Core.Path.{subst}
use esp32_common.Common.Memory.{Bytes}
use esp32_common.Wifi.Events.{
  Wifi, Event, sta_start, sta_connected, sta_disconnected, sta_got_ip, sta_lost_ip, other,
  retry_expires, on_disconnected, event_handler, wait_bits, wifi_disconnect,
}
use esp32_common.Wifi.Join.{
  Stored, Call, Radio, wifi_init_sta, initialise_wifi, choose, configure, join_ready, end_link,
  wifi_join,
}

-- Whether an address comes.
abbrev pub has_ip : List Event → Bool
has_ip [] = false
has_ip (sta_got_ip ∷ es) = true
has_ip (e ∷ es) = has_ip es

wait_bits-set :
    (bit : Wifi → Bool) (es : List Event) (s : Wifi) → bit s ≡ true → wait_bits bit es s ≡ s
unfolding wait_bits
wait_bits-set bit [] s h = refl
wait_bits-set bit (e ∷ es) s h =
    ap (λ (b : Bool). if b then s else wait_bits bit es (event_handler e s)) h

abbrev ip : Wifi → Bool
ip w = w.ip_connected

-- A wait for an address that is not there.
wait_bits-ip :
    (es : List Event) (s : Wifi)
    → s.ip_connected ≡ false
    → (wait_bits ip es s).ip_connected ≡ has_ip es
unfolding wait_bits event_handler on_disconnected
wait_bits-ip [] s h = h
wait_bits-ip (e ∷ es) s h =
    ap (λ (b : Bool). (if b then s else wait_bits ip es (event_handler e s)).ip_connected) h
    ∙ go e (wait_bits-ip es)
  where
    go :
        (e : Event)
        → ((t : Wifi) → t.ip_connected ≡ false → (wait_bits ip es t).ip_connected ≡ has_ip es)
        → (wait_bits ip es (event_handler e s)).ip_connected ≡ has_ip (e ∷ es)
    go sta_start later = later (event_handler sta_start s) h
    go sta_connected later = later (event_handler sta_connected s) h
    go sta_disconnected later = later (event_handler sta_disconnected s) refl
    go sta_got_ip later =
        ap (λ (w : Wifi). w.ip_connected) (wait_bits-set ip es (event_handler sta_got_ip s) refl)
    go sta_lost_ip later = later (event_handler sta_lost_ip s) refl
    go other later = later (event_handler other s) h
    go retry_expires later = later (event_handler retry_expires s) h

-- A device that can be told to join: initialised, not connected, and with nothing under way.
pub record IsReady (s : Wifi) : Type 0 where
  pub is_made : s.is_initialized ≡ true
  pub is_down : s.is_connected ≡ false
  pub no_address : s.ip_connected ≡ false
  pub is_completed : s.state_completed ≡ true

join-ready :
    (call : Call) (d : Stored) (radio : Radio) (s : Wifi)
    → IsReady (initialise_wifi s)
    → wifi_join call d radio s
      ≡ join_ready radio
          (configure (radio.ssid, radio.password) (choose call d))
          (record (initialise_wifi s) { retry_timer = none })
unfolding wifi_join end_link
join-ready call d radio s r =
    let t : Wifi = record (initialise_wifi s) { retry_timer = none } in
    let config = configure (radio.ssid, radio.password) (choose call d) in
    let completed : Wifi → Bool = λ w. w.state_completed in
    let attempt : Wifi → Bool × Wifi =
      λ u. if u.state_completed then join_ready radio config u else (false, u) in
    let no_link : end_link radio t ≡ t =
      ap (λ (b : Bool). if b then (wifi_disconnect radio.mode radio.on_disconnect t).1 else t)
        r.is_down in
    ap (λ (w : Wifi). attempt (wait_bits completed radio.on_ready w)) no_link
    ∙ (ap attempt (wait_bits-set completed radio.on_ready t r.is_completed)
        ∙ ap (λ (b : Bool). if b then join_ready radio config t else (false, t)) r.is_completed)

joined :
    (radio : Radio) (config : Bytes × Bytes) (s : Wifi)
    → radio.set_config ≡ 0
    → radio.connect ≡ 0
    → s.ip_connected ≡ false
    → (join_ready radio config s).0 ≡ has_ip radio.on_connect
unfolding join_ready
joined radio config s set_ok connect_ok no_address =
    let t : Wifi = record s {
      state_completed = false;
      disconnect_request = false;
      connects = suc s.connects;
      sta_ssid = config.0;
      sta_password = config.1;
    } in
    let set_works : (radio.set_config == 0) ≡ true = ground arith in
    let connect_works : (radio.connect == 0) ≡ true = ground arith in
    rw set_works (rw connect_works (wait_bits-ip radio.on_connect t no_address))

-- A failed attempt leaves the device as it was, but for the configuration, and completed.
join-fails :
    (radio : Radio) (config : Bytes × Bytes) (s : Wifi)
    → (radio.set_config == 0) && (radio.connect == 0) ≡ false
    → IsReady s
    → ((join_ready radio config s).0 ≡ false) × IsReady (join_ready radio config s).1
unfolding join_ready
join-fails radio config s fails r = elim (Bool-cases (radio.set_config == 0)) [
  | inr set_fails ↦ rw set_fails (
    refl,
    record {
      is_made = r.is_made;
      is_down = r.is_down;
      no_address = r.no_address;
      is_completed = refl;
    },
  )
  | inl set_works ↦ elim (Bool-cases (radio.connect == 0)) [
    | inl connects ↦ absurd (ground arith)
    | inr connect_fails ↦ rw set_works (
        rw connect_fails (
          refl,
          record {
            is_made = r.is_made;
            is_down = r.is_down;
            no_address = r.no_address;
            is_completed = refl;
          },
        ))
  ]
]

initialised : (s : Wifi) → s.is_initialized ≡ true → initialise_wifi s ≡ s
unfolding initialise_wifi
initialised s h =
    ap (λ (b : Bool). if b then s else record (wifi_init_sta s) { is_initialized = true }) h

-- A device that is not connected and has nothing under way is told to join, and the driver takes the
-- configuration and the call: `wifi_join` returns true exactly if an address comes within the time.
pub wifi_join-joins :
    (call : Call) (d : Stored) (radio : Radio) (s : Wifi)
    → IsReady (initialise_wifi s)
    → radio.set_config ≡ 0
    → radio.connect ≡ 0
    → (wifi_join call d radio s).0 ≡ has_ip radio.on_connect
wifi_join-joins call d radio s r set_ok connect_ok =
    ap (λ (u : Bool × Wifi). u.0) (join-ready call d radio s r)
    ∙ joined radio (configure (radio.ssid, radio.password) (choose call d))
        (record (initialise_wifi s) { retry_timer = none }) set_ok connect_ok r.no_address

-- The same device, and a driver that refuses the configuration or the call: `wifi_join` returns false,
-- and with a driver that works the next `wifi_join` returns true exactly if an address comes.
pub wifi_join-again :
    (call call' : Call) (d : Stored) (radio radio' : Radio) (s : Wifi)
    → IsReady (initialise_wifi s)
    → (radio.set_config == 0) && (radio.connect == 0) ≡ false
    → radio'.set_config ≡ 0
    → radio'.connect ≡ 0
    → ((wifi_join call d radio s).0 ≡ false)
      × ((wifi_join call' d radio' (wifi_join call d radio s).1).0 ≡ has_ip radio'.on_connect)
wifi_join-again call call' d radio radio' s r fails set_ok connect_ok =
    let config = configure (radio.ssid, radio.password) (choose call d) in
    let t : Wifi = record (initialise_wifi s) { retry_timer = none } in
    let ready : IsReady t = record {
      is_made = r.is_made;
      is_down = r.is_down;
      no_address = r.no_address;
      is_completed = r.is_completed;
    } in
    let first = join-ready call d radio s r in
    let failed = join-fails radio config t fails ready in
    let u = (join_ready radio config t).1 in
    let again : IsReady (initialise_wifi u) =
      subst IsReady (sym (initialised u failed.1.is_made)) failed.1 in
    (
      ap (λ (v : Bool × Wifi). v.0) first ∙ failed.0,
      ap (λ (v : Bool × Wifi). (wifi_join call' d radio' v.1).0) first
          ∙ wifi_join-joins call' d radio' u again set_ok connect_ok,
    )
