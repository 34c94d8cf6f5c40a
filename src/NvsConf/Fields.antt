-- ===== src/NvsConf/Fields.antt =====
-- The fields of the configuration by their entries.
use esp32_common.Common.{
  ℕ, ◌+◌, ◌^◌, ◌≤◌, ◌<◌, ◌≡◌, refl, ap, true, ◌==◌, if◌then◌else◌, length, arith,
}
use esp32_common.Common.Int.{ℤ, pos}
use esp32_common.Common.Memory.{Bytes}
use esp32_common.Common.Decimal.{print_int, print_dec, atoi}
use esp32_common.Common.Decimal.RoundTrip.{atoi-print_int}
use esp32_common.NvsConf.Conf.{
  Key, sta_ssid, sta_pass, ap_ssid, ap_pass, ap_hostname, ap_ip, dev_name, dev_id, console,
  broker_url, log_server, log_port, friendly_name, index, DevConf, defaults, capacity, size_limit,
  Net, to_u32, to_i32, assign, fallback,
}

pub data Val : Type 0 where
  text : Bytes → Val
  int : ℤ → Val
  word : ℕ → Val

-- The field that an entry is loaded into.
abbrev pub value : Key → DevConf → Val
value sta_ssid c = text c.ssid
value sta_pass c = text c.pass
value ap_ssid c = text c.apssid
value ap_pass c = text c.appass
value ap_hostname c = text c.hostname
value ap_ip c = word c.ip
value dev_name c = text c.name
value dev_id c = int c.id
value console c = int c.cs
value broker_url c = text c.broker
value log_server c = text c.server
value log_port c = word c.port
value friendly_name c = text c.friendly

-- What the code relies on of lwip: an address is printed in at most 15 characters and read back.
pub record IsNet (net : Net) : Type 0 where
  pub addr_lem : (a : ℕ) → a < 2 ^ 32 → net.inet_addr (net.ip_text a) ≡ a
  pub length_lem : (a : ℕ) → length (net.ip_text a) ≤ 15

pub index-injective : (k j : Key) → (index k == index j) ≡ true → k ≡ j
index-injective sta_ssid sta_ssid h = refl
index-injective sta_pass sta_pass h = refl
index-injective ap_ssid ap_ssid h = refl
index-injective ap_pass ap_pass h = refl
index-injective ap_hostname ap_hostname h = refl
index-injective ap_ip ap_ip h = refl
index-injective dev_name dev_name h = refl
index-injective dev_id dev_id h = refl
index-injective console console h = refl
index-injective broker_url broker_url h = refl
index-injective log_server log_server h = refl
index-injective log_port log_port h = refl
index-injective friendly_name friendly_name h = refl
index-injective _ _ h = cc

module _ (net : Net) where
  open net use {inet_addr, ip_text}

  -- What an entry's text means for its field.
  abbrev pub parsed : Key → Bytes → Val
  parsed ap_ip v = word (inet_addr v)
  parsed dev_id v = int (atoi v)
  parsed console v = int (atoi v)
  parsed log_port v = word (to_u32 (atoi v))
  parsed _ v = text v

  pub value-assign :
      (k j : Key) (v : Bytes) (c : DevConf)
      → value j (assign net k v c) ≡ (if index k == index j then parsed k v else value j c)
  unfolding assign
  value-assign sta_ssid sta_ssid v c = refl
  value-assign _ sta_pass v c = refl
  value-assign _ _ v c = refl

  -- A fallback depends on the field of its own entry only.
  pub fallback-value :
      (k : Key) (c d : DevConf) → value k c ≡ value k d → fallback net k c ≡ fallback net k d
  unfolding fallback
  fallback-value ap_ip c d h = let e : c.ip ≡ d.ip = cc in ap ip_text e
  fallback-value dev_id c d h = let e : c.id ≡ d.id = cc in ap print_int e
  fallback-value console c d h = let e : c.cs ≡ d.cs = cc in ap print_int e
  fallback-value log_port c d h =
      let e : c.port ≡ d.port = cc in ap (λ (t : ℕ). print_int (to_i32 t)) e
  fallback-value _ c d h = refl

  -- The defaults are stored as texts that are loaded again, and mean the defaults.
  pub parsed-fallback :
      (k : Key) → IsNet net → parsed k (fallback net k defaults) ≡ value k defaults
  unfolding fallback
  parsed-fallback ap_ip n = ap word (n.addr_lem defaults.ip (omega arith))
  parsed-fallback dev_id n = ap int (atoi-print_int (pos 81) (omega arith))
  parsed-fallback console n = ap int (atoi-print_int (pos 1) (omega arith))
  parsed-fallback log_port n =
      ap (λ (t : ℤ). word (to_u32 t)) (atoi-print_int (pos 8081) (omega arith))
  parsed-fallback _ n = refl

  pub length-fallback :
      (k : Key)
      → IsNet net
      → (length (fallback net k defaults) + 1 < size_limit k)
        × (length (fallback net k defaults) + 1 ≤ capacity k)
  unfolding fallback print_int print_dec
  length-fallback ap_ip n = let l = n.length_lem defaults.ip in (omega (arith, l), omega (arith, l))
  length-fallback _ n = omega arith
