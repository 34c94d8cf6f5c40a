-- ===== src/NvsCerts/Load.antt =====
-- `get_nvs_cert` and `get_all_nvscerts` of utils/utils.c.
use esp32_common.Common.{ℕ, Bool, Option, none, some, ◌==◌, if◌then◌else◌}
use esp32_common.Common.Memory.{Bytes}

-- The entries `ca-crt`, `client-crt` and `client-key`.
pub data Entry : Type 0 where
  ca_crt client_crt client_key : Entry

-- What the calls return: whether the namespace opens, the length of an entry and its text with a
-- buffer (`none` is a value other than ESP_OK), and whether memory for it can be allocated.
pub record Source : Type 0 where
  pub opened : Bool
  pub get_len : Entry → Option ℕ
  pub get_str : Entry → Option Bytes
  pub calloc_ok : Entry → Bool

-- A pointer to a text is NULL or the text.
abbrev pub Cert : Type 0
Cert = Option Bytes

-- With a NULL buffer, which a failed `calloc` leaves, the second `nvs_get_str` only asks for the
-- length again.
abbrev pub filled : Source → Entry → Cert
filled src e = if src.calloc_ok e then src.get_str e else none

-- The returned size, and the pointer.
unfoldable pub get_nvs_cert : Source → Entry → Cert → ℕ × Cert
get_nvs_cert src e cert =
    if src.opened
    then elim (src.get_len e) [ none ↦ (0, cert) | some sz ↦ (sz, filled src e) ]
    else (0, cert)

pub data Ret : Type 0 where
  esp_ok esp_fail : Ret

-- The three pointers with their sizes.
pub record Certs : Type 0 where
  pub nvs_ca_crt : Cert
  pub nvs_ca_crt_sz : ℕ
  pub nvs_cl_crt : Cert
  pub nvs_cl_crt_sz : ℕ
  pub nvs_cl_key : Cert
  pub nvs_cl_key_sz : ℕ

unfoldable pub get_all_nvscerts : Source → Certs → Ret × Certs
get_all_nvscerts src c =
    let a = get_nvs_cert src ca_crt c.nvs_ca_crt in
    let b = get_nvs_cert src client_crt c.nvs_cl_crt in
    let k = get_nvs_cert src client_key c.nvs_cl_key in
    let c₁ : Certs = record c { nvs_ca_crt = a.1; nvs_ca_crt_sz = a.0 } in
    let c₂ : Certs = record c₁ { nvs_cl_crt = b.1; nvs_cl_crt_sz = b.0 } in
    let c₃ : Certs = record c₂ { nvs_cl_key = k.1; nvs_cl_key_sz = k.0 } in
    if a.0 == 0
    then (esp_fail, c₁)
    else if b.0 == 0
    then (esp_fail, c₂)
    else if k.0 == 0
    then (esp_fail, c₃)
    else (esp_ok, c₃)
