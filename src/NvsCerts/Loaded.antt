-- ===== src/NvsCerts/Loaded.antt =====
-- When the certificates are loaded.
use esp32_common.Common.{
  ◌+◌, ◌≡◌, refl, ◌∙◌, Bool, true, false, not, ◌&&◌, none, some, ◌==◌, if◌then◌else◌, length, arith,
  inl, inr, Bool-cases, Option-cases,
}
use esp32_common.Common.Memory.{Bytes}
use esp32_common.NvsCerts.Load.{
  Entry, ca_crt, client_crt, client_key, Source, Cert, filled, get_nvs_cert, Ret, esp_ok, esp_fail,
  Certs, get_all_nvscerts,
}

-- What ESP-IDF documents of a namespace that is open: the length of an entry counts the NUL.
pub record IsSource (src : Source) : Type 0 where
  pub is_open : src.opened ≡ true
  pub len_lem :
      (e : Entry)
      → src.get_len e ≡ (elim (src.get_str e) [ none ↦ none | some v ↦ some (length v + 1) ])

abbrev pub is_stored : Source → Entry → Bool
is_stored src e = elim (src.get_str e) [ none ↦ false | some v ↦ true ]

abbrev pub is_ok : Ret → Bool
is_ok esp_ok = true
is_ok esp_fail = false

cert-stored :
    (src : Source) (e : Entry) (cert : Cert) (v : Bytes)
    → IsSource src
    → src.get_str e ≡ some v
    → get_nvs_cert src e cert ≡ (length v + 1, filled src e)
unfolding get_nvs_cert
cert-stored src e cert v s h =
    let len : src.get_len e ≡ some (length v + 1) = s.len_lem e ∙ rw h refl in
    rw s.is_open (rw len refl)

cert-missing :
    (src : Source) (e : Entry) (cert : Cert)
    → IsSource src
    → src.get_str e ≡ none
    → get_nvs_cert src e cert ≡ (0, cert)
unfolding get_nvs_cert
cert-missing src e cert s h =
    let len : src.get_len e ≡ none = s.len_lem e ∙ rw h refl in rw s.is_open (rw len refl)

size-stored :
    (src : Source) (e : Entry) (cert : Cert)
    → IsSource src
    → ((get_nvs_cert src e cert).0 == 0) ≡ not (is_stored src e)
size-stored src e cert s = elim (Option-cases (src.get_str e)) [
  | inl missing ↦ rw (cert-missing src e cert s missing) (rw (missing, is_stored) refl)
  | inr (v, found) ↦ rw (cert-stored src e cert v s found) (rw (found, is_stored) (ground arith))
]

-- Where the namespace is open, ESP_OK is returned exactly if all three entries are stored, whether
-- or not memory for them was allocated.
pub get_all-stored :
    (src : Source) (c : Certs)
    → IsSource src
    → is_ok (get_all_nvscerts src c).0
      ≡ is_stored src ca_crt && (is_stored src client_crt && is_stored src client_key)
unfolding get_all_nvscerts
get_all-stored src c s =
    let a = size-stored src ca_crt c.nvs_ca_crt s in
    let b = size-stored src client_crt c.nvs_cl_crt s in
    let k = size-stored src client_key c.nvs_cl_key s in
    elim (Bool-cases (is_stored src ca_crt)) [
      | inr no_ca ↦ rw a (rw no_ca refl)
      | inl ca ↦ elim (Bool-cases (is_stored src client_crt)) [
        | inr no_crt ↦ rw a (rw b (rw ca (rw no_crt refl)))
        | inl crt ↦ elim (Bool-cases (is_stored src client_key)) [
          | inr no_key ↦ rw a (rw b (rw k (rw ca (rw crt (rw no_key refl)))))
          | inl key ↦ rw a (rw b (rw k (rw ca (rw crt (rw key refl)))))
        ]
      ]
    ]

-- Where the namespace is open and all three entries are stored: ESP_OK is returned with the three
-- sizes, and each pointer is the stored text if memory for it was allocated, and NULL if not.
pub get_all-filled :
    (src : Source) (c : Certs) (ca crt key : Bytes)
    → IsSource src
    → src.get_str ca_crt ≡ some ca
    → src.get_str client_crt ≡ some crt
    → src.get_str client_key ≡ some key
    → get_all_nvscerts src c ≡ (
      esp_ok,
      record {
        nvs_ca_crt = if src.calloc_ok ca_crt then some ca else none;
        nvs_ca_crt_sz = length ca + 1;
        nvs_cl_crt = if src.calloc_ok client_crt then some crt else none;
        nvs_cl_crt_sz = length crt + 1;
        nvs_cl_key = if src.calloc_ok client_key then some key else none;
        nvs_cl_key_sz = length key + 1;
      },
    )
unfolding get_all_nvscerts
get_all-filled src c ca crt key s p q r =
    let na : (length ca + 1 == 0) ≡ false = ground arith in
    let nb : (length crt + 1 == 0) ≡ false = ground arith in
    let nk : (length key + 1 == 0) ≡ false = ground arith in
    rw (cert-stored src ca_crt c.nvs_ca_crt ca s p) (
      rw (cert-stored src client_crt c.nvs_cl_crt crt s q) (
        rw (cert-stored src client_key c.nvs_cl_key key s r)
          (rw na (rw nb (rw nk (rw p (rw q (rw r refl))))))))
