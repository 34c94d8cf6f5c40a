-- ===== src/NvsCerts/Tests.antt =====
-- A namespace with all entries, and too little memory for one of them.
use esp32_common.Common.{◌+◌, ◌≡◌, refl, Bool, true, false, ◌&&◌, none, some, length}
use esp32_common.Common.Memory.{Bytes, codes}
use esp32_common.NvsCerts.Load.{
  Entry, ca_crt, client_crt, client_key, Source, Certs, get_all_nvscerts,
}
use esp32_common.NvsCerts.Loaded.{IsSource, is_stored, is_ok, get_all-stored}

abbrev text : Entry → Bytes
text ca_crt = codes "CA"
text client_crt = codes "CERT"
text client_key = codes "KEY"

abbrev room : Entry → Bool
room ca_crt = true
room client_crt = true
room client_key = false

abbrev stored : Source
stored = record {
  opened = true;
  get_len = λ e. some (length (text e) + 1);
  get_str = λ e. some (text e);
  calloc_ok = room;
}

stored-IsSource : IsSource stored
stored-IsSource = record { is_open = refl; len_lem = λ e. refl }

abbrev no_certs : Certs
no_certs = record {
  nvs_ca_crt = none;
  nvs_ca_crt_sz = 0;
  nvs_cl_crt = none;
  nvs_cl_crt_sz = 0;
  nvs_cl_key = none;
  nvs_cl_key_sz = 0;
}

get_all-stored_example :
    is_ok (get_all_nvscerts stored no_certs).0
    ≡ is_stored stored ca_crt && (is_stored stored client_crt && is_stored stored client_key)
get_all-stored_example = get_all-stored stored no_certs stored-IsSource
