-- ===== src/AppProto/Encoding.antt =====
-- The frame that a message stands for, and what the writer reads of it.
use esp32_common.Common.{ℕ, ◌≤◌, Option, none, some, List, [], ◌∷◌, ◌++◌, length, take}
use esp32_common.Common.Memory.{Bytes}
use esp32_common.Common.Decimal.{print_dec, print_int}
use esp32_common.AppProto.Frame.{AppProto, sep}

-- Each text with a separator behind it.
abbrev pub joined : List Bytes → Bytes
joined [] = []
joined (t ∷ ts) = t ++ (sep ∷ joined ts)

-- The parameters that the message counts.
abbrev pub param_texts : AppProto → List Bytes
param_texts m = take m.nparams m.params

abbrev pub field_texts : AppProto → List Bytes
field_texts m =
    print_int m.version
    ∷ print_dec m.hdr_fields
    ∷ print_dec m.payload_len
    ∷ print_dec m.timestamp
    ∷ m.command
    ∷ param_texts m

abbrev pub payload_bytes : ℕ → Option Bytes → Bytes
payload_bytes n none = []
payload_bytes n (some p) = take n p

abbrev pub encode : AppProto → Bytes
encode m = joined (field_texts m) ++ payload_bytes m.payload_len m.payload

-- What the writer reads of the message is there: as many parameters and payload bytes as counted.
abbrev pub IsReadable : ℕ → Option Bytes → Type 0
IsReadable n none = Unit {0}
IsReadable n (some p) = n ≤ length p

pub record IsWritable (m : AppProto) : Type 0 where
  pub params_there : m.nparams ≤ length m.params
  pub payload_there : IsReadable m.payload_len m.payload
