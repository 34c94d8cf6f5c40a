-- ===== src/AppProto/Frame.antt =====
-- `app_proto_t` and the constants of ws_mqtt_proto/protocoldef.h.
use esp32_common.Common.{ℕ, ◌%◌, ◌-◌, List, [], Option, none}
use esp32_common.Common.Int.{ℤ, pos, negsuc}
use esp32_common.Common.Memory.{Bytes}

-- `char *` fields are the strings that they show. `payload` is a pointer: the bytes from it to the
-- end of its array.
pub record AppProto : Type 0 where
  pub version : ℤ  -- int
  pub hdr_fields : ℕ  -- uint8_t
  pub payload_len : ℕ  -- uint32_t
  pub timestamp : ℕ  -- uint64_t
  pub command : Bytes
  pub nparams : ℕ  -- uint8_t
  pub params : List Bytes
  pub payload : Option Bytes

abbrev pub sep : ℕ
sep = 1

abbrev pub max_params : ℕ
max_params = 10

abbrev pub max_tokens : ℕ
max_tokens = 32

abbrev pub proto_version : ℤ
proto_version = pos 1

-- `memset(out, 0, sizeof(*out))`.
abbrev pub cleared : AppProto
cleared = record {
  version = pos 0;
  hdr_fields = 0;
  payload_len = 0;
  timestamp = 0;
  command = [];
  nparams = 0;
  params = [];
  payload = none;
}

-- An `int` stored in a `uint8_t`.
abbrev pub to_u8 : ℤ → ℕ
to_u8 (pos n) = n % 256
to_u8 (negsuc n) = 255 - n % 256
