-- ===== src/AppProto/Build.antt =====
-- `append`, `build_app_proto_msg` and `build_app_proto` of ws_mqtt_proto/app_proto.c.
use esp32_common.Common.{
  ℕ, zero, suc, ◌+◌, ◌%◌, ◌^◌, Bool, true, not, Option, none, some, List, [], ◌∷◌, leb, ltb,
  if◌then◌else◌, length, take, get_elem?,
}
use esp32_common.Common.Int.{ℤ, negsuc}
use esp32_common.Common.Memory.{Bytes, write_at}
use esp32_common.Common.Decimal.{print_dec, print_int}
use esp32_common.AppProto.Frame.{AppProto, sep, proto_version}

-- The output array and the position of the next byte.
pub record Out : Type 0 where
  pub buf : Bytes
  pub at : ℕ

-- `error` is a negative return value; `fault` is an access outside an array.
pub data Outcome {ℓ} (A : Type ℓ) : Type ℓ where
  ok : A → Outcome A
  error : ℤ → Outcome A
  fault : Outcome A

infixl 5 ◌>>=◌
abbrev pub ◌>>=◌ {ℓ κ} : {A : Type ℓ} {B : Type κ} → Outcome A → (A → Outcome B) → Outcome B
ok a >>= f = f a
error e >>= f = error e
fault >>= f = fault

-- `memcpy` to the position, which moves past it.
unfoldable pub put : Out → Bytes → Outcome Out
put o s = elim (write_at o.buf o.at s) [
  | none ↦ fault
  | some b ↦ ok (record { buf = b; at = o.at + length s })
]

-- `append`: `none` is the return value -1, with nothing written.
unfoldable pub append : Out → ℕ → Bytes → Outcome (Option Out)
append o max s = if leb max (o.at + length s) then ok none else do o' ← put o s; ok (some o')

abbrev or_return : ℤ → Option Out → Outcome Out
or_return code none = error code
or_return code (some o) = ok o

-- A field and its separator; `code` is what the function returns where the field does not fit.
unfoldable pub put_field : ℤ → ℕ → Out → Bytes → Outcome Out
put_field code max o s = do r ← append o max s; o' ← or_return code r; put o' (sep ∷ [])

-- The loop over `msg->params`, from parameter `i` with `n` to go.
unfoldable pub put_params : ℕ → ℕ → ℕ → List Bytes → Out → Outcome Out
put_params zero i max params o = ok o
put_params (suc n) i max params o = elim (get_elem? params i) [
  | none ↦ fault
  | some s ↦ put_field (negsuc 2) max o s >>= put_params n (i + 1) max params
]

-- `memcpy` of the payload reads `payload_len` bytes through the pointer.
unfoldable pub put_payload : ℕ → Out → ℕ → Option Bytes → Outcome Out
put_payload max o n none = ok o
put_payload max o n (some p) =
    if not (ltb 0 n)
    then ok o
    else if ltb max ((o.at + n) % 2 ^ 32)
    then error (negsuc 3)
    else if ltb (length p) n
    then fault
    else put o (take n p)

-- The closing `out_buf[pos] = 0`: `*out_len` is the position before it.
unfoldable pub put_end : Out → Outcome Out
put_end o = elim (write_at o.buf o.at (0 ∷ [])) [
  | none ↦ fault
  | some b ↦ ok (record { buf = b; at = o.at })
]

-- The fields and the payload, up to the closing NUL.
unfoldable pub put_message : ℕ → AppProto → Out → Outcome Out
put_message max_len msg o = do
  o₁ ← put_field (negsuc 1) max_len o (print_int msg.version)
  o₂ ← put_field (negsuc 1) max_len o₁ (print_dec msg.hdr_fields)
  o₃ ← put_field (negsuc 1) max_len o₂ (print_dec msg.payload_len)
  o₄ ← put_field (negsuc 1) max_len o₃ (print_dec msg.timestamp)
  o₅ ← put_field (negsuc 1) max_len o₄ msg.command
  o₆ ← put_params msg.nparams 0 max_len msg.params o₅
  put_payload max_len o₆ msg.payload_len msg.payload

unfoldable pub build_app_proto : Option Bytes → ℕ → Option AppProto → Bool → Outcome Out
build_app_proto (some out_buf) max_len (some msg) true = do
  o ← put_message max_len msg (record { buf = out_buf; at = 0 })
  put_end o
build_app_proto out_buf max_len msg out_len = error (negsuc 0)

-- The function sets the version only: its other arguments are not used.
unfoldable pub build_app_proto_msg : AppProto → Bytes → ℕ → List Bytes → ℕ → Option Bytes → AppProto
build_app_proto_msg msg command nparams params payload_len payload = record msg {
  version = proto_version;
}
