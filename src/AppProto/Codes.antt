-- ===== src/AppProto/Codes.antt =====
-- The return values of `parse_app_proto`, and a length that wraps.
use esp32_common.Common.{
  ℕ, ◌+◌, ◌-◌, ◌^◌, ◌≤◌, ◌<◌, ◌≡◌, ◌⊎◌, Option, none, some, [], ◌∷◌, length, arith,
}
use esp32_common.Common.Int.{ℤ, pos, negsuc}
use esp32_common.Common.Memory.{Bytes}
use esp32_common.AppProto.Frame.{AppProto, max_tokens}
use esp32_common.AppProto.Parse.{Scan, scan, attach_payload, finish, parse_app_proto}

abbrev pub IsParseCode : ℤ → Type 0
IsParseCode z = (z ≡ pos 0) ⊎ (z ≡ negsuc 0) ⊎ (z ≡ negsuc 2) ⊎ (z ≡ negsuc 3)

finish_codes : (stop : ℕ) (s : Scan) → IsParseCode (finish stop s).0
unfolding finish attach_payload
finish_codes stop s = ground arith

-- The result is 0, -1, -3 or -4: the code -2 that the loop stores for a bad count of fields never
-- comes out, since the test behind the loop stores -3 in its place.
pub parse_codes :
    (base : ℕ) (beyond : Bytes) (buf : Option Bytes) (out : Option AppProto)
    → IsParseCode (parse_app_proto base beyond buf out).0
unfolding parse_app_proto
parse_codes base beyond none out = ground arith
parse_codes base beyond (some []) out = ground arith
parse_codes base beyond (some (c ∷ cs)) none = ground arith
parse_codes base beyond (some (c ∷ cs)) (some out) =
    finish_codes (base + length (c ∷ cs)) (scan max_tokens beyond (c ∷ cs) [] (negsuc 0))

-- Where the address behind the claimed payload wraps past 2^32, the payload is accepted although
-- the buffer does not hold it.
pub attach-wrap :
    (stop : ℕ) (cur : Bytes) (read : AppProto)
    → length cur ≤ stop
    → stop < 2 ^ 32
    → read.payload_len < 2 ^ 32
    → 2 ^ 32 ≤ stop - length cur + read.payload_len
    → (attach_payload stop cur read ≡ (pos 0, record read { payload = some cur }))
      × (length cur < read.payload_len)
unfolding attach_payload
attach-wrap stop cur read w below len wraps = (ground arith, omega arith)
