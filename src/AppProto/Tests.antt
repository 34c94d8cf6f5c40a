-- ===== src/AppProto/Tests.antt =====
-- A frame with a parameter and a payload, written and read, and the places where the writer and the
-- reader stop.
use Prim.Native.Char.{code}
use Prim.Native.String.{String}
use esp32_common.Common.{
  ◌+◌, ◌≡◌, refl, true, none, some, [], ◌∷◌, ◌++◌, length, take, drop, replicate, arith,
}
use esp32_common.Common.Int.{ℤ, pos, negsuc}
use esp32_common.Common.Memory.{Bytes, write_at}
use esp32_common.Common.Decimal.{print_dec, print_int, atoi, strtoul, strtoull}
use esp32_common.AppProto.Frame.{AppProto, cleared}
use esp32_common.AppProto.Build.{
  Out, ok, error, fault, put, append, put_field, put_params, put_payload, put_message, put_end,
  build_app_proto,
}
use esp32_common.AppProto.Parse.{
  find_sep, count_fields, scan, attach_payload, finish, parse_app_proto,
}
use esp32_common.AppProto.Encoding.{encode, IsWritable}
use esp32_common.AppProto.Writes.{IsCode}
use esp32_common.AppProto.Written.{build-encode, build-exact_fault, build-too_long}
use esp32_common.AppProto.RoundTrip.{IsFrame, parse-build}
use esp32_common.AppProto.Sound.{Accepted, parse-Accepted}

abbrev codes : String → Bytes
codes String.[] = []
codes (String.◌∷◌ c s) = code c ∷ codes s

abbrev boot_msg : AppProto
boot_msg = record {
  version = pos 1;
  hdr_fields = 6;
  payload_len = 3;
  timestamp = 17470;
  command = codes "set boot";
  nparams = 1;
  params = codes "factory" ∷ [];
  payload = some (7 ∷ 0 ∷ 1 ∷ []);
}

abbrev room : Bytes
room = replicate 48 255

frame_bytes :
    encode boot_msg
    ≡ codes "1\u{1}6\u{1}3\u{1}17470\u{1}set boot\u{1}factory\u{1}" ++ (7 ∷ 0 ∷ 1 ∷ [])
unfolding print_dec print_int
frame_bytes = refl

frame_length : length (encode boot_msg) ≡ 32
unfolding print_dec print_int
frame_length = refl

boot-IsWritable : IsWritable boot_msg
boot-IsWritable = omega arith

boot-IsFrame : IsFrame boot_msg
boot-IsFrame = omega arith

abbrev written : Out
written = record {
  buf = encode boot_msg ++ (0 ∷ drop (length (encode boot_msg) + 1) room);
  at = length (encode boot_msg);
}

build-encode_example : build_app_proto (some room) (length room) (some boot_msg) true ≡ ok written
build-encode_example =
    build-encode boot_msg room (omega arith) boot-IsWritable (omega (arith, frame_length))

build-exact_fault_example : build_app_proto (some (replicate 32 0)) 32 (some boot_msg) true ≡ fault
build-exact_fault_example =
    build-exact_fault boot_msg (replicate 32 0) (omega arith) boot-IsWritable frame_length

build-too_long_example :
    (z : ℤ) × (build_app_proto (some (replicate 20 0)) 20 (some boot_msg) true ≡ error z) × IsCode z
build-too_long_example =
    build-too_long boot_msg (replicate 20 0) (omega arith) boot-IsWritable
      (omega (arith, frame_length))

-- With room for the frame and its NUL the writer runs to the end.
runs :
    build_app_proto (some (replicate 33 9)) 33 (some boot_msg) true
    ≡ ok (record { buf = encode boot_msg ++ (0 ∷ []); at = 32 })
unfolding build_app_proto put_message put_field put_params put_payload put_end append put write_at
    print_dec print_int
runs = refl

parse-build_example :
    (o : Out) × (build_app_proto (some room) (length room) (some boot_msg) true ≡ ok o)
    × (parse_app_proto 4096 [] (some (take o.at o.buf)) (some cleared) ≡ (pos 0, some boot_msg))
parse-build_example =
    parse-build boot_msg boot-IsFrame 4096 [] room cleared (omega arith) (omega arith)
      (omega (arith, frame_length))

abbrev short_frame : Bytes
short_frame = codes "1\u{1}5\u{1}0\u{1}42\u{1}cmd\u{1}"

short_parse : parse_app_proto 4096 [] (some short_frame) (some cleared) ≡ (
  pos 0,
  some (record {
    version = pos 1;
    hdr_fields = 5;
    payload_len = 0;
    timestamp = 42;
    command = codes "cmd";
    nparams = 0;
    params = [];
    payload = none;
  }),
)
unfolding parse_app_proto scan count_fields find_sep finish attach_payload atoi strtoul strtoull
short_parse = refl

-- A frame with a parameter and a payload of two bytes.
abbrev full_frame : Bytes
full_frame = codes "1\u{1}6\u{1}2\u{1}42\u{1}cmd\u{1}on\u{1}hi"

full_parse : parse_app_proto 4096 [] (some full_frame) (some cleared) ≡ (
  pos 0,
  some (record {
    version = pos 1;
    hdr_fields = 6;
    payload_len = 2;
    timestamp = 42;
    command = codes "cmd";
    nparams = 1;
    params = codes "on" ∷ [];
    payload = some (codes "hi");
  }),
)
unfolding parse_app_proto scan count_fields find_sep finish attach_payload atoi strtoul strtoull
full_parse = refl

parse-Accepted_example : Accepted (4096 + length full_frame) (record {
  version = pos 1;
  hdr_fields = 6;
  payload_len = 2;
  timestamp = 42;
  command = codes "cmd";
  nparams = 1;
  params = codes "on" ∷ [];
  payload = some (codes "hi");
})
parse-Accepted_example = parse-Accepted 4096 [] full_frame cleared _ full_parse

-- A count of 99 fields ends with -3.
bad_count : (parse_app_proto 4096 [] (some (codes "1\u{1}99\u{1}")) (some cleared)).0 ≡ negsuc 2
unfolding parse_app_proto scan count_fields find_sep finish attach_payload atoi
bad_count = refl
