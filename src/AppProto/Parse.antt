-- ===== src/AppProto/Parse.antt =====
-- `parse_app_proto` of ws_mqtt_proto/app_proto.c. A pointer into the buffer is the list of bytes
-- from it to the end of the buffer; `beyond` is the memory behind the buffer, which a string with no
-- NUL runs into.
use esp32_common.Common.{
  ℕ, zero, suc, ◌+◌, ◌-◌, ◌%◌, ◌^◌, Bool, true, false, ◌&&◌, ◌||◌, Option, none, some, List, [],
  ◌∷◌, ◌++◌, leb, ltb, ◌==◌, if◌then◌else◌, length, drop, get_or,
}
use esp32_common.Common.Int.{ℤ, pos, negsuc}
use esp32_common.Common.Memory.{Bytes, c_string}
use esp32_common.Common.Decimal.{atoi, strtoul, strtoull}
use esp32_common.AppProto.Frame.{AppProto, sep, max_params, max_tokens, cleared, to_u8}

-- `memchr(cur, SEP, end - cur)`: the bytes before the separator, and those behind it.
unfoldable pub find_sep : Bytes → Option (Bytes × Bytes)
find_sep [] = none
find_sep (c ∷ cs) =
    let rest = find_sep cs in
    if c == sep then some ([], cs) else elim rest [ none ↦ none | some (t, r) ↦ some (c ∷ t, r) ]

-- What the tokenising loop leaves in the local variables.
pub record Scan : Type 0 where
  pub ret : ℤ
  pub tokens : List Bytes
  pub hdr_fields : ℤ
  pub cur : Bytes

-- `hdr_fields < 5 || hdr_fields > MAX_TOKENS`
abbrev pub is_bad_count : ℤ → Bool
is_bad_count (pos n) = ltb n 5 || ltb max_tokens n
is_bad_count (negsuc n) = true

-- `hdr_fields > 0 && ntokens == hdr_fields`
abbrev pub is_last : ℤ → ℕ → Bool
is_last (pos h) n = ltb 0 h && n == h
is_last (negsuc h) n = false

-- The rest of a round, behind `cur = sep + 1`, with the loop's next round as `next`.
unfoldable pub count_fields : List Bytes → ℤ → Bytes → (ℤ → Scan) → Scan
count_fields tokens hdr_fields cur next =
    let hdr = if length tokens == 2 then atoi (get_or tokens 1 []) else hdr_fields in
    if length tokens == 2 && is_bad_count hdr
    then record { ret = negsuc 1; tokens = tokens; hdr_fields = hdr; cur = cur }
    else if is_last hdr (length tokens)
    then record { ret = negsuc 0; tokens = tokens; hdr_fields = hdr; cur = cur }
    else next hdr

-- The `while` loop; the first argument is MAX_TOKENS - ntokens.
unfoldable pub scan : ℕ → Bytes → Bytes → List Bytes → ℤ → Scan
scan zero beyond cur tokens hdr_fields = record {
  ret = negsuc 0;
  tokens = tokens;
  hdr_fields = hdr_fields;
  cur = cur;
}
scan (suc k) beyond [] tokens hdr_fields = record {
  ret = negsuc 0;
  tokens = tokens;
  hdr_fields = hdr_fields;
  cur = [];
}
scan (suc k) beyond (c ∷ cs) tokens hdr_fields = elim (find_sep (c ∷ cs)) [
  | none ↦ record {
    ret = negsuc 0;
    tokens = tokens ++ (c_string ((c ∷ cs) ++ beyond) ∷ []);
    hdr_fields = hdr_fields;
    cur = c ∷ cs;
  }
  | some (t, rest) ↦
      count_fields (tokens ++ (c_string t ∷ [])) hdr_fields rest
        (scan k beyond rest (tokens ++ (c_string t ∷ [])))
]

-- `ntokens >= 5 && ntokens == hdr_fields && ntokens - 5 < MAX_PARAMS`
abbrev pub is_complete : ℕ → ℤ → Bool
is_complete n (pos h) = leb 5 n && n == h && ltb (n - 5) max_params
is_complete n (negsuc h) = false

abbrev pub header_of : List Bytes → AppProto
header_of tokens = record {
  version = atoi (get_or tokens 0 []);
  hdr_fields = to_u8 (atoi (get_or tokens 1 []));
  payload_len = strtoul (get_or tokens 2 []);
  timestamp = strtoull (get_or tokens 3 []);
  command = get_or tokens 4 [];
  nparams = length tokens - 5;
  params = drop 5 tokens;
  payload = none;
}

-- `stop` is the address `end`, and the pointer `cur` has the address `stop - length cur`. The sum
-- with the length is one of 32-bit addresses.
unfoldable pub attach_payload : ℕ → Bytes → AppProto → ℤ × AppProto
attach_payload stop cur out =
    if ltb 0 out.payload_len
    then (if leb ((stop - length cur + out.payload_len) % 2 ^ 32) stop
        then (pos 0, record out { payload = some cur })
        else (negsuc 3, out))
    else (pos 0, out)

unfoldable pub finish : ℕ → Scan → ℤ × AppProto
finish stop s =
    if is_complete (length s.tokens) s.hdr_fields
    then attach_payload stop s.cur (header_of s.tokens)
    else (negsuc 2, cleared)

-- `buf` at address `base`. The arguments are refused where a pointer is NULL or `len <= 0`; else the
-- frame read is written to `out`, and the result is the return value with what `out` then holds.
unfoldable pub parse_app_proto : ℕ → Bytes → Option Bytes → Option AppProto → ℤ × Option AppProto
parse_app_proto base beyond (some (c ∷ cs)) (some out) =
    let (ret, read) =
      finish (base + length (c ∷ cs)) (scan max_tokens beyond (c ∷ cs) [] (negsuc 0)) in
    (ret, some read)
parse_app_proto base beyond buf out = (negsuc 0, out)
