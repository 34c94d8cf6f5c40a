-- ===== src/AppProto/RoundTrip.antt =====
-- The reader takes back what the writer wrote.
use mathlib.Core.List.{append_assoc, append-nil}
use esp32_common.Common.{
  ℕ, zero, suc, ◌+◌, ◌^◌, ◌≤◌, ◌<◌, ◌≡◌, refl, ◌∙◌, ap, true, Option, none, some, List, [], ◌∷◌,
  ◌++◌, length, take, drop, arith, length-append,
}
use esp32_common.Common.Int.{pos, negsuc}
use esp32_common.Common.Memory.{Bytes, take-length-append}
use esp32_common.Common.Decimal.{print_dec, print_int, IsInt}
use esp32_common.Common.Decimal.RoundTrip.{
  atoi-print_int, atoi-print_dec, strtoul-print_dec, strtoull-print_dec, No-print_dec, No-print_int,
}
use esp32_common.AppProto.Frame.{AppProto, sep, max_tokens}
use esp32_common.AppProto.Build.{ok, build_app_proto}
use esp32_common.AppProto.Parse.{
  is_complete, scan, header_of, attach_payload, finish, parse_app_proto,
}
use esp32_common.AppProto.Encoding.{
  joined, field_texts, param_texts, payload_bytes, encode, IsWritable, IsReadable,
}
use esp32_common.AppProto.Scanning.{IsText, AreTexts, stop_at, scan_frame, parse_nonempty}
use esp32_common.AppProto.Written.{build-encode}
use esp32_common.AppProto.Build.{Out}

abbrev pub IsPayload : ℕ → Option Bytes → Type 0
IsPayload n none = n ≡ 0
IsPayload n (some p) = (0 < n) × (length p ≡ n)

-- A message that a frame carries whole: its counts are right, at most nine parameters, and its
-- texts have no separator.
pub record IsFrame (m : AppProto) : Type 0 where
  pub version_int : IsInt m.version
  pub counted : m.hdr_fields ≡ m.nparams + 5
  pub few : m.nparams < 10
  pub exact : length m.params ≡ m.nparams
  pub len32 : m.payload_len < 2 ^ 32
  pub time64 : m.timestamp < 2 ^ 64
  pub command_text : IsText m.command
  pub params_text : AreTexts m.params
  pub payload_is : IsPayload m.payload_len m.payload

-- The message with `rest` behind its payload in memory.
abbrev pub with_rest : AppProto → Bytes → AppProto
with_rest m rest = record m { payload = elim m.payload [ none ↦ none | some p ↦ some (p ++ rest) ] }

take_all : (n : ℕ) (xs : List Bytes) → length xs ≡ n → take n xs ≡ xs
take_all zero [] h = refl
take_all zero (x ∷ xs) h = absurd (omega arith)
take_all (suc n) [] h = refl
take_all (suc n) (x ∷ xs) h = ap (◌∷◌ x) (take_all n xs (omega arith))

take_all_bytes : (n : ℕ) (xs : Bytes) → length xs ≡ n → take n xs ≡ xs
take_all_bytes zero [] h = refl
take_all_bytes zero (x ∷ xs) h = absurd (omega arith)
take_all_bytes (suc n) [] h = refl
take_all_bytes (suc n) (x ∷ xs) h = ap (◌∷◌ x) (take_all_bytes n xs (omega arith))

abbrev tail_texts : AppProto → List Bytes
tail_texts m =
    print_dec m.hdr_fields
    ∷ print_dec m.payload_len
    ∷ print_dec m.timestamp
    ∷ m.command
    ∷ param_texts m

attach-payload :
    (n stop : ℕ) (p : Option Bytes) (rest : Bytes) (read : AppProto)
    → read.payload ≡ none
    → read.payload_len ≡ n
    → IsPayload n p
    → length (payload_bytes n p ++ rest) ≤ stop
    → stop < 2 ^ 32
    → attach_payload stop (payload_bytes n p ++ rest) read
      ≡ (pos 0, record read { payload = elim p [ none ↦ none | some q ↦ some (q ++ rest) ] })
unfolding attach_payload
attach-payload n stop none rest read e l h room below = ground arith
attach-payload n stop (some q) rest read e l h room below =
    ground (arith, take_all_bytes n q h.1, length-append q rest)

append_rest-nil : (p : Option Bytes) → (elim p [ none ↦ none | some q ↦ some (q ++ []) ]) ≡ p
append_rest-nil none = refl
append_rest-nil (some q) = rw append-nil

with_rest-nil : (m : AppProto) → with_rest m [] ≡ m
with_rest-nil m = λ i. record m { payload = append_rest-nil m.payload i }

module _ (m : AppProto) (frame : IsFrame m) where
  texts_are : AreTexts (field_texts m)
  texts_are = (
    (No-print_int sep m.version (omega arith), No-print_int 0 m.version (omega arith)),
    (
      dec_text m.hdr_fields,
      (
        dec_text m.payload_len,
        (dec_text m.timestamp, (frame.command_text, rw all frame.params_text)),
      ),
    ),
  )
    where
      dec_text : (n : ℕ) → IsText (print_dec n)
      dec_text n = (No-print_dec sep n (omega arith), No-print_dec 0 n (omega arith))

      all : take m.nparams m.params ≡ m.params
      all = take_all m.nparams m.params frame.exact

  params_are : take m.nparams m.params ≡ m.params
  params_are = take_all m.nparams m.params frame.exact

  header-field_texts : header_of (field_texts m) ≡ record m { payload = none }
  header-field_texts = ground (
    arith,
    frame,
    atoi-print_int m.version frame.version_int,
    atoi-print_dec m.hdr_fields (omega (arith, frame)),
    strtoul-print_dec m.payload_len frame.len32,
    strtoull-print_dec m.timestamp frame.time64,
    params_are,
  )

  scan-encode :
      (beyond rest : Bytes)
      → scan max_tokens beyond (encode m ++ rest) [] (negsuc 0)
        ≡ stop_at
            (field_texts m)
            (pos (m.nparams + 5))
            (payload_bytes m.payload_len m.payload ++ rest)
  scan-encode beyond rest =
      rw (append_assoc (joined (field_texts m)) (payload_bytes m.payload_len m.payload) rest) (
        scan_frame 29 (m.nparams + 5) beyond _ _ _ _ _ texts_are
          (atoi-print_dec m.hdr_fields (omega (arith, frame)) ∙ ap pos frame.counted) (omega arith)
          (omega (arith, frame)) (rw params_are (omega (arith, frame)))
          (rw params_are (omega (arith, frame))))

  finish-encode :
      (stop : ℕ) (rest : Bytes)
      → length (payload_bytes m.payload_len m.payload ++ rest) ≤ stop
      → stop < 2 ^ 32
      → finish stop (
          stop_at
            (field_texts m)
            (pos (m.nparams + 5))
            (payload_bytes m.payload_len m.payload ++ rest))
        ≡ (pos 0, with_rest m rest)
  unfolding finish
  finish-encode stop rest room below =
      let complete : is_complete (length (field_texts m)) (pos (m.nparams + 5)) ≡ true =
        ground (arith, frame, ap (λ (t : List Bytes). length t) params_are) in
      rw complete (
        rw header-field_texts (
          attach-payload m.payload_len stop m.payload rest (record m { payload = none }) refl refl
            frame.payload_is room below))

  rest-le-encode :
      (rest : Bytes)
      → length (payload_bytes m.payload_len m.payload ++ rest) < length (encode m ++ rest)
  rest-le-encode rest = omega (
    arith,
    length-append (encode m) rest,
    length-append (joined (field_texts m)) (payload_bytes m.payload_len m.payload),
    length-append (payload_bytes m.payload_len m.payload) rest,
    length-append (print_int m.version) (sep ∷ joined (tail_texts m)),
  )

  -- A frame with any bytes `rest` behind it is read back as the message it was made from; the
  -- payload is a pointer, from which the payload's bytes and then `rest` are seen.
  pub parse-encode :
      (base : ℕ) (beyond rest : Bytes) (out : AppProto)
      → base + length (encode m ++ rest) < 2 ^ 32
      → parse_app_proto base beyond (some (encode m ++ rest)) (some out)
        ≡ (pos 0, some (with_rest m rest))
  parse-encode base beyond rest out room =
      parse_nonempty base beyond (encode m ++ rest) out (omega (arith, rest-le-encode rest))
      ∙ rw (scan-encode beyond rest) (
          rw (
            finish-encode (base + length (encode m ++ rest)) rest
              (omega (arith, rest-le-encode rest)) room))

  IsFrame-IsWritable : IsWritable m
  IsFrame-IsWritable = record {
    params_there = omega (arith, frame);
    payload_there = readable m.payload_len m.payload frame.payload_is;
  }
    where
      readable : (n : ℕ) (p : Option Bytes) → IsPayload n p → IsReadable n p
      readable n none h = tt
      readable n (some p) h = omega arith

  -- A message with right counts, at most nine parameters, texts without separator or NUL, numbers in
  -- the range of their types, and a payload of payload_len bytes, if any, whose frame leaves a byte of
  -- the array, where no 32-bit sum of lengths or addresses wraps: what `build_app_proto` writes for it
  -- is read back by `parse_app_proto` as the same message.
  pub parse-build :
      (base : ℕ) (beyond buf : Bytes) (out : AppProto)
      → length buf + m.payload_len < 2 ^ 32
      → base + length buf < 2 ^ 32
      → length (encode m) < length buf
      → (o : Out) × (build_app_proto (some buf) (length buf) (some m) true ≡ ok o)
        × (parse_app_proto base beyond (some (take o.at o.buf)) (some out) ≡ (pos 0, some m))
  parse-build base beyond buf out no_wrap below fits = (
    record { buf = encode m ++ (0 ∷ drop (length (encode m) + 1) buf); at = length (encode m) },
    build-encode m buf no_wrap IsFrame-IsWritable fits,
    rw (take-length-append (encode m)) (
        rw (append-nil (encode m)) at
          (parse-encode base beyond [] out (rw (append-nil (encode m)) (omega arith)))
        ∙ ap (λ (t : AppProto). (pos 0, some t)) (with_rest-nil m)),
  )
