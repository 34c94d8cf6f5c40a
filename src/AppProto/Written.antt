-- ===== src/AppProto/Written.antt =====
-- What `build_app_proto` does with a message, by the length of its frame.
use mathlib.Core.List.{append_assoc}
use esp32_common.Common.{
  ◌+◌, ◌^◌, ◌≤◌, ◌<◌, ◌≡◌, refl, ◌∙◌, true, some, [], ◌∷◌, ◌++◌, length, drop, arith,
}
use esp32_common.Common.Int.{ℤ}
use esp32_common.Common.Memory.{Bytes, write_at-append, write_at_full, drop-drop}
use esp32_common.AppProto.Frame.{AppProto}
use esp32_common.AppProto.Build.{ok, error, fault, put_end, put_message, build_app_proto}
use esp32_common.AppProto.Encoding.{encode, IsWritable}
use esp32_common.AppProto.Writes.{IsCode, state, Writes, Writes-put_message, length-drop-le}

put_end_fits :
    (xs free : Bytes)
    → 1 ≤ length free
    → put_end (state xs free) ≡ ok (record { buf = xs ++ (0 ∷ drop 1 free); at = length xs })
unfolding put_end
put_end_fits xs free h = rw (write_at-append xs free (0 ∷ []) h, put_end) (rw append_assoc)

put_end_full : (xs : Bytes) → put_end (state xs []) ≡ fault
unfolding put_end
put_end_full xs = rw (write_at_full xs [] (0 ∷ []) (omega arith), put_end)

drop-nil : (xs : Bytes) → length xs ≡ 0 → xs ≡ []
drop-nil [] h = refl
drop-nil (x ∷ xs) h = absurd (omega arith)

module _ (m : AppProto) (buf : Bytes) (no_wrap : length buf + m.payload_len < 2 ^ 32)
    (writable : IsWritable m) where
  message : Writes (length buf) (put_message (length buf) m) (encode m)
  message = Writes-put_message m no_wrap writable

  -- A frame shorter than the array is written at its start, with a NUL behind it, the bytes after
  -- the NUL are left alone, and `*out_len` is the length of the frame.
  pub build-encode :
      length (encode m) < length buf
      → build_app_proto (some buf) (length buf) (some m) true
        ≡ ok (record {
          buf = encode m ++ (0 ∷ drop (length (encode m) + 1) buf);
          at = length (encode m);
        })
  unfolding build_app_proto
  build-encode h = rw (message.fits [] buf (omega arith) (omega arith)) (
      put_end_fits (encode m) (drop (length (encode m)) buf)
        (omega (arith, length-drop-le (length (encode m)) buf))
      ∙ rw drop-drop)

  -- A frame as long as the array passes every check of the writer, and the closing NUL is then
  -- written one byte past the end of the array.
  pub build-exact_fault :
      length (encode m) ≡ length buf → build_app_proto (some buf) (length buf) (some m) true ≡ fault
  unfolding build_app_proto
  build-exact_fault h =
      let none_left : drop (length (encode m)) buf ≡ [] =
        drop-nil _ (omega (arith, length-drop-le (length (encode m)) buf)) in
      rw (message.fits [] buf (omega arith) (omega arith)) (rw none_left (put_end_full (encode m)))

  -- Where the size of the array and the length of the payload add up to less than 2 ^ 32, and the
  -- parameters and the payload of the message are there to be read: a frame longer than the array
  -- gives -2, -3 or -4, and no byte is written outside the array.
  pub build-too_long :
      length buf < length (encode m)
      → (z : ℤ) × (build_app_proto (some buf) (length buf) (some m) true ≡ error z) × IsCode z
  unfolding build_app_proto
  build-too_long h = let (z, e, c) = message.full [] buf (omega arith) h in (z, rw e, c)
