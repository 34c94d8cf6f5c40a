-- ===== src/AppProto/Scanning.antt =====
-- The tokenising loop of `parse_app_proto` on the fields of a frame.
use mathlib.Core.List.{append_assoc}
use esp32_common.Common.{
  ℕ, zero, suc, ◌+◌, ◌≤◌, ◌<◌, ◌≡◌, refl, ◌∙◌, false, some, List, [], ◌∷◌, ◌++◌, ◌==◌, length,
  arith, length-append,
}
use esp32_common.Common.Int.{ℤ, pos, negsuc}
use esp32_common.Common.Memory.{Bytes, No, c_string}
use esp32_common.Common.Decimal.{atoi}
use esp32_common.AppProto.Frame.{AppProto, sep, max_tokens}
use esp32_common.AppProto.Parse.{
  Scan, find_sep, is_last, is_bad_count, count_fields, scan, finish, parse_app_proto,
}
use esp32_common.AppProto.Encoding.{joined}

-- A text that a frame can carry as a field: no separator, and no NUL.
abbrev pub IsText : Bytes → Type 0
IsText t = No sep t × No 0 t

abbrev pub AreTexts : List Bytes → Type 0
AreTexts [] = Unit {0}
AreTexts (t ∷ ts) = IsText t × AreTexts ts

pub find_sep-append : (t rest : Bytes) → No sep t → find_sep (t ++ (sep ∷ rest)) ≡ some (t, rest)
unfolding find_sep
find_sep-append [] rest h = refl
find_sep-append (c ∷ cs) rest h =
    let other : (c == sep) ≡ false = ground (arith, h.0) in rw (other, find_sep-append cs rest h.1)

pub c_string-No : (t : Bytes) → No 0 t → c_string t ≡ t
c_string-No [] h = refl
c_string-No (c ∷ cs) h = ground (arith, h.0, c_string-No cs h.1)

-- A round of the loop at a field with its separator.
pub scan-found :
    (k : ℕ) (beyond buf t rest : Bytes) (tokens : List Bytes) (hdr : ℤ)
    → find_sep buf ≡ some (t, rest)
    → scan (suc k) beyond buf tokens hdr
      ≡ count_fields
          (tokens ++ (c_string t ∷ []))
          hdr
          rest
          (scan k beyond rest (tokens ++ (c_string t ∷ [])))
unfolding scan
scan-found k beyond [] t rest tokens hdr e = absurd (unfold find_sep in cc)
scan-found k beyond (c ∷ cs) t rest tokens hdr e = rw (e, scan)

scan-text :
    (k : ℕ) (beyond t rest : Bytes) (tokens : List Bytes) (hdr : ℤ)
    → IsText t
    → scan (suc k) beyond (t ++ (sep ∷ rest)) tokens hdr
      ≡ count_fields (tokens ++ (t ∷ [])) hdr rest (scan k beyond rest (tokens ++ (t ∷ [])))
scan-text k beyond t rest tokens hdr h =
    scan-found k beyond (t ++ (sep ∷ rest)) t rest tokens hdr (find_sep-append t rest h.0)
    ∙ rw (c_string-No t h.1)

abbrev pub stop_at : List Bytes → ℤ → Bytes → Scan
stop_at tokens hdr cur = record { ret = negsuc 0; tokens = tokens; hdr_fields = hdr; cur = cur }

count_fields_last :
    (tokens : List Bytes) (h : ℕ) (cur : Bytes) (next : ℤ → Scan)
    → 2 < length tokens
    → length tokens ≡ h
    → count_fields tokens (pos h) cur next ≡ stop_at tokens (pos h) cur
unfolding count_fields
count_fields_last tokens h cur next l e = ground arith

count_fields_more :
    (tokens : List Bytes) (h : ℕ) (cur : Bytes) (next : ℤ → Scan)
    → 2 < length tokens
    → length tokens < h
    → count_fields tokens (pos h) cur next ≡ next (pos h)
unfolding count_fields
count_fields_more tokens h cur next l e = ground arith

length-concat : (ts : List Bytes) (t : Bytes) → length (ts ++ (t ∷ [])) ≡ length ts + 1
length-concat ts t = length-append ts (t ∷ [])

-- From the third field on: the loop takes the fields left and stops behind the last of them.
scan-texts :
    (ts : List Bytes) (k h : ℕ) (beyond t rest : Bytes) (tokens : List Bytes)
    → AreTexts (t ∷ ts)
    → 2 ≤ length tokens
    → length tokens + suc (length ts) ≡ h
    → length ts ≤ k
    → scan (suc k) beyond (joined (t ∷ ts) ++ rest) tokens (pos h)
      ≡ stop_at (tokens ++ (t ∷ ts)) (pos h) rest
scan-texts [] k h beyond t rest tokens texts two e room = rw (append_assoc t (sep ∷ []) rest) (
    scan-text k beyond t rest tokens (pos h) texts.0
    ∙ count_fields_last (tokens ++ (t ∷ [])) h rest _ (omega (arith, length-concat tokens t))
        (omega (arith, length-concat tokens t)))
scan-texts (t' ∷ ts) zero h beyond t rest tokens texts two e room = absurd (omega arith)
scan-texts (t' ∷ ts) (suc k) h beyond t rest tokens texts two e room =
    rw (append_assoc t (sep ∷ joined (t' ∷ ts)) rest) (
      scan-text (suc k) beyond t (joined (t' ∷ ts) ++ rest) tokens (pos h) texts.0
      ∙ count_fields_more (tokens ++ (t ∷ [])) h _ _ (omega (arith, length-concat tokens t))
          (omega (arith, length-concat tokens t))
      ∙ scan-texts ts k h beyond t' rest (tokens ++ (t ∷ [])) texts.1
          (omega (arith, length-concat tokens t)) (omega (arith, length-concat tokens t))
          (omega arith)
      ∙ rw append_assoc)

count_fields_first :
    (t₀ cur : Bytes) (next : ℤ → Scan)
    → count_fields (t₀ ∷ []) (negsuc 0) cur next ≡ next (negsuc 0)
unfolding count_fields
count_fields_first t₀ cur next = refl

count_fields_second :
    (t₀ t₁ : Bytes) (h : ℕ) (cur : Bytes) (next : ℤ → Scan)
    → atoi t₁ ≡ pos h
    → 5 ≤ h
    → h ≤ 32
    → count_fields (t₀ ∷ t₁ ∷ []) (negsuc 0) cur next ≡ next (pos h)
unfolding count_fields
count_fields_second t₀ t₁ h cur next e lo hi =
    let good : is_bad_count (pos h) ≡ false = ground arith in
    let more : is_last (pos h) 2 ≡ false = ground arith in rw e (rw good (rw more))

-- From the start of a frame whose count of fields is right.
pub scan_frame :
    (k h : ℕ) (beyond t₀ t₁ t₂ rest : Bytes) (ts : List Bytes)
    → AreTexts (t₀ ∷ t₁ ∷ t₂ ∷ ts)
    → atoi t₁ ≡ pos h
    → 5 ≤ h
    → h ≤ 32
    → length ts + 3 ≡ h
    → length ts ≤ k
    → scan (suc (suc (suc k))) beyond (joined (t₀ ∷ t₁ ∷ t₂ ∷ ts) ++ rest) [] (negsuc 0)
      ≡ stop_at (t₀ ∷ t₁ ∷ t₂ ∷ ts) (pos h) rest
scan_frame k h beyond t₀ t₁ t₂ rest ts texts count lo hi len room =
    rw (append_assoc t₀ (sep ∷ joined (t₁ ∷ t₂ ∷ ts)) rest) (
      scan-text (suc (suc k)) beyond t₀ (joined (t₁ ∷ t₂ ∷ ts) ++ rest) [] (negsuc 0) texts.0
      ∙ count_fields_first t₀ _ (scan (suc (suc k)) beyond _ (t₀ ∷ []))
      ∙ rw (append_assoc t₁ (sep ∷ joined (t₂ ∷ ts)) rest) (
          scan-text (suc k) beyond t₁ (joined (t₂ ∷ ts) ++ rest) (t₀ ∷ []) (negsuc 0) texts.1.0
          ∙ count_fields_second t₀ t₁ h _ (scan (suc k) beyond _ (t₀ ∷ t₁ ∷ [])) count lo hi
          ∙ scan-texts ts k h beyond t₂ rest (t₀ ∷ t₁ ∷ []) texts.1.1 (omega arith) (omega arith)
              room))

-- On a buffer that is not empty.
pub parse_nonempty :
    (base : ℕ) (beyond buf : Bytes) (out : AppProto)
    → 0 < length buf
    → parse_app_proto base beyond (some buf) (some out) ≡ (
        let (ret, read) = finish (base + length buf) (scan max_tokens beyond buf [] (negsuc 0)) in
        (ret, some read))
unfolding parse_app_proto
parse_nonempty base beyond [] out h = absurd (omega arith)
parse_nonempty base beyond (c ∷ cs) out h = refl
