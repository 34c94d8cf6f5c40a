-- ===== src/AppProto/Sound.antt =====
-- What a frame that `parse_app_proto` accepts holds, whatever the bytes were.
use mathlib.Core.Path.{subst}
use esp32_common.Common.{
  ℕ, ◌+◌, ◌-◌, ◌%◌, ◌^◌, ◌≤◌, ◌<◌, ◌≡◌, refl, ◌∙◌, sym, ap, ◌⊎◌, inl, inr, true, false, Option,
  none, some, List, [], ◌∷◌, ltb, if◌then◌else◌, length, get_or, arith, length-drop, Bool-cases,
}
use esp32_common.Common.Int.{ℤ, pos, negsuc}
use esp32_common.Common.Memory.{Bytes}
use esp32_common.Common.Decimal.{atoi}
use esp32_common.AppProto.Frame.{AppProto, max_tokens, cleared}
use esp32_common.AppProto.Parse.{
  Scan, is_complete, scan, header_of, attach_payload, finish, parse_app_proto,
}
use esp32_common.AppProto.Encoding.{IsReadable}
use esp32_common.AppProto.Scanning.{parse_nonempty}
use esp32_common.AppProto.Rounds.{Counted, Inv, scan-Inv}

-- What is known of a frame read from a buffer that ends at address `stop`.
pub record Accepted (stop : ℕ) (m : AppProto) : Type 0 where
  pub counted : m.hdr_fields ≡ m.nparams + 5
  pub few : m.nparams < 10
  pub exact : length m.params ≡ m.nparams
  pub readable : stop + m.payload_len < 2 ^ 32 → IsReadable m.payload_len m.payload

-- The header of a complete frame.
header-counted :
    (tokens : List Bytes) (h : ℕ)
    → is_complete (length tokens) (pos h) ≡ true
    → atoi (get_or tokens 1 []) ≡ pos h
    → ((header_of tokens).hdr_fields ≡ (header_of tokens).nparams + 5)
      × ((header_of tokens).nparams < 10)
      × (length (header_of tokens).params ≡ (header_of tokens).nparams)
header-counted tokens h done e =
    let lo : 5 ≤ length tokens = ground arith in
    let same : length tokens ≡ h = ground arith in
    let few : length tokens < 15 = ground arith in (ground arith, omega arith, length-drop 5 tokens)

attach_cases :
    (stop : ℕ) (cur : Bytes) (read m : AppProto)
    → attach_payload stop cur read ≡ (pos 0, m)
    → ((read.payload_len ≡ 0) × (read ≡ m))
      ⊎ (((stop - length cur + read.payload_len) % 2 ^ 32 ≤ stop)
          × (record read { payload = some cur } ≡ m))
unfolding attach_payload
attach_cases stop cur read m e = elim (Bool-cases (ltb 0 read.payload_len)) [
  | inr none_left ↦ inl (ground arith, ground arith)
  | inl some_left ↦ inr (ground arith, ground arith)
]

IsReadable-header :
    (stop : ℕ) (cur : Bytes) (read m : AppProto)
    → length cur ≤ stop
    → read.payload ≡ none
    → attach_payload stop cur read ≡ (pos 0, m)
    → stop + m.payload_len < 2 ^ 32
    → IsReadable m.payload_len m.payload
IsReadable-header stop cur read m w empty e below = elim (attach_cases stop cur read m e) [
  | inl (zero_len, same) ↦
      subst (λ (t : AppProto). IsReadable t.payload_len t.payload) same
        (subst (IsReadable read.payload_len) (sym empty) tt)
  | inr (fits, same) ↦
      let len : m.payload_len ≡ read.payload_len =
        ap (λ (t : AppProto). t.payload_len) (sym same) in
      subst (λ (t : AppProto). IsReadable t.payload_len t.payload) same (omega (arith, len))
]

pos-ne-negsuc : {a b : ℕ} → pos a ≡ negsuc b → ⊥
pos-ne-negsuc e = cc

-- The payload aside, an accepted frame is its header.
attach_same :
    (stop : ℕ) (cur : Bytes) (read m : AppProto)
    → attach_payload stop cur read ≡ (pos 0, m)
    → (read.hdr_fields ≡ m.hdr_fields) × (read.nparams ≡ m.nparams) × (read.params ≡ m.params)
attach_same stop cur read m e = elim (attach_cases stop cur read m e) [
  | inl (_, same) ↦ fields same
  | inr (_, same) ↦ fields same
]
  where
    fields :
        {r : AppProto}
        → r ≡ m
        → (r.hdr_fields ≡ m.hdr_fields) × (r.nparams ≡ m.nparams) × (r.params ≡ m.params)
    fields p = (
      ap (λ (t : AppProto). t.hdr_fields) p,
      ap (λ (t : AppProto). t.nparams) p,
      ap (λ (t : AppProto). t.params) p,
    )

complete_count :
    (n : ℕ) (z : ℤ)
    → is_complete n z ≡ true
    → (h : ℕ) × (z ≡ pos h) × (is_complete n (pos h) ≡ true)
complete_count n (pos h) e = (h, refl, e)
complete_count n (negsuc h) e = cc

known_count :
    (tokens : List Bytes) (z : ℤ) (h : ℕ)
    → Counted tokens z
    → z ≡ pos h
    → atoi (get_or tokens 1 []) ≡ pos h
known_count tokens z h (inl e) p = cc
known_count tokens z h (inr (two, e)) p = sym e ∙ p

accepted :
    (n stop : ℕ) (s : Scan) (m : AppProto)
    → Inv n s
    → n ≤ stop
    → finish stop s ≡ (pos 0, m)
    → Accepted stop m
unfolding finish
accepted n stop s m i below e = elim (Bool-cases (is_complete (length s.tokens) s.hdr_fields)) [
  | inr refused ↦ absurd (refused_ne e refused)
  | inl done ↦
      let attached : attach_payload stop s.cur (header_of s.tokens) ≡ (pos 0, m) = rw done at e in
      let (h, known, full) = complete_count (length s.tokens) s.hdr_fields done in
      let (c, f, x) =
        header-counted s.tokens h full (known_count s.tokens s.hdr_fields h i.counted known) in
      let (p, q, r) = attach_same stop s.cur (header_of s.tokens) m attached in
      record {
        counted = omega arith;
        few = omega arith;
        exact = ap (λ (t : List Bytes). length t) (sym r) ∙ x ∙ q;
        readable =
            IsReadable-header stop s.cur (header_of s.tokens) m (omega (arith, i.within)) refl
              attached;
      }
]
  where
    refused_ne :
        (if is_complete (length s.tokens) s.hdr_fields
            then attach_payload stop s.cur (header_of s.tokens)
            else (negsuc 2, cleared))
          ≡ (pos 0, m)
        → is_complete (length s.tokens) s.hdr_fields ≡ false
        → ⊥
    refused_ne p no_ =
        let q : (negsuc 2, cleared) ≡ (pos 0, m) = rw no_ at p in
        pos-ne-negsuc (ap (λ (t : ℤ × AppProto). t.0) (sym q))

pair-eq :
    (p : ℤ × AppProto) (z : ℤ) (m : AppProto)
    → ◌≡◌ {A = ℤ × Option AppProto} (p.0, some p.1) (z, some m)
    → p ≡ (z, m)
pair-eq (a, b) z m e = ground arith

-- A frame that `parse_app_proto` accepts has at most nine parameters, as many as its second field
-- counts beside the other five, and a payload pointer behind which the bytes that it claims lie
-- inside the buffer, if the addresses up to the end of the buffer and the length do not wrap.
pub parse-Accepted :
    (base : ℕ) (beyond buf : Bytes) (out m : AppProto)
    → parse_app_proto base beyond (some buf) (some out) ≡ (pos 0, some m)
    → Accepted (base + length buf) m
parse-Accepted base beyond [] out m e =
    absurd (unfold parse_app_proto in pos-ne-negsuc (ap (λ (t : ℤ × Option AppProto). t.0) (sym e)))
parse-Accepted base beyond (c ∷ cs) out m e =
    let buf : Bytes = c ∷ cs in
    let s : Scan = scan max_tokens beyond buf [] (negsuc 0) in
    accepted (length buf) (base + length buf) s m
      (scan-Inv max_tokens (length buf) beyond buf [] (negsuc 0) (inl refl) (omega arith))
      (omega arith)
      (pair-eq (finish (base + length buf) s) (pos 0) m
        (sym (parse_nonempty base beyond buf out (omega arith)) ∙ e))
