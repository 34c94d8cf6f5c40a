-- ===== src/AppProto/Rounds.antt =====
-- What every round of the tokenising loop of `parse_app_proto` keeps.
use esp32_common.Common.{
  ℕ, zero, suc, ◌≤◌, ◌<◌, ◌≡◌, refl, ◌∙◌, sym, ap, ◌⊎◌, inl, inr, Bool, true, false, some, List, [],
  ◌∷◌, ◌++◌, ◌==◌, if◌then◌else◌, length, get_or, arith, length-append, Bool-cases, Option-cases,
}
use esp32_common.Common.Int.{ℤ, negsuc}
use esp32_common.Common.Memory.{Bytes, c_string}
use esp32_common.Common.Decimal.{atoi}
use esp32_common.AppProto.Parse.{Scan, find_sep, count_fields, scan}

-- The count that the loop knows is the number written in the second field.
abbrev pub Counted : List Bytes → ℤ → Type 0
Counted tokens hdr = (hdr ≡ negsuc 0) ⊎ ((2 ≤ length tokens) × (hdr ≡ atoi (get_or tokens 1 [])))

-- What every round of the loop keeps; `n` is the length of the buffer.
pub record Inv (n : ℕ) (s : Scan) : Type 0 where
  pub counted : Counted s.tokens s.hdr_fields
  pub within : length s.cur ≤ n

get_or-concat :
    (tokens : List Bytes) (t : Bytes)
    → 2 ≤ length tokens
    → get_or (tokens ++ (t ∷ [])) 1 [] ≡ get_or tokens 1 []
get_or-concat [] t h = absurd (omega arith)
get_or-concat (a ∷ []) t h = absurd (omega arith)
get_or-concat (a ∷ b ∷ ts) t h = refl

find_sep-lt : (buf t rest : Bytes) → find_sep buf ≡ some (t, rest) → length rest < length buf
unfolding find_sep
find_sep-lt [] t rest e = cc
find_sep-lt (c ∷ cs) t rest e = elim (Option-cases (find_sep cs)) [
  | inl no_sep ↦ ground arith
  | inr (p, found) ↦ ground (arith, find_sep-lt cs p.0 p.1)
]

Counted-concat :
    (tokens : List Bytes) (t : Bytes) (hdr : ℤ)
    → Counted tokens hdr
    → Counted (tokens ++ (t ∷ [])) hdr
Counted-concat tokens t hdr (inl e) = inl e
Counted-concat tokens t hdr (inr (two, e)) =
    inr
      (omega (arith, length-append tokens (t ∷ [])), e ∙ ap atoi (sym (get_or-concat tokens t two)))

new-Counted :
    (tokens : List Bytes) (hdr : ℤ)
    → Counted tokens hdr
    → Counted tokens (if length tokens == 2 then atoi (get_or tokens 1 []) else hdr)
new-Counted tokens hdr c = elim (Bool-cases (length tokens == 2)) [
  | inl two ↦ rw two (inr (ground arith, refl))
  | inr other ↦ rw other c
]

ends-Inv :
    (n : ℕ) (tokens : List Bytes) (hdr : ℤ) (cur : Bytes) (next : Scan) (bad last : Bool)
    → Counted tokens hdr
    → length cur ≤ n
    → Inv n next
    → Inv n (
        if bad
        then record { ret = negsuc 1; tokens = tokens; hdr_fields = hdr; cur = cur }
        else if last
        then record { ret = negsuc 0; tokens = tokens; hdr_fields = hdr; cur = cur }
        else next)
ends-Inv n tokens hdr cur next true last c w i = record { counted = c; within = w }
ends-Inv n tokens hdr cur next false true c w i = record { counted = c; within = w }
ends-Inv n tokens hdr cur next false false c w i = i

-- The count behind a round: read from the second field, or as before.
count_fields-Inv :
    (n : ℕ) (tokens : List Bytes) (hdr : ℤ) (cur : Bytes) (next : ℤ → Scan)
    → Counted tokens hdr
    → length cur ≤ n
    → ((z : ℤ) → Counted tokens z → Inv n (next z))
    → Inv n (count_fields tokens hdr cur next)
unfolding count_fields
count_fields-Inv n tokens hdr cur next c w keep =
    let known = new-Counted tokens hdr c in ends-Inv n tokens _ cur _ _ _ known w (keep _ known)

pub scan-Inv :
    (k n : ℕ) (beyond cur : Bytes) (tokens : List Bytes) (hdr : ℤ)
    → Counted tokens hdr
    → length cur ≤ n
    → Inv n (scan k beyond cur tokens hdr)
unfolding scan
scan-Inv zero n beyond cur tokens hdr c w = record { counted = c; within = w }
scan-Inv (suc k) n beyond [] tokens hdr c w = record { counted = c; within = w }
scan-Inv (suc k) n beyond (b ∷ bs) tokens hdr c w = elim (Option-cases (find_sep (b ∷ bs))) [
  | inl no_sep ↦ rw (no_sep, scan) (record { counted = Counted-concat tokens _ hdr c; within = w })
  | inr ((t, rest), found) ↦
      let shorter : length rest ≤ n = omega (arith, find_sep-lt (b ∷ bs) t rest found) in
      rw (found, scan)
        (count_fields-Inv n (tokens ++ (c_string t ∷ [])) hdr rest _
          (Counted-concat tokens (c_string t) hdr c) shorter
          (λ z cz. scan-Inv k n beyond rest (tokens ++ (c_string t ∷ [])) z cz shorter))
]
