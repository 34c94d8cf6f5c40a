-- ===== src/AppProto/Writes.antt =====
-- The steps of the writer: each writes a text where it fits, and else returns an error code.
use mathlib.Core.List.{append_assoc, append-nil}
use mathlib.Core.Path.{subst₂, fun_ext}
use native.Mathlib.Decide.{dec_le}
use esp32_common.Common.{
  ℕ, zero, suc, ◌+◌, ◌^◌, ◌≤◌, ◌<◌, ◌≡◌, refl, ◌∙◌, sym, ap, ◌⊎◌, inl, inr, true, false, Option,
  none, some, List, [], ◌∷◌, ◌++◌, leb, length, take, drop, get_elem?, arith, length-append,
  length-take,
}
use esp32_common.Common.Int.{ℤ, negsuc}
use esp32_common.Common.Memory.{Bytes, write_at-append, drop-drop}
use esp32_common.Common.Decimal.{print_dec, print_int}
use esp32_common.AppProto.Frame.{AppProto, sep}
use esp32_common.AppProto.Build.{
  Out, Outcome, ok, error, ◌>>=◌, put, append, put_field, put_params, put_payload, put_message,
}
use esp32_common.AppProto.Encoding.{joined, payload_bytes, encode, IsReadable, IsWritable}

abbrev pub IsCode : ℤ → Type 0
IsCode z = (z ≡ negsuc 1) ⊎ (z ≡ negsuc 2) ⊎ (z ≡ negsuc 3)

-- The writer after the bytes `xs`, with `free` left of the array.
abbrev pub state : Bytes → Bytes → Out
state xs free = record { buf = xs ++ free; at = length xs }

-- A step of the writer writes the text `w` where it fits, and else returns an error code. The
-- lengths stay where 32-bit sums do not wrap.
pub record Writes (max : ℕ) (f : Out → Outcome Out) (w : Bytes) : Type 0 where
  pub fits :
      (xs free : Bytes)
      → length xs + length free ≡ max
      → length w ≤ length free
      → f (state xs free) ≡ ok (state (xs ++ w) (drop (length w) free))
  pub full :
      (xs free : Bytes)
      → length xs + length free ≡ max
      → length free < length w
      → (z : ℤ) × (f (state xs free) ≡ error z) × IsCode z

pub length-drop-le : (n : ℕ) (xs : Bytes) → n ≤ length xs → length (drop n xs) + n ≡ length xs
length-drop-le zero xs h = omega arith
length-drop-le (suc n) [] h = elim h [ ]
length-drop-le (suc n) (x ∷ xs) h = omega (arith, length-drop-le n xs)

put_lem :
    (xs free s : Bytes)
    → length s ≤ length free
    → put (state xs free) s ≡ ok (state (xs ++ s) (drop (length s) free))
unfolding put
put_lem xs free s h = rw (write_at-append xs free s h, put) (rw length-append)

state_then :
    (xs free w v : Bytes)
    → state ((xs ++ w) ++ v) (drop (length v) (drop (length w) free))
      ≡ state (xs ++ (w ++ v)) (drop (length (w ++ v)) free)
state_then xs free w v = simp (append_assoc, drop-drop, length-append)

append_fits :
    (max : ℕ) (xs free s : Bytes)
    → length xs + length s < max
    → length s ≤ length free
    → append (state xs free) max s ≡ ok (some (state (xs ++ s) (drop (length s) free)))
unfolding append
append_fits max xs free s h p =
    let open_ : leb max (length xs + length s) ≡ false = ground arith in
    rw open_ (rw (put_lem xs free s p))

append_full :
    (max : ℕ) (xs free s : Bytes)
    → max ≤ length xs + length s
    → append (state xs free) max s ≡ ok none
unfolding append
append_full max xs free s h =
    let shut_ : leb max (length xs + length s) ≡ true = ground arith in rw shut_

get_elem?-before :
    (i : ℕ) (before : List Bytes) (p : Bytes) (ps : List Bytes)
    → length before ≡ i
    → get_elem? (before ++ (p ∷ ps)) i ≡ some p
get_elem?-before zero [] p ps e = refl
get_elem?-before zero (b ∷ bs) p ps e = absurd (omega arith)
get_elem?-before (suc i) [] p ps e = absurd (omega arith)
get_elem?-before (suc i) (b ∷ bs) p ps e = get_elem?-before i bs p ps (omega arith)

module _ {max : ℕ} where
  Writes-then :
      {f g : Out → Outcome Out} {w v : Bytes}
      → Writes max f w
      → Writes max g v
      → Writes max (λ o. f o >>= g) (w ++ v)
  Writes-then {f} {g} {w} {v} wf wg = record { fits = fits; full = full }
    where
      room :
          (xs free : Bytes)
          → length xs + length free ≡ max
          → length w ≤ length free
          → length (xs ++ w) + length (drop (length w) free) ≡ max
      room xs free e h = omega (arith, length-append xs w, length-drop-le (length w) free h)

      fits :
          (xs free : Bytes)
          → length xs + length free ≡ max
          → length (w ++ v) ≤ length free
          → (f (state xs free) >>= g) ≡ ok (state (xs ++ (w ++ v)) (drop (length (w ++ v)) free))
      fits xs free e h = rw (wf.fits xs free e (omega (arith, length-append w v))) (
          wg.fits (xs ++ w) (drop (length w) free)
            (room xs free e (omega (arith, length-append w v)))
            (omega (arith, length-append w v, length-drop-le (length w) free))
          ∙ ap ok (state_then xs free w v))

      full :
          (xs free : Bytes)
          → length xs + length free ≡ max
          → length free < length (w ++ v)
          → (z : ℤ) × ((f (state xs free) >>= g) ≡ error z) × IsCode z
      full xs free e h = elim (dec_le (length w) (length free)) [
        | yes p ↦ rw (wf.fits xs free e p) (
            wg.full (xs ++ w) (drop (length w) free) (room xs free e p)
              (omega (arith, length-append w v, length-drop-le (length w) free)))
        | no p ↦ let (z, q, c) = wf.full xs free e (omega arith) in (z, rw q, c)
      ]

  Writes-put_field :
      (code : ℤ) (s : Bytes)
      → IsCode code
      → Writes max (λ o. put_field code max o s) (s ++ (sep ∷ []))
  unfolding put_field
  Writes-put_field code s c = record { fits = fits; full = full }
    where
      fits :
          (xs free : Bytes)
          → length xs + length free ≡ max
          → length (s ++ (sep ∷ [])) ≤ length free
          → put_field code max (state xs free) s
            ≡ ok (state (xs ++ (s ++ (sep ∷ []))) (drop (length (s ++ (sep ∷ []))) free))
      fits xs free e h =
          rw
            (append_fits max xs free s (omega (arith, length-append s (sep ∷ [])))
              (omega (arith, length-append s (sep ∷ []))))
            (put_lem (xs ++ s) (drop (length s) free) (sep ∷ [])
                (omega (arith, length-append s (sep ∷ []), length-drop-le (length s) free))
              ∙ ap ok (state_then xs free s (sep ∷ [])))

      full :
          (xs free : Bytes)
          → length xs + length free ≡ max
          → length free < length (s ++ (sep ∷ []))
          → (z : ℤ) × (put_field code max (state xs free) s ≡ error z) × IsCode z
      full xs free e h =
          (code, rw (append_full max xs free s (omega (arith, length-append s (sep ∷ [])))), c)

  Writes-cong :
      {f g : Out → Outcome Out} {w v : Bytes}
      → ((o : Out) → g o ≡ f o)
      → v ≡ w
      → Writes max f w
      → Writes max g v
  Writes-cong {f} {g} {w} {v} same text wf =
      subst₂ (λ h t. Writes max h t) (sym (fun_ext same)) (sym text) wf

  Writes-none : Writes max ok []
  Writes-none = record {
    fits = λ xs free e h. simp append-nil;
    full = λ xs free e h. absurd (omega arith);
  }

  Writes-put_params :
      (n i : ℕ) (before ps : List Bytes)
      → length before ≡ i
      → n ≤ length ps
      → Writes max (put_params n i max (before ++ ps)) (joined (take n ps))
  unfolding put_params
  Writes-put_params zero i before ps e h = Writes-none
  Writes-put_params (suc n) i before [] e h = absurd (omega arith)
  Writes-put_params (suc n) i before (p ∷ ps) e h =
      let found : get_elem? (before ++ (p ∷ ps)) i ≡ some p = get_elem?-before i before p ps e in
      let next : Writes max (put_params n (i + 1) max (before ++ (p ∷ ps))) (joined (take n ps)) =
        rw (append_assoc before (p ∷ []) ps) at (
          Writes-put_params n (i + 1) (before ++ (p ∷ [])) ps
            (omega (arith, length-append before (p ∷ []))) (omega arith)) in
      Writes-cong (λ o. rw (found, put_params))
        (sym (append_assoc p (sep ∷ []) (joined (take n ps))))
        (Writes-then (Writes-put_field (negsuc 2) p (inr (inl refl))) next)

  -- The sum with the length does not wrap.
  Writes-put_payload :
      (n : ℕ) (p : Option Bytes)
      → max + n < 2 ^ 32
      → IsReadable n p
      → Writes max (λ o. put_payload max o n p) (payload_bytes n p)
  unfolding put_payload
  Writes-put_payload n none h r = Writes-none
  Writes-put_payload zero (some p) h r = Writes-none
  Writes-put_payload (suc n) (some p) h r = record {
    fits = λ xs free e l. ground (arith, length-take (suc n) p, put_lem xs free (take (suc n) p) l);
    full = λ xs free e l. (negsuc 3, ground (arith, length-take (suc n) p), inr (inr refl));
  }

  pub Writes-put_message :
      (m : AppProto)
      → max + m.payload_len < 2 ^ 32
      → IsWritable m
      → Writes max (put_message max m) (encode m)
  unfolding put_message
  Writes-put_message m h w =
      Writes-cong (λ o. refl) (simp append_assoc)
        (Writes-then (field (print_int m.version)) (
          Writes-then (field (print_dec m.hdr_fields)) (
            Writes-then (field (print_dec m.payload_len)) (
              Writes-then (field (print_dec m.timestamp)) (
                Writes-then (field m.command) (
                  Writes-then (Writes-put_params m.nparams 0 [] m.params refl w.params_there)
                    (Writes-put_payload m.payload_len m.payload h w.payload_there)))))))
    where
      field : (s : Bytes) → Writes max (λ o. put_field (negsuc 1) max o s) (s ++ (sep ∷ []))
      field s = Writes-put_field (negsuc 1) s (inl refl)
