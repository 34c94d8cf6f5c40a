-- ===== src/DevMon/Lines.antt =====
-- The matrix as one set of handlers per line.
use esp32_common.Common.{
  ℕ, zero, suc, ◌<◌, ◌≡◌, ◌≢◌, refl, ap, sym, ◌∙◌, Bool, true, false, not, ◌&&◌, ◌||◌, Option, none,
  some, [], ◌∷◌, get_elem?, get_elem?-set_self, get_elem?-set_ne, length, length-set, set, ◌==◌,
  if◌then◌else◌, arith, inl, inr, Bool-cases,
}
use esp32_common.DevMon.Handlers.{
  Row, Matrix, Ret, installed, add_to_row, remove_from_row, on_row, add_handler, remove_handler,
}
use esp32_common.DevMon.Rows.{
  is_ok, is_row, install_code, install-installed, install-row, remove_code, remove-installed,
  remove-row,
}

-- Whether the line has the handler, or for 0 a free place.
abbrev pub on_line : Matrix → ℕ → ℕ → Bool
on_line m i q = elim (get_elem? m i) [ none ↦ false | some row ↦ installed q row ]

abbrev pub IsMatrix : Matrix → Type 0
IsMatrix m = (i : ℕ) (row : Row) → get_elem? m i ≡ some row → is_row row ≡ true

get_elem?-some : (m : Matrix) (i : ℕ) → i < length m → (row : Row) × (get_elem? m i ≡ some row)
get_elem?-some [] i h = absurd (omega arith)
get_elem?-some (row ∷ m) zero h = (row, refl)
get_elem?-some (row ∷ m) (suc i) h = get_elem?-some m i (omega arith)

add_code :
    (func : ℕ) (row : Row) → is_ok (add_to_row func row).0 ≡ installed func row || installed 0 row
unfolding add_to_row
add_code func row = ground (arith, install_code func row)

add-installed :
    (func q : ℕ) (row : Row)
    → q ≢ 0
    → installed q (add_to_row func row).1
      ≡ installed q row || (is_ok (add_to_row func row).0 && (q == func))
unfolding add_to_row
add-installed func q row h = elim (Bool-cases (installed func row)) [
  | inl found ↦ elim (Bool-cases (q == func)) [
    | inl same ↦ let e : q ≡ func = ground arith in rw found (rw e (rw found refl))
    | inr other ↦ rw found (rw other (ground arith))
  ]
  | inr missing ↦ rw missing (ground (arith, install-installed func q row h))
]

add-row :
    (func : ℕ) (row : Row) → func ≢ 0 → is_row row ≡ true → is_row (add_to_row func row).1 ≡ true
unfolding add_to_row
add-row func row h r = elim (Bool-cases (installed func row)) [
  | inl found ↦ rw found r
  | inr missing ↦ rw missing (install-row func row h missing r)
]

-- One line of the matrix changes.
module _ (f : Row → Ret × Row) (ith : ℕ) (m : Matrix) (row : Row)
    (found : get_elem? m ith ≡ some row) (lt : ith < length m) where
  set_line : (i : ℕ) → (i == ith) ≡ true → get_elem? (set m ith (f row).1) i ≡ some (f row).1
  set_line i same = let e : i ≡ ith = ground arith in rw e (get_elem?-set_self m ith (f row).1 lt)

  keeps_line : (i : ℕ) → (i == ith) ≡ false → get_elem? (set m ith (f row).1) i ≡ get_elem? m i
  keeps_line i other = get_elem?-set_ne m (f row).1 (ground arith)

  IsMatrix-set : is_row (f row).1 ≡ true → IsMatrix m → IsMatrix (set m ith (f row).1)
  IsMatrix-set r w i line e = elim (Bool-cases (i == ith)) [
    | inl same ↦ rw (inject (sym (set_line i same) ∙ e)) at r
    | inr other ↦ w i line (sym (keeps_line i other) ∙ e)
  ]
    where
      inject : {a b : Row} → some a ≡ some b → a ≡ b
      inject h = cc

  on_line-set :
      (i q : ℕ)
      → on_line (set m ith (f row).1) i q
        ≡ (if i == ith then installed q (f row).1 else on_line m i q)
  on_line-set i q = elim (Bool-cases (i == ith)) [
    | inl same ↦ rw same (ap (shown q) (set_line i same))
    | inr other ↦ rw other (ap (shown q) (keeps_line i other))
  ]
    where
      shown : ℕ → Option Row → Bool
      shown q o = elim o [ none ↦ false | some line ↦ installed q line ]

  on_row_run : on_row f ith m ≡ some ((f row).0, set m ith (f row).1)
  on_row_run = rw (found, on_row) refl

  on_line_here : (q : ℕ) → on_line m ith q ≡ installed q row
  on_line_here q = rw (found, on_line) refl

-- On a line of the matrix where no handler stands twice, a function that is not NULL is added:
-- ESP_OK is returned exactly if the line has it already or has a free place; then the line has it
-- too, and every other function stands on the lines where it stood; after ESP_FAIL all stand where
-- they stood. No handler stands twice on a line afterwards.
add_handler_lem :
    (ith func : ℕ) (m : Matrix)
    → ith < length m
    → func ≢ 0
    → IsMatrix m
    → (ret : Ret) × (n : Matrix) × (add_handler ith func m ≡ some (ret, n))
      × (is_ok ret ≡ on_line m ith func || on_line m ith 0)
      × ((i q : ℕ)
          → q ≢ 0
          → on_line n i q ≡ on_line m i q || (is_ok ret && ((i == ith) && (q == func))))
      × IsMatrix n
      × (length n ≡ length m)
add_handler_lem ith func m lt h w =
    let (row, found) = get_elem?-some m ith lt in
    let f : Row → Ret × Row = add_to_row func in
    (
      (f row).0,
      set m ith (f row).1,
      on_row_run f ith m row found lt,
      rw (on_line_here f ith m row found lt func)
          (rw (on_line_here f ith m row found lt 0) (add_code func row)),
      (λ i q q0. on_line-set f ith m row found lt i q ∙ elim (Bool-cases (i == ith)) [
        | inl same ↦
            let e : i ≡ ith = ground arith in
            rw same (rw e (rw (on_line_here f ith m row found lt q) (add-installed func q row q0)))
        | inr other ↦ rw other (ground arith)
      ]),
      IsMatrix-set f ith m row found lt (add-row func row h (w ith row found)) w,
      length-set m ith (f row).1,
    )

-- On a line of the matrix where no handler stands twice, a function that is not NULL is removed:
-- ESP_OK is returned exactly if the line has it; afterwards the line has it no more, every other
-- function stands on the lines where it stood, and no handler stands twice on a line.
pub remove_handler_lem :
    (ith func : ℕ) (m : Matrix)
    → ith < length m
    → func ≢ 0
    → IsMatrix m
    → (ret : Ret) × (n : Matrix) × (remove_handler ith func m ≡ some (ret, n))
      × (is_ok ret ≡ on_line m ith func)
      × ((i q : ℕ) → q ≢ 0 → on_line n i q ≡ on_line m i q && not ((i == ith) && (q == func)))
      × IsMatrix n
      × (length n ≡ length m)
remove_handler_lem ith func m lt h w =
    let (row, found) = get_elem?-some m ith lt in
    let f : Row → Ret × Row = remove_from_row func in
    (
      (f row).0,
      set m ith (f row).1,
      on_row_run f ith m row found lt,
      rw (on_line_here f ith m row found lt func) (remove_code func row),
      (λ i q q0. on_line-set f ith m row found lt i q ∙ elim (Bool-cases (i == ith)) [
        | inl same ↦
            let e : i ≡ ith = ground arith in
            rw same (
              rw e (
                rw (on_line_here f ith m row found lt q)
                  (remove-installed func q row q0 (w ith row found))))
        | inr other ↦ rw other (ground arith)
      ]),
      IsMatrix-set f ith m row found lt (remove-row func row (w ith row found)) w,
      length-set m ith (f row).1,
    )
