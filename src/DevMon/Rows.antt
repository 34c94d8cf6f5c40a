-- ===== src/DevMon/Rows.antt =====
-- A line of the matrix as a set of handlers.
use esp32_common.Common.{
  ℕ, ◌≡◌, ◌≢◌, refl, Bool, true, false, not, ◌&&◌, ◌||◌, [], ◌∷◌, length, ◌==◌, arith, inl, inr,
  Bool-cases,
}
use esp32_common.DevMon.Handlers.{Row, Ret, esp_ok, esp_fail, installed, install, remove_from_row}

-- No handler stands twice in a line.
unfoldable pub is_row : Row → Bool
is_row [] = true
is_row (h ∷ hs) = ((h == 0) || not (installed h hs)) && is_row hs

abbrev pub is_ok : Ret → Bool
is_ok esp_ok = true
is_ok esp_fail = false

pub install_code : (func : ℕ) (row : Row) → is_ok (install func row).0 ≡ installed 0 row
unfolding install installed
install_code func [] = refl
install_code func (h ∷ hs) = ground (arith, install_code func hs)

pub install-installed :
    (func q : ℕ) (row : Row)
    → q ≢ 0
    → installed q (install func row).1
      ≡ (is_ok (install func row).0 && (q == func)) || installed q row
unfolding install installed
install-installed func q [] h = refl
install-installed func q (a ∷ row) h = ground (arith, install-installed func q row h)

pub install-row :
    (func : ℕ) (row : Row)
    → func ≢ 0
    → installed func row ≡ false
    → is_row row ≡ true
    → is_row (install func row).1 ≡ true
unfolding install installed is_row
install-row func [] h fresh r = refl
install-row func (a ∷ row) h fresh r = elim (Bool-cases (a == 0)) [
  | inl free ↦ ground arith
  | inr taken ↦ ground (arith, install-row func row h, install-installed func a row (ground arith))
]

length-install : (func : ℕ) (row : Row) → length (install func row).1 ≡ length row
unfolding install
length-install func [] = refl
length-install func (a ∷ row) = ground (arith, length-install func row)

pub remove_code : (func : ℕ) (row : Row) → is_ok (remove_from_row func row).0 ≡ installed func row
unfolding remove_from_row installed
remove_code func [] = refl
remove_code func (h ∷ hs) = ground (arith, remove_code func hs)

pub remove-installed :
    (func q : ℕ) (row : Row)
    → q ≢ 0
    → is_row row ≡ true
    → installed q (remove_from_row func row).1 ≡ installed q row && not (q == func)
unfolding remove_from_row installed is_row
remove-installed func q [] h r = refl
remove-installed func q (a ∷ row) h r = elim (Bool-cases (a == func)) [
  | inl same ↦ ground arith
  | inr other ↦ ground (arith, remove-installed func q row h)
]

pub remove-row :
    (func : ℕ) (row : Row) → is_row row ≡ true → is_row (remove_from_row func row).1 ≡ true
unfolding remove_from_row installed is_row
remove-row func [] r = refl
remove-row func (a ∷ row) r = elim (Bool-cases (a == 0)) [
  | inl free ↦ ground (arith, remove-row func row)
  | inr taken ↦ ground (arith, remove-row func row, remove-installed func a row (ground arith))
]
