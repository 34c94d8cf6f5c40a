-- ===== src/DevMon/Handlers.antt =====
-- `timer_handler`, `add_handler` and `remove_handler` of utils/dev_mon.c. A function pointer is its
-- address, and NULL is 0.
use esp32_common.Common.{
  ℕ, Bool, true, false, Option, none, some, List, [], ◌∷◌, get_elem?, set, ◌==◌, if◌then◌else◌,
}

abbrev pub max_evt_handlers : ℕ
max_evt_handlers = 10

abbrev pub Row : Type 0
Row = List ℕ

-- The ten lines of the matrix.
abbrev pub Matrix : Type 0
Matrix = List Row

pub data Ret : Type 0 where
  esp_ok esp_fail : Ret

-- The first loop of `add_handler`.
unfoldable pub installed : ℕ → Row → Bool
installed func [] = false
installed func (h ∷ hs) = if h == func then true else installed func hs

-- The second loop of `add_handler`.
unfoldable pub install : ℕ → Row → Ret × Row
install func [] = (esp_fail, [])
install func (h ∷ hs) =
    let rest = install func hs in if h == 0 then (esp_ok, func ∷ hs) else (rest.0, h ∷ rest.1)

unfoldable pub add_to_row : ℕ → Row → Ret × Row
add_to_row func row = if installed func row then (esp_ok, row) else install func row

-- The loop of `remove_handler`.
unfoldable pub remove_from_row : ℕ → Row → Ret × Row
remove_from_row func [] = (esp_fail, [])
remove_from_row func (h ∷ hs) =
    let rest = remove_from_row func hs in
    if h == func then (esp_ok, 0 ∷ hs) else (rest.0, h ∷ rest.1)

-- `none` is an access outside the matrix.
abbrev pub on_row : (Row → Ret × Row) → ℕ → Matrix → Option (Ret × Matrix)
on_row f ith m = elim (get_elem? m ith) [
  | none ↦ none
  | some row ↦ some ((f row).0, set m ith (f row).1)
]

abbrev pub add_handler : ℕ → ℕ → Matrix → Option (Ret × Matrix)
add_handler ith func = on_row (add_to_row func) ith

abbrev pub remove_handler : ℕ → ℕ → Matrix → Option (Ret × Matrix)
remove_handler ith func = on_row (remove_from_row func) ith
