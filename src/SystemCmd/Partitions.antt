-- ===== src/SystemCmd/Partitions.antt =====
-- `boot_from` of cmds/cmd_system.c: it lists the partitions that an image can be started from, and
-- selects the one for the next start.
use esp32_common.Common.{
  ℕ, suc, ◌≡◌, refl, sym, ◌∙◌, Bool, true, Option, none, some, List, [], ◌∷◌, ◌++◌, ◌==◌,
  if◌then◌else◌, arith, Bool-cases, inl, inr,
}
use esp32_common.Common.Memory.{Bytes, same}
use esp32_common.Ota.Task.{Partition, get_updateable_partition}

pub data Line : Type 0 where
  listed : Partition → Bool → Bool → Line  -- the marks are boot and running
  boot_set : Partition → Line
  not_set : Partition → Line
  not_found : Bytes → Line

-- The partition found so far, after one of them.
unfoldable pub found_part : Option Bytes → Partition → Option Partition → Option Partition
found_part none p found = found
found_part (some name) p found = if same p.label name then some p else found

-- The loop over the partitions, with the addresses of the one that runs and the one to start from.
unfoldable pub list_parts :
    Option Bytes → ℕ → ℕ → List Partition → Option Partition → Option Partition × List Line
list_parts name running bootp [] found = (found, [])
list_parts name running bootp (p ∷ ps) found =
    let rest = list_parts name running bootp ps (found_part name p found) in
    (rest.0, listed p (p.address == bootp) (p.address == running) ∷ rest.1)

-- `sets` is whether `esp_ota_set_boot_partition` accepts a partition.
unfoldable pub select_part :
    (Partition → Bool) → Option Bytes → Option Partition → ℕ → ℕ × List Line
select_part sets none found bootp = (bootp, [])
select_part sets (some name) none bootp = (bootp, not_found name ∷ [])
select_part sets (some name) (some p) bootp =
    if sets p then (p.address, boot_set p ∷ []) else (bootp, not_set p ∷ [])

-- The partition to start from afterwards, by its address, and the lines printed.
unfoldable pub boot_from :
    (Partition → Bool) → ℕ → List Partition → Option Bytes → ℕ → ℕ × List Line
boot_from sets running parts name bootp =
    let r = list_parts name running bootp parts none in
    let s = select_part sets name r.0 bootp in (s.0, r.1 ++ s.1)

-- How many partitions have a label.
abbrev pub with_label : Bytes → List Partition → ℕ
with_label name [] = 0
with_label name (p ∷ ps) =
    if same p.label name then suc (with_label name ps) else with_label name ps

updateable-none :
    (name : Bytes) (running : ℕ) (ps : List Partition)
    → with_label name ps ≡ 0
    → get_updateable_partition name running ps ≡ none
unfolding get_updateable_partition
updateable-none name running [] e = refl
updateable-none name running (p ∷ ps) e = elim (Bool-cases (same p.label name)) [
  | inl is ↦ absurd (let q = rw is at e in ground arith)
  | inr other ↦ rw other (updateable-none name running ps (rw other at e))
]

list_parts-none :
    (name : Bytes) (running bootp : ℕ) (ps : List Partition) (found : Option Partition)
    → with_label name ps ≡ 0
    → (list_parts (some name) running bootp ps found).0 ≡ found
unfolding list_parts found_part
list_parts-none name running bootp [] found e = refl
list_parts-none name running bootp (p ∷ ps) found e = elim (Bool-cases (same p.label name)) [
  | inl is ↦ absurd (let q = rw is at e in ground arith)
  | inr other ↦ rw other (list_parts-none name running bootp ps found (rw other at e))
]

some-injective : {p q : Partition} → some p ≡ some q → p ≡ q
some-injective e = cc

list_parts-updateable :
    (name : Bytes) (running bootp : ℕ) (ps : List Partition) (found : Option Partition)
    (p : Partition)
    → with_label name ps ≡ 1
    → get_updateable_partition name running ps ≡ some p
    → (list_parts (some name) running bootp ps found).0 ≡ some p
unfolding list_parts found_part get_updateable_partition
list_parts-updateable name running bootp [] found p one e = absurd (let q = one in ground arith)
list_parts-updateable name running bootp (q ∷ ps) found p one e =
    elim (Bool-cases (same q.label name)) [
      | inl is ↦
          let rest : with_label name ps ≡ 0 = let z = rw is at one in ground arith in
          rw is (elim (Bool-cases (q.address == running)) [
            | inl runs ↦
                let none-some : none ≡ some p =
                  sym (updateable-none name running ps rest) ∙ (rw runs at (rw is at e)) in
                absurd (let z = none-some in cc)
            | inr free ↦
                list_parts-none name running bootp ps (some q) rest ∙ (rw free at (rw is at e))
          ])
      | inr other ↦
          rw other
            (list_parts-updateable name running bootp ps found p (rw other at one) (rw other at e))
    ]

-- Where a single partition has the label: the one that an update with the label goes to is the one
-- that the command with the label makes the next to start from, if `esp_ota_set_boot_partition`
-- accepts it.
pub boot_from-updateable :
    (sets : Partition → Bool) (name : Bytes) (running bootp : ℕ) (ps : List Partition)
    (p : Partition)
    → with_label name ps ≡ 1
    → get_updateable_partition name running ps ≡ some p
    → sets p ≡ true
    → boot_from sets running ps (some name) bootp
      ≡ (p.address, (list_parts (some name) running bootp ps none).1 ++ (boot_set p ∷ []))
unfolding boot_from select_part
boot_from-updateable sets name running bootp ps p one e ok =
    rw (list_parts-updateable name running bootp ps none p one e) (rw ok)
