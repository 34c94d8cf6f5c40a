-- ===== src/Ota/Selected.antt =====
-- Which partition `get_updateable_partition` of utils/ota.c finds.
use mathlib.Core.Logic.{◌⊎◌}
use esp32_common.Common.{
  ℕ, ◌≡◌, ◌≢◌, refl, ap, Bool, true, false, not, ◌&&◌, none, some, List, [], ◌∷◌, ◌++◌, ◌==◌, arith,
  inl, inr, Bool-cases,
}
use esp32_common.Common.Memory.{Bytes, same}
use esp32_common.Ota.Task.{Partition, get_updateable_partition}

-- The partition that is found is one of the list, has the name asked for, and is not the one that runs.
pub record Found (pname : Bytes) (running : ℕ) (ps : List Partition) (p : Partition) : Type 0 where
  pub before : List Partition
  pub behind : List Partition
  pub of_list : ps ≡ before ++ (p ∷ behind)
  pub named : same p.label pname ≡ true
  pub other : p.address ≢ running

pub get_updateable-Found :
    (pname : Bytes) (running : ℕ) (ps : List Partition)
    → (get_updateable_partition pname running ps ≡ none)
      ⊎ ((p : Partition) × (get_updateable_partition pname running ps ≡ some p)
          × Found pname running ps p)
unfolding get_updateable_partition
get_updateable-Found pname running [] = inl refl
get_updateable-Found pname running (p ∷ ps) =
    elim (Bool-cases (same p.label pname && not (p.address == running))) [
      | inl found ↦ inr (
        p,
        rw found refl,
        record {
          before = [];
          behind = ps;
          of_list = refl;
          named = both (same p.label pname) (not (p.address == running)) found;
          other = λ e. other (p.address == running) (same p.label pname) found (ground arith);
        },
      )
      | inr not_found ↦ elim (get_updateable-Found pname running ps) [
        | inl e ↦ inl (rw not_found e)
        | inr (q, e, f) ↦ inr (
          q,
          rw not_found e,
          record {
            before = p ∷ f.before;
            behind = f.behind;
            of_list = ap (λ (t : List Partition). p ∷ t) f.of_list;
            named = f.named;
            other = f.other;
          },
        )
      ]
    ]
  where
    both : (a b : Bool) → a && b ≡ true → a ≡ true
    both true b h = refl
    both false b h = cc

    other : (a b : Bool) → b && not a ≡ true → a ≢ true
    other true true h = λ e. cc
    other true false h = λ e. cc
    other false b h = λ e. cc
