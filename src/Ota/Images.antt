-- ===== src/Ota/Images.antt =====
-- What an update that succeeds has written, and where.
use esp32_common.Common.{ℕ, ◌≡◌, true, Option, none, some, List, [], ◌∷◌, ◌++◌}
use esp32_common.Ota.Task.{Partition, finished, Env, Call, esp_ok, fits}
use esp32_common.Ota.Flash.{received, written, begun}

-- The calls of an update that succeeds: it is begun once, for this partition, and writes the bytes of
-- all reads.
pub record IsImage (env : Env) (p : Partition) (calls : List Call) : Type 0 where
  pub reads : ℕ
  pub begun_once : begun calls ≡ (p, env.image_size) ∷ []
  pub all : written calls ≡ received env.read 0 reads
  pub ends : env.read reads ≡ finished
  pub is_closed : env.is_complete ≡ true
  pub is_ended : env.end_err ≡ 0
  pub is_fit : fits env.image_size p.size ≡ true

value : Option ℕ → ℕ
value none = 0
value (some n) = n

-- A part of the task that has written an image, if it succeeds.
abbrev Writes : Env → Partition → List Call × Option ℕ → Type 0
Writes env p r = r.1 ≡ some esp_ok → IsImage env p r.0

-- A call that writes nothing, behind a part that returns.
abbrev ends_with : Call → List Call × Option ℕ → List Call
ends_with c r = r.0 ++ elim r.1 [ none ↦ [] | some ret ↦ c ∷ [] ]
