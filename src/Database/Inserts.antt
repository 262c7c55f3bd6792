-- ===== src/Database/Inserts.antt =====
-- What a batch insert asks of the database.
use ztelem.Prelude.{Bytes, List, [], ◌∷◌, Option, none, some, ◌≡◌, map, length, All}
use ztelem.Models.Values.{Value}
use mathlib.Core.Option
use ztelem.Database.Tables.{Table, Copy, InsertError, acquire_failed, copy_failed}

module _ {ℓ} {V : Type ℓ} (t : Table V) where
  -- Every row of the copy has one cell for each column of the table.
  abbrev pub Fits : Copy → Type 0
  Fits c =
      (c.into ≡ t.name)
      × (c.copied_columns ≡ t.columns)
      × All (λ (row : List Value). length row ≡ length c.copied_columns) c.rows

  -- The error that a batch insert has to return.
  abbrev pub insert_failure : Option Bytes → (Copy → Option Bytes) → List V → Option InsertError
  insert_failure acquire copy_from [] = none
  insert_failure (some err) copy_from (m ∷ metrics) = some (acquire_failed err)
  insert_failure none copy_from (m ∷ metrics) = Option.map copy_failed (
      copy_from
        (record { into = t.name; copied_columns = t.columns; rows = map t.row (m ∷ metrics) }))
