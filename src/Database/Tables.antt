-- ===== src/Database/Tables.antt =====
-- The batch inserts of internal/database/database.go. The five methods differ in the table, its columns
-- and the row of a record, which are a `Table`.
use ztelem.Prelude.{Bytes, List, [], ◌∷◌, Option, none, some, map}
use ztelem.Models.Values.{Value}

-- `name` is the `pgx.Identifier`, `row` the body of the loop that makes the rows.
pub record Table {ℓ} (V : Type ℓ) : Type ℓ where
  pub name : List Bytes
  pub columns : List Bytes
  pub row : V → List Value

-- One call of `CopyFrom`.
pub record Copy : Type 0 where
  pub into : List Bytes
  pub copied_columns : List Bytes
  pub rows : List (List Value)

pub data InsertError : Type 0 where
  acquire_failed : Bytes → InsertError
  copy_failed : Bytes → InsertError

-- What a call returns, and the copies that it asks for.
pub record Inserted : Type 0 where
  pub error : Option InsertError
  pub copies : List Copy

unfoldable pub copy_error : Option Bytes → Option InsertError
copy_error none = none
copy_error (some err) = some (copy_failed err)

-- `acquire` is the error of `pool.Acquire`, `copy_from` that of `CopyFrom`: the pool and the
-- connection are not part of the repository.
unfoldable pub batch_insert {ℓ} :
    {V : Type ℓ} → Table V → Option Bytes → (Copy → Option Bytes) → List V → Inserted
unfolding copy_error
batch_insert t acquire copy_from [] = record { error = none; copies = [] }
batch_insert t (some err) copy_from (m ∷ metrics) = record {
  error = some (acquire_failed err);
  copies = [];
}
batch_insert t none copy_from (m ∷ metrics) =
    let copy : Copy = record {
      into = t.name;
      copied_columns = t.columns;
      rows = map t.row (m ∷ metrics);
    } in
    record { error = copy_error (copy_from copy); copies = copy ∷ [] }
