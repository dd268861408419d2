-- ===== src/Model/Schema.antt =====
-- src/model/schema.cpp: schemas, their creation, the search of a column and the check of a row.
-- The messages of the errors are not modelled.
pub mod Names
pub mod Creation
pub mod Search
pub mod Check
use mo_db.Prelude.{
  ℕ, suc, ◌+◌, Bool, true, false, not, ◌&&◌, ◌||◌, Option, none, some, List, [], ◌∷◌, ltb, ◌==◌,
  if◌then◌else◌, length,
}
use mo_db.Error.{
  Result, ok, err, ◌>>=◌, ◌>>◌, invalid_identifier, empty_schema, too_many_columns,
  duplicate_column, column_not_found, value_count_mismatch, null_constraint_violation,
  type_mismatch,
}
use mo_db.Model.Value.{DataType, same_type, Value, Row, is_null, data_type}

-- include/modb/limits.hpp
abbrev pub max_identifier_bytes : ℕ
max_identifier_bytes = 63

abbrev pub max_columns_per_table : ℕ
max_columns_per_table = 256

pub record ColumnDefinition : Type 0 where
  pub name : List ℕ
  pub type : DataType
  pub nullable : Bool

pub record Schema : Type 0 where
  pub columns : List ColumnDefinition

-- `operator==` of two names.
unfoldable pub same_name : List ℕ → List ℕ → Bool
same_name [] [] = true
same_name (a ∷ as') (b ∷ bs) = a == b && same_name as' bs
same_name _ _ = false

unfoldable pub has_name : List (List ℕ) → List ℕ → Bool
has_name [] name = false
has_name (n ∷ names) name = same_name n name || has_name names name

unfoldable pub validate_column_name : List ℕ → Result (Unit {0})
validate_column_name name =
    if length name == 0 || ltb max_identifier_bytes (length name)
    then err invalid_identifier
    else ok tt

-- The loop of `create`: `names` are the names already visited.
unfoldable pub check_columns : List (List ℕ) → List ColumnDefinition → Result (Unit {0})
check_columns names [] = ok tt
check_columns names (column ∷ rest) = do
  validate_column_name column.name
  let checked = check_columns (column.name ∷ names) rest
  if has_name names column.name then err duplicate_column else checked

unfoldable pub create : List ColumnDefinition → Result Schema
create columns =
    if length columns == 0
    then err empty_schema
    else if ltb max_columns_per_table (length columns)
    then err too_many_columns
    else do check_columns [] columns; ok (record { columns = columns })

find_column_from : ℕ → List ColumnDefinition → List ℕ → Result ℕ
find_column_from index [] name = err column_not_found
find_column_from index (column ∷ rest) name =
    let further = find_column_from (index + 1) rest name in
    if same_name column.name name then ok index else further

unfoldable pub find_column : Schema → List ℕ → Result ℕ
unfolding find_column_from
find_column schema name = find_column_from 0 schema.columns name

unfoldable pub has_type : Option DataType → DataType → Bool
has_type none t = false
has_type (some u) t = same_type u t

unfoldable pub check_cell : ColumnDefinition → Value → Result (Unit {0})
check_cell column value =
    if is_null value
    then (if not column.nullable then err null_constraint_violation else ok tt)
    else (if not (has_type (data_type value) column.type) then err type_mismatch else ok tt)

-- The loop of `validate` over the two lists, which have one length.
unfoldable pub check_cells : List ColumnDefinition → Row → Result (Unit {0})
check_cells (column ∷ columns) (value ∷ values) = do
  check_cell column value
  check_cells columns values
check_cells _ _ = ok tt

unfoldable pub validate : Schema → Row → Result (Unit {0})
validate schema row =
    if not (length row == length schema.columns)
    then err value_count_mismatch
    else check_cells schema.columns row
