-- ===== src/Tests/SchemaRuns.antt =====
-- src/model/schema.cpp on concrete columns and rows.
use mo_db.Prelude.{◌≡◌, ◌↔◌, refl, true, false, List, [], ◌∷◌}
use mo_db.Error.{ok, err, duplicate_column, type_mismatch}
use mo_db.Prelude.Int.{pos}
use mo_db.Model.Value.{DataType, Value, Row, is_null, data_type}
use mo_db.Model.Schema.{
  ColumnDefinition, Schema, create, find_column, validate, check_columns, validate_column_name,
  has_name, same_name, check_cells, check_cell, has_type,
}
use mo_db.Model.Schema.Creation.{IsSchema, create_iff}
use mo_db.Model.Schema.Search.{IsFirst, find_column_iff, find_column-create}
use mo_db.Model.Schema.Check.{RowFits, validate_iff}

abbrev id : ColumnDefinition
id = record { name = 105 ∷ 100 ∷ []; type = DataType.integer; nullable = false }

abbrev note : ColumnDefinition
note = record { name = 110 ∷ []; type = DataType.text; nullable = true }

abbrev columns : List ColumnDefinition
columns = id ∷ note ∷ []

abbrev schema : Schema
schema = record { columns = columns }

created : create columns ≡ ok schema
unfolding create check_columns validate_column_name has_name same_name
created = refl

repeated : create (id ∷ note ∷ id ∷ []) ≡ err duplicate_column
unfolding create check_columns validate_column_name has_name same_name
repeated = refl

abbrev row : Row
row = Value.integer (pos 7) ∷ Value.null ∷ []

accepted : validate schema row ≡ ok tt
unfolding validate check_cells check_cell is_null data_type has_type
accepted = refl

swapped : validate schema (Value.text [] ∷ Value.null ∷ []) ≡ err type_mismatch
unfolding validate check_cells check_cell is_null data_type has_type
swapped = refl

create_iff_example : (create columns ≡ ok schema) ↔ ((schema.columns ≡ columns) × IsSchema columns)
create_iff_example = create_iff columns schema

find_column_iff_example : (find_column schema (110 ∷ []) ≡ ok 1) ↔ IsFirst columns (110 ∷ []) 1
find_column_iff_example = find_column_iff schema (110 ∷ []) 1

find_column-create_example : find_column schema (110 ∷ []) ≡ ok 1
find_column-create_example = find_column-create columns schema 1 note created refl

validate_iff_example : (validate schema row ≡ ok tt) ↔ RowFits columns row
validate_iff_example = validate_iff schema row
