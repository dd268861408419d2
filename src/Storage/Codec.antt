-- ===== src/Storage/Codec.antt =====
-- src/storage/codec.cpp: the encoding of values, rows and schemas.
pub mod Finish
pub mod ValueTrip
pub mod RowTrip
pub mod SchemaTrip
use mo_db.Prelude.{
  ℕ, zero, suc, ◌-◌, ◌%◌, ◌^◌, Bool, not, List, [], ◌∷◌, ltb, ◌==◌, if◌then◌else◌, length,
}
use mo_db.Prelude.Int.{ℤ, pos, negsuc}
use mo_db.Error.{
  Result, ok, err, invalid_encoding, trailing_data, value_too_large, too_many_columns,
}
use mo_db.Error
use mo_db.Model.Value.{DataType, Value, Row}
use mo_db.Model.Schema.{max_columns_per_table, ColumnDefinition, Schema, create}
use mo_db.Storage.Binary.{
  BinaryWriter, BinaryReader, write_u8, write_u16, write_u32, write_u64, write_bytes, reader,
  at_end, Read, pure, fail, ◌>>=◌, read_u8, read_u16, read_u32, read_u64, read_bytes,
}

-- `std::bit_cast` between int64_t and uint64_t: two's complement.
abbrev pub bit_cast_u64 : ℤ → ℕ
bit_cast_u64 (pos n) = n
bit_cast_u64 (negsuc n) = 2 ^ 64 - 1 - n

abbrev pub bit_cast_i64 : ℕ → ℤ
bit_cast_i64 w = if ltb w (2 ^ 63) then pos w else negsuc (2 ^ 64 - 1 - w)

abbrev pub flag : Bool → ℕ
flag b = if b then 1 else 0

unfoldable pub encode_data_type : DataType → ℕ
encode_data_type DataType.boolean = 1
encode_data_type DataType.integer = 2
encode_data_type DataType.real = 3
encode_data_type DataType.text = 4

unfoldable pub decode_data_type : ℕ → Result DataType
decode_data_type tag =
    if tag == 1
    then ok DataType.boolean
    else if tag == 2
    then ok DataType.integer
    else if tag == 3
    then ok DataType.real
    else if tag == 4
    then ok DataType.text
    else err invalid_encoding

unfoldable pub encode_value_to : BinaryWriter → Value → Result BinaryWriter
unfolding write_u8 write_u32 write_u64 write_bytes
encode_value_to w Value.null = ok (write_u8 w 0)
encode_value_to w (Value.boolean b) = ok (write_u8 (write_u8 w 1) (flag b))
encode_value_to w (Value.integer z) = ok (write_u64 (write_u8 w 2) (bit_cast_u64 z))
encode_value_to w (Value.real bits) = ok (write_u64 (write_u8 w 3) bits)
encode_value_to w (Value.text bytes) =
    if ltb (2 ^ 32 - 1) (length bytes)
    then err value_too_large
    else ok (write_bytes (write_u32 (write_u8 w 4) (length bytes)) bytes)

unfoldable pub decode_boolean : Read Value
decode_boolean = do
  boolean ← read_u8
  if ltb 1 boolean then fail invalid_encoding else pure (Value.boolean (boolean == 1))

unfoldable pub decode_text : Read Value
decode_text = do size ← read_u32; text ← read_bytes size; pure (Value.text text)

-- The `switch` over the tag.
unfoldable pub decode_payload : ℕ → Read Value
decode_payload tag =
    if tag == 0
    then pure Value.null
    else if tag == 1
    then decode_boolean
    else if tag == 2
    then (do integer ← read_u64; pure (Value.integer (bit_cast_i64 integer)))
    else if tag == 3
    then (do real ← read_u64; pure (Value.real real))
    else if tag == 4
    then decode_text
    else fail invalid_encoding

unfoldable pub decode_value_from : Read Value
unfolding decode_payload
decode_value_from = do tag ← read_u8; decode_payload tag

unfoldable pub require_end : BinaryReader → Result (Unit {0})
unfolding at_end
require_end r = if not (at_end r) then err trailing_data else ok tt

-- The end of a decoder of a whole input: the error of the body, or nothing may be left.
unfoldable pub accept {ℓ} : {A : Type ℓ} → Result (A × BinaryReader) → Result A
unfolding require_end
accept (ok (a, r)) = Error.◌>>◌ (require_end r) (ok a)
accept (err e) = err e

unfoldable pub decode_whole {ℓ} : {A : Type ℓ} → Read A → List ℕ → Result A
unfolding accept
decode_whole body bytes = accept (body (reader bytes))

unfoldable pub encode_value : Value → Result (List ℕ)
unfolding encode_value_to
encode_value value = encode_value_to [] value

unfoldable pub decode_value : List ℕ → Result Value
decode_value bytes = decode_whole decode_value_from bytes

unfoldable pub encode_values : BinaryWriter → Row → Result BinaryWriter
unfolding encode_value_to
encode_values w [] = ok w
encode_values w (value ∷ values) =
    Error.◌>>=◌ (encode_value_to w value) (λ w'. encode_values w' values)

unfoldable pub encode_row : Row → Result (List ℕ)
unfolding encode_values write_u16
encode_row row =
    if ltb max_columns_per_table (length row)
    then err too_many_columns
    else encode_values (write_u16 [] (length row)) row

-- The loop over the declared count.
unfoldable pub decode_values : ℕ → Read Row
decode_values zero = pure []
decode_values (suc n) = do
  value ← decode_value_from
  values ← decode_values n
  pure (value ∷ values)

unfoldable pub decode_row_body : Read Row
decode_row_body = do
  count ← read_u16
  if ltb max_columns_per_table count then fail too_many_columns else decode_values count

unfoldable pub decode_row : List ℕ → Result Row
decode_row bytes = decode_whole decode_row_body bytes

-- The size is cast to uint8_t.
abbrev pub encode_column : BinaryWriter → ColumnDefinition → BinaryWriter
encode_column w column =
    write_u8
      (write_u8 (write_bytes (write_u8 w (length column.name % 256)) column.name)
        (encode_data_type column.type))
      (flag column.nullable)

unfoldable pub encode_columns : BinaryWriter → List ColumnDefinition → BinaryWriter
encode_columns w [] = w
encode_columns w (column ∷ columns) = encode_columns (encode_column w column) columns

unfoldable pub encode_schema : Schema → Result (List ℕ)
encode_schema schema =
    if ltb max_columns_per_table (length schema.columns)
    then err too_many_columns
    else ok (encode_columns (write_u16 [] (length schema.columns)) schema.columns)

unfoldable pub lift {ℓ} : {A : Type ℓ} → Result A → Read A
lift (ok a) = pure a
lift (err e) = fail e

unfoldable pub decode_column : Read ColumnDefinition
unfolding lift
decode_column = do
  name_size ← read_u8
  name ← read_bytes name_size
  encoded_type ← read_u8
  type ← lift (decode_data_type encoded_type)
  nullable ← read_u8
  if ltb 1 nullable
      then fail invalid_encoding
      else pure (record { name = name; type = type; nullable = nullable == 1 })

unfoldable pub decode_columns : ℕ → Read (List ColumnDefinition)
decode_columns zero = pure []
decode_columns (suc n) = do
  column ← decode_column
  columns ← decode_columns n
  pure (column ∷ columns)

unfoldable pub decode_schema_body : Read (List ColumnDefinition)
decode_schema_body = do
  count ← read_u16
  if ltb max_columns_per_table count then fail too_many_columns else decode_columns count

unfoldable pub decode_schema : List ℕ → Result Schema
decode_schema bytes = Error.◌>>=◌ (decode_whole decode_schema_body bytes) create
