-- ===== src/Tests/CodecRuns.antt =====
-- src/storage/endian.hpp and src/storage/codec.cpp on concrete words, values, rows and schemas.
use mo_db.Prelude.{ℕ, ◌≤◌, ◌≡◌, ◌↔◌, refl, arith, true, List, [], ◌∷◌, length, All}
use mo_db.Prelude.Int.{negsuc}
use mo_db.Error.{ok, err, invalid_encoding, trailing_data, unexpected_end_of_input}
use mo_db.Model.Value.{DataType, Value, Row, IsValue}
use mo_db.Model.Schema.{
  ColumnDefinition, Schema, create, check_columns, validate_column_name, has_name,
  max_columns_per_table,
}
use mo_db.Model.Schema.Creation.{IsSchema}
use mo_db.Storage.Endian.{IsWord, store_le, load_le, load_le_loop}
use mo_db.Storage.Endian.Laws.{load_le-store_le, store_le-load_le}
use mo_db.Storage.Binary.{
  read_u8, read_u16, read_u32, read_u64, read_bytes, at_end, write_u8, write_u16, write_u32,
  write_u64, write_bytes,
}
use mo_db.Storage.Codec.{
  encode_value, decode_value, encode_row, decode_row, encode_schema, decode_schema, decode_whole,
  decode_row_body, decode_values, decode_value_from, decode_payload, decode_boolean, decode_text,
  decode_schema_body, decode_columns, decode_column, lift, decode_data_type,
}
use mo_db.Storage.Codec.ValueTrip.{decode_value-encode_value, encode_value-decode_value, IsStorable}
use mo_db.Storage.Codec.RowTrip.{
  row_bytes, encode_row_iff, decode_row-encode_row, encode_row-decode_row,
}
use mo_db.Storage.Codec.SchemaTrip.{decode_schema-encode_schema, encode_schema-decode_schema}

load_le-store_le_example : load_le 4 (store_le 4 0xdeadbeef) ≡ 0xdeadbeef
load_le-store_le_example = load_le-store_le 4 0xdeadbeef (omega arith)

store_le-load_le_example :
    (store_le 2 (load_le 2 (0x34 ∷ 0x12 ∷ [])) ≡ 0x34 ∷ 0x12 ∷ [])
    × IsWord 2 (load_le 2 (0x34 ∷ 0x12 ∷ []))
store_le-load_le_example = store_le-load_le 2 (0x34 ∷ 0x12 ∷ []) (omega arith) refl

abbrev minus_two : Value
minus_two = Value.integer (negsuc 1)

abbrev minus_two_bytes : List ℕ
minus_two_bytes = 2 ∷ 254 ∷ 255 ∷ 255 ∷ 255 ∷ 255 ∷ 255 ∷ 255 ∷ 255 ∷ []

minus_two_encoded : encode_value minus_two ≡ ok minus_two_bytes
unfolding encode_value write_u8 write_u64 store_le
minus_two_encoded = refl

minus_two_decoded : decode_value minus_two_bytes ≡ ok minus_two
unfolding decode_value decode_whole decode_value_from decode_payload read_u8 read_u64 read_bytes
    load_le load_le_loop at_end
minus_two_decoded = refl

-- A boolean of 2 is refused, and so is a byte behind the value.
boolean_two : decode_value (1 ∷ 2 ∷ []) ≡ err invalid_encoding
unfolding decode_value decode_whole decode_value_from decode_payload decode_boolean read_u8
    read_bytes
boolean_two = refl

null_and_more : decode_value (0 ∷ 0 ∷ []) ≡ err trailing_data
unfolding decode_value decode_whole decode_value_from decode_payload read_u8 read_bytes at_end
null_and_more = refl

text_cut : decode_value (4 ∷ 2 ∷ 0 ∷ 0 ∷ 0 ∷ 97 ∷ []) ≡ err unexpected_end_of_input
unfolding decode_value decode_whole decode_value_from decode_payload decode_text read_u8 read_u32
    read_bytes load_le load_le_loop
text_cut = refl

decode_value-encode_value_example : decode_value minus_two_bytes ≡ ok minus_two
decode_value-encode_value_example =
    decode_value-encode_value minus_two minus_two_bytes (omega arith) minus_two_encoded

encode_value-decode_value_example :
    (encode_value minus_two ≡ ok minus_two_bytes) × IsValue minus_two
encode_value-decode_value_example =
    encode_value-decode_value minus_two_bytes minus_two (omega arith) minus_two_decoded

abbrev sample : Row
sample = Value.boolean true ∷ Value.null ∷ Value.text (97 ∷ 98 ∷ []) ∷ []

abbrev sample_bytes : List ℕ
sample_bytes = 3 ∷ 0 ∷ 1 ∷ 1 ∷ 0 ∷ 4 ∷ 2 ∷ 0 ∷ 0 ∷ 0 ∷ 97 ∷ 98 ∷ []

sample_encoded : encode_row sample ≡ ok sample_bytes
unfolding encode_row write_u8 write_u16 write_u32 write_bytes store_le
sample_encoded = refl

sample_decoded : decode_row sample_bytes ≡ ok sample
unfolding decode_row decode_whole decode_row_body decode_values decode_value_from decode_payload
    decode_boolean decode_text read_u8 read_u16 read_u32 read_bytes load_le load_le_loop at_end
sample_decoded = refl

encode_row_iff_example : (encode_row sample ≡ ok sample_bytes) ↔ (
    (length sample ≤ max_columns_per_table)
    × All IsStorable sample
    × (row_bytes sample ≡ sample_bytes))
encode_row_iff_example = encode_row_iff sample sample_bytes

decode_row-encode_row_example : decode_row sample_bytes ≡ ok sample
decode_row-encode_row_example =
    decode_row-encode_row sample sample_bytes (omega arith) sample_encoded

encode_row-decode_row_example :
    (encode_row sample ≡ ok sample_bytes)
    × (length sample ≤ max_columns_per_table)
    × All IsValue sample
encode_row-decode_row_example =
    encode_row-decode_row sample_bytes sample (omega arith) sample_decoded

-- One nullable column `a` of texts.
abbrev columns : List ColumnDefinition
columns = record { name = 97 ∷ []; type = DataType.text; nullable = true } ∷ []

abbrev schema : Schema
schema = record { columns = columns }

abbrev schema_stored : List ℕ
schema_stored = 1 ∷ 0 ∷ 1 ∷ 97 ∷ 4 ∷ 1 ∷ []

schema_created : create columns ≡ ok schema
unfolding create check_columns validate_column_name has_name
schema_created = refl

schema_decoded : decode_schema schema_stored ≡ ok schema
unfolding decode_schema decode_whole decode_schema_body decode_columns decode_column lift
    decode_data_type read_u8 read_u16 read_bytes load_le load_le_loop at_end create check_columns
    validate_column_name has_name
schema_decoded = refl

decode_schema-encode_schema_example :
    (bs : List ℕ) × (encode_schema schema ≡ ok bs) × (decode_schema bs ≡ ok schema)
decode_schema-encode_schema_example = decode_schema-encode_schema columns schema schema_created

encode_schema-decode_schema_example :
    (encode_schema schema ≡ ok schema_stored) × IsSchema schema.columns
encode_schema-decode_schema_example =
    encode_schema-decode_schema schema_stored schema (omega arith) schema_decoded
