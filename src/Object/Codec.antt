-- ===== src/Object/Codec.antt =====
-- src/object/object_codec.cpp: the encoding of objects.
pub mod ValueTrip
pub mod FieldsTrip
pub mod Distinct
pub mod ObjectTrip
use mo_db.Prelude.{
  ℕ, zero, suc, Bool, true, false, ◌||◌, List, [], ◌∷◌, ◌++◌, ltb, ◌==◌, if◌then◌else◌, not, length,
  ◌-◌, ◌^◌,
}
use mo_db.Error.{Result, ok, err, invalid_encoding, value_too_large, too_many_columns}
use mo_db.Error
use mo_db.Model.Schema.{max_columns_per_table}
use mo_db.Storage.Binary.{
  BinaryWriter, BinaryReader, write_u8, write_u16, write_u32, write_u64, write_bytes, reader,
  remaining_bytes, Read, pure, fail, ◌>>=◌, read_u8, read_u16, read_u32, read_u64, read_bytes,
}
use mo_db.Storage.Codec.{bit_cast_u64, bit_cast_i64, flag, decode_whole}
use mo_db.Object.AttributeValue.{AttributeValue, FieldValues}

abbrev pub object_payload_version : ℕ
object_payload_version = 1

-- The three kinds of bytes differ in their tag.
unfoldable pub encode_sized : BinaryWriter → ℕ → List ℕ → Result BinaryWriter
unfolding write_u8 write_u32 write_bytes
encode_sized w tag data' =
    if ltb (2 ^ 32 - 1) (length data')
    then err value_too_large
    else ok (write_bytes (write_u32 (write_u8 w tag) (length data')) data')

unfoldable pub encode_value : BinaryWriter → AttributeValue → Result BinaryWriter
unfolding write_u8 write_u64 encode_sized
encode_value w AttributeValue.null = ok (write_u8 w 0)
encode_value w (AttributeValue.boolean b) = ok (write_u8 (write_u8 w 1) (flag b))
encode_value w (AttributeValue.int64 z) = ok (write_u64 (write_u8 w 2) (bit_cast_u64 z))
encode_value w (AttributeValue.float64 bits) = ok (write_u64 (write_u8 w 3) bits)
encode_value w (AttributeValue.string text) = encode_sized w 4 text
encode_value w (AttributeValue.bytes data') = encode_sized w 5 data'
encode_value w (AttributeValue.ref id) = ok (write_u64 (write_u8 w 6) id)
encode_value w (AttributeValue.blob id) = ok (write_u64 (write_u8 w 7) id)
encode_value w (AttributeValue.embedded payload) = encode_sized w 8 payload

unfoldable pub decode_boolean : Read AttributeValue
decode_boolean = do
  raw ← read_u8
  if ltb 1 raw then fail invalid_encoding else pure (AttributeValue.boolean (not (raw == 0)))

unfoldable pub decode_word : (ℕ → AttributeValue) → Read AttributeValue
decode_word value = do raw ← read_u64; pure (value raw)

unfoldable pub decode_sized : (List ℕ → AttributeValue) → Read AttributeValue
decode_sized value = do size ← read_u32; data' ← read_bytes size; pure (value data')

-- The `switch` over the tag.
unfoldable pub decode_content : ℕ → Read AttributeValue
unfolding decode_boolean decode_word decode_sized
decode_content tag =
    if tag == 0
    then pure AttributeValue.null
    else if tag == 1
    then decode_boolean
    else if tag == 2
    then decode_word (λ raw. AttributeValue.int64 (bit_cast_i64 raw))
    else if tag == 3
    then decode_word AttributeValue.float64
    else if tag == 4
    then decode_sized AttributeValue.string
    else if tag == 5
    then decode_sized AttributeValue.bytes
    else if tag == 6
    then decode_word AttributeValue.ref
    else if tag == 7
    then decode_word AttributeValue.blob
    else if tag == 8
    then decode_sized AttributeValue.embedded
    else fail invalid_encoding

unfoldable pub decode_value : Read AttributeValue
unfolding decode_content
decode_value = do tag ← read_u8; decode_content tag

unfoldable pub encode_fields : BinaryWriter → FieldValues → Result BinaryWriter
unfolding encode_value write_u16
encode_fields w [] = ok w
encode_fields w ((id, value) ∷ fields) =
    Error.◌>>=◌ (encode_value (write_u16 w id) value) (λ w'. encode_fields w' fields)

unfoldable pub encode_object_payload : FieldValues → Result (List ℕ)
unfolding encode_fields write_u8 write_u16
encode_object_payload fields =
    if ltb max_columns_per_table (length fields)
    then err too_many_columns
    else encode_fields (write_u16 (write_u8 [] object_payload_version) (length fields)) fields

unfoldable pub has_field : FieldValues → ℕ → Bool
has_field [] id = false
has_field (field ∷ fields) id = (field.0 == id) || has_field fields id

-- The loop over the declared count; `fields` are those read so far.
unfoldable pub decode_fields : ℕ → FieldValues → Read FieldValues
unfolding has_field
decode_fields zero fields = pure fields
decode_fields (suc n) fields = do
  id ← read_u16
  if has_field fields id
      then fail invalid_encoding
      else (do value ← decode_value; decode_fields n (fields ++ (id, value) ∷ []))

unfoldable pub decode_counted : Read FieldValues
unfolding decode_fields
decode_counted = do
  count ← read_u16
  if ltb max_columns_per_table count then fail too_many_columns else decode_fields count []

unfoldable pub decode_payload_body : Read FieldValues
unfolding decode_counted
decode_payload_body = do
  version ← read_u8
  if not (version == object_payload_version) then fail invalid_encoding else decode_counted

unfoldable pub decode_object_payload : List ℕ → Result FieldValues
decode_object_payload payload = decode_whole decode_payload_body payload

pub record DecodedObject : Type 0 where
  pub id : ℕ
  pub type : ℕ
  pub fields : FieldValues

unfoldable pub encode_object : ℕ → ℕ → FieldValues → Result (List ℕ)
unfolding encode_object_payload write_u64 write_bytes
encode_object id type fields =
    Error.◌>>=◌ (encode_object_payload fields)
      (λ payload. ok (write_bytes (write_u64 (write_u64 [] id) type) payload))

-- The two words in front of the payload.
unfoldable pub decode_ids : Read (ℕ × ℕ)
decode_ids = do id ← read_u64; type ← read_u64; pure (id, type)

unfoldable pub decode_object : List ℕ → Result DecodedObject
unfolding decode_ids decode_object_payload remaining_bytes
decode_object bytes = Error.◌>>=◌ (decode_ids (reader bytes)) (λ ((id, type), r).
    Error.◌>>=◌ (decode_object_payload (remaining_bytes r))
      (λ fields. ok (record { id = id; type = type; fields = fields })))

unfoldable pub decode_object_header : List ℕ → Result (ℕ × ℕ)
unfolding decode_ids
decode_object_header bytes = Error.◌>>=◌ (decode_ids (reader bytes)) (λ (ids, r). ok ids)
