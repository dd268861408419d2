-- ===== src/Tests/ObjectRuns.antt =====
-- Runs of src/object/object_codec.cpp and src/object/type_definition.cpp on a type with one attribute.
use mo_db.Prelude.{ℕ, ◌^◌, ◌<◌, ◌≡◌, ◌↔◌, refl, arith, false, none, List, [], ◌∷◌, All}
use mo_db.Prelude.Int.{pos}
use mo_db.Error.{ok, err, duplicate_field, field_not_found}
use mo_db.Storage.Endian.{IsBytes, store_le, load_le, load_le_loop}
use mo_db.Storage.Binary.{read_u8, read_u16, read_u64, read_bytes, at_end, remaining_bytes}
use mo_db.Storage.Codec.{decode_whole}
use mo_db.Object.AttributeValue.{AttributeValue, AttributeType, FieldValues, tag_of, type_of}
use mo_db.Object.Codec.{
  encode_object, decode_object, decode_object_header, decode_ids, decode_payload_body, decode_value,
}
use mo_db.Object.Codec.FieldsTrip.{IsField}
use mo_db.Object.Codec.Distinct.{IsDistinct}
use mo_db.Object.Codec.ObjectTrip.{decode_object-encode_object, encode_object-decode_object}
use mo_db.Object.TypeDefinition.{
  AttributeDefinition, TypeDefinition, create, check_attributes, validate_object, check_fields,
  check_missing,
}
use mo_db.Object.TypeDefinition.Check.{
  IsAccepted, IsComplete, validate_object_iff, decode_object-validate_object,
}

abbrev attribute : AttributeDefinition
attribute = record {
  id = 1;
  name = 97 ∷ [];
  type = AttributeType.int64;
  nullable = false;
  default_value = none;
  is_collection = false;
  is_embedded = false;
  is_owned = false;
}

abbrev type : TypeDefinition
type = record { id = 0; name = 84 ∷ []; attributes = attribute ∷ [] }

abbrev fields : FieldValues
fields = (1, AttributeValue.int64 (pos 5)) ∷ []

abbrev stored : List ℕ
stored =
    7 ∷ 0 ∷ 0 ∷ 0 ∷ 0 ∷ 0 ∷ 0 ∷ 0 ∷ 3 ∷ 0 ∷ 0 ∷ 0 ∷ 0 ∷ 0 ∷ 0 ∷ 0 ∷ 1 ∷ 1 ∷ 0 ∷ 1 ∷ 0 ∷ 2 ∷ 5 ∷ 0
    ∷ 0 ∷ 0 ∷ 0 ∷ 0 ∷ 0 ∷ 0 ∷ []

created : create (84 ∷ []) (attribute ∷ []) ≡ ok type
unfolding create check_attributes
created = refl

accepted : validate_object type fields ≡ ok tt
unfolding validate_object check_fields check_missing tag_of type_of
accepted = refl

repeated : validate_object type ((1, AttributeValue.int64 (pos 5)) ∷ fields) ≡ err duplicate_field
unfolding validate_object check_fields check_missing tag_of type_of
repeated = refl

unknown : validate_object type ((2, AttributeValue.null) ∷ []) ≡ err field_not_found
unfolding validate_object check_fields check_missing tag_of type_of
unknown = refl

encoded : encode_object 7 3 fields ≡ ok stored
unfolding encode_object store_le
encoded = refl

decoded : decode_object stored ≡ ok (record { id = 7; type = 3; fields = fields })
unfolding decode_object decode_ids decode_payload_body read_u8 read_u16 read_u64 read_bytes at_end
    remaining_bytes load_le_loop decode_value decode_whole load_le
decoded = refl

fields-IsDistinct : IsDistinct fields
fields-IsDistinct = (tt, tt)

decode_object-encode_object_example :
    (decode_object stored ≡ ok (record { id = 7; type = 3; fields = fields }))
    × (decode_object_header stored ≡ ok (7, 3))
decode_object-encode_object_example =
    decode_object-encode_object 7 3 fields stored (omega arith) (omega arith)
      ((omega arith, omega arith), tt) fields-IsDistinct encoded

stored-IsBytes : IsBytes stored
stored-IsBytes = ground arith

encode_object-decode_object_example :
    (encode_object 7 3 fields ≡ ok stored)
    × (decode_object_header stored ≡ ok (7, 3))
    × (7 < 2 ^ 64)
    × (3 < 2 ^ 64)
    × All IsField fields
    × IsDistinct fields
encode_object-decode_object_example =
    encode_object-decode_object stored (record { id = 7; type = 3; fields = fields }) stored-IsBytes
      decoded

validate_object_iff_example : (validate_object type fields ≡ ok tt) ↔ (
    All (IsAccepted (attribute ∷ [])) fields
    × IsDistinct fields
    × All (IsComplete fields) (attribute ∷ []))
validate_object_iff_example = validate_object_iff (84 ∷ []) (attribute ∷ []) type fields created

decode_object-validate_object_example :
    decode_object stored ≡ ok (record { id = 7; type = 3; fields = fields })
decode_object-validate_object_example =
    decode_object-validate_object (84 ∷ []) (attribute ∷ []) type 7 3 fields stored created accepted
      (omega arith) (omega arith) ((omega arith, omega arith), tt) encoded
