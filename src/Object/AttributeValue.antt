-- ===== src/Object/AttributeValue.antt =====
-- src/object/attribute_value.cpp and src/object/type_definition.hpp: what an attribute can hold. A
-- string is the list of its bytes, a double its 64 bits; the identifiers are words.
use mo_db.Prelude.{ℕ, ◌^◌, ◌<◌, Bool, true, false, List}
use mo_db.Prelude.Int.{ℤ}
use mo_db.Error.{Result, ok, err, type_mismatch}
use mo_db.Model.Value.{IsInt64}
use mo_db.Storage.Endian.{IsBytes}

pub data AttributeType : Type 0 where
  null boolean int64 float64 string bytes ref blob embedded : AttributeType

pub data AttributeValue : Type 0 where
  null : AttributeValue
  boolean : Bool → AttributeValue
  int64 : ℤ → AttributeValue
  float64 : ℕ → AttributeValue
  string : List ℕ → AttributeValue
  bytes : List ℕ → AttributeValue
  ref : ℕ → AttributeValue
  blob : ℕ → AttributeValue
  embedded : List ℕ → AttributeValue

-- The tags are part of the format.
unfoldable pub tag_of : AttributeType → ℕ
tag_of AttributeType.null = 0
tag_of AttributeType.boolean = 1
tag_of AttributeType.int64 = 2
tag_of AttributeType.float64 = 3
tag_of AttributeType.string = 4
tag_of AttributeType.bytes = 5
tag_of AttributeType.ref = 6
tag_of AttributeType.blob = 7
tag_of AttributeType.embedded = 8

unfoldable pub type_of : AttributeValue → AttributeType
type_of AttributeValue.null = AttributeType.null
type_of (AttributeValue.boolean b) = AttributeType.boolean
type_of (AttributeValue.int64 z) = AttributeType.int64
type_of (AttributeValue.float64 bits) = AttributeType.float64
type_of (AttributeValue.string text) = AttributeType.string
type_of (AttributeValue.bytes data') = AttributeType.bytes
type_of (AttributeValue.ref id) = AttributeType.ref
type_of (AttributeValue.blob id) = AttributeType.blob
type_of (AttributeValue.embedded payload) = AttributeType.embedded

unfoldable pub is_null : AttributeValue → Bool
is_null AttributeValue.null = true
is_null _ = false

unfoldable pub as_bool : AttributeValue → Result Bool
as_bool (AttributeValue.boolean b) = ok b
as_bool _ = err type_mismatch

unfoldable pub as_int64 : AttributeValue → Result ℤ
as_int64 (AttributeValue.int64 z) = ok z
as_int64 _ = err type_mismatch

unfoldable pub as_float64 : AttributeValue → Result ℕ
as_float64 (AttributeValue.float64 bits) = ok bits
as_float64 _ = err type_mismatch

unfoldable pub as_string : AttributeValue → Result (List ℕ)
as_string (AttributeValue.string text) = ok text
as_string _ = err type_mismatch

unfoldable pub as_bytes : AttributeValue → Result (List ℕ)
as_bytes (AttributeValue.bytes data') = ok data'
as_bytes _ = err type_mismatch

unfoldable pub as_ref : AttributeValue → Result ℕ
as_ref (AttributeValue.ref id) = ok id
as_ref _ = err type_mismatch

unfoldable pub as_blob : AttributeValue → Result ℕ
as_blob (AttributeValue.blob id) = ok id
as_blob _ = err type_mismatch

unfoldable pub as_embedded : AttributeValue → Result (List ℕ)
as_embedded (AttributeValue.embedded payload) = ok payload
as_embedded _ = err type_mismatch

abbrev pub FieldValues : Type 0
FieldValues = List (ℕ × AttributeValue)

-- The values that the C++ types can hold.
abbrev pub IsAttribute : AttributeValue → Type 0
IsAttribute AttributeValue.null = Unit
IsAttribute (AttributeValue.boolean b) = Unit
IsAttribute (AttributeValue.int64 z) = IsInt64 z
IsAttribute (AttributeValue.float64 bits) = bits < 2 ^ 64
IsAttribute (AttributeValue.string text) = IsBytes text
IsAttribute (AttributeValue.bytes data') = IsBytes data'
IsAttribute (AttributeValue.ref id) = id < 2 ^ 64
IsAttribute (AttributeValue.blob id) = id < 2 ^ 64
IsAttribute (AttributeValue.embedded payload) = IsBytes payload
