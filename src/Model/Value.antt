-- ===== src/Model/Value.antt =====
-- src/model/value.cpp, src/model/data_type.cpp and include/modb/row.hpp.
use mo_db.Prelude.{ℕ, ◌^◌, ◌<◌, Bool, true, false, Option, none, some, List}
use mo_db.Prelude.Int.{ℤ, pos, negsuc}
use mo_db.Storage.Endian.{IsBytes}

pub data DataType : Type 0 where
  boolean integer real text : DataType

-- `operator==` of the enumeration.
abbrev pub same_type : DataType → DataType → Bool
same_type DataType.boolean DataType.boolean = true
same_type DataType.integer DataType.integer = true
same_type DataType.real DataType.real = true
same_type DataType.text DataType.text = true
same_type _ _ = false

-- The alternatives of `Value::Storage`. A double is its 64 bits: the modelled code copies them and
-- never computes with them. A string is its bytes.
pub data Value : Type 0 where
  null : Value
  boolean : Bool → Value
  integer : ℤ → Value
  real : ℕ → Value
  text : List ℕ → Value

-- The values that the C++ types can hold.
abbrev pub IsInt64 : ℤ → Type 0
IsInt64 (pos n) = n < 2 ^ 63
IsInt64 (negsuc n) = n < 2 ^ 63

abbrev pub IsValue : Value → Type 0
IsValue Value.null = Unit
IsValue (Value.boolean b) = Unit
IsValue (Value.integer z) = IsInt64 z
IsValue (Value.real bits) = bits < 2 ^ 64
IsValue (Value.text bytes) = IsBytes bytes

unfoldable pub is_null : Value → Bool
is_null Value.null = true
is_null _ = false

unfoldable pub data_type : Value → Option DataType
data_type Value.null = none
data_type (Value.boolean b) = some DataType.boolean
data_type (Value.integer z) = some DataType.integer
data_type (Value.real bits) = some DataType.real
data_type (Value.text bytes) = some DataType.text

abbrev pub Row : Type 0
Row = List Value
