-- ===== src/Object/TypeDefinition.antt =====
-- src/object/type_definition.cpp: the types of objects, and the check of an object against its type.
-- A set of visited ids or names is the list of them.
pub mod Marks
pub mod Check
use mo_db.Prelude.{
  ℕ, zero, suc, ◌+◌, Bool, true, false, not, ◌||◌, ◌&&◌, Option, none, some, List, [], ◌∷◌, length,
  ltb, ◌==◌, if◌then◌else◌,
}
use mo_db.Error.{
  Result, ok, err, ◌>>=◌, ◌>>◌, invalid_identifier, invalid_argument, null_constraint_violation,
  type_mismatch, too_many_columns, duplicate_field, duplicate_column, field_not_found,
}
use mo_db.Model.Schema.{max_identifier_bytes, max_columns_per_table, has_name, same_name}
use mo_db.Object.AttributeValue.{
  AttributeValue, AttributeType, tag_of, type_of, is_null, FieldValues,
}

pub record AttributeDefinition : Type 0 where
  pub id : ℕ
  pub name : List ℕ
  pub type : AttributeType
  pub nullable : Bool
  pub default_value : Option AttributeValue
  pub is_collection : Bool
  pub is_embedded : Bool
  pub is_owned : Bool

pub record TypeDefinition : Type 0 where
  pub id : ℕ
  pub name : List ℕ
  pub attributes : List AttributeDefinition

abbrev pub same_type : AttributeType → AttributeType → Bool
same_type a b = tag_of a == tag_of b

unfoldable pub validate_identifier : List ℕ → Result (Unit {0})
validate_identifier name =
    if length name == 0 || ltb max_identifier_bytes (length name)
    then err invalid_identifier
    else ok tt

-- A default value, and the attribute that declares it.
unfoldable pub validate_default_value :
    Option AttributeValue → AttributeDefinition → Result (Unit {0})
validate_default_value none attribute = ok tt
validate_default_value (some value) attribute =
    if attribute.is_collection || attribute.is_embedded
    then err invalid_argument
    else if same_type (type_of value) AttributeType.null
    then if not attribute.nullable then err null_constraint_violation else ok tt
    else if not (same_type (type_of value) attribute.type)
    then err type_mismatch
    else ok tt

abbrev pub validate_default : AttributeDefinition → Result (Unit {0})
validate_default attribute = validate_default_value attribute.default_value attribute

unfoldable pub has_id : List ℕ → ℕ → Bool
has_id [] id = false
has_id (x ∷ ids) id = (x == id) || has_id ids id

-- The loop of `create` behind the ids and names that were visited.
unfoldable pub check_attributes :
    List ℕ → List (List ℕ) → List AttributeDefinition → Result (Unit {0})
unfolding has_id has_name validate_identifier validate_default_value
check_attributes ids names [] = ok tt
check_attributes ids names (attribute ∷ attributes) =
    let rest = check_attributes (attribute.id ∷ ids) (attribute.name ∷ names) attributes in
    if attribute.id == 0
    then err invalid_argument
    else if has_id ids attribute.id
    then err duplicate_field
    else (validate_identifier attribute.name
        >> (if has_name names attribute.name
            then err duplicate_column
            else (validate_default attribute >> rest)))

unfoldable pub create : List ℕ → List AttributeDefinition → Result TypeDefinition
unfolding check_attributes
create name attributes =
    validate_identifier name
    >> (if ltb max_columns_per_table (length attributes)
        then err too_many_columns
        else (check_attributes [] [] attributes
            >> ok (record { id = 0; name = name; attributes = attributes })))

-- `TypeDefinition::find`, with the position of what it finds, from position `i` on.
unfoldable pub find_from : ℕ → List AttributeDefinition → ℕ → Option (ℕ × AttributeDefinition)
find_from i [] id = none
find_from i (attribute ∷ attributes) id =
    let rest = find_from (i + 1) attributes id in
    if attribute.id == id then some (i, attribute) else rest

abbrev pub attribute_of : Option (ℕ × AttributeDefinition) → Option AttributeDefinition
attribute_of none = none
attribute_of (some (i, attribute)) = some attribute

unfoldable pub find : TypeDefinition → ℕ → Option AttributeDefinition
unfolding find_from
find type id = attribute_of (find_from 0 type.attributes id)

unfoldable pub find_name_from : List AttributeDefinition → List ℕ → Option AttributeDefinition
find_name_from [] name = none
find_name_from (attribute ∷ attributes) name =
    let rest = find_name_from attributes name in
    if same_name attribute.name name then some attribute else rest

-- `TypeDefinition::find` by name.
unfoldable pub find_name : TypeDefinition → List ℕ → Option AttributeDefinition
unfolding find_name_from
find_name type name = find_name_from type.attributes name

-- `std::array<bool, max_columns_per_table>`, by the position of an attribute.
abbrev pub Seen : Type 0
Seen = ℕ → Bool

abbrev pub none_seen : Seen
none_seen i = false

abbrev pub mark : Seen → ℕ → Seen
mark seen i j = if j == i then true else seen j

unfoldable pub check_value : AttributeDefinition → AttributeValue → Result (Unit {0})
unfolding is_null
check_value attribute value =
    if is_null value
    then if not attribute.nullable then err null_constraint_violation else ok tt
    else if not (same_type (type_of value) attribute.type)
    then err type_mismatch
    else ok tt

unfoldable pub check_found : Option (ℕ × AttributeDefinition) → AttributeValue → Seen → Result Seen
unfolding check_value
check_found none value seen = err field_not_found
check_found (some (i, attribute)) value seen =
    if seen i then err duplicate_field else (check_value attribute value >> ok (mark seen i))

-- The loop over the fields.
unfoldable pub check_fields : List AttributeDefinition → FieldValues → Seen → Result Seen
unfolding find_from check_found
check_fields attributes [] seen = ok seen
check_fields attributes ((id, value) ∷ fields) seen =
    check_found (find_from 0 attributes id) value seen >>= λ seen'.
    check_fields attributes fields seen'

abbrev pub has_default : AttributeDefinition → Bool
has_default attribute = elim attribute.default_value [ none ↦ false | some v ↦ true ]

-- The loop over the attributes, from position `i` on.
unfoldable pub check_missing : ℕ → List AttributeDefinition → Seen → Result (Unit {0})
check_missing i [] seen = ok tt
check_missing i (attribute ∷ attributes) seen =
    let rest = check_missing (i + 1) attributes seen in
    if seen i
    then rest
    else if has_default attribute
    then rest
    else if not attribute.nullable
    then err null_constraint_violation
    else rest

unfoldable pub validate_object : TypeDefinition → FieldValues → Result (Unit {0})
unfolding check_fields check_missing
validate_object type fields =
    check_fields type.attributes fields none_seen >>= λ seen. check_missing 0 type.attributes seen
