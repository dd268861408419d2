-- ===== src/Storage/Codec/SchemaTrip.antt =====
-- Schemas and the bytes that they are stored as: `encode_schema` and `decode_schema`.
use mo_db.Prelude.{
  ℕ, zero, suc, ◌^◌, ◌≤◌, ◌<◌, ◌≡◌, refl, sym, ap, ap₂, ◌∙◌, arith, Bool, true, false, List, [],
  ◌∷◌, ◌++◌, ltb, ◌==◌, ltb-false, inl, inr, length, All, append_assoc, append-nil, if◌then◌else◌,
}
use mathlib.Core.Path.{subst}
use native.Mathlib.Nat.{mod-eq_of_lt}
use mo_db.Error
use mo_db.Error.{Result, err-ne-ok, ok, err, Result-cases, too_many_columns, invalid_encoding}
use mo_db.Model.Value.{DataType}
use mo_db.Model.Schema.{max_columns_per_table, ColumnDefinition, Schema, create}
use mo_db.Model.Schema.Creation.{IsIdentifier, IsSchema, create_iff}
use mo_db.Storage.Endian.{IsByte, IsBytes, store_le}
use mo_db.Storage.Binary.{
  write_u8, write_u16, write_bytes, read_u8, read_u16, read_bytes, pure, fail,
}
use mo_db.Storage.Binary.Consumes.{
  Consumes, Consumes-bind, Consumes-map, Consumes-pure, Consumes-read_u8, Consumes-read_bytes,
  Consumes-read_u16,
}
use mo_db.Storage.Binary.Parses.{
  Parses, Parses-bind, Parses-map, Parses-weaken, Parses-pure, Parses-fail, Parses-if,
  Parses-read_u8, Parses-read_bytes, Parses-read_u16,
}
use mo_db.Storage.Codec.{
  flag, encode_data_type, decode_data_type, encode_column, encode_columns, encode_schema, lift,
  decode_whole, decode_column, decode_columns, decode_schema_body, decode_schema,
}
use mo_db.Storage.Codec.Finish.{decode_whole-Consumes, decode_whole-Parses}

pub column_bytes : ColumnDefinition → List ℕ
column_bytes c =
    (length c.name ∷ []) ++ (c.name ++ ((encode_data_type c.type ∷ []) ++ (flag c.nullable ∷ [])))

pub columns_bytes : List ColumnDefinition → List ℕ
columns_bytes [] = []
columns_bytes (c ∷ cs) = column_bytes c ++ columns_bytes cs

pub schema_bytes : List ColumnDefinition → List ℕ
unfolding columns_bytes
schema_bytes cs = store_le 2 (length cs) ++ columns_bytes cs

encode_column-bytes :
    (w : List ℕ) (c : ColumnDefinition)
    → length c.name < 256
    → encode_column w c ≡ w ++ column_bytes c
unfolding column_bytes write_u8 write_bytes
encode_column-bytes w c small = rw (mod-eq_of_lt small) (
    append_assoc ((w ++ length c.name ∷ []) ++ c.name) (encode_data_type c.type ∷ [])
      (flag c.nullable ∷ [])
    ∙ append_assoc (w ++ length c.name ∷ []) c.name (encode_data_type c.type ∷ flag c.nullable ∷ [])
    ∙ append_assoc w (length c.name ∷ []) _)

abbrev IsShort : ColumnDefinition → Type 0
IsShort c = length c.name < 256

encode_columns-bytes :
    (w : List ℕ) (cs : List ColumnDefinition)
    → All IsShort cs
    → encode_columns w cs ≡ w ++ columns_bytes cs
unfolding encode_columns columns_bytes
encode_columns-bytes w [] h = sym (append-nil w)
encode_columns-bytes w (c ∷ cs) (h, hs) =
    encode_columns-bytes (encode_column w c) cs hs
    ∙ ap (λ (t : List ℕ). t ++ columns_bytes cs) (encode_column-bytes w c h)
    ∙ append_assoc w (column_bytes c) (columns_bytes cs)

IsIdentifier-IsShort :
    (cs : List ColumnDefinition) → All (λ c. IsIdentifier c.name) cs → All IsShort cs
IsIdentifier-IsShort [] h = tt
IsIdentifier-IsShort (c ∷ cs) (h, hs) = (omega (arith, h), IsIdentifier-IsShort cs hs)

encode_schema-bytes :
    (s : Schema) → IsSchema s.columns → encode_schema s ≡ ok (schema_bytes s.columns)
unfolding encode_schema schema_bytes write_u16 write_bytes
encode_schema-bytes s v =
    rw (ltb-false max_columns_per_table (length s.columns) v.within_limit)
      (ap ok (encode_columns-bytes _ s.columns (IsIdentifier-IsShort s.columns v.identifiers)))

data_type_back : (t : DataType) → decode_data_type (encode_data_type t) ≡ ok t
unfolding decode_data_type encode_data_type
data_type_back t = ground arith

data_type_forth : (tag : ℕ) (t : DataType) → decode_data_type tag ≡ ok t → encode_data_type t ≡ tag
unfolding decode_data_type encode_data_type
data_type_forth tag t h = ground arith

lift-Consumes {ℓ} : {A : Type ℓ} (o : Result A) (v : A) → o ≡ ok v → Consumes (lift o) [] v
unfolding lift
lift-Consumes (ok a) v h = let same : a ≡ v = cc h in rw same (Consumes-pure v)
lift-Consumes (err e) v h = cc

lift-Parses : {A : Type 0} (o : Result A) → Parses (lift o) (λ v xs. (o ≡ ok v) × ([] ≡ xs))
unfolding lift
lift-Parses (ok a) = Parses-pure _ a (refl, refl)
lift-Parses (err e) = Parses-fail _ e

nullable_read :
    (name : List ℕ) (t : DataType) (b : Bool)
    → Consumes {A = ColumnDefinition}
        (if ltb 1 (flag b)
          then fail invalid_encoding
          else pure (record { name = name; type = t; nullable = flag b == 1 }))
        []
        (record { name = name; type = t; nullable = b })
nullable_read name t true = Consumes-pure _
nullable_read name t false = Consumes-pure _

column-Consumes : (c : ColumnDefinition) → IsShort c → Consumes decode_column (column_bytes c) c
unfolding decode_column column_bytes
column-Consumes c small =
    Consumes-bind read_u8 _ (length c.name ∷ []) _ (length c.name) c
      (Consumes-read_u8 (length c.name))
      (Consumes-bind (read_bytes (length c.name)) _ c.name _ c.name c (Consumes-read_bytes c.name) (
        Consumes-bind read_u8 _ (encode_data_type c.type ∷ []) _ (encode_data_type c.type) c
          (Consumes-read_u8 (encode_data_type c.type))
          (Consumes-bind (lift (decode_data_type (encode_data_type c.type))) _ [] _ c.type c
            (lift-Consumes _ c.type (data_type_back c.type))
            (Consumes-bind read_u8 _ (flag c.nullable ∷ []) [] (flag c.nullable) c
              (Consumes-read_u8 (flag c.nullable)) (nullable_read c.name c.type c.nullable)))))

-- The bytes of the five reads of a column, put together.
column_of_reads :
    (n : ℕ) (name : List ℕ) (tag : ℕ) (t : DataType) (k : ℕ) (front named typed none last : List ℕ)
    → n ∷ [] ≡ front
    → name ≡ named
    → length named ≡ n
    → tag ∷ [] ≡ typed
    → decode_data_type tag ≡ ok t
    → [] ≡ none
    → k ∷ [] ≡ last
    → ltb 1 k ≡ false
    → column_bytes (record { name = name; type = t; nullable = k == 1 })
      ≡ front ++ (named ++ (typed ++ (none ++ (last ++ []))))
unfolding column_bytes
column_of_reads n name tag t k front named typed none last e1 e2 size e3 decoded e4 e5 bit =
    rw (← e1, ← e3, ← e4, ← e5, e2, size, data_type_forth tag t decoded, bit_back) refl
  where
    bit_back : flag (k == 1) ≡ k
    bit_back = ground arith

abbrev DecodedColumn : ColumnDefinition → List ℕ → Type 0
DecodedColumn c xs = column_bytes c ≡ xs

column-Parses : Parses decode_column DecodedColumn
unfolding decode_column
column-Parses =
    Parses-bind read_u8 _ (λ v xs. (v ∷ [] ≡ xs) × IsByte v) DecodedColumn Parses-read_u8
      λ n front (e1, _).
        Parses-bind (read_bytes n) _ (λ v xs. (v ≡ xs) × (length xs ≡ n) × IsBytes xs) _
          (Parses-read_bytes n)
          λ name named (e2, size, _).
            Parses-bind read_u8 _ (λ v xs. (v ∷ [] ≡ xs) × IsByte v) _ Parses-read_u8
              λ tag typed (e3, _).
                Parses-bind (lift (decode_data_type tag)) _
                  (λ v xs. (decode_data_type tag ≡ ok v) × ([] ≡ xs)) _
                  (lift-Parses (decode_data_type tag))
                  λ t none (decoded, e4).
                    Parses-bind read_u8 _ (λ v xs. (v ∷ [] ≡ xs) × IsByte v) _ Parses-read_u8
                      λ k last (e5, _).
                        Parses-if _ (ltb 1 k) _ _ (λ big. Parses-fail _ invalid_encoding)
                          λ bit. Parses-pure _ _ (
                            column_of_reads n name tag t k front named typed none last e1 e2 size e3
                              decoded e4 e5 bit)

columns-Consumes :
    (cs : List ColumnDefinition)
    → All IsShort cs
    → Consumes (decode_columns (length cs)) (columns_bytes cs) cs
unfolding decode_columns columns_bytes
columns-Consumes [] h = Consumes-pure []
columns-Consumes (c ∷ cs) (h, hs) =
    Consumes-bind decode_column _ (column_bytes c) (columns_bytes cs) c (c ∷ cs)
      (column-Consumes c h)
      (Consumes-map (decode_columns (length cs)) (λ t. c ∷ t) (columns_bytes cs) cs (c ∷ cs)
        (columns-Consumes cs hs) refl)

abbrev DecodedColumns : ℕ → List ColumnDefinition → List ℕ → Type 0
DecodedColumns n cs xs = (columns_bytes cs ≡ xs) × (length cs ≡ n)

columns-Parses : (n : ℕ) → Parses (decode_columns n) (DecodedColumns n)
unfolding decode_columns columns_bytes
columns-Parses zero = Parses-pure _ [] (refl, refl)
columns-Parses (suc n) = Parses-bind decode_column _ DecodedColumn _ column-Parses λ c xs same.
    Parses-map (decode_columns n) (λ t. c ∷ t) (DecodedColumns n) _ (columns-Parses n)
      λ cs ys (sames, size). (ap₂ ◌++◌ same sames, ap suc size)

schema_body-Parses : Parses decode_schema_body (λ cs xs. schema_bytes cs ≡ xs)
unfolding decode_schema_body schema_bytes
schema_body-Parses =
    Parses-bind read_u16 _ (λ n xs. (store_le 2 n ≡ xs) × (n < 2 ^ 16)) _ Parses-read_u16
      λ n xs (counted, small).
        Parses-if _ (ltb max_columns_per_table n) _ _ (λ wide. Parses-fail _ too_many_columns)
          λ fits.
            Parses-weaken (decode_columns n) (DecodedColumns n) _ (columns-Parses n)
              λ cs ys (same, size). ap₂ ◌++◌ (ap (store_le 2) size ∙ counted) same

schema_body-Consumes :
    (cs : List ColumnDefinition)
    → length cs ≤ max_columns_per_table
    → All IsShort cs
    → Consumes decode_schema_body (schema_bytes cs) cs
unfolding decode_schema_body schema_bytes
schema_body-Consumes cs fits h =
    Consumes-bind read_u16 _ (store_le 2 (length cs)) (columns_bytes cs) (length cs) cs
      (Consumes-read_u16 (length cs) (omega arith))
      (rw (ltb-false max_columns_per_table (length cs) fits) (columns-Consumes cs h))

-- A schema that `create` made is always stored, and read back as it is.
pub decode_schema-encode_schema :
    (columns : List ColumnDefinition) (s : Schema)
    → create columns ≡ ok s
    → (bs : List ℕ) × (encode_schema s ≡ ok bs) × (decode_schema bs ≡ ok s)
unfolding decode_schema
decode_schema-encode_schema columns s made =
    let (same, valid) = (create_iff columns s).0 made in
    let v : IsSchema s.columns = subst IsSchema (sym same) valid in
    (
      schema_bytes s.columns,
      encode_schema-bytes s v,
      rw
          (decode_whole-Consumes decode_schema_body (schema_bytes s.columns) s.columns (
            schema_body-Consumes s.columns v.within_limit
              (IsIdentifier-IsShort s.columns v.identifiers)))
          ((create_iff s.columns s).1 (refl, v)),
    )

-- `decode_schema` returns only schemas that `create` accepts, and only from the bytes that the
-- schema is stored as.
pub encode_schema-decode_schema :
    (bs : List ℕ) (s : Schema)
    → IsBytes bs
    → decode_schema bs ≡ ok s
    → (encode_schema s ≡ ok bs) × IsSchema s.columns
unfolding decode_schema
encode_schema-decode_schema bs s h e = elim (Result-cases (decode_whole decode_schema_body bs)) [
  | inl (cs, read) ↦
      let (same, valid) = (create_iff cs s).0 (rw (read, Error.◌>>=◌) at e) in
      let v : IsSchema s.columns = subst IsSchema (sym same) valid in
      (
        encode_schema-bytes s v
            ∙ ap ok (
                ap schema_bytes same
                ∙ decode_whole-Parses decode_schema_body _ bs cs schema_body-Parses h read),
        v,
      )
  | inr (c, failed) ↦ absurd (err-ne-ok c s (rw (failed, Error.◌>>=◌) at e))
]
