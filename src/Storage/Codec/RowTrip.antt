-- ===== src/Storage/Codec/RowTrip.antt =====
-- Rows and the bytes that they are stored as: `encode_row` and `decode_row`.
use mo_db.Prelude.{
  ℕ, zero, suc, ◌^◌, ◌≤◌, ◌<◌, ◌≡◌, refl, sym, ap, ap₂, ◌∙◌, arith, List, [], ◌∷◌, ◌++◌, ◌↔◌, ltb,
  ltb-false, ltb-false→le, Bool-cases, inl, inr, length, All, append_assoc, append-nil,
}
use mo_db.Error
use mo_db.Error.{Result, ok, err, Result-cases, too_many_columns, value_too_large}
use mo_db.Model.Value.{IsValue, Row}
use mo_db.Model.Schema.{max_columns_per_table}
use mo_db.Storage.Endian.{IsBytes, store_le}
use mo_db.Storage.Binary.{write_u16, write_bytes, read_u16}
use mo_db.Storage.Binary.Consumes.{
  Consumes, Consumes-bind, Consumes-map, Consumes-pure, Consumes-read_u16,
}
use mo_db.Storage.Binary.Parses.{
  Parses, Parses-bind, Parses-map, Parses-pure, Parses-fail, Parses-if, Parses-weaken,
  Parses-read_u16,
}
use mo_db.Storage.Codec.{
  encode_value_to, encode_values, encode_row, decode_value_from, decode_values, decode_row_body,
  decode_row,
}
use mo_db.Storage.Codec.ValueTrip.{
  value_bytes, IsStorable, encode_value_to-IsStorable, encode_value_to-ok,
  decode_value_from-Consumes, decode_value_from-Parses,
}
use mo_db.Storage.Codec.Finish.{decode_whole-Consumes, decode_whole-Parses}

pub values_bytes : Row → List ℕ
values_bytes [] = []
values_bytes (v ∷ vs) = value_bytes v ++ values_bytes vs

pub row_bytes : Row → List ℕ
unfolding values_bytes
row_bytes row = store_le 2 (length row) ++ values_bytes row

encode_values-IsStorable :
    (w : List ℕ) (row : Row) → All IsStorable row → encode_values w row ≡ ok (w ++ values_bytes row)
unfolding encode_values values_bytes
encode_values-IsStorable w [] h = ap ok (sym (append-nil w))
encode_values-IsStorable w (v ∷ vs) (hv, hvs) = rw (encode_value_to-IsStorable w v hv) (
    encode_values-IsStorable (w ++ value_bytes v) vs hvs
    ∙ ap ok (append_assoc w (value_bytes v) (values_bytes vs)))

encode_values-ok : (w w' : List ℕ) (row : Row) → encode_values w row ≡ ok w' → All IsStorable row
unfolding encode_values
encode_values-ok w w' [] h = tt
encode_values-ok w w' (v ∷ vs) h = elim (Result-cases (encode_value_to w v)) [
  | inl (x, e) ↦
      ((encode_value_to-ok w x v e).0, encode_values-ok x w' vs (rw (e, Error.◌>>=◌) at h))
  | inr (c, e) ↦ cc
]

decode_values-Consumes :
    (row : Row)
    → All IsValue row
    → All IsStorable row
    → Consumes (decode_values (length row)) (values_bytes row) row
unfolding decode_values values_bytes
decode_values-Consumes [] h k = Consumes-pure []
decode_values-Consumes (v ∷ vs) (hv, hvs) (kv, kvs) =
    Consumes-bind decode_value_from _ (value_bytes v) (values_bytes vs) v (v ∷ vs)
      (decode_value_from-Consumes v hv kv)
      (Consumes-map (decode_values (length vs)) (λ t. v ∷ t) (values_bytes vs) vs (v ∷ vs)
        (decode_values-Consumes vs hvs kvs) refl)

-- What a decoded sequence of values was decoded from.
abbrev DecodedValues : ℕ → Row → List ℕ → Type 0
DecodedValues n row xs =
    (values_bytes row ≡ xs) × (length row ≡ n) × All IsValue row × All IsStorable row

decode_values-Parses : (n : ℕ) → Parses (decode_values n) (DecodedValues n)
unfolding decode_values values_bytes
decode_values-Parses zero = Parses-pure _ [] (refl, refl, tt, tt)
decode_values-Parses (suc n) =
    Parses-bind decode_value_from _ _ _ decode_value_from-Parses λ v xs (same, valid, fits).
      Parses-map (decode_values n) (λ t. v ∷ t) (DecodedValues n) _ (decode_values-Parses n)
        λ vs ys (sames, size, valids, fitss).
          (ap₂ ◌++◌ same sames, ap suc size, (valid, valids), (fits, fitss))

-- `encode_row` stores exactly the rows of at most 256 values whose texts fit their size field, as
-- the count and then the values in order.
pub encode_row_iff :
    (row : Row) (bs : List ℕ)
    → (encode_row row ≡ ok bs)
      ↔ ((length row ≤ max_columns_per_table) × All IsStorable row × (row_bytes row ≡ bs))
encode_row_iff row bs = (there, back)
  where
    narrow : encode_row row ≡ ok bs → length row ≤ max_columns_per_table
    narrow e = elim (Bool-cases (ltb max_columns_per_table (length row))) [
      | inl wide ↦ absurd (unfold encode_row in ground arith)
      | inr fits ↦ ltb-false→le _ _ fits
    ]

    stored :
        length row ≤ max_columns_per_table
        → encode_row row ≡ encode_values (write_u16 [] (length row)) row
    stored fits = unfold encode_row in rw (ltb-false max_columns_per_table (length row) fits)

    written :
        length row ≤ max_columns_per_table
        → All IsStorable row
        → encode_row row ≡ ok (row_bytes row)
    written fits all =
        stored fits
        ∙ encode_values-IsStorable (write_u16 [] (length row)) row all
        ∙ unfold row_bytes write_u16 write_bytes in refl

    there :
        encode_row row ≡ ok bs
        → (length row ≤ max_columns_per_table) × All IsStorable row × (row_bytes row ≡ bs)
    there e =
        let all =
          encode_values-ok (write_u16 [] (length row)) bs row (sym (stored (narrow e)) ∙ e) in
        (narrow e, all, cc (written (narrow e) all))

    back :
        (length row ≤ max_columns_per_table) × All IsStorable row × (row_bytes row ≡ bs)
        → encode_row row ≡ ok bs
    back (fits, all, same) = written fits all ∙ ap ok same

row_body-Consumes :
    (row : Row)
    → length row ≤ max_columns_per_table
    → All IsValue row
    → All IsStorable row
    → Consumes decode_row_body (row_bytes row) row
unfolding decode_row_body row_bytes
row_body-Consumes row fits h k =
    Consumes-bind read_u16 _ (store_le 2 (length row)) (values_bytes row) (length row) row
      (Consumes-read_u16 (length row) (omega arith))
      (rw (ltb-false max_columns_per_table (length row) fits) (decode_values-Consumes row h k))

row_body-Parses : Parses decode_row_body (λ row xs.
    (row_bytes row ≡ xs)
    × (length row ≤ max_columns_per_table)
    × All IsValue row
    × All IsStorable row)
unfolding decode_row_body row_bytes
row_body-Parses =
    Parses-bind read_u16 _ (λ n xs. (store_le 2 n ≡ xs) × (n < 2 ^ 16)) _ Parses-read_u16
      λ n xs (counted, small).
        Parses-if _ (ltb max_columns_per_table n) _ _ (λ wide. Parses-fail _ too_many_columns)
          λ fits.
            Parses-weaken (decode_values n) (DecodedValues n) _ (decode_values-Parses n)
              λ row ys (same, size, valid, storable). (
                ap₂ ◌++◌ (ap (store_le 2) size ∙ counted) same,
                omega (arith, ltb-false→le max_columns_per_table n fits, size),
                valid,
                storable,
              )

-- Every row that `encode_row` stores is read back by `decode_row`.
pub decode_row-encode_row :
    (row : Row) (bs : List ℕ) → All IsValue row → encode_row row ≡ ok bs → decode_row bs ≡ ok row
unfolding decode_row
decode_row-encode_row row bs h e =
    let (fits, storable, same) = (encode_row_iff row bs).0 e in
    rw (← same) (
      decode_whole-Consumes decode_row_body (row_bytes row) row
        (row_body-Consumes row fits h storable))

-- Bytes that `decode_row` accepts are exactly the encoding of the row that it returns, so no two
-- inputs decode to one row; the row keeps the limit of columns and its values are the C++ types'.
pub encode_row-decode_row :
    (bs : List ℕ) (row : Row)
    → IsBytes bs
    → decode_row bs ≡ ok row
    → (encode_row row ≡ ok bs) × (length row ≤ max_columns_per_table) × All IsValue row
unfolding decode_row
encode_row-decode_row bs row h e =
    let (same, fits, valid, storable) =
      decode_whole-Parses decode_row_body _ bs row row_body-Parses h e in
    ((encode_row_iff row bs).1 (fits, storable, same), fits, valid)
