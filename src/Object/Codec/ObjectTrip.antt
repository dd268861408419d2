-- ===== src/Object/Codec/ObjectTrip.antt =====
-- Objects and the records that they are stored as: `encode_object` and `decode_object`.
use mo_db.Prelude.{
  ℕ, ◌^◌, ◌≤◌, ◌<◌, ◌≡◌, refl, sym, ap, ap₂, ◌∙◌, List, ◌++◌, length, All, inl, inr,
}
use mathlib.Core.Path.{subst}
use mo_db.Error
use mo_db.Error.{Result, ok, err, Result-cases}
use mo_db.Storage.Endian.{IsBytes, store_le}
use mo_db.Storage.Binary.{
  BinaryReader, reader, advance, remaining_bytes, read_u64, write_u64, write_bytes,
}
use mo_db.Storage.Binary.Consumes.{
  Consumes, Consumes-bind, Consumes-map, Consumes-read_u64, remaining_bytes-advance,
}
use mo_db.Storage.Binary.Parses.{Parses, Taken, Parses-bind, Parses-map, Parses-read_u64}
use mo_db.Storage.Codec.Finish.{decode_whole-Consumes, decode_whole-Parses}
use mo_db.Object.AttributeValue.{FieldValues}
use mo_db.Object.Codec.{
  DecodedObject, encode_object, encode_object_payload, decode_object, decode_object_header,
  decode_object_payload, decode_ids, decode_payload_body,
}
use mo_db.Object.Codec.Distinct.{IsDistinct, IsFresh-IsDistinct}
use mo_db.Object.Codec.FieldsTrip.{
  payload_bytes, IsField, HasRoom, IsStored, encode_object_payload-ok,
  encode_object_payload-HasRoom, payload-Consumes, payload-Parses,
}

ids_bytes : ℕ → ℕ → List ℕ
ids_bytes id type = store_le 8 id ++ store_le 8 type

decode_ids-Consumes :
    (id type : ℕ) → id < 2 ^ 64 → type < 2 ^ 64 → Consumes decode_ids (ids_bytes id type) (id, type)
unfolding decode_ids ids_bytes
decode_ids-Consumes id type h k =
    Consumes-bind read_u64 _ (store_le 8 id) (store_le 8 type) id (id, type)
      (Consumes-read_u64 id h)
      (Consumes-map read_u64 (λ (t : ℕ). (id, t)) (store_le 8 type) type (id, type)
        (Consumes-read_u64 type k) refl)

IsIds : ℕ × ℕ → List ℕ → Type 0
IsIds ids xs = (ids_bytes ids.0 ids.1 ≡ xs) × (ids.0 < 2 ^ 64) × (ids.1 < 2 ^ 64)

IsIds-Parses : Parses decode_ids IsIds
unfolding decode_ids ids_bytes IsIds
IsIds-Parses =
    Parses-bind read_u64 _ (λ v xs. (store_le 8 v ≡ xs) × (v < 2 ^ 64)) _ Parses-read_u64
      λ id xs (same, small).
        Parses-map read_u64 (λ (t : ℕ). (id, t)) (λ v ys. (store_le 8 v ≡ ys) × (v < 2 ^ 64)) _
          Parses-read_u64 λ type ys (sames, smalls). (ap₂ ◌++◌ same sames, small, smalls)

encode_object-ok :
    (id type : ℕ) (fields : FieldValues) (bs : List ℕ)
    → encode_object id type fields ≡ ok bs
    → (length fields ≤ 256) × All HasRoom fields × (bs ≡ ids_bytes id type ++ payload_bytes fields)
unfolding encode_object ids_bytes write_u64 write_bytes
encode_object-ok id type fields bs h = elim (Result-cases (encode_object_payload fields)) [
  | inl (x, e) ↦
      let (count, rooms, same) = encode_object_payload-ok fields x e in
      let k : Path (Result (List ℕ)) (ok ((store_le 8 id ++ store_le 8 type) ++ x)) (ok bs) =
        rw (e, Error.◌>>=◌) at h in
      (
        count,
        rooms,
        ok_inj _ _ (sym k)
            ∙ ap (λ (t : List ℕ). (store_le 8 id ++ store_le 8 type) ++ t) (sym same),
      )
  | inr (c, e) ↦ absurd (err-ne (rw (e, Error.◌>>=◌) at h))
]
  where
    err-ne : {c : Error.ErrorCode} → Path (Result (List ℕ)) (err c) (ok bs) → ⊥
    err-ne q = cc

    ok_inj : (a b : List ℕ) → Path (Result (List ℕ)) (ok a) (ok b) → a ≡ b
    ok_inj a b q = cc

header-Consumes :
    (id type : ℕ) (rest : List ℕ)
    → id < 2 ^ 64
    → type < 2 ^ 64
    → decode_ids (reader (ids_bytes id type ++ rest))
      ≡ ok ((id, type), advance (length (ids_bytes id type)) (reader (ids_bytes id type ++ rest)))
unfolding remaining_bytes
header-Consumes id type rest h k =
    (decode_ids-Consumes id type h k).at (reader (ids_bytes id type ++ rest)) rest refl

-- An object that `encode_object` stores is read back by `decode_object`, and its ids by
-- `decode_object_header`, if no field id occurs twice and the ids and values are such as the C++ types
-- hold.
pub decode_object-encode_object :
    (id type : ℕ) (fields : FieldValues) (bs : List ℕ)
    → id < 2 ^ 64
    → type < 2 ^ 64
    → All IsField fields
    → IsDistinct fields
    → encode_object id type fields ≡ ok bs
    → (decode_object bs ≡ ok (record { id = id; type = type; fields = fields }))
      × (decode_object_header bs ≡ ok (id, type))
unfolding decode_object decode_object_header decode_object_payload
decode_object-encode_object id type fields bs h k valid distinct e =
    let fresh = (IsFresh-IsDistinct fields).1 distinct in
    let (count, rooms, same) = encode_object-ok id type fields bs e in
    let head = ids_bytes id type in
    let s : IsStored fields = record {
      count = count;
      valid = valid;
      room = rooms;
      distinct = fresh;
    } in
    rw
      (
        same,
        header-Consumes id type (payload_bytes fields) h k,
        remaining_bytes-advance head (payload_bytes fields) (reader (head ++ payload_bytes fields))
            (unfold remaining_bytes in refl),
        decode_whole-Consumes decode_payload_body (payload_bytes fields) fields
            (payload-Consumes fields s),
      )
      (refl, refl)

-- What is known of an object that was decoded from some bytes.
IsDecoded : List ℕ → DecodedObject → Type 0
IsDecoded bs object =
    (encode_object object.id object.type object.fields ≡ ok bs)
    × (decode_object_header bs ≡ ok (object.id, object.type))
    × (object.id < 2 ^ 64)
    × (object.type < 2 ^ 64)
    × All IsField object.fields
    × IsDistinct object.fields

parts-IsDecoded :
    (bs : List ℕ) (id type : ℕ) (r : BinaryReader) (fields : FieldValues)
    → IsBytes bs
    → decode_ids (reader bs) ≡ ok ((id, type), r)
    → decode_object_payload (remaining_bytes r) ≡ ok fields
    → IsDecoded bs (record { id = id; type = type; fields = fields })
unfolding IsDecoded decode_object_header decode_object_payload encode_object write_u64 write_bytes
    ids_bytes IsIds
parts-IsDecoded bs id type r fields hb first second =
    let t : Taken IsIds (reader bs) r (id, type) =
      IsIds-Parses.at (reader bs) r (id, type) (unfold remaining_bytes in hb) first in
    let (same, small, smalls) = t.relates in
    let (p, s) =
      decode_whole-Parses decode_payload_body _ (remaining_bytes r) fields payload-Parses t.rest
        second in
    (
      rw (encode_object_payload-HasRoom fields s.count s.room)
          (ap ok (ap₂ ◌++◌ same p ∙ sym t.split ∙ unfold remaining_bytes in refl)),
      rw first refl,
      small,
      smalls,
      s.valid,
      (IsFresh-IsDistinct fields).0 s.distinct,
    )

-- Whatever bytes `decode_object` accepts are the ones that `encode_object` stores for the object. No field
-- id occurs twice in it, the ids and values are such as the C++ types hold, and `decode_object_header`
-- returns its ids.
pub encode_object-decode_object :
    (bs : List ℕ) (object : DecodedObject)
    → IsBytes bs
    → decode_object bs ≡ ok object
    → (encode_object object.id object.type object.fields ≡ ok bs)
      × (decode_object_header bs ≡ ok (object.id, object.type))
      × (object.id < 2 ^ 64)
      × (object.type < 2 ^ 64)
      × All IsField object.fields
      × IsDistinct object.fields
unfolding decode_object IsDecoded
encode_object-decode_object bs object hb e = elim (Result-cases (decode_ids (reader bs))) [
  | inr (c, bad) ↦ absurd (err-ne (rw (bad, Error.◌>>=◌) at e))
  | inl (((id, type), r), good) ↦
      let e' = rw (good, Error.◌>>=◌) at e in
      elim (Result-cases (decode_object_payload (remaining_bytes r))) [
        | inr (c, bad) ↦ absurd (err-ne (rw (bad, Error.◌>>=◌) at e'))
        | inl (fields, good') ↦
            subst (IsDecoded bs) (ok_inj _ object (rw (good', Error.◌>>=◌) at e'))
              (parts-IsDecoded bs id type r fields hb good good')
      ]
]
  where
    err-ne : {c : Error.ErrorCode} → Path (Result DecodedObject) (err c) (ok object) → ⊥
    err-ne q = cc

    ok_inj : (a b : DecodedObject) → Path (Result DecodedObject) (ok a) (ok b) → a ≡ b
    ok_inj a b q = cc
