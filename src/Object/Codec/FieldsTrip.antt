-- ===== src/Object/Codec/FieldsTrip.antt =====
-- The fields of an object and the bytes that they are stored as.
use mo_db.Prelude.{
  ℕ, zero, suc, ◌^◌, ◌≤◌, ◌<◌, ◌≡◌, refl, sym, ap, ap₂, ◌∙◌, arith, false, List, [], ◌∷◌, ◌++◌, ltb,
  ltb-false, ltb-false→le, Bool-cases, inl, inr, length, All, append_assoc, append-nil, ◌==◌, not,
}
use mo_db.Error
use mo_db.Error.{Result, ok, err, Result-cases, invalid_encoding, too_many_columns}
use mo_db.Storage.Endian.{IsByte, store_le}
use mo_db.Storage.Binary.{write_u8, write_u16, write_bytes, read_u8, read_u16}
use mo_db.Storage.Binary.Consumes.{
  Consumes, Consumes-bind, Consumes-pure, Consumes-read_u8, Consumes-read_u16,
}
use mo_db.Storage.Binary.Parses.{
  Parses, Parses-bind, Parses-pure, Parses-fail, Parses-if, Parses-weaken, Parses-read_u8,
  Parses-read_u16,
}
use mo_db.Object.AttributeValue.{AttributeValue, FieldValues, IsAttribute}
use mo_db.Object.Codec.{
  encode_value, encode_fields, encode_object_payload, decode_value, decode_fields, decode_counted,
  decode_payload_body, has_field,
}
use mo_db.Object.Codec.ValueTrip.{
  value_bytes, IsStorable, encode_value-IsStorable, encode_value-fits, decode_value-Consumes,
  decode_value-Parses,
}

abbrev pub Field : Type 0
Field = ℕ × AttributeValue

pub fields_bytes : FieldValues → List ℕ
fields_bytes [] = []
fields_bytes (field ∷ fields) = store_le 2 field.0 ++ (value_bytes field.1 ++ fields_bytes fields)

-- The id and the value are such as the C++ types hold.
abbrev pub IsField : Field → Type 0
IsField field = (field.0 < 2 ^ 16) × IsAttribute field.1

abbrev pub HasRoom : Field → Type 0
HasRoom field = IsStorable field.1

-- No id stands among those before it.
unfoldable pub IsFresh : FieldValues → FieldValues → Type 0
unfolding has_field
IsFresh seen [] = Unit
IsFresh seen (field ∷ fields) =
    (has_field seen field.0 ≡ false) × IsFresh (seen ++ field ∷ []) fields

encode_fields-HasRoom :
    (w : List ℕ) (fields : FieldValues)
    → All HasRoom fields
    → encode_fields w fields ≡ ok (w ++ fields_bytes fields)
unfolding encode_fields fields_bytes write_u16 write_bytes
encode_fields-HasRoom w [] h = ap ok (sym (append-nil w))
encode_fields-HasRoom w ((id, v) ∷ fields) (hv, hs) =
    rw (encode_value-IsStorable (w ++ store_le 2 id) v hv) (
      encode_fields-HasRoom ((w ++ store_le 2 id) ++ value_bytes v) fields hs
      ∙ ap ok (
          append_assoc (w ++ store_le 2 id) (value_bytes v) (fields_bytes fields)
          ∙ append_assoc w (store_le 2 id) (value_bytes v ++ fields_bytes fields)))

encode_fields-fits :
    (w w' : List ℕ) (fields : FieldValues) → encode_fields w fields ≡ ok w' → All HasRoom fields
unfolding encode_fields
encode_fields-fits w w' [] h = tt
encode_fields-fits w w' ((id, v) ∷ fields) h =
    elim (Result-cases (encode_value (write_u16 w id) v)) [
      | inl (x, e) ↦ (
        encode_value-fits (write_u16 w id) x v e,
        encode_fields-fits x w' fields (rw (e, Error.◌>>=◌) at h),
      )
      | inr (c, e) ↦ cc
    ]

pub payload_bytes : FieldValues → List ℕ
payload_bytes fields = 1 ∷ (store_le 2 (length fields) ++ fields_bytes fields)

-- The payload is stored exactly if there are at most 256 fields and the sizes fit.
pub encode_object_payload-ok :
    (fields : FieldValues) (bs : List ℕ)
    → encode_object_payload fields ≡ ok bs
    → (length fields ≤ 256) × All HasRoom fields × (payload_bytes fields ≡ bs)
unfolding encode_object_payload payload_bytes write_u8 write_u16 write_bytes
encode_object_payload-ok fields bs h = elim (Bool-cases (ltb 256 (length fields))) [
  | inl wide ↦ absurd (err-ne (rw wide at h))
  | inr fits ↦
      let k = rw fits at h in
      let rooms = encode_fields-fits (1 ∷ store_le 2 (length fields)) bs fields k in
      (
        ltb-false→le 256 (length fields) fits,
        rooms,
        ok_inj (1 ∷ (store_le 2 (length fields) ++ fields_bytes fields)) bs
            (sym (encode_fields-HasRoom (1 ∷ store_le 2 (length fields)) fields rooms) ∙ k),
      )
]
  where
    err-ne : Path (Result (List ℕ)) (err too_many_columns) (ok bs) → ⊥
    err-ne q = cc

    ok_inj : (a b : List ℕ) → Path (Result (List ℕ)) (ok a) (ok b) → a ≡ b
    ok_inj a b q = cc

pub encode_object_payload-HasRoom :
    (fields : FieldValues)
    → length fields ≤ 256
    → All HasRoom fields
    → encode_object_payload fields ≡ ok (payload_bytes fields)
unfolding encode_object_payload payload_bytes write_u8 write_u16 write_bytes
encode_object_payload-HasRoom fields h rooms =
    rw (ltb-false 256 (length fields) h)
      (encode_fields-HasRoom (1 ∷ store_le 2 (length fields)) fields rooms)

decode_fields-Consumes :
    (seen fields : FieldValues)
    → All IsField fields
    → All HasRoom fields
    → IsFresh seen fields
    → Consumes (decode_fields (length fields) seen) (fields_bytes fields) (seen ++ fields)
unfolding decode_fields fields_bytes IsFresh
decode_fields-Consumes seen [] h k f = rw append-nil (Consumes-pure seen)
decode_fields-Consumes seen ((id, v) ∷ fields) ((small, hv), hs) (kv, ks) (new, f) =
    Consumes-bind read_u16 _ (store_le 2 id) (value_bytes v ++ fields_bytes fields) id
      (seen ++ (id, v) ∷ fields) (Consumes-read_u16 id small)
      (rw new (
        Consumes-bind decode_value
          (λ value. decode_fields (length fields) (seen ++ (id, value) ∷ [])) (value_bytes v)
          (fields_bytes fields) v (seen ++ (id, v) ∷ fields) (decode_value-Consumes v hv kv)
          (rw append_assoc at (decode_fields-Consumes (seen ++ (id, v) ∷ []) fields hs ks f))))

-- What the loop read, behind what was there before.
record IsRead (n : ℕ) (seen result : FieldValues) (xs : List ℕ) : Type 0 where
  fields : FieldValues
  joined : result ≡ seen ++ fields
  stored : fields_bytes fields ≡ xs
  count : length fields ≡ n
  valid : All IsField fields
  room : All HasRoom fields
  fresh : IsFresh seen fields

decode_fields-Parses : (n : ℕ) (seen : FieldValues) → Parses (decode_fields n seen) (IsRead n seen)
unfolding decode_fields fields_bytes IsFresh
decode_fields-Parses zero seen = Parses-pure _ seen (record {
  fields = [];
  joined = sym (append-nil seen);
  stored = refl;
  count = refl;
  valid = tt;
  room = tt;
  fresh = tt;
})
decode_fields-Parses (suc n) seen =
    Parses-bind read_u16 _ (λ v xs. (store_le 2 v ≡ xs) × (v < 2 ^ 16)) _ Parses-read_u16
      λ id xs (same, small).
        Parses-if _ (has_field seen id) _ _ (λ dup. Parses-fail _ invalid_encoding)
          λ new. Parses-bind decode_value _ _ _ decode_value-Parses λ v ys (sames, valid, fits).
            Parses-weaken (decode_fields n (seen ++ (id, v) ∷ [])) (IsRead n (seen ++ (id, v) ∷ []))
              _ (decode_fields-Parses n (seen ++ (id, v) ∷ []))
              λ result zs rest. record {
                fields = (id, v) ∷ rest.fields;
                joined = rest.joined ∙ append_assoc seen ((id, v) ∷ []) rest.fields;
                stored = ap₂ ◌++◌ same (ap₂ ◌++◌ sames rest.stored);
                count = ap suc rest.count;
                valid = ((small, valid), rest.valid);
                room = (fits, rest.room);
                fresh = (new, rest.fresh);
              }

-- The fields that can be stored and read back.
pub record IsStored (fields : FieldValues) : Type 0 where
  pub count : length fields ≤ 256
  pub valid : All IsField fields
  pub room : All HasRoom fields
  pub distinct : IsFresh [] fields

pub payload-Consumes :
    (fields : FieldValues)
    → IsStored fields
    → Consumes decode_payload_body (payload_bytes fields) fields
unfolding decode_payload_body payload_bytes decode_counted
payload-Consumes fields s =
    Consumes-bind read_u8 _ (1 ∷ []) (store_le 2 (length fields) ++ fields_bytes fields) 1 fields
      (Consumes-read_u8 1)
      (Consumes-bind read_u16 _ (store_le 2 (length fields)) (fields_bytes fields) (length fields)
        fields (Consumes-read_u16 (length fields) (omega (arith, s.count)))
        (rw (ltb-false 256 (length fields) s.count)
          (decode_fields-Consumes [] fields s.valid s.room s.distinct)))

pub payload-Parses :
    Parses decode_payload_body (λ fields xs. (payload_bytes fields ≡ xs) × IsStored fields)
unfolding decode_payload_body decode_counted payload_bytes
payload-Parses =
    Parses-bind read_u8 _ (λ n xs. (n ∷ [] ≡ xs) × IsByte n) _ Parses-read_u8
      λ version xs (same, byte).
        Parses-if _ (not (version == 1)) _ _ (λ bad. Parses-fail _ invalid_encoding)
          λ good.
            Parses-bind read_u16 _ (λ v ys. (store_le 2 v ≡ ys) × (v < 2 ^ 16)) _ Parses-read_u16
              λ n ys (sized, small).
                Parses-if _ (ltb 256 n) _ _ (λ wide. Parses-fail _ too_many_columns)
                  λ fits.
                    Parses-weaken (decode_fields n []) (IsRead n []) _ (decode_fields-Parses n [])
                      λ result zs k. rw k.joined (
                        ap₂ ◌++◌ (ap (λ (v : ℕ). v ∷ []) (sym (version_is version good)) ∙ same)
                            (ap₂ ◌++◌ (ap (store_le 2) k.count ∙ sized) k.stored),
                        record {
                          count = omega (arith, k.count, ltb-false→le 256 n fits);
                          valid = k.valid;
                          room = k.room;
                          distinct = k.fresh;
                        },
                      )
  where
    version_is : (version : ℕ) → not (version == 1) ≡ false → version ≡ 1
    version_is version good = ground arith
