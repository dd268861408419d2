-- ===== src/Object/TypeDefinition/Check.antt =====
-- `validate_object` accepts the objects that fit their type.
use mo_db.Prelude.{
  ℕ, ◌+◌, ◌^◌, ◌<◌, ◌≡◌, ◌≢◌, ◌⊎◌, ◌↔◌, refl, sym, ◌∙◌, true, false, some, Option-cases, List, [],
  ◌∷◌, ◌++◌, All, Bool-cases, inl, inr, ==_iff, append_assoc, append-nil,
}
use mathlib.Core.Path.{subst}
use mo_db.Error.{Result, ErrorCode, ok, err, ◌>>◌, Result-cases}
use mo_db.Object.AttributeValue.{AttributeValue, FieldValues, tag_of, type_of, is_null}
use mo_db.Object.Codec.{has_field, encode_object, decode_object}
use mo_db.Object.Codec.Distinct.{IsDistinct, HasField, IsFresh-IsDistinct, has_field-HasField}
use mo_db.Object.Codec.FieldsTrip.{IsFresh, IsField}
use mo_db.Object.Codec.ObjectTrip.{decode_object-encode_object}
use mo_db.Object.TypeDefinition.{
  AttributeDefinition, TypeDefinition, create, find_from, Seen, mark, same_type, check_value,
  check_found, check_fields, check_missing, has_default, validate_object,
}
use mo_db.Object.TypeDefinition.Marks.{
  HasDistinctIds, AreMarked, none_seen-AreMarked, find_from-seen, mark-AreMarked,
  create-HasDistinctIds,
}

-- The value is null and the attribute takes null, or it has the type of the attribute.
abbrev pub IsFit : AttributeDefinition → AttributeValue → Type 0
IsFit a v =
    ((is_null v ≡ true) × (a.nullable ≡ true))
    ⊎ ((is_null v ≡ false) × (tag_of (type_of v) ≡ tag_of a.type))

err-ne : {A : Type 0} {e : ErrorCode} {a : A} → Path (Result A) (err e) (ok a) → ⊥
err-ne q = cc

check_value_iff :
    (a : AttributeDefinition) (v : AttributeValue) → (check_value a v ≡ ok tt) ↔ IsFit a v
unfolding check_value
check_value_iff a v = elim (Bool-cases (is_null v)) [
  | inl null ↦ elim (Bool-cases a.nullable) [
    | inl nullable ↦ (λ q. inl (null, nullable), λ h. rw (null, nullable) refl)
    | inr strict ↦ (
      λ q. absurd (err-ne (rw (null, strict) at q)),
      λ h. elim h [
        | inl (x, y) ↦ absurd (true-ne (sym y ∙ strict))
        | inr (x, y) ↦ absurd (true-ne (sym null ∙ x))
      ],
    )
  ]
  | inr value ↦ elim (Bool-cases (same_type (type_of v) a.type)) [
    | inl same ↦ (
      λ q. inr (value, (==_iff (tag_of (type_of v)) (tag_of a.type)).0 same),
      λ h. rw (value, same) refl,
    )
    | inr other ↦ (
      λ q. absurd (err-ne (rw (value, other) at q)),
      λ h. elim h [
        | inl (x, y) ↦ absurd (true-ne (sym x ∙ value))
        | inr (x, y) ↦
            absurd (true-ne (sym ((==_iff (tag_of (type_of v)) (tag_of a.type)).1 y) ∙ other))
      ],
    )
  ]
]
  where
    true-ne : true ≢ false
    true-ne q = cc

-- The type has an attribute with the id of the field, and the value fits it.
abbrev pub IsAccepted : List AttributeDefinition → ℕ × AttributeValue → Type 0
IsAccepted attributes field =
    (j : ℕ) × (a : AttributeDefinition) × (find_from 0 attributes field.0 ≡ some (j, a))
    × IsFit a field.1

-- A field gives the attribute its value, or it has a default or takes null.
abbrev pub IsComplete : FieldValues → AttributeDefinition → Type 0
IsComplete fields a = HasField fields a.id ⊎ ((has_default a ≡ true) ⊎ (a.nullable ≡ true))

check_found_lem :
    (attributes : List AttributeDefinition) (id : ℕ) (v : AttributeValue) (done : FieldValues)
    (seen seen' : Seen)
    → AreMarked 0 attributes seen done
    → check_found (find_from 0 attributes id) v seen ≡ ok seen'
    → (j : ℕ) × (a : AttributeDefinition) × (find_from 0 attributes id ≡ some (j, a))
      × IsFit a v
      × (has_field done id ≡ false)
      × (seen' ≡ mark seen j)
unfolding check_found
check_found_lem attributes id v done seen seen' m h =
    elim (Option-cases (find_from 0 attributes id)) [
      | inl gone ↦ absurd (err-ne (rw gone at h))
      | inr ((j, a), there) ↦ elim (Bool-cases (seen j)) [
        | inl dup ↦ absurd (err-ne (rw (there, dup) at h))
        | inr new ↦
            let (fits, same) = last (check_value a v) (mark seen j) (rw (there, new) at h) in
            (
              j,
              a,
              there,
              (check_value_iff a v).0 fits,
              sym (find_from-seen id v done seen 0 attributes j a m there) ∙ new,
              sym same,
            )
      ]
    ]
  where
    last : (r : Result (Unit {0})) (s : Seen) → (r >> ok s) ≡ ok seen' → (r ≡ ok tt) × (s ≡ seen')
    last (ok u) s k = (refl, cc)
    last (err e) s k = absurd (err-ne k)

check_fields→accepted :
    (attributes : List AttributeDefinition) (fields done : FieldValues) (seen seen' : Seen)
    → HasDistinctIds attributes
    → AreMarked 0 attributes seen done
    → check_fields attributes fields seen ≡ ok seen'
    → All (IsAccepted attributes) fields
      × IsFresh done fields
      × AreMarked 0 attributes seen' (done ++ fields)
unfolding check_fields IsFresh
check_fields→accepted attributes [] done seen seen' d m h =
    let same : seen ≡ seen' = ok_inj seen seen' h in
    (tt, tt, subst (λ (s : Seen). AreMarked 0 attributes s (done ++ [])) same (rw append-nil m))
  where
    ok_inj : (a b : Seen) → Path (Result Seen) (ok a) (ok b) → a ≡ b
    ok_inj a b q = cc
check_fields→accepted attributes ((id, v) ∷ fields) done seen seen' d m h =
    elim (Result-cases (check_found (find_from 0 attributes id) v seen)) [
      | inr (c, bad) ↦ absurd (err-ne (rw bad at h))
      | inl (s, good) ↦
          let (j, a, there, fits, new, same) = check_found_lem attributes id v done seen s m good in
          let m' = mark-AreMarked id v done seen 0 attributes j a d m there in
          let (accepted, fresh, marked) =
            check_fields→accepted attributes fields (done ++ (id, v) ∷ []) (mark seen j) seen' d m'
              (rw (good, same) at h) in
          (((j, a, there, fits), accepted), (new, fresh), rw append_assoc at marked)
    ]

accepted→check_fields :
    (attributes : List AttributeDefinition) (fields done : FieldValues) (seen : Seen)
    → HasDistinctIds attributes
    → AreMarked 0 attributes seen done
    → All (IsAccepted attributes) fields
    → IsFresh done fields
    → (seen' : Seen) × (check_fields attributes fields seen ≡ ok seen')
      × AreMarked 0 attributes seen' (done ++ fields)
unfolding check_fields check_found IsFresh
accepted→check_fields attributes [] done seen d m h f = (seen, refl, rw append-nil m)
accepted→check_fields attributes ((id, v) ∷ fields) done seen d m ((j, a, there, fits), hs)
      (new, fs) =
    let m' = mark-AreMarked id v done seen 0 attributes j a d m there in
    let (seen', e, marked) =
      accepted→check_fields attributes fields (done ++ (id, v) ∷ []) (mark seen j) d m' hs fs in
    let unseen : seen j ≡ false = find_from-seen id v done seen 0 attributes j a m there ∙ new in
    (seen', rw (there, unseen, (check_value_iff a v).1 fits) e, rw append_assoc at marked)

check_missing_iff :
    (i : ℕ) (attributes : List AttributeDefinition) (seen : Seen) (fields : FieldValues)
    → AreMarked i attributes seen fields
    → (check_missing i attributes seen ≡ ok tt) ↔ All (IsComplete fields) attributes
unfolding check_missing
check_missing_iff i [] seen fields m = (λ _. tt, λ _. refl)
check_missing_iff i (a ∷ as') seen fields (m, ms) =
    let (to, from) = check_missing_iff (i + 1) as' seen fields ms in
    elim (Bool-cases (seen i)) [
      | inl given ↦ (
        λ q. (inl ((has_field-HasField fields a.id).0 (sym m ∙ given)), to (rw given at q)),
        λ h. rw given (from h.1),
      )
      | inr absent ↦ elim (Bool-cases (has_default a)) [
        | inl filled ↦ (
          λ q. (inr (inl filled), to (rw (absent, filled) at q)),
          λ h. rw (absent, filled) (from h.1),
        )
        | inr empty ↦ elim (Bool-cases a.nullable) [
          | inl nullable ↦ (
            λ q. (inr (inr nullable), to (rw (absent, empty, nullable) at q)),
            λ h. rw (absent, empty, nullable) (from h.1),
          )
          | inr strict ↦ (
            λ q. absurd (err-ne (rw (absent, empty, strict) at q)),
            λ h. absurd (refuse (sym m ∙ absent) empty strict h.0),
          )
        ]
      ]
    ]
  where
    true-ne : true ≢ false
    true-ne q = cc

    refuse :
        has_field fields a.id ≡ false
        → has_default a ≡ false
        → a.nullable ≡ false
        → IsComplete fields a
        → ⊥
    refuse x y z (inl k) = true-ne (sym ((has_field-HasField fields a.id).1 k) ∙ x)
    refuse x y z (inr (inl k)) = true-ne (sym k ∙ y)
    refuse x y z (inr (inr k)) = true-ne (sym k ∙ z)

-- For a type that `create` made, `validate_object` accepts the fields exactly if each has the id of an
-- attribute and a value that fits it, no id occurs twice, and each attribute without a field has a
-- default or takes null.
pub validate_object_iff :
    (name : List ℕ) (attributes : List AttributeDefinition) (type : TypeDefinition)
    (fields : FieldValues)
    → create name attributes ≡ ok type
    → (validate_object type fields ≡ ok tt) ↔ (
        All (IsAccepted attributes) fields × IsDistinct fields × All (IsComplete fields) attributes)
unfolding validate_object
validate_object_iff name attributes type fields e =
    let (same, d) = create-HasDistinctIds name attributes type e in
    let start = none_seen-AreMarked 0 attributes in
    rw same (
      λ h. elim (Result-cases (check_fields attributes fields (λ j. false))) [
        | inr (c, bad) ↦ absurd (err-ne (rw bad at h))
        | inl (seen, good) ↦
            let (accepted, fresh, marked) =
              check_fields→accepted attributes fields [] (λ j. false) seen d start good in
            (
              accepted,
              (IsFresh-IsDistinct fields).0 fresh,
              (check_missing_iff 0 attributes seen fields marked).0 (rw good at h),
            )
      ],
      λ (accepted, distinct, complete).
          let (seen, good, marked) =
            accepted→check_fields attributes fields [] (λ j. false) d start accepted
              ((IsFresh-IsDistinct fields).1 distinct) in
          rw good ((check_missing_iff 0 attributes seen fields marked).1 complete),
    )

-- An object that `validate_object` accepts for a type that `create` made, and that `encode_object`
-- stores, is read back by `decode_object`.
pub decode_object-validate_object :
    (name : List ℕ) (attributes : List AttributeDefinition) (type : TypeDefinition) (id type_id : ℕ)
    (fields : FieldValues) (bs : List ℕ)
    → create name attributes ≡ ok type
    → validate_object type fields ≡ ok tt
    → id < 2 ^ 64
    → type_id < 2 ^ 64
    → All IsField fields
    → encode_object id type_id fields ≡ ok bs
    → decode_object bs ≡ ok (record { id = id; type = type_id; fields = fields })
decode_object-validate_object name attributes type id type_id fields bs e v h k valid stored =
    let (accepted, distinct, complete) = (validate_object_iff name attributes type fields e).0 v in
    (decode_object-encode_object id type_id fields bs h k valid distinct stored).0
