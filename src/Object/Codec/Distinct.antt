-- ===== src/Object/Codec/Distinct.antt =====
-- Fields whose ids are distinct: what the search for repeated ids decides.
use mo_db.Prelude.{
  ℕ, ◌≡◌, ◌≢◌, ◌⊎◌, ◌↔◌, refl, sym, ◌∙◌, true, false, [], ◌∷◌, ◌++◌, All, Bool-cases, inl, inr,
  ◌==◌, ==_iff,
}
use mo_db.Object.AttributeValue.{FieldValues}
use mo_db.Object.Codec.{has_field}
use mo_db.Object.Codec.FieldsTrip.{Field, IsFresh}

-- No two fields have the same id.
abbrev pub IsDistinct : FieldValues → Type 0
IsDistinct [] = Unit
IsDistinct (field ∷ fields) = All (λ (f : Field). field.0 ≢ f.0) fields × IsDistinct fields

-- Some field has the id.
abbrev pub HasField : FieldValues → ℕ → Type 0
HasField [] id = ⊥
HasField (field ∷ fields) id = (field.0 ≡ id) ⊎ HasField fields id

true-ne : true ≢ false
true-ne e = cc

pub has_field-HasField :
    (fields : FieldValues) (id : ℕ) → (has_field fields id ≡ true) ↔ HasField fields id
unfolding has_field
has_field-HasField [] id = (λ e. true-ne (sym e), λ h. elim h [ ])
has_field-HasField (f ∷ fs) id =
    let (to, from) = has_field-HasField fs id in
    elim (Bool-cases (f.0 == id)) [
      | inl same ↦ (λ e. inl ((==_iff f.0 id).0 same), λ h. rw same refl)
      | inr other ↦ (
        λ e. inr (to (rw other at e)),
        λ h. rw other (elim h [
          | inl e ↦ absurd (true-ne (sym ((==_iff f.0 id).1 e) ∙ other))
          | inr k ↦ from k
        ]),
      )
    ]

AllOther : FieldValues → ℕ → Type 0
AllOther seen id = All (λ (f : Field). f.0 ≢ id) seen

has_field-AllOther :
    (fields : FieldValues) (id : ℕ) → (has_field fields id ≡ false) ↔ AllOther fields id
unfolding has_field AllOther
has_field-AllOther [] id = (λ e. tt, λ h. refl)
has_field-AllOther (f ∷ fs) id =
    let (to, from) = has_field-AllOther fs id in
    elim (Bool-cases (f.0 == id)) [
      | inl same ↦
          (λ e. absurd (true-ne (rw same at e)), λ h. absurd (h.0 ((==_iff f.0 id).0 same)))
      | inr other ↦ (
        λ e. ((λ q. true-ne (sym ((==_iff f.0 id).1 q) ∙ other)), to (rw other at e)),
        λ h. rw other (from h.1),
      )
    ]

AllOther-append :
    (seen : FieldValues) (f : Field) (id : ℕ)
    → AllOther (seen ++ f ∷ []) id ↔ (AllOther seen id × (f.0 ≢ id))
unfolding AllOther
AllOther-append [] f id = (λ h. (tt, h.0), λ h. (h.1, tt))
AllOther-append (s ∷ seen) f id =
    let (to, from) = AllOther-append seen f id in
    (λ (h, hs). let (a, b) = to hs in ((h, a), b), λ ((h, hs), b). (h, from (hs, b)))

-- The fields differ from those that were seen.
abbrev AreOther : FieldValues → FieldValues → Type 0
AreOther seen [] = Unit
AreOther seen (f ∷ fs) = AllOther seen f.0 × AreOther seen fs

AreOther-append :
    (seen : FieldValues) (f : Field) (fs : FieldValues)
    → AreOther (seen ++ f ∷ []) fs ↔ (AreOther seen fs × All (λ (g : Field). f.0 ≢ g.0) fs)
AreOther-append seen f [] = (λ h. (tt, tt), λ h. tt)
AreOther-append seen f (g ∷ fs) =
    let (to, from) = AreOther-append seen f fs in
    let (split, join) = AllOther-append seen f g.0 in
    (
      λ (h, hs). let (a, b) = split h in let (c, d) = to hs in ((a, c), (b, d)),
      λ ((a, c), (b, d)). (join (a, b), from (c, d)),
    )

IsFresh_iff :
    (seen fields : FieldValues) → IsFresh seen fields ↔ (AreOther seen fields × IsDistinct fields)
unfolding IsFresh
IsFresh_iff seen [] = (λ h. (tt, tt), λ h. tt)
IsFresh_iff seen (f ∷ fs) =
    let (to, from) = IsFresh_iff (seen ++ f ∷ []) fs in
    let (split, join) = AreOther-append seen f fs in
    let (apart, back) = has_field-AllOther seen f.0 in
    (
      λ (h, hs). let (a, d) = to hs in let (b, c) = split a in ((apart h, b), (c, d)),
      λ ((h, b), (c, d)). (back h, from (join (b, c), d)),
    )

nothing-AreOther : (fields : FieldValues) → AreOther [] fields
unfolding AllOther
nothing-AreOther [] = tt
nothing-AreOther (f ∷ fs) = (tt, nothing-AreOther fs)

pub IsFresh-IsDistinct : (fields : FieldValues) → IsFresh [] fields ↔ IsDistinct fields
IsFresh-IsDistinct fields =
    let (to, from) = IsFresh_iff [] fields in
    ((λ h. (to h).1), (λ d. from (nothing-AreOther fields, d)))
