-- ===== src/Object/TypeDefinition/Marks.antt =====
-- What the array of marks says: the position of an attribute is marked if a field with its id was
-- visited. The ids of the attributes are distinct, as `create` checks.
use mo_db.Prelude.{
  ℕ, ◌+◌, ◌≤◌, ◌<◌, ◌≡◌, ◌≢◌, refl, sym, ap, ◌∙◌, arith, Bool, true, false, ◌||◌, Option, some,
  List, [], ◌∷◌, ◌++◌, All, Bool-cases, ◌⊎◌, inl, inr, length, ltb, ◌==◌, ==_iff, ==_ne,
  if◌then◌else◌,
}
use mo_db.Error.{Result, ErrorCode, ok, err, ◌>>◌, duplicate_column, too_many_columns}
use mo_db.Object.AttributeValue.{AttributeValue, FieldValues}
use mo_db.Object.Codec.{has_field}
use mo_db.Model.Schema.{has_name}
use mo_db.Object.TypeDefinition.{
  AttributeDefinition, TypeDefinition, create, check_attributes, has_id, validate_identifier,
  validate_default_value, find_from, Seen, mark,
}

abbrev pub HasDistinctIds : List AttributeDefinition → Type 0
HasDistinctIds [] = Unit
HasDistinctIds (a ∷ as') = All (λ (b : AttributeDefinition). b.id ≢ a.id) as' × HasDistinctIds as'

abbrev pub AreMarked : ℕ → List AttributeDefinition → Seen → FieldValues → Type 0
AreMarked i [] seen done = Unit
AreMarked i (a ∷ as') seen done = (seen i ≡ has_field done a.id) × AreMarked (i + 1) as' seen done

position :
    (x y : ℕ) (c d : AttributeDefinition)
    → Path (Option (ℕ × AttributeDefinition)) (some (x, c)) (some (y, d))
    → x ≡ y
position x y c d q = cc

pub none_seen-AreMarked :
    (i : ℕ) (attributes : List AttributeDefinition) → AreMarked i attributes (λ j. false) []
unfolding has_field
none_seen-AreMarked i [] = tt
none_seen-AreMarked i (a ∷ as') = (refl, none_seen-AreMarked (i + 1) as')

pub has_field-append :
    (done : FieldValues) (id : ℕ) (v : AttributeValue) (x : ℕ)
    → has_field (done ++ (id, v) ∷ []) x ≡ (has_field done x || (id == x))
unfolding has_field
has_field-append [] id v x = or_end (id == x)
  where
    or_end : (b : Bool) → (b || false) ≡ b
    or_end true = refl
    or_end false = refl
has_field-append (f ∷ done) id v x =
    rw (has_field-append done id v x) (or_assoc (f.0 == x) (has_field done x) (id == x))
  where
    or_assoc : (a b c : Bool) → (a || (b || c)) ≡ ((a || b) || c)
    or_assoc true b c = refl
    or_assoc false b c = refl

module _ (id : ℕ) (v : AttributeValue) (done : FieldValues) (seen : Seen) where
  abbrev done' : FieldValues
  done' = done ++ (id, v) ∷ []

  or_false : (b : Bool) → (b || false) ≡ b
  or_false true = refl
  or_false false = refl

  or_true : (b : Bool) → (b || true) ≡ true
  or_true true = refl
  or_true false = refl

  -- Attributes with other ids, behind the position that is marked.
  behind-AreMarked :
      (j k : ℕ) (attributes : List AttributeDefinition)
      → j < k
      → All (λ (b : AttributeDefinition). b.id ≢ id) attributes
      → AreMarked k attributes seen done
      → AreMarked k attributes (mark seen j) done'
  behind-AreMarked j k [] h n m = tt
  behind-AreMarked j k (a ∷ as') h (n, ns) (m, ms) = (
    rw
        (
          ==_ne k j (λ e. omega (arith, e, h)),
          has_field-append done id v a.id,
          ==_ne id a.id (λ e. n (sym e)),
        )
        (m ∙ sym (or_false (has_field done a.id))),
    behind-AreMarked j (k + 1) as' (omega arith) ns ms,
  )

  pub find_from-le :
      (i : ℕ) (attributes : List AttributeDefinition) (j : ℕ) (a : AttributeDefinition)
      → find_from i attributes id ≡ some (j, a)
      → i ≤ j
  unfolding find_from
  find_from-le i [] j a e = cc
  find_from-le i (b ∷ bs) j a e = elim (Bool-cases (b.id == id)) [
    | inl here ↦ let k : i ≡ j = position i j b a (rw here at e) in omega (arith, k)
    | inr there ↦ omega (arith, find_from-le (i + 1) bs j a (rw there at e))
  ]

  -- The mark at the position that was found tells whether the id was visited.
  pub find_from-seen :
      (i : ℕ) (attributes : List AttributeDefinition) (j : ℕ) (a : AttributeDefinition)
      → AreMarked i attributes seen done
      → find_from i attributes id ≡ some (j, a)
      → seen j ≡ has_field done id
  unfolding find_from
  find_from-seen i [] j a m e = cc
  find_from-seen i (b ∷ bs) j a (m, ms) e = elim (Bool-cases (b.id == id)) [
    | inl here ↦
        sym (ap seen (position i j b a (rw here at e)))
        ∙ m
        ∙ ap (has_field done) ((==_iff b.id id).0 here)
    | inr there ↦ find_from-seen (i + 1) bs j a ms (rw there at e)
  ]

  pub mark-AreMarked :
      (i : ℕ) (attributes : List AttributeDefinition) (j : ℕ) (a : AttributeDefinition)
      → HasDistinctIds attributes
      → AreMarked i attributes seen done
      → find_from i attributes id ≡ some (j, a)
      → AreMarked i attributes (mark seen j) done'
  unfolding find_from
  mark-AreMarked i [] j a d m e = cc
  mark-AreMarked i (b ∷ bs) j a (d, ds) (m, ms) e = elim (Bool-cases (b.id == id)) [
    | inl here ↦
        let same : b.id ≡ id = (==_iff b.id id).0 here in
        let at : i ≡ j = position i j b a (rw here at e) in
        (
          rw ((==_iff i j).1 at, has_field-append done id v b.id, (==_iff id b.id).1 (sym same))
              (sym (or_true (has_field done b.id))),
          behind-AreMarked j (i + 1) bs (omega (arith, at)) (rw same at d) ms,
        )
    | inr there ↦
        let rest : find_from (i + 1) bs id ≡ some (j, a) = rw there at e in
        let later = find_from-le (i + 1) bs j a rest in
        let other : (id == b.id) ≡ false =
          ==_ne id b.id (λ q. true-ne (sym ((==_iff b.id id).1 (sym q)) ∙ there)) in
        (
          rw (==_ne i j (λ q. omega (arith, q, later)), has_field-append done id v b.id, other)
              (m ∙ sym (or_false (has_field done b.id))),
          mark-AreMarked (i + 1) bs j a ds ms rest,
        )
  ]
    where
      true-ne : true ≢ false
      true-ne q = cc

has_id-false : (ids : List ℕ) (id : ℕ) → has_id ids id ≡ false → All (λ (x : ℕ). x ≢ id) ids
unfolding has_id
has_id-false [] id h = tt
has_id-false (x ∷ ids) id h = elim (Bool-cases (x == id)) [
  | inl same ↦ absurd (true-ne (rw same at h))
  | inr other ↦
      (λ e. true-ne (sym ((==_iff x id).1 e) ∙ other), has_id-false ids id (rw other at h))
]
  where
    true-ne : true ≢ false
    true-ne q = cc

-- The ids of attributes that passed the loop differ from those before and from one another.
abbrev AreNew : List ℕ → List AttributeDefinition → Type 0
AreNew ids [] = Unit
AreNew ids (a ∷ as') = All (λ (x : ℕ). x ≢ a.id) ids × AreNew (a.id ∷ ids) as'

check_attributes-AreNew :
    (ids : List ℕ) (names : List (List ℕ)) (attributes : List AttributeDefinition)
    → check_attributes ids names attributes ≡ ok tt
    → AreNew ids attributes
unfolding check_attributes
check_attributes-AreNew ids names [] h = tt
check_attributes-AreNew ids names (a ∷ as') h = elim (Bool-cases (a.id == 0)) [
  | inl z ↦ absurd (err-ne (rw z at h))
  | inr z ↦ elim (Bool-cases (has_id ids a.id)) [
    | inl dup ↦ absurd (err-ne (rw (z, dup) at h))
    | inr new ↦ (
      has_id-false ids a.id new,
      check_attributes-AreNew (a.id ∷ ids) (a.name ∷ names) as' (
          last (validate_identifier a.name) (has_name names a.name)
            (validate_default_value a.default_value a)
            (check_attributes (a.id ∷ ids) (a.name ∷ names) as') (rw (z, new) at h)),
    )
  ]
]
  where
    err-ne : {e : ErrorCode} → Path (Result (Unit {0})) (err e) (ok tt) → ⊥
    err-ne q = cc

    last :
        (p : Result (Unit {0})) (b : Bool) (q r : Result (Unit {0}))
        → (p >> (if b then err duplicate_column else (q >> r))) ≡ ok tt
        → r ≡ ok tt
    last (err e) b q r k = absurd (err-ne k)
    last (ok u) true q r k = absurd (err-ne k)
    last (ok u) false (err e) r k = absurd (err-ne k)
    last (ok u) false (ok u') r k = k

abbrev IsIn : ℕ → List ℕ → Type 0
IsIn x [] = ⊥
IsIn x (y ∷ ys) = (x ≡ y) ⊎ IsIn x ys

lookup : (ids : List ℕ) (x id : ℕ) → All (λ (y : ℕ). y ≢ id) ids → IsIn x ids → id ≢ x
lookup [] x id h k = elim k [ ]
lookup (y ∷ ys) x id (h, hs) (inl e) = λ q. h (sym (q ∙ e))
lookup (y ∷ ys) x id (h, hs) (inr k) = lookup ys x id hs k

AreNew-apart :
    (ids : List ℕ) (x : ℕ) (attributes : List AttributeDefinition)
    → AreNew ids attributes
    → IsIn x ids
    → All (λ (b : AttributeDefinition). b.id ≢ x) attributes
AreNew-apart ids x [] h k = tt
AreNew-apart ids x (a ∷ as') (h, hs) k =
    (lookup ids x a.id h k, AreNew-apart (a.id ∷ ids) x as' hs (inr k))

AreNew-HasDistinctIds :
    (ids : List ℕ) (attributes : List AttributeDefinition)
    → AreNew ids attributes
    → HasDistinctIds attributes
AreNew-HasDistinctIds ids [] h = tt
AreNew-HasDistinctIds ids (a ∷ as') (h, hs) =
    (AreNew-apart (a.id ∷ ids) a.id as' hs (inl refl), AreNew-HasDistinctIds (a.id ∷ ids) as' hs)

-- The attributes of a type that `create` made have distinct ids.
pub create-HasDistinctIds :
    (name : List ℕ) (attributes : List AttributeDefinition) (type : TypeDefinition)
    → create name attributes ≡ ok type
    → (type.attributes ≡ attributes) × HasDistinctIds attributes
unfolding create
create-HasDistinctIds name attributes type h =
    let (same, checked) =
      parts (validate_identifier name) (ltb 256 (length attributes))
        (check_attributes [] [] attributes)
        (record { id = 0; name = name; attributes = attributes }) h in
    (
      ap (λ (t : TypeDefinition). t.attributes) (sym same),
      AreNew-HasDistinctIds [] attributes (check_attributes-AreNew [] [] attributes checked),
    )
  where
    err-ne : {e : ErrorCode} → Path (Result TypeDefinition) (err e) (ok type) → ⊥
    err-ne q = cc

    parts :
        (p : Result (Unit {0})) (b : Bool) (q : Result (Unit {0})) (t : TypeDefinition)
        → (p >> (if b then err too_many_columns else (q >> ok t))) ≡ ok type
        → (t ≡ type) × (q ≡ ok tt)
    parts (err e) b q t k = absurd (err-ne k)
    parts (ok u) true q t k = absurd (err-ne k)
    parts (ok u) false (err e) t k = absurd (err-ne k)
    parts (ok u) false (ok u') t k = (cc, refl)
