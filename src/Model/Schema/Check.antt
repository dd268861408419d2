-- ===== src/Model/Schema/Check.antt =====
-- `Schema::validate`: which rows a schema accepts.
use mo_db.Prelude.{
  suc, if◌then◌else◌, ◌≡◌, ◌↔◌, ◌⊎◌, refl, ap, ◌∙◌, arith, Bool, true, false, inl, inr, not, List,
  [], ◌∷◌, length, Option, none, some,
}
use mo_db.Error.{Result, ok, err, null_constraint_violation, type_mismatch}
use mo_db.Model.Value.{DataType, Value, same_type, is_null, data_type, Row}
use mo_db.Model.Schema.{ColumnDefinition, Schema, has_type, check_cell, check_cells, validate}

-- A column takes NULL if it is nullable, and else a value of its type.
abbrev pub CellFits : ColumnDefinition → Value → Type 0
CellFits c v = ((v ≡ Value.null) × (c.nullable ≡ true)) ⊎ (data_type v ≡ some c.type)

abbrev pub RowFits : List ColumnDefinition → Row → Type 0
RowFits [] [] = Unit
RowFits [] (v ∷ vs) = ⊥
RowFits (c ∷ cs) [] = ⊥
RowFits (c ∷ cs) (v ∷ vs) = CellFits c v × RowFits cs vs

same_type_iff : (t u : DataType) → (same_type t u ≡ true) ↔ (t ≡ u)
same_type_iff t u = (λ h. ground arith, λ h. ground arith)

has_type_iff : (o : Option DataType) (t : DataType) → (has_type o t ≡ true) ↔ (o ≡ some t)
unfolding has_type
has_type_iff none t = (λ h. cc, λ h. cc)
has_type_iff (some u) t = (
  λ h. ap some ((same_type_iff u t).0 h),
  λ h. (same_type_iff u t).1 (let same : u ≡ t = cc h in same),
)

is_null→eq : (v : Value) → is_null v ≡ true → v ≡ Value.null
unfolding is_null
is_null→eq Value.null h = refl
is_null→eq v h = cc

-- `check_cell` in terms of its three tests.
abbrev outcome : Bool → Bool → Bool → Result (Unit {0})
outcome null typed nullable =
    if null
    then (if not nullable then err null_constraint_violation else ok tt)
    else (if not typed then err type_mismatch else ok tt)

cell :
    (null typed nullable : Bool)
    → (outcome null typed nullable ≡ ok tt)
      ↔ (((null ≡ true) × (nullable ≡ true)) ⊎ ((null ≡ false) × (typed ≡ true)))
cell null typed nullable = (λ h. ground arith, λ h. ground arith)

check_cell_tests :
    (c : ColumnDefinition) (v : Value)
    → (check_cell c v ≡ ok tt) ↔ (
        ((is_null v ≡ true) × (c.nullable ≡ true))
        ⊎ ((is_null v ≡ false) × (has_type (data_type v) c.type ≡ true)))
unfolding check_cell
check_cell_tests c v = cell (is_null v) (has_type (data_type v) c.type) c.nullable

typed_concrete : (v : Value) {t : DataType} → data_type v ≡ some t → is_null v ≡ false
unfolding is_null data_type
typed_concrete Value.null h = cc
typed_concrete v h = refl

check_cell_iff : (c : ColumnDefinition) (v : Value) → (check_cell c v ≡ ok tt) ↔ CellFits c v
check_cell_iff c v = (there, back)
  where
    there : check_cell c v ≡ ok tt → CellFits c v
    there h = elim ((check_cell_tests c v).0 h) [
      | inl (null, nullable) ↦ inl (is_null→eq v null, nullable)
      | inr (concrete, typed) ↦ inr ((has_type_iff (data_type v) c.type).0 typed)
    ]

    back : CellFits c v → check_cell c v ≡ ok tt
    back (inl (null, nullable)) =
        (check_cell_tests c v).1 (inl (ap is_null null ∙ unfold is_null in refl, nullable))
    back (inr typed) =
        (check_cell_tests c v).1
          (inr (typed_concrete v typed, (has_type_iff (data_type v) c.type).1 typed))

check_cells_round :
    (c : ColumnDefinition) (cs : List ColumnDefinition) (v : Value) (vs : Row)
    → (check_cells (c ∷ cs) (v ∷ vs) ≡ ok tt)
      ↔ ((check_cell c v ≡ ok tt) × (check_cells cs vs ≡ ok tt))
unfolding check_cells
check_cells_round c cs v vs = (λ h. ground arith, λ h. ground arith)

validate_tests :
    (s : Schema) (row : Row)
    → (validate s row ≡ ok tt)
      ↔ ((length row ≡ length s.columns) × (check_cells s.columns row ≡ ok tt))
unfolding validate
validate_tests s row = (λ h. ground arith, λ h. ground arith)

RowFits-length : (cs : List ColumnDefinition) (row : Row) → RowFits cs row → length row ≡ length cs
RowFits-length [] [] h = refl
RowFits-length [] (v ∷ vs) h = absurd h
RowFits-length (c ∷ cs) [] h = absurd h
RowFits-length (c ∷ cs) (v ∷ vs) h = ap suc (RowFits-length cs vs h.1)

check_cells_iff :
    (cs : List ColumnDefinition) (row : Row)
    → length row ≡ length cs
    → (check_cells cs row ≡ ok tt) ↔ RowFits cs row
check_cells_iff [] [] e = (λ h. tt, λ h. unfold check_cells in refl)
check_cells_iff [] (v ∷ vs) e = absurd (omega arith)
check_cells_iff (c ∷ cs) [] e = absurd (omega arith)
check_cells_iff (c ∷ cs) (v ∷ vs) e =
    let rest = check_cells_iff cs vs (omega arith) in
    (
      λ h.
          let (first, later) = (check_cells_round c cs v vs).0 h in
          ((check_cell_iff c v).0 first, rest.0 later),
      λ (first, later).
          (check_cells_round c cs v vs).1 ((check_cell_iff c v).1 first, rest.1 later),
    )

-- `validate` accepts a row exactly if it has one value for each column and each value fits its
-- column: NULL only where the column is nullable, any other value only in a column of its type.
pub validate_iff : (s : Schema) (row : Row) → (validate s row ≡ ok tt) ↔ RowFits s.columns row
validate_iff s row = (
  λ h.
      let (size, cells) = (validate_tests s row).0 h in
      (check_cells_iff s.columns row size).0 cells,
  λ h.
      let size = RowFits-length s.columns row h in
      (validate_tests s row).1 (size, (check_cells_iff s.columns row size).1 h),
)
