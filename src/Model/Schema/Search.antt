-- ===== src/Model/Schema/Search.antt =====
-- `Schema::find_column`: it finds the first column of the name, and in a created schema every column.
use mo_db.Prelude.{
  ℕ, zero, suc, ◌+◌, ◌≡◌, ◌≢◌, ◌↔◌, refl, sym, ap, ◌∙◌, arith, Bool-cases, inl, inr, List, [], ◌∷◌,
  All, some, get_elem?, take, All-get_elem?,
}
use mathlib.Core.Path.{subst}
use native.Mathlib.Nat.{zero-add}
use mo_db.Error.{ok}
use mo_db.Model.Schema.{ColumnDefinition, Schema, same_name, find_column_from, find_column, create}
use mo_db.Model.Schema.Names.{same_name→eq, same_name_refl, same_name_ne}
use mo_db.Model.Schema.Creation.{IsDistinct, create_iff}

-- The column at an index has the name, and no column before it has.
pub record IsFirst (columns : List ColumnDefinition) (name : List ℕ) (i : ℕ) : Type 0 where
  pub column : ColumnDefinition
  pub at : get_elem? columns i ≡ some column
  pub named : column.name ≡ name
  pub before : All (λ c. c.name ≢ name) (take i columns)

find_from-IsFirst :
    (index i : ℕ) (columns : List ColumnDefinition) (name : List ℕ)
    → find_column_from index columns name ≡ ok i
    → (k : ℕ) × (i ≡ index + k) × IsFirst columns name k
unfolding find_column_from
find_from-IsFirst index i [] name h = cc
find_from-IsFirst index i (c ∷ cs) name h = elim (Bool-cases (same_name c.name name)) [
  | inl same ↦ (
    0,
    ground arith,
    record { column = c; at = refl; named = same_name→eq c.name name same; before = tt },
  )
  | inr other ↦
      let (k, e, f) = find_from-IsFirst (index + 1) i cs name (rw other at h) in
      (
        suc k,
        omega (arith, e),
        record {
          column = f.column;
          at = f.at;
          named = f.named;
          before =
              (λ e. ground (arith, same_name_refl name, ap (λ n. same_name n name) e), f.before);
        },
      )
]

find_from_complete :
    (index k : ℕ) (columns : List ColumnDefinition) (name : List ℕ)
    → IsFirst columns name k
    → find_column_from index columns name ≡ ok (index + k)
unfolding find_column_from
find_from_complete index k [] name f = cc f.at
find_from_complete index zero (c ∷ cs) name f =
    let head : c ≡ f.column = cc f.at in
    rw
      (ap (λ (d : ColumnDefinition). same_name d.name name) head
        ∙ ap (λ n. same_name n name) f.named
        ∙ same_name_refl name)
      (ap ok (omega arith))
find_from_complete index (suc k) (c ∷ cs) name f =
    rw (same_name_ne c.name name f.before.0)
      (find_from_complete (index + 1) k cs name rest ∙ ap ok (omega arith))
  where
    rest : IsFirst cs name k
    rest = record { column = f.column; at = f.at; named = f.named; before = f.before.1 }

-- `find_column` returns an index exactly if the column there has the name and none before it has.
pub find_column_iff :
    (s : Schema) (name : List ℕ) (i : ℕ) → (find_column s name ≡ ok i) ↔ IsFirst s.columns name i
unfolding find_column
find_column_iff s name i = (
  λ h.
      let (k, e, f) = find_from-IsFirst 0 i s.columns name h in
      subst (IsFirst s.columns name) (sym (e ∙ zero-add k)) f,
  λ f. find_from_complete 0 i s.columns name f ∙ ap ok (zero-add i),
)

before_distinct :
    (columns : List ColumnDefinition) (i : ℕ) (c : ColumnDefinition)
    → IsDistinct columns
    → get_elem? columns i ≡ some c
    → All (λ d. d.name ≢ c.name) (take i columns)
before_distinct [] zero c d h = tt
before_distinct [] (suc i) c d h = tt
before_distinct (x ∷ xs) zero c d h = tt
before_distinct (x ∷ xs) (suc i) c d h =
    (All-get_elem? _ xs i c d.0 h, before_distinct xs i c d.1 h)

-- In a schema that `create` made, each column is found under its name, at its own index.
pub find_column-create :
    (columns : List ColumnDefinition) (s : Schema) (i : ℕ) (c : ColumnDefinition)
    → create columns ≡ ok s
    → get_elem? columns i ≡ some c
    → find_column s c.name ≡ ok i
find_column-create columns s i c made at =
    let (same, valid) = (create_iff columns s).0 made in
    (find_column_iff s c.name i).1 (record {
      column = c;
      at = rw same at;
      named = refl;
      before = rw same (before_distinct columns i c valid.distinct at);
    })
