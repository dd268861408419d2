-- ===== src/Model/Schema/Creation.antt =====
-- Which lists of columns `Schema::create` accepts.
use mo_db.Prelude.{ℕ, ◌≤◌, ◌≡◌, ◌≢◌, ◌↔◌, refl, arith, false, List, [], ◌∷◌, length, All}
use mo_db.Error.{ok}
use mo_db.Model.Schema.{
  max_identifier_bytes, max_columns_per_table, ColumnDefinition, Schema, has_name,
  validate_column_name, check_columns, create,
}
use mo_db.Model.Schema.Names.{NotIn, has_name_false→NotIn, NotIn→has_name_false}

abbrev pub IsIdentifier : List ℕ → Type 0
IsIdentifier name = (1 ≤ length name) × (length name ≤ max_identifier_bytes)

-- No two columns have one name.
abbrev pub IsDistinct : List ColumnDefinition → Type 0
IsDistinct [] = Unit
IsDistinct (c ∷ cs) = All (λ d. c.name ≢ d.name) cs × IsDistinct cs

pub record IsSchema (columns : List ColumnDefinition) : Type 0 where
  pub some_column : 1 ≤ length columns
  pub within_limit : length columns ≤ max_columns_per_table
  pub identifiers : All (λ c. IsIdentifier c.name) columns
  pub distinct : IsDistinct columns

validate_column_name_lem : (name : List ℕ) → (validate_column_name name ≡ ok tt) ↔ IsIdentifier name
unfolding validate_column_name
validate_column_name_lem name = (λ h. ground arith, λ h. ground arith)

-- What the loop checks of the columns that are left, with the names visited so far.
record IsChecked (names : List (List ℕ)) (columns : List ColumnDefinition) : Type 0 where
  named : All (λ c. IsIdentifier c.name) columns
  fresh : All (λ c. NotIn c.name names) columns
  apart : IsDistinct columns

fresh_split :
    (name : List ℕ) (names : List (List ℕ)) (columns : List ColumnDefinition)
    → All (λ c. NotIn c.name (name ∷ names)) columns
      ↔ (All (λ c. name ≢ c.name) columns × All (λ c. NotIn c.name names) columns)
fresh_split name names [] = (λ h. (tt, tt), λ h. tt)
fresh_split name names (c ∷ cs) = (
  λ (h, hs). let (ne, rest) = (fresh_split name names cs).0 hs in ((h.0, ne), (h.1, rest)),
  λ ((n, ns), (f, fs)). ((n, f), (fresh_split name names cs).1 (ns, fs)),
)

-- One round of the loop.
check_columns_round :
    (names : List (List ℕ)) (c : ColumnDefinition) (cs : List ColumnDefinition)
    → (check_columns names (c ∷ cs) ≡ ok tt) ↔ (
        (validate_column_name c.name ≡ ok tt)
        × (has_name names c.name ≡ false)
        × (check_columns (c.name ∷ names) cs ≡ ok tt))
unfolding check_columns
check_columns_round names c cs = (λ h. ground arith, λ h. ground arith)

check_columns→IsChecked :
    (names : List (List ℕ)) (columns : List ColumnDefinition)
    → check_columns names columns ≡ ok tt
    → IsChecked names columns
unfolding check_columns
check_columns→IsChecked names [] h = record { named = tt; fresh = tt; apart = tt }
check_columns→IsChecked names (c ∷ cs) h =
    let (named, new, rest) = (check_columns_round names c cs).0 h in
    let later : IsChecked (c.name ∷ names) cs = check_columns→IsChecked (c.name ∷ names) cs rest in
    let (ne, fresh) = (fresh_split c.name names cs).0 later.fresh in
    record {
      named = ((validate_column_name_lem c.name).0 named, later.named);
      fresh = (has_name_false→NotIn names c.name new, fresh);
      apart = (ne, later.apart);
    }

IsChecked→check_columns :
    (names : List (List ℕ)) (columns : List ColumnDefinition)
    → IsChecked names columns
    → check_columns names columns ≡ ok tt
unfolding check_columns
IsChecked→check_columns names [] h = refl
IsChecked→check_columns names (c ∷ cs) h = (check_columns_round names c cs).1 (
  (validate_column_name_lem c.name).1 h.named.0,
  NotIn→has_name_false names c.name h.fresh.0,
  IsChecked→check_columns (c.name ∷ names) cs (record {
    named = h.named.1;
    fresh = (fresh_split c.name names cs).1 (h.apart.0, h.fresh.1);
    apart = h.apart.1;
  }),
)

-- `create` accepts a list of columns exactly if it has 1 to 256 of them, each name has 1 to 63 bytes
-- and no two names are equal; the schema holds the columns as they are.
pub create_iff :
    (columns : List ColumnDefinition) (s : Schema)
    → (create columns ≡ ok s) ↔ ((s.columns ≡ columns) × IsSchema columns)
create_iff columns s = (
  λ h.
      let (some, limit, checked, same) = create_tests.0 h in
      let c : IsChecked [] columns = check_columns→IsChecked [] columns checked in
      (
        same,
        record {
          some_column = some;
          within_limit = limit;
          identifiers = c.named;
          distinct = c.apart;
        },
      ),
  λ (same, v). create_tests.1 (
    v.some_column,
    v.within_limit,
    IsChecked→check_columns [] columns
        (record { named = v.identifiers; fresh = none_visited columns; apart = v.distinct }),
    same,
  ),
)
  where
    none_visited : (cs : List ColumnDefinition) → All (λ c. NotIn c.name []) cs
    none_visited [] = tt
    none_visited (c ∷ cs) = (tt, none_visited cs)

    create_tests : (create columns ≡ ok s) ↔ (
        (1 ≤ length columns)
        × (length columns ≤ max_columns_per_table)
        × (check_columns [] columns ≡ ok tt)
        × (s.columns ≡ columns))
    create_tests = unfold create in (λ h. ground arith, λ h. ground arith)
