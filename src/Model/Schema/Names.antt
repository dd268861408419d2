-- ===== src/Model/Schema/Names.antt =====
-- The comparison of names and the set of visited names.
use mo_db.Prelude.{
  ℕ, ◌≡◌, ◌≢◌, refl, ap, arith, true, false, Bool-cases, inl, inr, List, [], ◌∷◌, All,
}
use mo_db.Model.Schema.{same_name, has_name}

pub same_name→eq : (a b : List ℕ) → same_name a b ≡ true → a ≡ b
unfolding same_name
same_name→eq [] [] h = refl
same_name→eq (x ∷ xs) [] h = cc
same_name→eq [] (y ∷ ys) h = cc
same_name→eq (x ∷ xs) (y ∷ ys) h = ground (arith, same_name→eq xs ys)

pub same_name_refl : (a : List ℕ) → same_name a a ≡ true
unfolding same_name
same_name_refl [] = refl
same_name_refl (x ∷ xs) = ground (arith, same_name_refl xs)

pub same_name_ne : (a b : List ℕ) → a ≢ b → same_name a b ≡ false
same_name_ne a b h = elim (Bool-cases (same_name a b)) [
  | inl same ↦ absurd (h (same_name→eq a b same))
  | inr other ↦ other
]

-- No name of the list is this one.
abbrev pub NotIn : List ℕ → List (List ℕ) → Type 0
NotIn name names = All (λ n. n ≢ name) names

pub has_name_false→NotIn :
    (names : List (List ℕ)) (name : List ℕ) → has_name names name ≡ false → NotIn name names
unfolding has_name
has_name_false→NotIn [] name h = tt
has_name_false→NotIn (n ∷ names) name h = (
  λ e. ground (arith, same_name_refl name, ap (same_name n) e),
  has_name_false→NotIn names name (ground arith),
)

pub NotIn→has_name_false :
    (names : List (List ℕ)) (name : List ℕ) → NotIn name names → has_name names name ≡ false
unfolding has_name
NotIn→has_name_false [] name h = refl
NotIn→has_name_false (n ∷ names) name (h, hs) =
    rw (same_name_ne n name h) (NotIn→has_name_false names name hs)
