-- ===== src/Storage/SlottedPage/Validate/Ranges.antt =====
-- The ranges that lie apart from one another: sorting and the test of neighbours decide it.
use mo_db.Prelude.{
  ℕ, ◌≤◌, ◌<◌, ◌≡◌, ◌⊎◌, ◌↔◌, inl, inr, refl, arith, Bool, true, false, ◌||◌, List, [], ◌∷◌, ltb,
  ltb-false, ltb-false→le, Bool-cases, All,
}
use mo_db.Storage.SlottedPage.Validate.{
  Range, range_less, insert_range, sort, overlap, check_ranges,
}
use mo_db.Error.{Result, ok, err, corrupt_page}

abbrev pub AreApart : Range → Range → Type 0
AreApart r s = (r.1 ≤ s.0) ⊎ (s.1 ≤ r.0)

AreApart-sym : (r s : Range) → AreApart r s → AreApart s r
AreApart-sym r s (inl h) = inr h
AreApart-sym r s (inr h) = inl h

abbrev pub IsPairwise : List Range → Type 0
IsPairwise [] = Unit
IsPairwise (r ∷ rs) = All (AreApart r) rs × IsPairwise rs

-- A range has an end behind its offset.
abbrev pub IsRange : Range → Type 0
IsRange r = r.0 < r.1

-- Sorted by the offset.
abbrev IsSorted : List Range → Type 0
IsSorted [] = Unit
IsSorted (r ∷ rs) = All (λ (s : Range). r.0 ≤ s.0) rs × IsSorted rs

module _ (P : Range → Type 0) where
  insert_range-All : (r : Range) (rs : List Range) → P r → All P rs → All P (insert_range r rs)
  unfolding insert_range
  insert_range-All r [] h k = (h, tt)
  insert_range-All r (s ∷ ss) h (k, ks) = elim (Bool-cases (range_less s r)) [
    | inl less ↦ rw less (k, insert_range-All r ss h ks)
    | inr other ↦ rw other (h, (k, ks))
  ]

  from_insert_range : (r : Range) (rs : List Range) → All P (insert_range r rs) → P r × All P rs
  unfolding insert_range
  from_insert_range r [] h = h
  from_insert_range r (s ∷ ss) h = elim (Bool-cases (range_less s r)) [
    | inl less ↦
        let (k, rest) = rw less at h in let (a, b) = from_insert_range r ss rest in (a, (k, b))
    | inr other ↦ rw other at h
  ]

  pub sort-All : (rs : List Range) → All P rs → All P (sort rs)
  unfolding sort
  sort-All [] h = tt
  sort-All (r ∷ rs) (h, k) = insert_range-All r (sort rs) h (sort-All rs k)

insert_range-IsPairwise :
    (r : Range) (rs : List Range)
    → All (AreApart r) rs
    → IsPairwise rs
    → IsPairwise (insert_range r rs)
unfolding insert_range
insert_range-IsPairwise r [] h k = (tt, tt)
insert_range-IsPairwise r (s ∷ ss) (h, hs) (k, ks) = elim (Bool-cases (range_less s r)) [
  | inl less ↦ rw less (
    insert_range-All (AreApart s) r ss (AreApart-sym r s h) k,
    insert_range-IsPairwise r ss hs ks,
  )
  | inr other ↦ rw other ((h, hs), (k, ks))
]

from_insert-IsPairwise :
    (r : Range) (rs : List Range)
    → IsPairwise (insert_range r rs)
    → All (AreApart r) rs × IsPairwise rs
unfolding insert_range
from_insert-IsPairwise r [] h = (tt, tt)
from_insert-IsPairwise r (s ∷ ss) h = elim (Bool-cases (range_less s r)) [
  | inl less ↦
      let (k, rest) = rw less at h in
      let (a, b) = from_insert_range (AreApart s) r ss k in
      let (c, d) = from_insert-IsPairwise r ss rest in ((AreApart-sym s r a, c), (b, d))
  | inr other ↦ rw other at h
]

pub sort-IsPairwise : (rs : List Range) → IsPairwise rs → IsPairwise (sort rs)
unfolding sort
sort-IsPairwise [] h = tt
sort-IsPairwise (r ∷ rs) (h, k) =
    insert_range-IsPairwise r (sort rs) (sort-All (AreApart r) rs h) (sort-IsPairwise rs k)

from_sort-All : (P : Range → Type 0) (rs : List Range) → All P (sort rs) → All P rs
unfolding sort
from_sort-All P [] h = tt
from_sort-All P (r ∷ rs) h =
    let (a, b) = from_insert_range P r (sort rs) h in (a, from_sort-All P rs b)

from_sort-IsPairwise : (rs : List Range) → IsPairwise (sort rs) → IsPairwise rs
unfolding sort
from_sort-IsPairwise [] h = tt
from_sort-IsPairwise (r ∷ rs) h =
    let (a, b) = from_insert-IsPairwise r (sort rs) h in
    (from_sort-All (AreApart r) rs a, from_sort-IsPairwise rs b)

less_le : (r s : Range) → range_less s r ≡ true → s.0 ≤ r.0
less_le (a, b) (c, d) h = ground arith

other_le : (r s : Range) → range_less s r ≡ false → r.0 ≤ s.0
other_le (a, b) (c, d) h = ground arith

All-le :
    (a b : ℕ) (rs : List Range)
    → a ≤ b
    → All (λ (s : Range). b ≤ s.0) rs
    → All (λ (s : Range). a ≤ s.0) rs
All-le a b [] h k = tt
All-le a b (r ∷ rs) h (k, ks) = (omega arith, All-le a b rs h ks)

insert_range-IsSorted : (r : Range) (rs : List Range) → IsSorted rs → IsSorted (insert_range r rs)
unfolding insert_range
insert_range-IsSorted r [] h = (tt, tt)
insert_range-IsSorted r (s ∷ ss) (h, hs) = elim (Bool-cases (range_less s r)) [
  | inl less ↦ rw less (
    insert_range-All (λ (t : Range). s.0 ≤ t.0) r ss (less_le r s less) h,
    insert_range-IsSorted r ss hs,
  )
  | inr other ↦
      let e : r.0 ≤ s.0 = other_le r s other in rw other ((e, All-le r.0 s.0 ss e h), (h, hs))
]

sort-IsSorted : (rs : List Range) → IsSorted (sort rs)
unfolding sort
sort-IsSorted [] = tt
sort-IsSorted (r ∷ rs) = insert_range-IsSorted r (sort rs) (sort-IsSorted rs)

-- On sorted ranges the test of neighbours is enough.
apart_of : (r : Range) (rs : List Range) → All (λ (s : Range). r.1 ≤ s.0) rs → All (AreApart r) rs
apart_of r [] h = tt
apart_of r (s ∷ ss) (h, hs) = (inl h, apart_of r ss hs)

or_false : (a b : Bool) → (a || b) ≡ false → (a ≡ false) × (b ≡ false)
or_false false false h = (refl, refl)
or_false false true h = cc
or_false true b h = cc

behind :
    (r : Range) (rs : List Range)
    → All IsRange (r ∷ rs)
    → overlap (r ∷ rs) ≡ false
    → All (λ (s : Range). r.1 ≤ s.0) rs × IsPairwise rs
unfolding overlap
behind r [] h o = (tt, tt)
behind r (s ∷ ss) (h, (k, ks)) o =
    let (near, far) = or_false (ltb s.0 r.1) (overlap (s ∷ ss)) o in
    let (b, rest) = behind s ss (k, ks) far in
    let e : r.1 ≤ s.0 = ltb-false→le s.0 r.1 near in
    ((e, All-le r.1 s.1 ss (omega (arith, e, k)) b), (apart_of s ss b, rest))

no_overlap : (rs : List Range) → All IsRange rs → IsSorted rs → IsPairwise rs → overlap rs ≡ false
unfolding overlap
no_overlap [] h s w = refl
no_overlap (r ∷ []) h s w = refl
no_overlap (r ∷ t ∷ ts) (h, (k, ks)) ((a, later), s) ((b, others), w) =
    rw (ltb-false t.0 r.1 (from_AreApart b)) (no_overlap (t ∷ ts) (k, ks) s w)
  where
    from_AreApart : AreApart r t → r.1 ≤ t.0
    from_AreApart (inl e) = e
    from_AreApart (inr e) = absurd (omega (arith, h, k, a, e))

split_overlap : (rs : List Range) → All IsRange rs → overlap rs ≡ false → IsPairwise rs
split_overlap [] h o = tt
split_overlap (r ∷ rs) h o = let (b, rest) = behind r rs h o in (apart_of r rs b, rest)

-- `check_ranges` decides whether all ranges lie apart from one another.
pub check_ranges_iff :
    (rs : List Range) → All IsRange rs → (check_ranges rs ≡ ok tt) ↔ IsPairwise rs
unfolding check_ranges
check_ranges_iff rs h = (
  λ e. from_sort-IsPairwise rs (
      split_overlap (sort rs) (sort-All IsRange rs h) (elim (Bool-cases (overlap (sort rs))) [
        | inl bad ↦ absurd (err-ne (rw bad at e))
        | inr good ↦ good
      ])),
  λ w.
      rw (no_overlap (sort rs) (sort-All IsRange rs h) (sort-IsSorted rs) (sort-IsPairwise rs w))
        refl,
)
  where
    err-ne : Path (Result (Unit {0})) (err corrupt_page) (ok tt) → ⊥
    err-ne q = cc
