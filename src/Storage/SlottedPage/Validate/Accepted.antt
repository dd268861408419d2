-- ===== src/Storage/SlottedPage/Validate/Accepted.antt =====
-- `validate_page` accepts the well-formed pages.
use mo_db.Prelude.{
  ℕ, ◌+◌, ◌*◌, ◌≤◌, ◌≡◌, ◌≢◌, ◌⊎◌, ◌↔◌, inl, inr, refl, sym, ap, ap₂, ◌∙◌, length, get_or, drop,
  arith, Bool, true, false, ◌&&◌, List, [], ◌∷◌, ltb, ltb→lt, ltb-false→le, ◌==◌, ==_iff, ==_ne,
  Bool-cases, ne-cases,
}
use mo_db.Error.{
  Result, ErrorCode, ok, err, ◌>>=◌, ◌>>◌, corrupt_page, invalid_page_format,
  incompatible_page_version,
}
use mo_db.Storage.SlottedPage.{Page, subspan, slot_count, free_start, free_end}
use mo_db.Storage.SlottedPage.Bytes.{IsBytePage}
use mo_db.Storage.SlottedPage.Slots.{IsPage, IsApart}
use mo_db.Prelude.{equal_cases}
use mo_db.Storage.SlottedPage.Validate.{
  Range, magic, holds_at, slot_ranges, check_bounds, check_format, check_ranges, validate_page,
}
use mo_db.Storage.SlottedPage.Validate.Ranges.{check_ranges_iff}
use mo_db.Storage.SlottedPage.Validate.Checked.{IsCollected, slot_ranges_cases}

-- The magic and a version that is known.
abbrev pub HasFormat : Page → Type 0
HasFormat p = (subspan p 0 4 ≡ magic) × ((p 4 ≡ 4) ⊎ (p 4 ≡ 3))

holds_at_iff :
    (bs : List ℕ) (p : Page) (at : ℕ) → (holds_at bs p at ≡ true) ↔ (subspan p at (length bs) ≡ bs)
unfolding holds_at subspan
holds_at_iff [] p at = (λ _. refl, λ _. refl)
holds_at_iff (b ∷ bs) p at =
    let (to, from) = holds_at_iff bs p (at + 1) in
    (
      λ e.
          let (x, y) = and_true (p at == b) (holds_at bs p (at + 1)) e in
          ap₂ ◌∷◌ ((==_iff (p at) b).0 x) (to y),
      λ e.
          rw
            (
              (==_iff (p at) b).1 (ap (λ (t : List ℕ). get_or t 0 0) e),
              from (ap (λ (t : List ℕ). drop 1 t) e),
            )
            refl,
    )
  where
    and_true : (a c : Bool) → (a && c) ≡ true → (a ≡ true) × (c ≡ true)
    and_true true true e = (refl, refl)
    and_true true false e = cc
    and_true false c e = cc

err-ne : (e : ErrorCode) → Path (Result (Unit {0})) (err e) (ok tt) → ⊥
err-ne e q = cc

check_format_iff : (p : Page) → (check_format p ≡ ok tt) ↔ HasFormat p
unfolding check_format
check_format_iff p = elim (Bool-cases (holds_at magic p 0)) [
  | inr bad ↦ (
    λ q. absurd (err-ne invalid_page_format (rw bad at q)),
    λ h. absurd (true-ne (sym ((holds_at_iff magic p 0).1 h.0) ∙ bad)),
  )
  | inl good ↦
      let front = (holds_at_iff magic p 0).0 good in
      elim (Bool-cases (p 4 == 4)) [
        | inl a ↦ (λ q. (front, inl ((==_iff (p 4) 4).0 a)), λ h. rw (good, a) refl)
        | inr a ↦ elim (Bool-cases (p 4 == 3)) [
          | inl b ↦ (λ q. (front, inr ((==_iff (p 4) 3).0 b)), λ h. rw (good, a, b) refl)
          | inr b ↦ (
            λ q. absurd (err-ne incompatible_page_version (rw (good, a, b) at q)),
            λ h. elim h.1 [
              | inl c ↦ absurd (true-ne (sym ((==_iff (p 4) 4).1 c) ∙ a))
              | inr c ↦ absurd (true-ne (sym ((==_iff (p 4) 3).1 c) ∙ b))
            ],
          )
        ]
      ]
]
  where
    true-ne : true ≢ false
    true-ne q = cc

-- The bounds of the free space.
abbrev HasBounds : Page → Type 0
HasBounds p =
    (free_start p ≡ 28 + slot_count p * 8) × (free_start p ≤ free_end p) × (free_end p ≤ 8192)

bounds_cases :
    (p : Page)
    → ((check_bounds p ≡ err corrupt_page) × (HasBounds p → ⊥))
      ⊎ ((check_bounds p ≡ ok tt) × HasBounds p)
unfolding check_bounds
bounds_cases p = elim (Bool-cases (ltb 8192 (28 + slot_count p * 8))) [
  | inl a ↦
      let b = ltb→lt 8192 (28 + slot_count p * 8) a in
      inl (rw a refl, λ h. omega (arith, b, h.0, h.1, h.2))
  | inr a ↦ elim (equal_cases (free_start p) (28 + slot_count p * 8)) [
    | inr b ↦ inl (rw (a, ==_ne (free_start p) (28 + slot_count p * 8) b) refl, λ h. b h.0)
    | inl b ↦
        let b' = (==_iff (free_start p) (28 + slot_count p * 8)).1 b in
        elim (Bool-cases (ltb (free_end p) (free_start p))) [
          | inl c ↦
              let d = ltb→lt (free_end p) (free_start p) c in
              inl (rw (a, b', c) refl, λ h. omega (arith, d, h.1))
          | inr c ↦ elim (Bool-cases (ltb 8192 (free_end p))) [
            | inl d ↦
                let e = ltb→lt 8192 (free_end p) d in
                inl (rw (a, b', c, d) refl, λ h. omega (arith, e, h.2))
            | inr d ↦ inr (
              rw (a, b', c, d) refl,
              (b, ltb-false→le (free_end p) (free_start p) c, ltb-false→le 8192 (free_end p) d),
            )
          ]
        ]
  ]
]

swap-IsApart : (p : Page) (i j : ℕ) → IsApart p i j → IsApart p j i
swap-IsApart p i j (inl a) = inr a
swap-IsApart p i j (inr a) = inl a

-- The slots whose ranges passed the test.
collected-IsPage :
    (p : Page) (rs : List Range)
    → IsBytePage p
    → HasBounds p
    → IsCollected p (slot_count p) 0 rs
    → (check_ranges rs ≡ ok tt) ↔ IsPage p
collected-IsPage p rs hb (start, low, high) h = (
  λ e.
      let pairs = (check_ranges_iff rs h.ranges).0 e in
      record {
        bytes = hb;
        directory = start;
        low = low;
        high = high;
        slot = λ i a. h.slot i (omega arith) (omega (arith, a));
        apart = λ i j a b e' u v. elim (ne-cases i j e') [
          | inl c ↦ h.apart pairs i j (omega arith) c (omega (arith, b)) u v
          | inr c ↦ swap-IsApart p j i (h.apart pairs j i (omega arith) c (omega (arith, a)) v u)
        ];
      },
  λ w. (check_ranges_iff rs h.ranges).1 (
      h.pairwise (λ i j a b c u v.
        w.apart i j (omega (arith, b, c)) (omega (arith, c)) (λ e. omega (arith, e, b)) u v)),
)

validate_bounds :
    (p : Page) → IsBytePage p → check_format p ≡ ok tt → (validate_page p ≡ ok tt) ↔ IsPage p
unfolding validate_page
validate_bounds p hb f = rw f (elim (bounds_cases p) [
  | inl (e, fails) ↦ (
    λ q. absurd (err-ne corrupt_page (rw e at q)),
    λ w. absurd (fails (w.directory, w.low, w.high)),
  )
  | inr (e, bounds) ↦ rw e (elim (slot_ranges_cases p (slot_count p) 0) [
    | inl (k, fails) ↦ (
      λ q. absurd (err-ne corrupt_page (rw k at q)),
      λ w. absurd (fails (λ i a b. w.slot i (omega (arith, b)))),
    )
    | inr (rs, k, h) ↦ rw k (collected-IsPage p rs hb bounds h)
  ])
])

format_first : (p : Page) → validate_page p ≡ ok tt → check_format p ≡ ok tt
unfolding validate_page
format_first p e = go (check_format p) e
  where
    go :
        (r : Result (Unit {0}))
        → (r >> check_bounds p >> (slot_ranges p (slot_count p) 0 >>= check_ranges)) ≡ ok tt
        → r ≡ ok tt
    go (ok tt) h = refl
    go (err e) h = absurd (err-ne e h)

-- A page of bytes passes `validate_page` if and only if it has the magic and a version that is known
-- and is well formed: its bounds are in order, each slot has a generation that is not zero and either
-- is free, without offset and capacity, or has a record that is at most as long as its area behind
-- the free space, and the areas lie apart from one another.
pub validate_page_iff :
    (p : Page) → IsBytePage p → (validate_page p ≡ ok tt) ↔ (HasFormat p × IsPage p)
validate_page_iff p hb = (
  λ e. let f = format_first p e in ((check_format_iff p).0 f, (validate_bounds p hb f).0 e),
  λ (f, w). (validate_bounds p hb ((check_format_iff p).1 f)).1 w,
)
