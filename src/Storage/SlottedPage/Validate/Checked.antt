-- ===== src/Storage/SlottedPage/Validate/Checked.antt =====
-- `validate_page` accepts the well-formed pages, and `create` makes one.
use mo_db.Prelude.{
  ℕ, zero, suc, ◌+◌, ◌-◌, ◌≤◌, ◌<◌, ◌≡◌, ◌≢◌, ◌⊎◌, inl, inr, refl, sym, ap, ◌∙◌, arith, none, some,
  List, [], ◌∷◌, ltb, ltb→lt, ltb-false→le, ==_ne, Bool-cases, zero-cases, ne-cases, All,
}
use mathlib.Core.Path.{subst}
use mo_db.Error.{ok, err, corrupt_page}
use mo_db.Storage.SlottedPage.{
  Page, record_offset, record_size, record_capacity, slot_generation, free_end, sub_size,
}
use mo_db.Storage.SlottedPage.Slots.{IsSlot, IsApart}
use mo_db.Prelude.{equal_cases}
use mo_db.Storage.SlottedPage.Validate.{Range, slot_range, slot_ranges}
use mo_db.Storage.SlottedPage.Validate.Ranges.{AreApart, IsPairwise, IsRange}

-- The range of a slot.
abbrev pub area : Page → ℕ → Range
area p slot = (record_offset p slot, record_offset p slot + record_capacity p slot)

-- What the test of a slot says.
data SlotCheck (p : Page) (slot : ℕ) : Type 0 where
  bad : slot_range p slot ≡ err corrupt_page → (IsSlot p (free_end p) slot → ⊥) → SlotCheck p slot
  free :
      slot_range p slot ≡ ok none
      → IsSlot p (free_end p) slot
      → record_size p slot ≡ 0
      → SlotCheck p slot
  live :
      slot_range p slot ≡ ok (some (area p slot))
      → IsSlot p (free_end p) slot
      → record_size p slot ≢ 0
      → SlotCheck p slot

module _ (p : Page) (slot : ℕ) where
  abbrev offset : ℕ
  offset = record_offset p slot

  abbrev size : ℕ
  size = record_size p slot

  abbrev capacity : ℕ
  capacity = record_capacity p slot

  free_check : slot_generation p slot ≢ 0 → size ≡ 0 → SlotCheck p slot
  unfolding slot_range
  free_check g z = elim (zero-cases offset) [
    | inr o ↦
        bad (rw (==_ne (slot_generation p slot) 0 g, z, ==_ne offset 0 o) refl)
          (λ h. o (h.free z).0)
    | inl o ↦ elim (zero-cases capacity) [
      | inr c ↦
          bad (rw (==_ne (slot_generation p slot) 0 g, z, o, ==_ne capacity 0 c) refl)
            (λ h. c (h.free z).1)
      | inl c ↦
          free (rw (==_ne (slot_generation p slot) 0 g, z, o, c) refl)
            (record {
              generation = g;
              free = λ _. (o, c);
              fits = omega (arith, z);
              low = λ u. absurd (u z);
              high = omega (arith, o, c);
            })
            z
    ]
  ]

  live_check : slot_generation p slot ≢ 0 → size ≢ 0 → SlotCheck p slot
  unfolding slot_range
  live_check g z = elim (Bool-cases (ltb capacity size)) [
    | inl a ↦
        bad (rw (==_ne (slot_generation p slot) 0 g, ==_ne size 0 z, a) refl)
          (λ h. omega (arith, h.fits, ltb→lt capacity size a))
    | inr a ↦ elim (Bool-cases (ltb offset (free_end p))) [
      | inl b ↦
          bad (rw (==_ne (slot_generation p slot) 0 g, ==_ne size 0 z, a, b) refl)
            (λ h. omega (arith, h.low z, ltb→lt offset (free_end p) b))
      | inr b ↦ elim (Bool-cases (ltb 8192 offset)) [
        | inl c ↦
            bad (rw (==_ne (slot_generation p slot) 0 g, ==_ne size 0 z, a, b, c) refl)
              (λ h. omega (arith, h.high, ltb→lt 8192 offset c))
        | inr c ↦
            let e : sub_size 8192 offset ≡ 8192 - offset =
              omega (arith, ltb-false→le 8192 offset c) in
            elim (Bool-cases (ltb (8192 - offset) capacity)) [
              | inl d ↦
                  bad (rw (==_ne (slot_generation p slot) 0 g, ==_ne size 0 z, a, b, c, e, d) refl)
                    (λ h. omega (arith, h.high, ltb→lt (8192 - offset) capacity d))
              | inr d ↦
                  live (rw (==_ne (slot_generation p slot) 0 g, ==_ne size 0 z, a, b, c, e, d) refl)
                    (record {
                      generation = g;
                      free = λ u. absurd (z u);
                      fits = ltb-false→le capacity size a;
                      low = λ _. ltb-false→le offset (free_end p) b;
                      high = omega (
                        arith,
                        ltb-false→le (8192 - offset) capacity d,
                        ltb-false→le 8192 offset c,
                      );
                    })
                    z
            ]
      ]
    ]
  ]

  slot_check : SlotCheck p slot
  unfolding slot_range
  slot_check = elim (zero-cases (slot_generation p slot)) [
    | inl g ↦ bad (rw g refl) (λ h. h.generation g)
    | inr g ↦ elim (zero-cases size) [ inl z ↦ free_check g z | inr z ↦ live_check g z ]
  ]

-- The ranges of the slots from `s` on, `n` of them.
pub record IsCollected (p : Page) (n s : ℕ) (rs : List Range) : Type 1 where
  pub slot : (i : ℕ) → s ≤ i → i < s + n → IsSlot p (free_end p) i
  pub ranges : All IsRange rs
  each :
      (P : Range → Type 0)
      → All P rs
      → (i : ℕ) → s ≤ i
      → i < s + n
      → record_size p i ≢ 0
      → P (area p i)
  every :
      (P : Range → Type 0)
      → ((i : ℕ) → s ≤ i → i < s + n → record_size p i ≢ 0 → P (area p i))
      → All P rs
  pub apart :
      IsPairwise rs
      → (i j : ℕ) → s ≤ i
      → i < j
      → j < s + n
      → record_size p i ≢ 0
      → record_size p j ≢ 0
      → IsApart p i j
  pub pairwise :
      ((i j : ℕ)
        → s ≤ i
        → i < j
        → j < s + n
        → record_size p i ≢ 0
        → record_size p j ≢ 0
        → IsApart p i j)
      → IsPairwise rs

first_cases : (s i : ℕ) → s ≤ i → (i ≡ s) ⊎ (s + 1 ≤ i)
first_cases s i h = elim (equal_cases i s) [
  | inl e ↦ inl e
  | inr e ↦ elim (ne-cases i s e) [ inl a ↦ absurd (omega arith) | inr a ↦ inr (omega arith) ]
]

empty-IsCollected : (p : Page) (s : ℕ) → IsCollected p 0 s []
empty-IsCollected p s = record {
  slot = λ i a b. absurd (omega arith);
  ranges = tt;
  each = λ P h i a b. absurd (omega arith);
  every = λ P h. tt;
  apart = λ h i j a b c. absurd (omega arith);
  pairwise = λ h. tt;
}

module _ (p : Page) (n s : ℕ) (rs : List Range) (h : IsCollected p n (s + 1) rs)
    (first : IsSlot p (free_end p) s) where
  next-IsSlot : (i : ℕ) → s ≤ i → i < s + suc n → IsSlot p (free_end p) i
  next-IsSlot i a b = elim (first_cases s i a) [
    | inl e ↦ subst (IsSlot p (free_end p)) (sym e) first
    | inr c ↦ h.slot i c (omega arith)
  ]

  free-IsCollected : record_size p s ≡ 0 → IsCollected p (suc n) s rs
  free-IsCollected z = record {
    slot = next-IsSlot;
    ranges = h.ranges;
    each = λ P k i a b u. elim (first_cases s i a) [
      | inl e ↦ absurd (u (ap (record_size p) e ∙ z))
      | inr c ↦ h.each P k i c (omega arith) u
    ];
    every = λ P k. h.every P (λ i a b u. k i (omega arith) (omega arith) u);
    apart = λ k i j a b c u v. elim (first_cases s i a) [
      | inl e ↦ absurd (u (ap (record_size p) e ∙ z))
      | inr d ↦ h.apart k i j d b (omega arith) u v
    ];
    pairwise = λ k. h.pairwise (λ i j a b c u v. k i j (omega arith) b (omega arith) u v);
  }

  live-IsCollected : record_size p s ≢ 0 → IsCollected p (suc n) s (area p s ∷ rs)
  live-IsCollected z = record {
    slot = next-IsSlot;
    ranges = (
      omega (
        arith,
        first.fits,
        elim (zero-cases (record_size p s)) as (λ _. 0 < record_size p s) [
          | inl e ↦ absurd (z e)
          | inr e ↦ omega arith
        ],
      ),
      h.ranges,
    );
    each = λ P k i a b u. elim (first_cases s i a) [
      | inl e ↦ subst (λ (j : ℕ). P (area p j)) (sym e) k.0
      | inr c ↦ h.each P k.1 i c (omega arith) u
    ];
    every = λ P k. (
      k s (omega arith) (omega arith) z,
      h.every P (λ i a b u. k i (omega arith) (omega arith) u),
    );
    apart = λ k i j a b c u v. elim (first_cases s i a) [
      | inl e ↦
          subst (λ (x : ℕ). IsApart p x j) (sym e)
            (h.each (AreApart (area p s)) k.0 j (omega (arith, e, b)) (omega arith) v)
      | inr d ↦ h.apart k.1 i j d b (omega arith) u v
    ];
    pairwise = λ k. (
      h.every (AreApart (area p s))
          (λ i a b u. k s i (omega arith) (omega arith) (omega arith) z u),
      h.pairwise (λ i j a b c u v. k i j (omega arith) b (omega arith) u v),
    );
  }

collect_next :
    (p : Page) (n s : ℕ)
    → ((slot_ranges p n (s + 1) ≡ err corrupt_page)
        × (((i : ℕ) → s + 1 ≤ i → i < s + 1 + n → IsSlot p (free_end p) i) → ⊥))
      ⊎ ((rs : List Range) × (slot_ranges p n (s + 1) ≡ ok rs) × IsCollected p n (s + 1) rs)
    → SlotCheck p s
    → ((slot_ranges p (suc n) s ≡ err corrupt_page)
        × (((i : ℕ) → s ≤ i → i < s + suc n → IsSlot p (free_end p) i) → ⊥))
      ⊎ ((rs : List Range) × (slot_ranges p (suc n) s ≡ ok rs) × IsCollected p (suc n) s rs)
unfolding slot_ranges
collect_next p n s rest (bad e fails) =
    inl (rw e refl, λ h. fails (h s (omega arith) (omega arith)))
collect_next p n s (inl (e, fails)) (free f first z) =
    inl (rw (f, e) refl, λ h. fails (λ i a b. h i (omega arith) (omega arith)))
collect_next p n s (inl (e, fails)) (live f first z) =
    inl (rw (f, e) refl, λ h. fails (λ i a b. h i (omega arith) (omega arith)))
collect_next p n s (inr (rs, e, h)) (free f first z) =
    inr (rs, rw (f, e) refl, free-IsCollected p n s rs h first z)
collect_next p n s (inr (rs, e, h)) (live f first z) =
    inr (area p s ∷ rs, rw (f, e) refl, live-IsCollected p n s rs h first z)

-- The loop fails if a slot is bad, and collects the ranges otherwise.
pub slot_ranges_cases :
    (p : Page) (n s : ℕ)
    → ((slot_ranges p n s ≡ err corrupt_page)
        × (((i : ℕ) → s ≤ i → i < s + n → IsSlot p (free_end p) i) → ⊥))
      ⊎ ((rs : List Range) × (slot_ranges p n s ≡ ok rs) × IsCollected p n s rs)
unfolding slot_ranges
slot_ranges_cases p zero s = inr ([], refl, empty-IsCollected p s)
slot_ranges_cases p (suc n) s = collect_next p n s (slot_ranges_cases p n (s + 1)) (slot_check p s)
