-- ===== src/Storage/SlottedPage/Room.antt =====
-- Areas that lie apart from one another have room between two bounds only for the sum of their
-- sizes: so neither `dead_bytes` nor `compact` subtracts too much.
use mo_db.Prelude.{
  ℕ, zero, suc, ◌+◌, ◌-◌, ◌≤◌, ◌<◌, ◌≡◌, ◌≢◌, ◌⊎◌, inl, inr, refl, ap₂, ◌∙◌, arith, ◌&&◌, leb, ltb,
  le→leb, lt→ltb, leb-false, ltb-false, leb→le, ltb→lt, ltb-false→le, leb-false→lt, max, ◌==◌,
  ==_iff, Bool-cases, zero-cases, if◌then◌else◌,
}
use mo_db.Storage.SlottedPage.{
  Page, record_offset, record_size, record_capacity, slot_count, free_end, live_capacity,
}
use mo_db.Storage.SlottedPage.Slots.{IsPage}

-- The sum of the first `n` values of a function.
pub total : (ℕ → ℕ) → ℕ → ℕ
total f zero = 0
total f (suc n) = total f n + f n

total-add : (f g : ℕ → ℕ) (n : ℕ) → total (λ i. f i + g i) n ≡ total f n + total g n
unfolding total
total-add f g zero = refl
total-add f g (suc n) = omega (arith, total-add f g n)

total-le : (f : ℕ → ℕ) (n : ℕ) → ((i : ℕ) → i < n → f i ≤ 1) → total f n ≤ n
unfolding total
total-le f zero h = omega arith
total-le f (suc n) h = omega (arith, total-le f n (λ i a. h i (omega arith)), h n (omega arith))

total-zero : (f : ℕ → ℕ) (n : ℕ) → ((i : ℕ) → i < n → f i ≡ 0) → total f n ≡ 0
unfolding total
total-zero f zero h = refl
total-zero f (suc n) h = omega (arith, total-zero f n (λ i a. h i (omega arith)), h n (omega arith))

-- Whether a place lies in an area.
hit : ℕ → ℕ → ℕ → ℕ
hit low size x = if leb low x && ltb x (low + size) then 1 else 0

hit-inside : (low size x : ℕ) → low ≤ x → x < low + size → hit low size x ≡ 1
unfolding hit
hit-inside low size x a b = rw (le→leb low x a, lt→ltb x (low + size) b) refl

hit-below : (low size x : ℕ) → x < low → hit low size x ≡ 0
unfolding hit
hit-below low size x a = rw (leb-false low x a) refl

hit-above : (low size x : ℕ) → low + size ≤ x → hit low size x ≡ 0
unfolding hit
hit-above low size x a = rw (le→leb low x (omega arith), ltb-false x (low + size) a) refl

-- Where a place lies.
data IsPlace (low size x : ℕ) : Type 0 where
  below : x < low → IsPlace low size x
  inside : low ≤ x → x < low + size → IsPlace low size x
  above : low + size ≤ x → IsPlace low size x

place_of : (low size x : ℕ) → IsPlace low size x
place_of low size x = elim (Bool-cases (leb low x)) [
  | inr a ↦ below (leb-false→lt low x a)
  | inl a ↦ elim (Bool-cases (ltb x (low + size))) [
    | inl b ↦ inside (leb→le low x a) (ltb→lt x (low + size) b)
    | inr b ↦ above (ltb-false→le x (low + size) b)
  ]
]

-- The places of an area among those from `a` on: none before it, and all of it once it is passed.
total-hit_below : (a low size m : ℕ) → a + m ≤ low → total (λ x. hit low size (a + x)) m ≡ 0
total-hit_below a low size m h =
    total-zero (λ x. hit low size (a + x)) m (λ i b. hit-below low size (a + i) (omega arith))

total-hit_inside :
    (a low size k : ℕ) → a ≤ low → k ≤ size → total (λ x. hit low size (a + x)) (low - a + k) ≡ k
unfolding total
total-hit_inside a low size zero h b =
    let e : low - a + 0 ≡ low - a = omega arith in
    rw e (total-hit_below a low size (low - a) (omega arith))
total-hit_inside a low size (suc k) h b =
    let e : low - a + suc k ≡ suc (low - a + k) = omega arith in
    rw e (
      omega (
        arith,
        total-hit_inside a low size k h (omega arith),
        hit-inside low size (a + (low - a + k)) (omega arith) (omega arith),
      ))

total-hit_above :
    (a low size k : ℕ) → a ≤ low → total (λ x. hit low size (a + x)) (low - a + size + k) ≡ size
unfolding total
total-hit_above a low size zero h =
    let e : low - a + size + 0 ≡ low - a + size = omega arith in
    rw e (total-hit_inside a low size size h (omega arith))
total-hit_above a low size (suc k) h =
    let e : low - a + size + suc k ≡ suc (low - a + size + k) = omega arith in
    rw e (
      omega (
        arith,
        total-hit_above a low size k h,
        hit-above low size (a + (low - a + size + k)) (omega arith),
      ))

total-hit :
    (a low size m : ℕ) → a ≤ low → low + size ≤ a + m → total (λ x. hit low size (a + x)) m ≡ size
total-hit a low size m h b =
    let e : low - a + size + (a + m - (low + size)) ≡ m = omega arith in
    rw e at (total-hit_above a low size (a + m - (low + size)) h)

module _ (low size : ℕ → ℕ) where
  -- In how many of the first `n` areas a place lies.
  cover : ℕ → ℕ → ℕ
  cover n x = total (λ i. hit (low i) (size i) x) n

  pub AreApart : ℕ → ℕ → Type 0
  AreApart i j =
      (size i ≡ 0) ⊎ ((size j ≡ 0) ⊎ ((low i + size i ≤ low j) ⊎ (low j + size j ≤ low i)))

  miss : (i j x : ℕ) → AreApart i j → low j ≤ x → x < low j + size j → hit (low i) (size i) x ≡ 0
  unfolding AreApart
  miss i j x (inl e) a b = elim (place_of (low i) (size i) x) [
    | below c ↦ hit-below (low i) (size i) x c
    | inside c d ↦ absurd (omega arith)
    | above c ↦ hit-above (low i) (size i) x c
  ]
  miss i j x (inr (inl e)) a b = absurd (omega arith)
  miss i j x (inr (inr (inl c))) a b = hit-above (low i) (size i) x (omega arith)
  miss i j x (inr (inr (inr c))) a b = hit-below (low i) (size i) x (omega arith)

  cover-le : (n x : ℕ) → ((i j : ℕ) → i < n → j < n → i ≢ j → AreApart i j) → cover n x ≤ 1
  unfolding cover total
  cover-le zero x h = omega arith
  cover-le (suc n) x h = elim (place_of (low n) (size n) x) [
    | below c ↦ omega (
      arith,
      hit-below (low n) (size n) x c,
      cover-le n x (λ i j a b e. h i j (omega arith) (omega arith) e),
    )
    | above c ↦ omega (
      arith,
      hit-above (low n) (size n) x c,
      cover-le n x (λ i j a b e. h i j (omega arith) (omega arith) e),
    )
    | inside c d ↦ omega (
      arith,
      hit-inside (low n) (size n) x c d,
      total-zero (λ i. hit (low i) (size i) x) n
          (λ i a. miss i n x (h i n (omega arith) (omega arith) (λ e. omega (arith, e))) c d),
    )
  ]

  -- Counted by places or by areas.
  total-cover :
      (n a m : ℕ)
      → ((i : ℕ) → i < n → (a ≤ low i) × (low i + size i ≤ a + m))
      → total (λ x. cover n (a + x)) m ≡ total size n
  unfolding total cover
  total-cover zero a m h = total-zero (λ x. 0) m (λ i b. refl)
  total-cover (suc n) a m h =
      let (above_a, below_m) = h n (omega arith) in
      total-add (λ x. cover n (a + x)) (λ x. hit (low n) (size n) (a + x)) m
      ∙ ap₂ ◌+◌ (total-cover n a m (λ i b. h i (omega arith)))
          (total-hit a (low n) (size n) m above_a below_m)

  -- The sizes of areas that lie apart between two bounds.
  pub total-size :
      (n a m : ℕ)
      → ((i : ℕ) → i < n → (a ≤ low i) × (low i + size i ≤ a + m))
      → ((i j : ℕ) → i < n → j < n → i ≢ j → AreApart i j)
      → total size n ≤ m
  total-size n a m h k =
      omega (
        arith,
        total-cover n a m h,
        total-le (λ x. cover n (a + x)) m (λ i b. cover-le n (a + i) k),
      )

live_capacity-total :
    (p : Page) (n : ℕ)
    → ((i : ℕ) → i < n → record_size p i ≡ 0 → record_capacity p i ≡ 0)
    → live_capacity n p ≡ total (record_capacity p) n
unfolding live_capacity total
live_capacity-total p zero h = refl
live_capacity-total p (suc n) h =
    let before = live_capacity-total p n (λ i a. h i (omega arith)) in
    elim (Bool-cases (record_size p n == 0)) [
      | inl free ↦
          rw free (omega (arith, before, h n (omega arith) ((==_iff (record_size p n) 0).0 free)))
      | inr live ↦ rw live (omega (arith, before))
    ]

-- The records of a well-formed page have room behind its free space.
pub live_capacity-le :
    (p : Page) (n : ℕ) → IsPage p → n ≤ slot_count p → live_capacity n p + free_end p ≤ 8192
unfolding AreApart
live_capacity-le p n h b = omega (
  arith,
  live_capacity-total p n (λ i a e. ((h.slot i (omega arith)).free e).1),
  h.high,
  total-size low (record_capacity p) n (free_end p) (8192 - free_end p) inside apart,
)
  where
    low : ℕ → ℕ
    low i = max (record_offset p i) (free_end p)

    inside :
        (i : ℕ)
        → i < n
        → (free_end p ≤ low i) × (low i + record_capacity p i ≤ free_end p + (8192 - free_end p))
    inside i a = elim (zero-cases (record_size p i)) [
      | inl e ↦
          let (o, c) = (h.slot i (omega arith)).free e in (omega arith, omega (arith, o, c, h.high))
      | inr e ↦ let s = h.slot i (omega arith) in (omega arith, omega (arith, s.low e, s.high))
    ]

    apart : (i j : ℕ) → i < n → j < n → i ≢ j → AreApart low (record_capacity p) i j
    apart i j a c e = elim (zero-cases (record_size p i)) [
      | inl z ↦ inl ((h.slot i (omega arith)).free z).1
      | inr u ↦ elim (zero-cases (record_size p j)) [
        | inl z ↦ inr (inl ((h.slot j (omega arith)).free z).1)
        | inr v ↦
            let f : free_end p ≤ record_offset p i = (h.slot i (omega arith)).low u in
            let g : free_end p ≤ record_offset p j = (h.slot j (omega arith)).low v in
            elim (h.apart i j (omega arith) (omega arith) e u v) [
              | inl k ↦ inr (inr (inl (omega (arith, k, f, g))))
              | inr k ↦ inr (inr (inr (omega (arith, k, f, g))))
            ]
      ]
    ]
