-- ===== src/Storage/SlottedPage/Reads.antt =====
-- What a slot shows: its record and its generation, or that there is none.
use mo_db.Prelude.{
  ℕ, leb, le→leb, leb-false, leb→le, leb-false→lt, take, zero, suc, ◌+◌, ◌-◌, ◌≤◌, ◌<◌, ◌≡◌, ◌≢◌,
  inl, inr, refl, sym, ap, ◌∙◌, arith, List, ◌∷◌, ==_ne, Bool-cases, zero-cases, true, false,
}
use mo_db.Storage.SlottedPage.{
  Page, subspan, record_offset, record_size, record_capacity, slot_generation, slot_count,
  free_start, free_end, live_capacity, compact, is_missing, read_in, generation_in, free_space,
  dead_bytes,
}
use mo_db.Storage.SlottedPage.Slots.{IsPage}
use mo_db.Error.{ok, err, slot_not_found}
use mo_db.Storage.SlottedPage.Room.{live_capacity-le}
use mo_db.Storage.SlottedPage.Moved.{IsCopied}
use mo_db.Storage.SlottedPage.Compact.{IsCompacted, compact-IsCompacted}

-- Both pages show the same at a slot.
pub record IsAlike (p q : Page) (slot : ℕ) : Type 0 where
  pub read : read_in q slot ≡ read_in p slot
  pub generation : generation_in q slot ≡ generation_in p slot

pub missing : (p : Page) (slot : ℕ) → slot_count p ≤ slot → is_missing p slot ≡ true
unfolding is_missing
missing p slot h = rw (le→leb (slot_count p) slot h) refl

pub free_missing : (p : Page) (slot : ℕ) → record_size p slot ≡ 0 → is_missing p slot ≡ true
unfolding is_missing
free_missing p slot h = elim (Bool-cases (leb (slot_count p) slot)) [
  | inl a ↦ rw a refl
  | inr a ↦ rw (a, h) refl
]

pub present :
    (p : Page) (slot : ℕ) → slot < slot_count p → record_size p slot ≢ 0 → is_missing p slot ≡ false
unfolding is_missing
present p slot h k = rw (leb-false (slot_count p) slot h, ==_ne (record_size p slot) 0 k) refl

pub read_in-missing :
    (p : Page) (slot : ℕ) → is_missing p slot ≡ true → read_in p slot ≡ err slot_not_found
unfolding read_in
read_in-missing p slot h = rw h refl

pub read_in-present :
    (p : Page) (slot : ℕ)
    → slot < slot_count p
    → record_size p slot ≢ 0
    → (read_in p slot ≡ ok (subspan p (record_offset p slot) (record_size p slot)))
      × (generation_in p slot ≡ ok (slot_generation p slot))
unfolding read_in generation_in
read_in-present p slot h k = rw (present p slot h k) (refl, refl)

pub missing-IsAlike :
    (p q : Page) (slot : ℕ) → is_missing p slot ≡ true → is_missing q slot ≡ true → IsAlike p q slot
unfolding read_in generation_in
missing-IsAlike p q slot h k = record { read = rw (h, k) refl; generation = rw (h, k) refl }

-- Slots of the same size and generation whose bytes are the same.
pub present-IsAlike :
    (p q : Page) (slot : ℕ)
    → slot < slot_count p
    → slot < slot_count q
    → record_size q slot ≡ record_size p slot
    → slot_generation q slot ≡ slot_generation p slot
    → (record_size p slot ≢ 0
        → subspan q (record_offset q slot) (record_size p slot)
          ≡ subspan p (record_offset p slot) (record_size p slot))
    → IsAlike p q slot
present-IsAlike p q slot h k e g content = elim (zero-cases (record_size p slot)) [
  | inl z ↦ missing-IsAlike p q slot (free_missing p slot z) (free_missing q slot (e ∙ z))
  | inr z ↦
      let (rp, gp) = read_in-present p slot h z in
      let (rq, gq) = read_in-present q slot k (λ u. z (sym e ∙ u)) in
      record {
        read = rq ∙ ap ok (ap (subspan q (record_offset q slot)) e ∙ content z) ∙ sym rp;
        generation = gq ∙ ap ok g ∙ sym gp;
      }
]

pub take-subspan : (p : Page) (o k n : ℕ) → k ≤ n → take k (subspan p o n) ≡ subspan p o k
unfolding subspan
take-subspan p o zero n h = refl
take-subspan p o (suc k) zero h = absurd (omega arith)
take-subspan p o (suc k) (suc n) h =
    ap (λ (t : List ℕ). p o ∷ t) (take-subspan p (o + 1) k n (omega arith))

-- `compact` changes nothing that a client sees, and gathers all that is free.
module _ (p : Page) (w : IsPage p) where
  abbrev c : IsCompacted p (compact p)
  c = compact-IsCompacted p w

  pub compact-IsAlike : (slot : ℕ) → IsAlike p (compact p) slot
  compact-IsAlike slot = elim (Bool-cases (leb (slot_count p) slot)) [
    | inl out ↦
        missing-IsAlike p (compact p) slot (missing p slot (leb→le (slot_count p) slot out))
          (missing (compact p) slot (omega (arith, c.count, leb→le (slot_count p) slot out)))
    | inr there ↦
        let b : slot < slot_count p = leb-false→lt (slot_count p) slot there in
        let k : IsCopied p (compact p) (free_end (compact p)) slot = c.copied slot b in
        let fits : record_size p slot ≤ record_capacity p slot = (w.slot slot b).fits in
        present-IsAlike p (compact p) slot b (omega (arith, c.count, b)) k.size k.generation (λ z.
          sym (
            take-subspan (compact p) (record_offset (compact p) slot) (record_size p slot)
              (record_capacity p slot) fits)
          ∙ ap (take (record_size p slot)) k.content
          ∙ take-subspan p (record_offset p slot) (record_size p slot) (record_capacity p slot)
              fits)
  ]

  pub free_space-IsPage : free_space p ≡ free_end p - free_start p
  unfolding free_space
  free_space-IsPage = omega (arith, w.low, w.high)

  pub dead_bytes-IsPage : dead_bytes p ≡ 8192 - free_end p - live_capacity (slot_count p) p
  unfolding dead_bytes
  dead_bytes-IsPage = omega (arith, w.high, live_capacity-le p (slot_count p) w (omega arith))

pub live_capacity-cong :
    (p q : Page) (n : ℕ)
    → ((i : ℕ)
        → i < n
        → (record_size q i ≡ record_size p i) × (record_capacity q i ≡ record_capacity p i))
    → live_capacity n q ≡ live_capacity n p
unfolding live_capacity
live_capacity-cong p q zero h = refl
live_capacity-cong p q (suc n) h =
    let (s, k) = h n (omega arith) in
    rw (s, k, live_capacity-cong p q n (λ i a. h i (omega arith))) refl

-- `compact` of a well-formed page is well formed, shows the same at every slot, has no dead bytes,
-- and its free space is that of the page and its dead bytes together.
pub compact_lem :
    (p : Page)
    → IsPage p
    → IsPage (compact p)
      × ((slot : ℕ) → IsAlike p (compact p) slot)
      × (dead_bytes (compact p) ≡ 0)
      × (free_space (compact p) ≡ free_space p + dead_bytes p)
compact_lem p w =
    let c : IsCompacted p (compact p) = compact-IsCompacted p w in
    let live : live_capacity (slot_count (compact p)) (compact p) ≡ live_capacity (slot_count p) p =
      ap (λ (n : ℕ). live_capacity n (compact p)) c.count
      ∙ live_capacity-cong p (compact p) (slot_count p)
          (λ i a. let k = c.copied i a in (k.size, k.capacity)) in
    (
      c.page,
      compact-IsAlike p w,
      omega (arith, dead_bytes-IsPage (compact p) c.page, live, c.end),
      omega (
        arith,
        free_space-IsPage (compact p) c.page,
        free_space-IsPage p w,
        dead_bytes-IsPage p w,
        c.end,
        c.start,
        w.low,
        w.high,
        live_capacity-le p (slot_count p) w (omega arith),
      ),
    )
