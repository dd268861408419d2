-- ===== src/Storage/SlottedPage/Slots.antt =====
-- The entries of the directory, and the pages that are well formed.
use mo_db.Prelude.{ℕ, ◌+◌, ◌*◌, ◌^◌, ◌≤◌, ◌<◌, ◌≡◌, ◌≢◌, ◌⊎◌, inl, inr, ◌∙◌, arith}
use mo_db.Storage.SlottedPage.{
  Page, subspan, write_u16, slot_offset, record_offset, record_size, record_capacity,
  slot_generation, write_slot, slot_count, free_start, free_end,
}
use mo_db.Storage.SlottedPage.Bytes.{
  read_u16-lt, subspan-cong, IsOutside, IsBytePage, write_u16-outside, read_u16-write_u16,
  read_u16-apart, read_u16-cong, write_u16-IsBytePage, subspan-cong,
}

-- The bytes of two pages agree outside of a range.
pub write_slot-outside :
    (slot o s c g : ℕ) (p : Page) (i : ℕ)
    → IsOutside i (slot_offset slot) 8
    → write_slot slot o s c g p i ≡ p i
unfolding write_slot
write_slot-outside slot o s c g p i h =
    write_u16-outside (slot_offset slot + 6) g
      (write_u16 (slot_offset slot + 4) c
        (write_u16 (slot_offset slot + 2) s (write_u16 (slot_offset slot) o p)))
      i (part 6 h (omega arith))
    ∙ write_u16-outside (slot_offset slot + 4) c
        (write_u16 (slot_offset slot + 2) s (write_u16 (slot_offset slot) o p)) i
        (part 4 h (omega arith))
    ∙ write_u16-outside (slot_offset slot + 2) s (write_u16 (slot_offset slot) o p) i
        (part 2 h (omega arith))
    ∙ write_u16-outside (slot_offset slot) o p i (part0 h)
  where
    part : (k : ℕ) → IsOutside i (slot_offset slot) 8 → k ≤ 6 → IsOutside i (slot_offset slot + k) 2
    part k (inl a) b = inl (omega arith)
    part k (inr a) b = inr (omega arith)

    part0 : IsOutside i (slot_offset slot) 8 → IsOutside i (slot_offset slot) 2
    part0 (inl a) = inl a
    part0 (inr a) = inr (omega arith)

pub write_slot-IsBytePage :
    (slot o s c g : ℕ) (p : Page) → IsBytePage p → IsBytePage (write_slot slot o s c g p)
unfolding write_slot
write_slot-IsBytePage slot o s c g p h = write_u16-IsBytePage (slot_offset slot + 6) g _ (
    write_u16-IsBytePage (slot_offset slot + 4) c _ (
      write_u16-IsBytePage (slot_offset slot + 2) s _
        (write_u16-IsBytePage (slot_offset slot) o p h)))

-- The entry of a slot.
pub record IsEntry (p : Page) (slot o s c g : ℕ) : Type 0 where
  pub offset : record_offset p slot ≡ o
  pub size : record_size p slot ≡ s
  pub capacity : record_capacity p slot ≡ c
  pub generation : slot_generation p slot ≡ g

pub write_slot-IsEntry :
    (slot o s c g : ℕ) (p : Page)
    → o < 2 ^ 16
    → s < 2 ^ 16
    → c < 2 ^ 16
    → g < 2 ^ 16
    → IsEntry (write_slot slot o s c g p) slot o s c g
unfolding write_slot record_offset record_size record_capacity slot_generation
write_slot-IsEntry slot o s c g p ho hs hc hg = record {
  offset =
      read_u16-apart (at + 6) g at _ (inl (omega arith))
      ∙ read_u16-apart (at + 4) c at _ (inl (omega arith))
      ∙ read_u16-apart (at + 2) s at _ (inl (omega arith))
      ∙ read_u16-write_u16 at o p ho;
  size =
      read_u16-apart (at + 6) g (at + 2) _ (inl (omega arith))
      ∙ read_u16-apart (at + 4) c (at + 2) _ (inl (omega arith))
      ∙ read_u16-write_u16 (at + 2) s _ hs;
  capacity =
      read_u16-apart (at + 6) g (at + 4) _ (inl (omega arith)) ∙ read_u16-write_u16 (at + 4) c _ hc;
  generation = read_u16-write_u16 (at + 6) g _ hg;
}
  where
    at : ℕ
    at = slot_offset slot

-- The directory entries and the header of two pages are the same where their bytes are.
pub entry-cong :
    (p q : Page) (slot : ℕ)
    → ((i : ℕ) → slot_offset slot ≤ i → i < slot_offset slot + 8 → p i ≡ q i)
    → IsEntry p slot
        (record_offset q slot)
        (record_size q slot)
        (record_capacity q slot)
        (slot_generation q slot)
unfolding record_offset record_size record_capacity slot_generation
entry-cong p q slot h = record {
  offset = read_u16-cong p q (slot_offset slot) (λ i a b. h i (omega arith) (omega arith));
  size = read_u16-cong p q (slot_offset slot + 2) (λ i a b. h i (omega arith) (omega arith));
  capacity = read_u16-cong p q (slot_offset slot + 4) (λ i a b. h i (omega arith) (omega arith));
  generation = read_u16-cong p q (slot_offset slot + 6) (λ i a b. h i (omega arith) (omega arith));
}

-- A free slot has no area; a live one lies between the free space and the end of the page.
pub record IsSlot (p : Page) (end slot : ℕ) : Type 0 where
  pub generation : slot_generation p slot ≢ 0
  pub free : record_size p slot ≡ 0 → (record_offset p slot ≡ 0) × (record_capacity p slot ≡ 0)
  pub fits : record_size p slot ≤ record_capacity p slot
  pub low : record_size p slot ≢ 0 → end ≤ record_offset p slot
  pub high : record_offset p slot + record_capacity p slot ≤ 8192

abbrev pub IsApart : Page → ℕ → ℕ → Type 0
IsApart p i j =
    (record_offset p i + record_capacity p i ≤ record_offset p j)
    ⊎ (record_offset p j + record_capacity p j ≤ record_offset p i)

pub record IsPage (p : Page) : Type 0 where
  pub bytes : IsBytePage p
  pub directory : free_start p ≡ 28 + slot_count p * 8
  pub low : free_start p ≤ free_end p
  pub high : free_end p ≤ 8192
  pub slot : (i : ℕ) → i < slot_count p → IsSlot p (free_end p) i
  pub apart :
      (i j : ℕ)
      → i < slot_count p
      → j < slot_count p
      → i ≢ j
      → record_size p i ≢ 0
      → record_size p j ≢ 0
      → IsApart p i j

pub slot_generation-lt : (p : Page) (slot : ℕ) → IsPage p → slot_generation p slot < 2 ^ 16
unfolding slot_generation
slot_generation-lt p slot w = read_u16-lt p (slot_offset slot + 6) w.bytes

-- A word of the header is written: the directory and the records are as they were.
pub header_word-entry :
    (at value : ℕ) (p : Page) (slot : ℕ)
    → at + 2 ≤ 28
    → IsEntry
        (write_u16 at value p)
        slot
        (record_offset p slot)
        (record_size p slot)
        (record_capacity p slot)
        (slot_generation p slot)
header_word-entry at value p slot h =
    entry-cong (write_u16 at value p) p slot
      (λ i a b. write_u16-outside at value p i (inr (omega arith)))

pub header_word-subspan :
    (at value : ℕ) (p : Page) (offset n : ℕ)
    → at + 2 ≤ offset
    → subspan (write_u16 at value p) offset n ≡ subspan p offset n
header_word-subspan at value p offset n h =
    subspan-cong (write_u16 at value p) p offset n
      (λ i a b. write_u16-outside at value p i (inr (omega arith)))

-- The header but for the counts and the bounds of the free space is the same.
pub record IsLabelled (p q : Page) : Type 0 where
  pub kept : (i : ℕ) → i < 28 → IsOutside i 6 6 → q i ≡ p i

pub trans-IsLabelled : (p q t : Page) → IsLabelled p q → IsLabelled q t → IsLabelled p t
trans-IsLabelled p q t a b = record { kept = λ i low out. b.kept i low out ∙ a.kept i low out }

pub header_word-IsLabelled :
    (at value : ℕ) (p : Page) → 6 ≤ at → at ≤ 10 → IsLabelled p (write_u16 at value p)
header_word-IsLabelled at value p low high = record {
  kept = λ i a out. write_u16-outside at value p i (narrow i out);
}
  where
    narrow : (i : ℕ) → IsOutside i 6 6 → IsOutside i at 2
    narrow i (inl h) = inl (omega arith)
    narrow i (inr h) = inr (omega arith)

-- The generation of a slot has grown, or it is the same and a free slot is still free.
abbrev pub IsAgedSlot : Page → Page → ℕ → Type 0
IsAgedSlot p q slot =
    ((slot_generation q slot ≡ slot_generation p slot)
      × (record_size p slot ≡ 0 → record_size q slot ≡ 0))
    ⊎ (slot_generation p slot < slot_generation q slot)

pub record IsAged (p q : Page) : Type 0 where
  pub count : slot_count p ≤ slot_count q
  pub slot : (i : ℕ) → i < slot_count p → IsAgedSlot p q i

pub trans-IsAgedSlot :
    (p q t : Page) (i : ℕ) → IsAgedSlot p q i → IsAgedSlot q t i → IsAgedSlot p t i
trans-IsAgedSlot p q t i (inl (a, b)) (inl (c, d)) = inl (c ∙ a, λ z. d (b z))
trans-IsAgedSlot p q t i (inl (a, b)) (inr c) = inr (omega (arith, a, c))
trans-IsAgedSlot p q t i (inr a) (inl (c, d)) = inr (omega (arith, a, c))
trans-IsAgedSlot p q t i (inr a) (inr c) = inr (omega arith)

pub trans-IsAged : (p q t : Page) → IsAged p q → IsAged q t → IsAged p t
trans-IsAged p q t a b = record {
  count = omega (arith, a.count, b.count);
  slot = λ i h. trans-IsAgedSlot p q t i (a.slot i h) (b.slot i (omega (arith, h, a.count)));
}
