-- ===== src/Storage/SlottedPage/Links/Laws.antt =====
-- The links are written and read, and nothing else of the page changes.
use mo_db.Prelude.{
  ℕ, ◌+◌, ◌^◌, ◌≤◌, ◌<◌, ◌≡◌, ◌≢◌, ◌⊎◌, inl, inr, refl, sym, ap, ◌∙◌, arith, Option, none, some,
  leb, leb→le, leb-false→lt, ==_ne, Bool-cases,
}
use mo_db.Error.{ok}
use mo_db.Storage.Endian.{store_le, load_le}
use mo_db.Storage.Endian.Laws.{length-store_le, load_le-store_le, store_le-IsBytes}
use mo_db.Storage.SlottedPage.{
  Page, subspan, copy, write_u64, read_u64, record_offset, record_size, record_capacity,
  slot_generation, slot_count, free_start, free_end,
}
use mo_db.Storage.SlottedPage.Bytes.{
  IsOutside, IsBytePage, copy-outside, copy-IsBytePage, subspan-copy, subspan-cong, read_u16-cong,
}
use mo_db.Storage.SlottedPage.Slots.{IsPage, IsSlot, IsApart, IsEntry, entry-cong, IsAged}
use mo_db.Storage.SlottedPage.Reads.{IsAlike, missing, missing-IsAlike, present-IsAlike}
use mo_db.Storage.SlottedPage.Links.{
  page_of, next_page, previous_page, set_next_page, set_previous_page,
}

-- Only the links differ.
pub record IsRelinked (p q : Page) : Type 0 where
  pub bytes : IsBytePage q
  pub same : (i : ℕ) → IsOutside i 12 16 → q i ≡ p i

module _ (p q : Page) (h : IsRelinked p q) where
  entry_same :
      (j : ℕ)
      → IsEntry q j
          (record_offset p j)
          (record_size p j)
          (record_capacity p j)
          (slot_generation p j)
  entry_same j = entry-cong q p j (λ i lo hi. h.same i (inr (omega arith)))

  header_same :
      (slot_count q ≡ slot_count p) × (free_start q ≡ free_start p) × (free_end q ≡ free_end p)
  unfolding slot_count free_start free_end
  header_same = (
    read_u16-cong q p 6 (λ i lo hi. h.same i (inl (omega arith))),
    read_u16-cong q p 8 (λ i lo hi. h.same i (inl (omega arith))),
    read_u16-cong q p 10 (λ i lo hi. h.same i (inl (omega arith))),
  )

  relinked-IsAged : IsAged p q
  relinked-IsAged = record {
    count = omega (arith, header_same.0);
    slot = λ j a. let k = entry_same j in inl (k.generation, λ z. k.size ∙ z);
  }

  module _ (w : IsPage p) where
    relinked-IsSlot : (j : ℕ) → j < slot_count p → IsSlot q (free_end q) j
    relinked-IsSlot j a =
        let k = entry_same j in
        let (count, start, end) = header_same in
        let v : IsSlot p (free_end p) j = w.slot j a in
        record {
          generation = λ z. v.generation (sym k.generation ∙ z);
          free = λ z. let (x, y) = v.free (sym k.size ∙ z) in (k.offset ∙ x, k.capacity ∙ y);
          fits = omega (arith, k.size, k.capacity, v.fits);
          low = λ z. omega (arith, k.offset, end, v.low (λ u. z (k.size ∙ u)));
          high = omega (arith, k.offset, k.capacity, v.high);
        }

    relinked-IsApart :
        (i j : ℕ)
        → i < slot_count q
        → j < slot_count q
        → i ≢ j
        → record_size q i ≢ 0
        → record_size q j ≢ 0
        → IsApart q i j
    relinked-IsApart i j a b e u v =
        let (count, start, end) = header_same in
        let k = entry_same i in
        let l = entry_same j in
        elim (w.apart i j (omega (arith, a, count)) (omega (arith, b, count)) e
          (λ z. u (k.size ∙ z)) (λ z. v (l.size ∙ z))) [
            | inl c ↦ inl (omega (arith, k.offset, k.capacity, l.offset, c))
            | inr c ↦ inr (omega (arith, k.offset, l.capacity, l.offset, c))
          ]

    relinked-IsPage : IsPage q
    relinked-IsPage =
        let (count, start, end) = header_same in
        record {
          bytes = h.bytes;
          directory = omega (arith, count, start, w.directory);
          low = omega (arith, start, end, w.low);
          high = omega (arith, end, w.high);
          slot = λ j a. relinked-IsSlot j (omega (arith, a, count));
          apart = relinked-IsApart;
        }

    relinked-IsAlike : (j : ℕ) → IsAlike p q j
    relinked-IsAlike j =
        let (count, start, end) = header_same in
        let k = entry_same j in
        elim (Bool-cases (leb (slot_count p) j)) [
          | inl out ↦
              let b : slot_count p ≤ j = leb→le (slot_count p) j out in
              missing-IsAlike p q j (missing p j b) (missing q j (omega (arith, b, count)))
          | inr there ↦
              let a : j < slot_count p = leb-false→lt (slot_count p) j there in
              present-IsAlike p q j a (omega (arith, a, count)) k.size k.generation (λ z.
                ap (λ (x : ℕ). subspan q x (record_size p j)) k.offset
                ∙ subspan-cong q p (record_offset p j) (record_size p j) (λ i lo hi.
                  h.same i (inr (omega (arith, w.directory, w.low, (w.slot j a).low z)))))
        ]

-- The page `q` is `p` with other links.
pub record IsLinked (p : Page) (next previous : Option ℕ) (q : Page) : Type 0 where
  pub page : IsPage q
  pub next_is : next_page q ≡ next
  pub previous_is : previous_page q ≡ previous
  pub alike : (j : ℕ) → IsAlike p q j
  pub front : (i : ℕ) → i < 6 → q i ≡ p i
  pub aged : IsAged p q

write_u64-IsRelinked :
    (at value : ℕ) (p : Page)
    → 12 ≤ at
    → at ≤ 20
    → IsBytePage p
    → IsRelinked p (write_u64 at value p)
unfolding write_u64
write_u64-IsRelinked at value p low high w = record {
  bytes = copy-IsBytePage (store_le 8 value) at p (store_le-IsBytes 8 value) w;
  same =
      λ i out. copy-outside (store_le 8 value) at p i (rw (length-store_le 8 value) (narrow i out));
}
  where
    narrow : (i : ℕ) → IsOutside i 12 16 → IsOutside i at 8
    narrow i (inl h) = inl (omega arith)
    narrow i (inr h) = inr (omega arith)

read_u64-write_u64 :
    (at value : ℕ) (p : Page) → value < 2 ^ 64 → read_u64 (write_u64 at value p) at ≡ value
unfolding read_u64 write_u64 store_le
read_u64-write_u64 at value p h =
    ap (load_le 8) (subspan-copy (store_le 8 value) at p) ∙ load_le-store_le 8 value h

read_u64-apart :
    (at value x : ℕ) (p : Page)
    → (x + 8 ≤ at) ⊎ (at + 8 ≤ x)
    → read_u64 (write_u64 at value p) x ≡ read_u64 p x
unfolding read_u64 write_u64
read_u64-apart at value x p h = ap (load_le 8) (
    subspan-cong (copy (store_le 8 value) at p) p x 8 (λ i lo hi.
      copy-outside (store_le 8 value) at p i (rw (length-store_le 8 value) (away i lo hi h))))
  where
    away : (i : ℕ) → x ≤ i → i < x + 8 → (x + 8 ≤ at) ⊎ (at + 8 ≤ x) → IsOutside i at 8
    away i lo hi (inl a) = inl (omega arith)
    away i lo hi (inr a) = inr (omega arith)

page_of-some : (v : ℕ) → v ≢ 0 → page_of v ≡ some v
page_of-some v h = rw (==_ne v 0 h) refl

-- The links that are written: `v` is 0 or the number of a page.
next-IsLinked :
    (p : Page) (v : ℕ)
    → IsPage p
    → v < 2 ^ 64
    → IsLinked p (page_of v) (previous_page p) (write_u64 12 v p)
unfolding next_page previous_page
next-IsLinked p v w h =
    let r : IsRelinked p (write_u64 12 v p) =
      write_u64-IsRelinked 12 v p (omega arith) (omega arith) w.bytes in
    record {
      page = relinked-IsPage p (write_u64 12 v p) r w;
      next_is = ap page_of (read_u64-write_u64 12 v p h);
      previous_is = ap page_of (read_u64-apart 12 v 20 p (inr (omega arith)));
      alike = relinked-IsAlike p (write_u64 12 v p) r w;
      front = λ i a. r.same i (inl (omega arith));
      aged = relinked-IsAged p (write_u64 12 v p) r;
    }

previous-IsLinked :
    (p : Page) (v : ℕ)
    → IsPage p
    → v < 2 ^ 64
    → IsLinked p (next_page p) (page_of v) (write_u64 20 v p)
unfolding next_page previous_page
previous-IsLinked p v w h =
    let r : IsRelinked p (write_u64 20 v p) =
      write_u64-IsRelinked 20 v p (omega arith) (omega arith) w.bytes in
    record {
      page = relinked-IsPage p (write_u64 20 v p) r w;
      next_is = ap page_of (read_u64-apart 20 v 12 p (inl (omega arith)));
      previous_is = ap page_of (read_u64-write_u64 20 v p h);
      alike = relinked-IsAlike p (write_u64 20 v p) r w;
      front = λ i a. r.same i (inl (omega arith));
      aged = relinked-IsAged p (write_u64 20 v p) r;
    }

-- No page, or one other than page zero whose number is a 64-bit word.
abbrev pub IsLink : Option ℕ → Type 0
IsLink none = Unit
IsLink (some v) = (v ≢ 0) × (v < 2 ^ 64)

set_next_page-IsLinked :
    (p : Page) (next : Option ℕ)
    → IsPage p
    → IsLink next
    → (q : Page) × (set_next_page next p ≡ ok q) × IsLinked p next (previous_page p) q
unfolding set_next_page
set_next_page-IsLinked p none w h = (write_u64 12 0 p, refl, next-IsLinked p 0 w (omega arith))
set_next_page-IsLinked p (some v) w (n, h) =
    (write_u64 12 v p, rw (==_ne v 0 n) refl, rw (page_of-some v n) at (next-IsLinked p v w h))

set_previous_page-IsLinked :
    (p : Page) (previous : Option ℕ)
    → IsPage p
    → IsLink previous
    → (q : Page) × (set_previous_page previous p ≡ ok q) × IsLinked p (next_page p) previous q
unfolding set_previous_page
set_previous_page-IsLinked p none w h =
    (write_u64 20 0 p, refl, previous-IsLinked p 0 w (omega arith))
set_previous_page-IsLinked p (some v) w (n, h) =
    (write_u64 20 v p, rw (==_ne v 0 n) refl, rw (page_of-some v n) at (previous-IsLinked p v w h))

-- On a well-formed page both links can be set to no page or to any other than page zero. Each is read
-- back as it was set, the other link and all slots show what they did, and the page stays well formed.
pub links_lem :
    (p : Page) (link : Option ℕ)
    → IsPage p
    → IsLink link
    → ((q : Page) × (set_next_page link p ≡ ok q) × IsLinked p link (previous_page p) q)
      × ((q : Page) × (set_previous_page link p ≡ ok q) × IsLinked p (next_page p) link q)
links_lem p link w h = (set_next_page-IsLinked p link w h, set_previous_page-IsLinked p link w h)
