-- ===== src/Storage/SlottedPage/Compact.antt =====
-- `compact` keeps every record and gathers the free space.
use mo_db.Prelude.{
  ℕ, ◌+◌, ◌%◌, ◌^◌, ◌≤◌, ◌<◌, ◌≡◌, ◌⊎◌, inl, inr, refl, sym, ◌∙◌, arith, zero-cases, ne-cases,
}
use mo_db.Storage.SlottedPage.{
  Page, subspan, write_u16, read_u16, record_offset, record_size, record_capacity, slot_count,
  free_start, free_end, live_capacity, compact_loop, compact,
}
use mo_db.Storage.SlottedPage.Bytes.{
  IsOutside, read_u16-cong, read_u16-apart, read_u16-write_u16, write_u16-outside,
  write_u16-IsBytePage,
}
use mo_db.Storage.SlottedPage.Slots.{IsSlot, IsPage, header_word-entry, header_word-subspan}
use mo_db.Storage.SlottedPage.Room.{live_capacity-le}
use mo_db.Storage.SlottedPage.Moved.{IsCopied, IsMoved}
use mo_db.Storage.SlottedPage.Rounds.{loop-IsMoved}

-- A page after `compact`: the same slots with the same records, packed at the end.
pub record IsCompacted (p q : Page) : Type 0 where
  pub page : IsPage q
  pub count : slot_count q ≡ slot_count p
  pub start : free_start q ≡ free_start p
  pub end : free_end q + live_capacity (slot_count p) p ≡ 8192
  pub header : (i : ℕ) → i < 28 → IsOutside i 10 2 → q i ≡ p i
  pub copied : (j : ℕ) → j < slot_count p → IsCopied p q (free_end q) j

module _ (p : Page) (w : IsPage p) (moved : Page) (d : ℕ)
    (h : IsMoved p (slot_count p) moved d) where
  packed : Page
  packed = write_u16 10 d moved

  end_packed : free_end packed ≡ d
  unfolding free_end packed
  end_packed = read_u16-write_u16 10 d moved (omega (arith, h.destination))

  word_packed :
      (at : ℕ) → at + 2 ≤ 28 → (at + 2 ≤ 10) ⊎ (12 ≤ at) → read_u16 packed at ≡ read_u16 p at
  unfolding packed
  word_packed at b e =
      read_u16-apart 10 d at moved e
      ∙ read_u16-cong moved p at (λ i lo hi. h.header i (omega arith))

  count_packed : slot_count packed ≡ slot_count p
  unfolding slot_count
  count_packed = word_packed 6 (omega arith) (inl (omega arith))

  start_packed : free_start packed ≡ free_start p
  unfolding free_start
  start_packed = word_packed 8 (omega arith) (inl (omega arith))

  packed-IsCopied : (j : ℕ) → j < slot_count p → IsCopied p packed (free_end packed) j
  unfolding packed
  packed-IsCopied j b =
      let c : IsCopied p moved d j = h.copied j b in
      let e = header_word-entry 10 d moved j (omega arith) in
      record {
        size = e.size ∙ c.size;
        capacity = e.capacity ∙ c.capacity;
        generation = e.generation ∙ c.generation;
        free = λ z. e.offset ∙ c.free z;
        low = λ z. omega (arith, end_packed, e.offset, c.low z);
        high = omega (arith, e.offset, c.high);
        content = elim (zero-cases (record_size p j)) [
          | inl z ↦ rw ((w.slot j b).free z).1 (unfold subspan in refl)
          | inr z ↦ rw e.offset (
              header_word-subspan 10 d moved (record_offset moved j) (record_capacity p j) (
                omega (
                  arith,
                  c.low z,
                  h.destination,
                  live_capacity-le p (slot_count p) w (omega arith),
                  w.low,
                  w.directory,
                ))
              ∙ c.content)
        ];
      }

  offset_packed : (j : ℕ) → record_offset packed j ≡ record_offset moved j
  unfolding packed
  offset_packed j = (header_word-entry 10 d moved j (omega arith)).offset

  packed-IsPage : IsPage packed
  packed-IsPage = record {
    bytes = unfold packed in write_u16-IsBytePage 10 d moved h.bytes;
    directory = omega (arith, start_packed, count_packed, w.directory);
    low = omega (
      arith,
      start_packed,
      end_packed,
      h.destination,
      live_capacity-le p (slot_count p) w (omega arith),
      w.low,
    );
    high = omega (arith, end_packed, h.destination);
    slot = λ i b.
        let small : i < slot_count p = omega (arith, b, count_packed) in
        let c : IsCopied p packed (free_end packed) i = packed-IsCopied i small in
        let s : IsSlot p (free_end p) i = w.slot i small in
        record {
          generation = λ z. s.generation (sym c.generation ∙ z);
          free = λ z.
              let (o, k) = s.free (sym c.size ∙ z) in (c.free (sym c.size ∙ z), c.capacity ∙ k);
          fits = omega (arith, c.size, c.capacity, s.fits);
          low = λ z. c.low (λ q. z (c.size ∙ q));
          high = omega (arith, c.capacity, c.high);
        };
    apart = λ i j a b e u v.
        let a' : i < slot_count p = omega (arith, a, count_packed) in
        let b' : j < slot_count p = omega (arith, b, count_packed) in
        let ci : IsCopied p packed (free_end packed) i = packed-IsCopied i a' in
        let cj : IsCopied p packed (free_end packed) j = packed-IsCopied j b' in
        elim (ne-cases i j e) [
          | inl less ↦ inr (
              omega (
                arith,
                h.apart i j less b' (λ q. u (ci.size ∙ q)) (λ q. v (cj.size ∙ q)),
                offset_packed i,
                offset_packed j,
                cj.capacity,
              ))
          | inr more ↦ inl (
              omega (
                arith,
                h.apart j i more a' (λ q. v (cj.size ∙ q)) (λ q. u (ci.size ∙ q)),
                offset_packed i,
                offset_packed j,
                ci.capacity,
              ))
        ];
  }

  packed-IsCompacted : IsCompacted p packed
  packed-IsCompacted = record {
    page = packed-IsPage;
    count = count_packed;
    start = start_packed;
    end = omega (arith, end_packed, h.destination);
    header = λ i b e. unfold packed in write_u16-outside 10 d moved i e ∙ h.header i b;
    copied = packed-IsCopied;
  }

pub compact-IsCompacted : (p : Page) → IsPage p → IsCompacted p (compact p)
compact-IsCompacted p w =
    let (moved, d) = compact_loop p (slot_count p) in
    let h : IsMoved p (slot_count p) moved d = loop-IsMoved p (slot_count p) w (omega arith) in
    let cut : d % 2 ^ 16 ≡ d = omega (arith, h.destination) in
    unfold compact packed in rw cut (packed-IsCompacted p w moved d h)
