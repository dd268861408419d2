-- ===== src/Storage/SlottedPage/Rounds.antt =====
-- The rounds of `compact`: each slot in turn.
use mo_db.Prelude.{
  ℕ, zero, suc, ◌+◌, ◌-◌, ◌%◌, ◌^◌, ◌≤◌, ◌<◌, ◌≡◌, ◌≢◌, inl, inr, refl, sym, ap, ◌∙◌, arith, List,
  length, ◌==◌, ==_iff, ==_ne, Bool-cases, zero-cases,
}
use mathlib.Core.Path.{subst}
use mo_db.Storage.SlottedPage.{
  Page, subspan, copy, slot_offset, record_offset, record_size, record_capacity, slot_generation,
  write_slot, slot_count, free_end, live_capacity, sub_size, compact_slot, compact_loop,
}
use mo_db.Storage.SlottedPage.Bytes.{
  copy-outside, copy-IsBytePage, subspan-copy, subspan-cong, subspan-IsBytes, length-subspan,
  read_u16-lt,
}
use mo_db.Storage.SlottedPage.Slots.{
  IsEntry, IsSlot, IsPage, write_slot-outside, write_slot-IsBytePage, write_slot-IsEntry,
  entry-cong,
}
use mo_db.Storage.SlottedPage.Moved.{IsCopied, IsMoved, IsStep, room, step-IsMoved, last_cases}

module _ (source : Page) (w : IsPage source) (n : ℕ) (small : n < slot_count source) (p : Page)
    (d : ℕ) (h : IsMoved source n p d) where
  abbrev size : ℕ
  size = record_size source n

  abbrev capacity : ℕ
  capacity = record_capacity source n

  entry_there : IsEntry p n (record_offset source n) size capacity (slot_generation source n)
  entry_there = entry-cong p source n (λ i lo hi. h.later n i (omega arith) small lo hi)

  -- A free slot is passed over.
  free-IsMoved : size ≡ 0 → IsMoved source (suc n) p d
  unfolding live_capacity
  free-IsMoved z =
      let e = entry_there in
      let (o, c) = (w.slot n small).free z in
      let passed : IsCopied source p d n = record {
        size = e.size;
        capacity = e.capacity;
        generation = e.generation;
        free = λ _. e.offset ∙ o;
        low = λ u. absurd (u z);
        high = omega (arith, e.offset, o, c);
        content = rw c (unfold subspan in refl);
      } in
      record {
        destination = rw ((==_iff size 0).1 z) h.destination;
        bytes = h.bytes;
        header = h.header;
        unread = h.unread;
        later = λ j i b. h.later j i (omega arith);
        copied = λ j b. elim (last_cases j n b) [
          | inl q ↦ subst (IsCopied source p d) (sym q) passed
          | inr c' ↦ h.copied j c'
        ];
        apart = λ i j b c' u v. elim (last_cases j n c') [
          | inl q ↦ absurd (v (ap (record_size source) q ∙ z))
          | inr e' ↦ h.apart i j b e' u v
        ];
      }

  module _ (live : size ≢ 0) where
    roomy : free_end source + capacity ≤ d
    roomy = room source w n small p d h live

    -- A record that stands where it belongs.
    stays-IsStep :
        (d' : ℕ) → d' + capacity ≡ d → record_offset source n ≡ d' → IsStep source n p d p d'
    stays-IsStep d' m e = record {
      moved = m;
      bytes = h.bytes;
      same = λ i a b. refl;
      entry = rw e at entry_there;
      content = rw e (
          subspan-cong p source d' capacity
            (λ i lo hi. h.unread i (omega (arith, roomy, m, w.low)) (omega (arith, m))));
    }

    -- A record that is copied down.
    moves-IsStep :
        (d' : ℕ)
        → d' + capacity ≡ d
        → IsStep source n p d
            (write_slot n d' size capacity
              (slot_generation source n)
              (copy (subspan source (record_offset source n) capacity) d' p))
            d'
    moves-IsStep d' m =
        let record_bytes : List ℕ = subspan source (record_offset source n) capacity in
        let sized : length record_bytes ≡ capacity =
          length-subspan source (record_offset source n) capacity in
        let written : Page = copy record_bytes d' p in
        let bounds : IsSlot source (free_end source) n = w.slot n small in
        record {
          moved = m;
          bytes = write_slot-IsBytePage n d' size capacity (slot_generation source n) written (
              copy-IsBytePage record_bytes d' p
                (subspan-IsBytes source (record_offset source n) capacity w.bytes) h.bytes);
          same = λ i a b.
              write_slot-outside n d' size capacity (slot_generation source n) written i b
              ∙ copy-outside record_bytes d' p i (rw sized a);
          entry =
              write_slot-IsEntry n d' size capacity (slot_generation source n) written
                (omega (arith, m, h.destination)) (omega (arith, bounds.fits, bounds.high))
                (omega (arith, bounds.high))
                (unfold slot_generation in read_u16-lt source (slot_offset n + 6) w.bytes);
          content =
              subspan-cong (write_slot n d' size capacity (slot_generation source n) written)
                written d' capacity
                (λ i lo hi.
                  write_slot-outside n d' size capacity (slot_generation source n) written i
                    (inr (omega (arith, roomy, m, w.low, w.directory))))
              ∙ rw sized at (subspan-copy record_bytes d' p);
        }

    compact_slot-IsMoved :
        IsMoved source (suc n) (compact_slot source n (p, d)).0 (compact_slot source n (p, d)).1
    unfolding compact_slot
    compact_slot-IsMoved =
        let d' : ℕ = d - capacity in
        let sub : sub_size d capacity ≡ d' = omega (arith, roomy, h.destination) in
        let m : d' + capacity ≡ d = omega (arith, roomy) in
        let cut : d' % 2 ^ 16 ≡ d' = omega (arith, h.destination) in
        elim (Bool-cases (record_offset source n == d')) [
          | inl here ↦
              rw (sub, ==_ne size 0 live, here)
                (step-IsMoved source w n small p d h live p d'
                  (stays-IsStep d' m ((==_iff (record_offset source n) d').0 here)))
          | inr away ↦
              rw (sub, ==_ne size 0 live, away, cut)
                (step-IsMoved source w n small p d h live
                  (write_slot n d' size capacity (slot_generation source n)
                    (copy (subspan source (record_offset source n) capacity) d' p))
                  d' (moves-IsStep d' m))
        ]

  round-IsMoved :
      IsMoved source (suc n) (compact_slot source n (p, d)).0 (compact_slot source n (p, d)).1
  unfolding compact_slot
  round-IsMoved = elim (zero-cases size) [
    | inr live ↦ compact_slot-IsMoved live
    | inl z ↦ rw ((==_iff size 0).1 z) (free-IsMoved z)
  ]

pub loop-IsMoved :
    (source : Page) (n : ℕ)
    → IsPage source
    → n ≤ slot_count source
    → IsMoved source n (compact_loop source n).0 (compact_loop source n).1
unfolding compact_loop live_capacity
loop-IsMoved source zero w b = record {
  destination = refl;
  bytes = w.bytes;
  header = λ i c. refl;
  unread = λ i lo hi. refl;
  later = λ j i c e lo hi. refl;
  copied = λ j c. absurd (omega arith);
  apart = λ i j c e u v. absurd (omega arith);
}
loop-IsMoved source (suc n) w b =
    round-IsMoved source w n (omega arith) (compact_loop source n).0 (compact_loop source n).1
      (loop-IsMoved source n w (omega arith))
