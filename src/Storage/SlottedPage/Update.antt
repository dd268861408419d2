-- ===== src/Storage/SlottedPage/Update.antt =====
-- `update`: a record of the same size stays where it is, any other is moved.
use mo_db.Prelude.{
  ℕ, ◌+◌, ◌-◌, ◌%◌, ◌^◌, ◌≤◌, ◌<◌, ◌≡◌, ◌≢◌, ◌⊎◌, inl, inr, refl, sym, ◌∙◌, arith, List, length,
  ltb, ltb-false, ltb→lt, ltb-false→le, ◌==◌, ==_iff, ==_ne, Bool-cases,
}
use mathlib.Core.Path.{subst}
use mo_db.Storage.Endian.{IsBytes}
use mo_db.Error.{ok, err, page_full, slot_not_found}
use mo_db.Storage.SlottedPage.{
  Page, slot_offset, record_offset, record_size, record_capacity, slot_generation, write_u16,
  slot_count, free_start, free_end, put_record, relocate, update, sub_size, compact, free_space,
  dead_bytes, read_in, generation_in,
}
use mo_db.Storage.SlottedPage.Bytes.{
  read_u16-apart, read_u16-write_u16, write_u16-outside, write_u16-IsBytePage,
}
use mo_db.Storage.SlottedPage.Slots.{
  slot_generation-lt, IsPage, IsLabelled, trans-IsLabelled, IsAged, IsAgedSlot, trans-IsAgedSlot,
  trans-IsAged, header_word-IsLabelled,
}
use mo_db.Storage.SlottedPage.Compact.{compact-IsCompacted}
use mo_db.Storage.SlottedPage.Reads.{
  IsAlike, present, read_in-missing, read_in-present, compact_lem, free_space-IsPage,
}
use mo_db.Storage.SlottedPage.Put.{
  IsStored, put_record-IsStored, put_record-header, put_record-IsLabelled,
}
use mo_db.Storage.SlottedPage.Store.{
  IsExtended, extended-IsPage, extended-read_in, extended-IsAlike, extended_other,
}
use mo_db.Prelude.{equal_cases}
use mo_db.Storage.SlottedPage.Erase.{missing_cases}
use mo_db.Storage.SlottedPage.Freed.{
  freed, freed-header, freed-IsPage, freed-IsAlike, freed-room, freed-IsLabelled, freed-IsAged,
}
use mo_db.Storage.SlottedPage.Inserted.{trans-IsAlike, compact-IsLabelled, compact-IsAged}
use mo_db.Storage.SlottedPage.Placed.{IsUpdated, placed-IsUpdated}

module _ (p : Page) (w : IsPage p) (slot : ℕ) (there : slot < slot_count p)
    (live : record_size p slot ≢ 0) (bs : List ℕ) (hb : IsBytes bs) (nonempty : length bs ≢ 0) where
  abbrev g : ℕ
  g = slot_generation p slot

  small_generation : g < 2 ^ 16
  small_generation = slot_generation-lt p slot w

  same_generation : generation_in p slot ≡ ok g
  same_generation = (read_in-present p slot there live).1

  abbrev f : Page
  f = freed p w slot there

  packed : Page
  packed = compact f

  module _ (room : length bs ≤ free_space p + dead_bytes p + record_capacity p slot) where
    abbrev moved_to : ℕ
    moved_to = free_end packed - length bs

    ended : Page
    ended = write_u16 10 moved_to packed

    moved : Page
    moved = put_record slot bs moved_to g ended

    packed-IsPage : IsPage packed
    unfolding packed
    packed-IsPage = (compact_lem f (freed-IsPage p w slot there)).0

    packed-IsAlike : (j : ℕ) → j ≢ slot → IsAlike p packed j
    unfolding packed
    packed-IsAlike j e =
        let (page, alike, dead, free) = compact_lem f (freed-IsPage p w slot there) in
        trans-IsAlike p f (compact f) j (freed-IsAlike p w slot there j e) (alike j)

    packed-IsLabelled : IsLabelled p packed
    unfolding packed
    packed-IsLabelled =
        trans-IsLabelled p f (compact f) (freed-IsLabelled p w slot there)
          (compact-IsLabelled f (freed-IsPage p w slot there))

    packed-IsAged : IsAged p packed
    unfolding packed
    packed-IsAged =
        trans-IsAged p f (compact f) (freed-IsAged p w slot there)
          (compact-IsAged f (freed-IsPage p w slot there))

    packed-count : slot_count packed ≡ slot_count p
    unfolding packed
    packed-count =
        (compact-IsCompacted f (freed-IsPage p w slot there)).count
        ∙ (freed-header p w slot there).0

    packed-room : length bs ≤ free_end packed - free_start packed
    unfolding packed
    packed-room =
        let (page, alike, dead, free) = compact_lem f (freed-IsPage p w slot there) in
        omega
          (arith, free, freed-room p w slot there live, room, free_space-IsPage (compact f) page)

    moved-IsExtended : IsExtended packed slot bs moved_to g moved
    unfolding moved ended slot_count free_start free_end
    moved-IsExtended =
        let k : IsPage packed = packed-IsPage in
        let above : slot_offset slot + 8 ≤ moved_to =
          omega (arith, there, packed-count, packed-room, k.directory, k.low) in
        let low : 28 ≤ moved_to = omega (arith, above) in
        let count : slot_count moved ≡ slot_count packed =
          put_record-header ended slot bs moved_to g 6 (omega arith) low
          ∙ read_u16-apart 10 moved_to 6 packed (inl (omega arith)) in
        let start : free_start moved ≡ free_start packed =
          put_record-header ended slot bs moved_to g 8 (omega arith) low
          ∙ read_u16-apart 10 moved_to 8 packed (inl (omega arith)) in
        let end : free_end moved ≡ moved_to =
          put_record-header ended slot bs moved_to g 10 (omega arith) low
          ∙ read_u16-write_u16 10 moved_to packed (omega (arith, k.high)) in
        let s : IsStored ended slot bs moved_to g moved =
          put_record-IsStored ended slot bs moved_to g
            (write_u16-IsBytePage 10 moved_to packed k.bytes) hb above
            (omega (arith, packed-room, k.high)) small_generation in
        record {
          stored = record {
            bytes = s.bytes;
            same = λ i lo a b.
                s.same i lo a b ∙ write_u16-outside 10 moved_to packed i (inr (omega arith));
            entry = s.entry;
            content = s.content;
          };
          there = omega (arith, count, packed-count, there);
          count = omega (arith, count);
          others = λ j a e. omega (arith, a, count);
          directory = omega (arith, count, start, k.directory);
          low = omega (arith, start, end, packed-room, k.low);
          end = omega (arith, end);
          above = omega (arith, end);
          high = omega (arith, packed-room, k.high, k.low);
          apart = λ j a e z. inr (omega (arith, packed-room, k.low, (k.slot j a).low z));
          generation = (w.slot slot there).generation;
          nonempty = nonempty;
        }

    moved_label : IsLabelled packed ended
    unfolding ended
    moved_label = header_word-IsLabelled 10 moved_to packed (omega arith) (omega arith)

    moved-IsUpdated : IsUpdated p bs slot moved
    unfolding moved
    moved-IsUpdated =
        let x = moved-IsExtended in
        let k : IsPage packed = packed-IsPage in
        let (shown, counted) = extended-read_in packed k slot bs moved_to g moved x in
        record {
          page = extended-IsPage packed k slot bs moved_to g moved x;
          read = shown;
          generation = counted ∙ sym same_generation;
          others = λ j e.
              trans-IsAlike p packed moved j (packed-IsAlike j e)
                (extended-IsAlike packed k slot bs moved_to g moved x j e);
          aged = record {
            count = omega (arith, packed-IsAged.count, x.count);
            slot = λ j a. elim (equal_cases j slot) [
              | inl e ↦
                  subst (IsAgedSlot p moved) (sym e)
                    (inl (x.stored.entry.generation, λ z. absurd (live z)))
              | inr e ↦ trans-IsAgedSlot p packed moved j (packed-IsAged.slot j a) (
                  extended_other packed k slot bs moved_to g moved x j
                    (omega (arith, a, packed-count)) e)
            ];
          };
          label = trans-IsLabelled p packed moved packed-IsLabelled (
              trans-IsLabelled packed ended moved moved_label (
                put_record-IsLabelled ended slot bs moved_to g
                  (omega (arith, packed-room, k.directory, k.low))));
        }

    relocate_moved : relocate slot bs p ≡ ok moved
    unfolding relocate moved ended packed freed
    relocate_moved =
        let k : IsPage packed = packed-IsPage in
        let e : sub_size (free_end packed) (length bs) % 2 ^ 16 ≡ moved_to =
          omega (arith, packed-room, k.high, k.low) in
        rw (ltb-false (free_space p + dead_bytes p + record_capacity p slot) (length bs) room, e)
          refl

  pub relocate_cases :
      ((length bs ≤ free_space p + dead_bytes p + record_capacity p slot)
        × ((q : Page) × (relocate slot bs p ≡ ok q) × IsUpdated p bs slot q))
      ⊎ ((free_space p + dead_bytes p + record_capacity p slot < length bs)
          × (relocate slot bs p ≡ err page_full))
  unfolding relocate
  relocate_cases =
      elim (Bool-cases (ltb (free_space p + dead_bytes p + record_capacity p slot) (length bs))) [
        | inl tight ↦ inr (
          ltb→lt (free_space p + dead_bytes p + record_capacity p slot) (length bs) tight,
          rw tight refl,
        )
        | inr fits ↦
            let room =
              ltb-false→le (free_space p + dead_bytes p + record_capacity p slot) (length bs)
                fits in
            inl (room, (moved room, relocate_moved room, moved-IsUpdated room))
      ]

-- A record of 1 to 8156 bytes for a slot that exists replaces the one there if it fits into the free
-- space, the dead bytes and the capacity of the old record together; then the page stays well formed,
-- the slot shows the new record with the same generation, and all others show what they did. If it
-- does not fit, the result is `page_full`; for a slot without a record it is `slot_not_found`.
pub update_lem :
    (p : Page) (slot : ℕ) (bs : List ℕ)
    → IsPage p
    → IsBytes bs
    → length bs ≢ 0
    → length bs ≤ 8156
    → ((read_in p slot ≡ err slot_not_found) × (update slot bs p ≡ err slot_not_found))
      ⊎ (((length bs ≤ free_space p + dead_bytes p + record_capacity p slot)
            × ((q : Page) × (update slot bs p ≡ ok q) × IsUpdated p bs slot q))
          ⊎ ((free_space p + dead_bytes p + record_capacity p slot < length bs)
              × (update slot bs p ≡ err page_full)))
unfolding update
update_lem p slot bs w hb n small =
    rw (==_ne (length bs) 0 n, ltb-false 8156 (length bs) small)
      (elim (missing_cases p slot) [
        | inl gone ↦ inl (read_in-missing p slot gone, rw gone refl)
        | inr (there, live) ↦
            rw (present p slot there live)
              (elim (Bool-cases (length bs == record_capacity p slot)) [
                | inl same ↦
                    let e : length bs ≡ record_capacity p slot =
                      (==_iff (length bs) (record_capacity p slot)).0 same in
                    inr (
                      inl (
                        omega (arith, e),
                        (
                          put_record slot bs (record_offset p slot) (slot_generation p slot) p,
                          rw same refl,
                          placed-IsUpdated p w slot there live bs hb n e,
                        ),
                      ))
                | inr other ↦ inr (rw other (relocate_cases p w slot there live bs hb n))
              ])
      ])
