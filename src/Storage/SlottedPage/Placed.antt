-- ===== src/Storage/SlottedPage/Placed.antt =====
-- `update` with a record of the same size: it is written over the old one.
use mo_db.Prelude.{ℕ, ◌+◌, ◌^◌, ◌≤◌, ◌<◌, ◌≡◌, ◌≢◌, inl, inr, sym, ◌∙◌, arith, List, length}
use mo_db.Storage.Endian.{IsBytes}
use mo_db.Error.{ok}
use mo_db.Storage.SlottedPage.{
  Page, slot_offset, record_offset, record_size, record_capacity, slot_generation, slot_count,
  free_start, free_end, put_record, read_in, generation_in,
}
use mo_db.Storage.SlottedPage.Slots.{slot_generation-lt, IsPage, IsSlot, IsLabelled, IsAged}
use mo_db.Storage.SlottedPage.Reads.{IsAlike, read_in-present}
use mo_db.Storage.SlottedPage.Put.{put_record-IsStored, put_record-header, put_record-IsLabelled}
use mo_db.Storage.SlottedPage.Store.{
  IsExtended, extended-IsPage, extended-read_in, extended-IsAlike, extended-IsAged,
}

-- The page `q` is `p` with the record `bs` in place of that at `slot`.
pub record IsUpdated (p : Page) (bs : List ℕ) (slot : ℕ) (q : Page) : Type 0 where
  pub page : IsPage q
  pub read : read_in q slot ≡ ok bs
  pub generation : generation_in q slot ≡ generation_in p slot
  pub others : (j : ℕ) → j ≢ slot → IsAlike p q j
  pub label : IsLabelled p q
  pub aged : IsAged p q

module _ (p : Page) (w : IsPage p) (slot : ℕ) (there : slot < slot_count p)
    (live : record_size p slot ≢ 0) (bs : List ℕ) (hb : IsBytes bs) (nonempty : length bs ≢ 0) where
  abbrev g : ℕ
  g = slot_generation p slot

  small_generation : g < 2 ^ 16
  small_generation = slot_generation-lt p slot w

  same_generation : generation_in p slot ≡ ok g
  same_generation = (read_in-present p slot there live).1

  extended-IsUpdated :
      (o : ℕ) (q : Page) → IsExtended p slot bs o g q → IsLabelled p q → IsUpdated p bs slot q
  extended-IsUpdated o q x l =
      let (shown, counted) = extended-read_in p w slot bs o g q x in
      record {
        page = extended-IsPage p w slot bs o g q x;
        read = shown;
        generation = counted ∙ sym same_generation;
        others = extended-IsAlike p w slot bs o g q x;
        label = l;
        aged =
            extended-IsAged p w slot bs o g q x
              (λ a. inl (x.stored.entry.generation, λ z. absurd (live z)));
      }

  -- In place.
  module _ (same : length bs ≡ record_capacity p slot) where
    abbrev o : ℕ
    o = record_offset p slot

    placed : Page
    placed = put_record slot bs o g p

    abbrev v : IsSlot p (free_end p) slot
    v = w.slot slot there

    abbrev above : slot_offset slot + 8 ≤ o
    above = omega (arith, v.low live, w.low, w.directory, there)

    placed-IsExtended : IsExtended p slot bs o g placed
    unfolding placed slot_count free_start free_end
    placed-IsExtended =
        let count : slot_count placed ≡ slot_count p =
          put_record-header p slot bs o g 6 (omega arith) (omega (arith, above)) in
        let start : free_start placed ≡ free_start p =
          put_record-header p slot bs o g 8 (omega arith) (omega (arith, above)) in
        let end : free_end placed ≡ free_end p =
          put_record-header p slot bs o g 10 (omega arith) (omega (arith, above)) in
        record {
          stored =
              put_record-IsStored p slot bs o g w.bytes hb above (omega (arith, same, v.high))
                small_generation;
          there = omega (arith, count, there);
          count = omega (arith, count);
          others = λ j a e. omega (arith, a, count);
          directory = omega (arith, count, start, w.directory);
          low = omega (arith, start, end, w.low);
          end = omega (arith, end);
          above = omega (arith, end, v.low live);
          high = omega (arith, same, v.high);
          apart = λ j a e z. elim (w.apart j slot a there e z live) [
            | inl c ↦ inl c
            | inr c ↦ inr (omega (arith, same, c))
          ];
          generation = v.generation;
          nonempty = nonempty;
        }

    pub placed-IsUpdated : IsUpdated p bs slot (put_record slot bs (record_offset p slot) g p)
    unfolding placed
    placed-IsUpdated =
        extended-IsUpdated o placed placed-IsExtended
          (put_record-IsLabelled p slot bs o g (omega (arith, above)))
