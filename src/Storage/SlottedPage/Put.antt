-- ===== src/Storage/SlottedPage/Put.antt =====
-- A record is copied to its area, and the entry of its slot is written.
use mo_db.Prelude.{ℕ, ◌+◌, ◌%◌, ◌^◌, ◌≤◌, ◌<◌, ◌≡◌, inl, inr, ◌∙◌, arith, List, length}
use mo_db.Storage.Endian.{IsBytes}
use mo_db.Storage.SlottedPage.{
  Page, subspan, copy, write_u16, read_u16, slot_offset, slot_generation, write_slot, put_record,
}
use mo_db.Storage.SlottedPage.Bytes.{
  IsOutside, IsBytePage, write_u16-outside, write_u16-IsBytePage, read_u16-cong, copy-outside,
  copy-IsBytePage, subspan-copy, subspan-cong,
}
use mo_db.Storage.SlottedPage.Slots.{
  IsEntry, write_slot-outside, write_slot-IsBytePage, write_slot-IsEntry, entry-cong,
  header_word-entry, header_word-subspan, IsLabelled,
}

-- The record `bs` lies at `o`, and the entry of `slot` says so; all else behind the header is kept.
pub record IsStored (p : Page) (slot : ℕ) (bs : List ℕ) (o g : ℕ) (q : Page) : Type 0 where
  pub bytes : IsBytePage q
  pub same :
      (i : ℕ) → 28 ≤ i → IsOutside i o (length bs) → IsOutside i (slot_offset slot) 8 → q i ≡ p i
  pub entry : IsEntry q slot o (length bs) (length bs) g
  pub content : subspan q o (length bs) ≡ bs

pub put_record-IsStored :
    (p : Page) (slot : ℕ) (bs : List ℕ) (o g : ℕ)
    → IsBytePage p
    → IsBytes bs
    → slot_offset slot + 8 ≤ o
    → o + length bs ≤ 8192
    → g < 2 ^ 16
    → IsStored p slot bs o g (put_record slot bs o g p)
unfolding put_record
put_record-IsStored p slot bs o g w hb above high small =
    let e : length bs % 2 ^ 16 ≡ length bs = omega arith in
    rw e (record {
      bytes =
          write_slot-IsBytePage slot o (length bs) (length bs) g (copy bs o p)
            (copy-IsBytePage bs o p hb w);
      same = λ i lo a b.
          write_slot-outside slot o (length bs) (length bs) g (copy bs o p) i b
          ∙ copy-outside bs o p i a;
      entry =
          write_slot-IsEntry slot o (length bs) (length bs) g (copy bs o p) (omega arith)
            (omega arith) (omega arith) small;
      content =
          subspan-cong (write_slot slot o (length bs) (length bs) g (copy bs o p)) (copy bs o p) o
            (length bs)
            (λ i lo hi.
              write_slot-outside slot o (length bs) (length bs) g (copy bs o p) i
                (inr (omega arith)))
          ∙ subspan-copy bs o p;
    })

-- A write to the header keeps what was stored.
pub header-IsStored :
    (p : Page) (slot : ℕ) (bs : List ℕ) (o g : ℕ) (q : Page) (at value : ℕ)
    → at + 2 ≤ 28
    → 28 ≤ o
    → IsStored p slot bs o g q
    → IsStored p slot bs o g (write_u16 at value q)
header-IsStored p slot bs o g q at value low above s =
    let e = header_word-entry at value q slot low in
    record {
      bytes = write_u16-IsBytePage at value q s.bytes;
      same = λ i lo a b. write_u16-outside at value q i (inr (omega arith)) ∙ s.same i lo a b;
      entry = record {
        offset = e.offset ∙ s.entry.offset;
        size = e.size ∙ s.entry.size;
        capacity = e.capacity ∙ s.entry.capacity;
        generation = e.generation ∙ s.entry.generation;
      };
      content = header_word-subspan at value q o (length bs) (omega arith) ∙ s.content;
    }

-- The header is as it was.
pub put_record-below :
    (p : Page) (slot : ℕ) (bs : List ℕ) (o g i : ℕ)
    → i < 28
    → 28 ≤ o
    → put_record slot bs o g p i ≡ p i
unfolding put_record
put_record-below p slot bs o g i low above =
    write_slot-outside slot o (length bs % 2 ^ 16) (length bs % 2 ^ 16) g (copy bs o p) i
      (inl (omega arith))
    ∙ copy-outside bs o p i (inl (omega arith))

pub put_record-header :
    (p : Page) (slot : ℕ) (bs : List ℕ) (o g at : ℕ)
    → at + 2 ≤ 28
    → 28 ≤ o
    → read_u16 (put_record slot bs o g p) at ≡ read_u16 p at
put_record-header p slot bs o g at low above =
    read_u16-cong (put_record slot bs o g p) p at
      (λ i lo hi. put_record-below p slot bs o g i (omega arith) above)

-- The entry of a slot, read after a copy behind the directory.
pub copy-generation :
    (bs : List ℕ) (o : ℕ) (p : Page) (slot : ℕ)
    → slot_offset slot + 8 ≤ o
    → slot_generation (copy bs o p) slot ≡ slot_generation p slot
copy-generation bs o p slot h =
    (entry-cong (copy bs o p) p slot
      (λ i lo hi. copy-outside bs o p i (inl (omega arith)))).generation

pub put_record-IsLabelled :
    (p : Page) (slot : ℕ) (bs : List ℕ) (o g : ℕ) → 28 ≤ o → IsLabelled p (put_record slot bs o g p)
put_record-IsLabelled p slot bs o g above = record {
  kept = λ i low out. put_record-below p slot bs o g i low above;
}
