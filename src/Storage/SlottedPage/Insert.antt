-- ===== src/Storage/SlottedPage/Insert.antt =====
-- `insert`: where its slot comes from, and what the page holds afterwards.
use mo_db.Prelude.{
  ℕ, zero, suc, ◌+◌, ◌-◌, ◌*◌, ◌%◌, ◌^◌, ◌≤◌, ◌<◌, ◌≡◌, ◌≢◌, inl, inr, refl, sym, ◌∙◌, arith, List,
  length, Option, none, some, ◌==◌, ==_iff, Bool-cases, ne-cases, true, false,
}
use mo_db.Storage.Endian.{IsBytes}
use mo_db.Storage.SlottedPage.{
  Page, write_u16, slot_offset, record_size, slot_generation, slot_count, free_start, free_end,
  put_record, insert_at, chosen_slot, grow_directory, slot_room, find_reusable, sub_size,
}
use mo_db.Storage.SlottedPage.Bytes.{read_u16-lt, read_u16-apart, read_u16-write_u16}
use mo_db.Storage.SlottedPage.Slots.{IsPage, IsLabelled, trans-IsLabelled, header_word-IsLabelled}
use mo_db.Storage.SlottedPage.Store.{IsExtended}
use mo_db.Storage.SlottedPage.Put.{
  put_record-IsStored, header-IsStored, put_record-header, put_record-IsLabelled, copy-generation,
}

-- The slot that the search found is free, and its generation can grow.
pub record IsReusable (p : Page) (slot : ℕ) : Type 0 where
  pub there : slot < slot_count p
  pub free : record_size p slot ≡ 0
  pub grows : slot_generation p slot ≢ 65535

abbrev pub IsChoice : Option ℕ → Page → Type 0
IsChoice none p = Unit
IsChoice (some slot) p = IsReusable p slot

pub find_reusable-IsChoice :
    (p : Page) (n slot : ℕ) → slot + n ≤ slot_count p → IsChoice (find_reusable p n slot) p
unfolding find_reusable
find_reusable-IsChoice p zero slot h = tt
find_reusable-IsChoice p (suc n) slot h = elim (Bool-cases (record_size p slot == 0)) [
  | inr live ↦ rw live (find_reusable-IsChoice p n (slot + 1) (omega arith))
  | inl free ↦ elim (Bool-cases (slot_generation p slot == 65535)) [
    | inl full ↦ rw (free, full) (find_reusable-IsChoice p n (slot + 1) (omega arith))
    | inr grows ↦
        rw (free, grows)
          (record {
            there = omega arith;
            free = (==_iff (record_size p slot) 0).0 free;
            grows = λ e. true-ne (sym ((==_iff (slot_generation p slot) 65535).1 e) ∙ grows);
          })
  ]
]
  where
    true-ne : true ≢ false
    true-ne q = cc

module _ (p : Page) (w : IsPage p) (bs : List ℕ) (hb : IsBytes bs) (nonempty : length bs ≢ 0) where
  abbrev o : ℕ
  o = free_end p - length bs

  end_sub :
      length bs ≤ free_end p → sub_size (free_end p) (length bs) % 2 ^ 16 ≡ free_end p - length bs
  end_sub h = omega (arith, h, w.high)

  module _ (room : length bs + 8 ≤ free_end p - free_start p) where
    abbrev c : ℕ
    c = slot_count p

    -- The pages that the writes to the header make.
    grown : Page
    grown = put_record c bs o 1 p

    counted : Page
    counted = write_u16 6 (c + 1) grown

    started : Page
    started = write_u16 8 (28 + c * 8 + 8) counted

    ended : Page
    ended = write_u16 10 o started

    insert_at-grown : insert_at bs none p ≡ (c, ended)
    unfolding insert_at grow_directory ended started counted grown put_record
    insert_at-grown =
        let e : (c + 1) % 2 ^ 16 ≡ c + 1 = omega (arith, room, w.high, w.directory) in
        let f : (28 + c * 8 + 8) % 2 ^ 16 ≡ 28 + c * 8 + 8 =
          omega (arith, room, w.high, w.directory) in
        rw (end_sub (omega (arith, room)), e, f) refl

    grown-IsExtended : IsExtended p c bs o 1 ended
    unfolding ended started counted grown slot_count free_start free_end
    grown-IsExtended =
        let above : 28 + c * 8 + 8 ≤ o = omega (arith, room, w.directory, w.low) in
        let count : slot_count ended ≡ c + 1 =
          read_u16-apart 10 o 6 started (inl (omega arith))
          ∙ read_u16-apart 8 (28 + c * 8 + 8) 6 counted (inl (omega arith))
          ∙ read_u16-write_u16 6 (c + 1) grown (omega (arith, w.high, above)) in
        let start : free_start ended ≡ 28 + c * 8 + 8 =
          read_u16-apart 10 o 8 started (inl (omega arith))
          ∙ read_u16-write_u16 8 (28 + c * 8 + 8) counted (omega (arith, w.high, above)) in
        let end : free_end ended ≡ o = read_u16-write_u16 10 o started (omega (arith, w.high)) in
        record {
          stored = header-IsStored p c bs o 1 started 10 o (omega arith) (omega (arith, above)) (
              header-IsStored p c bs o 1 counted 8 (28 + c * 8 + 8) (omega arith)
                (omega (arith, above))
                (header-IsStored p c bs o 1 grown 6 (c + 1) (omega arith) (omega (arith, above)) (
                  put_record-IsStored p c bs o 1 w.bytes hb (omega (arith, above))
                    (omega (arith, room, w.high)) (omega arith))));
          there = omega (arith, count);
          count = omega (arith, count);
          others = λ j a e. before j (omega (arith, a, count)) e;
          directory = omega (arith, count, start);
          low = omega (arith, start, end, above);
          end = omega (arith, end);
          above = omega (arith, end);
          high = omega (arith, room, w.high);
          apart = λ j a e z. inr (omega (arith, room, (w.slot j a).low z));
          generation = λ e. omega (arith, e);
          nonempty = nonempty;
        }
      where
        before : (j : ℕ) → j < c + 1 → j ≢ c → j < c
        before j a e = elim (ne-cases j c e) [ inl b ↦ b | inr b ↦ absurd (omega (arith, a, b)) ]

    grown-IsLabelled : IsLabelled p ended
    unfolding ended started counted grown
    grown-IsLabelled =
        trans-IsLabelled p grown ended
          (put_record-IsLabelled p c bs o 1 (omega (arith, room, w.directory)))
          (trans-IsLabelled grown counted ended
            (header_word-IsLabelled 6 (c + 1) grown (omega arith) (omega arith))
            (trans-IsLabelled counted started ended
              (header_word-IsLabelled 8 (28 + c * 8 + 8) counted (omega arith) (omega arith))
              (header_word-IsLabelled 10 o started (omega arith) (omega arith))))

  module _ (slot : ℕ) (r : IsReusable p slot) (room : length bs ≤ free_end p - free_start p) where
    abbrev g : ℕ
    g = slot_generation p slot + 1

    kept : Page
    kept = put_record slot bs o g p

    moved : Page
    moved = write_u16 10 o kept

    abbrev above_slot : slot_offset slot + 8 ≤ o
    above_slot = omega (arith, room, w.directory, w.low, r.there)

    small_generation : g < 2 ^ 16
    unfolding slot_generation
    small_generation = elim (ne-cases (slot_generation p slot) 65535 r.grows) [
      | inl a ↦ omega arith
      | inr a ↦ absurd (omega (arith, read_u16-lt p (slot_offset slot + 6) w.bytes))
    ]

    insert_at-kept : insert_at bs (some slot) p ≡ (slot, moved)
    unfolding insert_at grow_directory moved kept put_record
    insert_at-kept =
        let e : g % 2 ^ 16 ≡ g = omega (arith, small_generation) in
        rw (end_sub (omega (arith, room)), copy-generation bs o p slot above_slot, e) refl

    kept-IsExtended : IsExtended p slot bs o g moved
    unfolding moved kept slot_count free_start free_end
    kept-IsExtended =
        let above : 28 ≤ o = omega (arith, above_slot) in
        let count : slot_count moved ≡ slot_count p =
          read_u16-apart 10 o 6 kept (inl (omega arith))
          ∙ put_record-header p slot bs o g 6 (omega arith) above in
        let start : free_start moved ≡ free_start p =
          read_u16-apart 10 o 8 kept (inl (omega arith))
          ∙ put_record-header p slot bs o g 8 (omega arith) above in
        let end : free_end moved ≡ o = read_u16-write_u16 10 o kept (omega (arith, w.high)) in
        record {
          stored = header-IsStored p slot bs o g kept 10 o (omega arith) above (
              put_record-IsStored p slot bs o g w.bytes hb above_slot (omega (arith, room, w.high))
                small_generation);
          there = omega (arith, count, r.there);
          count = omega (arith, count);
          others = λ j a e. omega (arith, a, count);
          directory = omega (arith, count, start, w.directory);
          low = omega (arith, start, end, room, w.low);
          end = omega (arith, end);
          above = omega (arith, end);
          high = omega (arith, room, w.high, w.low);
          apart = λ j a e z. inr (omega (arith, room, (w.slot j a).low z));
          generation = λ e. omega (arith, e);
          nonempty = nonempty;
        }

    kept-IsLabelled : IsLabelled p moved
    unfolding moved kept
    kept-IsLabelled =
        trans-IsLabelled p kept moved
          (put_record-IsLabelled p slot bs o g (omega (arith, above_slot)))
          (header_word-IsLabelled 10 o kept (omega arith) (omega arith))

-- The generation of a record that `insert` puts into a page.
unfoldable pub fresh_generation : Option ℕ → Page → ℕ
fresh_generation none p = 1
fresh_generation (some slot) p = slot_generation p slot + 1

pub insert_at-IsExtended :
    (p : Page) (r : Option ℕ) (bs : List ℕ)
    → IsPage p
    → IsBytes bs
    → length bs ≢ 0
    → IsChoice r p
    → length bs + slot_room r ≤ free_end p - free_start p
    → (q : Page) × (insert_at bs r p ≡ (chosen_slot r p, q))
      × IsExtended p (chosen_slot r p) bs (free_end p - length bs) (fresh_generation r p) q
      × IsLabelled p q
unfolding fresh_generation
insert_at-IsExtended p none bs w hb n choice room = (
  ended p w bs hb n room,
  insert_at-grown p w bs hb n room,
  grown-IsExtended p w bs hb n room,
  grown-IsLabelled p w bs hb n room,
)
insert_at-IsExtended p (some slot) bs w hb n choice room =
    let fits : length bs ≤ free_end p - free_start p = omega (arith, room) in
    (
      moved p w bs hb n slot choice fits,
      insert_at-kept p w bs hb n slot choice fits,
      kept-IsExtended p w bs hb n slot choice fits,
      kept-IsLabelled p w bs hb n slot choice fits,
    )
