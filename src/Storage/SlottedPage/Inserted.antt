-- ===== src/Storage/SlottedPage/Inserted.antt =====
-- `insert` succeeds if and only if `insertion_capacity` says so, and what it leaves.
use mo_db.Prelude.{
  ℕ, ◌+◌, ◌-◌, ◌≤◌, ◌<◌, ◌≡◌, ◌≢◌, ◌⊎◌, inl, inr, refl, sym, ap, ◌∙◌, arith, List, length, Option,
  none, some, leb, leb→le, leb-false, ltb-false, lt→ltb, ==_ne, Bool-cases, true,
}
use mo_db.Storage.Endian.{IsBytes}
use mo_db.Error.{ok, err, page_full, slot_not_found}
use mo_db.Storage.SlottedPage.{
  Page, slot_generation, slot_count, free_end, insert_at, chosen_slot, slot_room, find_reusable,
  insertion_capacity, capacity_for, insert, insert_into, compact, free_space, dead_bytes, read_in,
  generation_in, is_missing,
}
use mo_db.Storage.SlottedPage.Slots.{
  IsPage, IsLabelled, trans-IsLabelled, IsAged, IsAgedSlot, trans-IsAged,
}
use mo_db.Storage.SlottedPage.Bytes.{IsOutside}
use mo_db.Storage.SlottedPage.Compact.{IsCompacted, compact-IsCompacted}
use mo_db.Storage.SlottedPage.Reads.{
  IsAlike, missing, free_missing, read_in-missing, compact_lem, free_space-IsPage,
}
use mo_db.Storage.SlottedPage.Store.{
  IsExtended, extended-IsPage, extended-read_in, extended-IsAlike, extended-IsAged,
}
use mo_db.Storage.SlottedPage.Insert.{
  IsChoice, find_reusable-IsChoice, fresh_generation, insert_at-IsExtended,
}

-- The page `q` is `p` with the record `bs` at `slot`, where `p` had none. A slot that was in use
-- before has a new generation.
pub record IsInserted (p : Page) (bs : List ℕ) (slot : ℕ) (q : Page) : Type 0 where
  pub page : IsPage q
  pub read : read_in q slot ≡ ok bs
  pub fresh : read_in p slot ≡ err slot_not_found
  pub others : (j : ℕ) → j ≢ slot → IsAlike p q j
  pub label : IsLabelled p q
  pub aged : IsAged p q
  pub generation :
      ((slot ≡ slot_count p) × (generation_in q slot ≡ ok 1))
      ⊎ ((slot < slot_count p) × (generation_in q slot ≡ ok (slot_generation p slot + 1)))

pub trans-IsAlike : (p q t : Page) (j : ℕ) → IsAlike p q j → IsAlike q t j → IsAlike p t j
trans-IsAlike p q t j a b = record {
  read = b.read ∙ a.read;
  generation = b.generation ∙ a.generation;
}

chosen-missing : (p : Page) (r : Option ℕ) → IsChoice r p → is_missing p (chosen_slot r p) ≡ true
chosen-missing p none c = missing p (slot_count p) (omega arith)
chosen-missing p (some slot) c = free_missing p slot c.free

fresh_cases :
    (p : Page) (r : Option ℕ) (q : Page)
    → IsChoice r p
    → generation_in q (chosen_slot r p) ≡ ok (fresh_generation r p)
    → ((chosen_slot r p ≡ slot_count p) × (generation_in q (chosen_slot r p) ≡ ok 1))
      ⊎ ((chosen_slot r p < slot_count p)
          × (generation_in q (chosen_slot r p) ≡ ok (slot_generation p (chosen_slot r p) + 1)))
unfolding fresh_generation
fresh_cases p none q c e = inl (refl, e)
fresh_cases p (some slot) q c e = inr (c.there, e)

-- The slot that was chosen is the one behind the last, or its generation is one more.
aged_slot :
    (p : Page) (r : Option ℕ) (bs : List ℕ) (o : ℕ) (q : Page)
    → IsChoice r p
    → IsExtended p (chosen_slot r p) bs o (fresh_generation r p) q
    → chosen_slot r p < slot_count p
    → IsAgedSlot p q (chosen_slot r p)
unfolding fresh_generation
aged_slot p none bs o q c x a = absurd (omega arith)
aged_slot p (some slot) bs o q c x a = inr (omega (arith, x.stored.entry.generation))

insert_at-IsInserted :
    (p : Page) (r : Option ℕ) (bs : List ℕ)
    → IsPage p
    → IsBytes bs
    → length bs ≢ 0
    → IsChoice r p
    → length bs + slot_room r ≤ free_space p
    → (q : Page) × (insert_at bs r p ≡ (chosen_slot r p, q)) × IsInserted p bs (chosen_slot r p) q
insert_at-IsInserted p r bs w hb n c room =
    let (q, e, x, l) =
      insert_at-IsExtended p r bs w hb n c (omega (arith, room, free_space-IsPage p w)) in
    let slot = chosen_slot r p in
    let o = free_end p - length bs in
    let g = fresh_generation r p in
    let (shown, counted) = extended-read_in p w slot bs o g q x in
    (
      q,
      e,
      record {
        page = extended-IsPage p w slot bs o g q x;
        read = shown;
        fresh = read_in-missing p slot (chosen-missing p r c);
        others = extended-IsAlike p w slot bs o g q x;
        label = l;
        aged = extended-IsAged p w slot bs o g q x (aged_slot p r bs o q c x);
        generation = fresh_cases p r q c counted;
      },
    )

compact-IsChoice : (p : Page) (r : Option ℕ) → IsPage p → IsChoice r p → IsChoice r (compact p)
compact-IsChoice p none w c = tt
compact-IsChoice p (some slot) w c =
    let k : IsCompacted p (compact p) = compact-IsCompacted p w in
    let s = k.copied slot c.there in
    record {
      there = omega (arith, k.count, c.there);
      free = s.size ∙ c.free;
      grows = λ e. c.grows (sym s.generation ∙ e);
    }

compact-chosen_slot :
    (p : Page) (r : Option ℕ) → IsPage p → chosen_slot r (compact p) ≡ chosen_slot r p
compact-chosen_slot p none w = (compact-IsCompacted p w).count
compact-chosen_slot p (some slot) w = refl

compact-generation :
    (p : Page) (slot : ℕ)
    → IsPage p
    → slot < slot_count p
    → slot_generation (compact p) slot ≡ slot_generation p slot
compact-generation p slot w b = ((compact-IsCompacted p w).copied slot b).generation

pub compact-IsLabelled : (p : Page) → IsPage p → IsLabelled p (compact p)
compact-IsLabelled p w = record {
  kept = λ i low out. (compact-IsCompacted p w).header i low (narrow i out);
}
  where
    narrow : (i : ℕ) → IsOutside i 6 6 → IsOutside i 10 2
    narrow i (inl h) = inl (omega arith)
    narrow i (inr h) = inr (omega arith)

pub compact-IsAged : (p : Page) → IsPage p → IsAged p (compact p)
compact-IsAged p w =
    let c : IsCompacted p (compact p) = compact-IsCompacted p w in
    record {
      count = omega (arith, c.count);
      slot = λ i a. let k = c.copied i a in inl (k.generation, λ z. k.size ∙ z);
    }

-- What is inserted into the compacted page is inserted into the page.
before_compact :
    (p : Page) (bs : List ℕ) (slot : ℕ) (q : Page)
    → IsPage p
    → IsInserted (compact p) bs slot q
    → IsInserted p bs slot q
before_compact p bs slot q w h =
    let (page, alike, dead, free) = compact_lem p w in
    let count : slot_count (compact p) ≡ slot_count p = (compact-IsCompacted p w).count in
    record {
      page = h.page;
      read = h.read;
      fresh = sym (alike slot).read ∙ h.fresh;
      others = λ j e. trans-IsAlike p (compact p) q j (alike j) (h.others j e);
      label = trans-IsLabelled p (compact p) q (compact-IsLabelled p w) h.label;
      aged = trans-IsAged p (compact p) q (compact-IsAged p w) h.aged;
      generation = elim h.generation [
        | inl (a, b) ↦ inl (a ∙ count, b)
        | inr (a, b) ↦
            let small : slot < slot_count p = omega (arith, a, count) in
            inr (small, b ∙ ap (λ (n : ℕ). ok (n + 1)) (compact-generation p slot w small))
      ];
    }

capacity_cases :
    (r : Option ℕ) (n reclaimable : ℕ)
    → n ≢ 0
    → ((n ≤ capacity_for r reclaimable) × (n + slot_room r ≤ reclaimable))
      ⊎ ((capacity_for r reclaimable < n) × (reclaimable < n + slot_room r))
capacity_cases none n reclaimable h = ground arith
capacity_cases (some slot) n reclaimable h = ground arith

into_full :
    (p : Page) (r : Option ℕ) (bs : List ℕ)
    → free_space p + dead_bytes p < length bs + slot_room r
    → insert_into bs r p ≡ err page_full
unfolding insert_into
into_full p r bs h =
    rw
      (
        leb-false (length bs + slot_room r) (free_space p) (omega arith),
        lt→ltb (free_space p + dead_bytes p) (length bs + slot_room r) h,
      )
      refl

into_IsInserted :
    (p : Page) (r : Option ℕ) (bs : List ℕ)
    → IsPage p
    → IsBytes bs
    → length bs ≢ 0
    → IsChoice r p
    → length bs + slot_room r ≤ free_space p + dead_bytes p
    → (slot : ℕ) × (q : Page) × (insert_into bs r p ≡ ok (slot, q)) × IsInserted p bs slot q
unfolding insert_into
into_IsInserted p r bs w hb n c room =
    elim (Bool-cases (leb (length bs + slot_room r) (free_space p))) [
      | inl fits ↦
          let (q, e, x) =
            insert_at-IsInserted p r bs w hb n c
              (leb→le (length bs + slot_room r) (free_space p) fits) in
          (chosen_slot r p, q, rw (fits, e) refl, x)
      | inr tight ↦
          let (page, alike, dead, free) = compact_lem p w in
          let (q, e, x) =
            insert_at-IsInserted (compact p) r bs page hb n (compact-IsChoice p r w c)
              (omega (arith, free, room)) in
          (
            chosen_slot r (compact p),
            q,
            rw (tight, ltb-false (free_space p + dead_bytes p) (length bs + slot_room r) room, e)
                refl,
            before_compact p bs (chosen_slot r (compact p)) q w x,
          )
    ]

-- A record of 1 to 8156 bytes goes into a well-formed page if `insertion_capacity` is at least its
-- length. Then the new page is well formed, shows the record at the slot that `insert` returns,
-- where the old page showed none, and shows at every other slot what the old page did; the slot is
-- the one behind the last, with generation 1, or a free one, with its generation counted up. If
-- `insertion_capacity` is less, the result is `page_full`.
pub insert_lem :
    (p : Page) (bs : List ℕ)
    → IsPage p
    → IsBytes bs
    → length bs ≢ 0
    → length bs ≤ 8156
    → ((length bs ≤ insertion_capacity p)
        × ((slot : ℕ) × (q : Page) × (insert bs p ≡ ok (slot, q)) × IsInserted p bs slot q))
      ⊎ ((insertion_capacity p < length bs) × (insert bs p ≡ err page_full))
unfolding insert insertion_capacity
insert_lem p bs w hb n small =
    rw (==_ne (length bs) 0 n, ltb-false 8156 (length bs) small)
      (let r = find_reusable p (slot_count p) 0 in
        let c : IsChoice r p = find_reusable-IsChoice p (slot_count p) 0 (omega arith) in
        elim (capacity_cases r (length bs) (free_space p + dead_bytes p) n) [
          | inl (fits, room) ↦ inl (fits, into_IsInserted p r bs w hb n c room)
          | inr (tight, full) ↦ inr (tight, into_full p r bs full)
        ])
