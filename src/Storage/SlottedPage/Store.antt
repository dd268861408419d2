-- ===== src/Storage/SlottedPage/Store.antt =====
-- A page with a record put into an area of its own is well formed, and shows the record.
use mo_db.Prelude.{
  equal_cases, ℕ, ◌+◌, ◌*◌, ◌≤◌, ◌<◌, ◌≡◌, ◌≢◌, ◌⊎◌, inl, inr, sym, ap, ap₂, ◌∙◌, arith, List,
  length, leb, leb→le, leb-false→lt, Bool-cases, ne-cases,
}
use mathlib.Core.Path.{subst}
use mo_db.Error.{ok}
use mo_db.Storage.SlottedPage.{
  Page, subspan, record_offset, record_size, record_capacity, slot_generation, slot_count,
  free_start, free_end, read_in, generation_in,
}
use mo_db.Storage.SlottedPage.Bytes.{subspan-cong}
use mo_db.Storage.SlottedPage.Slots.{
  IsEntry, IsSlot, IsPage, IsApart, entry-cong, IsAged, IsAgedSlot,
}
use mo_db.Storage.SlottedPage.Reads.{
  IsAlike, missing, missing-IsAlike, present-IsAlike, read_in-present,
}
use mo_db.Storage.SlottedPage.Put.{IsStored}

-- The directory of `q` is that of `p`, with `slot` added where `p` has none, and the area of the
-- record lies apart from those of all other slots.
pub record IsExtended (p : Page) (slot : ℕ) (bs : List ℕ) (o g : ℕ) (q : Page) : Type 0 where
  pub stored : IsStored p slot bs o g q
  pub there : slot < slot_count q
  pub count : slot_count p ≤ slot_count q
  pub others : (j : ℕ) → j < slot_count q → j ≢ slot → j < slot_count p
  pub directory : free_start q ≡ 28 + slot_count q * 8
  pub low : free_start q ≤ free_end q
  pub end : free_end q ≤ free_end p
  pub above : free_end q ≤ o
  pub high : o + length bs ≤ 8192
  pub apart :
      (j : ℕ)
      → j < slot_count p
      → j ≢ slot
      → record_size p j ≢ 0
      → (record_offset p j + record_capacity p j ≤ o) ⊎ (o + length bs ≤ record_offset p j)
  pub generation : g ≢ 0
  pub nonempty : length bs ≢ 0

module _ (p : Page) (w : IsPage p) (slot : ℕ) (bs : List ℕ) (o g : ℕ) (q : Page)
    (h : IsExtended p slot bs o g q) where
  abbrev s : IsStored p slot bs o g q
  s = h.stored

  entry_kept :
      (j : ℕ)
      → j < slot_count q
      → j ≢ slot
      → IsEntry q j
          (record_offset p j)
          (record_size p j)
          (record_capacity p j)
          (slot_generation p j)
  entry_kept j a e = entry-cong q p j (λ i lo hi.
      s.same i (omega arith) (inl (omega (arith, h.directory, h.low, h.above)))
        (elim (ne-cases j slot e) [ inl c ↦ inl (omega arith) | inr c ↦ inr (omega arith) ]))

  kept-IsSlot : (j : ℕ) → j < slot_count q → j ≢ slot → IsSlot q (free_end q) j
  kept-IsSlot j a e =
      let k = entry_kept j a e in
      let v : IsSlot p (free_end p) j = w.slot j (h.others j a e) in
      record {
        generation = λ z. v.generation (sym k.generation ∙ z);
        free = λ z. let (x, y) = v.free (sym k.size ∙ z) in (k.offset ∙ x, k.capacity ∙ y);
        fits = omega (arith, k.size, k.capacity, v.fits);
        low = λ z. omega (arith, k.offset, h.end, v.low (λ u. z (k.size ∙ u)));
        high = omega (arith, k.offset, k.capacity, v.high);
      }

  new-IsSlot : IsSlot q (free_end q) slot
  new-IsSlot = record {
    generation = λ z. h.generation (sym s.entry.generation ∙ z);
    free = λ z. absurd (h.nonempty (sym s.entry.size ∙ z));
    fits = omega (arith, s.entry.size, s.entry.capacity);
    low = λ z. omega (arith, s.entry.offset, h.above);
    high = omega (arith, s.entry.offset, s.entry.capacity, h.high);
  }

  -- The new area and that of another slot.
  new-IsApart : (j : ℕ) → j < slot_count q → j ≢ slot → record_size q j ≢ 0 → IsApart q j slot
  new-IsApart j a e z =
      let k = entry_kept j a e in
      elim (h.apart j (h.others j a e) e (λ u. z (k.size ∙ u))) [
        | inl b ↦ inl (omega (arith, k.offset, k.capacity, s.entry.offset, b))
        | inr b ↦ inr (omega (arith, k.offset, s.entry.offset, s.entry.capacity, b))
      ]

  swap-IsApart : (i j : ℕ) → IsApart q i j → IsApart q j i
  swap-IsApart i j (inl a) = inr a
  swap-IsApart i j (inr a) = inl a

  pair-IsApart :
      (i j : ℕ)
      → i < slot_count q
      → j < slot_count q
      → i ≢ j
      → record_size q i ≢ 0
      → record_size q j ≢ 0
      → IsApart q i j
  pair-IsApart i j a b e u v = elim (equal_cases j slot) [
    | inl x ↦ subst (IsApart q i) (sym x) (new-IsApart i a (λ y. e (y ∙ sym x)) u)
    | inr x ↦ elim (equal_cases i slot) [
      | inl y ↦ swap-IsApart j i (subst (IsApart q j) (sym y) (new-IsApart j b x v))
      | inr y ↦
          let k = entry_kept i a y in
          let l = entry_kept j b x in
          elim (w.apart i j (h.others i a y) (h.others j b x) e (λ z. u (k.size ∙ z))
            (λ z. v (l.size ∙ z))) [
              | inl c ↦ inl (omega (arith, k.offset, k.capacity, l.offset, c))
              | inr c ↦ inr (omega (arith, k.offset, l.capacity, l.offset, c))
            ]
    ]
  ]

  pub extended-IsPage : IsPage q
  extended-IsPage = record {
    bytes = s.bytes;
    directory = h.directory;
    low = h.low;
    high = omega (arith, h.end, w.high);
    slot = λ j a. elim (equal_cases j slot) [
      | inl e ↦ subst (IsSlot q (free_end q)) (sym e) new-IsSlot
      | inr e ↦ kept-IsSlot j a e
    ];
    apart = pair-IsApart;
  }

  pub extended-read_in : (read_in q slot ≡ ok bs) × (generation_in q slot ≡ ok g)
  extended-read_in =
      let (r, k) = read_in-present q slot h.there (λ z. h.nonempty (sym s.entry.size ∙ z)) in
      (
        r ∙ ap ok (ap₂ (subspan q) s.entry.offset s.entry.size ∙ s.content),
        k ∙ ap ok s.entry.generation,
      )

  pub extended_other : (j : ℕ) → j < slot_count p → j ≢ slot → IsAgedSlot p q j
  extended_other j a e =
      let k = entry_kept j (omega (arith, a, h.count)) e in inl (k.generation, λ z. k.size ∙ z)

  pub extended-IsAged : (slot < slot_count p → IsAgedSlot p q slot) → IsAged p q
  extended-IsAged here = record {
    count = h.count;
    slot = λ j a. elim (equal_cases j slot) [
      | inl e ↦ subst (IsAgedSlot p q) (sym e) (here (omega (arith, e, a)))
      | inr e ↦ extended_other j a e
    ];
  }

  pub extended-IsAlike : (j : ℕ) → j ≢ slot → IsAlike p q j
  extended-IsAlike j e = elim (Bool-cases (leb (slot_count q) j)) [
    | inl out ↦
        let b : slot_count q ≤ j = leb→le (slot_count q) j out in
        missing-IsAlike p q j (missing p j (omega (arith, b, h.count))) (missing q j b)
    | inr there ↦
        let b : j < slot_count q = leb-false→lt (slot_count q) j there in
        let k = entry_kept j b e in
        let a : j < slot_count p = h.others j b e in
        let v : IsSlot p (free_end p) j = w.slot j a in
        present-IsAlike p q j a b k.size k.generation (λ z.
          ap (λ (x : ℕ). subspan q x (record_size p j)) k.offset
          ∙ subspan-cong q p (record_offset p j) (record_size p j) (λ i lo hi.
            s.same i (omega (arith, v.low z, w.low, w.directory))
              (elim (h.apart j a e z) [
                | inl c ↦ inl (omega (arith, v.fits, c))
                | inr c ↦ inr (omega (arith, c))
              ])
              (inr (omega (arith, h.there, h.directory, h.low, h.end, v.low z)))))
  ]
