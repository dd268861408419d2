-- ===== src/Storage/SlottedPage/Freed.antt =====
-- A slot is freed: the others stay as they are, and its bytes are dead.
use mo_db.Prelude.{
  ℕ, zero, suc, ◌+◌, ◌≤◌, ◌<◌, ◌≡◌, ◌≢◌, ◌⊎◌, inl, inr, sym, ap, ◌∙◌, arith, leb, leb→le,
  leb-false→lt, ◌==◌, ==_ne, Bool-cases, ne-cases,
}
use mathlib.Core.Path.{subst}
use mo_db.Storage.SlottedPage.{
  Page, subspan, slot_offset, record_offset, record_size, record_capacity, slot_generation,
  write_slot, slot_count, free_start, free_end, live_capacity, free_space, dead_bytes,
}
use mo_db.Storage.SlottedPage.Bytes.{read_u16-cong, read_u16-lt, subspan-cong}
use mo_db.Storage.SlottedPage.Slots.{
  IsEntry, IsSlot, IsPage, IsApart, IsLabelled, IsAged, IsAgedSlot, write_slot-outside,
  write_slot-IsBytePage, write_slot-IsEntry, entry-cong,
}
use mo_db.Storage.SlottedPage.Room.{live_capacity-le}
use mo_db.Storage.SlottedPage.Moved.{last_cases}
use mo_db.Storage.SlottedPage.Reads.{
  IsAlike, missing, missing-IsAlike, present-IsAlike, free_space-IsPage, dead_bytes-IsPage,
  live_capacity-cong,
}
use mo_db.Prelude.{equal_cases}

module _ (p : Page) (w : IsPage p) (slot : ℕ) (there : slot < slot_count p) where
  abbrev g : ℕ
  g = slot_generation p slot

  unfoldable pub freed : Page
  freed = write_slot slot 0 0 0 g p

  same : (i : ℕ) → (i < slot_offset slot) ⊎ (slot_offset slot + 8 ≤ i) → freed i ≡ p i
  unfolding freed
  same i h = write_slot-outside slot 0 0 0 g p i h

  pub freed-header :
      (slot_count freed ≡ slot_count p)
      × (free_start freed ≡ free_start p)
      × (free_end freed ≡ free_end p)
  unfolding slot_count free_start free_end
  freed-header = (
    read_u16-cong freed p 6 (λ i lo hi. same i (inl (omega arith))),
    read_u16-cong freed p 8 (λ i lo hi. same i (inl (omega arith))),
    read_u16-cong freed p 10 (λ i lo hi. same i (inl (omega arith))),
  )

  pub freed-IsLabelled : IsLabelled p freed
  freed-IsLabelled = record { kept = λ i low out. same i (inl (omega arith)) }

  pub freed-IsEntry : IsEntry freed slot 0 0 0 g
  unfolding freed slot_generation
  freed-IsEntry =
      write_slot-IsEntry slot 0 0 0 g p (omega arith) (omega arith) (omega arith)
        (read_u16-lt p (slot_offset slot + 6) w.bytes)

  entry_kept :
      (j : ℕ)
      → j ≢ slot
      → IsEntry freed j
          (record_offset p j)
          (record_size p j)
          (record_capacity p j)
          (slot_generation p j)
  entry_kept j e = entry-cong freed p j (λ i lo hi.
      same i (elim (ne-cases j slot e) [ inl c ↦ inl (omega arith) | inr c ↦ inr (omega arith) ]))

  pub freed-IsAged : IsAged p freed
  freed-IsAged = record {
    count = omega (arith, freed-header.0);
    slot = λ j a. elim (equal_cases j slot) [
      | inl e ↦
          let f : IsEntry freed slot 0 0 0 g = freed-IsEntry in
          subst (IsAgedSlot p freed) (sym e) (inl (f.generation, λ z. f.size))
      | inr e ↦ let k = entry_kept j e in inl (k.generation, λ z. k.size ∙ z)
    ];
  }

  freed-IsSlot : IsSlot freed (free_end freed) slot
  freed-IsSlot =
      let e : IsEntry freed slot 0 0 0 g = freed-IsEntry in
      record {
        generation = λ z. (w.slot slot there).generation (sym e.generation ∙ z);
        free = λ z. (e.offset, e.capacity);
        fits = omega (arith, e.size);
        low = λ z. absurd (z e.size);
        high = omega (arith, e.offset, e.capacity);
      }

  kept-IsSlot : (j : ℕ) → j < slot_count p → j ≢ slot → IsSlot freed (free_end freed) j
  kept-IsSlot j a e =
      let k = entry_kept j e in
      let (count, start, end) = freed-header in
      let v : IsSlot p (free_end p) j = w.slot j a in
      record {
        generation = λ z. v.generation (sym k.generation ∙ z);
        free = λ z. let (x, y) = v.free (sym k.size ∙ z) in (k.offset ∙ x, k.capacity ∙ y);
        fits = omega (arith, k.size, k.capacity, v.fits);
        low = λ z. omega (arith, k.offset, end, v.low (λ u. z (k.size ∙ u)));
        high = omega (arith, k.offset, k.capacity, v.high);
      }

  pair-IsApart :
      (i j : ℕ)
      → i < slot_count freed
      → j < slot_count freed
      → i ≢ j
      → record_size freed i ≢ 0
      → record_size freed j ≢ 0
      → IsApart freed i j
  pair-IsApart i j a b e u v =
      let (count, start, end) = freed-header in
      let f : IsEntry freed slot 0 0 0 g = freed-IsEntry in
      let k = entry_kept i (λ q. u (ap (record_size freed) q ∙ f.size)) in
      let l = entry_kept j (λ q. v (ap (record_size freed) q ∙ f.size)) in
      elim (w.apart i j (omega (arith, a, count)) (omega (arith, b, count)) e (λ z. u (k.size ∙ z))
        (λ z. v (l.size ∙ z))) [
          | inl c ↦ inl (omega (arith, k.offset, k.capacity, l.offset, c))
          | inr c ↦ inr (omega (arith, k.offset, l.capacity, l.offset, c))
        ]

  pub freed-IsPage : IsPage freed
  unfolding freed
  freed-IsPage =
      let (count, start, end) = freed-header in
      record {
        bytes = write_slot-IsBytePage slot 0 0 0 g p w.bytes;
        directory = omega (arith, count, start, w.directory);
        low = omega (arith, start, end, w.low);
        high = omega (arith, end, w.high);
        slot = λ j a. elim (equal_cases j slot) [
          | inl e ↦ subst (IsSlot freed (free_end freed)) (sym e) freed-IsSlot
          | inr e ↦ kept-IsSlot j (omega (arith, a, count)) e
        ];
        apart = pair-IsApart;
      }

  pub freed-IsAlike : (j : ℕ) → j ≢ slot → IsAlike p freed j
  freed-IsAlike j e =
      let (count, start, end) = freed-header in
      let k = entry_kept j e in
      elim (Bool-cases (leb (slot_count p) j)) [
        | inl out ↦
            let b : slot_count p ≤ j = leb→le (slot_count p) j out in
            missing-IsAlike p freed j (missing p j b) (missing freed j (omega (arith, b, count)))
        | inr there' ↦
            let a : j < slot_count p = leb-false→lt (slot_count p) j there' in
            present-IsAlike p freed j a (omega (arith, a, count)) k.size k.generation (λ z.
              ap (λ (x : ℕ). subspan freed x (record_size p j)) k.offset
              ∙ subspan-cong freed p (record_offset p j) (record_size p j) (λ i lo hi.
                same i (inr (omega (arith, there, w.directory, w.low, (w.slot j a).low z)))))
      ]

  -- The sum of the capacities, with and without the slot.
  before_capacity : (n : ℕ) → n ≤ slot → live_capacity n freed ≡ live_capacity n p
  before_capacity n a =
      live_capacity-cong p freed n
        (λ i b. let k = entry_kept i (λ q. omega (arith, q, a, b)) in (k.size, k.capacity))

  live_capacity-freed :
      (n : ℕ)
      → slot < n
      → record_size p slot ≢ 0
      → live_capacity n freed + record_capacity p slot ≡ live_capacity n p
  unfolding live_capacity
  live_capacity-freed zero a live = absurd (omega arith)
  live_capacity-freed (suc n) a live = elim (last_cases slot n a) [
    | inl q ↦
        let f : IsEntry freed slot 0 0 0 g = freed-IsEntry in
        let none_there : record_size freed n ≡ 0 = sym (ap (record_size freed) q) ∙ f.size in
        let live_there : record_size p n ≢ 0 = λ z. live (ap (record_size p) q ∙ z) in
        rw (none_there, ==_ne (record_size p n) 0 live_there)
          (omega (arith, before_capacity n (omega (arith, q)), ap (record_capacity p) q))
    | inr b ↦
        let k = entry_kept n (λ q. omega (arith, q)) in
        let rest = live_capacity-freed n b live in
        rw k.size (elim (Bool-cases (record_size p n == 0)) [
          | inl z ↦ rw z rest
          | inr z ↦ rw z (omega (arith, rest, k.capacity))
        ])
  ]

  pub freed-room :
      record_size p slot ≢ 0
      → free_space freed + dead_bytes freed ≡ free_space p + dead_bytes p + record_capacity p slot
  freed-room live =
      let (count, start, end) = freed-header in
      let q : IsPage freed = freed-IsPage in
      let c : live_capacity (slot_count freed) freed ≡ live_capacity (slot_count p) freed =
        ap (λ (n : ℕ). live_capacity n freed) count in
      omega (
        arith,
        free_space-IsPage p w,
        free_space-IsPage freed q,
        dead_bytes-IsPage p w,
        dead_bytes-IsPage freed q,
        start,
        end,
        c,
        live_capacity-freed (slot_count p) there live,
        live_capacity-le p (slot_count p) w (omega arith),
        w.high,
      )
