-- ===== src/Storage/SlottedPage/Moved.antt =====
-- `compact`: what its loop has done after some slots, and what it leaves.
use mo_db.Prelude.{
  ℕ, suc, ◌+◌, ◌≤◌, ◌<◌, ◌≡◌, ◌≢◌, ◌⊎◌, inl, inr, refl, sym, ap, ◌∙◌, arith, ◌==◌, ==_iff, ==_ne,
  Bool-cases, zero-cases, ne-cases, true, false,
}
use mathlib.Core.Path.{subst}
use mo_db.Storage.SlottedPage.{
  Page, subspan, slot_offset, record_offset, record_size, record_capacity, slot_generation,
  slot_count, free_start, free_end, live_capacity,
}
use mo_db.Storage.SlottedPage.Bytes.{IsOutside, IsBytePage, subspan-cong}
use mo_db.Storage.SlottedPage.Slots.{IsEntry, IsPage, entry-cong}
use mo_db.Storage.SlottedPage.Room.{live_capacity-le}

-- `slot` has the record of `source` somewhere from `end` on.
pub record IsCopied (source p : Page) (end slot : ℕ) : Type 0 where
  pub size : record_size p slot ≡ record_size source slot
  pub capacity : record_capacity p slot ≡ record_capacity source slot
  pub generation : slot_generation p slot ≡ slot_generation source slot
  pub free : record_size source slot ≡ 0 → record_offset p slot ≡ 0
  pub low : record_size source slot ≢ 0 → end ≤ record_offset p slot
  pub high : record_offset p slot + record_capacity source slot ≤ 8192
  pub content :
      subspan p (record_offset p slot) (record_capacity source slot)
      ≡ subspan source (record_offset source slot) (record_capacity source slot)

-- After the first `n` slots; `d` is the destination.
pub record IsMoved (source : Page) (n : ℕ) (p : Page) (d : ℕ) : Type 0 where
  pub destination : d + live_capacity n source ≡ 8192
  pub bytes : IsBytePage p
  pub header : (i : ℕ) → i < 28 → p i ≡ source i
  pub unread : (i : ℕ) → free_start source ≤ i → i < d → p i ≡ source i
  pub later :
      (j i : ℕ)
      → n ≤ j
      → j < slot_count source
      → slot_offset j ≤ i
      → i < slot_offset j + 8
      → p i ≡ source i
  pub copied : (j : ℕ) → j < n → IsCopied source p d j
  pub apart :
      (i j : ℕ)
      → i < j
      → j < n
      → record_size source i ≢ 0
      → record_size source j ≢ 0
      → record_offset p j + record_capacity source j ≤ record_offset p i

-- What a round changes: the area in front of the destination, and the entry of its slot.
pub record IsStep (source : Page) (n : ℕ) (p : Page) (d : ℕ) (p' : Page) (d' : ℕ) : Type 0 where
  pub moved : d' + record_capacity source n ≡ d
  pub bytes : IsBytePage p'
  pub same :
      (i : ℕ)
      → IsOutside i d' (record_capacity source n)
      → IsOutside i (slot_offset n) 8
      → p' i ≡ p i
  pub entry :
      IsEntry p' n d' (record_size source n) (record_capacity source n) (slot_generation source n)
  pub content :
      subspan p' d' (record_capacity source n)
      ≡ subspan source (record_offset source n) (record_capacity source n)

pub last_cases : (j n : ℕ) → j < suc n → (j ≡ n) ⊎ (j < n)
last_cases j n h = elim (Bool-cases (j == n)) [
  | inl e ↦ inl ((==_iff j n).0 e)
  | inr e ↦ elim (ne-cases j n (λ q. false-ne (sym e ∙ (==_iff j n).1 q))) [
    | inl a ↦ inr a
    | inr b ↦ absurd (omega arith)
  ]
]
  where
    false-ne : false ≢ true
    false-ne q = cc

module _ (source : Page) (w : IsPage source) (n : ℕ) (small : n < slot_count source) (p : Page)
    (d : ℕ) (h : IsMoved source n p d) (live : record_size source n ≢ 0) where
  pub room : free_end source + record_capacity source n ≤ d
  unfolding live_capacity
  room = omega (
    arith,
    h.destination,
    rw (==_ne (record_size source n) 0 live) at (live_capacity-le source (suc n) w (omega arith)),
  )

  module _ (p' : Page) (d' : ℕ) (s : IsStep source n p d p' d') where
    above : free_start source ≤ d'
    above = omega (arith, room, s.moved, w.low)

    -- The bytes of another entry, and of an area behind the destination, are kept.
    entry_kept :
        (j i : ℕ)
        → j ≢ n
        → j < slot_count source
        → slot_offset j ≤ i
        → i < slot_offset j + 8
        → p' i ≡ p i
    entry_kept j i e b lo hi =
        s.same i (inl (omega (arith, above, w.directory)))
          (elim (ne-cases j n e) [ inl c ↦ inl (omega arith) | inr c ↦ inr (omega arith) ])

    -- The records that were copied before stay.
    kept-IsCopied :
        (j : ℕ) → j < n → IsCopied source p' d' j × (record_offset p' j ≡ record_offset p j)
    kept-IsCopied j b =
        let c : IsCopied source p d j = h.copied j b in
        let e =
          entry-cong p' p j
            (λ i lo hi. entry_kept j i (λ q. omega (arith, q)) (omega arith) lo hi) in
        (
          record {
            size = e.size ∙ c.size;
            capacity = e.capacity ∙ c.capacity;
            generation = e.generation ∙ c.generation;
            free = λ z. e.offset ∙ c.free z;
            low = λ z. omega (arith, e.offset, c.low z, s.moved);
            high = omega (arith, e.offset, c.high);
            content = elim (zero-cases (record_size source j)) [
              | inl z ↦
                  let none_reserved : record_capacity source j ≡ 0 =
                    ((w.slot j (omega arith)).free z).1 in
                  rw none_reserved (unfold subspan in refl)
              | inr z ↦ rw e.offset (
                  subspan-cong p' p (record_offset p j) (record_capacity source j) (λ i lo hi.
                    s.same i (inr (omega (arith, s.moved, c.low z)))
                      (inr (omega (arith, c.low z, room, w.low, w.directory))))
                  ∙ c.content)
            ];
          },
          e.offset,
        )

    new-IsCopied : IsCopied source p' d' n
    new-IsCopied = record {
      size = s.entry.size;
      capacity = s.entry.capacity;
      generation = s.entry.generation;
      free = λ z. absurd (live z);
      low = λ z. omega (arith, s.entry.offset);
      high = omega (arith, s.entry.offset, s.moved, h.destination);
      content = rw s.entry.offset s.content;
    }

    pub step-IsMoved : IsMoved source (suc n) p' d'
    unfolding live_capacity
    step-IsMoved = record {
      destination =
          rw (==_ne (record_size source n) 0 live) (omega (arith, h.destination, s.moved));
      bytes = s.bytes;
      header = λ i b.
          s.same i (inl (omega (arith, above, w.directory))) (inl (omega arith)) ∙ h.header i b;
      unread = λ i lo hi.
          s.same i (inl hi) (inr (omega (arith, w.directory)))
          ∙ h.unread i lo (omega (arith, s.moved));
      later = λ j i b c lo hi.
          entry_kept j i (λ q. omega (arith, q)) c lo hi ∙ h.later j i (omega arith) c lo hi;
      copied = λ j b. elim (last_cases j n b) [
        | inl q ↦ subst (IsCopied source p' d') (sym q) new-IsCopied
        | inr c ↦ (kept-IsCopied j c).0
      ];
      apart = λ i j b c u v. elim (last_cases j n c) [
        | inl q ↦ omega (
          arith,
          ap (record_offset p') q,
          ap (record_capacity source) q,
          s.entry.offset,
          s.moved,
          (kept-IsCopied i (omega (arith, q))).1,
          (h.copied i (omega (arith, q))).low u,
        )
        | inr e ↦
            omega
              (arith, h.apart i j b e u v, (kept-IsCopied i (omega arith)).1, (kept-IsCopied j e).1)
      ];
    }
