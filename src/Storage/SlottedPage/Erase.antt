-- ===== src/Storage/SlottedPage/Erase.antt =====
-- `erase`: the slot is free afterwards, and its bytes are dead.
use mo_db.Prelude.{
  ℕ, ◌+◌, ◌<◌, ◌≡◌, ◌≢◌, ◌⊎◌, inl, inr, refl, leb, leb-false→lt, Bool-cases, zero-cases, true,
}
use mo_db.Error.{ok, err, slot_not_found}
use mo_db.Storage.SlottedPage.{
  Page, record_size, record_capacity, slot_generation, slot_count, erase, free_space, dead_bytes,
  read_in, is_missing,
}
use mo_db.Storage.SlottedPage.Slots.{IsPage, IsLabelled, IsAged}
use mo_db.Storage.SlottedPage.Reads.{IsAlike, free_missing, present, read_in-missing}
use mo_db.Storage.SlottedPage.Freed.{
  freed, freed-header, freed-IsEntry, freed-IsPage, freed-IsAlike, freed-room, freed-IsLabelled,
  freed-IsAged,
}

pub missing_cases :
    (p : Page) (slot : ℕ)
    → (is_missing p slot ≡ true) ⊎ ((slot < slot_count p) × (record_size p slot ≢ 0))
unfolding is_missing
missing_cases p slot = elim (Bool-cases (leb (slot_count p) slot)) [
  | inl out ↦ inl (rw out refl)
  | inr there ↦ elim (zero-cases (record_size p slot)) [
    | inl z ↦ inl (rw z (rw there refl))
    | inr z ↦ inr (leb-false→lt (slot_count p) slot there, z)
  ]
]

-- The page `q` is `p` without the record at `slot`.
pub record IsErased (p : Page) (slot : ℕ) (q : Page) : Type 0 where
  pub page : IsPage q
  pub read : read_in q slot ≡ err slot_not_found
  pub others : (j : ℕ) → j ≢ slot → IsAlike p q j
  pub label : IsLabelled p q
  pub aged : IsAged p q
  pub count : slot_count q ≡ slot_count p
  pub free : record_size q slot ≡ 0
  pub generation : slot_generation q slot ≡ slot_generation p slot
  pub room : free_space q + dead_bytes q ≡ free_space p + dead_bytes p + record_capacity p slot

-- On a well-formed page `erase` either fails with `slot_not_found`, where reading the slot fails with
-- it too, or it leaves a well-formed page in which the slot reads as `slot_not_found` and keeps its
-- generation, all other slots show what they did, and the free space and the dead bytes together have
-- grown by the capacity of the record.
pub erase_lem :
    (p : Page) (slot : ℕ)
    → IsPage p
    → ((read_in p slot ≡ err slot_not_found) × (erase slot p ≡ err slot_not_found))
      ⊎ ((q : Page) × (erase slot p ≡ ok q) × IsErased p slot q)
unfolding erase freed
erase_lem p slot w = elim (missing_cases p slot) [
  | inl gone ↦ inl (read_in-missing p slot gone, rw gone refl)
  | inr (there, live) ↦
      let e = freed-IsEntry p w slot there in
      let q : Page = freed p w slot there in
      inr (
        q,
        rw (present p slot there live) refl,
        record {
          page = freed-IsPage p w slot there;
          read = read_in-missing q slot (free_missing q slot e.size);
          others = freed-IsAlike p w slot there;
          aged = freed-IsAged p w slot there;
          label = freed-IsLabelled p w slot there;
          count = (freed-header p w slot there).0;
          free = e.size;
          generation = e.generation;
          room = freed-room p w slot there live;
        },
      )
]
