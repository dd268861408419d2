-- ===== src/Tests/PageRuns.antt =====
-- Runs of the slotted page on small records.
use mo_db.Prelude.{ℕ, ◌+◌, ◌≤◌, ◌<◌, ◌≡◌, ◌≢◌, ◌⊎◌, ◌↔◌, refl, arith, some, List, [], ◌∷◌, length}
use mo_db.Error.{ok, err, page_full, slot_not_found}
use mo_db.Storage.SlottedPage.{
  Page, insert, update, erase, compact, read_in, generation_in, free_space, dead_bytes,
  record_capacity, insertion_capacity, slot_count, read_u16, free_end, free_start, record_size,
  write_slot, slot_generation,
}
use mo_db.Storage.Endian.{load_le_loop}
use mo_db.Storage.SlottedPage.Slots.{IsPage}
use mo_db.Storage.SlottedPage.Reads.{IsAlike, compact_lem}
use mo_db.Storage.SlottedPage.Inserted.{IsInserted, insert_lem}
use mo_db.Storage.SlottedPage.Placed.{IsUpdated}
use mo_db.Storage.SlottedPage.Update.{update_lem}
use mo_db.Storage.SlottedPage.Erase.{IsErased, erase_lem}
use mo_db.Storage.SlottedPage.Validate.{create, validate_page}
use mo_db.Storage.SlottedPage.Validate.Accepted.{HasFormat, validate_page_iff}
use mo_db.Storage.SlottedPage.Links.{set_next_page, set_previous_page, next_page, previous_page}
use mo_db.Storage.SlottedPage.Links.Laws.{IsLinked, links_lem}
use mo_db.Storage.SlottedPage.History.{Op, insert_record, erase_record, perform_all}
use mo_db.Storage.SlottedPage.History.Laws.{
  create-IsPage, create-IsBytePage, perform_all-IsNext, perform_all-validate_page,
  erase-perform_all,
}

abbrev bytes : List ℕ
bytes = 1 ∷ 2 ∷ 3 ∷ []

-- Two records, of which the first is removed.
abbrev ops : List Op
ops = insert_record bytes ∷ insert_record (9 ∷ []) ∷ erase_record 0 ∷ []

abbrev page : Page
page = perform_all ops create

page-IsPage : IsPage page
page-IsPage =
    (perform_all-IsNext ops create
      ((omega arith, (omega arith, (omega arith, tt))), ((omega arith, tt), (tt, tt)))
      create-IsPage).page

compact_lem_example :
    IsPage (compact page)
    × ((slot : ℕ) → IsAlike page (compact page) slot)
    × (dead_bytes (compact page) ≡ 0)
    × (free_space (compact page) ≡ free_space page + dead_bytes page)
compact_lem_example = compact_lem page page-IsPage

insert_lem_example :
    ((length bytes ≤ insertion_capacity page)
      × ((slot : ℕ) × (q : Page) × (insert bytes page ≡ ok (slot, q))
          × IsInserted page bytes slot q))
    ⊎ ((insertion_capacity page < length bytes) × (insert bytes page ≡ err page_full))
insert_lem_example =
    insert_lem page bytes page-IsPage (omega arith, (omega arith, (omega arith, tt)))
      (λ e. omega (arith, e)) (omega arith)

update_lem_example :
    ((read_in page 1 ≡ err slot_not_found) × (update 1 bytes page ≡ err slot_not_found))
    ⊎ (((length bytes ≤ free_space page + dead_bytes page + record_capacity page 1)
          × ((q : Page) × (update 1 bytes page ≡ ok q) × IsUpdated page bytes 1 q))
        ⊎ ((free_space page + dead_bytes page + record_capacity page 1 < length bytes)
            × (update 1 bytes page ≡ err page_full)))
update_lem_example =
    update_lem page 1 bytes page-IsPage (omega arith, (omega arith, (omega arith, tt)))
      (λ e. omega (arith, e)) (omega arith)

erase_lem_example :
    ((read_in page 1 ≡ err slot_not_found) × (erase 1 page ≡ err slot_not_found))
    ⊎ ((q : Page) × (erase 1 page ≡ ok q) × IsErased page 1 q)
erase_lem_example = erase_lem page 1 page-IsPage

validate_page_iff_example : (validate_page create ≡ ok tt) ↔ (HasFormat create × IsPage create)
validate_page_iff_example = validate_page_iff create create-IsBytePage

links_lem_example :
    ((q : Page) × (set_next_page (some 5) page ≡ ok q)
      × IsLinked page (some 5) (previous_page page) q)
    × ((q : Page) × (set_previous_page (some 5) page ≡ ok q)
        × IsLinked page (next_page page) (some 5) q)
links_lem_example = links_lem page (some 5) page-IsPage ((λ e. omega (arith, e)), omega arith)

perform_all-validate_page_example : validate_page (perform_all ops create) ≡ ok tt
perform_all-validate_page_example =
    perform_all-validate_page ops
      ((omega arith, (omega arith, (omega arith, tt))), ((omega arith, tt), (tt, tt)))

-- The slot of the second record is erased and used again.
shown : generation_in page 1 ≡ ok 1
unfolding generation_in slot_count read_u16 load_le_loop perform_all create free_space free_end
    free_start record_size write_slot slot_generation
shown = refl

erase-perform_all_example :
    (q : Page) × (erase 1 page ≡ ok q)
    × (generation_in (perform_all (insert_record bytes ∷ insert_record bytes ∷ []) q) 1 ≢ ok 1)
erase-perform_all_example =
    erase-perform_all page 1 1 (insert_record bytes ∷ insert_record bytes ∷ []) page-IsPage shown (
      (omega arith, (omega arith, (omega arith, tt))),
      ((omega arith, (omega arith, (omega arith, tt))), tt),
    )
