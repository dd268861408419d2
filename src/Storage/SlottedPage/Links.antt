-- ===== src/Storage/SlottedPage/Links.antt =====
-- src/storage/slotted_page.cpp: the links of the chain of pages, and what is told of the slots.
pub mod Laws
use mo_db.Prelude.{
  ℕ, zero, suc, ◌+◌, ◌%◌, ◌^◌, Option, none, some, List, [], ◌∷◌, ◌==◌, if◌then◌else◌,
}
use mo_db.Error.{Result, ok, err, invalid_argument}
use mo_db.Storage.SlottedPage.{
  Page, write_u64, read_u64, next_page_offset, previous_page_offset, record_offset, record_size,
  record_capacity, slot_generation, slot_count,
}

-- Zero stands for no page.
abbrev pub page_of : ℕ → Option ℕ
page_of value = if value == 0 then none else some value

unfoldable pub next_page : Page → Option ℕ
next_page page = page_of (read_u64 page next_page_offset)

unfoldable pub previous_page : Page → Option ℕ
previous_page page = page_of (read_u64 page previous_page_offset)

unfoldable pub set_next_page : Option ℕ → Page → Result Page
unfolding write_u64
set_next_page none page = ok (write_u64 next_page_offset 0 page)
set_next_page (some value) page =
    if value == 0 then err invalid_argument else ok (write_u64 next_page_offset value page)

unfoldable pub set_previous_page : Option ℕ → Page → Result Page
unfolding write_u64
set_previous_page none page = ok (write_u64 previous_page_offset 0 page)
set_previous_page (some value) page =
    if value == 0 then err invalid_argument else ok (write_u64 previous_page_offset value page)

-- The loop of `record_count` over the first `n` slots.
unfoldable pub count_records : ℕ → Page → ℕ
count_records zero page = 0
count_records (suc n) page =
    let before = count_records n page in
    if record_size page n == 0 then before else (before + 1) % 2 ^ 16

unfoldable pub record_count : Page → ℕ
unfolding count_records
record_count page = count_records (slot_count page) page

pub record SlotInfo : Type 0 where
  pub id : ℕ
  pub offset : ℕ
  pub size : ℕ
  pub capacity : ℕ
  pub generation : ℕ

abbrev pub slot_info : Page → ℕ → SlotInfo
slot_info page slot = record {
  id = slot;
  offset = record_offset page slot;
  size = record_size page slot;
  capacity = record_capacity page slot;
  generation = slot_generation page slot;
}

-- The loop of `slots` over `n` slots from `slot` on.
unfoldable pub slots_from : Page → ℕ → ℕ → List SlotInfo
slots_from page zero slot = []
slots_from page (suc n) slot = slot_info page slot ∷ slots_from page n (slot + 1)

unfoldable pub slots : Page → List SlotInfo
unfolding slots_from
slots page = slots_from page (slot_count page) 0
