-- ===== src/Storage/SlottedPage.antt =====
-- src/storage/slotted_page.cpp: records of varying size in a page of 8192 bytes. A page is the
-- function from an offset to the byte there. A difference of `std::size_t` wraps, by `sub_size`.
pub mod Bytes
pub mod Slots
pub mod Room
pub mod Moved
pub mod Rounds
pub mod Compact
pub mod Reads
pub mod Put
pub mod Store
pub mod Insert
pub mod Inserted
pub mod Freed
pub mod Erase
pub mod Placed
pub mod Update
pub mod Validate
pub mod Links
pub mod History
use mo_db.Prelude.{
  ℕ, zero, suc, ◌+◌, ◌-◌, ◌*◌, ◌%◌, ◌^◌, Bool, true, false, not, ◌&&◌, ◌||◌, Option, none, some,
  List, [], ◌∷◌, length, ltb, leb, ◌==◌, if◌then◌else◌,
}
use mo_db.Error.{Result, ok, err, invalid_argument, record_too_large, page_full, slot_not_found}
use mo_db.Storage.Endian.{store_le, load_le}

abbrev pub Page : Type 0
Page = ℕ → ℕ

-- `page_size` of include/modb/storage/page.hpp is MODB_PAGE_SIZE, which CMakeLists.txt sets to 8192;
-- without a definition it is 4096, and other builds are not modelled.
abbrev pub page_size : ℕ
page_size = 8192

abbrev pub header_size : ℕ
header_size = 28

abbrev pub slot_size : ℕ
slot_size = 8

-- A page without its header and one entry of the directory.
abbrev pub max_record_size : ℕ
max_record_size = 8156

abbrev pub slot_count_offset : ℕ
slot_count_offset = 6

abbrev pub free_start_offset : ℕ
free_start_offset = 8

abbrev pub free_end_offset : ℕ
free_end_offset = 10

abbrev pub next_page_offset : ℕ
next_page_offset = 12

abbrev pub previous_page_offset : ℕ
previous_page_offset = 20

abbrev pub sub_size : ℕ → ℕ → ℕ
sub_size a b = (a + 2 ^ 64 - b) % 2 ^ 64

-- `bytes().subspan(offset, n)`.
unfoldable pub subspan : Page → ℕ → ℕ → List ℕ
subspan page offset zero = []
subspan page offset (suc n) = page offset ∷ subspan page (offset + 1) n

-- `std::copy` of some bytes to an offset.
unfoldable pub copy : List ℕ → ℕ → Page → Page
copy [] offset page i = page i
copy (b ∷ bs) offset page i = if i == offset then b else copy bs (offset + 1) page i

unfoldable pub write_u16 : ℕ → ℕ → Page → Page
unfolding copy store_le
write_u16 offset value page = copy (store_le 2 value) offset page

unfoldable pub read_u16 : Page → ℕ → ℕ
unfolding subspan load_le
read_u16 page offset = load_le 2 (subspan page offset 2)

unfoldable pub write_u64 : ℕ → ℕ → Page → Page
unfolding copy store_le
write_u64 offset value page = copy (store_le 8 value) offset page

unfoldable pub read_u64 : Page → ℕ → ℕ
unfolding subspan load_le
read_u64 page offset = load_le 8 (subspan page offset 8)

abbrev pub slot_offset : ℕ → ℕ
slot_offset slot = header_size + slot * slot_size

unfoldable pub record_offset : Page → ℕ → ℕ
record_offset page slot = read_u16 page (slot_offset slot)

unfoldable pub record_size : Page → ℕ → ℕ
record_size page slot = read_u16 page (slot_offset slot + 2)

unfoldable pub record_capacity : Page → ℕ → ℕ
record_capacity page slot = read_u16 page (slot_offset slot + 4)

unfoldable pub slot_generation : Page → ℕ → ℕ
slot_generation page slot = read_u16 page (slot_offset slot + 6)

unfoldable pub write_slot : ℕ → ℕ → ℕ → ℕ → ℕ → Page → Page
unfolding write_u16
write_slot slot offset size capacity generation page = write_u16 (slot_offset slot + 6) generation (
    write_u16 (slot_offset slot + 4) capacity
      (write_u16 (slot_offset slot + 2) size (write_u16 (slot_offset slot) offset page)))

unfoldable pub slot_count : Page → ℕ
slot_count page = read_u16 page slot_count_offset

unfoldable pub free_start : Page → ℕ
free_start page = read_u16 page free_start_offset

unfoldable pub free_end : Page → ℕ
free_end page = read_u16 page free_end_offset

unfoldable pub free_space : Page → ℕ
free_space page = sub_size (free_end page) (free_start page)

-- The loop of `dead_bytes` over the first `n` slots.
unfoldable pub live_capacity : ℕ → Page → ℕ
live_capacity zero page = 0
live_capacity (suc n) page =
    let before = live_capacity n page in
    if record_size page n == 0 then before else before + record_capacity page n

unfoldable pub dead_bytes : Page → ℕ
dead_bytes page =
    sub_size (sub_size page_size (free_end page)) (live_capacity (slot_count page) page)

-- A round of `compact`: `source` is the page as it was.
unfoldable pub compact_slot : Page → ℕ → Page × ℕ → Page × ℕ
compact_slot source slot (page, destination) =
    let destination' = sub_size destination (record_capacity source slot) in
    if record_size source slot == 0
    then (page, destination)
    else if record_offset source slot == destination'
    then (page, destination')
    else (
      write_slot slot (destination' % 2 ^ 16) (record_size source slot)
          (record_capacity source slot) (slot_generation source slot)
          (copy (subspan source (record_offset source slot) (record_capacity source slot))
            destination' page),
      destination',
    )

-- The loop over the first `n` slots.
unfoldable pub compact_loop : Page → ℕ → Page × ℕ
unfolding compact_slot
compact_loop source zero = (source, page_size)
compact_loop source (suc n) = compact_slot source n (compact_loop source n)

unfoldable pub compact : Page → Page
unfolding compact_loop
compact page =
    let (moved, destination) = compact_loop page (slot_count page) in
    write_u16 free_end_offset (destination % 2 ^ 16) moved

-- The search for a removed slot whose generation can still grow: `n` slots from `slot` on.
unfoldable pub find_reusable : Page → ℕ → ℕ → Option ℕ
find_reusable page zero slot = none
find_reusable page (suc n) slot =
    if record_size page slot == 0 && not (slot_generation page slot == 65535)
    then some slot
    else find_reusable page n (slot + 1)

abbrev pub slot_room : Option ℕ → ℕ
slot_room none = slot_size
slot_room (some slot) = 0

-- The slot, its generation, and whether the directory grows.
abbrev pub chosen_slot : Option ℕ → Page → ℕ
chosen_slot none page = slot_count page
chosen_slot (some slot) page = slot

abbrev pub next_generation : Option ℕ → Page → ℕ
next_generation none page = 1
next_generation (some slot) page = (slot_generation page slot + 1) % 2 ^ 16

unfoldable pub grow_directory : Option ℕ → ℕ → Page → Page
grow_directory none slot page =
    write_u16 free_start_offset ((slot_offset slot + slot_size) % 2 ^ 16)
      (write_u16 slot_count_offset ((slot + 1) % 2 ^ 16) page)
grow_directory (some s) slot page = page

-- What `insert` does once there is room. The capacity is the size of the record, so nothing is left
-- to fill with zeros.
unfoldable pub insert_at : List ℕ → Option ℕ → Page → ℕ × Page
unfolding grow_directory
insert_at bytes reusable page =
    let slot = chosen_slot reusable page in
    let new_free_end = sub_size (free_end page) (length bytes) % 2 ^ 16 in
    let copied = copy bytes new_free_end page in
    (
      slot,
      write_u16 free_end_offset new_free_end (
          grow_directory reusable slot (
            write_slot slot new_free_end (length bytes % 2 ^ 16) (length bytes % 2 ^ 16)
              (next_generation reusable copied) copied)),
    )

unfoldable pub insert_into : List ℕ → Option ℕ → Page → Result (ℕ × Page)
unfolding insert_at compact
insert_into bytes reusable page =
    let required = length bytes + slot_room reusable in
    if leb required (free_space page)
    then ok (insert_at bytes reusable page)
    else if ltb (free_space page + dead_bytes page) required
    then err page_full
    else ok (insert_at bytes reusable (compact page))

unfoldable pub insert : List ℕ → Page → Result (ℕ × Page)
unfolding insert_into find_reusable
insert bytes page =
    if length bytes == 0
    then err invalid_argument
    else if ltb max_record_size (length bytes)
    then err record_too_large
    else insert_into bytes (find_reusable page (slot_count page) 0) page

abbrev pub capacity_for : Option ℕ → ℕ → ℕ
capacity_for none reclaimable = if leb slot_size reclaimable then reclaimable - slot_size else 0
capacity_for (some slot) reclaimable = reclaimable

unfoldable pub insertion_capacity : Page → ℕ
unfolding find_reusable
insertion_capacity page =
    capacity_for (find_reusable page (slot_count page) 0) (free_space page + dead_bytes page)

-- The slot does not exist or is free.
unfoldable pub is_missing : Page → ℕ → Bool
is_missing page slot = leb (slot_count page) slot || (record_size page slot == 0)

unfoldable pub read_in : Page → ℕ → Result (List ℕ)
unfolding is_missing
read_in page slot =
    if is_missing page slot
    then err slot_not_found
    else ok (subspan page (record_offset page slot) (record_size page slot))

unfoldable pub generation_in : Page → ℕ → Result ℕ
unfolding is_missing
generation_in page slot =
    if is_missing page slot then err slot_not_found else ok (slot_generation page slot)

unfoldable pub erase : ℕ → Page → Result Page
unfolding is_missing
erase slot page =
    if is_missing page slot
    then err slot_not_found
    else ok (write_slot slot 0 0 0 (slot_generation page slot) page)

-- The end of `update`: the record is copied to its area and its entry written.
unfoldable pub put_record : ℕ → List ℕ → ℕ → ℕ → Page → Page
put_record slot bytes offset generation page =
    write_slot slot offset (length bytes % 2 ^ 16) (length bytes % 2 ^ 16) generation
      (copy bytes offset page)

-- The branch of `update` where the size changes: the slot is freed and its area reserved anew.
unfoldable pub relocate : ℕ → List ℕ → Page → Result Page
unfolding put_record compact
relocate slot bytes page =
    let generation = slot_generation page slot in
    let packed = compact (write_slot slot 0 0 0 generation page) in
    let offset = sub_size (free_end packed) (length bytes) % 2 ^ 16 in
    if ltb (free_space page + dead_bytes page + record_capacity page slot) (length bytes)
    then err page_full
    else ok (put_record slot bytes offset generation (write_u16 free_end_offset offset packed))

unfoldable pub update : ℕ → List ℕ → Page → Result Page
unfolding is_missing relocate
update slot bytes page =
    if length bytes == 0
    then err invalid_argument
    else if is_missing page slot
    then err slot_not_found
    else if ltb max_record_size (length bytes)
    then err record_too_large
    else if length bytes == record_capacity page slot
    then ok (put_record slot bytes (record_offset page slot) (slot_generation page slot) page)
    else relocate slot bytes page
