-- ===== src/Storage/SlottedPage/Validate.antt =====
-- src/storage/slotted_page.cpp: `validate_page`, `create` and `from_page`.
pub mod Ranges
pub mod Checked
pub mod Accepted
use mo_db.Prelude.{
  ℕ, zero, suc, ◌+◌, ◌*◌, ◌%◌, ◌^◌, Bool, true, false, not, ◌&&◌, ◌||◌, Option, none, some, List,
  [], ◌∷◌, ltb, leb, ◌==◌, if◌then◌else◌,
}
use mo_db.Error.{
  Result, ok, err, ◌>>=◌, ◌>>◌, invalid_page_format, incompatible_page_version, corrupt_page,
}
use mo_db.Storage.SlottedPage.{
  Page, page_size, header_size, slot_size, slot_count_offset, free_start_offset, free_end_offset,
  next_page_offset, previous_page_offset, subspan, copy, write_u16, write_u64, record_offset,
  record_size, record_capacity, slot_generation, slot_count, free_start, free_end, sub_size,
}

abbrev pub magic : List ℕ
magic = 83 ∷ 76 ∷ 80 ∷ 71 ∷ []

abbrev pub format_version : ℕ
format_version = 4

-- A pair of an offset and an end.
abbrev pub Range : Type 0
Range = ℕ × ℕ

-- `std::equal` of some bytes and those of the page from an offset on.
unfoldable pub holds_at : List ℕ → Page → ℕ → Bool
holds_at [] page offset = true
holds_at (b ∷ bs) page offset = (page offset == b) && holds_at bs page (offset + 1)

unfoldable pub check_format : Page → Result (Unit {0})
unfolding holds_at
check_format page =
    if not (holds_at magic page 0)
    then err invalid_page_format
    else if not (page 4 == format_version) && not (page 4 == 3)
    then err incompatible_page_version
    else ok tt

unfoldable pub check_bounds : Page → Result (Unit {0})
check_bounds page =
    let expected_free_start = header_size + slot_count page * slot_size in
    if ltb page_size expected_free_start || not (free_start page == expected_free_start)
    then err corrupt_page
    else if ltb (free_end page) (free_start page) || ltb page_size (free_end page)
    then err corrupt_page
    else ok tt

-- A round of the loop over the slots: the range that it adds, if any.
unfoldable pub slot_range : Page → ℕ → Result (Option Range)
slot_range page slot =
    let offset = record_offset page slot in
    let size = record_size page slot in
    let capacity = record_capacity page slot in
    if slot_generation page slot == 0
    then err corrupt_page
    else if size == 0
    then if not (offset == 0) || not (capacity == 0) then err corrupt_page else ok none
    else if ltb capacity size
    then err corrupt_page
    else if ltb offset (free_end page)
        || ltb page_size offset
        || ltb (sub_size page_size offset) capacity
    then err corrupt_page
    else ok (some (offset, offset + capacity))

-- What a round gives, and the ranges of the rounds after it.
abbrev pub add_range : Result (Option Range) → Result (List Range) → Result (List Range)
add_range (err e) rest = err e
add_range (ok none) rest = rest
add_range (ok (some range)) (err e) = err e
add_range (ok (some range)) (ok ranges) = ok (range ∷ ranges)

-- The loop over `n` slots from `slot` on.
unfoldable pub slot_ranges : Page → ℕ → ℕ → Result (List Range)
unfolding slot_range
slot_ranges page zero slot = ok []
slot_ranges page (suc n) slot = add_range (slot_range page slot) (slot_ranges page n (slot + 1))

-- `operator<` of pairs.
abbrev pub range_less : Range → Range → Bool
range_less (a, b) (c, d) = ltb a c || ((a == c) && ltb b d)

unfoldable pub insert_range : Range → List Range → List Range
insert_range r [] = r ∷ []
insert_range r (s ∷ ss) =
    let rest = insert_range r ss in if range_less s r then s ∷ rest else r ∷ s ∷ ss

-- `std::sort` of the ranges.
unfoldable pub sort : List Range → List Range
unfolding insert_range
sort [] = []
sort (r ∷ rs) = insert_range r (sort rs)

-- The test of neighbours.
unfoldable pub overlap : List Range → Bool
overlap [] = false
overlap (r ∷ []) = false
overlap (r ∷ s ∷ ss) = ltb s.0 r.1 || overlap (s ∷ ss)

unfoldable pub check_ranges : List Range → Result (Unit {0})
unfolding sort overlap
check_ranges ranges = if overlap (sort ranges) then err corrupt_page else ok tt

unfoldable pub validate_page : Page → Result (Unit {0})
unfolding check_format check_bounds slot_ranges check_ranges
validate_page page =
    check_format page
    >> check_bounds page
    >> (slot_ranges page (slot_count page) 0 >>= check_ranges)

unfoldable pub from_page : Page → Result Page
unfolding validate_page
from_page page = validate_page page >> ok page

-- `SlottedPage::create` on the page of zeros.
unfoldable pub create : Page
unfolding write_u16 write_u64
create = write_u64 previous_page_offset 0 (
    write_u64 next_page_offset 0 (
      write_u16 free_end_offset (page_size % 2 ^ 16) (
        write_u16 free_start_offset (header_size % 2 ^ 16)
          (write_u16 slot_count_offset 0 (copy (format_version ∷ []) 4 (copy magic 0 (λ i. 0)))))))
