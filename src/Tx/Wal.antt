-- ===== src/Tx/Wal.antt =====
-- src/tx/wal.cpp and include/modb/tx/wal.hpp: the records of the log, how they are appended and how
-- the file is read back. The file is its bytes; where it is absent, `none`. Reading is modelled
-- without errors of the device.
pub mod Layout
pub mod Scan
pub mod Torn
pub mod Cut
pub mod Fuel
use mo_db.Prelude.{
  ℕ, zero, suc, ◌+◌, ◌-◌, ◌*◌, ◌%◌, ◌^◌, ◌≡◌, Bool, true, false, not, ◌&&◌, ◌||◌, Option, none,
  some, List, [], ◌∷◌, ◌++◌, ltb, leb, ◌==◌, if◌then◌else◌, length, take, drop, get_or,
}
use mo_db.Error.{
  Result, ok, err, ◌>>=◌, ◌>>◌, invalid_argument, corrupt_file, invalid_file_format,
  incompatible_format_version, wal_corrupt,
}
use mo_db.Storage.Endian.{store_le, load_le}
use mo_db.Tx.Crc.{crc32}

-- MODB_PAGE_SIZE as CMakeLists.txt sets it.
abbrev pub page_size : ℕ
page_size = 8192

abbrev pub wal_header_size : ℕ
wal_header_size = 32

-- Any byte can stand in the field of the type: these are the known ones.
abbrev pub WalRecordType : Type 0
WalRecordType = ℕ

abbrev pub begin : WalRecordType
begin = 1

abbrev pub page_image : WalRecordType
page_image = 2

abbrev pub commit : WalRecordType
commit = 3

pub record WalRecord : Type 0 where
  pub lsn : ℕ
  pub tx_id : ℕ
  pub type : WalRecordType
  pub page_id : ℕ
  pub payload : List ℕ
  pub end_offset : ℕ

unfoldable pub commit_lsn : WalRecord → ℕ
commit_lsn r =
    if not (r.type == commit) || ltb (length r.payload) 8
    then r.lsn
    else load_le 8 (take 8 r.payload)

abbrev pub record_fixed_size : ℕ
record_fixed_size = 29

abbrev pub record_crc_size : ℕ
record_crc_size = 4

-- "MOWL", the version, two reserved bytes, the size of a page and twenty reserved bytes.
abbrev pub wal_magic : List ℕ
wal_magic = 77 ∷ 79 ∷ 87 ∷ 76 ∷ []

abbrev pub wal_version : ℕ
wal_version = 2

unfoldable pub make_header : List ℕ
make_header =
    wal_magic
    ++ (store_le 2 wal_version
        ++ (0
            ∷ 0
            ∷ (store_le 4 page_size
                ++ (0 ∷ 0 ∷ 0 ∷ 0 ∷ 0 ∷ 0 ∷ 0 ∷ 0 ∷ 0 ∷ 0 ∷ 0 ∷ 0 ∷ 0 ∷ 0 ∷ 0 ∷ 0 ∷ 0 ∷ 0 ∷ 0 ∷ 0
                    ∷ []))))

-- The bytes that `append` puts into its buffer: the fixed fields and the payload, and the checksum
-- of both.
unfoldable pub record_body : ℕ → ℕ → WalRecordType → ℕ → List ℕ → List ℕ
record_body lsn tx_id type page_id payload =
    store_le 8 lsn
    ++ (store_le 8 tx_id
        ++ ((type ∷ []) ++ (store_le 8 page_id ++ (store_le 4 (length payload) ++ payload))))

unfoldable pub record_bytes : ℕ → ℕ → WalRecordType → ℕ → List ℕ → List ℕ
unfolding record_body
record_bytes lsn tx_id type page_id payload =
    let body = record_body lsn tx_id type page_id payload in body ++ store_le 4 (crc32 body)

pub data ReadMode : Type 0 where
  soft_eof strict : ReadMode

abbrev pub is_strict : ReadMode → Bool
is_strict soft_eof = false
is_strict strict = true

-- `end_of_log m`: the loop stops; in strict mode with the error.
abbrev pub end_of_log : ReadMode → Result (List WalRecord)
end_of_log soft_eof = ok []
end_of_log strict = err wal_corrupt

-- The record at the front of the bytes; `length` is its field.
unfoldable pub parse_record : ℕ → ℕ → List ℕ → WalRecord
parse_record end_offset len full = record {
  lsn = load_le 8 (take 8 full);
  tx_id = load_le 8 (take 8 (drop 8 full));
  type = get_or full 16 0;
  page_id = load_le 8 (take 8 (drop 17 full));
  payload = take len (drop record_fixed_size full);
  end_offset = end_offset;
}

abbrev pub keep : ℕ → WalRecord → List WalRecord → List WalRecord
keep from_lsn r rest = if leb from_lsn r.lsn then r ∷ rest else rest

-- The loop over the records: `rest` is `bytes` from `offset` on, and `position` the absolute offset
-- of its first byte. Each round that goes on takes 33 bytes at least, so that the number of bytes is
-- fuel enough; Fuel is about that.
unfoldable pub scan : ℕ → ReadMode → ℕ → ℕ → List ℕ → Result (List WalRecord)
scan zero mode from_lsn position rest = ok []
scan (suc fuel) mode from_lsn position rest =
    let len = load_le 4 (take 4 (drop 25 rest)) in
    let record_size = record_fixed_size + len + record_crc_size in
    let later = scan fuel mode from_lsn (position + record_size) (drop record_size rest) in
    if ltb (length rest) record_fixed_size
    then (if 0 == length rest then ok [] else end_of_log mode)
    else if ltb (length rest) record_size
    then end_of_log mode
    else if not (
        crc32 (take (record_fixed_size + len) rest)
        == load_le 4 (take 4 (drop (record_fixed_size + len) rest)))
    then end_of_log mode
    else (later >>= λ records.
        ok (keep from_lsn (parse_record (position + record_size) len rest) records))

-- `std::equal` of the magic and the front of the header.
unfoldable pub begins_with : List ℕ → List ℕ → Bool
begins_with [] bytes = true
begins_with (m ∷ ms) [] = false
begins_with (m ∷ ms) (b ∷ bs) = m == b && begins_with ms bs

-- The checks of the header.
unfoldable pub check_header : List ℕ → Result (Unit {0})
unfolding begins_with
check_header header =
    let version = load_le 2 (take 2 (drop 4 header)) in
    if not (begins_with wal_magic header)
    then err invalid_file_format
    else if not (version == wal_version) && not (version == 1)
    then err incompatible_format_version
    else if not (load_le 4 (take 4 (drop 8 header)) == page_size)
    then err corrupt_file
    else ok tt

unfoldable pub read_wal_records : Option (List ℕ) → ℕ → ReadMode → ℕ → Result (List WalRecord)
read_wal_records none from_lsn mode start_offset = ok []
read_wal_records (some file) from_lsn mode start_offset =
    let bytes = drop start_offset file in
    if 0 == length file
    then ok []
    else if ltb (length file) wal_header_size
    then err corrupt_file
    else if ltb start_offset wal_header_size || ltb (length file) start_offset
    then err invalid_argument
    else (check_header (take wal_header_size file)
        >> scan (length bytes) mode from_lsn start_offset bytes)

unfoldable pub read_from_offset : Option (List ℕ) → ℕ → Result (List WalRecord)
unfolding read_wal_records
read_from_offset file start_offset = read_wal_records file 0 soft_eof start_offset

unfoldable pub read_all : Option (List ℕ) → Result (List WalRecord)
unfolding read_wal_records
read_all file = read_wal_records file 0 soft_eof wal_header_size

unfoldable pub read_from : Option (List ℕ) → ℕ → Result (List WalRecord)
unfolding read_wal_records
read_from file from_lsn = read_wal_records file from_lsn soft_eof wal_header_size

unfoldable pub read_for_replication : Option (List ℕ) → ℕ → Result (List WalRecord)
unfolding read_wal_records
read_for_replication file from_lsn = read_wal_records file from_lsn strict wal_header_size
