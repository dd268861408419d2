-- ===== src/Tx/Recovery/Crash.antt =====
-- The log and the recovery together: what the pages hold after a crash.
use mo_db.Prelude.{ℕ, ◌-◌, ◌≡◌, ◌≢◌, List, length}
use mo_db.Tx.Wal.{page_size, wal_header_size, WalRecord, page_image}
use mo_db.Tx.Wal.Torn.{read_back, whole_records}
use mo_db.Tx.Writer.{Wal}
use mo_db.Tx.Writer.Reading.{Append, of_image, records_of}

-- An image that can be put back: a whole page, and not the superblock.
abbrev pub CanRedo : WalRecord → Type 0
CanRedo r = r.type ≡ page_image → (length r.payload ≡ page_size) × (r.page_id ≢ 0)

-- What the client logs can be put back.
abbrev pub IsPage : Append → Type 0
IsPage (of_image tx page bytes) = (length bytes ≡ page_size) × (page ≢ 0)
IsPage _ = Unit

-- The records of some appends that lie whole in the first `k` bytes of their log.
abbrev pub log_left : ℕ → List Append → List WalRecord
log_left k ops =
    read_back 0 wal_header_size (whole_records (k - wal_header_size) (records_of 1 ops))
