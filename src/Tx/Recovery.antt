-- ===== src/Tx/Recovery.antt =====
-- src/tx/recovery.cpp: `recover`, which puts the page images of committed transactions back into the
-- page file, and `write_recovered_page` of src/storage/page_file.cpp. The page file is its count of
-- pages and the bytes of each page, page zero included, where the count is stored; its cache and
-- errors of the device are not modelled, so `flush` does nothing.
pub mod Redo
pub mod Again
pub mod Superblock
pub mod Extent
pub mod Crash
use mo_db.Prelude.{
  ℕ, ◌+◌, ◌%◌, ◌^◌, Bool, true, false, not, ◌&&◌, ◌||◌, Option, none, some, List, [], ◌∷◌, ltb, leb,
  ◌==◌, if◌then◌else◌, length, take, drop, ◌++◌,
}
use mo_db.Storage.Endian.{store_le}
use mo_db.Error.{Result, ok, err, ◌>>=◌, reserved_page, corrupt_file, wal_corrupt}
use mo_db.Tx.Wal.{
  page_size, wal_header_size, WalRecord, page_image, commit, commit_lsn, read_from_offset, read_all,
}

pub record PageFile : Type 0 where
  pub page_count : ℕ
  pub page : ℕ → List ℕ

-- `write_at` of a whole page.
abbrev pub put_page : ℕ → List ℕ → PageFile → PageFile
put_page id bytes f = record f { page = λ p. if p == id then bytes else f.page p }

-- The count of pages is stored in eight bytes of page zero; nothing else there is written.
unfoldable pub write_page_count : ℕ → PageFile → PageFile
write_page_count count f =
    put_page 0 (take 12 (f.page 0) ++ (store_le 8 count ++ drop 20 (f.page 0))) f

-- The image of a page behind the end extends the file.
unfoldable pub extend : ℕ → PageFile → PageFile
unfolding write_page_count
extend id f =
    let count = (id + 1) % 2 ^ 64 in
    if leb f.page_count id then record (write_page_count count f) { page_count = count } else f

unfoldable pub write_recovered_page : ℕ → List ℕ → PageFile → Result PageFile
unfolding extend
write_recovered_page id bytes f =
    if id == 0 then err reserved_page else ok (put_page id bytes (extend id f))

pub record RecoverResult : Type 0 where
  pub max_commit_lsn : ℕ
  pub applied_any : Bool
  pub max_lsn : ℕ
  pub max_tx_id : ℕ
  pub last_commit_end : ℕ
  pub read_from_offset : Bool

abbrev pub no_result : RecoverResult
no_result = record {
  max_commit_lsn = 0;
  applied_any = false;
  max_lsn = 0;
  max_tx_id = 0;
  last_commit_end = 0;
  read_from_offset = false;
}

-- `std::unordered_map<tx_id, commit_lsn>`: the last value put under a key comes first.
abbrev pub Committed : Type 0
Committed = List (ℕ × ℕ)

unfoldable pub find : ℕ → Committed → Option ℕ
find tx [] = none
find tx ((t, lsn) ∷ m) = if t == tx then some lsn else find tx m

abbrev larger : ℕ → ℕ → ℕ
larger a b = if ltb b a then a else b

-- A round of the first loop.
unfoldable pub note : WalRecord → Committed × RecoverResult → Committed × RecoverResult
note r (committed, result) =
    let is_commit = r.type == commit in
    (
      if is_commit then (r.tx_id, commit_lsn r) ∷ committed else committed,
      record result {
        last_commit_end = if is_commit then r.end_offset else result.last_commit_end;
        max_lsn = larger r.lsn result.max_lsn;
        max_tx_id = larger r.tx_id result.max_tx_id;
      },
    )

unfoldable pub collect : List WalRecord → Committed × RecoverResult → Committed × RecoverResult
collect [] s = s
collect (r ∷ rs) s = collect rs (note r s)

-- A round of the second loop, with the commit LSN that was found for the record's transaction.
unfoldable pub apply_image :
    ℕ → WalRecord → Option ℕ → RecoverResult × PageFile → Result (RecoverResult × PageFile)
apply_image after_lsn r none (result, f) = ok (result, f)
apply_image after_lsn r (some lsn) (result, f) =
    if leb lsn after_lsn
    then ok (result, f)
    else if not (length r.payload == page_size)
    then err corrupt_file
    else do
      f' ← write_recovered_page r.page_id r.payload f
      ok (
        record result {
          applied_any = true;
          max_commit_lsn = if ltb result.max_commit_lsn lsn then lsn else result.max_commit_lsn;
        },
        f',
      )

unfoldable pub apply_images :
    ℕ → Committed → List WalRecord → RecoverResult × PageFile → Result (RecoverResult × PageFile)
unfolding apply_image
apply_images after_lsn committed [] s = ok s
apply_images after_lsn committed (r ∷ rs) s = do
  s' ←
      (if not (r.type == page_image)
        then ok s
        else apply_image after_lsn r (find r.tx_id committed) s)
  apply_images after_lsn committed rs s'

-- Both loops over the records that were read.
unfoldable pub replay :
    ℕ → List WalRecord → RecoverResult → PageFile → Result (RecoverResult × PageFile)
unfolding apply_images collect note
replay after_lsn records start f =
    let (committed, result) = collect records ([], start) in
    apply_images after_lsn committed records (result, f)

-- The records from the checkpoint on are trusted if the offset is the end of the file, or if the
-- first of them lies behind the checkpoint.
abbrev behind_checkpoint : ℕ → ℕ → ℕ → List WalRecord → Bool
behind_checkpoint after_lsn start_offset size [] = start_offset == size
behind_checkpoint after_lsn start_offset size (r ∷ rs) = start_offset == size || ltb after_lsn r.lsn

unfoldable pub bounded_tail : ℕ → ℕ → List ℕ → Option (List WalRecord)
bounded_tail after_lsn start_offset file =
    if ltb wal_header_size start_offset && leb start_offset (length file)
    then (elim (read_from_offset (some file) start_offset) [
      | ok tail ↦
          if behind_checkpoint after_lsn start_offset (length file) tail then some tail else none
      | err e ↦ none
    ])
    else none

-- An unreadable log is reported as `wal_corrupt`, whatever made it so.
unfoldable pub replay_read :
    ℕ → Result (List WalRecord) → RecoverResult → PageFile → Result (RecoverResult × PageFile)
unfolding replay
replay_read after_lsn (ok records) start f = replay after_lsn records start f
replay_read after_lsn (err e) start f = err wal_corrupt

unfoldable pub recover_from :
    ℕ → ℕ → List ℕ → Option (List WalRecord) → PageFile → Result (RecoverResult × PageFile)
unfolding replay_read
recover_from after_lsn start_offset file (some tail) f =
    replay_read after_lsn (ok tail)
      (record no_result { read_from_offset = true; last_commit_end = start_offset }) f
recover_from after_lsn start_offset file none f =
    replay_read after_lsn (read_all (some file))
      (record no_result { last_commit_end = wal_header_size }) f

unfoldable pub recover : PageFile → Option (List ℕ) → ℕ → ℕ → Result (RecoverResult × PageFile)
unfolding recover_from bounded_tail
recover f none after_lsn start_offset = ok (no_result, f)
recover f (some file) after_lsn start_offset =
    recover_from after_lsn start_offset file (bounded_tail after_lsn start_offset file) f
