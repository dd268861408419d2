-- ===== src/Tx/Writer.antt =====
-- The class `Wal` of src/tx/wal.cpp: opening a log and appending to it through a `WalSink`.
-- The probes of diag are left out.
pub mod Reading
pub mod Progress
pub mod Reopened
pub mod Committed
use mo_db.Prelude.{
  ℕ, ◌+◌, ◌%◌, ◌^◌, ◌≡◌, Bool, true, false, not, ◌||◌, List, [], ◌∷◌, ◌++◌, ltb, ◌==◌,
  if◌then◌else◌, length,
}
use mo_db.Error.{Result, ok, err, ◌>>=◌, invalid_argument}
use mo_db.Storage.Endian.{store_le}
use mo_db.Tx.Wal.{
  page_size, wal_header_size, WalRecordType, begin, page_image, commit, make_header, record_bytes,
}

-- The abstract class `WalSink`: the file behind the log. Of a write it is known that, where it
-- succeeds at the end of the file, the bytes stand behind what the file held.
pub record WalSink : Type 1 where
  pub File : Type 0
  pub contents : File → List ℕ
  pub write_at : ℕ → List ℕ → File → Result File
  pub sync : File → Result File
  pub write_at-end :
      (bytes : List ℕ) (f f' : File)
      → write_at (length (contents f)) bytes f ≡ ok f'
      → contents f' ≡ contents f ++ bytes
  pub sync_keeps : (f f' : File) → sync f ≡ ok f' → contents f' ≡ contents f

module _ (sink : WalSink) where
  open sink use {File, contents, write_at, sync}

  pub record Wal : Type 0 where
    pub file : File
    pub write_offset : ℕ
    pub next_lsn : ℕ

  -- The new log of `create` and of `open_durable` without a file: the header alone.
  unfoldable pub fresh : File → ℕ → Result Wal
  fresh file lsn = do
    file' ← write_at 0 make_header file
    ok (record { file = file'; write_offset = wal_header_size; next_lsn = lsn })

  -- `opened` is what the factory returns.
  unfoldable pub create : Result File → Result Wal
  unfolding fresh
  create opened = do file ← opened; fresh file 1

  unfoldable pub open_durable : Bool → Result File → ℕ → Result Wal
  unfolding fresh
  open_durable exists opened starting_lsn = if starting_lsn == 0 then err invalid_argument else do
    file ← opened
    if not exists || ltb (length (contents file)) wal_header_size
        then fresh file starting_lsn
        else ok
            (record { file = file; write_offset = length (contents file); next_lsn = starting_lsn })

  unfoldable pub append : WalRecordType → ℕ → ℕ → List ℕ → Wal → Result Wal
  append type tx_id page_id payload w =
      let bytes = record_bytes w.next_lsn tx_id type page_id payload in
      do
        file' ← write_at w.write_offset bytes w.file
        ok (record {
          file = file';
          write_offset = (w.write_offset + length bytes) % 2 ^ 64;
          next_lsn = (w.next_lsn + 1) % 2 ^ 64;
        })

  unfoldable pub append_begin : ℕ → Wal → Result Wal
  unfolding append
  append_begin tx_id w = append begin tx_id 0 [] w

  unfoldable pub append_page_image : ℕ → ℕ → List ℕ → Wal → Result Wal
  unfolding append
  append_page_image tx_id page_id page w =
      if not (length page == page_size)
      then err invalid_argument
      else append page_image tx_id page_id page w

  unfoldable pub append_commit : ℕ → Wal → Result Wal
  unfolding append
  append_commit tx_id w = append commit tx_id 0 (store_le 8 w.next_lsn) w

  unfoldable pub sync_log : Wal → Result Wal
  sync_log w = do file' ← sync w.file; ok (record w { file = file' })
