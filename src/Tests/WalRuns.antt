-- ===== src/Tests/WalRuns.antt =====
-- src/tx/wal.cpp over a file in memory: two appends, and what is read from the log they leave.
use mo_db.Prelude.{
  ℕ, suc, true, if◌then◌else◌, ◌-◌, ◌+◌, ◌^◌, ◌<◌, ◌≡◌, refl, sym, ap, ◌∙◌, arith, some, List, [],
  ◌∷◌, ◌++◌, append-nil, length, take, drop, drop-nil, take_all, All,
}
use mo_db.Error.{ok, err, wal_corrupt, corrupt_file}
use mo_db.Storage.Endian.{store_le}
use mo_db.Storage.Endian.Laws.{store_le-IsBytes}
use mo_db.Tx.Crc.{crc32}
use mo_db.Tx.Wal.{
  wal_header_size, make_header, record_body, record_bytes, WalRecord, begin, commit, commit_lsn,
  read_all, read_from, read_for_replication,
}
use mo_db.Tx.Wal.Layout.{IsRecord}
use mo_db.Tx.Wal.Torn.{log_bytes, read_back, whole_records, ends_inside, log_size}
use mo_db.Tx.Wal.Cut.{cut_log, ends_in_header, read_from-cut_log, read_for_replication-cut_log}
use mo_db.Tx.Writer.Reopened.{read_all-open_durable}
use mo_db.Tx.Writer.{open_durable, WalSink, Wal, create, fresh, append, append_begin, append_commit}
use mo_db.Tx.Writer.Reading.{
  Append, of_begin, of_commit, perform, perform_all, record_of, records_of, read_all-perform_all,
}
use mo_db.Tx.Writer.Progress.{perform_all-ok}
use mo_db.Tx.Writer.Committed.{commit_lsn-append_commit}

drop_end : (n : ℕ) (f : List ℕ) → drop (length f + n) f ≡ []
drop_end n [] = drop-nil (0 + n)
drop_end n (b ∷ f) =
    let longer : length (b ∷ f) + n ≡ suc (length f + n) = omega arith in
    ap (λ (k : ℕ). drop k (b ∷ f)) longer ∙ drop_end n f

abbrev pub splice : ℕ → List ℕ → List ℕ → List ℕ
splice offset bytes f = take offset f ++ (bytes ++ drop (offset + length bytes) f)

splice_end : (bytes f : List ℕ) → splice (length f) bytes f ≡ f ++ bytes
splice_end bytes f =
    rw (take_all (length f) f (omega arith), drop_end (length bytes) f, append-nil bytes) refl

pub splice_written :
    (bytes f f' : List ℕ) → ok (splice (length f) bytes f) ≡ ok f' → f' ≡ f ++ bytes
splice_written bytes f f' written =
    let same : splice (length f) bytes f ≡ f' = cc written in sym same ∙ splice_end bytes f

pub same_file : (f f' : List ℕ) → ok f ≡ ok f' → f' ≡ f
same_file f f' synced = cc

-- A file in memory: a write overwrites, and what is behind it stays.
abbrev pub memory : WalSink
memory = record {
  File = List ℕ;
  contents = λ f. f;
  write_at = λ offset bytes f. ok (splice offset bytes f);
  sync = λ f. ok f;
  write_at-end = splice_written;
  sync_keeps = same_file;
}

abbrev calls : List Append
calls = of_begin 7 ∷ of_commit 7 ∷ []

abbrev pub started : Wal memory
started = record { file = make_header; write_offset = 32; next_lsn = 1 }

abbrev finished : Wal memory
finished = record {
  file = make_header ++ (record_bytes 1 7 begin 0 [] ++ record_bytes 2 7 commit 0 (store_le 8 2));
  write_offset = 106;
  next_lsn = 3;
}

pub created : create memory (ok []) ≡ ok started
unfolding create fresh make_header store_le
created = refl

appended : perform_all memory calls started ≡ ok finished
unfolding perform_all perform append_begin append_commit append record_bytes record_body make_header
    store_le crc32
appended = refl

abbrev first_record : WalRecord
first_record = record {
  lsn = 1;
  tx_id = 7;
  type = begin;
  page_id = 0;
  payload = [];
  end_offset = 65;
}

-- The crash leaves the first record and seven bytes of the second.
read_all-perform_all_example : read_all (some (take 72 finished.file)) ≡ ok (first_record ∷ [])
unfolding read_back whole_records records_of record_of log_size store_le
read_all-perform_all_example =
    read_all-perform_all memory calls (ok []) [] started finished refl refl
      (omega arith, (omega arith, tt)) (omega arith) created appended 72

-- The log of two records, cut in the second one.
abbrev two_records : List WalRecord
two_records = records_of 1 calls

two_valid : All IsRecord two_records
unfolding records_of record_of store_le
two_valid = (
  record {
    lsn = omega arith;
    tx_id = omega arith;
    type = omega arith;
    page_id = omega arith;
    size = omega arith;
    payload = tt;
  },
  (
    record {
      lsn = omega arith;
      tx_id = omega arith;
      type = omega arith;
      page_id = omega arith;
      size = omega arith;
      payload = store_le-IsBytes 8 2;
    },
    tt,
  ),
)

read_from-cut_log_example : read_from (some (cut_log 72 two_records)) 1 ≡ ok (first_record ∷ [])
unfolding read_back whole_records records_of record_of store_le
read_from-cut_log_example = read_from-cut_log 1 72 two_records two_valid

read_for_replication-cut_log_example :
    read_for_replication (some (cut_log 72 two_records)) 1 ≡ err wal_corrupt
unfolding ends_inside records_of record_of store_le
read_for_replication-cut_log_example = read_for_replication-cut_log 1 72 two_records two_valid

-- A crash in the middle of the header.
read_from-cut_log_short : read_from (some (cut_log 12 two_records)) 1 ≡ err corrupt_file
unfolding read_back whole_records records_of record_of store_le
read_from-cut_log_short = read_from-cut_log 1 12 two_records two_valid

-- The log of the two records is opened again under the LSN 3, and another transaction begins.
abbrev old_file : List ℕ
old_file = make_header ++ log_bytes two_records

abbrev reopened : Wal memory
reopened = record { file = old_file; write_offset = length old_file; next_lsn = 3 }

opened_again : open_durable memory true (ok old_file) 3 ≡ ok reopened
unfolding open_durable fresh log_bytes records_of record_of record_bytes record_body make_header
    store_le
opened_again = refl

abbrev more : List Append
more = of_begin 8 ∷ []

more_appended : (w : Wal memory) × (perform_all memory more reopened ≡ ok w)
more_appended =
    perform_all-ok memory (λ offset bytes f. (splice offset bytes f, refl)) more reopened (tt, tt)

abbrev committed : Wal memory
committed = record {
  file = old_file ++ record_bytes 3 8 commit 0 (store_le 8 3);
  write_offset = 147;
  next_lsn = 4;
}

commit_appended : append_commit memory 8 reopened ≡ ok committed
unfolding append_commit append record_bytes record_body make_header store_le crc32 log_bytes
    records_of record_of
commit_appended = refl

small_old : wal_header_size + log_size two_records + 41 < 2 ^ 64
unfolding log_size records_of record_of store_le
small_old = omega arith

small_log : wal_header_size + log_size two_records + log_size (records_of 3 more) < 2 ^ 64
unfolding log_size records_of record_of store_le
small_log = omega arith

read_all-open_durable_example : read_all (some (take 139 more_appended.0.file)) ≡ (
    if ends_in_header 139
    then err corrupt_file
    else ok (
        read_back 0 wal_header_size
          (whole_records (139 - wal_header_size) (two_records ++ records_of 3 more))))
read_all-open_durable_example =
    read_all-open_durable memory two_records more old_file 3 reopened more_appended.0 refl two_valid
      (omega arith, tt) (λ e. omega (arith, e)) (omega arith) small_log opened_again more_appended.1
      139

commit_lsn-append_commit_example :
    (r : WalRecord) × (read_all (some committed.file)
      ≡ ok (read_back 0 wal_header_size two_records ++ (r ∷ [])))
    × (r.type ≡ commit)
    × (r.tx_id ≡ 8)
    × (commit_lsn r ≡ 3)
    × (committed.next_lsn ≡ 4)
commit_lsn-append_commit_example =
    commit_lsn-append_commit memory two_records 8 reopened committed refl two_valid
      (record { offset = refl }) (omega arith) (omega arith) small_old commit_appended
