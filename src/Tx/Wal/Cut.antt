-- ===== src/Tx/Wal/Cut.antt =====
-- What is read from a log of which only the first bytes reached the file: the end of a crash.
use mo_db.Prelude.{
  ℕ, zero, suc, ◌+◌, ◌-◌, ◌≤◌, ◌<◌, ◌≡◌, refl, sym, ap, ◌∙◌, arith, Bool, some, List, ◌++◌, ◌&&◌,
  ltb→lt, ltb-false→le, ltb, ltb-false, lt→ltb, if◌then◌else◌, length, take, length-append,
  length-take, take_beyond, take_front, drop_past, ==_ne, All, Bool-cases, inl, inr,
}
use mo_db.Error.{ok, err, wal_corrupt, corrupt_file}
use mo_db.Storage.Endian.{store_le, load_le, load_le_loop}
use mo_db.Tx.Wal.{
  WalRecord, ReadMode, soft_eof, strict, scan, make_header, read_wal_records, read_from,
  read_for_replication, wal_header_size, check_header,
}
use mo_db.Tx.Wal.Layout.{IsRecord}
use mo_db.Tx.Wal.Torn.{
  log_bytes, whole_records, ends_inside, read_back, scanned, scanned-zero, scan-scanned,
}

pub header_size : length make_header ≡ wal_header_size
unfolding make_header store_le
header_size = refl

pub take_header :
    (m : ℕ) (t : List ℕ) → take (wal_header_size + m) (make_header ++ t) ≡ make_header ++ take m t
take_header m t =
    take_beyond (wal_header_size + m) make_header t (omega (arith, header_size))
    ∙ ap (λ (k : ℕ). make_header ++ take k t) (omega (arith, header_size))

header_checks : check_header make_header ≡ ok tt
unfolding make_header store_le check_header load_le load_le_loop
header_checks = refl

-- Behind a header that `make_header` wrote, reading is the loop.
pub behind_header :
    (mode : ReadMode) (from_lsn : ℕ) (tail : List ℕ)
    → read_wal_records (some (make_header ++ tail)) from_lsn mode wal_header_size
      ≡ scan (length tail) mode from_lsn wal_header_size tail
unfolding read_wal_records
behind_header mode from_lsn tail =
    rw
      (
        ==_ne 0 (length (make_header ++ tail)) (omega (arith, size)),
        ltb-false (length (make_header ++ tail)) wal_header_size (omega (arith, size)),
        take_front 32 make_header tail header_size,
        header_checks,
        drop_past 32 0 make_header tail header_size,
      )
      refl
  where
    size : length (make_header ++ tail) ≡ 32 + length tail
    size = omega (arith, length-append make_header tail, header_size)

-- The file that a crash leaves of a log: its first `k` bytes.
abbrev pub cut_log : ℕ → List WalRecord → List ℕ
cut_log k rs = take k (make_header ++ log_bytes rs)

-- The first `k` bytes end inside the header.
abbrev pub ends_in_header : ℕ → Bool
ends_in_header k = ltb 0 k && ltb k wal_header_size

-- A file with a part of the header is refused.
read-short :
    (mode : ReadMode) (from_lsn : ℕ) (file : List ℕ)
    → 0 < length file
    → length file < wal_header_size
    → read_wal_records (some file) from_lsn mode wal_header_size ≡ err corrupt_file
unfolding read_wal_records
read-short mode from_lsn file some_bytes short =
    rw (==_ne 0 (length file) (λ e. omega (arith, e)), lt→ltb (length file) wal_header_size short)
      refl

read-scanned :
    (mode : ReadMode) (from_lsn m : ℕ) (rs : List WalRecord)
    → All IsRecord rs
    → read_wal_records (some (make_header ++ take m (log_bytes rs))) from_lsn mode wal_header_size
      ≡ scanned mode from_lsn wal_header_size m rs
read-scanned mode from_lsn m rs v =
    behind_header mode from_lsn (take m (log_bytes rs))
    ∙ scan-scanned (length (take m (log_bytes rs))) mode from_lsn wal_header_size m rs v
        (omega arith)

-- What is read of any cut.
read-cut_log :
    (mode : ReadMode) (from_lsn k : ℕ) (rs : List WalRecord)
    → All IsRecord rs
    → read_wal_records (some (cut_log k rs)) from_lsn mode wal_header_size ≡ (
        if ends_in_header k
        then err corrupt_file
        else scanned mode from_lsn wal_header_size (k - wal_header_size) rs)
unfolding read_wal_records
read-cut_log mode from_lsn zero rs v = sym (scanned-zero mode from_lsn wal_header_size rs)
read-cut_log mode from_lsn (suc j) rs v = elim (Bool-cases (ltb (suc j) wal_header_size)) [
  | inl short ↦
      let h = ltb→lt (suc j) wal_header_size short in
      let size : length (cut_log (suc j) rs) ≡ suc j = cut_size (omega arith) in
      rw (lt→ltb 0 (suc j) (omega arith), short)
        (read-short mode from_lsn (cut_log (suc j) rs) (omega (arith, size)) (omega (arith, size)))
  | inr long ↦
      let h = ltb-false→le (suc j) wal_header_size long in
      let split : suc j ≡ wal_header_size + (suc j - wal_header_size) = omega arith in
      let kept : cut_log (suc j) rs ≡ make_header ++ take (suc j - wal_header_size) (log_bytes rs) =
        ap (λ (k : ℕ). cut_log k rs) split ∙ take_header (suc j - wal_header_size) (log_bytes rs) in
      rw (lt→ltb 0 (suc j) (omega arith), long, kept)
        (read-scanned mode from_lsn (suc j - wal_header_size) rs v)
]
  where
    cut_size : suc j ≤ wal_header_size → length (cut_log (suc j) rs) ≡ suc j
    cut_size h = omega (
      arith,
      length-take (suc j) (make_header ++ log_bytes rs),
      length-append make_header (log_bytes rs),
      header_size,
    )

-- `read_from` on the first `k` bytes of a log of valid records, whatever `k` is. Where the header is
-- whole, or no byte is left, it returns the records that lie whole before the cut, in order, those
-- with an LSN from `from_lsn` on: no record is lost, invented or read in part. Where a part of the
-- header is left, it fails with `corrupt_file`.
pub read_from-cut_log :
    (from_lsn k : ℕ) (rs : List WalRecord)
    → All IsRecord rs
    → read_from (some (cut_log k rs)) from_lsn ≡ (
        if ends_in_header k
        then err corrupt_file
        else ok (read_back from_lsn wal_header_size (whole_records (k - wal_header_size) rs)))
unfolding read_from scanned
read_from-cut_log from_lsn k rs v = read-cut_log soft_eof from_lsn k rs v

-- `read_for_replication` on the first `k` bytes of a log of valid records: it fails with
-- `corrupt_file` if the cut lies inside the header, with `wal_corrupt` if it lies inside a record,
-- and else returns the records before the cut with an LSN from `from_lsn` on.
pub read_for_replication-cut_log :
    (from_lsn k : ℕ) (rs : List WalRecord)
    → All IsRecord rs
    → read_for_replication (some (cut_log k rs)) from_lsn ≡ (
        if ends_in_header k
        then err corrupt_file
        else if ends_inside (k - wal_header_size) rs
        then err wal_corrupt
        else ok (read_back from_lsn wal_header_size (whole_records (k - wal_header_size) rs)))
unfolding read_for_replication scanned
read_for_replication-cut_log from_lsn k rs v = read-cut_log strict from_lsn k rs v
