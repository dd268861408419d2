-- ===== src/Tx/Wal/Scan.antt =====
-- One round of the reader's loop: at a whole record, and at a record that is cut.
use mo_db.Prelude.{
  ℕ, suc, ◌+◌, ◌≤◌, ◌<◌, ◌≡◌, refl, ap, ◌∙◌, arith, List, [], ◌++◌, ltb, ltb-false, lt→ltb, ==_refl,
  ==_ne, inl, inr, Bool-cases, ltb-false→le, length, take, drop, length-append, length-take,
  append-nil, window,
}
use mo_db.Error.{ok, ◌>>=◌}
use mo_db.Storage.Endian.{load_le}
use mo_db.Tx.Crc.{crc32}
use mo_db.Tx.Wal.{WalRecord, ReadMode, end_of_log, keep, scan}
use mo_db.Tx.Wal.Layout.{
  IsRecord, body_of, bytes_of, size_of, length-bytes, rest_at, body_at, length_at, crc_at, parse_at,
}

-- The record as it is read from a position in the file.
abbrev pub located : ℕ → WalRecord → WalRecord
located position r = record r { end_offset = position + size_of r }

-- A whole record at the front is read, and the loop goes on behind it.
pub scan_whole :
    (fuel : ℕ) (mode : ReadMode) (from_lsn position : ℕ) (r : WalRecord) (rest : List ℕ)
    → IsRecord r
    → scan (suc fuel) mode from_lsn position (bytes_of r ++ rest) ≡ (
        scan fuel mode from_lsn (position + size_of r) rest >>= λ records.
        ok (keep from_lsn (located position r) records))
unfolding scan
scan_whole fuel mode from_lsn position r rest v = rw (
  length_at r rest v,
  sum_size,
  rest_at r rest,
  ltb-false (length (bytes_of r ++ rest)) 29 (omega (arith, whole)),
  ltb-false (length (bytes_of r ++ rest)) (size_of r) (omega (arith, whole)),
  body_at r rest,
  crc_at r rest v,
  ==_refl (crc32 (body_of r)),
  parse_at r rest v (position + size_of r),
)
  where
    sum_size : 29 + length r.payload + 4 ≡ size_of r
    sum_size = omega arith

    whole : length (bytes_of r ++ rest) ≡ size_of r + length rest
    whole = omega (arith, length-append (bytes_of r) rest, length-bytes r)

-- A record that is cut, anywhere inside, ends the log.
pub scan_cut :
    (fuel : ℕ) (mode : ReadMode) (from_lsn position m : ℕ) (r : WalRecord)
    → IsRecord r
    → 0 < m
    → m < size_of r
    → scan (suc fuel) mode from_lsn position (take m (bytes_of r)) ≡ end_of_log mode
unfolding scan
scan_cut fuel mode from_lsn position m r v some cut =
    elim (Bool-cases (ltb (length (take m (bytes_of r))) 29)) [
      | inl short ↦ rw (short, ==_ne 0 (length (take m (bytes_of r))) (omega (arith, kept))) refl
      | inr longer ↦
          rw
            (
              longer,
              field (omega (arith, kept, ltb-false→le _ _ longer)),
              lt→ltb (length (take m (bytes_of r))) (29 + length r.payload + 4)
                  (omega (arith, kept)),
            )
            refl
    ]
  where
    kept : length (take m (bytes_of r)) ≡ m
    kept = omega (arith, length-take m (bytes_of r), length-bytes r)

    field : 29 ≤ m → load_le 4 (take 4 (drop 25 (take m (bytes_of r)))) ≡ length r.payload
    field enough =
        ap (load_le 4) (window 25 4 m (bytes_of r) enough) ∙ (rw append-nil at (length_at r [] v))
