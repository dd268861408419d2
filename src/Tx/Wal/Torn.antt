-- ===== src/Tx/Wal/Torn.antt =====
-- The loop that reads the log, on the first bytes of some records.
use mo_db.Prelude.{
  ℕ, zero, suc, ◌+◌, ◌-◌, ◌≤◌, ◌<◌, ◌≡◌, refl, sym, ap, ◌∙◌, arith, Bool, false, List, [], ◌∷◌,
  ◌++◌, ltb, leb, le→leb, leb-false, leb→le, leb-false→lt, take-nil, lt→ltb, if◌then◌else◌, length,
  take, length-append, length-take, take_within, take_beyond, All, Bool-cases, inl, inr,
}
use mo_db.Error.{Result, ok, err, ◌>>=◌, wal_corrupt}
use mo_db.Tx.Wal.{WalRecord, ReadMode, soft_eof, strict, end_of_log, keep, scan}
use mo_db.Tx.Wal.Layout.{IsRecord, bytes_of, size_of, length-bytes}
use mo_db.Tx.Wal.Scan.{located, scan_whole, scan_cut}

-- The bytes of the records, one behind the other.
unfoldable pub log_bytes : List WalRecord → List ℕ
log_bytes [] = []
log_bytes (r ∷ rs) = bytes_of r ++ log_bytes rs

unfoldable pub log_size : List WalRecord → ℕ
log_size [] = 0
log_size (r ∷ rs) = size_of r + log_size rs

-- The records that lie whole in the first `m` bytes.
unfoldable pub whole_records : ℕ → List WalRecord → List WalRecord
whole_records m [] = []
whole_records m (r ∷ rs) = if leb (size_of r) m then r ∷ whole_records (m - size_of r) rs else []

-- The first `m` bytes end inside a record.
unfoldable pub ends_inside : ℕ → List WalRecord → Bool
ends_inside m [] = false
ends_inside m (r ∷ rs) = if leb (size_of r) m then ends_inside (m - size_of r) rs else ltb 0 m

-- The records from a position on, each with the offset of its end, and only those from an LSN on.
unfoldable pub read_back : ℕ → ℕ → List WalRecord → List WalRecord
read_back from_lsn position [] = []
read_back from_lsn position (r ∷ rs) =
    keep from_lsn (located position r) (read_back from_lsn (position + size_of r) rs)

pub length-log_bytes : (rs : List WalRecord) → length (log_bytes rs) ≡ log_size rs
unfolding log_bytes log_size
length-log_bytes [] = refl
length-log_bytes (r ∷ rs) =
    omega (arith, length-append (bytes_of r) (log_bytes rs), length-bytes r, length-log_bytes rs)

-- What the loop returns: the whole records; in strict mode an error if bytes are left over.
unfoldable pub scanned : ReadMode → ℕ → ℕ → ℕ → List WalRecord → Result (List WalRecord)
scanned soft_eof from_lsn position m rs = ok (read_back from_lsn position (whole_records m rs))
scanned strict from_lsn position m rs =
    if ends_inside m rs
    then err wal_corrupt
    else ok (read_back from_lsn position (whole_records m rs))

scanned_whole :
    (mode : ReadMode) (from_lsn position m : ℕ) (r : WalRecord) (rs : List WalRecord)
    → size_of r ≤ m
    → scanned mode from_lsn position m (r ∷ rs) ≡ (
        scanned mode from_lsn (position + size_of r) (m - size_of r) rs >>= λ records.
        ok (keep from_lsn (located position r) records))
unfolding scanned whole_records ends_inside read_back
scanned_whole soft_eof from_lsn position m r rs h = rw (le→leb (size_of r) m h) refl
scanned_whole strict from_lsn position m r rs h =
    rw (le→leb (size_of r) m h) (elim (Bool-cases (ends_inside (m - size_of r) rs)) [
      | inl cut ↦ rw cut refl
      | inr clean ↦ rw clean refl
    ])

scanned_cut :
    (mode : ReadMode) (from_lsn position m : ℕ) (r : WalRecord) (rs : List WalRecord)
    → 0 < m
    → m < size_of r
    → scanned mode from_lsn position m (r ∷ rs) ≡ end_of_log mode
unfolding scanned whole_records ends_inside read_back
scanned_cut soft_eof from_lsn position m r rs more cut = rw (leb-false (size_of r) m cut) refl
scanned_cut strict from_lsn position m r rs more cut =
    rw (leb-false (size_of r) m cut, lt→ltb 0 m more) refl

scan-nil :
    (fuel : ℕ) (mode : ReadMode) (from_lsn position : ℕ)
    → scan fuel mode from_lsn position [] ≡ ok []
unfolding scan
scan-nil zero mode from_lsn position = refl
scan-nil (suc fuel) mode from_lsn position = refl

scanned-nil :
    (mode : ReadMode) (from_lsn position m : ℕ) → scanned mode from_lsn position m [] ≡ ok []
unfolding scanned whole_records ends_inside read_back
scanned-nil soft_eof from_lsn position m = refl
scanned-nil strict from_lsn position m = refl

pub scanned-zero :
    (mode : ReadMode) (from_lsn position : ℕ) (rs : List WalRecord)
    → scanned mode from_lsn position 0 rs ≡ ok []
unfolding scanned whole_records ends_inside read_back
scanned-zero mode from_lsn position [] = scanned-nil mode from_lsn position 0
scanned-zero soft_eof from_lsn position (r ∷ rs) = rw (leb-false (size_of r) 0 (omega arith)) refl
scanned-zero strict from_lsn position (r ∷ rs) = rw (leb-false (size_of r) 0 (omega arith)) refl

-- The loop on the first `m` bytes of the records.
pub scan-scanned :
    (fuel : ℕ) (mode : ReadMode) (from_lsn position m : ℕ) (rs : List WalRecord)
    → All IsRecord rs
    → length (take m (log_bytes rs)) ≤ fuel
    → scan fuel mode from_lsn position (take m (log_bytes rs)) ≡ scanned mode from_lsn position m rs
unfolding log_bytes
scan-scanned fuel mode from_lsn position m [] v enough =
    rw take-nil (scan-nil fuel mode from_lsn position ∙ sym (scanned-nil mode from_lsn position m))
scan-scanned fuel mode from_lsn position zero (r ∷ rs) v enough =
    scan-nil fuel mode from_lsn position ∙ sym (scanned-zero mode from_lsn position (r ∷ rs))
scan-scanned zero mode from_lsn position (suc m) (r ∷ rs) v enough = absurd (
    omega (
      arith,
      length-take (suc m) (bytes_of r ++ log_bytes rs),
      length-append (bytes_of r) (log_bytes rs),
      length-bytes r,
    ))
scan-scanned (suc fuel) mode from_lsn position (suc m) (r ∷ rs) (v, vs) enough =
    elim (Bool-cases (leb (size_of r) (suc m))) [
      | inl fits ↦
          let h = leb→le (size_of r) (suc m) fits in
          let cut = beyond h in
          rw
            (
              cut,
              scan_whole fuel mode from_lsn position r (take (suc m - size_of r) (log_bytes rs)) v,
            )
            (rw
              (scan-scanned fuel mode from_lsn (position + size_of r) (suc m - size_of r) rs vs (
                omega (
                  arith,
                  ap length (sym cut),
                  enough,
                  length-append (bytes_of r) (take (suc m - size_of r) (log_bytes rs)),
                  length-bytes r,
                )))
              (sym (scanned_whole mode from_lsn position (suc m) r rs h)))
      | inr torn ↦
          let h = leb-false→lt (size_of r) (suc m) torn in
          rw (take_within (suc m) (bytes_of r) (log_bytes rs) (omega (arith, length-bytes r))) (
            scan_cut fuel mode from_lsn position (suc m) r v (omega arith) h
            ∙ sym (scanned_cut mode from_lsn position (suc m) r rs (omega arith) h))
    ]
  where
    beyond :
        size_of r ≤ suc m
        → take (suc m) (bytes_of r ++ log_bytes rs)
          ≡ bytes_of r ++ take (suc m - size_of r) (log_bytes rs)
    beyond h =
        take_beyond (suc m) (bytes_of r) (log_bytes rs) (omega (arith, length-bytes r))
        ∙ ap (λ (k : ℕ). bytes_of r ++ take (suc m - k) (log_bytes rs)) (length-bytes r)
