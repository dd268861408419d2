-- ===== src/Tx/Writer/Committed.antt =====
-- src/tx/wal.cpp: what is read of a commit that `append_commit` wrote.
use mo_db.Prelude.{
  ℕ, ◌+◌, ◌-◌, ◌^◌, ◌≤◌, ◌<◌, ◌≡◌, refl, sym, ap, ◌∙◌, arith, some, List, [], ◌∷◌, ◌++◌, take_all,
  length-append, append_assoc, append-nil, All, All-append, Bool-cases, inl, inr, ltb, Bool, ◌&&◌,
  false, le→leb, ltb-false,
}
use mo_db.Error.{ok}
use mo_db.Storage.Endian.{store_le}
use mo_db.Storage.Endian.Laws.{length-store_le, load_le-store_le}
use mo_db.Tx.Wal.{WalRecord, commit, commit_lsn, make_header, read_all, read_from, wal_header_size}
use mo_db.Tx.Wal.Layout.{IsRecord, bytes_of, size_of}
use mo_db.Tx.Wal.Scan.{located}
use mo_db.Tx.Wal.Torn.{log_bytes, log_size, length-log_bytes, read_back, whole_records}
use mo_db.Tx.Wal.Cut.{header_size, read_from-cut_log}
use mo_db.Tx.Writer.{WalSink, Wal, append_commit}
use mo_db.Tx.Writer.Reading.{of_commit, IsAtEnd, perform, perform-Appended, record_of}
use mo_db.Tx.Writer.Reopened.{log_bytes-append}

-- The record of a commit carries its own LSN.
commit_lsn-record_of : (lsn tx : ℕ) → lsn < 2 ^ 64 → commit_lsn (record_of lsn (of_commit tx)) ≡ lsn
unfolding commit_lsn record_of
commit_lsn-record_of lsn tx h =
    rw (length-store_le 8 lsn, take_all 8 (store_le 8 lsn) (omega (arith, length-store_le 8 lsn)))
      (load_le-store_le 8 lsn h)

whole_records_all : (m : ℕ) (rs : List WalRecord) → log_size rs ≤ m → whole_records m rs ≡ rs
unfolding whole_records log_size
whole_records_all m [] h = refl
whole_records_all m (r ∷ rs) h =
    rw (le→leb (size_of r) m (omega (arith, h)))
      (ap (λ (t : List WalRecord). r ∷ t) (whole_records_all (m - size_of r) rs (omega (arith, h))))

read_back-append :
    (position : ℕ) (rs ss : List WalRecord)
    → read_back 0 position (rs ++ ss)
      ≡ read_back 0 position rs ++ read_back 0 (position + log_size rs) ss
unfolding read_back log_size
read_back-append position [] ss =
    let same : position ≡ position + 0 = omega arith in ap (λ (k : ℕ). read_back 0 k ss) same
read_back-append position (r ∷ rs) ss =
    let same : position + size_of r + log_size rs ≡ position + (size_of r + log_size rs) =
      omega arith in
    rw (le→leb 0 r.lsn (omega arith)) (
      ap (λ (t : List WalRecord). located position r ∷ t)
        (read_back-append (position + size_of r) rs ss
          ∙ ap (λ (k : ℕ). read_back 0 (position + size_of r) rs ++ read_back 0 k ss) same))

read_back_last :
    (position : ℕ) (r : WalRecord) → read_back 0 position (r ∷ []) ≡ located position r ∷ []
unfolding read_back
read_back_last position r = rw (le→leb 0 r.lsn (omega arith)) refl

log_bytes_last :
    (rs : List WalRecord) (r : WalRecord) → log_bytes (rs ++ (r ∷ [])) ≡ log_bytes rs ++ bytes_of r
unfolding log_bytes
log_bytes_last rs r =
    log_bytes-append rs (r ∷ []) ∙ ap (λ (t : List ℕ). log_bytes rs ++ t) (append-nil (bytes_of r))

commit_lsn-located : (position : ℕ) (r : WalRecord) → commit_lsn (located position r) ≡ commit_lsn r
unfolding commit_lsn
commit_lsn-located position r = refl

Bool-and-false : (b : Bool) → (b && false) ≡ false
Bool-and-false b = elim (Bool-cases b) [ inl h ↦ rw h refl | inr h ↦ rw h refl ]

-- A log of which nothing is lost.
read_all_whole :
    (rs : List WalRecord)
    → All IsRecord rs
    → read_all (some (make_header ++ log_bytes rs)) ≡ ok (read_back 0 wal_header_size rs)
unfolding read_all read_from
read_all_whole rs v =
    ap (λ (t : List ℕ). read_all (some t))
      (sym (
        take_all (wal_header_size + log_size rs) (make_header ++ log_bytes rs) (
          omega
            (arith, length-append make_header (log_bytes rs), header_size, length-log_bytes rs))))
    ∙ read_from-cut_log 0 (wal_header_size + log_size rs) rs v
    ∙ rw
        (
          ltb-false (wal_header_size + log_size rs) wal_header_size (omega arith),
          Bool-and-false (ltb 0 (wal_header_size + log_size rs)),
          whole_records_all (wal_header_size + log_size rs - wal_header_size) rs (omega arith),
        )
        refl

module _ (sink : WalSink) where
  open sink use {File, contents}

  -- If `append_commit` succeeds at the end of a log of valid records, `read_all` of the log returns
  -- these records and behind them one more: a commit record of the transaction, whose `commit_lsn`
  -- is the LSN that was the next one, and the next one is counted up. The log stays below 2 ^ 64
  -- bytes and its LSNs and the transaction's number below 2 ^ 64.
  pub commit_lsn-append_commit :
      (old : List WalRecord) (tx : ℕ) (w w' : Wal sink)
      → contents w.file ≡ make_header ++ log_bytes old
      → All IsRecord old
      → IsAtEnd sink w
      → tx < 2 ^ 64
      → w.next_lsn + 1 < 2 ^ 64
      → wal_header_size + log_size old + 41 < 2 ^ 64
      → append_commit sink tx w ≡ ok w'
      → (r : WalRecord) × (read_all (some (contents w'.file))
          ≡ ok (read_back 0 wal_header_size old ++ (r ∷ [])))
        × (r.type ≡ commit)
        × (r.tx_id ≡ tx)
        × (commit_lsn r ≡ w.next_lsn)
        × (w'.next_lsn ≡ w.next_lsn + 1)
  unfolding perform
  commit_lsn-append_commit old tx w w' held valid e small_tx lsn small done =
      let r : WalRecord = record_of w.next_lsn (of_commit tx) in
      let (grown, valid_r) =
        perform-Appended sink (of_commit tx) w w' small_tx e (omega (arith, lsn)) done in
      let held' : contents w'.file ≡ make_header ++ log_bytes (old ++ (r ∷ [])) =
        grown.contents_grow
        ∙ ap (λ (t : List ℕ). t ++ bytes_of r) held
        ∙ append_assoc make_header (log_bytes old) (bytes_of r)
        ∙ ap (λ (t : List ℕ). make_header ++ t) (sym (log_bytes_last old r)) in
      (
        located (wal_header_size + log_size old) r,
        ap (λ (t : List ℕ). read_all (some t)) held'
            ∙ read_all_whole (old ++ (r ∷ []))
                (All-append IsRecord old (r ∷ []) valid (valid_r, tt))
            ∙ ap ok (
                read_back-append wal_header_size old (r ∷ [])
                ∙ ap (λ (t : List WalRecord). read_back 0 wal_header_size old ++ t)
                    (read_back_last (wal_header_size + log_size old) r)),
        unfold record_of in refl,
        unfold record_of in refl,
        commit_lsn-located (wal_header_size + log_size old) r
            ∙ commit_lsn-record_of w.next_lsn tx (omega (arith, lsn)),
        omega (arith, grown.next, lsn),
      )
