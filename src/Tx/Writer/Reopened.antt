-- ===== src/Tx/Writer/Reopened.antt =====
-- A log that is opened again and appended to.
use mo_db.Prelude.{
  ℕ, if◌then◌else◌, ◌-◌, ◌+◌, ◌^◌, ◌≤◌, ◌<◌, ◌≡◌, ◌≢◌, refl, sym, ap, ◌∙◌, arith, true, some, List,
  [], ◌∷◌, ◌++◌, length, take, length-append, append_assoc, All, All-append, ==_ne, ltb-false,
}
use mathlib.Core.Path.{subst}
use mo_db.Error.{ok, err, corrupt_file}
use mo_db.Tx.Wal.{WalRecord, make_header, read_all, read_from, wal_header_size}
use mo_db.Tx.Wal.Layout.{IsRecord, bytes_of}
use mo_db.Tx.Wal.Torn.{log_bytes, log_size, length-log_bytes, read_back, whole_records}
use mo_db.Tx.Wal.Cut.{header_size, ends_in_header, read_from-cut_log}
use mo_db.Tx.Writer.{WalSink, Wal, open_durable}
use mo_db.Tx.Writer.Reading.{
  Append, IsAppend, IsAtEnd, perform_all, records_of, perform_all-log_bytes,
}

pub log_bytes-append :
    (rs ss : List WalRecord) → log_bytes (rs ++ ss) ≡ log_bytes rs ++ log_bytes ss
unfolding log_bytes
log_bytes-append [] ss = refl
log_bytes-append (r ∷ rs) ss =
    ap (λ (t : List ℕ). bytes_of r ++ t) (log_bytes-append rs ss)
    ∙ sym (append_assoc (bytes_of r) (log_bytes rs) (log_bytes ss))

module _ (sink : WalSink) where
  open sink use {File, contents}

  -- Opening a log that is there leaves its bytes and goes on at their end.
  open_durable-kept :
      (file : File) (lsn : ℕ) (w : Wal sink)
      → lsn ≢ 0
      → wal_header_size ≤ length (contents file)
      → open_durable sink true (ok file) lsn ≡ ok w
      → (contents w.file ≡ contents file)
        × (w.next_lsn ≡ lsn)
        × (w.write_offset ≡ length (contents file))
  unfolding open_durable
  open_durable-kept file lsn w n long h =
      let opened : ok
            (record { file = file; write_offset = length (contents file); next_lsn = lsn })
          ≡ ok w =
        rw (==_ne lsn 0 n, ltb-false (length (contents file)) wal_header_size long) at h in
      let same : record { file = file; write_offset = length (contents file); next_lsn = lsn } ≡ w =
        cc opened in
      (
        ap (λ (v : Wal sink). contents v.file) (sym same),
        ap (λ (v : Wal sink). v.next_lsn) (sym same),
        ap (λ (v : Wal sink). v.write_offset) (sym same),
      )

  -- A log that holds valid records is opened again and some appends succeed, and a crash leaves the
  -- first `k` bytes of the file, whatever `k` is. Where the header is whole or no byte is left,
  -- `read_all` returns those of the old records and of the new ones, numbered from `lsn` on, that lie
  -- whole in what is left; where a part of the header is left, it fails with `corrupt_file`. The log
  -- stays below 2 ^ 64 bytes and its LSNs below 2 ^ 64, and the client passes pages of bytes and
  -- numbers of 64 bits.
  pub read_all-open_durable :
      (old : List WalRecord) (ops : List Append) (file : File) (lsn : ℕ) (w w' : Wal sink)
      → contents file ≡ make_header ++ log_bytes old
      → All IsRecord old
      → All IsAppend ops
      → lsn ≢ 0
      → lsn + length ops < 2 ^ 64
      → wal_header_size + log_size old + log_size (records_of lsn ops) < 2 ^ 64
      → open_durable sink true (ok file) lsn ≡ ok w
      → perform_all sink ops w ≡ ok w'
      → (k : ℕ)
      → read_all (some (take k (contents w'.file))) ≡ (
          if ends_in_header k
          then err corrupt_file
          else ok (
              read_back 0 wal_header_size
                (whole_records (k - wal_header_size) (old ++ records_of lsn ops))))
  read_all-open_durable old ops file lsn w w' held valid v n fits small made done k =
      let size : length (contents file) ≡ wal_header_size + log_size old = omega (
        arith,
        ap length held,
        length-append make_header (log_bytes old),
        header_size,
        length-log_bytes old,
      ) in
      let (kept, next, offset) = open_durable-kept file lsn w n (omega (arith, size)) made in
      let e : IsAtEnd sink w = record { offset = offset ∙ ap length (sym kept) } in
      let (grown, valids) =
        subst
          (λ i.
            (contents w'.file ≡ contents w.file ++ log_bytes (records_of i ops))
            × All IsRecord (records_of i ops))
          next
          (perform_all-log_bytes sink ops w w' v e (omega (arith, next, fits))
            (subst (λ i. length (contents w.file) + log_size (records_of i ops) < 2 ^ 64) (sym next)
              (omega (arith, ap length kept, size, small)))
            done) in
      let all : contents w'.file ≡ make_header ++ log_bytes (old ++ records_of lsn ops) =
        grown
        ∙ ap (λ (t : List ℕ). t ++ log_bytes (records_of lsn ops)) (kept ∙ held)
        ∙ append_assoc make_header (log_bytes old) (log_bytes (records_of lsn ops))
        ∙ ap (λ (t : List ℕ). make_header ++ t) (sym (log_bytes-append old (records_of lsn ops))) in
      rw all (
        unfold read_all read_from in
        read_from-cut_log 0 k (old ++ records_of lsn ops)
          (All-append IsRecord old (records_of lsn ops) valid valids))
