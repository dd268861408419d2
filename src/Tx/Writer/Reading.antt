-- ===== src/Tx/Writer/Reading.antt =====
-- What was appended to a new log is what its file holds, and what is read back.
use mo_db.Prelude.{
  ℕ, if◌then◌else◌, ◌-◌, ◌+◌, ◌*◌, ◌%◌, ◌^◌, ◌≤◌, ◌<◌, ◌≡◌, refl, sym, ap, ◌∙◌, arith, some, List,
  [], ◌∷◌, ◌++◌, length, take, length-append, append-nil, append_assoc, All, ==_iff, Bool-cases,
  inl, inr, ◌==◌,
}
use mathlib.Core.Path.{subst}
use mo_db.Error.{err, corrupt_file, Result, ok, err-ne-ok, >>=-eq-ok, ◌>>=◌, invalid_argument}
use mo_db.Storage.Endian.{IsBytes, store_le}
use mo_db.Storage.Endian.Laws.{length-store_le, store_le-IsBytes}
use mo_db.Tx.Wal.{
  page_size, WalRecord, begin, page_image, commit, make_header, read_all, read_from, record_bytes,
  wal_header_size,
}
use mo_db.Tx.Wal.Layout.{IsRecord, bytes_of, size_of, length-bytes}
use mo_db.Tx.Wal.Torn.{log_bytes, log_size, read_back, whole_records}
use mo_db.Tx.Wal.Cut.{header_size, ends_in_header, read_from-cut_log}
use mo_db.Tx.Writer.{
  WalSink, Wal, fresh, create, append, append_begin, append_page_image, append_commit,
}

-- The calls of a client.
pub data Append : Type 0 where
  of_begin : ℕ → Append
  of_image : ℕ → ℕ → List ℕ → Append
  of_commit : ℕ → Append

-- What a client may pass: numbers of 64 bits, and pages of bytes.
abbrev pub IsAppend : Append → Type 0
IsAppend (of_begin tx) = tx < 2 ^ 64
IsAppend (of_image tx page bytes) = (tx < 2 ^ 64) × (page < 2 ^ 64) × IsBytes bytes
IsAppend (of_commit tx) = tx < 2 ^ 64

-- The record that a call writes under an LSN.
unfoldable pub record_of : ℕ → Append → WalRecord
record_of lsn (of_begin tx) = record {
  lsn = lsn;
  tx_id = tx;
  type = begin;
  page_id = 0;
  payload = [];
  end_offset = 0;
}
record_of lsn (of_image tx page bytes) = record {
  lsn = lsn;
  tx_id = tx;
  type = page_image;
  page_id = page;
  payload = bytes;
  end_offset = 0;
}
record_of lsn (of_commit tx) = record {
  lsn = lsn;
  tx_id = tx;
  type = commit;
  page_id = 0;
  payload = store_le 8 lsn;
  end_offset = 0;
}

-- The records of some calls, under consecutive LSNs.
unfoldable pub records_of : ℕ → List Append → List WalRecord
unfolding record_of
records_of lsn [] = []
records_of lsn (a ∷ as') = record_of lsn a ∷ records_of (lsn + 1) as'

module _ (sink : WalSink) where
  open sink use {File, contents, write_at, write_at-end}

  unfoldable pub perform : Append → Wal sink → Result (Wal sink)
  perform (of_begin tx) w = append_begin sink tx w
  perform (of_image tx page bytes) w = append_page_image sink tx page bytes w
  perform (of_commit tx) w = append_commit sink tx w

  unfoldable pub perform_all : List Append → Wal sink → Result (Wal sink)
  unfolding perform
  perform_all [] w = ok w
  perform_all (a ∷ as') w = do w' ← perform a w; perform_all as' w'

  -- The log stands at the end of its file.
  pub record IsAtEnd (w : Wal sink) : Type 0 where
    pub offset : w.write_offset ≡ length (contents w.file)

  -- What a successful append of a record has done.
  pub record Appended (r : WalRecord) (w w' : Wal sink) : Type 0 where
    pub contents_grow : contents w'.file ≡ contents w.file ++ bytes_of r
    pub next : w'.next_lsn ≡ (w.next_lsn + 1) % 2 ^ 64
    pub offset_grows : w'.write_offset ≡ (w.write_offset + length (bytes_of r)) % 2 ^ 64

  append-Appended :
      (r : WalRecord) (w w' : Wal sink)
      → IsAtEnd w
      → r.lsn ≡ w.next_lsn
      → append sink r.type r.tx_id r.page_id r.payload w ≡ ok w'
      → Appended r w w'
  unfolding append
  append-Appended r w w' e l h =
      let bytes : List ℕ = record_bytes w.next_lsn r.tx_id r.type r.page_id r.payload in
      let (f, written, made) = >>=-eq-ok (write_at w.write_offset bytes w.file) _ h in
      let same : record {
        file = f;
        write_offset = (w.write_offset + length bytes) % 2 ^ 64;
        next_lsn = (w.next_lsn + 1) % 2 ^ 64;
      }
          ≡ w' =
        cc made in
      let these : bytes ≡ bytes_of r =
        ap (λ (n : ℕ). record_bytes n r.tx_id r.type r.page_id r.payload) (sym l) in
      record {
        contents_grow =
            ap (λ (v : Wal sink). contents v.file) (sym same)
            ∙ write_at-end bytes w.file f (rw e.offset at written)
            ∙ ap (λ (t : List ℕ). contents w.file ++ t) these;
        next = ap (λ (v : Wal sink). v.next_lsn) (sym same);
        offset_grows =
            ap (λ (v : Wal sink). v.write_offset) (sym same)
            ∙ ap (λ (t : List ℕ). (w.write_offset + length t) % 2 ^ 64) these;
      }

  pub perform-Appended :
      (a : Append) (w w' : Wal sink)
      → IsAppend a
      → IsAtEnd w
      → w.next_lsn < 2 ^ 64
      → perform a w ≡ ok w'
      → Appended (record_of w.next_lsn a) w w' × IsRecord (record_of w.next_lsn a)
  unfolding perform append_begin append_page_image append_commit record_of
  perform-Appended (of_begin tx) w w' v e l h = (
    append-Appended _ w w' e refl h,
    record {
      lsn = l;
      tx_id = v;
      type = omega arith;
      page_id = omega arith;
      size = omega arith;
      payload = tt;
    },
  )
  perform-Appended (of_commit tx) w w' v e l h = (
    append-Appended _ w w' e refl h,
    record {
      lsn = l;
      tx_id = v;
      type = omega arith;
      page_id = omega arith;
      size = omega (arith, length-store_le 8 w.next_lsn);
      payload = store_le-IsBytes 8 w.next_lsn;
    },
  )
  perform-Appended (of_image tx page bytes) w w' v e l h =
      elim (Bool-cases (length bytes == page_size)) [
        | inl full ↦ (
          append-Appended _ w w' e refl (rw full at h),
          record {
            lsn = l;
            tx_id = v.0;
            type = omega arith;
            page_id = v.1;
            size = omega (arith, (==_iff (length bytes) page_size).0 full);
            payload = v.2;
          },
        )
        | inr short ↦ absurd (err-ne-ok invalid_argument w' (rw short at h))
      ]

  -- Each record has 33 bytes at least, so a log of less than 2 ^ 64 bytes does not run out of LSNs.
  pub length-records_of :
      (ops : List Append) (lsn : ℕ) → 33 * length ops ≤ log_size (records_of lsn ops)
  unfolding records_of log_size
  length-records_of [] lsn = omega arith
  length-records_of (a ∷ ops) lsn = omega (arith, length-records_of ops (lsn + 1))

  -- The bytes that the file gains.
  pub perform_all-log_bytes :
      (ops : List Append) (w w' : Wal sink)
      → All IsAppend ops
      → IsAtEnd w
      → w.next_lsn + length ops < 2 ^ 64
      → length (contents w.file) + log_size (records_of w.next_lsn ops) < 2 ^ 64
      → perform_all ops w ≡ ok w'
      → (contents w'.file ≡ contents w.file ++ log_bytes (records_of w.next_lsn ops))
        × All IsRecord (records_of w.next_lsn ops)
  unfolding perform_all records_of log_bytes log_size
  perform_all-log_bytes [] w w' v e l s h =
      let same : w ≡ w' = cc h in
      (ap (λ (x : Wal sink). contents x.file) (sym same) ∙ sym (append-nil (contents w.file)), tt)
  perform_all-log_bytes (a ∷ ops) w w' (va, vs) e l s h =
      let (w1, done, later) = >>=-eq-ok (perform a w) (perform_all ops) h in
      let (grown, valid) = perform-Appended a w w1 va e (omega arith) done in
      let r : WalRecord = record_of w.next_lsn a in
      let next : w1.next_lsn ≡ w.next_lsn + 1 = omega (arith, grown.next) in
      let size : length (contents w1.file) ≡ length (contents w.file) + size_of r = omega (
        arith,
        ap length grown.contents_grow,
        length-append (contents w.file) (bytes_of r),
        length-bytes r,
      ) in
      let e1 : IsAtEnd w1 = record {
        offset = omega (arith, grown.offset_grows, e.offset, size, length-bytes r);
      } in
      let (tail, valids) =
        subst
          (λ n.
            (contents w'.file ≡ contents w1.file ++ log_bytes (records_of n ops))
            × All IsRecord (records_of n ops))
          next
          (perform_all-log_bytes ops w1 w' vs e1 (omega (arith, next))
            (subst (λ n. length (contents w1.file) + log_size (records_of n ops) < 2 ^ 64)
              (sym next) (omega (arith, size)))
            later) in
      (
        tail
            ∙ ap (λ (t : List ℕ). t ++ log_bytes (records_of (w.next_lsn + 1) ops))
                grown.contents_grow
            ∙ append_assoc (contents w.file) (bytes_of r)
                (log_bytes (records_of (w.next_lsn + 1) ops)),
        (valid, valids),
      )

  create-contents :
      (opened : Result File) (file : File) (w : Wal sink)
      → opened ≡ ok file
      → contents file ≡ []
      → create sink opened ≡ ok w
      → (contents w.file ≡ make_header) × (w.next_lsn ≡ 1) × (w.write_offset ≡ wal_header_size)
  unfolding create fresh
  create-contents opened file w o empty made =
      let (f, written, built) = >>=-eq-ok (write_at 0 make_header file) _ (rw (o, ◌>>=◌) at made) in
      let same : record { file = f; write_offset = wal_header_size; next_lsn = 1 } ≡ w = cc built in
      let at_end : write_at (length (contents file)) make_header file ≡ ok f =
        subst (λ (t : List ℕ). write_at (length t) make_header file ≡ ok f) (sym empty) written in
      (
        ap (λ (v : Wal sink). contents v.file) (sym same)
            ∙ write_at-end make_header file f at_end
            ∙ ap (λ (t : List ℕ). t ++ make_header) empty,
        ap (λ (v : Wal sink). v.next_lsn) (sym same),
        ap (λ (v : Wal sink). v.write_offset) (sym same),
      )

  module _ (ops : List Append) (opened : Result File) (file : File) (w w' : Wal sink)
      (o : opened ≡ ok file) (empty : contents file ≡ []) (v : All IsAppend ops)
      (fits : wal_header_size + log_size (records_of 1 ops) < 2 ^ 64)
      (made : create sink opened ≡ ok w) (done : perform_all ops w ≡ ok w') where
    -- The file is the header and the records of the appends.
    create-perform_all :
        (contents w'.file ≡ make_header ++ log_bytes (records_of 1 ops))
        × All IsRecord (records_of 1 ops)
    create-perform_all =
        let (header, one, offset) = create-contents opened file w o empty made in
        let e : IsAtEnd w = record {
          offset = omega (arith, offset, ap length header, header_size);
        } in
        let (grown, valid) =
          subst
            (λ n.
              (contents w'.file ≡ contents w.file ++ log_bytes (records_of n ops))
              × All IsRecord (records_of n ops))
            one
            (perform_all-log_bytes ops w w' v e (omega (arith, one, length-records_of ops 1))
              (subst (λ n. length (contents w.file) + log_size (records_of n ops) < 2 ^ 64)
                (sym one) (omega (arith, ap length header, header_size)))
              done) in
        (grown ∙ ap (λ (t : List ℕ). t ++ log_bytes (records_of 1 ops)) header, valid)

    -- A log is created and some appends succeed, and a crash leaves the first `k` bytes of the file,
    -- whatever `k` is. Where the header is whole or no byte is left, `read_all` returns the appended
    -- records that lie whole in what is left, in order, under the LSNs 1, 2, 3 and so on; where a
    -- part of the header is left, it fails with `corrupt_file`. The factory's file is empty, the log
    -- stays below 2 ^ 64 bytes, and the client passes pages of bytes and numbers of 64 bits.
    pub read_all-perform_all :
        (k : ℕ)
        → read_all (some (take k (contents w'.file))) ≡ (
            if ends_in_header k
            then err corrupt_file
            else ok (
                read_back 0 wal_header_size
                  (whole_records (k - wal_header_size) (records_of 1 ops))))
    read_all-perform_all k =
        let (held, valid) = create-perform_all in
        rw held (unfold read_all read_from in read_from-cut_log 0 k (records_of 1 ops) valid)
