-- ===== src/Tx/Writer/Progress.antt =====
-- Appends through a sink that never fails.
use mo_db.Prelude.{ℕ, ◌+◌, ◌%◌, ◌^◌, ◌≡◌, refl, ==_iff, List, [], ◌∷◌, length, All}
use mo_db.Error.{Result, ok, ◌>>=◌, >>=-ok}
use mo_db.Storage.Endian.{store_le}
use mo_db.Tx.Wal.{page_size, record_bytes}
use mo_db.Tx.Writer.{WalSink, Wal, append, append_begin, append_page_image, append_commit}
use mo_db.Tx.Writer.Reading.{Append, of_begin, of_image, of_commit, perform, perform_all}

-- The page images are whole pages.
abbrev pub IsFull : Append → Type 0
IsFull (of_image tx page bytes) = length bytes ≡ page_size
IsFull _ = Unit

module _ (sink : WalSink) where
  open sink use {File, write_at}

  -- The sink accepts every write.
  abbrev pub NeverFails : Type 0
  NeverFails =
      (offset : ℕ) (bytes : List ℕ) (f : File) → (f' : File) × (write_at offset bytes f ≡ ok f')

  append-ok :
      NeverFails
      → (type tx page : ℕ) (payload : List ℕ) (w : Wal sink)
      → (w' : Wal sink) × (append sink type tx page payload w ≡ ok w')
  unfolding append
  append-ok up type tx page payload w =
      let bytes : List ℕ = record_bytes w.next_lsn tx type page payload in
      let (f, written) = up w.write_offset bytes w.file in
      let k : File → Result (Wal sink) = λ file'. ok (record {
        file = file';
        write_offset = (w.write_offset + length bytes) % 2 ^ 64;
        next_lsn = (w.next_lsn + 1) % 2 ^ 64;
      }) in
      let w' : Wal sink = record {
        file = f;
        write_offset = (w.write_offset + length bytes) % 2 ^ 64;
        next_lsn = (w.next_lsn + 1) % 2 ^ 64;
      } in
      (w', >>=-ok (write_at w.write_offset bytes w.file) k f written)

  perform-ok :
      NeverFails
      → (a : Append) (w : Wal sink) → IsFull a
      → (w' : Wal sink) × (perform sink a w ≡ ok w')
  unfolding perform append_begin append_page_image append_commit
  perform-ok up (of_begin tx) w h = append-ok up _ tx 0 [] w
  perform-ok up (of_commit tx) w h = append-ok up _ tx 0 (store_le 8 w.next_lsn) w
  perform-ok up (of_image tx page bytes) w h =
      rw ((==_iff (length bytes) page_size).1 h) (append-ok up _ tx page bytes w)

  -- With a sink that accepts every write, any appends of whole pages succeed.
  pub perform_all-ok :
      NeverFails
      → (ops : List Append) (w : Wal sink) → All IsFull ops
      → (w' : Wal sink) × (perform_all sink ops w ≡ ok w')
  unfolding perform_all
  perform_all-ok up [] w h = (w, refl)
  perform_all-ok up (a ∷ ops) w (h, hs) =
      let (w1, done) = perform-ok up a w h in rw (done, ◌>>=◌) (perform_all-ok up ops w1 hs)
