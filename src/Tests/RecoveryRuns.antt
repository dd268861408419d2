-- ===== src/Tests/RecoveryRuns.antt =====
-- src/tx/recovery.cpp on a log of two transactions, of which one committed.
use mathlib.Core.Bool.{false≢true}
use mo_db.Prelude.{
  ◌<◌, ◌≤◌, ◌+◌, ◌++◌, arith, sym, Bool-cases, inl, inr, ℕ, zero, suc, ◌*◌, ◌≡◌, refl, true, false,
  ◌==◌, if◌then◌else◌, List, [], ◌∷◌,
}
use mo_db.Error.{ok, err, corrupt_file}
use mo_db.Storage.Endian.{store_le, load_le, load_le_loop}
use mo_db.Tx.Wal.{WalRecord, begin, page_image, commit, commit_lsn, page_size}
use mo_db.Tx.Recovery.{
  PageFile, RecoverResult, no_result, replay, apply_images, apply_image, collect, note, find,
  write_recovered_page, extend, write_page_count,
}
use mo_db.Tx.Recovery.Extent.{replay-page_count}
use mo_db.Tx.Recovery.Redo.{last_commit, is_redone}
use mo_db.Tx.Recovery.Again.{has_image, replay-interrupted}

abbrev zeros : ℕ → List ℕ
zeros zero = []
zeros (suc n) = 0 ∷ zeros n

abbrev entry : ℕ → ℕ → ℕ → ℕ → List ℕ → WalRecord
entry lsn tx type page payload = record {
  lsn = lsn;
  tx_id = tx;
  type = type;
  page_id = page;
  payload = payload;
  end_offset = lsn * 100;
}

abbrev log : List WalRecord
log =
    entry 1 7 begin 0 []
    ∷ entry 2 7 page_image 2 (zeros page_size)
    ∷ entry 3 8 page_image 3 []
    ∷ entry 4 7 commit 0 (4 ∷ 0 ∷ 0 ∷ 0 ∷ 0 ∷ 0 ∷ 0 ∷ 0 ∷ [])
    ∷ []

abbrev before : PageFile
before = record { page_count = 4; page = λ p. p ∷ [] }

abbrev after : PageFile
after = record { page_count = 4; page = λ p. if p == 2 then zeros page_size else p ∷ [] }

abbrev found : RecoverResult
found = record {
  max_commit_lsn = 4;
  applied_any = true;
  max_lsn = 4;
  max_tx_id = 8;
  last_commit_end = 400;
  read_from_offset = false;
}

replayed : replay 0 log no_result before ≡ ok (found, after)
unfolding replay apply_images apply_image collect note find write_recovered_page extend
    write_page_count commit_lsn load_le load_le_loop
replayed = refl

-- A committed image that is no whole page.
partial_image :
    replay 0 (entry 1 7 page_image 2 [] ∷ entry 2 7 commit 0 [] ∷ []) no_result before
    ≡ err corrupt_file
unfolding replay apply_images apply_image collect note find write_recovered_page extend
    write_page_count commit_lsn load_le load_le_loop
partial_image = refl

-- A crash left the page of the committed transaction with half an image.
abbrev torn : PageFile
torn = record { page_count = 4; page = λ p. if p == 2 then zeros 100 else p ∷ [] }

torn_only_there :
    (p : ℕ)
    → has_image (is_redone 0 log) (p + 1) log ≡ false
    → torn.page (p + 1) ≡ before.page (p + 1)
unfolding has_image is_redone last_commit commit_lsn load_le load_le_loop
torn_only_there p h = elim (Bool-cases ((p + 1) == 2)) [
  | inl there ↦ absurd (false≢true (sym (rw there at h)))
  | inr elsewhere ↦ rw elsewhere refl
]

replay-interrupted_example :
    (g' : PageFile) × (replay 0 log no_result torn ≡ ok (found, g'))
    × ((p : ℕ) → g'.page (p + 1) ≡ after.page (p + 1))
replay-interrupted_example =
    replay-interrupted 0 log no_result found before after torn replayed torn_only_there

-- An image behind the end: the count of pages in page zero is written too.
abbrev behind_end : List WalRecord
behind_end = entry 1 7 page_image 9 (zeros page_size) ∷ entry 2 7 commit 0 [] ∷ []

abbrev small_file : PageFile
small_file = record {
  page_count = 4;
  page = λ p. if p == 0 then zeros 12 ++ (4 ∷ zeros 11) else p ∷ [];
}

abbrev larger_file : PageFile
larger_file = record {
  page_count = 10;
  page = λ p.
      if p == 9
      then zeros page_size
      else (if p == 0 then zeros 12 ++ (10 ∷ zeros 11) else small_file.page p);
}

abbrev found_one : RecoverResult
found_one = record {
  max_commit_lsn = 2;
  applied_any = true;
  max_lsn = 2;
  max_tx_id = 7;
  last_commit_end = 200;
  read_from_offset = false;
}

extended : replay 0 behind_end no_result small_file ≡ ok (found_one, larger_file)
unfolding replay apply_images apply_image collect note find write_recovered_page extend
    write_page_count commit_lsn load_le load_le_loop store_le
extended = refl

replay-page_count_example : (9 < larger_file.page_count) × (4 ≤ larger_file.page_count)
unfolding has_image is_redone last_commit commit_lsn load_le load_le_loop
replay-page_count_example =
    replay-page_count 0 behind_end no_result found_one small_file larger_file
      (omega arith, (omega arith, tt)) extended 9 refl
