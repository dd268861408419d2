-- ===== src/Tx/Recovery/Extent.antt =====
-- The count of pages after recovery.
use mo_db.Prelude.{
  ℕ, ◌+◌, ◌%◌, ◌^◌, ◌≤◌, ◌<◌, ◌≡◌, sym, ap, ◌∙◌, arith, Bool, true, false, not, ◌&&◌, ◌||◌,
  Bool-cases, inl, inr, leb, leb→le, leb-false→lt, ◌==◌, ==_iff, Option, List, [], ◌∷◌, All,
  if◌then◌else◌,
}
use mathlib.Core.Bool.{false≢true}
use mo_db.Error.{ok, >>=-eq-ok, err-ne-ok, reserved_page}
use mo_db.Tx.Wal.{WalRecord, page_image}
use mo_db.Tx.Recovery.{
  PageFile, put_page, write_page_count, extend, write_recovered_page, RecoverResult, Committed,
  find, collect, apply_image, apply_images, replay,
}
use mo_db.Tx.Recovery.Redo.{behind, is_redone, find-collect}
use mo_db.Tx.Recovery.Again.{has_image}
use mo_db.Tx.Recovery.Superblock.{round-cases}

write_recovered_page-page_count :
    (id : ℕ) (bytes : List ℕ) (f f' : PageFile)
    → id + 1 < 2 ^ 64
    → write_recovered_page id bytes f ≡ ok f'
    → (f.page_count ≤ f'.page_count) × (id < f'.page_count)
unfolding write_recovered_page extend write_page_count
write_recovered_page-page_count id bytes f f' small wrote = elim (Bool-cases (id == 0)) [
  | inl zero_page ↦ absurd (err-ne-ok reserved_page f' (rw zero_page at wrote))
  | inr data_page ↦
      let same : put_page id bytes (extend id f) ≡ f' = cc (rw data_page at wrote) in
      let count : (extend id f).page_count ≡ f'.page_count =
        ap (λ (g : PageFile). g.page_count) same in
      elim (Bool-cases (leb f.page_count id)) [
        | inl beyond ↦
            let grown : (id + 1) % 2 ^ 64 ≡ f'.page_count = rw beyond at count in
            (
              omega (arith, grown, leb→le f.page_count id beyond, small),
              omega (arith, grown, small),
            )
        | inr inside ↦
            let kept : f.page_count ≡ f'.page_count = rw inside at count in
            (omega (arith, kept), omega (arith, kept, leb-false→lt f.page_count id inside))
      ]
]

-- The number of the page behind the record's one fits 64 bits.
abbrev pub HasSuccessor : WalRecord → Type 0
HasSuccessor r = r.page_id + 1 < 2 ^ 64

apply_images-page_count :
    (after_lsn : ℕ) (m : Committed) (redone : WalRecord → Bool) (rs : List WalRecord)
    → ((r : WalRecord) → redone r ≡ (r.type == page_image && behind after_lsn (find r.tx_id m)))
    → (s s' : RecoverResult) (f f' : PageFile) → All HasSuccessor rs
    → apply_images after_lsn m rs (s, f) ≡ ok (s', f')
    → (f.page_count ≤ f'.page_count) × ((p : ℕ) → has_image redone p rs ≡ true → p < f'.page_count)
unfolding apply_images has_image
apply_images-page_count after_lsn m redone [] meets s s' f f' small done =
    let same : f ≡ f' = cc done in
    let count : f.page_count ≡ f'.page_count = ap (λ (g : PageFile). g.page_count) same in
    (omega (arith, count), λ p h. absurd (false≢true h))
apply_images-page_count after_lsn m redone (r ∷ rs) meets s s' f f' (one, small) done =
    let ((s1, f1), first, later) =
      >>=-eq-ok
        (if not (r.type == page_image)
          then ok (s, f)
          else apply_image after_lsn r (find r.tx_id m) (s, f))
        (apply_images after_lsn m rs) done in
    let (more, rest) =
      apply_images-page_count after_lsn m redone rs meets s1 s' f1 f' small later in
    elim (round-cases after_lsn r (find r.tx_id m) s s1 f f1 first) [
      | inl (skipped, same) ↦
          let count : f1.page_count ≡ f.page_count = ap (λ (g : PageFile). g.page_count) same in
          (omega (arith, count, more), λ p h. rest p (rw (meets r ∙ skipped) at h))
      | inr wrote ↦
          let (grown, inside) =
            write_recovered_page-page_count r.page_id r.payload f f1 one wrote in
          (
            omega (arith, grown, more),
            λ p h. elim (Bool-cases (p == r.page_id)) [
              | inl here ↦ omega (arith, (==_iff p r.page_id).0 here, inside, more)
              | inr elsewhere ↦ rest p (other (redone r) p elsewhere h)
            ],
          )
    ]
  where
    other :
        (b : Bool) (p : ℕ)
        → (p == r.page_id) ≡ false
        → ((b && p == r.page_id) || has_image redone p rs) ≡ true
        → has_image redone p rs ≡ true
    other false p elsewhere h = h
    other true p elsewhere h = rw elsewhere at h

-- If `replay` of the records of a log succeeds, a page that an image was put back on lies below the
-- count of pages, which has not become smaller. The records' page numbers stay below 2 ^ 64 - 1,
-- from where on the new count would wrap.
pub replay-page_count :
    (after_lsn : ℕ) (log : List WalRecord) (start result : RecoverResult) (f f' : PageFile)
    → All HasSuccessor log
    → replay after_lsn log start f ≡ ok (result, f')
    → (p : ℕ) → has_image (is_redone after_lsn log) p log ≡ true
    → (p < f'.page_count) × (f.page_count ≤ f'.page_count)
unfolding replay is_redone find
replay-page_count after_lsn log start result f f' small done p put =
    let (more, inside) =
      apply_images-page_count after_lsn (collect log ([], start)).0 (is_redone after_lsn log) log
        (λ r.
          ap (λ (o : Option ℕ). r.type == page_image && behind after_lsn o)
            (sym (find-collect r.tx_id log [] start)))
        (collect log ([], start)).1 result f f' small done in
    (inside p put, more)
