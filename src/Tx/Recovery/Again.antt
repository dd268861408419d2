-- ===== src/Tx/Recovery/Again.antt =====
-- src/tx/recovery.cpp, the loops of `recover` run a second time on a page file that an earlier run
-- has changed.
use mo_db.Prelude.{
  ℕ, arith, ◌+◌, ◌≡◌, refl, sym, ap, ◌∙◌, Bool, not, ◌&&◌, ◌||◌, true, false, Bool-cases, inl, inr,
  leb, ◌==◌, Option, none, some, List, [], ◌∷◌, ◌++◌, length, if◌then◌else◌,
}
use mathlib.Core.Bool.{false≢true}
use mo_db.Error.{Result, ok, >>=-eq-ok, >>=-ok, ◌>>=◌, err-ne-ok, corrupt_file, reserved_page}
use mo_db.Tx.Wal.{page_size, WalRecord, page_image}
use mo_db.Tx.Recovery.{
  PageFile, put_page, extend, write_recovered_page, RecoverResult, Committed, find, collect,
  apply_image, apply_images, replay,
}
use mo_db.Tx.Recovery.Redo.{
  behind, find-collect, apply_images-page, is_redone, redone_page, replay-page,
}

-- One of the images that are to be put back is an image of the page.
unfoldable pub has_image : (WalRecord → Bool) → ℕ → List WalRecord → Bool
has_image redone p [] = false
has_image redone p (r ∷ rs) = (redone r && p == r.page_id) || has_image redone p rs

-- The images put on a page decide what it holds, whatever it held before.
redone_page-has_image :
    (redone : WalRecord → Bool) (p : ℕ) (rs : List WalRecord) (old older : List ℕ)
    → has_image redone p rs ≡ true
    → redone_page redone p rs old ≡ redone_page redone p rs older
unfolding redone_page has_image
redone_page-has_image redone p [] old older h = absurd (false≢true h)
redone_page-has_image redone p (r ∷ rs) old older h =
    elim (Bool-cases (redone r && p == r.page_id)) [
      | inl here ↦ rw here refl
      | inr elsewhere ↦
          rw elsewhere (redone_page-has_image redone p rs old older (rw elsewhere at h))
    ]

-- A page without an image is left alone.
redone_page-kept :
    (redone : WalRecord → Bool) (p : ℕ) (rs : List WalRecord) (old : List ℕ)
    → has_image redone p rs ≡ false
    → redone_page redone p rs old ≡ old
unfolding redone_page has_image
redone_page-kept redone p [] old h = refl
redone_page-kept redone p (r ∷ rs) old h = elim (Bool-cases (redone r && p == r.page_id)) [
  | inl here ↦ absurd (false≢true (sym (rw here at h)))
  | inr elsewhere ↦ rw elsewhere (redone_page-kept redone p rs old (rw elsewhere at h))
]

redone_page-touched :
    (redone : WalRecord → Bool) (p : ℕ) (rs : List WalRecord) (old older : List ℕ)
    → (has_image redone p rs ≡ false → older ≡ old)
    → redone_page redone p rs older ≡ redone_page redone p rs old
redone_page-touched redone p rs old older h = elim (Bool-cases (has_image redone p rs)) [
  | inl written ↦ redone_page-has_image redone p rs older old written
  | inr alone ↦ ap (redone_page redone p rs) (h alone)
]

-- Whether a round succeeds, and its result, do not depend on the page file.
write-transfer :
    (id : ℕ) (bytes : List ℕ) (f f' g : PageFile)
    → write_recovered_page id bytes f ≡ ok f'
    → (g' : PageFile) × (write_recovered_page id bytes g ≡ ok g')
unfolding write_recovered_page
write-transfer id bytes f f' g h = elim (Bool-cases (id == 0)) [
  | inl zero_page ↦ absurd (err-ne-ok reserved_page f' (rw zero_page at h))
  | inr data_page ↦ (put_page id bytes (extend id g), rw data_page refl)
]

abbrev attach : RecoverResult → PageFile → Result (RecoverResult × PageFile)
attach t w = ok (t, w)

-- What follows a write only passes on the file.
write-then :
    (id : ℕ) (bytes : List ℕ) (f f' g : PageFile) (t t' : RecoverResult)
    → (write_recovered_page id bytes f >>= attach t) ≡ ok (t', f')
    → (g' : PageFile) × ((write_recovered_page id bytes g >>= attach t) ≡ ok (t', g'))
write-then id bytes f f' g t t' h =
    let (f1, wrote, rest) = >>=-eq-ok (write_recovered_page id bytes f) (attach t) h in
    let (g', again) = write-transfer id bytes f f1 g wrote in
    let same : t ≡ t' = cc rest in
    (
      g',
      >>=-ok (write_recovered_page id bytes g) (attach t) g' again
          ∙ ap (λ (u : RecoverResult). attach u g') same,
    )

apply_image-transfer :
    (after_lsn : ℕ) (r : WalRecord) (o : Option ℕ) (s s' : RecoverResult) (f f' g : PageFile)
    → apply_image after_lsn r o (s, f) ≡ ok (s', f')
    → (g' : PageFile) × (apply_image after_lsn r o (s, g) ≡ ok (s', g'))
unfolding apply_image
apply_image-transfer after_lsn r none s s' f f' g h =
    (g, let same : s ≡ s' = cc h in ap (λ (t : RecoverResult). ok (t, g)) same)
apply_image-transfer after_lsn r (some lsn) s s' f f' g h = elim (Bool-cases (leb lsn after_lsn)) [
  | inl before ↦
      rw before
        (g, let same : s ≡ s' = cc (rw before at h) in ap (λ (t : RecoverResult). ok (t, g)) same)
  | inr behind ↦ elim (Bool-cases (length r.payload == page_size)) [
    | inr partial ↦ absurd (err-ne-ok corrupt_file (s', f') (rw (behind, partial) at h))
    | inl full ↦
        rw (behind, full) (write-then r.page_id r.payload f f' g _ s' (rw (behind, full) at h))
  ]
]

round-transfer :
    (after_lsn : ℕ) (m : Committed) (r : WalRecord) (s s' : RecoverResult) (f f' g : PageFile)
    → (if not (r.type == page_image)
        then ok (s, f)
        else apply_image after_lsn r (find r.tx_id m) (s, f))
      ≡ ok (s', f')
    → (g' : PageFile) × ((if not (r.type == page_image)
          then ok (s, g)
          else apply_image after_lsn r (find r.tx_id m) (s, g))
        ≡ ok (s', g'))
round-transfer after_lsn m r s s' f f' g h = elim (Bool-cases (r.type == page_image)) [
  | inl image ↦
      rw image (apply_image-transfer after_lsn r (find r.tx_id m) s s' f f' g (rw image at h))
  | inr other ↦
      rw other
        (g, let same : s ≡ s' = cc (rw other at h) in ap (λ (t : RecoverResult). ok (t, g)) same)
]

apply_images-transfer :
    (after_lsn : ℕ) (m : Committed) (rs : List WalRecord) (s s' : RecoverResult) (f f' g : PageFile)
    → apply_images after_lsn m rs (s, f) ≡ ok (s', f')
    → (g' : PageFile) × (apply_images after_lsn m rs (s, g) ≡ ok (s', g'))
unfolding apply_images
apply_images-transfer after_lsn m [] s s' f f' g h =
    (g, let same : s ≡ s' = cc h in ap (λ (t : RecoverResult). ok (t, g)) same)
apply_images-transfer after_lsn m (r ∷ rs) s s' f f' g h =
    let ((s1, f1), first, later) =
      >>=-eq-ok
        (if not (r.type == page_image)
          then ok (s, f)
          else apply_image after_lsn r (find r.tx_id m) (s, f))
        (apply_images after_lsn m rs) h in
    let (g1, again) = round-transfer after_lsn m r s s1 f f1 g first in
    let (g', rest) = apply_images-transfer after_lsn m rs s1 s' f1 f' g1 later in
    (g', >>=-ok _ (apply_images after_lsn m rs) (s1, g1) again ∙ rest)

-- If `replay` of the records of a log succeeds on a page file, it succeeds with the same result on
-- any other that agrees with it on every page, but page zero, that has no image to be put back,
-- and leaves the same bytes on every page but page zero. The other file may be what a run that
-- stopped has left: any of the images written or not, in any order, or in part.
pub replay-interrupted :
    (after_lsn : ℕ) (log : List WalRecord) (start result : RecoverResult) (f f' g : PageFile)
    → replay after_lsn log start f ≡ ok (result, f')
    → ((p : ℕ)
        → has_image (is_redone after_lsn log) (p + 1) log ≡ false
        → g.page (p + 1) ≡ f.page (p + 1))
    → (g' : PageFile) × (replay after_lsn log start g ≡ ok (result, g'))
      × ((p : ℕ) → g'.page (p + 1) ≡ f'.page (p + 1))
unfolding replay
replay-interrupted after_lsn log start result f f' g h alone =
    let (g', again) =
      apply_images-transfer after_lsn (collect log ([], start)).0 log (collect log ([], start)).1
        result f f' g h in
    (
      g',
      again,
      λ p.
          replay-page after_lsn log start result g g' again (p + 1) (λ e. omega (arith, e))
          ∙ redone_page-touched (is_redone after_lsn log) (p + 1) log (f.page (p + 1))
              (g.page (p + 1)) (alone p)
          ∙ sym (replay-page after_lsn log start result f f' h (p + 1) (λ e. omega (arith, e))),
    )

has_image-append :
    (redone : WalRecord → Bool) (p : ℕ) (rs ss : List WalRecord)
    → has_image redone p (rs ++ ss) ≡ false
    → has_image redone p rs ≡ false
unfolding has_image
has_image-append redone p [] ss h = refl
has_image-append redone p (r ∷ rs) ss h = elim (Bool-cases (redone r && p == r.page_id)) [
  | inl here ↦ absurd (false≢true (sym (rw here at h)))
  | inr elsewhere ↦ rw elsewhere (has_image-append redone p rs ss (rw elsewhere at h))
]

-- If `replay` of the records of a log succeeds, and another run of it stopped when its second loop
-- had taken the first of the records, a replay of all of them on what that run left succeeds with
-- the same result and leaves the same bytes on every page but page zero.
pub replay-stopped :
    (after_lsn : ℕ) (rs ss : List WalRecord) (start result s : RecoverResult) (f f' g : PageFile)
    → replay after_lsn (rs ++ ss) start f ≡ ok (result, f')
    → apply_images after_lsn
        (collect (rs ++ ss) ([], start)).0
        rs
        ((collect (rs ++ ss) ([], start)).1, f)
      ≡ ok (s, g)
    → (g' : PageFile) × (replay after_lsn (rs ++ ss) start g ≡ ok (result, g'))
      × ((p : ℕ) → g'.page (p + 1) ≡ f'.page (p + 1))
unfolding is_redone find
replay-stopped after_lsn rs ss start result s f f' g h stopped =
    let log : List WalRecord = rs ++ ss in
    replay-interrupted after_lsn log start result f f' g h (λ p alone.
      apply_images-page after_lsn (collect log ([], start)).0 (is_redone after_lsn log) rs
        (λ r.
          ap (λ (o : Option ℕ). r.type == page_image && behind after_lsn o)
            (sym (find-collect r.tx_id log [] start)))
        (collect log ([], start)).1 s f g stopped (p + 1) (λ e. omega (arith, e))
      ∙ redone_page-kept (is_redone after_lsn log) (p + 1) rs (f.page (p + 1))
          (has_image-append (is_redone after_lsn log) (p + 1) rs ss alone))

-- If `replay` of the records of a log succeeds, a second replay of them on the page file that the
-- first one left succeeds too, with the same result, and changes no page but page zero.
pub replay-replay :
    (after_lsn : ℕ) (log : List WalRecord) (start result : RecoverResult) (f f' : PageFile)
    → replay after_lsn log start f ≡ ok (result, f')
    → (f'' : PageFile) × (replay after_lsn log start f' ≡ ok (result, f''))
      × ((p : ℕ) → f''.page (p + 1) ≡ f'.page (p + 1))
replay-replay after_lsn log start result f f' h =
    replay-interrupted after_lsn log start result f f' f' h (λ p alone.
      replay-page after_lsn log start result f f' h (p + 1) (λ e. omega (arith, e))
      ∙ redone_page-kept (is_redone after_lsn log) (p + 1) log (f.page (p + 1)) alone)
