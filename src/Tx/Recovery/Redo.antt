-- ===== src/Tx/Recovery/Redo.antt =====
-- What the loops of `recover` in src/tx/recovery.cpp do to the pages behind page zero.
use mo_db.Prelude.{
  ℕ, ◌≡◌, ◌≢◌, leb, leb→le, leb-false→lt, lt→ltb, ltb-false, ==_ne, length, refl, sym, ap, ◌∙◌,
  arith, Bool, false, not, ◌&&◌, Bool-cases, inl, inr, ltb, ◌==◌, Option, none, some, List, [], ◌∷◌,
  if◌then◌else◌,
}
use mo_db.Error.{ok, >>=-eq-ok, err-ne-ok, reserved_page, corrupt_file}
use mo_db.Tx.Wal.{page_size, WalRecord, page_image, commit, commit_lsn}
use mo_db.Tx.Recovery.{
  PageFile, put_page, write_page_count, extend, write_recovered_page, RecoverResult, Committed,
  find, note, collect, apply_image, apply_images, replay,
}

-- The commit of a transaction that the log shows: that of its last commit record.
unfoldable pub last_commit : ℕ → List WalRecord → Option ℕ → Option ℕ
last_commit tx [] found = found
last_commit tx (r ∷ rs) found =
    last_commit tx rs (if r.type == commit && r.tx_id == tx then some (commit_lsn r) else found)

-- The transaction committed behind the checkpoint.
abbrev pub behind : ℕ → Option ℕ → Bool
behind after_lsn none = false
behind after_lsn (some lsn) = ltb after_lsn lsn

-- The image is to be put back: it is a page image of a transaction that committed in `log`.
unfoldable pub is_redone : ℕ → List WalRecord → WalRecord → Bool
unfolding last_commit
is_redone after_lsn log r = r.type == page_image && behind after_lsn (last_commit r.tx_id log none)

-- What a page holds after recovery: the last image of it that is to be put back, or what it held.
unfoldable pub redone_page : (WalRecord → Bool) → ℕ → List WalRecord → List ℕ → List ℕ
redone_page redone p [] old = old
redone_page redone p (r ∷ rs) old =
    redone_page redone p rs (if redone r && p == r.page_id then r.payload else old)

-- The map that the first loop builds answers with the last commit.
pub find-collect :
    (tx : ℕ) (rs : List WalRecord) (m : Committed) (s : RecoverResult)
    → find tx (collect rs (m, s)).0 ≡ last_commit tx rs (find tx m)
unfolding collect last_commit
find-collect tx [] m s = refl
find-collect tx (r ∷ rs) m s =
    find-collect tx rs (note r (m, s)).0 (note r (m, s)).1 ∙ ap (last_commit tx rs) (noted)
  where
    noted :
        find tx (note r (m, s)).0
        ≡ (if r.type == commit && r.tx_id == tx then some (commit_lsn r) else find tx m)
    noted = unfold note find in ground arith

-- A write changes its own page and page zero, where the count of pages is stored.
write_recovered_page-page :
    (id : ℕ) (bytes : List ℕ) (f f' : PageFile)
    → write_recovered_page id bytes f ≡ ok f'
    → (p : ℕ) → p ≢ 0
    → f'.page p ≡ (if p == id then bytes else f.page p)
unfolding write_recovered_page extend write_page_count
write_recovered_page-page id bytes f f' h p z = elim (Bool-cases (id == 0)) [
  | inl zero_page ↦ absurd (err-ne-ok reserved_page f' (rw zero_page at h))
  | inr data_page ↦
      let same : put_page id bytes (extend id f) ≡ f' = cc (rw data_page at h) in
      ap (λ (g : PageFile). g.page p) (sym same)
      ∙ ap (λ (old : List ℕ). if p == id then bytes else old) (extended)
]
  where
    extended : (extend id f).page p ≡ f.page p
    extended = elim (Bool-cases (leb f.page_count id)) [
      | inl beyond ↦ rw (beyond, ==_ne p 0 z) refl
      | inr inside ↦ rw inside refl
    ]

apply_image-page :
    (after_lsn : ℕ) (r : WalRecord) (o : Option ℕ) (s s' : RecoverResult) (f f' : PageFile)
    → apply_image after_lsn r o (s, f) ≡ ok (s', f')
    → (p : ℕ) → p ≢ 0
    → f'.page p ≡ (if behind after_lsn o && p == r.page_id then r.payload else f.page p)
unfolding apply_image
apply_image-page after_lsn r none s s' f f' h p z =
    let same : f ≡ f' = cc h in ap (λ (g : PageFile). g.page p) (sym same)
apply_image-page after_lsn r (some lsn) s s' f f' h p z = elim (Bool-cases (leb lsn after_lsn)) [
  | inl before ↦
      let same : f ≡ f' = cc (rw before at h) in
      rw (ltb-false after_lsn lsn (leb→le lsn after_lsn before))
        (ap (λ (g : PageFile). g.page p) (sym same))
  | inr behind_it ↦ elim (Bool-cases (length r.payload == page_size)) [
    | inr partial ↦ absurd (err-ne-ok corrupt_file (s', f') (rw (behind_it, partial) at h))
    | inl full ↦
        let (g, wrote, rest) =
          >>=-eq-ok (write_recovered_page r.page_id r.payload f) _ (rw (behind_it, full) at h) in
        let same : g ≡ f' = cc rest in
        rw (lt→ltb after_lsn lsn (leb-false→lt lsn after_lsn behind_it)) (
          ap (λ (k : PageFile). k.page p) (sym same)
          ∙ write_recovered_page-page r.page_id r.payload f g wrote p z)
  ]
]

image-page :
    (after_lsn : ℕ) (r : WalRecord) (o : Option ℕ) (s s' : RecoverResult) (f f' : PageFile)
    → (if not (r.type == page_image) then ok (s, f) else apply_image after_lsn r o (s, f))
      ≡ ok (s', f')
    → (p : ℕ) → p ≢ 0
    → f'.page p ≡ (
        if (r.type == page_image && behind after_lsn o) && p == r.page_id
        then r.payload
        else f.page p)
image-page after_lsn r o s s' f f' h p z = elim (Bool-cases (r.type == page_image)) [
  | inl image ↦ rw image (apply_image-page after_lsn r o s s' f f' (rw image at h) p z)
  | inr other ↦
      rw other
        (let same : f ≡ f' = cc (rw other at h) in ap (λ (g : PageFile). g.page p) (sym same))
]

pub apply_images-page :
    (after_lsn : ℕ) (m : Committed) (redone : WalRecord → Bool) (rs : List WalRecord)
    → ((r : WalRecord) → redone r ≡ (r.type == page_image && behind after_lsn (find r.tx_id m)))
    → (s s' : RecoverResult) (f f' : PageFile) → apply_images after_lsn m rs (s, f) ≡ ok (s', f')
    → (p : ℕ) → p ≢ 0
    → f'.page p ≡ redone_page redone p rs (f.page p)
unfolding apply_images redone_page
apply_images-page after_lsn m redone [] meets s s' f f' h p z =
    let same : f ≡ f' = cc h in ap (λ (g : PageFile). g.page p) (sym same)
apply_images-page after_lsn m redone (r ∷ rs) meets s s' f f' h p z =
    let ((s1, f1), first, later) =
      >>=-eq-ok
        (if not (r.type == page_image)
          then ok (s, f)
          else apply_image after_lsn r (find r.tx_id m) (s, f))
        (apply_images after_lsn m rs) h in
    apply_images-page after_lsn m redone rs meets s1 s' f1 f' later p z
    ∙ ap (redone_page redone p rs) (
        image-page after_lsn r (find r.tx_id m) s s1 f f1 first p z
        ∙ ap (λ (b : Bool). if b && p == r.page_id then r.payload else f.page p) (sym (meets r)))

pub replay-page :
    (after_lsn : ℕ) (log : List WalRecord) (start result : RecoverResult) (f f' : PageFile)
    → replay after_lsn log start f ≡ ok (result, f')
    → (p : ℕ) → p ≢ 0
    → f'.page p ≡ redone_page (is_redone after_lsn log) p log (f.page p)
unfolding replay is_redone find
replay-page after_lsn log start result f f' h p z =
    apply_images-page after_lsn (collect log ([], start)).0 (is_redone after_lsn log) log
      (λ r.
        ap (λ (o : Option ℕ). r.type == page_image && behind after_lsn o)
          (sym (find-collect r.tx_id log [] start)))
      (collect log ([], start)).1 result f f' h p z
