-- ===== src/Tx/Recovery/Superblock.antt =====
-- Page zero and the count of pages after recovery.
use mo_db.Prelude.{
  ℕ, ◌≡◌, ◌⊎◌, refl, sym, ap, ◌∙◌, false, not, ◌&&◌, Bool-cases, inl, inr, leb, leb→le, ltb-false,
  ◌==◌, Option, none, some, List, ◌++◌, length, if◌then◌else◌,
}
use mo_db.Error.{ok, >>=-eq-ok, err-ne-ok, corrupt_file}
use mo_db.Storage.Endian.{store_le}
use mo_db.Tx.Wal.{page_size, WalRecord, page_image}
use mo_db.Tx.Recovery.{PageFile, write_recovered_page, RecoverResult, apply_image}
use mo_db.Tx.Recovery.Redo.{behind}

-- A round that succeeds wrote the image, or left the file as it was.
pub round-cases :
    (after_lsn : ℕ) (r : WalRecord) (o : Option ℕ) (s s' : RecoverResult) (f f' : PageFile)
    → (if not (r.type == page_image) then ok (s, f) else apply_image after_lsn r o (s, f))
      ≡ ok (s', f')
    → (((r.type == page_image && behind after_lsn o) ≡ false) × (f' ≡ f))
      ⊎ (write_recovered_page r.page_id r.payload f ≡ ok f')
unfolding apply_image
round-cases after_lsn r o s s' f f' h = elim (Bool-cases (r.type == page_image)) [
  | inr other ↦ inl (rw other refl, let same : f ≡ f' = cc (rw other at h) in sym same)
  | inl image ↦ rw image (written o (rw image at h))
]
  where
    written :
        (o : Option ℕ)
        → apply_image after_lsn r o (s, f) ≡ ok (s', f')
        → ((behind after_lsn o ≡ false) × (f' ≡ f))
          ⊎ (write_recovered_page r.page_id r.payload f ≡ ok f')
    written none h = inl (refl, let same : f ≡ f' = cc h in sym same)
    written (some lsn) h = elim (Bool-cases (leb lsn after_lsn)) [
      | inl before ↦ inl (
        ltb-false after_lsn lsn (leb→le lsn after_lsn before),
        let same : f ≡ f' = cc (rw before at h) in sym same,
      )
      | inr late ↦ elim (Bool-cases (length r.payload == page_size)) [
        | inr partial ↦ absurd (err-ne-ok corrupt_file (s', f') (rw (late, partial) at h))
        | inl full ↦
            let (g, wrote, rest) =
              >>=-eq-ok (write_recovered_page r.page_id r.payload f) _ (rw (late, full) at h) in
            let same : g ≡ f' = cc rest in inr (wrote ∙ ap (λ (k : PageFile). ok k) same)
      ]
    ]

-- Page zero as it is while it holds a count.
abbrev pub superblock : List ℕ → List ℕ → ℕ → List ℕ
superblock front back count = front ++ (store_le 8 count ++ back)
