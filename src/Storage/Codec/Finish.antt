-- ===== src/Storage/Codec/Finish.antt =====
-- A decoder of a whole input, from what its body consumes and parses.
use mo_db.Prelude.{
  ℕ, ◌≡◌, sym, ap, ◌∙◌, drop, ◌++◌, arith, List, [], length, drop_all, ==_iff, append-nil, ◌==◌,
  Bool-cases, inl, inr,
}
use mathlib.Core.Path.{subst}
use mo_db.Error.{Result, ok, err}
use mo_db.Storage.Endian.{IsBytes}
use mo_db.Storage.Binary.{BinaryReader, reader, remaining_bytes, advance, Read, pure}
use mo_db.Storage.Binary.Consumes.{Consumes}
use mo_db.Storage.Binary.Parses.{Parses, Taken}
use mo_db.Storage.Codec.{accept, decode_whole}

accept_at_end {ℓ} :
    {A : Type ℓ} (v : A) (r : BinaryReader)
    → r.position ≡ length r.bytes
    → accept (ok (v, r)) ≡ ok v
unfolding accept
accept_at_end v r e = rw ((==_iff r.position (length r.bytes)).1 e)

-- An accepted result was read up to the end of the input.
accept_lem {ℓ} :
    {A : Type ℓ} (o : Result (A × BinaryReader)) (v : A)
    → accept o ≡ ok v
    → (r : BinaryReader) × (o ≡ ok (v, r)) × (remaining_bytes r ≡ [])
unfolding accept remaining_bytes
accept_lem (err e) v h = cc
accept_lem {A} (ok (a, r)) v h = elim (Bool-cases (r.position == length r.bytes)) [
  | inl ends ↦
      let same : a ≡ v = ground arith in
      (r, ap (λ (b : A). pure b r) same, rw ((==_iff _ _).0 ends) (drop_length r.bytes))
  | inr more ↦ ground arith
]
  where
    drop_length : (xs : List ℕ) → drop (length xs) xs ≡ []
    drop_length xs = drop_all (length xs) xs (omega arith)

module _ {ℓ} {A : Type ℓ} (body : Read A) where
  pub decode_whole-Consumes :
      (xs : List ℕ) (v : A) → Consumes body xs v → decode_whole body xs ≡ ok v
  unfolding decode_whole remaining_bytes
  decode_whole-Consumes xs v c =
      rw (c.at (reader xs) [] (sym (append-nil xs)))
        (accept_at_end v (advance (length xs) (reader xs)) (omega arith))

  pub decode_whole-Parses :
      (P : A → List ℕ → Type 0) (bs : List ℕ) (v : A)
      → Parses body P
      → IsBytes bs
      → decode_whole body bs ≡ ok v
      → P v bs
  unfolding decode_whole remaining_bytes
  decode_whole-Parses P bs v p h e =
      let (r, returned, ended) = accept_lem (body (reader bs)) v e in
      let t : Taken P (reader bs) r v = p.at (reader bs) r v h returned in
      let whole : bs ≡ t.bytes =
        t.split ∙ ap (λ (ys : List ℕ). t.bytes ++ ys) ended ∙ append-nil t.bytes in
      subst (P v) (sym whole) t.relates
