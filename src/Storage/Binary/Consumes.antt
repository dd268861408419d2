-- ===== src/Storage/Binary/Consumes.antt =====
-- What a read does where the input begins with an encoding: it returns the encoded value and stops
-- right behind it, whatever follows.
use mo_db.Prelude.{
  ℕ, ◌+◌, ◌^◌, ◌≤◌, ◌<◌, ◌≡◌, refl, sym, ap, ◌∙◌, arith, List, [], ◌∷◌, ◌++◌, ltb-false, length,
  length-append, length-drop, take, get_or, take-length-append, drop-length-append, drop-drop,
  append_assoc,
}
use mo_db.Error.{ok}
use mo_db.Storage.Endian.{IsWord, store_le, load_le}
use mo_db.Storage.Endian.Laws.{length-store_le, load_le-store_le}
use mo_db.Storage.Binary.{
  BinaryReader, remaining, remaining_bytes, advance, Read, pure, ◌>>=◌, read_bytes, read_u8,
  read_u16, read_u32, read_u64,
}

pub record Consumes {ℓ} {A : Type ℓ} (m : Read A) (xs : List ℕ) (v : A) : Type ℓ where
  pub at :
      (r : BinaryReader) (rest : List ℕ)
      → remaining_bytes r ≡ xs ++ rest
      → m r ≡ ok (v, advance (length xs) r)

pub remaining_bytes-advance :
    (xs rest : List ℕ) (r : BinaryReader)
    → remaining_bytes r ≡ xs ++ rest
    → remaining_bytes (advance (length xs) r) ≡ rest
unfolding remaining_bytes
remaining_bytes-advance xs rest r e = rw (← drop-drop, e) (drop-length-append xs rest)

pub advance-advance :
    (n m k : ℕ) (r : BinaryReader) → n + m ≡ k → advance m (advance n r) ≡ advance k r
advance-advance n m k r e = ap (λ (p : ℕ). record { bytes = r.bytes; position = p }) (omega arith)

module _ {ℓ κ} {A : Type ℓ} {B : Type κ} where
  -- Two reads in a row consume two encodings in a row.
  pub Consumes-bind :
      (m : Read A) (f : A → Read B) (xs ys : List ℕ) (v : A) (u : B)
      → Consumes m xs v
      → Consumes (f v) ys u
      → Consumes (m >>= f) (xs ++ ys) u
  Consumes-bind m f xs ys v u c d = record {
    at = λ r rest e.
        let e' : remaining_bytes r ≡ xs ++ (ys ++ rest) = e ∙ append_assoc xs ys rest in
        rw (c.at r (ys ++ rest) e', ◌>>=◌)
          (d.at (advance (length xs) r) rest (remaining_bytes-advance xs (ys ++ rest) r e')
            ∙ ap (λ (q : BinaryReader). ok (u, q))
                (advance-advance (length xs) (length ys) (length (xs ++ ys)) r
                  (sym (length-append xs ys))));
  }

pub Consumes-pure {ℓ} : {A : Type ℓ} (v : A) → Consumes (pure v) [] v
Consumes-pure v = record {
  at = λ r rest e. ap (λ (p : ℕ). pure v (record { bytes = r.bytes; position = p })) (omega arith);
}

-- A read that only computes with what it has read.
pub Consumes-map {ℓ κ} :
    {A : Type ℓ} {B : Type κ} (m : Read A) (g : A → B) (xs : List ℕ) (v : A) (u : B)
    → Consumes m xs v
    → g v ≡ u
    → Consumes (m >>= λ a. pure (g a)) xs u
Consumes-map {B} m g xs v u c e = record {
  at = λ r rest h. rw (c.at r rest h, ◌>>=◌) (ap (λ (b : B). pure b (advance (length xs) r)) e);
}

pub Consumes-read_bytes : (xs : List ℕ) → Consumes (read_bytes (length xs)) xs xs
unfolding read_bytes
Consumes-read_bytes xs = record {
  at = λ r rest e. rw (ltb-false (remaining r) (length xs) (enough r rest e)) (
      ap (λ (ys : List ℕ). pure ys (advance (length xs) r))
        (ap (take (length xs)) e ∙ take-length-append xs rest));
}
  where
    enough :
        (r : BinaryReader) (rest : List ℕ)
        → remaining_bytes r ≡ xs ++ rest
        → length xs ≤ remaining r
    enough r rest e =
        omega (arith, sym (length-drop r.position r.bytes), ap length e, length-append xs rest)

module _ (w : ℕ) (v : ℕ) (h : IsWord w v) where
  -- `read_u16`, `read_u32` and `read_u64` are this read at 2, 4 and 8 bytes.
  pub Consumes-word : Consumes (read_bytes w >>= λ span. pure (load_le w span)) (store_le w v) v
  Consumes-word =
      Consumes-map (read_bytes w) (load_le w) (store_le w v) (store_le w v) v
        (rw (length-store_le w v) at (Consumes-read_bytes (store_le w v))) (load_le-store_le w v h)

pub Consumes-read_u8 : (v : ℕ) → Consumes read_u8 (v ∷ []) v
unfolding read_u8
Consumes-read_u8 v =
    Consumes-map (read_bytes 1) (λ span. get_or span 0 0) (v ∷ []) (v ∷ []) v
      (Consumes-read_bytes (v ∷ [])) refl

pub Consumes-read_u16 : (v : ℕ) → v < 2 ^ 16 → Consumes read_u16 (store_le 2 v) v
unfolding read_u16
Consumes-read_u16 v h = Consumes-word 2 v h

pub Consumes-read_u32 : (v : ℕ) → v < 2 ^ 32 → Consumes read_u32 (store_le 4 v) v
unfolding read_u32
Consumes-read_u32 v h = Consumes-word 4 v h

pub Consumes-read_u64 : (v : ℕ) → v < 2 ^ 64 → Consumes read_u64 (store_le 8 v) v
unfolding read_u64
Consumes-read_u64 v h = Consumes-word 8 v h
