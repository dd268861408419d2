-- ===== src/Storage/Binary/Parses.antt =====
-- What is known of the input when a read has succeeded: which bytes it took, and what they are.
use mo_db.Prelude.{
  ℕ, ◌≤◌, append_assoc, append-nil, get_or, ◌^◌, ◌<◌, ◌≡◌, refl, sym, ap, ◌∙◌, arith, List, [], ◌∷◌,
  ◌++◌, Bool, if◌then◌else◌, true, false, length, length-drop, length-take, drop, take,
  take-append-drop, drop-drop, All-take, All-drop,
}
use mathlib.Core.Path.{subst}
use mo_db.Error.{Result, ErrorCode, ok, err}
use mo_db.Storage.Endian.{IsByte, IsBytes, IsWord, store_le, load_le}
use mo_db.Storage.Endian.Laws.{store_le-load_le}
use mo_db.Storage.Binary.{
  BinaryReader, remaining, remaining_bytes, advance, Read, pure, fail, ◌>>=◌, read_bytes, read_u8,
  read_u16, read_u32, read_u64,
}

-- The bytes that a successful read took, what is left, and what the bytes are to the result.
pub record Taken {ℓ} {A : Type ℓ} (P : A → List ℕ → Type 0) (r r' : BinaryReader) (v : A)
    : Type 0 where
  pub bytes : List ℕ
  pub split : remaining_bytes r ≡ bytes ++ remaining_bytes r'
  pub rest : IsBytes (remaining_bytes r')
  pub relates : P v bytes

pub record Parses {ℓ} {A : Type ℓ} (m : Read A) (P : A → List ℕ → Type 0) : Type ℓ where
  pub at :
      (r r' : BinaryReader) (v : A)
      → IsBytes (remaining_bytes r)
      → m r ≡ ok (v, r')
      → Taken P r r' v

pub >>=-eq-ok {ℓ κ} :
    {A : Type ℓ} {B : Type κ} (m : Read A) (f : A → Read B) (r : BinaryReader)
    {p : B × BinaryReader}
    → (m >>= f) r ≡ ok p
    → (v : A) × (r' : BinaryReader) × (m r ≡ ok (v, r')) × (f v r' ≡ ok p)
>>=-eq-ok {A} {B} m f r {p} h = split (m r) h
  where
    split :
        (o : Result (A × BinaryReader))
        → (let k : Result (A × BinaryReader) → Result (B × BinaryReader) = elim [
          | ok (a, r') ↦ f a r'
          | err e ↦ err e
        ] in
            k o ≡ ok p)
        → (v : A) × (r' : BinaryReader) × (o ≡ ok (v, r')) × (f v r' ≡ ok p)
    split (ok (v, r')) e = (v, r', refl, e)
    split (err c) e = cc

module _ {ℓ κ} {A : Type ℓ} {B : Type κ} (m : Read A) (f : A → Read B) where
  -- What is known of the first read's bytes is at hand for the second.
  pub Parses-bind :
      (P : A → List ℕ → Type 0) (R : B → List ℕ → Type 0)
      → Parses m P
      → ((v : A) (xs : List ℕ) → P v xs → Parses (f v) (λ u ys. R u (xs ++ ys)))
      → Parses (m >>= f) R
  Parses-bind P R first second = record {
    at = λ r r'' u bs h.
        let (v, r', e, e') = >>=-eq-ok m f r h in
        let front : Taken P r r' v = first.at r r' v bs e in
        let back : Taken (λ w ys. R w (front.bytes ++ ys)) r' r'' u =
          (second v front.bytes front.relates).at r' r'' u front.rest e' in
        record {
          bytes = front.bytes ++ back.bytes;
          split =
              front.split
              ∙ ap (λ (t : List ℕ). front.bytes ++ t) back.split
              ∙ sym (append_assoc front.bytes back.bytes (remaining_bytes r''));
          rest = back.rest;
          relates = back.relates;
        };
  }

module _ {ℓ} {A : Type ℓ} where
  pub Parses-pure : (R : A → List ℕ → Type 0) (v : A) → R v [] → Parses (pure v) R
  Parses-pure R v h = record {
    at = λ r r' u bs e.
        let same : v ≡ u = cc in
        let stays : r ≡ r' = cc in
        record {
          bytes = [];
          split = ap remaining_bytes stays;
          rest = subst (λ q. IsBytes (remaining_bytes q)) stays bs;
          relates = subst (λ w. R w []) same h;
        };
  }

  pub Parses-fail : (R : A → List ℕ → Type 0) (e : ErrorCode) → Parses (fail e) R
  Parses-fail R e = record { at = λ r r' u bs h. cc }

  pub Parses-if :
      (R : A → List ℕ → Type 0) (b : Bool) (m n : Read A)
      → (b ≡ true → Parses m R)
      → (b ≡ false → Parses n R)
      → Parses (if b then m else n) R
  Parses-if R true m n h k = h refl
  Parses-if R false m n h k = k refl

pub Parses-map {ℓ κ} :
    {A : Type ℓ} {B : Type κ} (m : Read A) (g : A → B) (P : A → List ℕ → Type 0)
    (R : B → List ℕ → Type 0)
    → Parses m P
    → ((v : A) (xs : List ℕ) → P v xs → R (g v) xs)
    → Parses (m >>= λ a. pure (g a)) R
Parses-map m g P R p h =
    Parses-bind m (λ a. pure (g a)) P R p λ v xs k. Parses-pure _ (g v) (rw append-nil (h v xs k))

pub Parses-weaken {ℓ} :
    {A : Type ℓ} (m : Read A) (P R : A → List ℕ → Type 0)
    → Parses m P
    → ((v : A) (xs : List ℕ) → P v xs → R v xs)
    → Parses m R
Parses-weaken m P R p h = record {
  at = λ r r' v bs e.
      let t : Taken P r r' v = p.at r r' v bs e in
      record { bytes = t.bytes; split = t.split; rest = t.rest; relates = h v t.bytes t.relates };
}

-- `read_bytes` returns the next `n` bytes, and there were as many.
read_bytes_lem :
    (n : ℕ) (r r' : BinaryReader) (v : List ℕ)
    → read_bytes n r ≡ ok (v, r')
    → (v ≡ take n (remaining_bytes r)) × (r' ≡ advance n r) × (n ≤ remaining r)
unfolding read_bytes
read_bytes_lem n r r' v h = ground arith

pub Parses-read_bytes :
    (n : ℕ) → Parses (read_bytes n) (λ v xs. (v ≡ xs) × (length xs ≡ n) × IsBytes xs)
unfolding remaining remaining_bytes
Parses-read_bytes n = record {
  at = λ r r' v bs h.
      let (taken, moved, room) = read_bytes_lem n r r' v h in
      let behind : drop n (remaining_bytes r) ≡ remaining_bytes r' =
        drop-drop r.position n r.bytes ∙ ap remaining_bytes (sym moved) in
      record {
        bytes = take n (remaining_bytes r);
        split =
            sym (take-append-drop n (remaining_bytes r))
            ∙ ap (λ (t : List ℕ). take n (remaining_bytes r) ++ t) behind;
        rest = subst IsBytes behind (All-drop IsByte n (remaining_bytes r) bs);
        relates = (
          taken,
          omega (arith, length-take n (remaining_bytes r), length-drop r.position r.bytes),
          All-take IsByte n (remaining_bytes r) bs,
        );
      };
}

module _ (w : ℕ) where
  -- The bytes of a word of `w` bytes are those that `store_le` writes for it.
  pub Parses-IsWord :
      Parses
        (read_bytes w >>= λ span. pure (load_le w span))
        (λ v xs. (store_le w v ≡ xs) × IsWord w v)
  Parses-IsWord =
      Parses-bind (read_bytes w) (λ span. pure (load_le w span))
        (λ v xs. (v ≡ xs) × (length xs ≡ w) × IsBytes xs) (λ v xs. (store_le w v ≡ xs) × IsWord w v)
        (Parses-read_bytes w)
        λ v xs (same, size, bs). Parses-pure _ (load_le w v) (
          rw (same, append-nil) (store_le-load_le w xs bs size).0,
          rw same (store_le-load_le w xs bs size).1,
        )

pub Parses-read_u8 : Parses read_u8 (λ v xs. (v ∷ [] ≡ xs) × IsByte v)
unfolding read_u8
Parses-read_u8 =
    Parses-bind (read_bytes 1) (λ span. pure (get_or span 0 0))
      (λ v xs. (v ≡ xs) × (length xs ≡ 1) × IsBytes xs) (λ v xs. (v ∷ [] ≡ xs) × IsByte v)
      (Parses-read_bytes 1)
      λ v xs (same, size, bs). Parses-pure _ (get_or v 0 0) (rw (same, append-nil) (one xs size bs))
  where
    one :
        (xs : List ℕ)
        → length xs ≡ 1
        → IsBytes xs
        → (get_or xs 0 0 ∷ [] ≡ xs) × IsByte (get_or xs 0 0)
    one [] size bs = absurd (omega arith)
    one (x ∷ []) size bs = (refl, bs.0)
    one (x ∷ y ∷ xs) size bs = absurd (omega arith)

pub Parses-read_u16 : Parses read_u16 (λ v xs. (store_le 2 v ≡ xs) × (v < 2 ^ 16))
unfolding read_u16
Parses-read_u16 = Parses-IsWord 2

pub Parses-read_u32 : Parses read_u32 (λ v xs. (store_le 4 v ≡ xs) × (v < 2 ^ 32))
unfolding read_u32
Parses-read_u32 = Parses-IsWord 4

pub Parses-read_u64 : Parses read_u64 (λ v xs. (store_le 8 v ≡ xs) × (v < 2 ^ 64))
unfolding read_u64
Parses-read_u64 = Parses-IsWord 8
