-- ===== src/Storage/SlottedPage/Bytes.antt =====
-- What a write to a page changes: the bytes that it covers, and no other.
use mo_db.Prelude.{
  ℕ, zero, suc, ◌+◌, ◌^◌, ◌≤◌, ◌<◌, ◌≡◌, ◌⊎◌, inl, inr, refl, ap, ap₂, ◌∙◌, arith, List, [], ◌∷◌,
  length, ◌==◌, ==_refl, ==_ne, Bool-cases,
}
use mo_db.Storage.Endian.{IsBytes, IsByte, store_le, load_le}
use mo_db.Storage.Endian.Laws.{
  length-store_le, load_le-store_le, store_le-IsBytes, store_le-load_le,
}
use mo_db.Storage.SlottedPage.{Page, subspan, copy, write_u16, read_u16}

-- The offset lies outside of the range.
abbrev pub IsOutside : ℕ → ℕ → ℕ → Type 0
IsOutside i offset n = (i < offset) ⊎ (offset + n ≤ i)

pub copy-outside :
    (bs : List ℕ) (offset : ℕ) (page : Page) (i : ℕ)
    → IsOutside i offset (length bs)
    → copy bs offset page i ≡ page i
unfolding copy
copy-outside [] offset page i h = refl
copy-outside (b ∷ bs) offset page i (inl h) =
    rw (==_ne i offset (λ e. omega (arith, e)))
      (copy-outside bs (offset + 1) page i (inl (omega arith)))
copy-outside (b ∷ bs) offset page i (inr h) =
    rw (==_ne i offset (λ e. omega (arith, e)))
      (copy-outside bs (offset + 1) page i (inr (omega arith)))

pub subspan-cong :
    (p q : Page) (offset n : ℕ)
    → ((i : ℕ) → offset ≤ i → i < offset + n → p i ≡ q i)
    → subspan p offset n ≡ subspan q offset n
unfolding subspan
subspan-cong p q offset zero h = refl
subspan-cong p q offset (suc n) h =
    ap₂ ◌∷◌ (h offset (omega arith) (omega arith))
      (subspan-cong p q (offset + 1) n (λ i a b. h i (omega arith) (omega arith)))

pub length-subspan : (p : Page) (offset n : ℕ) → length (subspan p offset n) ≡ n
unfolding subspan
length-subspan p offset zero = refl
length-subspan p offset (suc n) = omega (arith, length-subspan p (offset + 1) n)

pub subspan-copy :
    (bs : List ℕ) (offset : ℕ) (page : Page) → subspan (copy bs offset page) offset (length bs) ≡ bs
unfolding subspan copy
subspan-copy [] offset page = refl
subspan-copy (b ∷ bs) offset page = rw (==_refl offset) (
    ap (λ (t : List ℕ). b ∷ t)
      (subspan-cong (copy (b ∷ bs) offset page) (copy bs (offset + 1) page) (offset + 1) (length bs)
          (λ i a c. rw (==_ne i offset (λ e. omega (arith, e))) refl)
        ∙ subspan-copy bs (offset + 1) page))

-- Pages of bytes.
pub record IsBytePage (p : Page) : Type 0 where
  pub at : (i : ℕ) → IsByte (p i)

pub subspan-IsBytes : (p : Page) (offset n : ℕ) → IsBytePage p → IsBytes (subspan p offset n)
unfolding subspan
subspan-IsBytes p offset zero h = tt
subspan-IsBytes p offset (suc n) h = (h.at offset, subspan-IsBytes p (offset + 1) n h)

copy-at :
    (bs : List ℕ) (offset : ℕ) (page : Page) (i : ℕ)
    → IsBytes bs
    → IsBytePage page
    → IsByte (copy bs offset page i)
unfolding copy
copy-at [] offset page i h k = k.at i
copy-at (b ∷ bs) offset page i (hb, hbs) k = elim (Bool-cases (i == offset)) [
  | inl here ↦ rw here hb
  | inr other ↦ rw other (copy-at bs (offset + 1) page i hbs k)
]

pub copy-IsBytePage :
    (bs : List ℕ) (offset : ℕ) (page : Page)
    → IsBytes bs
    → IsBytePage page
    → IsBytePage (copy bs offset page)
copy-IsBytePage bs offset page h k = record { at = λ i. copy-at bs offset page i h k }

pub read_u16-cong :
    (p q : Page) (offset : ℕ)
    → ((i : ℕ) → offset ≤ i → i < offset + 2 → p i ≡ q i)
    → read_u16 p offset ≡ read_u16 q offset
unfolding read_u16
read_u16-cong p q offset h = ap (load_le 2) (subspan-cong p q offset 2 h)

pub read_u16-lt : (p : Page) (offset : ℕ) → IsBytePage p → read_u16 p offset < 2 ^ 16
unfolding read_u16
read_u16-lt p offset h =
    (store_le-load_le 2 (subspan p offset 2) (subspan-IsBytes p offset 2 h)
      (length-subspan p offset 2)).1

pub write_u16-outside :
    (offset value : ℕ) (p : Page) (i : ℕ) → IsOutside i offset 2 → write_u16 offset value p i ≡ p i
unfolding write_u16
write_u16-outside offset value p i h =
    copy-outside (store_le 2 value) offset p i (rw (length-store_le 2 value) h)

pub read_u16-write_u16 :
    (offset value : ℕ) (p : Page)
    → value < 2 ^ 16
    → read_u16 (write_u16 offset value p) offset ≡ value
unfolding read_u16 write_u16 store_le
read_u16-write_u16 offset value p h =
    ap (load_le 2) (subspan-copy (store_le 2 value) offset p) ∙ load_le-store_le 2 value h

pub write_u16-IsBytePage :
    (offset value : ℕ) (p : Page) → IsBytePage p → IsBytePage (write_u16 offset value p)
unfolding write_u16
write_u16-IsBytePage offset value p h =
    copy-IsBytePage (store_le 2 value) offset p (store_le-IsBytes 2 value) h

-- A word that lies apart from the one written is as it was.
pub read_u16-apart :
    (offset value x : ℕ) (p : Page)
    → (x + 2 ≤ offset) ⊎ (offset + 2 ≤ x)
    → read_u16 (write_u16 offset value p) x ≡ read_u16 p x
read_u16-apart offset value x p (inl h) =
    read_u16-cong (write_u16 offset value p) p x
      (λ i a b. write_u16-outside offset value p i (inl (omega arith)))
read_u16-apart offset value x p (inr h) =
    read_u16-cong (write_u16 offset value p) p x
      (λ i a b. write_u16-outside offset value p i (inr (omega arith)))
