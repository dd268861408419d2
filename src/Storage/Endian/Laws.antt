-- ===== src/Storage/Endian/Laws.antt =====
-- Little-endian words: both round trips of `store_le` and `load_le`.
use mo_db.Prelude.{
  ℕ, zero, suc, ◌+◌, ◌*◌, ◌/◌, ◌%◌, ◌^◌, ◌<◌, ◌≤◌, ◌≡◌, refl, ap, ap₂, ◌∙◌, arith, List, [], ◌∷◌,
  length, bit_or, take_all,
}
use mo_db.Prelude.Bits.{bit_or_disjoint}
use mo_db.Storage.Endian.{IsBytes, IsWord, store_le, load_le_loop, load_le}
use native.Mathlib.Nat.{mod-eq_of_lt, pow-le-pow_right}
use native.Mathlib.Numerals.{towards_suc}

-- The value of a list of bytes, lowest first.
unfoldable pub value_le : List ℕ → ℕ
value_le [] = 0
value_le (b ∷ bs) = b + 256 * value_le bs

word_grows : (w : ℕ) → 2 ^ (8 * suc w) ≡ 256 * 2 ^ (8 * w)
word_grows w = let e : 8 * suc w ≡ 8 * w + 8 = omega arith in rw e (simp towards_suc (omega arith))

pub length-store_le : (n v : ℕ) → length (store_le n v) ≡ n
unfolding store_le
length-store_le zero v = refl
length-store_le (suc n) v = ap suc (length-store_le n (v / 256))

pub store_le-IsBytes : (n v : ℕ) → IsBytes (store_le n v)
unfolding store_le
store_le-IsBytes zero v = tt
store_le-IsBytes (suc n) v = (omega arith, store_le-IsBytes n (v / 256))

value_le-store_le : (n v : ℕ) → IsWord n v → value_le (store_le n v) ≡ v
unfolding store_le value_le
value_le-store_le zero v h = omega arith
value_le-store_le (suc n) v h =
    omega (arith, value_le-store_le n (v / 256) (omega (arith, word_grows n)))

store_le-value_le : (bs : List ℕ) → IsBytes bs → store_le (length bs) (value_le bs) ≡ bs
unfolding store_le value_le
store_le-value_le [] h = refl
store_le-value_le (b ∷ bs) (hb, hbs) =
    ap₂ ◌∷◌ (omega arith) (ap (store_le (length bs)) rest ∙ store_le-value_le bs hbs)
  where
    rest : (b + 256 * value_le bs) / 256 ≡ value_le bs
    rest = omega arith

pub value_le-lt : (bs : List ℕ) → IsBytes bs → IsWord (length bs) (value_le bs)
unfolding value_le
value_le-lt [] h = omega arith
value_le-lt (b ∷ bs) (hb, hbs) = omega (arith, value_le-lt bs hbs, word_grows (length bs))

-- No byte is cut and no two bytes meet: each round adds its byte at its place.
load_le_loop-value_le :
    (w index value : ℕ) (bs : List ℕ)
    → IsBytes bs
    → value < 2 ^ (8 * index)
    → index + length bs ≤ w
    → load_le_loop w index value bs ≡ value + value_le bs * 2 ^ (8 * index)
unfolding load_le_loop value_le
load_le_loop-value_le w index value [] h hv hw = omega arith
load_le_loop-value_le w index value (b ∷ bs) (hb, hbs) hv hw = rw step (
    load_le_loop-value_le w (index + 1) (value + b * 2 ^ (8 * index)) bs hbs small (omega arith)
    ∙ regroup)
  where
    grows : 2 ^ (8 * (index + 1)) ≡ 256 * 2 ^ (8 * index)
    grows = let e : index + 1 ≡ suc index = omega arith in rw e (word_grows index)

    scaled : b * 2 ^ (8 * index) + 2 ^ (8 * index) ≤ 256 * 2 ^ (8 * index)
    scaled = grind arith

    fits : b * 2 ^ (8 * index) < 2 ^ (8 * w)
    fits = omega (
      arith,
      scaled,
      grows,
      hv,
      pow-le-pow_right {n = 2} (omega arith) {i = 8 * (index + 1)} {j = 8 * w} (omega arith),
    )

    step : bit_or value (b * 2 ^ (8 * index) % 2 ^ (8 * w)) ≡ value + b * 2 ^ (8 * index)
    step = rw (mod-eq_of_lt fits) (bit_or_disjoint (8 * index) value b hv)

    small : value + b * 2 ^ (8 * index) < 2 ^ (8 * (index + 1))
    small = omega (arith, scaled, grows, hv)

    regroup :
        value + b * 2 ^ (8 * index) + value_le bs * 2 ^ (8 * (index + 1))
        ≡ value + (b + 256 * value_le bs) * 2 ^ (8 * index)
    regroup = rw grows (omega arith)

pub load_le-value_le :
    (w : ℕ) (bs : List ℕ) → IsBytes bs → length bs ≡ w → load_le w bs ≡ value_le bs
unfolding load_le
load_le-value_le w bs h e =
    rw (take_all w bs (omega arith))
      (load_le_loop-value_le w 0 0 bs h (omega arith) (omega arith) ∙ omega arith)

-- Loading what was stored gives the number back, at every width and for every value of the type.
pub load_le-store_le : (w v : ℕ) → IsWord w v → load_le w (store_le w v) ≡ v
load_le-store_le w v h =
    load_le-value_le w (store_le w v) (store_le-IsBytes w v) (length-store_le w v)
    ∙ value_le-store_le w v h

-- Storing what was loaded from the bytes of a word gives the bytes back, and a number of the type.
pub store_le-load_le :
    (w : ℕ) (bs : List ℕ)
    → IsBytes bs
    → length bs ≡ w
    → (store_le w (load_le w bs) ≡ bs) × IsWord w (load_le w bs)
store_le-load_le w bs h e =
    rw (load_le-value_le w bs h e) (rw (← e) (store_le-value_le bs h), rw (← e) (value_le-lt bs h))
