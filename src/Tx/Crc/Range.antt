-- ===== src/Tx/Crc/Range.antt =====
-- The checksum of bytes is a number of 32 bits.
use mo_db.Prelude.{ℕ, zero, suc, ◌+◌, ◌*◌, ◌/◌, ◌^◌, ◌<◌, ◌≡◌, arith, List, [], ◌∷◌, bit_xor}
use mo_db.Prelude.Bits.{bit_xor-lt, bit_or_disjoint}
use mo_db.Storage.Endian.{IsBytes}
use mo_db.Tx.Crc.{crc_bit, crc_bits, table, word, slices, crc_byte, crc_tail, crc_loop, crc32}

abbrev pub IsU32 : ℕ → Type 0
IsU32 v = v < 2 ^ 32

pub xor_range : (a b : ℕ) → IsU32 a → IsU32 b → IsU32 (bit_xor a b)
xor_range a b h k = bit_xor-lt 32 a b h k

crc_bit_range : (v : ℕ) → IsU32 v → IsU32 (crc_bit v)
unfolding crc_bit
crc_bit_range v h = ground (arith, xor_range 0xEDB88320 (v / 2) (omega arith) (omega arith))

crc_bits_range : (n v : ℕ) → IsU32 v → IsU32 (crc_bits n v)
unfolding crc_bits
crc_bits_range zero v h = h
crc_bits_range (suc n) v h = crc_bits_range n (crc_bit v) (crc_bit_range v h)

table_range : (slice index : ℕ) → IsU32 index → IsU32 (table slice index)
unfolding table
table_range zero index h = crc_bits_range 8 index h
table_range (suc slice) index h =
    xor_range _ _ (omega (arith, table_range slice index h)) (crc_bits_range 8 _ (omega arith))

pub slices_range : (low high : ℕ) → IsU32 low → IsU32 high → IsU32 (slices low high)
unfolding slices
slices_range low high h k =
    xor_range _ _
      (xor_range _ _
        (xor_range _ _
          (xor_range _ _
            (xor_range _ _
              (xor_range _ _
                (xor_range _ _ (table_range 7 _ (omega arith)) (table_range 6 _ (omega arith)))
                (table_range 5 _ (omega arith)))
              (table_range 4 _ (omega arith)))
            (table_range 3 _ (omega arith)))
          (table_range 2 _ (omega arith)))
        (table_range 1 _ (omega arith)))
      (table_range 0 _ (omega arith))

pub word_range :
    (a b c d : ℕ)
    → a < 256
    → b < 256
    → c < 256
    → d < 256
    → word a b c d ≡ a + b * 2 ^ 8 + c * 2 ^ 16 + d * 2 ^ 24
unfolding word
word_range a b c d ha hb hc hd =
    rw (bit_or_disjoint 8 a b ha, bit_or_disjoint 16 (a + b * 2 ^ 8) c (omega arith))
      (bit_or_disjoint 24 (a + b * 2 ^ 8 + c * 2 ^ 16) d (omega arith))

crc_byte_range : (crc b : ℕ) → IsU32 crc → IsU32 (crc_byte crc b)
unfolding crc_byte
crc_byte_range crc b h = xor_range _ _ (table_range 0 _ (omega arith)) (omega arith)

crc_tail_range : (crc : ℕ) (bs : List ℕ) → IsU32 crc → IsU32 (crc_tail crc bs)
unfolding crc_tail
crc_tail_range crc [] h = h
crc_tail_range crc (b ∷ bs) h = crc_tail_range (crc_byte crc b) bs (crc_byte_range crc b h)

crc_loop_range : (crc : ℕ) (bs : List ℕ) → IsU32 crc → IsBytes bs → IsU32 (crc_loop crc bs)
unfolding crc_loop
crc_loop_range crc (a ∷ b ∷ c ∷ d ∷ e ∷ f ∷ g ∷ h ∷ rest) r
      (ha, (hb, (hc, (hd, (he, (hf, (hg, (hh, hr)))))))) =
    crc_loop_range (slices (bit_xor crc (word a b c d)) (word e f g h)) rest
      (slices_range (bit_xor crc (word a b c d)) (word e f g h)
        (xor_range crc (word a b c d) r (omega (arith, word_range a b c d ha hb hc hd)))
        (omega (arith, word_range e f g h he hf hg hh)))
      hr
crc_loop_range crc bs r h = crc_tail_range crc bs r

-- The checksum fits the four bytes that a record stores it in.
pub crc32_range : (bs : List ℕ) → IsBytes bs → IsU32 (crc32 bs)
unfolding crc32
crc32_range bs h = xor_range _ _ (crc_loop_range 0xFFFFFFFF bs (omega arith) h) (omega arith)
