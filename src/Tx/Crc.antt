-- ===== src/Tx/Crc.antt =====
-- `crc32` of src/tx/wal.cpp: eight bytes a round by eight tables, and the rest byte by byte.
pub mod Range
pub mod Serial
use mo_db.Prelude.{
  ℕ, zero, suc, ◌+◌, ◌*◌, ◌/◌, ◌%◌, ◌^◌, List, [], ◌∷◌, ◌==◌, if◌then◌else◌, bit_or, bit_xor,
}

-- One bit of the reflected polynomial.
unfoldable pub crc_bit : ℕ → ℕ
crc_bit value = if value % 2 == 1 then bit_xor 0xEDB88320 (value / 2) else value / 2

unfoldable pub crc_bits : ℕ → ℕ → ℕ
unfolding crc_bit
crc_bits zero value = value
crc_bits (suc n) value = crc_bits n (crc_bit value)

-- `tables[slice][index]`.
unfoldable pub table : ℕ → ℕ → ℕ
unfolding crc_bits
table zero index = crc_bits 8 index
table (suc slice) index =
    let previous = table slice index in bit_xor (previous / 256) (crc_bits 8 (previous % 256))

-- Four bytes as a word, the first lowest.
unfoldable pub word : ℕ → ℕ → ℕ → ℕ → ℕ
word a b c d = bit_or (bit_or (bit_or a (b * 2 ^ 8)) (c * 2 ^ 16)) (d * 2 ^ 24)

-- The round of the loop over eight bytes, from the words `low` and `high`.
unfoldable pub slices : ℕ → ℕ → ℕ
unfolding table
slices low high =
    bit_xor
      (bit_xor
        (bit_xor
          (bit_xor
            (bit_xor
              (bit_xor (bit_xor (table 7 (low % 256)) (table 6 (low / 2 ^ 8 % 256)))
                (table 5 (low / 2 ^ 16 % 256)))
              (table 4 (low / 2 ^ 24)))
            (table 3 (high % 256)))
          (table 2 (high / 2 ^ 8 % 256)))
        (table 1 (high / 2 ^ 16 % 256)))
      (table 0 (high / 2 ^ 24))

-- A round of the second loop.
unfoldable pub crc_byte : ℕ → ℕ → ℕ
unfolding table
crc_byte crc b = bit_xor (table 0 (bit_xor crc b % 256)) (crc / 256)

unfoldable pub crc_tail : ℕ → List ℕ → ℕ
unfolding crc_byte
crc_tail crc [] = crc
crc_tail crc (b ∷ bs) = crc_tail (crc_byte crc b) bs

unfoldable pub crc_loop : ℕ → List ℕ → ℕ
unfolding crc_tail slices word
crc_loop crc (a ∷ b ∷ c ∷ d ∷ e ∷ f ∷ g ∷ h ∷ rest) =
    crc_loop (slices (bit_xor crc (word a b c d)) (word e f g h)) rest
crc_loop crc bs = crc_tail crc bs

unfoldable pub crc32 : List ℕ → ℕ
unfolding crc_loop
crc32 bytes = bit_xor (crc_loop 0xFFFFFFFF bytes) 0xFFFFFFFF
