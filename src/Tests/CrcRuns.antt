-- ===== src/Tests/CrcRuns.antt =====
-- The checksum of src/tx/wal.cpp on the standard check input, and at other lengths.
use mo_db.Prelude.{◌≡◌, refl, arith, [], ◌∷◌, bit_xor}
use mo_db.Storage.Endian.{IsBytes}
use mo_db.Tx.Crc.{crc32}
use mo_db.Tx.Crc.Serial.{crc_serial, crc32_lem}

-- "123456789": one round of eight bytes and one byte.
check_value : crc32 (b'1' ∷ b'2' ∷ b'3' ∷ b'4' ∷ b'5' ∷ b'6' ∷ b'7' ∷ b'8' ∷ b'9' ∷ []) ≡ 0xCBF43926
unfolding crc32
check_value = refl

digits-IsBytes : IsBytes (1 ∷ 2 ∷ 3 ∷ 4 ∷ 5 ∷ 6 ∷ 7 ∷ 8 ∷ 9 ∷ [])
digits-IsBytes = ground arith

crc32_lem_example :
    crc32 (1 ∷ 2 ∷ 3 ∷ 4 ∷ 5 ∷ 6 ∷ 7 ∷ 8 ∷ 9 ∷ [])
    ≡ bit_xor (crc_serial 0xFFFFFFFF (1 ∷ 2 ∷ 3 ∷ 4 ∷ 5 ∷ 6 ∷ 7 ∷ 8 ∷ 9 ∷ [])) 0xFFFFFFFF
crc32_lem_example = crc32_lem (1 ∷ 2 ∷ 3 ∷ 4 ∷ 5 ∷ 6 ∷ 7 ∷ 8 ∷ 9 ∷ []) digits-IsBytes
