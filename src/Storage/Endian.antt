-- ===== src/Storage/Endian.antt =====
-- include/modb/storage/endian.hpp: `store_le` and `load_le` for an unsigned type of `w` bytes.
-- A byte is a number below 256 and a span of bytes is a list of them.
pub mod Laws
use mo_db.Prelude.{ℕ, zero, suc, ◌+◌, ◌*◌, ◌/◌, ◌%◌, ◌^◌, ◌<◌, List, [], ◌∷◌, bit_or, All, take}

abbrev pub IsByte : ℕ → Type 0
IsByte b = b < 256

abbrev pub IsBytes : List ℕ → Type 0
IsBytes = All IsByte

-- The range of an unsigned integer of `w` bytes.
abbrev pub IsWord : ℕ → ℕ → Type 0
IsWord w v = v < 2 ^ (8 * w)

-- The bytes that the loop writes: `value & 0xff`, then `value >>= 8`.
unfoldable pub store_le : ℕ → ℕ → List ℕ
store_le zero value = []
store_le (suc n) value = (value % 256) ∷ store_le n (value / 256)

-- The loop from `index` on, with the bytes not read yet: `value |= T(byte) << (index * 8)`, cut to
-- `w` bytes.
unfoldable pub load_le_loop : ℕ → ℕ → ℕ → List ℕ → ℕ
load_le_loop w index value [] = value
load_le_loop w index value (b ∷ bs) =
    load_le_loop w (index + 1) (bit_or value (b * 2 ^ (8 * index) % 2 ^ (8 * w))) bs

-- `source[0]` to `source[w - 1]`.
unfoldable pub load_le : ℕ → List ℕ → ℕ
load_le w source = load_le_loop w 0 0 (take w source)
