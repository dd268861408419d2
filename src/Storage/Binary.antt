-- ===== src/Storage/Binary.antt =====
-- src/storage/binary.cpp: `BinaryWriter` and `BinaryReader`.
pub mod Consumes
pub mod Parses
use mo_db.Prelude.{
  ℕ, ◌+◌, ◌-◌, Bool, List, [], ◌∷◌, ◌++◌, ltb, ◌==◌, length, take, drop, get_or, if◌then◌else◌,
}
use mo_db.Error.{Result, ErrorCode, ok, err, unexpected_end_of_input}
use mo_db.Storage.Endian.{store_le, load_le}

-- The writer is its vector `bytes_`.
abbrev pub BinaryWriter : Type 0
BinaryWriter = List ℕ

unfoldable pub write_bytes : BinaryWriter → List ℕ → BinaryWriter
write_bytes w bytes = w ++ bytes

unfoldable pub write_u8 : BinaryWriter → ℕ → BinaryWriter
write_u8 w value = w ++ (value ∷ [])

unfoldable pub write_u16 : BinaryWriter → ℕ → BinaryWriter
unfolding write_bytes
write_u16 w value = write_bytes w (store_le 2 value)

unfoldable pub write_u32 : BinaryWriter → ℕ → BinaryWriter
unfolding write_bytes
write_u32 w value = write_bytes w (store_le 4 value)

unfoldable pub write_u64 : BinaryWriter → ℕ → BinaryWriter
unfolding write_bytes
write_u64 w value = write_bytes w (store_le 8 value)

-- `position_` never passes the size: `read_bytes` alone moves it.
pub record BinaryReader : Type 0 where
  pub bytes : List ℕ
  pub position : ℕ

-- `BinaryReader reader{bytes}`
abbrev pub reader : List ℕ → BinaryReader
reader bytes = record { bytes = bytes; position = 0 }

unfoldable pub remaining : BinaryReader → ℕ
remaining r = length r.bytes - r.position

unfoldable pub remaining_bytes : BinaryReader → List ℕ
remaining_bytes r = drop r.position r.bytes

unfoldable pub at_end : BinaryReader → Bool
at_end r = r.position == length r.bytes

abbrev pub advance : ℕ → BinaryReader → BinaryReader
advance n r = record r { position = r.position + n }

-- A read that may fail; no caller looks at the reader after an error.
abbrev pub Read {ℓ} : Type ℓ → Type ℓ
Read A = BinaryReader → Result (A × BinaryReader)

abbrev pub pure {ℓ} : {A : Type ℓ} → A → Read A
pure a r = ok (a, r)

abbrev pub fail {ℓ} : {A : Type ℓ} → ErrorCode → Read A
fail e r = err e

infixl 5 ◌>>=◌
abbrev pub ◌>>=◌ {ℓ κ} : {A : Type ℓ} {B : Type κ} → Read A → (A → Read B) → Read B
◌>>=◌ m f r = elim (m r) [ ok (a, r') ↦ f a r' | err e ↦ err e ]

unfoldable pub read_bytes : ℕ → Read (List ℕ)
unfolding remaining remaining_bytes
read_bytes size r =
    if ltb (remaining r) size
    then err unexpected_end_of_input
    else ok (take size (remaining_bytes r), advance size r)

unfoldable pub read_u8 : Read ℕ
read_u8 = do span ← read_bytes 1; pure (get_or span 0 0)

unfoldable pub read_u16 : Read ℕ
read_u16 = do span ← read_bytes 2; pure (load_le 2 span)

unfoldable pub read_u32 : Read ℕ
read_u32 = do span ← read_bytes 4; pure (load_le 4 span)

unfoldable pub read_u64 : Read ℕ
read_u64 = do span ← read_bytes 8; pure (load_le 8 span)
