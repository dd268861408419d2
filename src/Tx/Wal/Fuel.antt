-- ===== src/Tx/Wal/Fuel.antt =====
-- The fuel of the loop that reads the log.
use mo_db.Prelude.{
  ℕ, zero, suc, ◌+◌, ◌≤◌, ◌≡◌, refl, sym, arith, List, [], ◌∷◌, length, drop, take, length-drop,
  ltb, ltb-false→le, Bool-cases, inl, inr,
}
use mo_db.Error.{ok}
use mo_db.Storage.Endian.{load_le}
use mo_db.Tx.Wal.{ReadMode, scan, record_fixed_size, record_crc_size}

scan-empty :
    (fuel : ℕ) (mode : ReadMode) (from_lsn position : ℕ) (rest : List ℕ)
    → length rest ≤ 0
    → scan fuel mode from_lsn position rest ≡ ok []
unfolding scan
scan-empty zero mode from_lsn position rest h = refl
scan-empty (suc fuel) mode from_lsn position [] h = refl
scan-empty (suc fuel) mode from_lsn position (b ∷ rest) h = absurd (omega (arith, h))

-- On any bytes, valid records or not, the loop that reads the log returns the same with any fuel
-- that is at least the number of the bytes: the fuel never stops it.
pub scan-fuel :
    (n m : ℕ) (mode : ReadMode) (from_lsn position : ℕ) (rest : List ℕ)
    → length rest ≤ n
    → length rest ≤ m
    → scan n mode from_lsn position rest ≡ scan m mode from_lsn position rest
unfolding scan
scan-fuel zero m mode from_lsn position rest h k = sym (scan-empty m mode from_lsn position rest h)
scan-fuel (suc n) zero mode from_lsn position rest h k =
    scan-empty (suc n) mode from_lsn position rest k
scan-fuel (suc n) (suc m) mode from_lsn position rest h k =
    let len = load_le 4 (take 4 (drop 25 rest)) in
    let size = record_fixed_size + len + record_crc_size in
    elim (Bool-cases (ltb (length rest) size)) [
      | inl torn ↦ rw torn refl
      | inr whole ↦
          let enough = ltb-false→le (length rest) size whole in
          let less = length-drop size rest in
          rw
            (scan-fuel n m mode from_lsn (position + size) (drop size rest)
              (omega (arith, enough, less, h)) (omega (arith, enough, less, k)))
            refl
    ]
