-- ===== src/Tx/Crc/Serial.antt =====
-- `crc32` computes the checksum that is defined bit by bit.
use mo_db.Prelude.{
  ℕ, zero, suc, ◌+◌, ◌*◌, ◌/◌, ◌%◌, ◌^◌, ◌<◌, ◌≡◌, refl, sym, ap, ap₂, ◌∙◌, arith, Bool-cases, inl,
  inr, ◌==◌, List, [], ◌∷◌, length, bit_or, bit_xor, if◌then◌else◌,
}
use mo_db.Prelude.Bits.{bit_or_disjoint}
use mo_db.Prelude.Xor.{
  bit_cases, bit_xor_disjoint, bit_xor-byte, bit_xor-half, bit_xor-bit, bit_xor_comm, bit_xor_assoc,
  bit_xor_zero, zero_bit_xor, bit_xor_swap,
}
use mo_db.Storage.Endian.{IsBytes}
use mo_db.Storage.Endian.Laws.{value_le}
use mo_db.Tx.Crc.{crc_bit, crc_bits, table, word, slices, crc_byte, crc_tail, crc_loop, crc32}
use mo_db.Tx.Crc.Range.{IsU32, xor_range, slices_range, word_range}
use native.Mathlib.Nat.{pow-suc}

-- Bytes that enter one after the other, eight bits each, without a table.
unfoldable pub crc_serial : ℕ → List ℕ → ℕ
unfolding crc_bits
crc_serial crc [] = crc
crc_serial crc (b ∷ bs) = crc_serial (crc_bits 8 (bit_xor crc b)) bs

-- The polynomial, if the lowest bit is set.
polynomial : ℕ → ℕ
polynomial bit = if bit == 1 then 0xEDB88320 else 0

crc_bit-polynomial : (v : ℕ) → crc_bit v ≡ bit_xor (polynomial (v % 2)) (v / 2)
unfolding crc_bit polynomial
crc_bit-polynomial v = elim (Bool-cases (v % 2 == 1)) [
  | inl odd ↦ rw odd refl
  | inr even ↦ rw even (sym (zero_bit_xor (v / 2)))
]

polynomial-bit :
    (a b : ℕ) → polynomial (bit_xor a b % 2) ≡ bit_xor (polynomial (a % 2)) (polynomial (b % 2))
unfolding polynomial
polynomial-bit a b = rw (bit_xor-bit a b) (elim (bit_cases (a % 2) (omega arith)) [
  | inl e ↦ elim (bit_cases (b % 2) (omega arith)) [
    | inl f ↦ rw (e, f) refl
    | inr f ↦ rw (e, f) refl
  ]
  | inr e ↦ elim (bit_cases (b % 2) (omega arith)) [
    | inl f ↦ rw (e, f) refl
    | inr f ↦ rw (e, f) refl
  ]
])

crc_bit-bit_xor : (a b : ℕ) → crc_bit (bit_xor a b) ≡ bit_xor (crc_bit a) (crc_bit b)
crc_bit-bit_xor a b =
    crc_bit-polynomial (bit_xor a b)
    ∙ ap₂ bit_xor (polynomial-bit a b) (bit_xor-half a b)
    ∙ bit_xor_swap (polynomial (a % 2)) (polynomial (b % 2)) (a / 2) (b / 2)
    ∙ sym (ap₂ bit_xor (crc_bit-polynomial a) (crc_bit-polynomial b))

-- The bits of the checksum are linear.
crc_bits-bit_xor : (n a b : ℕ) → crc_bits n (bit_xor a b) ≡ bit_xor (crc_bits n a) (crc_bits n b)
unfolding crc_bits
crc_bits-bit_xor zero a b = refl
crc_bits-bit_xor (suc n) a b =
    ap (crc_bits n) (crc_bit-bit_xor a b) ∙ crc_bits-bit_xor n (crc_bit a) (crc_bit b)

crc_bit_even : (v : ℕ) → crc_bit (v * 2) ≡ v
unfolding crc_bit
crc_bit_even v =
    let e : v * 2 % 2 ≡ 0 = omega arith in let f : v * 2 / 2 ≡ v = omega arith in rw e f

crc_bits_shifted : (n v : ℕ) → crc_bits n (v * 2 ^ n) ≡ v
unfolding crc_bits
crc_bits_shifted zero v = omega arith
crc_bits_shifted (suc n) v =
    let e : v * 2 ^ suc n ≡ v * 2 ^ n * 2 = omega (arith, ap (λ (t : ℕ). v * t) (pow-suc 2 n)) in
    ap (crc_bits n) (ap crc_bit e ∙ crc_bit_even (v * 2 ^ n)) ∙ crc_bits_shifted n v

crc_bits_add : (m n v : ℕ) → crc_bits (m + n) v ≡ crc_bits n (crc_bits m v)
unfolding crc_bits
crc_bits_add zero n v = let e : 0 + n ≡ n = omega arith in rw e refl
crc_bits_add (suc m) n v =
    let e : suc m + n ≡ suc (m + n) = omega arith in rw e (crc_bits_add m n (crc_bit v))

-- The lowest byte enters, and the rest moves down.
crc_bits_byte : (v : ℕ) → crc_bits 8 v ≡ bit_xor (crc_bits 8 (v % 256)) (v / 256)
crc_bits_byte v =
    let e : v ≡ bit_xor (v % 256) (v / 256 * 2 ^ 8) =
      omega (arith, bit_xor_disjoint 8 (v % 256) (v / 256) (omega arith)) in
    ap (crc_bits 8) e
    ∙ crc_bits-bit_xor 8 (v % 256) (v / 256 * 2 ^ 8)
    ∙ ap (bit_xor (crc_bits 8 (v % 256))) (crc_bits_shifted 8 (v / 256))

table_lem : (slice index : ℕ) → table slice index ≡ crc_bits (8 * suc slice) index
unfolding table
table_lem zero index = refl
table_lem (suc slice) index =
    let previous = table slice index in
    let e : 8 * suc slice + 8 ≡ 8 * suc (suc slice) = omega arith in
    bit_xor_comm (previous / 256) (crc_bits 8 (previous % 256))
    ∙ sym (crc_bits_byte previous)
    ∙ ap (crc_bits 8) (table_lem slice index)
    ∙ sym (crc_bits_add (8 * suc slice) 8 index)
    ∙ ap (λ (n : ℕ). crc_bits n index) e

-- One of the eight tables takes a byte, the others the rest.
crc_bits-table :
    (n v : ℕ) → crc_bits (8 * suc n) v ≡ bit_xor (table n (v % 256)) (crc_bits (8 * n) (v / 256))
crc_bits-table n v =
    let e : 8 * suc n ≡ 8 + 8 * n = omega arith in
    ap (λ (m : ℕ). crc_bits m v) e
    ∙ crc_bits_add 8 (8 * n) v
    ∙ ap (crc_bits (8 * n)) (crc_bits_byte v)
    ∙ crc_bits-bit_xor (8 * n) (crc_bits 8 (v % 256)) (v / 256)
    ∙ ap (λ (t : ℕ). bit_xor t (crc_bits (8 * n) (v / 256)))
        (sym (crc_bits_add 8 (8 * n) (v % 256))
          ∙ ap (λ (m : ℕ). crc_bits m (v % 256)) (sym e)
          ∙ sym (table_lem n (v % 256)))

-- All the bytes enter at once.
crc_serial-value_le :
    (crc : ℕ) (bs : List ℕ)
    → IsBytes bs
    → crc_serial crc bs ≡ crc_bits (8 * length bs) (bit_xor crc (value_le bs))
unfolding crc_serial value_le
crc_serial-value_le crc [] h = sym (bit_xor_zero crc)
crc_serial-value_le crc (b ∷ bs) (hb, hbs) =
    let n = 8 * length bs in
    let v = value_le bs in
    let e : 8 + n ≡ 8 * suc (length bs) = omega arith in
    let f : bit_xor b (v * 2 ^ 8) ≡ b + 256 * v = omega (arith, bit_xor_disjoint 8 b v hb) in
    crc_serial-value_le (crc_bits 8 (bit_xor crc b)) bs hbs
    ∙ ap (crc_bits n) (
        ap (bit_xor (crc_bits 8 (bit_xor crc b))) (sym (crc_bits_shifted 8 v))
        ∙ sym (crc_bits-bit_xor 8 (bit_xor crc b) (v * 2 ^ 8))
        ∙ ap (crc_bits 8) (bit_xor_assoc crc b (v * 2 ^ 8) ∙ ap (bit_xor crc) f))
    ∙ sym (crc_bits_add 8 n (bit_xor crc (b + 256 * v)))
    ∙ ap (λ (m : ℕ). crc_bits m (bit_xor crc (b + 256 * v))) e

crc_byte_lem : (crc b : ℕ) → b < 256 → crc_byte crc b ≡ crc_bits 8 (bit_xor crc b)
unfolding crc_byte table
crc_byte_lem crc b h =
    ap (bit_xor (crc_bits 8 (bit_xor crc b % 256))) (sym (bit_xor-byte crc b h))
    ∙ sym (crc_bits_byte (bit_xor crc b))

crc_tail-crc_serial : (crc : ℕ) (bs : List ℕ) → IsBytes bs → crc_tail crc bs ≡ crc_serial crc bs
unfolding crc_tail crc_serial
crc_tail-crc_serial crc [] h = refl
crc_tail-crc_serial crc (b ∷ bs) (hb, hbs) =
    ap (λ (t : ℕ). crc_tail t bs) (crc_byte_lem crc b hb)
    ∙ crc_tail-crc_serial (crc_bits 8 (bit_xor crc b)) bs hbs

-- A byte of what is left goes to its table.
take_byte :
    (n x byte next : ℕ)
    → x % 256 ≡ byte
    → x / 256 ≡ next
    → crc_bits (8 * suc n) x ≡ bit_xor (table n byte) (crc_bits (8 * n) next)
take_byte n x byte next e f =
    crc_bits-table n x ∙ ap₂ (λ (s t : ℕ). bit_xor (table n s) (crc_bits (8 * n) t)) e f

next_byte :
    (n x byte next sum : ℕ)
    → x % 256 ≡ byte
    → x / 256 ≡ next
    → bit_xor sum (crc_bits (8 * suc n) x)
      ≡ bit_xor (bit_xor sum (table n byte)) (crc_bits (8 * n) next)
next_byte n x byte next sum e f =
    ap (bit_xor sum) (take_byte n x byte next e f)
    ∙ sym (bit_xor_assoc sum (table n byte) (crc_bits (8 * n) next))

-- The eight tables together take eight bytes.
slices_lem :
    (low high : ℕ) → IsU32 low → IsU32 high → slices low high ≡ crc_bits 64 (low + high * 2 ^ 32)
unfolding slices
slices_lem low high h k =
    let s7 = table 7 (low % 256) in
    let s6 = bit_xor s7 (table 6 (low / 2 ^ 8 % 256)) in
    let s5 = bit_xor s6 (table 5 (low / 2 ^ 16 % 256)) in
    let s4 = bit_xor s5 (table 4 (low / 2 ^ 24)) in
    let s3 = bit_xor s4 (table 3 (high % 256)) in
    let s2 = bit_xor s3 (table 2 (high / 2 ^ 8 % 256)) in
    let s1 = bit_xor s2 (table 1 (high / 2 ^ 16 % 256)) in
    let v1 = low / 2 ^ 8 + high * 2 ^ 24 in
    let v2 = low / 2 ^ 16 + high * 2 ^ 16 in
    let v3 = low / 2 ^ 24 + high * 2 ^ 8 in
    sym (
      take_byte 7 (low + high * 2 ^ 32) (low % 256) v1 (omega arith) (omega arith)
      ∙ next_byte 6 v1 (low / 2 ^ 8 % 256) v2 s7 (omega arith) (omega arith)
      ∙ next_byte 5 v2 (low / 2 ^ 16 % 256) v3 s6 (omega arith) (omega arith)
      ∙ next_byte 4 v3 (low / 2 ^ 24) high s5 (omega arith) (omega arith)
      ∙ next_byte 3 high (high % 256) (high / 2 ^ 8) s4 refl refl
      ∙ next_byte 2 (high / 2 ^ 8) (high / 2 ^ 8 % 256) (high / 2 ^ 16) s3 refl (omega arith)
      ∙ next_byte 1 (high / 2 ^ 16) (high / 2 ^ 16 % 256) (high / 2 ^ 24) s2 refl (omega arith)
      ∙ ap (bit_xor s1) (sym (table_lem 0 (high / 2 ^ 24))))

word_lem :
    (a b c d : ℕ)
    → a < 256
    → b < 256
    → c < 256
    → word a b c d ≡ a + b * 2 ^ 8 + c * 2 ^ 16 + d * 2 ^ 24
unfolding word
word_lem a b c d ha hb hc =
    ap (λ (t : ℕ). bit_or (bit_or t (c * 2 ^ 16)) (d * 2 ^ 24)) (bit_or_disjoint 8 a b ha)
    ∙ ap (λ (t : ℕ). bit_or t (d * 2 ^ 24)) (bit_or_disjoint 16 (a + b * 2 ^ 8) c (omega arith))
    ∙ bit_or_disjoint 24 (a + b * 2 ^ 8 + c * 2 ^ 16) d (omega arith)

-- A round of the loop is eight bytes in a row.
round_lem :
    (crc a b c d e f g h : ℕ)
    → IsU32 crc
    → IsBytes (a ∷ b ∷ c ∷ d ∷ e ∷ f ∷ g ∷ h ∷ [])
    → slices (bit_xor crc (word a b c d)) (word e f g h)
      ≡ crc_serial crc (a ∷ b ∷ c ∷ d ∷ e ∷ f ∷ g ∷ h ∷ [])
unfolding value_le
round_lem crc a b c d e f g h small (ha, (hb, (hc, (hd, (he, (hf, (hg, (hh, _)))))))) =
    let low = word a b c d in
    let high = word e f g h in
    let is_low : low ≡ a + b * 2 ^ 8 + c * 2 ^ 16 + d * 2 ^ 24 = word_lem a b c d ha hb hc in
    let is_high : high ≡ e + f * 2 ^ 8 + g * 2 ^ 16 + h * 2 ^ 24 = word_lem e f g h he hf hg in
    let low_small : IsU32 low = omega (arith, is_low) in
    let high_small : IsU32 high = omega (arith, is_high) in
    let crc_small : IsU32 (bit_xor crc low) = xor_range crc low small low_small in
    slices_lem (bit_xor crc low) high crc_small high_small
    ∙ ap (crc_bits 64) (
        sym (bit_xor_disjoint 32 (bit_xor crc low) high crc_small)
        ∙ bit_xor_assoc crc low (high * 2 ^ 32)
        ∙ ap (bit_xor crc)
            (bit_xor_disjoint 32 low high low_small ∙ omega (arith, is_low, is_high)))
    ∙ sym (
        crc_serial-value_le crc (a ∷ b ∷ c ∷ d ∷ e ∷ f ∷ g ∷ h ∷ [])
          (ha, (hb, (hc, (hd, (he, (hf, (hg, (hh, tt)))))))))

crc_loop-crc_serial :
    (crc : ℕ) (bs : List ℕ) → IsU32 crc → IsBytes bs → crc_loop crc bs ≡ crc_serial crc bs
unfolding crc_loop crc_serial
crc_loop-crc_serial crc (a ∷ b ∷ c ∷ d ∷ e ∷ f ∷ g ∷ h ∷ rest) small
      (ha, (hb, (hc, (hd, (he, (hf, (hg, (hh, hr)))))))) =
    crc_loop-crc_serial (slices (bit_xor crc (word a b c d)) (word e f g h)) rest
      (slices_range (bit_xor crc (word a b c d)) (word e f g h)
        (xor_range crc (word a b c d) small (omega (arith, word_range a b c d ha hb hc hd)))
        (omega (arith, word_range e f g h he hf hg hh)))
      hr
    ∙ ap (λ (t : ℕ). crc_serial t rest)
        (round_lem crc a b c d e f g h small (ha, (hb, (hc, (hd, (he, (hf, (hg, (hh, tt)))))))))
crc_loop-crc_serial crc bs small h = crc_tail-crc_serial crc bs h

-- `crc32`, with its eight tables and its loop over eight bytes a round, computes the checksum that is
-- defined bit by bit: each byte enters the lowest eight bits, and eight times the number is halved
-- and the polynomial added if the bit that falls out is set.
pub crc32_lem :
    (bs : List ℕ) → IsBytes bs → crc32 bs ≡ bit_xor (crc_serial 0xFFFFFFFF bs) 0xFFFFFFFF
unfolding crc32
crc32_lem bs h =
    ap (λ (t : ℕ). bit_xor t 0xFFFFFFFF) (crc_loop-crc_serial 0xFFFFFFFF bs (omega arith) h)
