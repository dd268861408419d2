-- ===== src/Prelude/Xor.antt =====
-- The laws of `^` on native numbers.
use Prim.Native.Nat.{ℕ, zero, suc, ◌+◌, ◌*◌, ◌/◌, ◌%◌, ◌^◌, ◌≤◌, ◌<◌, differ, bit_xor}
use mathlib.Core.Path.{◌≡◌, refl, ap, ap₂, sym, ◌∙◌}
use mathlib.Core.Logic.{◌⊎◌, inl, inr}
use native.Mathlib.Omega.{arith}
use native.Mathlib.Nat.{pow-suc}
use mo_db.Prelude.Bits.{bit_xor_digit, differ_digit}

pub bit_cases : (d : ℕ) → d < 2 → (d ≡ 0) ⊎ (d ≡ 1)
bit_cases zero h = inl refl
bit_cases (suc zero) h = inr refl
bit_cases (suc (suc d)) h = absurd (omega arith)

pub bit_xor-half : (a b : ℕ) → bit_xor a b / 2 ≡ bit_xor (a / 2) (b / 2)
bit_xor-half a b =
    omega (arith, bit_xor_digit a b, differ_digit (a % 2) (b % 2) (omega arith) (omega arith))

pub bit_xor-bit : (a b : ℕ) → bit_xor a b % 2 ≡ differ (a % 2) (b % 2)
bit_xor-bit a b =
    omega (arith, bit_xor_digit a b, differ_digit (a % 2) (b % 2) (omega arith) (omega arith))

differ_comm : (x y : ℕ) → x < 2 → y < 2 → differ x y ≡ differ y x
differ_comm x y h k = elim (bit_cases x h) [
  | inl e ↦ elim (bit_cases y k) [ inl f ↦ rw (e, f) refl | inr f ↦ rw (e, f) refl ]
  | inr e ↦ elim (bit_cases y k) [ inl f ↦ rw (e, f) refl | inr f ↦ rw (e, f) refl ]
]

differ_assoc : (x y z : ℕ) → x < 2 → y < 2 → z < 2 → differ (differ x y) z ≡ differ x (differ y z)
differ_assoc x y z h k l = elim (bit_cases x h) [
  | inl e ↦ elim (bit_cases y k) [ inl f ↦ rw (e, f) refl | inr f ↦ rw (e, f) refl ]
  | inr e ↦ elim (bit_cases y k) [
    | inl f ↦ elim (bit_cases z l) [ inl g ↦ rw (e, f, g) refl | inr g ↦ rw (e, f, g) refl ]
    | inr f ↦ elim (bit_cases z l) [ inl g ↦ rw (e, f, g) refl | inr g ↦ rw (e, f, g) refl ]
  ]
]

-- A number lies below the power of two with itself as the exponent.
pub lt-two_pow : (n : ℕ) → n < 2 ^ n
lt-two_pow zero = omega arith
lt-two_pow (suc n) = omega (arith, pow-suc 2 n, lt-two_pow n)

comm_below : (k a b : ℕ) → a < 2 ^ k → b < 2 ^ k → bit_xor a b ≡ bit_xor b a
comm_below zero zero zero h j = refl
comm_below zero (suc a) b h j = absurd (omega arith)
comm_below zero zero (suc b) h j = absurd (omega arith)
comm_below (suc k) a b h j = omega (
  arith,
  bit_xor_digit a b,
  bit_xor_digit b a,
  comm_below k (a / 2) (b / 2) (omega (arith, pow-suc 2 k)) (omega (arith, pow-suc 2 k)),
  differ_comm (a % 2) (b % 2) (omega arith) (omega arith),
)

pow-le : (a k : ℕ) → 2 ^ a ≤ 2 ^ (a + k)
pow-le a zero = let e : a + 0 ≡ a = omega arith in rw e (omega arith)
pow-le a (suc k) =
    let e : a + suc k ≡ suc (a + k) = omega arith in
    rw e (omega (arith, pow-le a k, pow-suc 2 (a + k)))

pub bit_xor_comm : (a b : ℕ) → bit_xor a b ≡ bit_xor b a
bit_xor_comm a b = comm_below (a + b) a b (omega (arith, lt-two_pow a, pow-le a b)) (
    let e : b + a ≡ a + b = omega arith in
    omega (arith, lt-two_pow b, pow-le b a, ap (λ (t : ℕ). 2 ^ t) e))

assoc_below :
    (k a b c : ℕ)
    → a < 2 ^ k
    → b < 2 ^ k
    → c < 2 ^ k
    → bit_xor (bit_xor a b) c ≡ bit_xor a (bit_xor b c)
assoc_below zero zero zero zero h i j = refl
assoc_below zero (suc a) b c h i j = absurd (omega arith)
assoc_below zero zero (suc b) c h i j = absurd (omega arith)
assoc_below zero zero zero (suc c) h i j = absurd (omega arith)
assoc_below (suc k) a b c h i j =
    bit_xor_digit (bit_xor a b) c
    ∙ ap₂ (λ (x y : ℕ). x * 2 + y)
        (ap (λ (t : ℕ). bit_xor t (c / 2)) (bit_xor-half a b)
          ∙ assoc_below k (a / 2) (b / 2) (c / 2) (omega (arith, pow-suc 2 k))
              (omega (arith, pow-suc 2 k)) (omega (arith, pow-suc 2 k))
          ∙ ap (bit_xor (a / 2)) (sym (bit_xor-half b c)))
        (ap (λ (t : ℕ). differ t (c % 2)) (bit_xor-bit a b)
          ∙ differ_assoc (a % 2) (b % 2) (c % 2) (omega arith) (omega arith) (omega arith)
          ∙ ap (differ (a % 2)) (sym (bit_xor-bit b c)))
    ∙ sym (bit_xor_digit a (bit_xor b c))

pub bit_xor_assoc : (a b c : ℕ) → bit_xor (bit_xor a b) c ≡ bit_xor a (bit_xor b c)
bit_xor_assoc a b c =
    assoc_below (a + b + c) a b c
      (let e : a + (b + c) ≡ a + b + c = omega arith in
        omega (arith, lt-two_pow a, pow-le a (b + c), ap (λ (t : ℕ). 2 ^ t) e))
      (let e : b + (a + c) ≡ a + b + c = omega arith in
        omega (arith, lt-two_pow b, pow-le b (a + c), ap (λ (t : ℕ). 2 ^ t) e))
      (let e : c + (a + b) ≡ a + b + c = omega arith in
        omega (arith, lt-two_pow c, pow-le c (a + b), ap (λ (t : ℕ). 2 ^ t) e))

zero_below : (k b : ℕ) → b < 2 ^ k → bit_xor 0 b ≡ b
zero_below zero zero h = refl
zero_below zero (suc b) h = absurd (omega arith)
zero_below (suc k) b h =
    omega (arith, bit_xor_digit 0 b, zero_below k (b / 2) (omega (arith, pow-suc 2 k)))

pub zero_bit_xor : (b : ℕ) → bit_xor 0 b ≡ b
zero_bit_xor b = zero_below b b (lt-two_pow b)

pub bit_xor_zero : (b : ℕ) → bit_xor b 0 ≡ b
bit_xor_zero b = bit_xor_comm b 0 ∙ zero_bit_xor b

self_below : (k b : ℕ) → b < 2 ^ k → bit_xor b b ≡ 0
self_below zero zero h = refl
self_below zero (suc b) h = absurd (omega arith)
self_below (suc k) b h = omega (
  arith,
  bit_xor_digit b b,
  self_below k (b / 2) (omega (arith, pow-suc 2 k)),
  differ_self (b % 2) (omega arith),
)
  where
    differ_self : (x : ℕ) → x < 2 → differ x x ≡ 0
    differ_self x l = elim (bit_cases x l) [ inl e ↦ rw e refl | inr e ↦ rw e refl ]

pub bit_xor_self : (b : ℕ) → bit_xor b b ≡ 0
bit_xor_self b = self_below b b (lt-two_pow b)

-- The two middle ones of four change places.
pub bit_xor_swap :
    (a b c d : ℕ) → bit_xor (bit_xor a b) (bit_xor c d) ≡ bit_xor (bit_xor a c) (bit_xor b d)
bit_xor_swap a b c d =
    bit_xor_assoc a b (bit_xor c d)
    ∙ ap (bit_xor a) (
        sym (bit_xor_assoc b c d)
        ∙ ap (λ (t : ℕ). bit_xor t d) (bit_xor_comm b c)
        ∙ bit_xor_assoc c b d)
    ∙ sym (bit_xor_assoc a c (bit_xor b d))

two_pow-suc : (q k : ℕ) → q * 2 ^ suc k ≡ 2 * (q * 2 ^ k)
two_pow-suc q k = omega (arith, ap (λ (t : ℕ). q * t) (pow-suc 2 k))

-- Where no digits meet, `^` is a sum.
pub bit_xor_disjoint :
    (k low high : ℕ) → low < 2 ^ k → bit_xor low (high * 2 ^ k) ≡ low + high * 2 ^ k
bit_xor_disjoint zero zero high h = omega (arith, zero_bit_xor (high * 1))
bit_xor_disjoint zero (suc low) high h = absurd (omega arith)
bit_xor_disjoint (suc k) low high h = rw two_pow-suc (
    omega (
      arith,
      bit_xor_digit low (2 * (high * 2 ^ k)),
      ap (bit_xor (low / 2)) halved,
      ap (differ (low % 2)) even,
      differ_zero (low % 2) (omega arith),
      bit_xor_disjoint k (low / 2) high (omega (arith, pow-suc 2 k)),
    ))
  where
    halved : 2 * (high * 2 ^ k) / 2 ≡ high * 2 ^ k
    halved = omega arith

    even : 2 * (high * 2 ^ k) % 2 ≡ 0
    even = omega arith

    differ_zero : (x : ℕ) → x < 2 → differ x 0 ≡ x
    differ_zero x l = elim (bit_cases x l) [ inl e ↦ rw e refl | inr e ↦ rw e refl ]

-- `>>`, one digit at a time.
pub halves : ℕ → ℕ → ℕ
halves zero a = a
halves (suc n) a = halves n (a / 2)

bit_xor-halves : (n a b : ℕ) → halves n (bit_xor a b) ≡ bit_xor (halves n a) (halves n b)
unfolding halves
bit_xor-halves zero a b = refl
bit_xor-halves (suc n) a b = ap (halves n) (bit_xor-half a b) ∙ bit_xor-halves n (a / 2) (b / 2)

halves_byte : (a : ℕ) → halves 8 a ≡ a / 256
unfolding halves
halves_byte a = omega arith

-- A byte does not reach the digits above it.
pub bit_xor-byte : (a b : ℕ) → b < 256 → bit_xor a b / 256 ≡ a / 256
bit_xor-byte a b h =
    let e : b / 256 ≡ 0 = omega arith in
    sym (halves_byte (bit_xor a b))
    ∙ bit_xor-halves 8 a b
    ∙ ap₂ bit_xor (halves_byte a) (halves_byte b ∙ e)
    ∙ bit_xor_zero (a / 256)
