-- ===== src/Storage/Codec/ValueTrip.antt =====
-- Values and the bytes that they are stored as: `encode_value` and `decode_value`.
use mo_db.Prelude.{
  ℕ, ◌-◌, ◌^◌, ◌<◌, ◌≡◌, refl, ap, ◌∙◌, arith, Bool, true, false, List, [], ◌∷◌, ◌++◌, ltb, ◌==◌,
  ltb-false, ltb-false→le, Bool-cases, ==_iff, inl, inr, length, if◌then◌else◌, append_assoc,
  append-nil,
}
use mo_db.Prelude.Int.{ℤ, pos, negsuc}
use mo_db.Error.{ok, invalid_encoding}
use mo_db.Model.Value.{Value, IsValue, IsInt64}
use mo_db.Storage.Endian.{IsByte, IsBytes, store_le}
use mo_db.Storage.Binary.{read_u8, read_u32, read_u64, read_bytes, Read, pure, fail, ◌>>=◌}
use mo_db.Storage.Binary.Consumes.{
  Consumes, Consumes-bind, Consumes-map, Consumes-pure, Consumes-read_u8, Consumes-read_u32,
  Consumes-read_u64, Consumes-read_bytes,
}
use mo_db.Storage.Binary.Parses.{
  Parses, Parses-bind, Parses-map, Parses-pure, Parses-fail, Parses-if, Parses-read_u8,
  Parses-read_u32, Parses-read_u64, Parses-read_bytes,
}
use mo_db.Storage.Codec.{
  bit_cast_u64, bit_cast_i64, flag, encode_value_to, encode_value, decode_boolean, decode_text,
  decode_payload, decode_value_from, decode_value,
}
use mo_db.Storage.Codec.Finish.{decode_whole-Consumes, decode_whole-Parses}

-- What a value is stored as, behind its tag.
pub payload_bytes : Value → List ℕ
payload_bytes Value.null = []
payload_bytes (Value.boolean b) = flag b ∷ []
payload_bytes (Value.integer z) = store_le 8 (bit_cast_u64 z)
payload_bytes (Value.real bits) = store_le 8 bits
payload_bytes (Value.text bytes) = store_le 4 (length bytes) ++ bytes

pub value_tag : Value → ℕ
value_tag Value.null = 0
value_tag (Value.boolean b) = 1
value_tag (Value.integer z) = 2
value_tag (Value.real bits) = 3
value_tag (Value.text bytes) = 4

pub value_bytes : Value → List ℕ
unfolding payload_bytes value_tag
value_bytes v = value_tag v ∷ payload_bytes v

-- A text's size must fit its field of 32 bits.
abbrev pub IsStorable : Value → Type 0
IsStorable (Value.text bytes) = length bytes < 2 ^ 32
IsStorable _ = Unit

-- `encode_value_to` appends the value's bytes, or refuses a text that is too large.
pub encode_value_to-IsStorable :
    (w : List ℕ) (v : Value) → IsStorable v → encode_value_to w v ≡ ok (w ++ value_bytes v)
unfolding encode_value_to value_bytes
encode_value_to-IsStorable w Value.null h = refl
encode_value_to-IsStorable w (Value.boolean b) h = ap ok (append_assoc w (1 ∷ []) (flag b ∷ []))
encode_value_to-IsStorable w (Value.integer z) h =
    ap ok (append_assoc w (2 ∷ []) (store_le 8 (bit_cast_u64 z)))
encode_value_to-IsStorable w (Value.real bits) h = ap ok (append_assoc w (3 ∷ []) (store_le 8 bits))
encode_value_to-IsStorable w (Value.text bytes) h =
    rw (ltb-false (2 ^ 32 - 1) (length bytes) (omega arith)) (
      ap ok
        (append_assoc (w ++ 4 ∷ []) (store_le 4 (length bytes)) bytes ∙ append_assoc w (4 ∷ []) _))

stored :
    (v : Value) (w w' : List ℕ)
    → IsStorable v
    → encode_value_to w v ≡ ok w'
    → IsStorable v × (w' ≡ w ++ value_bytes v)
stored v w w' s h = (s, cc (encode_value_to-IsStorable w v s))

pub encode_value_to-ok :
    (w w' : List ℕ) (v : Value)
    → encode_value_to w v ≡ ok w'
    → IsStorable v × (w' ≡ w ++ value_bytes v)
unfolding encode_value_to
encode_value_to-ok w w' (Value.text bytes) h = elim (Bool-cases (ltb (2 ^ 32 - 1) (length bytes))) [
  | inl large ↦ ground arith
  | inr fits ↦ stored (Value.text bytes) w w' (omega (arith, ltb-false→le _ _ fits)) h
]
encode_value_to-ok w w' v h = stored v w w' tt h

pub bit_cast_back :
    (z : ℤ) → IsInt64 z → (bit_cast_i64 (bit_cast_u64 z) ≡ z) × (bit_cast_u64 z < 2 ^ 64)
bit_cast_back (pos n) h = ground arith
bit_cast_back (negsuc n) h = ground arith

pub bit_cast_forth :
    (w : ℕ) → w < 2 ^ 64 → (bit_cast_u64 (bit_cast_i64 w) ≡ w) × IsInt64 (bit_cast_i64 w)
bit_cast_forth w h = ground arith

decode_payload-Consumes :
    (v : Value)
    → IsValue v
    → IsStorable v
    → Consumes (decode_payload (value_tag v)) (payload_bytes v) v
unfolding decode_payload payload_bytes value_tag decode_boolean decode_text
decode_payload-Consumes Value.null h k = Consumes-pure Value.null
decode_payload-Consumes (Value.boolean b) h k =
    Consumes-bind read_u8 _ (flag b ∷ []) [] (flag b) (Value.boolean b) (Consumes-read_u8 (flag b))
      (accepted b)
  where
    accepted :
        (c : Bool)
        → Consumes
            (if ltb 1 (flag c) then fail invalid_encoding else pure (Value.boolean (flag c == 1)))
            []
            (Value.boolean c)
    accepted true = Consumes-pure (Value.boolean true)
    accepted false = Consumes-pure (Value.boolean false)
decode_payload-Consumes (Value.integer z) h k =
    Consumes-map read_u64 (λ w. Value.integer (bit_cast_i64 w)) (store_le 8 (bit_cast_u64 z))
      (bit_cast_u64 z) (Value.integer z) (Consumes-read_u64 (bit_cast_u64 z) (bit_cast_back z h).1)
      (ap Value.integer (bit_cast_back z h).0)
decode_payload-Consumes (Value.real bits) h k =
    Consumes-map read_u64 Value.real (store_le 8 bits) bits (Value.real bits)
      (Consumes-read_u64 bits h) refl
decode_payload-Consumes (Value.text bytes) h k =
    Consumes-bind read_u32 (λ size. read_bytes size >>= λ text. pure (Value.text text))
      (store_le 4 (length bytes)) bytes (length bytes) (Value.text bytes)
      (Consumes-read_u32 (length bytes) k)
      (Consumes-map (read_bytes (length bytes)) Value.text bytes bytes (Value.text bytes)
        (Consumes-read_bytes bytes) refl)

pub decode_value_from-Consumes :
    (v : Value) → IsValue v → IsStorable v → Consumes decode_value_from (value_bytes v) v
unfolding decode_value_from value_bytes
decode_value_from-Consumes v h k =
    Consumes-bind read_u8 decode_payload (value_tag v ∷ []) (payload_bytes v) (value_tag v) v
      (Consumes-read_u8 (value_tag v)) (decode_payload-Consumes v h k)

-- What a decoded value was decoded from: its payload behind its own tag.
abbrev Decoded : ℕ → Value → List ℕ → Type 0
Decoded tag v xs = (value_bytes v ≡ tag ∷ xs) × IsValue v × IsStorable v

decode_boolean-Parses : Parses decode_boolean (Decoded 1)
unfolding decode_boolean value_bytes
decode_boolean-Parses =
    Parses-bind read_u8 _ (λ n xs. (n ∷ [] ≡ xs) × IsByte n) (Decoded 1) Parses-read_u8
      λ n xs (same, small).
        Parses-if _ (ltb 1 n) _ _ (λ big. Parses-fail _ invalid_encoding)
          (λ bit.
            Parses-pure _ (Value.boolean (n == 1))
              (rw append-nil (rw (← same) (ap (λ (k : ℕ). 1 ∷ k ∷ []) (back n bit), tt, tt))))
  where
    back : (n : ℕ) → ltb 1 n ≡ false → flag (n == 1) ≡ n
    back n bit = ground arith

decode_text-Parses : Parses decode_text (Decoded 4)
unfolding decode_text value_bytes
decode_text-Parses =
    Parses-bind read_u32 _ (λ n xs. (store_le 4 n ≡ xs) × (n < 2 ^ 32)) (Decoded 4) Parses-read_u32
      λ n xs (sized, small).
        Parses-map (read_bytes n) Value.text (λ v ys. (v ≡ ys) × (length ys ≡ n) × IsBytes ys) _
          (Parses-read_bytes n)
          λ v ys (same, full, bs). rw same (
            ap (λ (t : List ℕ). 4 ∷ t)
                (ap (λ (t : List ℕ). t ++ ys) (ap (store_le 4) full ∙ sized)),
            bs,
            omega (arith, full),
          )

word_read :
    (tag : ℕ) (g : ℕ → Value)
    → ((w : ℕ) → w < 2 ^ 64 → Decoded tag (g w) (store_le 8 w))
    → Parses (read_u64 >>= λ w. pure (g w)) (Decoded tag)
word_read tag g h =
    Parses-map read_u64 g (λ w xs. (store_le 8 w ≡ xs) × (w < 2 ^ 64)) (Decoded tag) Parses-read_u64
      λ w xs (same, small). rw (← same) (h w small)

-- In the branch of the tag `k`, the tag is `k`.
in_branch :
    (tag k : ℕ) (m : Read Value) → Parses m (Decoded k) → (tag == k) ≡ true → Parses m (Decoded tag)
in_branch tag k m p e = rw ((==_iff tag k).0 e) p

decode_payload-Parses : (tag : ℕ) → Parses (decode_payload tag) (Decoded tag)
unfolding decode_payload value_bytes
decode_payload-Parses tag =
    Parses-if _ (tag == 0) _ _ (in_branch tag 0 _ (Parses-pure _ Value.null (refl, tt, tt))) λ _.
      Parses-if _ (tag == 1) _ _ (in_branch tag 1 _ decode_boolean-Parses) λ _.
        Parses-if _ (tag == 2) _ _
          (in_branch tag 2 _ (
            word_read 2 (λ w. Value.integer (bit_cast_i64 w))
              λ w h. (
                ap (λ (k : ℕ). 2 ∷ store_le 8 k) (bit_cast_forth w h).0,
                (bit_cast_forth w h).1,
                tt,
              )))
          λ _.
            Parses-if _ (tag == 3) _ _
              (in_branch tag 3 _ (word_read 3 Value.real λ w h. (refl, h, tt)))
              λ _.
                Parses-if _ (tag == 4) _ _ (in_branch tag 4 _ decode_text-Parses)
                  λ _. Parses-fail _ invalid_encoding

-- A decoded value was read from the very bytes that it is stored as.
pub decode_value_from-Parses :
    Parses decode_value_from (λ v xs. (value_bytes v ≡ xs) × IsValue v × IsStorable v)
unfolding decode_value_from
decode_value_from-Parses =
    Parses-bind read_u8 decode_payload (λ n xs. (n ∷ [] ≡ xs) × IsByte n) _ Parses-read_u8
      λ tag xs (same, small). rw (← same) (decode_payload-Parses tag)

-- Every value that `encode_value` stores is read back by `decode_value`.
pub decode_value-encode_value :
    (v : Value) (bs : List ℕ) → IsValue v → encode_value v ≡ ok bs → decode_value bs ≡ ok v
unfolding encode_value decode_value
decode_value-encode_value v bs h e =
    let (fits, same) = encode_value_to-ok [] bs v e in
    rw same (
      decode_whole-Consumes decode_value_from (value_bytes v) v
        (decode_value_from-Consumes v h fits))

-- Whatever bytes `decode_value` accepts are the only ones that it accepts for the value: encoding
-- the value gives them back. The value is one that the C++ types can hold.
pub encode_value-decode_value :
    (bs : List ℕ) (v : Value)
    → IsBytes bs
    → decode_value bs ≡ ok v
    → (encode_value v ≡ ok bs) × IsValue v
unfolding encode_value decode_value
encode_value-decode_value bs v h e =
    let (same, valid, fits) =
      decode_whole-Parses decode_value_from _ bs v decode_value_from-Parses h e in
    (encode_value_to-IsStorable [] v fits ∙ ap ok same, valid)
