-- ===== src/Object/Codec/ValueTrip.antt =====
-- Values of attributes and the bytes that they are stored as.
use mo_db.Prelude.{
  ℕ, ◌-◌, ◌^◌, ◌<◌, ◌≡◌, refl, ap, ◌∙◌, arith, Bool, true, false, not, List, [], ◌∷◌, ◌++◌, ltb,
  ◌==◌, ltb-false, ltb-false→le, Bool-cases, ==_iff, inl, inr, length, if◌then◌else◌, append_assoc,
  append-nil,
}
use mo_db.Error.{ok, err, Result, ErrorCode, invalid_encoding}
use mo_db.Storage.Endian.{IsByte, IsBytes, store_le}
use mo_db.Storage.Binary.{read_u8, read_u32, read_u64, read_bytes, Read, pure, fail, ◌>>=◌}
use mo_db.Storage.Binary.Consumes.{
  Consumes, Consumes-bind, Consumes-map, Consumes-pure, Consumes-read_u8, Consumes-read_u32,
  Consumes-read_u64, Consumes-read_bytes,
}
use mo_db.Storage.Binary.Parses.{
  Parses, Parses-bind, Parses-map, Parses-pure, Parses-fail, Parses-if, Parses-read_u8,
  Parses-read_u32, Parses-read_u64, Parses-read_bytes,
}
use mo_db.Storage.Codec.{bit_cast_u64, bit_cast_i64, flag}
use mo_db.Storage.Codec.ValueTrip.{bit_cast_back, bit_cast_forth}
use mo_db.Object.AttributeValue.{AttributeValue, IsAttribute, tag_of, type_of}
use mo_db.Object.Codec.{
  encode_sized, encode_value, decode_boolean, decode_word, decode_sized, decode_content,
  decode_value,
}

pub sized_bytes : List ℕ → List ℕ
sized_bytes bs = store_le 4 (length bs) ++ bs

-- What is stored behind the tag.
pub content_bytes : AttributeValue → List ℕ
unfolding sized_bytes
content_bytes AttributeValue.null = []
content_bytes (AttributeValue.boolean b) = flag b ∷ []
content_bytes (AttributeValue.int64 z) = store_le 8 (bit_cast_u64 z)
content_bytes (AttributeValue.float64 bits) = store_le 8 bits
content_bytes (AttributeValue.string text) = sized_bytes text
content_bytes (AttributeValue.bytes data') = sized_bytes data'
content_bytes (AttributeValue.ref id) = store_le 8 id
content_bytes (AttributeValue.blob id) = store_le 8 id
content_bytes (AttributeValue.embedded payload) = sized_bytes payload

pub value_bytes : AttributeValue → List ℕ
unfolding content_bytes tag_of type_of
value_bytes v = tag_of (type_of v) ∷ content_bytes v

-- The size fits its field of 32 bits.
abbrev pub IsStorable : AttributeValue → Type 0
IsStorable (AttributeValue.string text) = length text < 2 ^ 32
IsStorable (AttributeValue.bytes data') = length data' < 2 ^ 32
IsStorable (AttributeValue.embedded payload) = length payload < 2 ^ 32
IsStorable _ = Unit

encode_sized-ok :
    (w : List ℕ) (tag : ℕ) (bs : List ℕ)
    → length bs < 2 ^ 32
    → encode_sized w tag bs ≡ ok (w ++ tag ∷ sized_bytes bs)
unfolding encode_sized sized_bytes
encode_sized-ok w tag bs h =
    rw (ltb-false (2 ^ 32 - 1) (length bs) (omega arith)) (
      ap ok
        (append_assoc (w ++ tag ∷ []) (store_le 4 (length bs)) bs ∙ append_assoc w (tag ∷ []) _))

pub encode_value-IsStorable :
    (w : List ℕ) (v : AttributeValue) → IsStorable v → encode_value w v ≡ ok (w ++ value_bytes v)
unfolding encode_value value_bytes
encode_value-IsStorable w AttributeValue.null h = refl
encode_value-IsStorable w (AttributeValue.boolean b) h =
    ap ok (append_assoc w (1 ∷ []) (flag b ∷ []))
encode_value-IsStorable w (AttributeValue.int64 z) h =
    ap ok (append_assoc w (2 ∷ []) (store_le 8 (bit_cast_u64 z)))
encode_value-IsStorable w (AttributeValue.float64 bits) h =
    ap ok (append_assoc w (3 ∷ []) (store_le 8 bits))
encode_value-IsStorable w (AttributeValue.string text) h = encode_sized-ok w 4 text h
encode_value-IsStorable w (AttributeValue.bytes data') h = encode_sized-ok w 5 data' h
encode_value-IsStorable w (AttributeValue.ref id) h =
    ap ok (append_assoc w (6 ∷ []) (store_le 8 id))
encode_value-IsStorable w (AttributeValue.blob id) h =
    ap ok (append_assoc w (7 ∷ []) (store_le 8 id))
encode_value-IsStorable w (AttributeValue.embedded payload) h = encode_sized-ok w 8 payload h

encode_sized-fits :
    (w : List ℕ) (tag : ℕ) (bs w' : List ℕ) → encode_sized w tag bs ≡ ok w' → length bs < 2 ^ 32
unfolding encode_sized
encode_sized-fits w tag bs w' h = elim (Bool-cases (ltb (2 ^ 32 - 1) (length bs))) [
  | inl large ↦ absurd (err-ne (rw large at h))
  | inr fits ↦ omega (arith, ltb-false→le (2 ^ 32 - 1) (length bs) fits)
]
  where
    err-ne : {e : ErrorCode} → Path (Result (List ℕ)) (err e) (ok w') → ⊥
    err-ne q = cc

-- A value that is stored fits.
pub encode_value-fits :
    (w w' : List ℕ) (v : AttributeValue) → encode_value w v ≡ ok w' → IsStorable v
unfolding encode_value
encode_value-fits w w' AttributeValue.null h = tt
encode_value-fits w w' (AttributeValue.boolean b) h = tt
encode_value-fits w w' (AttributeValue.int64 z) h = tt
encode_value-fits w w' (AttributeValue.float64 bits) h = tt
encode_value-fits w w' (AttributeValue.string text) h = encode_sized-fits w 4 text w' h
encode_value-fits w w' (AttributeValue.bytes data') h = encode_sized-fits w 5 data' w' h
encode_value-fits w w' (AttributeValue.ref id) h = tt
encode_value-fits w w' (AttributeValue.blob id) h = tt
encode_value-fits w w' (AttributeValue.embedded payload) h = encode_sized-fits w 8 payload w' h

word-Consumes :
    (g : ℕ → AttributeValue) (n : ℕ) (v : AttributeValue)
    → n < 2 ^ 64
    → g n ≡ v
    → Consumes (decode_word g) (store_le 8 n) v
unfolding decode_word
word-Consumes g n v h e = Consumes-map read_u64 g (store_le 8 n) n v (Consumes-read_u64 n h) e

sized-Consumes :
    (g : List ℕ → AttributeValue) (bs : List ℕ)
    → length bs < 2 ^ 32
    → Consumes (decode_sized g) (sized_bytes bs) (g bs)
unfolding decode_sized sized_bytes
sized-Consumes g bs h =
    Consumes-bind read_u32 (λ size. read_bytes size >>= λ data'. pure (g data'))
      (store_le 4 (length bs)) bs (length bs) (g bs) (Consumes-read_u32 (length bs) h)
      (Consumes-map (read_bytes (length bs)) g bs bs (g bs) (Consumes-read_bytes bs) refl)

content-Consumes :
    (v : AttributeValue)
    → IsAttribute v
    → IsStorable v
    → Consumes (decode_content (tag_of (type_of v))) (content_bytes v) v
unfolding decode_content content_bytes tag_of type_of decode_boolean
content-Consumes AttributeValue.null h k = Consumes-pure AttributeValue.null
content-Consumes (AttributeValue.boolean b) h k =
    Consumes-bind read_u8 _ (flag b ∷ []) [] (flag b) (AttributeValue.boolean b)
      (Consumes-read_u8 (flag b)) (accepted b)
  where
    accepted :
        (c : Bool)
        → Consumes
            (if ltb 1 (flag c)
              then fail invalid_encoding
              else pure (AttributeValue.boolean (not (flag c == 0))))
            []
            (AttributeValue.boolean c)
    accepted true = Consumes-pure (AttributeValue.boolean true)
    accepted false = Consumes-pure (AttributeValue.boolean false)
content-Consumes (AttributeValue.int64 z) h k =
    word-Consumes (λ raw. AttributeValue.int64 (bit_cast_i64 raw)) (bit_cast_u64 z)
      (AttributeValue.int64 z) (bit_cast_back z h).1 (ap AttributeValue.int64 (bit_cast_back z h).0)
content-Consumes (AttributeValue.float64 bits) h k =
    word-Consumes AttributeValue.float64 bits (AttributeValue.float64 bits) h refl
content-Consumes (AttributeValue.string text) h k = sized-Consumes AttributeValue.string text k
content-Consumes (AttributeValue.bytes data') h k = sized-Consumes AttributeValue.bytes data' k
content-Consumes (AttributeValue.ref id) h k =
    word-Consumes AttributeValue.ref id (AttributeValue.ref id) h refl
content-Consumes (AttributeValue.blob id) h k =
    word-Consumes AttributeValue.blob id (AttributeValue.blob id) h refl
content-Consumes (AttributeValue.embedded payload) h k =
    sized-Consumes AttributeValue.embedded payload k

pub decode_value-Consumes :
    (v : AttributeValue) → IsAttribute v → IsStorable v → Consumes decode_value (value_bytes v) v
unfolding decode_value value_bytes
decode_value-Consumes v h k =
    Consumes-bind read_u8 decode_content (tag_of (type_of v) ∷ []) (content_bytes v)
      (tag_of (type_of v)) v (Consumes-read_u8 (tag_of (type_of v))) (content-Consumes v h k)

-- What a decoded value was decoded from: its content behind its own tag.
abbrev Decoded : ℕ → AttributeValue → List ℕ → Type 0
Decoded tag v xs = (value_bytes v ≡ tag ∷ xs) × IsAttribute v × IsStorable v

decode_boolean-Parses : Parses decode_boolean (Decoded 1)
unfolding decode_boolean value_bytes content_bytes tag_of type_of
decode_boolean-Parses =
    Parses-bind read_u8 _ (λ n xs. (n ∷ [] ≡ xs) × IsByte n) (Decoded 1) Parses-read_u8
      λ n xs (same, small).
        Parses-if _ (ltb 1 n) _ _ (λ big. Parses-fail _ invalid_encoding)
          (λ bit.
            Parses-pure _ (AttributeValue.boolean (not (n == 0)))
              (rw append-nil (rw (← same) (ap (λ (k : ℕ). 1 ∷ k ∷ []) (back n bit), tt, tt))))
  where
    back : (n : ℕ) → ltb 1 n ≡ false → flag (not (n == 0)) ≡ n
    back n bit = ground arith

word-Parses :
    (tag : ℕ) (g : ℕ → AttributeValue)
    → ((w : ℕ) → w < 2 ^ 64 → Decoded tag (g w) (store_le 8 w))
    → Parses (decode_word g) (Decoded tag)
unfolding decode_word
word-Parses tag g h =
    Parses-map read_u64 g (λ w xs. (store_le 8 w ≡ xs) × (w < 2 ^ 64)) (Decoded tag) Parses-read_u64
      λ w xs (same, small). rw (← same) (h w small)

sized-Parses :
    (tag : ℕ) (g : List ℕ → AttributeValue)
    → ((bs : List ℕ) → IsBytes bs → length bs < 2 ^ 32 → Decoded tag (g bs) (sized_bytes bs))
    → Parses (decode_sized g) (Decoded tag)
unfolding decode_sized sized_bytes
sized-Parses tag g h =
    Parses-bind read_u32 _ (λ n xs. (store_le 4 n ≡ xs) × (n < 2 ^ 32)) (Decoded tag)
      Parses-read_u32
      λ n xs (stored, small).
        Parses-map (read_bytes n) g (λ v ys. (v ≡ ys) × (length ys ≡ n) × IsBytes ys) _
          (Parses-read_bytes n)
          λ v ys (same, full, bs).
            rw (same, ← stored, ← full) (h ys bs (omega (arith, full, small)))

-- In the branch of the tag `k`, the tag is `k`.
in_branch :
    (tag k : ℕ) (m : Read AttributeValue)
    → Parses m (Decoded k)
    → (tag == k) ≡ true
    → Parses m (Decoded tag)
in_branch tag k m p e = rw ((==_iff tag k).0 e) p

content-Parses : (tag : ℕ) → Parses (decode_content tag) (Decoded tag)
unfolding decode_content value_bytes content_bytes tag_of type_of
content-Parses tag =
    Parses-if _ (tag == 0) _ _
      (in_branch tag 0 _ (Parses-pure _ AttributeValue.null (refl, tt, tt)))
      λ _. Parses-if _ (tag == 1) _ _ (in_branch tag 1 _ decode_boolean-Parses) λ _.
        Parses-if _ (tag == 2) _ _
          (in_branch tag 2 _ (
            word-Parses 2 (λ w. AttributeValue.int64 (bit_cast_i64 w))
              λ w h. (
                ap (λ (k : ℕ). 2 ∷ store_le 8 k) (bit_cast_forth w h).0,
                (bit_cast_forth w h).1,
                tt,
              )))
          λ _.
            Parses-if _ (tag == 3) _ _
              (in_branch tag 3 _ (word-Parses 3 AttributeValue.float64 λ w h. (refl, h, tt)))
              λ _.
                Parses-if _ (tag == 4) _ _
                  (in_branch tag 4 _ (sized-Parses 4 AttributeValue.string λ bs h k. (refl, h, k)))
                  λ _.
                    Parses-if _ (tag == 5) _ _
                      (in_branch tag 5 _
                        (sized-Parses 5 AttributeValue.bytes λ bs h k. (refl, h, k)))
                      λ _.
                        Parses-if _ (tag == 6) _ _
                          (in_branch tag 6 _
                            (word-Parses 6 AttributeValue.ref λ w h. (refl, h, tt)))
                          λ _.
                            Parses-if _ (tag == 7) _ _
                              (in_branch tag 7 _
                                (word-Parses 7 AttributeValue.blob λ w h. (refl, h, tt)))
                              λ _.
                                Parses-if _ (tag == 8) _ _
                                  (in_branch tag 8 _
                                    (sized-Parses 8 AttributeValue.embedded λ bs h k. (refl, h, k)))
                                  λ _. Parses-fail _ invalid_encoding

pub decode_value-Parses :
    Parses decode_value (λ v xs. (value_bytes v ≡ xs) × IsAttribute v × IsStorable v)
unfolding decode_value
decode_value-Parses =
    Parses-bind read_u8 decode_content (λ n xs. (n ∷ [] ≡ xs) × IsByte n) _ Parses-read_u8
      λ tag xs (same, small). rw (← same) (content-Parses tag)
