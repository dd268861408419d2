-- ===== src/Tx/Wal/Layout.antt =====
-- Where the fields of a record lie in its bytes.
use mo_db.Prelude.{
  ℕ, ◌+◌, ◌^◌, ◌<◌, ◌≡◌, refl, ◌∙◌, arith, List, [], ◌∷◌, ◌++◌, length, take, drop, get_or,
  length-append, append_assoc, drop_past, take_front, drop-length-append, get_or-drop, All-append,
}
use mo_db.Storage.Endian.{IsByte, IsBytes, store_le, load_le}
use mo_db.Storage.Endian.Laws.{length-store_le, store_le-IsBytes, load_le-store_le}
use mo_db.Tx.Crc.{crc32}
use mo_db.Tx.Crc.Range.{crc32_range}
use mo_db.Tx.Wal.{WalRecord, record_body, record_bytes, parse_record}

-- The records that `append` can write: fields in range, and a payload whose size fits 32 bits.
pub record IsRecord (r : WalRecord) : Type 0 where
  pub lsn : r.lsn < 2 ^ 64
  pub tx_id : r.tx_id < 2 ^ 64
  pub type : r.type < 256
  pub page_id : r.page_id < 2 ^ 64
  pub size : length r.payload < 2 ^ 32
  pub payload : IsBytes r.payload

abbrev pub body_of : WalRecord → List ℕ
body_of r = record_body r.lsn r.tx_id r.type r.page_id r.payload

abbrev pub bytes_of : WalRecord → List ℕ
bytes_of r = record_bytes r.lsn r.tx_id r.type r.page_id r.payload

abbrev pub size_of : WalRecord → ℕ
size_of r = 33 + length r.payload

-- The fixed fields before some bytes.
abbrev fixed : WalRecord → List ℕ → List ℕ
fixed r t =
    store_le 8 r.lsn
    ++ (store_le 8 r.tx_id
        ++ ((r.type ∷ []) ++ (store_le 8 r.page_id ++ (store_le 4 (length r.payload) ++ t))))

module _ (r : WalRecord) (t : List ℕ) where
  abbrev from_length : List ℕ
  from_length = store_le 4 (length r.payload) ++ t

  abbrev from_page : List ℕ
  from_page = store_le 8 r.page_id ++ from_length

  abbrev from_type : List ℕ
  from_type = (r.type ∷ []) ++ from_page

  abbrev from_tx : List ℕ
  from_tx = store_le 8 r.tx_id ++ from_type

  drop_lsn : (n : ℕ) → drop (8 + n) (fixed r t) ≡ drop n from_tx
  drop_lsn n = drop_past 8 n (store_le 8 r.lsn) from_tx (length-store_le 8 r.lsn)

  drop_tx : (n : ℕ) → drop (8 + n) from_tx ≡ drop n from_type
  drop_tx n = drop_past 8 n (store_le 8 r.tx_id) from_type (length-store_le 8 r.tx_id)

  drop_page : (n : ℕ) → drop (8 + n) from_page ≡ drop n from_length
  drop_page n = drop_past 8 n (store_le 8 r.page_id) from_length (length-store_le 8 r.page_id)

  behind_type : drop 17 (fixed r t) ≡ from_page
  behind_type = drop_lsn 9 ∙ drop_tx 1

  behind_page : drop 25 (fixed r t) ≡ from_length
  behind_page = drop_lsn 17 ∙ drop_tx 9 ∙ drop_page 0

  behind_length : drop 29 (fixed r t) ≡ t
  behind_length =
      drop_lsn 21
      ∙ drop_tx 13
      ∙ drop_page 4
      ∙ drop_past 4 0 (store_le 4 (length r.payload)) t (length-store_le 4 (length r.payload))

  length-fixed : length (fixed r t) ≡ 29 + length t
  length-fixed = omega (
    arith,
    length-append (store_le 8 r.lsn) from_tx,
    length-append (store_le 8 r.tx_id) from_type,
    length-append (store_le 8 r.page_id) from_length,
    length-append (store_le 4 (length r.payload)) t,
    length-store_le 8 r.lsn,
    length-store_le 8 r.tx_id,
    length-store_le 8 r.page_id,
    length-store_le 4 (length r.payload),
  )

  -- What the fields load.
  module _ (v : IsRecord r) where
    length_field : load_le 4 (take 4 (drop 25 (fixed r t))) ≡ length r.payload
    length_field =
        rw (behind_page, take_front 4 (store_le 4 (length r.payload)) t (length-store_le 4 _))
          (load_le-store_le 4 (length r.payload) v.size)

    lsn_field : load_le 8 (take 8 (fixed r t)) ≡ r.lsn
    lsn_field =
        rw (take_front 8 (store_le 8 r.lsn) from_tx (length-store_le 8 _))
          (load_le-store_le 8 r.lsn v.lsn)

    tx_field : load_le 8 (take 8 (drop 8 (fixed r t))) ≡ r.tx_id
    tx_field =
        rw (drop_lsn 0, take_front 8 (store_le 8 r.tx_id) from_type (length-store_le 8 _))
          (load_le-store_le 8 r.tx_id v.tx_id)

    page_field : load_le 8 (take 8 (drop 17 (fixed r t))) ≡ r.page_id
    page_field =
        rw (behind_type, take_front 8 (store_le 8 r.page_id) from_length (length-store_le 8 _))
          (load_le-store_le 8 r.page_id v.page_id)

    type_field : get_or (fixed r t) 16 0 ≡ r.type
    type_field = get_or-drop 16 (fixed r t) 0 ∙ rw (drop_lsn 8 ∙ drop_tx 0) refl

fixed_append : (r : WalRecord) (u : List ℕ) → body_of r ++ u ≡ fixed r (r.payload ++ u)
unfolding record_body
fixed_append r u = simp append_assoc

abbrev crc_field : WalRecord → List ℕ
crc_field r = store_le 4 (crc32 (body_of r))

pub length-body : (r : WalRecord) → length (body_of r) ≡ 29 + length r.payload
unfolding record_body
length-body r = length-fixed r r.payload

pub length-bytes : (r : WalRecord) → length (bytes_of r) ≡ size_of r
unfolding record_bytes
length-bytes r = omega (
  arith,
  length-append (body_of r) (crc_field r),
  length-body r,
  length-store_le 4 (crc32 (body_of r)),
)

pub body-IsBytes : (r : WalRecord) → IsRecord r → IsBytes (body_of r)
unfolding record_body
body-IsBytes r v = All-append IsByte (store_le 8 r.lsn) _ (store_le-IsBytes 8 r.lsn) (
    All-append IsByte (store_le 8 r.tx_id) _ (store_le-IsBytes 8 r.tx_id) (
      v.type,
      All-append IsByte (store_le 8 r.page_id) _ (store_le-IsBytes 8 r.page_id) (
          All-append IsByte (store_le 4 (length r.payload)) r.payload
            (store_le-IsBytes 4 (length r.payload)) v.payload),
    ))

-- The bytes of a record before what follows it: what the reader finds at each place.
module _ (r : WalRecord) (rest : List ℕ) where
  bytes_split : bytes_of r ++ rest ≡ body_of r ++ (crc_field r ++ rest)
  unfolding record_bytes
  bytes_split = append_assoc (body_of r) (crc_field r) rest

  bytes_fixed : bytes_of r ++ rest ≡ fixed r (r.payload ++ (crc_field r ++ rest))
  bytes_fixed = bytes_split ∙ fixed_append r (crc_field r ++ rest)

  pub rest_at : drop (size_of r) (bytes_of r ++ rest) ≡ rest
  rest_at = rw (← length-bytes r) (drop-length-append (bytes_of r) rest)

  pub body_at : take (29 + length r.payload) (bytes_of r ++ rest) ≡ body_of r
  body_at = rw bytes_split (take_front _ (body_of r) (crc_field r ++ rest) (length-body r))

  module _ (v : IsRecord r) where
    pub length_at : load_le 4 (take 4 (drop 25 (bytes_of r ++ rest))) ≡ length r.payload
    length_at = rw bytes_fixed (length_field r (r.payload ++ (crc_field r ++ rest)) v)

    pub crc_at :
        load_le 4 (take 4 (drop (29 + length r.payload) (bytes_of r ++ rest))) ≡ crc32 (body_of r)
    crc_at =
        rw (bytes_split, ← length-body r, drop-length-append)
          (rw (take_front 4 (crc_field r) rest (length-store_le 4 _))
            (load_le-store_le 4 (crc32 (body_of r)) (crc32_range (body_of r) (body-IsBytes r v))))

    -- The parsed record is the record, with the offset where it ends.
    pub parse_at :
        (position : ℕ)
        → parse_record position (length r.payload) (bytes_of r ++ rest)
          ≡ record r { end_offset = position }
    unfolding parse_record
    parse_at position = rw bytes_fixed (
        let t : List ℕ = r.payload ++ (crc_field r ++ rest) in
        λ i. record {
          lsn = lsn_field r t v i;
          tx_id = tx_field r t v i;
          type = type_field r t v i;
          page_id = page_field r t v i;
          payload = payload_field i;
          end_offset = position;
        })
      where
        payload_field :
            take (length r.payload) (drop 29 (fixed r (r.payload ++ (crc_field r ++ rest))))
            ≡ r.payload
        payload_field = rw behind_length (take_front _ r.payload (crc_field r ++ rest) refl)
