-- ===== src/Storage/SlottedPage/History/Steps.antt =====
-- What every operation keeps, whether it succeeds or fails.
use mo_db.Prelude.{
  ℕ, ◌^◌, ◌≤◌, ◌<◌, ◌≡◌, ◌≢◌, ◌⊎◌, inl, inr, refl, ap, arith, Option, none, some, List, length, ltb,
  lt→ltb, ltb→lt, ltb-false→le, ==_ne, Bool-cases, zero-cases,
}
use mo_db.Storage.Endian.{IsBytes}
use mo_db.Error.{ErrorCode, err, invalid_argument, record_too_large, slot_not_found}
use mo_db.Storage.SlottedPage.{Page, insert, update, erase, is_missing}
use mo_db.Storage.SlottedPage.Slots.{IsPage, IsLabelled, IsAged}
use mo_db.Storage.SlottedPage.Erase.{erase_lem}
use mo_db.Storage.SlottedPage.Update.{update_lem}
use mo_db.Storage.SlottedPage.Inserted.{insert_lem}
use mo_db.Storage.SlottedPage.Links.{set_next_page, set_previous_page}
use mo_db.Storage.SlottedPage.Links.Laws.{links_lem, IsLink, IsLinked}
use mo_db.Storage.SlottedPage.History.{
  Op, insert_record, update_record, erase_record, link_next, link_previous, or_same, inserted,
  perform,
}

-- The bytes of a record are bytes, and the number of a page is a word.
abbrev pub IsWordLink : Option ℕ → Type 0
IsWordLink none = Unit
IsWordLink (some v) = v < 2 ^ 64

abbrev pub IsOp : Op → Type 0
IsOp (insert_record bytes) = IsBytes bytes
IsOp (update_record slot bytes) = IsBytes bytes
IsOp (erase_record slot) = Unit
IsOp (link_next next) = IsWordLink next
IsOp (link_previous previous) = IsWordLink previous

-- The page is still well formed, its magic and version are kept, and no generation is smaller.
pub record IsNext (p q : Page) : Type 0 where
  pub page : IsPage q
  pub front : (i : ℕ) → i < 6 → q i ≡ p i
  pub aged : IsAged p q

stay-IsNext : (p : Page) → IsPage p → IsNext p p
stay-IsNext p w = record {
  page = w;
  front = λ i a. refl;
  aged = record { count = omega arith; slot = λ i a. inl (refl, λ z. z) };
}

labelled-IsNext : (p q : Page) → IsPage q → IsLabelled p q → IsAged p q → IsNext p q
labelled-IsNext p q w l a = record {
  page = w;
  front = λ i b. l.kept i (omega arith) (inl b);
  aged = a;
}

linked-IsNext : (p q : Page) (next previous : Option ℕ) → IsLinked p next previous q → IsNext p q
linked-IsNext p q next previous h = record { page = h.page; front = h.front; aged = h.aged }

-- The sizes that `insert` and `update` take.
size_cases : (n : ℕ) → ((n ≡ 0) ⊎ (8156 < n)) ⊎ ((n ≢ 0) × (n ≤ 8156))
size_cases n = elim (zero-cases n) [
  | inl e ↦ inl (inl e)
  | inr e ↦ elim (Bool-cases (ltb 8156 n)) [
    | inl a ↦ inl (inr (ltb→lt 8156 n a))
    | inr a ↦ inr (e, ltb-false→le 8156 n a)
  ]
]

IsLink-cases : (link : Option ℕ) → IsWordLink link → (link ≡ some 0) ⊎ IsLink link
IsLink-cases none h = inr tt
IsLink-cases (some v) h = elim (zero-cases v) [ inl e ↦ inl (ap some e) | inr e ↦ inr (e, h) ]

insert_refused :
    (p : Page) (bs : List ℕ)
    → (length bs ≡ 0) ⊎ (8156 < length bs)
    → (e : ErrorCode) × (insert bs p ≡ err e)
unfolding insert
insert_refused p bs (inl h) = (invalid_argument, rw h refl)
insert_refused p bs (inr h) = (
  record_too_large,
  rw (==_ne (length bs) 0 (λ e. omega (arith, h, e)), lt→ltb 8156 (length bs) h) refl,
)

insert-IsNext :
    (p : Page) (bs : List ℕ) → IsPage p → IsBytes bs → IsNext p (inserted p (insert bs p))
insert-IsNext p bs w hb = elim (size_cases (length bs)) [
  | inl bad ↦ let (e, q) = insert_refused p bs bad in rw q (stay-IsNext p w)
  | inr (n, small) ↦ elim (insert_lem p bs w hb n small) [
    | inl (room, (slot, q, e, h)) ↦ rw e (labelled-IsNext p q h.page h.label h.aged)
    | inr (full, e) ↦ rw e (stay-IsNext p w)
  ]
]

update_refused :
    (p : Page) (slot : ℕ) (bs : List ℕ)
    → (length bs ≡ 0) ⊎ (8156 < length bs)
    → (e : ErrorCode) × (update slot bs p ≡ err e)
unfolding update
update_refused p slot bs (inl h) = (invalid_argument, rw h refl)
update_refused p slot bs (inr h) =
    let n = ==_ne (length bs) 0 (λ e. omega (arith, h, e)) in
    elim (Bool-cases (is_missing p slot)) [
      | inl gone ↦ (slot_not_found, rw (n, gone) refl)
      | inr there ↦ (record_too_large, rw (n, there, lt→ltb 8156 (length bs) h) refl)
    ]

update-IsNext :
    (p : Page) (slot : ℕ) (bs : List ℕ)
    → IsPage p
    → IsBytes bs
    → IsNext p (or_same p (update slot bs p))
update-IsNext p slot bs w hb = elim (size_cases (length bs)) [
  | inl bad ↦ let (e, q) = update_refused p slot bs bad in rw q (stay-IsNext p w)
  | inr (n, small) ↦ elim (update_lem p slot bs w hb n small) [
    | inl (gone, e) ↦ rw e (stay-IsNext p w)
    | inr (inl (room, (q, e, h))) ↦ rw e (labelled-IsNext p q h.page h.label h.aged)
    | inr (inr (full, e)) ↦ rw e (stay-IsNext p w)
  ]
]

erase-IsNext : (p : Page) (slot : ℕ) → IsPage p → IsNext p (or_same p (erase slot p))
erase-IsNext p slot w = elim (erase_lem p slot w) [
  | inl (gone, e) ↦ rw e (stay-IsNext p w)
  | inr (q, e, h) ↦ rw e (labelled-IsNext p q h.page h.label h.aged)
]

set_next_page-IsNext :
    (p : Page) (next : Option ℕ)
    → IsPage p
    → IsWordLink next
    → IsNext p (or_same p (set_next_page next p))
set_next_page-IsNext p next w h = elim (IsLink-cases next h) [
  | inl e ↦ rw e (unfold set_next_page in stay-IsNext p w)
  | inr l ↦ let (q, e, k) = (links_lem p next w l).0 in rw e (linked-IsNext p q next _ k)
]

set_previous_page-IsNext :
    (p : Page) (previous : Option ℕ)
    → IsPage p
    → IsWordLink previous
    → IsNext p (or_same p (set_previous_page previous p))
set_previous_page-IsNext p previous w h = elim (IsLink-cases previous h) [
  | inl e ↦ rw e (unfold set_previous_page in stay-IsNext p w)
  | inr l ↦ let (q, e, k) = (links_lem p previous w l).1 in rw e (linked-IsNext p q _ previous k)
]

pub perform-IsNext : (op : Op) (p : Page) → IsPage p → IsOp op → IsNext p (perform op p)
unfolding perform
perform-IsNext (insert_record bytes) p w h = insert-IsNext p bytes w h
perform-IsNext (update_record slot bytes) p w h = update-IsNext p slot bytes w h
perform-IsNext (erase_record slot) p w h = erase-IsNext p slot w
perform-IsNext (link_next next) p w h = set_next_page-IsNext p next w h
perform-IsNext (link_previous previous) p w h = set_previous_page-IsNext p previous w h
