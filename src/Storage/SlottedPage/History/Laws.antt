-- ===== src/Storage/SlottedPage/History/Laws.antt =====
-- Pages that come from `create` by operations, and record ids that are out of date.
use mo_db.Prelude.{ℕ, ◌<◌, ◌≡◌, ◌≢◌, inl, inr, refl, sym, ap, ◌∙◌, arith, List, [], ◌∷◌, All}
use mo_db.Storage.Endian.{store_le, load_le, load_le_loop}
use mo_db.Storage.Endian.Laws.{store_le-IsBytes}
use mo_db.Error.{Result, ok, err, slot_not_found}
use mo_db.Storage.SlottedPage.{
  Page, subspan, copy, write_u16, write_u64, read_u16, slot_count, free_start, free_end,
  slot_generation, record_size, generation_in, erase,
}
use mo_db.Storage.SlottedPage.Bytes.{
  IsBytePage, copy-IsBytePage, write_u16-IsBytePage, subspan-cong,
}
use mo_db.Storage.SlottedPage.Slots.{IsPage, IsAged, trans-IsAged}
use mo_db.Storage.SlottedPage.Reads.{read_in-present}
use mo_db.Storage.SlottedPage.Erase.{erase_lem, missing_cases}
use mo_db.Storage.SlottedPage.Validate.{create, validate_page}
use mo_db.Storage.SlottedPage.Validate.Accepted.{HasFormat, validate_page_iff}
use mo_db.Storage.SlottedPage.History.{Op, perform, perform_all}
use mo_db.Storage.SlottedPage.History.Steps.{IsOp, IsNext, perform-IsNext}

pub create-IsBytePage : IsBytePage create
unfolding create write_u64
create-IsBytePage = copy-IsBytePage (store_le 8 0) 20 _ (store_le-IsBytes 8 0) (
    copy-IsBytePage (store_le 8 0) 12 _ (store_le-IsBytes 8 0) (
      write_u16-IsBytePage 10 8192 _ (
        write_u16-IsBytePage 8 28 _ (
          write_u16-IsBytePage 6 0 _ (
            copy-IsBytePage (4 ∷ []) 4 _ (omega arith, tt)
              (copy-IsBytePage (83 ∷ 76 ∷ 80 ∷ 71 ∷ []) 0 (λ i. 0)
                (omega arith, (omega arith, (omega arith, (omega arith, tt))))
                (record { at = λ i. omega arith })))))))

create-header : (slot_count create ≡ 0) × (free_start create ≡ 28) × (free_end create ≡ 8192)
unfolding create slot_count free_start free_end write_u16 write_u64 read_u16 subspan copy store_le
    load_le load_le_loop
create-header = (refl, refl, refl)

pub create-IsPage : IsPage create
create-IsPage =
    let (count, start, end) = create-header in
    record {
      bytes = create-IsBytePage;
      directory = omega (arith, count, start);
      low = omega (arith, start, end);
      high = omega (arith, end);
      slot = λ i a. absurd (omega (arith, a, count));
      apart = λ i j a. absurd (omega (arith, a, count));
    }

create-HasFormat : HasFormat create
unfolding create write_u16 write_u64 subspan copy store_le
create-HasFormat = (refl, inl refl)

keep-HasFormat : (p q : Page) → ((i : ℕ) → i < 6 → q i ≡ p i) → HasFormat p → HasFormat q
keep-HasFormat p q h (m, v) = (
  subspan-cong q p 0 4 (λ i a b. h i (omega arith)) ∙ m,
  elim v [ inl e ↦ inl (h 4 (omega arith) ∙ e) | inr e ↦ inr (h 4 (omega arith) ∙ e) ],
)

pub perform_all-IsNext :
    (ops : List Op) (p : Page) → All IsOp ops → IsPage p → IsNext p (perform_all ops p)
unfolding perform_all
perform_all-IsNext [] p h w = record {
  page = w;
  front = λ i a. refl;
  aged = record { count = omega arith; slot = λ i a. inl (refl, λ z. z) };
}
perform_all-IsNext (op ∷ ops) p (h, hs) w =
    let n : IsNext p (perform op p) = perform-IsNext op p w h in
    let later : IsNext (perform op p) (perform_all ops (perform op p)) =
      perform_all-IsNext ops (perform op p) hs n.page in
    record {
      page = later.page;
      front = λ i a. later.front i a ∙ n.front i a;
      aged = trans-IsAged p (perform op p) (perform_all ops (perform op p)) n.aged later.aged;
    }

-- A page that any operations make of a new one, whether they succeed or fail, is accepted by
-- `validate_page`, if the records are bytes and the links 64-bit words.
pub perform_all-validate_page :
    (ops : List Op) → All IsOp ops → validate_page (perform_all ops create) ≡ ok tt
perform_all-validate_page ops h =
    let n : IsNext create (perform_all ops create) =
      perform_all-IsNext ops create h create-IsPage in
    (validate_page_iff (perform_all ops create) n.page.bytes).1
      (keep-HasFormat create (perform_all ops create) n.front create-HasFormat, n.page)

-- The generation of a slot that was live, after it was erased.
ok_inj : (a b : ℕ) → Path (Result ℕ) (ok a) (ok b) → a ≡ b
ok_inj a b h = cc

err-ne : {n : ℕ} → Path (Result ℕ) (err slot_not_found) (ok n) → ⊥
err-ne h = cc

erased_slot :
    (p q : Page) (slot : ℕ)
    → slot < slot_count p
    → record_size p slot ≡ 0
    → IsAged p q
    → generation_in q slot ≢ ok (slot_generation p slot)
unfolding generation_in
erased_slot p q slot there free aged e = elim (missing_cases q slot) [
  | inl gone ↦ err-ne (rw gone at e)
  | inr (a, live) ↦ elim (aged.slot slot there) [
    | inl (same, kept) ↦ live (kept free)
    | inr grown ↦ omega (
      arith,
      grown,
      ok_inj (slot_generation q slot) (slot_generation p slot)
          (sym (read_in-present q slot a live).1 ∙ e),
    )
  ]
]

generation_there :
    (p : Page) (slot g : ℕ)
    → generation_in p slot ≡ ok g
    → (slot < slot_count p) × (slot_generation p slot ≡ g) × (record_size p slot ≢ 0)
unfolding generation_in
generation_there p slot g e = elim (missing_cases p slot) [
  | inl gone ↦ absurd (err-ne (rw gone at e))
  | inr (a, live) ↦
      (a, ok_inj (slot_generation p slot) g (sym (read_in-present p slot a live).1 ∙ e), live)
]

-- A record id that was erased stays out of date: a live slot can be erased, and whatever operations
-- follow on the page, succeeding or failing, the slot never shows the generation that it had.
pub erase-perform_all :
    (p : Page) (slot g : ℕ) (ops : List Op)
    → IsPage p
    → generation_in p slot ≡ ok g
    → All IsOp ops
    → (q : Page) × (erase slot p ≡ ok q) × (generation_in (perform_all ops q) slot ≢ ok g)
erase-perform_all p slot g ops w e h =
    let (there, gen, live) = generation_there p slot g e in
    elim (erase_lem p slot w) [
      | inl (gone, bad) ↦ absurd (err_list-ne (sym gone ∙ (read_in-present p slot there live).0))
      | inr (q, k, x) ↦
          let n : IsNext q (perform_all ops q) = perform_all-IsNext ops q h x.page in
          (
            q,
            k,
            λ u.
                erased_slot q (perform_all ops q) slot (omega (arith, there, x.count)) x.free n.aged
                  (u ∙ ap ok (sym (x.generation ∙ gen))),
          )
    ]
  where
    err_list-ne : {b : List ℕ} → Path (Result (List ℕ)) (err slot_not_found) (ok b) → ⊥
    err_list-ne h' = cc
