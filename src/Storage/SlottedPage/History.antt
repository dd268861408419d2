-- ===== src/Storage/SlottedPage/History.antt =====
-- Sequences of operations on a page. One that fails leaves the page as it was.
pub mod Steps
pub mod Laws
use mo_db.Prelude.{ℕ, Option, List, [], ◌∷◌}
use mo_db.Error.{Result, ok, err}
use mo_db.Storage.SlottedPage.{Page, insert, update, erase}
use mo_db.Storage.SlottedPage.Links.{set_next_page, set_previous_page}

pub data Op : Type 0 where
  insert_record : List ℕ → Op
  update_record : ℕ → List ℕ → Op
  erase_record : ℕ → Op
  link_next : Option ℕ → Op
  link_previous : Option ℕ → Op

abbrev pub or_same : Page → Result Page → Page
or_same page (ok page') = page'
or_same page (err e) = page

abbrev pub inserted : Page → Result (ℕ × Page) → Page
inserted page (ok (slot, page')) = page'
inserted page (err e) = page

unfoldable pub perform : Op → Page → Page
unfolding insert update erase set_next_page set_previous_page
perform (insert_record bytes) page = inserted page (insert bytes page)
perform (update_record slot bytes) page = or_same page (update slot bytes page)
perform (erase_record slot) page = or_same page (erase slot page)
perform (link_next next) page = or_same page (set_next_page next page)
perform (link_previous previous) page = or_same page (set_previous_page previous page)

unfoldable pub perform_all : List Op → Page → Page
unfolding perform
perform_all [] page = page
perform_all (op ∷ ops) page = perform_all ops (perform op page)
