-- ===== src/Tests/CrashRuns.antt =====
-- A transaction with one page, its log, and the recovery from what a crash leaves of it.
use mo_db.Prelude.{ℕ, zero, suc, List, [], ◌∷◌}
use mo_db.Tx.Wal.{page_size}
use mo_db.Tx.Writer.{Wal}
use mo_db.Tx.Writer.Reading.{Append, of_begin, of_image, of_commit}
use mo_db.Tx.Recovery.{PageFile}

abbrev zeros : ℕ → List ℕ
zeros zero = []
zeros (suc n) = 0 ∷ zeros n

abbrev calls : List Append
calls = of_begin 7 ∷ of_image 7 2 (zeros page_size) ∷ of_commit 7 ∷ []

abbrev before : PageFile
before = record { page_count = 4; page = λ p. p ∷ [] }
