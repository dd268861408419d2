-- ===== src/Storage/BufferPool/Count.antt =====
-- How many frames a page has: moving frames does not change it.
use mo_db.Prelude.{
  ℕ, zero, suc, ◌+◌, ◌%◌, ◌^◌, ◌≤◌, ◌≡◌, refl, sym, ◌∙◌, arith, Bool, true, false, not, ◌&&◌,
  Option, none, some, List, [], ◌∷◌, ◌++◌, length, ltb, ◌==◌, if◌then◌else◌, Bool-cases, inl, inr,
}
use mathlib.Core.Path.{subst}
use mo_db.Storage.BufferPool.{
  Frame, BufferPool, Spot, can_evict, close, erase, find_in, find_page, or_else, further, same_flag,
  touch, place, drop_last, evict_loop, evict_until, size,
}

abbrev pub one : ℕ → Frame → ℕ
one p f = if f.page_id == p then 1 else 0

unfoldable pub count : ℕ → List Frame → ℕ
count p [] = 0
count p (f ∷ fs) = one p f + count p fs

-- The frames of a page in a pool.
unfoldable pub frames : ℕ → BufferPool → ℕ
unfolding count
frames p pool = count p pool.entries + count p pool.held_frames

pub count-append : (p : ℕ) (xs ys : List Frame) → count p (xs ++ ys) ≡ count p xs + count p ys
unfolding count
count-append p [] ys = omega arith
count-append p (x ∷ xs) ys = omega (arith, count-append p xs ys)

unfoldable pub spot_count : ℕ → Spot → ℕ
spot_count p s = count p s.before + one p s.frame + count p s.behind + count p s.other

-- What a search tells: the spot has the frames of the lists, or the page has none.
unfoldable pub Counted : ℕ → ℕ → ℕ → Option Spot → Type 0
Counted p n absent none = absent ≡ 0
Counted p n absent (some s) = spot_count p s ≡ n

Counted-eq :
    (p n n' m m' : ℕ) (o : Option Spot) → n ≡ n' → m ≡ m' → Counted p n m o → Counted p n' m' o
unfolding Counted
Counted-eq p n n' m m' none e f h = sym f ∙ h
Counted-eq p n n' m m' (some s) e f h = h ∙ e

further-Counted :
    (p n m : ℕ) (f : Frame) (o : Option Spot)
    → Counted p n m o
    → Counted p (one p f + n) m (further f o)
unfolding Counted spot_count count
further-Counted p n m f none h = h
further-Counted p n m f (some s) h = omega (arith, h)

find_in-Counted :
    (p page : ℕ) (flag : Bool) (other fs : List Frame)
    → Counted p (count p fs + count p other) (count page fs) (find_in page flag other fs)
unfolding find_in Counted spot_count count
find_in-Counted p page flag other [] = refl
find_in-Counted p page flag other (f ∷ fs) = elim (Bool-cases (f.page_id == page)) [
  | inl here ↦ rw here (omega arith)
  | inr elsewhere ↦ rw elsewhere (
      Counted-eq p (one p f + (count p fs + count p other)) (one p f + count p fs + count p other)
        (count page fs) (0 + count page fs) (further f (find_in page flag other fs)) (omega arith)
        (omega arith)
        (further-Counted p (count p fs + count p other) (count page fs) f
          (find_in page flag other fs) (find_in-Counted p page flag other fs)))
]

or_else-Counted :
    (p n a b : ℕ) (o q : Option Spot)
    → Counted p n a o
    → Counted p n b q
    → Counted p n (a + b) (or_else o q)
unfolding Counted
or_else-Counted p n a b (some s) q h k = h
or_else-Counted p n a b none (some s) h k = k
or_else-Counted p n a b none none h k = omega (arith, h, k)

pub find_page-Counted :
    (p page : ℕ) (pool : BufferPool)
    → Counted p (frames p pool) (frames page pool) (find_page page pool)
unfolding find_page frames
find_page-Counted p page pool =
    or_else-Counted p (frames p pool) (count page pool.entries) (count page pool.held_frames)
      (find_in page false pool.held_frames pool.entries)
      (find_in page true pool.entries pool.held_frames)
      (find_in-Counted p page false pool.held_frames pool.entries)
      (subst
        (λ n.
          Counted p n (count page pool.held_frames)
            (find_in page true pool.entries pool.held_frames))
        (omega arith) (find_in-Counted p page true pool.entries pool.held_frames))

pub spot_count-touch : (p : ℕ) (s : Spot) → spot_count p (touch s) ≡ spot_count p s
unfolding spot_count touch count
spot_count-touch p s = omega (arith, count-append p s.before s.behind)

pub spot_count-place : (p : ℕ) (s : Spot) → spot_count p (place s) ≡ spot_count p s
unfolding spot_count place count
spot_count-place p s = elim (Bool-cases (same_flag (not (can_evict s.frame)) s.frame.held)) [
  | inl stays ↦ rw stays refl
  | inr moves ↦ rw moves (omega (arith, count-append p s.before s.behind))
]

pub frames-close : (p : ℕ) (s : Spot) (pool : BufferPool) → frames p (close s pool) ≡ spot_count p s
unfolding frames close spot_count count
frames-close p s pool = elim (Bool-cases s.in_held) [
  | inl held ↦ rw held (omega (arith, count-append p s.before (s.frame ∷ s.behind)))
  | inr entry ↦ rw entry (omega (arith, count-append p s.before (s.frame ∷ s.behind)))
]

pub frames-erase : (p : ℕ) (s : Spot) (pool : BufferPool) → frames p (erase s pool) ≤ spot_count p s
unfolding frames erase spot_count count
frames-erase p s pool = elim (Bool-cases s.in_held) [
  | inl held ↦ rw held (omega (arith, count-append p s.before s.behind))
  | inr entry ↦ rw entry (omega (arith, count-append p s.before s.behind))
]

count-drop_last : (p : ℕ) (fs : List Frame) → count p (drop_last fs) ≤ count p fs
unfolding count
count-drop_last p [] = omega arith
count-drop_last p (f ∷ []) = omega arith
count-drop_last p (f ∷ (g ∷ fs)) = omega (arith, count-drop_last p (g ∷ fs))

frames-evict_loop :
    (p fuel max_size : ℕ) (pool : BufferPool)
    → frames p (evict_loop fuel max_size pool) ≤ frames p pool
unfolding evict_loop frames
frames-evict_loop p zero max_size pool = omega arith
frames-evict_loop p (suc fuel) max_size pool =
    let smaller : BufferPool = record pool {
      entries = drop_last pool.entries;
      counts = record pool.counts { evictions = (pool.counts.evictions + 1) % 2 ^ 64 };
    } in
    elim (Bool-cases (ltb max_size (size pool) && not (length pool.entries == 0))) [
      | inl more ↦
          rw more (
            omega
              (arith, frames-evict_loop p fuel max_size smaller, count-drop_last p pool.entries))
      | inr done ↦ rw done (omega arith)
    ]

pub frames-evict_until :
    (p max_size : ℕ) (pool : BufferPool) → frames p (evict_until max_size pool) ≤ frames p pool
unfolding evict_until
frames-evict_until p max_size pool = frames-evict_loop p (length pool.entries) max_size pool
