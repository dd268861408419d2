-- ===== src/Storage/BufferPool/Size.antt =====
-- The size of the pool after an eviction and an insertion.
use mo_db.Prelude.{
  ℕ, ◌⊎◌, zero, suc, ◌+◌, ◌-◌, ◌%◌, ◌^◌, ◌≤◌, ◌≡◌, refl, arith, Bool, true, false, none, List, [],
  ◌∷◌, length, ltb, ltb-false→le, ◌==◌, ==_iff, Bool-cases, inl, inr,
}
use mo_db.Storage.BufferPool.{
  Frame, BufferPool, find_in, find_page, drop_last, evict_loop, evict_until, put, put_found, size,
}
use mo_db.Storage.BufferPool.Count.{count, frames}

length-drop_last : (fs : List Frame) → length (drop_last fs) ≡ length fs - 1
length-drop_last [] = omega arith
length-drop_last (f ∷ []) = omega arith
length-drop_last (f ∷ (g ∷ fs)) = omega (arith, length-drop_last (g ∷ fs))

abbrev smaller : BufferPool → BufferPool
smaller pool = record pool {
  entries = drop_last pool.entries;
  counts = record pool.counts { evictions = (pool.counts.evictions + 1) % 2 ^ 64 };
}

evict_loop-size :
    (fuel max_size : ℕ) (pool : BufferPool)
    → length pool.entries ≤ fuel
    → (size (evict_loop fuel max_size pool) ≤ max_size)
      ⊎ (length (evict_loop fuel max_size pool).entries ≡ 0)
unfolding evict_loop size
evict_loop-size zero max_size pool h = inr (omega arith)
evict_loop-size (suc fuel) max_size pool h = elim (Bool-cases (ltb max_size (size pool))) [
  | inr fits ↦ rw fits (inl (omega (arith, ltb-false→le max_size (size pool) fits)))
  | inl large ↦ elim (Bool-cases (length pool.entries == 0)) [
    | inl empty ↦ rw (large, empty) (inr ((==_iff (length pool.entries) 0).0 empty))
    | inr more ↦
        rw (large, more)
          (evict_loop-size fuel max_size (smaller pool)
            (omega (arith, length-drop_last pool.entries)))
  ]
]

-- `evict_until` ends with a pool of the size asked for, or without anything left to evict.
evict_until-size :
    (max_size : ℕ) (pool : BufferPool)
    → (size (evict_until max_size pool) ≤ max_size)
      ⊎ (length (evict_until max_size pool).entries ≡ 0)
unfolding evict_until
evict_until-size max_size pool = evict_loop-size (length pool.entries) max_size pool (omega arith)

pub find_in-none :
    (page : ℕ) (flag : Bool) (other fs : List Frame)
    → count page fs ≡ 0
    → find_in page flag other fs ≡ none
unfolding find_in count
find_in-none page flag other [] h = refl
find_in-none page flag other (f ∷ fs) h = elim (Bool-cases (f.page_id == page)) [
  | inl here ↦ absurd (omega (arith, rw here at h))
  | inr elsewhere ↦
      rw (elsewhere, find_in-none page flag other fs (omega (arith, rw elsewhere at h))) refl
]

pub find_page-none :
    (page : ℕ) (pool : BufferPool) → frames page pool ≡ 0 → find_page page pool ≡ none
unfolding find_page frames
find_page-none page pool h =
    rw
      (
        find_in-none page false pool.held_frames pool.entries (omega (arith, h)),
        find_in-none page true pool.entries pool.held_frames (omega (arith, h)),
      )
      refl

-- Putting a page that is not in the pool leaves at most `capacity` frames, unless the frames that
-- cannot be evicted fill it: then the new page is the only one that can.
pub put-size :
    (page : ℕ) (contents : List ℕ) (pool : BufferPool)
    → 1 ≤ pool.capacity
    → frames page pool ≡ 0
    → (size (put page contents pool) ≤ pool.capacity)
      ⊎ (length (put page contents pool).entries ≡ 1)
unfolding put put_found size
put-size page contents pool c h =
    rw (find_page-none page pool h) (elim (evict_until-size (pool.capacity - 1) pool) [
      | inl fits ↦ inl (omega (arith, fits))
      | inr empty ↦ inr (omega (arith, empty))
    ])
