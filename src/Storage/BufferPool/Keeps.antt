-- ===== src/Storage/BufferPool/Keeps.antt =====
-- The operations keep the frames in the lists where they belong.
use mo_db.Prelude.{
  ℕ, zero, suc, ◌+◌, ◌-◌, ◌%◌, ◌^◌, ◌≡◌, ◌≢◌, refl, ◌∙◌, Bool, true, false, not, ◌&&◌, Option, none,
  some, List, [], ◌∷◌, All, length, ltb, ◌==◌, Bool-cases, inl, inr,
}
use mo_db.Error.{Result, ok, err}
use mo_db.Storage.BufferPool.{
  Frame, Metrics, BufferPool, Spot, can_evict, close, find_page, touch, place, drop_last,
  evict_loop, evict_until, get, get_found, put, put_found, invalidate, invalidate_found, pin,
  pin_found, unpin, unpin_found, put_dirty, put_dirty_found, size,
}
use mo_db.Storage.BufferPool.WriteBack.{
  Writer, flush_step, flush_loop, flush_end, flush_dirty, discard_loop, discard_dirty, stay,
  release, written_by, clean, Flushed,
}
use mo_db.Storage.BufferPool.Partition.{
  IsIn, IsPartition, IsSpot, IsPlaced, IsSome, find_page-IsSome, place-IsPlaced, touch-IsPlaced,
  close-IsPartition, erase-IsPartition,
}

pub drop_last-All {κ} : (P : Frame → Type κ) (fs : List Frame) → All P fs → All P (drop_last fs)
drop_last-All P [] h = tt
drop_last-All P (f ∷ []) h = tt
drop_last-All P (f ∷ (g ∷ fs)) (hf, h) = (hf, drop_last-All P (g ∷ fs) h)

evict_loop-IsPartition :
    (fuel max_size : ℕ) (pool : BufferPool)
    → IsPartition pool
    → IsPartition (evict_loop fuel max_size pool)
unfolding evict_loop
evict_loop-IsPartition zero max_size pool h = h
evict_loop-IsPartition (suc fuel) max_size pool h =
    elim (Bool-cases (ltb max_size (size pool) && not (length pool.entries == 0))) [
      | inl more ↦ rw more (
          evict_loop-IsPartition fuel max_size _
            (record { entries = drop_last-All (IsIn false) pool.entries h.entries; held = h.held }))
      | inr done ↦ rw done h
    ]

pub evict_until-IsPartition :
    (max_size : ℕ) (pool : BufferPool) → IsPartition pool → IsPartition (evict_until max_size pool)
unfolding evict_until
evict_until-IsPartition max_size pool h =
    evict_loop-IsPartition (length pool.entries) max_size pool h

-- A changed frame is placed anew.
changed-IsPlaced :
    (s : Spot) (f : Frame)
    → f.held ≡ s.frame.held
    → IsSpot s
    → IsPlaced (place (record s { frame = f }))
changed-IsPlaced s f e h =
    place-IsPlaced (record s { frame = f })
      (record { flagged = e ∙ h.flagged; before = h.before; behind = h.behind; other = h.other })

front-IsPartition :
    (s : Spot) (f : Frame) (pool : BufferPool)
    → f.held ≡ s.frame.held
    → IsSpot s
    → IsPartition (close (touch (place (record s { frame = f }))) pool)
front-IsPartition s f pool e h =
    close-IsPartition (touch (place (record s { frame = f }))) pool
      (touch-IsPlaced (place (record s { frame = f })) (changed-IsPlaced s f e h))

pub get-IsPartition :
    (page : ℕ) (pool : BufferPool) → IsPartition pool → IsPartition (get page pool).1
unfolding get get_found IsSome
get-IsPartition page pool h = go (find_page page pool) (find_page-IsSome page pool h)
  where
    go : (o : Option Spot) → IsSome o → IsPartition (get_found pool o).1
    go none k = record { entries = h.entries; held = h.held }
    go (some s) k =
        close-IsPartition (touch s)
          (record pool { counts = record pool.counts { hits = (pool.counts.hits + 1) % 2 ^ 64 } })
          (touch-IsPlaced s k)

pub put-IsPartition :
    (page : ℕ) (contents : List ℕ) (pool : BufferPool)
    → IsPartition pool
    → IsPartition (put page contents pool)
unfolding put put_found IsSome can_evict
put-IsPartition page contents pool h = go (find_page page pool) (find_page-IsSome page pool h)
  where
    go : (o : Option Spot) → IsSome o → IsPartition (put_found page contents pool o)
    go (some s) k =
        front-IsPartition s (record s.frame { page = contents; dirty = false }) pool refl k.spot
    go none k =
        let smaller : IsPartition (evict_until (pool.capacity - 1) pool) =
          evict_until-IsPartition (pool.capacity - 1) pool h in
        record {
          entries = (record { flagged = refl; evictable = refl }, smaller.entries);
          held = smaller.held;
        }

pub put_dirty-IsPartition :
    (page : ℕ) (contents : List ℕ) (pool : BufferPool)
    → IsPartition pool
    → IsPartition (put_dirty page contents pool)
unfolding put_dirty put_dirty_found IsSome can_evict
put_dirty-IsPartition page contents pool h = go (find_page page pool) (find_page-IsSome page pool h)
  where
    go : (o : Option Spot) → IsSome o → IsPartition (put_dirty_found page contents pool o)
    go (some s) k =
        front-IsPartition s (record s.frame { page = contents; dirty = true }) pool refl k.spot
    go none k = record {
      entries = h.entries;
      held = (record { flagged = refl; evictable = refl }, h.held);
    }

pub invalidate-IsPartition :
    (page : ℕ) (pool : BufferPool) → IsPartition pool → IsPartition (invalidate page pool)
unfolding invalidate invalidate_found IsSome
invalidate-IsPartition page pool h = go (find_page page pool) (find_page-IsSome page pool h)
  where
    go : (o : Option Spot) → IsSome o → IsPartition (invalidate_found pool o)
    go none k = h
    go (some s) k = elim (Bool-cases (ltb 0 s.frame.pin_count)) [
      | inl pinned ↦ rw pinned h
      | inr free ↦ rw free (erase-IsPartition s pool k.spot)
    ]

pub unpin-IsPartition :
    (page : ℕ) (pool : BufferPool) → IsPartition pool → IsPartition (unpin page pool)
unfolding unpin unpin_found IsSome
unpin-IsPartition page pool h = go (find_page page pool) (find_page-IsSome page pool h)
  where
    go : (o : Option Spot) → IsSome o → IsPartition (unpin_found pool o)
    go none k = h
    go (some s) k = elim (Bool-cases (s.frame.pin_count == 0)) [
      | inl free ↦ rw free h
      | inr pinned ↦ rw pinned (
          close-IsPartition
            (place (record s { frame = record s.frame { pin_count = s.frame.pin_count - 1 } })) pool
            (changed-IsPlaced s (record s.frame { pin_count = s.frame.pin_count - 1 }) refl k.spot))
    ]

-- `pin` fails if the page is not resident, and the pool is as it was.
abbrev pub after_pin : BufferPool → Result BufferPool → BufferPool
after_pin pool (ok pool') = pool'
after_pin pool (err e) = pool

pub pin-IsPartition :
    (page : ℕ) (pool : BufferPool) → IsPartition pool → IsPartition (after_pin pool (pin page pool))
unfolding pin pin_found IsSome
pin-IsPartition page pool h = go (find_page page pool) (find_page-IsSome page pool h)
  where
    go : (o : Option Spot) → IsSome o → IsPartition (after_pin pool (pin_found pool o))
    go none k = h
    go (some s) k =
        front-IsPartition s (record s.frame { pin_count = (s.frame.pin_count + 1) % 2 ^ 32 }) pool
          refl k.spot

and_right : (a b : Bool) → a && b ≡ true → b ≡ true
and_right true b h = h
and_right false b h = absurd (false-ne-true h)
  where
    false-ne-true : false ≢ true
    false-ne-true e = cc

release-All : (f : Frame) (es : List Frame) → All (IsIn false) es → All (IsIn false) (release f es)
unfolding can_evict
release-All f es h = elim (Bool-cases (f.dirty && can_evict (clean f))) [
  | inl free ↦ rw free (record { flagged = refl; evictable = and_right f.dirty _ free }, h)
  | inr bound ↦ rw bound h
]

stay-All :
    (f : Frame) (fs : List Frame) → IsIn true f → All (IsIn true) fs → All (IsIn true) (stay f fs)
stay-All f fs hf h = elim (Bool-cases f.dirty) [
  | inr already ↦ rw already (rw already at hf, h)
  | inl dirty ↦ elim (Bool-cases (can_evict (clean f))) [
    | inl free ↦ rw (dirty, free) h
    | inr bound ↦ rw (dirty, bound) (record { flagged = hf.flagged; evictable = bound }, h)
  ]
]

flush_step-All :
    (f : Frame) (fs es : List Frame) (later : Flushed) (o : Result (Unit {0}))
    → All (IsIn true) (f ∷ fs)
    → All (IsIn false) es
    → All (IsIn true) later.still_held × All (IsIn false) later.released
    → All (IsIn true) (flush_step f fs es later o).still_held
      × All (IsIn false) (flush_step f fs es later o).released
unfolding flush_step
flush_step-All f fs es later (err e) h k l = (h, k)
flush_step-All f fs es later (ok u) h k l = (stay-All f later.still_held h.0 l.0, l.1)

flush_loop-All :
    (writer : Writer) (fs es : List Frame)
    → All (IsIn true) fs
    → All (IsIn false) es
    → All (IsIn true) (flush_loop writer fs es).still_held
      × All (IsIn false) (flush_loop writer fs es).released
unfolding flush_loop
flush_loop-All writer [] es h k = (tt, k)
flush_loop-All writer (f ∷ fs) es h k =
    flush_step-All f fs es (flush_loop writer fs (release f es)) (written_by writer f) h k
      (flush_loop-All writer fs (release f es) h.1 (release-All f es k))

flush_end-IsPartition :
    (pool : BufferPool) (o : Result (Unit {0}))
    → IsPartition pool
    → IsPartition (flush_end pool o).1
unfolding flush_end
flush_end-IsPartition pool (err e) h = h
flush_end-IsPartition pool (ok u) h = evict_until-IsPartition pool.capacity pool h

pub flush_dirty-IsPartition :
    (writer : Writer) (pool : BufferPool)
    → IsPartition pool
    → IsPartition (flush_dirty writer pool).1
unfolding flush_dirty
flush_dirty-IsPartition writer pool h =
    let flushed = flush_loop writer pool.held_frames pool.entries in
    let (still, freed) = flush_loop-All writer pool.held_frames pool.entries h.held h.entries in
    let counts : Metrics = record pool.counts {
      dirty_flushes = (pool.counts.dirty_flushes + flushed.written) % 2 ^ 64;
    } in
    let after : BufferPool = record pool {
      entries = flushed.released;
      held_frames = flushed.still_held;
      counts = counts;
    } in
    flush_end-IsPartition after flushed.result (record { entries = freed; held = still })

discard_loop-All : (fs : List Frame) → All (IsIn true) fs → All (IsIn true) (discard_loop fs)
unfolding discard_loop can_evict
discard_loop-All [] h = tt
discard_loop-All (f ∷ fs) (hf, h) = elim (Bool-cases f.dirty) [
  | inr already ↦ rw already (rw already at hf, discard_loop-All fs h)
  | inl dirty ↦ elim (Bool-cases (f.pin_count == 0)) [
    | inl free ↦ rw (dirty, free) (discard_loop-All fs h)
    | inr bound ↦
        rw (dirty, bound)
          (record { flagged = hf.flagged; evictable = rw bound refl }, discard_loop-All fs h)
  ]
]

pub discard_dirty-IsPartition :
    (pool : BufferPool) → IsPartition pool → IsPartition (discard_dirty pool)
unfolding discard_dirty
discard_dirty-IsPartition pool h =
    evict_until-IsPartition pool.capacity
      (record pool { held_frames = discard_loop pool.held_frames })
      (record { entries = h.entries; held = discard_loop-All pool.held_frames h.held })
