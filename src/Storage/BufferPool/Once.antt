-- ===== src/Storage/BufferPool/Once.antt =====
-- No page gets a second frame.
use mo_db.Prelude.{
  ℕ, ◌+◌, ◌-◌, ◌%◌, ◌^◌, ◌≤◌, ◌≡◌, refl, sym, ap, ◌∙◌, arith, true, false, Option, none, some, List,
  [], ◌∷◌, ltb, ◌==◌, if◌then◌else◌, ==_iff, Bool-cases, inl, inr,
}
use mo_db.Error.{Result, ok, err}
use mo_db.Storage.BufferPool.{
  Frame, BufferPool, Spot, can_evict, close, find_page, touch, place, evict_until, get, get_found,
  put, put_found, invalidate, invalidate_found, pin, pin_found, unpin, unpin_found, put_dirty,
  put_dirty_found,
}
use mo_db.Storage.BufferPool.WriteBack.{
  Writer, flush_step, flush_loop, flush_end, flush_dirty, discard_loop, discard_dirty, release,
  written_by, clean, Flushed,
}
use mo_db.Storage.BufferPool.Keeps.{after_pin}
use mo_db.Storage.BufferPool.Count.{
  one, count, frames, spot_count, Counted, find_page-Counted, spot_count-touch, spot_count-place,
  frames-close, frames-erase, frames-evict_until,
}

abbrev pub IsUnique : BufferPool → Type 0
IsUnique pool = (p : ℕ) → frames p pool ≤ 1

-- A frame that was changed and placed anew, or only moved.
frames-placed :
    (p : ℕ) (s : Spot) (f : Frame) (pool : BufferPool)
    → f.page_id ≡ s.frame.page_id
    → frames p (close (place (record s { frame = f })) pool) ≡ spot_count p s
unfolding spot_count
frames-placed p s f pool e =
    frames-close p (place (record s { frame = f })) pool
    ∙ spot_count-place p (record s { frame = f })
    ∙ ap
        (λ (n : ℕ).
          count p s.before + (if n == p then 1 else 0) + count p s.behind + count p s.other)
        e

frames-front :
    (p : ℕ) (s : Spot) (f : Frame) (pool : BufferPool)
    → f.page_id ≡ s.frame.page_id
    → frames p (close (touch (place (record s { frame = f }))) pool) ≡ spot_count p s
unfolding spot_count
frames-front p s f pool e =
    frames-close p (touch (place (record s { frame = f }))) pool
    ∙ spot_count-touch p (place (record s { frame = f }))
    ∙ spot_count-place p (record s { frame = f })
    ∙ ap
        (λ (n : ℕ).
          count p s.before + (if n == p then 1 else 0) + count p s.behind + count p s.other)
        e

-- A new frame of a page that has none.
added : (p page n m : ℕ) → n ≤ 1 → m ≤ n → (page ≡ p → n ≡ 0) → (if page == p then 1 else 0) + m ≤ 1
added p page n m h k fresh = elim (Bool-cases (page == p)) [
  | inl same ↦ rw same (omega (arith, fresh ((==_iff page p).0 same)))
  | inr other ↦ rw other (omega arith)
]

pub get-IsUnique : (page : ℕ) (pool : BufferPool) → IsUnique pool → IsUnique (get page pool).1
unfolding get get_found Counted frames
get-IsUnique page pool h p = go (find_page page pool) (find_page-Counted p page pool)
  where
    go :
        (o : Option Spot)
        → Counted p (frames p pool) (frames page pool) o
        → frames p (get_found pool o).1 ≤ 1
    go none k = h p
    go (some s) k =
        let counted : BufferPool = record pool {
          counts = record pool.counts { hits = (pool.counts.hits + 1) % 2 ^ 64 };
        } in
        omega (arith, frames-close p (touch s) counted, spot_count-touch p s, k, h p)

pub put-IsUnique :
    (page : ℕ) (contents : List ℕ) (pool : BufferPool)
    → IsUnique pool
    → IsUnique (put page contents pool)
unfolding put put_found Counted frames count
put-IsUnique page contents pool h p = go (find_page page pool) (find_page-Counted p page pool)
  where
    go :
        (o : Option Spot)
        → Counted p (frames p pool) (frames page pool) o
        → frames p (put_found page contents pool o) ≤ 1
    go (some s) k = omega (
      arith,
      frames-front p s (record s.frame { page = contents; dirty = false }) pool refl,
      k,
      h p,
    )
    go none k =
        let smaller : BufferPool = evict_until (pool.capacity - 1) pool in
        let bound : frames p smaller ≤ frames p pool =
          frames-evict_until p (pool.capacity - 1) pool in
        omega (
          arith,
          added p page (frames p pool) (frames p smaller) (h p) bound
              (λ e. ap (λ (q : ℕ). frames q pool) (sym e) ∙ k),
        )

pub put_dirty-IsUnique :
    (page : ℕ) (contents : List ℕ) (pool : BufferPool)
    → IsUnique pool
    → IsUnique (put_dirty page contents pool)
unfolding put_dirty put_dirty_found Counted frames count
put_dirty-IsUnique page contents pool h p = go (find_page page pool) (find_page-Counted p page pool)
  where
    go :
        (o : Option Spot)
        → Counted p (frames p pool) (frames page pool) o
        → frames p (put_dirty_found page contents pool o) ≤ 1
    go (some s) k = omega (
      arith,
      frames-front p s (record s.frame { page = contents; dirty = true }) pool refl,
      k,
      h p,
    )
    go none k =
        let same : frames p pool ≤ frames p pool = omega arith in
        omega (
          arith,
          added p page (frames p pool) (frames p pool) (h p) same
              (λ e. ap (λ (q : ℕ). frames q pool) (sym e) ∙ k),
        )

pub invalidate-IsUnique :
    (page : ℕ) (pool : BufferPool) → IsUnique pool → IsUnique (invalidate page pool)
unfolding invalidate invalidate_found Counted
invalidate-IsUnique page pool h p = go (find_page page pool) (find_page-Counted p page pool)
  where
    go :
        (o : Option Spot)
        → Counted p (frames p pool) (frames page pool) o
        → frames p (invalidate_found pool o) ≤ 1
    go none k = h p
    go (some s) k = elim (Bool-cases (ltb 0 s.frame.pin_count)) [
      | inl pinned ↦ rw pinned (h p)
      | inr free ↦ rw free (omega (arith, frames-erase p s pool, k, h p))
    ]

pub unpin-IsUnique : (page : ℕ) (pool : BufferPool) → IsUnique pool → IsUnique (unpin page pool)
unfolding unpin unpin_found Counted
unpin-IsUnique page pool h p = go (find_page page pool) (find_page-Counted p page pool)
  where
    go :
        (o : Option Spot)
        → Counted p (frames p pool) (frames page pool) o
        → frames p (unpin_found pool o) ≤ 1
    go none k = h p
    go (some s) k = elim (Bool-cases (s.frame.pin_count == 0)) [
      | inl free ↦ rw free (h p)
      | inr pinned ↦ rw pinned (
          omega (
            arith,
            frames-placed p s (record s.frame { pin_count = s.frame.pin_count - 1 }) pool refl,
            k,
            h p,
          ))
    ]

pub pin-IsUnique :
    (page : ℕ) (pool : BufferPool) → IsUnique pool → IsUnique (after_pin pool (pin page pool))
unfolding pin pin_found Counted
pin-IsUnique page pool h p = go (find_page page pool) (find_page-Counted p page pool)
  where
    go :
        (o : Option Spot)
        → Counted p (frames p pool) (frames page pool) o
        → frames p (after_pin pool (pin_found pool o)) ≤ 1
    go none k = h p
    go (some s) k = omega (
      arith,
      frames-front p s (record s.frame { pin_count = (s.frame.pin_count + 1) % 2 ^ 32 }) pool refl,
      k,
      h p,
    )

discard_loop-count : (p : ℕ) (fs : List Frame) → count p (discard_loop fs) ≤ count p fs
unfolding count discard_loop
discard_loop-count p [] = omega arith
discard_loop-count p (f ∷ fs) = elim (Bool-cases f.dirty) [
  | inr already ↦ rw already (omega (arith, discard_loop-count p fs))
  | inl dirty ↦ elim (Bool-cases (f.pin_count == 0)) [
    | inl free ↦ rw (dirty, free) (omega (arith, discard_loop-count p fs))
    | inr bound ↦ rw (dirty, bound) (omega (arith, discard_loop-count p fs))
  ]
]

pub discard_dirty-IsUnique : (pool : BufferPool) → IsUnique pool → IsUnique (discard_dirty pool)
unfolding discard_dirty frames
discard_dirty-IsUnique pool h p =
    let left : BufferPool = record pool { held_frames = discard_loop pool.held_frames } in
    omega
      (arith, frames-evict_until p pool.capacity left, discard_loop-count p pool.held_frames, h p)

flush_step-count :
    (p : ℕ) (f : Frame) (fs es : List Frame) (later : Flushed) (o : Result (Unit {0}))
    → count p later.still_held + count p later.released ≡ count p fs + count p (release f es)
    → count p (flush_step f fs es later o).still_held
        + count p (flush_step f fs es later o).released
      ≡ one p f + count p fs + count p es
unfolding flush_step count
flush_step-count p f fs es later (err e) h = omega arith
flush_step-count p f fs es later (ok u) h = elim (Bool-cases f.dirty) [
  | inr already ↦ rw already (omega (arith, rw already at h))
  | inl dirty ↦ elim (Bool-cases (can_evict (clean f))) [
    | inl free ↦ rw (dirty, free) (omega (arith, rw (dirty, free) at h))
    | inr bound ↦ rw (dirty, bound) (omega (arith, rw (dirty, bound) at h))
  ]
]

flush_loop-count :
    (p : ℕ) (writer : Writer) (fs es : List Frame)
    → count p (flush_loop writer fs es).still_held + count p (flush_loop writer fs es).released
      ≡ count p fs + count p es
unfolding flush_loop count
flush_loop-count p writer [] es = refl
flush_loop-count p writer (f ∷ fs) es =
    flush_step-count p f fs es (flush_loop writer fs (release f es)) (written_by writer f)
      (flush_loop-count p writer fs (release f es))

frames-flush_end :
    (p : ℕ) (pool : BufferPool) (o : Result (Unit {0}))
    → frames p (flush_end pool o).1 ≤ frames p pool
unfolding flush_end
frames-flush_end p pool (err e) = omega arith
frames-flush_end p pool (ok u) = frames-evict_until p pool.capacity pool

pub flush_dirty-IsUnique :
    (writer : Writer) (pool : BufferPool) → IsUnique pool → IsUnique (flush_dirty writer pool).1
unfolding flush_dirty frames
flush_dirty-IsUnique writer pool h p =
    let flushed : Flushed = flush_loop writer pool.held_frames pool.entries in
    let after : BufferPool = record pool {
      entries = flushed.released;
      held_frames = flushed.still_held;
      counts = record pool.counts {
        dirty_flushes = (pool.counts.dirty_flushes + flushed.written) % 2 ^ 64;
      };
    } in
    omega (
      arith,
      frames-flush_end p after flushed.result,
      flush_loop-count p writer pool.held_frames pool.entries,
      h p,
    )
