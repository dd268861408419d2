-- ===== src/Storage/BufferPool/WriteBack.antt =====
-- src/storage/buffer_pool.cpp: writing dirty pages back, discarding them, and the counters. The
-- writer is a parameter; the state that it writes to is not part of the pool.
use mo_db.Prelude.{ℕ, ◌+◌, ◌%◌, ◌^◌, false, not, ◌&&◌, List, [], ◌∷◌, ltb, ◌==◌, if◌then◌else◌}
use mo_db.Error.{Result, ok, err}
use mo_db.Storage.BufferPool.{Frame, Metrics, no_metrics, BufferPool, can_evict, evict_until}

abbrev pub Writer : Type 0
Writer = ℕ → List ℕ → Result (Unit {0})

-- What the loop leaves: its result, both lists and the number of pages written.
pub record Flushed : Type 0 where
  pub result : Result (Unit {0})
  pub still_held : List Frame
  pub released : List Frame
  pub written : ℕ

abbrev pub clean : Frame → Frame
clean f = record f { dirty = false }

-- A frame that was written is released to the front of the entries unless it is pinned.
abbrev pub release : Frame → List Frame → List Frame
release f entries =
    if f.dirty && can_evict (clean f) then record (clean f) { held = false } ∷ entries else entries

-- A frame passed over, or written: what stays in the list.
abbrev pub stay : Frame → List Frame → List Frame
stay f fs = if not f.dirty then f ∷ fs else if can_evict (clean f) then fs else clean f ∷ fs

abbrev pub written_by : Writer → Frame → Result (Unit {0})
written_by writer f = if not f.dirty then ok tt else writer f.page_id f.page

-- A round, with what the writer answered and what the later rounds leave: an error ends the loop.
unfoldable pub flush_step : Frame → List Frame → List Frame → Flushed → Result (Unit {0}) → Flushed
unfolding can_evict
flush_step f fs entries later (err e) = record {
  result = err e;
  still_held = f ∷ fs;
  released = entries;
  written = 0;
}
flush_step f fs entries later (ok u) = record later {
  still_held = stay f later.still_held;
  written = if f.dirty then later.written + 1 else later.written;
}

unfoldable pub flush_loop : Writer → List Frame → List Frame → Flushed
unfolding can_evict flush_step
flush_loop writer [] entries = record {
  result = ok tt;
  still_held = [];
  released = entries;
  written = 0;
}
flush_loop writer (f ∷ fs) entries =
    flush_step f fs entries (flush_loop writer fs (release f entries)) (written_by writer f)

-- After an error nothing is evicted.
unfoldable pub flush_end : BufferPool → Result (Unit {0}) → Result (Unit {0}) × BufferPool
unfolding evict_until
flush_end pool (err e) = (err e, pool)
flush_end pool (ok u) = (ok tt, evict_until pool.capacity pool)

unfoldable pub flush_dirty : Writer → BufferPool → Result (Unit {0}) × BufferPool
unfolding flush_loop flush_end
flush_dirty writer pool =
    let flushed = flush_loop writer pool.held_frames pool.entries in
    flush_end
      (record pool {
        entries = flushed.released;
        held_frames = flushed.still_held;
        counts = record pool.counts {
          dirty_flushes = (pool.counts.dirty_flushes + flushed.written) % 2 ^ 64;
        };
      })
      flushed.result

-- The loop over the held frames: a dirty frame without a pin goes, a pinned one is clean.
unfoldable pub discard_loop : List Frame → List Frame
discard_loop [] = []
discard_loop (f ∷ fs) =
    let later = discard_loop fs in
    if not f.dirty then f ∷ later else if f.pin_count == 0 then later else clean f ∷ later

unfoldable pub discard_dirty : BufferPool → BufferPool
unfolding discard_loop evict_until
discard_dirty pool =
    evict_until pool.capacity (record pool { held_frames = discard_loop pool.held_frames })

unfoldable pub count_pinned : List Frame → ℕ
count_pinned [] = 0
count_pinned (f ∷ fs) = if ltb 0 f.pin_count then count_pinned fs + 1 else count_pinned fs

unfoldable pub count_dirty : List Frame → ℕ
count_dirty [] = 0
count_dirty (f ∷ fs) = if f.dirty then count_dirty fs + 1 else count_dirty fs

unfoldable pub pinned_count : BufferPool → ℕ
unfolding count_pinned
pinned_count pool = count_pinned pool.held_frames

unfoldable pub dirty_count : BufferPool → ℕ
unfolding count_dirty
dirty_count pool = count_dirty pool.held_frames

unfoldable pub metrics : BufferPool → Metrics
unfolding pinned_count
metrics pool = record pool.counts { pinned = pinned_count pool }

unfoldable pub reset_metrics : BufferPool → BufferPool
reset_metrics pool = record pool { counts = no_metrics }

unfoldable pub record_dirty_flushes : ℕ → BufferPool → BufferPool
record_dirty_flushes n pool = record pool {
  counts = record pool.counts { dirty_flushes = (pool.counts.dirty_flushes + n) % 2 ^ 64 };
}
