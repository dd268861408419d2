-- ===== src/Storage/BufferPool.antt =====
-- src/storage/buffer_pool.cpp: the frames of the pages in memory. The content of a page is the list
-- of its bytes. `index_` maps each page to its node in one of the two lists: it is the search in
-- them, and its size is the number of frames. An iterator is a `Spot`: the frame, what stands before
-- and behind it in its list, and the other list. The mutex makes each operation one step.
pub mod WriteBack
pub mod Partition
pub mod Keeps
pub mod Count
pub mod Once
pub mod History
pub mod Size
pub mod Reading
use mo_db.Prelude.{
  ℕ, zero, suc, ◌+◌, ◌-◌, ◌%◌, ◌^◌, Bool, true, false, not, ◌&&◌, Option, none, some, List, [], ◌∷◌,
  ◌++◌, length, ltb, ◌==◌, if◌then◌else◌,
}
use mo_db.Error.{Result, ok, err, page_not_found}

pub record Frame : Type 0 where
  pub page_id : ℕ
  pub page : List ℕ
  pub pin_count : ℕ
  pub dirty : Bool
  pub held : Bool

pub record Metrics : Type 0 where
  pub hits : ℕ
  pub misses : ℕ
  pub evictions : ℕ
  pub dirty_flushes : ℕ
  pub pinned : ℕ

abbrev pub no_metrics : Metrics
no_metrics = record { hits = 0; misses = 0; evictions = 0; dirty_flushes = 0; pinned = 0 }

pub record BufferPool : Type 0 where
  pub capacity : ℕ
  pub entries : List Frame
  pub held_frames : List Frame
  pub counts : Metrics

-- The constructor of the class.
unfoldable pub new_pool : ℕ → BufferPool
new_pool capacity_pages = record {
  capacity = if capacity_pages == 0 then 1 else capacity_pages;
  entries = [];
  held_frames = [];
  counts = no_metrics;
}

unfoldable pub size : BufferPool → ℕ
size pool = length pool.entries + length pool.held_frames

unfoldable pub can_evict : Frame → Bool
can_evict f = f.pin_count == 0 && not f.dirty

pub record Spot : Type 0 where
  pub in_held : Bool
  pub before : List Frame
  pub frame : Frame
  pub behind : List Frame
  pub other : List Frame

-- The pool with the spot's frame where it stands.
unfoldable pub close : Spot → BufferPool → BufferPool
close s pool = record pool {
  entries = if s.in_held then s.other else s.before ++ (s.frame ∷ s.behind);
  held_frames = if s.in_held then s.before ++ (s.frame ∷ s.behind) else s.other;
}

-- The pool without the frame.
unfoldable pub erase : Spot → BufferPool → BufferPool
erase s pool = record pool {
  entries = if s.in_held then s.other else s.before ++ s.behind;
  held_frames = if s.in_held then s.before ++ s.behind else s.other;
}

abbrev pub further : Frame → Option Spot → Option Spot
further f none = none
further f (some s) = some (record s { before = f ∷ s.before })

-- The first frame of the page in a list.
unfoldable pub find_in : ℕ → Bool → List Frame → List Frame → Option Spot
find_in page in_held other [] = none
find_in page in_held other (f ∷ fs) =
    if f.page_id == page
    then some (record { in_held = in_held; before = []; frame = f; behind = fs; other = other })
    else further f (find_in page in_held other fs)

abbrev pub or_else : Option Spot → Option Spot → Option Spot
or_else (some s) t = some s
or_else none t = t

unfoldable pub find_page : ℕ → BufferPool → Option Spot
unfolding find_in
find_page page pool =
    or_else (find_in page false pool.held_frames pool.entries)
      (find_in page true pool.entries pool.held_frames)

-- `splice` to the front of the frame's list.
unfoldable pub touch : Spot → Spot
touch s = record s { before = []; behind = s.before ++ s.behind }

-- `==` on bool.
unfoldable pub same_flag : Bool → Bool → Bool
same_flag true b = b
same_flag false b = not b

unfoldable pub place : Spot → Spot
unfolding can_evict same_flag
place s =
    let should_hold = not (can_evict s.frame) in
    if same_flag should_hold s.frame.held then s else record {
      in_held = should_hold;
      before = [];
      frame = record s.frame { held = should_hold };
      behind = s.other;
      other = s.before ++ s.behind;
    }

abbrev pub drop_last : List Frame → List Frame
drop_last [] = []
drop_last (f ∷ []) = []
drop_last (f ∷ (g ∷ fs)) = f ∷ drop_last (g ∷ fs)

-- Each round takes one of the entries, so their number is fuel enough.
unfoldable pub evict_loop : ℕ → ℕ → BufferPool → BufferPool
unfolding size
evict_loop zero max_size pool = pool
evict_loop (suc fuel) max_size pool =
    let smaller = evict_loop fuel max_size (record pool {
      entries = drop_last pool.entries;
      counts = record pool.counts { evictions = (pool.counts.evictions + 1) % 2 ^ 64 };
    }) in
    if ltb max_size (size pool) && not (length pool.entries == 0) then smaller else pool

unfoldable pub evict_until : ℕ → BufferPool → BufferPool
unfolding evict_loop
evict_until max_size pool = evict_loop (length pool.entries) max_size pool

-- Each operation looks the page up first; `..._found` is what it does with what it found.
unfoldable pub get_found : BufferPool → Option Spot → Option (List ℕ) × BufferPool
unfolding touch close
get_found pool none = (
  none,
  record pool { counts = record pool.counts { misses = (pool.counts.misses + 1) % 2 ^ 64 } },
)
get_found pool (some s) = (
  some s.frame.page,
  close (touch s)
      (record pool { counts = record pool.counts { hits = (pool.counts.hits + 1) % 2 ^ 64 } }),
)

unfoldable pub get : ℕ → BufferPool → Option (List ℕ) × BufferPool
unfolding find_page get_found
get page pool = get_found pool (find_page page pool)

unfoldable pub put_found : ℕ → List ℕ → BufferPool → Option Spot → BufferPool
unfolding touch place close evict_until
put_found page contents pool (some s) =
    close (touch (place (record s { frame = record s.frame { page = contents; dirty = false } })))
      pool
put_found page contents pool none =
    let smaller = evict_until (pool.capacity - 1) pool in
    record smaller {
      entries =
          record { page_id = page; page = contents; pin_count = 0; dirty = false; held = false }
          ∷ smaller.entries;
    }

unfoldable pub put : ℕ → List ℕ → BufferPool → BufferPool
unfolding find_page put_found
put page contents pool = put_found page contents pool (find_page page pool)

unfoldable pub invalidate_found : BufferPool → Option Spot → BufferPool
unfolding erase
invalidate_found pool none = pool
invalidate_found pool (some s) = if ltb 0 s.frame.pin_count then pool else erase s pool

unfoldable pub invalidate : ℕ → BufferPool → BufferPool
unfolding find_page invalidate_found
invalidate page pool = invalidate_found pool (find_page page pool)

unfoldable pub pin_found : BufferPool → Option Spot → Result BufferPool
unfolding touch place close
pin_found pool none = err page_not_found
pin_found pool (some s) =
    let pinned = record s.frame { pin_count = (s.frame.pin_count + 1) % 2 ^ 32 } in
    ok (close (touch (place (record s { frame = pinned }))) pool)

unfoldable pub pin : ℕ → BufferPool → Result BufferPool
unfolding find_page pin_found
pin page pool = pin_found pool (find_page page pool)

unfoldable pub unpin_found : BufferPool → Option Spot → BufferPool
unfolding place close
unpin_found pool none = pool
unpin_found pool (some s) =
    if s.frame.pin_count == 0
    then pool
    else close (place (record s { frame = record s.frame { pin_count = s.frame.pin_count - 1 } }))
        pool

unfoldable pub unpin : ℕ → BufferPool → BufferPool
unfolding find_page unpin_found
unpin page pool = unpin_found pool (find_page page pool)

unfoldable pub put_dirty_found : ℕ → List ℕ → BufferPool → Option Spot → BufferPool
unfolding touch place close
put_dirty_found page contents pool (some s) =
    close (touch (place (record s { frame = record s.frame { page = contents; dirty = true } })))
      pool
put_dirty_found page contents pool none = record pool {
  held_frames =
      record { page_id = page; page = contents; pin_count = 0; dirty = true; held = true }
      ∷ pool.held_frames;
}

unfoldable pub put_dirty : ℕ → List ℕ → BufferPool → BufferPool
unfolding find_page put_dirty_found
put_dirty page contents pool = put_dirty_found page contents pool (find_page page pool)

abbrev dirty_found : Option Spot → Bool
dirty_found none = false
dirty_found (some s) = s.frame.dirty

unfoldable pub is_dirty : ℕ → BufferPool → Bool
unfolding find_page
is_dirty page pool = dirty_found (find_page page pool)
