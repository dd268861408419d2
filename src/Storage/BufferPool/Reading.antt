-- ===== src/Storage/BufferPool/Reading.antt =====
-- What is read after a write.
use mo_db.Prelude.{
  ℕ, ◌-◌, ◌≤◌, ◌≡◌, refl, ap, ◌∙◌, arith, Bool, true, false, not, Option, none, some, List, [], ◌∷◌,
  ◌==◌, ==_iff, Bool-cases, inl, inr,
}
use mo_db.Storage.BufferPool.{
  Frame, BufferPool, Spot, can_evict, close, find_in, find_page, or_else, further, same_flag, touch,
  place, evict_until, get, get_found, put, put_found, put_dirty, put_dirty_found, is_dirty,
}
use mo_db.Storage.BufferPool.Count.{
  one, count, frames, spot_count, Counted, find_page-Counted, spot_count-touch, spot_count-place,
  frames-evict_until,
}
use mo_db.Storage.BufferPool.Once.{IsUnique}
use mo_db.Storage.BufferPool.Size.{find_in-none}

IsNamed : ℕ → Option Spot → Type 0
IsNamed page none = Unit
IsNamed page (some s) = s.frame.page_id ≡ page

further-IsNamed :
    (page : ℕ) (f : Frame) (o : Option Spot) → IsNamed page o → IsNamed page (further f o)
unfolding IsNamed
further-IsNamed page f none h = tt
further-IsNamed page f (some s) h = h

or_else-IsNamed :
    (page : ℕ) (o q : Option Spot) → IsNamed page o → IsNamed page q → IsNamed page (or_else o q)
unfolding IsNamed
or_else-IsNamed page (some s) q h k = h
or_else-IsNamed page none (some s) h k = k
or_else-IsNamed page none none h k = tt

find_in-IsNamed :
    (page : ℕ) (flag : Bool) (other fs : List Frame) → IsNamed page (find_in page flag other fs)
unfolding find_in IsNamed
find_in-IsNamed page flag other [] = tt
find_in-IsNamed page flag other (f ∷ fs) = elim (Bool-cases (f.page_id == page)) [
  | inl here ↦ rw here ((==_iff f.page_id page).0 here)
  | inr elsewhere ↦
      rw elsewhere
        (further-IsNamed page f (find_in page flag other fs) (find_in-IsNamed page flag other fs))
]

find_page-IsNamed : (page : ℕ) (pool : BufferPool) → IsNamed page (find_page page pool)
unfolding find_page
find_page-IsNamed page pool =
    or_else-IsNamed page (find_in page false pool.held_frames pool.entries)
      (find_in page true pool.entries pool.held_frames)
      (find_in-IsNamed page false pool.held_frames pool.entries)
      (find_in-IsNamed page true pool.entries pool.held_frames)

-- The front of a list is found.
front-found :
    (page : ℕ) (t : Spot) (pool : BufferPool)
    → t.before ≡ []
    → t.frame.page_id ≡ page
    → spot_count page t ≤ 1
    → (t' : Spot) × (find_page page (close t pool) ≡ some t') × (t'.frame ≡ t.frame)
unfolding find_page close find_in spot_count
front-found page t pool b n u =
    let here : t.frame.page_id == page ≡ true = (==_iff t.frame.page_id page).1 n in
    let away : count page t.other ≡ 0 = omega (arith, rw here at u) in
    elim (Bool-cases t.in_held) [
      | inr entry ↦
          rw (entry, b, here)
            (
              record {
                in_held = false;
                before = [];
                frame = t.frame;
                behind = t.behind;
                other = t.other;
              },
              refl,
              refl,
            )
      | inl held ↦
          rw (held, b, here, find_in-none page false (t.frame ∷ t.behind) t.other away)
            (
              record {
                in_held = true;
                before = [];
                frame = t.frame;
                behind = t.behind;
                other = t.other;
              },
              refl,
              refl,
            )
    ]

-- What `place` keeps of a frame.
record IsSame (f g : Frame) : Type 0 where
  page_id : f.page_id ≡ g.page_id
  page : f.page ≡ g.page
  dirty : f.dirty ≡ g.dirty

place-IsSame : (s : Spot) → IsSame (place s).frame s.frame
unfolding place
place-IsSame s = elim (Bool-cases (same_flag (not (can_evict s.frame)) s.frame.held)) [
  | inl stays ↦ rw stays (record { page_id = refl; page = refl; dirty = refl })
  | inr moves ↦ rw moves (record { page_id = refl; page = refl; dirty = refl })
]

-- The page is read and its flag answered as the frame has them.
record IsRead (page : ℕ) (f : Frame) (pool : BufferPool) : Type 0 where
  read : (get page pool).0 ≡ some f.page
  flag : is_dirty page pool ≡ f.dirty

found-IsRead :
    (page : ℕ) (f : Frame) (pool : BufferPool) (s : Spot)
    → find_page page pool ≡ some s
    → IsSame s.frame f
    → IsRead page f pool
unfolding get get_found is_dirty
found-IsRead page f pool s h e = record { read = rw h (ap some e.page); flag = rw h e.dirty }

changed-IsRead :
    (page : ℕ) (s : Spot) (f : Frame) (pool : BufferPool)
    → f.page_id ≡ page
    → spot_count page (record s { frame = f }) ≤ 1
    → IsRead page f (close (touch (place (record s { frame = f }))) pool)
unfolding touch
changed-IsRead page s f pool n u =
    let placed : Spot = place (record s { frame = f }) in
    let same : IsSame placed.frame f = place-IsSame (record s { frame = f }) in
    let few : spot_count page (touch placed) ≤ 1 =
      omega
        (arith, spot_count-touch page placed, spot_count-place page (record s { frame = f }), u) in
    let (t, found, frame) = front-found page (touch placed) pool refl (same.page_id ∙ n) few in
    found-IsRead page f (close (touch placed) pool) t found (record {
      page_id = ap (λ (g : Frame). g.page_id) frame ∙ same.page_id;
      page = ap (λ (g : Frame). g.page) frame ∙ same.page;
      dirty = ap (λ (g : Frame). g.dirty) frame ∙ same.dirty;
    })

one_most : (p : ℕ) (f : Frame) → one p f ≤ 1
one_most p f = elim (Bool-cases (f.page_id == p)) [
  | inl same ↦ rw same (omega arith)
  | inr other ↦ rw other (omega arith)
]

-- A frame put in front of a list of a pool without the page.
new-IsRead :
    (page : ℕ) (f : Frame) (flag : Bool) (behind other : List Frame) (pool : BufferPool)
    → f.page_id ≡ page
    → count page behind ≡ 0
    → count page other ≡ 0
    → IsRead page f (
        close
          (record { in_held = flag; before = []; frame = f; behind = behind; other = other })
          pool)
unfolding spot_count count
new-IsRead page f flag behind other pool n b o =
    let t : Spot = record {
      in_held = flag;
      before = [];
      frame = f;
      behind = behind;
      other = other;
    } in
    let (t', found, frame) =
      front-found page t pool refl n (omega (arith, one_most page f, b, o)) in
    found-IsRead page f (close t pool) t' found (record {
      page_id = ap (λ (g : Frame). g.page_id) frame;
      page = ap (λ (g : Frame). g.page) frame;
      dirty = ap (λ (g : Frame). g.dirty) frame;
    })

-- A page that was put is read back, and it is clean. The pool holds no page twice.
pub get-put :
    (page : ℕ) (contents : List ℕ) (pool : BufferPool)
    → IsUnique pool
    → ((get page (put page contents pool)).0 ≡ some contents)
      × (is_dirty page (put page contents pool) ≡ false)
unfolding put put_found Counted IsNamed spot_count close frames
get-put page contents pool h =
    go (find_page page pool) (find_page-Counted page page pool) (find_page-IsNamed page pool)
  where
    go :
        (o : Option Spot)
        → Counted page (frames page pool) (frames page pool) o
        → IsNamed page o
        → ((get page (put_found page contents pool o)).0 ≡ some contents)
          × (is_dirty page (put_found page contents pool o) ≡ false)
    go (some s) k n =
        let f : Frame = record s.frame { page = contents; dirty = false } in
        let r : IsRead page f (close (touch (place (record s { frame = f }))) pool) =
          changed-IsRead page s f pool n (omega (arith, k, h page)) in
        (r.read, r.flag)
    go none k n =
        let smaller : BufferPool = evict_until (pool.capacity - 1) pool in
        let none_left : frames page smaller ≡ 0 =
          omega (arith, frames-evict_until page (pool.capacity - 1) pool, k) in
        let f : Frame = record {
          page_id = page;
          page = contents;
          pin_count = 0;
          dirty = false;
          held = false;
        } in
        let r : IsRead page f (record smaller { entries = f ∷ smaller.entries }) =
          new-IsRead page f false smaller.entries smaller.held_frames smaller refl
            (omega (arith, none_left)) (omega (arith, none_left)) in
        (r.read, r.flag)

-- A page that was put as dirty is read back, and it is dirty. The pool holds no page twice.
pub get-put_dirty :
    (page : ℕ) (contents : List ℕ) (pool : BufferPool)
    → IsUnique pool
    → ((get page (put_dirty page contents pool)).0 ≡ some contents)
      × (is_dirty page (put_dirty page contents pool) ≡ true)
unfolding put_dirty put_dirty_found Counted IsNamed spot_count close frames
get-put_dirty page contents pool h =
    go (find_page page pool) (find_page-Counted page page pool) (find_page-IsNamed page pool)
  where
    go :
        (o : Option Spot)
        → Counted page (frames page pool) (frames page pool) o
        → IsNamed page o
        → ((get page (put_dirty_found page contents pool o)).0 ≡ some contents)
          × (is_dirty page (put_dirty_found page contents pool o) ≡ true)
    go (some s) k n =
        let f : Frame = record s.frame { page = contents; dirty = true } in
        let r : IsRead page f (close (touch (place (record s { frame = f }))) pool) =
          changed-IsRead page s f pool n (omega (arith, k, h page)) in
        (r.read, r.flag)
    go none k n =
        let f : Frame = record {
          page_id = page;
          page = contents;
          pin_count = 0;
          dirty = true;
          held = true;
        } in
        let r : IsRead page f (record pool { held_frames = f ∷ pool.held_frames }) =
          new-IsRead page f true pool.held_frames pool.entries pool refl (omega (arith, k))
            (omega (arith, k)) in
        (r.read, r.flag)
