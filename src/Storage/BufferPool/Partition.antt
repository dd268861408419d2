-- ===== src/Storage/BufferPool/Partition.antt =====
-- The two lists: the entries are the frames that may be evicted, the held ones those that may not.
use mo_db.Prelude.{
  ℕ, ◌≡◌, refl, sym, ap, ◌∙◌, Bool, true, false, not, Option, none, some, List, [], ◌∷◌, ◌++◌, All,
  All-append, ◌==◌, Bool-cases, inl, inr,
}
use mathlib.Core.Path.{subst}
use mo_db.Storage.BufferPool.{
  Frame, BufferPool, Spot, can_evict, close, erase, find_in, find_page, or_else, further, same_flag,
  touch, place,
}

-- A frame stands in the list that its flag names, and the flag says whether it may not be evicted.
pub record IsIn (flag : Bool) (f : Frame) : Type 0 where
  pub flagged : f.held ≡ flag
  pub evictable : can_evict f ≡ not flag

pub record IsPartition (pool : BufferPool) : Type 0 where
  pub entries : All (IsIn false) pool.entries
  pub held : All (IsIn true) pool.held_frames

-- The same of an iterator, whose frame may have changed since it was placed.
pub record IsSpot (s : Spot) : Type 0 where
  pub flagged : s.frame.held ≡ s.in_held
  pub before : All (IsIn s.in_held) s.before
  pub behind : All (IsIn s.in_held) s.behind
  pub other : All (IsIn (not s.in_held)) s.other

-- An iterator whose frame belongs where it stands.
pub record IsPlaced (s : Spot) : Type 0 where
  pub spot : IsSpot s
  pub fits : IsIn s.in_held s.frame

IsSpotIn : Bool → Option Spot → Type 0
IsSpotIn flag none = Unit
IsSpotIn flag (some s) = IsPlaced s × (s.in_held ≡ flag)

further-IsSpotIn :
    (flag : Bool) (f : Frame) (o : Option Spot)
    → IsIn flag f
    → IsSpotIn flag o
    → IsSpotIn flag (further f o)
unfolding IsSpotIn
further-IsSpotIn flag f none h k = tt
further-IsSpotIn flag f (some s) h (k, e) = (
  record {
    spot = record {
      flagged = k.spot.flagged;
      before = (rw e h, k.spot.before);
      behind = k.spot.behind;
      other = k.spot.other;
    };
    fits = record { flagged = k.fits.flagged; evictable = k.fits.evictable };
  },
  e,
)

find_in-IsSpotIn :
    (page : ℕ) (flag : Bool) (other fs : List Frame)
    → All (IsIn (not flag)) other
    → All (IsIn flag) fs
    → IsSpotIn flag (find_in page flag other fs)
unfolding find_in IsSpotIn
find_in-IsSpotIn page flag other [] o h = tt
find_in-IsSpotIn page flag other (f ∷ fs) o (hf, hfs) = elim (Bool-cases (f.page_id == page)) [
  | inl here ↦ rw here (
    record {
      spot = record { flagged = hf.flagged; before = tt; behind = hfs; other = o };
      fits = record { flagged = hf.flagged; evictable = hf.evictable };
    },
    refl,
  )
  | inr elsewhere ↦ rw elsewhere (
      further-IsSpotIn flag f (find_in page flag other fs) hf
        (find_in-IsSpotIn page flag other fs o hfs))
]

unfoldable pub IsSome : Option Spot → Type 0
IsSome none = Unit
IsSome (some s) = IsPlaced s

or_else-IsSome : (o p : Option Spot) → IsSpotIn false o → IsSpotIn true p → IsSome (or_else o p)
unfolding IsSome IsSpotIn
or_else-IsSome (some s) p h k = h.0
or_else-IsSome none (some s) h k = k.0
or_else-IsSome none none h k = tt

pub find_page-IsSome :
    (page : ℕ) (pool : BufferPool) → IsPartition pool → IsSome (find_page page pool)
unfolding find_page
find_page-IsSome page pool h =
    or_else-IsSome (find_in page false pool.held_frames pool.entries)
      (find_in page true pool.entries pool.held_frames)
      (find_in-IsSpotIn page false pool.held_frames pool.entries h.held h.entries)
      (find_in-IsSpotIn page true pool.entries pool.held_frames h.entries h.held)

same_flag-true : (a b : Bool) → same_flag a b ≡ true → a ≡ b
unfolding same_flag
same_flag-true true b h = sym h
same_flag-true false true h = h
same_flag-true false false h = refl

same_flag-false : (a b : Bool) → same_flag a b ≡ false → b ≡ not a
unfolding same_flag
same_flag-false true b h = h
same_flag-false false true h = refl
same_flag-false false false h = sym h

not-not : (a : Bool) → not (not a) ≡ a
not-not true = refl
not-not false = refl

pub place-IsPlaced : (s : Spot) → IsSpot s → IsPlaced (place s)
unfolding place
place-IsPlaced s h = elim (Bool-cases (same_flag (not (can_evict s.frame)) s.frame.held)) [
  | inl stays ↦
      let agree : not (can_evict s.frame) ≡ s.in_held = same_flag-true _ _ stays ∙ h.flagged in
      rw stays (record {
        spot = h;
        fits = record {
          flagged = h.flagged;
          evictable = sym (not-not (can_evict s.frame)) ∙ ap not agree;
        };
      })
  | inr moves ↦
      let left : s.in_held ≡ can_evict s.frame =
        sym h.flagged ∙ same_flag-false _ _ moves ∙ not-not (can_evict s.frame) in
      let all : All (IsIn s.in_held) (s.before ++ s.behind) =
        All-append (IsIn s.in_held) s.before s.behind h.before h.behind in
      rw moves (record {
        spot = record {
          flagged = refl;
          before = tt;
          behind = subst (λ b. All (IsIn (not b)) s.other) left h.other;
          other =
              subst (λ b. All (IsIn b) (s.before ++ s.behind))
                (left ∙ sym (not-not (can_evict s.frame))) all;
        };
        fits = record { flagged = refl; evictable = sym (not-not (can_evict s.frame)) };
      })
]

pub touch-IsPlaced : (s : Spot) → IsPlaced s → IsPlaced (touch s)
unfolding touch
touch-IsPlaced s h = record {
  spot = record {
    flagged = h.spot.flagged;
    before = tt;
    behind = All-append (IsIn s.in_held) s.before s.behind h.spot.before h.spot.behind;
    other = h.spot.other;
  };
  fits = record { flagged = h.fits.flagged; evictable = h.fits.evictable };
}

pub close-IsPartition : (s : Spot) (pool : BufferPool) → IsPlaced s → IsPartition (close s pool)
unfolding close
close-IsPartition s pool h =
    let list : All (IsIn s.in_held) (s.before ++ (s.frame ∷ s.behind)) =
      All-append (IsIn s.in_held) s.before (s.frame ∷ s.behind) h.spot.before
        (h.fits, h.spot.behind) in
    elim (Bool-cases s.in_held) [
      | inl held ↦ rw held (record { entries = rw held at h.spot.other; held = rw held at list })
      | inr entry ↦
          rw entry (record { entries = rw entry at list; held = rw entry at h.spot.other })
    ]

pub erase-IsPartition : (s : Spot) (pool : BufferPool) → IsSpot s → IsPartition (erase s pool)
unfolding erase
erase-IsPartition s pool h =
    let list : All (IsIn s.in_held) (s.before ++ s.behind) =
      All-append (IsIn s.in_held) s.before s.behind h.before h.behind in
    elim (Bool-cases s.in_held) [
      | inl held ↦ rw held (record { entries = rw held at h.other; held = rw held at list })
      | inr entry ↦ rw entry (record { entries = rw entry at list; held = rw entry at h.other })
    ]
