-- ===== src/Tests/PoolRuns.antt =====
-- src/storage/buffer_pool.cpp on a pool of two pages.
use mo_db.Prelude.{◌≤◌, ◌≡◌, ◌⊎◌, refl, arith, true, false, some, List, [], ◌∷◌, length}
use mo_db.Storage.BufferPool.{
  BufferPool, new_pool, size, find_page, find_in, can_evict, same_flag, touch, place, close,
  evict_until, evict_loop, get, get_found, put, put_found, pin, pin_found, put_dirty,
  put_dirty_found, is_dirty,
}
use mo_db.Storage.BufferPool.Partition.{IsPartition}
use mo_db.Storage.BufferPool.Count.{frames, count}
use mo_db.Storage.BufferPool.Once.{IsUnique}
use mo_db.Storage.BufferPool.History.{
  Call, of_get, of_pin, of_put, of_put_dirty, perform, perform_all, perform_all-new_pool,
}
use mo_db.Storage.BufferPool.Size.{put-size}
use mo_db.Storage.BufferPool.Reading.{get-put, get-put_dirty}

-- Pages 1 and 2 are put, 1 is read, and 3 takes the place of 2; 4 is dirty.
abbrev calls : List Call
calls =
    of_put 1 (10 ∷ [])
    ∷ of_put 2 (20 ∷ [])
    ∷ of_get 1
    ∷ of_put 3 (30 ∷ [])
    ∷ of_pin 3
    ∷ of_put_dirty 4 (40 ∷ [])
    ∷ []

abbrev pool : BufferPool
pool = perform_all calls (new_pool 2)

least_recent : (frames 1 pool ≡ 1) × (frames 2 pool ≡ 0) × (size pool ≡ 3)
unfolding perform_all perform new_pool frames count size put put_found get get_found pin pin_found
    put_dirty put_dirty_found find_page find_in can_evict same_flag touch place close evict_until
    evict_loop
least_recent = (refl, refl, refl)

perform_all-new_pool_example : IsPartition pool × IsUnique pool
perform_all-new_pool_example = perform_all-new_pool 2 calls

get-put_example :
    ((get 4 (put 4 (41 ∷ []) pool)).0 ≡ some (41 ∷ []))
    × (is_dirty 4 (put 4 (41 ∷ []) pool) ≡ false)
get-put_example = get-put 4 (41 ∷ []) pool (perform_all-new_pool 2 calls).1

get-put_dirty_example :
    ((get 1 (put_dirty 1 (11 ∷ []) pool)).0 ≡ some (11 ∷ []))
    × (is_dirty 1 (put_dirty 1 (11 ∷ []) pool) ≡ true)
get-put_dirty_example = get-put_dirty 1 (11 ∷ []) pool (perform_all-new_pool 2 calls).1

put-size_example :
    (size (put 5 (50 ∷ []) pool) ≤ pool.capacity) ⊎ (length (put 5 (50 ∷ []) pool).entries ≡ 1)
unfolding perform_all perform new_pool frames count size put put_found get get_found pin pin_found
    put_dirty put_dirty_found find_page find_in can_evict same_flag touch place close evict_until
    evict_loop
put-size_example = put-size 5 (50 ∷ []) pool (omega arith) refl
