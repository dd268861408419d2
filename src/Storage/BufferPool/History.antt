-- ===== src/Storage/BufferPool/History.antt =====
-- Any sequence of calls on a new pool, the bound on its size, and what is read after a write.
use mo_db.Prelude.{ℕ, arith, List, [], ◌∷◌}
use mo_db.Storage.BufferPool.{BufferPool, new_pool, get, put, invalidate, pin, unpin, put_dirty}
use mo_db.Storage.BufferPool.WriteBack.{Writer, flush_dirty, discard_dirty}
use mo_db.Storage.BufferPool.Partition.{IsPartition}
use mo_db.Storage.BufferPool.Keeps.{
  after_pin, get-IsPartition, put-IsPartition, put_dirty-IsPartition, invalidate-IsPartition,
  pin-IsPartition, unpin-IsPartition, flush_dirty-IsPartition, discard_dirty-IsPartition,
}
use mo_db.Storage.BufferPool.Count.{count, frames}
use mo_db.Storage.BufferPool.Once.{
  IsUnique, get-IsUnique, put-IsUnique, put_dirty-IsUnique, invalidate-IsUnique, pin-IsUnique,
  unpin-IsUnique, flush_dirty-IsUnique, discard_dirty-IsUnique,
}

-- The operations that change the pool.
pub data Call : Type 0 where
  of_get of_invalidate of_pin of_unpin : ℕ → Call
  of_put of_put_dirty : ℕ → List ℕ → Call
  of_flush : Writer → Call
  of_discard : Call

unfoldable pub perform : Call → BufferPool → BufferPool
perform (of_get page) pool = (get page pool).1
perform (of_invalidate page) pool = invalidate page pool
perform (of_pin page) pool = after_pin pool (pin page pool)
perform (of_unpin page) pool = unpin page pool
perform (of_put page contents) pool = put page contents pool
perform (of_put_dirty page contents) pool = put_dirty page contents pool
perform (of_flush writer) pool = (flush_dirty writer pool).1
perform of_discard pool = discard_dirty pool

unfoldable pub perform_all : List Call → BufferPool → BufferPool
unfolding perform
perform_all [] pool = pool
perform_all (c ∷ cs) pool = perform_all cs (perform c pool)

perform-IsPartition :
    (c : Call) (pool : BufferPool) → IsPartition pool → IsPartition (perform c pool)
unfolding perform
perform-IsPartition (of_get page) pool h = get-IsPartition page pool h
perform-IsPartition (of_invalidate page) pool h = invalidate-IsPartition page pool h
perform-IsPartition (of_pin page) pool h = pin-IsPartition page pool h
perform-IsPartition (of_unpin page) pool h = unpin-IsPartition page pool h
perform-IsPartition (of_put page contents) pool h = put-IsPartition page contents pool h
perform-IsPartition (of_put_dirty page contents) pool h = put_dirty-IsPartition page contents pool h
perform-IsPartition (of_flush writer) pool h = flush_dirty-IsPartition writer pool h
perform-IsPartition of_discard pool h = discard_dirty-IsPartition pool h

perform-IsUnique : (c : Call) (pool : BufferPool) → IsUnique pool → IsUnique (perform c pool)
unfolding perform
perform-IsUnique (of_get page) pool h = get-IsUnique page pool h
perform-IsUnique (of_invalidate page) pool h = invalidate-IsUnique page pool h
perform-IsUnique (of_pin page) pool h = pin-IsUnique page pool h
perform-IsUnique (of_unpin page) pool h = unpin-IsUnique page pool h
perform-IsUnique (of_put page contents) pool h = put-IsUnique page contents pool h
perform-IsUnique (of_put_dirty page contents) pool h = put_dirty-IsUnique page contents pool h
perform-IsUnique (of_flush writer) pool h = flush_dirty-IsUnique writer pool h
perform-IsUnique of_discard pool h = discard_dirty-IsUnique pool h

kept :
    (cs : List Call) (pool : BufferPool)
    → IsPartition pool
    → IsUnique pool
    → IsPartition (perform_all cs pool) × IsUnique (perform_all cs pool)
unfolding perform_all
kept [] pool h k = (h, k)
kept (c ∷ cs) pool h k =
    kept cs (perform c pool) (perform-IsPartition c pool h) (perform-IsUnique c pool k)

-- Whatever calls are made on a new pool: the entries hold exactly frames that may be evicted and the
-- held list exactly frames that are dirty or pinned, each flagged so, and no page has two frames.
pub perform_all-new_pool :
    (capacity_pages : ℕ) (cs : List Call)
    → IsPartition (perform_all cs (new_pool capacity_pages))
      × IsUnique (perform_all cs (new_pool capacity_pages))
unfolding new_pool
perform_all-new_pool capacity_pages cs =
    kept cs (new_pool capacity_pages) (record { entries = tt; held = tt })
      (λ p. unfold frames count in omega arith)
