-- ===== src/BufferPool.antt =====
-- src/buffer_pool.rs: the pool of buffers. A `Vec<u8>` is its bytes and its capacity. The crossbeam
-- queue is a parameter: `ArrayQueue` holds the operations that the pool calls, and BufferPool/Queue
-- what the crate documents of them. The three environment variables are arguments, parsed.
pub mod Queue
pub mod Laws
pub mod Tests
use Queue.{Buffer, ArrayQueue}
use mysql_async.Prelude.{
  ℕ, ◌*◌, Option, none, some, List, [], ◌∷◌, ◌++◌, ltb, ◌==◌, if◌then◌else◌, length, Run, returns,
  ◌>>=◌, ◌>>◌, assert,
}

pub record BufferPool (Q : Type 0) : Type 0 where
  pub buffer_size_cap : ℕ
  pub buffer_init_cap : ℕ
  pub pool : Q

-- `Option::unwrap_or`.
abbrev unwrap_or : ℕ → Option ℕ → ℕ
unwrap_or d none = d
unwrap_or d (some n) = n

-- `Vec::shrink_to`.
unfoldable pub shrink_to : ℕ → Buffer → Buffer
shrink_to min_capacity b =
    let bound = if ltb (length b.bytes) min_capacity then min_capacity else length b.bytes in
    if ltb bound b.capacity then record b { capacity = bound } else b

-- `extend_from_slice`; `reserved` is the capacity that the allocator gives where the bytes do not fit.
unfoldable pub extend_from_slice : ℕ → List ℕ → Buffer → Buffer
extend_from_slice reserved content b =
    let bytes = b.bytes ++ content in
    if ltb b.capacity (length bytes)
    then record { bytes = bytes; capacity = reserved }
    else record b { bytes = bytes }

module _ {Q : Type 0} ⦃queue : ArrayQueue Q⦄ where
  -- `BufferPool::new`. The queue panics on a capacity of 0.
  unfoldable pub new : Option ℕ → Option ℕ → Option ℕ → Run (BufferPool Q)
  new pool_cap buffer_size_cap buffer_init_cap = queue.new (unwrap_or 128 pool_cap) >>= (λ q.
      returns (record {
        buffer_size_cap = unwrap_or (4 * 1024 * 1024) buffer_size_cap;
        buffer_init_cap = unwrap_or 0 buffer_init_cap;
        pool = q;
      }))

  unfoldable pub unwrap_or_new : Option Buffer → BufferPool Q → Buffer
  unwrap_or_new none p = record { bytes = []; capacity = p.buffer_init_cap }
  unwrap_or_new (some b) p = b

  -- `BufferPool::get`, with its debug assertion.
  unfoldable pub get : BufferPool Q → Run (Buffer × BufferPool Q)
  unfolding unwrap_or_new
  get p =
      let (popped, rest) = queue.pop p.pool in
      let buf = unwrap_or_new popped p in
      assert (length buf.bytes == 0) >> returns (buf, record p { pool = rest })

  unfoldable pub get_with : ℕ → List ℕ → BufferPool Q → Run (Buffer × BufferPool Q)
  get_with reserved content p =
      get p >>= (λ r. returns (extend_from_slice reserved content r.0, r.1))

  -- `BufferPool::put`, which `impl Drop for PooledBuf` calls.
  unfoldable pub put : Buffer → BufferPool Q → BufferPool Q
  put buf p = record p {
    pool = (queue.push p.pool (shrink_to p.buffer_size_cap (record buf { bytes = [] }))).1;
  }
