-- ===== src/BufferPool/Tests.antt =====
-- src/buffer_pool.rs: the theorems at a pool over a queue kept as a list with its capacity.
use mysql_async.BufferPool.Queue.{Buffer, ArrayQueue, IsArrayQueue, head?, tail}
use mysql_async.BufferPool.{BufferPool, get, put}
use mysql_async.BufferPool.Laws.{IsPooled, put-IsPooled, get-IsPooled}
use mysql_async.Prelude.{
  ℕ, zero, suc, ◌<◌, ◌≡◌, refl, Bool, true, false, List, [], ◌∷◌, ◌++◌, arith, ltb, if◌then◌else◌,
  length, Run, returns, panics,
}

record Bounded : Type 0 where
  elements : List Buffer
  capacity : ℕ

abbrev bounded_new : ℕ → Run Bounded
bounded_new zero = panics
bounded_new (suc n) = returns (record { elements = []; capacity = suc n })

abbrev bounded_push : Bounded → Buffer → Bool × Bounded
bounded_push q b =
    if ltb (length q.elements) q.capacity
    then (true, record q { elements = q.elements ++ b ∷ [] })
    else (false, q)

instance abbrev by_bound : ArrayQueue Bounded
by_bound = record {
  new = bounded_new;
  push = bounded_push;
  pop = λ q. (head? q.elements, record q { elements = tail q.elements });
}

bounded_new-returns :
    (n : ℕ)
    → 0 < n
    → (q : Bounded) × (bounded_new n ≡ returns q) × (q.elements ≡ []) × (q.capacity ≡ n)
bounded_new-returns zero h = absurd (omega arith)
bounded_new-returns (suc n) h = (_, refl, refl, refl)

abbrev by_bound_IsArrayQueue : IsArrayQueue by_bound
by_bound_IsArrayQueue = record {
  elements = λ q. q.elements;
  capacity = λ q. q.capacity;
  new_zero = refl;
  new_empty = bounded_new-returns;
  push_full = λ q b h. ground arith;
  elements_push = λ q b h. ground arith;
  pop_first = λ q. refl;
  elements_pop = λ q. refl;
  capacity_push = λ q b. ground arith;
  capacity_pop = λ q. refl;
}

abbrev one_buffer : BufferPool Bounded
one_buffer = record {
  buffer_size_cap = 8;
  buffer_init_cap = 0;
  pool = record { elements = record { bytes = []; capacity = 4 } ∷ []; capacity = 2 };
}

one_buffer-IsPooled : IsPooled by_bound_IsArrayQueue one_buffer
one_buffer-IsPooled = record {
  clean = (record { empty = refl; small = omega arith }, tt);
  bounded = omega arith;
}

-- A buffer that grew beyond the cap is put back.
put_buffer_example :
    IsPooled by_bound_IsArrayQueue (put (record { bytes = 1 ∷ 2 ∷ []; capacity = 100 }) one_buffer)
put_buffer_example =
    put-IsPooled by_bound_IsArrayQueue (record { bytes = 1 ∷ 2 ∷ []; capacity = 100 }) one_buffer
      one_buffer-IsPooled

get_buffer_example :
    (b : Buffer) × (q : BufferPool Bounded) × (get one_buffer ≡ returns (b, q))
    × (b.bytes ≡ [])
    × IsPooled by_bound_IsArrayQueue q
get_buffer_example = get-IsPooled by_bound_IsArrayQueue one_buffer one_buffer-IsPooled
