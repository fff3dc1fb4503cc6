-- ===== src/BufferPool/Laws.antt =====
-- src/buffer_pool.rs: every buffer of the pool is empty and not too large, and there are not too many.
use mysql_async.BufferPool.Queue.{Buffer, ArrayQueue, IsArrayQueue, head?, tail}
use mysql_async.BufferPool.{BufferPool, shrink_to, unwrap_or_new, get, put}
use mysql_async.Prelude.{
  ℕ, ◌≤◌, ◌≡◌, refl, sym, ap, inl, inr, true, Option, none, some, List, [], ◌∷◌, arith, ltb, ◌==◌,
  ==_iff, Bool-cases, length, length-append, All, All-append, returns, assert, >>=_of_returns,
  subst,
}

-- An empty buffer whose capacity is at most `cap`.
pub record IsClean (cap : ℕ) (b : Buffer) : Type 0 where
  pub empty : b.bytes ≡ []
  pub small : b.capacity ≤ cap

shrink_to-IsClean : (cap : ℕ) (b : Buffer) → b.bytes ≡ [] → IsClean cap (shrink_to cap b)
unfolding shrink_to
shrink_to-IsClean cap b e = record {
  empty = ground (arith, e);
  small = ground (arith, ap length e);
}

module _ {Q : Type 0} ⦃queue : ArrayQueue Q⦄ (laws : IsArrayQueue queue) where
  open laws use {
    elements, capacity, push_full, elements_push, pop_first, elements_pop, capacity_push,
    capacity_pop,
  }

  pub record IsPooled (p : BufferPool Q) : Type 0 where
    pub clean : All (IsClean p.buffer_size_cap) (elements p.pool)
    pub bounded : length (elements p.pool) ≤ capacity p.pool

  -- A buffer put back, whatever it holds, leaves a pool of at most its capacity of buffers, each
  -- of them empty and of a capacity of at most the size cap.
  pub put-IsPooled : (buf : Buffer) (p : BufferPool Q) → IsPooled p → IsPooled (put buf p)
  unfolding put
  put-IsPooled buf p h =
      let b = shrink_to p.buffer_size_cap (record buf { bytes = [] }) in
      elim (Bool-cases (ltb (length (elements p.pool)) (capacity p.pool))) [
        | inl room ↦
            let grown = elements_push p.pool b (ground (arith, room)) in
            record {
              clean = subst (All (IsClean p.buffer_size_cap)) (sym grown) (
                  All-append (IsClean p.buffer_size_cap) (elements p.pool) (b ∷ []) h.clean
                    (shrink_to-IsClean p.buffer_size_cap (record buf { bytes = [] }) refl, tt));
              bounded = ground (
                arith,
                room,
                ap length grown,
                length-append (elements p.pool) (b ∷ []),
                capacity_push p.pool b,
              );
            }
        | inr full ↦
            let same = ap (λ r. elements r.1) (push_full p.pool b (ground (arith, full))) in
            record {
              clean = subst (All (IsClean p.buffer_size_cap)) (sym same) h.clean;
              bounded = omega (arith, ap length same, capacity_push p.pool b, h.bounded);
            }
      ]

  popped-empty :
      (o : Option Buffer) (l : List Buffer) (p : BufferPool Q)
      → o ≡ head? l
      → All (IsClean p.buffer_size_cap) l
      → (unwrap_or_new o p).bytes ≡ []
  unfolding unwrap_or_new
  popped-empty none l p e h = refl
  popped-empty (some b) [] p e h = cc
  popped-empty (some b) (x ∷ l) p e h = ground (arith, e, h.0.empty)

  tail-IsPooled :
      (l : List Buffer) (cap n : ℕ)
      → All (IsClean cap) l
      → length l ≤ n
      → All (IsClean cap) (tail l) × (length (tail l) ≤ n)
  tail-IsPooled [] cap n h s = (h, s)
  tail-IsPooled (x ∷ l) cap n h s = (h.1, omega (arith, s))

  -- From a pool of at most its capacity of buffers, each of them empty and within the size cap,
  -- `get` returns an empty buffer, so its assertion holds, and leaves such a pool.
  pub get-IsPooled :
      (p : BufferPool Q)
      → IsPooled p
      → (b : Buffer) × (q : BufferPool Q) × (get p ≡ returns (b, q)) × (b.bytes ≡ []) × IsPooled q
  unfolding get
  get-IsPooled p h =
      let empty =
        popped-empty (queue.pop p.pool).0 (elements p.pool) p (pop_first p.pool) h.clean in
      let (clean, small) =
        tail-IsPooled (elements p.pool) p.buffer_size_cap (capacity p.pool) h.clean h.bounded in
      let no_bytes : (length (unwrap_or_new (queue.pop p.pool).0 p).bytes == 0) ≡ true =
        (==_iff _ 0).1 (ap length empty) in
      (
        unwrap_or_new (queue.pop p.pool).0 p,
        record p { pool = (queue.pop p.pool).1 },
        >>=_of_returns _ (ap assert no_bytes),
        empty,
        record {
          clean = subst (All (IsClean p.buffer_size_cap)) (sym (elements_pop p.pool)) clean;
          bounded = omega (arith, ap length (elements_pop p.pool), small, capacity_pop p.pool);
        },
      )
