-- ===== src/BufferPool/Queue.antt =====
-- The crossbeam queue, as src/buffer_pool.rs uses it.
use mysql_async.Prelude.{
  ℕ, ◌≤◌, ◌<◌, ◌≡◌, Bool, false, Option, none, some, List, [], ◌∷◌, ◌++◌, length, Run, returns,
  panics,
}

pub record Buffer : Type 0 where
  pub bytes : List ℕ
  pub capacity : ℕ

-- `push` gives back whether the buffer was taken.
pub record ArrayQueue (Q : Type 0) : Type 0 where
  pub new : ℕ → Run Q
  pub push : Q → Buffer → Bool × Q
  pub pop : Q → Option Buffer × Q

abbrev pub head? : List Buffer → Option Buffer
head? [] = none
head? (b ∷ bs) = some b

abbrev pub tail : List Buffer → List Buffer
tail [] = []
tail (b ∷ bs) = bs

-- What the crate documents: a queue of at most `capacity` elements, the oldest first.
pub record IsArrayQueue {Q : Type 0} (queue : ArrayQueue Q) : Type 0 where
  pub elements : Q → List Buffer
  pub capacity : Q → ℕ
  pub new_zero : queue.new 0 ≡ panics
  pub new_empty :
      (n : ℕ) → 0 < n → (q : Q) × (queue.new n ≡ returns q) × (elements q ≡ []) × (capacity q ≡ n)
  pub push_full :
      (q : Q) (b : Buffer) → capacity q ≤ length (elements q) → queue.push q b ≡ (false, q)
  pub elements_push :
      (q : Q) (b : Buffer)
      → length (elements q) < capacity q
      → elements (queue.push q b).1 ≡ elements q ++ b ∷ []
  pub pop_first : (q : Q) → (queue.pop q).0 ≡ head? (elements q)
  pub elements_pop : (q : Q) → elements (queue.pop q).1 ≡ tail (elements q)
  pub capacity_push : (q : Q) (b : Buffer) → capacity (queue.push q b).1 ≡ capacity q
  pub capacity_pop : (q : Q) → capacity (queue.pop q).1 ≡ capacity q
