-- ===== src/Pool/Waitlist/Queue.antt =====
-- The interface of the keyed_priority_queue crate, as far as src/conn/pool/mod.rs uses it, and what
-- the crate documents: it holds at most one entry for each key and gives them out by priority.
-- `by_priority` is a queue that meets this.
use mysql_async.Prelude.{
  ℕ, ◌≡◌, refl, Bool, false, ◌||◌, Option, none, some, List, [], ◌∷◌, ltb, ◌==◌, if◌then◌else◌,
  length,
}

-- The number in `QueueId(Reverse(_))`.
abbrev pub QueueId : Type 0
QueueId = ℕ

-- The task that the waker wakes.
abbrev pub Waker : Type 0
Waker = ℕ

pub record QueuedWaker : Type 0 where
  pub queue_id : QueueId
  pub waker : Waker

-- `KeyedPriorityQueue<QueuedWaker, QueueId>`, whose state is a `W`.
pub record KeyedPriorityQueue (W : Type 0) : Type 0 where
  pub empty : W
  pub push : W → QueuedWaker → QueueId → W
  pub pop : W → Option QueuedWaker × W
  pub remove : W → QueueId → Bool × W
  pub peek : W → Option QueuedWaker
  pub len : W → ℕ

-- Lists of entries by priority, the highest first.
abbrev pub head? : List QueuedWaker → Option QueuedWaker
head? [] = none
head? (e ∷ es) = some e

abbrev pub tail : List QueuedWaker → List QueuedWaker
tail [] = []
tail (e ∷ es) = es

abbrev pub contains : QueueId → List QueuedWaker → Bool
contains id [] = false
contains id (e ∷ es) = e.queue_id == id || contains id es

abbrev pub erase : QueueId → List QueuedWaker → List QueuedWaker
erase id [] = []
erase id (e ∷ es) = if e.queue_id == id then es else e ∷ erase id es

abbrev pub insert : QueuedWaker → List QueuedWaker → List QueuedWaker
insert w [] = w ∷ []
insert w (e ∷ es) = if ltb w.queue_id e.queue_id then w ∷ e ∷ es else e ∷ insert w es

-- What the crate documents, by the entries in the order in which `pop` gives them out. `push` is
-- described for a key that is not in the queue, the only way in which the pool calls it.
pub record IsKeyedPriorityQueue {W : Type 0} (queue : KeyedPriorityQueue W) : Type 0 where
  pub entries : W → List QueuedWaker
  pub entries_empty : entries queue.empty ≡ []
  pub entries_push :
      (w : W) (e : QueuedWaker)
      → contains e.queue_id (entries w) ≡ false
      → entries (queue.push w e e.queue_id) ≡ insert e (entries w)
  pub pop_first : (w : W) → (queue.pop w).0 ≡ head? (entries w)
  pub entries_pop : (w : W) → entries (queue.pop w).1 ≡ tail (entries w)
  pub remove_found : (w : W) (id : QueueId) → (queue.remove w id).0 ≡ contains id (entries w)
  pub entries_remove : (w : W) (id : QueueId) → entries (queue.remove w id).1 ≡ erase id (entries w)
  pub peek_first : (w : W) → queue.peek w ≡ head? (entries w)
  pub len_entries : (w : W) → queue.len w ≡ length (entries w)

-- A queue kept as a sorted list.
instance abbrev pub by_priority : KeyedPriorityQueue (List QueuedWaker)
by_priority = record {
  empty = [];
  push = λ w e _. insert e w;
  pop = λ w. (head? w, tail w);
  remove = λ w id. (contains id w, erase id w);
  peek = head?;
  len = length;
}

abbrev pub by_priority_IsQueue : IsKeyedPriorityQueue by_priority
by_priority_IsQueue = record {
  entries = λ w. w;
  entries_empty = refl;
  entries_push = λ w e h. refl;
  pop_first = λ w. refl;
  entries_pop = λ w. refl;
  remove_found = λ w id. refl;
  entries_remove = λ w id. refl;
  peek_first = λ w. refl;
  len_entries = λ w. refl;
}
