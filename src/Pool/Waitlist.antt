-- ===== src/Pool/Waitlist.antt =====
-- src/conn/pool/mod.rs: `QueueId`, `QueuedWaker` and `Waitlist`. The keyed_priority_queue crate is a
-- parameter: `KeyedPriorityQueue` holds the operations that the pool calls, and
-- Waitlist/Queue.antt what the crate documents of them.
pub mod Queue
pub mod Laws
use Prim.Native.Nat.{◌-◌}
use Queue.{QueueId, Waker, QueuedWaker, KeyedPriorityQueue}
use mysql_async.Prelude.{ℕ, ◌^◌, Bool, not, Option, none, some, ltb, wrapping_add}

-- `Reverse(u64::MAX)`, the lowest priority.
abbrev pub queue_end_id : QueueId
queue_end_id = 2 ^ 64 - 1

-- `QueueId::next`: the id, and the counter afterwards.
unfoldable pub next : ℕ → QueueId × ℕ
unfolding wrapping_add
next next_queue_id = (next_queue_id, wrapping_add next_queue_id 1)

-- `a > b` on `QueueId(Reverse(_))`: the smaller number is the higher priority.
abbrev pub higher : QueueId → QueueId → Bool
higher a b = ltb a b

waker_of : Option QueuedWaker → Option Waker
waker_of none = none
waker_of (some qw) = some qw.waker

id_of : Option QueuedWaker → Option QueueId
id_of none = none
id_of (some qw) = some qw.queue_id

module _ {W : Type 0} ⦃queue : KeyedPriorityQueue W⦄ where
  -- Whether there was an entry with the id, and the list without it.
  unfoldable pub remove : QueueId → W → Bool × W
  remove id w = queue.remove w id

  -- Whether the id is new, and the list with its waker.
  unfoldable pub push : Waker → QueueId → W → Bool × W
  unfolding remove
  push waker id w =
      let (occupied, rest) = remove id w in
      (not occupied, queue.push rest (record { queue_id = id; waker = waker }) id)

  unfoldable pub pop : W → Option Waker × W
  unfolding waker_of
  pop w = let (popped, rest) = queue.pop w in (waker_of popped, rest)

  unfoldable pub peek_id : W → Option QueueId
  unfolding id_of
  peek_id w = id_of (queue.peek w)
