-- ===== src/Pool/Recycler/Task.antt =====
-- src/conn/pool/recycler.rs: the state of the recycler, and its counters. What the runtime has ready
-- is input: the messages of the channel, and which futures of the three sets complete and how, in
-- the order in which the sets give them out.
use mysql_async.Conn.State.{Conn}
use mysql_async.Opts.PoolOpts.{PoolOpts}
use mysql_async.Pool.State.{Inner}
use mysql_async.Prelude.{
  ℕ, zero, suc, ◌+◌, Bool, true, false, Option, none, some, List, [], ◌∷◌, wrapping_add,
}

-- A future of the set `discard`: `close_conn`, or the one that is ready at once, for a connection
-- that was never established.
pub data Discard : Type 0 where
  closing : Conn → Discard
  unestablished : Discard

pub record Recycler : Type 0 where
  pub discard : List Discard
  pub discarded : ℕ
  pub cleaning : List Conn
  pub reset : List Conn
  pub pool_opts : PoolOpts
  pub eof : Bool

-- `Recycler::new`.
unfoldable pub new : PoolOpts → Recycler
new o = record {
  discard = [];
  discarded = 0;
  cleaning = [];
  reset = [];
  pool_opts = o;
  eof = false;
}

-- The recycler with the state that it shares with the pool.
pub record Work (W : Type 0) : Type 0 where
  pub inner : Inner W
  pub task : Recycler

-- What `poll_recv` gives: a message, or the end of the channel.
pub data Received : Type 0 where
  message : Option Conn → Received
  end_of_channel : Received

-- A future of a set that has completed: its place in the set, and its result.
pub record Completed {ℓ} (A : Type ℓ) : Type ℓ where
  pub place : ℕ
  pub result : Option A

-- What is ready in one poll.
pub record Inputs : Type 0 where
  pub received : List Received
  pub cleaned : List (Completed Conn)
  pub resets : List (Completed Conn)
  pub discards : List (Completed (Unit {0}))

-- The set without the future at a place, if there is one.
unfoldable pub take_at {ℓ} : {A : Type ℓ} → ℕ → List A → Option (List A)
take_at n [] = none
take_at zero (x ∷ xs) = some xs
take_at (suc n) (x ∷ xs) = elim (take_at n xs) [ none ↦ none | some ys ↦ some (x ∷ ys) ]

module _ {W : Type 0} where
  unfoldable pub count_superfluous : Inner W → Inner W
  count_superfluous i = record i {
    metrics = record (i.metrics) {
      discarded_superfluous_connection = wrapping_add i.metrics.discarded_superfluous_connection 1;
    };
  }

  unfoldable pub count_returned : Inner W → Inner W
  count_returned i = record i {
    metrics = record (i.metrics) {
      connection_returned_to_pool = wrapping_add i.metrics.connection_returned_to_pool 1;
    };
  }

  unfoldable pub count_unestablished : Inner W → Inner W
  count_unestablished i = record i {
    metrics = record (i.metrics) {
      discarded_unestablished_connection =
          wrapping_add i.metrics.discarded_unestablished_connection 1;
    };
  }

  unfoldable pub count_dirty : Inner W → Inner W
  count_dirty i = record i {
    metrics = record (i.metrics) {
      dirty_connection_return = wrapping_add i.metrics.dirty_connection_return 1;
    };
  }

  unfoldable pub count_expired : Inner W → Inner W
  count_expired i = record i {
    metrics = record (i.metrics) {
      discarded_expired_connection = wrapping_add i.metrics.discarded_expired_connection 1;
    };
  }

  unfoldable pub count_resetting : Inner W → Inner W
  count_resetting i = record i {
    metrics = record (i.metrics) {
      resetting_connection = wrapping_add i.metrics.resetting_connection 1;
    };
  }

  unfoldable pub count_cleanup_error : Inner W → Inner W
  count_cleanup_error i = record i {
    metrics = record (i.metrics) {
      discarded_error_during_cleanup = wrapping_add i.metrics.discarded_error_during_cleanup 1;
    };
  }

  unfoldable pub push_discard : Discard → Work W → Work W
  push_discard d w = record w { task = record (w.task) { discard = d ∷ w.task.discard } }

  -- Marks one connection as gone. The count, of a `usize` in the source, has no bound here.
  unfoldable pub count_discarded : Work W → Work W
  count_discarded w = record w { task = record (w.task) { discarded = w.task.discarded + 1 } }

-- `is_empty` of a set.
abbrev pub is_nil {ℓ} : {A : Type ℓ} → List A → Bool
is_nil [] = true
is_nil (_ ∷ _) = false
