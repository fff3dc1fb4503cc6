-- ===== src/Pool/State.antt =====
-- src/conn/pool/mod.rs and metrics.rs: the state that the handles of a pool share. `W` is the state
-- of the wait list's queue. The mutex and the atomics are one state, since every operation below
-- runs under the lock; `woken` and `spawned` record the tasks woken and spawned so far, the latest
-- first. `Channel` is the `mpsc` channel to the recycler: the messages sent and not yet received,
-- the oldest first, and whether the receiver is alive.
use mysql_async.Conn.State.{Conn, Instant}
use mysql_async.Opts.PoolOpts.{PoolOpts}
use mysql_async.Pool.Waitlist.Queue.{Waker}
use mysql_async.Prelude.{
  ℕ, ◌-◌, ◌≡◌, refl, inl, inr, Bool, false, Option, none, some, List, [], ◌∷◌, ◌++◌, arith, ltb,
  Option-cases,
}

pub record IdlingConn : Type 0 where
  pub since : Instant
  pub conn : Conn

-- `From<Conn> for IdlingConn`.
unfoldable pub from_conn : Instant → Conn → IdlingConn
from_conn now c = record { since = now; conn = c }

past : Instant → Option Instant → Bool
past now none = false
past now (some t) = ltb t now

-- `IdlingConn::expired`: the absolute deadline only.
unfoldable pub expired : Instant → IdlingConn → Bool
unfolding past
expired now i = past now i.conn.ttl_deadline

-- `IdlingConn::elapsed`.
unfoldable pub elapsed : Instant → IdlingConn → ℕ
elapsed now i = now - i.since

pub record Metrics : Type 0 where
  pub connection_count : ℕ
  pub connections_in_pool : ℕ
  pub active_wait_requests : ℕ
  pub create_failed : ℕ
  pub discarded_superfluous_connection : ℕ
  pub discarded_unestablished_connection : ℕ
  pub dirty_connection_return : ℕ
  pub discarded_expired_connection : ℕ
  pub resetting_connection : ℕ
  pub discarded_error_during_cleanup : ℕ
  pub connection_returned_to_pool : ℕ

-- `Metrics::default`.
abbrev pub no_metrics : Metrics
no_metrics = record {
  connection_count = 0;
  connections_in_pool = 0;
  active_wait_requests = 0;
  create_failed = 0;
  discarded_superfluous_connection = 0;
  discarded_unestablished_connection = 0;
  dirty_connection_return = 0;
  discarded_expired_connection = 0;
  resetting_connection = 0;
  discarded_error_during_cleanup = 0;
  connection_returned_to_pool = 0;
}

-- `exchange.recycler` holds the options until the recycler is spawned; its receiver is the channel
-- below.
pub record Exchange (W : Type 0) : Type 0 where
  pub waiting : W
  pub available : List IdlingConn
  pub exist : ℕ
  pub recycler : Option PoolOpts

-- A task handed to the runtime. `disconnect_idling` gives the place of the connection back at its end.
pub data Task : Type 0 where
  recycler ttl_check_interval : Task
  disconnect disconnect_idling : Conn → Task

pub record Inner (W : Type 0) : Type 0 where
  pub metrics : Metrics
  pub close : Bool
  pub closed : Bool
  pub exchange : Exchange W
  pub open exchange use {waiting, available, exist}
  pub woken : List Waker
  pub spawned : List Task

pub record Channel : Type 0 where
  pub queue : List (Option Conn)
  pub receiver : Bool

pub record Pool (W : Type 0) : Type 0 where
  pub opts : PoolOpts
  pub inner : Inner W
  pub drop : Channel

pub data Error : Type 0 where
  pool_disconnected : Error
  connection : ℕ → Error

-- src/conn/pool/futures/get_conn.rs: the states of the `GetConn` future. `connecting` runs
-- `Conn::new`, and `checking` the health check of the idle connection that it owns.
pub data GetConnInner : Type 0 where
  new done connecting : GetConnInner
  checking : Conn → GetConnInner

module _ {W : Type 0} where
  abbrev pub with_exchange : Exchange W → Inner W → Inner W
  with_exchange e i = record i { exchange = e }

  abbrev pub with_waiting : W → Inner W → Inner W
  with_waiting w i = record i { exchange = record (i.exchange) { waiting = w } }

  abbrev pub with_available : List IdlingConn → Inner W → Inner W
  with_available l i = record i { exchange = record (i.exchange) { available = l } }

  -- A write to `exchange.exist` with the store to its gauge that follows it.
  abbrev pub with_exist : ℕ → Inner W → Inner W
  with_exist n i = record i {
    exchange = record (i.exchange) { exist = n };
    metrics = record (i.metrics) { connection_count = n };
  }

-- The last element and those before it.
unfoldable pub pop_back {ℓ} : {A : Type ℓ} → List A → Option (A × List A)
pop_back [] = none
pop_back (x ∷ xs) = elim (pop_back xs) [ none ↦ some (x, []) | some (y, ys) ↦ some (y, x ∷ ys) ]

pop_back-eq-none {ℓ} : {A : Type ℓ} (xs : List A) → pop_back xs ≡ none → xs ≡ []
unfolding pop_back
pop_back-eq-none [] h = refl
pop_back-eq-none (x ∷ xs) h = elim (Option-cases (pop_back xs)) [
  | inl e ↦ absurd (ground arith)
  | inr (p, e) ↦ absurd (ground arith)
]

pub pop_back-eq-some {ℓ} :
    {A : Type ℓ} (xs : List A) (y : A) (ys : List A)
    → pop_back xs ≡ some (y, ys)
    → xs ≡ ys ++ y ∷ []
unfolding pop_back
pop_back-eq-some [] y ys h = cc
pop_back-eq-some (x ∷ xs) y ys h = elim (Option-cases (pop_back xs)) [
  | inl e ↦ ground (arith, pop_back-eq-none xs e)
  | inr ((z, zs), e) ↦ ground (arith, pop_back-eq-some xs z zs e)
]
