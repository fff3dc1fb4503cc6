-- ===== src/Pool/Exchange.antt =====
-- src/conn/pool/mod.rs: the operations of `Pool` and the drop of a `Conn`. `now` is
-- `Instant::now()`, and `waker` the one of the task that polls. Recording into the histograms of the
-- `hdrhistogram` feature is left out.
pub mod Laws
pub mod Priority
use mysql_async.Conn.State.{Conn, Instant}
use mysql_async.Conn.State
use mysql_async.Opts.PoolOpts.{PoolOpts, Duration}
use mysql_async.Pool.Waitlist
use mysql_async.Pool.Waitlist.{higher}
use mysql_async.Pool.Waitlist.Queue.{QueueId, Waker, KeyedPriorityQueue}
use mysql_async.Pool.State.{
  no_metrics, recycler, ttl_check_interval, disconnect, Inner, Pool, Error, pool_disconnected,
  GetConnInner, connecting, checking, with_waiting, with_available, with_exist, pop_back,
}
use mysql_async.Prelude.{
  ℕ, zero, suc, Bool, true, false, not, ◌&&◌, ◌||◌, Option, none, some, [], ◌∷◌, ◌++◌, ltb,
  if◌then◌else◌, length, wrapping_add, wrapping_sub, Result, ok, err, Poll, pending, ready, Run,
  returns, panics, ◌>>=◌, ◌>>◌, assert,
}

module _ {W : Type 0} where
  count_waiter : Bool → Inner W → Inner W
  count_waiter false i = i
  count_waiter true i = record i {
    metrics = record (i.metrics) {
      active_wait_requests = wrapping_add i.metrics.active_wait_requests 1;
    };
  }

  -- `Exchange::spawn_futures_if_needed`.
  spawn_futures : Option PoolOpts → Inner W → Inner W
  spawn_futures none i = i
  spawn_futures (some o) i = record i {
    exchange = record (i.exchange) { recycler = none };
    spawned =
        if ltb 0 o.inactive_connection_ttl || is_some o.abs_conn_ttl
        then ttl_check_interval ∷ recycler ∷ i.spawned
        else recycler ∷ i.spawned;
  }
    where
      is_some : Option Duration → Bool
      is_some none = false
      is_some (some _) = true

  unfoldable pub spawn_futures_if_needed : Inner W → Inner W
  unfolding spawn_futures
  spawn_futures_if_needed i = spawn_futures i.exchange.recycler i

  -- The drop of a connection that belongs to no pool: a live one is closed by a task of its own.
  unfoldable pub drop_conn : Conn → Inner W → Inner W
  drop_conn c i =
      if c.stream && not c.disconnected then record i { spawned = disconnect c ∷ i.spawned } else i

  -- `Pool::send_to_recycler`. A connection that cannot be sent is dropped, or, if the recycler has
  -- finished, the thread panics.
  unfoldable pub send_to_recycler : Conn → Pool W → Run (Pool W)
  unfolding drop_conn
  send_to_recycler c p =
      if p.drop.receiver
      then returns (record p { drop = record (p.drop) { queue = p.drop.queue ++ some c ∷ [] } })
      else if p.inner.closed
      then panics
      else (do assert (not c.pool); returns (record p { inner = drop_conn c p.inner }))

  -- The loop of `poll_new_conn` over the idle connections, the latest first. The fuel is their
  -- number.
  unfoldable pub take_available : ℕ → Instant → Pool W → Run (Option Conn × Pool W)
  take_available zero now p = returns (none, p)
  take_available (suc fuel) now p = elim (pop_back p.inner.available) [
    | none ↦ returns (none, p)
    | some (idle, rest) ↦
        let p' : Pool W = record p { inner = with_available rest p.inner } in
        if State.expired now idle.conn
        then send_to_recycler idle.conn p' >>= (λ p''. take_available fuel now p'')
        else returns (some (record (idle.conn) { active_since = now }), p')
  ]

  unfoldable pub count_create_failed : Inner W → Inner W
  count_create_failed i = record i {
    metrics = record (i.metrics) { create_failed = wrapping_add i.metrics.create_failed 1 };
  }

  -- `available.len()` stored into its gauge.
  unfoldable pub count_available : Inner W → Inner W
  count_available i = record i {
    metrics = record (i.metrics) { connections_in_pool = length i.available };
  }

  module _ ⦃queue : KeyedPriorityQueue W⦄ where
    wake : Option Waker → Inner W → Inner W
    wake none i = i
    wake (some w) i = record i { woken = w ∷ i.woken }

    -- `if let Some(w) = exchange.waiting.pop() { w.wake(); }`.
    unfoldable pub wake_next : Inner W → Inner W
    unfolding wake
    wake_next i = let (waker, rest) = Waitlist.pop i.waiting in wake waker (with_waiting rest i)

    -- `Pool::cancel_connection`.
    unfoldable pub cancel_connection : Inner W → Inner W
    cancel_connection i = wake_next (count_create_failed (with_exist (wrapping_sub i.exist 1) i))

    -- `exchange.waiting.push(..)`, counted if the request is new.
    unfoldable pub enqueue : Waker → QueueId → Inner W → Inner W
    unfolding count_waiter
    enqueue waker id i =
        let (new, rest) = Waitlist.push waker id i.waiting in count_waiter new (with_waiting rest i)

    -- Whether nothing of a higher priority waits.
    unfoldable pub highest : QueueId → Inner W → Bool
    highest id i = elim (Waitlist.peek_id i.waiting) [ none ↦ true | some cur ↦ higher id cur ]

    -- The end of `poll_new_conn`: a new connection if there is room for it, or the queue.
    unfoldable pub connect_or_wait :
        Waker → QueueId → Pool W → Poll (Result Error GetConnInner) × Pool W
    connect_or_wait waker id p =
        let i : Inner W = count_available p.inner in
        if ltb i.exist p.opts.constraints.max
        then (ready (ok connecting), record p { inner = with_exist (wrapping_add i.exist 1) i })
        else (pending, record p { inner = enqueue waker id i })

    unfoldable pub after_search :
        Waker → QueueId → Option Conn × Pool W → Poll (Result Error GetConnInner) × Pool W
    after_search waker id (none, p) = connect_or_wait waker id p
    after_search waker id (some c, p) = (ready (ok (checking c)), p)

    -- `Pool::poll_new_conn`.
    unfoldable pub poll_new_conn :
        Instant → Waker → QueueId → Pool W → Run (Poll (Result Error GetConnInner) × Pool W)
    unfolding after_search
    poll_new_conn now waker id p =
        if p.inner.close
        then returns (ready (err pool_disconnected), p)
        else let i : Inner W = spawn_futures_if_needed p.inner in
          if not (highest id i)
          then returns (pending, record p { inner = enqueue waker id i })
          else take_available (length i.available) now (record p { inner = i })
            >>= (λ found. returns (after_search waker id found))

    -- `Pool::unqueue`.
    unfoldable pub unqueue : QueueId → Inner W → Inner W
    unqueue id i =
        let (removed, rest) = Waitlist.remove id i.waiting in
        let i' : Inner W = with_waiting rest i in
        if removed
        then record i' {
          metrics = record (i'.metrics) {
            active_wait_requests = wrapping_sub i'.metrics.active_wait_requests 1;
          };
        }
        else i'

    -- `impl Drop for Conn`, for a connection that belongs to this pool: what the pool does with it.
    -- `panicking` is `std::thread::panicking()`.
    unfoldable pub return_conn : Bool → Conn → Pool W → Run (Pool W)
    return_conn panicking c p =
        if panicking
        then returns (record p { inner = cancel_connection p.inner })
        else send_to_recycler (record c { pool = false }) p

    -- `Pool::new`.
    unfoldable pub new : PoolOpts → Pool W
    new o = record {
      opts = o;
      inner = record {
        metrics = no_metrics;
        close = false;
        closed = false;
        exchange = record { waiting = queue.empty; available = []; exist = 0; recycler = some o };
        woken = [];
        spawned = [];
      };
      drop = record { queue = []; receiver = true };
    }
