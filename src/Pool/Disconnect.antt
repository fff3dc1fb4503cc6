-- ===== src/Pool/Disconnect.antt =====
-- src/conn/pool/futures/disconnect_pool.rs: `DisconnectPool`. `drop` tells whether the future still
-- has its sender to the recycler. A recycler that took the message is still at work, so the wait
-- for its end is pending.
use mysql_async.Conn.State.{Instant}
use mysql_async.Pool.Exchange.{spawn_futures_if_needed, poll_new_conn}
use mysql_async.Pool.State.{Inner, Pool, Error, pool_disconnected, with_waiting}
use mysql_async.Pool.Waitlist
use mysql_async.Pool.Waitlist.{queue_end_id}
use mysql_async.Pool.Waitlist.Queue.{QueueId, Waker, KeyedPriorityQueue}
use mysql_async.Prelude.{
  ◌≡◌, Bool, true, false, none, [], ◌∷◌, ◌++◌, arith, if◌then◌else◌, Result, ok, err, Poll, pending,
  ready, returns,
}

pub record DisconnectPool : Type 0 where
  pub drop : Bool

module _ {W : Type 0} where
  send_end : Pool W → Poll (Result Error (Unit {0})) × Pool W
  send_end p =
      if p.drop.receiver
      then (pending, record p { drop = record (p.drop) { queue = p.drop.queue ++ none ∷ [] } })
      else (ready (ok tt), p)

  -- The end of the poll: the message to the recycler, once.
  finish : DisconnectPool → Pool W → Poll (Result Error (Unit {0})) × (DisconnectPool × Pool W)
  unfolding send_end
  finish d p =
      if p.inner.closed
      then (ready (ok tt), (d, p))
      else if d.drop
      then (let (r, q) = send_end p in (r, (record { drop = false }, q)))
      else (pending, (d, p))

  module _ ⦃queue : KeyedPriorityQueue W⦄ where
    -- The pool closed, with the task in its wait list after all the others.
    close_and_wait : Waker → Inner W → Inner W
    close_and_wait waker i =
        let i' : Inner W = spawn_futures_if_needed (record i { close = true }) in
        let (new, rest) = Waitlist.push waker queue_end_id i'.waiting in with_waiting rest i'

    -- `DisconnectPool::poll`.
    unfoldable pub poll :
        Waker → DisconnectPool → Pool W → Poll (Result Error (Unit {0})) × (DisconnectPool × Pool W)
    unfolding finish close_and_wait
    poll waker d p = finish d (record p { inner = close_and_wait waker p.inner })

    -- After a poll of `DisconnectPool`, every request of a connection is refused, and leaves the
    -- pool as it is.
    pub poll-refuses :
        (waker : Waker) (d : DisconnectPool) (p : Pool W) (now : Instant) (other : Waker)
        (id : QueueId)
        → let q = (poll waker d p).1.1 in
          poll_new_conn now other id q ≡ returns (ready (err pool_disconnected), q)
    unfolding poll poll_new_conn spawn_futures_if_needed send_end
    poll-refuses waker d p now other id = ground arith

    -- On a pool that is not closed, a second poll of `DisconnectPool` sends the recycler nothing
    -- more.
    pub poll-sends_once :
        (waker : Waker) (d : DisconnectPool) (p : Pool W) (other : Waker)
        → p.inner.closed ≡ false
        → let (r, (d', q)) = poll waker d p in (poll other d' q).1.1.drop ≡ q.drop
    unfolding poll send_end spawn_futures_if_needed
    poll-sends_once waker d p other open_ = ground arith
