-- ===== src/Pool/GetConn.antt =====
-- src/conn/pool/futures/get_conn.rs: `GetConn`, the future of a connection. What the inner futures
-- `Conn::new` and the health check resolve to is a parameter: the results of their polls, in turn.
-- A check that succeeds resolves to the connection that it was given.
pub mod Laws
use mysql_async.Conn.State.{Conn, Instant}
use mysql_async.Pool.Exchange.{drop_conn, poll_new_conn, cancel_connection, unqueue}
use mysql_async.Pool.State.{Inner, Pool, Error, GetConnInner, done, connecting, checking}
use mysql_async.Pool.State
use mysql_async.Pool.Waitlist
use mysql_async.Pool.Waitlist.Queue.{QueueId, Waker, KeyedPriorityQueue}
use mysql_async.Prelude.{
  ℕ, Bool, true, false, List, [], ◌∷◌, if◌then◌else◌, Result, ok, err, Poll, pending, ready, Run,
  returns, panics, ◌>>=◌, ◌>>◌, assert,
}

-- `pool` tells whether the future still has its handle of the pool.
pub record GetConn : Type 0 where
  pub queue_id : QueueId
  pub pool : Bool
  pub inner : GetConnInner
  pub reset_upon_returning_to_a_pool : Bool

-- `GetConn::new`, and the counter of ids afterwards.
unfoldable pub new : ℕ → Bool → GetConn × ℕ
new next_queue_id reset =
    let (id, next_queue_id') = Waitlist.next next_queue_id in
    (
      record {
        queue_id = id;
        pool = true;
        inner = State.new;
        reset_upon_returning_to_a_pool = reset;
      },
      next_queue_id',
    )

-- The result of a pass through the loop of `poll`: it goes on, or it returns.
pub data Pass (W : Type 0) : Type 0 where
  continues : GetConn → Pool W → Pass W
  finishes : Poll (Result Error Conn) → GetConn → Pool W → Pass W

module _ {W : Type 0} where
  -- The connection handed out, which has the pool and the flag.
  unfoldable pub hand_out : Conn → GetConn → Pool W → Pass W
  hand_out c g p =
      finishes
        (ready (
          ok (record c {
            pool = true;
            reset_upon_returning_to_a_pool = g.reset_upon_returning_to_a_pool;
          })))
        (record g { pool = false; inner = done }) p

  -- What `poll_new_conn` answers.
  unfoldable pub after_poll_new_conn :
      GetConn → Poll (Result Error GetConnInner) × Pool W → Run (Pass W)
  after_poll_new_conn g (pending, p) = returns (finishes pending g p)
  after_poll_new_conn g (ready (err e), p) = returns (finishes (ready (err e)) g p)
  after_poll_new_conn g (ready (ok connecting), p) =
      returns (continues (record g { inner = connecting }) p)
  after_poll_new_conn g (ready (ok (checking c)), p) =
      returns (continues (record g { inner = checking c }) p)
  after_poll_new_conn g (ready (ok State.new), p) = panics
  after_poll_new_conn g (ready (ok done), p) = panics

  module _ ⦃queue : KeyedPriorityQueue W⦄ where
    -- The arm `New`.
    unfoldable pub request : Instant → Waker → GetConn → Pool W → Run (Pass W)
    request now waker g p =
        assert g.pool
        >> (poll_new_conn now waker g.queue_id p >>= (λ answer. after_poll_new_conn g answer))

    -- The arm `Connecting`, where the connection is made or not.
    unfoldable pub connected : Result Error Conn → GetConn → Pool W → Run (Pass W)
    connected (ok c) g p = assert g.pool >> returns (hand_out c g p)
    connected (err e) g p =
        assert g.pool
        >> returns (
            finishes (ready (err e)) (record g { pool = false; inner = done })
              (record p { inner = cancel_connection p.inner }))

    -- The arm `Checking`. The check drops the broken connection.
    unfoldable pub checked : Result Error Conn → Conn → GetConn → Pool W → Run (Pass W)
    checked (ok _) c g p = assert g.pool >> returns (hand_out c g p)
    checked (err _) c g p =
        assert g.pool
        >> returns (
            continues (record g { inner = State.new })
              (record p { inner = cancel_connection (drop_conn c p.inner) }))

    -- A pass that begins with the inner future ready.
    unfoldable pub resolve : Result Error Conn → GetConnInner → GetConn → Pool W → Run (Pass W)
    resolve r connecting g p = connected r g p
    resolve r (checking c) g p = checked r c g p
    resolve r State.new g p = panics
    resolve r done g p = panics

    unfoldable pub enter : Instant → Waker → GetConnInner → GetConn → Pool W → Run (Pass W)
    enter now waker State.new g p = request now waker g p
    enter now waker done g p = panics
    enter now waker connecting g p = returns (continues g p)
    enter now waker (checking c) g p = returns (continues g p)

    -- The arm `New` where the future is in it.
    unfoldable pub begin : Instant → Waker → Pass W → Run (Pass W)
    begin now waker (finishes r g p) = returns (finishes r g p)
    begin now waker (continues g p) = enter now waker g.inner g p

    -- The loop, from where the future is connecting or checking. A future without a further result
    -- is pending.
    unfoldable pub resume :
        Instant
        → Waker
        → List (Poll (Result Error Conn))
        → Pass W
        → Run (Poll (Result Error Conn) × (GetConn × Pool W))
    resume now waker results (finishes r g p) = returns (r, (g, p))
    resume now waker [] (continues g p) = returns (pending, (g, p))
    resume now waker (pending ∷ results) (continues g p) = returns (pending, (g, p))
    resume now waker (ready r ∷ results) (continues g p) =
        resolve r g.inner g p
        >>= (λ pass. begin now waker pass >>= (λ pass'. resume now waker results pass'))

    -- `GetConn::poll`.
    unfoldable pub poll :
        Instant
        → Waker
        → List (Poll (Result Error Conn))
        → GetConn
        → Pool W
        → Run (Poll (Result Error Conn) × (GetConn × Pool W))
    poll now waker results g p =
        begin now waker (continues g p) >>= (λ pass. resume now waker results pass)

    unfoldable pub cancel : GetConnInner → Inner W → Inner W
    cancel connecting i = cancel_connection i
    cancel _ i = i

    -- The drop of the inner future, with the connection that it owns.
    unfoldable pub drop_inner : GetConnInner → Inner W → Inner W
    drop_inner (checking c) i = drop_conn c i
    drop_inner _ i = i

    -- `impl Drop for GetConn`.
    unfoldable pub drop : GetConn → Inner W → Inner W
    unfolding cancel drop_inner
    drop g i = drop_inner g.inner (if g.pool then cancel g.inner (unqueue g.queue_id i) else i)
