-- ===== src/Pool/Recycler/Laws.antt =====
-- src/conn/pool/recycler.rs: what one poll does to `exist` and to the connections that the recycler
-- and the idle list hold.
use mysql_async.Conn.State.{Conn, Instant}
use mysql_async.Pool.Waitlist.Queue.{KeyedPriorityQueue}
use mysql_async.Pool.State.{from_conn, Inner, with_available}
use mysql_async.Pool.Exchange.{count_available}
use mysql_async.Pool.Exchange.Laws.{wake_next-Same}
use mysql_async.Pool.Recycler.Task.{
  Work, push_discard, count_superfluous, count_returned, count_unestablished, count_dirty,
  count_expired, count_resetting,
}
use mysql_async.Pool.Recycler.{keep_idle, conn_return, conn_decision}
use mysql_async.Prelude.{
  ℕ, ◌+◌, ◌≡◌, refl, ap, ◌∙◌, Bool, false, [], ◌∷◌, ◌++◌, arith, length, length-append,
}

module _ {W : Type 0} where
  -- The connections that the recycler and the idle list hold.
  abbrev pub held : Work W → ℕ
  held w =
      length w.inner.available
      + length w.task.cleaning
      + length w.task.reset
      + length w.task.discard
      + w.task.discarded

  -- A step that leaves `exist` alone, and takes `given` connections in.
  pub record Files (given : ℕ) (v w : Work W) : Type 0 where
    pub exist : w.inner.exist ≡ v.inner.exist
    pub count : w.inner.metrics.connection_count ≡ v.inner.metrics.connection_count
    pub closed : w.inner.closed ≡ v.inner.closed
    pub close : w.inner.close ≡ v.inner.close
    pub pool_opts : w.task.pool_opts ≡ v.task.pool_opts
    pub eof : w.task.eof ≡ v.task.eof
    pub holds : held w ≡ held v + given

  pub Files-refl : (w : Work W) → Files 0 w w
  Files-refl w = record {
    exist = refl;
    count = refl;
    closed = refl;
    close = refl;
    pool_opts = refl;
    eof = refl;
    holds = omega arith;
  }

  pub Files-trans : {a b : ℕ} {u v w : Work W} → Files a u v → Files b v w → Files (a + b) u w
  Files-trans p q = record {
    exist = q.exist ∙ p.exist;
    count = q.count ∙ p.count;
    closed = q.closed ∙ p.closed;
    close = q.close ∙ p.close;
    pool_opts = q.pool_opts ∙ p.pool_opts;
    eof = q.eof ∙ p.eof;
    holds = omega (arith, p.holds, q.holds);
  }

module _ {W : Type 0} ⦃queue : KeyedPriorityQueue W⦄ where
  keep_idle-Same :
      (now : Instant) (c : Conn) (i : Inner W)
      → ((keep_idle now c i).exist ≡ i.exist)
        × ((keep_idle now c i).metrics.connection_count ≡ i.metrics.connection_count)
        × ((keep_idle now c i).available ≡ i.available ++ from_conn now c ∷ [])
        × ((keep_idle now c i).close ≡ i.close)
        × ((keep_idle now c i).closed ≡ i.closed)
  unfolding keep_idle count_available
  keep_idle-Same now c i =
      let s =
        wake_next-Same (count_available (with_available (i.available ++ from_conn now c ∷ []) i)) in
      (s.exist, s.count, s.available, s.close, s.closed)

  pub conn_return-Files :
      (now : Instant) (c : Conn) (pool_is_closed : Bool) (w : Work W)
      → Files 1 w (conn_return now c pool_is_closed w)
  unfolding conn_return push_discard count_superfluous count_returned
  conn_return-Files now c pool_is_closed w =
      let s = keep_idle-Same now c (count_returned w.inner) in
      record {
        exist = ground (arith, s.0);
        count = ground (arith, s.1);
        closed = ground (arith, s.4);
        close = ground (arith, s.3);
        pool_opts = ground arith;
        eof = ground arith;
        holds =
            ground (arith, ap length s.2, length-append w.inner.available (from_conn now c ∷ []));
      }

  pub conn_decision-Files :
      (now : Instant) (close : Bool) (c : Conn) (w : Work W)
      → Files 1 w (conn_decision now close c w)
  unfolding conn_decision push_discard count_unestablished count_dirty count_expired count_resetting
  conn_decision-Files now close c w =
      let s = conn_return-Files now c false w in
      record {
        exist = ground (arith, s.exist);
        count = ground (arith, s.count);
        closed = ground (arith, s.closed);
        close = ground (arith, s.close);
        pool_opts = ground (arith, s.pool_opts);
        eof = ground (arith, s.eof);
        holds = ground (arith, s.holds);
      }
