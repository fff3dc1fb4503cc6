-- ===== src/Pool/Recycler/Idle.antt =====
-- src/conn/pool/recycler.rs: a connection that becomes idle belongs to no pool handle, which the
-- assertions of `poll` ask for.
use mysql_async.Conn.State.{Conn, Instant}
use mysql_async.Opts.PoolOpts.{active_bound}
use mysql_async.Pool.Waitlist.Queue.{KeyedPriorityQueue}
use mysql_async.Pool.State.{IdlingConn, from_conn, Inner, with_available}
use mysql_async.Pool.Exchange.{count_available}
use mysql_async.Pool.Exchange.Laws.{wake_next-Same}
use mysql_async.Pool.Recycler.Task.{
  Work, Completed, take_at, push_discard, count_discarded, count_superfluous, count_returned,
  count_unestablished, count_dirty, count_expired, count_resetting, count_cleanup_error,
}
use mysql_async.Pool.Recycler.{
  keep_idle, conn_return, conn_decision, take_cleaned, finish_cleaning, take_reset, finish_reset,
}
use mysql_async.Prelude.{
  ◌≡◌, refl, sym, inl, inr, Bool, false, ◌||◌, Option, none, some, List, [], ◌∷◌, ◌++◌, arith, leb,
  Bool-cases, Option-cases, length, All, All-append, if_true, if_false, subst,
}

-- The idle connections belong to no pool handle.
abbrev pub IsIdle : IdlingConn → Type 0
IsIdle idle = idle.conn.pool ≡ false

-- A future of the recycler gives back a connection that belongs to no pool handle.
abbrev pub GivesFree : Completed Conn → Type 0
GivesFree d = (c : Conn) → d.result ≡ some c → c.pool ≡ false

module _ {W : Type 0} ⦃queue : KeyedPriorityQueue W⦄ where
  conn_return-IsIdle :
      (now : Instant) (pool_is_closed : Bool) (c : Conn) (w : Work W)
      → c.pool ≡ false
      → All IsIdle w.inner.available
      → All IsIdle (conn_return now c pool_is_closed w).inner.available
  unfolding conn_return push_discard count_superfluous count_returned keep_idle count_available
      from_conn
  conn_return-IsIdle now pool_is_closed c w free h =
      let i : Inner W =
        count_available
          (with_available (w.inner.available ++ from_conn now c ∷ []) (count_returned w.inner)) in
      elim (Bool-cases
        (pool_is_closed || leb (active_bound w.task.pool_opts) (length w.inner.available))) [
          | inl full ↦
              subst {A = Work W} (λ v. All IsIdle v.inner.available) (sym (if_true _ _ full)) h
          | inr room ↦
              subst {A = Work W} (λ v. All IsIdle v.inner.available) (sym (if_false _ _ room))
                (subst (All IsIdle) (sym (wake_next-Same i).available)
                  (All-append IsIdle w.inner.available (from_conn now c ∷ []) h (free, tt)))
        ]

  pub conn_decision-IsIdle :
      (now : Instant) (close : Bool) (c : Conn) (w : Work W)
      → c.pool ≡ false
      → All IsIdle w.inner.available
      → All IsIdle (conn_decision now close c w).inner.available
  unfolding conn_decision push_discard count_unestablished count_dirty count_expired count_resetting
  conn_decision-IsIdle now close c w free h =
      ground (arith, conn_return-IsIdle now false c w free h, h)

  take_cleaned-IsIdle :
      (now : Instant) (close : Bool) (r : Option Conn) (w : Work W)
      → ((c : Conn) → r ≡ some c → c.pool ≡ false)
      → All IsIdle w.inner.available
      → All IsIdle (take_cleaned now close r w).inner.available
  unfolding take_cleaned count_discarded count_cleanup_error
  take_cleaned-IsIdle now close (some c) w free h =
      conn_decision-IsIdle now close c w (free c refl) h
  take_cleaned-IsIdle now close none w free h = h

  take_reset-IsIdle :
      (now : Instant) (close : Bool) (r : Option Conn) (w : Work W)
      → ((c : Conn) → r ≡ some c → c.pool ≡ false)
      → All IsIdle w.inner.available
      → All IsIdle (take_reset now close r w).inner.available
  unfolding take_reset count_discarded count_cleanup_error
  take_reset-IsIdle now close (some c) w free h = conn_return-IsIdle now close c w (free c refl) h
  take_reset-IsIdle now close none w free h = h

  pub finish_cleaning-IsIdle :
      (now : Instant) (close : Bool) (ds : List (Completed Conn)) (w : Work W)
      → All GivesFree ds
      → All IsIdle w.inner.available
      → All IsIdle (finish_cleaning now close ds w).inner.available
  unfolding finish_cleaning
  finish_cleaning-IsIdle now close [] w free h = h
  finish_cleaning-IsIdle now close (d ∷ ds) w free h =
      elim (Option-cases (take_at d.place w.task.cleaning)) [
        | inl e ↦ rw (e, finish_cleaning) h
        | inr (rest, e) ↦
            let v : Work W = record w { task = record (w.task) { cleaning = rest } } in
            rw (e, finish_cleaning)
              (finish_cleaning-IsIdle now close ds (take_cleaned now close d.result v) free.1
                (take_cleaned-IsIdle now close d.result v free.0 h))
      ]

  pub finish_reset-IsIdle :
      (now : Instant) (close : Bool) (ds : List (Completed Conn)) (w : Work W)
      → All GivesFree ds
      → All IsIdle w.inner.available
      → All IsIdle (finish_reset now close ds w).inner.available
  unfolding finish_reset
  finish_reset-IsIdle now close [] w free h = h
  finish_reset-IsIdle now close (d ∷ ds) w free h =
      elim (Option-cases (take_at d.place w.task.reset)) [
        | inl e ↦ rw (e, finish_reset) h
        | inr (rest, e) ↦
            let v : Work W = record w { task = record (w.task) { reset = rest } } in
            rw (e, finish_reset)
              (finish_reset-IsIdle now close ds (take_reset now close d.result v) free.1
                (take_reset-IsIdle now close d.result v free.0 h))
      ]
