-- ===== src/Pool/Recycler.antt =====
-- src/conn/pool/recycler.rs: the task that takes connections back. One `poll` is a function of what
-- the runtime has ready, the `Inputs` of Recycler/Work.antt. `now` is `Instant::now()`.
pub mod Task
pub mod Laws
pub mod Idle
pub mod Phases
pub mod Entry
pub mod Finish
pub mod Safety
use Task.{
  Discard, closing, unestablished, Recycler, Work, Received, message, end_of_channel, Completed,
  Inputs, take_at, count_superfluous, count_returned, count_unestablished, count_dirty,
  count_expired, count_resetting, count_cleanup_error, push_discard, count_discarded, is_nil,
}
use mysql_async.Conn.State.{Conn, Instant}
use mysql_async.Conn.State
use mysql_async.Conn.TxStatus.{is_open}
use mysql_async.Conn.Pending.{has_pending_result}
use mysql_async.Opts.PoolOpts.{active_bound}
use mysql_async.Pool.Waitlist
use mysql_async.Pool.Waitlist.Queue.{KeyedPriorityQueue}
use mysql_async.Pool.State.{IdlingConn, from_conn, Inner, with_available, with_exist}
use mysql_async.Pool.Exchange.{wake_next, count_available}
use mysql_async.Prelude.{
  ℕ, zero, suc, Bool, true, false, not, ◌&&◌, ◌||◌, Option, none, some, List, [], ◌∷◌, ◌++◌, leb,
  ◌==◌, if◌then◌else◌, length, wrapping_sub, Run, returns, ◌>>=◌, ◌>>◌, assert,
}

module _ {W : Type 0} where
  module _ ⦃queue : KeyedPriorityQueue W⦄ where
    -- `exchange.available.push_back(..)` with what follows it.
    unfoldable pub keep_idle : Instant → Conn → Inner W → Inner W
    keep_idle now c i =
        wake_next (count_available (with_available (i.available ++ from_conn now c ∷ []) i))

    -- The macro `conn_return`.
    unfoldable pub conn_return : Instant → Conn → Bool → Work W → Work W
    unfolding push_discard keep_idle
    conn_return now c pool_is_closed w =
        if pool_is_closed || leb (active_bound w.task.pool_opts) (length w.inner.available)
        then push_discard (closing c) (record w { inner = count_superfluous w.inner })
        else record w { inner = keep_idle now c (count_returned w.inner) }

    -- The macro `conn_decision`; `close` is the variable of `poll`.
    unfoldable pub conn_decision : Instant → Bool → Conn → Work W → Work W
    unfolding push_discard
    conn_decision now close c w =
        if not c.stream || c.disconnected
        then push_discard unestablished (record w { inner = count_unestablished w.inner })
        else if is_open c.tx_status || has_pending_result c
        then record w {
          inner = count_dirty w.inner;
          task = record (w.task) { cleaning = c ∷ w.task.cleaning };
        }
        else if State.expired now c || close
        then push_discard (closing c) (record w { inner = count_expired w.inner })
        else if c.reset_upon_returning_to_a_pool
        then record w {
          inner = count_resetting w.inner;
          task = record (w.task) { reset = c ∷ w.task.reset };
        }
        else conn_return now c false w

    -- One round of the loop over the channel.
    unfoldable pub receive : Instant → Bool → Received → Work W → Run (Bool × Work W)
    receive now close (message (some c)) w = do
      assert (not c.pool)
      returns (close, conn_decision now close c w)
    receive now close (message none) w = do assert w.inner.close; returns (w.inner.close, w)
    receive now close end_of_channel w = returns (
      true,
      record w { inner = record (w.inner) { close = true }; task = record (w.task) { eof = true } },
    )

    -- The loop over the channel: it ends with the channel, or where no message is ready.
    unfoldable pub receive_all : Instant → Bool → List Received → Work W → Run (Bool × Work W)
    receive_all now close [] w = returns (close, w)
    receive_all now close (m ∷ ms) w =
        if w.task.eof
        then returns (close, w)
        else receive now close m w >>= (λ r. receive_all now r.0 ms r.1)

    pub reclaim_next : Instant → Bool → IdlingConn → List IdlingConn → Work W → Run (Work W)
    reclaim_next now close idle rest w = do
      assert (not idle.conn.pool)
      returns (conn_decision now close idle.conn (record w { inner = with_available rest w.inner }))

    -- The loop that reclaims the idle connections, the oldest first. The fuel is their number.
    unfoldable pub reclaim : ℕ → Instant → Bool → Work W → Run (Work W)
    unfolding reclaim_next
    reclaim zero now close w = returns w
    reclaim (suc fuel) now close w = elim w.inner.available [
      | [] ↦ returns w
      | idle ∷ rest ↦ reclaim_next now close idle rest w >>= (λ w'. reclaim fuel now close w')
    ]

    -- A connection that was cleaned, or that failed to be.
    unfoldable pub take_cleaned : Instant → Bool → Option Conn → Work W → Work W
    take_cleaned now close (some c) w = conn_decision now close c w
    take_cleaned now close none w =
        count_discarded (record w { inner = count_cleanup_error w.inner })

    -- The loop over the connections that were cleaned.
    unfoldable pub finish_cleaning : Instant → Bool → List (Completed Conn) → Work W → Work W
    unfolding take_cleaned
    finish_cleaning now close [] w = w
    finish_cleaning now close (d ∷ ds) w = elim (take_at d.place w.task.cleaning) [
      | none ↦ w
      | some rest ↦ finish_cleaning now close ds (
          take_cleaned now close d.result (record w { task = record (w.task) { cleaning = rest } }))
    ]

    -- A connection that was reset, or that failed to be.
    unfoldable pub take_reset : Instant → Bool → Option Conn → Work W → Work W
    take_reset now close (some c) w = conn_return now c close w
    take_reset now close none w = count_discarded (record w { inner = count_cleanup_error w.inner })

    -- The loop over the connections that were reset.
    unfoldable pub finish_reset : Instant → Bool → List (Completed Conn) → Work W → Work W
    unfolding take_reset
    finish_reset now close [] w = w
    finish_reset now close (d ∷ ds) w = elim (take_at d.place w.task.reset) [
      | none ↦ w
      | some rest ↦
          finish_reset now close ds
            (take_reset now close d.result (record w { task = record (w.task) { reset = rest } }))
    ]

    -- A connection that was closed, with or without an error.
    unfoldable pub take_discarded : Option (Unit {0}) → Work W → Work W
    take_discarded (some _) w = count_discarded w
    take_discarded none w = count_discarded (record w { inner = count_cleanup_error w.inner })

    -- The loop over the connections that were closed.
    unfoldable pub finish_discard : List (Completed (Unit {0})) → Work W → Work W
    unfolding take_discarded
    finish_discard [] w = w
    finish_discard (d ∷ ds) w = elim (take_at d.place w.task.discard) [
      | none ↦ w
      | some rest ↦
          finish_discard ds
            (take_discarded d.result (record w { task = record (w.task) { discard = rest } }))
    ]

    -- `for _ in 0..n { if let Some(w) = exchange.waiting.pop() { w.wake(); } }`.
    unfoldable pub wake_times : ℕ → Inner W → Inner W
    wake_times zero i = i
    wake_times (suc n) i = wake_times n (wake_next i)

    pub give_back : Work W → Work W
    give_back w = record w {
      inner =
          wake_times w.task.discarded
            (with_exist (wrapping_sub w.inner.exist w.task.discarded) w.inner);
      task = record (w.task) { discarded = 0 };
    }

    -- The places of the connections that are gone are given back.
    unfoldable pub release : Work W → Work W
    unfolding give_back
    release w = if w.task.discarded == 0 then w else give_back w

    -- `while let Some(w) = exchange.waiting.pop() { w.wake(); }`, with the length of the queue as
    -- fuel.
    unfoldable pub wake_all : ℕ → Inner W → Inner W
    wake_all zero i = i
    wake_all (suc n) i = elim (Waitlist.pop i.waiting).0 [
      | none ↦ i
      | some _ ↦ wake_all n (wake_next i)
    ]

    pub is_done : Bool → Work W → Bool
    is_done close w =
        (w.task.eof || (close && w.inner.exist == 0))
        && (is_nil w.task.cleaning && (is_nil w.task.discard && is_nil w.task.reset))

    -- `closed` is set when everything is gone.
    pub set_closed : Bool → Work W → Run (Work W)
    unfolding is_done
    set_closed close w =
        if is_done close w
        then assert (length w.inner.available == 0)
          >> returns (record w { inner = record (w.inner) { closed = true } })
        else returns w

    -- Once `closed` is set all waiting tasks are woken, and the task has finished.
    pub finish : Work W → Run (Bool × Work W)
    finish w =
        if w.inner.closed
        then assert (w.inner.exist == 0)
          >> (assert (length w.inner.available == 0)
              >> returns (true, record w { inner = wake_all (queue.len w.inner.waiting) w.inner }))
        else returns (false, w)

    -- The end of `poll`. The result says whether the task has finished.
    unfoldable pub conclude : Bool → Work W → Run (Bool × Work W)
    unfolding set_closed finish
    conclude close w = set_closed close w >>= (λ w'. finish w')

    pub after_receive : Instant → Inputs → Bool × Work W → Run (Bool × Work W)
    after_receive now inputs (close, w) = do
      w ←
          (if close || w.task.eof
            then reclaim (length w.inner.available) now close w
            else returns w)
      conclude close (
          release (
            finish_discard inputs.discards
              (finish_reset now close inputs.resets (finish_cleaning now close inputs.cleaned w))))

    -- `Recycler::poll`.
    unfoldable pub poll : Instant → Inputs → Work W → Run (Bool × Work W)
    unfolding after_receive
    poll now inputs w =
        receive_all now w.inner.close inputs.received w >>= (λ r. after_receive now inputs r)

    -- `impl Drop for Recycler`.
    unfoldable pub drop : Inner W → Inner W
    drop i = if i.closed then i else record i { close = true }
