-- ===== src/Pool/Ttl.antt =====
-- src/conn/pool/ttl_check_inerval.rs: the task that disconnects the idle connections that are too
-- old. `now` is `Instant::now()`. The tokio interval is a parameter: the times at which it ticks.
pub mod Laws
use mysql_async.Conn.State.{Instant}
use mysql_async.Opts.PoolOpts.{PoolOpts, Duration}
use mysql_async.Pool.State.{
  IdlingConn, expired, elapsed, disconnect_idling, Inner, with_available, with_exist,
}
use mysql_async.Pool.Exchange.{count_available}
use mysql_async.Prelude.{
  ℕ, suc, ◌-◌, Bool, true, false, not, ◌&&◌, ◌||◌, List, [], ◌∷◌, ltb, if◌then◌else◌, length,
  wrapping_sub, Poll, pending, ready, Run, returns, ◌>>=◌, ◌>>◌, assert,
}

-- Whether the connection is to be dropped: `dropped` were dropped before, and `num_to_drop` may be.
unfoldable pub is_dropped : Instant → Duration → ℕ → ℕ → IdlingConn → Bool
is_dropped now ttl num_to_drop dropped c =
    expired now c || ltb dropped num_to_drop && ltb ttl (elapsed now c)

-- The loop of `check_ttl`: the connections to be dropped and those kept.
unfoldable pub sort_out :
    Instant → Duration → ℕ → ℕ → List IdlingConn → List IdlingConn × List IdlingConn
sort_out now ttl num_to_drop dropped [] = ([], [])
sort_out now ttl num_to_drop dropped (c ∷ cs) = elim (is_dropped now ttl num_to_drop dropped c) [
  | true ↦
      let (to_be_dropped, kept) = sort_out now ttl num_to_drop (suc dropped) cs in
      (c ∷ to_be_dropped, kept)
  | false ↦
      let (to_be_dropped, kept) = sort_out now ttl num_to_drop dropped cs in
      (to_be_dropped, c ∷ kept)
]

module _ {W : Type 0} where
  -- The disconnects, each of which is a task.
  unfoldable pub spawn_disconnects : List IdlingConn → Inner W → Run (Inner W)
  spawn_disconnects [] i = returns i
  spawn_disconnects (c ∷ cs) i = do
    assert (not c.conn.pool)
    spawn_disconnects cs (record i { spawned = disconnect_idling c.conn ∷ i.spawned })

  -- The end of such a task.
  unfoldable pub finish_disconnect : Inner W → Inner W
  finish_disconnect i = with_exist (wrapping_sub i.exist 1) i

  unfoldable pub check_ttl : Instant → PoolOpts → Inner W → Run (Inner W)
  check_ttl now o i =
      let num_to_drop = length i.available - o.constraints.min in
      let (to_be_dropped, kept_available) =
        sort_out now o.inactive_connection_ttl num_to_drop 0 i.available in
      spawn_disconnects to_be_dropped (count_available (with_available kept_available i))

  -- `TtlCheckInterval::poll`, at the times at which the interval is ready.
  unfoldable pub poll : List Instant → PoolOpts → Inner W → Run (Poll (Unit {0}) × Inner W)
  poll [] o i = returns (pending, i)
  poll (now ∷ ticks) o i =
      if i.close then returns (ready tt, i) else (check_ttl now o i >>= (λ i'. poll ticks o i'))
