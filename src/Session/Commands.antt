-- ===== src/Session/Commands.antt =====
-- src/conn/mod.rs, src/conn/routines/ and src/queryable/mod.rs: commands, and the cleanup that goes
-- before them. A command is preceded by `clean_dirty`, which may send a `ROLLBACK`, which is a command:
-- `clean_dirty` takes the depth of this recursion, and two levels are enough.
use mysql_async.Conn.State.{Conn, ResultSetMeta, text, binary, PendingResult, pending, taken}
use mysql_async.Conn.TxStatus.{TxStatus, is_open, is_abandoned}
use mysql_async.Conn.State
use mysql_async.Conn.Pending.{Pended, has_pending_result, set_pending_result}
use mysql_async.Session.Outcome.{
  server, is_fatal, Outcome, ok, err, panicked, stuck, ◌>>=◌, ◌>>◌, return,
}
use mysql_async.Session.Protocol.{
  MySqlCommon, text_protocol, binary_protocol, Command, com_quit, com_ping, com_query,
}
use mysql_async.Session.State.{Session, M, with_conn, modify, close_stream, set_disconnected}
use mysql_async.Session.Packets.{read_packet, write_packet, routine}
use mysql_async.Session.ResultSets.{read_result_set, debug_assert}
use mysql_async.Session.QueryResult.{
  use_pending, out_of_fuel, drop_result, collect_and_drop, next, is_empty,
}
use mysql_async.Prelude
use mysql_async.Prelude.{
  ℕ, zero, suc, ◌≤◌, ◌<◌, ◌≡◌, refl, Bool, true, false, Option, none, some, List, [], ◌∷◌, arith,
  if◌then◌else◌,
}

abbrev pub rollback_query : List ℕ
rollback_query = 82 ∷ 79 ∷ 76 ∷ 76 ∷ 66 ∷ 65 ∷ 67 ∷ 75 ∷ []

-- A taken result set, which nobody else holds, is pending again.
unfoldable pub untaken : Option PendingResult → Option ResultSetMeta
untaken (some (pending meta)) = some meta
untaken (some (taken meta)) = some meta
untaken none = none

module _ {L : Type 0} where
  unfoldable pub replaced_meta : Pended × Conn → M L (Option ResultSetMeta)
  replaced_meta (Prelude.Result.ok p, c) s = (ok (untaken p), with_conn c s)
  replaced_meta (Prelude.Result.err e, c) s = (err (server e), with_conn c s)

  -- `self.set_pending_result(None)?`, with the meta that was pending.
  unfoldable pub take_meta : M L (Option ResultSetMeta)
  unfolding replaced_meta
  take_meta s = replaced_meta (set_pending_result none s.conn) s

  -- A failed step is ignored, unless it breaks the connection.
  unfoldable pub ignore_non_fatal :
      M L (Unit {0}) → Outcome (Unit {0}) × Session L → Outcome (Unit {0}) × Session L
  ignore_non_fatal more (ok _, s) = more s
  ignore_non_fatal more (err e, s) = if is_fatal e then (err e, s) else more s
  ignore_non_fatal more (panicked, s) = (panicked, s)
  ignore_non_fatal more (stuck, s) = (stuck, s)

  unfoldable pub retry_after : M L (Unit {0}) → M L (Unit {0}) → M L (Unit {0})
  retry_after more step s = ignore_non_fatal more (step s)

  -- `Conn::write_command` and `write_command_data`, after `clean`.
  unfoldable pub write_after : M L (Unit {0}) → Command → M L (Unit {0})
  write_after clean command = clean >> write_packet command

  module _ {R : Type 0} (common : MySqlCommon R) where
    -- The result sets dropped, by the protocol of what is pending.
    unfoldable pub drop_pending : Option PendingResult → M L (Unit {0})
    drop_pending none = return tt
    drop_pending (some (pending (text cols))) = drop_result common text_protocol
    drop_pending (some (pending (binary cols))) = drop_result common binary_protocol
    drop_pending (some (taken meta)) = λ s. (panicked, s)

    -- `Conn::drop_result`.
    unfoldable pub drop_conn_result : M L (Unit {0})
    drop_conn_result = take_meta >>= (λ meta s.
        (use_pending >>= drop_pending) (with_conn (set_pending_result meta s.conn).1 s))

    module _ (clean : M L (Unit {0})) where
      -- `QueryRoutine`, by `Conn::raw_query`.
      unfoldable pub raw_query_after : List ℕ → M L (Unit {0})
      raw_query_after query =
          routine (write_after clean (com_query query) >> read_result_set common text_protocol true)

      -- `Queryable::query_drop`.
      unfoldable pub query_drop_after : List ℕ → M L (Unit {0})
      query_drop_after query = raw_query_after query >> drop_result common text_protocol

      -- `Conn::rollback_transaction`.
      unfoldable pub rollback_after : M L (Unit {0})
      rollback_after s =
          (debug_assert (is_open s.conn.tx_status)
              >> (modify (State.set_tx_status TxStatus.none) >> query_drop_after rollback_query))
            s

      -- `Conn::clean_dirty`, where `clean` is the next one.
      unfoldable pub clean_dirty_after : M L (Unit {0})
      clean_dirty_after =
          drop_conn_result
          >> (λ s. if is_abandoned s.conn.tx_status then rollback_after s else (ok tt, s))

    unfoldable pub clean_dirty_at : ℕ → M L (Unit {0})
    clean_dirty_at zero = out_of_fuel
    clean_dirty_at (suc depth) = clean_dirty_after (clean_dirty_at depth)

    -- `Conn::clean_dirty`, and the functions that call it.
    unfoldable pub clean_dirty : M L (Unit {0})
    clean_dirty = clean_dirty_at 2

    unfoldable pub write_command : Command → M L (Unit {0})
    write_command = write_after clean_dirty

    unfoldable pub raw_query : List ℕ → M L (Unit {0})
    raw_query = raw_query_after clean_dirty

    unfoldable pub query_drop : List ℕ → M L (Unit {0})
    query_drop = query_drop_after clean_dirty

    unfoldable pub rollback_transaction : M L (Unit {0})
    rollback_transaction = rollback_after clean_dirty

    -- `Queryable::query`.
    unfoldable pub query : List ℕ → M L (List R)
    query q = raw_query q >> collect_and_drop common text_protocol

    -- `Queryable::query_first`.
    unfoldable pub query_first : List ℕ → M L (Option R)
    query_first q =
        raw_query q
        >> ((λ s. if is_empty s then (ok none, s) else next common text_protocol s)
            >>= (λ output. drop_result common text_protocol >> return output))

    -- `Queryable::ping`, by `PingRoutine`.
    unfoldable pub ping : M L (Unit {0})
    ping = routine (write_command com_ping >> (read_packet common >>= (λ _. return tt)))

    -- `Conn::cleanup_for_pool`, for a number of rounds.
    unfoldable pub cleanup_loop : ℕ → M L (Unit {0})
    cleanup_loop zero = out_of_fuel
    cleanup_loop (suc rounds) = λ s.
        (if has_pending_result s.conn
            then retry_after (cleanup_loop rounds) drop_conn_result
            else if is_open s.conn.tx_status
            then retry_after (cleanup_loop rounds) rollback_transaction
            else return tt)
          s

    unfoldable pub cleanup_for_pool : M L (Unit {0})
    cleanup_for_pool = cleanup_loop 3

    -- `Conn::disconnect`. Closing the stream does not fail here.
    unfoldable pub disconnect : M L (Unit {0})
    disconnect s =
        if s.conn.disconnected
        then (ok tt, s)
        else (modify (set_disconnected true) >> (write_command com_quit >> modify close_stream)) s

    -- `Conn::close_conn`.
    unfoldable pub close_conn : M L (Unit {0})
    close_conn = cleanup_for_pool >> disconnect
