-- ===== src/Session/Stream.antt =====
-- src/queryable/query_result/result_set_stream.rs: the stream of a result set. A poll is told whether
-- its future is ready, which reads a row in one step, since it has the connection to itself.
use mysql_async.Conn.State.{
  Conn, Column, OkPacket, ResultSetMeta, text, columns, PendingResult, pending, taken, ServerError,
}
use mysql_async.Conn.Pending.{take_pending_result}
use mysql_async.Session.Outcome.{
  Error, server, Outcome, ok, err, panicked, stuck, ◌>>=◌, ◌>>◌, return,
}
use mysql_async.Session.Protocol.{MySqlCommon, Protocol}
use mysql_async.Session.State.{Session, M, with_conn}
use mysql_async.Session.QueryResult.{use_pending, fueled, next_row_or_next_set, skip_taken}
use mysql_async.Prelude
use mysql_async.Prelude.{
  ℕ, zero, suc, ◌≤◌, ◌<◌, ◌≡◌, refl, Bool, true, false, Option, none, some, List, [], ◌∷◌, arith,
}

-- `ResultSetStreamState`.
pub data ResultSetStreamState : Type 0 where
  idle next_fut : ResultSetStreamState

-- `ResultSetStream`, whose `query_result` is gone at its end.
pub record ResultSetStream : Type 0 where
  pub query_result : Option ResultSetStreamState
  pub ok_packet : Option OkPacket
  pub columns : List Column

-- `FusedStream::is_terminated`.
unfoldable pub is_none : Option ResultSetStreamState → Bool
is_none none = true
is_none (some state) = false

unfoldable pub is_terminated : ResultSetStream → Bool
unfolding is_none
is_terminated stream = is_none stream.query_result

-- `Poll<Option<Result<T>>>`.
pub data Polled (R : Type 0) : Type 0 where
  item : R → Polled R
  failed : Error → Polled R
  ended not_ready : Polled R

module _ {L : Type 0} {R : Type 0} where
  -- What a finished future makes of the stream.
  unfoldable pub finished :
      ResultSetStream
      → Outcome (Option R) × Session L
      → Outcome (Polled R × ResultSetStream) × Session L
  finished stream (ok (some row), s) =
      (ok (item row, record stream { query_result = some idle }), s)
  finished stream (ok none, s) = (ok (ended, record stream { query_result = none }), s)
  finished stream (err e, s) = (ok (failed e, record stream { query_result = none }), s)
  finished stream (panicked, s) = (panicked, s)
  finished stream (stuck, s) = (stuck, s)

  module _ (common : MySqlCommon R) (protocol : Protocol) where
    unfoldable pub poll_future : Bool → ResultSetStream → M L (Polled R × ResultSetStream)
    poll_future true stream s =
        finished stream (next_row_or_next_set common protocol (text stream.columns) s)
    poll_future false stream s = (ok (not_ready, record stream { query_result = some next_fut }), s)

    -- `ResultSetStream::poll_next`. A stream that is idle makes its future and polls it.
    unfoldable pub poll_state :
        Bool → ResultSetStream → Option ResultSetStreamState → M L (Polled R × ResultSetStream)
    poll_state ready stream none = return (ended, stream)
    poll_state ready stream (some idle) = poll_future ready stream
    poll_state ready stream (some next_fut) = poll_future ready stream

    unfoldable pub poll_next : Bool → ResultSetStream → M L (Polled R × ResultSetStream)
    poll_next ready stream = poll_state ready stream stream.query_result

unfoldable pub opened : Option OkPacket → Option ResultSetMeta → Option ResultSetStream
opened ok_packet none = none
opened ok_packet (some meta) =
    some (record { query_result = some idle; ok_packet = ok_packet; columns = columns meta })

module _ {L : Type 0} where
  unfoldable pub took :
      Prelude.Result ServerError (Option ResultSetMeta) × Conn → M L (Option ResultSetStream)
  took (Prelude.Result.ok meta, c) s = (ok (opened s.conn.last_ok_packet meta), with_conn c s)
  took (Prelude.Result.err e, c) s = (err (server e), with_conn c s)

  unfoldable pub take_stream : M L (Option ResultSetStream)
  take_stream s = took (take_pending_result s.conn) s

  module _ {R : Type 0} (common : MySqlCommon R) (protocol : Protocol) where
    unfoldable pub setup_with : Option PendingResult → M L (Option ResultSetStream)
    setup_with none = return none
    setup_with (some (pending meta)) = take_stream
    setup_with (some (taken meta)) = fueled (skip_taken common protocol meta) >> take_stream

    -- `QueryResult::stream` and `stream_and_drop`, by `setup_stream`.
    unfoldable pub stream : M L (Option ResultSetStream)
    stream = use_pending >>= setup_with
