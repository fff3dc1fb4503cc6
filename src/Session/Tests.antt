-- ===== src/Session/Tests.antt =====
-- src/conn/mod.rs and src/queryable/: the theorems on a connection at the sessions of Samples.
use mysql_async.Conn.State
use mysql_async.Conn.State.{
  Conn, Column, OkPacket, ErrPacket, ServerError, ResultSetMeta, text, binary, PendingResult,
  pending, taken,
}
use mysql_async.Conn.TxStatus.{TxStatus, is_open, is_abandoned, is_in_transaction}
use mysql_async.Session.Outcome.{continue, Error, server, Outcome, ◌>>=◌}
use mysql_async.Session.Protocol.{text_protocol, com_query}
use mysql_async.Session.ResultSets.{first, read_result_set}
use mysql_async.Session.QueryResult.{is_last_result_set_packet, next, drop_result}
use mysql_async.Session.Commands.{
  rollback_query, clean_dirty, query, query_first, query_drop, rollback_transaction,
  cleanup_for_pool,
}
use mysql_async.Session.State.{Session}
use mysql_async.Session.Ends.{Keeps, Anything, Ends}
use mysql_async.Session.Ends.Starts.{Idle, Started}
use mysql_async.Session.Ends.Pending.{IsStarted, read_result_set-IsStarted}
use mysql_async.Session.Ends.Rollback.{RolledBack, clean_dirty-Cleans}
use mysql_async.Session.Ends.Rows.{Done, Next}
use mysql_async.Session.Ends.Drops.{next-Ends, drop_result-Ends}
use mysql_async.Session.Ends.Cleanup.{cleanup_for_pool-Ends}
use mysql_async.Session.Transaction.{TxOpts, serializable, new, try_commit}
use mysql_async.Session.Transaction.Laws.{new-Ends, new-nested, try_commit-Ends}
use mysql_async.Conn.StmtCache.Lru.{Entries, by_recency}
use mysql_async.Session.Reset.{reset}
use mysql_async.Session.Ends.Reset.{Reset, reset-Ends}
use mysql_async.Session.Answers.{IsRow, IsEnd, IsHeader, asked}
use mysql_async.Session.Answers.Rows.{ended}
use mysql_async.Session.Answers.Query.{query-IsRow}
use mysql_async.Session.Answers.First.{first_row, query_first-query}
use mysql_async.Session.Stream.{stream}
use mysql_async.Session.Ends.Stream.{rows_of, rows_of-stream-Ends}
use mysql_async.Prelude
use mysql_async.Prelude.{
  ℕ, zero, suc, ◌≤◌, ◌<◌, ◌≡◌, refl, ◌⊎◌, Bool, true, false, Option, none, some, List, [], ◌∷◌,
  arith, All,
}
use mysql_async.Session.Samples.{
  session_over, rest_and_ok, rest_and_ok-IsSafe, flags_of, common, dirty, open_, fresh, dirty-Keeps,
  open-Keeps, fresh-Keeps, fresh-Idle,
}

cleanup_for_pool_example :
    Ends (λ _ s. Idle common 3 TxStatus.none s) (λ _. ⊥) (cleanup_for_pool common dirty)
cleanup_for_pool_example = cleanup_for_pool-Ends dirty dirty-Keeps

clean_dirty-Cleans_example :
    Ends
      (λ _ s. Idle common 3 TxStatus.none s × RolledBack dirty.sent s.sent)
      (λ s. Idle common 3 TxStatus.requires_rollback s ⊎ Idle common 3 TxStatus.none s)
      (clean_dirty common dirty)
clean_dirty-Cleans_example = clean_dirty-Cleans TxStatus.requires_rollback dirty dirty-Keeps

drop_result_example :
    Ends
      (λ _ s. Idle common 3 TxStatus.in_transaction s)
      (Idle common 3 TxStatus.in_transaction)
      (drop_result common text_protocol open_)
drop_result_example = drop_result-Ends text_protocol open_ open-Keeps

next_example :
    Ends
      (Next common 3 TxStatus.in_transaction)
      (Idle common 3 TxStatus.in_transaction)
      (next common text_protocol open_)
next_example = next-Ends text_protocol open_ open-Keeps

read_result_set_example :
    Ends
      (λ _ s. Started common 5 TxStatus.none s × IsStarted text_protocol true s.conn.pending_result)
      (Idle common 5 TxStatus.none)
      (read_result_set common text_protocol true fresh)
read_result_set_example = read_result_set-IsStarted text_protocol true fresh fresh-Idle

-- A transaction on a fresh connection, and at one that has an open one.
abbrev options : TxOpts
options = record {
  consistent_snapshot = true;
  isolation_level = some serializable;
  readonly = some true;
}

transaction_new_example :
    Ends
      (λ _ s. Idle common 5 TxStatus.in_transaction s)
      (λ s. Idle common 5 TxStatus.none s ⊎ Idle common 5 TxStatus.none s)
      (new common options fresh)
transaction_new_example =
    new-Ends {t = TxStatus.none} options fresh (unfold is_in_transaction in refl) fresh-Keeps

transaction_nested_example :
    Ends (λ _ _. ⊥) (Idle common 3 TxStatus.in_transaction) (new common options open_)
transaction_nested_example = new-nested options open_ open-Keeps

try_commit_example :
    Ends
      (λ _ s. Idle common 3 TxStatus.none s)
      (Idle common 3 TxStatus.in_transaction)
      (try_commit common open_)
try_commit_example = try_commit-Ends open_ open-Keeps

-- The rows of a result set come back.
two_rows-IsRow :
    All (IsRow common true (7 ∷ [])) ((1 ∷ 5 ∷ [], 1 ∷ 5 ∷ []) ∷ (1 ∷ 6 ∷ [], 1 ∷ 6 ∷ []) ∷ [])
unfolding is_last_result_set_packet
two_rows-IsRow = (
  record { is_data = record { not_ok = refl; not_err = refl }; not_last = refl; parsed = refl },
  (
    record { is_data = record { not_ok = refl; not_err = refl }; not_last = refl; parsed = refl },
    tt,
  ),
)

two_rows-IsEnd : IsEnd common true (flags_of (0 ∷ [])) (254 ∷ 0 ∷ [])
unfolding is_last_result_set_packet
two_rows-IsEnd = record { parsed = refl; last = refl; no_more = refl }

two_rows-IsHeader : IsHeader common 1 (1 ∷ [])
unfolding first
two_rows-IsHeader = record {
  is_data = record { not_ok = refl; not_err = refl };
  not_ok = λ e. absurd (grind (arith, e));
  not_infile = λ e. absurd (grind (arith, e));
  parsed = refl;
}

query-IsRow_example : query common (83 ∷ []) fresh ≡ (
  Outcome.ok ((1 ∷ 5 ∷ []) ∷ (1 ∷ 6 ∷ []) ∷ []),
  ended (asked false (83 ∷ []) fresh) (flags_of (0 ∷ [])) [],
)
query-IsRow_example =
    query-IsRow common fresh (83 ∷ []) (1 ∷ []) (7 ∷ [], 7) []
      ((1 ∷ 5 ∷ [], 1 ∷ 5 ∷ []) ∷ (1 ∷ 6 ∷ [], 1 ∷ 6 ∷ []) ∷ []) (flags_of (0 ∷ [])) (254 ∷ 0 ∷ [])
      [] (record { open_ = refl; past_handshake = refl }) refl (unfold is_abandoned in refl)
      (omega arith) two_rows-IsHeader
      (record { is_data = record { not_ok = refl; not_err = refl }; parsed = refl }, tt)
      two_rows-IsRow two_rows-IsEnd

-- Runs of the code.
cleanup_dirty :
    ((cleanup_for_pool common dirty).0 ≡ Outcome.ok tt)
    × ((cleanup_for_pool common dirty).1.sent ≡ com_query rollback_query ∷ [])
unfolding mysql_async.Session.Packets.broken mysql_async.Session.Packets.expected_ok
    mysql_async.Session.Packets.handle_maybe_err mysql_async.Session.Packets.handle_maybe_ok
    mysql_async.Session.Packets.after_handled mysql_async.Session.Packets.handle_packet
    mysql_async.Session.Packets.read_from mysql_async.Session.Packets.read_packet
    mysql_async.Session.Packets.read_packets mysql_async.Session.Packets.write_packet
    mysql_async.Session.Packets.after_routine mysql_async.Session.Packets.routine
    mysql_async.Session.ResultSets.result_set_meta mysql_async.Session.ResultSets.first
    mysql_async.Session.ResultSets.parse_columns mysql_async.Session.ResultSets.replaced
    mysql_async.Session.ResultSets.set_pending mysql_async.Session.ResultSets.set_pending_error
    mysql_async.Session.ResultSets.infile_from mysql_async.Session.ResultSets.take_infile
    mysql_async.Session.ResultSets.send_chunks mysql_async.Session.ResultSets.after_columns
    mysql_async.Session.ResultSets.read_column_defs mysql_async.Session.ResultSets.handle_result_set
    mysql_async.Session.ResultSets.handle_local_infile mysql_async.Session.ResultSets.dispatch
    mysql_async.Session.ResultSets.dispatch_on mysql_async.Session.ResultSets.cons_column
    mysql_async.Session.ResultSets.after_first_packet mysql_async.Session.ResultSets.read_result_set
    mysql_async.Session.QueryResult.is_last_result_set_packet
    mysql_async.Session.QueryResult.columns_ref mysql_async.Session.QueryResult.has_rows
    mysql_async.Session.QueryResult.more_results_exists mysql_async.Session.QueryResult.is_empty
    mysql_async.Session.QueryResult.used mysql_async.Session.QueryResult.use_pending
    mysql_async.Session.QueryResult.row_or_end mysql_async.Session.QueryResult.row_packet
    mysql_async.Session.QueryResult.after_row_packet mysql_async.Session.QueryResult.next_row
    mysql_async.Session.QueryResult.read_next_set mysql_async.Session.QueryResult.next_set
    mysql_async.Session.QueryResult.next_row_or_next_set mysql_async.Session.QueryResult.skip_taken
    mysql_async.Session.QueryResult.next_by mysql_async.Session.QueryResult.next_loop
    mysql_async.Session.QueryResult.next mysql_async.Session.QueryResult.reduce_loop
    mysql_async.Session.QueryResult.reduce mysql_async.Session.QueryResult.collect
    mysql_async.Session.QueryResult.drop_rows mysql_async.Session.QueryResult.drop_loop
    mysql_async.Session.QueryResult.drop_result mysql_async.Session.QueryResult.collect_and_drop
    mysql_async.Session.QueryResult.for_each mysql_async.Session.Commands.untaken
    mysql_async.Session.Commands.replaced_meta mysql_async.Session.Commands.take_meta
    mysql_async.Session.Commands.ignore_non_fatal mysql_async.Session.Commands.retry_after
    mysql_async.Session.Commands.write_after mysql_async.Session.Commands.drop_pending
    mysql_async.Session.Commands.drop_conn_result mysql_async.Session.Commands.raw_query_after
    mysql_async.Session.Commands.query_drop_after mysql_async.Session.Commands.rollback_after
    mysql_async.Session.Commands.clean_dirty_after mysql_async.Session.Commands.clean_dirty_at
    mysql_async.Session.Commands.clean_dirty mysql_async.Session.Commands.write_command
    mysql_async.Session.Commands.raw_query mysql_async.Session.Commands.query_drop
    mysql_async.Session.Commands.rollback_transaction mysql_async.Session.Commands.query
    mysql_async.Session.Commands.query_first mysql_async.Session.Commands.ping
    mysql_async.Session.Commands.cleanup_loop mysql_async.Session.Commands.cleanup_for_pool
    mysql_async.Session.Commands.disconnect mysql_async.Session.Commands.close_conn
    mysql_async.Conn.Pending.is_pending mysql_async.Conn.Pending.has_pending_result
    mysql_async.Conn.Pending.use_pending mysql_async.Conn.Pending.use_pending_result
    mysql_async.Conn.Pending.pend mysql_async.Conn.Pending.set_pending_result
    mysql_async.Conn.Pending.set_pending_result_error mysql_async.Conn.Pending.take_pending
    mysql_async.Conn.Pending.take_pending_result State.columns State.handle_err State.handle_ok
    State.set_tx_status is_abandoned is_open mysql_async.Session.Outcome.is_fatal
cleanup_dirty = (refl, refl)

query_first-query_example :
    query_first common (83 ∷ []) fresh
    ≡ continue (λ output t. (Outcome.ok (first_row output), t)) (query common (83 ∷ []) fresh)
query_first-query_example =
    query_first-query common fresh (83 ∷ []) (1 ∷ []) (7 ∷ [], 7) []
      ((1 ∷ 5 ∷ [], 1 ∷ 5 ∷ []) ∷ (1 ∷ 6 ∷ [], 1 ∷ 6 ∷ []) ∷ []) (flags_of (0 ∷ [])) (254 ∷ 0 ∷ [])
      [] (record { open_ = refl; past_handshake = refl }) refl (unfold is_abandoned in refl)
      (omega arith) two_rows-IsHeader
      (record { is_data = record { not_ok = refl; not_err = refl }; parsed = refl }, tt)
      two_rows-IsRow two_rows-IsEnd

-- A session whose cache is a list of its entries.
abbrev resettable : Session Entries
resettable = session_over [] TxStatus.none (Prelude.Result.ok none) rest_and_ok

resettable-Keeps : Keeps common 3 TxStatus.none Anything resettable
resettable-Keeps = record { safe = rest_and_ok-IsSafe; short = omega arith; tx = refl; pended = tt }

reset_example :
    Ends
      (Reset common 3 TxStatus.none resettable)
      (Idle common 3 TxStatus.none)
      (reset common resettable)
reset_example =
    reset-Ends {t = TxStatus.none} resettable (unfold is_abandoned in refl) resettable-Keeps

-- The rows of the open result set, as a stream.
rows_of-stream-Ends_example :
    Ends
      (λ _ s'. Done common 3 TxStatus.in_transaction s')
      (Idle common 3 TxStatus.in_transaction)
      ((stream common text_protocol >>= rows_of common text_protocol) open_)
rows_of-stream-Ends_example = rows_of-stream-Ends text_protocol open_ open-Keeps
