-- ===== src/Session/Sends/Queries.antt =====
-- src/conn/mod.rs: commands with the cleanup before them, and the reset, leave the cached statements
-- alone: a claim that every command keeps stays.
use mysql_async.Conn.State
use mysql_async.Conn.TxStatus.{TxStatus, is_open, is_abandoned}
use mysql_async.Session.Outcome.{◌>>=◌, ◌>>◌, return}
use mysql_async.Session.Protocol.{
  MySqlCommon, Command, com_query, com_reset_connection, text_protocol,
}
use mysql_async.Session.State.{M, modify}
use mysql_async.Session.Packets.{read_packet, write_packet}
use mysql_async.Session.ResultSets.{read_result_set, debug_assert}
use mysql_async.Session.QueryResult.{drop_result}
use mysql_async.Session.Commands.{
  rollback_query, drop_conn_result, write_after, raw_query_after, query_drop_after, rollback_after,
  clean_dirty_after, clean_dirty_at, clean_dirty, query_drop, write_command,
}
use mysql_async.Session.Reset.{reset_routine, run_popped}
use mysql_async.Session.Sends.{
  Claim, Stays, Allows, IsData, bind-Stays, routine-Stays, Always-of_if, debug_assert-Stays,
  write_packet-Stays, read_packet-Stays,
}
use mysql_async.Session.Sends.Results.{
  read_result_set-Stays, drop_result-Stays, drop_conn_result-Stays,
}
use mysql_async.Prelude.{◌++◌, ℕ, zero, suc, List, [], ◌∷◌, true}

-- A command that keeps the claim.
abbrev pub AllowsOne : {L : Type 0} → Claim L → Command → Type 0
AllowsOne J c = (cs : List Command) (cache : _) → J cs cache → J (cs ++ c ∷ []) cache

module _ {L : Type 0} {J : Claim L} (allows_data : Allows J IsData)
    (allows_queries : (q : List ℕ) → AllowsOne J (com_query q)) {R : Type 0}
    (common : MySqlCommon R) where
  module _ (clean : M L (Unit {0})) (clean-Stays : Stays J clean) where
    pub write_after-Stays : (c : Command) → AllowsOne J c → Stays J (write_after clean c)
    unfolding write_after
    write_after-Stays c allows_c =
        bind-Stays clean (λ _. write_packet c) clean-Stays
          (λ _ s j. write_packet-Stays c s j (allows_c s.sent s.stmt_cache j))

    query_drop_after-Stays : (q : List ℕ) → Stays J (query_drop_after common clean q)
    unfolding query_drop_after raw_query_after
    query_drop_after-Stays q =
        bind-Stays (raw_query_after common clean q) (λ _. drop_result common text_protocol)
          (routine-Stays
            (write_after clean (com_query q) >> read_result_set common text_protocol true)
            (bind-Stays (write_after clean (com_query q))
              (λ _. read_result_set common text_protocol true)
              (write_after-Stays (com_query q) (allows_queries q))
              (λ _. read_result_set-Stays allows_data common text_protocol true)))
          (λ _. drop_result-Stays allows_data common text_protocol)

    rollback_after-Stays : Stays J (rollback_after common clean)
    unfolding rollback_after
    rollback_after-Stays s j =
        bind-Stays (debug_assert (is_open s.conn.tx_status))
          (λ _.
            modify (State.set_tx_status TxStatus.none)
            >> query_drop_after common clean rollback_query)
          (debug_assert-Stays (is_open s.conn.tx_status))
          (λ _ s' j'. query_drop_after-Stays rollback_query _ j') s j

  pub clean_dirty_at-Stays : (depth : ℕ) → Stays J (clean_dirty_at common depth)
  unfolding clean_dirty_at clean_dirty_after
  clean_dirty_at-Stays zero = λ s j. record { holds = j }
  clean_dirty_at-Stays (suc depth) =
      bind-Stays (drop_conn_result common) _ (drop_conn_result-Stays allows_data common) (λ _ s' j.
        Always-of_if (is_abandoned s'.conn.tx_status) _ _
          (rollback_after-Stays (clean_dirty_at common depth) (clean_dirty_at-Stays depth) s' j)
          (record { holds = j }))

  query_drop-Stays : (q : List ℕ) → Stays J (query_drop common q)
  unfolding query_drop clean_dirty
  query_drop-Stays q = query_drop_after-Stays (clean_dirty_at common 2) (clean_dirty_at-Stays 2) q

  pub reset_routine-Stays : AllowsOne J com_reset_connection → Stays J (reset_routine common)
  unfolding reset_routine write_command clean_dirty
  reset_routine-Stays allows_reset =
      routine-Stays
        (write_command common com_reset_connection >> (read_packet common >>= (λ _. return tt)))
        (bind-Stays (write_command common com_reset_connection)
          (λ _. read_packet common >>= (λ _. return tt))
          (write_after-Stays (clean_dirty_at common 2) (clean_dirty_at-Stays 2) com_reset_connection
            allows_reset)
          (λ _.
            bind-Stays (read_packet common) (λ _. return tt) (read_packet-Stays common)
              (λ _ s j. record { holds = j })))

  pub run_popped-Stays : (qs : List (List ℕ)) → Stays J (run_popped common qs)
  unfolding run_popped
  run_popped-Stays [] = λ s j. record { holds = j }
  run_popped-Stays (q ∷ qs) =
      bind-Stays (run_popped common qs) (λ _. query_drop common q) (run_popped-Stays qs)
        (λ _. query_drop-Stays q)
