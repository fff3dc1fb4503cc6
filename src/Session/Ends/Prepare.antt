-- ===== src/Session/Ends/Prepare.antt =====
-- src/queryable/stmt.rs and src/conn/routines/prepare.rs: how statements are prepared, cached, closed
-- and executed in batches.
use mysql_async.Conn.TxStatus.{TxStatus, is_abandoned}
use mysql_async.Conn.StmtCache.Lru.{LruCache, StmtInner, QueryString}
use mysql_async.Session.Outcome.{driver, mixed_params, parse, required, ◌>>=◌, ◌>>◌, return}
use mysql_async.Session.Protocol.{
  MySqlCommon, binary_protocol, Packet, com_stmt_prepare, com_stmt_close,
}
use mysql_async.Session.State.{Session, M}
use mysql_async.Session.Packets.{read_packet}
use mysql_async.Session.Commands.{write_command}
use mysql_async.Session.QueryResult.{drop_result}
use mysql_async.Session.Stmt.{
  Params, MySqlParams, Statement, stmt_from, read_defs, read_definitions, from_payload,
  prepare_routine, execute_statement, forget, close_statement, cache_stmt, close_old,
  prepare_statement, get_cached, or_prepare, to_statement, prep, exec_each, exec_batch,
}
use mysql_async.Session.Ends.{
  Ends, Post, bind-Ends, routine-Ends, weaken-Ends, Anything, Keeps, Keeps-mono,
  Keeps-set_disconnected,
}
use mysql_async.Session.Ends.Reading.{read_packet-Ends, required-Ends}
use mysql_async.Session.Ends.Starts.{Idle, read_column_defs-Ends}
use mysql_async.Session.Ends.Drops.{drop_result-Ends}
use mysql_async.Session.Ends.Stmt.{write_command-Ends, loosen, execute_statement-Ends}
use mysql_async.Prelude.{ℕ, zero, suc, ◌≡◌, true, false, Option, none, some, List, [], ◌∷◌, arith}

module _ {L : Type 0} {R : Type 0} {common : MySqlCommon R} {n : ℕ} {t : TxStatus} where
  read_defs-Ends :
      (num : ℕ) (s : Session L)
      → Idle common n t s
      → Ends (λ _ s'. Idle common n t s') (Idle common n t) (read_defs common num s)
  unfolding read_defs Post
  read_defs-Ends zero s k = record { post = k }
  read_defs-Ends (suc num) s k = read_column_defs-Ends (suc num) s (omega arith) k

  read_definitions-Ends :
      (stmt : StmtInner) (s : Session L)
      → Idle common n t s
      → Ends (λ _ s'. Idle common n t s') (Idle common n t) (read_definitions common stmt s)
  unfolding read_definitions Post
  read_definitions-Ends stmt s k =
      bind-Ends (read_defs common stmt.num_params) _ s (read_defs-Ends stmt.num_params s k)
        (λ params s' k'.
          bind-Ends (read_defs common stmt.num_columns) _ s' (read_defs-Ends stmt.num_columns s' k')
            (λ columns s'' k''. record { post = k'' }))

  from_payload-Ends :
      (query : QueryString) (packet : Packet) (s : Session L)
      → Idle common n t s
      → Ends (λ _ s'. Idle common n t s') (Idle common n t) (from_payload common query packet s)
  unfolding from_payload
  from_payload-Ends query packet s k =
      bind-Ends (required parse (common.stmt_packet packet)) _ s (required-Ends _ s k)
        (λ parsed s' k'. read_definitions-Ends (stmt_from query s.conn.id parsed) s' k')

  module _ (calm : is_abandoned t ≡ false) where
    prepare_routine-Ends :
        (query : QueryString) (s : Session L)
        → Keeps common n t Anything s
        → Ends (λ _ s'. Idle common n t s') (Idle common n t) (prepare_routine common query s)
    unfolding prepare_routine
    prepare_routine-Ends query s k =
        routine-Ends
          (write_command common (com_stmt_prepare query)
            >> (read_packet common >>= from_payload common query))
          s
          (bind-Ends (write_command common (com_stmt_prepare query)) _ _
            (write_command-Ends calm _ _ (Keeps-set_disconnected true k))
            (λ _ s' k'.
              bind-Ends (read_packet common) (from_payload common query) s' (read_packet-Ends s' k')
                (λ packet s'' r. from_payload-Ends query packet s'' r.1)))
          (λ _ s' k'. Keeps-set_disconnected false k') (λ s' k'. Keeps-set_disconnected false k')

    module _ ⦃lru : LruCache L⦄ where
      -- Closing a statement, cached or not, leaves nothing pending.
      pub close_statement-Ends :
          (id : ℕ) (s : Session L)
          → Keeps common n t Anything s
          → Ends (λ _ s'. Idle common n t s') (Idle common n t) (close_statement common id s)
      unfolding close_statement forget
      close_statement-Ends id s k =
          write_command-Ends calm (com_stmt_close id) _
            (record { safe = k.safe; short = k.short; tx = k.tx; pended = tt })

      close_old-Ends :
          (old : Option StmtInner) (s : Session L)
          → Idle common n t s
          → Ends (λ _ s'. Idle common n t s') (Idle common n t) (close_old common old s)
      unfolding close_old Post
      close_old-Ends none s k = record { post = k }
      close_old-Ends (some old) s k = close_statement-Ends old.id s (loosen calm k)

      pub prepare_statement-Ends :
          (query : QueryString) (s : Session L)
          → Keeps common n t Anything s
          → Ends (λ _ s'. Idle common n t s') (Idle common n t) (prepare_statement common query s)
      unfolding prepare_statement cache_stmt Post
      prepare_statement-Ends query s k =
          bind-Ends (prepare_routine common query) _ s (prepare_routine-Ends query s k)
            (λ stmt s' k'.
              bind-Ends (close_old common _) (λ _. return stmt) _
                (close_old-Ends _ _
                  (record { safe = k'.safe; short = k'.short; tx = k'.tx; pended = k'.pended }))
                (λ _ s'' k''. record { post = k'' }))

      or_prepare-Ends :
          (query : QueryString) (cached : Option StmtInner) (s : Session L)
          → Keeps common n t Anything s
          → Ends
              (λ _ s'. Keeps common n t Anything s')
              (Idle common n t)
              (or_prepare common query cached s)
      unfolding or_prepare Post
      or_prepare-Ends query (some stmt) s k = record { post = k }
      or_prepare-Ends query none s k =
          weaken-Ends (prepare_statement-Ends query s k) (λ _ _ k'. loosen calm k') (λ _ k'. k')

      module _ (mysql_params : MySqlParams) where
        to_statement-Ends :
            (parsed : QueryString × List (List ℕ)) (s : Session L)
            → Keeps common n t Anything s
            → Ends
                (λ _ s'. Keeps common n t Anything s')
                (Idle common n t)
                (to_statement common mysql_params parsed s)
        unfolding to_statement get_cached Post
        to_statement-Ends (query, names) s k =
            bind-Ends (or_prepare common query _) _ _
              (or_prepare-Ends query _ _
                (record { safe = k.safe; short = k.short; tx = k.tx; pended = tt }))
              (λ stmt s' k'. record { post = k' })

        pub prep-Ends :
            (query : QueryString) (s : Session L)
            → Keeps common n t Anything s
            → Ends
                (λ _ s'. Keeps common n t Anything s')
                (Idle common n t)
                (prep common mysql_params query s)
        unfolding prep Post
        prep-Ends query s k = go (mysql_params.parse query)
          where
            go :
                (o : Option (QueryString × List (List ℕ)))
                → Ends
                    (λ _ s'. Keeps common n t Anything s')
                    (Idle common n t)
                    ((required (driver mixed_params) o >>= to_statement common mysql_params) s)
            go none = record { post = tt }
            go (some parsed) = to_statement-Ends parsed s k

        -- One round of a batch.
        exec_one-Ends :
            {P : Session L → Type 0} (stmt : Statement) (params : Params) (more : M L (Unit {0}))
            (s : Session L)
            → Keeps common n t Anything s
            → ((s' : Session L)
                → Idle common n t s'
                → Ends (λ _ s''. P s'') (Idle common n t) (more s'))
            → Ends
                (λ _ s'. P s')
                (Idle common n t)
                ((execute_statement common mysql_params stmt params
                    >> (drop_result common binary_protocol >> more))
                  s)
        exec_one-Ends stmt params more s k rest =
            bind-Ends (execute_statement common mysql_params stmt params) _ s
              (execute_statement-Ends calm mysql_params stmt params s k)
              (λ _ s' k'.
                bind-Ends (drop_result common binary_protocol) _ s'
                  (drop_result-Ends binary_protocol s' (Keeps-mono k' (omega arith) (λ _ _. tt)))
                  (λ _ s'' k''. rest s'' k''))

        exec_each-Ends :
            (stmt : Statement) (params : Params) (batch : List Params) (s : Session L)
            → Keeps common n t Anything s
            → Ends
                (λ _ s'. Idle common n t s')
                (Idle common n t)
                (exec_each common mysql_params stmt (params ∷ batch) s)
        unfolding exec_each Post
        exec_each-Ends stmt params [] s k =
            exec_one-Ends stmt params (return tt) s k (λ s' k'. record { post = k' })
        exec_each-Ends stmt params (next ∷ batch) s k =
            exec_one-Ends stmt params (exec_each common mysql_params stmt (next ∷ batch)) s k
              (λ s' k'. exec_each-Ends stmt next batch s' (loosen calm k'))

        -- Where no transaction was abandoned and the packets to come are safe, `exec_batch` of a
        -- query with at least one set of parameters, cached or not, of any kind, and from any
        -- pending result, ends without a panic: on success, and where the server refuses a step,
        -- nothing is pending and the transaction is as before.
        pub exec_batch-Ends :
            (query : QueryString) (params : Params) (batch : List Params) (s : Session L)
            → Keeps common n t Anything s
            → Ends
                (λ _ s'. Idle common n t s')
                (Idle common n t)
                (exec_batch common mysql_params query (params ∷ batch) s)
        unfolding exec_batch
        exec_batch-Ends query params batch s k =
            bind-Ends (prep common mysql_params query) _ s (prep-Ends query s k)
              (λ stmt s' k'. exec_each-Ends stmt params batch s' k')
