-- ===== src/Session/StmtTests.antt =====
-- src/queryable/stmt.rs and src/conn/routines/: the theorems on prepared statements at concrete sessions.
use mysql_async.Conn.TxStatus.{TxStatus, is_abandoned}
use mysql_async.Conn.StmtCache.Lru.{Entries, by_recency}
use mysql_async.Session.Outcome.{driver, stmt_params_mismatch, err}
use mysql_async.Session.Protocol.{Value, value_bytes, other_value}
use mysql_async.Session.State.{Session, with_conn, close_stream, set_disconnected}
use mysql_async.Session.Stmt.{
  positional, MySqlParams, Statement, execute_statement, exec_batch, send_long_data,
}
use mysql_async.Session.Stmt.Received.{Delivers, send_long_data-Delivers}
use mysql_async.Session.Stmt.Refused.{mismatch, execute_statement-Refusal}
use mysql_async.Session.Ends.{Ends, Keeps, Anything}
use mysql_async.Session.Ends.Starts.{Idle}
use mysql_async.Session.Ends.Prepare.{exec_batch-Ends}
use mysql_async.Session.Samples.{common, session_over, fresh, rest_and_ok, rest_and_ok-IsSafe}
use mysql_async.Prelude
use mysql_async.Prelude.{
  ℕ, zero, suc, ◌+◌, ◌≤◌, ◌<◌, ◌≡◌, refl, ◌≢◌, Bool, true, false, Option, none, some, List, [], ◌∷◌,
  arith, length, All,
}

abbrev test_params : MySqlParams
test_params = record {
  parse = λ query. some (query, []);
  into_values = λ names params. Prelude.Result.ok [];
  as_long_data = λ values. false;
}

-- A statement of one parameter.
abbrev insert : Statement
insert = record {
  inner = record {
    id = 3;
    raw_query = 73 ∷ [];
    num_params = 1;
    num_columns = 0;
    params = 4 ∷ [];
    columns = [];
    connection_id = 1;
  };
  named_params = [];
}

execute_statement-Refusal_example :
    execute_statement common test_params insert (positional []) fresh ≡ (
      err (driver (stmt_params_mismatch 1 0)),
      with_conn (close_stream (set_disconnected true fresh.conn)) fresh,
    )
execute_statement-Refusal_example =
    execute_statement-Refusal common test_params insert (positional []) (stmt_params_mismatch 1 0)
      fresh (mismatch [] (omega arith) (λ e. grind (arith, e)))

-- A session whose cache is the list of its entries.
abbrev batching : Session Entries
batching = session_over [] TxStatus.none (Prelude.Result.ok none) rest_and_ok

calm : is_abandoned TxStatus.none ≡ false
unfolding is_abandoned
calm = refl

exec_batch-Ends_example :
    Ends
      (λ _ s'. Idle common 3 TxStatus.none s')
      (Idle common 3 TxStatus.none)
      (exec_batch common test_params (73 ∷ []) (positional (other_value 1 ∷ []) ∷ []) batching)
exec_batch-Ends_example =
    exec_batch-Ends calm test_params (73 ∷ []) (positional (other_value 1 ∷ [])) [] batching
      (record { safe = rest_and_ok-IsSafe; short = omega arith; tx = refl; pended = tt })

-- A text, a number and an empty text.
abbrev parameters : List Value
parameters = value_bytes (1 ∷ 2 ∷ []) ∷ other_value 9 ∷ value_bytes [] ∷ []

send_long_data-Delivers_example :
    Ends
      (λ _ s'.
        Keeps common 3 TxStatus.none Anything s' × Delivers 3 parameters batching.sent s'.sent)
      (Idle common 3 TxStatus.none)
      (send_long_data common 3 parameters batching)
send_long_data-Delivers_example =
    send_long_data-Delivers 3 parameters batching calm (omega arith)
      (record { safe = rest_and_ok-IsSafe; short = omega arith; tx = refl; pended = tt })
