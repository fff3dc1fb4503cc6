-- ===== src/Session/Ends/Stmt.antt =====
-- src/queryable/stmt.rs and src/conn/routines/: how the functions of prepared statements end.
use mysql_async.Conn.TxStatus.{TxStatus, is_abandoned}
use mysql_async.Session.Outcome
use mysql_async.Session.Outcome.{
  Error, stmt_params_mismatch, stmt_params_number_exceeds_limit, driver, mixed_params, parse,
  required, lift, throw, ◌>>=◌, ◌>>◌, return,
}
use mysql_async.Session.Protocol.{
  MySqlCommon, binary_protocol, Value, value_bytes, other_value, Command,
}
use mysql_async.Session.State.{Session}
use mysql_async.Session.Commands.{write_after, write_command, clean_dirty}
use mysql_async.Session.Stmt.{
  Params, empty, positional, named, MySqlParams, Statement, long_data_chunks, checked_params,
  is_empty, values_of, send_chunks, send_value, send_from, send_long_data, write_execute,
  send_params, exec_positional, exec_params, execute_statement,
}
use mysql_async.Session.Ends.{
  Ends, Post, bind-Ends, routine-Ends, Ends-of_if_step, weaken-Ends, Anything, Keeps, Keeps-mono,
  Keeps-set_disconnected,
}
use mysql_async.Session.Ends.Reading.{write_packet-Ends}
use mysql_async.Session.Ends.Starts.{Idle, Pends, read_result_set-Ends}
use mysql_async.Session.Ends.Cleanup.{clean_dirty_calm}
use mysql_async.Prelude
use mysql_async.Prelude.{
  ℕ, zero, suc, ◌≤◌, ◌<◌, ◌≡◌, refl, Bool, true, false, Option, none, some, List, [], ◌∷◌, arith,
  ltb, ◌==◌, if◌then◌else◌, length,
}

-- The driver's own errors.
IsDriver : {A : Type 0} → Prelude.Result Error A → Type 0
IsDriver (Prelude.Result.err (driver e)) = Unit
IsDriver (Prelude.Result.err _) = ⊥
IsDriver (Prelude.Result.ok a) = Unit

checked_params-IsDriver :
    (stmt : Statement) (values : List Value) → IsDriver (checked_params stmt values)
unfolding checked_params IsDriver
checked_params-IsDriver stmt values =
    go (ltb 65535 (length values)) (stmt.inner.num_params == length values)
  where
    go :
        (a b : Bool)
        → IsDriver (
            if a
            then Prelude.Result.err (driver (stmt_params_number_exceeds_limit (length values)))
            else if b
            then Prelude.Result.ok values
            else Prelude.Result.err
                (driver (stmt_params_mismatch stmt.inner.num_params (length values))))
    go true b = tt
    go false true = tt
    go false false = tt

values_of-IsDriver : (r : Prelude.Result (List ℕ) (List Value)) → IsDriver (values_of r)
unfolding values_of IsDriver
values_of-IsDriver (Prelude.Result.ok values) = tt
values_of-IsDriver (Prelude.Result.err name) = tt

module _ {L : Type 0} where
  lift-Ends :
      {A : Type 0} {P : Session L → Type 0} {E : Session L → Type 0} (r : Prelude.Result Error A)
      (s : Session L)
      → IsDriver r
      → P s
      → Ends (λ _ s'. P s') E (lift r s)
  unfolding IsDriver Post
  lift-Ends (Prelude.Result.ok a) s h k = record { post = k }
  lift-Ends (Prelude.Result.err (driver e)) s h k = record { post = tt }
  lift-Ends (Prelude.Result.err Outcome.io) s h k = absurd h
  lift-Ends (Prelude.Result.err Outcome.parse) s h k = absurd h
  lift-Ends (Prelude.Result.err (Outcome.local_infile e)) s h k = absurd h
  lift-Ends (Prelude.Result.err (Outcome.other e)) s h k = absurd h
  lift-Ends (Prelude.Result.err (Outcome.server e)) s h k = absurd h

module _ {L : Type 0} {R : Type 0} {common : MySqlCommon R} {n : ℕ} {t : TxStatus}
    (calm : is_abandoned t ≡ false) where
  pub write_command-Ends :
      (c : Command) (s : Session L)
      → Keeps common n t Anything s
      → Ends (λ _ s'. Idle common n t s') (Idle common n t) (write_command common c s)
  unfolding write_command write_after clean_dirty
  write_command-Ends c s k =
      bind-Ends (clean_dirty common) _ s (clean_dirty_calm 1 calm s k)
        (λ _ s' k'. write_packet-Ends c s' k')

  -- What follows starts from a state where nothing is pending.
  pub loosen : {s : Session L} → Idle common n t s → Keeps common n t Anything s
  loosen k = Keeps-mono k (omega arith) (λ _ _. tt)

  send_chunks-Ends :
      (id i : ℕ) (chunks : List (List ℕ)) (s : Session L)
      → Keeps common n t Anything s
      → Ends
          (λ _ s'. Keeps common n t Anything s')
          (Idle common n t)
          (send_chunks common id i chunks s)
  unfolding send_chunks Post
  send_chunks-Ends id i [] s k = record { post = k }
  send_chunks-Ends id i (chunk ∷ chunks) s k =
      bind-Ends (write_command common _) _ s (write_command-Ends _ s k)
        (λ _ s' k'. send_chunks-Ends id i chunks s' (loosen k'))

  pub send_from-Ends :
      (id i : ℕ) (values : List Value) (s : Session L)
      → Keeps common n t Anything s
      → Ends
          (λ _ s'. Keeps common n t Anything s')
          (Idle common n t)
          (send_from common id i values s)
  unfolding send_from send_value Post
  send_from-Ends id i [] s k = record { post = k }
  send_from-Ends id i (value_bytes bytes ∷ values) s k =
      bind-Ends (send_chunks common id i (long_data_chunks bytes)) _ s
        (send_chunks-Ends id i (long_data_chunks bytes) s k)
        (λ _ s' k'. send_from-Ends id (suc i) values s' k')
  send_from-Ends id i (other_value v ∷ values) s k = send_from-Ends id (suc i) values s k

  write_execute-Ends :
      (stmt : Statement) (values : List Value) (s : Session L)
      → Keeps common n t Anything s
      → Ends (λ _ s'. Pends common n t s') (Idle common n t) (write_execute common stmt values s)
  unfolding write_execute
  write_execute-Ends stmt values s k =
      bind-Ends (write_command common _) _ s (write_command-Ends _ s k) (λ _ s' k'.
        weaken-Ends (read_result_set-Ends binary_protocol true s' k') (λ _ _ r. r.0) (λ _ e. e))

  module _ (mysql_params : MySqlParams) where
    exec_positional-Ends :
        (stmt : Statement) (values : List Value) (s : Session L)
        → Keeps common n t Anything s
        → Ends
            (λ _ s'. Pends common n t s')
            (Idle common n t)
            (exec_positional common mysql_params stmt values s)
    unfolding exec_positional send_params send_long_data Post
    exec_positional-Ends stmt values s k =
        bind-Ends (lift (checked_params stmt values)) _ s
          (lift-Ends {P = Keeps common n t Anything} _ s (checked_params-IsDriver stmt values) k)
          (λ checked s' k'.
            bind-Ends (send_params common mysql_params stmt checked)
              (λ _. write_execute common stmt checked) s'
              (Ends-of_if_step (mysql_params.as_long_data checked) _ (return tt) s'
                (λ _. send_from-Ends stmt.inner.id 0 checked s' k') (λ _. record { post = k' }))
              (λ _ s'' k''. write_execute-Ends stmt checked s'' k''))

    exec_params-Ends :
        (stmt : Statement) (params : Params) (s : Session L)
        → Keeps common n t Anything s
        → Ends
            (λ _ s'. Pends common n t s')
            (Idle common n t)
            (exec_params common mysql_params stmt params s)
    unfolding exec_params Post
    exec_params-Ends stmt (positional values) s k = exec_positional-Ends stmt values s k
    exec_params-Ends stmt (named params) s k =
        Ends-of_if_step (is_empty stmt.named_params) _ _ s (λ _. record { post = tt })
          (λ _.
            bind-Ends (lift (values_of (mysql_params.into_values stmt.named_params params)))
              (exec_positional common mysql_params stmt) s
              (lift-Ends {P = Keeps common n t Anything} _ s (values_of-IsDriver _) k)
              (λ values s' k'. exec_positional-Ends stmt values s' k'))
    exec_params-Ends stmt empty s k =
        Ends-of_if_step (ltb 0 stmt.inner.num_params) _ _ s (λ _. record { post = tt })
          (λ _. write_execute-Ends stmt [] s k)

    -- text
    pub execute_statement-Ends :
        (stmt : Statement) (params : Params) (s : Session L)
        → Keeps common n t Anything s
        → Ends
            (λ _ s'. Pends common n t s')
            (Idle common n t)
            (execute_statement common mysql_params stmt params s)
    unfolding execute_statement
    execute_statement-Ends stmt params s k =
        routine-Ends (exec_params common mysql_params stmt params) s
          (exec_params-Ends stmt params _ (Keeps-set_disconnected true k))
          (λ _ s' k'. Keeps-set_disconnected false k') (λ s' k'. Keeps-set_disconnected false k')
