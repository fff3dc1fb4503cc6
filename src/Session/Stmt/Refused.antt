-- ===== src/Session/Stmt/Refused.antt =====
-- src/conn/routines/exec.rs: parameters that do not fit their statement.
use mysql_async.Session.Outcome.{
  driver, DriverError, missing_named_param, named_params_for_positional_query, stmt_params_mismatch,
  stmt_params_number_exceeds_limit, Outcome, err, lift, ◌>>=◌, ◌>>◌,
}
use mysql_async.Session.Protocol.{MySqlCommon, Value}
use mysql_async.Session.State.{Session, M, with_conn, close_stream, set_disconnected}
use mysql_async.Session.Packets.{after_routine, routine}
use mysql_async.Session.Stmt.{
  Params, empty, positional, named, NamedParams, MySqlParams, Statement, checked_params, is_empty,
  values_of, send_params, write_execute, exec_positional, exec_params, execute_statement,
}
use mysql_async.Prelude
use mysql_async.Prelude.{
  ℕ, zero, suc, ◌≤◌, ◌<◌, ◌≡◌, refl, ap, ◌∙◌, ◌≢◌, Bool, true, false, Option, none, some, List, [],
  ◌∷◌, arith, ltb, ◌==◌, lt→ltb, length, if_true, if_false,
}

module _ (mysql_params : MySqlParams) (stmt : Statement) where
  -- What is wrong with the parameters of a statement, by the driver's documentation of its errors.
  pub data Refusal : Params → DriverError → Type 0 where
    too_many :
        (values : List Value)
        → 65535 < length values
        → Refusal (positional values) (stmt_params_number_exceeds_limit (length values))
    mismatch :
        (values : List Value)
        → length values ≤ 65535
        → stmt.inner.num_params ≢ length values
        → Refusal (positional values) (stmt_params_mismatch stmt.inner.num_params (length values))
    not_named :
        (params : NamedParams)
        → stmt.named_params ≡ []
        → Refusal (named params) named_params_for_positional_query
    missing :
        (params : NamedParams) (name : List ℕ)
        → stmt.named_params ≢ []
        → mysql_params.into_values stmt.named_params params ≡ Prelude.Result.err name
        → Refusal (named params) (missing_named_param name)
    by_position :
        (params : NamedParams) (values : List Value) (e : DriverError)
        → stmt.named_params ≢ []
        → mysql_params.into_values stmt.named_params params ≡ Prelude.Result.ok values
        → Refusal (positional values) e
        → Refusal (named params) e
    none_given :
        0 < stmt.inner.num_params → Refusal empty (stmt_params_mismatch stmt.inner.num_params 0)

is_empty_ne : (xs : List (List ℕ)) → xs ≢ [] → is_empty xs ≡ false
unfolding is_empty
is_empty_ne [] h = absurd (h refl)
is_empty_ne (x ∷ xs) h = refl

module _ (stmt : Statement) (values : List Value) where
  checked_too_many :
      65535 < length values
      → checked_params stmt values
        ≡ Prelude.Result.err (driver (stmt_params_number_exceeds_limit (length values)))
  unfolding checked_params
  checked_too_many h = if_true _ _ (lt→ltb _ _ h)

  checked_mismatch :
      length values ≤ 65535
      → stmt.inner.num_params ≢ length values
      → checked_params stmt values
        ≡ Prelude.Result.err (driver (stmt_params_mismatch stmt.inner.num_params (length values)))
  unfolding checked_params
  checked_mismatch h ne =
      if_false {b = ltb 65535 (length values)} _ _ (ground (arith, h))
      ∙ if_false {b = stmt.inner.num_params == length values} _ _ (ground (arith, ne))

module _ {L : Type 0} {R : Type 0} (common : MySqlCommon R) (mysql_params : MySqlParams)
    (stmt : Statement) where
  positional_refused :
      (values : List Value) (e : DriverError) (s : Session L)
      → checked_params stmt values ≡ Prelude.Result.err (driver e)
      → exec_positional common mysql_params stmt values s ≡ (err (driver e), s)
  unfolding exec_positional
  positional_refused values e s h =
      ap {B = Outcome (Unit {0}) × Session L} (λ r. (lift r >>= sent) s) h
    where
      sent : List Value → Session L → Outcome (Unit {0}) × Session L
      sent values = send_params common mysql_params stmt values >> write_execute common stmt values

  named_refused :
      (params : NamedParams) (r : Prelude.Result (List ℕ) (List Value)) (s : Session L)
      → stmt.named_params ≢ []
      → mysql_params.into_values stmt.named_params params ≡ r
      → exec_params common mysql_params stmt (named params) s
        ≡ (lift (values_of r) >>= exec_positional common mysql_params stmt) s
  unfolding exec_params
  named_refused params r s ne e =
      ap {A = M L (Unit {0})} (λ m. m s) (if_false _ _ (is_empty_ne _ ne))
      ∙ ap {B = Outcome (Unit {0}) × Session L}
          (λ r. (lift (values_of r) >>= exec_positional common mysql_params stmt) s) e

  exec_params-Refusal :
      (params : Params) (e : DriverError) (s : Session L)
      → Refusal mysql_params stmt params e
      → exec_params common mysql_params stmt params s ≡ (err (driver e), s)
  unfolding exec_params is_empty values_of
  exec_params-Refusal _ _ s (too_many values h) =
      positional_refused values _ s (checked_too_many stmt values h)
  exec_params-Refusal _ _ s (mismatch values h ne) =
      positional_refused values _ s (checked_mismatch stmt values h ne)
  exec_params-Refusal _ _ s (not_named params e) =
      ap {A = M L (Unit {0})} (λ m. m s) (if_true _ _ (ap is_empty e))
  exec_params-Refusal _ _ s (missing params name ne e) =
      named_refused params (Prelude.Result.err name) s ne e
  exec_params-Refusal _ _ s (by_position params values e ne given r) =
      named_refused params (Prelude.Result.ok values) s ne given
      ∙ exec_params-Refusal (positional values) e s r
  exec_params-Refusal _ _ s (none_given h) =
      ap {A = M L (Unit {0})} (λ m. m s) (if_true _ _ (lt→ltb _ _ h))

  -- Parameters that do not fit their statement, in that there are too many of them, that their
  -- number is another one, that they are named where the statement has none, or that a name is
  -- missing, end in the error for that, with nothing sent and nothing read; and the stream is
  -- closed.
  pub execute_statement-Refusal :
      (params : Params) (e : DriverError) (s : Session L)
      → Refusal mysql_params stmt params e
      → execute_statement common mysql_params stmt params s
        ≡ (err (driver e), with_conn (close_stream (set_disconnected true s.conn)) s)
  unfolding execute_statement routine after_routine
  execute_statement-Refusal params e s r =
      ap {A = Outcome (Unit {0}) × Session L} after_routine
        (exec_params-Refusal params e (with_conn (set_disconnected true s.conn) s) r)
