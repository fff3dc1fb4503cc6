-- ===== src/Session/Transaction.antt =====
-- src/queryable/transaction.rs: `Transaction` and its options. A query is the list of its bytes.
pub mod Laws
use mysql_async.Conn.State
use mysql_async.Conn.TxStatus
use mysql_async.Conn.TxStatus.{TxStatus, is_open, is_in_transaction}
use mysql_async.Session.Outcome.{
  Error, driver, nested_transaction, read_only_trans_not_supported, Outcome, ok, err, panicked,
  stuck, ◌>>◌, return,
}
use mysql_async.Session.Protocol.{MySqlCommon, text_protocol}
use mysql_async.Session.State.{Session, M, with_conn, modify}
use mysql_async.Session.QueryResult.{drop_result}
use mysql_async.Session.Commands.{clean_dirty, raw_query, query_drop, rollback_transaction}
use mysql_async.Prelude
use mysql_async.Prelude.{
  ℕ, Bool, true, false, ◌&&◌, ◌||◌, Option, none, some, List, [], ◌∷◌, ◌++◌, ltb, ◌==◌,
  if◌then◌else◌,
}

pub data IsolationLevel : Type 0 where
  read_uncommitted read_committed repeatable_read serializable : IsolationLevel

pub record TxOpts : Type 0 where
  pub consistent_snapshot : Bool
  pub isolation_level : Option IsolationLevel
  pub readonly : Option Bool

-- `TxOpts::new`, and its setters.
unfoldable pub new_opts : TxOpts
new_opts = record { consistent_snapshot = false; isolation_level = none; readonly = none }

unfoldable pub with_consistent_snapshot : Bool → TxOpts → TxOpts
with_consistent_snapshot value o = record o { consistent_snapshot = value }

unfoldable pub with_isolation_level : Option IsolationLevel → TxOpts → TxOpts
with_isolation_level value o = record o { isolation_level = value }

unfoldable pub with_readonly : Option Bool → TxOpts → TxOpts
with_readonly value o = record o { readonly = value }

abbrev pub isolation_query : List ℕ
isolation_query =
    83 ∷ 69 ∷ 84 ∷ 32 ∷ 84 ∷ 82 ∷ 65 ∷ 78 ∷ 83 ∷ 65 ∷ 67 ∷ 84 ∷ 73 ∷ 79 ∷ 78 ∷ 32 ∷ 73 ∷ 83 ∷ 79
    ∷ 76 ∷ 65 ∷ 84 ∷ 73 ∷ 79 ∷ 78 ∷ 32 ∷ 76 ∷ 69 ∷ 86 ∷ 69 ∷ 76 ∷ 32 ∷ []

abbrev pub read_only_query : List ℕ
read_only_query =
    83 ∷ 69 ∷ 84 ∷ 32 ∷ 84 ∷ 82 ∷ 65 ∷ 78 ∷ 83 ∷ 65 ∷ 67 ∷ 84 ∷ 73 ∷ 79 ∷ 78 ∷ 32 ∷ 82 ∷ 69 ∷ 65
    ∷ 68 ∷ 32 ∷ 79 ∷ 78 ∷ 76 ∷ 89 ∷ []

abbrev pub read_write_query : List ℕ
read_write_query =
    83 ∷ 69 ∷ 84 ∷ 32 ∷ 84 ∷ 82 ∷ 65 ∷ 78 ∷ 83 ∷ 65 ∷ 67 ∷ 84 ∷ 73 ∷ 79 ∷ 78 ∷ 32 ∷ 82 ∷ 69 ∷ 65
    ∷ 68 ∷ 32 ∷ 87 ∷ 82 ∷ 73 ∷ 84 ∷ 69 ∷ []

abbrev pub snapshot_query : List ℕ
snapshot_query =
    83 ∷ 84 ∷ 65 ∷ 82 ∷ 84 ∷ 32 ∷ 84 ∷ 82 ∷ 65 ∷ 78 ∷ 83 ∷ 65 ∷ 67 ∷ 84 ∷ 73 ∷ 79 ∷ 78 ∷ 32 ∷ 87
    ∷ 73 ∷ 84 ∷ 72 ∷ 32 ∷ 67 ∷ 79 ∷ 78 ∷ 83 ∷ 73 ∷ 83 ∷ 84 ∷ 69 ∷ 78 ∷ 84 ∷ 32 ∷ 83 ∷ 78 ∷ 65 ∷ 80
    ∷ 83 ∷ 72 ∷ 79 ∷ 84 ∷ []

abbrev pub start_query : List ℕ
start_query =
    83 ∷ 84 ∷ 65 ∷ 82 ∷ 84 ∷ 32 ∷ 84 ∷ 82 ∷ 65 ∷ 78 ∷ 83 ∷ 65 ∷ 67 ∷ 84 ∷ 73 ∷ 79 ∷ 78 ∷ []

abbrev pub commit_query : List ℕ
commit_query = 67 ∷ 79 ∷ 77 ∷ 77 ∷ 73 ∷ 84 ∷ []

-- `fmt` of `IsolationLevel`.
unfoldable pub level_name : IsolationLevel → List ℕ
level_name read_uncommitted =
    82 ∷ 69 ∷ 65 ∷ 68 ∷ 32 ∷ 85 ∷ 78 ∷ 67 ∷ 79 ∷ 77 ∷ 77 ∷ 73 ∷ 84 ∷ 84 ∷ 69 ∷ 68 ∷ []
level_name read_committed = 82 ∷ 69 ∷ 65 ∷ 68 ∷ 32 ∷ 67 ∷ 79 ∷ 77 ∷ 77 ∷ 73 ∷ 84 ∷ 84 ∷ 69 ∷ 68 ∷ []
level_name repeatable_read =
    82 ∷ 69 ∷ 80 ∷ 69 ∷ 65 ∷ 84 ∷ 65 ∷ 66 ∷ 76 ∷ 69 ∷ 32 ∷ 82 ∷ 69 ∷ 65 ∷ 68 ∷ []
level_name serializable = 83 ∷ 69 ∷ 82 ∷ 73 ∷ 65 ∷ 76 ∷ 73 ∷ 90 ∷ 65 ∷ 66 ∷ 76 ∷ 69 ∷ []

-- Versions compare by their parts.
unfoldable pub version_ltb : ℕ × ℕ × ℕ → ℕ × ℕ × ℕ → Bool
version_ltb (a, b, c) (x, y, z) = ltb a x || (a == x) && (ltb b y || (b == y) && ltb c z)

unfoldable pub access_query : Bool → List ℕ
access_query true = read_only_query
access_query false = read_write_query

unfoldable pub opening_query : Bool → List ℕ
opening_query true = snapshot_query
opening_query false = start_query

abbrev pub is_some : {A : Type 0} → Option A → Bool
is_some (some a) = true
is_some none = false

module _ {L : Type 0} where
  -- An optional step.
  abbrev pub when_some : {A : Type 0} → (A → M L (Unit {0})) → Option A → M L (Unit {0})
  when_some f (some a) = f a
  when_some f none = return tt

  -- `Drop` of a transaction.
  unfoldable pub drop : Session L → Session L
  drop s =
      if is_in_transaction s.conn.tx_status
      then with_conn (State.set_tx_status TxStatus.requires_rollback s.conn) s
      else s

  abbrev pub dropped {ℓ} : {A : Type ℓ} → Outcome A × Session L → Outcome A × Session L
  dropped r = (r.0, drop r.1)

  -- No transaction is open, and the server knows the options.
  unfoldable pub admitted : Option Bool → M L (Unit {0})
  admitted readonly s =
      if is_open s.conn.tx_status
      then (err (driver nested_transaction), s)
      else if is_some readonly && version_ltb s.version (5, 6, 5)
      then (err (driver read_only_trans_not_supported), s)
      else (ok tt, s)

  module _ {R : Type 0} (common : MySqlCommon R) where
    unfoldable pub set_isolation : Option IsolationLevel → M L (Unit {0})
    set_isolation = when_some (λ level. query_drop common (isolation_query ++ level_name level))

    unfoldable pub set_access : Option Bool → M L (Unit {0})
    set_access = when_some (λ readonly. query_drop common (access_query readonly))

    -- `Transaction::new`.
    unfoldable pub new : TxOpts → M L (Unit {0})
    new options =
        clean_dirty common
        >> (admitted options.readonly
            >> (set_isolation options.isolation_level
                >> (set_access options.readonly
                    >> (query_drop common (opening_query options.consistent_snapshot)
                        >> modify (State.set_tx_status TxStatus.in_transaction)))))

    -- `Transaction::try_commit`; `query_iter` is `raw_query` here.
    unfoldable pub try_commit : M L (Unit {0})
    try_commit =
        raw_query common commit_query
        >> (drop_result common text_protocol >> modify (State.set_tx_status TxStatus.none))

    -- The error of the commit is kept, whatever the rollback does, unless it panics.
    unfoldable pub commit_failed :
        Error → Outcome (Unit {0}) × Session L → Outcome (Unit {0}) × Session L
    commit_failed e (ok _, s) = (err e, s)
    commit_failed e (err _, s) = (err e, s)
    commit_failed e (panicked, s) = (panicked, s)
    commit_failed e (stuck, s) = (stuck, s)

    unfoldable pub after_commit : Outcome (Unit {0}) × Session L → Outcome (Unit {0}) × Session L
    after_commit (ok _, s) = (ok tt, s)
    after_commit (err e, s) = commit_failed e (rollback_transaction common s)
    after_commit (panicked, s) = (panicked, s)
    after_commit (stuck, s) = (stuck, s)

    -- `Transaction::commit`, which drops the transaction.
    unfoldable pub commit : M L (Unit {0})
    commit s = dropped (after_commit (try_commit s))

    -- `Transaction::rollback`.
    unfoldable pub rollback : M L (Unit {0})
    rollback s = dropped (rollback_transaction common s)
