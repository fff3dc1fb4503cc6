-- ===== src/Session/Reset.antt =====
-- src/conn/mod.rs and src/conn/routines/reset.rs: `Conn::reset`, with the setup queries after it.
pub mod Knows
use mysql_async.Conn.StmtCache
use mysql_async.Conn.StmtCache.Lru.{LruCache}
use mysql_async.Session.Outcome.{ok, ◌>>=◌, ◌>>◌, return}
use mysql_async.Session.Protocol.{MySqlCommon, com_reset_connection}
use mysql_async.Session.State.{Session, M}
use mysql_async.Session.Packets.{read_packet, routine}
use mysql_async.Session.Commands.{write_command, query_drop}
use mysql_async.Session.Transaction.{version_ltb}
use mysql_async.Prelude.{ℕ, Bool, true, false, not, none, List, [], ◌∷◌, if◌then◌else◌}

module _ {L : Type 0} where
  -- Whether the server knows the command.
  unfoldable pub supports_com_reset_connection : Session L → Bool
  supports_com_reset_connection s =
      if s.is_mariadb
      then not (version_ltb s.version (10, 2, 4))
      else version_ltb (5, 7, 2) s.version

  module _ {R : Type 0} (common : MySqlCommon R) where
    -- `ResetRoutine`.
    unfoldable pub reset_routine : M L (Unit {0})
    reset_routine =
        routine
          (write_command common com_reset_connection >> (read_packet common >>= (λ _. return tt)))

    -- `pop` takes the queries from the end of the list.
    unfoldable pub run_popped : List (List ℕ) → M L (Unit {0})
    run_popped [] = return tt
    run_popped (q ∷ qs) = run_popped qs >> query_drop common q

    -- `Conn::run_setup_commands`.
    unfoldable pub run_setup_commands : M L (Unit {0})
    run_setup_commands s = run_popped s.setup s

  -- The statements and the handler of the connection are forgotten.
  unfoldable pub forget : ⦃lru : LruCache L⦄ → M L (Unit {0})
  forget s = (ok tt, record s { stmt_cache = StmtCache.clear s.stmt_cache; infile_handler = none })

  module _ {R : Type 0} ⦃lru : LruCache L⦄ (common : MySqlCommon R) where
    unfoldable pub reset_supported : M L Bool
    reset_supported = reset_routine common >> (forget >> (run_setup_commands common >> return true))

    -- `Conn::reset`.
    unfoldable pub reset : M L Bool
    reset s = if supports_com_reset_connection s then reset_supported s else (ok false, s)
