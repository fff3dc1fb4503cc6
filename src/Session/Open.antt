-- ===== src/Session/Open.antt =====
-- src/conn/mod.rs: `Conn::new` over its stream. A connection that reconnects through the server's
-- socket is replaced by what `Conn::new` makes of the other stream, which is an argument.
use mysql_async.Session.Login.{MySqlAuth}
use mysql_async.Session.Outcome.{Outcome, ok, err, panicked, stuck, ◌>>◌}
use mysql_async.Session.Protocol.{MySqlCommon}
use mysql_async.Session.State.{Session, M}
use mysql_async.Session.Commands.{close_conn}
use mysql_async.Session.Reset.{run_setup_commands}
use mysql_async.Session.Connect.{log_in, run_init_commands}
use mysql_async.Session.Settings.{MySqlValues, is_none, read_settings}
use mysql_async.Prelude.{◌||◌, Option, none, some, if◌then◌else◌}

module _ {L : Type 0} where
  -- The new connection stands in the place of the old one, also where the old one fails to close.
  unfoldable pub replaced_by :
      Session L → Outcome (Unit {0}) × Session L → Outcome (Unit {0}) × Session L
  replaced_by other (ok _, s) = (ok tt, other)
  replaced_by other (err e, s) = (err e, other)
  replaced_by other (panicked, s) = (panicked, other)
  replaced_by other (stuck, s) = (stuck, other)

  module _ {R : Type 0} (common : MySqlCommon R) where
    unfoldable pub replace : Option (Session L) → M L (Unit {0})
    replace none s = (ok tt, s)
    replace (some other) s = replaced_by other (close_conn common s)

    -- `Conn::reconnect_via_socket_if_needed`. A stream is a socket exactly where the options say so.
    unfoldable pub reconnect_via_socket_if_needed : Option (Session L) → M L (Unit {0})
    reconnect_via_socket_if_needed other s =
        if is_none s.auth.socket || s.auth.is_socket then (ok tt, s) else replace other s

    module _ {V : Type 0} (auth : MySqlAuth) (values : MySqlValues R V) where
      -- `Conn::new`, from the handshake on.
      unfoldable pub new : Option (Session L) → M L (Unit {0})
      new other =
          log_in auth common
          >> (read_settings values common
              >> (reconnect_via_socket_if_needed other
                  >> (run_init_commands common >> run_setup_commands common)))
