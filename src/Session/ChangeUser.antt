-- ===== src/Session/ChangeUser.antt =====
-- src/conn/mod.rs and src/opts/mod.rs: `Conn::change_user` and the reset of a connection that goes back
-- to its pool.
pub mod Laws
use mysql_async.Conn.StmtCache.Lru.{LruCache, same}
use mysql_async.Session.Login.{AuthOpts, MySqlAuth}
use mysql_async.Session.Outcome.{ok, ◌>>=◌, ◌>>◌, return}
use mysql_async.Session.Protocol.{MySqlCommon}
use mysql_async.Session.State.{Session, M}
use mysql_async.Session.Reset.{run_setup_commands, forget, reset}
use mysql_async.Session.Connect.{change_user_routine}
use mysql_async.Session.Auth.{set_auth}
use mysql_async.Prelude.{
  ℕ, ◌+◌, Bool, true, false, not, ◌||◌, Option, none, some, List, if◌then◌else◌,
}

-- `ChangeUserOpts`. An option that is not given stays as it is.
pub record ChangeUserOpts : Type 0 where
  pub user : Option (Option (List ℕ))
  pub pass : Option (Option (List ℕ))
  pub db_name : Option (Option (List ℕ))

-- `ChangeUserOpts::new`, the default.
unfoldable pub new : ChangeUserOpts
new = record { user = none; pass = none; db_name = none }

-- `==` on optional strings.
unfoldable pub same_value : Option (List ℕ) → Option (List ℕ) → Bool
same_value none none = true
same_value (some a) (some b) = same a b
same_value _ _ = false

-- Whether an option is given, and is not what it was.
unfoldable pub is_changed : Option (Option (List ℕ)) → Option (List ℕ) → Bool
is_changed none old = false
is_changed (some new_) old = not (same_value new_ old)

unfoldable pub opts_changed : ChangeUserOpts → AuthOpts → Bool
opts_changed opts old =
    is_changed opts.user old.user
    || is_changed opts.pass old.pass
    || is_changed opts.db_name old.db_name

unfoldable pub given_or : Option (List ℕ) → Option (Option (List ℕ)) → Option (List ℕ)
given_or old none = old
given_or old (some new_) = new_

-- `ChangeUserOpts::update_opts`.
unfoldable pub update_opts : ChangeUserOpts → AuthOpts → AuthOpts
update_opts opts old = record old {
  user = given_or old.user opts.user;
  pass = given_or old.pass opts.pass;
  db_name = given_or old.db_name opts.db_name;
}

module _ {L : Type 0} where
  -- The connection leaves its pool, if it has one.
  unfoldable pub leave_pool : Session L → Session L
  leave_pool s =
      if s.conn.pool
      then record s { conn = record (s.conn) { pool = false }; cancelled = s.cancelled + 1 }
      else s

  unfoldable pub kick : ChangeUserOpts → M L (Unit {0})
  kick opts s = (ok tt, if opts_changed opts s.auth.opts then leave_pool s else s)

  unfoldable pub set_opts : ChangeUserOpts → M L (Unit {0})
  set_opts opts = set_auth (λ a. record a { opts = update_opts opts a.opts })

  -- The options change, and the connection leaves its pool if they do.
  unfoldable pub update : ChangeUserOpts → M L (Unit {0})
  update opts = kick opts >> set_opts opts

  module _ {R : Type 0} ⦃lru : LruCache L⦄ (auth : MySqlAuth) (common : MySqlCommon R) where
    -- `Conn::change_user`.
    unfoldable pub change_user : ChangeUserOpts → M L (Unit {0})
    change_user opts =
        update opts >> (change_user_routine auth common >> (forget >> run_setup_commands common))

    -- `Conn::reset_for_pool`.
    unfoldable pub change_user_unless : Bool → M L (Unit {0})
    change_user_unless true = return tt
    change_user_unless false = change_user new

    unfoldable pub reset_for_pool : M L (Unit {0})
    reset_for_pool = reset common >>= change_user_unless
