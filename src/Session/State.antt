-- ===== src/Session/State.antt =====
-- src/conn/mod.rs: a connection with the two ends of its stream. `incoming` holds the packets that the
-- server will send before it closes the stream, `sent` those that the driver has sent, and
-- `writes_left` how many more it can send before the stream breaks. `now` is `Instant::now()`.
-- `cancelled` is the number of calls of `Pool::cancel_connection`.
use mysql_async.Conn.State.{Conn, Instant}
use mysql_async.Conn.StmtCache.{StmtCache}
use mysql_async.Session.Login.{Auth}
use mysql_async.Session.Outcome.{Outcome, Error}
use mysql_async.Session.Protocol.{Packet, Command}
use mysql_async.Prelude
use mysql_async.Prelude.{
  ℕ, zero, suc, ◌≤◌, ◌<◌, ◌≡◌, refl, Bool, true, false, Option, none, some, List, [], ◌∷◌, arith,
}

-- What a local infile handler gives: the chunks, each of which may be an error, or its own error.
abbrev pub InfileData : Type 0
InfileData = Prelude.Result Error (List (Option (List ℕ)))

-- The handler of the options is told the file's name; that of the connection is used once.
abbrev pub InfileHandler : Type 0
InfileHandler = List ℕ → InfileData

pub record Session (L : Type 0) : Type 0 where
  pub conn : Conn
  pub incoming : List Packet
  pub sent : List Command
  pub writes_left : ℕ
  pub now : Instant
  pub deprecate_eof : Bool
  pub handshake_complete : Bool
  pub is_mariadb : Bool
  pub version : ℕ × ℕ × ℕ
  pub stmt_cache : StmtCache L
  pub stmt_cache_size : ℕ
  pub infile_handler : Option InfileData
  pub local_infile_handler : Option InfileHandler
  pub setup : List (List ℕ)
  pub auth : Auth
  pub cancelled : ℕ

-- A function of the driver.
abbrev pub M {ℓ} : Type 0 → Type ℓ → Type ℓ
M L A = Session L → Outcome A × Session L

-- The stream is gone.
abbrev pub close_stream : Conn → Conn
close_stream c = record c { stream = false }

abbrev pub set_disconnected : Bool → Conn → Conn
set_disconnected b c = record c { disconnected = b }

module _ {L : Type 0} where
  abbrev pub with_conn : Conn → Session L → Session L
  with_conn c s = record s { conn = c }

  abbrev pub modify : (Conn → Conn) → M L (Unit {0})
  modify f s = (Outcome.ok tt, record s { conn = f s.conn })
