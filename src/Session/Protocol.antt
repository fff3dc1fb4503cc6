-- ===== src/Session/Protocol.antt =====
-- The mysql_common crate, which decodes packets, as the driver uses it. A packet is the list of its
-- bytes. The parsers are a parameter; `R` is the type of rows.
use mysql_async.Conn.State.{Column, OkPacket, ErrPacket}
use mysql_async.Session.Login.{SslRequest, HandshakeResponse, ComChangeUser}
use mysql_async.Prelude.{ℕ, Bool, Option, List}

abbrev pub Packet : Type 0
Packet = List ℕ

-- `CommonOkPacket`, `ResultSetTerminator` and `OldEofPacket`.
pub data OkPacketKind : Type 0 where
  common_ok result_set_terminator old_eof : OkPacketKind

-- Text or binary.
pub data Protocol : Type 0 where
  text_protocol binary_protocol : Protocol

-- The parsers. Those that the connection's capabilities steer are told whether the handshake is
-- complete.
pub record MySqlCommon (R : Type 0) : Type 0 where
  pub ok_packet : OkPacketKind → Packet → Option OkPacket
  pub err_packet : Bool → Packet → Option ErrPacket
  pub lenenc_int : Packet → Option ℕ
  pub column : Packet → Option Column
  pub row : Protocol → List Column → Packet → Option R
  pub local_infile_packet : Packet → Option (List ℕ)
  -- The id and the numbers of parameters and columns of a prepared statement.
  pub stmt_packet : Packet → Option (ℕ × ℕ × ℕ)

-- `Value`: bytes, or another value by its number.
pub data Value : Type 0 where
  value_bytes : List ℕ → Value
  other_value : ℕ → Value

-- The commands and other packets that the driver sends. `start_tls` is the TLS handshake, in its place
-- among them.
pub data Command : Type 0 where
  com_quit com_ping com_reset_connection start_tls : Command
  com_change_user : ComChangeUser → Command
  ssl_request : SslRequest → Command
  handshake_response : HandshakeResponse → Command
  com_query com_stmt_prepare : List ℕ → Command
  com_stmt_close : ℕ → Command
  com_stmt_send_long_data : ℕ → ℕ → List ℕ → Command
  com_stmt_execute : ℕ → List Value → Command
  bytes : List ℕ → Command

-- The largest payload of a packet, 2 ^ 24 - 1.
abbrev pub max_payload_len : ℕ
max_payload_len = 16777215

-- `SERVER_MORE_RESULTS_EXISTS`.
abbrev pub server_more_results_exists : ℕ
server_more_results_exists = 8
