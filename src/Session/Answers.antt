-- ===== src/Session/Answers.antt =====
-- src/queryable/query_result/mod.rs: what a server answers to a query, as packets, and that reading the
-- answer gives its rows back.
pub mod Rows
pub mod Query
pub mod First
use mysql_async.Conn.State.{Column, OkPacket, text, pending}
use mysql_async.Conn.Pending.{Pended}
use mysql_async.Session.Protocol.{
  Packet, OkPacketKind, common_ok, result_set_terminator, old_eof, MySqlCommon, text_protocol,
  server_more_results_exists, com_query,
}
use mysql_async.Session.State.{Session}
use mysql_async.Session.ResultSets.{first}
use mysql_async.Session.QueryResult.{is_last_result_set_packet}
use mysql_async.Prelude
use mysql_async.Prelude.{
  ℕ, ◌-◌, ◌/◌, ◌%◌, ◌≡◌, ◌≢◌, Bool, true, false, none, some, List, [], ◌∷◌, ◌++◌, ◌==◌,
  if◌then◌else◌, Result, ok, pending,
}

-- The kind of OK packet that ends the rows.
abbrev pub end_kind : Bool → OkPacketKind
end_kind deprecate_eof = if deprecate_eof then result_set_terminator else old_eof

-- A packet of a server that is neither an OK packet of the kind that is expected, nor an ERR packet.
pub record IsData {R : Type 0} (common : MySqlCommon R) (kind : OkPacketKind) (packet : Packet)
    : Type 0 where
  pub not_ok : common.ok_packet kind packet ≡ none
  pub not_err : common.err_packet true packet ≡ none

-- A packet with its row.
pub record IsRow {R : Type 0} (common : MySqlCommon R) (deprecate_eof : Bool) (cols : List Column)
    (row : Packet × R) : Type 0 where
  pub is_data : IsData common (end_kind deprecate_eof) row.0
  pub not_last : is_last_result_set_packet deprecate_eof row.0 ≡ some false
  pub parsed : common.row text_protocol cols row.0 ≡ some row.1

-- The end of the last result set.
pub record IsEnd {R : Type 0} (common : MySqlCommon R) (deprecate_eof : Bool) (o : OkPacket)
    (packet : Packet) : Type 0 where
  pub parsed : common.ok_packet (end_kind deprecate_eof) packet ≡ some o
  pub last : is_last_result_set_packet deprecate_eof packet ≡ some true
  pub no_more : (o.status_flags / server_more_results_exists % 2 == 1) ≡ false

-- A column definition with its column.
pub record IsColumn {R : Type 0} (common : MySqlCommon R) (column : Packet × Column) : Type 0 where
  pub is_data : IsData common common_ok column.0
  pub parsed : common.column column.0 ≡ some column.1

-- The packet before the column definitions, which counts them.
pub record IsHeader {R : Type 0} (common : MySqlCommon R) (count : ℕ) (packet : Packet)
    : Type 0 where
  pub is_data : IsData common common_ok packet
  pub not_ok : first packet ≢ some 0
  pub not_infile : first packet ≢ some 251
  pub parsed : common.lenenc_int packet ≡ some count

-- The connection can read, and is past its handshake.
pub record CanRead {L : Type 0} (s : Session L) : Type 0 where
  pub open_ : s.conn.stream ≡ true
  pub past_handshake : s.handshake_complete ≡ true

-- The session with what is to come, and what is pending, replaced.
abbrev pub at : {L : Type 0} → Session L → Pended → List Packet → Session L
at s q packets = record s {
  incoming = packets;
  conn = record (s.conn) { last_io = s.now; pending_result = q };
}

abbrev pub reading : List Column → Pended
reading cols = Prelude.Result.ok (some (pending (text cols)))

-- The same, before anything was read.
abbrev pub from : {L : Type 0} → Session L → Pended → List Packet → Session L
from s q packets = record s { incoming = packets; conn = record (s.conn) { pending_result = q } }

-- The query was sent; `disconnected` is set while the routine runs.
abbrev pub asked : {L : Type 0} → Bool → List ℕ → Session L → Session L
asked disconnected query s = record s {
  sent = s.sent ++ com_query query ∷ [];
  writes_left = s.writes_left - 1;
  conn = record (s.conn) { disconnected = disconnected };
}
