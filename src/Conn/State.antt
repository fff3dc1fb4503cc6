-- ===== src/Conn/State.antt =====
-- src/conn/mod.rs: the fields of `ConnInner` that steer the driver, and the methods that read and
-- write them. `stream` and `pool` say whether the field holds a value. An `Instant` is a number of
-- nanoseconds since the clock started; `now` is `Instant::now()`.
use Prim.Native.String.{String}
use mysql_async.Prelude.{
  ℕ, ◌-◌, Bool, true, false, not, ◌&&◌, Option, none, some, List, ltb, ◌==◌, if◌then◌else◌, Result,
  ok, err,
}
use mysql_async.Conn.TxStatus.{TxStatus}

abbrev pub Instant : Type 0
Instant = ℕ

-- A column definition, by its number.
abbrev pub Column : Type 0
Column = ℕ

-- src/queryable/query_result/mod.rs: `ResultSetMeta`.
pub data ResultSetMeta : Type 0 where
  text binary : List Column → ResultSetMeta

unfoldable pub columns : ResultSetMeta → List Column
columns (text cols) = cols
columns (binary cols) = cols

pub data PendingResult : Type 0 where
  pending taken : ResultSetMeta → PendingResult

pub record ServerError : Type 0 where
  pub code : ℕ
  pub message : String

-- What the driver reads of an OK packet. The packet itself is decoded by mysql_common.
pub record OkPacket : Type 0 where
  pub status_flags : ℕ
  pub affected_rows : ℕ
  pub last_insert_id : Option ℕ
  pub warnings : ℕ

pub data ErrPacket : Type 0 where
  error : ServerError → ErrPacket
  progress : ErrPacket

pub record Conn : Type 0 where
  pub id : ℕ
  pub stream : Bool
  pub disconnected : Bool
  pub pool : Bool
  pub status : ℕ
  pub last_ok_packet : Option OkPacket
  pub last_err_packet : Option ServerError
  pub pending_result : Result ServerError (Option PendingResult)
  pub tx_status : TxStatus
  pub reset_upon_returning_to_a_pool : Bool
  pub conn_ttl : Option ℕ
  pub wait_timeout : ℕ
  pub ttl_deadline : Option Instant
  pub last_io : Instant
  pub active_since : Instant

-- `ConnInner::empty`, for the options' `conn_ttl` and the deadline of `new_connection_ttl_deadline`.
unfoldable pub empty : Option ℕ → Option Instant → Instant → Conn
empty conn_ttl ttl_deadline now = record {
  id = 0;
  stream = false;
  disconnected = false;
  pool = false;
  status = 0;
  last_ok_packet = none;
  last_err_packet = none;
  pending_result = ok none;
  tx_status = TxStatus.none;
  reset_upon_returning_to_a_pool = false;
  conn_ttl = conn_ttl;
  wait_timeout = 0;
  ttl_deadline = ttl_deadline;
  last_io = now;
  active_since = now;
}

unfoldable pub idling : Instant → Conn → ℕ
idling now c = now - c.last_io

-- Whether the deadline of `abs_conn_ttl` has passed.
unfoldable pub past_deadline : Instant → Option Instant → Bool
past_deadline now none = false
past_deadline now (some deadline) = ltb deadline now

unfoldable pub ttl_or : ℕ → Option ℕ → ℕ
ttl_or wait_timeout none = wait_timeout
ttl_or wait_timeout (some ttl) = ttl

-- `Conn::expired`.
unfoldable pub expired : Instant → Conn → Bool
unfolding idling past_deadline ttl_or
expired now c =
    if past_deadline now c.ttl_deadline
    then true
    else let ttl = ttl_or c.wait_timeout c.conn_ttl in not (ttl == 0) && ltb ttl (idling now c)

unfoldable pub handle_ok : OkPacket → Conn → Conn
handle_ok packet c = record c {
  status = packet.status_flags;
  last_err_packet = none;
  last_ok_packet = some packet;
}

unfoldable pub handle_err : ErrPacket → Conn → Result ServerError (Unit {0}) × Conn
handle_err (error e) c =
    (err e, record c { status = 0; last_ok_packet = none; last_err_packet = some e })
handle_err progress c = (ok tt, c)

unfoldable pub set_tx_status : TxStatus → Conn → Conn
set_tx_status s c = record c { tx_status = s }
