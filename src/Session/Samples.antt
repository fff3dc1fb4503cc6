-- ===== src/Session/Samples.antt =====
-- src/conn/mod.rs and src/queryable/: sessions at concrete packets, for the tests. The first byte of a
-- packet is its kind: 0 and 254 are OK packets, with the status flags after it, 255 an error, and any
-- other a number of columns; a column definition is its number, and a row is the packet itself.
use mysql_async.Conn.State
use mysql_async.Conn.State.{
  Conn, Column, OkPacket, ErrPacket, ServerError, ResultSetMeta, text, binary, PendingResult,
  pending, taken,
}
use mysql_async.Conn.TxStatus.{TxStatus}
use mysql_async.Session.Login
use mysql_async.Session.Login.{Capabilities, AuthOpts, Auth}
use mysql_async.Session.Protocol.{
  Packet, OkPacketKind, common_ok, result_set_terminator, old_eof, MySqlCommon,
}
use mysql_async.Session.State.{Session}
use mysql_async.Session.ResultSets.{first}
use mysql_async.Session.Ends.{IsSafe, Anything, Keeps}
use mysql_async.Session.Ends.Starts.{Idle}
use mysql_async.Prelude
use mysql_async.Prelude.{
  ℕ, zero, suc, ◌≤◌, ◌<◌, ◌≡◌, refl, ◌≢◌, inl, inr, Bool, true, false, Option, none, some, List, [],
  ◌∷◌, arith, ◌==◌, if◌then◌else◌, All, Result, ok, pending,
}

abbrev pub flags_of : Packet → OkPacket
flags_of (s ∷ _) = record {
  status_flags = s;
  affected_rows = 0;
  last_insert_id = none;
  warnings = 0;
}
flags_of [] = record { status_flags = 0; affected_rows = 0; last_insert_id = none; warnings = 0 }

abbrev pub ok_of : OkPacketKind → Packet → Option OkPacket
ok_of kind [] = none
ok_of common_ok (b ∷ bs) = if b == 0 then some (flags_of bs) else none
ok_of result_set_terminator (b ∷ bs) = if b == 254 then some (flags_of bs) else none
ok_of old_eof (b ∷ bs) = if b == 254 then some (flags_of bs) else none

abbrev pub err_of : Packet → Option ErrPacket
err_of [] = none
err_of (b ∷ bs) =
    if b == 255 then some (State.error (record { code = 1064; message = "syntax" })) else none

abbrev pub first_of : Packet → Option ℕ
first_of [] = none
first_of (b ∷ bs) = some b

abbrev pub rest_of : Packet → Option (List ℕ)
rest_of [] = none
rest_of (b ∷ bs) = some bs

abbrev pub common : MySqlCommon Packet
common = record {
  ok_packet = ok_of;
  err_packet = λ _. err_of;
  lenenc_int = first_of;
  column = first_of;
  row = λ _ _ packet. some packet;
  local_infile_packet = rest_of;
  stmt_packet = λ _. some (3, 1, 0);
}

abbrev pub conn_with : TxStatus → Prelude.Result ServerError (Option PendingResult) → Conn
conn_with t p = record {
  id = 1;
  stream = true;
  disconnected = false;
  pool = true;
  status = 0;
  last_ok_packet = none;
  last_err_packet = none;
  pending_result = p;
  tx_status = t;
  reset_upon_returning_to_a_pool = true;
  conn_ttl = none;
  wait_timeout = 50;
  ttl_deadline = none;
  last_io = 90;
  active_since = 90;
}

abbrev pub flags : Bool → Capabilities
flags ssl = record {
  client_protocol_41 = true;
  client_secure_connection = true;
  client_long_password = true;
  client_transactions = true;
  client_local_files = true;
  client_multi_statements = true;
  client_multi_results = true;
  client_ps_multi_results = true;
  client_deprecate_eof = true;
  client_plugin_auth = true;
  client_connect_with_db = false;
  client_ssl = ssl;
  client_compress = false;
  client_found_rows = false;
}

-- The password is `pw`.
abbrev pub auth_opts : Bool → AuthOpts
auth_opts ssl = record {
  user = some (114 ∷ []);
  pass = some (112 ∷ 119 ∷ []);
  db_name = none;
  secure_auth = true;
  enable_cleartext_plugin = false;
  ssl_opts = ssl;
  client_found_rows = false;
  capabilities = flags false;
  compression = none;
  max_allowed_packet = none;
  wait_timeout = none;
  prefer_socket = true;
  init = [];
  connect_attributes = none;
}

abbrev pub auth : Auth
auth = record {
  nonce = 1 ∷ 2 ∷ [];
  auth_plugin = Login.caching_sha2_password;
  auth_switched = false;
  server_key = none;
  capabilities = flags false;
  opts = auth_opts false;
  is_secure = false;
  is_socket = false;
  compression = none;
  max_allowed_packet = 0;
  socket = none;
}

abbrev pub session_over :
    {L : Type 0}
    → L
    → TxStatus
    → Prelude.Result ServerError (Option PendingResult)
    → List Packet
    → Session L
session_over cache t p packets = record {
  conn = conn_with t p;
  incoming = packets;
  sent = [];
  writes_left = 9;
  now = 100;
  deprecate_eof = true;
  handshake_complete = true;
  is_mariadb = false;
  version = (8, 0, 0);
  stmt_cache = record { cap = 0; cache = cache; query_map = [] };
  stmt_cache_size = 0;
  infile_handler = none;
  local_infile_handler = none;
  setup = (83 ∷ []) ∷ [];
  auth = auth;
  cancelled = 0;
}

abbrev pub session :
    TxStatus → Prelude.Result ServerError (Option PendingResult) → List Packet → Session (Unit {0})
session = session_over tt

-- A result set of one column and two rows, and the answer to a command without rows.
abbrev pub two_rows : List Packet
two_rows = (1 ∷ []) ∷ (7 ∷ []) ∷ (1 ∷ 5 ∷ []) ∷ (1 ∷ 6 ∷ []) ∷ (254 ∷ 0 ∷ []) ∷ []

abbrev pub rest_and_ok : List Packet
rest_and_ok = (1 ∷ 6 ∷ []) ∷ (254 ∷ 0 ∷ []) ∷ (0 ∷ 0 ∷ []) ∷ []

pub IsSafe-head : (b : ℕ) (bs : Packet) → b ≢ 0 → IsSafe common (b ∷ bs)
IsSafe-head b bs nz = record { nonempty = refl; columns = inr (λ e. nz (grind (arith, e))) }

pub ok-IsSafe : IsSafe common (0 ∷ 0 ∷ [])
ok-IsSafe = record { nonempty = refl; columns = inl (unfold first in refl) }

pub two_rows-IsSafe : All (IsSafe common) two_rows
two_rows-IsSafe = (
  IsSafe-head 1 _ (ground arith),
  (
    IsSafe-head 7 _ (ground arith),
    (
      IsSafe-head 1 _ (ground arith),
      (IsSafe-head 1 _ (ground arith), (IsSafe-head 254 _ (ground arith), tt)),
    ),
  ),
)

pub rest_and_ok-IsSafe : All (IsSafe common) rest_and_ok
rest_and_ok-IsSafe =
    (IsSafe-head 1 _ (ground arith), (IsSafe-head 254 _ (ground arith), (ok-IsSafe, tt)))

-- A result set that was handed out and abandoned with its transaction.
abbrev pub dirty : Session (Unit {0})
dirty =
    session TxStatus.requires_rollback (Prelude.Result.ok (some (taken (text (7 ∷ [])))))
      rest_and_ok

abbrev pub open_ : Session (Unit {0})
open_ =
    session TxStatus.in_transaction (Prelude.Result.ok (some (pending (text (7 ∷ []))))) rest_and_ok

abbrev pub fresh : Session (Unit {0})
fresh = session TxStatus.none (Prelude.Result.ok none) two_rows

pub dirty-Keeps : Keeps common 3 TxStatus.requires_rollback Anything dirty
dirty-Keeps = record { safe = rest_and_ok-IsSafe; short = omega arith; tx = refl; pended = tt }

pub open-Keeps : Keeps common 3 TxStatus.in_transaction Anything open_
open-Keeps = record { safe = rest_and_ok-IsSafe; short = omega arith; tx = refl; pended = tt }

pub fresh-Keeps : Keeps common 5 TxStatus.none Anything fresh
fresh-Keeps = record { safe = two_rows-IsSafe; short = omega arith; tx = refl; pended = tt }

pub fresh-Idle : Idle common 5 TxStatus.none fresh
fresh-Idle = record { safe = two_rows-IsSafe; short = omega arith; tx = refl; pended = refl }
