-- ===== src/Session/Packets.antt =====
-- src/conn/mod.rs, src/io/read_packet.rs and write_packet.rs: single packets, and `Conn::routine`.
use mysql_async.Conn.State.{Conn, OkPacket, ErrPacket, ServerError, handle_ok, handle_err}
use mysql_async.Conn.Pending.{has_pending_result}
use mysql_async.Session.Outcome.{io, server, Outcome, ok, err, panicked, stuck, ◌>>=◌, return}
use mysql_async.Session.Protocol.{
  Packet, OkPacketKind, common_ok, result_set_terminator, old_eof, MySqlCommon, Command,
}
use mysql_async.Session.State.{Session, M, with_conn, close_stream, set_disconnected}
use mysql_async.Prelude.{
  ℕ, zero, suc, ◌-◌, ◌≤◌, ◌<◌, ◌≡◌, refl, Bool, true, false, ◌&&◌, Option, none, some, List, [],
  ◌∷◌, ◌++◌, arith, ltb, if◌then◌else◌,
}
use mysql_async.Prelude

module _ {L : Type 0} where
  -- An I/O error: the stream is dropped.
  unfoldable pub broken {ℓ} : {A : Type ℓ} → M L A
  broken s = (err io, with_conn (set_disconnected true (close_stream s.conn)) s)

  -- Which kind of OK packet is expected.
  unfoldable pub expected_ok : Session L → OkPacketKind
  expected_ok s =
      if has_pending_result s.conn
      then (if s.deprecate_eof then result_set_terminator else old_eof)
      else common_ok

  -- An ERR packet is an error or a progress report.
  handled_err : Prelude.Result ServerError (Unit {0}) × Conn → M L Bool
  handled_err (Prelude.Result.ok _, c) s = (ok true, with_conn c s)
  handled_err (Prelude.Result.err e, c) s = (err (server e), with_conn c s)

  unfoldable pub handle_maybe_err : Option ErrPacket → M L Bool
  unfolding handled_err
  handle_maybe_err none s = (ok false, s)
  handle_maybe_err (some e) s = handled_err (handle_err e s.conn) s

  unfoldable pub handle_maybe_ok : Option OkPacket → Option ErrPacket → M L Bool
  handle_maybe_ok (some packet) e s = (ok false, with_conn (handle_ok packet s.conn) s)
  handle_maybe_ok none e s = handle_maybe_err e s

  unfoldable pub after_handled :
      Packet → M L Packet → Outcome Bool × Session L → Outcome Packet × Session L
  after_handled packet more (ok true, s) = more s
  after_handled packet more (ok false, s) = (ok packet, s)
  after_handled packet more (err e, s) = (err e, s)
  after_handled packet more (panicked, s) = (panicked, s)
  after_handled packet more (stuck, s) = (stuck, s)

  module _ {R : Type 0} (common : MySqlCommon R) where
    -- `Conn::handle_packet`: `true` for a progress report.
    unfoldable pub handle_packet : Packet → M L Bool
    handle_packet packet s =
        handle_maybe_ok (common.ok_packet (expected_ok s) packet)
          (common.err_packet s.handshake_complete packet) s

    -- The packet taken off the stream.
    abbrev pub received : List Packet → Session L → Session L
    received rest s = record s { incoming = rest; conn = record (s.conn) { last_io = s.now } }

    -- The loop of `read_packet` over what the server sends.
    unfoldable pub read_from : List Packet → M L Packet
    unfolding after_handled
    read_from [] s = broken s
    read_from (packet ∷ rest) s =
        after_handled packet (read_from rest) (handle_packet packet (received rest s))

    -- `Conn::read_packet`.
    unfoldable pub read_packet : M L Packet
    read_packet s = if s.conn.stream then read_from s.incoming s else broken s

    -- `Conn::read_packets`.
    unfoldable pub read_packets : ℕ → M L (List Packet)
    read_packets zero = return []
    read_packets (suc n) =
        read_packet >>= (λ packet. read_packets n >>= (λ packets. return (packet ∷ packets)))

  -- `Conn::write_packet`.
  unfoldable pub write_packet : Command → M L (Unit {0})
  write_packet command s =
      if s.conn.stream && ltb 0 s.writes_left
      then (ok tt, record s { sent = s.sent ++ command ∷ []; writes_left = s.writes_left - 1 })
      else broken s

  -- The end of `Conn::routine`. Closing the stream does not fail here.
  unfoldable pub after_routine {ℓ} : {A : Type ℓ} → Outcome A × Session L → Outcome A × Session L
  after_routine (ok a, s) = (ok a, with_conn (set_disconnected false s.conn) s)
  after_routine (err (server e), s) = (err (server e), with_conn (set_disconnected false s.conn) s)
  after_routine (err e, s) = (err e, with_conn (close_stream s.conn) s)
  after_routine (panicked, s) = (panicked, s)
  after_routine (stuck, s) = (stuck, s)

  -- `Conn::routine`.
  unfoldable pub routine {ℓ} : {A : Type ℓ} → M L A → M L A
  routine f s = after_routine (f (with_conn (set_disconnected true s.conn) s))
