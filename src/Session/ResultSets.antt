-- ===== src/Session/ResultSets.antt =====
-- src/conn/routines/helpers.rs and src/queryable/stmt.rs: the start of a result set.
use mysql_async.Conn.State.{Conn, Column, ResultSetMeta, text, binary, ServerError}
use mysql_async.Conn.Pending.{Pended, set_pending_result, set_pending_result_error}
use mysql_async.Session.Outcome.{
  parse, server, local_infile, no_handler, read_failed, Outcome, ok, err, panicked, stuck, ◌>>=◌,
  ◌>>◌, return, throw, lift, required,
}
use mysql_async.Session.Protocol.{
  Packet, MySqlCommon, Protocol, text_protocol, binary_protocol, bytes,
}
use mysql_async.Session.State.{Session, M, InfileData, InfileHandler, with_conn}
use mysql_async.Session.Packets.{read_packet, read_packets, write_packet}
use mysql_async.Prelude
use mysql_async.Prelude.{
  ℕ, zero, suc, ◌≤◌, ◌<◌, ◌≡◌, refl, Bool, true, false, Option, none, some, List, [], ◌∷◌, arith,
  ltb, ◌==◌, if◌then◌else◌,
}

-- `Protocol::result_set_meta`.
unfoldable pub result_set_meta : Protocol → List Column → ResultSetMeta
result_set_meta text_protocol cols = text cols
result_set_meta binary_protocol cols = binary cols

-- `packet.first()`.
unfoldable pub first : Packet → Option ℕ
first [] = none
first (b ∷ bs) = some b

-- The column definitions, unless one does not parse.
unfoldable pub cons_column : Option Column → Option (List Column) → Option (List Column)
cons_column (some c) (some cs) = some (c ∷ cs)
cons_column none cs = none
cons_column (some c) none = none

unfoldable pub parse_columns : {R : Type 0} → MySqlCommon R → List Packet → Option (List Column)
parse_columns common [] = some []
parse_columns common (p ∷ ps) = cons_column (common.column p) (parse_columns common ps)

module _ {L : Type 0} where
  abbrev pub debug_assert : Bool → M L (Unit {0})
  debug_assert true s = (ok tt, s)
  debug_assert false s = (panicked, s)

  -- The `?` on the value that was replaced.
  unfoldable pub replaced : Pended × Conn → M L (Unit {0})
  replaced (Prelude.Result.ok _, c) s = (ok tt, with_conn c s)
  replaced (Prelude.Result.err e, c) s = (err (server e), with_conn c s)

  unfoldable pub set_pending : Option ResultSetMeta → M L (Unit {0})
  unfolding replaced
  set_pending meta s = replaced (set_pending_result meta s.conn) s

  unfoldable pub set_pending_error : ServerError → M L (Unit {0})
  unfolding replaced
  set_pending_error e s = replaced (set_pending_result_error e s.conn) s

  -- The handler of a local infile: the connection's own one, which is used once, or that of the options.
  unfoldable pub infile_from :
      Option InfileData → Option InfileHandler → List ℕ → M L (List (Option (List ℕ)))
  infile_from (some own) global file s = lift own (record s { infile_handler = none })
  infile_from none (some global) file s = lift (global file) s
  infile_from none none file s = (err (local_infile no_handler), s)

  unfoldable pub take_infile : List ℕ → M L (List (Option (List ℕ)))
  unfolding infile_from
  take_infile file s = infile_from s.infile_handler s.local_infile_handler file s

  -- The chunks up to the first error, without the empty ones. Whether there was an error.
  unfoldable pub send_chunks : List (Option (List ℕ)) → M L Bool
  send_chunks [] = return true
  send_chunks (none ∷ chunks) = return false
  send_chunks (some [] ∷ chunks) = send_chunks chunks
  send_chunks (some (b ∷ bs) ∷ chunks) = write_packet (bytes (b ∷ bs)) >> send_chunks chunks

  module _ {R : Type 0} (common : MySqlCommon R) where
    unfoldable pub after_columns : M L (Unit {0})
    after_columns s =
        if s.deprecate_eof then (ok tt, s) else (read_packet common >>= (λ _. return tt)) s

    -- `Conn::read_column_defs`.
    unfoldable pub read_column_defs : ℕ → M L (List Column)
    unfolding after_columns
    read_column_defs num =
        debug_assert (ltb 0 num)
        >> (read_packets common num >>= (λ packets.
            required parse (parse_columns common packets)
            >>= (λ defs. after_columns >> return defs)))

    -- `Conn::handle_result_set`.
    unfoldable pub handle_result_set : Protocol → Packet → M L (Unit {0})
    handle_result_set protocol packet =
        required parse (common.lenenc_int packet) >>= (λ column_count.
          read_column_defs column_count
          >>= (λ columns. set_pending (some (result_set_meta protocol columns))))

    -- `Conn::handle_local_infile`.
    unfoldable pub handle_local_infile : Protocol → Packet → M L (Unit {0})
    handle_local_infile protocol packet =
        required parse (common.local_infile_packet packet) >>= (λ file.
          take_infile file >>= (λ chunks. send_chunks chunks >>= (λ complete.
            write_packet (bytes [])
            >> (read_packet common >>= (λ _.
                set_pending (some (result_set_meta protocol []))
                >> (if complete then return tt else throw (local_infile read_failed)))))))

    -- The arms of `read_result_set` by the first byte.
    unfoldable pub dispatch_on : Protocol → Packet → Option ℕ → M L (Unit {0})
    dispatch_on protocol packet none = handle_result_set protocol packet
    dispatch_on protocol packet (some b) =
        if b == 0
        then set_pending (some (result_set_meta protocol []))
        else if b == 251
        then handle_local_infile protocol packet
        else handle_result_set protocol packet

    unfoldable pub dispatch : Protocol → Packet → M L (Unit {0})
    dispatch protocol packet = dispatch_on protocol packet (first packet)

    unfoldable pub after_first_packet :
        Protocol → Bool → Outcome Packet × Session L → Outcome (Unit {0}) × Session L
    after_first_packet protocol is_first (ok packet, s) = dispatch protocol packet s
    after_first_packet protocol true (err (server e), s) = (err (server e), s)
    after_first_packet protocol false (err (server e), s) = set_pending_error e s
    after_first_packet protocol is_first (err e, s) = (err e, s)
    after_first_packet protocol is_first (panicked, s) = (panicked, s)
    after_first_packet protocol is_first (stuck, s) = (stuck, s)

    -- `Conn::read_result_set`.
    unfoldable pub read_result_set : Protocol → Bool → M L (Unit {0})
    read_result_set protocol is_first_result_set s =
        after_first_packet protocol is_first_result_set (read_packet common s)
