-- ===== src/Session/Answers/Query.antt =====
-- src/queryable/mod.rs: a query returns the rows of the server's answer.
use mysql_async.Conn.State.{Column, OkPacket, text, handle_ok}
use mysql_async.Conn.TxStatus.{is_abandoned}
use mysql_async.Conn.Pending
use mysql_async.Conn.Pending.{
  Pended, pend, is_pending, has_pending_result, use_pending_result, set_pending_result,
}
use mysql_async.Session.Outcome.{parse, Outcome, ok, continue, ◌>>=◌, ◌>>◌, return, required}
use mysql_async.Session.Protocol.{Packet, MySqlCommon, text_protocol, com_query}
use mysql_async.Session.State.{Session, M, set_disconnected}
use mysql_async.Session.Packets.{read_packets, write_packet, after_routine, routine}
use mysql_async.Session.ResultSets.{
  result_set_meta, first, cons_column, parse_columns, debug_assert, replaced, set_pending,
  after_columns, read_column_defs, handle_result_set, dispatch_on, dispatch, after_first_packet,
  read_result_set,
}
use mysql_async.Session.QueryResult.{
  used, use_pending, next_by, next_loop, next, drop_rows, drop_loop, drop_result, collect_and_drop,
}
use mysql_async.Session.Commands.{
  untaken, replaced_meta, take_meta, drop_pending, drop_conn_result, write_after, raw_query_after,
  raw_query, clean_dirty_at, clean_dirty_after, clean_dirty, query,
}
use mysql_async.Session.Answers.{
  IsRow, IsEnd, IsColumn, IsHeader, CanRead, at, from, asked, reading,
}
use mysql_async.Session.Answers.Rows.{ended, read_packet-from, read_packet-IsData, collect-IsRow}
use mysql_async.Prelude
use mysql_async.Prelude.{
  ℕ, zero, suc, ◌≤◌, ◌<◌, ◌≡◌, refl, ap, ◌∙◌, ◌≢◌, inl, inr, Bool, true, false, ◌&&◌, Option, none,
  some, List, [], ◌∷◌, ◌++◌, map, arith, ltb, ◌==◌, lt→ltb, ==_iff, Bool-cases, length, All,
  if_true, if_false,
}

-- What follows the packets of the columns.
abbrev defs_of : {L R : Type 0} → MySqlCommon R → List Packet → M L (List Column)
defs_of common packets =
    required parse (parse_columns common packets) >>= (λ defs. after_columns common >> return defs)

differs : (b n : ℕ) → some b ≢ some n → (b == n) ≡ false
differs b n h = elim (Bool-cases (b == n)) [
  | inl e ↦ absurd (h (ap some ((==_iff b n).0 e)))
  | inr e ↦ e
]

-- Any other first byte starts a result set.
dispatch_on-handle_result_set :
    {L R : Type 0} (common : MySqlCommon R) (packet : Packet) (o : Option ℕ)
    → o ≢ some 0
    → o ≢ some 251
    → dispatch_on {L = L} common text_protocol packet o
      ≡ handle_result_set common text_protocol packet
unfolding dispatch_on
dispatch_on-handle_result_set common packet none h0 h1 = refl
dispatch_on-handle_result_set common packet (some b) h0 h1 =
    if_false _ _ (differs b 0 h0) ∙ if_false _ _ (differs b 251 h1)

module _ {L : Type 0} {R : Type 0} (common : MySqlCommon R) (s : Session L) where
  read_packets-IsColumn :
      (cols : List (Packet × Column)) (rest : List Packet)
      → CanRead s
      → All (IsColumn common) cols
      → read_packets common
          (length cols)
          (at s (Prelude.Result.ok none) (map (λ c. c.0) cols ++ rest))
        ≡ (ok (map (λ c. c.0) cols), at s (Prelude.Result.ok none) rest)
  unfolding read_packets is_pending
  read_packets-IsColumn [] rest can is = refl
  read_packets-IsColumn (c ∷ cols) rest can is =
      ap
        (continue
          (λ packet. read_packets common (length cols) >>= (λ packets. return (packet ∷ packets))))
        (read_packet-IsData s (Prelude.Result.ok none) c.0 (map (λ c'. c'.0) cols ++ rest) can
          is.0.is_data)
      ∙ ap (continue (λ packets. return (c.0 ∷ packets))) (read_packets-IsColumn cols rest can is.1)

  -- What `clean_dirty` does where there is nothing to clean.
  clean_dirty-from :
      (packets : List Packet)
      → is_abandoned s.conn.tx_status ≡ false
      → clean_dirty common (from s (Prelude.Result.ok none) packets)
        ≡ (ok tt, from s (Prelude.Result.ok none) packets)
  unfolding clean_dirty clean_dirty_at clean_dirty_after drop_conn_result take_meta replaced_meta
      untaken set_pending_result pend use_pending use_pending_result Pending.use_pending used
      drop_pending
  clean_dirty-from packets calm = if_false _ _ calm

  parse_columns-IsColumn :
      (cols : List (Packet × Column))
      → All (IsColumn common) cols
      → parse_columns common (map (λ c. c.0) cols) ≡ some (map (λ c. c.1) cols)
  unfolding parse_columns cons_column
  parse_columns-IsColumn [] is = refl
  parse_columns-IsColumn (c ∷ cols) is =
      ap (λ o. cons_column o (parse_columns common (map (λ c'. c'.0) cols))) is.0.parsed
      ∙ ap (cons_column (some c.1)) (parse_columns-IsColumn cols is.1)

  -- The definitions of the columns, without the packet that ends them.
  read_column_defs-IsColumn :
      (c : Packet × Column) (cols : List (Packet × Column)) (rest : List Packet)
      → CanRead s
      → s.deprecate_eof ≡ true
      → All (IsColumn common) (c ∷ cols)
      → read_column_defs common
          (length (c ∷ cols))
          (at s (Prelude.Result.ok none) (map (λ c'. c'.0) (c ∷ cols) ++ rest))
        ≡ (ok (map (λ c'. c'.1) (c ∷ cols)), at s (Prelude.Result.ok none) rest)
  unfolding read_column_defs after_columns
  read_column_defs-IsColumn c cols rest can eof is =
      ap
        (λ b.
          continue (λ _. read_packets common (length (c ∷ cols)) >>= defs_of common)
            (debug_assert b (at s (Prelude.Result.ok none) (map (λ c'. c'.0) (c ∷ cols) ++ rest))))
        (lt→ltb _ _ (omega arith))
      ∙ ap (continue (defs_of common)) (read_packets-IsColumn (c ∷ cols) rest can is)
      ∙ ap
          (λ o.
            continue (λ defs. after_columns common >> return defs)
              (required parse o (at s (Prelude.Result.ok none) rest)))
          (parse_columns-IsColumn (c ∷ cols) is)
      ∙ ap {A = Outcome (Unit {0}) × Session L}
          (continue (λ _. return (map (λ c'. c'.1) (c ∷ cols)))) (if_true _ _ eof)

  -- The start of a result set.
  read_result_set-IsHeader :
      (header : Packet) (c : Packet × Column) (cols : List (Packet × Column)) (rest : List Packet)
      → CanRead s
      → s.deprecate_eof ≡ true
      → IsHeader common (length (c ∷ cols)) header
      → All (IsColumn common) (c ∷ cols)
      → read_result_set common text_protocol true
          (from s (Prelude.Result.ok none) (header ∷ map (λ c'. c'.0) (c ∷ cols) ++ rest))
        ≡ (ok tt, at s (reading (map (λ c'. c'.1) (c ∷ cols))) rest)
  unfolding read_result_set after_first_packet dispatch handle_result_set set_pending replaced
      set_pending_result pend result_set_meta is_pending
  read_result_set-IsHeader header c cols rest can eof h is =
      ap (after_first_packet common text_protocol true)
        (read_packet-from s (Prelude.Result.ok none) header _ can h.is_data)
      ∙ ap (λ f. f (at s (Prelude.Result.ok none) (map (λ c'. c'.0) (c ∷ cols) ++ rest)))
          (dispatch_on-handle_result_set common header (first header) h.not_ok h.not_infile)
      ∙ ap
          (λ o.
            continue
              (λ n. read_column_defs common n >>= (λ columns'. set_pending (some (text columns'))))
              (required parse o
                (at s (Prelude.Result.ok none) (map (λ c'. c'.0) (c ∷ cols) ++ rest))))
          h.parsed
      ∙ ap (continue (λ columns'. set_pending (some (text columns'))))
          (read_column_defs-IsColumn c cols rest can eof is)

module _ {L : Type 0} {R : Type 0} (common : MySqlCommon R) (s : Session L) where
  pub raw_query-IsHeader :
      (q : List ℕ) (header : Packet) (c : Packet × Column) (cols : List (Packet × Column))
      (rest : List Packet)
      → CanRead s
      → s.deprecate_eof ≡ true
      → is_abandoned s.conn.tx_status ≡ false
      → 0 < s.writes_left
      → IsHeader common (length (c ∷ cols)) header
      → All (IsColumn common) (c ∷ cols)
      → raw_query common q
          (from s (Prelude.Result.ok none) (header ∷ map (λ c'. c'.0) (c ∷ cols) ++ rest))
        ≡ (ok tt, at (asked false q s) (reading (map (λ c'. c'.1) (c ∷ cols))) rest)
  unfolding raw_query raw_query_after write_after routine after_routine write_packet
  raw_query-IsHeader q header c cols rest can eof calm writes h is =
      ap {A = Outcome (Unit {0}) × Session L}
        (λ r. after_routine (
          continue (λ _. read_result_set common text_protocol true)
            (continue (λ _. write_packet (com_query q)) r)))
        (clean_dirty-from common (record s { conn = set_disconnected true s.conn })
          (header ∷ map (λ c'. c'.0) (c ∷ cols) ++ rest) calm)
      ∙ ap {A = Outcome (Unit {0}) × Session L}
          (λ r. after_routine (continue (λ _. read_result_set common text_protocol true) r))
          (if_true _ _
            (ap (λ b. b && ltb 0 s.writes_left) can.open_ ∙ lt→ltb 0 s.writes_left writes))
      ∙ ap after_routine (
          read_result_set-IsHeader common (asked true q s) header c cols rest
            (record { open_ = can.open_; past_handshake = can.past_handshake }) eof h is)

  -- Nothing is left to drop.
  pub drop_result-ended :
      (o : OkPacket) (rest : List Packet)
      → drop_result common text_protocol (ended s o rest) ≡ (ok tt, ended s o rest)
  unfolding drop_result drop_loop drop_rows next next_loop use_pending use_pending_result
      Pending.use_pending used next_by has_pending_result is_pending handle_ok
  drop_result-ended o rest = refl

  collect_and_drop-IsRow :
      (c : Column) (cs : List Column) (rows : List (Packet × R)) (o : OkPacket) (end_ : Packet)
      (rest : List Packet)
      → CanRead s
      → All (IsRow common s.deprecate_eof (c ∷ cs)) rows
      → IsEnd common s.deprecate_eof o end_
      → collect_and_drop common text_protocol
          (at s (reading (c ∷ cs)) (map (λ row. row.0) rows ++ end_ ∷ rest))
        ≡ (ok (map (λ row. row.1) rows), ended s o rest)
  unfolding collect_and_drop
  collect_and_drop-IsRow c cs rows o end_ rest can is e =
      ap (continue (λ output. drop_result common text_protocol >> return output))
        (collect-IsRow s c cs rows o end_ rest can is e)
      ∙ ap (continue (λ _. return (map (λ row. row.1) rows))) (drop_result-ended o rest)

module _ {L : Type 0} {R : Type 0} (common : MySqlCommon R) where
  -- On a connection that can read and write, past its handshake, with `CLIENT_DEPRECATE_EOF`,
  -- nothing pending and no abandoned transaction, where the server answers a query with a header
  -- that counts at least one column, the definitions of the columns, any number of row packets and
  -- an end after which no result set follows: `query` returns exactly the rows that these packets
  -- parse to, in their order, and leaves nothing pending, the packets after the answer unread and
  -- just the one command sent.
  pub query-IsRow :
      (s : Session L) (q : List ℕ) (header : Packet) (c : Packet × Column)
      (cols : List (Packet × Column)) (rows : List (Packet × R)) (o : OkPacket) (end_ : Packet)
      (rest : List Packet)
      → CanRead s
      → s.deprecate_eof ≡ true
      → is_abandoned s.conn.tx_status ≡ false
      → 0 < s.writes_left
      → IsHeader common (length (c ∷ cols)) header
      → All (IsColumn common) (c ∷ cols)
      → All (IsRow common s.deprecate_eof (map (λ c'. c'.1) (c ∷ cols))) rows
      → IsEnd common s.deprecate_eof o end_
      → query common q (
          from s
            (Prelude.Result.ok none)
            (header ∷ map (λ c'. c'.0) (c ∷ cols) ++ (map (λ row. row.0) rows ++ end_ ∷ rest)))
        ≡ (ok (map (λ row. row.1) rows), ended (asked false q s) o rest)
  unfolding query
  query-IsRow s q header c cols rows o end_ rest can eof calm writes h is rs e =
      ap (continue (λ _. collect_and_drop common text_protocol))
        (raw_query-IsHeader common s q header c cols _ can eof calm writes h is)
      ∙ collect_and_drop-IsRow common (asked false q s) c.1 (map (λ c'. c'.1) cols) rows o end_ rest
          (record { open_ = can.open_; past_handshake = can.past_handshake }) rs e
