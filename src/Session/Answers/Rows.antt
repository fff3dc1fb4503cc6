-- ===== src/Session/Answers/Rows.antt =====
-- src/queryable/query_result/mod.rs: the rows of a result set are read back.
use mysql_async.Conn.State.{Column, OkPacket, columns, handle_ok}
use mysql_async.Conn.Pending
use mysql_async.Conn.Pending.{
  Pended, pend, is_pending, has_pending_result, use_pending_result, set_pending_result,
}
use mysql_async.Session.Outcome.{parse, Outcome, ok, continue, ◌>>=◌, return, required}
use mysql_async.Session.Protocol.{Packet, common_ok, MySqlCommon, text_protocol}
use mysql_async.Session.State.{Session, with_conn}
use mysql_async.Session.Packets.{
  expected_ok, handle_maybe_err, handle_maybe_ok, handle_packet, after_handled, read_from,
  read_packet,
}
use mysql_async.Session.ResultSets.{replaced, set_pending}
use mysql_async.Session.QueryResult.{
  more_results_exists, used, use_pending, row_or_end, row_packet, after_row_packet, next_row,
  read_next_set, next_set, by_row, next_by, next_row_or_next_set, next_loop, next, reduce_loop,
  reduce, collect,
}
use mysql_async.Session.Answers.{end_kind, IsData, IsRow, IsEnd, CanRead, at, from, reading}
use mathlib.Core.List.{append-nil, append_assoc}
use mysql_async.Prelude
use mysql_async.Prelude.{
  ℕ, zero, suc, ◌≤◌, ◌<◌, ◌≡◌, refl, sym, ap, ◌∙◌, Bool, true, false, Option, none, some, List, [],
  ◌∷◌, ◌++◌, map, arith, if◌then◌else◌, length, All, if_true, if_false,
}

-- The rows are no more than their packets and what follows.
pub rows_shorter :
    {R : Type 0}
    → (rows : List (Packet × R)) (rest : List Packet)
    → length rows < suc (length (map (λ row. row.0) rows ++ rest))
rows_shorter [] rest = omega arith
rows_shorter (row ∷ rows) rest = omega (arith, rows_shorter rows rest)

-- The end of the rows, after which nothing follows.
abbrev pub ended : {L : Type 0} → Session L → OkPacket → List Packet → Session L
ended s o rest =
    with_conn
      (record (handle_ok o (at s (Prelude.Result.ok none) rest).conn) {
        pending_result = Prelude.Result.ok none;
      })
      (at s (Prelude.Result.ok none) rest)

module _ {L : Type 0} {R : Type 0} (common : MySqlCommon R) (s : Session L) where
  -- An OK packet is read, and its flags are kept.
  pub read_packet-OkPacket :
      (q : Pended) (o : OkPacket) (p : Packet) (rest : List Packet)
      → CanRead s
      → common.ok_packet (if is_pending q then end_kind s.deprecate_eof else common_ok) p ≡ some o
      → read_packet common (at s q (p ∷ rest))
        ≡ (ok p, with_conn (handle_ok o (at s q rest).conn) (at s q rest))
  unfolding read_packet read_from handle_packet expected_ok has_pending_result handle_maybe_ok
      handle_ok after_handled
  read_packet-OkPacket q o p rest c d =
      if_true _ _ c.open_
      ∙ ap (after_handled p (read_from common rest))
          (ap (λ o'. handle_maybe_ok o' (common.err_packet s.handshake_complete p) (at s q rest)) d)

module _ {L : Type 0} {R : Type 0} {common : MySqlCommon R} (s : Session L) where
  pub read_packet-from :
      (q : Pended) (p : Packet) (rest : List Packet)
      → CanRead s
      → IsData common (if is_pending q then end_kind s.deprecate_eof else common_ok) p
      → read_packet common (from s q (p ∷ rest)) ≡ (ok p, at s q rest)
  unfolding read_packet read_from handle_packet expected_ok has_pending_result handle_maybe_ok
      handle_maybe_err after_handled
  read_packet-from q p rest c d =
      if_true _ _ c.open_ ∙ ap (after_handled p (read_from common rest)) handled
    where
      handled : handle_packet common p (at s q rest) ≡ (ok false, at s q rest)
      handled =
          ap (λ o. handle_maybe_ok o (common.err_packet s.handshake_complete p) (at s q rest))
            d.not_ok
          ∙ ap (λ e. handle_maybe_err e (at s q rest))
              (ap (λ b. common.err_packet b p) c.past_handshake ∙ d.not_err)

module _ {L : Type 0} {R : Type 0} {common : MySqlCommon R} (s : Session L) where
  pub read_packet-IsData :
      (q : Pended) (p : Packet) (rest : List Packet)
      → CanRead s
      → IsData common (if is_pending q then end_kind s.deprecate_eof else common_ok) p
      → read_packet common (at s q (p ∷ rest)) ≡ (ok p, at s q rest)
  read_packet-IsData q p rest c d =
      read_packet-from (record s { conn = record (s.conn) { last_io = s.now } }) q p rest
        (record { open_ = c.open_; past_handshake = c.past_handshake }) d

  -- A row.
  pub next-IsRow :
      (c : Column) (cs : List Column) (row : Packet × R) (rest : List Packet)
      → CanRead s
      → IsRow common s.deprecate_eof (c ∷ cs) row
      → next common text_protocol (at s (reading (c ∷ cs)) (row.0 ∷ rest))
        ≡ (ok (some row.1), at s (reading (c ∷ cs)) rest)
  unfolding next next_loop use_pending use_pending_result Pending.use_pending used next_by
      next_row_or_next_set next_row columns is_pending after_row_packet row_packet row_or_end
  next-IsRow c cs row rest can r =
      ap
        (continue
          (by_row (λ r'. return (some r')) (next_set common text_protocol >>= (λ _. return none))))
        (ap (after_row_packet common text_protocol (c ∷ cs))
            (read_packet-IsData (reading (c ∷ cs)) row.0 rest can r.is_data)
          ∙ ap
              (λ b. row_or_end common text_protocol (c ∷ cs) row.0 b (at s (reading (c ∷ cs)) rest))
              r.not_last
          ∙ ap (λ o. (required parse o >>= (λ r'. return (some r'))) (at s (reading (c ∷ cs)) rest))
              r.parsed)

  pub next-IsEnd :
      (c : Column) (cs : List Column) (o : OkPacket) (p : Packet) (rest : List Packet)
      → CanRead s
      → IsEnd common s.deprecate_eof o p
      → next common text_protocol (at s (reading (c ∷ cs)) (p ∷ rest)) ≡ (ok none, ended s o rest)
  unfolding next next_loop use_pending use_pending_result Pending.use_pending used next_by
      next_row_or_next_set next_row columns is_pending after_row_packet row_packet row_or_end
      set_pending has_pending_result replaced set_pending_result pend next_set read_next_set
      more_results_exists handle_ok
  next-IsEnd c cs o p rest can e =
      ap
        (continue
          (by_row (λ r'. return (some r')) (next_set common text_protocol >>= (λ _. return none))))
        (ap (after_row_packet common text_protocol (c ∷ cs))
            (read_packet-OkPacket common s (reading (c ∷ cs)) o p rest can e.parsed)
          ∙ ap
              (λ b. row_or_end common text_protocol (c ∷ cs) p b (
                with_conn (handle_ok o (at s (reading (c ∷ cs)) rest).conn)
                  (at s (reading (c ∷ cs)) rest)))
              e.last)
      ∙ ap {A = Outcome (Unit {0}) × Session L}
          (λ r.
            continue (λ _. return none) (continue (λ _ t. (ok (has_pending_result t.conn), t)) r))
          (if_false _ _ e.no_more)

  -- The rows are read in their order.
  reduce_loop-IsRow :
      (c : Column) (cs : List Column) (rows : List (Packet × R)) (o : OkPacket) (end_ : Packet)
      (rest : List Packet) (fuel : ℕ) (acc : List R)
      → CanRead s
      → All (IsRow common s.deprecate_eof (c ∷ cs)) rows
      → IsEnd common s.deprecate_eof o end_
      → length rows < fuel
      → reduce_loop common text_protocol
          (λ acc' row. acc' ++ row ∷ [])
          fuel
          acc
          (at s (reading (c ∷ cs)) (map (λ row. row.0) rows ++ end_ ∷ rest))
        ≡ (ok (acc ++ map (λ row. row.1) rows), ended s o rest)
  unfolding reduce_loop
  reduce_loop-IsRow c cs rows o end_ rest zero acc can is e lt = absurd (omega (arith, lt))
  reduce_loop-IsRow c cs [] o end_ rest (suc fuel) acc can is e lt =
      ap
        (continue (
          by_row
            (λ r.
              reduce_loop common text_protocol (λ acc' row. acc' ++ row ∷ []) fuel (acc ++ r ∷ []))
            (return acc)))
        (next-IsEnd c cs o end_ rest can e)
      ∙ ap (λ a. (ok a, ended s o rest)) (sym (append-nil acc))
  reduce_loop-IsRow c cs (row ∷ rows) o end_ rest (suc fuel) acc can is e lt =
      ap
        (continue (
          by_row
            (λ r.
              reduce_loop common text_protocol (λ acc' row'. acc' ++ row' ∷ []) fuel
                (acc ++ r ∷ []))
            (return acc)))
        (next-IsRow c cs row (map (λ row'. row'.0) rows ++ end_ ∷ rest) can is.0)
      ∙ reduce_loop-IsRow c cs rows o end_ rest fuel (acc ++ row.1 ∷ []) can is.1 e
          (omega (arith, lt))
      ∙ ap (λ a. (ok a, ended s o rest)) (append_assoc acc (row.1 ∷ []) (map (λ row'. row'.1) rows))

  pub collect-IsRow :
      (c : Column) (cs : List Column) (rows : List (Packet × R)) (o : OkPacket) (end_ : Packet)
      (rest : List Packet)
      → CanRead s
      → All (IsRow common s.deprecate_eof (c ∷ cs)) rows
      → IsEnd common s.deprecate_eof o end_
      → collect common text_protocol
          (at s (reading (c ∷ cs)) (map (λ row. row.0) rows ++ end_ ∷ rest))
        ≡ (ok (map (λ row. row.1) rows), ended s o rest)
  unfolding collect reduce
  collect-IsRow c cs rows o end_ rest can is e =
      reduce_loop-IsRow c cs rows o end_ rest _ [] can is e (rows_shorter rows (end_ ∷ rest))
