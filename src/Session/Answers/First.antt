-- ===== src/Session/Answers/First.antt =====
-- src/queryable/mod.rs: `query_first` returns the first of the rows that `query` returns.
use mysql_async.Conn.State.{Column, OkPacket, columns, handle_ok}
use mysql_async.Conn.TxStatus.{is_abandoned}
use mysql_async.Conn.Pending.{is_pending, has_pending_result}
use mysql_async.Session.Outcome.{ok, continue, ◌>>=◌, ◌>>◌, return}
use mysql_async.Session.Protocol.{Packet, MySqlCommon, text_protocol}
use mysql_async.Session.State.{Session}
use mysql_async.Session.QueryResult.{
  pended_columns, columns_ref, has_rows, is_empty, by_row, next, drop_rows, drop_loop, drop_result,
}
use mysql_async.Session.Commands.{query, query_first}
use mysql_async.Session.Answers.{
  IsRow, IsEnd, IsColumn, IsHeader, CanRead, at, from, asked, reading,
}
use mysql_async.Session.Answers.Rows.{ended, next-IsRow, next-IsEnd, rows_shorter}
use mysql_async.Session.Answers.Query.{raw_query-IsHeader, drop_result-ended, query-IsRow}
use mysql_async.Prelude
use mysql_async.Prelude.{
  ℕ, zero, suc, ◌≤◌, ◌<◌, ◌≡◌, refl, sym, ap, ◌∙◌, Bool, true, false, Option, none, some, List, [],
  ◌∷◌, ◌++◌, map, arith, if◌then◌else◌, length, All,
}

-- The first row, if any.
abbrev pub first_row : {A : Type 0} → List A → Option A
first_row [] = none
first_row (a ∷ as_) = some a

module _ {L : Type 0} {R : Type 0} (common : MySqlCommon R) (s : Session L) where
  drop_rows-IsRow :
      (c : Column) (cs : List Column) (rows : List (Packet × R)) (o : OkPacket) (end_ : Packet)
      (rest : List Packet) (fuel : ℕ)
      → CanRead s
      → All (IsRow common s.deprecate_eof (c ∷ cs)) rows
      → IsEnd common s.deprecate_eof o end_
      → length rows < fuel
      → drop_rows common text_protocol fuel
          (at s (reading (c ∷ cs)) (map (λ row. row.0) rows ++ end_ ∷ rest))
        ≡ (ok tt, ended s o rest)
  unfolding drop_rows
  drop_rows-IsRow c cs rows o end_ rest zero can is e lt = absurd (omega (arith, lt))
  drop_rows-IsRow c cs [] o end_ rest (suc fuel) can is e lt =
      ap (continue (by_row (λ _. drop_rows common text_protocol fuel) (return tt)))
        (next-IsEnd s c cs o end_ rest can e)
  drop_rows-IsRow c cs (row ∷ rows) o end_ rest (suc fuel) can is e lt =
      ap (continue (by_row (λ _. drop_rows common text_protocol fuel) (return tt)))
        (next-IsRow s c cs row (map (λ row'. row'.0) rows ++ end_ ∷ rest) can is.0)
      ∙ drop_rows-IsRow c cs rows o end_ rest fuel can is.1 e (omega (arith, lt))

  -- The rows that were not read are dropped.
  drop_result-IsRow :
      (c : Column) (cs : List Column) (rows : List (Packet × R)) (o : OkPacket) (end_ : Packet)
      (rest : List Packet)
      → CanRead s
      → All (IsRow common s.deprecate_eof (c ∷ cs)) rows
      → IsEnd common s.deprecate_eof o end_
      → drop_result common text_protocol
          (at s (reading (c ∷ cs)) (map (λ row. row.0) rows ++ end_ ∷ rest))
        ≡ (ok tt, ended s o rest)
  unfolding drop_result drop_loop has_pending_result is_pending handle_ok
  drop_result-IsRow c cs rows o end_ rest can is e =
      ap
        (continue (λ _ t.
          (if has_pending_result t.conn
              then drop_loop common text_protocol (length (map (λ row. row.0) rows ++ end_ ∷ rest))
              else return tt)
            t))
        (drop_rows-IsRow c cs rows o end_ rest _ can is e (rows_shorter rows (end_ ∷ rest)))

  -- `next`, and the rest dropped.
  next-drop_result :
      (c : Column) (cs : List Column) (rows : List (Packet × R)) (o : OkPacket) (end_ : Packet)
      (rest : List Packet)
      → CanRead s
      → All (IsRow common s.deprecate_eof (c ∷ cs)) rows
      → IsEnd common s.deprecate_eof o end_
      → continue
          (λ output. drop_result common text_protocol >> return output)
          (next common text_protocol
            (at s (reading (c ∷ cs)) (map (λ row. row.0) rows ++ end_ ∷ rest)))
        ≡ (ok (first_row (map (λ row. row.1) rows)), ended s o rest)
  next-drop_result c cs [] o end_ rest can is e =
      ap (continue (λ output. drop_result common text_protocol >> return output))
        (next-IsEnd s c cs o end_ rest can e)
      ∙ ap (continue (λ _. return none)) (drop_result-ended common s o rest)
  next-drop_result c cs (row ∷ rows) o end_ rest can is e =
      ap (continue (λ output. drop_result common text_protocol >> return output))
        (next-IsRow s c cs row (map (λ row'. row'.0) rows ++ end_ ∷ rest) can is.0)
      ∙ ap (continue (λ _. return (some row.1)))
          (drop_result-IsRow c cs rows o end_ rest can is.1 e)

module _ {L : Type 0} {R : Type 0} (common : MySqlCommon R) where
  -- On a connection that can read and write, past its handshake, with `CLIENT_DEPRECATE_EOF`,
  -- nothing pending and no abandoned transaction, where the server answers a query with one result
  -- set of at least one column (as for `query-IsRow`): `query_first` returns the first of the rows
  -- that `query` returns, or none, and leaves the very session that `query` leaves.
  pub query_first-query :
      (s : Session L) (q : List ℕ) (header : Packet) (c : Packet × Column)
      (cols : List (Packet × Column)) (rows : List (Packet × R)) (o : OkPacket) (end_ : Packet)
      (rest : List Packet)
      → CanRead s
      → s.deprecate_eof ≡ true
      → is_abandoned s.conn.tx_status ≡ false
      → 0 < s.writes_left
      → IsHeader common (length (c ∷ cols)) header
      → All (IsColumn common) (c ∷ cols)
      → All (IsRow common s.deprecate_eof (map (λ c'. c'.1) (c ∷ cols))) rows
      → IsEnd common s.deprecate_eof o end_
      → let start =
          from s
            (Prelude.Result.ok none)
            (header ∷ map (λ c'. c'.0) (c ∷ cols) ++ (map (λ row. row.0) rows ++ end_ ∷ rest)) in
        query_first common q start
        ≡ continue (λ output t. (ok (first_row output), t)) (query common q start)
  unfolding query_first is_empty has_rows columns_ref pended_columns columns
  query_first-query s q header c cols rows o end_ rest can eof calm writes h is rs e =
      ap
        (continue (λ _.
          (λ t. if is_empty t then (ok none, t) else next common text_protocol t)
          >>= (λ output. drop_result common text_protocol >> return output)))
        (raw_query-IsHeader common s q header c cols _ can eof calm writes h is)
      ∙ next-drop_result common (asked false q s) c.1 (map (λ c'. c'.1) cols) rows o end_ rest
          (record { open_ = can.open_; past_handshake = can.past_handshake }) rs e
      ∙ sym (
          ap (continue (λ output t. (ok (first_row output), t)))
            (query-IsRow common s q header c cols rows o end_ rest can eof calm writes h is rs e))
