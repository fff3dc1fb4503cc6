-- ===== src/Session/QueryResult.antt =====
-- src/queryable/query_result/mod.rs and the `Protocol` of src/queryable/mod.rs: reading the result
-- sets of a query. Each round of a loop here takes a packet, so the packets that are to come are the
-- fuel of the loops.
use mysql_async.Conn.State.{Conn, Column, ResultSetMeta, columns, PendingResult, pending, taken}
use mysql_async.Conn.Pending.{Pended, has_pending_result, use_pending_result}
use mysql_async.Session.Outcome.{
  parse, server, Outcome, ok, err, panicked, stuck, ◌>>=◌, ◌>>◌, return, throw, required,
}
use mysql_async.Session.Protocol.{
  Packet, MySqlCommon, Protocol, max_payload_len, server_more_results_exists,
}
use mysql_async.Session.State.{Session, M, with_conn}
use mysql_async.Session.Packets.{read_packet, routine}
use mysql_async.Session.ResultSets.{set_pending, read_result_set}
use mysql_async.Prelude
use mysql_async.Prelude.{
  ℕ, zero, suc, ◌/◌, ◌%◌, ◌≤◌, ◌<◌, ◌≡◌, refl, Bool, true, false, not, ◌&&◌, Option, none, some,
  List, [], ◌∷◌, ◌++◌, arith, ltb, ◌==◌, if◌then◌else◌, length,
}

-- `Protocol::is_last_result_set_packet`; `none` is the panic on an empty packet.
unfoldable pub is_last_result_set_packet : Bool → Packet → Option Bool
is_last_result_set_packet deprecate_eof [] = none
is_last_result_set_packet deprecate_eof (b ∷ bs) =
    some (b == 254 && ltb (length (b ∷ bs)) (if deprecate_eof then max_payload_len else 8))

unfoldable pub pended_columns : Pended → List Column
pended_columns (Prelude.Result.ok (some (pending meta))) = columns meta
pended_columns (Prelude.Result.ok (some (taken meta))) = columns meta
pended_columns _ = []

abbrev pub is_nil {ℓ} : {A : Type ℓ} → List A → Bool
is_nil [] = true
is_nil (_ ∷ _) = false

module _ {L : Type 0} where
  -- `QueryResult::columns_ref`.
  unfoldable pub columns_ref : Session L → List Column
  unfolding pended_columns
  columns_ref s = pended_columns s.conn.pending_result

  -- `QueryResult::has_rows`.
  unfoldable pub has_rows : Session L → Bool
  has_rows s = not (is_nil (columns_ref s))

  -- `Conn::more_results_exists`.
  unfoldable pub more_results_exists : Session L → Bool
  more_results_exists s = s.conn.status / server_more_results_exists % 2 == 1

  -- `QueryResult::is_empty`.
  unfoldable pub is_empty : Session L → Bool
  is_empty s = not (has_rows s) && not (more_results_exists s)

  unfoldable pub used : Pended × Conn → M L (Option PendingResult)
  used (Prelude.Result.ok p, c) s = (ok p, with_conn c s)
  used (Prelude.Result.err e, c) s = (err (server e), with_conn c s)

  unfoldable pub use_pending : M L (Option PendingResult)
  unfolding used
  use_pending s = used (use_pending_result s.conn) s

  abbrev pub out_of_fuel {ℓ} : {A : Type ℓ} → M L A
  out_of_fuel s = (stuck, s)

  -- A loop whose rounds take packets.
  abbrev pub fueled {ℓ} : {A : Type ℓ} → (ℕ → M L A) → M L A
  fueled f s = f (suc (length s.incoming)) s

  -- What follows a row, or the end of the rows.
  abbrev pub by_row : {R : Type 0} {A : Type 0} → (R → M L A) → M L A → Option R → M L A
  by_row f g (some r) = f r
  by_row f g none = g

  module _ {R : Type 0} (common : MySqlCommon R) (protocol : Protocol) where
    -- A packet of the rows: the terminator, or a row.
    unfoldable pub row_or_end : List Column → Packet → Option Bool → M L (Option R)
    row_or_end cols packet none = λ s. (panicked, s)
    row_or_end cols packet (some true) = set_pending none >> return none
    row_or_end cols packet (some false) =
        required parse (common.row protocol cols packet) >>= (λ r. return (some r))

    unfoldable pub row_packet : List Column → Packet → M L (Option R)
    row_packet cols packet s =
        row_or_end cols packet (is_last_result_set_packet s.deprecate_eof packet) s

    -- An error in place of a row ends the result set.
    unfoldable pub after_row_packet :
        List Column → Outcome Packet × Session L → Outcome (Option R) × Session L
    after_row_packet cols (ok packet, s) = row_packet cols packet s
    after_row_packet cols (err e, s) = (set_pending none >> throw e) s
    after_row_packet cols (panicked, s) = (panicked, s)
    after_row_packet cols (stuck, s) = (stuck, s)

    -- `QueryResult::next_row`.
    unfoldable pub next_row : List Column → M L (Option R)
    next_row [] s = (set_pending none >> return none) s
    next_row (c ∷ cs) s = after_row_packet (c ∷ cs) (read_packet common s)

    -- `QueryResult::next_set`.
    unfoldable pub read_next_set : M L (Unit {0})
    read_next_set s =
        if more_results_exists s
        then routine (read_result_set common protocol false) s
        else (ok tt, s)

    unfoldable pub next_set : M L Bool
    next_set = read_next_set >>= (λ _ s. (ok (has_pending_result s.conn), s))

    -- `QueryResult::next_row_or_next_set`.
    unfoldable pub next_row_or_next_set : ResultSetMeta → M L (Option R)
    next_row_or_next_set meta =
        next_row (columns meta) >>= by_row (λ r. return (some r)) (next_set >>= (λ _. return none))

    -- `QueryResult::skip_taken`.
    unfoldable pub skip_taken : ResultSetMeta → ℕ → M L (Unit {0})
    skip_taken meta zero = out_of_fuel
    skip_taken meta (suc fuel) =
        next_row_or_next_set meta >>= by_row (λ _. skip_taken meta fuel) (return tt)

    -- `QueryResult::next`.
    unfoldable pub next_by : M L (Option R) → Option PendingResult → M L (Option R)
    next_by rest none = return none
    next_by rest (some (pending meta)) = next_row_or_next_set meta
    next_by rest (some (taken meta)) = fueled (skip_taken meta) >> rest

    unfoldable pub next_loop : ℕ → M L (Option R)
    next_loop zero = out_of_fuel
    next_loop (suc rounds) = use_pending >>= next_by (next_loop rounds)

    -- The second round finds no taken result set.
    unfoldable pub next : M L (Option R)
    next = next_loop 2

    -- `QueryResult::reduce`; `collect` folds the rows into a list.
    unfoldable pub reduce_loop : {U : Type 0} → (U → R → U) → ℕ → U → M L U
    reduce_loop fun zero init = out_of_fuel
    reduce_loop fun (suc fuel) init =
        next >>= by_row (λ r. reduce_loop fun fuel (fun init r)) (return init)

    unfoldable pub reduce : {U : Type 0} → (U → R → U) → U → M L U
    reduce fun init = fueled (λ fuel. reduce_loop fun fuel init)

    unfoldable pub collect : M L (List R)
    collect = reduce (λ acc row. acc ++ row ∷ []) []

    -- `while self.next().await?.is_some() {}`.
    unfoldable pub drop_rows : ℕ → M L (Unit {0})
    drop_rows zero = out_of_fuel
    drop_rows (suc fuel) = next >>= by_row (λ _. drop_rows fuel) (return tt)

    -- `QueryResult::drop_result`.
    unfoldable pub drop_loop : ℕ → M L (Unit {0})
    drop_loop zero = out_of_fuel
    drop_loop (suc fuel) =
        fueled drop_rows
        >> (λ s. (if has_pending_result s.conn then drop_loop fuel else return tt) s)

    unfoldable pub drop_result : M L (Unit {0})
    drop_result = fueled drop_loop

    -- `collect_and_drop` and `reduce_and_drop`.
    unfoldable pub collect_and_drop : M L (List R)
    collect_and_drop = collect >>= (λ output. drop_result >> return output)

    -- `QueryResult::for_each`, for a function of the caller's state.
    unfoldable pub for_each : {U : Type 0} → (U → R → U) → U → M L U
    for_each fun init s = if is_empty s then (ok init, s) else reduce fun init s
