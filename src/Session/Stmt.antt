-- ===== src/Session/Stmt.antt =====
-- src/queryable/stmt.rs, src/conn/routines/prepare.rs, exec.rs and helpers.rs: prepared statements. What
-- mysql_common does with the parameters is a parameter, `MySqlParams`.
pub mod LongData
pub mod Fill
pub mod Received
pub mod Refused
use mysql_async.Conn.State.{Column}
use mysql_async.Conn.StmtCache
use mysql_async.Conn.StmtCache.Lru.{LruCache, StmtInner, QueryString}
use mysql_async.Session.Outcome.{
  driver, missing_named_param, mixed_params, named_params_for_positional_query,
  stmt_params_mismatch, stmt_params_number_exceeds_limit, Error, parse, required, ok, ◌>>=◌, ◌>>◌,
  return, lift, throw,
}
use mysql_async.Session.Protocol.{
  MySqlCommon, binary_protocol, Packet, Value, value_bytes, other_value, com_stmt_prepare,
  com_stmt_close, com_stmt_send_long_data, com_stmt_execute, max_payload_len,
}
use mysql_async.Session.State.{M}
use mysql_async.Session.Packets.{read_packet, routine}
use mysql_async.Session.ResultSets.{read_column_defs, read_result_set}
use mysql_async.Session.QueryResult.{drop_result, collect_and_drop}
use mysql_async.Session.Commands.{write_command}
use mysql_async.Prelude
use mysql_async.Prelude.{
  ℕ, zero, suc, ◌-◌, ◌%◌, ◌^◌, ◌≤◌, ◌<◌, ◌≡◌, refl, Bool, true, false, Option, none, some, List, [],
  ◌∷◌, arith, ltb, ◌==◌, if◌then◌else◌, length,
}

-- src/error/mod.rs: `MAX_STATEMENT_PARAMS`.
abbrev pub max_statement_params : ℕ
max_statement_params = 65535

-- Named parameters, in no order.
abbrev pub NamedParams : Type 0
NamedParams = List (List ℕ × Value)

-- `Params`.
pub data Params : Type 0 where
  empty : Params
  positional : List Value → Params
  named : NamedParams → Params

-- `ParsedNamedParams::parse` gives the query with placeholders and the names, unless the query mixes
-- the two kinds; `Params::into_values` the values in the order of the names, or the name that is
-- missing; `build` says whether the values go as long data.
pub record MySqlParams : Type 0 where
  pub parse : QueryString → Option (QueryString × List (List ℕ))
  pub into_values : List (List ℕ) → NamedParams → Prelude.Result (List ℕ) (List Value)
  pub as_long_data : List Value → Bool

-- `Statement`. There are no names where the parameters are positional.
pub record Statement : Type 0 where
  pub inner : StmtInner
  pub named_params : List (List ℕ)

-- `split_at`, on lists.
unfoldable pub take : ℕ → List ℕ → List ℕ
take zero xs = []
take (suc n) [] = []
take (suc n) (x ∷ xs) = x ∷ take n xs

unfoldable pub drop : ℕ → List ℕ → List ℕ
drop zero xs = xs
drop (suc n) [] = []
drop (suc n) (x ∷ xs) = drop n xs

-- `chunks` of at most `size` elements, for a number of chunks; the length of the list is enough.
unfoldable pub chunks_at : ℕ → ℕ → List ℕ → List (List ℕ)
chunks_at zero size xs = []
chunks_at (suc n) size [] = []
chunks_at (suc n) size (x ∷ xs) = take size (x ∷ xs) ∷ chunks_at n size (drop size (x ∷ xs))

unfoldable pub chunks : ℕ → List ℕ → List (List ℕ)
chunks size xs = chunks_at (length xs) size xs

-- The chunks of a value, of which there is one even if the value is empty.
unfoldable pub long_data_chunks : List ℕ → List (List ℕ)
long_data_chunks [] = [] ∷ []
long_data_chunks (x ∷ xs) = chunks (max_payload_len - 6) (x ∷ xs)

-- `StmtInner::from_payload`, on what was parsed.
unfoldable pub stmt_from : QueryString → ℕ → ℕ × ℕ × ℕ → StmtInner
stmt_from query connection_id (id, num_params, num_columns) = record {
  id = id;
  raw_query = query;
  num_params = num_params;
  num_columns = num_columns;
  params = [];
  columns = [];
  connection_id = connection_id;
}

-- `StmtInner::with_params` and `with_columns`.
unfoldable pub with_params : StmtInner → List Column → StmtInner
with_params stmt params = record stmt { params = params }

unfoldable pub with_columns : StmtInner → List Column → StmtInner
with_columns stmt columns = record stmt { columns = columns }

-- The positional parameters, or what is wrong with them.
unfoldable pub checked_params : Statement → List Value → Prelude.Result Error (List Value)
checked_params stmt values =
    if ltb max_statement_params (length values)
    then Prelude.Result.err (driver (stmt_params_number_exceeds_limit (length values)))
    else if stmt.inner.num_params == length values
    then Prelude.Result.ok values
    else Prelude.Result.err (driver (stmt_params_mismatch stmt.inner.num_params (length values)))

unfoldable pub is_empty : List (List ℕ) → Bool
is_empty [] = true
is_empty (x ∷ xs) = false

-- The values of named parameters.
unfoldable pub values_of : Prelude.Result (List ℕ) (List Value) → Prelude.Result Error (List Value)
values_of (Prelude.Result.ok values) = Prelude.Result.ok values
values_of (Prelude.Result.err name) = Prelude.Result.err (driver (missing_named_param name))

module _ {L : Type 0} {R : Type 0} (common : MySqlCommon R) where
  -- `Conn::send_long_data`. The position of a parameter is a number of 16 bits.
  unfoldable pub send_chunks : ℕ → ℕ → List (List ℕ) → M L (Unit {0})
  send_chunks id i [] = return tt
  send_chunks id i (chunk ∷ chunks) =
      write_command common (com_stmt_send_long_data id (i % 2 ^ 16) chunk)
      >> send_chunks id i chunks

  unfoldable pub send_value : ℕ → ℕ → Value → M L (Unit {0})
  send_value id i (value_bytes bytes) = send_chunks id i (long_data_chunks bytes)
  send_value id i (other_value v) = return tt

  unfoldable pub send_from : ℕ → ℕ → List Value → M L (Unit {0})
  send_from id i [] = return tt
  send_from id i (value ∷ values) = send_value id i value >> send_from id (suc i) values

  unfoldable pub send_long_data : ℕ → List Value → M L (Unit {0})
  send_long_data id values = send_from id 0 values

  -- The definitions of the parameters or of the columns, if there are any.
  unfoldable pub read_defs : ℕ → M L (List Column)
  read_defs zero = return []
  read_defs (suc n) = read_column_defs common (suc n)

  unfoldable pub read_definitions : StmtInner → M L StmtInner
  read_definitions stmt = read_defs stmt.num_params >>= (λ params.
      read_defs stmt.num_columns
      >>= (λ columns. return (with_columns (with_params stmt params) columns)))

  unfoldable pub from_payload : QueryString → Packet → M L StmtInner
  from_payload query packet s =
      (required parse (common.stmt_packet packet)
          >>= (λ parsed. read_definitions (stmt_from query s.conn.id parsed)))
        s

  -- `PrepareRoutine`.
  unfoldable pub prepare_routine : QueryString → M L StmtInner
  prepare_routine query =
      routine (
        write_command common (com_stmt_prepare query)
        >> (read_packet common >>= from_payload query))

  unfoldable pub write_execute : Statement → List Value → M L (Unit {0})
  write_execute stmt values =
      write_command common (com_stmt_execute stmt.inner.id values)
      >> read_result_set common binary_protocol true

  module _ (mysql_params : MySqlParams) where
    unfoldable pub send_params : Statement → List Value → M L (Unit {0})
    send_params stmt values =
        if mysql_params.as_long_data values then send_long_data stmt.inner.id values else return tt

    unfoldable pub exec_positional : Statement → List Value → M L (Unit {0})
    exec_positional stmt values =
        lift (checked_params stmt values)
        >>= (λ values. send_params stmt values >> write_execute stmt values)

    -- The loop of `ExecRoutine`, which goes on with positional parameters.
    unfoldable pub exec_params : Statement → Params → M L (Unit {0})
    exec_params stmt (positional values) = exec_positional stmt values
    exec_params stmt (named params) =
        if is_empty stmt.named_params
        then throw (driver named_params_for_positional_query)
        else lift (values_of (mysql_params.into_values stmt.named_params params))
          >>= exec_positional stmt
    exec_params stmt empty =
        if ltb 0 stmt.inner.num_params
        then throw (driver (stmt_params_mismatch stmt.inner.num_params 0))
        else write_execute stmt []

    -- `ExecRoutine`, by `Conn::execute_statement`.
    unfoldable pub execute_statement : Statement → Params → M L (Unit {0})
    execute_statement stmt params = routine (exec_params stmt params)

  module _ ⦃lru : LruCache L⦄ where
    unfoldable pub forget : ℕ → M L (Unit {0})
    forget id s = (ok tt, record s { stmt_cache = StmtCache.remove id s.stmt_cache })

    -- `Conn::close_statement`.
    unfoldable pub close_statement : ℕ → M L (Unit {0})
    close_statement id = forget id >> write_command common (com_stmt_close id)

    -- `Queryable::close`.
    unfoldable pub close : Statement → M L (Unit {0})
    close stmt = forget stmt.inner.id >> close_statement stmt.inner.id

    -- `Conn::cache_stmt`, with the statement that has to go.
    unfoldable pub cache_stmt : StmtInner → M L (Option StmtInner)
    cache_stmt stmt s =
        let (old, cache) = StmtCache.cache_stmt s.stmt_cache_size stmt s.stmt_cache in
        (ok old, record s { stmt_cache = cache })

    unfoldable pub close_old : Option StmtInner → M L (Unit {0})
    close_old none = return tt
    close_old (some old) = close_statement old.id

    -- `Conn::prepare_statement`.
    unfoldable pub prepare_statement : QueryString → M L StmtInner
    prepare_statement query =
        prepare_routine query
        >>= (λ stmt. cache_stmt stmt >>= (λ old. close_old old >> return stmt))

    unfoldable pub get_cached : QueryString → M L (Option StmtInner)
    get_cached query s =
        let (stmt, cache) = StmtCache.get_cached_stmt query s.stmt_cache in
        (ok stmt, record s { stmt_cache = cache })

    unfoldable pub or_prepare : QueryString → Option StmtInner → M L StmtInner
    or_prepare query (some stmt) = return stmt
    or_prepare query none = prepare_statement query

    module _ (mysql_params : MySqlParams) where
      -- `to_statement` of a query, by `Conn::get_statement`.
      unfoldable pub to_statement : QueryString × List (List ℕ) → M L Statement
      to_statement (query, names) = get_cached query >>= (λ cached.
          or_prepare query cached
          >>= (λ stmt. return (record { inner = stmt; named_params = names })))

      -- `Queryable::prep`.
      unfoldable pub prep : QueryString → M L Statement
      prep query = required (driver mixed_params) (mysql_params.parse query) >>= to_statement

      -- `Queryable::exec_iter`, `exec` and `exec_drop` of a query.
      unfoldable pub exec_iter : QueryString → Params → M L (Unit {0})
      exec_iter query params = prep query >>= (λ stmt. execute_statement mysql_params stmt params)

      unfoldable pub exec : QueryString → Params → M L (List R)
      exec query params = exec_iter query params >> collect_and_drop common binary_protocol

      unfoldable pub exec_drop : QueryString → Params → M L (Unit {0})
      exec_drop query params = exec_iter query params >> drop_result common binary_protocol

      -- `Queryable::exec_batch`.
      unfoldable pub exec_each : Statement → List Params → M L (Unit {0})
      exec_each stmt [] = return tt
      exec_each stmt (params ∷ more) =
          execute_statement mysql_params stmt params
          >> (drop_result common binary_protocol >> exec_each stmt more)

      unfoldable pub exec_batch : QueryString → List Params → M L (Unit {0})
      exec_batch query params = prep query >>= (λ stmt. exec_each stmt params)
