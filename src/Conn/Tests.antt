-- ===== src/Conn/Tests.antt =====
-- src/conn/mod.rs and stmt_cache.rs: the theorems on the pending result at one connection, and on the
-- statement cache at a full one, kept as the list of its entries.
use mysql_async.Conn.State.{Conn, text, pending}
use mysql_async.Conn.TxStatus.{TxStatus}
use mysql_async.Conn.StmtCache.Lru.{
  QueryString, same, same-eq, StmtInner, Entry, Entries, lookup, by_recency, by_recency_IsLru,
}
use mysql_async.Conn.StmtCache.{StmtCache, get, by_query, put, remove, evict, add, forget, new}
use mysql_async.Conn.StmtCache.Coherence.{IsCoherent, put-IsCoherent, remove-IsCoherent}
use mysql_async.Conn.StmtCache.Hits.{by_query-put}
use mysql_async.Conn.StmtCache.Refine.{
  nothing, Call, put_call, note_all, call_on, call_all, FreshCall, FreshCalls,
}
use mysql_async.Conn.StmtCache.Refine.Runs.{call_all-note_all}
use mysql_async.Prelude.{
  List, ℕ, ◌≡◌, refl, inl, inr, true, false, none, some, [], ◌∷◌, arith, Bool-cases, ok, pending,
}

abbrev reading : Conn
reading = record {
  id = 1;
  stream = true;
  disconnected = false;
  pool = true;
  status = 0;
  last_ok_packet = none;
  last_err_packet = none;
  pending_result = ok (some (pending (text (3 ∷ []))));
  tx_status = TxStatus.none;
  reset_upon_returning_to_a_pool = true;
  conn_ttl = none;
  wait_timeout = 50;
  ttl_deadline = none;
  last_io = 90;
  active_since = 90;
}

abbrev stmt_of : ℕ → QueryString → StmtInner
stmt_of id query = record {
  id = id;
  raw_query = query;
  num_params = 0;
  num_columns = 0;
  params = [];
  columns = [];
  connection_id = 1;
}

abbrev select : Entry
select = record { stmt = stmt_of 1 (83 ∷ []); query = 83 ∷ [] }

abbrev update : StmtInner
update = stmt_of 2 (85 ∷ [])

abbrev full_cache : StmtCache Entries
full_cache = record { cap = 1; cache = (1, select) ∷ []; query_map = (83 ∷ [], 1) ∷ [] }

full_cache-IsCoherent : IsCoherent by_recency_IsLru full_cache
full_cache-IsCoherent = record {
  bounded = omega arith;
  distinct = (refl, tt);
  agree = λ q id h. (select, (agreed q id h).0, (agreed q id h).1);
}
  where
    agreed :
        (q : QueryString) (id : ℕ)
        → get q ((83 ∷ [], 1) ∷ []) ≡ some id
        → (lookup id ((1, select) ∷ []) ≡ some select) × (select.query ≡ q)
    agreed q id h = elim (Bool-cases (same (83 ∷ []) q)) [
      | inl s ↦ (ground (arith, s), same-eq (83 ∷ []) q s)
      | inr s ↦ absurd (ground (arith, s))
    ]

put_example : IsCoherent by_recency_IsLru (put (85 ∷ []) update full_cache).1
put_example = put-IsCoherent by_recency_IsLru (85 ∷ []) update full_cache full_cache-IsCoherent tt

remove_example : IsCoherent by_recency_IsLru (remove 1 full_cache)
remove_example = remove-IsCoherent by_recency_IsLru 1 full_cache full_cache-IsCoherent

by_query-put_example :
    (by_query (85 ∷ []) (put (85 ∷ []) update full_cache).1).0
    ≡ some (record { stmt = update; query = 85 ∷ [] })
by_query-put_example =
    by_query-put by_recency_IsLru (85 ∷ []) update full_cache (omega arith)
      ((λ e. grind (arith, e)), tt)

-- Two statements in a cache for one.
abbrev calls : List Call
calls = put_call (83 ∷ []) select.stmt ∷ put_call (85 ∷ []) update ∷ []

abbrev cached_update : Entry
cached_update = record { stmt = update; query = 85 ∷ [] }

calls-FreshCalls : FreshCalls by_recency_IsLru calls (new 1)
unfolding FreshCalls FreshCall call_on put evict add new
calls-FreshCalls = (tt, (tt, tt))

calls_found : (by_query {L = Entries} (85 ∷ []) (call_all calls (new 1))).0 ≡ some cached_update
unfolding call_all call_on put evict add forget new by_query
calls_found = refl

call_all-note_all_example : note_all calls nothing (85 ∷ []) ≡ some update
call_all-note_all_example =
    call_all-note_all by_recency_IsLru 1 calls (85 ∷ []) cached_update calls-FreshCalls calls_found
