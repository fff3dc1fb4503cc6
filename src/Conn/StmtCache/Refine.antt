-- ===== src/Conn/StmtCache/Refine.antt =====
-- src/conn/stmt_cache.rs: under any run of calls, the cache refines a map from queries to statements
-- that may forget.
pub mod Truth
pub mod Runs
use mysql_async.Conn.StmtCache.Lru.{QueryString, same, StmtInner, LruCache, IsLruCache, lookup}
use mysql_async.Conn.StmtCache.{StmtCache, by_query, put, clear, remove}
use mysql_async.Conn.StmtCache.Laws.{IsFresh}
use mysql_async.Prelude
use mysql_async.Prelude.{
  ℕ, zero, suc, ◌≤◌, ◌<◌, ◌≡◌, refl, Bool, true, false, Option, none, some, List, [], ◌∷◌, arith,
  ◌==◌, if◌then◌else◌,
}

-- What was said of each query: the abstract map.
abbrev pub Known : Type 0
Known = QueryString → Option StmtInner

unfoldable pub nothing : Known
nothing p = none

unfoldable pub learn : QueryString → StmtInner → Known → Known
learn query stmt known p = if same query p then some stmt else known p

unfoldable pub unless_id : ℕ → Option StmtInner → Option StmtInner
unless_id id none = none
unless_id id (some stmt) = if stmt.id == id then none else some stmt

unfoldable pub unlearn : ℕ → Known → Known
unlearn id known p = unless_id id (known p)

-- A call of the cache.
pub data Call : Type 0 where
  put_call : QueryString → StmtInner → Call
  remove_call : ℕ → Call
  by_query_call : QueryString → Call
  clear_call : Call

unfoldable pub note : Call → Known → Known
note (put_call query stmt) known = learn query stmt known
note (remove_call id) known = unlearn id known
note (by_query_call query) known = known
note clear_call known = nothing

-- What is known after the calls.
unfoldable pub note_all : List Call → Known → Known
note_all [] known = known
note_all (call ∷ calls) known = note_all calls (note call known)

module _ {L : Type 0} ⦃lru : LruCache L⦄ where
  unfoldable pub call_on : Call → StmtCache L → StmtCache L
  call_on (put_call query stmt) c = (put query stmt c).1
  call_on (remove_call id) c = remove id c
  call_on (by_query_call query) c = (by_query query c).1
  call_on clear_call c = clear c

  -- The cache after the calls.
  unfoldable pub call_all : List Call → StmtCache L → StmtCache L
  call_all [] c = c
  call_all (call ∷ calls) c = call_all calls (call_on call c)

module _ {L : Type 0} ⦃lru : LruCache L⦄ (laws : IsLruCache lru) where
  open laws use {entries}

  -- Each statement is cached under a new id, or under one that is cached for the same query.
  unfoldable pub FreshCall : Call → StmtCache L → Type 0
  FreshCall (put_call query stmt) c = IsFresh query (lookup stmt.id (entries c.cache))
  FreshCall (remove_call id) c = Unit
  FreshCall (by_query_call query) c = Unit
  FreshCall clear_call c = Unit

  unfoldable pub FreshCalls : List Call → StmtCache L → Type 0
  FreshCalls [] c = Unit
  FreshCalls (call ∷ calls) c = FreshCall call c × FreshCalls calls (call_on call c)
