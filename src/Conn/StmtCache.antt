-- ===== src/Conn/StmtCache.antt =====
-- src/conn/stmt_cache.rs: the prepared statements that a connection caches. The lru crate is a
-- parameter: `LruCache` holds the operations that the cache calls, and StmtCache/Lru.antt what the
-- crate documents of them. The `HashMap` is an association list.
pub mod Lru
pub mod Laws
pub mod Coherence
pub mod Hits
pub mod Refine
use Lru.{Entry, StmtInner, QueryString, LruCache, same}
use mysql_async.Prelude.{ℕ, Option, none, some, List, [], ◌∷◌, ltb, ◌==◌, if◌then◌else◌}

abbrev pub QueryMap : Type 0
QueryMap = List (QueryString × ℕ)

-- `HashMap::get`, `remove` and `insert`.
abbrev pub get : QueryString → QueryMap → Option ℕ
get q [] = none
get q ((k, v) ∷ m) = if same k q then some v else get q m

abbrev pub delete : QueryString → QueryMap → QueryMap
delete q [] = []
delete q ((k, v) ∷ m) = if same k q then delete q m else (k, v) ∷ delete q m

abbrev pub insert : QueryString → ℕ → QueryMap → QueryMap
insert q v m = (q, v) ∷ delete q m

-- The query of an entry leaves the map.
unfoldable pub drop_query : Option Entry → QueryMap → QueryMap
drop_query none m = m
drop_query (some entry) m = delete entry.query m

pub record StmtCache (L : Type 0) : Type 0 where
  pub cap : ℕ
  pub cache : L
  pub query_map : QueryMap

module _ {L : Type 0} ⦃lru : LruCache L⦄ where
  unfoldable pub new : ℕ → StmtCache L
  new cap = record { cap = cap; cache = lru.unbounded; query_map = [] }

  unfoldable pub by_query : QueryString → StmtCache L → Option Entry × StmtCache L
  by_query query c = elim (get query c.query_map) [
    | some id ↦ let (entry, cache) = lru.get c.cache id in (entry, record c { cache = cache })
    | none ↦ (none, c)
  ]

  -- The entry that `pop_lru` gave out leaves the other map too.
  unfoldable pub forget : Option (ℕ × Entry) × L → StmtCache L → Option StmtInner × StmtCache L
  forget (some (id, entry), cache) c =
      (some entry.stmt, record c { cache = cache; query_map = delete entry.query c.query_map })
  forget (none, cache) c = (none, record c { cache = cache })

  -- The statement cached, before the size is checked.
  unfoldable pub add : QueryString → StmtInner → StmtCache L → StmtCache L
  add query stmt c = record c {
    query_map = insert query stmt.id c.query_map;
    cache = lru.put c.cache stmt.id (record { stmt = stmt; query = query });
  }

  unfoldable pub evict : StmtCache L → Option StmtInner × StmtCache L
  evict c = if ltb c.cap (lru.len c.cache) then forget (lru.pop_lru c.cache) c else (none, c)

  unfoldable pub put : QueryString → StmtInner → StmtCache L → Option StmtInner × StmtCache L
  put query stmt c = if c.cap == 0 then (none, c) else evict (add query stmt c)

  unfoldable pub clear : StmtCache L → StmtCache L
  clear c = record c { query_map = []; cache = lru.clear c.cache }

  unfoldable pub remove : ℕ → StmtCache L → StmtCache L
  unfolding drop_query
  remove id c =
      let (entry, cache) = lru.pop c.cache id in
      record c { cache = cache; query_map = drop_query entry c.query_map }

  -- `Conn::cache_stmt`, for the option `stmt_cache_size`.
  unfoldable pub cache_stmt : ℕ → StmtInner → StmtCache L → Option StmtInner × StmtCache L
  cache_stmt stmt_cache_size stmt c =
      if ltb 0 stmt_cache_size then put stmt.raw_query stmt c else (none, c)

  -- `Conn::get_cached_stmt`.
  unfoldable pub get_cached_stmt : QueryString → StmtCache L → Option StmtInner × StmtCache L
  unfolding by_query
  get_cached_stmt raw_query c = let (entry, c') = by_query raw_query c in (stmt_of entry, c')
    where
      stmt_of : Option Entry → Option StmtInner
      stmt_of none = none
      stmt_of (some entry) = some entry.stmt
