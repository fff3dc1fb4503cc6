-- ===== src/Conn/StmtCache/Hits.antt =====
-- src/conn/stmt_cache.rs: a statement that was cached is found.
use mysql_async.Conn.StmtCache.Lru.{
  QueryString, same, same_refl, same-eq, StmtInner, Entry, LruCache, Entries, lookup, erase, last,
  init, IsLruCache,
}
use mysql_async.Conn.StmtCache.{get, delete, StmtCache, by_query, forget, add, evict, put}
use mysql_async.Prelude.{
  ℕ, ◌<◌, ◌≡◌, refl, sym, ap, ◌∙◌, ◌≢◌, inl, inr, false, Option, none, some, [], ◌∷◌, arith, ltb,
  ◌==◌, ==_iff, Bool-cases, length, if_true, if_false, All,
}

-- No entry of the query.
abbrev pub IsMissed : QueryString → Entries → Type 0
IsMissed query es = All (λ x. x.1.query ≢ query) es

erase-IsMissed :
    (query : QueryString) (k : ℕ) (es : Entries) → IsMissed query es → IsMissed query (erase k es)
erase-IsMissed query k [] h = tt
erase-IsMissed query k ((j, e) ∷ es) h = elim (Bool-cases (j == k)) [
  | inl s ↦ rw s (erase-IsMissed query k es h.1)
  | inr s ↦ rw s (h.0, erase-IsMissed query k es h.1)
]

last-IsMissed :
    (query : QueryString) (k : ℕ) (e : Entry) (es : Entries)
    → IsMissed query es
    → last es ≡ some (k, e)
    → e.query ≢ query
last-IsMissed query k e [] h l = cc
last-IsMissed query k e ((j, x) ∷ []) h l = λ q. h.0 (ground (arith, l, q))
last-IsMissed query k e (x ∷ y ∷ es) h l = last-IsMissed query k e (y ∷ es) h.1 l

same_ne : (a b : QueryString) → a ≢ b → same a b ≡ false
same_ne a b ne = elim (Bool-cases (same a b)) [ inl s ↦ absurd (ne (same-eq a b s)) | inr s ↦ s ]

module _ {L : Type 0} ⦃lru : LruCache L⦄ (laws : IsLruCache lru) where
  open laws use {entries, entries_put, get_found, pop_lru_last, entries_pop_lru, len_entries}

  -- A cache whose map leads to the most recent entry.
  hit :
      (query : QueryString) (id : ℕ) (x : Entry) (c : StmtCache L)
      → get query c.query_map ≡ some id
      → lookup id (entries c.cache) ≡ some x
      → (by_query query c).0 ≡ some x
  unfolding by_query
  hit query id x c known cached = ground (arith, known, cached, get_found c.cache id)

  lookup-init_first :
      (id : ℕ) (x : Entry) (es : Entries) → 0 < length es → lookup id (init ((id, x) ∷ es)) ≡ some x
  lookup-init_first id x [] h = absurd (omega (arith, h))
  lookup-init_first id x (y ∷ es) h = ground (arith, (==_iff id id).1 refl)

  forget-hit :
      (query : QueryString) (stmt : StmtInner) (es : Entries) (r : Option (ℕ × Entry) × L)
      (c : StmtCache L)
      → get query c.query_map ≡ some stmt.id
      → r.0 ≡ last ((stmt.id, record { stmt = stmt; query = query }) ∷ es)
      → entries r.1 ≡ init ((stmt.id, record { stmt = stmt; query = query }) ∷ es)
      → 0 < length es
      → IsMissed query es
      → (by_query query (forget r c).1).0 ≡ some (record { stmt = stmt; query = query })
  unfolding forget
  forget-hit query stmt [] r c known oldest rest some_left missed =
      absurd (omega (arith, some_left))
  forget-hit query stmt (y ∷ es) (some (k, x), cache) c known oldest rest some_left missed =
      hit query stmt.id _ _
        (get-delete_ne x.query c.query_map (last-IsMissed query k x (y ∷ es) missed (sym oldest))
          ∙ known)
        (ap (lookup stmt.id) rest ∙ lookup-init_first stmt.id _ (y ∷ es) some_left)
    where
      get-delete_ne : (q : QueryString) (m : _) → q ≢ query → get query (delete q m) ≡ get query m
      get-delete_ne q [] ne = refl
      get-delete_ne q ((k, v) ∷ m) ne = elim (Bool-cases (same k q)) [
        | inl s ↦ ground (
          arith,
          s,
          same_ne q query ne,
          ap (λ p. same p query) (same-eq k q s),
          get-delete_ne q m ne,
        )
        | inr s ↦ ground (arith, s, get-delete_ne q m ne)
      ]
  forget-hit query stmt (y ∷ es) (none, cache) c known oldest rest some_left missed =
      absurd (nonempty (y ∷ es) (omega (arith, some_left)) (sym oldest))
    where
      nonempty : (es : Entries) → 0 < length es → last es ≢ none
      nonempty [] h = absurd (omega (arith, h))
      nonempty (x ∷ []) h = λ e. cc
      nonempty (x ∷ y ∷ es) h = nonempty (y ∷ es) (omega arith)

  -- Where the cache has room for a statement and no entry of the query, a statement that is put
  -- under the query is what the query finds afterwards, whether or not the oldest entry had to go
  -- for it.
  pub by_query-put :
      (query : QueryString) (stmt : StmtInner) (c : StmtCache L)
      → c.cap ≢ 0
      → IsMissed query (entries c.cache)
      → (by_query query (put query stmt c).1).0 ≡ some (record { stmt = stmt; query = query })
  unfolding put add evict
  by_query-put query stmt c on missed =
      elim (Bool-cases (ltb c.cap (lru.len (add query stmt c).cache))) [
        | inl over ↦
            ap (λ (r : Option StmtInner × StmtCache L). (by_query query r.1).0)
              (if_false _ _ off ∙ if_true _ _ over)
            ∙ forget-hit query stmt (erase stmt.id (entries c.cache))
                (lru.pop_lru (add query stmt c).cache) (add query stmt c) known
                (pop_lru_last (add query stmt c).cache ∙ ap last added)
                (entries_pop_lru (add query stmt c).cache ∙ ap init added)
                (ground (arith, over, on, len_entries (add query stmt c).cache, ap length added))
                (erase-IsMissed query stmt.id (entries c.cache) missed)
        | inr fits ↦
            ap (λ (r : Option StmtInner × StmtCache L). (by_query query r.1).0)
              (if_false _ _ off ∙ if_false _ _ fits)
            ∙ hit query stmt.id _ (add query stmt c) known
                (ap (lookup stmt.id) added ∙ if_true _ _ ((==_iff stmt.id stmt.id).1 refl))
      ]
    where
      off : (c.cap == 0) ≡ false
      off = ground (arith, on, (==_iff c.cap 0).0)

      added :
          entries (add query stmt c).cache
          ≡ (stmt.id, record { stmt = stmt; query = query }) ∷ erase stmt.id (entries c.cache)
      added = entries_put c.cache stmt.id _

      known : get query (add query stmt c).query_map ≡ some stmt.id
      known = if_true _ _ (same_refl query)
