-- ===== src/Conn/StmtCache/Coherence.antt =====
-- src/conn/stmt_cache.rs: every operation keeps the two maps of the cache in agreement, and the cache
-- to its size.
use mysql_async.Conn.StmtCache.Lru.{
  QueryString, StmtInner, Entry, LruCache, Entries, lookup, erase, promote, last, init, IsLruCache,
}
use mysql_async.Conn.StmtCache.{
  get, delete, insert, drop_query, StmtCache, by_query, forget, add, evict, put, remove,
}
use mysql_async.Conn.StmtCache.Laws.{
  Distinct, lookup-erase_self, lookup-erase_ne, length-erase, erase-Distinct, init-Distinct,
  length-init, Agree, IsFresh, Agree-insert, Agree-init, Agree-erase,
}
use mysql_async.Prelude.{
  ℕ, ◌+◌, ◌≤◌, ◌<◌, ◌≡◌, refl, sym, ap, ◌∙◌, inl, inr, Option, none, some, [], ◌∷◌, arith, ltb,
  ◌==◌, ==_iff, Bool-cases, Option-cases, length, if_true, if_false, subst,
}

last-eq-none : (es : Entries) → last es ≡ none → es ≡ []
last-eq-none [] h = refl
last-eq-none (x ∷ []) h = cc
last-eq-none (x ∷ y ∷ es) h = absurd (ground (arith, last-eq-none (y ∷ es) h))

length-erase_found :
    (k : ℕ) (es : Entries) (e : Entry) → lookup k es ≡ some e → length (erase k es) < length es
length-erase_found k [] e h = cc
length-erase_found k ((j, x) ∷ es) e h = elim (Bool-cases (j == k)) [
  | inl s ↦ ground (arith, s, length-erase k es)
  | inr s ↦ ground (arith, s, length-erase_found k es e)
]

module _ {L : Type 0} ⦃lru : LruCache L⦄ (laws : IsLruCache lru) where
  open laws use {
    entries, entries_put, get_found, entries_get, pop_found, entries_pop, pop_lru_last,
    entries_pop_lru, len_entries,
  }

  pub record IsCoherent (c : StmtCache L) : Type 0 where
    pub bounded : length (entries c.cache) ≤ c.cap
    pub distinct : Distinct (entries c.cache)
    pub agree : Agree c.query_map (entries c.cache)

  forget-IsCoherent :
      (r : Option (ℕ × Entry) × L) (c : StmtCache L)
      → r.0 ≡ last (entries c.cache)
      → entries r.1 ≡ init (entries c.cache)
      → length (entries c.cache) ≡ c.cap + 1
      → Distinct (entries c.cache)
      → Agree c.query_map (entries c.cache)
      → IsCoherent (forget r c).1
  unfolding forget
  forget-IsCoherent (some (k, x), cache) c oldest rest full d a = record {
    bounded = omega (arith, ap length rest, length-init (entries c.cache), full);
    distinct = subst Distinct (sym rest) (init-Distinct (entries c.cache) d);
    agree =
        subst (Agree (delete x.query c.query_map)) (sym rest)
          (Agree-init k x c.query_map (entries c.cache) d (sym oldest) a);
  }
  forget-IsCoherent (none, cache) c oldest rest full d a =
      absurd (omega (arith, ap length (last-eq-none (entries c.cache) (sym oldest)), full))

  evict-IsCoherent :
      (c : StmtCache L)
      → length (entries c.cache) ≤ c.cap + 1
      → Distinct (entries c.cache)
      → Agree c.query_map (entries c.cache)
      → IsCoherent (evict c).1
  unfolding evict
  evict-IsCoherent c small d a = elim (Bool-cases (ltb c.cap (lru.len c.cache))) [
    | inl over ↦
        subst {A = Option StmtInner × StmtCache L} (λ r. IsCoherent r.1) (sym (if_true _ _ over))
          (forget-IsCoherent (lru.pop_lru c.cache) c (pop_lru_last c.cache)
            (entries_pop_lru c.cache) (ground (arith, over, len_entries c.cache)) d a)
    | inr fits ↦
        subst {A = Option StmtInner × StmtCache L} (λ r. IsCoherent r.1) (sym (if_false _ _ fits))
          (record { bounded = ground (arith, fits, len_entries c.cache); distinct = d; agree = a })
  ]

  -- Caching a statement under its query keeps the cache to its size, its ids distinct and the maps
  -- in agreement, whether or not it evicts one, provided that the id is new or cached under the
  -- same query.
  pub put-IsCoherent :
      (query : QueryString) (stmt : StmtInner) (c : StmtCache L)
      → IsCoherent c
      → IsFresh query (lookup stmt.id (entries c.cache))
      → IsCoherent (put query stmt c).1
  unfolding put add
  put-IsCoherent query stmt c h fresh = elim (Bool-cases (c.cap == 0)) [
    | inl off ↦
        subst {A = Option StmtInner × StmtCache L} (λ r. IsCoherent r.1) (sym (if_true _ _ off)) h
    | inr on ↦
        let entry : Entry = record { stmt = stmt; query = query } in
        let es = entries_put c.cache stmt.id entry in
        subst {A = Option StmtInner × StmtCache L} (λ r. IsCoherent r.1) (sym (if_false _ _ on))
          (evict-IsCoherent (add query stmt c)
            (omega (arith, ap length es, length-erase stmt.id (entries c.cache), h.bounded))
            (subst Distinct (sym es) (
              lookup-erase_self stmt.id (entries c.cache),
              erase-Distinct stmt.id (entries c.cache) h.distinct,
            ))
            (subst (Agree (insert query stmt.id c.query_map)) (sym es)
              (Agree-insert query stmt c.query_map (entries c.cache) fresh h.agree)))
  ]

  Agree-drop_query :
      (id : ℕ) (o : Option Entry) (c : StmtCache L)
      → IsCoherent c
      → o ≡ lookup id (entries c.cache)
      → Agree (drop_query o c.query_map) (erase id (entries c.cache))
  unfolding drop_query
  Agree-drop_query id (some x) c h e q j found =
      Agree-erase id x c.query_map (entries c.cache) (sym e) h.agree q j found
  Agree-drop_query id none c h e q j found =
      let (x, cached, x_query) = h.agree q j found in
      (
        x,
        lookup-erase_ne id j (entries c.cache)
              (λ eq. ground (arith, ap (λ i. lookup i (entries c.cache)) eq, e, cached))
            ∙ cached,
        x_query,
      )

  -- Removing a statement by its id, cached or not, keeps the cache to its size and the maps in
  -- agreement.
  pub remove-IsCoherent : (id : ℕ) (c : StmtCache L) → IsCoherent c → IsCoherent (remove id c)
  unfolding remove
  remove-IsCoherent id c h = record {
    bounded =
        omega
          (arith, ap length (entries_pop c.cache id), length-erase id (entries c.cache), h.bounded);
    distinct =
        subst Distinct (sym (entries_pop c.cache id))
          (erase-Distinct id (entries c.cache) h.distinct);
    agree =
        subst (Agree (drop_query (lru.pop c.cache id).0 c.query_map)) (sym (entries_pop c.cache id))
          (Agree-drop_query id (lru.pop c.cache id).0 c h (pop_found c.cache id));
  }

  pub lookup-promote : (k j : ℕ) (es : Entries) → lookup j (promote k es) ≡ lookup j es
  lookup-promote k j es = elim (Option-cases (lookup k es)) [
    | inl missing ↦ ground (arith, missing)
    | inr (e, cached) ↦ elim (Bool-cases (k == j)) [
      | inl s ↦ ground (arith, s, cached, ap (λ i. lookup i es) ((==_iff k j).0 s))
      | inr s ↦
          ground
            (arith, s, cached, lookup-erase_ne k j es (λ q. ground (arith, s, (==_iff k j).1 q)))
    ]
  ]

  promote-Distinct : (k : ℕ) (es : Entries) → Distinct es → Distinct (promote k es)
  promote-Distinct k es d = elim (Option-cases (lookup k es)) [
    | inl missing ↦ rw (missing, promote) d
    | inr (e, cached) ↦ rw (cached, promote) (lookup-erase_self k es, erase-Distinct k es d)
  ]

  length-promote : (k : ℕ) (es : Entries) → length (promote k es) ≤ length es
  length-promote k es = elim (Option-cases (lookup k es)) [
    | inl missing ↦ ground (arith, missing)
    | inr (e, cached) ↦ ground (arith, cached, length-erase_found k es e cached)
  ]

  touch-IsCoherent :
      (id : ℕ) (c : StmtCache L)
      → IsCoherent c
      → IsCoherent (record c { cache = (lru.get c.cache id).1 })
  touch-IsCoherent id c h = record {
    bounded =
        omega (
          arith,
          ap length (entries_get c.cache id),
          length-promote id (entries c.cache),
          h.bounded,
        );
    distinct =
        subst Distinct (sym (entries_get c.cache id))
          (promote-Distinct id (entries c.cache) h.distinct);
    agree = λ q j found.
        let (e, cached, e_query) = h.agree q j found in
        (
          e,
          ap (lookup j) (entries_get c.cache id) ∙ (lookup-promote id j (entries c.cache) ∙ cached),
          e_query,
        );
  }

  -- A lookup, which makes the entry the most recent one, keeps the cache to its size and the maps
  -- in agreement.
  pub by_query-IsCoherent :
      (query : QueryString) (c : StmtCache L) → IsCoherent c → IsCoherent (by_query query c).1
  unfolding by_query
  by_query-IsCoherent query c h = elim (Option-cases (get query c.query_map)) [
    | inl missing ↦ rw (missing, by_query) h
    | inr (id, known) ↦ rw (known, by_query) (touch-IsCoherent id c h)
  ]
