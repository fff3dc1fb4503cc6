-- ===== src/Conn/StmtCache/Refine/Runs.antt =====
-- src/conn/stmt_cache.rs: every call keeps the cache to what was said of the queries, and so does a run
-- of calls.
use mysql_async.Conn.StmtCache.Lru.{
  QueryString, StmtInner, Entry, LruCache, Entries, lookup, init, IsLruCache,
}
use mysql_async.Conn.StmtCache.{
  get, insert, drop_query, StmtCache, new, by_query, forget, add, evict, put, clear, remove,
}
use mysql_async.Conn.StmtCache.Laws.{Distinct, get-delete, IsFresh}
use mysql_async.Conn.StmtCache.Coherence.{
  IsCoherent, put-IsCoherent, remove-IsCoherent, by_query-IsCoherent, lookup-promote,
}
use mysql_async.Conn.StmtCache.Refine.{
  Known, nothing, learn, unless_id, unlearn, Call, put_call, remove_call, by_query_call, clear_call,
  note, note_all, call_on, call_all, FreshCall, FreshCalls,
}
use mysql_async.Conn.StmtCache.Refine.Truth.{
  Truthful, Truthful-shrink, lookup-erase-some, lookup-init-some, entry, Truthful-insert,
}
use mysql_async.Prelude.{
  ℕ, ◌≤◌, ◌≡◌, sym, ap, ◌∙◌, ◌≢◌, inl, inr, Option, none, some, List, [], ◌∷◌, arith, ltb, ◌==◌,
  ==_iff, Bool-cases, Option-cases, length, if_true, if_false, subst,
}

module _ {L : Type 0} ⦃lru : LruCache L⦄ (laws : IsLruCache lru) where
  open laws use {
    entries, entries_unbounded, entries_clear, entries_put, entries_get, get_found, entries_pop,
    entries_pop_lru,
  }

  -- The cache is coherent, and truthful.
  record Refines (known : Known) (c : StmtCache L) : Type 0 where
    coherent : IsCoherent laws c
    truthful : Truthful known c.query_map (entries c.cache)

  forget-Truthful :
      {known : Known} (r : Option (ℕ × Entry) × L) (c : StmtCache L)
      → entries r.1 ≡ init (entries c.cache)
      → Truthful known c.query_map (entries c.cache)
      → Truthful known (forget r c).1.query_map (entries (forget r c).1.cache)
  unfolding forget
  forget-Truthful (some (k, x), cache) c rest t =
      Truthful-shrink t (λ q id found. (get-delete x.query q id c.query_map found).1)
        (λ id e cached.
          lookup-init-some id (entries c.cache) e (ap (lookup id) (sym rest) ∙ cached))
  forget-Truthful (none, cache) c rest t =
      Truthful-shrink t (λ q id found. found)
        (λ id e cached.
          lookup-init-some id (entries c.cache) e (ap (lookup id) (sym rest) ∙ cached))

  evict-Truthful :
      {known : Known} (c : StmtCache L)
      → Truthful known c.query_map (entries c.cache)
      → Truthful known (evict c).1.query_map (entries (evict c).1.cache)
  unfolding evict
  evict-Truthful {known} c t = elim (Bool-cases (ltb c.cap (lru.len c.cache))) [
    | inl over ↦
        subst {A = Option StmtInner × StmtCache L}
          (λ r. Truthful known r.1.query_map (entries r.1.cache)) (sym (if_true _ _ over))
          (forget-Truthful (lru.pop_lru c.cache) c (entries_pop_lru c.cache) t)
    | inr fits ↦
        subst {A = Option StmtInner × StmtCache L}
          (λ r. Truthful known r.1.query_map (entries r.1.cache)) (sym (if_false _ _ fits)) t
  ]

  -- A cache of no size is empty.
  off-Truthful :
      {known : Known} (c : StmtCache L)
      → IsCoherent laws c
      → c.cap ≡ 0
      → Truthful known c.query_map (entries c.cache)
  off-Truthful c h off = record {
    truth = λ q id e found cached.
        absurd (empty (entries c.cache) id e (omega (arith, h.bounded, off)) cached);
  }
    where
      empty : (es : Entries) (id : ℕ) (e : Entry) → length es ≤ 0 → lookup id es ≢ some e
      empty [] id e small = λ eq. cc
      empty (x ∷ es) id e small = absurd (omega (arith, small))

  put-Refines :
      {known : Known} (query : QueryString) (stmt : StmtInner) (c : StmtCache L)
      → Refines known c
      → IsFresh query (lookup stmt.id (entries c.cache))
      → Refines (learn query stmt known) (put query stmt c).1
  unfolding put add
  put-Refines {known} query stmt c r fresh = record {
    coherent = put-IsCoherent laws query stmt c r.coherent fresh;
    truthful = elim (Bool-cases (c.cap == 0)) [
      | inl off ↦
          subst {A = Option StmtInner × StmtCache L}
            (λ x. Truthful (learn query stmt known) x.1.query_map (entries x.1.cache))
            (sym (if_true _ _ off)) (off-Truthful c r.coherent ((==_iff c.cap 0).0 off))
      | inr on ↦
          subst {A = Option StmtInner × StmtCache L}
            (λ x. Truthful (learn query stmt known) x.1.query_map (entries x.1.cache))
            (sym (if_false _ _ on))
            (evict-Truthful (add query stmt c) (
              subst (Truthful (learn query stmt known) (insert query stmt.id c.query_map))
                (sym (entries_put c.cache stmt.id (entry query stmt)))
                (Truthful-insert known query stmt c.query_map (entries c.cache) r.truthful
                  r.coherent.agree fresh)))
    ];
  }

  remove-Refines :
      {known : Known} (id : ℕ) (c : StmtCache L)
      → Refines known c
      → Refines (unlearn id known) (remove id c)
  unfolding remove unlearn unless_id
  remove-Refines {known} id c r = record {
    coherent = remove-IsCoherent laws id c r.coherent;
    truthful = record {
      truth = λ q j e found cached.
          let (ne, before) =
            lookup-erase-some id j (entries c.cache) e
              (ap (lookup j) (sym (entries_pop c.cache id)) ∙ cached) in
          let (known_q, same_id) =
            r.truthful.truth q j e (dropped (lru.pop c.cache id).0 q j found) before in
          (
            ap (unless_id id) known_q
                ∙ if_false {b = e.stmt.id == id} _ _
                    (ground (arith, ne, same_id, (==_iff e.stmt.id id).0)),
            same_id,
          );
    };
  }
    where
      dropped :
          (o : Option Entry) (q : QueryString) (j : ℕ)
          → get q (drop_query o c.query_map) ≡ some j
          → get q c.query_map ≡ some j
      dropped none q j found = found
      dropped (some x) q j found = (get-delete x.query q j c.query_map found).1

  by_query-Refines :
      {known : Known} (query : QueryString) (c : StmtCache L)
      → Refines known c
      → Refines known (by_query query c).1
  unfolding by_query
  by_query-Refines {known} query c r = record {
    coherent = by_query-IsCoherent laws query c r.coherent;
    truthful = elim (Option-cases (get query c.query_map)) [
      | inl missing ↦ rw (missing, by_query) r.truthful
      | inr (id, known_id) ↦
          rw (known_id, by_query)
            (Truthful-shrink r.truthful (λ q j found. found)
              (λ j e cached.
                sym (lookup-promote laws id j (entries c.cache))
                ∙ (ap (lookup j) (sym (entries_get c.cache id)) ∙ cached)))
    ];
  }

  clear-Refines : (c : StmtCache L) → Refines nothing (clear c)
  unfolding clear
  clear-Refines c = record {
    coherent = record {
      bounded = omega (arith, ap length (entries_clear c.cache));
      distinct = subst Distinct (sym (entries_clear c.cache)) tt;
      agree = λ q id found. cc;
    };
    truthful = record { truth = λ q id e found cached. cc };
  }

  call_on-Refines :
      {known : Known} (call : Call) (c : StmtCache L)
      → Refines known c
      → FreshCall laws call c
      → Refines (note call known) (call_on call c)
  unfolding note call_on FreshCall
  call_on-Refines (put_call query stmt) c r f = put-Refines query stmt c r f
  call_on-Refines (remove_call id) c r f = remove-Refines id c r
  call_on-Refines (by_query_call query) c r f = by_query-Refines query c r
  call_on-Refines clear_call c r f = clear-Refines c

  call_all-Refines :
      (calls : List Call) {known : Known} (c : StmtCache L)
      → Refines known c
      → FreshCalls laws calls c
      → Refines (note_all calls known) (call_all calls c)
  unfolding note_all call_all FreshCalls
  call_all-Refines [] c r f = r
  call_all-Refines (call ∷ calls) c r f =
      call_all-Refines calls (call_on call c) (call_on-Refines call c r f.0) f.1

  new-Refines : (size : ℕ) → Refines nothing (new size)
  unfolding new
  new-Refines size = record {
    coherent = record {
      bounded = omega (arith, ap length entries_unbounded);
      distinct = subst Distinct (sym entries_unbounded) tt;
      agree = λ q id found. cc;
    };
    truthful = record { truth = λ q id e found cached. cc };
  }

  found_known :
      {known : Known} (query : QueryString) (c : StmtCache L) (e : Entry)
      → Refines known c
      → (by_query query c).0 ≡ some e
      → known query ≡ some e.stmt
  unfolding by_query
  found_known query c e r found = elim (Option-cases (get query c.query_map)) [
    | inl missing ↦ absurd (ground (arith, missing))
    | inr (id, known_id) ↦
        (r.truthful.truth query id e known_id
          (sym (get_found c.cache id) ∙ ground (arith, known_id))).0
  ]

  -- After any run of insertions, removals, lookups and clears on a new cache of any size, where
  -- each statement comes under an id that is new or cached for the same query, whatever the cache
  -- finds for a query is the statement that the same run leaves for it in an abstract map that
  -- never evicts: the last one inserted for the query and not removed or cleared since.
  pub call_all-note_all :
      (size : ℕ) (calls : List Call) (query : QueryString) (e : Entry)
      → FreshCalls laws calls (new size)
      → (by_query {L = L} query (call_all calls (new size))).0 ≡ some e
      → note_all calls nothing query ≡ some e.stmt
  call_all-note_all size calls query e fresh found =
      found_known query (call_all calls (new size)) e
        (call_all-Refines calls (new size) (new-Refines size) fresh) found
