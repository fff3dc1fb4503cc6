-- ===== src/Conn/StmtCache/Refine/Truth.antt =====
-- src/conn/stmt_cache.rs: the entries of the cache are what was said of their queries.
use mysql_async.Conn.StmtCache.Lru.{
  QueryString, same, same_refl, StmtInner, Entry, Entries, lookup, erase, init,
}
use mysql_async.Conn.StmtCache.{QueryMap, get, insert}
use mysql_async.Conn.StmtCache.Laws.{get-delete, lookup-erase_self, lookup-erase_ne, Agree, IsFresh}
use mysql_async.Conn.StmtCache.Refine.{Known, learn}
use mathlib.Core.Option.{some-injective}
use mysql_async.Prelude.{
  ℕ, ◌≡◌, sym, ap, ◌∙◌, ◌≢◌, inl, inr, true, false, some, [], ◌∷◌, arith, ◌==◌, ==_iff, Bool-cases,
  if_true, if_false, subst,
}

-- Where the maps lead from a query to an entry, the entry is what is known of the query.
pub record Truthful (known : Known) (m : QueryMap) (es : Entries) : Type 0 where
  pub truth :
      (q : QueryString) (id : ℕ) (e : Entry)
      → get q m ≡ some id
      → lookup id es ≡ some e
      → (known q ≡ some e.stmt) × (e.stmt.id ≡ id)

pub Truthful-shrink :
    {known : Known} {m m' : QueryMap} {es es' : Entries}
    → Truthful known m es
    → ((q : QueryString) (id : ℕ) → get q m' ≡ some id → get q m ≡ some id)
    → ((id : ℕ) (e : Entry) → lookup id es' ≡ some e → lookup id es ≡ some e)
    → Truthful known m' es'
Truthful-shrink t f g = record {
  truth = λ q id e found cached. t.truth q id e (f q id found) (g id e cached);
}

pub lookup-erase-some :
    (k j : ℕ) (es : Entries) (e : Entry)
    → lookup j (erase k es) ≡ some e
    → (k ≢ j) × (lookup j es ≡ some e)
lookup-erase-some k j es e h = elim (Bool-cases (k == j)) [
  | inl s ↦ absurd (
      ground (arith, ap (λ i. lookup i (erase k es)) ((==_iff k j).0 s), lookup-erase_self k es, h))
  | inr s ↦
      let ne : k ≢ j = λ q. ground (arith, s, (==_iff k j).1 q) in
      (ne, sym (lookup-erase_ne k j es ne) ∙ h)
]

pub lookup-init-some :
    (j : ℕ) (es : Entries) (e : Entry) → lookup j (init es) ≡ some e → lookup j es ≡ some e
lookup-init-some j [] e h = h
lookup-init-some j (x ∷ []) e h = cc
lookup-init-some j ((i, x) ∷ y ∷ es) e h = elim (Bool-cases (i == j)) [
  | inl s ↦ ground (arith, s)
  | inr s ↦ ground (arith, s, lookup-init-some j (y ∷ es) e)
]

-- The entry of a statement that is cached.
abbrev pub entry : QueryString → StmtInner → Entry
entry query stmt = record { stmt = stmt; query = query }

module _ (known : Known) (query : QueryString) (stmt : StmtInner) (m : QueryMap)
    (es : Entries) where
  -- The query that was inserted leads to the new entry.
  inserted-truth :
      (q : QueryString) (id : ℕ) (e : Entry)
      → same query q ≡ true
      → stmt.id ≡ id
      → entry query stmt ≡ e
      → (learn query stmt known q ≡ some e.stmt) × (e.stmt.id ≡ id)
  unfolding learn
  inserted-truth q id e s same_id same_entry = (
    if_true _ _ s ∙ ap (λ x. some x.stmt) same_entry,
    ap (λ x. x.stmt.id) (sym same_entry) ∙ same_id,
  )

  apart :
      (q : QueryString) (id : ℕ)
      → same query q ≡ false
      → Agree m es
      → IsFresh query (lookup stmt.id es)
      → get q m ≡ some id
      → stmt.id ≢ id
  apart q id s agree fresh found same_id =
      let (e, cached, e_query) = agree q id found in
      let e_fresh : e.query ≡ query =
        subst (IsFresh query) (ap (λ i. lookup i es) same_id ∙ cached) fresh in
      ground (arith, s, same_refl q, ap (λ x. same x q) (sym e_fresh ∙ e_query))

  pub Truthful-insert :
      Truthful known m es
      → Agree m es
      → IsFresh query (lookup stmt.id es)
      → Truthful
          (learn query stmt known)
          (insert query stmt.id m)
          ((stmt.id, entry query stmt) ∷ erase stmt.id es)
  unfolding learn
  Truthful-insert t agree fresh = record { truth = go }
    where
      go :
          (q : QueryString) (id : ℕ) (e : Entry)
          → get q (insert query stmt.id m) ≡ some id
          → lookup id ((stmt.id, entry query stmt) ∷ erase stmt.id es) ≡ some e
          → (learn query stmt known q ≡ some e.stmt) × (e.stmt.id ≡ id)
      go q id e found cached = elim (Bool-cases (same query q)) [
        | inl s ↦
            let same_id : stmt.id ≡ id = ground (arith, s, found) in
            inserted-truth q id e s same_id (
              some-injective (entry query stmt) e
                (sym (if_true {b = stmt.id == id} _ _ ((==_iff stmt.id id).1 same_id)) ∙ cached))
        | inr s ↦
            let before = (get-delete query q id m (ground (arith, s, found))).1 in
            let ne = apart q id s agree fresh before in
            let known_q = t.truth q id e before (
              sym (lookup-erase_ne stmt.id id es ne)
              ∙ (sym (if_false {b = stmt.id == id} _ _ (ground (arith, ne, (==_iff stmt.id id).0)))
                  ∙ cached)) in
            (if_false _ _ s ∙ known_q.0, known_q.1)
      ]
