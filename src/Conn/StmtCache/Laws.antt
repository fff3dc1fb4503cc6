-- ===== src/Conn/StmtCache/Laws.antt =====
-- src/conn/stmt_cache.rs: the two maps of the cache, one change at a time.
use mysql_async.Conn.StmtCache.Lru.{
  QueryString, same, same_refl, same-eq, StmtInner, Entry, Entries, lookup, erase, last, init,
}
use mysql_async.Conn.StmtCache.{QueryMap, get, delete, insert}
use mysql_async.Prelude.{
  ℕ, ◌-◌, ◌≤◌, ◌≡◌, refl, sym, ap, ◌∙◌, ◌≢◌, inl, inr, false, Option, none, some, [], ◌∷◌, arith,
  ◌==◌, ==_iff, Bool-cases, length, subst,
}

same-sym_false : (a b : QueryString) → same a b ≡ false → same b a ≡ false
same-sym_false a b h = elim (Bool-cases (same b a)) [
  | inl e ↦ absurd (ground (arith, ap (λ x. same x b) (same-eq b a e), same_refl b))
  | inr e ↦ e
]

-- What is found after a deletion was there, under another query.
pub get-delete :
    (q p : QueryString) (id : ℕ) (m : QueryMap)
    → get p (delete q m) ≡ some id
    → (same q p ≡ false) × (get p m ≡ some id)
get-delete q p id [] h = cc
get-delete q p id ((k, v) ∷ m) h = elim (Bool-cases (same k q)) [
  | inl e ↦
      let (ne, found) = get-delete q p id m (ground (arith, e)) in
      (ne, ground (arith, ap (λ x. same x p) (same-eq k q e)))
  | inr e ↦ elim (Bool-cases (same k p)) [
    | inl f ↦ (
      ground (arith, ap (λ x. same q x) (same-eq k p f), same-sym_false k q e),
      ground (arith, e, f),
    )
    | inr f ↦ let (ne, found) = get-delete q p id m (ground (arith, e, f)) in (ne, ground arith)
  ]
]

-- No key twice.
abbrev pub Distinct : Entries → Type 0
Distinct [] = Unit {0}
Distinct ((k, e) ∷ es) = (lookup k es ≡ none) × Distinct es

pub lookup-erase_self : (k : ℕ) (es : Entries) → lookup k (erase k es) ≡ none
lookup-erase_self k [] = refl
lookup-erase_self k ((j, e) ∷ es) = elim (Bool-cases (j == k)) [
  | inl s ↦ ground (arith, s, lookup-erase_self k es)
  | inr s ↦ ground (arith, s, lookup-erase_self k es)
]

pub lookup-erase_ne : (k j : ℕ) (es : Entries) → k ≢ j → lookup j (erase k es) ≡ lookup j es
lookup-erase_ne k j [] ne = refl
lookup-erase_ne k j ((i, e) ∷ es) ne = elim (Bool-cases (i == k)) [
  | inl s ↦ ground (arith, s, (==_iff i k).0 s, lookup-erase_ne k j es ne)
  | inr s ↦ ground (arith, s, lookup-erase_ne k j es ne)
]

pub length-erase : (k : ℕ) (es : Entries) → length (erase k es) ≤ length es
length-erase k [] = omega arith
length-erase k ((j, e) ∷ es) = elim (Bool-cases (j == k)) [
  | inl s ↦ ground (arith, s, length-erase k es)
  | inr s ↦ ground (arith, s, length-erase k es)
]

pub erase-Distinct : (k : ℕ) (es : Entries) → Distinct es → Distinct (erase k es)
erase-Distinct k [] d = tt
erase-Distinct k ((j, e) ∷ es) d = elim (Bool-cases (j == k)) [
  | inl s ↦ rw s (erase-Distinct k es d.1)
  | inr s ↦ rw s (
    lookup-erase_ne k j es (λ q. ground (arith, s, (==_iff j k).1 (sym q))) ∙ d.0,
    erase-Distinct k es d.1,
  )
]

lookup-init_none : (k : ℕ) (es : Entries) → lookup k es ≡ none → lookup k (init es) ≡ none
lookup-init_none k [] h = refl
lookup-init_none k (x ∷ []) h = refl
lookup-init_none k ((j, e) ∷ y ∷ es) h = elim (Bool-cases (j == k)) [
  | inl s ↦ absurd (ground (arith, s))
  | inr s ↦ ground (arith, s, lookup-init_none k (y ∷ es))
]

pub init-Distinct : (es : Entries) → Distinct es → Distinct (init es)
init-Distinct [] d = tt
init-Distinct (x ∷ []) d = tt
init-Distinct ((j, e) ∷ y ∷ es) d = (lookup-init_none j (y ∷ es) d.0, init-Distinct (y ∷ es) d.1)

pub length-init : (es : Entries) → length (init es) ≡ length es - 1
length-init [] = refl
length-init (x ∷ []) = refl
length-init (x ∷ y ∷ es) = omega (arith, length-init (y ∷ es))

lookup-last :
    (k : ℕ) (e : Entry) (es : Entries) → Distinct es → last es ≡ some (k, e) → lookup k es ≡ some e
lookup-last k e [] d h = cc
lookup-last k e ((j, x) ∷ []) d h = ground (arith, (==_iff j k).1)
lookup-last k e ((j, x) ∷ y ∷ es) d h = elim (Bool-cases (j == k)) [
  | inl s ↦ absurd (ground (arith, d.0, (==_iff j k).0 s, lookup-last k e (y ∷ es) d.1 h))
  | inr s ↦ ground (arith, s, lookup-last k e (y ∷ es) d.1 h)
]

lookup-init :
    (k j : ℕ) (e : Entry) (es : Entries)
    → last es ≡ some (k, e)
    → k ≢ j
    → lookup j (init es) ≡ lookup j es
lookup-init k j e [] h ne = refl
lookup-init k j e ((i, x) ∷ []) h ne = ground (arith, (==_iff i j).0)
lookup-init k j e ((i, x) ∷ y ∷ es) h ne = ground (arith, lookup-init k j e (y ∷ es) h ne)

-- The map of queries leads to cached entries of the same query.
abbrev pub Agree : QueryMap → Entries → Type 0
Agree m es =
    (q : QueryString) (id : ℕ)
    → get q m ≡ some id
    → (e : Entry) × (lookup id es ≡ some e) × (e.query ≡ q)

-- The cached entry of a new id, or of one that is cached under the same query.
abbrev pub IsFresh : QueryString → Option Entry → Type 0
IsFresh query none = Unit {0}
IsFresh query (some e) = e.query ≡ query

pub Agree-insert :
    (query : QueryString) (stmt : StmtInner) (m : QueryMap) (es : Entries)
    → IsFresh query (lookup stmt.id es)
    → Agree m es
    → Agree
        (insert query stmt.id m)
        ((stmt.id, record { stmt = stmt; query = query }) ∷ erase stmt.id es)
Agree-insert query stmt m es fresh agree q id h = elim (Bool-cases (same query q)) [
  | inl s ↦ (
    record { stmt = stmt; query = query },
    ground (arith, s, (==_iff stmt.id id).1),
    same-eq query q s,
  )
  | inr s ↦
      let (_, found) = get-delete query q id m (ground (arith, s)) in
      let (e, cached, e_query) = agree q id found in
      let ne : stmt.id ≢ id = λ eq.
        ground (arith, s, e_query, same_refl q, ap (λ x. same x q) (other e eq cached ∙ e_query)) in
      (
        e,
        ground (arith, ne, (==_iff stmt.id id).0, lookup-erase_ne stmt.id id es ne, cached),
        e_query,
      )
]
  where
    other : (e : Entry) → stmt.id ≡ id → lookup id es ≡ some e → query ≡ e.query
    other e eq cached = sym (subst (IsFresh query) (ap (λ i. lookup i es) eq ∙ cached) fresh)

-- The last entry leaves both maps.
pub Agree-init :
    (k : ℕ) (x : Entry) (m : QueryMap) (es : Entries)
    → Distinct es
    → last es ≡ some (k, x)
    → Agree m es
    → Agree (delete x.query m) (init es)
Agree-init k x m es d h agree q id found =
    let (ne, before) = get-delete x.query q id m found in
    let (e, cached, e_query) = agree q id before in
    let apart : k ≢ id = λ eq.
      ground (arith, ne, same_refl q, ap (λ y. same y q) (same_query e eq cached ∙ e_query)) in
    (e, lookup-init k id x es h apart ∙ cached, e_query)
  where
    same_query : (e : Entry) → k ≡ id → lookup id es ≡ some e → x.query ≡ e.query
    same_query e eq cached =
        ground (arith, lookup-last k x es d h, ap (λ i. lookup i es) eq, cached)

pub Agree-erase :
    (k : ℕ) (x : Entry) (m : QueryMap) (es : Entries)
    → lookup k es ≡ some x
    → Agree m es
    → Agree (delete x.query m) (erase k es)
Agree-erase k x m es h agree q id found =
    let (ne, before) = get-delete x.query q id m found in
    let (e, cached, e_query) = agree q id before in
    let apart : k ≢ id = λ eq.
      ground (arith, ne, same_refl q, ap (λ y. same y q) (same_query e eq cached ∙ e_query)) in
    (e, lookup-erase_ne k id es apart ∙ cached, e_query)
  where
    same_query : (e : Entry) → k ≡ id → lookup id es ≡ some e → x.query ≡ e.query
    same_query e eq cached = ground (arith, h, ap (λ i. lookup i es) eq, cached)
