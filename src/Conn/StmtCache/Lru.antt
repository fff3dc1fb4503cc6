-- ===== src/Conn/StmtCache/Lru.antt =====
-- The lru crate, as src/conn/stmt_cache.rs uses it, and the entries of the cache. A query is the list
-- of its bytes.
use mysql_async.Conn.State.{Column}
use mysql_async.Prelude.{
  ℕ, ◌≡◌, refl, inl, inr, Bool, true, false, ◌&&◌, Option, none, some, List, [], ◌∷◌, arith, ◌==◌,
  if◌then◌else◌, ==_iff, Bool-cases, length,
}

abbrev pub QueryString : Type 0
QueryString = List ℕ

abbrev pub same : QueryString → QueryString → Bool
same [] [] = true
same (a ∷ xs) (b ∷ ys) = (a == b) && same xs ys
same _ _ = false

pub same_refl : (a : QueryString) → same a a ≡ true
same_refl [] = refl
same_refl (a ∷ xs) = ground (arith, (==_iff a a).1 refl, same_refl xs)

pub same-eq : (a b : QueryString) → same a b ≡ true → a ≡ b
same-eq [] [] h = refl
same-eq [] (b ∷ ys) h = cc
same-eq (a ∷ xs) [] h = cc
same-eq (a ∷ xs) (b ∷ ys) h = elim (Bool-cases (a == b)) [
  | inl e ↦ ground (arith, (==_iff a b).0 e, same-eq xs ys)
  | inr e ↦ absurd (ground arith)
]

pub record StmtInner : Type 0 where
  pub id : ℕ
  pub raw_query : QueryString
  pub num_params : ℕ
  pub num_columns : ℕ
  pub params : List Column
  pub columns : List Column
  pub connection_id : ℕ

pub record Entry : Type 0 where
  pub stmt : StmtInner
  pub query : QueryString

pub record LruCache (L : Type 0) : Type 0 where
  pub unbounded : L
  pub get : L → ℕ → Option Entry × L
  pub put : L → ℕ → Entry → L
  pub pop_lru : L → Option (ℕ × Entry) × L
  pub pop : L → ℕ → Option Entry × L
  pub clear : L → L
  pub len : L → ℕ

-- The entries with their keys, the most recently used first.
abbrev pub Entries : Type 0
Entries = List (ℕ × Entry)

abbrev pub lookup : ℕ → Entries → Option Entry
lookup k [] = none
lookup k ((j, e) ∷ es) = if j == k then some e else lookup k es

abbrev pub erase : ℕ → Entries → Entries
erase k [] = []
erase k ((j, e) ∷ es) = if j == k then erase k es else (j, e) ∷ erase k es

abbrev pub promote : ℕ → Entries → Entries
promote k es = elim (lookup k es) [ none ↦ es | some e ↦ (k, e) ∷ erase k es ]

abbrev pub last : Entries → Option (ℕ × Entry)
last [] = none
last (x ∷ []) = some x
last (x ∷ y ∷ es) = last (y ∷ es)

abbrev pub init : Entries → Entries
init [] = []
init (x ∷ []) = []
init (x ∷ y ∷ es) = x ∷ init (y ∷ es)

-- What the crate documents.
pub record IsLruCache {L : Type 0} (lru : LruCache L) : Type 0 where
  pub entries : L → Entries
  pub entries_unbounded : entries lru.unbounded ≡ []
  pub entries_clear : (l : L) → entries (lru.clear l) ≡ []
  pub entries_put :
      (l : L) (k : ℕ) (e : Entry) → entries (lru.put l k e) ≡ (k, e) ∷ erase k (entries l)
  pub get_found : (l : L) (k : ℕ) → (lru.get l k).0 ≡ lookup k (entries l)
  pub entries_get : (l : L) (k : ℕ) → entries (lru.get l k).1 ≡ promote k (entries l)
  pub pop_found : (l : L) (k : ℕ) → (lru.pop l k).0 ≡ lookup k (entries l)
  pub entries_pop : (l : L) (k : ℕ) → entries (lru.pop l k).1 ≡ erase k (entries l)
  pub pop_lru_last : (l : L) → (lru.pop_lru l).0 ≡ last (entries l)
  pub entries_pop_lru : (l : L) → entries (lru.pop_lru l).1 ≡ init (entries l)
  pub len_entries : (l : L) → lru.len l ≡ length (entries l)

-- A cache kept xs the list of its entries.
instance abbrev pub by_recency : LruCache Entries
by_recency = record {
  unbounded = [];
  get = λ l k. (lookup k l, promote k l);
  put = λ l k e. (k, e) ∷ erase k l;
  pop_lru = λ l. (last l, init l);
  pop = λ l k. (lookup k l, erase k l);
  clear = λ l. [];
  len = length;
}

abbrev pub by_recency_IsLru : IsLruCache by_recency
by_recency_IsLru = record {
  entries = λ l. l;
  entries_unbounded = refl;
  entries_clear = λ l. refl;
  entries_put = λ l k e. refl;
  get_found = λ l k. refl;
  entries_get = λ l k. refl;
  pop_found = λ l k. refl;
  entries_pop = λ l k. refl;
  pop_lru_last = λ l. refl;
  entries_pop_lru = λ l. refl;
  len_entries = λ l. refl;
}
