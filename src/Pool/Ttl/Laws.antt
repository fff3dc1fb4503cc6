-- ===== src/Pool/Ttl/Laws.antt =====
-- src/conn/pool/ttl_check_inerval.rs: which idle connections the check keeps, and what it does to
-- the counts of the pool.
use mysql_async.Conn.State.{Instant}
use mysql_async.Opts.PoolOpts.{PoolOpts, Duration}
use mysql_async.Pool.Exchange.{count_available}
use mysql_async.Pool.Exchange.Laws.{Counted}
use mysql_async.Pool.State.{IdlingConn, expired, elapsed, Task, disconnect_idling, Inner}
use mysql_async.Pool.Ttl.{is_dropped, sort_out, spawn_disconnects, finish_disconnect, check_ttl}
use mysql_async.Prelude.{
  ℕ, suc, ◌+◌, ◌-◌, ◌≤◌, ◌<◌, ◌≡◌, refl, ap, ◌∙◌, ◌⊎◌, inl, inr, true, false, not, ◌||◌, List, [],
  ◌∷◌, arith, ltb, if◌then◌else◌, Bool-cases, length, All, wrapping_sub_fits, returns, assert,
  >>=_of_returns,
}

-- Each element of the third list is in one of the other two, whose order is that of the third.
pub data Interleaved {ℓ} {A : Type ℓ} : List A → List A → List A → Type ℓ where
  nil : Interleaved [] [] []
  left : {x : A} {ds ks cs : List A} → Interleaved ds ks cs → Interleaved (x ∷ ds) ks (x ∷ cs)
  right : {x : A} {ds ks cs : List A} → Interleaved ds ks cs → Interleaved ds (x ∷ ks) (x ∷ cs)

pub Interleaved-length {ℓ} :
    {A : Type ℓ} {ds ks cs : List A} → Interleaved ds ks cs → length ds + length ks ≡ length cs
Interleaved-length nil = refl
Interleaved-length (left s) = omega (arith, Interleaved-length s)
Interleaved-length (right s) = omega (arith, Interleaved-length s)

-- The connections past their absolute deadline.
abbrev pub count_expired : Instant → List IdlingConn → ℕ
count_expired now [] = 0
count_expired now (c ∷ cs) =
    if expired now c then suc (count_expired now cs) else count_expired now cs

-- What the loop makes of `cs`, where `dropped` were dropped before: it keeps the order, keeps
-- nothing past its deadline, drops nothing without a reason, spares `num_to_drop` but for the
-- deadlines, and drops as many of the inactive ones as it may.
pub record IsSortedOut (now : Instant) (ttl : Duration) (num_to_drop dropped : ℕ)
    (ds ks cs : List IdlingConn) : Type 0 where
  pub order : Interleaved ds ks cs
  pub fresh : All (λ c. expired now c ≡ false) ks
  pub old : All (λ c. (expired now c || ltb ttl (elapsed now c)) ≡ true) ds
  pub few : length ds ≤ num_to_drop - dropped + count_expired now cs
  pub many : (num_to_drop - dropped ≤ length ds) ⊎ All (λ c. ltb ttl (elapsed now c) ≡ false) ks

-- A connection is dropped because it is past its deadline, or inactive while there is room.
is_dropped-eq-true :
    (now : Instant) (ttl : Duration) (num_to_drop dropped : ℕ) (c : IdlingConn)
    → is_dropped now ttl num_to_drop dropped c ≡ true
    → (expired now c ≡ true)
      ⊎ ((expired now c ≡ false) × (dropped < num_to_drop) × (ltb ttl (elapsed now c) ≡ true))
unfolding is_dropped
is_dropped-eq-true now ttl num_to_drop dropped c h = ground arith

is_dropped-eq-false :
    (now : Instant) (ttl : Duration) (num_to_drop dropped : ℕ) (c : IdlingConn)
    → is_dropped now ttl num_to_drop dropped c ≡ false
    → (expired now c ≡ false) × ((num_to_drop ≤ dropped) ⊎ (ltb ttl (elapsed now c) ≡ false))
unfolding is_dropped
is_dropped-eq-false now ttl num_to_drop dropped c h = ground arith

dropping :
    (now : Instant) (ttl : Duration) (num_to_drop dropped : ℕ) (c : IdlingConn)
    {ds ks cs : List IdlingConn}
    → is_dropped now ttl num_to_drop dropped c ≡ true
    → IsSortedOut now ttl num_to_drop (suc dropped) ds ks cs
    → IsSortedOut now ttl num_to_drop dropped (c ∷ ds) ks (c ∷ cs)
dropping now ttl num_to_drop dropped c drops rest =
    let why = is_dropped-eq-true now ttl num_to_drop dropped c drops in
    record {
      order = left rest.order;
      fresh = rest.fresh;
      old = (ground arith, rest.old);
      few = ground (arith, rest.few);
      many = elim rest.many [ inl m ↦ inl (omega (arith, m)) | inr a ↦ inr a ];
    }

keeping :
    (now : Instant) (ttl : Duration) (num_to_drop dropped : ℕ) (c : IdlingConn)
    {ds ks cs : List IdlingConn}
    → is_dropped now ttl num_to_drop dropped c ≡ false
    → IsSortedOut now ttl num_to_drop dropped ds ks cs
    → IsSortedOut now ttl num_to_drop dropped ds (c ∷ ks) (c ∷ cs)
keeping now ttl num_to_drop dropped c keeps rest =
    let why = is_dropped-eq-false now ttl num_to_drop dropped c keeps in
    record {
      order = right rest.order;
      fresh = (why.0, rest.fresh);
      old = rest.old;
      few = ground (arith, rest.few);
      many = elim why.1 [
        | inl full ↦ inl (omega (arith, full))
        | inr active ↦ elim rest.many [ inl m ↦ inl m | inr a ↦ inr (active, a) ]
      ];
    }

pub sort_out-IsSortedOut :
    (now : Instant) (ttl : Duration) (num_to_drop dropped : ℕ) (cs : List IdlingConn)
    → let (ds, ks) = sort_out now ttl num_to_drop dropped cs in
      IsSortedOut now ttl num_to_drop dropped ds ks cs
unfolding sort_out
sort_out-IsSortedOut now ttl num_to_drop dropped [] = record {
  order = nil;
  fresh = tt;
  old = tt;
  few = omega arith;
  many = inr tt;
}
sort_out-IsSortedOut now ttl num_to_drop dropped (c ∷ cs) =
    elim (Bool-cases (is_dropped now ttl num_to_drop dropped c)) [
      | inl drops ↦
          rw (drops, sort_out)
            (dropping now ttl num_to_drop dropped c drops
              (sort_out-IsSortedOut now ttl num_to_drop (suc dropped) cs))
      | inr keeps ↦
          rw (keeps, sort_out)
            (keeping now ttl num_to_drop dropped c keeps
              (sort_out-IsSortedOut now ttl num_to_drop dropped cs))
    ]

-- The tasks that disconnect the given connections, the latest first.
abbrev pub disconnects : List IdlingConn → List Task → List Task
disconnects [] ts = ts
disconnects (c ∷ cs) ts = disconnects cs (disconnect_idling c.conn ∷ ts)

module _ {W : Type 0} where
  spawn_disconnects_lem :
      (cs : List IdlingConn) (i : Inner W)
      → All (λ c. c.conn.pool ≡ false) cs
      → spawn_disconnects cs i ≡ returns (record i { spawned = disconnects cs i.spawned })
  unfolding spawn_disconnects
  spawn_disconnects_lem [] i h = refl
  spawn_disconnects_lem (c ∷ cs) i h =
      >>=_of_returns _ (ap (λ b. assert (not b)) h.0)
      ∙ spawn_disconnects_lem cs (record i { spawned = disconnect_idling c.conn ∷ i.spawned }) h.1

All-Interleaved {ℓ κ} :
    {A : Type ℓ} (P : A → Type κ) {ds ks cs : List A} → Interleaved ds ks cs → All P cs → All P ds
All-Interleaved P nil h = tt
All-Interleaved P (left s) h = (h.0, All-Interleaved P s h.1)
All-Interleaved P (right s) h = All-Interleaved P s h.1

module _ {W : Type 0} where
  -- What a check makes of the pool `i`: the connections kept and dropped, each of the latter with
  -- its task, and the counts.
  pub record Checks (now : Instant) (o : PoolOpts) (i j : Inner W) : Type 0 where
    pub dropped : List IdlingConn
    pub sorted :
        IsSortedOut now o.inactive_connection_ttl
          (length i.available - o.constraints.min)
          0
          dropped
          j.available
          i.available
    pub minimum :
        length i.available
        ≤ length j.available
          + (length i.available - o.constraints.min)
          + count_expired now i.available
    pub tasks : j.spawned ≡ disconnects dropped i.spawned
    pub exist : j.exist ≡ i.exist
    pub count : j.metrics.connections_in_pool ≡ length j.available
    pub waiting : j.waiting ≡ i.waiting

  -- Where no idle connection has a handle of the pool, a check does not panic. It keeps the order,
  -- keeps nothing past its deadline, drops nothing without a reason, drops at most the surplus
  -- over the minimum besides what is past its deadline, and drops that surplus or leaves nothing
  -- inactive; each dropped connection gets its task, the gauge is the number kept, and `exist` and
  -- the wait list stay.
  pub check_ttl-Checks :
      (now : Instant) (o : PoolOpts) (i : Inner W)
      → All (λ c. c.conn.pool ≡ false) i.available
      → (j : Inner W) × (check_ttl now o i ≡ returns j) × Checks now o i j
  unfolding check_ttl count_available
  check_ttl-Checks now o i h =
      let num_to_drop = length i.available - o.constraints.min in
      let s = sort_out-IsSortedOut now o.inactive_connection_ttl num_to_drop 0 i.available in
      let total = Interleaved-length s.order in
      let few = s.few in
      (
        _,
        spawn_disconnects_lem _ _ (All-Interleaved _ s.order h),
        record {
          dropped = (sort_out now o.inactive_connection_ttl num_to_drop 0 i.available).0;
          sorted = s;
          minimum = omega (arith, total, few);
          tasks = refl;
          exist = refl;
          count = refl;
          waiting = refl;
        },
      )

  -- Where the gauge is `exist` and some connection exists, the end of a disconnect gives one place
  -- back and keeps the gauge right, and it wakes nobody.
  pub finish_disconnect-frees :
      (i : Inner W)
      → Counted i
      → 0 < i.exist
      → let j = finish_disconnect i in
        (j.exist + 1 ≡ i.exist) × Counted j × (j.woken ≡ i.woken) × (j.waiting ≡ i.waiting)
  unfolding finish_disconnect
  finish_disconnect-frees i c some_exist =
      let less = wrapping_sub_fits i.exist 1 some_exist c.fits in
      let fits = c.fits in
      (omega (arith, less), record { count = refl; fits = omega (arith, less, fits) }, refl, refl)
