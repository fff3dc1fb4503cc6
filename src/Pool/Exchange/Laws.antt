-- ===== src/Pool/Exchange/Laws.antt =====
-- src/conn/pool/mod.rs: what each operation does to the number `exist`, to its gauge and to the
-- connections that the pool holds.
use mysql_async.Conn.State.{Conn, Instant}
use mysql_async.Conn.State
use mysql_async.Pool.Waitlist.Queue.{QueueId, Waker, KeyedPriorityQueue}
use mysql_async.Pool.State.{
  IdlingConn, Inner, Pool, Error, pool_disconnected, GetConnInner, new, done, connecting, checking,
  with_available, with_exist, pop_back, pop_back-eq-some,
}
use mysql_async.Pool.Exchange.{
  spawn_futures_if_needed, drop_conn, send_to_recycler, take_available, count_available,
  count_create_failed, wake_next, cancel_connection, enqueue, highest, connect_or_wait,
  after_search, poll_new_conn, unqueue,
}
use mysql_async.Prelude.{
  ℕ, zero, suc, ◌+◌, ◌≤◌, ◌<◌, ◌≡◌, refl, sym, ap, ◌∙◌, ◌⊎◌, inl, inr, true, not, Option, none,
  some, List, [], ◌∷◌, ◌++◌, arith, ltb, Bool-cases, Option-cases, length, length-append, usize_mod,
  wrapping_add, wrapping_sub, wrapping_add_fits, wrapping_sub_fits, Result, ok, err, Poll, pending,
  ready, returns, >>=_of_returns, if_true, if_false,
}

-- The connections among the messages of the channel.
abbrev pub conns : List (Option Conn) → ℕ
conns [] = 0
conns (none ∷ ms) = conns ms
conns (some c ∷ ms) = suc (conns ms)

pub conns-append : (xs ys : List (Option Conn)) → conns (xs ++ ys) ≡ conns xs + conns ys
conns-append [] ys = omega arith
conns-append (none ∷ xs) ys = conns-append xs ys
conns-append (some c ∷ xs) ys = omega (arith, conns-append xs ys)

module _ {W : Type 0} where
  -- Nothing changed but the wait list, the counters and the tasks.
  pub record Same (i j : Inner W) : Type 0 where
    pub exist : j.exist ≡ i.exist
    pub count : j.metrics.connection_count ≡ i.metrics.connection_count
    pub available : j.available ≡ i.available
    pub close : j.close ≡ i.close
    pub closed : j.closed ≡ i.closed

  pub Same-refl : (i : Inner W) → Same i i
  Same-refl i = record { exist = refl; count = refl; available = refl; close = refl; closed = refl }

  pub Same-trans : {i j k : Inner W} → Same i j → Same j k → Same i k
  Same-trans p q = record {
    exist = q.exist ∙ p.exist;
    count = q.count ∙ p.count;
    available = q.available ∙ p.available;
    close = q.close ∙ p.close;
    closed = q.closed ∙ p.closed;
  }

  -- The idle connections, and those on their way to the recycler.
  abbrev pub stock : Pool W → ℕ
  stock p = length p.inner.available + conns p.drop.queue

  pub spawn-Same : (i : Inner W) → Same i (spawn_futures_if_needed i)
  unfolding spawn_futures_if_needed
  spawn-Same i = ground arith

  pub drop_conn-Same : (c : Conn) (i : Inner W) → Same i (drop_conn c i)
  unfolding drop_conn
  drop_conn-Same c i = ground arith

  pub count_available-Same : (i : Inner W) → Same i (count_available i)
  unfolding count_available
  count_available-Same i = ground arith

  count_create_failed-Same : (i : Inner W) → Same i (count_create_failed i)
  unfolding count_create_failed
  count_create_failed-Same i = ground arith

  module _ ⦃queue : KeyedPriorityQueue W⦄ where
    pub wake_next-Same : (i : Inner W) → Same i (wake_next i)
    unfolding wake_next
    wake_next-Same i = ground arith

    pub enqueue-Same : (waker : Waker) (id : QueueId) (i : Inner W) → Same i (enqueue waker id i)
    unfolding enqueue
    enqueue-Same waker id i = ground arith

    pub unqueue-Same : (id : QueueId) (i : Inner W) → Same i (unqueue id i)
    unfolding unqueue
    unqueue-Same id i = ground arith

  -- Where `connection_count` is `exist`, and `exist` a `usize`.
  pub record Counted (i : Inner W) : Type 0 where
    pub count : i.metrics.connection_count ≡ i.exist
    pub fits : i.exist < usize_mod

  pub Same-Counted : {i j : Inner W} → Same i j → Counted i → Counted j
  Same-Counted s c = record { count = s.count ∙ c.count ∙ sym s.exist; fits = rw s.exist c.fits }

-- `q` is what an operation makes of `p`, to which the caller brings `given` connections and from
-- which it takes `taken`: `exist` moves with the number of connections, its gauge is set to it or
-- both are left, and it does not grow past the maximum.
pub record Balanced {W : Type 0} (given taken : ℕ) (p q : Pool W) : Type 0 where
  pub balance : q.inner.exist + stock p + given ≡ p.inner.exist + stock q + taken
  pub gauge :
      (q.inner.metrics.connection_count ≡ q.inner.exist)
      ⊎ ((q.inner.metrics.connection_count ≡ p.inner.metrics.connection_count)
          × (q.inner.exist ≡ p.inner.exist))
  pub room : (q.inner.exist ≤ p.inner.exist) ⊎ (q.inner.exist ≤ p.opts.constraints.max)
  pub opts : q.opts ≡ p.opts
  pub receiver : q.drop.receiver ≡ p.drop.receiver
  pub close : q.inner.close ≡ p.inner.close
  pub closed : q.inner.closed ≡ p.inner.closed

-- 1 where a connection was found.
abbrev pub found : Option Conn → ℕ
found none = 0
found (some c) = 1

length-pop_back :
    (l : List IdlingConn) (x : IdlingConn) (r : List IdlingConn)
    → pop_back l ≡ some (x, r)
    → length l ≡ length r + 1
length-pop_back l x r h = ap length (pop_back-eq-some l x r h) ∙ length-append r (x ∷ [])

module _ {W : Type 0} where
  pub Same-Balanced :
      (p : Pool W) {j : Inner W} → Same p.inner j → Balanced 0 0 p (record p { inner = j })
  Same-Balanced p s = record {
    balance = ground (arith, ap length s.available);
    gauge = inr (s.count, s.exist);
    room = inl (omega (arith, s.exist));
    opts = refl;
    receiver = refl;
    close = s.close;
    closed = s.closed;
  }

  pub Balanced-trans :
      {a b c d : ℕ} {p q r : Pool W}
      → Balanced a b p q
      → Balanced c d q r
      → Balanced (a + c) (b + d) p r
  Balanced-trans s t = record {
    balance = omega (arith, s.balance, t.balance);
    gauge = ground (arith, s.gauge, t.gauge);
    room = ground (arith, s.room, t.room, s.opts);
    opts = t.opts ∙ s.opts;
    receiver = t.receiver ∙ s.receiver;
    close = t.close ∙ s.close;
    closed = t.closed ∙ s.closed;
  }

  -- Only the difference of what is given and taken counts.
  pub Balanced-net :
      {a b : ℕ} {p q : Pool W} (c d : ℕ) → Balanced a b p q → a + d ≡ c + b → Balanced c d p q
  Balanced-net c d s e = record {
    balance = omega (arith, s.balance);
    gauge = s.gauge;
    room = s.room;
    opts = s.opts;
    receiver = s.receiver;
    close = s.close;
    closed = s.closed;
  }

  -- While the recycler receives, a connection that is sent joins the stock.
  pub send_to_recycler-Balanced :
      (c : Conn) (p : Pool W)
      → p.drop.receiver ≡ true
      → (q : Pool W) × (send_to_recycler c p ≡ returns q) × Balanced 1 0 p q
  unfolding send_to_recycler
  send_to_recycler-Balanced c p open_ = (
    record p { drop = record (p.drop) { queue = p.drop.queue ++ some c ∷ [] } },
    ground arith,
    record {
      balance = omega (arith, conns-append p.drop.queue (some c ∷ []));
      gauge = inr (refl, refl);
      room = inl (omega arith);
      opts = refl;
      receiver = refl;
      close = refl;
      closed = refl;
    },
  )

  -- The search of the idle connections never panics while the recycler receives: it hands out at
  -- most one connection, and every other one that it takes goes to the recycler, all of them still
  -- counted in `exist`.
  pub take_available-Balanced :
      (fuel : ℕ) (now : Instant) (p : Pool W)
      → p.drop.receiver ≡ true
      → (o : Option Conn) × (q : Pool W) × (take_available fuel now p ≡ returns (o, q))
        × Balanced 0 (found o) p q
  unfolding take_available
  take_available-Balanced zero now p open_ = (none, p, refl, Same-Balanced p (Same-refl p.inner))
  take_available-Balanced (suc fuel) now p open_ =
      elim (Option-cases (pop_back p.inner.available)) [
        | inl e ↦ (none, p, rw (e, take_available), Same-Balanced p (Same-refl p.inner))
        | inr ((idle, rest), e) ↦
            let p' : Pool W = record p { inner = with_available rest p.inner } in
            let taken : Balanced 0 1 p p' = record {
              balance = omega (arith, length-pop_back p.inner.available idle rest e);
              gauge = inr (refl, refl);
              room = inl (omega arith);
              opts = refl;
              receiver = refl;
              close = refl;
              closed = refl;
            } in
            elim (Bool-cases (State.expired now idle.conn)) [
              | inl old ↦
                  let (q, sent, kept) = send_to_recycler-Balanced idle.conn p' open_ in
                  let (o, r, rest_done, more) =
                    take_available-Balanced fuel now q (kept.receiver ∙ open_) in
                  (
                    o,
                    r,
                    ground (arith, e, old, sent, rest_done),
                    Balanced-net 0 (found o) (Balanced-trans (Balanced-trans taken kept) more)
                        (omega arith),
                  )
              | inr fresh ↦ (
                some (record (idle.conn) { active_since = now }),
                p',
                ground (arith, e, fresh),
                taken,
              )
            ]
      ]

-- 1 where a call handed out a connection, or the right to make one.
abbrev pub promised : Poll (Result Error GetConnInner) → ℕ
promised (ready (ok connecting)) = 1
promised (ready (ok (checking c))) = 1
promised _ = 0

-- `poll_new_conn` never answers with a future that is new or done.
abbrev pub IsAnswer : Poll (Result Error GetConnInner) → Type 0
IsAnswer (ready (ok new)) = ⊥
IsAnswer (ready (ok done)) = ⊥
IsAnswer _ = Unit

module _ {W : Type 0} where
  -- `exist` and its gauge set to `n`.
  with_exist-Balanced :
      (n a b : ℕ) (p : Pool W)
      → n + a ≡ p.inner.exist + b
      → (n ≤ p.inner.exist) ⊎ (n ≤ p.opts.constraints.max)
      → Balanced a b p (record p { inner = with_exist n p.inner })
  with_exist-Balanced n a b p e room = record {
    balance = omega (arith, e);
    gauge = inl refl;
    room = room;
    opts = refl;
    receiver = refl;
    close = refl;
    closed = refl;
  }

module _ {W : Type 0} ⦃queue : KeyedPriorityQueue W⦄ where
  -- Where the gauge is `exist` and some connection exists, a cancelled connection, which nobody
  -- holds any more, gives its place back.
  pub cancel_connection-Balanced :
      (p : Pool W)
      → Counted p.inner
      → 0 < p.inner.exist
      → Balanced 1 0 p (record p { inner = cancel_connection p.inner })
  unfolding cancel_connection
  cancel_connection-Balanced p c some_exist =
      let n = wrapping_sub p.inner.exist 1 in
      let less = wrapping_sub_fits p.inner.exist 1 some_exist c.fits in
      let freed = with_exist-Balanced n 1 0 p (omega (arith, less)) (inl (omega (arith, less))) in
      Balanced-net 1 0
        (Balanced-trans freed
          (Same-Balanced _ (Same-trans (count_create_failed-Same _) (wake_next-Same _))))
        refl

  connect_or_wait-Balanced :
      (waker : Waker) (id : QueueId) (p : Pool W)
      → p.opts.constraints.max < usize_mod
      → Balanced 0 (promised (connect_or_wait waker id p).0) p (connect_or_wait waker id p).1
  unfolding connect_or_wait
  connect_or_wait-Balanced waker id p fits =
      let i : Inner W = count_available p.inner in
      let same = count_available-Same p.inner in
      let p' : Pool W = record p { inner = i } in
      elim (Bool-cases (ltb i.exist p.opts.constraints.max)) [
        | inl free ↦
            let sum = wrapping_add_fits i.exist 1 (ground arith) in
            rw free (
              Balanced-net 0 1
                (Balanced-trans (Same-Balanced p same) (
                  with_exist-Balanced (wrapping_add i.exist 1) 0 1 p' (omega (arith, sum))
                    (inr (ground (arith, sum)))))
                refl)
        | inr full ↦ rw full (Same-Balanced p (Same-trans same (enqueue-Same waker id i)))
      ]

  after_search-Balanced :
      {p q : Pool W} (waker : Waker) (id : QueueId) (o : Option Conn)
      → Balanced 0 (found o) p q
      → p.opts.constraints.max < usize_mod
      → Balanced 0 (promised (after_search waker id (o, q)).0) p (after_search waker id (o, q)).1
  unfolding after_search
  after_search-Balanced waker id (some c) s fits = s
  after_search-Balanced {q} waker id none s fits =
      Balanced-net 0 _
        (Balanced-trans s (connect_or_wait-Balanced waker id q (ground (arith, s.opts))))
        (omega arith)

  after_search-IsAnswer :
      (waker : Waker) (id : QueueId) (o : Option Conn) (q : Pool W)
      → IsAnswer (after_search waker id (o, q)).0
  unfolding after_search connect_or_wait
  after_search-IsAnswer waker id (some c) q = tt
  after_search-IsAnswer waker id none q =
      elim (Bool-cases (ltb (count_available q.inner).exist q.opts.constraints.max)) [
        | inl free ↦ rw free tt
        | inr full ↦ rw full tt
      ]

  -- While the recycler receives and the maximum is a `usize`, `poll_new_conn` never panics: it
  -- answers with a connection to check, the right to make one, pending or an error, `exist` counts
  -- what is handed out, and it does not grow past the maximum.
  pub poll_new_conn-Balanced :
      (now : Instant) (waker : Waker) (id : QueueId) (p : Pool W)
      → p.opts.constraints.max < usize_mod
      → p.drop.receiver ≡ true
      → (r : Poll (Result Error GetConnInner)) × (q : Pool W) × (poll_new_conn now waker id p
          ≡ returns (r, q))
        × Balanced 0 (promised r) p q
        × IsAnswer r
  unfolding poll_new_conn
  poll_new_conn-Balanced now waker id p fits open_ = elim (Bool-cases p.inner.close) [
    | inl closing ↦ (
      ready (err pool_disconnected),
      p,
      if_true _ _ closing,
      Same-Balanced p (Same-refl p.inner),
      tt,
    )
    | inr going ↦
        let i : Inner W = spawn_futures_if_needed p.inner in
        let same = spawn-Same p.inner in
        let p' : Pool W = record p { inner = i } in
        elim (Bool-cases (highest id i)) [
          | inl first ↦
              let (o, q, e, kept) = take_available-Balanced (length i.available) now p' open_ in
              (
                (after_search waker id (o, q)).0,
                (after_search waker id (o, q)).1,
                if_false _ _ going
                    ∙ (if_false _ _ (ap not first)
                        ∙ >>=_of_returns (λ r. returns (after_search waker id r)) e),
                after_search-Balanced waker id o
                    (Balanced-net 0 (found o) (Balanced-trans (Same-Balanced p same) kept)
                      (omega arith))
                    fits,
                after_search-IsAnswer waker id o q,
              )
          | inr behind ↦ (
            pending,
            record p { inner = enqueue waker id i },
            if_false _ _ going ∙ if_true _ _ (ap not behind),
            Same-Balanced p (Same-trans same (enqueue-Same waker id i)),
            tt,
          )
        ]
  ]
