-- ===== src/Pool/GetConn/Laws.antt =====
-- src/conn/pool/futures/get_conn.rs: what a request and its drop do to the number `exist` and to
-- the connections of the pool.
use mysql_async.Conn.State.{Conn, Instant}
use mysql_async.Pool.Exchange.{cancel_connection, unqueue}
use mysql_async.Pool.Exchange.Laws.{
  Counted, Balanced, stock, Same, Same-refl, Same-Balanced, Same-Counted, Balanced-net,
  Balanced-trans, drop_conn-Same, unqueue-Same, cancel_connection-Balanced, promised, IsAnswer,
  poll_new_conn-Balanced,
}
use mysql_async.Pool.GetConn.{
  GetConn, Pass, continues, finishes, hand_out, after_poll_new_conn, request, connected, checked,
  resolve, enter, begin, resume, poll, cancel, drop_inner, drop,
}
use mysql_async.Pool.State.{Inner, Pool, Error, GetConnInner, done, connecting, checking}
use mysql_async.Pool.State
use mysql_async.Pool.Waitlist.Queue.{Waker, KeyedPriorityQueue}
use mysql_async.Prelude.{
  ℕ, ◌+◌, ◌≤◌, ◌<◌, ◌≡◌, refl, sym, ap, ◌∙◌, Bool, true, false, List, [], ◌∷◌, arith, usize_mod,
  Result, ok, err, Poll, pending, ready, Run, returns, ◌>>◌, assert, >>=_of_returns, if_true, subst,
}

-- The connections that the inner future holds or makes.
abbrev pub holding : GetConnInner → ℕ
holding connecting = 1
holding (checking c) = 1
holding _ = 0

-- 1 where the poll resolves to a connection.
abbrev pub handed : Poll (Result Error Conn) → ℕ
handed (ready (ok c)) = 1
handed _ = 0

abbrev pub is_done : GetConnInner → Bool
is_done done = true
is_done _ = false

-- A pool at work: its recycler receives, the gauge is `exist`, and `exist` has room for the stock
-- and for `held` connections elsewhere.
pub record Sound {W : Type 0} (held : ℕ) (p : Pool W) : Type 0 where
  pub receiver : p.drop.receiver ≡ true
  pub fits : p.opts.constraints.max < usize_mod
  pub counted : Counted p.inner
  pub covered : stock p + held ≤ p.inner.exist

-- A future that may be polled.
pub record IsLive (g : GetConn) : Type 0 where
  pub pool : g.pool ≡ true
  pub ongoing : is_done g.inner ≡ false

is_busy : GetConnInner → Bool
is_busy connecting = true
is_busy (checking c) = true
is_busy _ = false

module _ {W : Type 0} where
  kept : Pass W → ℕ
  kept (continues g p) = holding g.inner
  kept (finishes r g p) = handed r + holding g.inner

  left : Pass W → Pool W
  left (continues g p) = p
  left (finishes r g p) = p

  Live : Pass W → Type 0
  Live (continues g p) = IsLive g
  Live (finishes r g p) = Unit

  Busy : Pass W → Type 0
  Busy (continues g p) = (g.pool ≡ true) × (is_busy g.inner ≡ true)
  Busy (finishes r g p) = Unit

  Goes : (Pass W → Type 0) → ℕ → Pool W → Run (Pass W) → Type 0
  Goes P a p m =
      (pass : Pass W) × (m ≡ returns pass) × Balanced a (kept pass) p (left pass) × P pass

  Balanced-Counted :
      {a b : ℕ} {p q : Pool W}
      → Balanced a b p q
      → p.opts.constraints.max < usize_mod
      → Counted p.inner
      → Counted q.inner
  Balanced-Counted b max_fits c = record {
    count = ground (arith, b.gauge, c.count);
    fits = ground (arith, b.room, c.fits, max_fits);
  }

  Sound-Balanced : {a b : ℕ} {p q : Pool W} → Sound a p → Balanced a b p q → Sound b q
  Sound-Balanced s b = record {
    receiver = b.receiver ∙ s.receiver;
    fits = ground (arith, s.fits, b.opts);
    counted = Balanced-Counted b s.fits s.counted;
    covered = omega (arith, b.balance, s.covered);
  }

  -- The connection that the future holds is handed out.
  hand_out-Goes :
      (c : Conn) (g : GetConn) (p : Pool W)
      → g.pool ≡ true
      → Goes Live 1 p (assert g.pool >> returns (hand_out c g p))
  unfolding Goes kept left Live hand_out
  hand_out-Goes c g p e = (
    _,
    >>=_of_returns _ (ap assert e),
    Balanced-net 1 1 (Same-Balanced p (Same-refl p.inner)) refl,
    tt,
  )

module _ {W : Type 0} ⦃queue : KeyedPriorityQueue W⦄ where
  answer-Goes :
      (g : GetConn) (r : Poll (Result Error GetConnInner)) (p q : Pool W)
      → g.pool ≡ true
      → holding g.inner ≡ 0
      → IsAnswer r
      → Balanced 0 (promised r) p q
      → Goes Busy 0 p (after_poll_new_conn g (r, q))
  unfolding Goes kept left Busy after_poll_new_conn is_busy
  answer-Goes g pending p q e z a b = (_, refl, Balanced-net 0 _ b (omega (arith, z)), tt)
  answer-Goes g (ready (err x)) p q e z a b = (_, refl, Balanced-net 0 _ b (omega (arith, z)), tt)
  answer-Goes g (ready (ok connecting)) p q e z a b = (_, refl, b, (e, refl))
  answer-Goes g (ready (ok (checking c))) p q e z a b = (_, refl, b, (e, refl))
  answer-Goes g (ready (ok State.new)) p q e z a b = absurd a
  answer-Goes g (ready (ok done)) p q e z a b = absurd a

  request-Goes :
      (now : Instant) (waker : Waker) (g : GetConn) (p : Pool W)
      → g.pool ≡ true
      → holding g.inner ≡ 0
      → Sound 0 p
      → Goes Busy 0 p (request now waker g p)
  unfolding Goes request
  request-Goes now waker g p e z s =
      let (r, q, polled, b, a) = poll_new_conn-Balanced now waker g.queue_id p s.fits s.receiver in
      let (pass, ends, b', goes) = answer-Goes g r p q e z a b in
      (
        pass,
        >>=_of_returns _ (ap assert e)
            ∙ >>=_of_returns (λ answer. after_poll_new_conn g answer) polled
            ∙ ends,
        b',
        goes,
      )

  -- The connection that the future holds is lost, after which `i` is what the drop of it leaves.
  lost-Balanced :
      (p : Pool W) {i : Inner W}
      → Same p.inner i
      → Sound 1 p
      → Balanced 1 0 p (record p { inner = cancel_connection i })
  lost-Balanced p {i} same s =
      let covered = s.covered in
      Balanced-net 1 0
        (Balanced-trans (Same-Balanced p same) (
          cancel_connection-Balanced (record p { inner = i }) (Same-Counted same s.counted)
            (omega (arith, same.exist, covered))))
        refl

  resolve-Goes :
      (r : Result Error Conn) (k : GetConnInner) (g : GetConn) (p : Pool W)
      → g.pool ≡ true
      → is_busy k ≡ true
      → Sound (holding k) p
      → Goes Live (holding k) p (resolve r k g p)
  unfolding Goes resolve connected checked kept left Live is_busy
  resolve-Goes (ok c) connecting g p e b s = hand_out-Goes c g p e
  resolve-Goes (ok c) (checking d) g p e b s = hand_out-Goes d g p e
  resolve-Goes (err x) connecting g p e b s =
      (_, >>=_of_returns _ (ap assert e), lost-Balanced p (Same-refl p.inner) s, tt)
  resolve-Goes (err x) (checking d) g p e b s = (
    _,
    >>=_of_returns _ (ap assert e),
    lost-Balanced p (drop_conn-Same d p.inner) s,
    record { pool = e; ongoing = refl },
  )
  resolve-Goes r State.new g p e b s = cc
  resolve-Goes r done g p e b s = cc

  enter-Goes :
      (now : Instant) (waker : Waker) (k : GetConnInner) (g : GetConn) (p : Pool W)
      → g.inner ≡ k
      → IsLive g
      → Sound (holding k) p
      → Goes Busy (holding k) p (enter now waker k g p)
  unfolding Goes enter kept left Busy is_busy
  enter-Goes now waker State.new g p e l s = request-Goes now waker g p l.pool (ap holding e) s
  enter-Goes now waker connecting g p e l s = (
    _,
    refl,
    Balanced-net 1 _ (Same-Balanced p (Same-refl p.inner)) (omega (arith, ap holding e)),
    (l.pool, ap is_busy e),
  )
  enter-Goes now waker (checking c) g p e l s = (
    _,
    refl,
    Balanced-net 1 _ (Same-Balanced p (Same-refl p.inner)) (omega (arith, ap holding e)),
    (l.pool, ap is_busy e),
  )
  enter-Goes now waker done g p e l s = absurd (ground (arith, ap is_done e, l.ongoing))

  begin-Goes :
      (now : Instant) (waker : Waker) (pass : Pass W)
      → Live pass
      → Sound (kept pass) (left pass)
      → Goes Busy (kept pass) (left pass) (begin now waker pass)
  unfolding Goes begin kept left Live Busy
  begin-Goes now waker (continues g p) l s = enter-Goes now waker g.inner g p refl l s
  begin-Goes now waker (finishes r g p) l s =
      (_, refl, Balanced-net _ _ (Same-Balanced p (Same-refl p.inner)) (omega arith), tt)

  -- The outcome of a poll of `g` on `p`.
  Outcome : ℕ → Pool W → Run (Poll (Result Error Conn) × (GetConn × Pool W)) → Type 0
  Outcome a p m =
      (r : Poll (Result Error Conn)) × (g : GetConn) × (q : Pool W) × (m ≡ returns (r, (g, q)))
      × Balanced a (handed r + holding g.inner) p q

  resume-Outcome :
      (now : Instant) (waker : Waker) (results : List (Poll (Result Error Conn))) (pass : Pass W)
      → Busy pass
      → Sound (kept pass) (left pass)
      → Outcome (kept pass) (left pass) (resume now waker results pass)
  unfolding Outcome resume kept left Busy Goes Live
  resume-Outcome now waker results (finishes r g p) b s =
      (r, g, p, refl, Balanced-net _ _ (Same-Balanced p (Same-refl p.inner)) (omega arith))
  resume-Outcome now waker [] (continues g p) b s =
      (pending, g, p, refl, Balanced-net _ _ (Same-Balanced p (Same-refl p.inner)) (omega arith))
  resume-Outcome now waker (pending ∷ results) (continues g p) b s =
      (pending, g, p, refl, Balanced-net _ _ (Same-Balanced p (Same-refl p.inner)) (omega arith))
  resume-Outcome now waker (ready r ∷ results) (continues g p) b s =
      let (pass, e, kept1, live) = resolve-Goes r g.inner g p b.0 b.1 s in
      let s1 = Sound-Balanced s kept1 in
      let (pass', e', kept2, busy) = begin-Goes now waker pass live s1 in
      let (r', g', q, e'', kept3) =
        resume-Outcome now waker results pass' busy (Sound-Balanced s1 kept2) in
      (
        r',
        g',
        q,
        >>=_of_returns _ e ∙ (>>=_of_returns _ e' ∙ e''),
        Balanced-net _ _ (Balanced-trans kept1 (Balanced-trans kept2 kept3)) (omega arith),
      )

  -- A poll of a request that has its pool and is not done never panics, whatever the inner futures
  -- answer, in a pool whose recycler receives and whose `exist` counts the connections in it and
  -- the one of the request: that connection is handed out, still held or given back, and `exist`
  -- moves by exactly that and does not grow past the maximum.
  pub poll-Balanced :
      (now : Instant) (waker : Waker) (results : List (Poll (Result Error Conn))) (g : GetConn)
      (p : Pool W)
      → IsLive g
      → Sound (holding g.inner) p
      → (r : Poll (Result Error Conn)) × (g' : GetConn) × (q : Pool W) × (poll now waker results g p
          ≡ returns (r, (g', q)))
        × Balanced (holding g.inner) (handed r + holding g'.inner) p q
  unfolding poll Outcome kept left Live Busy Goes
  poll-Balanced now waker results g p l s =
      let (pass, e, kept1, busy) = begin-Goes now waker (continues g p) l s in
      let (r, g', q, e', kept2) =
        resume-Outcome now waker results pass busy (Sound-Balanced s kept1) in
      (
        r,
        g',
        q,
        >>=_of_returns _ e ∙ e',
        Balanced-net _ _ (Balanced-trans kept1 kept2) (omega arith),
      )

-- The place that the drop of a future gives back: that of a connection in the making, and not that
-- of a connection under its check.
abbrev pub returned : GetConnInner → ℕ
returned connecting = 1
returned _ = 0

module _ {W : Type 0} ⦃queue : KeyedPriorityQueue W⦄ where
  inner-Balanced :
      (k : GetConnInner) (p : Pool W)
      → Sound (holding k) p
      → Balanced (returned k) 0 p (record p { inner = drop_inner k (cancel k p.inner) })
  unfolding cancel drop_inner
  inner-Balanced connecting p s = lost-Balanced p (Same-refl p.inner) s
  inner-Balanced (checking c) p s = Same-Balanced p (drop_conn-Same c p.inner)
  inner-Balanced State.new p s = Same-Balanced p (Same-refl p.inner)
  inner-Balanced done p s = Same-Balanced p (Same-refl p.inner)

  -- The drop of a request that is not done gives the place of a connection in the making back;
  -- with an idle connection under its check, which is dropped too, `exist` stays as it is.
  pub drop-Balanced :
      (g : GetConn) (p : Pool W)
      → IsLive g
      → Sound (holding g.inner) p
      → Balanced (returned g.inner) 0 p (record p { inner = drop g p.inner })
  unfolding drop
  drop-Balanced g p l s =
      let i = unqueue g.queue_id p.inner in
      let left_list = Same-Balanced p (unqueue-Same g.queue_id p.inner) in
      let gone =
        inner-Balanced g.inner (record p { inner = i })
          (Sound-Balanced s (Balanced-net _ _ left_list (omega arith))) in
      subst {A = Inner W}
        (λ j. Balanced (returned g.inner) 0 p (record p { inner = drop_inner g.inner j }))
        (sym (if_true _ _ l.pool)) (Balanced-net _ _ (Balanced-trans left_list gone) (omega arith))
