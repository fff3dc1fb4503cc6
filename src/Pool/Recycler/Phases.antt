-- ===== src/Pool/Recycler/Phases.antt =====
-- src/conn/pool/recycler.rs: what the loops of one poll do to the connections.
use mysql_async.Conn.State.{Conn, Instant}
use mysql_async.Pool.Waitlist.Queue.{KeyedPriorityQueue}
use mysql_async.Pool.Recycler.Task.{
  Work, Received, message, end_of_channel, Completed, take_at, push_discard, count_discarded,
  count_superfluous, count_unestablished, count_dirty, count_expired, count_cleanup_error,
}
use mysql_async.Pool.Recycler.Laws.{
  held, Files, Files-refl, Files-trans, conn_return-Files, conn_decision-Files,
}
use mysql_async.Pool.Recycler.{
  conn_return, conn_decision, take_cleaned, finish_cleaning, take_reset, take_discarded,
  finish_reset, finish_discard,
}
use mysql_async.Prelude.{
  ℕ, zero, suc, ◌+◌, ◌≡◌, refl, ap, ◌∙◌, inl, inr, Bool, true, false, Option, none, some, List, [],
  ◌∷◌, arith, Option-cases, length,
}

-- The connections among the messages up to the end of the channel.
abbrev pub arrivals : List Received → ℕ
arrivals [] = 0
arrivals (message (some c) ∷ ms) = suc (arrivals ms)
arrivals (message none ∷ ms) = arrivals ms
arrivals (end_of_channel ∷ ms) = 0

-- Whether the messages reach the end of the channel.
abbrev pub ends : List Received → Bool
ends [] = false
ends (message m ∷ ms) = ends ms
ends (end_of_channel ∷ ms) = true

-- A connection comes without its pool, and the signal to exit after the pool was told to close.
abbrev pub IsExpected : Bool → Received → Type 0
IsExpected close (message (some c)) = c.pool ≡ false
IsExpected close (message none) = close ≡ true
IsExpected close end_of_channel = Unit {0}

length-take_at {ℓ} :
    {A : Type ℓ} (n : ℕ) (l r : List A) → take_at n l ≡ some r → length l ≡ length r + 1
unfolding take_at
length-take_at n [] r h = cc
length-take_at zero (x ∷ xs) r h = ground arith
length-take_at (suc n) (x ∷ xs) r h = elim (Option-cases (take_at n xs)) [
  | inl e ↦ ground (arith, e)
  | inr (ys, e) ↦ ground (arith, length-take_at n xs ys e)
]

module _ {W : Type 0} where
  count_discarded-Files :
      (w : Work W) → Files 1 w (count_discarded (record w { inner = count_cleanup_error w.inner }))
  unfolding count_discarded count_cleanup_error
  count_discarded-Files w = record {
    exist = refl;
    count = refl;
    closed = refl;
    close = refl;
    pool_opts = refl;
    eof = refl;
    holds = omega arith;
  }

  -- Only the difference of the numbers counts.
  pub Files-net : {a : ℕ} {v w : Work W} (b : ℕ) → Files a v w → a ≡ b → Files b v w
  Files-net b s e = record {
    exist = s.exist;
    count = s.count;
    closed = s.closed;
    close = s.close;
    pool_opts = s.pool_opts;
    eof = s.eof;
    holds = omega (arith, s.holds);
  }

  -- A connection moves from one place of the recycler to another.
  pub Files-move :
      {u v w : Work W}
      → (v.inner ≡ u.inner)
      → (v.task.pool_opts ≡ u.task.pool_opts)
      → (v.task.eof ≡ u.task.eof)
      → held u ≡ held v + 1
      → Files 1 v w
      → Files 0 u w
  Files-move i o f h s = record {
    exist = s.exist ∙ ap (λ x. x.exist) i;
    count = s.count ∙ ap (λ x. x.metrics.connection_count) i;
    closed = s.closed ∙ ap (λ x. x.closed) i;
    close = s.close ∙ ap (λ x. x.close) i;
    pool_opts = s.pool_opts ∙ o;
    eof = s.eof ∙ f;
    holds = omega (arith, s.holds, h);
  }

module _ {W : Type 0} ⦃queue : KeyedPriorityQueue W⦄ where
  -- The pool is closing: no connection becomes idle.
  pub conn_decision-closing :
      (now : Instant) (c : Conn) (w : Work W)
      → (conn_decision now true c w).inner.available ≡ w.inner.available
  unfolding conn_decision push_discard count_unestablished count_dirty count_expired
  conn_decision-closing now c w = ground arith

  conn_return-closing :
      (now : Instant) (c : Conn) (w : Work W)
      → (conn_return now c true w).inner.available ≡ w.inner.available
  unfolding conn_return push_discard count_superfluous
  conn_return-closing now c w = refl

  take_cleaned-Files :
      (now : Instant) (close : Bool) (r : Option Conn) (w : Work W)
      → Files 1 w (take_cleaned now close r w)
  unfolding take_cleaned
  take_cleaned-Files now close (some c) w = conn_decision-Files now close c w
  take_cleaned-Files now close none w = count_discarded-Files w

  take_reset-Files :
      (now : Instant) (close : Bool) (r : Option Conn) (w : Work W)
      → Files 1 w (take_reset now close r w)
  unfolding take_reset
  take_reset-Files now close (some c) w = conn_return-Files now c close w
  take_reset-Files now close none w = count_discarded-Files w

  take_discarded-Files : (r : Option (Unit {0})) (w : Work W) → Files 1 w (take_discarded r w)
  unfolding take_discarded count_discarded count_cleanup_error
  take_discarded-Files r w = record {
    exist = ground arith;
    count = ground arith;
    closed = ground arith;
    close = ground arith;
    pool_opts = ground arith;
    eof = ground arith;
    holds = ground arith;
  }

  -- The loops over the sets move connections about, and lose none.
  pub finish_cleaning-Files :
      (now : Instant) (close : Bool) (ds : List (Completed Conn)) (w : Work W)
      → Files 0 w (finish_cleaning now close ds w)
  unfolding finish_cleaning
  finish_cleaning-Files now close [] w = Files-refl w
  finish_cleaning-Files now close (d ∷ ds) w =
      elim (Option-cases (take_at d.place w.task.cleaning)) [
        | inl e ↦ rw (e, finish_cleaning) (Files-refl w)
        | inr (rest, e) ↦
            let v : Work W = record w { task = record (w.task) { cleaning = rest } } in
            let moved : Files 0 w (take_cleaned now close d.result v) =
              Files-move refl refl refl
                (omega (arith, length-take_at d.place w.task.cleaning rest e))
                (take_cleaned-Files now close d.result v) in
            rw (e, finish_cleaning)
              (Files-trans moved
                (finish_cleaning-Files now close ds (take_cleaned now close d.result v)))
      ]

  pub finish_reset-Files :
      (now : Instant) (close : Bool) (ds : List (Completed Conn)) (w : Work W)
      → Files 0 w (finish_reset now close ds w)
  unfolding finish_reset
  finish_reset-Files now close [] w = Files-refl w
  finish_reset-Files now close (d ∷ ds) w = elim (Option-cases (take_at d.place w.task.reset)) [
    | inl e ↦ rw (e, finish_reset) (Files-refl w)
    | inr (rest, e) ↦
        let v : Work W = record w { task = record (w.task) { reset = rest } } in
        let moved : Files 0 w (take_reset now close d.result v) =
          Files-move refl refl refl (omega (arith, length-take_at d.place w.task.reset rest e))
            (take_reset-Files now close d.result v) in
        rw (e, finish_reset)
          (Files-trans moved (finish_reset-Files now close ds (take_reset now close d.result v)))
  ]

  pub finish_discard-Files :
      (ds : List (Completed (Unit {0}))) (w : Work W) → Files 0 w (finish_discard ds w)
  unfolding finish_discard
  finish_discard-Files [] w = Files-refl w
  finish_discard-Files (d ∷ ds) w = elim (Option-cases (take_at d.place w.task.discard)) [
    | inl e ↦ rw (e, finish_discard) (Files-refl w)
    | inr (rest, e) ↦
        let v : Work W = record w { task = record (w.task) { discard = rest } } in
        let moved : Files 0 w (take_discarded d.result v) =
          Files-move refl refl refl (omega (arith, length-take_at d.place w.task.discard rest e))
            (take_discarded-Files d.result v) in
        rw (e, finish_discard)
          (Files-trans moved (finish_discard-Files ds (take_discarded d.result v)))
  ]

  take_cleaned-closing :
      (now : Instant) (r : Option Conn) (w : Work W)
      → (take_cleaned now true r w).inner.available ≡ w.inner.available
  unfolding take_cleaned count_discarded count_cleanup_error
  take_cleaned-closing now (some c) w = conn_decision-closing now c w
  take_cleaned-closing now none w = refl

  take_reset-closing :
      (now : Instant) (r : Option Conn) (w : Work W)
      → (take_reset now true r w).inner.available ≡ w.inner.available
  unfolding take_reset count_discarded count_cleanup_error
  take_reset-closing now (some c) w = conn_return-closing now c w
  take_reset-closing now none w = refl

  -- While the pool closes, the loops add nothing to the idle connections.
  pub finish_cleaning-closing :
      (now : Instant) (ds : List (Completed Conn)) (w : Work W)
      → (finish_cleaning now true ds w).inner.available ≡ w.inner.available
  unfolding finish_cleaning
  finish_cleaning-closing now [] w = refl
  finish_cleaning-closing now (d ∷ ds) w = elim (Option-cases (take_at d.place w.task.cleaning)) [
    | inl e ↦ rw (e, finish_cleaning)
    | inr (rest, e) ↦
        let v : Work W = record w { task = record (w.task) { cleaning = rest } } in
        rw (e, finish_cleaning)
          (finish_cleaning-closing now ds (take_cleaned now true d.result v)
            ∙ take_cleaned-closing now d.result v)
  ]

  pub finish_reset-closing :
      (now : Instant) (ds : List (Completed Conn)) (w : Work W)
      → (finish_reset now true ds w).inner.available ≡ w.inner.available
  unfolding finish_reset
  finish_reset-closing now [] w = refl
  finish_reset-closing now (d ∷ ds) w = elim (Option-cases (take_at d.place w.task.reset)) [
    | inl e ↦ rw (e, finish_reset)
    | inr (rest, e) ↦
        let v : Work W = record w { task = record (w.task) { reset = rest } } in
        rw (e, finish_reset)
          (finish_reset-closing now ds (take_reset now true d.result v)
            ∙ take_reset-closing now d.result v)
  ]

  take_discarded-available :
      (r : Option (Unit {0})) (w : Work W)
      → (take_discarded r w).inner.available ≡ w.inner.available
  unfolding take_discarded count_discarded count_cleanup_error
  take_discarded-available r w = ground arith

  pub finish_discard-available :
      (ds : List (Completed (Unit {0}))) (w : Work W)
      → (finish_discard ds w).inner.available ≡ w.inner.available
  unfolding finish_discard
  finish_discard-available [] w = refl
  finish_discard-available (d ∷ ds) w = elim (Option-cases (take_at d.place w.task.discard)) [
    | inl e ↦ rw (e, finish_discard)
    | inr (rest, e) ↦
        let v : Work W = record w { task = record (w.task) { discard = rest } } in
        rw (e, finish_discard)
          (finish_discard-available ds (take_discarded d.result v)
            ∙ take_discarded-available d.result v)
  ]
