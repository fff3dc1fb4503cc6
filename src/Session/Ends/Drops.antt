-- ===== src/Session/Ends/Drops.antt =====
-- src/queryable/query_result/mod.rs: `next` and `drop_result` end, and `drop_result` drains the
-- connection.
use mysql_async.Conn.State.{ResultSetMeta, PendingResult, pending, taken}
use mysql_async.Conn.TxStatus.{TxStatus}
use mysql_async.Conn.Pending
use mysql_async.Conn.Pending.{
  Pended, pend, is_pending, has_pending_result, use_pending_result, set_pending_result,
}
use mysql_async.Session.Outcome.{return}
use mysql_async.Session.Protocol.{MySqlCommon, Protocol}
use mysql_async.Session.State.{Session, M}
use mysql_async.Session.QueryResult.{
  used, use_pending, fueled, by_row, next_by, next_row_or_next_set, skip_taken, next_loop, next,
  drop_rows, drop_loop, drop_result,
}
use mysql_async.Session.Ends.{
  Ends, Post, bind-Ends, Ends-of_if_step, weaken-Ends, is_taken, Fresh, IsDrained, Anything, Keeps,
  Keeps-mono, Keeps-exact,
}
use mysql_async.Session.Ends.Starts.{Idle, Started, no_error}
use mysql_async.Session.Ends.Rows.{Held, Done, Next, Done-mono, next_row_or_next_set-Ends}
use mysql_async.Prelude
use mysql_async.Prelude.{
  ℕ, zero, suc, ◌≤◌, ◌<◌, ◌≡◌, refl, sym, ap, ◌∙◌, inl, inr, Bool, true, false, Option, none, some,
  List, [], ◌∷◌, arith, if◌then◌else◌, length,
}

-- Nothing is pending, by the test of the code.
pub IsDrained-of_false : (q : Pended) → is_pending q ≡ false → IsDrained q
unfolding is_pending
IsDrained-of_false (Prelude.Result.ok none) h = refl
IsDrained-of_false (Prelude.Result.ok (some p)) h = absurd (ground (arith, h))
IsDrained-of_false (Prelude.Result.err e) h = absurd (ground (arith, h))

module _ {L : Type 0} {R : Type 0} {common : MySqlCommon R} {t : TxStatus} where
  -- What `use_pending` hands out stays pending, and an error does not.
  pub use_pending-Ends :
      {n : ℕ} (s : Session L)
      → Keeps common n t Anything s
      → Ends
          (λ p s'.
            Keeps common n t (λ q. q ≡ Prelude.Result.ok p) s'
            × (s.conn.pending_result ≡ Prelude.Result.ok p))
          (Idle common n t)
          (use_pending s)
  unfolding use_pending use_pending_result Pending.use_pending used Post
  use_pending-Ends {n} s k = go s.conn.pending_result refl
    where
      go :
          (q : Pended)
          → s.conn.pending_result ≡ q
          → Ends
              (λ p s'.
                Keeps common n t (λ q'. q' ≡ Prelude.Result.ok p) s'
                × (s.conn.pending_result ≡ Prelude.Result.ok p))
              (Idle common n t)
              (used
                (
                  (Pending.use_pending q).0,
                  record (s.conn) { pending_result = (Pending.use_pending q).1 },
                )
                s)
      go (Prelude.Result.ok p) e = record {
        post = (record { safe = k.safe; short = k.short; tx = k.tx; pended = refl }, e);
      }
      go (Prelude.Result.err x) e = record {
        post = record { safe = k.safe; short = k.short; tx = k.tx; pended = refl };
      }

module _ {L : Type 0} {R : Type 0} {common : MySqlCommon R} {t : TxStatus}
    (protocol : Protocol) where
  -- `skip_taken` with more fuel than packets.
  pub skip_taken-Ends :
      (meta : ResultSetMeta) (fuel : ℕ) {n : ℕ} (s : Session L)
      → Keeps common n t Held s
      → length s.incoming < fuel
      → Ends (λ _ s'. Done common n t s') (Idle common n t) (skip_taken common protocol meta fuel s)
  unfolding skip_taken Post
  skip_taken-Ends meta zero s k lt = absurd (omega (arith, lt))
  skip_taken-Ends meta (suc fuel) s k lt =
      weaken-Ends
        (bind-Ends (next_row_or_next_set common protocol meta) _ s
          (next_row_or_next_set-Ends protocol meta s (Keeps-exact k))
          (go (skip_taken-Ends meta fuel)))
        (λ _ s' d. Done-mono d k.short) (λ s' k'. Keeps-mono k' k.short (λ q h. h))
    where
      go :
          ((s' : Session L)
            → Keeps common (length s.incoming) t Held s'
            → length s'.incoming < fuel
            → Ends
                (λ _ s''. Done common (length s.incoming) t s'')
                (Idle common (length s.incoming) t)
                (skip_taken common protocol meta fuel s'))
          → (o : Option R) (s' : Session L) → Next common (length s.incoming) t o s'
          → Ends
              (λ _ s''. Done common (length s.incoming) t s'')
              (Idle common (length s.incoming) t)
              (by_row (λ _. skip_taken common protocol meta fuel) (return tt) o s')
      go rest (some r) s' k' = rest s' k'.0 (omega (arith, lt, k'.1))
      go rest none s' k' = record { post = k' }

  -- One round, where the result set was not handed out.
  next_by-Fresh-Ends :
      {n : ℕ} (rest : M L (Option R)) (p : Option PendingResult) (s : Session L)
      → Keeps common n t (λ q. q ≡ Prelude.Result.ok p) s
      → is_taken (Prelude.Result.ok p) ≡ false
      → Ends (Next common n t) (Idle common n t) (next_by common protocol rest p s)
  unfolding next_by Post
  next_by-Fresh-Ends rest none s k h = record { post = inl k }
  next_by-Fresh-Ends rest (some (pending meta)) s k h =
      next_row_or_next_set-Ends protocol meta s (Keeps-mono k (omega arith) (λ q e. ap no_error e))
  next_by-Fresh-Ends rest (some (taken meta)) s k h = absurd (ground (arith, h))

  next_loop-Fresh-Ends :
      {n : ℕ} (rounds : ℕ) (s : Session L)
      → Keeps common n t Fresh s
      → Ends (Next common n t) (Idle common n t) (next_loop common protocol (suc rounds) s)
  unfolding next_loop
  next_loop-Fresh-Ends rounds s k =
      bind-Ends use_pending _ s (use_pending-Ends s (Keeps-mono k (omega arith) (λ q h. tt)))
        (λ p s' k'.
          next_by-Fresh-Ends (next_loop common protocol rounds) p s' k'.0
            (ap is_taken (sym k'.1) ∙ k.pended))

  -- After a result set that was handed out was skipped.
  next_loop-Done-Ends :
      {n : ℕ} (s : Session L)
      → Done common n t s
      → Ends (Next common n t) (Idle common n t) (next_loop common protocol 1 s)
  next_loop-Done-Ends s (inl k) =
      next_loop-Fresh-Ends 0 s (Keeps-mono k (omega arith) (λ q h. ap is_taken h))
  next_loop-Done-Ends s (inr k) = next_loop-Fresh-Ends 0 s k.0

  next_by-Ends :
      {n : ℕ} (p : Option PendingResult) (s : Session L)
      → Keeps common n t (λ q. q ≡ Prelude.Result.ok p) s
      → Ends
          (Next common n t)
          (Idle common n t)
          (next_by common protocol (next_loop common protocol 1) p s)
  unfolding next_by Post
  next_by-Ends none s k = record { post = inl k }
  next_by-Ends (some (pending meta)) s k =
      next_row_or_next_set-Ends protocol meta s (Keeps-mono k (omega arith) (λ q e. ap no_error e))
  next_by-Ends (some (taken meta)) s k =
      bind-Ends (fueled (skip_taken common protocol meta)) (λ _. next_loop common protocol 1) s
        (skip_taken-Ends meta _ s (Keeps-mono k (omega arith) (λ q e. ap no_error e)) (omega arith))
        (λ _ s' d. next_loop-Done-Ends s' d)

  -- Where the packets to come are safe, `next` ends without a panic, from any pending result: a
  -- row took a packet from the stream and leaves no pending error, and without a row nothing is
  -- pending or the next result set has started; after an error of the server nothing is pending,
  -- unless the connection broke.
  pub next-Ends :
      {n : ℕ} (s : Session L)
      → Keeps common n t Anything s
      → Ends (Next common n t) (Idle common n t) (next common protocol s)
  unfolding next next_loop
  next-Ends s k =
      bind-Ends use_pending _ s (use_pending-Ends s k) (λ p s' k'. next_by-Ends p s' k'.0)

  drop_rows-Ends :
      (fuel : ℕ) {n : ℕ} (s : Session L)
      → Keeps common n t Anything s
      → length s.incoming < fuel
      → Ends (λ _ s'. Done common n t s') (Idle common n t) (drop_rows common protocol fuel s)
  unfolding drop_rows Post
  drop_rows-Ends zero s k lt = absurd (omega (arith, lt))
  drop_rows-Ends (suc fuel) s k lt =
      weaken-Ends
        (bind-Ends (next common protocol) _ s (next-Ends s (Keeps-exact k))
          (go (drop_rows-Ends fuel)))
        (λ _ s' d. Done-mono d k.short) (λ s' k'. Keeps-mono k' k.short (λ q h. h))
    where
      go :
          ((s' : Session L)
            → Keeps common (length s.incoming) t Anything s'
            → length s'.incoming < fuel
            → Ends
                (λ _ s''. Done common (length s.incoming) t s'')
                (Idle common (length s.incoming) t)
                (drop_rows common protocol fuel s'))
          → (o : Option R) (s' : Session L) → Next common (length s.incoming) t o s'
          → Ends
              (λ _ s''. Done common (length s.incoming) t s'')
              (Idle common (length s.incoming) t)
              (by_row (λ _. drop_rows common protocol fuel) (return tt) o s')
      go rest (some r) s' k' =
          rest s' (Keeps-mono k'.0 (omega arith) (λ q h. tt)) (omega (arith, lt, k'.1))
      go rest none s' k' = record { post = k' }

  Idle-of_false :
      {n : ℕ} (s : Session L)
      → Done common n t s
      → has_pending_result s.conn ≡ false
      → Idle common n t s
  unfolding has_pending_result
  Idle-of_false s (inl k) h = k
  Idle-of_false s (inr k) h = record {
    safe = k.0.safe;
    short = k.0.short;
    tx = k.0.tx;
    pended = IsDrained-of_false s.conn.pending_result h;
  }

  -- Something is pending, so a result set was started.
  Started-of_true :
      {n : ℕ} (s : Session L)
      → Done common n t s
      → has_pending_result s.conn ≡ true
      → Started common n t s
  unfolding has_pending_result is_pending
  Started-of_true s (inl k) h = absurd (grind (arith, sym h ∙ ap is_pending k.pended))
  Started-of_true s (inr k) h = k

  drop_loop-Ends :
      (fuel : ℕ) {n : ℕ} (s : Session L)
      → Keeps common n t Anything s
      → length s.incoming < fuel
      → Ends (λ _ s'. Idle common n t s') (Idle common n t) (drop_loop common protocol fuel s)
  unfolding drop_loop Post
  drop_loop-Ends zero s k lt = absurd (omega (arith, lt))
  drop_loop-Ends (suc fuel) s k lt =
      weaken-Ends
        (bind-Ends (fueled (drop_rows common protocol)) _ s
          (drop_rows-Ends _ s (Keeps-exact k) (omega arith))
          (λ _ s' d. go (drop_loop-Ends fuel) s' d))
        (λ _ s' k'. Keeps-mono k' k.short (λ q h. h)) (λ s' k'. Keeps-mono k' k.short (λ q h. h))
    where
      go :
          ((s' : Session L)
            → Keeps common (length s.incoming) t Anything s'
            → length s'.incoming < fuel
            → Ends
                (λ _ s''. Idle common (length s.incoming) t s'')
                (Idle common (length s.incoming) t)
                (drop_loop common protocol fuel s'))
          → (s' : Session L) → Done common (length s.incoming) t s'
          → Ends
              (λ _ s''. Idle common (length s.incoming) t s'')
              (Idle common (length s.incoming) t)
              ((if has_pending_result s'.conn then drop_loop common protocol fuel else return tt)
                s')
      go rest s' d =
          Ends-of_if_step (has_pending_result s'.conn) (drop_loop common protocol fuel) _ s'
            (λ h.
              let k' = Started-of_true s' d h in
              rest s' (Keeps-mono k'.0 (omega arith) (λ q e. tt)) (omega (arith, lt, k'.1)))
            (λ h. record { post = Idle-of_false s' d h })

  -- Where the packets to come are safe, `drop_result` ends without a panic, also for a result set
  -- that was handed out and with a pending error: afterwards nothing is pending, also where the
  -- server reports an error, and the transaction is as before, unless the connection broke.
  pub drop_result-Ends :
      {n : ℕ} (s : Session L)
      → Keeps common n t Anything s
      → Ends (λ _ s'. Idle common n t s') (Idle common n t) (drop_result common protocol s)
  unfolding drop_result
  drop_result-Ends s k = drop_loop-Ends _ s k (omega arith)
