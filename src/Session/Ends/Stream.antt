-- ===== src/Session/Ends/Stream.antt =====
-- src/queryable/query_result/result_set_stream.rs: a stream, polled up to its end.
use mysql_async.Conn.State.{text, PendingResult, pending, taken}
use mysql_async.Conn.TxStatus.{TxStatus}
use mysql_async.Conn.Pending.{Pended, take_pending_result, take_pending}
use mysql_async.Session.Outcome.{
  driver, io, parse, local_infile, other, server, Outcome, ok, err, panicked, stuck, ◌>>=◌, return,
  throw,
}
use mysql_async.Session.Protocol.{MySqlCommon, Protocol}
use mysql_async.Session.State.{Session, M}
use mysql_async.Session.QueryResult.{use_pending, out_of_fuel, fueled, skip_taken}
use mysql_async.Session.Stream.{
  ResultSetStreamState, idle, next_fut, ResultSetStream, Polled, item, failed, ended, not_ready,
  finished, poll_future, poll_state, poll_next, opened, took, take_stream, setup_with, stream,
}
use mysql_async.Session.Ends.{
  Ends, Post, bind-Ends, weaken-Ends, is_taken, Fresh, Anything, Keeps, Keeps-mono, Keeps-exact,
}
use mysql_async.Session.Ends.Reading.{Shorter}
use mysql_async.Session.Ends.Starts.{Idle, no_error}
use mysql_async.Session.Ends.Rows.{Held, Done, Next, Done-mono, next_row_or_next_set-Ends}
use mysql_async.Session.Ends.Drops.{use_pending-Ends, skip_taken-Ends}
use mysql_async.Prelude
use mysql_async.Prelude.{
  ℕ, zero, suc, ◌≤◌, ◌<◌, ◌≡◌, refl, sym, ap, inl, inr, Bool, true, false, Option, none, some, List,
  [], ◌∷◌, ◌++◌, arith, length, subst,
}

-- What a ready poll of a stream that is not at its end gives: a row, which took a packet; or the end,
-- after the end of the rows or an error.
record IsAt (state : Option ResultSetStreamState) (P : Type 0) (stream : ResultSetStream)
    : Type 0 where
  at_state : stream.query_result ≡ state
  holds : P

Yields :
    {L R : Type 0} → MySqlCommon R → ℕ → TxStatus → Polled R × ResultSetStream → Session L → Type 0
Yields common n t (item row, st) s = IsAt (some idle) (Shorter common t Held n s) st
Yields common n t (failed (server e), st) s = IsAt none (Idle common n t s) st
Yields common n t (failed _, st) s = IsAt none (Unit {0}) st
Yields common n t (ended, st) s = IsAt none (Done common n t s) st
Yields common n t (not_ready, st) s = ⊥

module _ {L : Type 0} {R : Type 0} {common : MySqlCommon R} {t : TxStatus} where
  finished-Ends :
      {n : ℕ} {E : Session L → Type 0} (st : ResultSetStream) (r : Outcome (Option R) × Session L)
      → Ends (Next common n t) (Idle common n t) r
      → Ends (Yields common n t) E (finished st r)
  unfolding finished Yields Post
  finished-Ends st (ok (some row), s) e = record {
    post = record { at_state = refl; holds = e.post };
  }
  finished-Ends st (ok none, s) e = record { post = record { at_state = refl; holds = e.post } }
  finished-Ends st (err (server x), s) e = record {
    post = record { at_state = refl; holds = e.post };
  }
  finished-Ends st (err (driver x), s) e = record { post = record { at_state = refl; holds = tt } }
  finished-Ends st (err io, s) e = record { post = record { at_state = refl; holds = tt } }
  finished-Ends st (err parse, s) e = record { post = record { at_state = refl; holds = tt } }
  finished-Ends st (err (local_infile x), s) e = record {
    post = record { at_state = refl; holds = tt };
  }
  finished-Ends st (err (other x), s) e = record { post = record { at_state = refl; holds = tt } }
  finished-Ends st (panicked, s) e = absurd e.post
  finished-Ends st (stuck, s) e = absurd e.post

  module _ (protocol : Protocol) where
    poll_next-Ends :
        {n : ℕ} {E : Session L → Type 0} (state : ResultSetStreamState) (st : ResultSetStream)
        (s : Session L)
        → st.query_result ≡ some state
        → Keeps common n t Held s
        → Ends (Yields common n t) E (poll_next common protocol true st s)
    unfolding poll_next poll_state poll_future
    poll_next-Ends {n} {E} state st s e k =
        subst (λ q. Ends (Yields common n t) E (poll_state common protocol true st q s)) (sym e)
          (by_state state)
      where
        by_state :
            (state : ResultSetStreamState)
            → Ends (Yields common n t) E (poll_state common protocol true st (some state) s)
        by_state idle =
            finished-Ends st _ (next_row_or_next_set-Ends protocol (text st.columns) s k)
        by_state next_fut =
            finished-Ends st _ (next_row_or_next_set-Ends protocol (text st.columns) s k)

-- `TryStreamExt::try_collect`, for futures that are ready: the rows up to the end or the first error.
module _ {L : Type 0} {R : Type 0} (common : MySqlCommon R) (protocol : Protocol) where
  unfoldable pub after_poll :
      (List R → ResultSetStream → M L (List R)) → List R → Polled R × ResultSetStream → M L (List R)
  after_poll more rows (item row, st) = more (rows ++ row ∷ []) st
  after_poll more rows (failed e, st) = throw e
  after_poll more rows (ended, st) = return rows
  after_poll more rows (not_ready, st) = out_of_fuel

  unfoldable pub try_collect : ℕ → List R → ResultSetStream → M L (List R)
  try_collect zero rows st = out_of_fuel
  try_collect (suc polls) rows st =
      poll_next common protocol true st >>= after_poll (try_collect polls) rows

  unfoldable pub rows_of : Option ResultSetStream → M L (List R)
  rows_of none = return []
  rows_of (some st) = fueled (λ polls. try_collect polls [] st)

-- A stream that was opened is idle, and without one nothing is pending.
Opens : {L R : Type 0} → MySqlCommon R → ℕ → TxStatus → Option ResultSetStream → Session L → Type 0
Opens common n t none s = Idle common n t s
Opens common n t (some st) s = IsAt (some idle) (Keeps common n t Held s) st

module _ {L : Type 0} {R : Type 0} {common : MySqlCommon R} {t : TxStatus} where
  take_stream-Ends :
      {n : ℕ} (s : Session L)
      → Keeps common n t Fresh s
      → Ends (Opens common n t) (Idle common n t) (take_stream s)
  unfolding take_stream take_pending_result take_pending Post took Opens opened
  take_stream-Ends {n} s k = go s.conn.pending_result k.pended
    where
      go :
          (q : Pended)
          → is_taken q ≡ false
          → Ends
              (Opens common n t)
              (Idle common n t)
              (took ((take_pending q).0, record (s.conn) { pending_result = (take_pending q).1 }) s)
      go (Prelude.Result.ok none) h = record {
        post = record { safe = k.safe; short = k.short; tx = k.tx; pended = refl };
      }
      go (Prelude.Result.ok (some (pending meta))) h = record {
        post = record {
          at_state = refl;
          holds = record { safe = k.safe; short = k.short; tx = k.tx; pended = refl };
        };
      }
      go (Prelude.Result.ok (some (taken meta))) h = absurd (ground (arith, h))
      go (Prelude.Result.err e) h = record {
        post = record { safe = k.safe; short = k.short; tx = k.tx; pended = refl };
      }

  take_stream-Done-Ends :
      {n : ℕ} (s : Session L)
      → Done common n t s
      → Ends (Opens common n t) (Idle common n t) (take_stream s)
  take_stream-Done-Ends s (inl k) =
      take_stream-Ends s (Keeps-mono k (omega arith) (λ q e. ap is_taken e))
  take_stream-Done-Ends s (inr k) = take_stream-Ends s k.0

  module _ (protocol : Protocol) where
    setup_with-Ends :
        {n : ℕ} (p : Option PendingResult) (s : Session L)
        → Keeps common n t (λ q. q ≡ Prelude.Result.ok p) s
        → Ends (Opens common n t) (Idle common n t) (setup_with common protocol p s)
    unfolding setup_with Post Opens
    setup_with-Ends none s k = record { post = k }
    setup_with-Ends (some (pending meta)) s k =
        take_stream-Ends s (Keeps-mono k (omega arith) (λ q e. ap is_taken e))
    setup_with-Ends (some (taken meta)) s k =
        bind-Ends (fueled (skip_taken common protocol meta)) (λ _. take_stream) s
          (skip_taken-Ends protocol meta (suc (length s.incoming)) s
            (Keeps-mono k (omega arith) (λ q e. ap no_error e)) (omega arith))
          (λ _ s' d. take_stream-Done-Ends s' d)

    stream-Ends :
        {n : ℕ} (s : Session L)
        → Keeps common n t Anything s
        → Ends (Opens common n t) (Idle common n t) (stream common protocol s)
    unfolding stream
    stream-Ends s k =
        bind-Ends use_pending (setup_with common protocol) s (use_pending-Ends s k)
          (λ p s' k'. setup_with-Ends p s' k'.0)

    try_collect-Ends :
        (polls : ℕ) {n : ℕ} (rows : List R) (st : ResultSetStream) (s : Session L)
        → IsAt (some idle) (Keeps common n t Held s) st
        → length s.incoming < polls
        → Ends
            (λ _ s'. Done common n t s')
            (Idle common n t)
            (try_collect common protocol polls rows st s)
    unfolding try_collect after_poll Yields Post
    try_collect-Ends zero rows st s a lt = absurd (omega (arith, lt))
    try_collect-Ends (suc polls) {n} rows st s a lt =
        weaken-Ends
          (bind-Ends (poll_next common protocol true st)
            (after_poll common protocol (try_collect common protocol polls) rows) s
            (poll_next-Ends protocol idle st s a.at_state (Keeps-exact a.holds))
            (go (λ rows st s' a lt. try_collect-Ends polls rows st s' a lt)))
          (λ _ s' d. Done-mono d a.holds.short) (λ s' k. Keeps-mono k a.holds.short (λ q h. h))
      where
        go :
            ((rows : List R) (st : ResultSetStream) (s' : Session L)
              → IsAt (some idle) (Keeps common (length s.incoming) t Held s') st
              → length s'.incoming < polls
              → Ends
                  (λ _ s''. Done common (length s.incoming) t s'')
                  (Idle common (length s.incoming) t)
                  (try_collect common protocol polls rows st s'))
            → (r : Polled R × ResultSetStream) (s' : Session L)
            → Yields common (length s.incoming) t r s'
            → Ends
                (λ _ s''. Done common (length s.incoming) t s'')
                (Idle common (length s.incoming) t)
                (after_poll common protocol (try_collect common protocol polls) rows r s')
        go more (item row, st') s' y =
            more (rows ++ row ∷ []) st' s' (record { at_state = y.at_state; holds = y.holds.0 })
              (omega (arith, y.holds.1, lt))
        go more (failed (server x), st') s' y = record { post = y.holds }
        go more (failed (driver x), st') s' y = record { post = tt }
        go more (failed io, st') s' y = record { post = tt }
        go more (failed parse, st') s' y = record { post = tt }
        go more (failed (local_infile x), st') s' y = record { post = tt }
        go more (failed (other x), st') s' y = record { post = tt }
        go more (ended, st') s' y = record { post = y.holds }
        go more (not_ready, st') s' y = absurd y

    rows_of-Ends :
        {n : ℕ} (o : Option ResultSetStream) (s : Session L)
        → Opens common n t o s
        → Ends (λ _ s'. Done common n t s') (Idle common n t) (rows_of common protocol o s)
    unfolding rows_of Post Opens
    rows_of-Ends none s k = record { post = inl k }
    rows_of-Ends (some st) s a = try_collect-Ends (suc (length s.incoming)) [] st s a (omega arith)

    -- Where the packets to come are safe, and from any pending result, a result set that is opened
    -- by `stream` and polled, its futures ready, up to its end or its first error, ends without a
    -- panic. Without an error, nothing is pending afterwards, or the next result set is pending,
    -- not taken; after an error of the server, which the opening or a poll gives, nothing is
    -- pending; and in both cases the transaction status is as before and no packet was added to
    -- those to come.
    pub rows_of-stream-Ends :
        {n : ℕ} (s : Session L)
        → Keeps common n t Anything s
        → Ends
            (λ _ s'. Done common n t s')
            (Idle common n t)
            ((stream common protocol >>= rows_of common protocol) s)
    rows_of-stream-Ends s k =
        bind-Ends (stream common protocol) (rows_of common protocol) s (stream-Ends s k)
          (λ o s' a. rows_of-Ends o s' a)
