-- ===== src/Session/Ends/Cleanup.antt =====
-- src/conn/mod.rs: `drop_result`, `clean_dirty`, `rollback_transaction` and `cleanup_for_pool` end,
-- and leave nothing pending.
use mysql_async.Conn.State
use mysql_async.Conn.State.{Conn, ResultSetMeta, text, binary, PendingResult, pending, taken}
use mysql_async.Conn.TxStatus.{TxStatus, is_open, is_abandoned}
use mysql_async.Conn.Pending.{Pended, pend, is_pending, has_pending_result, set_pending_result}
use mysql_async.Session.Outcome.{
  driver, io, parse, local_infile, other, server, is_fatal, Outcome, ok, err, panicked, stuck, ◌>>◌,
  return,
}
use mysql_async.Session.Protocol.{MySqlCommon, text_protocol, binary_protocol, com_query}
use mysql_async.Session.State.{Session, M, with_conn, modify}
use mysql_async.Session.ResultSets.{read_result_set, debug_assert}
use mysql_async.Session.QueryResult.{use_pending}
use mysql_async.Session.Commands.{
  rollback_query, replaced_meta, take_meta, drop_pending, drop_conn_result, write_after,
  raw_query_after, query_drop_after, rollback_after, clean_dirty_after, clean_dirty_at, clean_dirty,
  query_drop, rollback_transaction, ignore_non_fatal, retry_after, cleanup_loop, cleanup_for_pool,
}
use mysql_async.Session.Ends.{
  Ends, Post, bind-Ends, routine-Ends, Ends-of_if, Ends-of_if_step, weaken-Ends, is_taken, Anything,
  Keeps, Keeps-mono, Keeps-set_disconnected,
}
use mysql_async.Session.Ends.Reading.{write_packet-Ends}
use mysql_async.Session.Ends.Starts.{Idle, Pends, read_result_set-Ends}
use mysql_async.Session.Ends.Drops.{use_pending-Ends, drop_result-Ends, IsDrained-of_false}
use mysql_async.Prelude
use mysql_async.Prelude.{
  ℕ, zero, suc, ◌≤◌, ◌<◌, ◌≡◌, refl, sym, ap, ◌∙◌, ◌⊎◌, inl, inr, Bool, true, false, Option, none,
  some, List, [], ◌∷◌, arith, if◌then◌else◌,
}

pend_fresh : (meta : Option ResultSetMeta) → is_taken (Prelude.Result.ok (pend meta)) ≡ false
unfolding pend
pend_fresh none = refl
pend_fresh (some meta) = refl

module _ {L : Type 0} {R : Type 0} {common : MySqlCommon R} {t : TxStatus} {n : ℕ} where
  take_meta-Ends :
      (s : Session L)
      → Keeps common n t Anything s
      → Ends (λ _ s'. Idle common n t s') (Idle common n t) (take_meta s)
  unfolding take_meta replaced_meta set_pending_result pend Post
  take_meta-Ends s k = go s.conn.pending_result
    where
      go :
          (q : Pended)
          → Ends
              (λ _ s'. Idle common n t s')
              (Idle common n t)
              (replaced_meta (q, (set_pending_result none s.conn).1) s)
      go (Prelude.Result.ok p) = record {
        post = record { safe = k.safe; short = k.short; tx = k.tx; pended = refl };
      }
      go (Prelude.Result.err e) = record {
        post = record { safe = k.safe; short = k.short; tx = k.tx; pended = refl };
      }

  drop_pending-Ends :
      (p : Option PendingResult) (s : Session L)
      → Keeps common n t (λ q. q ≡ Prelude.Result.ok p) s
      → is_taken (Prelude.Result.ok p) ≡ false
      → Ends (λ _ s'. Idle common n t s') (Idle common n t) (drop_pending common p s)
  unfolding drop_pending Post
  drop_pending-Ends none s k h = record { post = k }
  drop_pending-Ends (some (pending (text cols))) s k h =
      drop_result-Ends text_protocol s (Keeps-mono k (omega arith) (λ q e. tt))
  drop_pending-Ends (some (pending (binary cols))) s k h =
      drop_result-Ends binary_protocol s (Keeps-mono k (omega arith) (λ q e. tt))
  drop_pending-Ends (some (taken meta)) s k h = absurd (ground (arith, h))

  pub drop_conn_result-Ends :
      (s : Session L)
      → Keeps common n t Anything s
      → Ends (λ _ s'. Idle common n t s') (Idle common n t) (drop_conn_result common s)
  unfolding drop_conn_result set_pending_result
  drop_conn_result-Ends s k = bind-Ends take_meta _ s (take_meta-Ends s k) (λ meta s' k'.
      bind-Ends use_pending (drop_pending common) (with_conn (set_pending_result meta s'.conn).1 s')
        (use_pending-Ends _ (record { safe = k'.safe; short = k'.short; tx = k'.tx; pended = tt }))
        (λ p s'' k''. drop_pending-Ends p s'' k''.0 (ap is_taken (sym k''.1) ∙ pend_fresh meta)))

-- Once cleaned, an abandoned transaction is gone.
abbrev pub cleaned : TxStatus → TxStatus
cleaned TxStatus.requires_rollback = TxStatus.none
cleaned t = t

-- `clean` drains a connection, and leaves its transaction alone.
abbrev pub Drains : {L R : Type 0} → MySqlCommon R → ℕ → TxStatus → M L (Unit {0}) → Type 0
Drains common n t clean =
    (s : _)
    → Keeps common n t Anything s
    → Ends (λ _ s'. Idle common n t s') (Idle common n t) (clean s)

module _ {L : Type 0} {R : Type 0} {common : MySqlCommon R} {t : TxStatus} {n : ℕ}
    (clean : M L (Unit {0})) where
  pub raw_query_after-Ends :
      (q : List ℕ) (s : Session L)
      → Drains common n t clean
      → Keeps common n t Anything s
      → Ends (λ _ s'. Pends common n t s') (Idle common n t) (raw_query_after common clean q s)
  unfolding raw_query_after write_after
  raw_query_after-Ends q s drains k =
      routine-Ends {P' = λ _ s'. Pends common n t s'}
        (write_after clean (com_query q) >> read_result_set common text_protocol true) s
        (bind-Ends (write_after clean (com_query q)) _ _
          (bind-Ends clean _ _ (drains _ (Keeps-set_disconnected true k))
            (λ _ s' k'. write_packet-Ends _ s' k'))
          (λ _ s' k'. read_result_set-Ends text_protocol true s' k'))
        (λ _ s' k'. Keeps-set_disconnected false k'.0) (λ s' k'. Keeps-set_disconnected false k')

  query_drop_after-Ends :
      (q : List ℕ) (s : Session L)
      → Drains common n t clean
      → Keeps common n t Anything s
      → Ends (λ _ s'. Idle common n t s') (Idle common n t) (query_drop_after common clean q s)
  unfolding query_drop_after
  query_drop_after-Ends q s drains k =
      bind-Ends (raw_query_after common clean q) _ s (raw_query_after-Ends q s drains k)
        (λ _ s' k'. drop_result-Ends text_protocol s' (Keeps-mono k' (omega arith) (λ q e. tt)))

module _ {L : Type 0} {R : Type 0} {common : MySqlCommon R} {t : TxStatus} {n : ℕ}
    (clean : M L (Unit {0})) where
  -- A rollback ends the transaction, whether or not the server takes it.
  rollback_after-Ends :
      (s : Session L)
      → Drains common n TxStatus.none clean
      → is_open t ≡ true
      → Keeps common n t Anything s
      → Ends
          (λ _ s'. Idle common n TxStatus.none s')
          (Idle common n TxStatus.none)
          (rollback_after common clean s)
  unfolding rollback_after State.set_tx_status Post
  rollback_after-Ends s drains open_ k =
      bind-Ends {P = λ _ s'. Keeps common n t Anything s'} (debug_assert (is_open s.conn.tx_status))
        (λ _.
          modify (State.set_tx_status TxStatus.none)
          >> query_drop_after common clean rollback_query)
        s (asserted (is_open s.conn.tx_status) (ap is_open k.tx ∙ open_))
        (λ _ s' k'.
          query_drop_after-Ends clean rollback_query _ drains
            (record { safe = k'.safe; short = k'.short; tx = refl; pended = tt }))
    where
      asserted :
          (b : Bool)
          → b ≡ true
          → Ends
              (λ _ s'. Keeps common n t Anything s')
              (Idle common n TxStatus.none)
              (debug_assert b s)
      asserted true h = record { post = k }
      asserted false h = absurd (ground (arith, h))

none_of_closed : (t : TxStatus) → is_open t ≡ false → t ≡ TxStatus.none
unfolding is_open
none_of_closed TxStatus.none h = refl
none_of_closed TxStatus.in_transaction h = absurd (ground (arith, h))
none_of_closed TxStatus.requires_rollback h = absurd (ground (arith, h))

module _ {L : Type 0} where
  -- A step that leaves the same when the server refuses it, and what follows.
  retry_after-Ends :
      {Q : Session L → Type 0} {P : Session L → Type 0} {E : Session L → Type 0}
      (more step : M L (Unit {0})) (s : Session L)
      → Ends (λ _ s'. P s') P (step s)
      → ((s' : Session L) → P s' → Ends (λ _ s''. Q s'') E (more s'))
      → Ends (λ _ s'. Q s') E (retry_after more step s)
  unfolding retry_after ignore_non_fatal is_fatal Post
  retry_after-Ends {Q} {P} {E} more step s h rest = go (step s) h
    where
      go :
          (r : Outcome (Unit {0}) × Session L)
          → Ends (λ _ s'. P s') P r
          → Ends (λ _ s'. Q s') E (ignore_non_fatal more r)
      go (ok a, s') e = rest s' e.post
      go (err (server x), s') e = rest s' e.post
      go (err (driver x), s') e = record { post = tt }
      go (err io, s') e = record { post = tt }
      go (err parse, s') e = record { post = tt }
      go (err (local_infile x), s') e = record { post = tt }
      go (err (other x), s') e = record { post = tt }
      go (panicked, s') e = absurd e.post
      go (stuck, s') e = absurd e.post

module _ {L : Type 0} {R : Type 0} {common : MySqlCommon R} {n : ℕ} where
  -- No transaction was abandoned: any depth is enough.
  pub clean_dirty_calm :
      {t : TxStatus} (depth : ℕ)
      → is_abandoned t ≡ false
      → Drains {L = L} common n t (clean_dirty_at common (suc depth))
  unfolding clean_dirty_at clean_dirty_after Post
  clean_dirty_calm depth calm s k =
      bind-Ends (drop_conn_result common) _ s (drop_conn_result-Ends s k) (λ _ s' k'.
        Ends-of_if (is_abandoned s'.conn.tx_status) _ _
          (λ h. absurd (grind (arith, sym h ∙ ap is_abandoned k'.tx ∙ calm)))
          (λ h. record { post = k' }))

  -- Where the packets to come are safe, `clean_dirty` ends without a panic: on success nothing is
  -- pending, the status of an abandoned transaction is reset and an open one is kept; an error of the
  -- server leaves nothing pending either.
  pub clean_dirty-Ends :
      (t : TxStatus) (s : Session L)
      → Keeps common n t Anything s
      → Ends
          (λ _ s'. Idle common n (cleaned t) s')
          (λ s'. Idle common n t s' ⊎ Idle common n TxStatus.none s')
          (clean_dirty common s)
  unfolding clean_dirty clean_dirty_at clean_dirty_after Post is_abandoned is_open
  clean_dirty-Ends TxStatus.none s k =
      weaken-Ends (clean_dirty_calm 1 refl s k) (λ _ s' k'. k') (λ s' k'. inl k')
  clean_dirty-Ends TxStatus.in_transaction s k =
      weaken-Ends (clean_dirty_calm 1 refl s k) (λ _ s' k'. k') (λ s' k'. inl k')
  clean_dirty-Ends TxStatus.requires_rollback s k =
      bind-Ends (drop_conn_result common) _ s
        (weaken-Ends (drop_conn_result-Ends s k) (λ _ s' k'. k') (λ s' k'. inl k'))
        (λ _ s' k'.
          Ends-of_if (is_abandoned s'.conn.tx_status) _ _
            (λ h.
              weaken-Ends
                (rollback_after-Ends (clean_dirty_at common 1) s' (clean_dirty_calm 0 refl) refl
                  (Keeps-mono k' (omega arith) (λ q e. tt)))
                (λ _ s'' k''. k'') (λ s'' k''. inr k''))
            (λ h. absurd (grind (arith, sym h ∙ ap is_abandoned k'.tx))))

  pub rollback_transaction-Ends :
      {t : TxStatus} (s : Session L)
      → is_open t ≡ true
      → Keeps common n t Anything s
      → Ends
          (λ _ s'. Idle common n TxStatus.none s')
          (Idle common n TxStatus.none)
          (rollback_transaction common s)
  unfolding rollback_transaction clean_dirty is_abandoned
  rollback_transaction-Ends s open_ k =
      rollback_after-Ends (clean_dirty_at common 2) s (clean_dirty_calm 1 refl) open_ k

  pub query_drop-Ends :
      {t : TxStatus} (q : List ℕ) (s : Session L)
      → is_abandoned t ≡ false
      → Keeps common n t Anything s
      → Ends (λ _ s'. Idle common n t s') (Idle common n t) (query_drop common q s)
  unfolding query_drop clean_dirty
  query_drop-Ends q s calm k =
      query_drop_after-Ends (clean_dirty_at common 2) q s (clean_dirty_calm 1 calm) k

  -- One round of `cleanup_for_pool` for each of the three states of a connection.
  cleanup_closed-Ends :
      (rounds : ℕ) (s : Session L)
      → Idle common n TxStatus.none s
      → Ends (λ _ s'. Idle common n TxStatus.none s') (λ _. ⊥) (cleanup_loop common (suc rounds) s)
  unfolding cleanup_loop has_pending_result is_pending is_open Post
  cleanup_closed-Ends rounds s k =
      Ends-of_if_step (has_pending_result s.conn) _ _ s
        (λ h. absurd (grind (arith, sym h ∙ ap is_pending k.pended)))
        (λ _.
          Ends-of_if_step (is_open s.conn.tx_status) _ _ s
            (λ h. absurd (grind (arith, sym h ∙ ap is_open k.tx))) (λ _. record { post = k }))

  -- The part of a round that is about the transaction.
  cleanup_tx-Ends :
      {t : TxStatus} (rounds : ℕ) (s : Session L)
      → Idle common n t s
      → Ends
          (λ _ s'. Idle common n TxStatus.none s')
          (λ _. ⊥)
          ((if is_open s.conn.tx_status
              then retry_after (cleanup_loop common (suc rounds)) (rollback_transaction common)
              else return tt)
            s)
  unfolding is_open Post
  cleanup_tx-Ends rounds s k =
      Ends-of_if_step (is_open s.conn.tx_status) _ _ s
        (λ h.
          retry_after-Ends _ (rollback_transaction common) s
            (rollback_transaction-Ends s (sym (ap is_open k.tx) ∙ h)
              (Keeps-mono k (omega arith) (λ q e. tt)))
            (cleanup_closed-Ends rounds))
        (λ h. record {
          post = record {
            safe = k.safe;
            short = k.short;
            tx = none_of_closed s.conn.tx_status h;
            pended = k.pended;
          };
        })

  cleanup_drained-Ends :
      {t : TxStatus} (s : Session L)
      → Idle common n t s
      → Ends (λ _ s'. Idle common n TxStatus.none s') (λ _. ⊥) (cleanup_loop common 2 s)
  unfolding cleanup_loop has_pending_result is_pending
  cleanup_drained-Ends s k =
      Ends-of_if_step (has_pending_result s.conn) _ _ s
        (λ h. absurd (grind (arith, sym h ∙ ap is_pending k.pended))) (λ _. cleanup_tx-Ends 0 s k)

  -- Where the packets to come are as a server sends them (`IsSafe`), `cleanup_for_pool` ends
  -- without a panic, from any pending result, error or transaction: nothing is pending and no
  -- transaction is open, unless the connection broke. No error of the server comes out, and three
  -- rounds of the loop are enough.
  pub cleanup_for_pool-Ends :
      {t : TxStatus} (s : Session L)
      → Keeps common n t Anything s
      → Ends (λ _ s'. Idle common n TxStatus.none s') (λ _. ⊥) (cleanup_for_pool common s)
  unfolding cleanup_for_pool cleanup_loop has_pending_result
  cleanup_for_pool-Ends s k =
      Ends-of_if_step (has_pending_result s.conn) _ _ s
        (λ _.
          retry_after-Ends _ (drop_conn_result common) s (drop_conn_result-Ends s k)
            cleanup_drained-Ends)
        (λ h. cleanup_tx-Ends 1 s (record {
          safe = k.safe;
          short = k.short;
          tx = k.tx;
          pended = IsDrained-of_false s.conn.pending_result h;
        }))
