-- ===== src/Session/Transaction/Laws.antt =====
-- src/queryable/transaction.rs: how a transaction starts and ends.
use mysql_async.Conn.State
use mysql_async.Conn.State.{Conn}
use mysql_async.Conn.TxStatus.{TxStatus, is_open, is_in_transaction, is_abandoned}
use mysql_async.Session.Outcome.{
  driver, io, parse, local_infile, other, server, Outcome, ok, err, panicked, stuck, ◌>>◌,
}
use mysql_async.Session.Protocol.{MySqlCommon, text_protocol}
use mysql_async.Session.State.{Session, M, modify}
use mysql_async.Session.QueryResult.{drop_result}
use mysql_async.Session.Commands.{
  clean_dirty, clean_dirty_at, raw_query, query_drop, rollback_transaction,
}
use mysql_async.Session.Ends.{
  Ends, Post, bind-Ends, weaken-Ends, Ends-of_if, Anything, Keeps, Keeps-mono,
}
use mysql_async.Session.Ends.Starts.{Idle}
use mysql_async.Session.Ends.Drops.{drop_result-Ends}
use mysql_async.Session.Ends.Cleanup.{
  cleaned, clean_dirty-Ends, clean_dirty_calm, raw_query_after-Ends, query_drop-Ends,
  rollback_transaction-Ends,
}
use mysql_async.Session.Transaction.{
  TxOpts, access_query, opening_query, commit_query, version_ltb, is_some, when_some, drop, dropped,
  admitted, set_isolation, set_access, new, try_commit, rollback,
}
use mysql_async.Prelude.{
  ℕ, ◌≡◌, refl, sym, ap, ◌∙◌, ◌⊎◌, inr, Bool, true, false, ◌&&◌, Option, none, some, List, arith,
  if_true, if_false, subst,
}

cleaned_of_closed : (t : TxStatus) → is_in_transaction t ≡ false → cleaned t ≡ TxStatus.none
unfolding is_in_transaction
cleaned_of_closed TxStatus.none h = refl
cleaned_of_closed TxStatus.requires_rollback h = refl
cleaned_of_closed TxStatus.in_transaction h = absurd (ground (arith, h))

module _ {L : Type 0} where
  -- The drop of a transaction that is closed does nothing.
  drop_closed : (s : Session L) → s.conn.tx_status ≡ TxStatus.none → drop s ≡ s
  unfolding drop is_in_transaction
  drop_closed s e = if_false _ _ (ap is_in_transaction e)

  dropped-Ends :
      {A : Type 0} {P : A → Session L → Type 0} {E : Session L → Type 0} (r : Outcome A × Session L)
      → Ends
          (λ a s. P a s × (s.conn.tx_status ≡ TxStatus.none))
          (λ s. E s × (s.conn.tx_status ≡ TxStatus.none))
          r
      → Ends P E (dropped r)
  unfolding Post
  dropped-Ends {P} {E} (ok a, s) e = record {
    post = subst (P a) (sym (drop_closed s e.post.1)) e.post.0;
  }
  dropped-Ends {P} {E} (err (server x), s) e = record {
    post = subst E (sym (drop_closed s e.post.1)) e.post.0;
  }
  dropped-Ends (err (driver x), s) e = record { post = tt }
  dropped-Ends (err io, s) e = record { post = tt }
  dropped-Ends (err parse, s) e = record { post = tt }
  dropped-Ends (err (local_infile x), s) e = record { post = tt }
  dropped-Ends (err (other x), s) e = record { post = tt }
  dropped-Ends (panicked, s) e = absurd e.post
  dropped-Ends (stuck, s) e = absurd e.post

module _ {L : Type 0} {R : Type 0} {common : MySqlCommon R} {n : ℕ} where
  admitted-Ends :
      (readonly : Option Bool) (s : Session L)
      → Idle common n TxStatus.none s
      → Ends
          (λ _ s'. Idle common n TxStatus.none s')
          (Idle common n TxStatus.none)
          (admitted readonly s)
  unfolding admitted Post
  admitted-Ends readonly s k =
      Ends-of_if (is_open s.conn.tx_status) _ _ (λ _. record { post = tt })
        (λ _.
          Ends-of_if (is_some readonly && version_ltb s.version (5, 6, 5)) _ _
            (λ _. record { post = tt }) (λ _. record { post = k }))

  -- An optional query on a connection without a transaction.
  when_some-Ends :
      {A : Type 0} (q : A → List ℕ) (o : Option A) (s : Session L)
      → Idle common n TxStatus.none s
      → Ends
          (λ _ s'. Idle common n TxStatus.none s')
          (Idle common n TxStatus.none)
          (when_some (λ a. query_drop common (q a)) o s)
  unfolding is_abandoned Post
  when_some-Ends q (some a) s k =
      query_drop-Ends {t = TxStatus.none} (q a) s refl (Keeps-mono k (omega arith) (λ _ _. tt))
  when_some-Ends q none s k = record { post = k }

  start-Ends :
      (options : TxOpts) (s : Session L)
      → Idle common n TxStatus.none s
      → Ends
          (λ _ s'. Idle common n TxStatus.in_transaction s')
          (Idle common n TxStatus.none)
          ((admitted options.readonly
              >> (set_isolation common options.isolation_level
                  >> (set_access common options.readonly
                      >> (query_drop common (opening_query options.consistent_snapshot)
                          >> modify (State.set_tx_status TxStatus.in_transaction)))))
            s)
  unfolding set_isolation set_access State.set_tx_status is_abandoned Post
  start-Ends options s k =
      bind-Ends (admitted options.readonly) _ s (admitted-Ends options.readonly s k) (λ _ s0 k0.
        bind-Ends (set_isolation common options.isolation_level) _ s0
          (when_some-Ends _ options.isolation_level s0 k0)
          (λ _ s1 k1.
            bind-Ends (set_access common options.readonly) _ s1
              (when_some-Ends access_query options.readonly s1 k1)
              (λ _ s2 k2.
                bind-Ends (query_drop common (opening_query options.consistent_snapshot)) _ s2
                  (query_drop-Ends {t = TxStatus.none} _ s2 refl
                    (Keeps-mono k2 (omega arith) (λ _ _. tt)))
                  (λ _ s3 k3. record {
                    post = record {
                      safe = k3.safe;
                      short = k3.short;
                      tx = refl;
                      pended = k3.pended;
                    };
                  }))))

  -- Where no transaction is open, or only an abandoned one, and the packets to come are safe,
  -- `Transaction::new` never panics: on success the connection is in a transaction with nothing
  -- pending, and after an error of the server it is in none that was started, with nothing
  -- pending.
  pub new-Ends :
      {t : TxStatus} (options : TxOpts) (s : Session L)
      → is_in_transaction t ≡ false
      → Keeps common n t Anything s
      → Ends
          (λ _ s'. Idle common n TxStatus.in_transaction s')
          (λ s'. Idle common n t s' ⊎ Idle common n TxStatus.none s')
          (new common options s)
  unfolding new
  new-Ends {t} options s h k =
      bind-Ends (clean_dirty common) _ s (clean_dirty-Ends t s k) (λ _ s' k'.
        weaken-Ends
          (start-Ends options s' (subst (λ t'. Idle common n t' s') (cleaned_of_closed t h) k'))
          (λ _ s'' k''. k'') (λ s'' k''. inr k''))

  admitted_nested-Ends :
      {A : Type 0} {P : A → Session L → Type 0} (readonly : Option Bool) (s : Session L)
      (rest : M L A)
      → Idle common n TxStatus.in_transaction s
      → Ends P (Idle common n TxStatus.in_transaction) ((admitted readonly >> rest) s)
  unfolding admitted is_open Post
  admitted_nested-Ends {P} readonly s rest k =
      bind-Ends {P = λ _ _. ⊥} (admitted readonly) _ s
        (Ends-of_if (is_open s.conn.tx_status) _ _ (λ _. record { post = tt })
          (λ h. absurd (grind (arith, sym h ∙ ap is_open k.tx))))
        (λ _ _ x. absurd x)

  -- Where a transaction is open and the packets to come are safe, `Transaction::new` never
  -- succeeds, whatever the server answers, and does not panic: an error of the server leaves the
  -- transaction open and nothing pending.
  pub new-nested :
      (options : TxOpts) (s : Session L)
      → Keeps common n TxStatus.in_transaction Anything s
      → Ends (λ _ _. ⊥) (Idle common n TxStatus.in_transaction) (new common options s)
  unfolding new clean_dirty is_abandoned
  new-nested options s k =
      bind-Ends (clean_dirty common) _ s (clean_dirty_calm 1 refl s k)
        (λ _ s' k'. admitted_nested-Ends options.readonly s' _ k')

  -- In a transaction, where the packets to come are safe, `try_commit` never panics: on success
  -- the transaction is closed, and when the server refuses it is still open, with nothing pending
  -- in both cases.
  pub try_commit-Ends :
      (s : Session L)
      → Keeps common n TxStatus.in_transaction Anything s
      → Ends
          (λ _ s'. Idle common n TxStatus.none s')
          (Idle common n TxStatus.in_transaction)
          (try_commit common s)
  unfolding try_commit raw_query clean_dirty State.set_tx_status is_abandoned Post
  try_commit-Ends s k =
      bind-Ends (raw_query common commit_query) _ s
        (raw_query_after-Ends (clean_dirty_at common 2) commit_query s (clean_dirty_calm 1 refl) k)
        (λ _ s1 k1.
          bind-Ends (drop_result common text_protocol) _ s1
            (drop_result-Ends text_protocol s1 (Keeps-mono k1 (omega arith) (λ _ _. tt)))
            (λ _ s2 k2. record {
              post = record { safe = k2.safe; short = k2.short; tx = refl; pended = k2.pended };
            }))

  pub rollback-Ends :
      {t : TxStatus} (s : Session L)
      → is_open t ≡ true
      → Keeps common n t Anything s
      → Ends
          (λ _ s'. Idle common n TxStatus.none s')
          (Idle common n TxStatus.none)
          (rollback common s)
  unfolding rollback
  rollback-Ends s h k = dropped-Ends (rollback_transaction common s) (
      weaken-Ends (rollback_transaction-Ends s h k) (λ _ s' k'. (k', k'.tx)) (λ s' k'. (k', k'.tx)))

  drop-Keeps :
      (s : Session L)
      → Keeps common n TxStatus.in_transaction Anything s
      → Keeps common n TxStatus.requires_rollback Anything (drop s)
  unfolding drop is_in_transaction State.set_tx_status
  drop-Keeps s k =
      subst (Keeps common n TxStatus.requires_rollback Anything)
        (sym (if_true _ _ (ap is_in_transaction k.tx)))
        (record { safe = k.safe; short = k.short; tx = refl; pended = tt })

  -- A transaction that is dropped open, where the packets to come are safe, is rolled back by the
  -- next `clean_dirty` that succeeds, which leaves nothing pending.
  pub clean_dirty-drop :
      (s : Session L)
      → Keeps common n TxStatus.in_transaction Anything s
      → Ends
          (λ _ s'. Idle common n TxStatus.none s')
          (λ s'. Idle common n TxStatus.requires_rollback s' ⊎ Idle common n TxStatus.none s')
          (clean_dirty common (drop s))
  clean_dirty-drop s k = clean_dirty-Ends TxStatus.requires_rollback (drop s) (drop-Keeps s k)
