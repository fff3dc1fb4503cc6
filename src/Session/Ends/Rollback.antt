-- ===== src/Session/Ends/Rollback.antt =====
-- src/conn/mod.rs: what `clean_dirty` sends. An abandoned transaction is rolled back by one `ROLLBACK`,
-- and everything else that is sent is the data of a local infile, which a pending result set asked for.
use mysql_async.Conn.State
use mysql_async.Conn.TxStatus.{TxStatus, is_open, is_abandoned}
use mysql_async.Session.Outcome.{server, Outcome, ok, err, panicked, stuck, ◌>>◌}
use mysql_async.Session.Protocol.{MySqlCommon, Command, com_query, text_protocol}
use mysql_async.Session.State.{Session, modify}
use mysql_async.Session.Packets.{broken, write_packet}
use mysql_async.Session.ResultSets.{read_result_set, debug_assert}
use mysql_async.Session.Commands.{
  rollback_query, drop_conn_result, write_after, raw_query_after, query_drop_after, rollback_after,
  clean_dirty_after, clean_dirty_at, clean_dirty,
}
use mysql_async.Session.Ends.{
  Ends, Post, bind-Ends, routine-Ends, Ends-of_if, weaken-Ends, Anything, Keeps, Keeps-mono,
  Keeps-set_disconnected,
}
use mysql_async.Session.Ends.Starts.{Idle, Pends, read_result_set-Ends}
use mysql_async.Session.Ends.Drops.{drop_result-Ends}
use mysql_async.Session.Ends.Cleanup.{cleaned, drop_conn_result-Ends}
use mysql_async.Session.Sends.{Claim, At, Always, Allows, IsData}
use mysql_async.Session.Sends.Results.{
  read_result_set-Stays, drop_result-Stays, drop_conn_result-Stays,
}
use mysql_async.Prelude.{
  ℕ, suc, ◌≡◌, refl, sym, ap, ◌∙◌, ◌⊎◌, inl, inr, Bool, true, false, ◌&&◌, List, [], ◌∷◌, ◌++◌,
  arith, ltb, All, All-append,
}

module _ {L : Type 0} {A : Type 0} where
  -- How an outcome ends, with what is always so.
  pub both-Ends :
      {P : A → Session L → Type 0} {E : Session L → Type 0} {J : Claim L}
      {r : Outcome A × Session L}
      → Ends P E r
      → Always J r
      → Ends (λ a s. P a s × At J s) E r
  unfolding Post
  both-Ends {r = (ok a, t)} e h = record { post = (e.post, h.holds) }
  both-Ends {r = (err (server x), t)} e h = record { post = e.post }
  both-Ends {r = (err _, t)} e h = record { post = tt }
  both-Ends {r = (panicked, t)} e h = absurd e.post
  both-Ends {r = (stuck, t)} e h = absurd e.post

-- What is sent from `cs` to `cs'` is the data of a local infile, if anything.
abbrev pub Fed : List Command → List Command → Type 0
Fed cs cs' = (more : List Command) × (cs' ≡ cs ++ more) × All IsData more

-- It is also one `ROLLBACK`.
abbrev pub RolledBack : List Command → List Command → Type 0
RolledBack cs cs' =
    (mid : List Command) × Fed cs mid × Fed (mid ++ com_query rollback_query ∷ []) cs'

append_assoc : (xs ys zs : List Command) → (xs ++ ys) ++ zs ≡ xs ++ (ys ++ zs)
append_assoc [] ys zs = refl
append_assoc (x ∷ xs) ys zs = ap (λ l. x ∷ l) (append_assoc xs ys zs)

append_nil : (xs : List Command) → xs ≡ xs ++ []
append_nil [] = refl
append_nil (x ∷ xs) = ap (λ l. x ∷ l) (append_nil xs)

Fed-refl : (cs : List Command) → Fed cs cs
Fed-refl cs = ([], append_nil cs, tt)

Fed-Allows : {L : Type 0} (cs : List Command) → Allows {L = L} (λ cs' _. Fed cs cs') IsData
Fed-Allows cs c fed_c cs' cache (more, e, all) = (
  more ++ c ∷ [],
  ap (λ l. l ++ c ∷ []) e ∙ append_assoc cs more (c ∷ []),
  All-append IsData more (c ∷ []) all (fed_c, tt),
)

RolledBack-Allows :
    {L : Type 0} (cs : List Command) → Allows {L = L} (λ cs' _. RolledBack cs cs') IsData
RolledBack-Allows {L} cs c fed_c cs' cache (mid, before, after) =
    (mid, before, Fed-Allows {L = L} (mid ++ com_query rollback_query ∷ []) c fed_c cs' cache after)

-- What cleaning sends, by the transaction before it.
abbrev pub Cleans : TxStatus → List Command → List Command → Type 0
Cleans TxStatus.requires_rollback cs cs' = RolledBack cs cs'
Cleans TxStatus.none cs cs' = Fed cs cs'
Cleans TxStatus.in_transaction cs cs' = Fed cs cs'

module _ {L : Type 0} {R : Type 0} {common : MySqlCommon R} {n : ℕ} where
  calm-Fed :
      {t : TxStatus} (depth : ℕ) (cs : List Command) (s : Session L)
      → is_abandoned t ≡ false
      → Keeps common n t Anything s
      → Fed cs s.sent
      → Ends
          (λ _ s'. Idle common n t s' × Fed cs s'.sent)
          (Idle common n t)
          (clean_dirty_at common (suc depth) s)
  unfolding clean_dirty_at clean_dirty_after Post
  calm-Fed depth cs s calm k fed =
      bind-Ends (drop_conn_result common) _ s
        (both-Ends (drop_conn_result-Ends s k)
          (drop_conn_result-Stays (Fed-Allows cs) common s fed))
        (λ _ s' k'.
          Ends-of_if (is_abandoned s'.conn.tx_status) _ _
            (λ h. absurd (grind (arith, sym h ∙ ap is_abandoned k'.0.tx ∙ calm)))
            (λ h. record { post = k' }))

  write-Ends :
      {t : TxStatus} {E : Session L → Type 0} (c : Command) (s : Session L)
      → Idle common n t s
      → Ends (λ _ s'. Idle common n t s' × (s'.sent ≡ s.sent ++ c ∷ [])) E (write_packet c s)
  unfolding write_packet broken Post
  write-Ends c s k =
      Ends-of_if (s.conn.stream && ltb 0 s.writes_left) _ _
        (λ _. record {
          post = (record { safe = k.safe; short = k.short; tx = k.tx; pended = k.pended }, refl);
        })
        (λ _. record { post = tt })

  -- The `ROLLBACK`, where nothing is abandoned any more.
  query-RolledBack :
      (cs : List Command) (s : Session L)
      → Keeps common n TxStatus.none Anything s
      → Fed cs s.sent
      → Ends
          (λ _ s'. Idle common n TxStatus.none s' × RolledBack cs s'.sent)
          (Idle common n TxStatus.none)
          (query_drop_after common (clean_dirty_at common 1) rollback_query s)
  unfolding query_drop_after raw_query_after write_after is_abandoned
  query-RolledBack cs s k fed =
      bind-Ends (raw_query_after common (clean_dirty_at common 1) rollback_query) _ s
        (routine-Ends {P' = λ _ s'. Pends common n TxStatus.none s' × RolledBack cs s'.sent}
          (write_after (clean_dirty_at common 1) (com_query rollback_query)
            >> read_result_set common text_protocol true)
          s
          (bind-Ends {P = λ _ s'. Idle common n TxStatus.none s' × RolledBack cs s'.sent}
            (write_after (clean_dirty_at common 1) (com_query rollback_query)) _ _
            (bind-Ends (clean_dirty_at common 1) _ _
              (calm-Fed 0 cs _ refl (Keeps-set_disconnected true k) fed)
              (λ _ s' k'.
                weaken-Ends (write-Ends (com_query rollback_query) s' k'.0)
                  (λ _ s'' k''. (k''.0, (s'.sent, k'.1, ([], k''.1 ∙ append_nil _, tt))))
                  (λ _ e. e)))
            (λ _ s' k'.
              both-Ends (read_result_set-Ends text_protocol true s' k'.0)
                (read_result_set-Stays (RolledBack-Allows cs) common text_protocol true s' k'.1)))
          (λ _ s' k'. (Keeps-set_disconnected false k'.0.0, k'.1))
          (λ s' k'. Keeps-set_disconnected false k'))
        (λ _ s' k'.
          both-Ends (drop_result-Ends text_protocol s' (Keeps-mono k'.0 (omega arith) (λ q e. tt)))
            (drop_result-Stays (RolledBack-Allows cs) common text_protocol s' k'.1))

  -- Where the packets to come are safe, `clean_dirty` ends without a panic. On success nothing is
  -- pending. If a transaction was abandoned, its status is reset and exactly one `ROLLBACK` was
  -- sent; otherwise the status is kept and none was sent; in both cases nothing else was sent but
  -- the data of a local infile. After an error of the server nothing is pending.
  pub clean_dirty-Cleans :
      (t : TxStatus) (s : Session L)
      → Keeps common n t Anything s
      → Ends
          (λ _ s'. Idle common n (cleaned t) s' × Cleans t s.sent s'.sent)
          (λ s'. Idle common n t s' ⊎ Idle common n TxStatus.none s')
          (clean_dirty common s)
  unfolding clean_dirty clean_dirty_at clean_dirty_after rollback_after State.set_tx_status Post
      is_abandoned is_open
  clean_dirty-Cleans TxStatus.none s k =
      weaken-Ends (calm-Fed 1 s.sent s refl k (Fed-refl s.sent)) (λ _ s' k'. k') (λ s' k'. inl k')
  clean_dirty-Cleans TxStatus.in_transaction s k =
      weaken-Ends (calm-Fed 1 s.sent s refl k (Fed-refl s.sent)) (λ _ s' k'. k') (λ s' k'. inl k')
  clean_dirty-Cleans TxStatus.requires_rollback s k =
      bind-Ends (drop_conn_result common) _ s
        (weaken-Ends
          (both-Ends (drop_conn_result-Ends s k)
            (drop_conn_result-Stays (Fed-Allows s.sent) common s (Fed-refl s.sent)))
          (λ _ s' k'. k') (λ s' k'. inl k'))
        (λ _ s' k'.
          Ends-of_if (is_abandoned s'.conn.tx_status) _ _ (λ h. roll_back s' k')
            (λ h. absurd (grind (arith, sym h ∙ ap is_abandoned k'.0.tx))))
    where
      asserted :
          (b : Bool) (s' : Session L)
          → b ≡ true
          → Idle common n TxStatus.requires_rollback s' × Fed s.sent s'.sent
          → Ends
              (λ _ s''. Idle common n TxStatus.requires_rollback s'' × Fed s.sent s''.sent)
              (λ s''.
                Idle common n TxStatus.requires_rollback s'' ⊎ Idle common n TxStatus.none s'')
              (debug_assert b s')
      asserted true s' h k' = record { post = k' }
      asserted false s' h k' = absurd (ground (arith, h))

      roll_back :
          (s' : Session L)
          → Idle common n TxStatus.requires_rollback s' × Fed s.sent s'.sent
          → Ends
              (λ _ s''. Idle common n TxStatus.none s'' × RolledBack s.sent s''.sent)
              (λ s''.
                Idle common n TxStatus.requires_rollback s'' ⊎ Idle common n TxStatus.none s'')
              (rollback_after common (clean_dirty_at common 1) s')
      roll_back s' k' =
          bind-Ends (debug_assert (is_open s'.conn.tx_status))
            (λ _.
              modify (State.set_tx_status TxStatus.none)
              >> query_drop_after common (clean_dirty_at common 1) rollback_query)
            s' (asserted (is_open s'.conn.tx_status) s' (ap is_open k'.0.tx) k')
            (λ _ s'' k''.
              weaken-Ends
                (query-RolledBack s.sent _
                  (record { safe = k''.0.safe; short = k''.0.short; tx = refl; pended = tt }) k''.1)
                (λ _ _ q. q) (λ _ q. inr q))
