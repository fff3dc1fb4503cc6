-- ===== src/Session/Ends/Pooled.antt =====
-- src/conn/mod.rs and src/conn/pool/recycler.rs: the recycler and the cleanup that it starts.
use mysql_async.Conn.State
use mysql_async.Conn.State.{Conn, Instant}
use mysql_async.Conn.TxStatus.{TxStatus, is_open}
use mysql_async.Conn.Pending.{is_pending, has_pending_result}
use mysql_async.Pool.Waitlist.Queue.{KeyedPriorityQueue}
use mysql_async.Pool.Recycler.Task.{Work, push_discard}
use mysql_async.Pool.Recycler.{conn_return, conn_decision}
use mysql_async.Session.Protocol.{MySqlCommon}
use mysql_async.Session.State.{Session}
use mysql_async.Session.Commands.{cleanup_for_pool}
use mysql_async.Session.Ends.{Ends, weaken-Ends, IsDrained, Anything, Keeps}
use mysql_async.Session.Ends.Cleanup.{cleanup_for_pool-Ends}
use mysql_async.Prelude.{
  ℕ, ◌≡◌, refl, sym, ap, ◌∙◌, Bool, true, false, not, ◌||◌, arith, if◌then◌else◌,
}

module _ {W : Type 0} where
  -- The recycler cleans what it cleaned before.
  abbrev CleansNoMore : Work W → Work W → Type 0
  CleansNoMore w w' = w'.task.cleaning ≡ w.task.cleaning

  CleansNoMore-of_if :
      (w : Work W) (b : Bool) (x y : Work W)
      → (b ≡ true → CleansNoMore w x)
      → (b ≡ false → CleansNoMore w y)
      → CleansNoMore w (if b then x else y)
  CleansNoMore-of_if w true x y f g = f refl
  CleansNoMore-of_if w false x y f g = g refl

  module _ ⦃queue : KeyedPriorityQueue W⦄ where
    conn_return-CleansNoMore :
        (now : Instant) (c : Conn) (closed : Bool) (w : Work W)
        → CleansNoMore w (conn_return now c closed w)
    unfolding conn_return push_discard
    conn_return-CleansNoMore now c closed w = CleansNoMore-of_if w _ _ _ (λ _. refl) (λ _. refl)

    conn_decision-CleansNoMore :
        (now : Instant) (close : Bool) (c : Conn) (w : Work W)
        → c.tx_status ≡ TxStatus.none
        → IsDrained c.pending_result
        → CleansNoMore w (conn_decision now close c w)
    unfolding conn_decision push_discard has_pending_result is_open is_pending
    conn_decision-CleansNoMore now close c w tx drained =
        CleansNoMore-of_if w (not c.stream || c.disconnected) _ _ (λ _. refl)
          (λ _.
            CleansNoMore-of_if w (is_open c.tx_status || is_pending c.pending_result) _ _
              (λ dirty. absurd (ground (arith, sym dirty ∙ calm)))
              (λ _.
                CleansNoMore-of_if w (State.expired now c || close) _ _ (λ _. refl)
                  (λ _.
                    CleansNoMore-of_if w c.reset_upon_returning_to_a_pool _ _ (λ _. refl)
                      (λ _. conn_return-CleansNoMore now c false w))))
      where
        calm : (is_open c.tx_status || is_pending c.pending_result) ≡ false
        calm = ap (λ t. is_open t || is_pending c.pending_result) tx ∙ ap is_pending drained

    -- Where the packets to come are safe, the cleanup that the recycler starts makes progress,
    -- whatever is pending and whatever transaction is open: it ends, without a panic or an error
    -- of the server, and if it succeeds, `conn_decision` does not send the connection to the
    -- cleanup again.
    pub cleanup_for_pool-conn_decision :
        {L R : Type 0} {common : MySqlCommon R} {n : ℕ} {t : TxStatus} (now : Instant)
        (close : Bool) (w : Work W) (s : Session L)
        → Keeps common n t Anything s
        → Ends
            (λ _ s'. (conn_decision now close s'.conn w).task.cleaning ≡ w.task.cleaning)
            (λ _. ⊥)
            (cleanup_for_pool common s)
    cleanup_for_pool-conn_decision now close w s k =
        weaken-Ends (cleanup_for_pool-Ends s k)
          (λ _ s' k'. conn_decision-CleansNoMore now close s'.conn w k'.tx k'.pended) (λ _ e. e)
