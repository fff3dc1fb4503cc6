-- ===== src/Session/Ends/Reset.antt =====
-- src/conn/mod.rs: `reset` ends, and leaves nothing pending.
use mysql_async.Conn.TxStatus.{TxStatus, is_abandoned}
use mysql_async.Conn.StmtCache.Lru.{LruCache}
use mysql_async.Session.Outcome.{◌>>=◌, ◌>>◌, return}
use mysql_async.Session.Protocol.{MySqlCommon, com_reset_connection}
use mysql_async.Session.State.{Session}
use mysql_async.Session.Packets.{read_packet}
use mysql_async.Session.Commands.{write_after, write_command, clean_dirty}
use mysql_async.Session.Reset.{
  supports_com_reset_connection, reset_routine, run_popped, run_setup_commands, forget,
  reset_supported, reset,
}
use mysql_async.Session.Reset.Knows.{Knows, supports-Knows, supports-Knows-not}
use mysql_async.Session.Ends.{
  Ends, Post, bind-Ends, routine-Ends, Ends-of_if, Anything, Keeps, Keeps-mono,
  Keeps-set_disconnected,
}
use mysql_async.Session.Ends.Reading.{read_packet-Ends, write_packet-Ends}
use mysql_async.Session.Ends.Starts.{Idle}
use mysql_async.Session.Ends.Cleanup.{clean_dirty_calm, query_drop-Ends}
use mysql_async.Conn.StmtCache
use mysql_async.Session.Ends.Rollback.{both-Ends}
use mysql_async.Session.Sends.Queries.{reset_routine-Stays, run_popped-Stays}
use mysql_async.Prelude.{ℕ, ◌≡◌, refl, ap, Bool, true, false, List, [], ◌∷◌, arith}

-- A reset was done: nothing is pending, and the cached statements are forgotten. Or the server does
-- not know the command, and nothing was done.
abbrev pub Reset :
    {L R : Type 0}
    → ⦃lru : LruCache L⦄ → MySqlCommon R
    → ℕ
    → TxStatus
    → Session L
    → Bool
    → Session L
    → Type 0
Reset common n t s true s' =
    Idle common n t s' × Knows s × (s'.stmt_cache ≡ StmtCache.clear s.stmt_cache)
Reset common n t s false s' = ¬ Knows s × (s' ≡ s)

module _ {L : Type 0} {R : Type 0} {common : MySqlCommon R} {n : ℕ} {t : TxStatus} where
  reset_routine-Ends :
      (s : Session L)
      → is_abandoned t ≡ false
      → Keeps common n t Anything s
      → Ends (λ _ s'. Idle common n t s') (Idle common n t) (reset_routine common s)
  unfolding reset_routine write_command write_after clean_dirty Post
  reset_routine-Ends s calm k =
      routine-Ends {P = λ _ s'. Idle common n t s'} {P' = λ _ s'. Idle common n t s'}
        (write_command common com_reset_connection >> (read_packet common >>= (λ _. return tt))) s
        (bind-Ends (write_command common com_reset_connection) _ _
          (bind-Ends (clean_dirty common) _ _
            (clean_dirty_calm 1 calm _ (Keeps-set_disconnected true k))
            (λ _ s' k'. write_packet-Ends _ s' k'))
          (λ _ s' k'.
            bind-Ends (read_packet common) _ s' (read_packet-Ends s' k')
              (λ _ s'' r. record { post = r.1 })))
        (λ _ s' k'. Keeps-set_disconnected false k') (λ s' k'. Keeps-set_disconnected false k')

  run_popped-Ends :
      (qs : List (List ℕ)) (s : Session L)
      → is_abandoned t ≡ false
      → Idle common n t s
      → Ends (λ _ s'. Idle common n t s') (Idle common n t) (run_popped common qs s)
  unfolding run_popped Post
  run_popped-Ends [] s calm k = record { post = k }
  run_popped-Ends (q ∷ qs) s calm k =
      bind-Ends (run_popped common qs) _ s (run_popped-Ends qs s calm k)
        (λ _ s' k'. query_drop-Ends q s' calm (Keeps-mono k' (omega arith) (λ _ _. tt)))

  module _ ⦃lru : LruCache L⦄ where
    -- Where no transaction was abandoned and the packets to come are safe, `reset` ends without a
    -- panic, from any pending result. The answer is `true` only for MariaDB from 10.2.4 on and
    -- MySQL after 5.7.2; then nothing is pending, the transaction status is as before and the
    -- cached statements are forgotten. The answer is `false` only for the other servers, and the
    -- session is then untouched. A refusal by the server, of the command or of a setup query,
    -- leaves nothing pending.
    pub reset-Ends :
        (s : Session L)
        → is_abandoned t ≡ false
        → Keeps common n t Anything s
        → Ends (Reset common n t s) (Idle common n t) (reset common s)
    unfolding reset reset_supported run_setup_commands forget Post
    reset-Ends s calm k =
        Ends-of_if (supports_com_reset_connection s) _ _
          (λ known.
            bind-Ends (reset_routine common) _ s
              (both-Ends (reset_routine-Ends s calm k) (
                reset_routine-Stays {J = λ _ cache. cache ≡ s.stmt_cache} (λ _ _ _ _ e. e)
                  (λ _ _ _ e. e) common (λ _ _ e. e) s refl))
              (λ _ s' k'.
                bind-Ends (run_setup_commands common) _ _
                  (both-Ends
                    (run_popped-Ends s'.setup _ calm (record {
                      safe = k'.0.safe;
                      short = k'.0.short;
                      tx = k'.0.tx;
                      pended = k'.0.pended;
                    }))
                    (run_popped-Stays {J = λ _ cache. cache ≡ StmtCache.clear s.stmt_cache}
                      (λ _ _ _ _ e. e) (λ _ _ _ e. e) common s'.setup _ (ap StmtCache.clear k'.1)))
                  (λ _ s'' k''. record { post = (k''.0, supports-Knows s known, k''.1) })))
          (λ unknown. record { post = (supports-Knows-not s unknown, refl) })
