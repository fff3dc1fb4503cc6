-- ===== src/Session/Ends/Starts.antt =====
-- src/conn/routines/helpers.rs: how the functions that read the start of a result set end.
use mysql_async.Conn.State.{ServerError, ResultSetMeta}
use mysql_async.Conn.TxStatus.{TxStatus}
use mysql_async.Conn.Pending.{Pended, pend, set_pending_result, set_pending_result_error}
use mysql_async.Session.Outcome.{
  Error, driver, io, parse, server, local_infile, other, read_failed, Outcome, ok, err, panicked,
  stuck, ◌>>=◌, ◌>>◌, return, throw, lift, required,
}
use mysql_async.Session.Protocol.{Packet, MySqlCommon, Protocol, bytes}
use mysql_async.Session.State.{Session, InfileData, InfileHandler}
use mysql_async.Session.Packets.{read_packet, read_packets, write_packet}
use mysql_async.Session.ResultSets.{
  result_set_meta, first, parse_columns, debug_assert, replaced, set_pending, set_pending_error,
  infile_from, take_infile, send_chunks, after_columns, read_column_defs, handle_result_set,
  handle_local_infile, dispatch_on, dispatch, after_first_packet, read_result_set,
}
use mysql_async.Session.Ends.{
  IsSafe, Ends, Post, bind-Ends, Ends-of_if, Ends-of_if_step, weaken-Ends, is_taken, Fresh,
  IsDrained, Keeps, Keeps-mono, Keeps-exact,
}
use mysql_async.Session.Ends.Reading.{
  Read, Shorter, read_packet-Shorter-Ends, read_packet-Ends, read_packets-Ends, write_packet-Ends,
  required-Ends,
}
use mysql_async.Prelude
use mysql_async.Prelude.{
  ℕ, zero, suc, ◌≤◌, ◌<◌, ◌≡◌, refl, ap, ◌≢◌, ◌⊎◌, inl, inr, Bool, true, false, Option, none, some,
  List, [], ◌∷◌, arith, ltb, ◌==◌, if◌then◌else◌, lt→ltb, length,
}

-- Nothing is pending; or something is that nobody has been handed.
abbrev pub Idle : {L R : Type 0} → MySqlCommon R → ℕ → TxStatus → Session L → Type 0
Idle common n t s = Keeps common n t IsDrained s

abbrev pub Pends : {L R : Type 0} → MySqlCommon R → ℕ → TxStatus → Session L → Type 0
Pends common n t s = Keeps common n t Fresh s

-- No error of the server is pending.
abbrev pub no_error : Pended → Bool
no_error (Prelude.Result.ok q) = true
no_error (Prelude.Result.err e) = false

module _ {L : Type 0} {R : Type 0} {common : MySqlCommon R} {n : ℕ} {t : TxStatus} where
  module _ {P : Pended → Type 0} {E : Session L → Type 0} where
    replaced-Ends :
        (meta : Option ResultSetMeta) (q : Pended) (s : Session L)
        → Keeps common n t P s
        → no_error q ≡ true
        → Ends
            (λ _ s'. Keeps common n t (λ q'. q' ≡ Prelude.Result.ok (pend meta)) s')
            E
            (replaced (q, (set_pending_result meta s.conn).1) s)
    unfolding replaced set_pending_result Post
    replaced-Ends meta (Prelude.Result.ok q) s k h = record {
      post = record { safe = k.safe; short = k.short; tx = k.tx; pended = refl };
    }
    replaced-Ends meta (Prelude.Result.err e) s k h = absurd (ground arith)

    pub set_pending-Ends :
        (meta : Option ResultSetMeta) (s : Session L)
        → Keeps common n t P s
        → no_error s.conn.pending_result ≡ true
        → Ends
            (λ _ s'. Keeps common n t (λ q. q ≡ Prelude.Result.ok (pend meta)) s')
            E
            (set_pending meta s)
    unfolding set_pending set_pending_result
    set_pending-Ends meta s k h = replaced-Ends meta s.conn.pending_result s k h

  replaced_error-Ends :
      {E : Session L → Type 0} (e : ServerError) (q : Pended) (s : Session L)
      → Keeps common n t IsDrained s
      → q ≡ Prelude.Result.ok none
      → Ends
          (λ _ s'. Keeps common n t Fresh s')
          E
          (replaced (q, (set_pending_result_error e s.conn).1) s)
  unfolding replaced set_pending_result_error Post
  replaced_error-Ends e (Prelude.Result.ok q) s k h = record {
    post = record { safe = k.safe; short = k.short; tx = k.tx; pended = refl };
  }
  replaced_error-Ends e (Prelude.Result.err _) s k h = absurd (ground arith)

  pub set_pending_error-Ends :
      {E : Session L → Type 0} (e : ServerError) (s : Session L)
      → Keeps common n t IsDrained s
      → Ends (λ _ s'. Keeps common n t Fresh s') E (set_pending_error e s)
  unfolding set_pending_error set_pending_result_error
  set_pending_error-Ends e s k = replaced_error-Ends e s.conn.pending_result s k k.pended

  -- A result set becomes pending where nothing was.
  pub set_pending-Fresh-Ends :
      {E : Session L → Type 0} (meta : ResultSetMeta) (s : Session L)
      → Keeps common n t IsDrained s
      → Ends (λ _ s'. Keeps common n t Fresh s') E (set_pending (some meta) s)
  unfolding pend
  set_pending-Fresh-Ends meta s k =
      weaken-Ends (set_pending-Ends (some meta) s k (ap no_error k.pended))
        (λ _ s' k'. Keeps-mono k' (omega arith) (λ q h. ap is_taken h)) (λ s' e. e)

  after_columns-Ends :
      (s : Session L)
      → Idle common n t s
      → Ends (λ _ s'. Idle common n t s') (Idle common n t) (after_columns common s)
  unfolding after_columns Post
  after_columns-Ends s k =
      Ends-of_if (s.deprecate_eof) _ _ (λ h. (record { post = k }))
        (λ h.
          (bind-Ends (read_packet common) _ s (read_packet-Ends s k)
            (λ p s' r. record { post = r.1 })))

  pub debug_assert-Ends :
      (b : Bool) (s : Session L)
      → b ≡ true
      → Idle common n t s
      → Ends (λ _ s'. Idle common n t s') (Idle common n t) (debug_assert b s)
  unfolding Post
  debug_assert-Ends true s h k = record { post = k }
  debug_assert-Ends false s h k = absurd (ground arith)

  pub read_column_defs-Ends :
      (num : ℕ) (s : Session L)
      → num ≢ 0
      → Idle common n t s
      → Ends (λ _ s'. Idle common n t s') (Idle common n t) (read_column_defs common num s)
  unfolding read_column_defs Post
  read_column_defs-Ends num s nz k =
      bind-Ends (debug_assert (ltb 0 num)) _ s
        (debug_assert-Ends _ s (lt→ltb _ _ (omega (arith, nz))) k)
        (λ _ s0 k0.
          bind-Ends (read_packets common num) _ s0 (read_packets-Ends num s0 k0) (λ ps s1 k1.
            bind-Ends (required parse (parse_columns common ps)) _ s1 (required-Ends _ s1 k1)
              (λ defs s2 k2.
                bind-Ends (after_columns common) _ s2 (after_columns-Ends s2 k2)
                  (λ _ s3 k3. record { post = k3 }))))

  pub handle_result_set-Ends :
      (protocol : Protocol) (packet : Packet) (s : Session L)
      → common.lenenc_int packet ≢ some 0
      → Idle common n t s
      → Ends
          (λ _ s'. Pends common n t s')
          (Idle common n t)
          (handle_result_set common protocol packet s)
  unfolding handle_result_set Post
  handle_result_set-Ends protocol packet s nz k = go (common.lenenc_int packet) nz
    where
      go :
          (o : Option ℕ)
          → o ≢ some 0
          → Ends
              (λ _ s'. Pends common n t s')
              (Idle common n t)
              ((required parse o >>= (λ column_count.
                  read_column_defs common column_count
                  >>= (λ columns. set_pending (some (result_set_meta protocol columns)))))
                s)
      go none h = record { post = tt }
      go (some c) h =
          bind-Ends (read_column_defs common c) _ s
            (read_column_defs-Ends c s (λ e. h (ap some e)) k)
            (λ cols s' k'. set_pending-Fresh-Ends (result_set_meta protocol cols) s' k')

  -- The error of a handler may be any.
  lift-Ends :
      {A : Type 0} (r : Prelude.Result Error A) (s : Session L)
      → Idle common n t s
      → Ends (λ _ s'. Idle common n t s') (Idle common n t) (lift r s)
  unfolding Post
  lift-Ends (Prelude.Result.ok a) s k = record { post = k }
  lift-Ends (Prelude.Result.err (server e)) s k = record { post = k }
  lift-Ends (Prelude.Result.err (driver e)) s k = record { post = tt }
  lift-Ends (Prelude.Result.err io) s k = record { post = tt }
  lift-Ends (Prelude.Result.err parse) s k = record { post = tt }
  lift-Ends (Prelude.Result.err (local_infile e)) s k = record { post = tt }
  lift-Ends (Prelude.Result.err (other e)) s k = record { post = tt }

  infile_from-Ends :
      (own : Option InfileData) (global : Option InfileHandler) (file : List ℕ) (s : Session L)
      → Idle common n t s
      → Ends (λ _ s'. Idle common n t s') (Idle common n t) (infile_from own global file s)
  unfolding infile_from Post
  infile_from-Ends (some own) global file s k =
      lift-Ends own _ (record { safe = k.safe; short = k.short; tx = k.tx; pended = k.pended })
  infile_from-Ends none (some global) file s k = lift-Ends (global file) s k
  infile_from-Ends none none file s k = record { post = tt }

  send_chunks-Ends :
      (chunks : List (Option (List ℕ))) (s : Session L)
      → Idle common n t s
      → Ends (λ _ s'. Idle common n t s') (Idle common n t) (send_chunks chunks s)
  unfolding send_chunks Post
  send_chunks-Ends [] s k = record { post = k }
  send_chunks-Ends (none ∷ chunks) s k = record { post = k }
  send_chunks-Ends (some [] ∷ chunks) s k = send_chunks-Ends chunks s k
  send_chunks-Ends (some (b ∷ bs) ∷ chunks) s k =
      bind-Ends (write_packet (bytes (b ∷ bs))) (λ _. send_chunks chunks) s
        (write_packet-Ends _ s k) (λ _ s' k'. send_chunks-Ends chunks s' k')

  finish_infile-Ends :
      (protocol : Protocol) (complete : Bool) (s : Session L)
      → Idle common n t s
      → Ends
          (λ _ s'. Pends common n t s')
          (Idle common n t)
          ((set_pending (some (result_set_meta protocol []))
              >> (if complete then return tt else throw (local_infile read_failed)))
            s)
  unfolding Post
  finish_infile-Ends protocol true s k =
      bind-Ends (set_pending _) _ s (set_pending-Fresh-Ends _ s k) (λ _ s' k'. record { post = k' })
  finish_infile-Ends protocol false s k =
      bind-Ends (set_pending _) _ s (set_pending-Fresh-Ends {E = Idle common n t} _ s k)
        (λ _ s' k'. record { post = tt })

  pub handle_local_infile-Ends :
      (protocol : Protocol) (packet : Packet) (s : Session L)
      → Idle common n t s
      → Ends
          (λ _ s'. Pends common n t s')
          (Idle common n t)
          (handle_local_infile common protocol packet s)
  unfolding handle_local_infile take_infile
  handle_local_infile-Ends protocol packet s k =
      bind-Ends (required parse (common.local_infile_packet packet)) _ s (required-Ends _ s k)
        (λ file s0 k0.
          bind-Ends (take_infile file) _ s0
            (infile_from-Ends s0.infile_handler s0.local_infile_handler file s0 k0)
            (λ chunks s1 k1.
              bind-Ends (send_chunks chunks) _ s1 (send_chunks-Ends chunks s1 k1) (λ complete s2 k2.
                bind-Ends (write_packet (bytes [])) _ s2 (write_packet-Ends _ s2 k2) (λ _ s3 k3.
                  bind-Ends (read_packet common) _ s3 (read_packet-Ends s3 k3)
                    (λ _ s4 r. finish_infile-Ends protocol complete s4 r.1)))))

  dispatch-Ends :
      (protocol : Protocol) (packet : Packet) (s : Session L)
      → IsSafe common packet
      → Idle common n t s
      → Ends (λ _ s'. Pends common n t s') (Idle common n t) (dispatch common protocol packet s)
  unfolding dispatch dispatch_on first
  dispatch-Ends protocol [] s safe k = absurd (ground (arith, safe.nonempty))
  dispatch-Ends protocol (b ∷ bs) s safe k =
      Ends-of_if_step (b == 0) (set_pending _) _ s (λ _. set_pending-Fresh-Ends _ s k)
        (λ nonzero.
          Ends-of_if_step (b == 251) (handle_local_infile common protocol (b ∷ bs)) _ s
            (λ _. handle_local_infile-Ends protocol (b ∷ bs) s k)
            (λ _. handle_result_set-Ends protocol (b ∷ bs) s (columns_of safe.columns nonzero) k))
    where
      columns_of :
          ((first (b ∷ bs) ≡ some 0) ⊎ (common.lenenc_int (b ∷ bs) ≢ some 0))
          → (b == 0) ≡ false
          → common.lenenc_int (b ∷ bs) ≢ some 0
      columns_of (inl e) h = absurd (grind (arith, e, h))
      columns_of (inr ne) h = ne

-- A result set was started, which took a packet.
abbrev pub Started : {L R : Type 0} → MySqlCommon R → ℕ → TxStatus → Session L → Type 0
Started common n t s = Pends common n t s × (length s.incoming < n)

module _ {L : Type 0} {R : Type 0} {common : MySqlCommon R} {n : ℕ} {t : TxStatus} where
  pub Started-of_shorter :
      {m : ℕ} {A : Type 0} {r : Outcome A × Session L}
      → Ends (λ _ s'. Pends common m t s') (Idle common m t) r
      → m < n
      → Ends (λ _ s'. Started common n t s') (Idle common n t) r
  Started-of_shorter {m} e lt =
      weaken-Ends e
        (λ _ s' k. (Keeps-mono k (omega (arith, lt)) (λ q h. h), omega (arith, lt, k.short)))
        (λ s' k. Keeps-mono k (omega (arith, lt)) (λ q h. h))

  after_first_packet-Ends :
      (protocol : Protocol) (is_first : Bool) (r : Outcome Packet × Session L)
      → Ends (Read common t IsDrained n) (Shorter common t IsDrained n) r
      → Ends
          (λ _ s'. Started common n t s')
          (Idle common n t)
          (after_first_packet common protocol is_first r)
  unfolding after_first_packet Post
  after_first_packet-Ends protocol is_first (ok packet, s) e =
      Started-of_shorter (dispatch-Ends protocol packet s e.post.0 (Keeps-exact e.post.1)) e.post.2
  after_first_packet-Ends protocol true (err (server x), s) e = record { post = e.post.0 }
  after_first_packet-Ends protocol false (err (server x), s) e =
      Started-of_shorter (set_pending_error-Ends x s (Keeps-exact e.post.0)) e.post.1
  after_first_packet-Ends protocol true (err _, s) e = record { post = tt }
  after_first_packet-Ends protocol false (err _, s) e = record { post = tt }
  after_first_packet-Ends protocol is_first (panicked, s) e = absurd e.post
  after_first_packet-Ends protocol is_first (stuck, s) e = absurd e.post

  -- The start of a result set is read: a packet was taken, and what is pending was handed to nobody.
  -- After an error of the server nothing is pending.
  pub read_result_set-Ends :
      (protocol : Protocol) (is_first : Bool) (s : Session L)
      → Idle common n t s
      → Ends
          (λ _ s'. Started common n t s')
          (Idle common n t)
          (read_result_set common protocol is_first s)
  unfolding read_result_set
  read_result_set-Ends protocol is_first s k =
      after_first_packet-Ends protocol is_first (read_packet common s)
        (read_packet-Shorter-Ends s k)
