-- ===== src/Session/Ends/Pending.antt =====
-- src/conn/routines/helpers.rs: what is pending once a result set was started.
use mysql_async.Conn.State.{Column, pending, ServerError}
use mysql_async.Conn.TxStatus.{TxStatus}
use mysql_async.Conn.Pending.{Pended, pend, set_pending_result, set_pending_result_error}
use mysql_async.Session.Outcome.{
  Error, server, local_infile, read_failed, Outcome, ok, err, panicked, stuck, continue, ◌>>=◌,
  ◌>>◌, required, return, throw,
}
use mysql_async.Session.Protocol.{Packet, MySqlCommon, Protocol, bytes}
use mysql_async.Session.State.{Session, M}
use mysql_async.Session.Packets.{read_packet, write_packet}
use mysql_async.Session.ResultSets.{
  result_set_meta, replaced, set_pending, set_pending_error, take_infile, send_chunks,
  read_column_defs, handle_result_set, handle_local_infile, dispatch_on, dispatch,
  after_first_packet, read_result_set, first,
}
use mysql_async.Session.Ends.{Ends, Post}
use mysql_async.Session.Ends.Starts.{Idle, Started, read_result_set-Ends}
use mysql_async.Prelude
use mysql_async.Prelude.{
  ℕ, ◌≡◌, refl, ◌⊎◌, inl, inr, Bool, true, false, ◌==◌, Option, none, some, List, [], if◌then◌else◌,
}

-- A result set of the protocol is pending, or, after the first one, an error of the server.
abbrev pub IsStarted : Protocol → Bool → Pended → Type 0
IsStarted protocol is_first q =
    ((cols : List Column) × (q
        ≡ Prelude.Result.ok (some (pending (result_set_meta protocol cols)))))
    ⊎ ((e : ServerError) × (is_first ≡ false) × (q ≡ Prelude.Result.err e))

-- On success, what is pending has `P`.
module _ {L : Type 0} {A : Type 0} where
  unfoldable Left : (Pended → Type 0) → Outcome A × Session L → Type 0
  Left P (ok a, s) = P s.conn.pending_result
  Left P (err e, s) = Unit
  Left P (panicked, s) = Unit
  Left P (stuck, s) = Unit

  record Leaves (P : Pended → Type 0) (r : Outcome A × Session L) : Type 0 where
    left : Left P r

  both-Ends-Leaves :
      {Q : A → Session L → Type 0} {E : Session L → Type 0} {P : Pended → Type 0}
      {r : Outcome A × Session L}
      → Ends Q E r
      → Leaves P r
      → Ends (λ a s. Q a s × P s.conn.pending_result) E r
  unfolding Left Post
  both-Ends-Leaves {r = (ok a, t)} e h = record { post = (e.post, h.left) }
  both-Ends-Leaves {r = (err (server x), t)} e h = record { post = e.post }
  both-Ends-Leaves {r = (err _, t)} e h = record { post = tt }
  both-Ends-Leaves {r = (panicked, t)} e h = absurd e.post
  both-Ends-Leaves {r = (stuck, t)} e h = absurd e.post

module _ {L : Type 0} {A : Type 0} {B : Type 0} {P : Pended → Type 0} where
  bind-Leaves :
      (m : M L A) (f : A → M L B)
      → ((a : A) (t : Session L) → Leaves P (f a t))
      → (s : Session L) → Leaves P ((m >>= f) s)
  unfolding Left
  bind-Leaves m f k s = go (m s)
    where
      go : (r : Outcome A × Session L) → Leaves P (continue f r)
      go (ok a, t) = k a t
      go (err _, t) = record { left = tt }
      go (panicked, t) = record { left = tt }
      go (stuck, t) = record { left = tt }

module _ {L : Type 0} {R : Type 0} (common : MySqlCommon R) (protocol : Protocol)
    (is_first : Bool) where
  set_pending-Leaves :
      (cols : List Column) (s : Session L)
      → Leaves (IsStarted protocol is_first) (set_pending (some (result_set_meta protocol cols)) s)
  unfolding set_pending replaced set_pending_result pend Left
  set_pending-Leaves cols s = go s.conn.pending_result
    where
      go :
          (q : Pended)
          → Leaves
              (IsStarted protocol is_first)
              (replaced (q, (set_pending_result (some (result_set_meta protocol cols)) s.conn).1) s)
      go (Prelude.Result.ok p) = record { left = inl (cols, refl) }
      go (Prelude.Result.err e) = record { left = tt }

  handle_result_set-Leaves :
      (packet : Packet) (s : Session L)
      → Leaves (IsStarted protocol is_first) (handle_result_set common protocol packet s)
  unfolding handle_result_set
  handle_result_set-Leaves packet =
      bind-Leaves (required Error.parse (common.lenenc_int packet)) _
        (λ n. bind-Leaves (read_column_defs common n) _ set_pending-Leaves)

  finish-Leaves :
      (complete : Bool) (s : Session L)
      → s.conn.pending_result ≡ Prelude.Result.ok (some (pending (result_set_meta protocol [])))
      → Leaves
          (IsStarted protocol is_first)
          ((if complete then return tt else throw (local_infile read_failed)) s)
  unfolding Left
  finish-Leaves true s e = record { left = inl ([], e) }
  finish-Leaves false s e = record { left = tt }

  fed-Leaves :
      (complete : Bool) (s : Session L)
      → Leaves (IsStarted protocol is_first) (
          (set_pending (some (result_set_meta protocol []))
              >> (if complete then return tt else throw (local_infile read_failed)))
            s)
  unfolding set_pending replaced set_pending_result pend Left
  fed-Leaves complete s = go s.conn.pending_result
    where
      go :
          (q : Pended)
          → Leaves (IsStarted protocol is_first) (
              continue
                (λ _. if complete then return tt else throw (local_infile read_failed))
                (replaced
                  (q, (set_pending_result (some (result_set_meta protocol [])) s.conn).1)
                  s))
      go (Prelude.Result.ok p) = finish-Leaves complete _ refl
      go (Prelude.Result.err e) = record { left = tt }

  handle_local_infile-Leaves :
      (packet : Packet) (s : Session L)
      → Leaves (IsStarted protocol is_first) (handle_local_infile common protocol packet s)
  unfolding handle_local_infile
  handle_local_infile-Leaves packet =
      bind-Leaves (required Error.parse (common.local_infile_packet packet)) _ (λ file.
        bind-Leaves (take_infile file) _ (λ chunks. bind-Leaves (send_chunks chunks) _ (λ complete.
          bind-Leaves (write_packet (bytes [])) _
            (λ _. bind-Leaves (read_packet common) _ (λ _. fed-Leaves complete)))))

  if-Leaves :
      (b : Bool) (x y : M L (Unit {0})) (s : Session L)
      → Leaves (IsStarted protocol is_first) (x s)
      → Leaves (IsStarted protocol is_first) (y s)
      → Leaves (IsStarted protocol is_first) ((if b then x else y) s)
  if-Leaves true x y s f g = f
  if-Leaves false x y s f g = g

  dispatch_on-Leaves :
      (packet : Packet) (o : Option ℕ) (s : Session L)
      → Leaves (IsStarted protocol is_first) (dispatch_on common protocol packet o s)
  unfolding dispatch_on
  dispatch_on-Leaves packet none s = handle_result_set-Leaves packet s
  dispatch_on-Leaves packet (some b) s = if-Leaves (b == 0) _ _ s (set_pending-Leaves [] s) (
      if-Leaves (b == 251) _ _ s (handle_local_infile-Leaves packet s)
        (handle_result_set-Leaves packet s))

module _ {L : Type 0} {R : Type 0} (common : MySqlCommon R) (protocol : Protocol) where
  set_error-Leaves :
      (e : ServerError) (s : Session L) → Leaves (IsStarted protocol false) (set_pending_error e s)
  unfolding set_pending_error replaced set_pending_result_error Left
  set_error-Leaves e s = go s.conn.pending_result
    where
      go :
          (q : Pended)
          → Leaves
              (IsStarted protocol false)
              (replaced (q, (set_pending_result_error e s.conn).1) s)
      go (Prelude.Result.ok p) = record { left = inr (e, refl, refl) }
      go (Prelude.Result.err _) = record { left = tt }

  after_first-Leaves :
      (is_first : Bool) (r : Outcome Packet × Session L)
      → Leaves (IsStarted protocol is_first) (after_first_packet common protocol is_first r)
  unfolding after_first_packet dispatch Left
  after_first-Leaves is_first (ok packet, s) =
      dispatch_on-Leaves common protocol is_first packet (first packet) s
  after_first-Leaves true (err (server x), s) = record { left = tt }
  after_first-Leaves false (err (server x), s) = set_error-Leaves x s
  after_first-Leaves true (err _, s) = record { left = tt }
  after_first-Leaves false (err _, s) = record { left = tt }
  after_first-Leaves is_first (panicked, s) = record { left = tt }
  after_first-Leaves is_first (stuck, s) = record { left = tt }

module _ {L : Type 0} {R : Type 0} {common : MySqlCommon R} {n : ℕ} {t : TxStatus} where
  -- Where nothing is pending and the packets to come are safe, reading the start of a result set
  -- never panics or runs on. On success it has taken a packet, and what is pending is a result set
  -- of its protocol that nobody was handed, or, except for the first result set, an error of the
  -- server. After an error of the server nothing is pending.
  pub read_result_set-IsStarted :
      (protocol : Protocol) (is_first : Bool) (s : Session L)
      → Idle common n t s
      → Ends
          (λ _ s'. Started common n t s' × IsStarted protocol is_first s'.conn.pending_result)
          (Idle common n t)
          (read_result_set common protocol is_first s)
  unfolding read_result_set
  read_result_set-IsStarted protocol is_first s k =
      both-Ends-Leaves (read_result_set-Ends protocol is_first s k)
        (after_first-Leaves common protocol is_first (read_packet common s))
