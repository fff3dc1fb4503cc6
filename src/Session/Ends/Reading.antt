-- ===== src/Session/Ends/Reading.antt =====
-- src/conn/mod.rs and src/conn/routines/helpers.rs: packets and the starts of result sets are read
-- without a panic, and take packets off the stream.
use mysql_async.Conn.State.{
  Conn, Column, OkPacket, ErrPacket, ServerError, ResultSetMeta, text, binary, handle_ok,
  handle_err, PendingResult, pending, taken,
}
use mysql_async.Conn.State
use mysql_async.Conn.TxStatus.{TxStatus}
use mysql_async.Conn.Pending.{Pended}
use mysql_async.Session.Outcome.{parse, server, Outcome, ok, err, panicked, stuck, required}
use mysql_async.Session.Protocol.{Packet, MySqlCommon, Command}
use mysql_async.Session.State.{Session}
use mysql_async.Session.Packets.{
  broken, handle_maybe_err, handle_maybe_ok, handle_packet, received, after_handled, read_from,
  read_packet, read_packets, write_packet,
}
use mysql_async.Session.Ends.{
  IsSafe, Ends, Post, bind-Ends, Ends-of_if, weaken-Ends, Keeps, Keeps-mono,
}
use mysql_async.Prelude.{
  ℕ, zero, suc, ◌≤◌, ◌<◌, ◌≡◌, refl, sym, ap, ◌∙◌, inl, inr, Bool, true, false, ◌&&◌, Option, none,
  some, List, [], ◌∷◌, arith, ltb, Bool-cases, length, All, if_true, if_false, subst,
}

-- A packet was taken.
abbrev pub Shorter :
    {L : Type 0} {R : Type 0}
    → MySqlCommon R
    → TxStatus
    → (Pended → Type 0)
    → ℕ
    → Session L
    → Type 0
Shorter common t P n s = Keeps common n t P s × (length s.incoming < n)

-- A packet that was read: it is safe, and fewer are to come.
abbrev pub Read :
    {L : Type 0} {R : Type 0}
    → MySqlCommon R
    → TxStatus
    → (Pended → Type 0)
    → ℕ
    → Packet
    → Session L
    → Type 0
Read common t P n p s = IsSafe common p × Keeps common n t P s × (length s.incoming < n)

module _ {L : Type 0} {R : Type 0} {common : MySqlCommon R} {t : TxStatus}
    {P : Pended → Type 0} where
  maybe_err-Ends :
      {n : ℕ} (e : Option ErrPacket) (s : Session L)
      → Keeps common n t P s
      → Ends (λ _ s'. Keeps common n t P s') (Keeps common n t P) (handle_maybe_err e s)
  unfolding handle_maybe_err handle_err Post
  maybe_err-Ends none s k = record { post = k }
  maybe_err-Ends (some (State.error e)) s k = record {
    post = record { safe = k.safe; short = k.short; tx = k.tx; pended = k.pended };
  }
  maybe_err-Ends (some State.progress) s k = record {
    post = record { safe = k.safe; short = k.short; tx = k.tx; pended = k.pended };
  }

  maybe_ok-Ends :
      {n : ℕ} (o : Option OkPacket) (e : Option ErrPacket) (s : Session L)
      → Keeps common n t P s
      → Ends (λ _ s'. Keeps common n t P s') (Keeps common n t P) (handle_maybe_ok o e s)
  unfolding handle_maybe_ok handle_ok Post
  maybe_ok-Ends none e s k = maybe_err-Ends e s k
  maybe_ok-Ends (some o) e s k = record {
    post = record { safe = k.safe; short = k.short; tx = k.tx; pended = k.pended };
  }

  read_from-Ends :
      {n : ℕ} (ps : List Packet) (s : Session L)
      → All (IsSafe common) ps
      → length ps ≤ n
      → s.conn.tx_status ≡ t
      → P s.conn.pending_result
      → Ends (Read common t P n) (Shorter common t P n) (read_from common ps s)
  unfolding read_from broken Post handle_packet
  read_from-Ends [] s safe short tx p = record { post = tt }
  read_from-Ends {n} (packet ∷ rest) s safe short tx p =
      go (handle_packet common packet (received common rest s))
        (maybe_ok-Ends _ _ (received common rest s)
          (record { safe = safe.1; short = omega (arith, short); tx = tx; pended = p }))
        (λ s' k. read_from-Ends rest s' safe.1 (omega (arith, short)) k.tx k.pended)
    where
      go :
          (r : Outcome Bool × Session L)
          → Ends (λ _ s'. Keeps common (length rest) t P s') (Keeps common (length rest) t P) r
          → ((s' : Session L)
              → Keeps common (length rest) t P s'
              → Ends (Read common t P n) (Shorter common t P n) (read_from common rest s'))
          → Ends
              (Read common t P n)
              (Shorter common t P n)
              (after_handled packet (read_from common rest) r)
      go (ok true, s') e more = more s' e.post
      go (ok false, s') e more = record {
        post = (
          safe.0,
          Keeps-mono e.post (omega (arith, short)) (λ q h. h),
          omega (arith, short, e.post.short),
        );
      }
      go (err (server x), s') e more = record {
        post = (
          Keeps-mono e.post (omega (arith, short)) (λ q h. h),
          omega (arith, short, e.post.short),
        );
      }
      go (err _, s') e more = record { post = tt }
      go (panicked, s') e more = absurd e.post
      go (stuck, s') e more = absurd e.post

  pub read_packet-Shorter-Ends :
      {n : ℕ} (s : Session L)
      → Keeps common n t P s
      → Ends (Read common t P n) (Shorter common t P n) (read_packet common s)
  unfolding read_packet broken Post
  read_packet-Shorter-Ends {n} s k =
      Ends-of_if (s.conn.stream) _ _
        (λ open_. (read_from-Ends s.incoming s k.safe k.short k.tx k.pended))
        (λ closed. (record { post = tt }))

  pub read_packet-Ends :
      {n : ℕ} (s : Session L)
      → Keeps common n t P s
      → Ends (Read common t P n) (Keeps common n t P) (read_packet common s)
  read_packet-Ends s k = weaken-Ends (read_packet-Shorter-Ends s k) (λ p s' r. r) (λ s' e. e.0)

  pub read_packets-Ends :
      {n : ℕ} (k : ℕ) (s : Session L)
      → Keeps common n t P s
      → Ends (λ _ s'. Keeps common n t P s') (Keeps common n t P) (read_packets common k s)
  unfolding read_packets Post
  read_packets-Ends zero s h = record { post = h }
  read_packets-Ends (suc k) s h =
      bind-Ends (read_packet common) _ s (read_packet-Ends s h) (λ p s' r.
        bind-Ends (read_packets common k) _ s' (read_packets-Ends k s' r.1)
          (λ ps s'' h'. record { post = h' }))

  pub write_packet-Ends :
      {n : ℕ} (c : Command) (s : Session L)
      → Keeps common n t P s
      → Ends (λ _ s'. Keeps common n t P s') (Keeps common n t P) (write_packet c s)
  unfolding write_packet broken Post
  write_packet-Ends {n} c s k = elim (Bool-cases (s.conn.stream && ltb 0 s.writes_left)) [
    | inl open_ ↦
        subst {A = Outcome (Unit {0}) × Session L}
          (Ends (λ _ s'. Keeps common n t P s') (Keeps common n t P)) (sym (if_true _ _ open_))
          (record {
            post = record { safe = k.safe; short = k.short; tx = k.tx; pended = k.pended };
          })
    | inr closed ↦
        subst {A = Outcome (Unit {0}) × Session L}
          (Ends (λ _ s'. Keeps common n t P s') (Keeps common n t P)) (sym (if_false _ _ closed))
          (record { post = tt })
  ]

  pub required-Ends :
      {A : Type 0} {n : ℕ} (o : Option A) (s : Session L)
      → Keeps common n t P s
      → Ends (λ _ s'. Keeps common n t P s') (Keeps common n t P) (required parse o s)
  unfolding Post
  required-Ends (some a) s k = record { post = k }
  required-Ends none s k = record { post = tt }

-- Reading a packet leaves the pending result alone.
module _ {L : Type 0} {R : Type 0} (common : MySqlCommon R) where
  maybe_err_pended :
      (e : Option ErrPacket) (s : Session L)
      → (handle_maybe_err e s).1.conn.pending_result ≡ s.conn.pending_result
  unfolding handle_maybe_err handle_err
  maybe_err_pended none s = refl
  maybe_err_pended (some (State.error e)) s = refl
  maybe_err_pended (some State.progress) s = refl

  maybe_ok_pended :
      (o : Option OkPacket) (e : Option ErrPacket) (s : Session L)
      → (handle_maybe_ok o e s).1.conn.pending_result ≡ s.conn.pending_result
  unfolding handle_maybe_ok handle_ok
  maybe_ok_pended none e s = maybe_err_pended e s
  maybe_ok_pended (some o) e s = refl

  read_from_pended :
      (ps : List Packet) (s : Session L)
      → (read_from common ps s).1.conn.pending_result ≡ s.conn.pending_result
  unfolding read_from broken handle_packet
  read_from_pended [] s = refl
  read_from_pended (packet ∷ rest) s =
      go (handle_packet common packet (received common rest s))
        (maybe_ok_pended _ _ (received common rest s)) (read_from_pended rest)
    where
      go :
          (r : Outcome Bool × Session L)
          → r.1.conn.pending_result ≡ s.conn.pending_result
          → ((s' : Session L)
              → (read_from common rest s').1.conn.pending_result ≡ s'.conn.pending_result)
          → (after_handled packet (read_from common rest) r).1.conn.pending_result
            ≡ s.conn.pending_result
      go (ok true, s') e more = more s' ∙ e
      go (ok false, s') e more = e
      go (err _, s') e more = e
      go (panicked, s') e more = e
      go (stuck, s') e more = e

  pub read_packet_pended :
      (s : Session L) → (read_packet common s).1.conn.pending_result ≡ s.conn.pending_result
  unfolding read_packet broken
  read_packet_pended s = elim (Bool-cases s.conn.stream) [
    | inl h ↦
        ap {A = Outcome Packet × Session L} (λ r. r.1.conn.pending_result) (if_true _ _ h)
        ∙ read_from_pended s.incoming s
    | inr h ↦ ap {A = Outcome Packet × Session L} (λ r. r.1.conn.pending_result) (if_false _ _ h)
  ]
