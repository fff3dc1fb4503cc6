-- ===== src/Session/Ends/Rows.antt =====
-- src/queryable/query_result/mod.rs: reading and dropping result sets ends, and drains the connection.
use mysql_async.Conn.State.{Conn, Column, ResultSetMeta, columns}
use mysql_async.Conn.TxStatus.{TxStatus}
use mysql_async.Conn.Pending.{Pended, pend, set_pending_result}
use mysql_async.Session.Outcome.{
  Error, driver, io, parse, server, local_infile, other, is_fatal, Outcome, ok, err, panicked,
  stuck, continue, ◌>>=◌, ◌>>◌, return, throw, required,
}
use mysql_async.Session.Protocol.{Packet, MySqlCommon, Protocol}
use mysql_async.Session.State.{Session}
use mysql_async.Session.Packets.{read_packet}
use mysql_async.Session.ResultSets.{replaced, set_pending, read_result_set}
use mysql_async.Session.QueryResult.{
  is_last_result_set_packet, more_results_exists, row_or_end, row_packet, after_row_packet,
  next_row, read_next_set, next_set, by_row, next_row_or_next_set,
}
use mysql_async.Session.Ends.{
  IsSafe, Ends, Post, bind-Ends, routine-Ends, Ends-of_if, weaken-Ends, Keeps, Keeps-mono,
  Keeps-set_disconnected,
}
use mysql_async.Session.Ends.Reading.{Read, Shorter, read_packet-Shorter-Ends, read_packet_pended}
use mysql_async.Session.Ends.Starts.{
  Idle, Started, no_error, set_pending-Ends, read_result_set-Ends,
}
use mysql_async.Prelude
use mysql_async.Prelude.{
  ℕ, zero, suc, ◌≤◌, ◌<◌, ◌≡◌, refl, ap, ◌∙◌, ◌⊎◌, inl, inr, Bool, true, false, Option, none, some,
  List, [], ◌∷◌, arith,
}

-- Something may be pending, but no error.
abbrev pub Held : Pended → Type 0
Held q = no_error q ≡ true

-- A result set was finished: nothing is pending, or the next one, whose start took a packet.
abbrev pub Done : {L R : Type 0} → MySqlCommon R → ℕ → TxStatus → Session L → Type 0
Done common n t s = Idle common n t s ⊎ Started common n t s

-- After `next_row`: a row, or the end of the result set.
abbrev pub Row : {L R : Type 0} → MySqlCommon R → ℕ → TxStatus → Option R → Session L → Type 0
Row common n t (some r) s = Shorter common t Held n s
Row common n t none s = Idle common n t s

-- After `next`: a row, which took a packet, or the end of a result set.
abbrev pub Next : {L R : Type 0} → MySqlCommon R → ℕ → TxStatus → Option R → Session L → Type 0
Next common n t (some r) s = Shorter common t Held n s
Next common n t none s = Done common n t s

module _ {L : Type 0} {R : Type 0} {common : MySqlCommon R} {t : TxStatus} where
  pub Done-mono : {n m : ℕ} {s : Session L} → Done common n t s → n ≤ m → Done common m t s
  Done-mono (inl k) le = inl (Keeps-mono k le (λ q h. h))
  Done-mono (inr k) le = inr (Keeps-mono k.0 le (λ q h. h), omega (arith, le, k.1))

module _ {L : Type 0} {R : Type 0} (common : MySqlCommon R) (t : TxStatus) where
  pub Next-mono :
      {n m : ℕ} (o : Option R) (s : Session L) → Next common n t o s → n ≤ m → Next common m t o s
  Next-mono (some r) s k le = (Keeps-mono k.0 le (λ q h. h), omega (arith, le, k.1))
  Next-mono none s k le = Done-mono k le

module _ {L : Type 0} {R : Type 0} {common : MySqlCommon R} {t : TxStatus} {n : ℕ} where
  replaced_fatal-Ends :
      {A : Type 0} {P : A → Session L → Type 0} (e : Error) (q : Pended) (c : Conn) (s : Session L)
      → is_fatal e ≡ true
      → no_error q ≡ true
      → Ends P (Idle common n t) (continue (λ _. throw e) (replaced (q, c) s))
  unfolding replaced Post is_fatal
  replaced_fatal-Ends (driver x) (Prelude.Result.ok q) c s f h = record { post = tt }
  replaced_fatal-Ends io (Prelude.Result.ok q) c s f h = record { post = tt }
  replaced_fatal-Ends parse (Prelude.Result.ok q) c s f h = record { post = tt }
  replaced_fatal-Ends (local_infile x) (Prelude.Result.ok q) c s f h = record { post = tt }
  replaced_fatal-Ends (other x) (Prelude.Result.ok q) c s f h = record { post = tt }
  replaced_fatal-Ends (server x) (Prelude.Result.ok q) c s f h = absurd (ground (arith, f))
  replaced_fatal-Ends e (Prelude.Result.err x) c s f h = absurd (ground (arith, h))

  -- An error that breaks the connection, thrown after the result set was ended.
  throw_fatal-Ends :
      {A : Type 0} {P : A → Session L → Type 0} (e : Error) (s : Session L)
      → is_fatal e ≡ true
      → no_error s.conn.pending_result ≡ true
      → Ends P (Idle common n t) ((set_pending none >> throw e) s)
  unfolding set_pending set_pending_result
  throw_fatal-Ends e s f h = replaced_fatal-Ends e s.conn.pending_result _ s f h

module _ {L : Type 0} {R : Type 0} {common : MySqlCommon R} {t : TxStatus} {n : ℕ}
    (protocol : Protocol) where
  end-Ends :
      (s : Session L)
      → Keeps common n t Held s
      → Ends (λ _ s'. Idle common n t s') (Idle common n t) (set_pending none s)
  unfolding pend
  end-Ends s k = weaken-Ends (set_pending-Ends none s k k.pended) (λ _ s' k'. k') (λ s' e. e)

  read_next_set-Ends :
      (s : Session L)
      → Idle common n t s
      → Ends (λ _ s'. Done common n t s') (Idle common n t) (read_next_set common protocol s)
  unfolding read_next_set Post
  read_next_set-Ends s k =
      Ends-of_if (more_results_exists s) _ _
        (λ _.
          routine-Ends {P' = λ _ s'. Done common n t s'} (read_result_set common protocol false) s
            (read_result_set-Ends protocol false _ (Keeps-set_disconnected true k))
            (λ _ s' k'. inr (Keeps-set_disconnected false k'.0, k'.1))
            (λ s' k'. Keeps-set_disconnected false k'))
        (λ _. record { post = inl k })

  pub next_set-Ends :
      (s : Session L)
      → Idle common n t s
      → Ends (λ _ s'. Done common n t s') (Idle common n t) (next_set common protocol s)
  unfolding next_set Post
  next_set-Ends s k =
      bind-Ends (read_next_set common protocol) _ s (read_next_set-Ends s k)
        (λ _ s' k'. record { post = k' })

  required-Row-Ends :
      (o : Option R) (s : Session L)
      → Shorter common t Held n s
      → Ends (Row common n t) (Idle common n t) ((required parse o >>= (λ r. return (some r))) s)
  unfolding Post
  required-Row-Ends none s k = record { post = tt }
  required-Row-Ends (some r) s k = record { post = k }

  row_or_end-Ends :
      (cols : List Column) (packet : Packet) (b : Bool) (s : Session L)
      → Shorter common t Held n s
      → Ends (Row common n t) (Idle common n t) (row_or_end common protocol cols packet (some b) s)
  unfolding row_or_end Post
  row_or_end-Ends cols packet true s k =
      bind-Ends (set_pending none) _ s (end-Ends s k.0) (λ _ s' k'. record { post = k' })
  row_or_end-Ends cols packet false s k = required-Row-Ends (common.row protocol cols packet) s k

  row_packet-Ends :
      (cols : List Column) (packet : Packet) (s : Session L)
      → IsSafe common packet
      → Shorter common t Held n s
      → Ends (Row common n t) (Idle common n t) (row_packet common protocol cols packet s)
  unfolding row_packet is_last_result_set_packet
  row_packet-Ends cols [] s safe k = absurd (ground (arith, safe.nonempty))
  row_packet-Ends cols (b ∷ bs) s safe k = row_or_end-Ends cols (b ∷ bs) _ s k

  after_row_packet-Ends :
      (cols : List Column) (r : Outcome Packet × Session L)
      → Ends (Read common t Held n) (Shorter common t Held n) r
      → no_error r.1.conn.pending_result ≡ true
      → Ends (Row common n t) (Idle common n t) (after_row_packet common protocol cols r)
  unfolding after_row_packet Post is_fatal
  after_row_packet-Ends cols (ok packet, s) e h =
      row_packet-Ends cols packet s e.post.0 (e.post.1, e.post.2)
  after_row_packet-Ends cols (err (server x), s) e h =
      bind-Ends (set_pending none) _ s (end-Ends s e.post.0) (λ _ s' k'. record { post = k' })
  after_row_packet-Ends cols (err (driver x), s) e h = throw_fatal-Ends (driver x) s refl h
  after_row_packet-Ends cols (err io, s) e h = throw_fatal-Ends io s refl h
  after_row_packet-Ends cols (err parse, s) e h = throw_fatal-Ends parse s refl h
  after_row_packet-Ends cols (err (local_infile x), s) e h =
      throw_fatal-Ends (local_infile x) s refl h
  after_row_packet-Ends cols (err (other x), s) e h = throw_fatal-Ends (other x) s refl h
  after_row_packet-Ends cols (panicked, s) e h = absurd e.post
  after_row_packet-Ends cols (stuck, s) e h = absurd e.post

  next_row-Ends :
      (cols : List Column) (s : Session L)
      → Keeps common n t Held s
      → Ends (Row common n t) (Idle common n t) (next_row common protocol cols s)
  unfolding next_row Post
  next_row-Ends [] s k =
      bind-Ends (set_pending none) _ s (end-Ends s k) (λ _ s' k'. record { post = k' })
  next_row-Ends (c ∷ cs) s k =
      after_row_packet-Ends (c ∷ cs) (read_packet common s) (read_packet-Shorter-Ends s k)
        (ap no_error (read_packet_pended common s) ∙ k.pended)

  pub next_row_or_next_set-Ends :
      (meta : ResultSetMeta) (s : Session L)
      → Keeps common n t Held s
      → Ends (Next common n t) (Idle common n t) (next_row_or_next_set common protocol meta s)
  unfolding next_row_or_next_set Post
  next_row_or_next_set-Ends meta s k =
      bind-Ends (next_row common protocol (columns meta)) _ s (next_row-Ends (columns meta) s k) go
    where
      go :
          (o : Option R) (s' : Session L)
          → Row common n t o s'
          → Ends
              (Next common n t)
              (Idle common n t)
              (by_row (λ r. return (some r)) (next_set common protocol >>= (λ _. return none)) o s')
      go (some r) s' k' = record { post = k' }
      go none s' k' =
          bind-Ends (next_set common protocol) _ s' (next_set-Ends s' k')
            (λ _ s'' d. record { post = d })
