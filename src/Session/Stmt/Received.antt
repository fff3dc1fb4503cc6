-- ===== src/Session/Stmt/Received.antt =====
-- src/conn/routines/helpers.rs: what a server that joins the chunks of long data makes of those that
-- `send_long_data` sends.
use mathlib.Core.List.{append_assoc, append-nil}
use mysql_async.Session.Outcome.{Outcome, ok, err, server, panicked, stuck, continue, ◌>>=◌}
use mysql_async.Session.Protocol.{
  MySqlCommon, Command, com_query, com_quit, com_ping, com_reset_connection, start_tls,
  com_change_user, ssl_request, handshake_response, com_stmt_prepare, com_stmt_close,
  com_stmt_send_long_data, com_stmt_execute, bytes, Value, value_bytes, other_value,
}
use mysql_async.Session.State.{Session, M}
use mysql_async.Session.Packets.{broken, write_packet}
use mysql_async.Session.Commands.{clean_dirty_at, clean_dirty, write_after, write_command}
use mysql_async.Session.Sends.{Claim, At, Always, Allows, IsData}
use mysql_async.Session.Sends.Queries.{AllowsOne, clean_dirty_at-Stays}
use mysql_async.Conn.TxStatus.{TxStatus, is_abandoned}
use mysql_async.Session.Ends.{Ends, Post, Keeps, Anything}
use mysql_async.Session.Ends.Starts.{Idle}
use mysql_async.Session.Ends.Stmt.{send_from-Ends}
use mysql_async.Session.Stmt.{long_data_chunks, send_chunks, send_value, send_from, send_long_data}
use mysql_async.Session.Stmt.LongData.{joined, long_data_chunks-joined}
use mysql_async.Prelude.{
  ℕ, suc, ◌%◌, ◌-◌, ◌^◌, ◌≤◌, ◌<◌, ◌≡◌, refl, sym, ap, ◌∙◌, Bool, true, false, ◌&&◌, ◌==◌, ==_iff,
  subst, List, [], ◌∷◌, ◌++◌, ltb, if◌then◌else◌, length,
}
use mysql_async.Session.Stmt.Fill.{bytes_of, bytes_at, add, fill, fill_first}

-- The data that a server collects for the parameter `j` of a statement.
abbrev pub collected : ℕ → ℕ → List Command → List ℕ
collected id j [] = []
collected id j (com_stmt_send_long_data id' j' chunk ∷ cs) =
    (if (id' == id) && (j' == j) then chunk else []) ++ collected id j cs
collected id j (c ∷ cs) = collected id j cs

collected_one :
    (id j : ℕ) (c : Command) (cs : List Command)
    → collected id j (c ∷ cs) ≡ collected id j (c ∷ []) ++ collected id j cs
collected_one id j (com_stmt_send_long_data id' j' chunk) cs =
    ap (λ xs. xs ++ collected id j cs) (sym (append-nil _))
collected_one id j com_quit cs = refl
collected_one id j com_ping cs = refl
collected_one id j com_reset_connection cs = refl
collected_one id j start_tls cs = refl
collected_one id j (com_change_user x) cs = refl
collected_one id j (ssl_request x) cs = refl
collected_one id j (handshake_response x) cs = refl
collected_one id j (com_query x) cs = refl
collected_one id j (com_stmt_prepare x) cs = refl
collected_one id j (com_stmt_close x) cs = refl
collected_one id j (com_stmt_execute x y) cs = refl
collected_one id j (bytes x) cs = refl

collected-append :
    (id j : ℕ) (xs ys : List Command)
    → collected id j (xs ++ ys) ≡ collected id j xs ++ collected id j ys
collected-append id j [] ys = refl
collected-append id j (c ∷ xs) ys =
    collected_one id j c (xs ++ ys)
    ∙ (ap (λ r. collected id j (c ∷ []) ++ r) (collected-append id j xs ys)
        ∙ (sym (append_assoc (collected id j (c ∷ [])) (collected id j xs) (collected id j ys))
            ∙ ap (λ l. l ++ collected id j ys) (sym (collected_one id j c xs))))

-- What was sent since `cs` gives the server `fed`, by parameter.
abbrev pub Collects : {L : Type 0} → ℕ → List Command → (ℕ → List ℕ) → Claim L
Collects id cs fed cs' cache =
    (more : List Command) × (cs' ≡ cs ++ more) × ((j : ℕ) → collected id j more ≡ fed j)

module _ {L : Type 0} where
  module _ (id : ℕ) (cs : List Command) where
    Collects-ext :
        (fed fed' : ℕ → List ℕ) (cs' : List Command) (cache : _)
        → ((j : ℕ) → fed j ≡ fed' j)
        → Collects {L = L} id cs fed cs' cache
        → Collects {L = L} id cs fed' cs' cache
    Collects-ext fed fed' cs' cache same (more, e, h) = (more, e, λ j. h j ∙ same j)

    -- One more command.
    Collects-one :
        (fed : ℕ → List ℕ) (c : Command) (cs' : List Command) (cache : _)
        → Collects {L = L} id cs fed cs' cache
        → Collects {L = L} id cs (λ j. fed j ++ collected id j (c ∷ [])) (cs' ++ c ∷ []) cache
    Collects-one fed c cs' cache (more, e, h) = (
      more ++ c ∷ [],
      ap (λ l. l ++ c ∷ []) e ∙ append_assoc cs more (c ∷ []),
      λ j. collected-append id j more (c ∷ []) ∙ ap (λ l. l ++ collected id j (c ∷ [])) (h j),
    )

    Collects-query :
        (fed : ℕ → List ℕ) (q : List ℕ) → AllowsOne (Collects {L = L} id cs fed) (com_query q)
    Collects-query fed q cs' cache h =
        Collects-ext _ fed _ cache (λ j. append-nil (fed j))
          (Collects-one fed (com_query q) cs' cache h)

    Collects-Allows : (fed : ℕ → List ℕ) → Allows (Collects {L = L} id cs fed) IsData
    Collects-Allows fed c (b, e) cs' cache h =
        Collects-ext _ fed _ cache
          (λ j. ap (λ c'. fed j ++ collected id j (c' ∷ [])) e ∙ append-nil (fed j))
          (Collects-one fed c cs' cache h)

    Collects-chunk :
        (fed : ℕ → List ℕ) (k : ℕ) (chunk : List ℕ) (cs' : List Command) (cache : _)
        → Collects {L = L} id cs fed cs' cache
        → Collects {L = L} id cs
            (add k chunk fed)
            (cs' ++ com_stmt_send_long_data id k chunk ∷ [])
            cache
    Collects-chunk fed k chunk cs' cache h =
        Collects-ext _ (add k chunk fed) _ cache
          (λ j.
            ap (λ l. fed j ++ l)
              (append-nil _
                ∙ ap (λ b. if b && (k == j) then chunk else []) ((==_iff id id).1 refl)))
          (Collects-one fed (com_stmt_send_long_data id k chunk) cs' cache h)

  -- On success, the claim.
  unfoldable pub After : {A : Type 0} → Claim L → Outcome A × Session L → Type 0
  After J (ok a, s) = At J s
  After J (err e, s) = Unit
  After J (panicked, s) = Unit
  After J (stuck, s) = Unit

  pub record Attains {A : Type 0} (J : Claim L) (r : Outcome A × Session L) : Type 0 where
    pub after : After J r

  bind-Attains :
      {A B : Type 0} {J K : Claim L} (m : M L A) (f : A → M L B) (s : Session L)
      → Attains J (m s)
      → ((a : A) (t : Session L) → At J t → Attains K (f a t))
      → Attains K ((m >>= f) s)
  unfolding After
  bind-Attains {A} {B} {J} {K} m f s h k = go (m s) h
    where
      go : (r : Outcome A × Session L) → Attains J r → Attains K (continue f r)
      go (ok a, t) e = k a t e.after
      go (err _, t) e = record { after = tt }
      go (panicked, t) e = record { after = tt }
      go (stuck, t) e = record { after = tt }

  Attains-of_Always :
      {A : Type 0} {J : Claim L} (r : Outcome A × Session L) → Always J r → Attains J r
  unfolding After
  Attains-of_Always (ok a, t) h = record { after = h.holds }
  Attains-of_Always (err _, t) h = record { after = tt }
  Attains-of_Always (panicked, t) h = record { after = tt }
  Attains-of_Always (stuck, t) h = record { after = tt }

  write-Attains :
      {J : Claim L} (c : Command) (s : Session L)
      → J (s.sent ++ c ∷ []) s.stmt_cache
      → Attains J (write_packet c s)
  unfolding write_packet broken After
  write-Attains {J} c s h = go (s.conn.stream && ltb 0 s.writes_left)
    where
      go :
          (b : Bool)
          → Attains J (
              if b
              then (ok tt, record s { sent = s.sent ++ c ∷ []; writes_left = s.writes_left - 1 })
              else broken s)
      go true = record { after = h }
      go false = record { after = tt }

  module _ {R : Type 0} (common : MySqlCommon R) (id : ℕ) (cs : List Command) where
    send_chunks-Attains :
        (i : ℕ) (chunks : List (List ℕ)) (fed : ℕ → List ℕ) (s : Session L)
        → At (Collects id cs fed) s
        → Attains
            (Collects id cs (add (i % 2 ^ 16) (joined chunks) fed))
            (send_chunks common id i chunks s)
    unfolding send_chunks write_command write_after clean_dirty After
    send_chunks-Attains i [] fed s h = record {
      after =
          Collects-ext id cs fed _ s.sent s.stmt_cache
            (λ j. sym (nothing (i % 2 ^ 16 == j) (fed j))) h;
    }
      where
        nothing : (b : Bool) (xs : List ℕ) → xs ++ (if b then [] else []) ≡ xs
        nothing true xs = append-nil xs
        nothing false xs = append-nil xs
    send_chunks-Attains i (chunk ∷ chunks) fed s h =
        bind-Attains {J = Collects id cs (add k chunk fed)}
          (write_command common (com_stmt_send_long_data id k chunk)) _ s
          (bind-Attains {J = Collects id cs fed} (clean_dirty_at common 2) _ s
            (Attains-of_Always _ (
              clean_dirty_at-Stays (Collects-Allows id cs fed) (Collects-query id cs fed) common 2 s
                h))
            (λ _ t h'.
              write-Attains (com_stmt_send_long_data id k chunk) t
                (Collects-chunk id cs fed k chunk t.sent t.stmt_cache h')))
          (λ _ t h'. weaken _ (send_chunks-Attains i chunks (add k chunk fed) t h'))
      where
        k : ℕ
        k = i % 2 ^ 16

        more :
            (b : Bool) (xs : List ℕ)
            → (xs ++ (if b then chunk else [])) ++ (if b then joined chunks else [])
              ≡ xs ++ (if b then chunk ++ joined chunks else [])
        more true xs = append_assoc xs chunk (joined chunks)
        more false xs = append-nil (xs ++ [])

        weaken :
            (r : Outcome (Unit {0}) × Session L)
            → Attains (Collects id cs (add k (joined chunks) (add k chunk fed))) r
            → Attains (Collects id cs (add k (chunk ++ joined chunks) fed)) r
        weaken (ok a, t) e = record {
          after = Collects-ext id cs _ _ t.sent t.stmt_cache (λ j. more (k == j) (fed j)) e.after;
        }
        weaken (err _, t) e = record { after = tt }
        weaken (panicked, t) e = record { after = tt }
        weaken (stuck, t) e = record { after = tt }

    send_value-Attains :
        (i : ℕ) (v : Value) (fed : ℕ → List ℕ) (s : Session L)
        → At (Collects id cs fed) s
        → Attains (Collects id cs (add (i % 2 ^ 16) (bytes_of v) fed)) (send_value common id i v s)
    unfolding send_value After
    send_value-Attains i (value_bytes bs) fed s h =
        subst
          (λ xs.
            Attains (Collects id cs (add (i % 2 ^ 16) xs fed))
              (send_chunks common id i (long_data_chunks bs) s))
          (long_data_chunks-joined bs).0 (send_chunks-Attains i (long_data_chunks bs) fed s h)
    send_value-Attains i (other_value v) fed s h = record {
      after =
          Collects-ext id cs fed _ s.sent s.stmt_cache
            (λ j. sym (nothing (i % 2 ^ 16 == j) (fed j))) h;
    }
      where
        nothing : (b : Bool) (xs : List ℕ) → xs ++ (if b then [] else []) ≡ xs
        nothing true xs = append-nil xs
        nothing false xs = append-nil xs

    send_from-Attains :
        (i : ℕ) (vs : List Value) (fed : ℕ → List ℕ) (s : Session L)
        → At (Collects id cs fed) s
        → Attains (Collects id cs (fill i vs fed)) (send_from common id i vs s)
    unfolding send_from After
    send_from-Attains i [] fed s h = record { after = h }
    send_from-Attains i (v ∷ vs) fed s h =
        bind-Attains (send_value common id i v) (λ _. send_from common id (suc i) vs) s
          (send_value-Attains i v fed s h) (λ _ t h'. send_from-Attains (suc i) vs _ t h')

-- What was sent since `cs` gives the server the bytes of every value.
abbrev pub Delivers : ℕ → List Value → List Command → List Command → Type 0
Delivers id values cs cs' =
    (more : List Command) × (cs' ≡ cs ++ more)
    × ((j : ℕ) → j < length values → collected id j more ≡ bytes_at j values)

module _ {L : Type 0} {R : Type 0} {common : MySqlCommon R} {n : ℕ} {t : TxStatus} where
  -- Where no transaction was abandoned, the packets to come are safe and there are at most 2 ^ 16
  -- parameters, `send_long_data` ends without a panic, from any pending result. On success, a
  -- server that joins the chunks of the statement, each under the index that it comes with, has
  -- collected for each parameter exactly its bytes, or nothing where it is no byte string,
  -- whatever else was sent in between. After an error of the server nothing is pending.
  pub send_long_data-Delivers :
      (id : ℕ) (values : List Value) (s : Session L)
      → is_abandoned t ≡ false
      → length values ≤ 65536
      → Keeps common n t Anything s
      → Ends
          (λ _ s'. Keeps common n t Anything s' × Delivers id values s.sent s'.sent)
          (Idle common n t)
          (send_long_data common id values s)
  unfolding send_long_data After Post
  send_long_data-Delivers id values s calm fits k = go _ (send_from-Ends calm id 0 values s k) (
      send_from-Attains common id s.sent 0 values (λ _. []) s
        ([], sym (append-nil s.sent), λ j. refl))
    where
      go :
          (r : Outcome (Unit {0}) × Session L)
          → Ends (λ _ s'. Keeps common n t Anything s') (Idle common n t) r
          → Attains (Collects id s.sent (fill 0 values (λ _. []))) r
          → Ends
              (λ _ s'. Keeps common n t Anything s' × Delivers id values s.sent s'.sent)
              (Idle common n t)
              r
      go (ok a, s') e h = record {
        post = (e.post, (h.after.0, h.after.1, λ j lt. h.after.2 j ∙ fill_first j values fits lt));
      }
      go (err (server x), s') e h = record { post = e.post }
      go (err _, s') e h = record { post = tt }
      go (panicked, s') e h = absurd e.post
      go (stuck, s') e h = absurd e.post
