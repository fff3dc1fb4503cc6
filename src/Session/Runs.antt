-- ===== src/Session/Runs.antt =====
-- src/conn/mod.rs: what a function of a connection has sent and knows, however it ends. `Runs Q J` says
-- of an outcome that its loops ended, that its value has `Q`, and that after an error or a panic what
-- was sent and the authentication have `J`.
use mysql_async.Conn.State.{OkPacket, ErrPacket, handle_ok, handle_err}
use mysql_async.Conn.State
use mysql_async.Session.Login.{Auth}
use mysql_async.Session.Outcome.{
  Error, Outcome, ok, err, panicked, stuck, continue, ◌>>=◌, required,
}
use mysql_async.Session.Protocol.{Packet, MySqlCommon, Command}
use mysql_async.Session.State.{Session, M}
use mysql_async.Session.Packets.{
  broken, handle_maybe_err, handle_maybe_ok, handle_packet, received, after_handled, read_from,
  read_packet, write_packet,
}
use mysql_async.Prelude.{
  ◌≡◌, refl, Bool, true, false, ◌&&◌, Option, none, some, List, [], ◌∷◌, ◌++◌, ltb, if◌then◌else◌,
}

-- A claim on what was sent and on the authentication.
abbrev pub Claim : Type 1
Claim = List Command → Auth → Type 0

module _ {L : Type 0} where
  abbrev pub At : Claim → Session L → Type 0
  At J s = J s.sent s.auth

  module _ {A : Type 0} where
    unfoldable pub Post : (A → Session L → Type 0) → Claim → Outcome A × Session L → Type 0
    Post Q J (ok a, s) = Q a s
    Post Q J (err e, s) = At J s
    Post Q J (panicked, s) = At J s
    Post Q J (stuck, s) = ⊥

    pub record Runs (Q : A → Session L → Type 0) (J : Claim) (r : Outcome A × Session L)
        : Type 0 where
      pub post : Post Q J r

-- A function that keeps a claim.
abbrev pub Keeping : {L A : Type 0} → Claim → Outcome A × Session L → Type 0
Keeping {L} {A} J = Runs (λ (a : A) (s : Session L). At J s) J

module _ {L : Type 0} {A : Type 0} {B : Type 0} where
  -- A step, and what follows it.
  pub bind-Runs :
      {P : A → Session L → Type 0} {Q : B → Session L → Type 0} {J : Claim} (m : M L A)
      (f : A → M L B) (s : Session L)
      → Runs P J (m s)
      → ((a : A) (t : Session L) → P a t → Runs Q J (f a t))
      → Runs Q J ((m >>= f) s)
  unfolding Post
  bind-Runs {P} {Q} {J} m f s h k = go (m s) h
    where
      go : (r : Outcome A × Session L) → Runs P J r → Runs Q J (continue f r)
      go (ok a, t) e = k a t e.post
      go (err _, t) e = record { post = e.post }
      go (panicked, t) e = record { post = e.post }
      go (stuck, t) e = absurd e.post

module _ {L : Type 0} {A : Type 0} where
  pub weaken-Runs :
      {P Q : A → Session L → Type 0} {J K : Claim} {r : Outcome A × Session L}
      → Runs P J r
      → ((a : A) (t : Session L) → P a t → Q a t)
      → ((cs : List Command) (auth : Auth) → J cs auth → K cs auth)
      → Runs Q K r
  unfolding Post
  weaken-Runs {r = (ok a, t)} e p q = record { post = p a t e.post }
  weaken-Runs {r = (err _, t)} e p q = record { post = q t.sent t.auth e.post }
  weaken-Runs {r = (panicked, t)} e p q = record { post = q t.sent t.auth e.post }
  weaken-Runs {r = (stuck, t)} e p q = absurd e.post

  -- A branch.
  pub Runs-of_if :
      {Q : A → Session L → Type 0} {J : Claim} (b : Bool) (x y : Outcome A × Session L)
      → (b ≡ true → Runs Q J x)
      → (b ≡ false → Runs Q J y)
      → Runs Q J (if b then x else y)
  Runs-of_if true x y f g = f refl
  Runs-of_if false x y f g = g refl

  pub Runs-of_if_step :
      {Q : A → Session L → Type 0} {J : Claim} (b : Bool) (x y : M L A) (s : Session L)
      → (b ≡ true → Runs Q J (x s))
      → (b ≡ false → Runs Q J (y s))
      → Runs Q J ((if b then x else y) s)
  Runs-of_if_step true x y s f g = f refl
  Runs-of_if_step false x y s f g = g refl

-- A packet that is read changes neither what was sent nor the authentication.
module _ {L : Type 0} {R : Type 0} (common : MySqlCommon R) {J : Claim} where
  maybe_err-Runs :
      (e : Option ErrPacket) (s : Session L) → At J s → Keeping J (handle_maybe_err e s)
  unfolding handle_maybe_err handle_err Post
  maybe_err-Runs none s j = record { post = j }
  maybe_err-Runs (some (State.error e)) s j = record { post = j }
  maybe_err-Runs (some State.progress) s j = record { post = j }

  maybe_ok-Runs :
      (o : Option OkPacket) (e : Option ErrPacket) (s : Session L)
      → At J s
      → Keeping J (handle_maybe_ok o e s)
  unfolding handle_maybe_ok Post
  maybe_ok-Runs none e s j = maybe_err-Runs e s j
  maybe_ok-Runs (some o) e s j = record { post = j }

  read_from-Runs : (ps : List Packet) (s : Session L) → At J s → Keeping J (read_from common ps s)
  unfolding read_from broken handle_packet Post
  read_from-Runs [] s j = record { post = j }
  read_from-Runs (packet ∷ more) s j =
      go (handle_packet common packet (received common more s))
        (maybe_ok-Runs _ _ (received common more s) j) (read_from-Runs more)
    where
      go :
          (r : Outcome Bool × Session L)
          → Keeping J r
          → ((t : Session L) → At J t → Keeping J (read_from common more t))
          → Keeping J (after_handled packet (read_from common more) r)
      go (ok true, t) e k = k t e.post
      go (ok false, t) e k = record { post = e.post }
      go (err _, t) e k = record { post = e.post }
      go (panicked, t) e k = record { post = e.post }
      go (stuck, t) e k = absurd e.post

  pub read_packet-Runs : (s : Session L) → At J s → Keeping J (read_packet common s)
  unfolding read_packet broken Post
  read_packet-Runs s j =
      Runs-of_if s.conn.stream _ _ (λ _. read_from-Runs s.incoming s j) (λ _. record { post = j })

module _ {L : Type 0} {J : Claim} where
  -- A packet is sent, or the stream breaks.
  pub write_packet-Runs :
      (K : Claim) (c : Command) (s : Session L)
      → At J s
      → K (s.sent ++ c ∷ []) s.auth
      → Runs (λ _ t. At K t) J (write_packet c s)
  unfolding write_packet broken Post
  write_packet-Runs K c s j k =
      Runs-of_if (s.conn.stream && ltb 0 s.writes_left) _ _ (λ _. record { post = k })
        (λ _. record { post = j })

  pub required-Runs :
      {A : Type 0} (e : Error) (o : Option A) (s : Session L) → At J s → Keeping J (required e o s)
  unfolding Post
  required-Runs e (some a) s j = record { post = j }
  required-Runs e none s j = record { post = j }
