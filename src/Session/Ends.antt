-- ===== src/Session/Ends.antt =====
-- src/conn/ and src/queryable/: how the functions of a connection end. `Ends P E` says of an outcome
-- that it is a value with `P`, an error of the server with `E`, or an error that breaks the connection;
-- it is neither a panic nor a loop without an end.
pub mod Reading
pub mod Starts
pub mod Rows
pub mod Drops
pub mod Cleanup
pub mod Pooled
pub mod Pending
pub mod Rollback
pub mod Reset
pub mod Stmt
pub mod Prepare
pub mod Stream
use mysql_async.Conn.State.{taken}
use mysql_async.Conn.Pending.{Pended}
use mysql_async.Conn.TxStatus.{TxStatus}
use mysql_async.Session.Outcome.{server, Outcome, ok, err, panicked, stuck, continue, ◌>>=◌}
use mysql_async.Session.Protocol.{Packet, MySqlCommon}
use mysql_async.Session.State.{Session, M, with_conn, set_disconnected}
use mysql_async.Session.Packets.{after_routine, routine}
use mysql_async.Session.ResultSets.{first}
use mysql_async.Session.QueryResult.{is_nil}
use mysql_async.Prelude
use mysql_async.Prelude.{
  ℕ, ◌≤◌, ◌≡◌, refl, ◌≢◌, ◌⊎◌, Bool, true, false, none, some, arith, if◌then◌else◌, length, All,
}

-- What the packets of a server are: none is empty, and one that starts a result set has columns.
pub record IsSafe {R : Type 0} (common : MySqlCommon R) (packet : Packet) : Type 0 where
  pub nonempty : is_nil packet ≡ false
  pub columns : (first packet ≡ some 0) ⊎ (common.lenenc_int packet ≢ some 0)

module _ {L : Type 0} {A : Type 0} where
  unfoldable pub Post :
      (A → Session L → Type 0) → (Session L → Type 0) → Outcome A × Session L → Type 0
  Post P E (ok a, s) = P a s
  Post P E (err (server e), s) = E s
  Post P E (err _, s) = Unit
  Post P E (panicked, s) = ⊥
  Post P E (stuck, s) = ⊥

pub record Ends {L : Type 0} {A : Type 0} (P : A → Session L → Type 0) (E : Session L → Type 0)
    (r : Outcome A × Session L) : Type 0 where
  pub post : Post P E r

module _ {L : Type 0} {A : Type 0} {B : Type 0} where
  -- A step, and what follows it.
  pub bind-Ends :
      {P : A → Session L → Type 0} {Q : B → Session L → Type 0} {E : Session L → Type 0} (m : M L A)
      (f : A → M L B) (s : Session L)
      → Ends P E (m s)
      → ((a : A) (t : Session L) → P a t → Ends Q E (f a t))
      → Ends Q E ((m >>= f) s)
  unfolding Post
  bind-Ends {P} {Q} {E} m f s h k = go (m s) h
    where
      go : (r : Outcome A × Session L) → Ends P E r → Ends Q E (continue f r)
      go (ok a, t) e = k a t e.post
      go (err (server x), t) e = record { post = e.post }
      go (err _, t) e = record { post = tt }
      go (panicked, t) e = absurd e.post
      go (stuck, t) e = absurd e.post

module _ {L : Type 0} {A : Type 0} where
  pub weaken-Ends :
      {P Q : A → Session L → Type 0} {E F : Session L → Type 0} {r : Outcome A × Session L}
      → Ends P E r
      → ((a : A) (t : Session L) → P a t → Q a t)
      → ((t : Session L) → E t → F t)
      → Ends Q F r
  unfolding Post
  weaken-Ends {r = (ok a, t)} e p q = record { post = p a t e.post }
  weaken-Ends {r = (err (server x), t)} e p q = record { post = q t e.post }
  weaken-Ends {r = (err _, t)} e p q = record { post = tt }
  weaken-Ends {r = (panicked, t)} e p q = absurd e.post
  weaken-Ends {r = (stuck, t)} e p q = absurd e.post

  -- A branch.
  pub Ends-of_if :
      {P : A → Session L → Type 0} {E : Session L → Type 0} (b : Bool) (x y : Outcome A × Session L)
      → (b ≡ true → Ends P E x)
      → (b ≡ false → Ends P E y)
      → Ends P E (if b then x else y)
  Ends-of_if true x y f g = f refl
  Ends-of_if false x y f g = g refl

  pub Ends-of_if_step :
      {P : A → Session L → Type 0} {E : Session L → Type 0} (b : Bool) (x y : M L A) (s : Session L)
      → (b ≡ true → Ends P E (x s))
      → (b ≡ false → Ends P E (y s))
      → Ends P E ((if b then x else y) s)
  Ends-of_if_step true x y s f g = f refl
  Ends-of_if_step false x y s f g = g refl

-- Whether the result set has been handed out.
abbrev pub is_taken : Pended → Bool
is_taken (Prelude.Result.ok (some (taken meta))) = true
is_taken _ = false

abbrev pub Fresh : Pended → Type 0
Fresh q = is_taken q ≡ false

abbrev pub IsDrained : Pended → Type 0
IsDrained q = q ≡ Prelude.Result.ok none

abbrev pub Anything : Pended → Type 0
Anything q = Unit {0}

-- At most `n` packets are to come, all of them safe; the transaction is in the state `t`, and the
-- pending result has `P`.
pub record Keeps {L : Type 0} {R : Type 0} (common : MySqlCommon R) (n : ℕ) (t : TxStatus)
    (P : Pended → Type 0) (s : Session L) : Type 0 where
  pub safe : All (IsSafe common) s.incoming
  pub short : length s.incoming ≤ n
  pub tx : s.conn.tx_status ≡ t
  pub pended : P s.conn.pending_result

module _ {L : Type 0} {R : Type 0} {common : MySqlCommon R} {t : TxStatus} where
  pub Keeps-mono :
      {n m : ℕ} {P Q : Pended → Type 0} {s : Session L}
      → Keeps common n t P s
      → n ≤ m
      → ((q : Pended) → P q → Q q)
      → Keeps common m t Q s
  Keeps-mono {s} k le f = record {
    safe = k.safe;
    short = omega (arith, k.short, le);
    tx = k.tx;
    pended = f s.conn.pending_result k.pended;
  }

module _ {L : Type 0} {R : Type 0} {common : MySqlCommon R} {n : ℕ} {t : TxStatus} where
  pub Keeps-set_disconnected :
      {P : Pended → Type 0} {s : Session L} (b : Bool)
      → Keeps common n t P s
      → Keeps common n t P (with_conn (set_disconnected b s.conn) s)
  Keeps-set_disconnected b k = record {
    safe = k.safe;
    short = k.short;
    tx = k.tx;
    pended = k.pended;
  }

  -- The bound is the number of packets itself.
  pub Keeps-exact :
      {P : Pended → Type 0} {s : Session L}
      → Keeps common n t P s
      → Keeps common (length s.incoming) t P s
  Keeps-exact k = record { safe = k.safe; short = omega arith; tx = k.tx; pended = k.pended }

module _ {L : Type 0} {A : Type 0} where
  pub routine-Ends :
      {P P' : A → Session L → Type 0} {E E' : Session L → Type 0} (f : M L A) (s : Session L)
      → Ends P E (f (with_conn (set_disconnected true s.conn) s))
      → ((a : A) (s' : Session L) → P a s' → P' a (with_conn (set_disconnected false s'.conn) s'))
      → ((s' : Session L) → E s' → E' (with_conn (set_disconnected false s'.conn) s'))
      → Ends P' E' (routine f s)
  unfolding routine after_routine Post
  routine-Ends {P} {P'} {E} {E'} f s h p q = go (f (with_conn (set_disconnected true s.conn) s)) h
    where
      go : (r : Outcome A × Session L) → Ends P E r → Ends P' E' (after_routine r)
      go (ok a, s') e = record { post = p a s' e.post }
      go (err (server x), s') e = record { post = q s' e.post }
      go (err _, s') e = record { post = tt }
      go (panicked, s') e = absurd e.post
      go (stuck, s') e = absurd e.post
