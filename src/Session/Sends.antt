-- ===== src/Session/Sends.antt =====
-- src/conn/ and src/queryable/: what reading and dropping a result set sends. `Always J` says of an
-- outcome, whatever it is, that what was sent and the cached statements have `J`. Reading packets sends
-- nothing.

pub mod Results
pub mod Queries
use mysql_async.Conn.State.{
  Column, OkPacket, ErrPacket, PendingResult, pending, taken, handle_err, text, binary,
  ResultSetMeta, columns,
}
use mysql_async.Conn.State
use mysql_async.Conn.StmtCache.{StmtCache}
use mysql_async.Conn.Pending.{Pended, has_pending_result}
use mysql_async.Session.Outcome.{
  Error, server, Outcome, ok, err, panicked, stuck, continue, ◌>>=◌, lift, required, throw, return,
  local_infile, read_failed,
}
use mysql_async.Session.Protocol.{
  Packet, MySqlCommon, Protocol, Command, bytes, text_protocol, binary_protocol,
}
use mysql_async.Session.State.{Session, M, InfileData, InfileHandler, with_conn, set_disconnected}
use mysql_async.Session.Packets.{
  broken, handle_maybe_err, handle_maybe_ok, handle_packet, received, after_handled, read_from,
  read_packet, read_packets, write_packet, routine, after_routine,
}
use mysql_async.Session.ResultSets.{
  parse_columns, debug_assert, replaced, set_pending, set_pending_error, infile_from, take_infile,
  send_chunks, after_columns, read_column_defs, handle_result_set, handle_local_infile, dispatch_on,
  dispatch, after_first_packet, read_result_set, first,
}
use mysql_async.Session.QueryResult.{
  fueled, more_results_exists, used, use_pending, row_or_end, row_packet, after_row_packet,
  next_row, read_next_set, next_set, next_row_or_next_set, skip_taken, next_by, next_loop, next,
  drop_rows, drop_loop, drop_result, by_row,
}
use mysql_async.Session.Commands.{replaced_meta, take_meta, drop_pending, drop_conn_result}
use mysql_async.Prelude
use mysql_async.Prelude.{
  ℕ, zero, suc, ◌≡◌, refl, Bool, true, false, ◌&&◌, ◌==◌, Option, none, some, List, [], ◌∷◌, ◌++◌,
  ltb, length, if◌then◌else◌,
}

-- A claim on what was sent and on the cached statements.
abbrev pub Claim : Type 0 → Type 1
Claim L = List Command → StmtCache L → Type 0

abbrev pub At : {L : Type 0} → Claim L → Session L → Type 0
At J s = J s.sent s.stmt_cache

pub record Always {L : Type 0} {A : Type 0} (J : Claim L) (r : Outcome A × Session L) : Type 0 where
  pub holds : At J r.1

-- A function that keeps a claim.
abbrev pub Stays : {L A : Type 0} → Claim L → M L A → Type 0
Stays J m = (s : _) → At J s → Always J (m s)

module _ {L : Type 0} {J : Claim L} where
  module _ {A : Type 0} {B : Type 0} where
    pub bind-Always :
        (m : M L A) (f : A → M L B) (s : Session L)
        → Always J (m s)
        → ((a : A) → Stays J (f a))
        → Always J ((m >>= f) s)
    bind-Always m f s h k = go (m s) h
      where
        go : (r : Outcome A × Session L) → Always J r → Always J (continue f r)
        go (ok a, t) e = k a t e.holds
        go (err _, t) e = record { holds = e.holds }
        go (panicked, t) e = record { holds = e.holds }
        go (stuck, t) e = record { holds = e.holds }

    pub bind-Stays :
        (m : M L A) (f : A → M L B) → Stays J m → ((a : A) → Stays J (f a)) → Stays J (m >>= f)
    bind-Stays m f h k s j = bind-Always m f s (h s j) k

  module _ {A : Type 0} where
    pub Stays-of_if :
        (b : Bool) (x y : M L A) → Stays J x → Stays J y → Stays J (if b then x else y)
    Stays-of_if true x y f g = f
    Stays-of_if false x y f g = g

    pub Always-of_if :
        (b : Bool) (x y : Outcome A × Session L)
        → Always J x
        → Always J y
        → Always J (if b then x else y)
    Always-of_if true x y f g = f
    Always-of_if false x y f g = g

    pub routine-Stays : (f : M L A) → Stays J f → Stays J (routine f)
    unfolding routine after_routine
    routine-Stays f h s j = go (f (with_conn (set_disconnected true s.conn) s)) (h _ j)
      where
        go : (r : Outcome A × Session L) → Always J r → Always J (after_routine r)
        go (ok a, t) e = record { holds = e.holds }
        go (err (server x), t) e = record { holds = e.holds }
        go (err _, t) e = record { holds = e.holds }
        go (panicked, t) e = record { holds = e.holds }
        go (stuck, t) e = record { holds = e.holds }

    pub lift-Stays : (r : Prelude.Result Error A) → Stays J (lift r)
    lift-Stays (Prelude.Result.ok a) s j = record { holds = j }
    lift-Stays (Prelude.Result.err e) s j = record { holds = j }

    pub required-Stays : (e : Error) (o : Option A) → Stays J (required e o)
    required-Stays e (some a) s j = record { holds = j }
    required-Stays e none s j = record { holds = j }

  pub debug_assert-Stays : (b : Bool) → Stays J (debug_assert b)
  debug_assert-Stays true s j = record { holds = j }
  debug_assert-Stays false s j = record { holds = j }

  pub write_packet-Stays :
      (c : Command) (s : Session L)
      → At J s
      → J (s.sent ++ c ∷ []) s.stmt_cache
      → Always J (write_packet c s)
  unfolding write_packet broken
  write_packet-Stays c s j k =
      Always-of_if (s.conn.stream && ltb 0 s.writes_left) _ _ (record { holds = k })
        (record { holds = j })

  replaced-Stays : (r : Pended × State.Conn) → Stays J (replaced r)
  unfolding replaced
  replaced-Stays (Prelude.Result.ok q, c) s j = record { holds = j }
  replaced-Stays (Prelude.Result.err e, c) s j = record { holds = j }

  pub set_pending-Stays : (meta : Option ResultSetMeta) → Stays J (set_pending meta)
  unfolding set_pending
  set_pending-Stays meta s j = replaced-Stays _ s j

  pub set_pending_error-Stays : (e : State.ServerError) → Stays J (set_pending_error e)
  unfolding set_pending_error
  set_pending_error-Stays e s j = replaced-Stays _ s j

  pub use_pending-Stays : Stays J use_pending
  unfolding use_pending used
  use_pending-Stays s j = go _
    where
      go : (r : Pended × State.Conn) → Always J (used r s)
      go (Prelude.Result.ok q, c) = record { holds = j }
      go (Prelude.Result.err e, c) = record { holds = j }

  pub take_meta-Stays : Stays J take_meta
  unfolding take_meta replaced_meta
  take_meta-Stays s j = go _
    where
      go : (r : Pended × State.Conn) → Always J (replaced_meta r s)
      go (Prelude.Result.ok q, c) = record { holds = j }
      go (Prelude.Result.err e, c) = record { holds = j }

  pub infile_from-Stays :
      (own : Option InfileData) (global : Option InfileHandler) (file : List ℕ)
      → Stays J (infile_from own global file)
  unfolding infile_from
  infile_from-Stays (some own) global file s j = lift-Stays own _ j
  infile_from-Stays none (some global) file s j = lift-Stays (global file) s j
  infile_from-Stays none none file s j = record { holds = j }

  -- Reading packets sends nothing.
  module _ {R : Type 0} (common : MySqlCommon R) where
    maybe_err-Stays : (e : Option ErrPacket) → Stays J (handle_maybe_err e)
    unfolding handle_maybe_err handle_err
    maybe_err-Stays none s j = record { holds = j }
    maybe_err-Stays (some (State.error e)) s j = record { holds = j }
    maybe_err-Stays (some State.progress) s j = record { holds = j }

    maybe_ok-Stays : (o : Option OkPacket) (e : Option ErrPacket) → Stays J (handle_maybe_ok o e)
    unfolding handle_maybe_ok
    maybe_ok-Stays none e s j = maybe_err-Stays e s j
    maybe_ok-Stays (some o) e s j = record { holds = j }

    read_from-Stays : (ps : List Packet) → Stays J (read_from common ps)
    unfolding read_from broken handle_packet after_handled
    read_from-Stays [] s j = record { holds = j }
    read_from-Stays (packet ∷ more) s j =
        go (handle_packet common packet (received common more s))
          (maybe_ok-Stays _ _ (received common more s) j) (read_from-Stays more)
      where
        go :
            (r : Outcome Bool × Session L)
            → Always J r
            → Stays J (read_from common more)
            → Always J (after_handled packet (read_from common more) r)
        go (ok true, t) e k = k t e.holds
        go (ok false, t) e k = record { holds = e.holds }
        go (err _, t) e k = record { holds = e.holds }
        go (panicked, t) e k = record { holds = e.holds }
        go (stuck, t) e k = record { holds = e.holds }

    pub read_packet-Stays : Stays J (read_packet common)
    unfolding read_packet broken
    read_packet-Stays s j =
        Always-of_if s.conn.stream _ _ (read_from-Stays s.incoming s j) (record { holds = j })

    read_packets-Stays : (n : ℕ) → Stays J (read_packets common n)
    unfolding read_packets
    read_packets-Stays zero = λ s j. record { holds = j }
    read_packets-Stays (suc n) = bind-Stays (read_packet common) _ read_packet-Stays (λ p.
        bind-Stays (read_packets common n) _ (read_packets-Stays n)
          (λ ps s j. record { holds = j }))

    after_columns-Stays : Stays J (after_columns common)
    unfolding after_columns
    after_columns-Stays s j =
        Always-of_if s.deprecate_eof _ _ (record { holds = j })
          (bind-Stays (read_packet common) (λ _. return tt) read_packet-Stays
            (λ _ s j. record { holds = j }) s j)

    read_column_defs-Stays : (n : ℕ) → Stays J (read_column_defs common n)
    unfolding read_column_defs
    read_column_defs-Stays n = bind-Stays (debug_assert (ltb 0 n)) _ (debug_assert-Stays _) (λ _.
        bind-Stays (read_packets common n) _ (read_packets-Stays n) (λ ps.
          bind-Stays (required Error.parse (parse_columns common ps)) _ (required-Stays _ _)
            (λ defs.
              bind-Stays (after_columns common) _ after_columns-Stays
                (λ _ s j. record { holds = j }))))

    pub handle_result_set-Stays :
        (protocol : Protocol) (packet : Packet) → Stays J (handle_result_set common protocol packet)
    unfolding handle_result_set
    handle_result_set-Stays protocol packet =
        bind-Stays (required Error.parse (common.lenenc_int packet)) _ (required-Stays _ _) (λ n.
          bind-Stays (read_column_defs common n) _ (read_column_defs-Stays n)
            (λ cols. set_pending-Stays _))

-- A claim that the data of a local infile keeps.
abbrev pub Allows : {L : Type 0} → Claim L → (Command → Type 0) → Type 0
Allows J P =
    (c : Command) → P c → (cs : List Command) (cache : _) → J cs cache → J (cs ++ c ∷ []) cache

abbrev pub IsData : Command → Type 0
IsData c = (b : List ℕ) × (c ≡ bytes b)
