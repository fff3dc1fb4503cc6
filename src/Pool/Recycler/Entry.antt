-- ===== src/Pool/Recycler/Entry.antt =====
-- src/conn/pool/recycler.rs: the loop over the channel, and the one that reclaims the idle
-- connections: no assertion fails in them, and they lose no connection.
use mysql_async.Conn.State.{Instant}
use mysql_async.Pool.Waitlist.Queue.{KeyedPriorityQueue}
use mysql_async.Pool.State.{IdlingConn, with_available}
use mysql_async.Pool.Recycler.Task.{Work, Received, message, end_of_channel}
use mysql_async.Pool.Recycler.Laws.{held, Files, Files-refl, Files-trans, conn_decision-Files}
use mysql_async.Pool.Recycler.Idle.{IsIdle, conn_decision-IsIdle}
use mysql_async.Pool.Recycler.Phases.{arrivals, ends, IsExpected, conn_decision-closing}
use mysql_async.Pool.Recycler.{conn_decision, receive, receive_all, reclaim_next, reclaim}
use mysql_async.Prelude.{
  ℕ, zero, suc, ◌+◌, ◌≤◌, ◌≡◌, refl, sym, ap, ◌∙◌, Bool, true, false, not, ◌||◌, none, some, List,
  [], ◌∷◌, arith, length, All, returns, ◌>>=◌, ◌>>◌, assert, >>=_of_returns, if_true, if_false,
}

-- What the loop over the channel does, by the number of connections that arrive and whether the
-- channel ends. The variable `close` follows the flag.
pub record Receives {W : Type 0} (given : ℕ) (over : Bool) (v : Work W) (close : Bool) (w : Work W)
    : Type 0 where
  pub exist : w.inner.exist ≡ v.inner.exist
  pub count : w.inner.metrics.connection_count ≡ v.inner.metrics.connection_count
  pub closed : w.inner.closed ≡ v.inner.closed
  pub pool_opts : w.task.pool_opts ≡ v.task.pool_opts
  pub holds : held w ≡ held v + given
  pub follows : close ≡ w.inner.close
  pub closes : w.inner.close ≡ v.inner.close || over
  pub eof : w.task.eof ≡ v.task.eof || over
  pub idle : All IsIdle v.inner.available → All IsIdle w.inner.available

module _ {W : Type 0} where
  Receives-nothing :
      (w : Work W) {close : Bool} → close ≡ w.inner.close → Receives 0 false w close w
  Receives-nothing w e = record {
    exist = refl;
    count = refl;
    closed = refl;
    pool_opts = refl;
    holds = omega arith;
    follows = e;
    closes = ground arith;
    eof = ground arith;
    idle = λ h. h;
  }

  -- A step before the rest of the loop.
  Receives-after :
      {a b : ℕ} {over close : Bool} {u v w : Work W}
      → Files a u v
      → (All IsIdle u.inner.available → All IsIdle v.inner.available)
      → Receives b over v close w
      → Receives (a + b) over u close w
  Receives-after {over} s i r = record {
    exist = r.exist ∙ s.exist;
    count = r.count ∙ s.count;
    closed = r.closed ∙ s.closed;
    pool_opts = r.pool_opts ∙ s.pool_opts;
    holds = omega (arith, r.holds, s.holds);
    follows = r.follows;
    closes = r.closes ∙ ap (λ b. b || over) s.close;
    eof = r.eof ∙ ap (λ b. b || over) s.eof;
    idle = λ h. r.idle (i h);
  }

  Receives-net :
      {a : ℕ} {over close : Bool} {v w : Work W} (b : ℕ)
      → Receives a over v close w
      → a ≡ b
      → Receives b over v close w
  Receives-net b r e = record {
    exist = r.exist;
    count = r.count;
    closed = r.closed;
    pool_opts = r.pool_opts;
    holds = omega (arith, r.holds);
    follows = r.follows;
    closes = r.closes;
    eof = r.eof;
    idle = r.idle;
  }

module _ {W : Type 0} ⦃queue : KeyedPriorityQueue W⦄ where
  receive_all-step :
      (now : Instant) (close close' : Bool) (m : Received) (ms : List Received) (w w' : Work W)
      → w.task.eof ≡ false
      → receive now close m w ≡ returns (close', w')
      → receive_all now close (m ∷ ms) w ≡ receive_all now close' ms w'
  unfolding receive_all
  receive_all-step now close close' m ms w w' running e =
      if_false _ _ running ∙ >>=_of_returns (λ r. receive_all now r.0 ms r.1) e

  pub receive_all_over :
      (now : Instant) (close : Bool) (ms : List Received) (w : Work W)
      → w.task.eof ≡ true
      → receive_all now close ms w ≡ returns (close, w)
  unfolding receive_all
  receive_all_over now close [] w over = refl
  receive_all_over now close (m ∷ ms) w over = if_true _ _ over

  -- Before the end of the channel, the loop over it never panics on the messages that the pool
  -- sends: it takes every connection in, leaves `exist` alone, and closes the pool where the
  -- channel ends.
  pub receive_all-Receives :
      (now : Instant) (close : Bool) (ms : List Received) (w : Work W)
      → w.task.eof ≡ false
      → close ≡ w.inner.close
      → All (IsExpected close) ms
      → (close' : Bool) × (w' : Work W) × (receive_all now close ms w ≡ returns (close', w'))
        × Receives (arrivals ms) (ends ms) w close' w'
  receive_all-Receives now close [] w running e fine =
      (close, w, unfold receive_all in refl, Receives-nothing w e)
  receive_all-Receives now close (message (some c) ∷ ms) w running e fine =
      let s = conn_decision-Files now close c w in
      let w' : Work W = conn_decision now close c w in
      let (close'', w'', run, done) =
        receive_all-Receives now close ms w' (s.eof ∙ running) (e ∙ sym s.close) fine.1 in
      let first : receive now close (message (some c)) w ≡ returns (close, w') =
        unfold receive in ap (λ b. assert (not b) >> returns (close, w')) fine.0 in
      (
        close'',
        w'',
        receive_all-step now close close (message (some c)) ms w w' running first ∙ run,
        Receives-net (suc (arrivals ms))
            (Receives-after s (conn_decision-IsIdle now close c w fine.0) done) (omega arith),
      )
  receive_all-Receives now close (message none ∷ ms) w running e fine =
      let (close'', w'', run, done) = receive_all-Receives now close ms w running e fine.1 in
      let first : receive now close (message none) w ≡ returns (close, w) =
        unfold receive in
        ap (λ b. assert b >> returns (b, w)) (sym e)
        ∙ ap (λ b. assert b >> returns (close, w)) fine.0 in
      (
        close'',
        w'',
        receive_all-step now close close (message none) ms w w running first ∙ run,
        done,
      )
  receive_all-Receives now close (end_of_channel ∷ ms) w running e fine =
      let w' : Work W = record w {
        inner = record (w.inner) { close = true };
        task = record (w.task) { eof = true };
      } in
      (
        true,
        w',
        receive_all-step now close true end_of_channel ms w w' running (unfold receive in refl)
            ∙ receive_all_over now true ms w' refl,
        record {
          exist = refl;
          count = refl;
          closed = refl;
          pool_opts = refl;
          holds = omega arith;
          follows = refl;
          closes = ground arith;
          eof = ground arith;
          idle = λ h. h;
        },
      )

  reclaim_first-Files :
      (now : Instant) (idle : IdlingConn) (rest : List IdlingConn) (w : Work W)
      → w.inner.available ≡ idle ∷ rest
      → Files 0 w
          (conn_decision now true idle.conn (record w { inner = with_available rest w.inner }))
  reclaim_first-Files now idle rest w e =
      let v : Work W = record w { inner = with_available rest w.inner } in
      let s = conn_decision-Files now true idle.conn v in
      record {
        exist = s.exist;
        count = s.count;
        closed = s.closed;
        close = s.close;
        pool_opts = s.pool_opts;
        eof = s.eof;
        holds = omega (arith, s.holds, ap length e);
      }

  -- While the pool closes, and no idle connection has a handle of it, the loop over the idle
  -- connections never panics, loses none of them, and leaves none idle; the number of idle
  -- connections is enough fuel.
  pub reclaim-Files :
      (fuel : ℕ) (now : Instant) (w : Work W) (l : List IdlingConn)
      → w.inner.available ≡ l
      → length l ≤ fuel
      → All IsIdle l
      → (w' : Work W) × (reclaim fuel now true w ≡ returns w')
        × Files 0 w w'
        × (w'.inner.available ≡ [])
  unfolding reclaim
  reclaim-Files zero now w [] e enough fine = (w, refl, Files-refl w, e)
  reclaim-Files zero now w (idle ∷ rest) e enough fine = absurd (omega arith)
  reclaim-Files (suc fuel) now w [] e enough fine = (
    w,
    ap
        (λ l. elim l [
          | [] ↦ returns w
          | idle' ∷ rest' ↦ reclaim_next now true idle' rest' w >>= (λ u. reclaim fuel now true u)
        ])
        e,
    Files-refl w,
    e,
  )
  reclaim-Files (suc fuel) now w (idle ∷ rest) e enough fine =
      let v : Work W = record w { inner = with_available rest w.inner } in
      let v' : Work W = conn_decision now true idle.conn v in
      let (w', run, done, empty) =
        reclaim-Files fuel now v' rest (conn_decision-closing now idle.conn v) (omega arith)
          fine.1 in
      let first : reclaim_next now true idle rest w ≡ returns v' =
        unfold reclaim_next in ap (λ b. assert (not b) >> returns v') fine.0 in
      (
        w',
        ap
              (λ l. elim l [
                | [] ↦ returns w
                | idle' ∷ rest' ↦
                    reclaim_next now true idle' rest' w >>= (λ u. reclaim fuel now true u)
              ])
              e
            ∙ (>>=_of_returns (λ u. reclaim fuel now true u) first ∙ run),
        Files-trans (reclaim_first-Files now idle rest w e) done,
        empty,
      )
