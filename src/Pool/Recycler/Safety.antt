-- ===== src/Pool/Recycler/Safety.antt =====
-- src/conn/pool/recycler.rs: a whole poll of the recycler never panics, and keeps the accounts.
use mysql_async.Conn.State.{Instant}
use mysql_async.Pool.Waitlist.Queue.{KeyedPriorityQueue}
use mysql_async.Pool.Exchange.Laws.{Counted}
use mysql_async.Pool.Recycler.Task.{Work, Received, Inputs}
use mysql_async.Pool.Recycler.Laws.{held, Files, Files-refl, Files-trans}
use mysql_async.Pool.Recycler.Idle.{IsIdle, GivesFree, finish_cleaning-IsIdle, finish_reset-IsIdle}
use mysql_async.Pool.Recycler.Phases.{
  arrivals, ends, IsExpected, finish_cleaning-Files, finish_reset-Files, finish_discard-Files,
  finish_cleaning-closing, finish_reset-closing, finish_discard-available,
}
use mysql_async.Pool.Recycler.Entry.{
  Receives, receive_all-Receives, receive_all_over, reclaim-Files,
}
use mysql_async.Pool.Recycler.Finish.{Releases, release-Releases, Ends, conclude-Ends}
use mysql_async.Pool.Recycler.{
  receive_all, reclaim, finish_cleaning, finish_reset, finish_discard, release, conclude,
  after_receive, poll,
}
use mysql_async.Prelude.{
  ℕ, ◌+◌, ◌≤◌, ◌<◌, ◌≡◌, refl, sym, ap, ◌∙◌, inl, inr, Bool, true, false, ◌||◌, List, [], arith,
  if◌then◌else◌, Bool-cases, length, All, usize_mod, returns, >>=_of_returns, if_false, subst,
}

-- What one poll takes from the channel: nothing after its end.
abbrev pub taken : Bool → List Received → ℕ
taken true ms = 0
taken false ms = arrivals ms

abbrev pub over : Bool → List Received → Bool
over true ms = true
over false ms = ends ms

-- The state in which the recycler is polled. All its connections and those that arrive are counted
-- in `exist`, and at the end of the channel there are no others.
pub record CanPoll {W : Type 0} (inputs : Inputs) (w : Work W) : Type 0 where
  pub counted : Counted w.inner
  pub covered : held w + taken w.task.eof inputs.received ≤ w.inner.exist
  pub idle : All IsIdle w.inner.available
  pub expected : All (IsExpected w.inner.close) inputs.received
  pub cleaned : All GivesFree inputs.cleaned
  pub resets : All GivesFree inputs.resets
  pub eof_closes : w.task.eof ≡ true → w.inner.close ≡ true
  pub all_here :
      over w.task.eof inputs.received ≡ true
      → w.inner.exist ≡ held w + taken w.task.eof inputs.received
  pub gone : w.inner.closed ≡ true → (w.inner.close ≡ true) × (w.inner.exist ≡ 0)

-- What a poll leaves, for a number of connections that arrive.
pub record Polls {W : Type 0} (given : ℕ) (v : Work W) (done : Bool) (w : Work W) : Type 0 where
  pub balance : w.inner.exist + held v + given ≡ v.inner.exist + held w
  pub shrinks : w.inner.exist ≤ v.inner.exist
  pub counted : Counted w.inner
  pub closed : w.inner.closed ≡ done
  pub empty : done ≡ true → w.inner.exist ≡ 0
  pub stays : v.inner.closed ≡ true → done ≡ true

module _ {W : Type 0} ⦃queue : KeyedPriorityQueue W⦄ where
  -- The loop over the channel, whether or not the channel has ended before.
  entered :
      (now : Instant) (inputs : Inputs) (w : Work W)
      → CanPoll inputs w
      → (close : Bool) × (w' : Work W) × (receive_all now w.inner.close inputs.received w
          ≡ returns (close, w'))
        × Receives (taken w.task.eof inputs.received) (over w.task.eof inputs.received) w close w'
  entered now inputs w c = go w.task.eof refl c.expected
    where
      go :
          (eof : Bool)
          → w.task.eof ≡ eof
          → All (IsExpected w.inner.close) inputs.received
          → (close : Bool) × (w' : Work W) × (receive_all now w.inner.close inputs.received w
              ≡ returns (close, w'))
            × Receives (taken eof inputs.received) (over eof inputs.received) w close w'
      go false e fine = receive_all-Receives now w.inner.close inputs.received w e refl fine
      go true e fine = (
        w.inner.close,
        w,
        receive_all_over now w.inner.close inputs.received w e,
        record {
          exist = refl;
          count = refl;
          closed = refl;
          pool_opts = refl;
          holds = omega arith;
          follows = refl;
          closes = ground (arith, c.eof_closes e);
          eof = ground arith;
          idle = λ h. h;
        },
      )

  -- The connections that are idle are reclaimed if the pool closes.
  reclaimed :
      (now : Instant) (close : Bool) (w : Work W)
      → All IsIdle w.inner.available
      → (w.task.eof ≡ true → close ≡ true)
      → (w' : Work W) × ((if close || w.task.eof
            then reclaim (length w.inner.available) now close w
            else returns w)
          ≡ returns w')
        × Files 0 w w'
        × (close ≡ true → w'.inner.available ≡ [])
        × All IsIdle w'.inner.available
  reclaimed now true w idle eof_closes =
      let (w', run, s, empty) =
        reclaim-Files (length w.inner.available) now w w.inner.available refl (omega arith) idle in
      (w', run, s, λ _. empty, subst (All IsIdle) (sym empty) tt)
  reclaimed now false w idle eof_closes = elim (Bool-cases w.task.eof) [
    | inl e ↦ absurd (ground (arith, eof_closes e))
    | inr e ↦ (w, if_false _ _ e, Files-refl w, λ h. cc, idle)
  ]

  -- What the loops after the channel do together.
  abbrev sorted_out : Instant → Inputs → Bool → Work W → Work W
  sorted_out now inputs close w =
      finish_discard inputs.discards
        (finish_reset now close inputs.resets (finish_cleaning now close inputs.cleaned w))

  sorted_out-Files :
      (now : Instant) (inputs : Inputs) (close : Bool) (w : Work W)
      → Files 0 w (sorted_out now inputs close w)
  sorted_out-Files now inputs close w =
      let v = finish_cleaning now close inputs.cleaned w in
      Files-trans (finish_cleaning-Files now close inputs.cleaned w) (
        Files-trans (finish_reset-Files now close inputs.resets v)
          (finish_discard-Files inputs.discards (finish_reset now close inputs.resets v)))

  sorted_out-closing :
      (now : Instant) (inputs : Inputs) (close : Bool) (w : Work W)
      → (close ≡ true → w.inner.available ≡ [])
      → close ≡ true
      → (sorted_out now inputs close w).inner.available ≡ []
  sorted_out-closing now inputs false w empty e = absurd (cc)
  sorted_out-closing now inputs true w empty e =
      let v = finish_cleaning now true inputs.cleaned w in
      finish_discard-available inputs.discards (finish_reset now true inputs.resets v)
      ∙ (finish_reset-closing now inputs.resets v
          ∙ (finish_cleaning-closing now inputs.cleaned w ∙ empty e))

  sorted_out-IsIdle :
      (now : Instant) (inputs : Inputs) (close : Bool) (w : Work W)
      → All GivesFree inputs.cleaned
      → All GivesFree inputs.resets
      → All IsIdle w.inner.available
      → All IsIdle (sorted_out now inputs close w).inner.available
  sorted_out-IsIdle now inputs close w cleaned resets idle =
      let v = finish_cleaning now close inputs.cleaned w in
      subst (All IsIdle)
        (sym (finish_discard-available inputs.discards (finish_reset now close inputs.resets v)))
        (finish_reset-IsIdle now close inputs.resets v resets
          (finish_cleaning-IsIdle now close inputs.cleaned w cleaned idle))

-- The facts of a poll, gathered over the state after its loops.
module _ {W : Type 0} {inputs : Inputs} {w v : Work W} {close : Bool} (c : CanPoll inputs w)
    (r : Receives
      (taken w.task.eof inputs.received)
      (over w.task.eof inputs.received)
      w
      close
      v) where
  over_if : (eof : Bool) (ms : List Received) → (eof || over eof ms) ≡ over eof ms
  over_if true ms = refl
  over_if false ms = refl

  at_end : v.task.eof ≡ true → over w.task.eof inputs.received ≡ true
  at_end e = sym (over_if w.task.eof inputs.received) ∙ (sym r.eof ∙ e)

  closing_if : v.task.eof ≡ true → close ≡ true
  closing_if e = ground (arith, r.follows, r.closes, at_end e)

  Counted-after : Counted v.inner
  Counted-after = record {
    count = r.count ∙ (c.counted.count ∙ sym r.exist);
    fits = subst (λ n. n < usize_mod) (sym r.exist) c.counted.fits;
  }

  covered_after : held v ≤ v.inner.exist
  covered_after = omega (arith, r.holds, r.exist, c.covered)

  discarded-le-exist : v.task.discarded ≤ v.inner.exist
  discarded-le-exist = omega (arith, covered_after)

  all_here_after : v.task.eof ≡ true → v.inner.exist ≡ held v
  all_here_after e = omega (arith, r.holds, r.exist, c.all_here (at_end e))

  gone_after : v.inner.closed ≡ true → (close ≡ true) × (v.inner.exist ≡ 0)
  gone_after e =
      let (closing, none_exist) = c.gone (sym r.closed ∙ e) in
      (ground (arith, r.follows, r.closes, closing), r.exist ∙ none_exist)

module _ {W : Type 0} where
  Receives-then :
      {a : ℕ} {end close : Bool} {u v w : Work W}
      → Receives a end u close v
      → Files 0 v w
      → (All IsIdle v.inner.available → All IsIdle w.inner.available)
      → Receives a end u close w
  Receives-then r s i = record {
    exist = s.exist ∙ r.exist;
    count = s.count ∙ r.count;
    closed = s.closed ∙ r.closed;
    pool_opts = s.pool_opts ∙ r.pool_opts;
    holds = omega (arith, r.holds, s.holds);
    follows = r.follows ∙ sym s.close;
    closes = s.close ∙ r.closes;
    eof = s.eof ∙ r.eof;
    idle = λ h. i (r.idle h);
  }

  -- The accounts of the whole poll.
  Polls-of :
      {inputs : Inputs} {w u v x : Work W} {close done : Bool}
      → CanPoll inputs w
      → Receives (taken w.task.eof inputs.received) (over w.task.eof inputs.received) w close u
      → Releases u v
      → Ends v done x
      → Polls (taken w.task.eof inputs.received) w done x
  Polls-of c r l e = record {
    balance = omega (
      arith,
      r.exist,
      r.holds,
      l.exist,
      l.holds,
      e.exist,
      ap length e.available,
      ap (λ t. length t.cleaning) e.task,
      ap (λ t. length t.reset) e.task,
      ap (λ t. length t.discard) e.task,
      ap (λ t. t.discarded) e.task,
    );
    shrinks = omega (arith, r.exist, l.exist, e.exist);
    counted = record {
      count = e.count ∙ (l.counted.count ∙ sym e.exist);
      fits = subst (λ n. n < usize_mod) (sym e.exist) l.counted.fits;
    };
    closed = e.closed;
    empty = e.empty;
    stays = λ h. e.stays (l.closed ∙ (r.closed ∙ h));
  }

module _ {W : Type 0} ⦃queue : KeyedPriorityQueue W⦄ where
  -- Where the connections of the recycler, the idle ones and those that arrive are counted in
  -- `exist`, without any other at the end of the channel, and the messages are those that the pool
  -- sends (`CanPoll`), a whole poll never panics: `exist` falls by exactly the connections that
  -- are gone, its gauge is `exist`, and the task finishes, with `closed` set, only where no
  -- connection exists.
  pub poll-Polls :
      (now : Instant) (inputs : Inputs) (w : Work W)
      → CanPoll inputs w
      → (done : Bool) × (w' : Work W) × (poll now inputs w ≡ returns (done, w'))
        × Polls (taken w.task.eof inputs.received) w done w'
        × All IsIdle w'.inner.available
        × (w'.task.eof ≡ true → w'.inner.close ≡ true)
  unfolding poll after_receive
  poll-Polls now inputs w c =
      let (close, w₁, run₁, r₁) = entered now inputs w c in
      let (w₂, run₂, s₂, empty₂, idle₂) =
        reclaimed now close w₁ (r₁.idle c.idle) (closing_if c r₁) in
      let w₃ : Work W = sorted_out now inputs close w₂ in
      let s₃ = sorted_out-Files now inputs close w₂ in
      let idle₃ = sorted_out-IsIdle now inputs close w₂ c.cleaned c.resets idle₂ in
      let r₃ = Receives-then (Receives-then r₁ s₂ (λ _. idle₂)) s₃ (λ _. idle₃) in
      let l = release-Releases w₃ (Counted-after c r₃) (discarded-le-exist c r₃) in
      let w₄ : Work W = release w₃ in
      let (done, w₅, run₅, e) =
        conclude-Ends close w₄ (λ h. l.available ∙ sorted_out-closing now inputs close w₂ empty₂ h)
          (λ h. closing_if c r₃ (sym l.eof ∙ h))
          (λ h. omega (arith, all_here_after c r₃ (sym l.eof ∙ h), l.exist, l.holds))
          (λ h. let g = gone_after c r₃ (sym l.closed ∙ h) in (g.0, omega (arith, g.1, l.exist)))
          l.none_left in
      (
        done,
        w₅,
        >>=_of_returns (λ x. after_receive now inputs x) run₁
            ∙ (>>=_of_returns (λ x. conclude close (release (sorted_out now inputs close x))) run₂
                ∙ run₅),
        Polls-of c r₃ l e,
        subst (All IsIdle) (sym e.available) (subst (All IsIdle) (sym l.available) idle₃),
        λ h.
            e.close
            ∙ (l.close
                ∙ (sym r₃.follows
                    ∙ closing_if c r₃ (sym l.eof ∙ (sym (ap (λ t. t.eof) e.task) ∙ h)))),
      )
