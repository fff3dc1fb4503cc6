-- ===== src/Pool/Recycler/Finish.antt =====
-- src/conn/pool/recycler.rs: the end of a poll, where places are given back and the task finishes.
use mysql_async.Pool.Waitlist.Queue.{KeyedPriorityQueue}
use mysql_async.Pool.Waitlist
use mysql_async.Pool.State.{Inner, with_exist}
use mysql_async.Pool.Exchange.{wake_next}
use mysql_async.Pool.Exchange.Laws.{
  Same, Same-refl, Same-trans, wake_next-Same, Counted, Same-Counted,
}
use mysql_async.Pool.Recycler.Task.{Work, is_nil}
use mysql_async.Pool.Recycler.Laws.{held}
use mysql_async.Pool.Recycler.{
  wake_times, release, give_back, wake_all, is_done, set_closed, finish, conclude,
}
use mysql_async.Prelude.{
  ℕ, zero, suc, ◌+◌, ◌≤◌, ◌≡◌, refl, sym, ap, ◌∙◌, ◌⊎◌, inl, inr, Bool, true, false, ◌&&◌, ◌||◌,
  List, [], ◌∷◌, arith, ◌==◌, ==_iff, Bool-cases, Option-cases, length, wrapping_sub,
  wrapping_sub_fits, returns, ◌>>◌, assert, >>=_of_returns, if_true, if_false, subst,
}

length_of_nil {ℓ} : {A : Type ℓ} (l : List A) → is_nil l ≡ true → length l ≡ 0
length_of_nil [] e = refl
length_of_nil (x ∷ xs) e = absurd (cc)

done_parts :
    (e c x a b d : Bool)
    → (e || (c && x)) && (a && (b && d)) ≡ true
    → ((e ≡ true) ⊎ ((c ≡ true) × (x ≡ true))) × (a ≡ true) × (b ≡ true) × (d ≡ true)
done_parts e c x a b d h = ground arith

module _ {W : Type 0} where
  -- The connections that are gone leave `exist`, and nothing else of the accounts moves.
  pub record Releases (v w : Work W) : Type 0 where
    pub exist : w.inner.exist + v.task.discarded ≡ v.inner.exist
    pub counted : Counted w.inner
    pub closed : w.inner.closed ≡ v.inner.closed
    pub close : w.inner.close ≡ v.inner.close
    pub available : w.inner.available ≡ v.inner.available
    pub eof : w.task.eof ≡ v.task.eof
    pub pool_opts : w.task.pool_opts ≡ v.task.pool_opts
    pub none_left : w.task.discarded ≡ 0
    pub holds : held w + v.task.discarded ≡ held v

  -- What the end of a poll leaves.
  pub record Ends (v : Work W) (done : Bool) (w : Work W) : Type 0 where
    pub exist : w.inner.exist ≡ v.inner.exist
    pub count : w.inner.metrics.connection_count ≡ v.inner.metrics.connection_count
    pub available : w.inner.available ≡ v.inner.available
    pub close : w.inner.close ≡ v.inner.close
    pub task : w.task ≡ v.task
    pub closed : w.inner.closed ≡ done
    pub empty : done ≡ true → w.inner.exist ≡ 0
    pub stays : v.inner.closed ≡ true → done ≡ true

module _ {W : Type 0} ⦃queue : KeyedPriorityQueue W⦄ where
  wake_times-Same : (n : ℕ) (i : Inner W) → Same i (wake_times n i)
  unfolding wake_times
  wake_times-Same zero i = Same-refl i
  wake_times-Same (suc n) i = Same-trans (wake_next-Same i) (wake_times-Same n (wake_next i))

  wake_all-Same : (n : ℕ) (i : Inner W) → Same i (wake_all n i)
  unfolding wake_all
  wake_all-Same zero i = Same-refl i
  wake_all-Same (suc n) i = elim (Option-cases (Waitlist.pop i.waiting).0) [
    | inl e ↦ rw (e, wake_all) (Same-refl i)
    | inr (w, e) ↦ rw (e, wake_all) (Same-trans (wake_next-Same i) (wake_all-Same n (wake_next i)))
  ]

  give_back-Releases :
      (w : Work W) → Counted w.inner → w.task.discarded ≤ w.inner.exist → Releases w (give_back w)
  unfolding give_back
  give_back-Releases w c enough =
      let n = wrapping_sub w.inner.exist w.task.discarded in
      let less = wrapping_sub_fits w.inner.exist w.task.discarded enough c.fits in
      let s = wake_times-Same w.task.discarded (with_exist n w.inner) in
      let fits = c.fits in
      record {
        exist = omega (arith, s.exist, less);
        counted = Same-Counted s (record { count = refl; fits = omega (arith, less, fits) });
        closed = s.closed;
        close = s.close;
        available = s.available;
        eof = refl;
        pool_opts = refl;
        none_left = refl;
        holds = omega (arith, ap length s.available);
      }

  kept-Releases : (w : Work W) → Counted w.inner → w.task.discarded ≡ 0 → Releases w w
  kept-Releases w c nothing = record {
    exist = omega (arith, nothing);
    counted = c;
    closed = refl;
    close = refl;
    available = refl;
    eof = refl;
    pool_opts = refl;
    none_left = nothing;
    holds = omega (arith, nothing);
  }

  -- Where at most `exist` connections are gone, giving their places back lowers `exist` by exactly
  -- their number, sets the gauge, forgets the number, and changes nothing else but the wait list.
  pub release-Releases :
      (w : Work W) → Counted w.inner → w.task.discarded ≤ w.inner.exist → Releases w (release w)
  unfolding release
  release-Releases w c enough = elim (Bool-cases (w.task.discarded == 0)) [
    | inl nothing ↦
        subst (Releases w) (sym (if_true _ _ nothing))
          (kept-Releases w c ((==_iff w.task.discarded 0).0 nothing))
    | inr gone ↦ subst (Releases w) (sym (if_false _ _ gone)) (give_back-Releases w c enough)
  ]

  finish-Ends :
      (w : Work W)
      → (w.inner.closed ≡ true → (w.inner.exist ≡ 0) × (w.inner.available ≡ []))
      → (done : Bool) × (w' : Work W) × (finish w ≡ returns (done, w')) × Ends w done w'
  unfolding finish
  finish-Ends w gone = elim (Bool-cases w.inner.closed) [
    | inl over ↦
        let s = wake_all-Same (queue.len w.inner.waiting) w.inner in
        let w' : Work W = record w { inner = wake_all (queue.len w.inner.waiting) w.inner } in
        let no_conns = (==_iff w.inner.exist 0).1 (gone over).0 in
        let no_idle = (==_iff (length w.inner.available) 0).1 (ap length (gone over).1) in
        (
          true,
          w',
          if_true _ _ over
              ∙ (ap
                    (λ b.
                      assert b >> (assert (length w.inner.available == 0) >> returns (true, w')))
                    no_conns
                  ∙ ap (λ b. assert b >> returns (true, w')) no_idle),
          record {
            exist = s.exist;
            count = s.count;
            available = s.available;
            close = s.close;
            task = refl;
            closed = s.closed ∙ over;
            empty = λ _. s.exist ∙ (gone over).0;
            stays = λ _. refl;
          },
        )
    | inr going ↦ (
      false,
      w,
      if_false _ _ going,
      record {
        exist = refl;
        count = refl;
        available = refl;
        close = refl;
        task = refl;
        closed = going;
        empty = λ e. cc;
        stays = λ e. sym going ∙ e;
      },
    )
  ]

  is_done-exist :
      (close : Bool) (w : Work W)
      → is_done close w ≡ true
      → (w.task.eof ≡ true → w.inner.exist ≡ held w)
      → (w.task.eof ≡ true → close ≡ true)
      → (close ≡ true → w.inner.available ≡ [])
      → w.task.discarded ≡ 0
      → (close ≡ true) × (w.inner.exist ≡ 0) × (w.inner.available ≡ [])
  unfolding is_done
  is_done-exist close w done all_here follows idle nothing =
      let (why, clean, gone, ready_) =
        done_parts w.task.eof close (w.inner.exist == 0) (is_nil w.task.cleaning)
          (is_nil w.task.discard) (is_nil w.task.reset) done in
      let cleaning_nil = length_of_nil w.task.cleaning clean in
      let discard_nil = length_of_nil w.task.discard gone in
      let reset_nil = length_of_nil w.task.reset ready_ in
      elim why [
        | inl over ↦
            let empty = idle (follows over) in
            (
              follows over,
              omega (
                arith,
                all_here over,
                cleaning_nil,
                discard_nil,
                reset_nil,
                nothing,
                ap length empty,
              ),
              empty,
            )
        | inr (closing, none_exist) ↦ (closing, (==_iff w.inner.exist 0).0 none_exist, idle closing)
      ]

  -- The end of a poll never panics where a closing pool has no idle connections, the end of the
  -- channel closes the pool and leaves every connection that exists to the recycler, a closed pool
  -- is empty, and no place is to be given back: it finishes exactly where `closed` is set, which
  -- it is only where no connection exists.
  pub conclude-Ends :
      (close : Bool) (w : Work W)
      → (close ≡ true → w.inner.available ≡ [])
      → (w.task.eof ≡ true → close ≡ true)
      → (w.task.eof ≡ true → w.inner.exist ≡ held w)
      → (w.inner.closed ≡ true → (close ≡ true) × (w.inner.exist ≡ 0))
      → w.task.discarded ≡ 0
      → (done : Bool) × (w' : Work W) × (conclude close w ≡ returns (done, w')) × Ends w done w'
  unfolding conclude set_closed
  conclude-Ends close w idle follows all_here gone nothing = elim (Bool-cases (is_done close w)) [
    | inl over ↦
        let (closing, no_conns, empty) = is_done-exist close w over all_here follows idle nothing in
        let v : Work W = record w { inner = record (w.inner) { closed = true } } in
        let (done, w', run, e) = finish-Ends v (λ _. (no_conns, empty)) in
        let no_idle = (==_iff (length w.inner.available) 0).1 (ap length empty) in
        (
          done,
          w',
          >>=_of_returns (λ u. finish u)
                (if_true _ _ over ∙ ap (λ b. assert b >> returns v) no_idle)
              ∙ run,
          record {
            exist = e.exist;
            count = e.count;
            available = e.available;
            close = e.close;
            task = e.task;
            closed = e.closed;
            empty = e.empty;
            stays = λ _. e.stays refl;
          },
        )
    | inr going ↦
        let (done, w', run, e) = finish-Ends w (λ c. ((gone c).1, idle (gone c).0)) in
        (done, w', >>=_of_returns (λ u. finish u) (if_false _ _ going) ∙ run, e)
  ]
