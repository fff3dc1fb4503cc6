-- ===== src/Session/ChangeUser/Laws.antt =====
-- src/conn/mod.rs: a pooled connection keeps the options of its pool.
use mysql_async.Conn.StmtCache.Lru.{same-eq}
use mysql_async.Session.Login.{AuthOpts}
use mysql_async.Session.State.{Session}
use mysql_async.Session.ChangeUser.{
  ChangeUserOpts, same_value, is_changed, opts_changed, given_or, update_opts, leave_pool, kick,
  set_opts, update,
}
use mysql_async.Prelude.{
  ℕ, ◌+◌, ◌≡◌, refl, sym, ap, ◌∙◌, ◌⊎◌, inl, inr, true, false, Option, none, some, List, arith,
  if◌then◌else◌, Bool-cases, if_true, if_false,
}

same_value-eq : (a b : Option (List ℕ)) → same_value a b ≡ true → a ≡ b
unfolding same_value
same_value-eq none none h = refl
same_value-eq (some a) (some b) h = ap some (same-eq a b h)
same_value-eq none (some b) h = cc
same_value-eq (some a) none h = cc

given_or_same :
    (old : Option (List ℕ)) (given : Option (Option (List ℕ)))
    → is_changed given old ≡ false
    → given_or old given ≡ old
unfolding given_or is_changed
given_or_same old none h = refl
given_or_same old (some value) h = same_value-eq value old (ground (arith, h))

update_opts_same :
    (opts : ChangeUserOpts) (old : AuthOpts)
    → opts_changed opts old ≡ false
    → update_opts opts old ≡ old
unfolding opts_changed update_opts
update_opts_same opts old h =
    let u = given_or_same old.user opts.user (ground (arith, h)) in
    let p = given_or_same old.pass opts.pass (ground (arith, h)) in
    let d = given_or_same old.db_name opts.db_name (ground (arith, h)) in
    ap
      (λ user. record old {
        user = user;
        pass = given_or old.pass opts.pass;
        db_name = given_or old.db_name opts.db_name;
      })
      u
    ∙ (ap (λ pass. record old { pass = pass; db_name = given_or old.db_name opts.db_name }) p
        ∙ ap (λ db_name. record old { db_name = db_name }) d)

module _ {L : Type 0} where
  leave_pool_left : (s : Session L) → (leave_pool s).conn.pool ≡ false
  unfolding leave_pool
  leave_pool_left s = elim (Bool-cases s.conn.pool) [
    | inl h ↦ ap {A = Session L} (λ t. t.conn.pool) (if_true _ _ h)
    | inr h ↦ ap {A = Session L} (λ t. t.conn.pool) (if_false _ _ h) ∙ h
  ]

  leave_pool_cancelled :
      (s : Session L)
      → (leave_pool s).cancelled ≡ (if s.conn.pool then s.cancelled + 1 else s.cancelled)
  unfolding leave_pool
  leave_pool_cancelled s = elim (Bool-cases s.conn.pool) [
    | inl h ↦ ap {A = Session L} (λ t. t.cancelled) (if_true _ _ h) ∙ sym (if_true _ _ h)
    | inr h ↦ ap {A = Session L} (λ t. t.cancelled) (if_false _ _ h) ∙ sym (if_false _ _ h)
  ]

  -- Before `change_user` sends anything, either the connection has left its pool, which was told
  -- so once if there was one, or the options are the same as before, the pool is kept and it was
  -- told nothing.
  pub update_pooled :
      (opts : ChangeUserOpts) (s : Session L)
      → (((update opts s).1.conn.pool ≡ false)
          × ((update opts s).1.cancelled ≡ (if s.conn.pool then s.cancelled + 1 else s.cancelled)))
        ⊎ (((update opts s).1.auth.opts ≡ s.auth.opts)
            × ((update opts s).1.conn.pool ≡ s.conn.pool)
            × ((update opts s).1.cancelled ≡ s.cancelled))
  unfolding update kick set_opts
  update_pooled opts s = elim (Bool-cases (opts_changed opts s.auth.opts)) [
    | inl h ↦ inl (
      ap {A = Session L} (λ t. t.conn.pool) (if_true _ _ h) ∙ leave_pool_left s,
      ap {A = Session L} (λ t. t.cancelled) (if_true _ _ h) ∙ leave_pool_cancelled s,
    )
    | inr h ↦ inr (
      ap {A = Session L} (λ t. update_opts opts t.auth.opts) (if_false _ _ h)
          ∙ update_opts_same opts s.auth.opts h,
      ap {A = Session L} (λ t. t.conn.pool) (if_false _ _ h),
      ap {A = Session L} (λ t. t.cancelled) (if_false _ _ h),
    )
  ]
