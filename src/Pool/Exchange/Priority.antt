-- ===== src/Pool/Exchange/Priority.antt =====
-- src/conn/pool/mod.rs: the order in which `poll_new_conn` serves the requests.
use mysql_async.Conn.State.{Instant}
use mysql_async.Pool.Exchange.{spawn_futures_if_needed, enqueue, highest, poll_new_conn}
use mysql_async.Pool.Exchange.Laws.{Same, Same-trans, spawn-Same, enqueue-Same}
use mysql_async.Pool.State.{Inner, Pool}
use mysql_async.Pool.Waitlist.{higher, push, peek_id}
use mysql_async.Pool.Waitlist.Laws.{IsSorted, waker_for, push-latest, peek_id_cases}
use mysql_async.Pool.Waitlist.Queue.{
  QueueId, Waker, QueuedWaker, KeyedPriorityQueue, IsKeyedPriorityQueue, contains,
}
use mysql_async.Prelude.{
  ◌≤◌, ◌<◌, ◌≡◌, refl, sym, ap, ◌∙◌, ◌≢◌, inl, inr, true, false, not, none, some, List, [], ◌∷◌,
  arith, ◌==◌, Bool-cases, All, pending, returns, if_true, if_false, subst,
}

module _ {W : Type 0} ⦃queue : KeyedPriorityQueue W⦄ where
  spawn-waiting : (i : Inner W) → (spawn_futures_if_needed i).waiting ≡ i.waiting
  unfolding spawn_futures_if_needed
  spawn-waiting i = ground arith

  enqueue-waiting :
      (waker : Waker) (id : QueueId) (i : Inner W)
      → (enqueue waker id i).waiting ≡ (push waker id i.waiting).1
  unfolding enqueue
  enqueue-waiting waker id i = ground arith

  highest-waiting :
      (id : QueueId) (i j : Inner W) → i.waiting ≡ j.waiting → highest id i ≡ highest id j
  unfolding highest
  highest-waiting id i j e = ap (λ w. elim (peek_id w) [ none ↦ true | some cur ↦ higher id cur ]) e

  behind :
      (id cur : QueueId) (i : Inner W)
      → peek_id i.waiting ≡ some cur
      → cur ≤ id
      → highest id i ≡ false
  unfolding highest
  behind id cur i e h = ap (λ o. elim o [ none ↦ true | some c ↦ higher id c ]) e ∙ ground arith

  module _ (laws : IsKeyedPriorityQueue queue) where
    open laws use {entries}

    sorted-head :
        (e : QueuedWaker) (es : List QueuedWaker) (id : QueueId)
        → IsSorted (e ∷ es)
        → contains id (e ∷ es) ≡ true
        → e.queue_id ≤ id
    sorted-head e es id s h = elim (Bool-cases (e.queue_id == id)) [
      | inl same ↦ ground arith
      | inr other ↦ below es s.0 (ground arith)
    ]
      where
        below :
            (fs : List QueuedWaker)
            → All (λ f. e.queue_id < f.queue_id) fs
            → contains id fs ≡ true
            → e.queue_id ≤ id
        below [] a m = cc
        below (f ∷ fs) a m = elim (Bool-cases (f.queue_id == id)) [
          | inl same ↦ ground (arith, a.0)
          | inr other ↦ below fs a.1 (ground arith)
        ]

    peek-le :
        (id : QueueId) (w : W)
        → IsSorted (entries w)
        → contains id (entries w) ≡ true
        → (cur : QueueId) × (peek_id w ≡ some cur) × (cur ≤ id)
    peek-le id w s h = elim (peek_id_cases laws w) [
      | inl (none_left, _) ↦ absurd (ground (arith, sym (ap (contains id) none_left) ∙ h))
      | inr (e, es, q, r) ↦
          (e.queue_id, r, sorted-head e es id (subst IsSorted q s) (sym (ap (contains id) q) ∙ h))
    ]

    -- While the pool is open, a request behind another one in the wait list, or in the list
    -- itself, is pending: it takes no connection and makes none, its waker in the list is the
    -- latest one, and the wakers of the others stay.
    pub poll_new_conn-waits :
        (now : Instant) (waker : Waker) (id first : QueueId) (p : Pool W)
        → p.inner.close ≡ false
        → IsSorted (entries p.inner.waiting)
        → contains first (entries p.inner.waiting) ≡ true
        → first ≤ id
        → (q : Pool W) × (poll_new_conn now waker id p ≡ returns (pending, q))
          × Same p.inner q.inner
          × (q.drop ≡ p.drop)
          × (waker_for id (entries q.inner.waiting) ≡ some waker)
          × ((j : QueueId)
              → id ≢ j
              → waker_for j (entries q.inner.waiting) ≡ waker_for j (entries p.inner.waiting))
    unfolding poll_new_conn
    poll_new_conn-waits now waker id first p going s queued h =
        let i : Inner W = spawn_futures_if_needed p.inner in
        let (cur, peeked, before) = peek-le first p.inner.waiting s queued in
        let not_first : highest id i ≡ false =
          behind id cur i (ap peek_id (spawn-waiting p.inner) ∙ peeked)
            (omega (arith, before, h)) in
        let waiting =
          enqueue-waiting waker id i ∙ ap (λ w. (push waker id w).1) (spawn-waiting p.inner) in
        let (new, latest, others, sorted) = push-latest laws waker id p.inner.waiting s in
        (
          record p { inner = enqueue waker id i },
          if_false _ _ going ∙ if_true _ _ (ap not not_first),
          Same-trans (spawn-Same p.inner) (enqueue-Same waker id i),
          refl,
          ap (λ w. waker_for id (entries w)) waiting ∙ latest,
          λ j ne. ap (λ w. waker_for j (entries w)) waiting ∙ others j ne,
        )
