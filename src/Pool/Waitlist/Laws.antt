-- ===== src/Pool/Waitlist/Laws.antt =====
-- src/conn/pool/mod.rs: what `Waitlist` promises, by the entries of its queue.
use mysql_async.Pool.Waitlist.Queue.{
  QueueId, Waker, QueuedWaker, KeyedPriorityQueue, IsKeyedPriorityQueue, contains, erase, insert,
}
use mysql_async.Pool.Waitlist.{remove, push, peek_id}
use mysql_async.Prelude.{
  ℕ, ◌+◌, ◌<◌, ◌≡◌, refl, ap, ◌∙◌, ◌≢◌, ◌⊎◌, inl, inr, false, not, Option, none, some, List, [],
  ◌∷◌, arith, ltb, ◌==◌, if◌then◌else◌, Bool-cases, length, All,
}

-- Strictly by priority, the highest first.
abbrev pub IsSorted : List QueuedWaker → Type 0
IsSorted [] = Unit {0}
IsSorted (e ∷ es) = All (λ f. e.queue_id < f.queue_id) es × IsSorted es

abbrev pub waker_for : QueueId → List QueuedWaker → Option Waker
waker_for id [] = none
waker_for id (e ∷ es) = if e.queue_id == id then some e.waker else waker_for id es

All-erase {ℓ} :
    (P : QueuedWaker → Type ℓ) (id : QueueId) (es : List QueuedWaker)
    → All P es
    → All P (erase id es)
All-erase P id [] h = tt
All-erase P id (e ∷ es) h = elim (Bool-cases (e.queue_id == id)) [
  | inl same ↦ rw same h.1
  | inr other ↦ rw other (h.0, All-erase P id es h.1)
]

All-insert {ℓ} :
    (P : QueuedWaker → Type ℓ) (w : QueuedWaker) (es : List QueuedWaker)
    → P w
    → All P es
    → All P (insert w es)
All-insert P w [] p h = (p, tt)
All-insert P w (e ∷ es) p h = elim (Bool-cases (ltb w.queue_id e.queue_id)) [
  | inl before ↦ rw before (p, h)
  | inr after ↦ rw after (h.0, All-insert P w es p h.1)
]

erase-IsSorted : (id : QueueId) (es : List QueuedWaker) → IsSorted es → IsSorted (erase id es)
erase-IsSorted id [] s = tt
erase-IsSorted id (e ∷ es) s = elim (Bool-cases (e.queue_id == id)) [
  | inl same ↦ rw same s.1
  | inr other ↦
      rw other (All-erase (λ f. e.queue_id < f.queue_id) id es s.0, erase-IsSorted id es s.1)
]

All-below :
    (a b : ℕ) (es : List QueuedWaker)
    → a < b
    → All (λ f. b < f.queue_id) es
    → All (λ f. a < f.queue_id) es
All-below a b [] h all = tt
All-below a b (e ∷ es) h all = (omega arith, All-below a b es h all.1)

insert-IsSorted :
    (w : QueuedWaker) (es : List QueuedWaker)
    → contains w.queue_id es ≡ false
    → IsSorted es
    → IsSorted (insert w es)
insert-IsSorted w [] new s = (tt, tt)
insert-IsSorted w (e ∷ es) new s = elim (Bool-cases (ltb w.queue_id e.queue_id)) [
  | inl before ↦
      rw before ((ground arith, All-below w.queue_id e.queue_id es (ground arith) s.0), s)
  | inr after ↦ rw after (
    All-insert (λ f. e.queue_id < f.queue_id) w es (ground arith) s.0,
    insert-IsSorted w es (ground arith) s.1,
  )
]

contains-above :
    (id : QueueId) (es : List QueuedWaker) → All (λ f. id < f.queue_id) es → contains id es ≡ false
contains-above id [] h = refl
contains-above id (e ∷ es) h = ground (arith, contains-above id es h.1)

contains-erase :
    (id : QueueId) (es : List QueuedWaker) → IsSorted es → contains id (erase id es) ≡ false
contains-erase id [] s = refl
contains-erase id (e ∷ es) s =
    ground (
      arith,
      contains-erase id es s.1,
      λ (p : e.queue_id ≡ id). contains-above id es (rw (← p) s.0),
    )

waker_for-insert_self :
    (w : QueuedWaker) (es : List QueuedWaker)
    → contains w.queue_id es ≡ false
    → waker_for w.queue_id (insert w es) ≡ some w.waker
waker_for-insert_self w [] new = ground arith
waker_for-insert_self w (e ∷ es) new = ground (arith, waker_for-insert_self w es)

waker_for-insert_ne :
    (w : QueuedWaker) (id : QueueId) (es : List QueuedWaker)
    → w.queue_id ≢ id
    → waker_for id (insert w es) ≡ waker_for id es
waker_for-insert_ne w id [] new = ground arith
waker_for-insert_ne w id (e ∷ es) new = ground (arith, waker_for-insert_ne w id es)

waker_for-erase_ne :
    (id j : QueueId) (es : List QueuedWaker) → id ≢ j → waker_for j (erase id es) ≡ waker_for j es
waker_for-erase_ne id j [] ne = refl
waker_for-erase_ne id j (e ∷ es) ne = ground (arith, waker_for-erase_ne id j es)

length-insert : (w : QueuedWaker) (es : List QueuedWaker) → length (insert w es) ≡ length es + 1
length-insert w [] = refl
length-insert w (e ∷ es) = ground (arith, length-insert w es)

length-erase :
    (id : QueueId) (es : List QueuedWaker)
    → length (erase id es) + (if contains id es then 1 else 0) ≡ length es
length-erase id [] = refl
length-erase id (e ∷ es) = ground (arith, length-erase id es)

module _ {W : Type 0} ⦃queue : KeyedPriorityQueue W⦄ (laws : IsKeyedPriorityQueue queue) where
  open laws use {
    entries, entries_push, pop_first, entries_pop, remove_found, entries_remove, peek_first,
  }

  pub entries-remove : (id : QueueId) (w : W) → entries (remove id w).1 ≡ erase id (entries w)
  unfolding remove
  entries-remove id w = entries_remove w id

  pub remove-contains : (id : QueueId) (w : W) → (remove id w).0 ≡ contains id (entries w)
  unfolding remove
  remove-contains id w = remove_found w id

  pub entries-push :
      (waker : Waker) (id : QueueId) (w : W)
      → IsSorted (entries w)
      → entries (push waker id w).1
        ≡ insert (record { queue_id = id; waker = waker }) (erase id (entries w))
  unfolding push remove
  entries-push waker id w s =
      entries_push (queue.remove w id).1 (record { queue_id = id; waker = waker })
        (ap (contains id) (entries_remove w id) ∙ contains-erase id (entries w) s)
      ∙ ap (insert (record { queue_id = id; waker = waker })) (entries_remove w id)

  -- On a sorted wait list, `push` says whether the id was new, keeps the list sorted with the
  -- latest waker for the pushed id, and leaves the wakers of the other ids alone.
  pub push-latest :
      (waker : Waker) (id : QueueId) (w : W)
      → IsSorted (entries w)
      → ((push waker id w).0 ≡ not (contains id (entries w)))
        × (waker_for id (entries (push waker id w).1) ≡ some waker)
        × ((j : QueueId)
            → id ≢ j
            → waker_for j (entries (push waker id w).1) ≡ waker_for j (entries w))
        × IsSorted (entries (push waker id w).1)
  push-latest waker id w s = (
    unfold push remove in ap not (remove_found w id),
    rw (entries-push waker id w s)
        (waker_for-insert_self _ (erase id (entries w)) (contains-erase id (entries w) s)),
    λ j ne. rw (entries-push waker id w s) (
        waker_for-insert_ne _ j (erase id (entries w)) ne ∙ waker_for-erase_ne id j (entries w) ne),
    rw (entries-push waker id w s) (
        insert-IsSorted _ (erase id (entries w)) (contains-erase id (entries w) s)
          (erase-IsSorted id (entries w) s)),
  )

  pub peek_id_cases :
      (w : W)
      → ((entries w ≡ []) × (peek_id w ≡ none))
        ⊎ ((e : QueuedWaker) × (es : List QueuedWaker) × (entries w ≡ e ∷ es)
            × (peek_id w ≡ some e.queue_id))
  unfolding peek_id
  peek_id_cases w = go (entries w) refl
    where
      go :
          (l : List QueuedWaker)
          → entries w ≡ l
          → ((entries w ≡ []) × (peek_id w ≡ none))
            ⊎ ((e : QueuedWaker) × (es : List QueuedWaker) × (entries w ≡ e ∷ es)
                × (peek_id w ≡ some e.queue_id))
      go [] p = inl (p, ground (arith, peek_first w))
      go (e ∷ es) p = inr (e, es, p, ground (arith, peek_first w))
