-- ===== src/Pool/Tests.antt =====
-- src/conn/pool/: the theorems on the pool at small pools, with a queue kept as a sorted list.
use mysql_async.Conn.State.{Conn}
use mysql_async.Conn.TxStatus.{TxStatus}
use mysql_async.Opts.PoolOpts.{PoolOpts}
use mysql_async.Pool.Waitlist.{push}
use mysql_async.Pool.Waitlist.Queue.{
  QueueId, QueuedWaker, by_priority, by_priority_IsQueue, contains,
}
use mysql_async.Pool.Waitlist.Laws.{IsSorted, waker_for, push-latest}
use mysql_async.Pool.State.{
  IdlingConn, no_metrics, Inner, Pool, Error, pool_disconnected, GetConnInner, checking, connection,
}
use mysql_async.Pool.Exchange.{poll_new_conn}
use mysql_async.Pool.Exchange.Laws.{Balanced, Same, promised, IsAnswer, poll_new_conn-Balanced}
use mysql_async.Pool.Exchange.Priority.{poll_new_conn-waits}
use mysql_async.Pool.GetConn.{GetConn}
use mysql_async.Pool.GetConn
use mysql_async.Pool.GetConn.Laws.{holding, handed, Sound, IsLive, poll-Balanced, drop-Balanced}
use mysql_async.Pool.Disconnect.{poll-refuses, poll-sends_once}
use mysql_async.Pool.Disconnect
use mysql_async.Pool.Ttl.{check_ttl}
use mysql_async.Pool.Ttl.Laws.{Checks, check_ttl-Checks}
use mysql_async.Pool.Recycler.Task.{
  closing, Recycler, Work, Received, message, end_of_channel, Inputs,
}
use mysql_async.Pool.Recycler.{conn_decision, receive_all, reclaim, poll}
use mysql_async.Pool.Recycler.Laws.{Files}
use mysql_async.Pool.Recycler.Idle.{IsIdle}
use mysql_async.Pool.Recycler.Entry.{Receives, receive_all-Receives, reclaim-Files}
use mysql_async.Pool.Recycler.Safety.{CanPoll, Polls, poll-Polls}
use mysql_async.Session
use mysql_async.Session.Commands.{cleanup_for_pool}
use mysql_async.Session.Ends.Pooled.{cleanup_for_pool-conn_decision}
use mysql_async.Session.Samples.{common, dirty, dirty-Keeps}
use mysql_async.Prelude.{
  ℕ, ◌+◌, ◌≡◌, refl, ◌≢◌, Bool, true, false, not, none, some, List, [], ◌∷◌, arith, All, Result, ok,
  err, Poll, pending, ready, returns,
}

abbrev opts : PoolOpts
opts = record {
  constraints = record { min = 1; max = 3 };
  inactive_connection_ttl = 5;
  ttl_check_interval = 30;
  abs_conn_ttl = none;
  abs_conn_ttl_jitter = none;
  reset_connection = true;
}

-- A connection that is alive, and one that has been idle too long.
abbrev live : Conn
live = record {
  id = 1;
  stream = true;
  disconnected = false;
  pool = false;
  status = 0;
  last_ok_packet = none;
  last_err_packet = none;
  pending_result = ok none;
  tx_status = TxStatus.none;
  reset_upon_returning_to_a_pool = true;
  conn_ttl = none;
  wait_timeout = 50;
  ttl_deadline = none;
  last_io = 90;
  active_since = 90;
}

abbrev old : Conn
old = record live { id = 2; last_io = 20 }

abbrev idle_live : IdlingConn
idle_live = record { since = 98; conn = live }

abbrev idle_old : IdlingConn
idle_old = record { since = 30; conn = old }

abbrev waiters : List QueuedWaker
waiters = record { queue_id = 2; waker = 20 } ∷ record { queue_id = 5; waker = 50 } ∷ []

abbrev inner : List QueuedWaker → List IdlingConn → ℕ → Inner (List QueuedWaker)
inner queue available exist = record {
  metrics = record no_metrics { connection_count = exist };
  close = false;
  closed = false;
  exchange = record { waiting = queue; available = available; exist = exist; recycler = some opts };
  woken = [];
  spawned = [];
}

abbrev pool : List QueuedWaker → List IdlingConn → ℕ → Pool (List QueuedWaker)
pool queue available exist = record {
  opts = opts;
  inner = inner queue available exist;
  drop = record { queue = []; receiver = true };
}

waiters-IsSorted : IsSorted waiters
waiters-IsSorted = ((omega arith, tt), (tt, tt))

push-latest_example :
    ((push 30 3 waiters).0 ≡ not (contains 3 waiters))
    × (waker_for 3 (push 30 3 waiters).1 ≡ some 30)
    × ((j : QueueId) → 3 ≢ j → waker_for j (push 30 3 waiters).1 ≡ waker_for j waiters)
    × IsSorted (push 30 3 waiters).1
push-latest_example = push-latest by_priority_IsQueue 30 3 waiters waiters-IsSorted

poll_new_conn_example :
    (r : Poll (Result Error GetConnInner)) × (q : Pool (List QueuedWaker)) × (poll_new_conn 100 70 7
        (pool [] (idle_old ∷ []) 2)
      ≡ returns (r, q))
    × Balanced 0 (promised r) (pool [] (idle_old ∷ []) 2) q
    × IsAnswer r
poll_new_conn_example =
    poll_new_conn-Balanced 100 70 7 (pool [] (idle_old ∷ []) 2) (omega arith) refl

poll_new_conn-waits_example :
    (q : Pool (List QueuedWaker)) × (poll_new_conn 100 70 7 (pool waiters (idle_live ∷ []) 2)
      ≡ returns (pending, q))
    × Same (inner waiters (idle_live ∷ []) 2) q.inner
    × (q.drop ≡ (pool waiters (idle_live ∷ []) 2).drop)
    × (waker_for 7 q.inner.waiting ≡ some 70)
    × ((j : QueueId) → 7 ≢ j → waker_for j q.inner.waiting ≡ waker_for j waiters)
poll_new_conn-waits_example =
    poll_new_conn-waits by_priority_IsQueue 100 70 7 2 (pool waiters (idle_live ∷ []) 2) refl
      waiters-IsSorted refl (omega arith)

-- A request whose check is under way.
abbrev checks_live : GetConn
checks_live = record {
  queue_id = 7;
  pool = true;
  inner = checking live;
  reset_upon_returning_to_a_pool = true;
}

abbrev sound_pool : Pool (List QueuedWaker)
sound_pool = pool waiters (idle_old ∷ []) 2

sound : Sound 1 sound_pool
sound = record {
  receiver = refl;
  fits = omega arith;
  counted = record { count = refl; fits = omega arith };
  covered = omega arith;
}

checks_live-IsLive : IsLive checks_live
checks_live-IsLive = record { pool = refl; ongoing = refl }

-- The check fails, and the request goes on.
get_conn_poll_example :
    (r : Poll (Result Error Conn)) × (g' : GetConn) × (q : Pool (List QueuedWaker)) × (GetConn.poll
        100 70
        (ready (err (connection 1)) ∷ [])
        checks_live
        sound_pool
      ≡ returns (r, (g', q)))
    × Balanced 1 (handed r + holding g'.inner) sound_pool q
get_conn_poll_example =
    poll-Balanced 100 70 (ready (err (connection 1)) ∷ []) checks_live sound_pool checks_live-IsLive
      sound

get_conn_drop_example :
    Balanced 0 0 sound_pool
      (record sound_pool { inner = GetConn.drop checks_live sound_pool.inner })
get_conn_drop_example = drop-Balanced checks_live sound_pool checks_live-IsLive sound

check_ttl_example :
    (j : Inner (List QueuedWaker)) × (check_ttl 100 opts (inner [] (idle_old ∷ idle_live ∷ []) 2)
      ≡ returns j)
    × Checks 100 opts (inner [] (idle_old ∷ idle_live ∷ []) 2) j
check_ttl_example =
    check_ttl-Checks 100 opts (inner [] (idle_old ∷ idle_live ∷ []) 2) (refl, (refl, tt))

poll-refuses_example :
    let q = (Disconnect.poll 90 (record { drop = true }) (pool waiters [] 2)).1.1 in
    poll_new_conn 100 70 7 q ≡ returns (ready (err pool_disconnected), q)
poll-refuses_example = poll-refuses 90 (record { drop = true }) (pool waiters [] 2) 100 70 7

abbrev task : Recycler
task = record {
  discard = closing old ∷ [];
  discarded = 0;
  cleaning = [];
  reset = live ∷ [];
  pool_opts = opts;
  eof = false;
}

abbrev work : Work (List QueuedWaker)
work = record { inner = inner waiters (idle_live ∷ []) 4; task = task }

abbrev messages : List Received
messages = message (some live) ∷ []

abbrev inputs : Inputs
inputs = record {
  received = messages;
  cleaned = [];
  resets = record { place = 0; result = some live } ∷ [];
  discards = record { place = 0; result = some tt } ∷ [];
}

work-CanPoll : CanPoll inputs work
work-CanPoll = record {
  counted = record { count = refl; fits = omega arith };
  covered = omega arith;
  idle = (refl, tt);
  expected = (refl, tt);
  cleaned = tt;
  resets = (λ c e. ground (arith, e), tt);
  eof_closes = λ h. cc;
  all_here = λ h. cc;
  gone = λ h. cc;
}

recycler_poll_example :
    (done : Bool) × (w' : Work (List QueuedWaker)) × (poll 100 inputs work ≡ returns (done, w'))
    × Polls 1 work done w'
    × All IsIdle w'.inner.available
    × (w'.task.eof ≡ true → w'.inner.close ≡ true)
recycler_poll_example = poll-Polls 100 inputs work work-CanPoll

receive_all_example :
    (close' : Bool) × (w' : Work (List QueuedWaker)) × (receive_all 100 false
        (message (some live) ∷ end_of_channel ∷ [])
        work
      ≡ returns (close', w'))
    × Receives 1 true work close' w'
receive_all_example =
    receive_all-Receives 100 false (message (some live) ∷ end_of_channel ∷ []) work refl refl
      (refl, (tt, tt))

reclaim_example :
    (w' : Work (List QueuedWaker)) × (reclaim 1 100 true work ≡ returns w')
    × Files 0 work w'
    × (w'.inner.available ≡ [])
reclaim_example = reclaim-Files 1 100 work (idle_live ∷ []) refl (omega arith) (refl, tt)

-- A connection whose result set and transaction were abandoned is cleaned once.
cleanup_for_pool-conn_decision_example :
    Session.Ends.Ends
      (λ _ s. (conn_decision 100 false s.conn work).task.cleaning ≡ work.task.cleaning)
      (λ _. ⊥)
      (cleanup_for_pool common dirty)
cleanup_for_pool-conn_decision_example =
    cleanup_for_pool-conn_decision 100 false work dirty dirty-Keeps
