-- ===== src/Conn/Pending.antt =====
-- src/conn/mod.rs: the pending result of a connection. A call returns its result and the
-- connection afterwards.
use mysql_async.Prelude.{◌≡◌, refl, Bool, true, false, Option, none, some, arith, Result, ok, err}
use mysql_async.Conn.State.{Conn, ResultSetMeta, PendingResult, pending, taken, ServerError}

abbrev pub Pended : Type 0
Pended = Result ServerError (Option PendingResult)

-- `Conn::has_pending_result` on the field: an error counts as a result.
unfoldable pub is_pending : Pended → Bool
is_pending (err e) = true
is_pending (ok none) = false
is_pending (ok (some p)) = true

unfoldable pub has_pending_result : Conn → Bool
unfolding is_pending
has_pending_result c = is_pending c.pending_result

-- An error is handed out once.
unfoldable pub use_pending : Pended → Pended × Pended
use_pending (err e) = (err e, ok none)
use_pending (ok p) = (ok p, ok p)

unfoldable pub use_pending_result : Conn → Pended × Conn
unfolding use_pending
use_pending_result c =
    let (result, rest) = use_pending c.pending_result in
    (result, record c { pending_result = rest })

unfoldable pub pend : Option ResultSetMeta → Option PendingResult
pend none = none
pend (some meta) = some (pending meta)

unfoldable pub set_pending_result : Option ResultSetMeta → Conn → Pended × Conn
unfolding pend
set_pending_result meta c = (c.pending_result, record c { pending_result = ok (pend meta) })

unfoldable pub set_pending_result_error : ServerError → Conn → Pended × Conn
set_pending_result_error e c = (c.pending_result, record c { pending_result = err e })

-- A pending result is marked as taken and handed out; a taken one is not handed out twice.
unfoldable pub take_pending : Pended → Result ServerError (Option ResultSetMeta) × Pended
take_pending (err e) = (err e, ok none)
take_pending (ok none) = (ok none, ok none)
take_pending (ok (some (pending meta))) = (ok (some meta), ok (some (taken meta)))
take_pending (ok (some (taken meta))) = (ok none, ok (some (taken meta)))

unfoldable pub take_pending_result : Conn → Result ServerError (Option ResultSetMeta) × Conn
unfolding take_pending
take_pending_result c =
    let (result, rest) = take_pending c.pending_result in
    (result, record c { pending_result = rest })

-- An error from the server counts as pending, is reported by the next `use_pending_result`, and
-- after it nothing is pending.
pub use_pending_result-set_pending_result_error :
    (e : ServerError) (c : Conn)
    → let c' = (set_pending_result_error e c).1 in
      (has_pending_result c' ≡ true)
      × ((use_pending_result c').0 ≡ err e)
      × (has_pending_result (use_pending_result c').1 ≡ false)
unfolding has_pending_result use_pending_result set_pending_result_error
use_pending_result-set_pending_result_error e c = (refl, refl, refl)

take-take :
    (p : Pended) (meta : ResultSetMeta)
    → (take_pending p).0 ≡ ok (some meta)
    → ((take_pending (take_pending p).1).0 ≡ ok none) × (is_pending (take_pending p).1 ≡ true)
unfolding take_pending is_pending
take-take p meta h = ground arith

-- A result set is handed out to one caller only: after a `take_pending_result` that returned it, a
-- second returns nothing, and the connection still counts as having a pending result.
pub take_pending_result_once :
    (c : Conn) (meta : ResultSetMeta)
    → (take_pending_result c).0 ≡ ok (some meta)
    → ((take_pending_result (take_pending_result c).1).0 ≡ ok none)
      × (has_pending_result (take_pending_result c).1 ≡ true)
unfolding take_pending_result has_pending_result
take_pending_result_once c meta h = take-take c.pending_result meta h
