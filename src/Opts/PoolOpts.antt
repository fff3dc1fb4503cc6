-- ===== src/Opts/PoolOpts.antt =====
-- src/opts/mod.rs: `PoolConstraints` and `PoolOpts`. A `Duration` is a number of nanoseconds.
use mysql_async.Prelude.{
  ℕ, ◌+◌, ◌*◌, ◌≤◌, ◌<◌, ◌≡◌, ◌↔◌, Bool, true, ◌&&◌, Option, none, some, arith, ltb, leb,
  if◌then◌else◌,
}

abbrev pub Duration : Type 0
Duration = ℕ

abbrev pub from_secs : ℕ → Duration
from_secs n = n * 1000000000

pub record PoolConstraints : Type 0 where
  pub min : ℕ
  pub max : ℕ

-- `PoolConstraints::new`.
unfoldable pub new : ℕ → ℕ → Option PoolConstraints
new min max = if leb min max && ltb 0 max then some (record { min = min; max = max }) else none

abbrev pub default_pool_constraints : PoolConstraints
default_pool_constraints = record { min = 10; max = 100 }

abbrev pub default_inactive_connection_ttl : Duration
default_inactive_connection_ttl = from_secs 0

abbrev pub default_ttl_check_interval : Duration
default_ttl_check_interval = from_secs 30

pub record PoolOpts : Type 0 where
  pub constraints : PoolConstraints
  pub inactive_connection_ttl : Duration
  pub ttl_check_interval : Duration
  pub abs_conn_ttl : Option Duration
  pub abs_conn_ttl_jitter : Option Duration
  pub reset_connection : Bool

-- `PoolOpts::default`.
unfoldable pub default : PoolOpts
default = record {
  constraints = default_pool_constraints;
  inactive_connection_ttl = default_inactive_connection_ttl;
  ttl_check_interval = default_ttl_check_interval;
  abs_conn_ttl = none;
  abs_conn_ttl_jitter = none;
  reset_connection = true;
}

unfoldable pub with_constraints : PoolConstraints → PoolOpts → PoolOpts
with_constraints c o = record o { constraints = c }

unfoldable pub with_reset_connection : Bool → PoolOpts → PoolOpts
with_reset_connection b o = record o { reset_connection = b }

unfoldable pub with_abs_conn_ttl : Option Duration → PoolOpts → PoolOpts
with_abs_conn_ttl ttl o = record o { abs_conn_ttl = ttl }

unfoldable pub with_abs_conn_ttl_jitter : Option Duration → PoolOpts → PoolOpts
with_abs_conn_ttl_jitter jitter o = record o { abs_conn_ttl_jitter = jitter }

unfoldable pub with_inactive_connection_ttl : Duration → PoolOpts → PoolOpts
with_inactive_connection_ttl ttl o = record o { inactive_connection_ttl = ttl }

-- An interval below a second is replaced by the default.
unfoldable pub with_ttl_check_interval : Duration → PoolOpts → PoolOpts
with_ttl_check_interval interval o =
    if ltb interval (from_secs 1)
    then record o { ttl_check_interval = default_ttl_check_interval }
    else record o { ttl_check_interval = interval }

-- `now` is `Instant::now()` and `drawn` the random number of seconds, between 0 and the whole
-- seconds of the jitter, that the generator gives.
unfoldable pub new_connection_ttl_deadline : ℕ → ℕ → PoolOpts → Option ℕ
new_connection_ttl_deadline now drawn o = elim o.abs_conn_ttl [
  | none ↦ none
  | some ttl ↦ some (
      now + ttl + elim o.abs_conn_ttl_jitter [ none ↦ from_secs 0 | some jitter ↦ from_secs drawn ])
]

unfoldable pub active_bound : PoolOpts → ℕ
active_bound o =
    if ltb (from_secs 0) o.inactive_connection_ttl then o.constraints.max else o.constraints.min

-- What `PoolConstraints::new` admits.
pub record IsValid (c : PoolConstraints) : Type 0 where
  pub ordered : c.min ≤ c.max
  pub positive : 0 < c.max

-- `PoolConstraints::new` succeeds exactly on `min ≤ max` with `0 < max`, and keeps both numbers.
pub new_iff :
    (min max : ℕ) (c : PoolConstraints)
    → (new min max ≡ some c) ↔ ((c.min ≡ min) × (c.max ≡ max) × IsValid c)
unfolding new
new_iff min max c = ground arith

-- Under constraints that `PoolConstraints::new` admits, the active bound is at most `max`.
pub active_bound-le-max :
    (o : PoolOpts) → IsValid o.constraints → active_bound o ≤ o.constraints.max
unfolding active_bound
active_bound-le-max o v = ground arith
