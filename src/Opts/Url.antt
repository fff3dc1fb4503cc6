-- ===== src/Opts/Url.antt =====
-- src/opts/mod.rs: `mysqlopts_from_url`, from the pairs of the query on. The url crate, which gives
-- the pairs, and the parts of the options that come from elsewhere are left out.
use Prim.Native.Char.{code}
use Prim.Native.String.{String}
use text.Mathlib.Text.{◌==◌}
use mysql_async.Opts.PoolOpts.{
  Duration, from_secs, new, PoolOpts, IsValid, new_iff, with_constraints, with_reset_connection,
  with_abs_conn_ttl, with_abs_conn_ttl_jitter, with_inactive_connection_ttl,
  with_ttl_check_interval,
}
use mysql_async.Prelude.{
  ℕ, ◌+◌, ◌-◌, ◌*◌, ◌^◌, ◌≡◌, inl, inr, Bool, true, false, not, ◌&&◌, ◌||◌, Option, none, some,
  List, [], ◌∷◌, arith, ltb, leb, if◌then◌else◌, Option-cases, Result, ok, err,
}

pub data UrlError : Type 0 where
  invalid_param_value : String → String → UrlError
  unknown_parameter : String → UrlError
  invalid_pool_constraints : ℕ → ℕ → UrlError

pub data Compression : Type 0 where
  fast default best : Compression
  level : ℕ → Compression

pub record SslOpts : Type 0 where
  pub accept_invalid_certs : Bool
  pub skip_domain_validation : Bool
  pub disable_built_in_roots : Bool

-- The fields of `MysqlOpts` that the query sets.
pub record MysqlOpts : Type 0 where
  pub tcp_keepalive : Option ℕ
  pub tcp_nodelay : Bool
  pub pool_opts : PoolOpts
  pub conn_ttl : Option Duration
  pub stmt_cache_size : ℕ
  pub ssl_opts : Option SslOpts
  pub prefer_socket : Bool
  pub socket : Option String
  pub compression : Option Compression
  pub max_allowed_packet : Option ℕ
  pub wait_timeout : Option ℕ
  pub secure_auth : Bool
  pub client_found_rows : Bool
  pub enable_cleartext_plugin : Bool

-- The variables of the loop.
pub record Loop : Type 0 where
  pub opts : MysqlOpts
  pub pool_min : ℕ
  pub pool_max : ℕ
  pub ssl_opts : Option SslOpts
  pub skip_domain_validation : Bool
  pub accept_invalid_certs : Bool
  pub disable_built_in_roots : Bool

abbrev pub codes : String → List ℕ
codes String.[] = []
codes (String.◌∷◌ c s) = code c ∷ codes s

-- The number that the digits continue.
abbrev pub digits : ℕ → List ℕ → Option ℕ
digits n [] = some n
digits n (c ∷ cs) = if leb 48 c && leb c 57 then digits (n * 10 + (c - 48)) cs else none

abbrev pub unsigned : List ℕ → Option ℕ
unsigned [] = none
unsigned (c ∷ cs) = digits 0 (c ∷ cs)

abbrev pub strip_plus : List ℕ → List ℕ
strip_plus [] = []
strip_plus (c ∷ cs) = if leb 43 c && leb c 43 then cs else c ∷ cs

-- `u32::from_str` and the like, for a width.
unfoldable pub from_str : ℕ → String → Option ℕ
from_str width s = elim (unsigned (strip_plus (codes s))) [
  | none ↦ none
  | some n ↦ if ltb n (2 ^ width) then some n else none
]

unfoldable pub bool_from_str : String → Option Bool
bool_from_str s = if s == "true" then some true else if s == "false" then some false else none

unfoldable pub clamp : ℕ → ℕ → ℕ → ℕ
clamp lo hi n = if ltb n lo then lo else if ltb hi n then hi else n

-- The value set if it was parsed, and the error otherwise.
unfoldable pub set : {A : Type 0} → String → String → Option A → (A → Loop) → Result UrlError Loop
set param value none f = err (invalid_param_value param value)
set param value (some a) f = ok (f a)

unfoldable pub with_opts : Loop → MysqlOpts → Loop
with_opts l o = record l { opts = o }

unfoldable pub with_pool_opts : Loop → PoolOpts → Loop
with_pool_opts l o = record l { opts = record (l.opts) { pool_opts = o } }

-- The compression by its name or level.
unfoldable pub compression_of : String → Option Compression
compression_of value =
    if value == "fast"
    then some fast
    else if (value == "on") || (value == "true")
    then some default
    else if value == "best"
    then some best
    else one_digit (codes value)
  where
    one_digit : List ℕ → Option Compression
    one_digit (c ∷ []) = if leb 48 c && leb c 57 then some (level (c - 48)) else none
    one_digit _ = none

-- The last arms: TLS, or no known parameter.
unfoldable pub set_ssl_param : String → String → Loop → Result UrlError Loop
set_ssl_param key value l =
    if key == "require_ssl"
    then set "require_ssl" value (bool_from_str value) (λ x. record l {
      ssl_opts =
          if x
          then some (record {
            accept_invalid_certs = false;
            skip_domain_validation = false;
            disable_built_in_roots = false;
          })
          else none;
    })
    else if key == "verify_ca"
    then set "verify_ca" value (bool_from_str value)
        (λ x. record l { accept_invalid_certs = not x })
    else if key == "verify_identity"
    then set "verify_identity" value (bool_from_str value)
        (λ x. record l { skip_domain_validation = not x })
    else if key == "built_in_roots"
    then set "built_in_roots" value (bool_from_str value)
        (λ x. record l { disable_built_in_roots = not x })
    else err (unknown_parameter key)

-- The arms about a connection. `wait_timeout` is that of a platform other than Windows.
unfoldable pub set_conn_param : String → String → Loop → Result UrlError Loop
set_conn_param key value l =
    if key == "tcp_keepalive"
    then set "tcp_keepalive_ms" value (from_str 32 value)
        (λ n. with_opts l (record (l.opts) { tcp_keepalive = some n }))
    else if key == "max_allowed_packet"
    then set "max_allowed_packet" value (from_str 64 value)
        (λ n. with_opts l (record (l.opts) { max_allowed_packet = some (clamp 1024 1073741824 n) }))
    else if key == "wait_timeout"
    then set "wait_timeout" value (from_str 64 value)
        (λ n. with_opts l (record (l.opts) { wait_timeout = some (clamp 0 31536000 n) }))
    else if key == "enable_cleartext_plugin"
    then set key value (bool_from_str value)
        (λ b. with_opts l (record (l.opts) { enable_cleartext_plugin = b }))
    else if key == "reset_connection"
    then set key value (bool_from_str value)
        (λ b. with_pool_opts l (with_reset_connection b l.opts.pool_opts))
    else if key == "tcp_nodelay"
    then set "tcp_nodelay" value (bool_from_str value)
        (λ b. with_opts l (record (l.opts) { tcp_nodelay = b }))
    else if key == "stmt_cache_size"
    then set "stmt_cache_size" value (from_str 64 value)
        (λ n. with_opts l (record (l.opts) { stmt_cache_size = n }))
    else if key == "prefer_socket"
    then set "prefer_socket" value (bool_from_str value)
        (λ b. with_opts l (record (l.opts) { prefer_socket = b }))
    else if key == "secure_auth"
    then set "secure_auth" value (bool_from_str value)
        (λ b. with_opts l (record (l.opts) { secure_auth = b }))
    else if key == "client_found_rows"
    then set "client_found_rows" value (bool_from_str value)
        (λ b. with_opts l (record (l.opts) { client_found_rows = b }))
    else if key == "socket"
    then ok (with_opts l (record (l.opts) { socket = some value }))
    else if key == "compression"
    then set "compression" value (compression_of value)
        (λ c. with_opts l (record (l.opts) { compression = some c }))
    else set_ssl_param key value l

-- The body of the loop, from its first arms, which are about the pool.
unfoldable pub set_param : String → String → Loop → Result UrlError Loop
set_param key value l =
    if key == "pool_min"
    then set "pool_min" value (from_str 64 value) (λ n. record l { pool_min = n })
    else if key == "pool_max"
    then set "pool_max" value (from_str 64 value) (λ n. record l { pool_max = n })
    else if key == "inactive_connection_ttl"
    then set "inactive_connection_ttl" value (from_str 64 value)
        (λ n. with_pool_opts l (with_inactive_connection_ttl (from_secs n) l.opts.pool_opts))
    else if key == "ttl_check_interval"
    then set "ttl_check_interval" value (from_str 64 value)
        (λ n. with_pool_opts l (with_ttl_check_interval (from_secs n) l.opts.pool_opts))
    else if key == "conn_ttl"
    then set "conn_ttl" value (from_str 64 value)
        (λ n. with_opts l (record (l.opts) { conn_ttl = some (from_secs n) }))
    else if key == "abs_conn_ttl"
    then set "abs_conn_ttl" value (from_str 64 value)
        (λ n. with_pool_opts l (with_abs_conn_ttl (some (from_secs n)) l.opts.pool_opts))
    else if key == "abs_conn_ttl_jitter"
    then set "abs_conn_ttl_jitter" value (from_str 64 value)
        (λ n. with_pool_opts l (with_abs_conn_ttl_jitter (some (from_secs n)) l.opts.pool_opts))
    else set_conn_param key value l

unfoldable pub set_params : List (String × String) → Loop → Result UrlError Loop
set_params [] l = ok l
set_params ((key, value) ∷ pairs) l = elim (set_param key value l) [
  | ok l' ↦ set_params pairs l'
  | err e ↦ err e
]

with_flags : Loop → Option SslOpts → Option SslOpts
with_flags l none = none
with_flags l (some s) = some (record {
  accept_invalid_certs = l.accept_invalid_certs;
  skip_domain_validation = l.skip_domain_validation;
  disable_built_in_roots = l.disable_built_in_roots;
})

-- What follows the loop.
unfoldable pub conclude : Loop → Result UrlError MysqlOpts
unfolding with_flags
conclude l = elim (new l.pool_min l.pool_max) [
  | some c ↦ ok (record (l.opts) {
    pool_opts = with_constraints c l.opts.pool_opts;
    ssl_opts = with_flags l l.ssl_opts;
  })
  | none ↦ err (invalid_pool_constraints l.pool_min l.pool_max)
]

-- The options from those of the basic part and the pairs.
unfoldable pub mysqlopts_from_url : MysqlOpts → List (String × String) → Result UrlError MysqlOpts
mysqlopts_from_url opts pairs =
    elim (set_params pairs (record {
      opts = opts;
      pool_min = 10;
      pool_max = 100;
      ssl_opts = none;
      skip_domain_validation = false;
      accept_invalid_certs = false;
      disable_built_in_roots = false;
    })) [ ok l ↦ conclude l | err e ↦ err e ]

conclude-IsValid : (l : Loop) (o : MysqlOpts) → conclude l ≡ ok o → IsValid o.pool_opts.constraints
unfolding conclude with_constraints
conclude-IsValid l o h = elim (Option-cases (new l.pool_min l.pool_max)) [
  | inl none_made ↦ absurd (ground (arith, none_made))
  | inr (c, made) ↦
      let valid = ((new_iff l.pool_min l.pool_max c).0 made).2 in
      ground (arith, made, valid.ordered, valid.positive)
]

-- Whatever the query of a URL sets, options that are accepted have pool constraints with `min ≤
-- max` and `0 < max`.
pub mysqlopts_from_url-IsValid :
    (opts : MysqlOpts) (pairs : List (String × String)) (o : MysqlOpts)
    → mysqlopts_from_url opts pairs ≡ ok o
    → IsValid o.pool_opts.constraints
unfolding mysqlopts_from_url
mysqlopts_from_url-IsValid opts pairs o h = go (set_params pairs _) h
  where
    go :
        (r : Result UrlError Loop)
        → elim r as (λ _. Result UrlError MysqlOpts) [ ok l ↦ conclude l | err e ↦ err e ] ≡ ok o
        → IsValid o.pool_opts.constraints
    go (ok l) e = conclude-IsValid l o e
    go (err x) e = cc
