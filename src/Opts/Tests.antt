-- ===== src/Opts/Tests.antt =====
-- src/opts/mod.rs: the theorems on the options at concrete ones.
use Prim.Native.String.{String}
use mysql_async.Opts.PoolOpts.{PoolConstraints, PoolOpts, new, with_constraints, IsValid}
use mysql_async.Opts.Url.{
  MysqlOpts, mysqlopts_from_url, mysqlopts_from_url-IsValid, set_params, set_param, set, from_str,
  set_conn_param, conclude, with_opts, clamp,
}
use mysql_async.Prelude.{◌≡◌, true, false, none, some, List, [], ◌∷◌, refl, ok}

abbrev opts : PoolOpts
opts = record {
  constraints = record { min = 1; max = 3 };
  inactive_connection_ttl = 0;
  ttl_check_interval = 30;
  abs_conn_ttl = none;
  abs_conn_ttl_jitter = none;
  reset_connection = true;
}

abbrev constraints : PoolConstraints
constraints = record { min = 2; max = 7 }

abbrev from_basic : MysqlOpts
from_basic = record {
  tcp_keepalive = none;
  tcp_nodelay = true;
  pool_opts = opts;
  conn_ttl = none;
  stmt_cache_size = 32;
  ssl_opts = none;
  prefer_socket = true;
  socket = none;
  compression = none;
  max_allowed_packet = none;
  wait_timeout = none;
  secure_auth = true;
  client_found_rows = false;
  enable_cleartext_plugin = false;
}

-- The query `pool_min=2&pool_max=+7&wait_timeout=99999999`.
abbrev pairs : List (String × String)
pairs = ("pool_min", "2") ∷ ("pool_max", "+7") ∷ ("wait_timeout", "99999999") ∷ []

abbrev from_pairs : MysqlOpts
from_pairs = record from_basic {
  pool_opts = record opts { constraints = constraints };
  wait_timeout = some 31536000;
}

from_pairs_eq : mysqlopts_from_url from_basic pairs ≡ ok from_pairs
unfolding mysqlopts_from_url set_params set_param set from_str set_conn_param conclude new with_opts
    with_constraints clamp
from_pairs_eq = refl

mysqlopts_from_url_example : IsValid constraints
mysqlopts_from_url_example = mysqlopts_from_url-IsValid from_basic pairs from_pairs from_pairs_eq
