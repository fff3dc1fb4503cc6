-- ===== src/Session/Settings.antt =====
-- src/conn/mod.rs: `Conn::read_settings`. The values of a row and their conversions are those of
-- mysql_common: `MySqlValues`.
pub mod Laws
use mysql_async.Session.Outcome.{Outcome, ok, panicked, ◌>>=◌, ◌>>◌, return}
use mysql_async.Session.Protocol.{MySqlCommon}
use mysql_async.Session.State.{Session, M}
use mysql_async.Session.Auth.{set_auth}
use mysql_async.Session.Commands.{query}
use mysql_async.Session.Connect.{unwrap_or}
use mysql_async.Prelude
use mysql_async.Prelude.{
  ℕ, zero, suc, ◌*◌, ◌≤◌, ◌<◌, ◌≡◌, refl, Bool, true, false, ◌&&◌, Option, none, some, List, [],
  ◌∷◌, ◌++◌, arith, if◌then◌else◌,
}

-- The values of a row, and `from_value`, which panics where a value is not of the type, and gives
-- nothing for a NULL.
pub record MySqlValues (R : Type 0) (V : Type 0) : Type 0 where
  pub null : V
  pub unwrap : R → List V
  pub usize_from_value : V → Option (Option ℕ)
  pub string_from_value : V → Option (Option (List ℕ))
  pub default_max_allowed_packet : ℕ

-- `DEFAULT_WAIT_TIMEOUT`, in seconds.
abbrev pub default_wait_timeout : ℕ
default_wait_timeout = 28800

-- `Duration::from_secs`, in nanoseconds.
abbrev pub from_secs : ℕ → ℕ
from_secs n = n * 1000000000

-- `Cfg`, `CfgData` and `Action`.
pub data Cfg : Type 0 where
  socket max_allowed_packet wait_timeout : Cfg

pub data CfgData : Type 0 where
  max_allowed_packet_is wait_timeout_is : ℕ → CfgData

pub data Action : Type 0 where
  load : Cfg → Action
  apply : CfgData → Action

-- `Cfg::name`: `@@socket`, `@@max_allowed_packet` and `@@wait_timeout`.
unfoldable pub name : Cfg → List ℕ
name socket = 64 ∷ 64 ∷ 115 ∷ 111 ∷ 99 ∷ 107 ∷ 101 ∷ 116 ∷ []
name max_allowed_packet =
    64 ∷ 64 ∷ 109 ∷ 97 ∷ 120 ∷ 95 ∷ 97 ∷ 108 ∷ 108 ∷ 111 ∷ 119 ∷ 101 ∷ 100 ∷ 95 ∷ 112 ∷ 97 ∷ 99
    ∷ 107 ∷ 101 ∷ 116 ∷ []
name wait_timeout =
    64 ∷ 64 ∷ 119 ∷ 97 ∷ 105 ∷ 116 ∷ 95 ∷ 116 ∷ 105 ∷ 109 ∷ 101 ∷ 111 ∷ 117 ∷ 116 ∷ []

unfoldable pub max_action : Option ℕ → Action
max_action (some x) = apply (max_allowed_packet_is x)
max_action none = load max_allowed_packet

unfoldable pub wait_action : Option ℕ → Action
wait_action (some x) = apply (wait_timeout_is x)
wait_action none = load wait_timeout

unfoldable pub is_none : Option (List ℕ) → Bool
is_none none = true
is_none (some x) = false

unfoldable pub socket_actions : Bool → List Action
socket_actions true = load socket ∷ []
socket_actions false = []

-- What there is to do.
unfoldable pub actions_for : Option ℕ → Option ℕ → Bool → List Action
actions_for max wait wants_socket = max_action max ∷ wait_action wait ∷ socket_actions wants_socket

unfoldable pub loads : List Action → List Cfg
loads [] = []
loads (load cfg ∷ actions) = cfg ∷ loads actions
loads (apply x ∷ actions) = loads actions

-- The text of the query after `SELECT`, where each name has a prefix.
unfoldable pub names_from : ℕ → List Cfg → List ℕ
names_from prefix [] = []
names_from prefix (cfg ∷ cfgs) = prefix ∷ name cfg ++ names_from 44 cfgs

unfoldable pub settings_query : List Cfg → List ℕ
settings_query cfgs = 83 ∷ 69 ∷ 76 ∷ 69 ∷ 67 ∷ 84 ∷ names_from 32 cfgs

-- `Vec::pop`.
unfoldable pub pop : {A : Type 0} → List A → Option A
pop [] = none
pop (x ∷ []) = some x
pop (x ∷ y ∷ xs) = pop (y ∷ xs)

module _ {R : Type 0} {V : Type 0} (values : MySqlValues R V) where
  -- `value.and_then(from_value)`.
  unfoldable pub usize_of : Option V → Option (Option ℕ)
  usize_of none = some none
  usize_of (some v) = values.usize_from_value v

  unfoldable pub string_of : Option V → Option (Option (List ℕ))
  string_of none = some none
  string_of (some v) = values.string_from_value v

  unfoldable pub nulls : List Cfg → List V
  nulls [] = []
  nulls (cfg ∷ cfgs) = values.null ∷ nulls cfgs

  unfoldable pub values_or_nulls : List Cfg → Option R → List V
  values_or_nulls cfgs (some row) = values.unwrap row
  values_or_nulls cfgs none = nulls cfgs

module _ {L : Type 0} where
  -- `from_value`, and what follows.
  unfoldable pub or_panic : {A : Type 0} → (A → M L (Unit {0})) → Option A → M L (Unit {0})
  or_panic f none s = (panicked, s)
  or_panic f (some a) s = f a s

  -- `stream.set_max_allowed_packet`, if there is a stream.
  unfoldable pub set_max_allowed_packet : ℕ → M L (Unit {0})
  set_max_allowed_packet n = set_auth (λ a. record a { max_allowed_packet = n })

  unfoldable pub with_stream : M L (Unit {0}) → M L (Unit {0})
  with_stream f s = if s.conn.stream then f s else (ok tt, s)

  unfoldable pub set_wait_timeout : ℕ → M L (Unit {0})
  set_wait_timeout n s = (ok tt, record s { conn = record (s.conn) { wait_timeout = from_secs n } })

  unfoldable pub set_socket : Option (List ℕ) → M L (Unit {0})
  set_socket path = set_auth (λ a. record a { socket = path })

  -- `CfgData::apply`.
  unfoldable pub apply_data : CfgData → M L (Unit {0})
  apply_data (max_allowed_packet_is n) = with_stream (set_max_allowed_packet n)
  apply_data (wait_timeout_is n) = set_wait_timeout n

  module _ {R : Type 0} {V : Type 0} (values : MySqlValues R V) where
    -- `Cfg::apply`.
    unfoldable pub apply_cfg : Cfg → Option V → M L (Unit {0})
    apply_cfg socket v = or_panic set_socket (string_of values v)
    apply_cfg max_allowed_packet v = with_stream (
        or_panic (λ n. set_max_allowed_packet (unwrap_or values.default_max_allowed_packet n))
          (usize_of values v))
    apply_cfg wait_timeout v =
        or_panic (λ n. set_wait_timeout (unwrap_or default_wait_timeout n)) (usize_of values v)

    -- The loop over the actions, with the values that were loaded.
    unfoldable pub apply_all : List Action → List V → M L (Unit {0})
    apply_all [] vs = return tt
    apply_all (apply x ∷ actions) vs = apply_data x >> apply_all actions vs
    apply_all (load cfg ∷ actions) [] = apply_cfg cfg none >> apply_all actions []
    apply_all (load cfg ∷ actions) (v ∷ vs) = apply_cfg cfg (some v) >> apply_all actions vs

    module _ (common : MySqlCommon R) where
      -- `Conn::query_internal`.
      unfoldable pub query_internal : List ℕ → M L (Option R)
      query_internal text = query common text >>= (λ rows. return (pop rows))

      unfoldable pub load_all : List Cfg → M L (List V)
      load_all [] = return []
      load_all (cfg ∷ cfgs) =
          query_internal (settings_query (cfg ∷ cfgs))
          >>= (λ row. return (values_or_nulls values (cfg ∷ cfgs) row))

      unfoldable pub run_actions : List Action → M L (Unit {0})
      run_actions actions = load_all (loads actions) >>= apply_all actions

      -- `Conn::read_settings`.
      unfoldable pub read_settings : M L (Unit {0})
      read_settings s =
          run_actions
            (actions_for s.auth.opts.max_allowed_packet s.auth.opts.wait_timeout
              (s.auth.opts.prefer_socket && is_none s.auth.socket))
            s
