-- ===== src/Session/Outcome.antt =====
-- src/error/mod.rs: `Error`, and the results of the driver's asynchronous functions. A function runs
-- on the state `S` of its connection. `panicked` is a failed assertion or `unreachable!`, and `stuck`
-- no value of the source: the fuel of a loop ran out.
use Prim.Native.String.{String}
use mysql_async.Conn.State.{ServerError}
use mysql_async.Prelude
use mysql_async.Prelude.{
  ℕ, zero, suc, ◌≤◌, ◌<◌, ◌≡◌, refl, Bool, true, false, Option, none, some, List, [], ◌∷◌, arith,
}

-- `DriverError`. Values, rows and packets are named, not held.
pub data DriverError : Type 0 where
  cant_parse_server_version : String → DriverError
  connection_closed from_value from_row : DriverError
  missing_named_param : List ℕ → DriverError
  mixed_params named_params_for_positional_query nested_transaction packet_out_of_order :
      DriverError
  pool_disconnected read_only_trans_not_supported : DriverError
  stmt_params_mismatch : ℕ → ℕ → DriverError
  stmt_params_number_exceeds_limit : ℕ → DriverError
  unexpected_packet : List ℕ → DriverError
  unknown_auth_plugin : String → DriverError
  packet_too_large bad_compressed_packet_header named_pipes_disabled : DriverError
  mysql_old_password_disabled no_key_found no_client_ssl_flag_from_server : DriverError
  cleartext_plugin_disabled invalid_parsec_salt : DriverError

-- The errors of a local infile, which are driver errors, stand apart in `Error`.
pub data LocalInfileError : Type 0 where
  no_handler read_failed : LocalInfileError

-- `parse` is the I/O error that a packet does not parse. No URL is read here.
pub data Error : Type 0 where
  driver : DriverError → Error
  io : Error
  parse : Error
  local_infile : LocalInfileError → Error
  other : String → Error
  server : ServerError → Error

-- `Error::is_fatal`.
unfoldable pub is_fatal : Error → Bool
is_fatal (server e) = false
is_fatal _ = true

pub data Outcome {ℓ} (A : Type ℓ) : Type ℓ where
  ok : A → Outcome A
  err : Error → Outcome A
  panicked stuck : Outcome A

module _ {ℓ κ} {S : Type 0} {A : Type ℓ} {B : Type κ} where
  -- What follows a step, by the step's outcome.
  abbrev pub continue : (A → S → Outcome B × S) → Outcome A × S → Outcome B × S
  continue f (ok a, s) = f a s
  continue f (err e, s) = (err e, s)
  continue f (panicked, s) = (panicked, s)
  continue f (stuck, s) = (stuck, s)

  infixl 5 ◌>>=◌
  abbrev pub ◌>>=◌ : (S → Outcome A × S) → (A → S → Outcome B × S) → S → Outcome B × S
  ◌>>=◌ m f s = continue f (m s)

infixl 5 ◌>>◌
abbrev pub ◌>>◌ {κ} :
    {S : Type 0} {B : Type κ}
    → (S → Outcome (Unit {0}) × S)
    → (S → Outcome B × S)
    → S
    → Outcome B × S
m >> k = m >>= λ _. k

abbrev pub return {ℓ} : {S : Type 0} {A : Type ℓ} → A → S → Outcome A × S
return a s = (ok a, s)

abbrev pub throw {ℓ} : {S : Type 0} {A : Type ℓ} → Error → S → Outcome A × S
throw e s = (err e, s)

-- A value that may be an error.
abbrev pub lift {ℓ} : {S : Type 0} {A : Type ℓ} → Prelude.Result Error A → S → Outcome A × S
lift (Prelude.Result.ok a) s = (ok a, s)
lift (Prelude.Result.err e) s = (err e, s)

-- `ok_or`.
abbrev pub required {ℓ} : {S : Type 0} {A : Type ℓ} → Error → Option A → S → Outcome A × S
required e (some a) s = (ok a, s)
required e none s = (err e, s)
