-- ===== src/Session/Login.antt =====
-- src/conn/mod.rs and src/opts/mod.rs: what a connection holds for its handshake and its
-- authentication. The plugins, the capability flags and the packets are those of mysql_common.
use Prim.Native.String.{String}
use mysql_async.Prelude.{ℕ, Bool, true, ◌&&◌, Option, none, some, List, if◌then◌else◌}

-- `CapabilityFlags`, the flags that the options can hold.
pub record Capabilities : Type 0 where
  pub client_protocol_41 : Bool
  pub client_secure_connection : Bool
  pub client_long_password : Bool
  pub client_transactions : Bool
  pub client_local_files : Bool
  pub client_multi_statements : Bool
  pub client_multi_results : Bool
  pub client_ps_multi_results : Bool
  pub client_deprecate_eof : Bool
  pub client_plugin_auth : Bool
  pub client_connect_with_db : Bool
  pub client_ssl : Bool
  pub client_compress : Bool
  pub client_found_rows : Bool

-- The flags that both sides have.
unfoldable pub common_flags : Capabilities → Capabilities → Capabilities
common_flags a b = record {
  client_protocol_41 = a.client_protocol_41 && b.client_protocol_41;
  client_secure_connection = a.client_secure_connection && b.client_secure_connection;
  client_long_password = a.client_long_password && b.client_long_password;
  client_transactions = a.client_transactions && b.client_transactions;
  client_local_files = a.client_local_files && b.client_local_files;
  client_multi_statements = a.client_multi_statements && b.client_multi_statements;
  client_multi_results = a.client_multi_results && b.client_multi_results;
  client_ps_multi_results = a.client_ps_multi_results && b.client_ps_multi_results;
  client_deprecate_eof = a.client_deprecate_eof && b.client_deprecate_eof;
  client_plugin_auth = a.client_plugin_auth && b.client_plugin_auth;
  client_connect_with_db = a.client_connect_with_db && b.client_connect_with_db;
  client_ssl = a.client_ssl && b.client_ssl;
  client_compress = a.client_compress && b.client_compress;
  client_found_rows = a.client_found_rows && b.client_found_rows;
}

-- `AuthPlugin`. That of parsec holds the salt that the server sent.
pub data AuthPlugin : Type 0 where
  mysql_old_password mysql_clear_password caching_sha2_password mysql_native_password ed25519 :
      AuthPlugin
  mariadb_parsec other_plugin : List ℕ → AuthPlugin

-- The options that the handshake, the authentication and the settings read. `ssl_opts` says whether
-- they are there.
pub record AuthOpts : Type 0 where
  pub user : Option (List ℕ)
  pub pass : Option (List ℕ)
  pub db_name : Option (List ℕ)
  pub secure_auth : Bool
  pub enable_cleartext_plugin : Bool
  pub ssl_opts : Bool
  pub client_found_rows : Bool
  pub capabilities : Capabilities
  pub compression : Option ℕ
  pub max_allowed_packet : Option ℕ
  pub wait_timeout : Option ℕ
  pub prefer_socket : Bool
  pub init : List (List ℕ)
  pub connect_attributes : Option (List (List ℕ × List ℕ))

-- `Opts::get_capabilities`.
unfoldable pub with_db_name : Option (List ℕ) → Capabilities → Capabilities
with_db_name none out = out
with_db_name (some _) out = record out { client_connect_with_db = true }

unfoldable pub with_compression : Option ℕ → Capabilities → Capabilities
with_compression none out = out
with_compression (some _) out = record out { client_compress = true }

unfoldable pub get_capabilities : AuthOpts → Capabilities
unfolding with_db_name with_compression
get_capabilities opts =
    let out = with_db_name opts.db_name opts.capabilities in
    let out = if opts.ssl_opts then record out { client_ssl = true } else out in
    let out = with_compression opts.compression out in
    if opts.client_found_rows then record out { client_found_rows = true } else out

-- The fields of `ConnInner`, with those of its stream: whether it goes through TLS, through a socket,
-- or is compressed, and the largest packet. `socket` is the path of the server's socket.
pub record Auth : Type 0 where
  pub nonce : List ℕ
  pub auth_plugin : AuthPlugin
  pub auth_switched : Bool
  pub server_key : Option (List ℕ)
  pub capabilities : Capabilities
  pub opts : AuthOpts
  pub is_secure : Bool
  pub is_socket : Bool
  pub compression : Option ℕ
  pub max_allowed_packet : ℕ
  pub socket : Option (List ℕ)

-- `AuthSwitchRequest`, `HandshakePacket`, `SslRequest`, `HandshakeResponse` and `ComChangeUser`.
pub record AuthSwitchRequest : Type 0 where
  pub auth_plugin : AuthPlugin
  pub plugin_data : List ℕ

pub record HandshakePacket : Type 0 where
  pub scramble_1 : List ℕ
  pub scramble_2 : Option (List ℕ)
  pub capabilities : Capabilities
  pub maria_db_server_version : Option (ℕ × ℕ × ℕ)
  pub server_version : Option (ℕ × ℕ × ℕ)
  pub connection_id : ℕ
  pub status_flags : ℕ
  pub auth_plugin : Option AuthPlugin

pub data Collation : Type 0 where
  utf8mb4_general_ci utf8_general_ci : Collation

pub record SslRequest : Type 0 where
  pub capabilities : Capabilities
  pub max_packet_size : ℕ
  pub collation : Collation

pub record HandshakeResponse : Type 0 where
  pub auth_data : Option (List ℕ)
  pub server_version : ℕ × ℕ × ℕ
  pub user : Option (List ℕ)
  pub db_name : Option (List ℕ)
  pub auth_plugin : AuthPlugin
  pub capabilities : Capabilities
  pub connect_attributes : Option (List (List ℕ × List ℕ))
  pub max_packet_size : ℕ

pub record ComChangeUser : Type 0 where
  pub user : Option (List ℕ)
  pub database : Option (List ℕ)
  pub auth_plugin_data : Option (List ℕ)
  pub collation : Collation
  pub auth_plugin : AuthPlugin
  pub connect_attributes : Option (List (List ℕ × List ℕ))

-- What mysql_common computes and parses, and its `DEFAULT_MAX_ALLOWED_PACKET`. The salt of a parsec plugin is read by `read_add_data`.
-- `build_tls_connector` and `make_secure` say whether the functions of that name succeed.
pub record MySqlAuth : Type 0 where
  pub handshake_packet : List ℕ → Option HandshakePacket
  pub auth_switch_request : List ℕ → Option AuthSwitchRequest
  pub old_auth_switch_request : List ℕ → Option (Unit {0})
  pub gen_data : AuthPlugin → Option (List ℕ) → List ℕ → Option (List ℕ)
  pub read_add_data : List ℕ → List ℕ → Option (List ℕ)
  pub encrypt : List ℕ → List ℕ → List ℕ
  pub default_max_allowed_packet : ℕ
  pub from_utf8_lossy : List ℕ → String
  pub build_tls_connector : Bool
  pub make_secure : Bool
