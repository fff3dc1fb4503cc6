-- ===== src/Session/Connect.antt =====
-- src/conn/mod.rs: how `Conn::new` opens a connection over its stream, from the handshake to the setup
-- queries, and src/conn/routines/change_user.rs.
pub mod Greeting
pub mod Tls
use mysql_async.Session.Login.{
  common_flags, AuthPlugin, caching_sha2_password, mysql_native_password, get_capabilities,
  HandshakePacket, SslRequest, HandshakeResponse, Collation, utf8mb4_general_ci, utf8_general_ci,
  MySqlAuth,
}
use mysql_async.Session.Outcome.{
  driver, connection_closed, no_client_ssl_flag_from_server, io, parse, required, ok, err, ◌>>=◌,
  ◌>>◌, return,
}
use mysql_async.Session.Protocol.{
  MySqlCommon, ssl_request, start_tls, handshake_response, com_change_user,
}
use mysql_async.Session.State.{Session, M}
use mysql_async.Session.Packets.{read_packet, write_packet, routine}
use mysql_async.Session.Commands.{write_command}
use mysql_async.Session.Transaction.{version_ltb}
use mysql_async.Session.Reset.{run_popped}
use mysql_async.Session.Auth.{set_auth, gen_data, continue_auth}
use mysql_async.Prelude.{
  ◌%◌, ◌^◌, ℕ, zero, suc, Bool, true, false, ◌&&◌, Option, none, some, List, [], ◌∷◌, ◌++◌,
  if◌then◌else◌,
}

-- `Vec::resize` with zeros.
unfoldable pub resize : ℕ → List ℕ → List ℕ
resize zero xs = []
resize (suc n) [] = 0 ∷ resize n []
resize (suc n) (x ∷ xs) = x ∷ resize n xs

unfoldable pub scramble_2_ref : HandshakePacket → List ℕ
scramble_2_ref handshake = scramble_or handshake.scramble_2
  where
    scramble_or : Option (List ℕ) → List ℕ
    scramble_or none = []
    scramble_or (some scramble) = scramble

unfoldable pub nonce_of : HandshakePacket → List ℕ
nonce_of handshake = resize 20 (handshake.scramble_1 ++ scramble_2_ref handshake)

-- The plugins that are allowed here.
unfoldable pub allowed_plugin : Option AuthPlugin → AuthPlugin
allowed_plugin (some caching_sha2_password) = caching_sha2_password
allowed_plugin _ = mysql_native_password

-- The version, and whether the server is a MariaDB.
unfoldable pub version_of : Option (ℕ × ℕ × ℕ) → Option (ℕ × ℕ × ℕ) → Bool → (ℕ × ℕ × ℕ) × Bool
version_of (some version) _ is_mariadb = (version, true)
version_of none (some version) is_mariadb = (version, is_mariadb)
version_of none none is_mariadb = ((0, 0, 0), is_mariadb)

unfoldable pub collation_of : ℕ × ℕ × ℕ → Collation
collation_of version = if version_ltb version (5, 5, 3) then utf8_general_ci else utf8mb4_general_ci

unfoldable pub unwrap_or : ℕ → Option ℕ → ℕ
unwrap_or n none = n
unwrap_or n (some m) = m

module _ {L : Type 0} where
  -- What the driver keeps of the handshake.
  unfoldable pub greet : HandshakePacket → M L (Unit {0})
  greet handshake s =
      let capabilities = common_flags handshake.capabilities (get_capabilities s.auth.opts) in
      let (version, is_mariadb) =
        version_of handshake.maria_db_server_version handshake.server_version s.is_mariadb in
      (
        ok tt,
        record s {
          version = version;
          is_mariadb = is_mariadb;
          deprecate_eof = capabilities.client_deprecate_eof;
          conn = record (s.conn) { id = handshake.connection_id; status = handshake.status_flags };
          auth = record (s.auth) {
            nonce = nonce_of handshake;
            capabilities = capabilities;
            auth_plugin = allowed_plugin handshake.auth_plugin;
          };
        },
      )

  unfoldable pub set_handshake_complete : M L (Unit {0})
  set_handshake_complete s = (ok tt, record s { handshake_complete = true })

  -- The stream goes through TLS from here on. The handshake of TLS is the first to go through.
  unfoldable pub secured : M L (Unit {0})
  secured = set_auth (λ a. record a { is_secure = true })

  unfoldable pub compress : Option ℕ → M L (Unit {0})
  compress none = return tt
  compress (some level) = set_auth (λ a. record a { compression = some level })

  -- `Conn::switch_to_compression`.
  unfoldable pub switch_to_compression : M L (Unit {0})
  switch_to_compression s =
      (if s.auth.capabilities.client_compress && s.conn.stream
          then compress s.auth.opts.compression
          else return tt)
        s

  module _ (auth : MySqlAuth) where
    -- `Stream::make_secure`, if there is a stream.
    unfoldable pub make_secure : M L (Unit {0})
    make_secure s =
        if s.conn.stream
        then (write_packet start_tls >> (if auth.make_secure then secured else (λ s. (err io, s))))
            s
        else (err (driver connection_closed), s)

    abbrev pub ssl_request_of : Session L → SslRequest
    ssl_request_of s = record {
      capabilities = s.auth.capabilities;
      max_packet_size = auth.default_max_allowed_packet % 2 ^ 32;
      collation = collation_of s.version;
    }

    unfoldable pub request_ssl : M L (Unit {0})
    request_ssl s = write_packet (ssl_request (ssl_request_of s)) s

    -- `Conn::switch_to_ssl_if_needed`.
    unfoldable pub switch_to_ssl_if_needed : M L (Unit {0})
    switch_to_ssl_if_needed s =
        (if (get_capabilities s.auth.opts).client_ssl
            then (if s.auth.capabilities.client_ssl
                then request_ssl
                  >> (if auth.build_tls_connector then make_secure else (λ s. (err io, s)))
                else (λ s. (err (driver no_client_ssl_flag_from_server), s)))
            else return tt)
          s

    abbrev pub response_of : Session L → HandshakeResponse
    response_of s = record {
      auth_data = gen_data auth s.auth.auth_plugin s;
      server_version = s.version;
      user = s.auth.opts.user;
      db_name = s.auth.opts.db_name;
      auth_plugin = s.auth.auth_plugin;
      capabilities = s.auth.capabilities;
      connect_attributes = s.auth.opts.connect_attributes;
      max_packet_size =
          unwrap_or auth.default_max_allowed_packet s.auth.opts.max_allowed_packet % 2 ^ 32;
    }

    unfoldable pub respond : M L (Unit {0})
    respond s = write_packet (handshake_response (response_of s)) s

    -- `Conn::do_handshake_response`.
    unfoldable pub do_handshake_response : M L (Unit {0})
    do_handshake_response = respond >> set_handshake_complete

    module _ {R : Type 0} (common : MySqlCommon R) where
      -- `Conn::handle_handshake`.
      unfoldable pub handle_handshake : M L (Unit {0})
      handle_handshake =
          read_packet common >>= (λ packet. required parse (auth.handshake_packet packet) >>= greet)

      -- The part of `Conn::new` from the handshake on, up to the settings.
      unfoldable pub log_in : M L (Unit {0})
      log_in =
          handle_handshake
          >> (switch_to_ssl_if_needed
              >> (do_handshake_response >> (continue_auth auth common >> switch_to_compression)))

      -- `ChangeUser`, with the data for the plugin in use.
      unfoldable pub write_change_user : M L (Unit {0})
      write_change_user s =
          write_command common
            (com_change_user (record {
              user = s.auth.opts.user;
              database = s.auth.opts.db_name;
              auth_plugin_data = gen_data auth s.auth.auth_plugin s;
              collation = collation_of s.version;
              auth_plugin = s.auth.auth_plugin;
              connect_attributes = s.auth.opts.connect_attributes;
            }))
            s

      unfoldable pub change_user_routine : M L (Unit {0})
      change_user_routine = routine (
          write_change_user
          >> (set_auth (λ a. record a { auth_switched = false }) >> continue_auth auth common))

  module _ {R : Type 0} (common : MySqlCommon R) where
    -- `Conn::run_init_commands`.
    unfoldable pub run_init_commands : M L (Unit {0})
    run_init_commands s = run_popped common s.auth.opts.init s
