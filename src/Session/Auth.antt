-- ===== src/Session/Auth.antt =====
-- src/conn/mod.rs: the authentication, which asks and answers until the server accepts the user. A
-- plugin may switch to another one, which goes on: `continue_auth` takes the depth of this recursion,
-- and two levels are enough, since the driver switches once.
pub mod Scramble
pub mod Discreet
pub mod Password
pub mod Safety
use mysql_async.Session.Login.{
  AuthPlugin, mysql_old_password, mysql_clear_password, caching_sha2_password,
  mysql_native_password, ed25519, mariadb_parsec, other_plugin, Auth, AuthSwitchRequest, MySqlAuth,
}
use mysql_async.Session.Outcome.{
  driver, unexpected_packet, mysql_old_password_disabled, cleartext_plugin_disabled,
  invalid_parsec_salt, unknown_auth_plugin, parse, required, ok, err, panicked, ◌>>=◌, ◌>>◌, return,
}
use mysql_async.Session.Protocol.{Packet, MySqlCommon, bytes}
use mysql_async.Session.State.{Session, M}
use mysql_async.Session.Packets.{read_packet, write_packet}
use mysql_async.Session.QueryResult.{out_of_fuel}
use mysql_async.Prelude.{
  ℕ, zero, suc, ◌+◌, ◌*◌, ◌/◌, ◌%◌, Bool, true, false, not, ◌&&◌, ◌||◌, Option, none, some, List,
  [], ◌∷◌, ◌++◌, ltb, ◌==◌, if◌then◌else◌, length,
}

-- Whether the packet's first byte is the given one.
unfoldable pub starts : ℕ → Packet → Bool
starts b [] = false
starts b (x ∷ xs) = x == b

-- `&packet[1..]` of a packet that is not empty.
unfoldable pub rest : Packet → Packet
rest [] = []
rest (x ∷ xs) = xs

unfoldable pub element : ℕ → List ℕ → Option ℕ
element i [] = none
element zero (x ∷ xs) = some x
element (suc i) (x ∷ xs) = element i xs

-- The exclusive or of numbers of so many bits.
unfoldable pub xor : ℕ → ℕ → ℕ → ℕ
xor zero a b = 0
xor (suc bits) a b = (a % 2 + b % 2) % 2 + 2 * xor bits (a / 2) (b / 2)

unfoldable pub cons_xor : ℕ → Option ℕ → Option (List ℕ) → Option (List ℕ)
cons_xor byte (some n) (some more) = some (xor 8 byte n ∷ more)
cons_xor byte _ _ = none

-- The password from its `i`-th byte on, each byte with one of the nonce. No byte is found in an empty
-- nonce, by whose length the source divides.
unfoldable pub scramble_from : ℕ → List ℕ → List ℕ → Option (List ℕ)
scramble_from i [] nonce = some []
scramble_from i (byte ∷ pass) nonce =
    cons_xor byte (element (i % length nonce) nonce) (scramble_from (suc i) pass nonce)

unfoldable pub scramble : List ℕ → List ℕ → Option (List ℕ)
scramble pass nonce = scramble_from 0 pass nonce

unfoldable pub is_old : AuthPlugin → Bool
is_old mysql_old_password = true
is_old _ = false

unfoldable pub salted : Option (List ℕ) → Option AuthPlugin
salted none = none
salted (some salt) = some (mariadb_parsec salt)

-- `opts.pass().unwrap_or_default()`.
unfoldable pub pass_or_default : Option (List ℕ) → List ℕ
pass_or_default none = []
pass_or_default (some pass) = pass

-- `AuthPlugin::read_add_data`, which is called of no plugin but that of parsec.
unfoldable pub read_add_data : MySqlAuth → AuthPlugin → Packet → Option AuthPlugin
read_add_data auth (mariadb_parsec salt) payload = salted (auth.read_add_data salt payload)
read_add_data auth _ payload = none

module _ {L : Type 0} where
  abbrev pub set_auth : (Auth → Auth) → M L (Unit {0})
  set_auth f s = (ok tt, record s { auth = f s.auth })

  unfoldable pub unexpected : Packet → M L (Unit {0})
  unexpected packet s = (err (driver (unexpected_packet packet)), s)

  -- `unwrap`, or an index that is out of range.
  unfoldable pub or_panic : {A : Type 0} → (A → M L (Unit {0})) → Option A → M L (Unit {0})
  or_panic f none s = (panicked, s)
  or_panic f (some a) s = f a s

  -- `self.write_struct` of what a plugin answers, or an empty packet.
  unfoldable pub write_plugin_data : Option (List ℕ) → M L (Unit {0})
  write_plugin_data none = write_packet (bytes [])
  write_plugin_data (some data_) = write_packet (bytes data_)

  -- `Conn::is_secure` and `is_socket`.
  unfoldable pub is_secure : Session L → Bool
  is_secure s = s.conn.stream && s.auth.is_secure

  unfoldable pub is_socket : Session L → Bool
  is_socket s = s.conn.stream && s.auth.is_socket

  -- `pass`, with the zero that ends it.
  unfoldable pub clear_password : Session L → List ℕ
  clear_password s = pass_or_default s.auth.opts.pass ++ 0 ∷ []

  unfoldable pub accept : Packet → M L (Unit {0})
  accept packet = if starts 0 packet then return tt else unexpected packet

  abbrev pub with_plugin : AuthPlugin → Session L → Session L
  with_plugin plugin s = record s { auth = record (s.auth) { auth_plugin = plugin } }

  -- An old request, as one for the plugin `mysql_old_password`.
  abbrev pub old_request : Session L → AuthSwitchRequest
  old_request s = record { auth_plugin = mysql_old_password; plugin_data = s.auth.nonce }

  -- The key of the server, if a packet holds one.
  unfoldable pub store_key : Packet → M L (Unit {0})
  store_key [] s = (panicked, s)
  store_key (x ∷ key) s = (ok tt, record s { auth = record (s.auth) { server_key = some key } })

  unfoldable pub refuse_old : AuthPlugin → M L (Unit {0})
  refuse_old plugin s =
      if is_old plugin && s.auth.opts.secure_auth
      then (err (driver mysql_old_password_disabled), s)
      else (ok tt, s)

  module _ {R : Type 0} (common : MySqlCommon R) where
    -- `Conn::drop_packet`.
    unfoldable pub drop_packet : M L (Unit {0})
    drop_packet = read_packet common >>= (λ _. return tt)

    unfoldable pub request_key : Option (List ℕ) → M L (Unit {0})
    request_key (some key) = return tt
    request_key none = write_packet (bytes (2 ∷ [])) >> (read_packet common >>= store_key)

  module _ (auth : MySqlAuth) where
    unfoldable pub gen_data : AuthPlugin → Session L → Option (List ℕ)
    gen_data plugin s = auth.gen_data plugin s.auth.opts.pass s.auth.nonce

    -- What a plugin that was switched to answers.
    unfoldable pub plugin_data : AuthPlugin → M L (Option (List ℕ))
    plugin_data mysql_old_password s =
        if s.auth.opts.secure_auth
        then (err (driver mysql_old_password_disabled), s)
        else (ok (gen_data mysql_old_password s), s)
    plugin_data mysql_clear_password s =
        if s.auth.opts.enable_cleartext_plugin
        then (ok (gen_data mysql_clear_password s), s)
        else (err (driver cleartext_plugin_disabled), s)
    plugin_data (mariadb_parsec salt) s = (ok none, s)
    plugin_data caching_sha2_password s = (ok (gen_data caching_sha2_password s), s)
    plugin_data mysql_native_password s = (ok (gen_data mysql_native_password s), s)
    plugin_data ed25519 s = (ok (gen_data ed25519 s), s)
    plugin_data (other_plugin name) s = (ok (gen_data (other_plugin name) s), s)

    unfoldable pub answer_with : AuthPlugin → M L (Unit {0})
    answer_with plugin s = (plugin_data plugin >>= write_plugin_data) (with_plugin plugin s)

    -- `Conn::perform_auth_switch`, where `continue_auth` goes on.
    unfoldable pub perform_auth_switch_after : M L (Unit {0}) → AuthSwitchRequest → M L (Unit {0})
    perform_auth_switch_after continue_auth request s =
        (if s.auth.auth_switched
            then (λ s. (panicked, s))
            else set_auth (λ a. record a { auth_switched = true; nonce = request.plugin_data })
              >> (refuse_old request.auth_plugin
                  >> (answer_with request.auth_plugin >> continue_auth)))
          s

    -- The key, the password scrambled with the nonce, and what is sent of the two.
    unfoldable pub write_encrypted : List ℕ → List ℕ → M L (Unit {0})
    write_encrypted key scrambled = write_packet (bytes (auth.encrypt scrambled key))

    unfoldable pub write_scrambled : M L (Unit {0})
    write_scrambled s =
        or_panic
          (λ scrambled s. or_panic (λ key. write_encrypted key scrambled) s.auth.server_key s)
          (scramble (clear_password s) s.auth.nonce) s

    unfoldable pub write_signature : M L (Unit {0})
    write_signature s =
        or_panic (λ data_. write_packet (bytes data_)) (gen_data s.auth.auth_plugin s) s

    module _ {R : Type 0} (common : MySqlCommon R) where
      -- The full authentication of `caching_sha2_password`.
      unfoldable pub full_auth : M L (Unit {0})
      full_auth s =
          (if is_secure s || is_socket s
              then write_packet (bytes (clear_password s))
              else request_key common s.auth.server_key >> write_scrambled)
            s

      -- The plugin answers with the salt that it took.
      unfoldable pub sign : AuthPlugin → M L (Unit {0})
      sign plugin s = (write_signature >> (read_packet common >>= accept)) (with_plugin plugin s)

      unfoldable pub answer_salt : Packet → M L (Unit {0})
      answer_salt payload s =
          (required (driver invalid_parsec_salt) (read_add_data auth s.auth.auth_plugin payload)
              >>= sign)
            s

      module _ (switch : AuthSwitchRequest → M L (Unit {0})) where
        -- What the driver does with an `AuthSwitchRequest`, if the packet is one.
        unfoldable pub switch_to : Packet → M L (Unit {0})
        switch_to packet = required parse (auth.auth_switch_request packet) >>= switch

        -- `Conn::continue_ed25519_auth`.
        unfoldable pub on_ed25519 : Packet → M L (Unit {0})
        on_ed25519 packet s =
            (if starts 0 packet
                then return tt
                else if starts 254 packet && not s.auth.auth_switched
                then switch_to packet
                else unexpected packet)
              s

        unfoldable pub continue_ed25519_auth : M L (Unit {0})
        continue_ed25519_auth = read_packet common >>= on_ed25519

        -- `Conn::continue_parsec_auth`.
        unfoldable pub on_payload : Packet → M L (Unit {0})
        on_payload payload = if starts 254 payload then switch_to payload else answer_salt payload

        unfoldable pub on_parsec : Packet → M L (Unit {0})
        on_parsec packet = on_payload (if starts 1 packet then rest packet else packet)

        unfoldable pub continue_parsec_auth : M L (Unit {0})
        continue_parsec_auth = read_packet common >>= on_parsec

        -- `Conn::continue_caching_sha2_password_auth`.
        unfoldable pub on_more_data : Packet → M L (Unit {0})
        on_more_data packet =
            if starts 3 (rest packet)
            then drop_packet common
            else if starts 4 (rest packet)
            then full_auth >> drop_packet common
            else unexpected packet

        unfoldable pub on_caching_sha2 : Packet → M L (Unit {0})
        on_caching_sha2 packet s =
            (if starts 0 packet
                then return tt
                else if starts 1 packet
                then on_more_data packet
                else if starts 254 packet && not s.auth.auth_switched
                then switch_to packet
                else unexpected packet)
              s

        unfoldable pub continue_caching_sha2_password_auth : M L (Unit {0})
        continue_caching_sha2_password_auth = read_packet common >>= on_caching_sha2

        -- `Conn::continue_mysql_native_password_auth`.
        unfoldable pub old_switch : M L (Unit {0})
        old_switch s = switch (old_request s) s

        unfoldable pub native_switch : Packet → M L (Unit {0})
        native_switch packet =
            if ltb 1 (length packet)
            then switch_to packet
            else required parse (auth.old_auth_switch_request packet) >> old_switch

        unfoldable pub on_native : Packet → M L (Unit {0})
        on_native packet s =
            (if starts 0 packet
                then return tt
                else if starts 254 packet && not s.auth.auth_switched
                then native_switch packet
                else unexpected packet)
              s

        unfoldable pub continue_mysql_native_password_auth : M L (Unit {0})
        continue_mysql_native_password_auth = read_packet common >>= on_native

        -- `Conn::continue_auth`, by the plugin.
        unfoldable pub continue_with : AuthPlugin → M L (Unit {0})
        continue_with mysql_native_password = continue_mysql_native_password_auth
        continue_with mysql_old_password = continue_mysql_native_password_auth
        continue_with caching_sha2_password = continue_caching_sha2_password_auth
        continue_with mysql_clear_password = λ s.
            (if s.auth.opts.enable_cleartext_plugin
                then continue_mysql_native_password_auth
                else (λ s. (err (driver cleartext_plugin_disabled), s)))
              s
        continue_with ed25519 = continue_ed25519_auth
        continue_with (mariadb_parsec salt) = continue_parsec_auth
        continue_with (other_plugin name) =
            λ s. (err (driver (unknown_auth_plugin (auth.from_utf8_lossy name))), s)

        unfoldable pub continue_auth_after : M L (Unit {0})
        continue_auth_after s = continue_with s.auth.auth_plugin s

      unfoldable pub continue_auth_at : ℕ → M L (Unit {0})
      continue_auth_at zero = out_of_fuel
      continue_auth_at (suc depth) =
          continue_auth_after (perform_auth_switch_after (continue_auth_at depth))

      unfoldable pub continue_auth : M L (Unit {0})
      continue_auth = continue_auth_at 2

      unfoldable pub perform_auth_switch : AuthSwitchRequest → M L (Unit {0})
      perform_auth_switch = perform_auth_switch_after continue_auth
