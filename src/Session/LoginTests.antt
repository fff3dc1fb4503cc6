-- ===== src/Session/LoginTests.antt =====
-- src/conn/mod.rs: the theorems on the handshake and the authentication at concrete sessions. The
-- plugins of these tests answer with the nonce, and encrypt by writing the key behind the password.
use mysql_async.Conn.TxStatus.{TxStatus}
use mysql_async.Session.Login
use mysql_async.Session.Login.{
  get_capabilities, AuthPlugin, AuthSwitchRequest, HandshakePacket, MySqlAuth,
}
use mysql_async.Session.Outcome.{ok}
use mysql_async.Session.Protocol.{Packet}
use mysql_async.Session.State.{Session}
use mysql_async.Session.Auth.{scramble, continue_auth}
use mysql_async.Session.Auth.Discreet.{Discreet}
use mysql_async.Session.Auth.Safety.{continue_auth-Discreet}
use mysql_async.Session.Auth.Scramble.{IsPad, scramble-IsPad}
use mysql_async.Session.Connect.{unwrap_or, handle_handshake, log_in}
use mysql_async.Session.Connect.Greeting.{IsGreeted, IsQuiet, handle_handshake-IsGreeted}
use mysql_async.Session.Connect.Tls.{IsSealed, log_in-IsSealed}
use mysql_async.Session.ChangeUser.{ChangeUserOpts, update}
use mysql_async.Session.ChangeUser.Laws.{update_pooled}
use mysql_async.Session.Settings
use mysql_async.Session.Settings.{MySqlValues, Cfg, actions_for, loads, apply_all}
use mysql_async.Session.Settings.Laws.{settled, apply_all-actions_for}
use mysql_async.Session.Runs.{At, Runs, Keeping}
use mysql_async.Session.Samples.{common, session, flags, auth_opts, auth}
use mysql_async.Prelude
use mysql_async.Prelude.{
  ℕ, zero, suc, ◌≤◌, ◌<◌, ◌≡◌, refl, ◌⊎◌, Bool, true, false, Option, none, some, List, [], ◌∷◌,
  ◌++◌, map, arith,
}

abbrev greeting : HandshakePacket
greeting = record {
  scramble_1 = 1 ∷ 2 ∷ 3 ∷ [];
  scramble_2 = some (4 ∷ []);
  capabilities = flags true;
  maria_db_server_version = none;
  server_version = some (8, 0, 0);
  connection_id = 5;
  status_flags = 2;
  auth_plugin = some Login.caching_sha2_password;
}

abbrev switch_of : Packet → Option AuthSwitchRequest
switch_of [] = none
switch_of (b ∷ nonce) =
    some (record { auth_plugin = Login.mysql_native_password; plugin_data = nonce })

abbrev test_auth : MySqlAuth
test_auth = record {
  handshake_packet = λ _. some greeting;
  auth_switch_request = switch_of;
  old_auth_switch_request = λ _. some tt;
  gen_data = λ plugin pass nonce. some nonce;
  read_add_data = λ salt payload. some payload;
  encrypt = λ scrambled key. scrambled ++ key;
  default_max_allowed_packet = 4194304;
  from_utf8_lossy = λ _. "";
  build_tls_connector = true;
  make_secure = true;
}

-- The server asks for the full authentication, sends its key, and accepts the password.
abbrev full : Session (Unit {0})
full =
    session TxStatus.none (Prelude.Result.ok none) ((1 ∷ 4 ∷ []) ∷ (1 ∷ 9 ∷ []) ∷ (0 ∷ 0 ∷ []) ∷ [])

-- The server greets, and accepts the user.
abbrev opening : Bool → Session (Unit {0})
opening ssl =
    record (session TxStatus.none (Prelude.Result.ok none) ((10 ∷ []) ∷ (0 ∷ 0 ∷ []) ∷ [])) {
      auth = record auth { opts = auth_opts ssl };
    }

continue_auth-Discreet_example :
    Keeping
      (Discreet test_auth (auth_opts false) (false, false) [])
      (continue_auth test_auth common full)
continue_auth-Discreet_example = continue_auth-Discreet test_auth common full

log_in-IsSealed_example : Keeping IsSealed (log_in test_auth common (opening true))
log_in-IsSealed_example =
    log_in-IsSealed test_auth common (opening true) refl (unfold get_capabilities in refl)

handle_handshake-IsGreeted_example :
    Runs
      (λ _ t. At (IsGreeted (auth_opts true) []) t)
      (IsQuiet (auth_opts true) [])
      (handle_handshake test_auth common (opening true))
handle_handshake-IsGreeted_example = handle_handshake-IsGreeted test_auth common (opening true)

scramble-IsPad_example :
    (scrambled : List ℕ) × (scramble (112 ∷ 119 ∷ 0 ∷ []) (7 ∷ 200 ∷ []) ≡ some scrambled)
    × (scramble scrambled (7 ∷ 200 ∷ []) ≡ some (112 ∷ 119 ∷ 0 ∷ []))
    × IsPad (7 ∷ 200 ∷ []) 0 (112 ∷ 119 ∷ 0 ∷ []) scrambled
scramble-IsPad_example =
    scramble-IsPad (7 ∷ 200 ∷ []) (112 ∷ 119 ∷ 0 ∷ [])
      (omega arith, (omega arith, (omega arith, tt))) (omega arith, (omega arith, tt)) (omega arith)

abbrev other_user : ChangeUserOpts
other_user = record { user = some (some (97 ∷ [])); pass = none; db_name = none }

update_pooled_example :
    (((update other_user full).1.conn.pool ≡ false) × ((update other_user full).1.cancelled ≡ 1))
    ⊎ (((update other_user full).1.auth.opts ≡ full.auth.opts)
        × ((update other_user full).1.conn.pool ≡ true)
        × ((update other_user full).1.cancelled ≡ 0))
update_pooled_example = update_pooled other_user full

-- The values of a row are its bytes; a socket's path is one byte.
abbrev test_values : MySqlValues Packet ℕ
test_values = record {
  null = 0;
  unwrap = λ row. row;
  usize_from_value = λ v. some (some v);
  string_from_value = λ v. some (some (v ∷ []));
  default_max_allowed_packet = 4194304;
}

abbrev test_answer : Cfg → ℕ
test_answer Settings.socket = 47
test_answer Settings.max_allowed_packet = 1024
test_answer Settings.wait_timeout = 60

-- The options give the largest packet, and the server the rest.
apply_all-actions_for_example :
    apply_all test_values
      (actions_for (some 512) none true)
      (map test_answer (loads (actions_for (some 512) none true)))
      full
    ≡ (ok tt, settled 512 60 (some (47 ∷ [])) full)
unfolding unwrap_or
apply_all-actions_for_example =
    apply_all-actions_for test_values test_answer (some 1024) (some 60) (some (47 ∷ [])) refl refl
      refl (some 512) none true full refl
