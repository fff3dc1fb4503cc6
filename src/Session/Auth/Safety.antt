-- ===== src/Session/Auth/Safety.antt =====
-- src/conn/mod.rs: the authentication sends nothing that it may not, and ends.
use mysql_async.Session.Login.{
  AuthPlugin, mysql_old_password, mysql_clear_password, caching_sha2_password,
  mysql_native_password, ed25519, mariadb_parsec, other_plugin, AuthOpts, AuthSwitchRequest,
  MySqlAuth,
}
use mysql_async.Session.Outcome.{
  driver, cleartext_plugin_disabled, invalid_parsec_salt, parse, required, err, panicked, ◌>>=◌,
  ◌>>◌, return,
}
use mysql_async.Session.Protocol.{Packet, MySqlCommon, Command, bytes}
use mysql_async.Session.State.{Session, M}
use mysql_async.Session.Packets.{read_packet, write_packet}
use mysql_async.Session.Auth.{
  rest, is_old, unexpected, or_panic, gen_data, answer_with, refuse_old, perform_auth_switch_after,
  drop_packet, full_auth, switch_to, on_ed25519, continue_ed25519_auth, accept, read_add_data,
  write_signature, answer_salt, on_payload, on_parsec, continue_parsec_auth, on_more_data,
  on_caching_sha2, continue_caching_sha2_password_auth, old_switch, old_request, native_switch,
  on_native, continue_mysql_native_password_auth, continue_with, continue_auth_after,
  continue_auth_at, continue_auth, starts, with_plugin, sign,
}
use mysql_async.Session.Auth.Discreet.{
  MaySend, Discreet, DiscreetAt, Discreet-same, is_admitted, answered-MaySend,
  read_add_data-is_admitted, weaken, write-Discreet, read-Discreet, drop-Discreet,
  answer_with-Discreet,
}
use mysql_async.Session.Auth.Password.{full_auth-Discreet}
use mysql_async.Session.Runs.{
  At, Post, Runs, Keeping, bind-Runs, Runs-of_if, Runs-of_if_step, required-Runs,
}
use mathlib.Core.List.{append-nil}
use mysql_async.Prelude.{
  ℕ, ◌≡◌, refl, sym, Bool, true, not, ◌&&◌, Option, none, some, List, [], arith, ltb, if◌then◌else◌,
  length,
}

module _ {L : Type 0} {R : Type 0} {auth : MySqlAuth} {opts : AuthOpts} {channel : Bool × Bool}
    {before : List Command} {w : Bool} (common : MySqlCommon R)
    (switch : AuthSwitchRequest → M L (Unit {0}))
    (switches : (request : AuthSwitchRequest) (t : Session L)
      → At (DiscreetAt auth opts channel w before) t
      → Keeping (Discreet auth opts channel before) (switch request t)) where
  switch_to-Discreet :
      (packet : Packet) (s : Session L)
      → At (DiscreetAt auth opts channel w before) s
      → Keeping (Discreet auth opts channel before) (switch_to auth common switch packet s)
  unfolding switch_to
  switch_to-Discreet packet s d =
      bind-Runs (required parse (auth.auth_switch_request packet)) switch s
        (weaken (required-Runs parse _ s d)) (λ request t d'. switches request t d')

  -- A packet that ends the authentication, asks to switch, or is refused.
  simple-Discreet :
      (packet : Packet) (go : M L (Unit {0})) (b : Bool) (s : Session L)
      → At (DiscreetAt auth opts channel w before) s
      → Keeping (Discreet auth opts channel before) (go s)
      → Keeping
          (Discreet auth opts channel before)
          ((if starts 0 packet then return tt else if b then go else unexpected packet) s)
  unfolding unexpected Post
  simple-Discreet packet go b s d g =
      Runs-of_if_step (starts 0 packet) _ _ s (λ _. record { post = d.discreet })
        (λ _. Runs-of_if_step b go _ s (λ _. g) (λ _. record { post = d.discreet }))

  ed25519-Discreet :
      (s : Session L)
      → At (DiscreetAt auth opts channel w before) s
      → Keeping (Discreet auth opts channel before) (continue_ed25519_auth auth common switch s)
  unfolding continue_ed25519_auth on_ed25519
  ed25519-Discreet s d =
      bind-Runs (read_packet common) (on_ed25519 auth common switch) s (read-Discreet common s d)
        (λ packet t d'.
          simple-Discreet packet (switch_to auth common switch packet)
            (starts 254 packet && not t.auth.auth_switched) t d' (switch_to-Discreet packet t d'))

  native_switch-Discreet :
      (packet : Packet) (s : Session L)
      → At (DiscreetAt auth opts channel w before) s
      → Keeping (Discreet auth opts channel before) (native_switch auth common switch packet s)
  unfolding native_switch old_switch
  native_switch-Discreet packet s d =
      Runs-of_if_step (ltb 1 (length packet)) (switch_to auth common switch packet) _ s
        (λ _. switch_to-Discreet packet s d)
        (λ _.
          bind-Runs (required parse (auth.old_auth_switch_request packet))
            (λ _. old_switch auth common switch) s (weaken (required-Runs parse _ s d))
            (λ _ u d'. switches (old_request u) u d'))

  native-Discreet :
      (s : Session L)
      → At (DiscreetAt auth opts channel w before) s
      → Keeping
          (Discreet auth opts channel before)
          (continue_mysql_native_password_auth auth common switch s)
  unfolding continue_mysql_native_password_auth on_native
  native-Discreet s d =
      bind-Runs (read_packet common) (on_native auth common switch) s (read-Discreet common s d)
        (λ packet t d'.
          simple-Discreet packet (native_switch auth common switch packet)
            (starts 254 packet && not t.auth.auth_switched) t d'
            (native_switch-Discreet packet t d'))

  sha2-Discreet :
      (s : Session L)
      → At (DiscreetAt auth opts channel w before) s
      → Keeping
          (Discreet auth opts channel before)
          (continue_caching_sha2_password_auth auth common switch s)
  unfolding continue_caching_sha2_password_auth on_caching_sha2 on_more_data unexpected Post
  sha2-Discreet s d =
      bind-Runs (read_packet common) (on_caching_sha2 auth common switch) s
        (read-Discreet common s d)
        (λ packet t d'.
          Runs-of_if_step (starts 0 packet) (return tt) _ t (λ _. record { post = d'.discreet })
            (λ _.
              Runs-of_if_step (starts 1 packet) (on_more_data auth common switch packet) _ t
                (λ _.
                  Runs-of_if_step (starts 3 (rest packet)) (drop_packet common) _ t
                    (λ _. drop-Discreet common t d')
                    (λ _.
                      Runs-of_if_step (starts 4 (rest packet))
                        (full_auth auth common >> drop_packet common) (unexpected packet) t
                        (λ _.
                          bind-Runs (full_auth auth common) (λ _. drop_packet common) t
                            (full_auth-Discreet common t d')
                            (λ _ u d''. drop-Discreet common u d''))
                        (λ _. record { post = d'.discreet })))
                (λ _.
                  Runs-of_if_step (starts 254 packet && not t.auth.auth_switched)
                    (switch_to auth common switch packet) (unexpected packet) t
                    (λ _. switch_to-Discreet packet t d') (λ _. record { post = d'.discreet }))))

  signed-Discreet :
      (o : Option (List ℕ)) (s : Session L)
      → At (DiscreetAt auth opts channel w before) s
      → ((answered : List ℕ) → o ≡ some answered → MaySend auth opts channel (bytes answered))
      → Runs
          (λ _ t. At (DiscreetAt auth opts channel w before) t)
          (Discreet auth opts channel before)
          (or_panic (λ data_. write_packet (bytes data_)) o s)
  unfolding or_panic Post
  signed-Discreet none s d m = record { post = d.discreet }
  signed-Discreet (some data_) s d m = write-Discreet (bytes data_) s d (m data_ refl)

  -- The signature of a plugin that took the salt, and what the server says to it.
  salted-Discreet :
      (o : Option AuthPlugin) (s : Session L)
      → At (DiscreetAt auth opts channel w before) s
      → ((plugin : AuthPlugin) → o ≡ some plugin → is_admitted opts plugin ≡ true)
      → Keeping
          (Discreet auth opts channel before)
          ((required (driver invalid_parsec_salt) o >>= sign auth common) s)
  unfolding sign write_signature accept unexpected Post
  salted-Discreet none s d m = record { post = d.discreet }
  salted-Discreet (some plugin) s d m =
      let t = with_plugin plugin s in
      let e : At (DiscreetAt auth opts channel w before) t = record {
        discreet = Discreet-same d.discreet refl refl;
        switch = d.switch;
      } in
      bind-Runs (write_signature auth) (λ _. read_packet common >>= accept) t
        (signed-Discreet (gen_data auth plugin t) t e (answered-MaySend plugin t e (m plugin refl)))
        (λ _ u f. bind-Runs (read_packet common) accept u (read-Discreet common u f) (λ packet v g.
          Runs-of_if_step (starts 0 packet) (return tt) (unexpected packet) v
            (λ _. record { post = g.discreet }) (λ _. record { post = g.discreet })))

  payload-Discreet :
      (payload : Packet) (s : Session L)
      → At (DiscreetAt auth opts channel w before) s
      → Keeping (Discreet auth opts channel before) (on_payload auth common switch payload s)
  unfolding on_payload answer_salt
  payload-Discreet payload s d =
      Runs-of_if_step (starts 254 payload) (switch_to auth common switch payload)
        (answer_salt auth common payload) s (λ _. switch_to-Discreet payload s d)
        (λ _.
          salted-Discreet (read_add_data auth s.auth.auth_plugin payload) s d
            (λ p e. read_add_data-is_admitted auth opts s.auth.auth_plugin p payload e))

  parsec-Discreet :
      (s : Session L)
      → At (DiscreetAt auth opts channel w before) s
      → Keeping (Discreet auth opts channel before) (continue_parsec_auth auth common switch s)
  unfolding continue_parsec_auth on_parsec
  parsec-Discreet s d =
      bind-Runs (read_packet common) (on_parsec auth common switch) s (read-Discreet common s d)
        (λ packet t e. payload-Discreet _ t e)

  continue_with-Discreet :
      (plugin : AuthPlugin) (s : Session L)
      → At (DiscreetAt auth opts channel w before) s
      → Keeping (Discreet auth opts channel before) (continue_with auth common switch plugin s)
  unfolding continue_with Post
  continue_with-Discreet mysql_old_password s d = native-Discreet s d
  continue_with-Discreet mysql_native_password s d = native-Discreet s d
  continue_with-Discreet mysql_clear_password s d =
      Runs-of_if_step s.auth.opts.enable_cleartext_plugin
        (continue_mysql_native_password_auth auth common switch)
        (λ s. (err (driver cleartext_plugin_disabled), s)) s (λ _. native-Discreet s d)
        (λ _. record { post = d.discreet })
  continue_with-Discreet caching_sha2_password s d = sha2-Discreet s d
  continue_with-Discreet ed25519 s d = ed25519-Discreet s d
  continue_with-Discreet (mariadb_parsec salt) s d = parsec-Discreet s d
  continue_with-Discreet (other_plugin name) s d = record { post = d.discreet }

module _ {L : Type 0} {R : Type 0} (auth : MySqlAuth) (common : MySqlCommon R) where
  -- A second switch panics before it sends anything, so one level is enough after the first.
  switched-Discreet :
      {opts : AuthOpts} {channel : Bool × Bool} {before : List Command} (s : Session L)
      → At (DiscreetAt auth opts channel true before) s
      → Keeping (Discreet auth opts channel before) (continue_auth_at auth common 1 s)
  unfolding continue_auth_at continue_auth_after perform_auth_switch_after Post
  switched-Discreet s d =
      continue_with-Discreet common _
        (λ request t e.
          Runs-of_if_step t.auth.auth_switched (λ s. (panicked, s)) _ t
            (λ _. record { post = e.discreet }) (λ f. absurd (ground (arith, e.switch, f))))
        s.auth.auth_plugin s d

  refuse_old-Discreet :
      {opts : AuthOpts} {channel : Bool × Bool} {w : Bool} {before : List Command}
      (plugin : AuthPlugin) (s : Session L)
      → At (DiscreetAt auth opts channel w before) s
      → Runs
          (λ _ t. At (DiscreetAt auth opts channel w before) t)
          (Discreet auth opts channel before)
          (refuse_old plugin s)
  unfolding refuse_old Post
  refuse_old-Discreet plugin s d =
      Runs-of_if (is_old plugin && s.auth.opts.secure_auth) _ _ (λ _. record { post = d.discreet })
        (λ _. record { post = d })

  set_nonce-DiscreetAt :
      {opts : AuthOpts} {channel : Bool × Bool} {w : Bool} {before : List Command} (nonce : List ℕ)
      (s : Session L)
      → At (DiscreetAt auth opts channel w before) s
      → At
          (DiscreetAt auth opts channel true before)
          (record s { auth = record (s.auth) { auth_switched = true; nonce = nonce } })
  set_nonce-DiscreetAt nonce s d = record {
    discreet = Discreet-same d.discreet refl refl;
    switch = refl;
  }

  switch-Discreet :
      {opts : AuthOpts} {channel : Bool × Bool} {w : Bool} {before : List Command}
      (request : AuthSwitchRequest) (s : Session L)
      → At (DiscreetAt auth opts channel w before) s
      → Keeping
          (Discreet auth opts channel before)
          (perform_auth_switch_after auth (continue_auth_at auth common 1) request s)
  unfolding perform_auth_switch_after Post
  switch-Discreet request s d =
      Runs-of_if_step s.auth.auth_switched (λ s. (panicked, s)) _ s
        (λ _. record { post = d.discreet })
        (λ _.
          bind-Runs (refuse_old request.auth_plugin)
            (λ _. answer_with auth request.auth_plugin >> continue_auth_at auth common 1) _
            (refuse_old-Discreet request.auth_plugin _
              (set_nonce-DiscreetAt request.plugin_data s d))
            (λ _ t e.
              bind-Runs (answer_with auth request.auth_plugin) (λ _. continue_auth_at auth common 1)
                t (answer_with-Discreet request.auth_plugin t e) (λ _ u f. switched-Discreet u f)))

  pub continue_auth-DiscreetAt :
      {opts : AuthOpts} {channel : Bool × Bool} {w : Bool} {before : List Command} (s : Session L)
      → At (DiscreetAt auth opts channel w before) s
      → Keeping (Discreet auth opts channel before) (continue_auth auth common s)
  unfolding continue_auth continue_auth_at continue_auth_after
  continue_auth-DiscreetAt s d =
      continue_with-Discreet common _ (λ request t e. switch-Discreet request t e)
        s.auth.auth_plugin s d

  -- From any session and whatever the server sends, `continue_auth` ends, and whether by a value,
  -- an error or a panic, every packet that it sent is one of these: what a plugin that the options
  -- admit generates from the password and a nonce, an empty packet, the request for the key, the
  -- scrambled password encrypted, or, only over TLS or a socket, the password itself; and the
  -- options and the channel are as before. The old password plugin is admitted only without
  -- `secure_auth`, and that for the clear password only with `enable_cleartext_plugin`.
  pub continue_auth-Discreet :
      (s : Session L)
      → Keeping
          (Discreet auth s.auth.opts (s.auth.is_secure, s.auth.is_socket) s.sent)
          (continue_auth auth common s)
  continue_auth-Discreet s = continue_auth-DiscreetAt s (record {
    discreet = record {
      packets = [];
      sent = sym (append-nil s.sent);
      allowed = tt;
      same_opts = refl;
      same_channel = refl;
    };
    switch = refl;
  })
