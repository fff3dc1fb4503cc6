-- ===== src/Session/Auth/Discreet.antt =====
-- src/conn/mod.rs: what the authentication may send, and the steps that send it.
use mysql_async.Session.Login.{
  AuthPlugin, mysql_old_password, mysql_clear_password, caching_sha2_password,
  mysql_native_password, ed25519, mariadb_parsec, other_plugin, AuthOpts, Auth, MySqlAuth,
}
use mysql_async.Session.Outcome.{Outcome}
use mysql_async.Session.Protocol.{Packet, MySqlCommon, Command, bytes}
use mysql_async.Session.State.{Session}
use mysql_async.Session.Packets.{read_packet, write_packet}
use mysql_async.Session.Auth.{
  scramble, pass_or_default, salted, write_plugin_data, clear_password, gen_data, plugin_data,
  answer_with, write_encrypted, drop_packet, read_add_data,
}
use mysql_async.Session.Runs.{
  At, Post, Runs, Keeping, bind-Runs, weaken-Runs, Runs-of_if, read_packet-Runs, write_packet-Runs,
}
use mathlib.Core.List.{append_assoc}
use mathlib.Core.Option.{some-injective}
use mysql_async.Prelude.{
  ℕ, ◌≡◌, refl, sym, ap, ◌∙◌, Bool, true, not, ◌||◌, Option, none, some, List, [], ◌∷◌, ◌++◌, All,
  All-append,
}

-- Whether the options let a plugin answer.
unfoldable pub is_admitted : AuthOpts → AuthPlugin → Bool
is_admitted opts mysql_old_password = not opts.secure_auth
is_admitted opts mysql_clear_password = opts.enable_cleartext_plugin
is_admitted opts _ = true

module _ (auth : MySqlAuth) (opts : AuthOpts) (channel : Bool × Bool) where
  -- The packets that the authentication may send: what an admitted plugin answers for some nonce, an
  -- empty packet, the request of the server's key, the encrypted password, and, over a channel that
  -- is sealed, the password itself.
  pub data MaySend : Command → Type 0 where
    answer :
        (plugin : AuthPlugin) (nonce answered : List ℕ)
        → is_admitted opts plugin ≡ true
        → auth.gen_data plugin opts.pass nonce ≡ some answered
        → MaySend (bytes answered)
    nothing : MaySend (bytes [])
    key_request : MaySend (bytes (2 ∷ []))
    encrypted :
        (nonce key scrambled : List ℕ)
        → scramble (pass_or_default opts.pass ++ 0 ∷ []) nonce ≡ some scrambled
        → MaySend (bytes (auth.encrypt scrambled key))
    clear : (channel.0 || channel.1) ≡ true → MaySend (bytes (pass_or_default opts.pass ++ 0 ∷ []))

  -- What a plugin answers may be sent.
  MayAnswer : Option (List ℕ) → Type 0
  MayAnswer o = (answered : List ℕ) → o ≡ some answered → MaySend (bytes answered)

  -- The packets sent since `before` may all be sent, and the options and the channel are the same.
  pub record Discreet (before cs : List Command) (a : Auth) : Type 0 where
    pub packets : List Command
    pub sent : cs ≡ before ++ packets
    pub allowed : All MaySend packets
    pub same_opts : a.opts ≡ opts
    pub same_channel : Path (Bool × Bool) (a.is_secure, a.is_socket) channel

  -- The same, with what is known of the switch.
  pub record DiscreetAt (switched : Bool) (before cs : List Command) (a : Auth) : Type 0 where
    pub discreet : Discreet before cs a
    pub switch : a.auth_switched ≡ switched

module _ (auth : MySqlAuth) (opts : AuthOpts) where
  pub read_add_data-is_admitted :
      (plugin salted_ : AuthPlugin) (payload : Packet)
      → read_add_data auth plugin payload ≡ some salted_
      → is_admitted opts salted_ ≡ true
  unfolding read_add_data is_admitted salted
  read_add_data-is_admitted (mariadb_parsec salt) salted_ payload e =
      go (auth.read_add_data salt payload) e
    where
      go : (o : Option (List ℕ)) → salted o ≡ some salted_ → is_admitted opts salted_ ≡ true
      go none e = cc
      go (some salt) e =
          ap (is_admitted opts) (sym (some-injective (mariadb_parsec salt) salted_ e))
  read_add_data-is_admitted mysql_old_password salted_ payload e = cc
  read_add_data-is_admitted mysql_clear_password salted_ payload e = cc
  read_add_data-is_admitted caching_sha2_password salted_ payload e = cc
  read_add_data-is_admitted mysql_native_password salted_ payload e = cc
  read_add_data-is_admitted ed25519 salted_ payload e = cc
  read_add_data-is_admitted (other_plugin name) salted_ payload e = cc

module _ {auth : MySqlAuth} {opts : AuthOpts} {channel : Bool × Bool} {before : List Command} where
  -- Other fields may change.
  pub Discreet-same :
      {cs : List Command} {a b : Auth}
      → Discreet auth opts channel before cs a
      → b.opts ≡ a.opts
      → Path (Bool × Bool) (b.is_secure, b.is_socket) (a.is_secure, a.is_socket)
      → Discreet auth opts channel before cs b
  Discreet-same d o c = record {
    packets = d.packets;
    sent = d.sent;
    allowed = d.allowed;
    same_opts = o ∙ d.same_opts;
    same_channel = c ∙ d.same_channel;
  }

module _ {L : Type 0} {auth : MySqlAuth} {opts : AuthOpts} {channel : Bool × Bool}
    {before : List Command} where
  pub weaken :
      {A : Type 0} {w : Bool} {r : Outcome A × Session L}
      → Keeping (DiscreetAt auth opts channel w before) r
      → Runs
          (λ _ t. At (DiscreetAt auth opts channel w before) t)
          (Discreet auth opts channel before)
          r
  weaken r = weaken-Runs r (λ _ _ d. d) (λ _ _ d. d.discreet)

  pub forget :
      {A : Type 0} {w : Bool} {r : Outcome A × Session L}
      → Runs
          (λ _ t. At (DiscreetAt auth opts channel w before) t)
          (Discreet auth opts channel before)
          r
      → Keeping (Discreet auth opts channel before) r
  forget r = weaken-Runs r (λ _ _ d. d.discreet) (λ _ _ d. d)

  module _ {w : Bool} where
    pub write-Discreet :
        (c : Command) (s : Session L)
        → At (DiscreetAt auth opts channel w before) s
        → MaySend auth opts channel c
        → Runs
            (λ _ t. At (DiscreetAt auth opts channel w before) t)
            (Discreet auth opts channel before)
            (write_packet c s)
    write-Discreet c s d m =
        write_packet-Runs (DiscreetAt auth opts channel w before) c s (d.discreet) (record {
          discreet = record {
            packets = d.discreet.packets ++ c ∷ [];
            sent =
                ap (λ cs. cs ++ c ∷ []) d.discreet.sent
                ∙ append_assoc before d.discreet.packets (c ∷ []);
            allowed =
                All-append (MaySend auth opts channel) d.discreet.packets (c ∷ [])
                  d.discreet.allowed (m, tt);
            same_opts = d.discreet.same_opts;
            same_channel = d.discreet.same_channel;
          };
          switch = d.switch;
        })

    pub answered-MaySend :
        (plugin : AuthPlugin) (s : Session L)
        → At (DiscreetAt auth opts channel w before) s
        → is_admitted opts plugin ≡ true
        → (answered : List ℕ) → gen_data auth plugin s ≡ some answered
        → MaySend auth opts channel (bytes answered)
    unfolding gen_data
    answered-MaySend plugin s d admitted answered e =
        answer plugin s.auth.nonce answered admitted
          (ap (λ o. auth.gen_data plugin o.pass s.auth.nonce) (sym d.discreet.same_opts) ∙ e)

    module _ {R : Type 0} (common : MySqlCommon R) where
      pub read-Discreet :
          (s : Session L)
          → At (DiscreetAt auth opts channel w before) s
          → Runs
              (λ _ t. At (DiscreetAt auth opts channel w before) t)
              (Discreet auth opts channel before)
              (read_packet common s)
      read-Discreet s d = weaken (read_packet-Runs common s d)

      pub drop-Discreet :
          (s : Session L)
          → At (DiscreetAt auth opts channel w before) s
          → Keeping (Discreet auth opts channel before) (drop_packet common s)
      unfolding drop_packet Post
      drop-Discreet s d =
          bind-Runs (read_packet common) _ s (read-Discreet s d)
            (λ _ t d'. record { post = d'.discreet })

module _ {L : Type 0} {auth : MySqlAuth} {opts : AuthOpts} {channel : Bool × Bool}
    {before : List Command} {w : Bool} where
  plugin_data-Discreet :
      (plugin : AuthPlugin) (s : Session L)
      → At (DiscreetAt auth opts channel w before) s
      → Runs
          (λ o t. MayAnswer auth opts channel o × At (DiscreetAt auth opts channel w before) t)
          (Discreet auth opts channel before)
          (plugin_data auth plugin s)
  unfolding plugin_data Post is_admitted MayAnswer
  plugin_data-Discreet mysql_old_password s d =
      Runs-of_if s.auth.opts.secure_auth _ _ (λ _. record { post = d.discreet })
        (λ e. record {
          post = (
            answered-MaySend mysql_old_password s d
                (ap not (sym (ap (λ o. o.secure_auth) d.discreet.same_opts) ∙ e)),
            d,
          );
        })
  plugin_data-Discreet mysql_clear_password s d =
      Runs-of_if s.auth.opts.enable_cleartext_plugin _ _
        (λ e. record {
          post = (
            answered-MaySend mysql_clear_password s d
                (sym (ap (λ o. o.enable_cleartext_plugin) d.discreet.same_opts) ∙ e),
            d,
          );
        })
        (λ _. record { post = d.discreet })
  plugin_data-Discreet (mariadb_parsec salt) s d = record { post = (λ a e. cc, d) }
  plugin_data-Discreet caching_sha2_password s d = record {
    post = (answered-MaySend caching_sha2_password s d refl, d);
  }
  plugin_data-Discreet mysql_native_password s d = record {
    post = (answered-MaySend mysql_native_password s d refl, d);
  }
  plugin_data-Discreet ed25519 s d = record { post = (answered-MaySend ed25519 s d refl, d) }
  plugin_data-Discreet (other_plugin name) s d = record {
    post = (answered-MaySend (other_plugin name) s d refl, d);
  }

  write_plugin_data-Discreet :
      (o : Option (List ℕ)) (s : Session L)
      → MayAnswer auth opts channel o
      → At (DiscreetAt auth opts channel w before) s
      → Runs
          (λ _ t. At (DiscreetAt auth opts channel w before) t)
          (Discreet auth opts channel before)
          (write_plugin_data o s)
  unfolding write_plugin_data MayAnswer
  write_plugin_data-Discreet none s m d = write-Discreet (bytes []) s d nothing
  write_plugin_data-Discreet (some data_) s m d = write-Discreet (bytes data_) s d (m data_ refl)

  pub answer_with-Discreet :
      (plugin : AuthPlugin) (s : Session L)
      → At (DiscreetAt auth opts channel w before) s
      → Runs
          (λ _ t. At (DiscreetAt auth opts channel w before) t)
          (Discreet auth opts channel before)
          (answer_with auth plugin s)
  unfolding answer_with
  answer_with-Discreet plugin s d =
      bind-Runs (plugin_data auth plugin) write_plugin_data _
        (plugin_data-Discreet plugin _
          (record { discreet = Discreet-same d.discreet refl refl; switch = d.switch }))
        (λ o t p. write_plugin_data-Discreet o t p.0 p.1)

  pub encrypted-Discreet :
      (scrambled key : List ℕ) (s : Session L)
      → At (DiscreetAt auth opts channel w before) s
      → scramble (clear_password s) s.auth.nonce ≡ some scrambled
      → Runs
          (λ _ t. At (DiscreetAt auth opts channel w before) t)
          (Discreet auth opts channel before)
          (write_encrypted auth key scrambled s)
  unfolding write_encrypted clear_password
  encrypted-Discreet scrambled key s d e = write-Discreet _ s d (
      encrypted s.auth.nonce key scrambled (
        ap (λ o. scramble (pass_or_default o.pass ++ 0 ∷ []) s.auth.nonce)
          (sym d.discreet.same_opts)
        ∙ e))
