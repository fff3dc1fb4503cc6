-- ===== src/Session/Connect/Greeting.antt =====
-- src/conn/mod.rs: what the driver keeps of the server's handshake.
use mysql_async.Session.Login.{
  Capabilities, common_flags, AuthPlugin, caching_sha2_password, mysql_native_password,
  get_capabilities, AuthOpts, Auth, HandshakePacket, MySqlAuth,
}
use mysql_async.Session.Login
use mysql_async.Session.Outcome.{parse, required}
use mysql_async.Session.Protocol.{MySqlCommon, Command}
use mysql_async.Session.State.{Session}
use mysql_async.Session.Packets.{read_packet}
use mysql_async.Session.Connect.{resize, nonce_of, allowed_plugin, greet, handle_handshake}
use mysql_async.Session.Runs.{At, Post, Runs, bind-Runs, read_packet-Runs, required-Runs}
use mysql_async.Prelude.{
  ℕ, zero, suc, ◌≡◌, refl, ap, ◌⊎◌, inl, inr, Bool, true, false, ◌&&◌, Option, none, some, List, [],
  ◌∷◌, length, subst,
}

length-resize : (n : ℕ) (xs : List ℕ) → length (resize n xs) ≡ n
unfolding resize
length-resize zero xs = refl
length-resize (suc n) [] = ap suc (length-resize n [])
length-resize (suc n) (x ∷ xs) = ap suc (length-resize n xs)

-- A flag of the connection is a flag of the options.
abbrev pub IsBelow : Bool → Bool → Type 0
IsBelow a b = a ≡ true → b ≡ true

-- The nonce has twenty bytes, the plugin is one of the two that are allowed, and the flags that the
-- driver looks at are among those of the options.
pub record IsGreeted (opts : AuthOpts) (before cs : List Command) (a : Auth) : Type 0 where
  pub nonce_length : length a.nonce ≡ 20
  pub plugin : (a.auth_plugin ≡ caching_sha2_password) ⊎ (a.auth_plugin ≡ mysql_native_password)
  pub ssl : IsBelow a.capabilities.client_ssl (get_capabilities opts).client_ssl
  pub compress : IsBelow a.capabilities.client_compress (get_capabilities opts).client_compress
  pub deprecate_eof :
      IsBelow a.capabilities.client_deprecate_eof (get_capabilities opts).client_deprecate_eof
  pub local_files :
      IsBelow a.capabilities.client_local_files (get_capabilities opts).client_local_files
  pub same_opts : a.opts ≡ opts
  pub nothing_sent : cs ≡ before

-- Nothing was sent, and the options are the same.
pub record IsQuiet (opts : AuthOpts) (before cs : List Command) (a : Auth) : Type 0 where
  pub same_opts : a.opts ≡ opts
  pub nothing_sent : cs ≡ before

allowed_plugin_cases :
    (plugin : Option AuthPlugin)
    → (allowed_plugin plugin ≡ caching_sha2_password)
      ⊎ (allowed_plugin plugin ≡ mysql_native_password)
unfolding allowed_plugin
allowed_plugin_cases none = inr refl
allowed_plugin_cases (some caching_sha2_password) = inl refl
allowed_plugin_cases (some mysql_native_password) = inr refl
allowed_plugin_cases (some Login.mysql_old_password) = inr refl
allowed_plugin_cases (some Login.mysql_clear_password) = inr refl
allowed_plugin_cases (some Login.ed25519) = inr refl
allowed_plugin_cases (some (Login.mariadb_parsec salt)) = inr refl
allowed_plugin_cases (some (Login.other_plugin name)) = inr refl

&&-IsBelow : (a b : Bool) → IsBelow (a && b) b
&&-IsBelow true b e = e
&&-IsBelow false b e = cc

module _ {L : Type 0} {R : Type 0} (auth : MySqlAuth) (common : MySqlCommon R) where
  greet-IsGreeted :
      {opts : AuthOpts} {before : List Command} (handshake : HandshakePacket) (s : Session L)
      → At (IsQuiet opts before) s
      → Runs (λ _ t. At (IsGreeted opts before) t) (IsQuiet opts before) (greet handshake s)
  unfolding greet nonce_of common_flags Post
  greet-IsGreeted {opts} handshake s q = record {
    post = record {
      nonce_length = length-resize 20 _;
      plugin = allowed_plugin_cases handshake.auth_plugin;
      ssl = below (λ c. c.client_ssl) (&&-IsBelow _ _);
      compress = below (λ c. c.client_compress) (&&-IsBelow _ _);
      deprecate_eof = below (λ c. c.client_deprecate_eof) (&&-IsBelow _ _);
      local_files = below (λ c. c.client_local_files) (&&-IsBelow _ _);
      same_opts = q.same_opts;
      nothing_sent = q.nothing_sent;
    };
  }
    where
      below :
          (f : Capabilities → Bool) {a : Bool}
          → IsBelow a (f (get_capabilities s.auth.opts))
          → IsBelow a (f (get_capabilities opts))
      below f {a} h = subst (λ o. IsBelow a (f (get_capabilities o))) q.same_opts h

  -- `handle_handshake` sends nothing and keeps the options. Where it succeeds, the nonce has 20
  -- bytes, the plugin is caching_sha2_password or mysql_native_password, and the flags for TLS,
  -- compression, the deprecation of EOF packets and local files are set only if they are in the
  -- options.
  pub handle_handshake-IsGreeted :
      (s : Session L)
      → Runs
          (λ _ t. At (IsGreeted s.auth.opts s.sent) t)
          (IsQuiet s.auth.opts s.sent)
          (handle_handshake auth common s)
  unfolding handle_handshake
  handle_handshake-IsGreeted s =
      bind-Runs (read_packet common) _ s
        (read_packet-Runs common s (record { same_opts = refl; nothing_sent = refl }))
        (λ packet t q.
          bind-Runs (required parse (auth.handshake_packet packet)) greet t
            (required-Runs parse _ t q) (λ handshake u q'. greet-IsGreeted handshake u q'))
