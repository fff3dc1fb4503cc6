-- ===== src/Session/Auth/Password.antt =====
-- src/conn/mod.rs: the password of `caching_sha2_password` is encrypted, or goes through a channel that
-- is sealed.
use mysql_async.Session.Login.{AuthOpts, MySqlAuth}
use mysql_async.Session.Protocol.{Packet, MySqlCommon, Command, bytes}
use mysql_async.Session.State.{Session}
use mysql_async.Session.Packets.{read_packet, write_packet}
use mysql_async.Session.Auth.{
  scramble, pass_or_default, or_panic, is_secure, is_socket, clear_password, store_key,
  write_encrypted, write_scrambled, request_key, full_auth,
}
use mysql_async.Session.Auth.Discreet.{
  MaySend, key_request, clear, Discreet, DiscreetAt, Discreet-same, write-Discreet, read-Discreet,
  encrypted-Discreet,
}
use mysql_async.Session.Runs.{At, Post, Runs, bind-Runs, Runs-of_if_step}
use mysql_async.Prelude.{
  ap, ℕ, ◌≡◌, refl, sym, ◌∙◌, Bool, true, ◌||◌, Option, none, some, List, [], ◌∷◌, ◌++◌, arith,
  subst,
}

module _ {L : Type 0} {auth : MySqlAuth} {opts : AuthOpts} {channel : Bool × Bool}
    {before : List Command} {w : Bool} where
  sealed-is_secure :
      (s : Session L)
      → At (DiscreetAt auth opts channel w before) s
      → (is_secure s || is_socket s) ≡ true
      → (channel.0 || channel.1) ≡ true
  unfolding is_secure is_socket
  sealed-is_secure s d e =
      ap {A = Bool × Bool} (λ c. c.0 || c.1) (sym d.discreet.same_channel) ∙ ground (arith, e)

  clear-Discreet :
      (s : Session L)
      → At (DiscreetAt auth opts channel w before) s
      → (is_secure s || is_socket s) ≡ true
      → Runs
          (λ _ t. At (DiscreetAt auth opts channel w before) t)
          (Discreet auth opts channel before)
          (write_packet (bytes (clear_password s)) s)
  unfolding clear_password
  clear-Discreet s d e = write-Discreet _ s d (
      subst (λ o. MaySend auth opts channel (bytes (pass_or_default o.pass ++ 0 ∷ [])))
        (sym d.discreet.same_opts) (clear (sealed-is_secure s d e)))

  key-Discreet :
      (o : Option (List ℕ)) (scrambled : List ℕ) (s : Session L)
      → At (DiscreetAt auth opts channel w before) s
      → scramble (clear_password s) s.auth.nonce ≡ some scrambled
      → Runs
          (λ _ t. At (DiscreetAt auth opts channel w before) t)
          (Discreet auth opts channel before)
          (or_panic (λ key. write_encrypted auth key scrambled) o s)
  unfolding or_panic Post
  key-Discreet none scrambled s d e = record { post = d.discreet }
  key-Discreet (some key) scrambled s d e = encrypted-Discreet scrambled key s d e

  scrambled-Discreet :
      (o : Option (List ℕ)) (s : Session L)
      → At (DiscreetAt auth opts channel w before) s
      → scramble (clear_password s) s.auth.nonce ≡ o
      → Runs
          (λ _ t. At (DiscreetAt auth opts channel w before) t)
          (Discreet auth opts channel before)
          (or_panic
            (λ scrambled s.
              or_panic (λ key. write_encrypted auth key scrambled) s.auth.server_key s)
            o
            s)
  unfolding or_panic Post
  scrambled-Discreet none s d e = record { post = d.discreet }
  scrambled-Discreet (some scrambled) s d e = key-Discreet s.auth.server_key scrambled s d e

  store_key-Discreet :
      (packet : Packet) (s : Session L)
      → At (DiscreetAt auth opts channel w before) s
      → Runs
          (λ _ t. At (DiscreetAt auth opts channel w before) t)
          (Discreet auth opts channel before)
          (store_key packet s)
  unfolding store_key Post
  store_key-Discreet [] s d = record { post = d.discreet }
  store_key-Discreet (x ∷ key) s d = record {
    post = record { discreet = Discreet-same d.discreet refl refl; switch = d.switch };
  }

  module _ {R : Type 0} (common : MySqlCommon R) where
    request_key-Discreet :
        (o : Option (List ℕ)) (s : Session L)
        → At (DiscreetAt auth opts channel w before) s
        → Runs
            (λ _ t. At (DiscreetAt auth opts channel w before) t)
            (Discreet auth opts channel before)
            (request_key common o s)
    unfolding request_key Post
    request_key-Discreet (some key) s d = record { post = d }
    request_key-Discreet none s d =
        bind-Runs (write_packet (bytes (2 ∷ []))) _ s (write-Discreet _ s d key_request) (λ _ t d'.
          bind-Runs (read_packet common) store_key t (read-Discreet common t d')
            (λ packet u d''. store_key-Discreet packet u d''))

    pub full_auth-Discreet :
        (s : Session L)
        → At (DiscreetAt auth opts channel w before) s
        → Runs
            (λ _ t. At (DiscreetAt auth opts channel w before) t)
            (Discreet auth opts channel before)
            (full_auth auth common s)
    unfolding full_auth write_scrambled
    full_auth-Discreet s d =
        Runs-of_if_step (is_secure s || is_socket s) _ _ s (λ e. clear-Discreet s d e)
          (λ _.
            bind-Runs (request_key common s.auth.server_key) _ s
              (request_key-Discreet s.auth.server_key s d)
              (λ _ t d'. scrambled-Discreet _ t d' refl))
