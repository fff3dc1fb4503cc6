-- ===== src/Session/Connect/Tls.antt =====
-- src/conn/mod.rs: with TLS in the options, a connection sends nothing in the clear but the request of
-- TLS.
use mysql_async.Session.Login.{get_capabilities, AuthOpts, Auth, SslRequest, MySqlAuth}
use mysql_async.Session.Outcome.{return}
use mysql_async.Session.Protocol.{MySqlCommon, Command, ssl_request, start_tls, handshake_response}
use mysql_async.Session.State.{Session}
use mysql_async.Session.Packets.{write_packet}
use mysql_async.Session.Auth.{continue_auth}
use mysql_async.Session.Auth.Discreet.{Discreet}
use mysql_async.Session.Auth.Safety.{continue_auth-Discreet}
use mysql_async.Session.Connect.{
  set_handshake_complete, secured, compress, switch_to_compression, make_secure, ssl_request_of,
  response_of, request_ssl, switch_to_ssl_if_needed, respond, do_handshake_response,
  handle_handshake, log_in,
}
use mysql_async.Session.Connect.Greeting.{IsQuiet, handle_handshake-IsGreeted}
use mysql_async.Session.Runs.{
  At, Post, Runs, Keeping, bind-Runs, weaken-Runs, Runs-of_if, Runs-of_if_step, write_packet-Runs,
}
use mysql_async.Prelude.{
  ℕ, ◌≡◌, refl, ap, ◌∙◌, Bool, true, ◌&&◌, Option, none, some, List, [], ◌∷◌, ◌++◌, arith,
}

-- Nothing was sent but the request of TLS and its handshake; or the stream goes through TLS, and
-- everything else was sent after it did.
pub data IsSealed (cs : List Command) (a : Auth) : Type 0 where
  quiet : cs ≡ [] → IsSealed cs a
  requested : (r : SslRequest) → cs ≡ ssl_request r ∷ [] → IsSealed cs a
  started : (r : SslRequest) → cs ≡ ssl_request r ∷ start_tls ∷ [] → IsSealed cs a
  through_tls :
      (r : SslRequest) (more : List Command)
      → cs ≡ ssl_request r ∷ start_tls ∷ more
      → a.is_secure ≡ true
      → IsSealed cs a

-- The stream goes through TLS.
record IsThroughTls (cs : List Command) (a : Auth) : Type 0 where
  request : SslRequest
  more : List Command
  sent : cs ≡ ssl_request request ∷ start_tls ∷ more
  secure : a.is_secure ≡ true

sealed : {cs : List Command} {a : Auth} → IsThroughTls cs a → IsSealed cs a
sealed t = through_tls t.request t.more t.sent t.secure

module _ {L : Type 0} (auth : MySqlAuth) where
  make_secure-IsSealed :
      (r : SslRequest) (s : Session L)
      → s.sent ≡ ssl_request r ∷ []
      → Runs (λ _ t. At IsThroughTls t) IsSealed (make_secure auth s)
  unfolding make_secure secured Post
  make_secure-IsSealed r s e =
      Runs-of_if s.conn.stream _ _
        (λ _.
          bind-Runs (write_packet start_tls) _ s
            (write_packet-Runs {J = IsSealed} (λ cs _. cs ≡ ssl_request r ∷ start_tls ∷ [])
              start_tls s (requested r e) (ap (λ cs. cs ++ start_tls ∷ []) e))
            (λ _ t f.
              Runs-of_if_step auth.make_secure secured _ t
                (λ _. record { post = record { request = r; more = []; sent = f; secure = refl } })
                (λ _. record { post = started r f })))
        (λ _. record { post = requested r e })

  switch-IsSealed :
      {opts : AuthOpts} (s : Session L)
      → (get_capabilities opts).client_ssl ≡ true
      → At (IsQuiet opts []) s
      → Runs (λ _ t. At IsThroughTls t) IsSealed (switch_to_ssl_if_needed auth s)
  unfolding switch_to_ssl_if_needed request_ssl Post
  switch-IsSealed s ssl q =
      Runs-of_if_step (get_capabilities s.auth.opts).client_ssl _ (return tt) s
        (λ _.
          Runs-of_if_step s.auth.capabilities.client_ssl _ _ s
            (λ _.
              bind-Runs (request_ssl auth) _ s
                (write_packet-Runs {J = IsSealed}
                  (λ cs _. cs ≡ ssl_request (ssl_request_of auth s) ∷ [])
                  (ssl_request (ssl_request_of auth s)) s (quiet q.nothing_sent)
                  (ap (λ cs. cs ++ ssl_request (ssl_request_of auth s) ∷ []) q.nothing_sent))
                (λ _ t e.
                  Runs-of_if_step auth.build_tls_connector (make_secure auth) _ t
                    (λ _. make_secure-IsSealed (ssl_request_of auth s) t e)
                    (λ _. record { post = requested (ssl_request_of auth s) e })))
            (λ _. record { post = quiet q.nothing_sent }))
        (λ e.
          absurd (ground (arith, e, ap (λ o. (get_capabilities o).client_ssl) q.same_opts, ssl)))

  respond-IsSealed :
      (s : Session L)
      → At IsThroughTls s
      → Runs (λ _ t. At IsThroughTls t) IsSealed (do_handshake_response auth s)
  unfolding do_handshake_response respond set_handshake_complete Post
  respond-IsSealed s t =
      bind-Runs (respond auth) _ s
        (write_packet-Runs {J = IsSealed} IsThroughTls (handshake_response (response_of auth s)) s
          (sealed t)
          (record {
            request = t.request;
            more = t.more ++ handshake_response (response_of auth s) ∷ [];
            sent = ap (λ cs. cs ++ handshake_response (response_of auth s) ∷ []) t.sent;
            secure = t.secure;
          }))
        (λ _ u t'. record { post = t' })

  compression-IsSealed :
      (s : Session L) → At IsThroughTls s → Keeping IsSealed (switch_to_compression s)
  unfolding switch_to_compression Post compress
  compression-IsSealed s t =
      Runs-of_if_step (s.auth.capabilities.client_compress && s.conn.stream) _ (return tt) s
        (λ _. go s.auth.opts.compression) (λ _. record { post = sealed t })
    where
      go : (level : Option ℕ) → Keeping IsSealed (compress level s)
      go none = record { post = sealed t }
      go (some level) = record { post = through_tls t.request t.more t.sent t.secure }

  module _ {R : Type 0} (common : MySqlCommon R) where
    auth-IsSealed :
        (s : Session L)
        → At IsThroughTls s
        → Runs (λ _ t. At IsThroughTls t) IsSealed (continue_auth auth common s)
    auth-IsSealed s t =
        weaken-Runs (continue_auth-Discreet auth common s) (λ _ u d. still d)
          (λ cs a d. sealed (still d))
      where
        still :
            {cs : List Command} {a : Auth}
            → Discreet auth s.auth.opts (s.auth.is_secure, s.auth.is_socket) s.sent cs a
            → IsThroughTls cs a
        still d = record {
          request = t.request;
          more = t.more ++ d.packets;
          sent = d.sent ∙ ap (λ cs. cs ++ d.packets) t.sent;
          secure = ap {A = Bool × Bool} (λ c. c.0) d.same_channel ∙ t.secure;
        }

    -- With TLS in the options and nothing sent before, whatever the server sends and however the
    -- login ends, the driver has sent nothing, or only the request for TLS and the handshake of
    -- TLS after it, unless the stream goes through TLS: everything else that was sent then came
    -- after that handshake.
    pub log_in-IsSealed :
        (s : Session L)
        → s.sent ≡ []
        → (get_capabilities s.auth.opts).client_ssl ≡ true
        → Keeping IsSealed (log_in auth common s)
    unfolding log_in
    log_in-IsSealed s none_sent ssl =
        bind-Runs (handle_handshake auth common) _ s
          (weaken-Runs (handle_handshake-IsGreeted auth common s)
            (λ _ t g. record { same_opts = g.same_opts; nothing_sent = g.nothing_sent ∙ none_sent })
            (λ cs a q. quiet (q.nothing_sent ∙ none_sent)))
          (λ _ t q. bind-Runs (switch_to_ssl_if_needed auth) _ t (switch-IsSealed t ssl q) (λ _ u v.
            bind-Runs (do_handshake_response auth) _ u (respond-IsSealed u v) (λ _ w x.
              bind-Runs (continue_auth auth common) (λ _. switch_to_compression) w
                (auth-IsSealed w x) (λ _ y z. compression-IsSealed y z))))
