-- ===== src/Session/Settings/Laws.antt =====
-- src/conn/mod.rs: each setting gets the value of its option, or else the one that the server gave for
-- its name.
use mysql_async.Session.Outcome.{Outcome, ok, continue, ◌>>◌}
use mysql_async.Session.State.{Session}
use mysql_async.Session.Connect.{unwrap_or}
use mysql_async.Session.Settings.{
  MySqlValues, default_wait_timeout, from_secs, Action, Cfg, socket, max_allowed_packet,
  wait_timeout, max_action, wait_action, socket_actions, actions_for, loads, or_panic,
  set_max_allowed_packet, with_stream, set_wait_timeout, set_socket, apply_data, usize_of,
  string_of, apply_cfg, apply_all,
}
use mysql_async.Prelude.{
  ℕ, ◌≡◌, refl, ap, ◌∙◌, Bool, true, false, Option, none, some, List, [], ◌∷◌, map, if◌then◌else◌,
  if_true,
}

-- The session with its settings.
abbrev pub settled : {L : Type 0} → ℕ → ℕ → Option (List ℕ) → Session L → Session L
settled max wait path s = record s {
  conn = record (s.conn) { wait_timeout = from_secs wait };
  auth = record (s.auth) { max_allowed_packet = max; socket = path };
}

module _ {L : Type 0} {R : Type 0} {V : Type 0} (values : MySqlValues R V) (answer : Cfg → V)
    (given_max given_wait : Option ℕ) (path : Option (List ℕ))
    (max_ok : values.usize_from_value (answer max_allowed_packet) ≡ some given_max)
    (wait_ok : values.usize_from_value (answer wait_timeout) ≡ some given_wait)
    (path_ok : values.string_from_value (answer socket) ≡ some path) where
  -- The loop over the actions, where the server gives each value by its name.
  abbrev answered : List Action → Session L → Outcome (Unit {0}) × Session L
  answered actions s = apply_all values actions (map answer (loads actions)) s

  max_step :
      (max : Option ℕ) (actions : List Action) (s : Session L)
      → s.conn.stream ≡ true
      → answered (max_action max ∷ actions) s
        ≡ answered actions (record s {
          auth = record (s.auth) {
            max_allowed_packet =
                unwrap_or (unwrap_or values.default_max_allowed_packet given_max) max;
          };
        })
  unfolding apply_all loads max_action apply_data apply_cfg with_stream set_max_allowed_packet
      usize_of or_panic unwrap_or
  max_step (some x) actions s open_ =
      ap {A = Outcome (Unit {0}) × Session L} {B = Outcome (Unit {0}) × Session L}
        (continue (λ _. apply_all values actions (map answer (loads actions)))) (if_true _ _ open_)
  max_step none actions s open_ =
      ap {A = Outcome (Unit {0}) × Session L} {B = Outcome (Unit {0}) × Session L}
        (continue (λ _. apply_all values actions (map answer (loads actions))))
        (if_true _ _ open_
          ∙ ap
              (λ o.
                or_panic
                  (λ n. set_max_allowed_packet (unwrap_or values.default_max_allowed_packet n)) o s)
              max_ok)

  wait_step :
      (wait : Option ℕ) (actions : List Action) (s : Session L)
      → answered (wait_action wait ∷ actions) s
        ≡ answered actions (record s {
          conn = record (s.conn) {
            wait_timeout = from_secs (unwrap_or (unwrap_or default_wait_timeout given_wait) wait);
          };
        })
  unfolding apply_all loads wait_action apply_data apply_cfg set_wait_timeout usize_of or_panic
      unwrap_or
  wait_step (some x) actions s = refl
  wait_step none actions s =
      ap {A = Option (Option ℕ)} {B = Outcome (Unit {0}) × Session L}
        (λ o.
          (or_panic (λ n. set_wait_timeout (unwrap_or default_wait_timeout n)) o
              >> apply_all values actions (map answer (loads actions)))
            s)
        wait_ok

  socket_step :
      (wants : Bool) (s : Session L)
      → answered (socket_actions wants) s ≡ (
        ok tt,
        record s { auth = record (s.auth) { socket = if wants then path else s.auth.socket } },
      )
  unfolding apply_all loads socket_actions apply_cfg set_socket string_of or_panic
  socket_step false s = refl
  socket_step true s =
      ap {A = Option (Option (List ℕ))} {B = Outcome (Unit {0}) × Session L}
        (λ o. (or_panic set_socket o >> apply_all values [] []) s) path_ok

  -- With a stream, and where the server gives each value by its name and the values convert, the
  -- loop of `read_settings` over its actions ends, sets the largest packet and the wait timeout to
  -- the option where there is one, else to the value of the server, else to the default, sets the
  -- path of the socket exactly where it was asked for, and changes nothing else, for each choice
  -- of the options.
  pub apply_all-actions_for :
      (max wait : Option ℕ) (wants_socket : Bool) (s : Session L)
      → s.conn.stream ≡ true
      → apply_all values
          (actions_for max wait wants_socket)
          (map answer (loads (actions_for max wait wants_socket)))
          s
        ≡ (
          ok tt,
          settled
              (unwrap_or (unwrap_or values.default_max_allowed_packet given_max) max)
              (unwrap_or (unwrap_or default_wait_timeout given_wait) wait)
              (if wants_socket then path else s.auth.socket)
              s,
        )
  unfolding actions_for
  apply_all-actions_for max wait wants_socket s open_ =
      max_step max _ s open_
      ∙ (wait_step wait (socket_actions wants_socket) _ ∙ socket_step wants_socket _)
