-- ===== src/Session/Sends/Results.antt =====
-- src/conn/routines/helpers.rs and src/queryable/: reading and dropping result sets sends nothing but
-- the data of a local infile.
use mysql_async.Conn.State.{
  Column, PendingResult, pending, taken, text, binary, ResultSetMeta, columns,
}
use mysql_async.Conn.Pending.{has_pending_result}
use mysql_async.Session.Outcome.{
  Error, server, Outcome, ok, err, panicked, stuck, required, throw, return, local_infile,
  read_failed,
}
use mysql_async.Session.Protocol.{
  Packet, MySqlCommon, Protocol, bytes, text_protocol, binary_protocol,
}
use mysql_async.Session.State.{Session, M}
use mysql_async.Session.Packets.{read_packet, write_packet}
use mysql_async.Session.ResultSets.{
  set_pending, take_infile, send_chunks, handle_local_infile, dispatch_on, dispatch,
  after_first_packet, read_result_set, first,
}
use mysql_async.Session.QueryResult.{
  fueled, more_results_exists, use_pending, row_or_end, row_packet, after_row_packet, next_row,
  read_next_set, next_set, next_row_or_next_set, skip_taken, next_by, next_loop, next, drop_rows,
  drop_loop, drop_result, by_row,
}
use mysql_async.Session.Commands.{take_meta, drop_pending, drop_conn_result}
use mysql_async.Prelude.{
  ℕ, zero, suc, refl, Bool, true, false, ◌==◌, Option, none, some, List, [], ◌∷◌, length,
  if◌then◌else◌,
}
use mysql_async.Session.Sends.{
  Allows, Always, Always-of_if, Claim, IsData, Stays, Stays-of_if, bind-Always, bind-Stays,
  handle_result_set-Stays, infile_from-Stays, read_packet-Stays, required-Stays, routine-Stays,
  set_pending-Stays, set_pending_error-Stays, take_meta-Stays, use_pending-Stays,
  write_packet-Stays,
}

module _ {L : Type 0} {J : Claim L} (allows : Allows J IsData) {R : Type 0}
    (common : MySqlCommon R) where
  bytes-Stays : (b : List ℕ) → Stays J (write_packet (bytes b))
  bytes-Stays b s j =
      write_packet-Stays (bytes b) s j (allows (bytes b) (b, refl) s.sent s.stmt_cache j)

  send_chunks-Stays : (chunks : List (Option (List ℕ))) → Stays J (send_chunks chunks)
  unfolding send_chunks
  send_chunks-Stays [] s j = record { holds = j }
  send_chunks-Stays (none ∷ chunks) s j = record { holds = j }
  send_chunks-Stays (some [] ∷ chunks) s j = send_chunks-Stays chunks s j
  send_chunks-Stays (some (b ∷ bs) ∷ chunks) s j =
      bind-Stays (write_packet (bytes (b ∷ bs))) (λ _. send_chunks chunks) (bytes-Stays _)
        (λ _. send_chunks-Stays chunks) s j

  finish-Stays :
      (b : Bool)
      → Stays J (if b then return {S = Session L} tt else throw (local_infile read_failed))
  finish-Stays true s j = record { holds = j }
  finish-Stays false s j = record { holds = j }

  handle_local_infile-Stays :
      (protocol : Protocol) (packet : Packet) → Stays J (handle_local_infile common protocol packet)
  unfolding handle_local_infile take_infile
  handle_local_infile-Stays protocol packet =
      bind-Stays (required Error.parse (common.local_infile_packet packet)) _ (required-Stays _ _)
        (λ file.
          bind-Stays (take_infile file) _
            (λ s. infile_from-Stays s.infile_handler s.local_infile_handler file s)
            (λ chunks. bind-Stays (send_chunks chunks) _ (send_chunks-Stays chunks) (λ complete.
              bind-Stays (write_packet (bytes [])) _ (bytes-Stays []) (λ _.
                bind-Stays (read_packet common) _ (read_packet-Stays common) (λ _.
                  bind-Stays (set_pending _) _ (set_pending-Stays _)
                    (λ _. finish-Stays complete))))))

  dispatch_on-Stays :
      (protocol : Protocol) (packet : Packet) (o : Option ℕ)
      → Stays J (dispatch_on common protocol packet o)
  unfolding dispatch_on
  dispatch_on-Stays protocol packet none = handle_result_set-Stays common protocol packet
  dispatch_on-Stays protocol packet (some b) = Stays-of_if (b == 0) _ _ (set_pending-Stays _) (
      Stays-of_if (b == 251) _ _ (handle_local_infile-Stays protocol packet)
        (handle_result_set-Stays common protocol packet))

  after_first-Stays :
      (protocol : Protocol) (is_first : Bool) (r : Outcome Packet × Session L)
      → Always J r
      → Always J (after_first_packet common protocol is_first r)
  unfolding after_first_packet dispatch
  after_first-Stays protocol is_first (ok packet, s) e =
      dispatch_on-Stays protocol packet (first packet) s e.holds
  after_first-Stays protocol true (err (server x), s) e = record { holds = e.holds }
  after_first-Stays protocol false (err (server x), s) e = set_pending_error-Stays x s e.holds
  after_first-Stays protocol true (err _, s) e = record { holds = e.holds }
  after_first-Stays protocol false (err _, s) e = record { holds = e.holds }
  after_first-Stays protocol is_first (panicked, s) e = record { holds = e.holds }
  after_first-Stays protocol is_first (stuck, s) e = record { holds = e.holds }

  pub read_result_set-Stays :
      (protocol : Protocol) (is_first : Bool) → Stays J (read_result_set common protocol is_first)
  unfolding read_result_set
  read_result_set-Stays protocol is_first s j =
      after_first-Stays protocol is_first (read_packet common s) (read_packet-Stays common s j)

  module _ (protocol : Protocol) where
    row_or_end-Stays :
        (cols : List Column) (packet : Packet) (o : Option Bool)
        → Stays J (row_or_end common protocol cols packet o)
    unfolding row_or_end
    row_or_end-Stays cols packet none = λ s j. record { holds = j }
    row_or_end-Stays cols packet (some true) =
        bind-Stays (set_pending none) _ (set_pending-Stays none) (λ _ s j. record { holds = j })
    row_or_end-Stays cols packet (some false) =
        bind-Stays (required Error.parse (common.row protocol cols packet)) _ (required-Stays _ _)
          (λ _ s j. record { holds = j })

    after_row-Stays :
        (cols : List Column) (r : Outcome Packet × Session L)
        → Always J r
        → Always J (after_row_packet common protocol cols r)
    unfolding after_row_packet row_packet
    after_row-Stays cols (ok packet, s) e = row_or_end-Stays cols packet _ s e.holds
    after_row-Stays cols (err x, s) e =
        bind-Stays (set_pending none) (λ _. throw {A = Option R} x) (set_pending-Stays none)
          (λ _ s j. record { holds = j }) s e.holds
    after_row-Stays cols (panicked, s) e = record { holds = e.holds }
    after_row-Stays cols (stuck, s) e = record { holds = e.holds }

    next_row-Stays : (cols : List Column) → Stays J (next_row common protocol cols)
    unfolding next_row
    next_row-Stays [] s j =
        bind-Stays (set_pending none) (λ _. return {A = Option R} none) (set_pending-Stays none)
          (λ _ s j. record { holds = j }) s j
    next_row-Stays (c ∷ cs) s j =
        after_row-Stays (c ∷ cs) (read_packet common s) (read_packet-Stays common s j)

    next_set-Stays : Stays J (next_set common protocol)
    unfolding next_set read_next_set
    next_set-Stays =
        bind-Stays (read_next_set common protocol) _
          (λ s j.
            Always-of_if (more_results_exists s) _ _
              (routine-Stays _ (read_result_set-Stays protocol false) s j) (record { holds = j }))
          (λ _ s j. record { holds = j })

    by_row-Stays :
        {A : Type 0} (f : R → M L A) (g : M L A)
        → ((r : R) → Stays J (f r))
        → Stays J g
        → (o : Option R) → Stays J (by_row f g o)
    by_row-Stays f g hf hg (some r) = hf r
    by_row-Stays f g hf hg none = hg

    row_or_set-Stays : (meta : ResultSetMeta) → Stays J (next_row_or_next_set common protocol meta)
    unfolding next_row_or_next_set
    row_or_set-Stays meta =
        bind-Stays (next_row common protocol (columns meta)) _ (next_row-Stays _) (
          by_row-Stays _ _ (λ r s j. record { holds = j })
            (bind-Stays (next_set common protocol) _ next_set-Stays
              (λ _ s j. record { holds = j })))

    skip_taken-Stays :
        (meta : ResultSetMeta) (fuel : ℕ) → Stays J (skip_taken common protocol meta fuel)
    unfolding skip_taken
    skip_taken-Stays meta zero = λ s j. record { holds = j }
    skip_taken-Stays meta (suc fuel) =
        bind-Stays (next_row_or_next_set common protocol meta) _ (row_or_set-Stays meta)
          (by_row-Stays _ _ (λ _. skip_taken-Stays meta fuel) (λ s j. record { holds = j }))

    next_by-Stays :
        (rest : M L (Option R))
        → Stays J rest
        → (p : Option PendingResult) → Stays J (next_by common protocol rest p)
    unfolding next_by
    next_by-Stays rest h none = λ s j. record { holds = j }
    next_by-Stays rest h (some (pending meta)) = row_or_set-Stays meta
    next_by-Stays rest h (some (taken meta)) = λ s j.
        bind-Always (fueled (skip_taken common protocol meta)) (λ _. rest) s
          (skip_taken-Stays meta (suc (length s.incoming)) s j) (λ _. h)

    next_loop-Stays : (rounds : ℕ) → Stays J (next_loop common protocol rounds)
    unfolding next_loop
    next_loop-Stays zero = λ s j. record { holds = j }
    next_loop-Stays (suc rounds) =
        bind-Stays use_pending _ use_pending-Stays (next_by-Stays _ (next_loop-Stays rounds))

    drop_rows-Stays : (fuel : ℕ) → Stays J (drop_rows common protocol fuel)
    unfolding drop_rows next
    drop_rows-Stays zero = λ s j. record { holds = j }
    drop_rows-Stays (suc fuel) =
        bind-Stays (next common protocol) _ (next_loop-Stays 2)
          (by_row-Stays _ _ (λ _. drop_rows-Stays fuel) (λ s j. record { holds = j }))

    drop_loop-Stays : (fuel : ℕ) → Stays J (drop_loop common protocol fuel)
    unfolding drop_loop
    drop_loop-Stays zero s j = record { holds = j }
    drop_loop-Stays (suc fuel) s j =
        bind-Always (fueled (drop_rows common protocol)) _ s
          (drop_rows-Stays (suc (length s.incoming)) s j)
          (λ _ s'.
            Stays-of_if (has_pending_result s'.conn) _ _ (drop_loop-Stays fuel)
              (λ s j. record { holds = j }) s')

    pub drop_result-Stays : Stays J (drop_result common protocol)
    unfolding drop_result
    drop_result-Stays s j = drop_loop-Stays (suc (length s.incoming)) s j

  drop_pending-Stays : (p : Option PendingResult) → Stays J (drop_pending common p)
  unfolding drop_pending
  drop_pending-Stays none = λ s j. record { holds = j }
  drop_pending-Stays (some (pending (text cols))) = drop_result-Stays text_protocol
  drop_pending-Stays (some (pending (binary cols))) = drop_result-Stays binary_protocol
  drop_pending-Stays (some (taken meta)) = λ s j. record { holds = j }

  pub drop_conn_result-Stays : Stays J (drop_conn_result common)
  unfolding drop_conn_result
  drop_conn_result-Stays = bind-Stays take_meta _ take_meta-Stays (λ meta s j.
      bind-Stays use_pending (drop_pending common) use_pending-Stays drop_pending-Stays _ j)
