-- ===== src/Ocpp/Steady.antt =====
-- The connection flag of the message processor, and what follows from it for the callback.
use ocpp_gw.Base.{◌≡◌, inl, inr, refl, ap, Bool, true, false, Bool-cases, Option, none, some, arith}
use ocpp_gw.Ocpp.Json.{JsonLib}
use ocpp_gw.Ocpp.Message.{OcppMessage}
use ocpp_gw.Ocpp.Codec.{Parsed, serialize_message, parse_message}
use ocpp_gw.Ocpp.Processor.{
  OcppMessageProcessor, send_direct_message, queue_message, store_pending, send_text, send_message,
  respond, process_parsed, process_incoming_message, handle_message, set_connected, process_queue,
}
use ocpp_gw.Ocpp.Channel.{Event, sending, receiving, connecting, processing, step}
use ocpp_gw.Ocpp.Fifo.{process_queue-flushed, process_queue-offline}
use ocpp_gw.Ocpp.Manager.{message_callback}

module _ {l : JsonLib} where
  -- An operation that leaves the connection flag alone, and calls the callback only when it is set.
  pub record IsSteady (p q : OcppMessageProcessor l) : Type 0 where
    pub same : q.connected ≡ p.connected
    pub quiet : p.connected ≡ false → q.calls ≡ p.calls

  send_direct_message-connected :
      (w : l.Wire) (p : OcppMessageProcessor l)
      → (send_direct_message w p).1.connected ≡ p.connected
  unfolding send_direct_message
  send_direct_message-connected w p = ground arith

  send_text-IsSteady :
      (m : OcppMessage l) (w : l.Wire) (p : OcppMessageProcessor l) → IsSteady p (send_text m w p).1
  unfolding send_text queue_message
  send_text-IsSteady m w p =
      let q : OcppMessageProcessor l = record p {
        pending_requests = store_pending m.type m.id m.action p.pending_requests;
      } in
      record {
        same = ground (arith, send_direct_message-connected w q);
        quiet = λ off. ground arith;
      }

  send_message-IsSteady :
      (m : OcppMessage l) (p : OcppMessageProcessor l) → IsSteady p (send_message m p).1
  unfolding send_message
  send_message-IsSteady m p =
      let result : Option l.Wire → Bool × OcppMessageProcessor l =
        λ o. elim o [ none ↦ (false, p) | some w ↦ send_text m w p ] in
      elim (serialize_message m) as (λ o. IsSteady p (result o).1) [
        | none ↦ record { same = refl; quiet = λ _. refl }
        | some w ↦ send_text-IsSteady m w p
      ]

  respond-IsSteady :
      (r : Option (Option (OcppMessage l))) (p : OcppMessageProcessor l)
      → IsSteady p (respond r p).1
  respond-IsSteady none p = record { same = refl; quiet = λ _. refl }
  respond-IsSteady (some none) p = record { same = refl; quiet = λ _. refl }
  respond-IsSteady (some (some response)) p = send_message-IsSteady response p

  process_parsed-IsSteady :
      (r : Parsed l) (p : OcppMessageProcessor l) → IsSteady p (process_parsed r p).1
  process_parsed-IsSteady none p = record { same = refl; quiet = λ _. refl }
  process_parsed-IsSteady (some (m, pending)) p =
      let q : OcppMessageProcessor l = record p { pending_requests = pending } in
      let s = respond-IsSteady (handle_message m q) q in record { same = s.same; quiet = s.quiet }

  -- The connection flag after a call of the processor.
  abbrev pub flag_after : Event l → Bool → Bool
  flag_after (connecting b) before = b
  flag_after _ before = before

  set_connected-true :
      (p : OcppMessageProcessor l)
      → p.callback ≡ some (message_callback l)
      → (set_connected true p).connected ≡ true
  unfolding set_connected
  set_connected-true p h =
      let q : OcppMessageProcessor l = record p { connected = true } in
      ground (arith, ap (λ r. r.connected) (process_queue-flushed (λ cs w. refl) q h refl))

  set_connected-false : (p : OcppMessageProcessor l) → (set_connected false p).connected ≡ false
  unfolding set_connected
  set_connected-false p = refl

  process_queue-flag :
      (p : OcppMessageProcessor l)
      → p.callback ≡ some (message_callback l)
      → IsSteady p (process_queue p).1
  process_queue-flag p h = elim (Bool-cases p.connected) [
    | inl c ↦
        let flushes = process_queue-flushed {f = message_callback l} (λ cs w. refl) p h c in
        record { same = ap (λ r. r.connected) flushes; quiet = λ off. cc }
    | inr c ↦
        let stays = process_queue-offline {f = message_callback l} (λ cs w. refl) p c in
        record { same = ap (λ r. r.connected) stays; quiet = λ _. ap (λ r. r.calls) stays }
  ]

  -- Where the flag is not set after an operation, the callback was not called.
  pub step-quiet :
      (e : Event l) (p : OcppMessageProcessor l)
      → p.callback ≡ some (message_callback l)
      → flag_after e p.connected ≡ false
      → (step e p).calls ≡ p.calls
  unfolding process_incoming_message set_connected
  step-quiet (sending m) p h off = (send_message-IsSteady m p).quiet off
  step-quiet (receiving w) p h off =
      (process_parsed-IsSteady (parse_message l w p.pending_requests) p).quiet off
  step-quiet (connecting true) p h off = ground arith
  step-quiet (connecting false) p h off = refl
  step-quiet processing p h off = (process_queue-flag p h).quiet off

  pub step-flag :
      (e : Event l) (p : OcppMessageProcessor l)
      → p.callback ≡ some (message_callback l)
      → (step e p).connected ≡ flag_after e p.connected
  unfolding process_incoming_message
  step-flag (sending m) p h = (send_message-IsSteady m p).same
  step-flag (receiving w) p h =
      (process_parsed-IsSteady (parse_message l w p.pending_requests) p).same
  step-flag (connecting true) p h = set_connected-true p h
  step-flag (connecting false) p h = set_connected-false p
  step-flag processing p h = (process_queue-flag p h).same
