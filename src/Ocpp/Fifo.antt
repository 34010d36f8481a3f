-- ===== src/Ocpp/Fifo.antt =====
-- The message processor over a history loses no message and lets none overtake another.
use ocpp_gw.Base.{
  ℕ, ◌+◌, ◌≡◌, refl, sym, ap, ◌∙◌, subst, Bool, true, false, not, Bool-cases, Option, inl, inr,
  none, some, List, [], ◌∷◌, ◌++◌, map, append-nil, append_assoc, length, if◌then◌else◌, arith,
}
use ocpp_gw.Ocpp.Json.{JsonLib}
use ocpp_gw.Ocpp.Message.{OcppMessage}
use ocpp_gw.Ocpp.Codec.{Pending, Parsed, serialize_message, parse_message}
use ocpp_gw.Ocpp.Processor.{
  OcppMessageProcessor, Calls, Drained, count_sent, send_direct_message, queue_message,
  store_pending, send_text, send_message, drain, process_queue, set_connected, handle_message,
  respond, process_parsed, process_incoming_message,
}
use ocpp_gw.Ocpp.Delivery.{delivered, delivered-append, send_direct_message_lem}
use ocpp_gw.Ocpp.Channel.{
  Event, sending, receiving, connecting, processing, text_of, step, run, accepted_message,
  accepted_respond, accepted_parsed, accepted_response, accepted_by, accepted, contents,
}

-- A processor with the callback `f` that keeps nothing waiting while it is connected.
pub record IsCaughtUp {l : JsonLib} (f : Calls l → l.Wire → Bool) (p : OcppMessageProcessor l)
    : Type 0 where
  pub has_callback : p.callback ≡ some f
  pub none_waiting : p.connected ≡ true → p.message_queue ≡ []

-- `q` is such a processor, and has accepted the texts `ws` more than `p`.
pub record IsExtended {l : JsonLib} (f : Calls l → l.Wire → Bool) (p : OcppMessageProcessor l)
    (ws : List l.Wire) (q : OcppMessageProcessor l) : Type 0 where
  pub caught_up : IsCaughtUp f q
  pub extended : contents q ≡ contents p ++ ws

delivered-map {ℓ} : {W : Type ℓ} (ws : List W) → delivered (map (λ w. (w, true)) ws) ≡ ws
unfolding delivered
delivered-map [] = refl
delivered-map (w ∷ ws) = ap (w ∷◌) (delivered-map ws)

module _ {l : JsonLib} {f : Calls l → l.Wire → Bool} where
  same-IsExtended :
      (p q : OcppMessageProcessor l)
      → IsCaughtUp f q
      → contents q ≡ contents p
      → IsExtended f p [] q
  same-IsExtended p q c e = record { caught_up = c; extended = e ∙ sym (append-nil (contents p)) }

  IsExtended-transitive :
      (p q r : OcppMessageProcessor l) (ws vs : List l.Wire)
      → IsExtended f p ws q
      → IsExtended f q vs r
      → IsExtended f p (ws ++ vs) r
  IsExtended-transitive p q r ws vs a b = record {
    caught_up = b.caught_up;
    extended = b.extended ∙ ap (λ x. x ++ vs) a.extended ∙ append_assoc (contents p) ws vs;
  }

  module _ (returns : (cs : Calls l) (w : l.Wire) → f cs w ≡ true) where
    send_direct_message-true :
        (w : l.Wire) (p : OcppMessageProcessor l)
        → p.callback ≡ some f
        → send_direct_message w p ≡ (true, record p { calls = p.calls ++ (w, true) ∷ [] })
    send_direct_message-true w p h =
        let made : Bool → Bool × OcppMessageProcessor l =
          λ b. (b, record p { calls = p.calls ++ (w, b) ∷ [] }) in
        send_direct_message_lem f w p h ∙ ap made (returns p.calls w)

    direct-IsExtended :
        (w : l.Wire) (pending : Pending) (p : OcppMessageProcessor l)
        → IsCaughtUp f p
        → p.connected ≡ true
        → IsExtended f p
            (w ∷ [])
            (record p { pending_requests = pending; calls = p.calls ++ (w, true) ∷ [] })
    unfolding contents delivered
    direct-IsExtended w pending p c h = record {
      caught_up = record { has_callback = c.has_callback; none_waiting = c.none_waiting };
      extended =
          ap (λ x. x ++ p.message_queue) (delivered-append p.calls ((w, true) ∷ []))
          ∙ rw (c.none_waiting h, append-nil (delivered p.calls))
              (append-nil (delivered p.calls ++ w ∷ []));
    }

    queue_message-IsExtended :
        (w : l.Wire) (p : OcppMessageProcessor l)
        → IsCaughtUp f p
        → p.connected ≡ false
        → IsExtended f p (w ∷ []) (queue_message w p)
    unfolding contents queue_message
    queue_message-IsExtended w p c h = record {
      caught_up = record { has_callback = c.has_callback; none_waiting = λ e. cc };
      extended = sym (append_assoc (delivered p.calls) p.message_queue (w ∷ []));
    }

    send_text-IsExtended :
        (m : OcppMessage l) (w : l.Wire) (p : OcppMessageProcessor l)
        → IsCaughtUp f p
        → IsExtended f p (if (send_text m w p).0 then w ∷ [] else []) (send_text m w p).1
    unfolding send_text
    send_text-IsExtended m w p c =
        let pending = store_pending m.type m.id m.action p.pending_requests in
        let q : OcppMessageProcessor l = record p { pending_requests = pending } in
        let Next : Bool × OcppMessageProcessor l → Type 0 =
          λ s. IsExtended f p (if s.0 then w ∷ [] else []) s.1 in
        let text : Bool → Bool × OcppMessageProcessor l =
          λ b. if b then send_direct_message w q else (true, queue_message w p) in
        elim (Bool-cases p.connected) [
          | inl h ↦
              subst Next (sym (ap text h ∙ send_direct_message-true w q c.has_callback))
                (direct-IsExtended w pending p c h)
          | inr h ↦ subst Next (sym (ap text h)) (queue_message-IsExtended w p c h)
        ]

    send_message-IsExtended :
        (m : OcppMessage l) (p : OcppMessageProcessor l)
        → IsCaughtUp f p
        → IsExtended f p (accepted_message m p) (send_message m p).1
    unfolding send_message accepted_message
    send_message-IsExtended m p c =
        let result : Option l.Wire → Bool × OcppMessageProcessor l =
          λ o. elim o [ none ↦ (false, p) | some w ↦ send_text m w p ] in
        let texts : Option l.Wire → List l.Wire = λ o. if (result o).0 then text_of o else [] in
        elim (serialize_message m) as (λ o. IsExtended f p (texts o) (result o).1) [
          | none ↦ same-IsExtended p p c refl
          | some w ↦ send_text-IsExtended m w p c
        ]

    respond-IsExtended :
        (r : Option (Option (OcppMessage l))) (p : OcppMessageProcessor l)
        → IsCaughtUp f p
        → IsExtended f p (accepted_respond r p) (respond r p).1
    respond-IsExtended none p c = same-IsExtended p p c refl
    respond-IsExtended (some none) p c = same-IsExtended p p c refl
    respond-IsExtended (some (some response)) p c = send_message-IsExtended response p c

    process_parsed-IsExtended :
        (r : Parsed l) (p : OcppMessageProcessor l)
        → IsCaughtUp f p
        → IsExtended f p (accepted_parsed r p) (process_parsed r p).1
    unfolding contents
    process_parsed-IsExtended none p c = same-IsExtended p p c refl
    process_parsed-IsExtended (some (m, pending)) p c =
        let q : OcppMessageProcessor l = record p { pending_requests = pending } in
        let r = handle_message m q in
        let q_caught_up : IsCaughtUp f q = record {
          has_callback = c.has_callback;
          none_waiting = c.none_waiting;
        } in
        let e = respond-IsExtended r q q_caught_up in
        record { caught_up = e.caught_up; extended = e.extended }

    drain_lem :
        (ws : List l.Wire) (p : OcppMessageProcessor l)
        → p.callback ≡ some f
        → drain ws p ≡ (length ws, [], record p { calls = p.calls ++ map (λ w. (w, true)) ws })
    unfolding drain count_sent
    drain_lem [] p h =
        let end : Calls l → Drained l = λ cs. (0, [], record p { calls = cs }) in
        ap end (sym (append-nil p.calls))
    drain_lem (w ∷ ws) p h =
        let q : OcppMessageProcessor l = record p { calls = p.calls ++ (w, true) ∷ [] } in
        let next : Bool × OcppMessageProcessor l → Drained l =
          λ s. count_sent s.0 w (drain ws s.1) in
        let end : Calls l → Drained l = λ cs. (1 + length ws, [], record p { calls = cs }) in
        ap next (send_direct_message-true w p h)
        ∙ ap (count_sent true w) (drain_lem ws q h)
        ∙ ap end (append_assoc p.calls ((w, true) ∷ []) (map (λ v. (v, true)) ws))
        ∙ ap {A = ℕ} (λ n. (n, [], record p { calls = p.calls ++ map (λ v. (v, true)) (w ∷ ws) }))
            (omega arith)

    -- `p` after every queued message was delivered.
    abbrev pub flushed : OcppMessageProcessor l → OcppMessageProcessor l
    flushed p = record p {
      calls = p.calls ++ map (λ w. (w, true)) p.message_queue;
      message_queue = [];
    }

    contents-flushed : (p : OcppMessageProcessor l) → contents (flushed p) ≡ contents p
    unfolding contents
    contents-flushed p =
        append-nil (delivered (p.calls ++ map (λ w. (w, true)) p.message_queue))
        ∙ delivered-append p.calls (map (λ w. (w, true)) p.message_queue)
        ∙ ap (delivered p.calls ++◌) (delivered-map p.message_queue)

    pub process_queue-offline :
        (p : OcppMessageProcessor l) → p.connected ≡ false → (process_queue p).1 ≡ p
    unfolding process_queue
    process_queue-offline p c =
        let r = drain p.message_queue p in
        let result : Bool → ℕ × OcppMessageProcessor l =
          λ b. if b then (r.0, record (r.2) { message_queue = r.1 }) else (0, p) in
        ap (λ b. (result b).1) c

    pub process_queue-flushed :
        (p : OcppMessageProcessor l)
        → p.callback ≡ some f
        → p.connected ≡ true
        → (process_queue p).1 ≡ flushed p
    unfolding process_queue
    process_queue-flushed p h c =
        let end : Drained l → OcppMessageProcessor l = λ r. record (r.2) { message_queue = r.1 } in
        let r = drain p.message_queue p in
        let result : Bool → ℕ × OcppMessageProcessor l = λ b. if b then (r.0, end r) else (0, p) in
        ap (λ b. (result b).1) c ∙ ap end (drain_lem p.message_queue p h)

    flushed-IsExtended :
        (p : OcppMessageProcessor l) → p.callback ≡ some f → IsExtended f p [] (flushed p)
    flushed-IsExtended p h =
        same-IsExtended p (flushed p) (record { has_callback = h; none_waiting = λ _. refl })
          (contents-flushed p)

    process_queue-IsExtended :
        (p : OcppMessageProcessor l) → IsCaughtUp f p → IsExtended f p [] (process_queue p).1
    process_queue-IsExtended p c = elim (Bool-cases p.connected) [
      | inl h ↦
          subst (IsExtended f p []) (sym (process_queue-flushed p c.has_callback h))
            (flushed-IsExtended p c.has_callback)
      | inr h ↦
          subst (IsExtended f p []) (sym (process_queue-offline p h)) (same-IsExtended p p c refl)
    ]

    set_connected-IsExtended :
        (connected : Bool) (p : OcppMessageProcessor l)
        → IsCaughtUp f p
        → IsExtended f p [] (set_connected connected p)
    unfolding set_connected contents
    set_connected-IsExtended false p c = record {
      caught_up = record { has_callback = c.has_callback; none_waiting = λ e. cc };
      extended = sym (append-nil (contents p));
    }
    set_connected-IsExtended true p c =
        let q : OcppMessageProcessor l = record p { connected = true } in
        let result : Bool → OcppMessageProcessor l =
          λ b. if not b then (process_queue q).1 else q in
        elim (Bool-cases p.connected) [
          | inl h ↦ subst (IsExtended f p []) (sym (ap result h)) (
              same-IsExtended p q
                (record { has_callback = c.has_callback; none_waiting = λ _. c.none_waiting h })
                refl)
          | inr h ↦
              subst (IsExtended f p [])
                (sym (ap result h ∙ process_queue-flushed q c.has_callback refl))
                (let e = flushed-IsExtended q c.has_callback in
                  record { caught_up = e.caught_up; extended = e.extended })
        ]

    pub step-IsExtended :
        (e : Event l) (p : OcppMessageProcessor l)
        → IsCaughtUp f p
        → IsExtended f p (accepted_by e p) (step e p)
    unfolding process_incoming_message accepted_response
    step-IsExtended (sending m) p c = send_message-IsExtended m p c
    step-IsExtended (receiving w) p c =
        process_parsed-IsExtended (parse_message l w p.pending_requests) p c
    step-IsExtended (connecting connected) p c = set_connected-IsExtended connected p c
    step-IsExtended processing p c = process_queue-IsExtended p c

    -- Where the message callback never throws and a connected processor starts with nothing waiting: over
    -- every history of sends, incoming messages, changes of the connection and calls of `processQueue`, what
    -- has been delivered and then what waits is what it was, followed by the text of every message and response
    -- that was accepted, in order and once each; and nothing waits whenever it is connected.
    pub run-IsExtended :
        (es : List (Event l)) (p : OcppMessageProcessor l)
        → IsCaughtUp f p
        → IsExtended f p (accepted es p) (run es p)
    unfolding run accepted
    run-IsExtended [] p c = same-IsExtended p p c refl
    run-IsExtended (e ∷ es) p c =
        let first = step-IsExtended e p c in
        IsExtended-transitive p (step e p) (run es (step e p)) (accepted_by e p)
          (accepted es (step e p)) first (run-IsExtended es (step e p) first.caught_up)
