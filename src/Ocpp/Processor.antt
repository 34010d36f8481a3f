-- ===== src/Ocpp/Processor.antt =====
-- `OcppMessageProcessor`: messages sent directly or queued, and the dispatch of incoming ones.
use ocpp_gw.Base.{
  ℕ, ◌+◌, String, Bool, true, false, not, ◌&&◌, Option, none, some, List, [], ◌∷◌, ◌++◌,
  if◌then◌else◌,
}
use ocpp_gw.Base.Dict.{insert}
use ocpp_gw.Ocpp.Json.{JsonLib}
use ocpp_gw.Ocpp.Message.{
  MessageType, call, OcppMessageAction, action_to_string, action_eq, OcppMessage, create_call_error,
}
use ocpp_gw.Ocpp.Codec.{Pending, Parsed, serialize_message, parse_message}
use Prim.Native.String.{◌++◌ as str_append}

-- `OcppMessageHandler`: the response if there is one; `none` where it throws.
abbrev pub Handler : JsonLib → Type 0
Handler l = OcppMessage l → Option (Option (OcppMessage l))

-- The calls of the message callback in their order, each with whether it returned (or threw).
abbrev pub Calls : JsonLib → Type 0
Calls l = List (l.Wire × Bool)

-- `callback` tells whether the next call returns. A handler that is absent or null is `none`.
pub record OcppMessageProcessor (l : JsonLib) : Type 0 where
  pub handlers : OcppMessageAction → Option (Handler l)
  pub callback : Option (Calls l → l.Wire → Bool)
  pub calls : Calls l
  pub message_queue : List l.Wire
  pub connected : Bool
  pub pending_requests : Pending

unfoldable pub create : (l : JsonLib) → OcppMessageProcessor l
create l = record {
  handlers = λ _. none;
  callback = none;
  calls = [];
  message_queue = [];
  connected = false;
  pending_requests = [];
}

unfoldable pub send_direct_message :
    {l : JsonLib} → l.Wire → OcppMessageProcessor l → Bool × OcppMessageProcessor l
send_direct_message w p = elim p.callback [
  | none ↦ (false, p)
  | some f ↦ let ok = f p.calls w in (ok, record p { calls = p.calls ++ (w, ok) ∷ [] })
]

unfoldable pub queue_message :
    {l : JsonLib} → l.Wire → OcppMessageProcessor l → OcppMessageProcessor l
queue_message w p = record p { message_queue = p.message_queue ++ w ∷ [] }

-- `pending_requests_[message.messageId] = message.action` for a call.
abbrev pub store_pending : MessageType → String → OcppMessageAction → Pending → Pending
store_pending call id action pending = insert id action pending
store_pending _ id action pending = pending

module _ {l : JsonLib} where
  -- The rest of `sendMessage`, for the message's text `w`.
  unfoldable pub send_text :
      OcppMessage l → l.Wire → OcppMessageProcessor l → Bool × OcppMessageProcessor l
  send_text m w p =
      if p.connected
      then send_direct_message w
          (record p { pending_requests = store_pending m.type m.id m.action p.pending_requests })
      else (true, queue_message w p)

  unfoldable pub send_message :
      OcppMessage l → OcppMessageProcessor l → Bool × OcppMessageProcessor l
  send_message m p = elim (serialize_message m) [ none ↦ (false, p) | some w ↦ send_text m w p ]

  unfoldable pub set_message_callback :
      Option (Calls l → l.Wire → Bool) → OcppMessageProcessor l → OcppMessageProcessor l
  set_message_callback f p = record p { callback = f }

  unfoldable pub register_handler :
      OcppMessageAction → Option (Handler l) → OcppMessageProcessor l → OcppMessageProcessor l
  register_handler action h p = record p {
    handlers = λ a. if action_eq action a then h else p.handlers a;
  }

  unfoldable pub clear_queue : OcppMessageProcessor l → OcppMessageProcessor l
  clear_queue p = record p { message_queue = [] }

-- What the loop of `processQueue` has processed, what remains, and the processor.
abbrev pub Drained : JsonLib → Type 0
Drained l = ℕ × List l.Wire × OcppMessageProcessor l

-- The loop's body after the message `w` was sent, or not.
unfoldable pub count_sent : {l : JsonLib} → Bool → l.Wire → Drained l → Drained l
count_sent true w (processed, remaining, p) = (1 + processed, remaining, p)
count_sent false w (processed, remaining, p) = (processed, w ∷ remaining, p)

unfoldable pub drain : {l : JsonLib} → List l.Wire → OcppMessageProcessor l → Drained l
drain [] p = (0, [], p)
drain (w ∷ ws) p = let sent = send_direct_message w p in count_sent sent.0 w (drain ws sent.1)

module _ {l : JsonLib} where
  -- The queue's lock is held over the loop, so nothing is queued meanwhile.
  unfoldable pub process_queue : OcppMessageProcessor l → ℕ × OcppMessageProcessor l
  process_queue p =
      let done = drain p.message_queue p in
      if p.connected then (done.0, record done.2 { message_queue = done.1 }) else (0, p)

  unfoldable pub set_connected : Bool → OcppMessageProcessor l → OcppMessageProcessor l
  set_connected connected p =
      let q : OcppMessageProcessor l = record p { connected = connected } in
      if connected && not p.connected then (process_queue q).1 else q

  unfoldable pub not_implemented : String → OcppMessageAction → OcppMessage l
  not_implemented id action =
      create_call_error id "NotImplemented"
        (str_append "No handler registered for action: " (action_to_string action)) l.null

  abbrev pub handle_by :
      MessageType → OcppMessage l → OcppMessageProcessor l → Option (Option (OcppMessage l))
  handle_by call m p = elim (p.handlers m.action) [
    | none ↦ some (some (not_implemented m.id m.action))
    | some h ↦ h m
  ]
  handle_by _ m p = some none

  unfoldable pub handle_message :
      OcppMessage l → OcppMessageProcessor l → Option (Option (OcppMessage l))
  handle_message m p = handle_by m.type m p

-- The rest of `processIncomingMessage`: after the handler, and after the parser.
abbrev pub respond :
    {l : JsonLib}
    → Option (Option (OcppMessage l))
    → OcppMessageProcessor l
    → Bool × OcppMessageProcessor l
respond none p = (false, p)
respond (some none) p = (true, p)
respond (some (some response)) p = send_message response p

abbrev pub process_parsed :
    {l : JsonLib} → Parsed l → OcppMessageProcessor l → Bool × OcppMessageProcessor l
process_parsed none p = (false, p)
process_parsed {l} (some (m, pending)) p =
    let q : OcppMessageProcessor l = record p { pending_requests = pending } in
    respond (handle_message m q) q

unfoldable pub process_incoming_message :
    {l : JsonLib} → l.Wire → OcppMessageProcessor l → Bool × OcppMessageProcessor l
process_incoming_message {l} w p = process_parsed (parse_message l w p.pending_requests) p
