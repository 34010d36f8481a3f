-- ===== src/Ocpp/Channel.antt =====
-- The processor over a history of calls, as a channel in which no message is lost or overtaken.
use ocpp_gw.Base.{Bool, Option, none, some, List, [], ◌∷◌, ◌++◌, if◌then◌else◌}
use ocpp_gw.Ocpp.Json.{JsonLib}
use ocpp_gw.Ocpp.Message.{OcppMessage}
use ocpp_gw.Ocpp.Codec.{Parsed, serialize_message, parse_message}
use ocpp_gw.Ocpp.Processor.{
  OcppMessageProcessor, send_message, process_queue, set_connected, handle_message,
  process_incoming_message,
}
use ocpp_gw.Ocpp.Delivery.{delivered}

-- What the client manager and the connection do with a processor.
pub data Event (l : JsonLib) : Type 0 where
  sending : OcppMessage l → Event l
  receiving : l.Wire → Event l
  connecting : Bool → Event l
  processing : Event l

abbrev pub text_of {ℓ} : {W : Type ℓ} → Option W → List W
text_of none = []
text_of (some w) = w ∷ []

module _ {l : JsonLib} where
  abbrev pub step : Event l → OcppMessageProcessor l → OcppMessageProcessor l
  step (sending m) p = (send_message m p).1
  step (receiving w) p = (process_incoming_message w p).1
  step (connecting connected) p = set_connected connected p
  step processing p = (process_queue p).1

  unfoldable pub run : List (Event l) → OcppMessageProcessor l → OcppMessageProcessor l
  run [] p = p
  run (e ∷ es) p = run es (step e p)

  -- The text of a message for which `sendMessage` returns true.
  unfoldable pub accepted_message : OcppMessage l → OcppMessageProcessor l → List l.Wire
  accepted_message m p = if (send_message m p).0 then text_of (serialize_message m) else []

  abbrev pub accepted_respond :
      Option (Option (OcppMessage l)) → OcppMessageProcessor l → List l.Wire
  accepted_respond (some (some response)) p = accepted_message response p
  accepted_respond _ p = []

  abbrev pub accepted_parsed : Parsed l → OcppMessageProcessor l → List l.Wire
  accepted_parsed none p = []
  accepted_parsed (some (m, pending)) p =
      let q : OcppMessageProcessor l = record p { pending_requests = pending } in
      accepted_respond (handle_message m q) q

  unfoldable pub accepted_response : l.Wire → OcppMessageProcessor l → List l.Wire
  accepted_response w p = accepted_parsed (parse_message l w p.pending_requests) p

  abbrev pub accepted_by : Event l → OcppMessageProcessor l → List l.Wire
  accepted_by (sending m) p = accepted_message m p
  accepted_by (receiving w) p = accepted_response w p
  accepted_by (connecting _) p = []
  accepted_by processing p = []

  -- The texts of the messages and responses accepted over a history, in order.
  unfoldable pub accepted : List (Event l) → OcppMessageProcessor l → List l.Wire
  accepted [] p = []
  accepted (e ∷ es) p = accepted_by e p ++ accepted es (step e p)

  -- What has been delivered, then what waits.
  unfoldable pub contents : OcppMessageProcessor l → List l.Wire
  contents p = delivered p.calls ++ p.message_queue
