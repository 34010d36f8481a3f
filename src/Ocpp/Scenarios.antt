-- ===== src/Ocpp/Scenarios.antt =====
-- The OCPP side on concrete inputs. JSON values stand for their own texts (`ToyJson`).
use ocpp_gw.Base.{
  pos, String, ◌≡◌, refl, Bool, true, false, none, some, List, [], ◌∷◌, str_eq, if◌then◌else◌,
}
use ocpp_gw.Base.Dict.{lookup, insert, erase}
use ocpp_gw.Ocpp.Message.{
  action_to_string, status_notification, heartbeat, OcppMessage, create_call, create_call_result,
  create_call_error, error_members,
}
use ocpp_gw.Ocpp.Codec.{serialize_message, body, parse_message}
use ocpp_gw.Ocpp.RoundTrip.{is_error, received, parse_message-serialize_message}
use ocpp_gw.Ocpp.Processor.{
  OcppMessageProcessor, Calls, create, send_direct_message, count_sent, drain, send_message,
  process_queue,
}
use ocpp_gw.Ocpp.Channel.{Event, sending, receiving, connecting, accepted, run}
use ocpp_gw.Ocpp.Fifo.{IsExtended, run-IsExtended}
use ocpp_gw.Ocpp.Requests.{answer, parse_message-send_message}
use ocpp_gw.Ocpp.Backoff.{WebSocketConfig}
use ocpp_gw.Ocpp.WebSocketState as WebSocket
use ocpp_gw.Ocpp.Manager.{Texts, OcppClientManager, start}
use ocpp_gw.Ocpp.ManagerOrder.{IsLinked}
use ocpp_gw.Ocpp.EndToEnd.{ManagerEvent, requesting, completing, manager_run, manager_run-IsLinked}
use ocpp_gw.Ocpp.ToyJson.{Value, nil, num, str, infinity, arr, values, json, json-IsJson}

abbrev denied : OcppMessage json
denied = create_call_error "7" "Denied" "not allowed" (str "no card")

abbrev denied_text : Value
denied_text =
    arr (values (num (pos 4) ∷ str "7" ∷ str "Denied" ∷ str "not allowed" ∷ str "no card" ∷ []))

parse_message-serialize_message_example :
    parse_message json denied_text [] ≡ some (received denied [])
unfolding serialize_message body create_call_error error_members insert lookup
parse_message-serialize_message_example =
    parse_message-serialize_message json-IsJson denied denied_text []
      (is_error "7" "Denied" "not allowed" (str "no card") refl) refl refl

abbrev refusal_text : Value
refusal_text = arr (values (num (pos 4) ∷ str "7" ∷ str "NotImplemented" ∷ str "No handler" ∷ []))

-- The second of three queued messages cannot be sent.
abbrev flaky : Calls json → Value → Bool
flaky cs (str s) = if str_eq s "b" then false else true
flaky cs _ = true

abbrev queued : OcppMessageProcessor json
queued = record (create json) {
  callback = some flaky;
  message_queue = str "a" ∷ str "b" ∷ str "c" ∷ [];
  connected = true;
}

process_queue_run : ((process_queue queued).1).message_queue ≡ str "b" ∷ []
unfolding process_queue drain count_sent send_direct_message create
process_queue_run = refl

abbrev reliable : Calls json → Value → Bool
reliable cs w = true

abbrev started : OcppMessageProcessor json
started = record (create json) { callback = some reliable }

abbrev heartbeat_call : OcppMessage json
heartbeat_call = create_call "x" "1" heartbeat nil

abbrev status_call : OcppMessage json
status_call = create_call "y" "2" status_notification nil

abbrev heartbeat_text : Value
heartbeat_text = arr (values (num (pos 2) ∷ str "1" ∷ str "Heartbeat" ∷ nil ∷ []))

-- Two messages sent offline, then the connection, an incoming call that has no handler, and its loss.
abbrev history : List (Event json)
history =
    sending heartbeat_call
    ∷ sending status_call
    ∷ connecting true
    ∷ receiving heartbeat_text
    ∷ connecting false
    ∷ []

run-IsExtended_example :
    IsExtended reliable started (accepted history started) (run history started)
unfolding create
run-IsExtended_example =
    run-IsExtended (λ cs w. refl) history started
      (record { has_callback = refl; none_waiting = λ h. refl })

-- Connected, with an older request of another id.
abbrev talking : OcppMessageProcessor json
talking = record started { connected = true; pending_requests = ("0", status_notification) ∷ [] }

parse_message-send_message_example :
    parse_message json
      (arr (values (num (pos 3) ∷ str "1" ∷ str "done" ∷ [])))
      (send_message heartbeat_call talking).1.pending_requests
    ≡ some (
      answer heartbeat_call (str "done") heartbeat,
      erase "1" (send_message heartbeat_call talking).1.pending_requests,
    )
unfolding create create_call serialize_message body lookup create_call_result action_to_string
parse_message-send_message_example =
    parse_message-send_message json-IsJson heartbeat_call heartbeat_text
      (arr (values (num (pos 3) ∷ str "1" ∷ str "done" ∷ []))) (str "done") talking refl refl refl
      refl

-- An infinite number is written as null, so a message with it is not read back.
infinite_payload :
    serialize_message (create_call_result {l = json} "1" infinity)
    ≡ some (arr (values (num (pos 3) ∷ str "1" ∷ nil ∷ [])))
unfolding serialize_message body create_call_result
infinite_payload = refl

-- Texts that are JSON strings stand for themselves; the others are told apart by their kind only.
abbrev shown : Value → String
shown (str s) = s
shown (arr _) = "array"
shown _ = "value"

abbrev texts : Texts json
texts = record { to_text = shown; of_text = λ s. str s }

abbrev config : WebSocketConfig
config = record { reconnect_interval = 5; max_reconnect_interval = 300; max_reconnect_attempts = 3 }

abbrev stopped : OcppClientManager json
stopped = record {
  processor = create json;
  ws_client = WebSocket.create config true;
  heartbeat_waits = false;
  running = false;
  accepted = [];
}

-- A request while the connection is being made, the connection, and the loss of it.
abbrev day : List (ManagerEvent json)
day =
    requesting status_call
    ∷ completing WebSocket.resolve WebSocket.success "" true (pos 0) heartbeat_call
    ∷ completing WebSocket.tcp_connect WebSocket.success "" true (pos 0) heartbeat_call
    ∷ completing WebSocket.ssl_handshake WebSocket.success "" true (pos 0) heartbeat_call
    ∷ completing WebSocket.handshake WebSocket.success "" true (pos 0) heartbeat_call
    ∷ completing WebSocket.read WebSocket.other "" true (pos 0) heartbeat_call
    ∷ requesting status_call
    ∷ []

manager_run-IsLinked_example : IsLinked texts (
    manager_run texts day (start texts (λ _. none) config true true (pos 0) heartbeat_call stopped))
unfolding create
manager_run-IsLinked_example =
    manager_run-IsLinked texts day (λ _. none) config true true (pos 0) heartbeat_call stopped refl
