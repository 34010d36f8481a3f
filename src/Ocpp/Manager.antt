-- ===== src/Ocpp/Manager.antt =====
-- `OcppClientManager`: the message processor and the WebSocket client put together.
use ocpp_gw.Base.{ℤ, String, Bool, true, false, Option, some, List, [], ◌∷◌, ◌++◌, if◌then◌else◌}
use ocpp_gw.Ocpp.Json.{JsonLib}
use ocpp_gw.Ocpp.Message.{OcppMessage, OcppMessageAction}
use ocpp_gw.Ocpp.Processor.{OcppMessageProcessor, Calls, Handler, create}
use ocpp_gw.Ocpp.Delivery.{delivered}
use ocpp_gw.Ocpp.Channel.{Event, sending, receiving, connecting, step, accepted_by}
use ocpp_gw.Ocpp.Backoff.{WebSocketConfig}
use ocpp_gw.Ocpp.WebSocketState as WebSocket
use ocpp_gw.Ocpp.WebSocketState.{
  connected, set_error_handler, set_close_handler, set_message_handler, WebSocketClient, state_eq,
  Notice, connect_notice, message_notice, close_notice, error_notice,
}
use ocpp_gw.Ocpp.WebSocketClient.{send}
use ocpp_gw.Ocpp.WebSocketRuns as Web

-- The texts of JSON values as strings, and back.
pub record Texts (l : JsonLib) : Type 0 where
  pub to_text : l.Wire → String
  pub of_text : String → l.Wire

-- Of the processor's calls, those of the last operation only are kept; `accepted` is a log of the texts for
-- which `sendMessage` returned true.
pub record OcppClientManager (l : JsonLib) : Type 0 where
  pub processor : OcppMessageProcessor l
  pub ws_client : WebSocketClient
  pub heartbeat_waits : Bool
  pub running : Bool
  pub accepted : List l.Wire

-- The message callback is `send`, whose result is dropped: it never throws.
abbrev pub message_callback : (l : JsonLib) → Calls l → l.Wire → Bool
message_callback l cs w = true

-- `handlers` are those of `registerMessageHandlers`.
unfoldable pub init_message_processor :
    (l : JsonLib) → (OcppMessageAction → Option (Handler l)) → OcppMessageProcessor l
init_message_processor l handlers = record (create l) {
  callback = some (message_callback l);
  handlers = handlers;
}

unfoldable pub init_web_socket_client : WebSocketConfig → Bool → WebSocketClient
init_web_socket_client config valid =
    set_error_handler true
      (set_close_handler true (set_message_handler true (WebSocket.create config valid)))

module _ {l : JsonLib} (t : Texts l) where
  unfoldable pub forward : List l.Wire → WebSocketClient → WebSocketClient
  forward [] c = c
  forward (w ∷ ws) c = forward ws (send (t.to_text w) c).1

  -- An operation of the processor, with what it hands to the client.
  unfoldable pub perform : Event l → OcppClientManager l → OcppClientManager l
  perform e m =
      let p : OcppMessageProcessor l = record m.processor { calls = [] } in
      let q = step e p in
      record m {
        processor = q;
        ws_client = forward (delivered q.calls) m.ws_client;
        accepted = m.accepted ++ accepted_by e p;
      }

  -- `boot` is the request of `sendBootNotification`.
  unfoldable pub on_web_socket_connect :
      Bool → OcppMessage l → OcppClientManager l → OcppClientManager l
  on_web_socket_connect true boot m =
      perform (sending boot) (record (perform (connecting true) m) { heartbeat_waits = true })
  on_web_socket_connect false boot m = perform (connecting false) m

  unfoldable pub on_web_socket_message : String → OcppClientManager l → OcppClientManager l
  on_web_socket_message s m = perform (receiving (t.of_text s)) m

  unfoldable pub on_web_socket_close : OcppClientManager l → OcppClientManager l
  on_web_socket_close m = record (perform (connecting false) m) { heartbeat_waits = false }

  unfoldable pub on_web_socket_error : OcppClientManager l → OcppClientManager l
  on_web_socket_error m = perform (connecting false) m

  abbrev pub handle_notice : OcppMessage l → Notice → OcppClientManager l → OcppClientManager l
  handle_notice boot (connect_notice is_connected) m = on_web_socket_connect is_connected boot m
  handle_notice boot (message_notice s) m = on_web_socket_message s m
  handle_notice boot (close_notice _) m = on_web_socket_close m
  handle_notice boot (error_notice _ _) m = on_web_socket_error m

  unfoldable pub handle_notices :
      OcppMessage l → List Notice → OcppClientManager l → OcppClientManager l
  handle_notices boot [] m = m
  handle_notices boot (n ∷ ns) m = handle_notices boot ns (handle_notice boot n m)

  -- A step of the client, then the handlers that it called; each of them is called once, at the end of the
  -- step or where what follows does not depend on it.
  unfoldable pub web_socket_step :
      Web.Event → OcppMessage l → OcppClientManager l → OcppClientManager l
  web_socket_step e boot m =
      let c = Web.step e (record m.ws_client { notices = [] }) in
      handle_notices boot c.notices (record m { ws_client = c })

  -- `request` is the request of `sendHeartbeat`.
  unfoldable pub on_heartbeat_timer :
      Bool → OcppMessage l → OcppClientManager l → OcppClientManager l
  on_heartbeat_timer aborted request m =
      let next = perform (sending request) m in
      if aborted
      then m
      else if state_eq m.ws_client.state connected
      then record next { heartbeat_waits = true }
      else record m { heartbeat_waits = false }

  -- A start of a manager whose earlier client, if it had one, has no operation outstanding.
  unfoldable pub start :
      (OcppMessageAction → Option (Handler l))
      → WebSocketConfig
      → Bool
      → Bool
      → ℤ
      → OcppMessage l
      → OcppClientManager l
      → OcppClientManager l
  start handlers config valid set_up jitter boot m =
      let initialised : OcppClientManager l = record m {
        processor = init_message_processor l handlers;
        ws_client = init_web_socket_client config valid;
        running = true;
        accepted = [];
      } in
      if m.running
      then m
      else web_socket_step (Web.connect_call true set_up jitter) boot initialised

  -- The table of state machines, which is emptied too, is apart.
  unfoldable pub stop : Bool → Bool → OcppMessage l → OcppClientManager l → OcppClientManager l
  stop is_open closes boot m =
      let closed : OcppClientManager l =
        web_socket_step (Web.close_call is_open closes) boot
          (record m { heartbeat_waits = false }) in
      if m.running then record closed { running = false } else m
