-- ===== src/Ocpp/EndToEnd.antt =====
-- From the client manager to the stream: nothing accepted is lost or overtaken on the way.
use ocpp_gw.Base.{
  ℤ, ◌≡◌, refl, sym, ap, ◌∙◌, subst, String, Bool, true, false, Option, none, some, List, [], ◌∷◌,
  ◌++◌, map, append-nil, if◌then◌else◌, arith,
}
use ocpp_gw.Ocpp.Json.{JsonLib}
use ocpp_gw.Ocpp.Message.{OcppMessage}
use ocpp_gw.Ocpp.Message.{OcppMessageAction}
use ocpp_gw.Ocpp.Processor.{Handler, create}
use ocpp_gw.Ocpp.Backoff.{WebSocketConfig}
use ocpp_gw.Ocpp.WebSocketState.{set_error_handler, set_close_handler, set_message_handler}
use ocpp_gw.Ocpp.WebSocketClient.{connect}
use ocpp_gw.Ocpp.Channel.{sending, receiving, connecting}
use ocpp_gw.Ocpp.WebSocketState.{
  connected, ErrorCode, Operation, WebSocketClient, state_eq, Notice, connect_notice,
  message_notice, close_notice, error_notice,
}
use ocpp_gw.Ocpp.WebSocketRuns as Web
use ocpp_gw.Ocpp.WebSocketOrder.{connect-contents, step-contents}
use ocpp_gw.Ocpp.Notices.{
  is_down, IsReady, announces, IsAnnounced, complete-IsAnnounced, connect-IsAnnounced,
}
use ocpp_gw.Ocpp.Manager.{
  Texts, OcppClientManager, perform, on_web_socket_connect, on_web_socket_message,
  on_web_socket_close, on_web_socket_error, handle_notices, web_socket_step, on_heartbeat_timer,
  start, init_web_socket_client, init_message_processor,
}
use ocpp_gw.Ocpp.ManagerOrder.{IsConserved, IsLinked, perform-IsLinked}

-- What happens to a manager that is running: a message sent, an operation of the client that completes (and the
-- request that a new connection starts with), the heartbeat timer.
pub data ManagerEvent (l : JsonLib) : Type 0 where
  requesting : OcppMessage l → ManagerEvent l
  completing : Operation → ErrorCode → String → Bool → ℤ → OcppMessage l → ManagerEvent l
  heartbeat : Bool → OcppMessage l → ManagerEvent l

module _ {l : JsonLib} (t : Texts l) where
  abbrev pub manager_step : ManagerEvent l → OcppClientManager l → OcppClientManager l
  manager_step (requesting r) m = perform t (sending r) m
  manager_step (completing o ec message set_up jitter boot) m =
      web_socket_step t (Web.completion o ec message set_up jitter) boot m
  manager_step (heartbeat aborted request) m = on_heartbeat_timer t aborted request m

  unfoldable pub manager_run : List (ManagerEvent l) → OcppClientManager l → OcppClientManager l
  manager_run [] m = m
  manager_run (e ∷ es) m = manager_run es (manager_step e m)

  with_heartbeat-IsLinked :
      (b : Bool) (m : OcppClientManager l)
      → IsLinked t m
      → IsLinked t (record m { heartbeat_waits = b })
  with_heartbeat-IsLinked b m k = record {
    upheld = record {
      caught_up = k.upheld.caught_up;
      ready = k.upheld.ready;
      conserved = k.upheld.conserved;
    };
    linked = k.linked;
  }

  connected-IsLinked :
      (boot : OcppMessage l) (m : OcppClientManager l)
      → IsLinked t m
      → is_down m.ws_client ≡ false
      → IsLinked t (on_web_socket_connect t true boot m)
  unfolding on_web_socket_connect
  connected-IsLinked boot m k up =
      let n = perform t (connecting true) m in
      let first = perform-IsLinked t (connecting true) m k.upheld (λ _. up) in
      let again = with_heartbeat-IsLinked true n first in
      perform-IsLinked t (sending boot) (record n { heartbeat_waits = true }) again.upheld
        again.linked

  disconnected-IsLinked :
      (m : OcppClientManager l) → IsConserved t m → IsLinked t (perform t (connecting false) m)
  disconnected-IsLinked m k = perform-IsLinked t (connecting false) m k (λ h. ground arith)

  -- The notices of a step from a client that accepted messages if the processor takes itself for connected.
  handle_notices-IsLinked :
      (boot : OcppMessage l) (ns : List Notice) (before : Bool) (m : OcppClientManager l)
      → IsConserved t m
      → (m.processor.connected ≡ true → before ≡ false)
      → announces ns before (is_down m.ws_client) ≡ true
      → IsLinked t (handle_notices t boot ns m)
  unfolding handle_notices on_web_socket_connect on_web_socket_message on_web_socket_close
      on_web_socket_error
  handle_notices-IsLinked boot [] before m k b a = record {
    upheld = k;
    linked = λ on. ground (arith, b on);
  }
  handle_notices-IsLinked boot (connect_notice true ∷ []) before m k b a =
      let up : is_down m.ws_client ≡ false = ground arith in
      connected-IsLinked boot m (record { upheld = k; linked = λ _. up }) up
  handle_notices-IsLinked boot (connect_notice false ∷ []) before m k b a =
      disconnected-IsLinked m k
  handle_notices-IsLinked boot (message_notice s ∷ []) before m k b a =
      perform-IsLinked t (receiving (t.of_text s)) m k (λ on. ground (arith, b on))
  handle_notices-IsLinked boot (close_notice s ∷ []) before m k b a =
      with_heartbeat-IsLinked false (perform t (connecting false) m) (disconnected-IsLinked m k)
  handle_notices-IsLinked boot (error_notice s ec ∷ []) before m k b a = disconnected-IsLinked m k
  handle_notices-IsLinked boot (n ∷ n' ∷ ns) before m k b a = ground arith

  step-IsAnnounced :
      (o : Operation) (ec : ErrorCode) (message : String) (set_up : Bool) (jitter : ℤ)
      (c : WebSocketClient)
      → IsReady c
      → IsAnnounced
          (is_down c)
          (Web.step (Web.completion o ec message set_up jitter) (record c { notices = [] }))
  unfolding Web.step
  step-IsAnnounced o ec message set_up jitter c r =
      let c0 : WebSocketClient = record c { notices = [] } in
      let result : Option (List Operation) → WebSocketClient = λ s. elim s [
        | none ↦ c0
        | some os ↦ Web.complete o ec message set_up jitter (record c0 { outstanding = os })
      ] in
      elim (Web.remove o c.outstanding) as (λ s. IsAnnounced (is_down c) (result s)) [
        | none ↦ record {
          ready = record { has_close = r.has_close; has_error = r.has_error };
          announced = ground arith;
        }
        | some os ↦
            complete-IsAnnounced o ec message set_up jitter (record c { outstanding = os })
              (record { has_close = r.has_close; has_error = r.has_error })
      ]

  completing-IsLinked :
      (o : Operation) (ec : ErrorCode) (message : String) (set_up : Bool) (jitter : ℤ)
      (boot : OcppMessage l) (m : OcppClientManager l)
      → IsLinked t m
      → IsLinked t (web_socket_step t (Web.completion o ec message set_up jitter) boot m)
  unfolding web_socket_step
  completing-IsLinked o ec message set_up jitter boot m k =
      let c0 : WebSocketClient = record m.ws_client { notices = [] } in
      let e = Web.completion o ec message set_up jitter in
      let c = Web.step e c0 in
      let told = step-IsAnnounced o ec message set_up jitter m.ws_client k.upheld.ready in
      let kept = step-contents e c0 ∙ append-nil (Web.contents c0) in
      handle_notices-IsLinked boot c.notices (is_down m.ws_client) (record m { ws_client = c })
        (record {
          caught_up = k.upheld.caught_up;
          ready = told.ready;
          conserved =
              ap (λ x. x ++ map t.to_text m.processor.message_queue) kept ∙ k.upheld.conserved;
        })
        k.linked told.announced

  step-IsLinked :
      (e : ManagerEvent l) (m : OcppClientManager l) → IsLinked t m → IsLinked t (manager_step e m)
  unfolding on_heartbeat_timer
  step-IsLinked (requesting r) m k = perform-IsLinked t (sending r) m k.upheld k.linked
  step-IsLinked (completing o ec message set_up jitter boot) m k =
      completing-IsLinked o ec message set_up jitter boot m k
  step-IsLinked (heartbeat true request) m k = k
  step-IsLinked (heartbeat false request) m k =
      let n = perform t (sending request) m in
      let sent = perform-IsLinked t (sending request) m k.upheld k.linked in
      elim (state_eq m.ws_client.state connected)
        as (λ b. IsLinked t (
          if b
          then record n { heartbeat_waits = true }
          else record m { heartbeat_waits = false })) [
            | true ↦ with_heartbeat-IsLinked true n sent
            | false ↦ with_heartbeat-IsLinked false m k
          ]

  start-IsLinked :
      (handlers : OcppMessageAction → Option (Handler l)) (config : WebSocketConfig)
      (valid set_up : Bool) (jitter : ℤ) (boot : OcppMessage l) (m : OcppClientManager l)
      → m.running ≡ false
      → IsLinked t (start t handlers config valid set_up jitter boot m)
  unfolding start web_socket_step init_web_socket_client init_message_processor create
      set_error_handler set_close_handler set_message_handler Web.step
  start-IsLinked handlers config valid set_up jitter boot m off =
      let c0 = init_web_socket_client config valid in
      let c = connect true set_up jitter c0 in
      let told =
        connect-IsAnnounced true set_up jitter c0 (record { has_close = refl; has_error = refl }) in
      let p = init_message_processor l handlers in
      let started : OcppClientManager l = record m {
        processor = p;
        ws_client = c;
        running = true;
        accepted = [];
      } in
      let result : Bool → OcppClientManager l =
        λ b. if b then m else handle_notices t boot c.notices started in
      subst (IsLinked t) (sym (ap result off)) (
        handle_notices-IsLinked boot c.notices (is_down c0) started
          (record {
            caught_up = record { has_callback = refl; none_waiting = λ _. refl };
            ready = told.ready;
            conserved = append-nil (Web.contents c) ∙ connect-contents true set_up jitter c0;
          })
          (λ on. ground arith) told.announced)

  manager_run-kept :
      (es : List (ManagerEvent l)) (m : OcppClientManager l)
      → IsLinked t m
      → IsLinked t (manager_run es m)
  unfolding manager_run
  manager_run-kept [] m k = k
  manager_run-kept (e ∷ es) m k = manager_run-kept es (manager_step e m) (step-IsLinked e m k)

  -- From the start of a manager that does not run, over every history (messages sent, operations of the
  -- WebSocket client that complete in any order and with any result, heartbeats): a processor that takes itself for
  -- connected has a client that accepts messages, and the texts that the stream was given, then those that wait in
  -- the client, then those that wait in the processor are those that the processor accepted, in order and once
  -- each.
  pub manager_run-IsLinked :
      (es : List (ManagerEvent l)) (handlers : OcppMessageAction → Option (Handler l))
      (config : WebSocketConfig) (valid set_up : Bool) (jitter : ℤ) (boot : OcppMessage l)
      (m : OcppClientManager l)
      → m.running ≡ false
      → IsLinked t (manager_run es (start t handlers config valid set_up jitter boot m))
  manager_run-IsLinked es handlers config valid set_up jitter boot m off =
      manager_run-kept es (start t handlers config valid set_up jitter boot m)
        (start-IsLinked handlers config valid set_up jitter boot m off)
