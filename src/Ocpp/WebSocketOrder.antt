-- ===== src/Ocpp/WebSocketOrder.antt =====
-- The WebSocket client gives its stream the messages it accepted, in order and once each.
use ocpp_gw.Base.{
  ℤ, ◌≡◌, refl, sym, ap, ◌∙◌, String, Bool, true, false, Option, none, some, List, [], ◌∷◌, ◌++◌,
  append-nil, append_assoc, if◌then◌else◌, arith,
}
use ocpp_gw.Ocpp.WebSocketState.{
  connected, connecting, ErrorCode, success, operation_aborted, closed_by_peer, timed_out, other,
  Operation, resolve, tcp_connect, ssl_handshake, handshake, read, write, close_handshake,
  connect_timeout, reconnect_timer, WebSocketClient, enter, reset_reconnect_attempts,
}
use ocpp_gw.Ocpp.WebSocketClient.{
  schedule_reconnect, handle_error, do_connect, connect, on_resolve, on_connect, on_ssl_handshake,
  do_read, do_write, write_next, on_handshake, on_connect_timeout, on_read, send, on_write, close,
  on_close, on_reconnect_timer,
}
use ocpp_gw.Ocpp.WebSocketRuns.{
  Event, connect_call, send_call, close_call, reset_call, completion, remove, complete, step, run,
  contents, accepted_by, accepted,
}

handle_error-contents :
    (message : String) (ec : ErrorCode) (jitter : ℤ) (c : WebSocketClient)
    → contents (handle_error message ec jitter c) ≡ contents c
unfolding handle_error schedule_reconnect
handle_error-contents message ec jitter c = ground arith

write_next-contents :
    (ms : List String) (c : WebSocketClient)
    → c.message_queue ≡ ms
    → contents (write_next ms c) ≡ contents c
write_next-contents [] c h = refl
write_next-contents (m ∷ ms) c h = append_assoc c.begun (m ∷ []) ms ∙ ap (c.begun ++◌) (sym h)

do_write-contents : (c : WebSocketClient) → contents (do_write c) ≡ contents c
unfolding do_write
do_write-contents c = ground (arith, write_next-contents c.message_queue c refl)

do_connect-contents :
    (set_up : Bool) (jitter : ℤ) (c : WebSocketClient)
    → contents (do_connect set_up jitter c) ≡ contents c
unfolding do_connect
do_connect-contents true jitter c = refl
do_connect-contents false jitter c =
    handle_error-contents "Connection setup failed" success jitter c

pub connect-contents :
    (on_connect set_up : Bool) (jitter : ℤ) (c : WebSocketClient)
    → contents (connect on_connect set_up jitter c) ≡ contents c
unfolding connect do_connect handle_error schedule_reconnect
connect-contents on_connect set_up jitter c = ground arith

on_handshake-contents :
    (ec : ErrorCode) (jitter : ℤ) (c : WebSocketClient)
    → contents (on_handshake ec jitter c) ≡ contents c
unfolding on_handshake do_read
on_handshake-contents ec jitter c = ground (
  arith,
  handle_error-contents "WebSocket handshake failed" ec jitter c,
  do_write-contents (do_read (record c { state = connected; reconnect_attempts = 0 })),
)

complete-contents :
    (o : Operation) (ec : ErrorCode) (message : String) (set_up : Bool) (jitter : ℤ)
    (c : WebSocketClient)
    → contents (complete o ec message set_up jitter c) ≡ contents c
unfolding complete on_resolve on_connect on_ssl_handshake on_read on_write on_close
    on_connect_timeout on_reconnect_timer handle_error schedule_reconnect do_read
complete-contents resolve ec message set_up jitter c = ground arith
complete-contents tcp_connect ec message set_up jitter c = ground arith
complete-contents ssl_handshake ec message set_up jitter c = ground arith
complete-contents handshake ec message set_up jitter c = on_handshake-contents ec jitter c
complete-contents read success message set_up jitter c = ground arith
complete-contents read closed_by_peer message set_up jitter c = ground arith
complete-contents read operation_aborted message set_up jitter c =
    handle_error-contents "Read error" operation_aborted jitter c
complete-contents read timed_out message set_up jitter c =
    handle_error-contents "Read error" timed_out jitter c
complete-contents read other message set_up jitter c =
    handle_error-contents "Read error" other jitter c
complete-contents write ec message set_up jitter c =
    let d : WebSocketClient = record c { write_in_progress = false } in
    ground (arith, do_write-contents d)
complete-contents close_handshake ec message set_up jitter c = ground arith
complete-contents connect_timeout ec message set_up jitter c = ground arith
complete-contents reconnect_timer ec message set_up jitter c =
    ground (arith, do_connect-contents set_up jitter (enter connecting c))

pub send_call-contents :
    (message : String) (c : WebSocketClient)
    → contents (send message c).1 ≡ contents c ++ (if (send message c).0 then message ∷ [] else [])
unfolding send
send_call-contents message c =
    let d : WebSocketClient = record c { message_queue = c.message_queue ++ message ∷ [] } in
    ground (
      arith,
      do_write-contents d,
      append-nil (contents c),
      append_assoc c.begun c.message_queue (message ∷ []),
    )

pub step-contents :
    (e : Event) (c : WebSocketClient) → contents (step e c) ≡ contents c ++ accepted_by e c
unfolding step close reset_reconnect_attempts
step-contents (connect_call on_connect set_up jitter) c =
    connect-contents on_connect set_up jitter c ∙ sym (append-nil (contents c))
step-contents (send_call message) c = send_call-contents message c
step-contents (close_call is_open closes) c = ground (arith, append-nil (contents c))
step-contents reset_call c = sym (append-nil (contents c))
step-contents (completion o ec message set_up jitter) c =
    let result : Option (List Operation) → WebSocketClient = λ r. elim r [
      | none ↦ c
      | some os ↦ complete o ec message set_up jitter (record c { outstanding = os })
    ] in
    elim (remove o c.outstanding) as (λ r. contents (result r) ≡ contents c ++ []) [
      | none ↦ sym (append-nil (contents c))
      | some os ↦
          complete-contents o ec message set_up jitter (record c { outstanding = os })
          ∙ sym (append-nil (contents c))
    ]

-- Over every history of calls, and of completions of the operations in any order and with any result, the
-- messages given to the stream and then those that wait are what they were, followed by every message for which
-- `send` returned true, in order and once each, whatever connections fail.
pub run-contents :
    (es : List Event) (c : WebSocketClient) → contents (run es c) ≡ contents c ++ accepted es c
unfolding run accepted
run-contents [] c = sym (append-nil (contents c))
run-contents (e ∷ es) c =
    run-contents es (step e c)
    ∙ ap (λ x. x ++ accepted es (step e c)) (step-contents e c)
    ∙ append_assoc (contents c) (accepted_by e c) (accepted es (step e c))
