-- ===== src/Ocpp/WebSocketClient.antt =====
-- `WebSocketClient`: the calls of its user and the completions of its operations.
use ocpp_gw.Base.{
  ◌+◌, ℤ, String, Bool, true, false, not, ◌&&◌, ◌||◌, List, [], ◌∷◌, ◌++◌, if◌then◌else◌,
}
use ocpp_gw.Ocpp.Backoff.{calculate_reconnect_interval}
use ocpp_gw.Ocpp.WebSocketState.{
  connected, connecting, reconnecting, closing, closed, error, state_eq, ErrorCode, success,
  operation_aborted, closed_by_peer, timed_out, is_error, Operation, resolve, tcp_connect,
  ssl_handshake, handshake, read, write, close_handshake, connect_timeout, reconnect_timer,
  connect_notice, message_notice, close_notice, error_notice, WebSocketClient, start, notify, enter,
  may_reconnect,
}

-- `jitter` is what the random generator draws.
unfoldable pub schedule_reconnect : ℤ → WebSocketClient → WebSocketClient
schedule_reconnect jitter c =
    if state_eq c.state reconnecting
    then c
    else start reconnect_timer (record c {
      state = reconnecting;
      reconnect_attempts = c.reconnect_attempts + 1;
      reconnect_interval = calculate_reconnect_interval c.config (c.reconnect_attempts + 1) jitter;
    })

-- The message of the error, which the handler is given, does not include the code's own.
unfoldable pub handle_error : String → ErrorCode → ℤ → WebSocketClient → WebSocketClient
handle_error message ec jitter c =
    let d = notify c.has_error_handler (error_notice message ec) (enter error c) in
    if may_reconnect d then schedule_reconnect jitter d else d

-- `set_up` is whether the stream could be made; the calls after it are taken not to throw.
unfoldable pub do_connect : Bool → ℤ → WebSocketClient → WebSocketClient
do_connect set_up jitter c =
    if set_up
    then start resolve (start connect_timeout c)
    else handle_error "Connection setup failed" success jitter c

unfoldable pub connect : Bool → Bool → ℤ → WebSocketClient → WebSocketClient
connect on_connect set_up jitter c =
    if state_eq c.state connected || state_eq c.state connecting
    then notify on_connect (connect_notice (state_eq c.state connected)) c
    else do_connect set_up jitter (enter connecting (record c { has_connect_handler = on_connect }))

abbrev pub after_error : Operation → String → ErrorCode → ℤ → WebSocketClient → WebSocketClient
after_error next message ec jitter c =
    if is_error ec then handle_error message ec jitter c else start next c

unfoldable pub on_resolve : ErrorCode → ℤ → WebSocketClient → WebSocketClient
on_resolve ec jitter c = after_error tcp_connect "DNS resolution failed" ec jitter c

unfoldable pub on_connect : ErrorCode → ℤ → WebSocketClient → WebSocketClient
on_connect ec jitter c = after_error ssl_handshake "TCP connection failed" ec jitter c

unfoldable pub on_ssl_handshake : ErrorCode → ℤ → WebSocketClient → WebSocketClient
on_ssl_handshake ec jitter c = after_error handshake "SSL handshake failed" ec jitter c

unfoldable pub do_read : WebSocketClient → WebSocketClient
do_read c = if state_eq c.state connected then start read c else c

-- The front of the queue, if there is one.
abbrev pub write_next : List String → WebSocketClient → WebSocketClient
write_next [] c = c
write_next (m ∷ ms) c =
    start write
      (record c { write_in_progress = true; message_queue = ms; begun = c.begun ++ m ∷ [] })

unfoldable pub do_write : WebSocketClient → WebSocketClient
do_write c =
    if state_eq c.state connected && not c.write_in_progress
    then write_next c.message_queue c
    else c

-- `doWrite` does nothing on an empty queue, which `onHandshake` tests first.
unfoldable pub on_handshake : ErrorCode → ℤ → WebSocketClient → WebSocketClient
on_handshake ec jitter c =
    if is_error ec
    then handle_error "WebSocket handshake failed" ec jitter c
    else (let d = do_write (do_read (record c { state = connected; reconnect_attempts = 0 })) in
        notify d.has_connect_handler (connect_notice true) d)

abbrev pub is_aborted : ErrorCode → Bool
is_aborted operation_aborted = true
is_aborted _ = false

unfoldable pub on_connect_timeout : ErrorCode → ℤ → WebSocketClient → WebSocketClient
on_connect_timeout ec jitter c =
    if not (is_aborted ec) && state_eq c.state connecting
    then handle_error "Connection timeout" timed_out jitter c
    else c

abbrev pub server_closed : ℤ → WebSocketClient → WebSocketClient
server_closed jitter c =
    let d =
      notify c.has_close_handler (close_notice "Connection closed by server") (enter closed c) in
    if may_reconnect d then schedule_reconnect jitter d else d

unfoldable pub on_read : ErrorCode → String → ℤ → WebSocketClient → WebSocketClient
on_read success message jitter c = do_read (notify c.has_message_handler (message_notice message) c)
on_read closed_by_peer message jitter c = server_closed jitter c
on_read ec message jitter c = handle_error "Read error" ec jitter c

unfoldable pub send : String → WebSocketClient → Bool × WebSocketClient
send message c =
    if state_eq c.state closed || state_eq c.state error
    then (false, c)
    else (true, do_write (record c { message_queue = c.message_queue ++ message ∷ [] }))

unfoldable pub on_write : ErrorCode → ℤ → WebSocketClient → WebSocketClient
on_write ec jitter c =
    let d : WebSocketClient = record c { write_in_progress = false } in
    if is_error ec then handle_error "Write error" ec jitter d else do_write d

-- `is_open` is whether there is an open stream, `closes` whether `async_close` does not throw.
unfoldable pub close : Bool → Bool → WebSocketClient → WebSocketClient
close is_open closes c =
    if state_eq c.state closed || state_eq c.state closing
    then c
    else if is_open && closes
    then start close_handshake (enter closing c)
    else enter closed c

unfoldable pub on_close : WebSocketClient → WebSocketClient
on_close c =
    notify c.has_close_handler (close_notice "Connection closed by client") (enter closed c)

unfoldable pub on_reconnect_timer : ErrorCode → Bool → ℤ → WebSocketClient → WebSocketClient
on_reconnect_timer ec set_up jitter c =
    if is_aborted ec then c else do_connect set_up jitter (enter connecting c)
