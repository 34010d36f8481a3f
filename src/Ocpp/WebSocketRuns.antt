-- ===== src/Ocpp/WebSocketRuns.antt =====
-- Histories of the WebSocket client.
use ocpp_gw.Base.{ℕ, ℤ, String, Bool, Option, none, some, List, [], ◌∷◌, ◌++◌, ◌==◌, if◌then◌else◌}
use ocpp_gw.Ocpp.WebSocketState.{
  ErrorCode, Operation, resolve, tcp_connect, ssl_handshake, handshake, read, write,
  close_handshake, connect_timeout, reconnect_timer, WebSocketClient, reset_reconnect_attempts,
}
use ocpp_gw.Ocpp.WebSocketClient.{
  connect, on_resolve, on_connect, on_ssl_handshake, on_handshake, on_connect_timeout, on_read,
  send, on_write, close, on_close, on_reconnect_timer,
}

-- A call, or the completion of an operation with its result: the error code, the message read; then whether
-- a stream could be made, and the jitter.
pub data Event : Type 0 where
  connect_call : Bool → Bool → ℤ → Event
  send_call : String → Event
  close_call : Bool → Bool → Event
  reset_call : Event
  completion : Operation → ErrorCode → String → Bool → ℤ → Event

abbrev pub operation_number : Operation → ℕ
operation_number resolve = 0
operation_number tcp_connect = 1
operation_number ssl_handshake = 2
operation_number handshake = 3
operation_number read = 4
operation_number write = 5
operation_number close_handshake = 6
operation_number connect_timeout = 7
operation_number reconnect_timer = 8

-- The operations without the first `o`; `none` where there is none.
unfoldable pub remove : Operation → List Operation → Option (List Operation)
remove o [] = none
remove o (p ∷ ps) =
    let rest = remove o ps in
    if operation_number o == operation_number p
    then some ps
    else elim rest [ none ↦ none | some qs ↦ some (p ∷ qs) ]

unfoldable pub complete :
    Operation → ErrorCode → String → Bool → ℤ → WebSocketClient → WebSocketClient
complete resolve ec message set_up jitter c = on_resolve ec jitter c
complete tcp_connect ec message set_up jitter c = on_connect ec jitter c
complete ssl_handshake ec message set_up jitter c = on_ssl_handshake ec jitter c
complete handshake ec message set_up jitter c = on_handshake ec jitter c
complete read ec message set_up jitter c = on_read ec message jitter c
complete write ec message set_up jitter c = on_write ec jitter c
complete close_handshake ec message set_up jitter c = on_close c
complete connect_timeout ec message set_up jitter c = on_connect_timeout ec jitter c
complete reconnect_timer ec message set_up jitter c = on_reconnect_timer ec set_up jitter c

-- Only an operation that was started completes, once, in any order and with any result.
unfoldable pub step : Event → WebSocketClient → WebSocketClient
step (connect_call on_connect set_up jitter) c = connect on_connect set_up jitter c
step (send_call message) c = (send message c).1
step (close_call is_open closes) c = close is_open closes c
step reset_call c = reset_reconnect_attempts c
step (completion o ec message set_up jitter) c = elim (remove o c.outstanding) [
  | none ↦ c
  | some os ↦ complete o ec message set_up jitter (record c { outstanding = os })
]

unfoldable pub run : List Event → WebSocketClient → WebSocketClient
run [] c = c
run (e ∷ es) c = run es (step e c)

-- The messages given to the stream, then those that wait.
abbrev pub contents : WebSocketClient → List String
contents c = c.begun ++ c.message_queue

abbrev pub accepted_by : Event → WebSocketClient → List String
accepted_by (send_call message) c = if (send message c).0 then message ∷ [] else []
accepted_by _ c = []

-- The messages for which `send` returned true, in order.
unfoldable pub accepted : List Event → WebSocketClient → List String
accepted [] c = []
accepted (e ∷ es) c = accepted_by e c ++ accepted es (step e c)
