-- ===== src/Ocpp/WebSocketState.antt =====
-- The state of `WebSocketClient`, and what its operations do to parts of it.
use ocpp_gw.Base.{
  ℕ, String, Bool, true, false, ◌||◌, Option, none, List, [], ◌∷◌, ◌++◌, ltb, ◌==◌, if◌then◌else◌,
}
use ocpp_gw.Ocpp.Backoff.{WebSocketConfig}

pub data ConnectionState : Type 0 where
  disconnected connecting connected reconnecting closing closed error : ConnectionState

-- The value of the enumerator.
abbrev state_number : ConnectionState → ℕ
state_number disconnected = 0
state_number connecting = 1
state_number connected = 2
state_number reconnecting = 3
state_number closing = 4
state_number closed = 5
state_number error = 6

abbrev pub state_eq : ConnectionState → ConnectionState → Bool
state_eq a b = state_number a == state_number b

-- What the code tells apart of an `error_code`.
pub data ErrorCode : Type 0 where
  success operation_aborted closed_by_peer timed_out other : ErrorCode

abbrev pub is_error : ErrorCode → Bool
is_error success = false
is_error _ = true

-- An asynchronous operation, or the wait for a timer.
pub data Operation : Type 0 where
  resolve tcp_connect ssl_handshake handshake read write close_handshake : Operation
  connect_timeout reconnect_timer : Operation

-- A call of one of the handlers that the user has set.
pub data Notice : Type 0 where
  connect_notice : Bool → Notice
  message_notice close_notice : String → Notice
  error_notice : String → ErrorCode → Notice

-- The members; then logs: the operations not completed, the messages given to `async_write`, the handlers'
-- calls. A wait that is cancelled completes too, with `operation_aborted`.
pub record WebSocketClient : Type 0 where
  pub config : WebSocketConfig
  pub state : ConnectionState
  pub reconnect_attempts : ℕ
  pub message_queue : List String
  pub write_in_progress : Bool
  pub reconnect_interval : Option ℕ
  pub has_connect_handler : Bool
  pub has_message_handler : Bool
  pub has_close_handler : Bool
  pub has_error_handler : Bool
  pub outstanding : List Operation
  pub begun : List String
  pub notices : List Notice

-- `valid` is whether the URL is one and the TLS context could be made.
abbrev pub create : WebSocketConfig → Bool → WebSocketClient
create config valid = record {
  config = config;
  state = if valid then disconnected else error;
  reconnect_attempts = 0;
  message_queue = [];
  write_in_progress = false;
  reconnect_interval = none;
  has_connect_handler = false;
  has_message_handler = false;
  has_close_handler = false;
  has_error_handler = false;
  outstanding = [];
  begun = [];
  notices = [];
}

abbrev pub start : Operation → WebSocketClient → WebSocketClient
start o c = record c { outstanding = o ∷ c.outstanding }

abbrev pub notify : Bool → Notice → WebSocketClient → WebSocketClient
notify is_set n c = if is_set then record c { notices = c.notices ++ n ∷ [] } else c

abbrev pub enter : ConnectionState → WebSocketClient → WebSocketClient
enter s c = record c { state = s }

abbrev pub may_reconnect : WebSocketClient → Bool
may_reconnect c =
    (c.config.max_reconnect_attempts == 0)
    || ltb c.reconnect_attempts c.config.max_reconnect_attempts

unfoldable pub reset_reconnect_attempts : WebSocketClient → WebSocketClient
reset_reconnect_attempts c = record c { reconnect_attempts = 0 }

unfoldable pub set_message_handler : Bool → WebSocketClient → WebSocketClient
set_message_handler is_set c = record c { has_message_handler = is_set }

unfoldable pub set_close_handler : Bool → WebSocketClient → WebSocketClient
set_close_handler is_set c = record c { has_close_handler = is_set }

unfoldable pub set_error_handler : Bool → WebSocketClient → WebSocketClient
set_error_handler is_set c = record c { has_error_handler = is_set }
