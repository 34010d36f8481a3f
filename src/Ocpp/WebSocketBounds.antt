-- ===== src/Ocpp/WebSocketBounds.antt =====
-- Bounds of the WebSocket client: the attempts to reconnect, and the writes in progress.
use ocpp_gw.Base.{
  ℕ, ◌+◌, ◌≤◌, ℤ, ◌≡◌, refl, sym, ◌∙◌, String, Bool, false, Option, Option-cases, inl, inr, none,
  some, List, [], ◌∷◌, ◌++◌, ◌==◌, if◌then◌else◌, arith,
}
use ocpp_gw.Ocpp.WebSocketState.{
  connected, ErrorCode, Operation, resolve, tcp_connect, ssl_handshake, handshake, read, write,
  close_handshake, connect_timeout, reconnect_timer, WebSocketClient, reset_reconnect_attempts,
}
use ocpp_gw.Ocpp.WebSocketClient.{
  schedule_reconnect, handle_error, do_connect, connect, on_resolve, on_connect, on_ssl_handshake,
  do_read, do_write, write_next, on_handshake, on_connect_timeout, on_read, send, on_write, close,
  on_close, on_reconnect_timer,
}
use ocpp_gw.Ocpp.WebSocketRuns.{
  Event, connect_call, send_call, close_call, reset_call, completion, remove, operation_number,
  complete, step, run,
}

-- The writes among the operations.
unfoldable pub writes : List Operation → ℕ
writes [] = 0
writes (o ∷ os) =
    let rest = writes os in if operation_number o == operation_number write then 1 + rest else rest

-- The attempts are at most the configured number, where it is not 0 (for no limit).
abbrev pub IsBounded : WebSocketClient → Type 0
IsBounded c =
    1 ≤ c.config.max_reconnect_attempts → c.reconnect_attempts ≤ c.config.max_reconnect_attempts

-- A write is outstanding, and then one, just when the flag is set.
abbrev pub IsSingle : WebSocketClient → Type 0
IsSingle c = writes c.outstanding ≡ (if c.write_in_progress then 1 else 0)

handle_error-IsBounded :
    (message : String) (ec : ErrorCode) (jitter : ℤ) (c : WebSocketClient)
    → IsBounded c
    → IsBounded (handle_error message ec jitter c)
unfolding handle_error schedule_reconnect
handle_error-IsBounded message ec jitter c h = ground arith

handle_error-IsSingle :
    (message : String) (ec : ErrorCode) (jitter : ℤ) (c : WebSocketClient)
    → IsSingle c
    → IsSingle (handle_error message ec jitter c)
unfolding handle_error schedule_reconnect writes
handle_error-IsSingle message ec jitter c h = ground arith

write_next-IsSingle :
    (ms : List String) (c : WebSocketClient)
    → c.write_in_progress ≡ false
    → IsSingle c
    → IsSingle (write_next ms c)
unfolding writes
write_next-IsSingle [] c w h = h
write_next-IsSingle (m ∷ ms) c w h = ground arith

do_write-IsSingle : (c : WebSocketClient) → IsSingle c → IsSingle (do_write c)
unfolding do_write
do_write-IsSingle c h = ground (arith, write_next-IsSingle c.message_queue c)

write_next-attempts :
    (ms : List String) (c : WebSocketClient)
    → (write_next ms c).reconnect_attempts ≡ c.reconnect_attempts
write_next-attempts [] c = refl
write_next-attempts (m ∷ ms) c = refl

do_write-IsBounded : (c : WebSocketClient) → IsBounded c → IsBounded (do_write c)
unfolding do_write
do_write-IsBounded c h = ground (arith, write_next-attempts c.message_queue c)

connect-Bounds :
    (on_connect set_up : Bool) (jitter : ℤ) (c : WebSocketClient)
    → IsBounded c × IsSingle c
    → IsBounded (connect on_connect set_up jitter c) × IsSingle (connect on_connect set_up jitter c)
unfolding connect do_connect handle_error schedule_reconnect writes
connect-Bounds on_connect set_up jitter c (b, h) = (ground arith, ground arith)

complete-IsBounded :
    (o : Operation) (ec : ErrorCode) (message : String) (set_up : Bool) (jitter : ℤ)
    (c : WebSocketClient)
    → IsBounded c
    → IsBounded (complete o ec message set_up jitter c)
unfolding complete on_resolve on_connect on_ssl_handshake on_handshake on_read on_write on_close
    on_connect_timeout on_reconnect_timer do_connect handle_error schedule_reconnect do_read
complete-IsBounded resolve ec message set_up jitter c h = ground arith
complete-IsBounded tcp_connect ec message set_up jitter c h = ground arith
complete-IsBounded ssl_handshake ec message set_up jitter c h = ground arith
complete-IsBounded handshake ec message set_up jitter c h =
    let d : WebSocketClient = do_read (record c { state = connected; reconnect_attempts = 0 }) in
    ground (arith, do_write-IsBounded d)
complete-IsBounded read ec message set_up jitter c h = ground arith
complete-IsBounded write ec message set_up jitter c h =
    let d : WebSocketClient = record c { write_in_progress = false } in
    ground (arith, do_write-IsBounded d h)
complete-IsBounded close_handshake ec message set_up jitter c h = ground arith
complete-IsBounded connect_timeout ec message set_up jitter c h = ground arith
complete-IsBounded reconnect_timer ec message set_up jitter c h = ground arith

-- With `o` still among the operations.
complete-IsSingle :
    (o : Operation) (ec : ErrorCode) (message : String) (set_up : Bool) (jitter : ℤ)
    (c : WebSocketClient)
    → writes (o ∷ c.outstanding) ≡ (if c.write_in_progress then 1 else 0)
    → IsSingle (complete o ec message set_up jitter c)
unfolding complete on_resolve on_connect on_ssl_handshake on_handshake on_read on_write on_close
    on_connect_timeout on_reconnect_timer do_connect handle_error schedule_reconnect do_read writes
complete-IsSingle resolve ec message set_up jitter c h = ground arith
complete-IsSingle tcp_connect ec message set_up jitter c h = ground arith
complete-IsSingle ssl_handshake ec message set_up jitter c h = ground arith
complete-IsSingle handshake ec message set_up jitter c h =
    let d : WebSocketClient = do_read (record c { state = connected; reconnect_attempts = 0 }) in
    ground (arith, do_write-IsSingle d)
complete-IsSingle read ec message set_up jitter c h = ground arith
complete-IsSingle write ec message set_up jitter c h =
    let d : WebSocketClient = record c { write_in_progress = false } in
    ground (arith, do_write-IsSingle d)
complete-IsSingle close_handshake ec message set_up jitter c h = ground arith
complete-IsSingle connect_timeout ec message set_up jitter c h = ground arith
complete-IsSingle reconnect_timer ec message set_up jitter c h = ground arith

pub remove-writes :
    (o : Operation) (ps os : List Operation) → remove o ps ≡ some os → writes ps ≡ writes (o ∷ os)
unfolding remove writes
remove-writes o [] os h = ground arith
remove-writes o (p ∷ ps) os h = elim (Option-cases (remove o ps)) [
  | inl k ↦ ground arith
  | inr (qs, k) ↦ ground (arith, remove-writes o ps qs k)
]

-- What holds of the client at every step.
pub record IsSafe (c : WebSocketClient) : Type 0 where
  pub bounded : IsBounded c
  pub single : IsSingle c

completion-IsSafe :
    (o : Operation) (ec : ErrorCode) (message : String) (set_up : Bool) (jitter : ℤ)
    (c : WebSocketClient) (r : Option (List Operation))
    → remove o c.outstanding ≡ r
    → IsSafe c
    → IsSafe (elim r [
      | none ↦ c
      | some os ↦ complete o ec message set_up jitter (record c { outstanding = os })
    ])
completion-IsSafe o ec message set_up jitter c none k h = h
completion-IsSafe o ec message set_up jitter c (some os) k h =
    let d : WebSocketClient = record c { outstanding = os } in
    record {
      bounded = complete-IsBounded o ec message set_up jitter d h.bounded;
      single =
          complete-IsSingle o ec message set_up jitter d
            (sym (remove-writes o c.outstanding os k) ∙ h.single);
    }

step-IsSafe : (e : Event) (c : WebSocketClient) → IsSafe c → IsSafe (step e c)
unfolding step send close reset_reconnect_attempts writes
step-IsSafe (connect_call on_connect set_up jitter) c h =
    let both = connect-Bounds on_connect set_up jitter c (h.bounded, h.single) in
    record { bounded = both.0; single = both.1 }
step-IsSafe (send_call message) c h =
    let d : WebSocketClient = record c { message_queue = c.message_queue ++ message ∷ [] } in
    record {
      bounded = ground (arith, do_write-IsBounded d h.bounded, h.bounded);
      single = ground (arith, do_write-IsSingle d h.single, h.single);
    }
step-IsSafe (close_call is_open closes) c h = record {
  bounded = ground (arith, h.bounded);
  single = ground (arith, h.single);
}
step-IsSafe reset_call c h = record { bounded = λ _. omega arith; single = h.single }
step-IsSafe (completion o ec message set_up jitter) c h =
    completion-IsSafe o ec message set_up jitter c (remove o c.outstanding) refl h

-- Over every history of calls and completions, the attempts to reconnect never exceed the configured number
-- (where it is not 0), and at most one write is outstanding on the streams, just when the flag is set.
pub run-IsSafe : (es : List Event) (c : WebSocketClient) → IsSafe c → IsSafe (run es c)
unfolding run
run-IsSafe [] c h = h
run-IsSafe (e ∷ es) c h = run-IsSafe es (step e c) (step-IsSafe e c h)
