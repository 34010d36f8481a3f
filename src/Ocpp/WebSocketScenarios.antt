-- ===== src/Ocpp/WebSocketScenarios.antt =====
-- The WebSocket client on concrete histories.
use ocpp_gw.Base.{
  ℕ, ◌≤◌, ◌*◌, pos, negsuc, ◌≡◌, refl, true, false, none, some, List, [], ◌∷◌, ◌++◌, arith,
}
use ocpp_gw.Ocpp.Backoff.{
  WebSocketConfig, calculate_reconnect_interval, base_interval, exp_factor,
  calculate_reconnect_interval-bounds,
}
use ocpp_gw.Ocpp.WebSocketState.{
  connected, reconnecting, success, operation_aborted, closed_by_peer, other, resolve, tcp_connect,
  ssl_handshake, handshake, read, write, reconnect_timer, WebSocketClient, create,
}
use ocpp_gw.Ocpp.WebSocketClient.{
  schedule_reconnect, handle_error, do_connect, connect, on_resolve, on_connect, on_ssl_handshake,
  do_read, do_write, on_handshake, on_read, send, on_write, close, on_reconnect_timer,
}
use ocpp_gw.Ocpp.WebSocketRuns.{
  Event, connect_call, send_call, close_call, completion, remove, complete, step, run, contents,
  accepted,
}
use ocpp_gw.Ocpp.WebSocketOrder.{run-contents}
use ocpp_gw.Ocpp.WebSocketBounds.{writes, IsSafe, run-IsSafe}
use ocpp_gw.Ocpp.WebSocketProgress.{run-IsBusy, all_written, run-all_written}

calculate_reconnect_interval-bounds_example :
    (i : ℕ) × (calculate_reconnect_interval
        (record {
          reconnect_interval = 5;
          max_reconnect_interval = 300;
          max_reconnect_attempts = 0;
        })
        4
        (negsuc 9)
      ≡ some i)
    × (3200 ≤ i * 100)
    × (i * 100 ≤ 4800)
calculate_reconnect_interval-bounds_example =
    calculate_reconnect_interval-bounds
      (record { reconnect_interval = 5; max_reconnect_interval = 300; max_reconnect_attempts = 0 })
      4 (negsuc 9) (omega arith) (omega arith) (omega arith) refl

abbrev config : WebSocketConfig
config = record { reconnect_interval = 5; max_reconnect_interval = 300; max_reconnect_attempts = 3 }

abbrev client : WebSocketClient
client = create config true

-- The steps of a connection that succeeds.
abbrev connection : List Event
connection =
    completion resolve success "" true (pos 0)
    ∷ completion tcp_connect success "" true (pos 0)
    ∷ completion ssl_handshake success "" true (pos 0)
    ∷ completion handshake success "" true (pos 0)
    ∷ []

-- Two messages, one sent before the connection is there.
abbrev opening : List Event
opening = connect_call false true (pos 0) ∷ send_call "boot" ∷ connection ++ send_call "status" ∷ []

abbrev opened : WebSocketClient
opened = run opening client

opened_run :
    (opened.state ≡ connected)
    × (opened.begun ≡ "boot" ∷ [])
    × (opened.message_queue ≡ "status" ∷ [])
unfolding run step complete remove connect do_connect on_resolve on_connect on_ssl_handshake
    on_handshake do_read do_write send
opened_run = (refl, refl, refl)

run-contents_example : contents opened ≡ contents client ++ accepted opening client
run-contents_example = run-contents opening client

client-IsSafe : IsSafe client
unfolding writes
client-IsSafe = record { bounded = λ _. omega arith; single = refl }

run-IsSafe_example : IsSafe opened
run-IsSafe_example = run-IsSafe opening client client-IsSafe

run-all_written_example :
    let d = run (all_written opened) opened in
    (d.begun ≡ contents opened) × (d.message_queue ≡ []) × (d.write_in_progress ≡ false)
unfolding run step complete remove connect do_connect on_resolve on_connect on_ssl_handshake
    on_handshake do_read do_write send writes
run-all_written_example =
    run-all_written opened (run-IsSafe opening client client-IsSafe)
      (run-IsBusy opening client (λ _ _. refl)) refl

-- The user closes the connection; the server's answer, which the read sees, starts it again.
close_run :
    (run (close_call true true ∷ completion read closed_by_peer "" true (pos 0) ∷ []) opened).state
    ≡ reconnecting
unfolding run step complete remove connect do_connect on_resolve on_connect on_ssl_handshake
    on_handshake on_read do_read do_write send close schedule_reconnect
close_run = refl

-- A connection whose write and then read fail counts as two attempts.
error_run :
    (run
      (completion write other "" true (pos 0)
        ∷ completion reconnect_timer success "" true (pos 0)
        ∷ completion read operation_aborted "" true (pos 0)
        ∷ [])
      opened).reconnect_attempts
    ≡ 2
unfolding run step complete remove connect do_connect on_resolve on_connect on_ssl_handshake
    on_handshake on_read on_write on_reconnect_timer do_read do_write send handle_error
    schedule_reconnect
error_run = refl

-- At the 32nd attempt the interval is none.
interval_run : calculate_reconnect_interval config 32 (pos 0) ≡ none
unfolding calculate_reconnect_interval base_interval exp_factor
interval_run = refl
