-- ===== src/Ocpp/WebSocketProgress.antt =====
-- While the connection lasts, the WebSocket client gives every message to its stream.
use ocpp_gw.Base.{
  ℤ, ◌≡◌, refl, sym, ap, ◌∙◌, String, Bool, true, false, not, ◌&&◌, Option, Option-cases, inl, inr,
  none, some, List, [], ◌∷◌, ◌++◌, map, pos, subst, Bool-cases, append-nil, if◌then◌else◌, arith,
}
use ocpp_gw.Ocpp.WebSocketState.{
  connected, state_eq, ErrorCode, success, Operation, resolve, tcp_connect, ssl_handshake,
  handshake, read, write, close_handshake, connect_timeout, reconnect_timer, WebSocketClient,
  reset_reconnect_attempts,
}
use ocpp_gw.Ocpp.WebSocketClient.{
  schedule_reconnect, handle_error, do_connect, connect, on_resolve, on_connect, on_ssl_handshake,
  do_read, do_write, write_next, on_handshake, on_connect_timeout, on_read, send, on_write, close,
  on_close, on_reconnect_timer,
}
use ocpp_gw.Ocpp.WebSocketRuns.{
  Event, connect_call, send_call, close_call, reset_call, completion, remove, complete, step, run,
  contents, accepted,
}
use ocpp_gw.Ocpp.WebSocketOrder.{run-contents}
use ocpp_gw.Ocpp.WebSocketBounds.{writes, IsSafe, remove-writes}

-- A connected client lets a message wait only while it writes another.
abbrev pub IsBusy : WebSocketClient → Type 0
IsBusy c = state_eq c.state connected ≡ true → c.write_in_progress ≡ false → c.message_queue ≡ []

write_next-IsBusy :
    (ms : List String) (c : WebSocketClient) → c.message_queue ≡ ms → IsBusy (write_next ms c)
write_next-IsBusy [] c h = λ _ _. h
write_next-IsBusy (m ∷ ms) c h = λ _ w. ground arith

do_write-IsBusy : (c : WebSocketClient) → IsBusy (do_write c)
unfolding do_write
do_write-IsBusy c = ground (arith, write_next-IsBusy c.message_queue c refl)

handle_error-IsBusy :
    (message : String) (ec : ErrorCode) (jitter : ℤ) (c : WebSocketClient)
    → IsBusy (handle_error message ec jitter c)
unfolding handle_error schedule_reconnect
handle_error-IsBusy message ec jitter c = ground arith

connect-IsBusy :
    (on_connect set_up : Bool) (jitter : ℤ) (c : WebSocketClient)
    → IsBusy c
    → IsBusy (connect on_connect set_up jitter c)
unfolding connect do_connect handle_error schedule_reconnect
connect-IsBusy on_connect set_up jitter c h = ground arith

complete-IsBusy :
    (o : Operation) (ec : ErrorCode) (message : String) (set_up : Bool) (jitter : ℤ)
    (c : WebSocketClient)
    → IsBusy c
    → IsBusy (complete o ec message set_up jitter c)
unfolding complete on_resolve on_connect on_ssl_handshake on_handshake on_read on_write on_close
    on_connect_timeout on_reconnect_timer do_connect handle_error schedule_reconnect do_read
complete-IsBusy resolve ec message set_up jitter c h = ground arith
complete-IsBusy tcp_connect ec message set_up jitter c h = ground arith
complete-IsBusy ssl_handshake ec message set_up jitter c h = ground arith
complete-IsBusy handshake ec message set_up jitter c h =
    let d : WebSocketClient = do_read (record c { state = connected; reconnect_attempts = 0 }) in
    ground (arith, do_write-IsBusy d)
complete-IsBusy read ec message set_up jitter c h = ground arith
complete-IsBusy write ec message set_up jitter c h =
    let d : WebSocketClient = record c { write_in_progress = false } in
    ground (arith, do_write-IsBusy d)
complete-IsBusy close_handshake ec message set_up jitter c h = ground arith
complete-IsBusy connect_timeout ec message set_up jitter c h = ground arith
complete-IsBusy reconnect_timer ec message set_up jitter c h = ground arith

completion-IsBusy :
    (o : Operation) (ec : ErrorCode) (message : String) (set_up : Bool) (jitter : ℤ)
    (c : WebSocketClient) (r : Option (List Operation))
    → IsBusy c
    → IsBusy (elim r [
      | none ↦ c
      | some os ↦ complete o ec message set_up jitter (record c { outstanding = os })
    ])
completion-IsBusy o ec message set_up jitter c none h = h
completion-IsBusy o ec message set_up jitter c (some os) h =
    complete-IsBusy o ec message set_up jitter (record c { outstanding = os }) h

step-IsBusy : (e : Event) (c : WebSocketClient) → IsBusy c → IsBusy (step e c)
unfolding step send close reset_reconnect_attempts
step-IsBusy (connect_call on_connect set_up jitter) c h =
    connect-IsBusy on_connect set_up jitter c h
step-IsBusy (send_call message) c h =
    let d : WebSocketClient = record c { message_queue = c.message_queue ++ message ∷ [] } in
    ground (arith, do_write-IsBusy d)
step-IsBusy (close_call is_open closes) c h = ground arith
step-IsBusy reset_call c h = h
step-IsBusy (completion o ec message set_up jitter) c h =
    completion-IsBusy o ec message set_up jitter c (remove o c.outstanding) h

-- Over every history of calls and completions, a connected client lets a message wait only while it writes
-- another.
pub run-IsBusy : (es : List Event) (c : WebSocketClient) → IsBusy c → IsBusy (run es c)
unfolding run
run-IsBusy [] c h = h
run-IsBusy (e ∷ es) c h = run-IsBusy es (step e c) (step-IsBusy e c h)

-- A write completes without an error.
abbrev pub write_done : Event
write_done = completion write success "" true (pos 0)

abbrev pub each_written : List String → List Event
each_written ms = map (λ _. write_done) ms

remove-none : (ps : List Operation) → remove write ps ≡ none → writes ps ≡ 0
unfolding remove writes
remove-none [] h = refl
remove-none (p ∷ ps) h = ground (arith, remove-none ps)

step-write_done :
    (c : WebSocketClient) (os : List Operation)
    → remove write c.outstanding ≡ some os
    → c.state ≡ connected
    → step write_done c
      ≡ write_next c.message_queue (record c { outstanding = os; write_in_progress = false })
unfolding step complete on_write do_write
step-write_done c os k h =
    let d : WebSocketClient = record c { outstanding = os; write_in_progress = false } in
    let result : Option (List Operation) → WebSocketClient = λ r. elim r [
      | none ↦ c
      | some os ↦ complete write success "" true (pos 0) (record c { outstanding = os })
    ] in
    ap result k
    ∙ ap (λ s. if state_eq s connected && not false then write_next c.message_queue d else d) h

abbrev IsIdle : WebSocketClient → Type 0
IsIdle c = (c.message_queue ≡ []) × (c.write_in_progress ≡ false)

-- The only write outstanding, taken away.
remove-write :
    (ps : List Operation)
    → writes ps ≡ 1
    → (os : List Operation) × (remove write ps ≡ some os) × (writes os ≡ 0)
unfolding writes
remove-write ps w = elim (Option-cases (remove write ps)) [
  | inl k ↦ ground (arith, remove-none ps k)
  | inr (os, k) ↦ (os, k, ground (arith, remove-writes write ps os k))
]

each_written-IsIdle :
    (ms : List String) (c : WebSocketClient)
    → c.message_queue ≡ ms
    → c.state ≡ connected
    → writes c.outstanding ≡ 1
    → IsIdle (run (write_done ∷ each_written ms) c)
unfolding run writes
each_written-IsIdle [] c q h w =
    let found = remove-write c.outstanding w in
    let d : WebSocketClient = record c { outstanding = found.0; write_in_progress = false } in
    subst IsIdle (sym (step-write_done c found.0 found.1 h ∙ ap (λ x. write_next x d) q)) (q, refl)
each_written-IsIdle (m ∷ ms) c q h w =
    let found = remove-write c.outstanding w in
    let d : WebSocketClient = record c { outstanding = found.0; write_in_progress = false } in
    subst (λ x. IsIdle (run (each_written (m ∷ ms)) x))
      (sym (step-write_done c found.0 found.1 h ∙ ap (λ x. write_next x d) q))
      (each_written-IsIdle ms (write_next (m ∷ ms) d) refl h (omega (arith, found.2)))

accepted-each_written : (ms : List String) (c : WebSocketClient) → accepted (each_written ms) c ≡ []
unfolding accepted
accepted-each_written [] c = refl
accepted-each_written (m ∷ ms) c = accepted-each_written ms (step write_done c)

remove-zero : (ps : List Operation) → writes ps ≡ 0 → remove write ps ≡ none
unfolding remove writes
remove-zero [] w = refl
remove-zero (p ∷ ps) w = ground (arith, remove-zero ps)

step-no_write : (c : WebSocketClient) → writes c.outstanding ≡ 0 → step write_done c ≡ c
unfolding step
step-no_write c w =
    let result : Option (List Operation) → WebSocketClient = λ r. elim r [
      | none ↦ c
      | some os ↦ complete write success "" true (pos 0) (record c { outstanding = os })
    ] in
    ap result (remove-zero c.outstanding w)

-- One write more than messages wait.
abbrev pub all_written : WebSocketClient → List Event
all_written c = write_done ∷ each_written c.message_queue

all_written-IsIdle :
    (c : WebSocketClient)
    → IsSafe c
    → IsBusy c
    → c.state ≡ connected
    → IsIdle (run (all_written c) c)
unfolding run
all_written-IsIdle c s b h = elim (Bool-cases c.write_in_progress) [
  | inl w ↦ each_written-IsIdle c.message_queue c refl h (s.single ∙ ap (λ p. if p then 1 else 0) w)
  | inr w ↦
      let empty = b (ap (λ t. state_eq t connected) h) w in
      let none_out = s.single ∙ ap (λ p. if p then 1 else 0) w in
      subst IsIdle
        (sym
          (ap (λ ms. run (each_written ms) (step write_done c)) empty ∙ step-no_write c none_out))
        (empty, w)
]

-- A connected client in which the invariants hold has given every message to its stream and has no write in
-- progress, once one write more than messages wait has completed without an error.
pub run-all_written :
    (c : WebSocketClient)
    → IsSafe c
    → IsBusy c
    → c.state ≡ connected
    → let d = run (all_written c) c in
      (d.begun ≡ contents c) × (d.message_queue ≡ []) × (d.write_in_progress ≡ false)
run-all_written c s b h =
    let d = run (all_written c) c in
    let idle = all_written-IsIdle c s b h in
    let given =
      sym (append-nil d.begun)
      ∙ ap (d.begun ++◌) (sym idle.0)
      ∙ run-contents (all_written c) c
      ∙ ap (contents c ++◌) (accepted-each_written ("" ∷ c.message_queue) c)
      ∙ append-nil (contents c) in
    (given, idle.0, idle.1)
