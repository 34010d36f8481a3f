-- ===== src/Ocpp/Notices.antt =====
-- What the handlers of the WebSocket client are told when it stops accepting messages.
use ocpp_gw.Base.{
  ℤ, ◌≡◌, refl, sym, ap, subst, String, Bool, true, false, not, ◌||◌, Bool-cases, inl, inr, List,
  [], ◌∷◌, if◌then◌else◌, arith,
}
use ocpp_gw.Ocpp.WebSocketState.{
  connected, closed, error, state_eq, ErrorCode, is_error, Operation, resolve, tcp_connect,
  ssl_handshake, handshake, read, write, close_handshake, connect_timeout, reconnect_timer, Notice,
  connect_notice, message_notice, close_notice, error_notice, WebSocketClient, notify,
}
use ocpp_gw.Ocpp.WebSocketClient.{
  schedule_reconnect, handle_error, do_connect, connect, on_resolve, on_connect, on_ssl_handshake,
  do_read, do_write, write_next, on_handshake, on_connect_timeout, on_read, on_write, on_close,
  on_reconnect_timer,
}
use ocpp_gw.Ocpp.WebSocketRuns.{complete}

-- `send` refuses a message in these states.
abbrev pub is_down : WebSocketClient → Bool
is_down c = state_eq c.state closed || state_eq c.state error

-- The client under a manager, which has set its handlers.
pub record IsReady (c : WebSocketClient) : Type 0 where
  pub has_close : c.has_close_handler ≡ true
  pub has_error : c.has_error_handler ≡ true

-- Whether the notices of one step, from `before` to `after` (is it down?), tell of going down and of a
-- connection.
abbrev pub announces : List Notice → Bool → Bool → Bool
announces [] before after = not after || before
announces (connect_notice _ ∷ []) before after = not after
announces (message_notice _ ∷ []) before after = not after || before
announces (close_notice _ ∷ []) before after = true
announces (error_notice _ _ ∷ []) before after = true
announces (n ∷ m ∷ ns) before after = false

-- The parts that a write leaves alone.
pub record IsSame (c d : WebSocketClient) : Type 0 where
  pub same_state : d.state ≡ c.state
  pub same_close : d.has_close_handler ≡ c.has_close_handler
  pub same_error : d.has_error_handler ≡ c.has_error_handler
  pub same_connect : d.has_connect_handler ≡ c.has_connect_handler
  pub same_notices : d.notices ≡ c.notices

write_next-IsSame : (ms : List String) (c : WebSocketClient) → IsSame c (write_next ms c)
write_next-IsSame [] c = record {
  same_state = refl;
  same_close = refl;
  same_error = refl;
  same_connect = refl;
  same_notices = refl;
}
write_next-IsSame (m ∷ ms) c = record {
  same_state = refl;
  same_close = refl;
  same_error = refl;
  same_connect = refl;
  same_notices = refl;
}

pub do_write-IsSame : (c : WebSocketClient) → IsSame c (do_write c)
unfolding do_write
do_write-IsSame c =
    let w = write_next-IsSame c.message_queue c in
    record {
      same_state = ground (arith, w.same_state);
      same_close = ground (arith, w.same_close);
      same_error = ground (arith, w.same_error);
      same_connect = ground (arith, w.same_connect);
      same_notices = ground (arith, w.same_notices);
    }

-- A completion keeps the handlers, and announces what it does.
pub record IsAnnounced (before : Bool) (d : WebSocketClient) : Type 0 where
  pub ready : IsReady d
  pub announced : announces d.notices before (is_down d) ≡ true

handle_error-IsAnnounced :
    (before : Bool) (message : String) (ec : ErrorCode) (jitter : ℤ) (c : WebSocketClient)
    → IsReady c
    → IsAnnounced before (handle_error message ec jitter (record c { notices = [] }))
unfolding handle_error schedule_reconnect
handle_error-IsAnnounced before message ec jitter c r = record {
  ready = record {
    has_close = ground (arith, r.has_close);
    has_error = ground (arith, r.has_error);
  };
  announced = ground (arith, r.has_error);
}

notify-IsAnnounced :
    (before is_set : Bool) (c : WebSocketClient)
    → IsReady c
    → c.state ≡ connected
    → c.notices ≡ []
    → IsAnnounced before (notify is_set (connect_notice true) c)
notify-IsAnnounced before true c r h n = record {
  ready = record { has_close = r.has_close; has_error = r.has_error };
  announced = ground arith;
}
notify-IsAnnounced before false c r h n = record { ready = r; announced = ground arith }

pub complete-IsAnnounced :
    (o : Operation) (ec : ErrorCode) (message : String) (set_up : Bool) (jitter : ℤ)
    (c : WebSocketClient)
    → IsReady c
    → IsAnnounced (is_down c) (complete o ec message set_up jitter (record c { notices = [] }))
unfolding complete on_resolve on_connect on_ssl_handshake on_handshake on_read on_write on_close
    on_connect_timeout on_reconnect_timer do_connect handle_error schedule_reconnect do_read
complete-IsAnnounced resolve ec message set_up jitter c r = record {
  ready = record {
    has_close = ground (arith, r.has_close);
    has_error = ground (arith, r.has_error);
  };
  announced = ground (arith, r.has_error);
}
complete-IsAnnounced tcp_connect ec message set_up jitter c r = record {
  ready = record {
    has_close = ground (arith, r.has_close);
    has_error = ground (arith, r.has_error);
  };
  announced = ground (arith, r.has_error);
}
complete-IsAnnounced ssl_handshake ec message set_up jitter c r = record {
  ready = record {
    has_close = ground (arith, r.has_close);
    has_error = ground (arith, r.has_error);
  };
  announced = ground (arith, r.has_error);
}
complete-IsAnnounced handshake ec message set_up jitter c r =
    let d = do_read (record c { state = connected; reconnect_attempts = 0; notices = [] }) in
    let w = do_write-IsSame d in
    let opened =
      notify-IsAnnounced (is_down c) (do_write d).has_connect_handler (do_write d)
        (record {
          has_close = ground (arith, w.same_close, r.has_close);
          has_error = ground (arith, w.same_error, r.has_error);
        })
        (ground (arith, w.same_state)) (ground (arith, w.same_notices)) in
    let result : Bool → WebSocketClient = λ b.
      if b
      then handle_error "WebSocket handshake failed" ec jitter (record c { notices = [] })
      else notify (do_write d).has_connect_handler (connect_notice true) (do_write d) in
    elim (Bool-cases (is_error ec)) [
      | inl h ↦
          subst (IsAnnounced (is_down c)) (sym (ap result h))
            (handle_error-IsAnnounced (is_down c) "WebSocket handshake failed" ec jitter c r)
      | inr h ↦ subst (IsAnnounced (is_down c)) (sym (ap result h)) opened
    ]
complete-IsAnnounced read ec message set_up jitter c r = record {
  ready = record {
    has_close = ground (arith, r.has_close);
    has_error = ground (arith, r.has_error);
  };
  announced = ground (arith, r.has_error, r.has_close);
}
complete-IsAnnounced write ec message set_up jitter c r =
    let d : WebSocketClient = record c { write_in_progress = false; notices = [] } in
    let w = do_write-IsSame d in
    let e =
      handle_error-IsAnnounced (is_down c) "Write error" ec jitter
        (record c { write_in_progress = false })
        (record { has_close = r.has_close; has_error = r.has_error }) in
    record {
      ready = record {
        has_close = ground (arith, w.same_close, e.ready.has_close, r.has_close);
        has_error = ground (arith, w.same_error, e.ready.has_error, r.has_error);
      };
      announced = ground (arith, w.same_state, w.same_notices, e.announced);
    }
complete-IsAnnounced close_handshake ec message set_up jitter c r = record {
  ready = record {
    has_close = ground (arith, r.has_close);
    has_error = ground (arith, r.has_error);
  };
  announced = ground (arith, r.has_close);
}
complete-IsAnnounced connect_timeout ec message set_up jitter c r = record {
  ready = record {
    has_close = ground (arith, r.has_close);
    has_error = ground (arith, r.has_error);
  };
  announced = ground (arith, r.has_error);
}
complete-IsAnnounced reconnect_timer ec message set_up jitter c r = record {
  ready = record {
    has_close = ground (arith, r.has_close);
    has_error = ground (arith, r.has_error);
  };
  announced = ground (arith, r.has_error);
}

pub connect-IsAnnounced :
    (on_connect set_up : Bool) (jitter : ℤ) (c : WebSocketClient)
    → IsReady c
    → IsAnnounced (is_down c) (connect on_connect set_up jitter (record c { notices = [] }))
unfolding connect do_connect handle_error schedule_reconnect
connect-IsAnnounced on_connect set_up jitter c r = record {
  ready = record {
    has_close = ground (arith, r.has_close);
    has_error = ground (arith, r.has_error);
  };
  announced = ground (arith, r.has_error);
}
