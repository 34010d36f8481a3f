-- ===== src/Echonet/Scenarios.antt =====
-- The theorems on frames at concrete bytes.
use ocpp_gw.Base.{◌≡◌, refl, inl, some, List, [], ◌∷◌, ◌++◌, ℕ, arith}
use ocpp_gw.Echonet.Frame.{Frame, default_frame, serialize, deserialize, deserialize_properties}
use ocpp_gw.Echonet.Codec.{IsWellFormed, deserialize-serialize, deserialize-IsWellFormed}
use ocpp_gw.Base.{true, false, none, ◌≢◌, ◌==◌, if◌then◌else◌}
use ocpp_gw.Echonet.Exchange.{
  Exchange, Network, find, remove, assign, answer_of, handle_received_frame, receive,
  retransmit_request, conclude, send_request_with_response,
}
use ocpp_gw.Echonet.Delivery.{
  IsFresh, IsIdle, send_request_with_response-delivers, send_request_with_response-loses,
  send_request_with_response-ends,
}

-- A response with one property of two bytes.
abbrev response : Frame
response = record default_frame {
  tid = 0x0102;
  esv = 0x72;
  opc = 1;
  properties = record { epc = 0x80; pdc = 2; edt = 0x30 ∷ 0x31 ∷ [] } ∷ [];
}

deserialize-serialize_example : deserialize (serialize response ++ (7 ∷ [])) ≡ some response
deserialize-serialize_example = deserialize-serialize response (7 ∷ []) (record {
  known_ehd1 = refl;
  known_ehd2 = inl refl;
  tid_fits = omega arith;
  opc_counts = refl;
  opc_fits = omega arith;
  counted = (refl, tt);
})

abbrev received : List ℕ
received =
    0x10 ∷ 0x81 ∷ 1 ∷ 2 ∷ 5 ∷ 0xFF ∷ 1 ∷ 0 ∷ 0 ∷ 0 ∷ 0x72 ∷ 1 ∷ 0x80 ∷ 2 ∷ 0x30 ∷ 0x31 ∷ 7 ∷ []

deserialize-received : deserialize received ≡ some response
unfolding deserialize deserialize_properties
deserialize-received = refl

deserialize-IsWellFormed_example :
    IsWellFormed response × ((extra : List ℕ) × (received ≡ serialize response ++ extra))
deserialize-IsWellFormed_example =
    deserialize-IsWellFormed received response
      (
        omega arith,
        (
          omega arith,
          (
            omega arith,
            (
              omega arith,
              (
                omega arith,
                (
                  omega arith,
                  (
                    omega arith,
                    (
                      omega arith,
                      (
                        omega arith,
                        (
                          omega arith,
                          (
                            omega arith,
                            (
                              omega arith,
                              (
                                omega arith,
                                (omega arith, (omega arith, (omega arith, (omega arith, tt)))),
                              ),
                            ),
                          ),
                        ),
                      ),
                    ),
                  ),
                ),
              ),
            ),
          ),
        ),
      )
      deserialize-received

-- A request with TID 9, its answer, and a stray frame with TID 5.
abbrev request : Frame
request = record default_frame { tid = 9; esv = 0x62 }

abbrev answer : Frame
answer = record default_frame { tid = 9; esv = 0x72 }

abbrev stray : Frame
stray = record default_frame { tid = 5; esv = 0x73 }

abbrev quiet : Exchange
quiet = record { pending = []; answers = [] }

quiet-IsFresh : IsFresh 1 quiet
unfolding find
quiet-IsFresh = (refl, λ k h. ground arith)

stray-IsIdle : IsIdle 9 quiet stray
unfolding find
stray-IsIdle = ((λ h. omega arith), refl)

send_request_with_response-delivers_example :
    let w : Network = record {
      discovering = false;
      sent = true;
      attempts = [];
      during = stray ∷ answer ∷ [];
      between = stray ∷ [];
      afterwards = [];
    } in
    (s' : Exchange) × ((send_request_with_response 1 request w quiet
        ≡ some (s', some (answer_of answer)))
      × ((k : ℕ) → find k s'.pending ≡ (if 9 == k then none else find k quiet.pending)))
send_request_with_response-delivers_example =
    send_request_with_response-delivers 1 request answer (stray ∷ []) (stray ∷ []) [] [] quiet
      quiet-IsFresh refl (stray-IsIdle, tt) (stray-IsIdle, tt)

-- The request is sent again, and its answer comes at once.
abbrev late : Network
late = record {
  discovering = false;
  sent = true;
  attempts = true ∷ [];
  during = stray ∷ [];
  between = [];
  afterwards = answer ∷ [];
}

send_request_with_response-loses_example :
    send_request_with_response 1 request late quiet ≢ some (quiet, some (answer_of answer))
send_request_with_response-loses_example =
    send_request_with_response-loses 1 request late quiet quiet (answer_of answer) quiet-IsFresh
      refl (stray-IsIdle.0, tt) tt

-- It ends with no answer.
late_answer :
    send_request_with_response 1 request late quiet
    ≡ some (record { pending = []; answers = [] }, none)
unfolding send_request_with_response conclude receive handle_received_frame find remove assign
    retransmit_request
late_answer = refl

send_request_with_response-ends_example :
    let w : Network = record {
      discovering = false;
      sent = true;
      attempts = [];
      during = stray ∷ answer ∷ [];
      between = stray ∷ answer ∷ [];
      afterwards = [];
    } in
    send_request_with_response 1 request w quiet ≡ none
send_request_with_response-ends_example =
    send_request_with_response-ends 1 request answer answer (stray ∷ []) (stray ∷ []) [] [] [] quiet
      quiet-IsFresh refl refl (stray-IsIdle, tt) (stray-IsIdle, tt)
