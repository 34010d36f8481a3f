-- ===== src/Echonet/Exchange.antt =====
-- Transaction identifiers, the table of pending requests, and `sendRequestWithResponse` with the frames
-- that the receiver thread handles meanwhile. `none` is the end of the process: `std::promise::set_value`
-- throws on a promise that has its value, and the receiver thread does not catch it.
use ocpp_gw.Base.{
  ℕ, ◌+◌, ◌%◌, String, Bool, true, false, not, ◌&&◌, Option, none, some, is_some, List, [], ◌∷◌,
  ◌==◌, if◌then◌else◌, any,
}
use ocpp_gw.Echonet.Frame.{Frame, default_frame}

-- `next_tid_++` on a `uint16_t`; zero is skipped. The result and the counter after it.
unfoldable pub get_next_tid : ℕ → ℕ × ℕ
get_next_tid next_tid =
    let once = (next_tid + 1) % 65536 in
    if next_tid == 0 then (once, (once + 1) % 65536) else (next_tid, once)

pub record Response : Type 0 where
  pub tid : ℕ
  pub frame : Frame
  pub success : Bool
  pub error_message : String

-- `pending` leads from a TID to the promise that its callback fulfils, and `answers` from a promise to
-- its value.
pub record Exchange : Type 0 where
  pub pending : List (ℕ × ℕ)
  pub answers : List (ℕ × Response)

module _ {ℓ} {V : Type ℓ} where
  -- `find`, `erase` and assignment on a map with numbers for keys; its order is of no account here.
  unfoldable pub find : ℕ → List (ℕ × V) → Option V
  find k [] = none
  find k ((j, v) ∷ m) = let later = find k m in if j == k then some v else later

  unfoldable pub remove : ℕ → List (ℕ × V) → List (ℕ × V)
  remove k [] = []
  remove k ((j, v) ∷ m) = let later = remove k m in if j == k then later else (j, v) ∷ later

  unfoldable pub assign : ℕ → V → List (ℕ × V) → List (ℕ × V)
  unfolding remove
  assign k v m = (k, v) ∷ remove k m

abbrev is_node_profile : Frame → Bool
is_node_profile f = (f.seoj_class_group_code == 0x0E) && (f.seoj_class_code == 0xF0)

abbrev pub answer_of : Frame → Response
answer_of f = record { tid = f.tid; frame = f; success = true; error_message = "" }

-- The callback of a pending request: `set_value` on its promise.
unfoldable pub fulfil : ℕ → Frame → Exchange → Option Exchange
fulfil promise f s =
    if is_some (find promise s.answers)
    then none
    else some (record s { answers = assign promise (answer_of f) s.answers })

-- During a discovery a frame of a node profile goes to `handleDiscoveryResponse`, which does not touch
-- the pending requests.
unfoldable pub handle_received_frame : Bool → Frame → Exchange → Option Exchange
handle_received_frame discovering f s =
    if discovering && is_node_profile f
    then some s
    else elim (find f.tid s.pending) [ none ↦ some s | some promise ↦ fulfil promise f s ]

-- The frames that the receiver thread handles, one after the other.
unfoldable pub receive : Bool → List Frame → Exchange → Option Exchange
receive discovering [] s = some s
receive discovering (f ∷ fs) s = elim (handle_received_frame discovering f s) [
  | none ↦ none
  | some s' ↦ receive discovering fs s'
]

-- `retransmitRequest`: whether one of at most three attempts is sent.
unfoldable pub retransmit_request : List Bool → Bool
retransmit_request (a ∷ b ∷ c ∷ _) = if a then true else if b then true else c
retransmit_request attempts = any (λ b. b) attempts

abbrev pub send_failed : ℕ → Response
send_failed tid = record {
  tid = tid;
  frame = default_frame;
  success = false;
  error_message = "Failed to send request";
}

-- What the network does to one request: whether the frame is sent, the attempts to send it again, and
-- the frames that come in during the first wait, between its end and the removal of the pending request,
-- and after that, to the end of the second wait.
pub record Network : Type 0 where
  pub discovering : Bool
  pub sent : Bool
  pub attempts : List Bool
  pub during : List Frame
  pub between : List Frame
  pub afterwards : List Frame

-- After the pending request is removed: `ready` is the status of the first wait.
unfoldable pub conclude : ℕ → Bool → Network → Exchange → Option (Exchange × Option Response)
conclude promise ready w s =
    if ready
    then some (s, find promise s.answers)
    else if retransmit_request w.attempts
    then elim (receive w.discovering w.afterwards s) [
      | none ↦ none
      | some s' ↦ some (s', find promise s'.answers)
    ]
    else some (s, none)

-- `promise` is the one that the call makes.
unfoldable pub send_request_with_response :
    ℕ → Frame → Network → Exchange → Option (Exchange × Option Response)
send_request_with_response promise f w s =
    let registered = record s { pending = assign f.tid promise s.pending } in
    if not w.sent
    then some
        (record registered { pending = remove f.tid registered.pending }, some (send_failed f.tid))
    else elim (receive w.discovering w.during registered) [
      | none ↦ none
      | some waited ↦ elim (receive w.discovering w.between waited) [
        | none ↦ none
        | some late ↦
            conclude promise (is_some (find promise waited.answers)) w
              (record late { pending = remove f.tid late.pending })
      ]
    ]
