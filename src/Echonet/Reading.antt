-- ===== src/Echonet/Reading.antt =====
-- Reading and writing a property of a device from end to end.
use ocpp_gw.Base.{
  subst, ℕ, String, ◌≡◌, refl, true, false, Option-cases, inl, inr, none, some, List, [], ◌∷◌, ◌++◌,
  is_empty, All, arith,
}
use ocpp_gw.Base.Dict.{lookup}
use ocpp_gw.Device.Types.{
  DeviceInfo, RegisterAddress, RegisterValue, ReadResult, create_error_read_result,
  create_success_write_result,
}
use ocpp_gw.Device.Adapter.{Adapter, get_device_info}
use ocpp_gw.Echonet.Frame.{Property, Frame, esv_set_response, create_set_property_frame}
use ocpp_gw.Echonet.Exchange.{get_next_tid, Network, answer_of}
use ocpp_gw.Echonet.Delivery.{IsFresh, IsIdle, send_request_with_response-delivers}
use ocpp_gw.Echonet.Registers.{
  Station, find_property, write_answer, check_device, check_read, check_write, ask, read_register,
  write_register,
}

found_nonempty :
    (code : ℕ) (ps : List Property) (p : Property)
    → find_property code ps ≡ some p
    → is_empty ps ≡ false
unfolding find_property
found_nonempty code [] p h = absurd (ground arith)
found_nonempty code (q ∷ ps) p h = refl

write_answer-found :
    (code : ℕ) (g : Frame) (p : Property)
    → g.esv ≡ esv_set_response
    → find_property code g.properties ≡ some p
    → write_answer code (some (answer_of g)) ≡ create_success_write_result
unfolding write_answer
write_answer-found code g p e h = ground (arith, found_nonempty code g.properties p h)

-- A network on which the answer comes in during the wait, among frames of others.
abbrev pub answering : List Frame → Frame → List Frame → Network
answering before g between = record {
  discovering = false;
  sent = true;
  attempts = [];
  during = before ++ (g ∷ []);
  between = between;
  afterwards = [];
}

ask-answered :
    (promise : ℕ) (f g : Frame) (before between : List Frame) (s : Station)
    → IsFresh promise s.exchange
    → g.tid ≡ (get_next_tid s.next_tid).0
    → All (IsIdle g.tid s.exchange) before
    → All (IsIdle g.tid s.exchange) between
    → (s' : Station) × ((ask promise (answering before g between) f s
          ≡ some (s', some (answer_of g)))
        × (s'.adapter ≡ s.adapter))
unfolding ask
ask-answered promise f g before between s fresh same b m =
    let (ex, (e, _)) =
      send_request_with_response-delivers promise (record f { tid = (get_next_tid s.next_tid).0 }) g
        before between [] [] s.exchange fresh same
        (subst (λ t. All (IsIdle t s.exchange) before) same b)
        (subst (λ t. All (IsIdle t s.exchange) between) same m) in
    (record s { next_tid = (get_next_tid s.next_tid).1; exchange = ex }, (rw (ask, e) refl, refl))

-- A device that passes the checks and answers a write in time, under the request's identifier, with a response
-- that names the property, is written: the call succeeds, and the table of devices is unchanged. The request's
-- promise is new, and the other frames answer no request.
pub write_register-writes :
    (promise : ℕ) (id : String) (address : RegisterAddress) (v : RegisterValue) (s : Station)
    (g : Frame) (p : Property) (before between : List Frame)
    → check_write id address v s.adapter ≡ none
    → IsFresh promise s.exchange
    → g.tid ≡ (get_next_tid s.next_tid).0
    → All (IsIdle g.tid s.exchange) before
    → All (IsIdle g.tid s.exchange) between
    → g.esv ≡ esv_set_response
    → find_property address.epc g.properties ≡ some p
    → (s' : Station) × ((write_register promise (answering before g between) id address v s
          ≡ some (s', create_success_write_result))
        × (s'.adapter ≡ s.adapter))
unfolding write_register
write_register-writes promise id address v s g p before between ready fresh same b m e h =
    let f =
      create_set_property_frame address.eoj_class_group_code address.eoj_class_code
        address.eoj_instance_code address.epc v.bytes in
    let (s', (asked, kept)) = ask-answered promise f g before between s fresh same b m in
    (s', (rw (write_register, ready, asked, write_answer-found address.epc g p e h) refl, kept))

-- What a request that succeeds says of the adapter: it runs, and the device is known and online.
abbrev pub IsReachable : String → Adapter → Type 0
IsReachable id a =
    (a.running ≡ true) × ((d : DeviceInfo) × ((lookup id a.devices ≡ some d) × (d.online ≡ true)))

check_device-passes :
    (id : String) (a : Adapter)
    → check_device id a ≡ none
    → (d : DeviceInfo) × ((lookup id a.devices ≡ some d) × (d.online ≡ true))
unfolding check_device get_device_info
check_device-passes id a h = elim (Option-cases (lookup id a.devices)) [
  | inl q ↦ absurd (ground arith)
  | inr (d, q) ↦ (d, (q, ground arith))
]

check_read-IsReachable :
    (id : String) (address : RegisterAddress) (a : Adapter)
    → check_read id address a ≡ none
    → IsReachable id a
unfolding check_read
check_read-IsReachable id address a h = (ground arith, check_device-passes id a (ground arith))

-- Whatever the network does, a read that succeeds was made on a running adapter, of a device that it knows
-- and that is online.
pub read_register-IsReachable :
    (promise : ℕ) (w : Network) (id : String) (address : RegisterAddress) (s s' : Station)
    (result : ReadResult)
    → read_register promise w id address s ≡ some (s', result)
    → result.success ≡ true
    → IsReachable id s.adapter
unfolding read_register create_error_read_result
read_register-IsReachable promise w id address s s' result h ok =
    elim (Option-cases (check_read id address s.adapter)) [
      | inl q ↦ check_read-IsReachable id address s.adapter q
      | inr (message, q) ↦ absurd (ground arith)
    ]
