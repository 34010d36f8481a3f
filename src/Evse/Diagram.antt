-- ===== src/Evse/Diagram.antt =====
-- The transition diagram of the machine, described event by event, against `processEvent`.
use ocpp_gw.Base.{◌≡◌, refl, ◌≢◌, ◌⊎◌, inl, inr, String, Bool, true, false, arith}
use ocpp_gw.Evse.Types.{
  EvseState, preparing, charging, suspended_ev, suspended_evse, finishing, EvseEvent, plug_in,
  plug_out, authorize_start, authorize_stop, start_charging, stop_charging, suspend_charging_ev,
  suspend_charging_evse, resume_charging, reserve, cancel_reservation, set_unavailable,
  set_available, fault_detected, fault_cleared, Platform, Evse, Readings, IdTag, missing, tag,
  Reply, refused,
}
use ocpp_gw.Evse.Machine.{
  move_to, start_authorized, stop_with, stop_authorized, fault_with_transaction, dispatch,
}

-- The states in which a transaction is in progress.
abbrev pub in_transaction : EvseState → Bool
in_transaction charging = true
in_transaction suspended_ev = true
in_transaction suspended_evse = true
in_transaction _ = false

-- From which states an event leads on, and where to.
abbrev pub Edge : EvseState → EvseEvent → EvseState → Type 0
Edge st plug_in new = ((st ≡ EvseState.available) ⊎ (st ≡ EvseState.reserved)) × (new ≡ preparing)
Edge st plug_out new = ((st ≡ preparing) ⊎ (st ≡ finishing)) × (new ≡ EvseState.available)
Edge st authorize_start new = (st ≡ preparing) × (new ≡ charging)
Edge st authorize_stop new = (in_transaction st ≡ true) × (new ≡ finishing)
Edge st start_charging new = ⊥
Edge st stop_charging new = (in_transaction st ≡ true) × (new ≡ finishing)
Edge st suspend_charging_ev new = (st ≡ charging) × (new ≡ suspended_ev)
Edge st suspend_charging_evse new = (st ≡ charging) × (new ≡ suspended_evse)
Edge st resume_charging new = ((st ≡ suspended_ev) ⊎ (st ≡ suspended_evse)) × (new ≡ charging)
Edge st reserve new = (st ≡ EvseState.available) × (new ≡ EvseState.reserved)
Edge st cancel_reservation new = (st ≡ EvseState.reserved) × (new ≡ EvseState.available)
Edge st set_unavailable new =
    ((st ≡ EvseState.available) ⊎ ((st ≡ preparing) ⊎ (st ≡ EvseState.reserved)))
    × (new ≡ EvseState.unavailable)
Edge st set_available new = (st ≡ EvseState.unavailable) × (new ≡ EvseState.available)
Edge st fault_detected new = (st ≢ EvseState.faulted) × (new ≡ EvseState.faulted)
Edge st fault_cleared new = (st ≡ EvseState.faulted) × (new ≡ EvseState.available)

-- The data that an event must carry to be taken.
abbrev pub Tagged : EvseEvent → IdTag → Type 0
Tagged authorize_start d = (t : String) × (d ≡ tag t)
Tagged authorize_stop d = d ≢ missing
Tagged _ d = Unit

-- What one call of `dispatch` does, by the operation that it makes.
pub data Effect {p : Platform} (st : EvseState) (e : EvseEvent) (r : Readings p) (d : IdTag)
    (s : Evse p) (x : Evse p × Reply) : Type 0 where
  refuses : ((new : EvseState) → ¬ Edge st e new) → x ≡ (s, refused) → Effect st e r d s x
  moves :
      (new : EvseState)
      → Edge st e new
      → in_transaction new ≡ in_transaction st
      → x ≡ move_to new s
      → Effect st e r d s x
  starts : e ≡ authorize_start → st ≡ preparing → x ≡ start_authorized r d s → Effect st e r d s x
  stops :
      e ≡ stop_charging → in_transaction st ≡ true → x ≡ stop_with r "Local" s → Effect st e r d s x
  stops_authorized :
      e ≡ authorize_stop
      → in_transaction st ≡ true
      → x ≡ stop_authorized r d s
      → Effect st e r d s x
  faults :
      e ≡ fault_detected
      → in_transaction st ≡ true
      → x ≡ fault_with_transaction r s
      → Effect st e r d s x

module _ {p : Platform} where
  pub dispatch-Effect :
      (st : EvseState) (e : EvseEvent) (r : Readings p) (d : IdTag) (s : Evse p)
      → Effect st e r d s (dispatch st e r d s)
  unfolding dispatch
  dispatch-Effect EvseState.available plug_in r d s = moves preparing (inl refl, refl) refl refl
  dispatch-Effect EvseState.available reserve r d s = moves _ (refl, refl) refl refl
  dispatch-Effect EvseState.available set_unavailable r d s = moves _ (inl refl, refl) refl refl
  dispatch-Effect EvseState.available fault_detected r d s = moves _ ((λ h. cc), refl) refl refl
  dispatch-Effect preparing plug_out r d s = moves _ (inl refl, refl) refl refl
  dispatch-Effect preparing authorize_start r d s = starts refl refl refl
  dispatch-Effect preparing set_unavailable r d s = moves _ (inr (inl refl), refl) refl refl
  dispatch-Effect preparing fault_detected r d s = moves _ ((λ h. cc), refl) refl refl
  dispatch-Effect charging stop_charging r d s = stops refl refl refl
  dispatch-Effect charging authorize_stop r d s = stops_authorized refl refl refl
  dispatch-Effect charging suspend_charging_ev r d s = moves _ (refl, refl) refl refl
  dispatch-Effect charging suspend_charging_evse r d s = moves _ (refl, refl) refl refl
  dispatch-Effect charging fault_detected r d s = faults refl refl refl
  dispatch-Effect suspended_ev resume_charging r d s = moves _ (inl refl, refl) refl refl
  dispatch-Effect suspended_ev stop_charging r d s = stops refl refl refl
  dispatch-Effect suspended_ev authorize_stop r d s = stops_authorized refl refl refl
  dispatch-Effect suspended_ev fault_detected r d s = faults refl refl refl
  dispatch-Effect suspended_evse resume_charging r d s = moves _ (inr refl, refl) refl refl
  dispatch-Effect suspended_evse stop_charging r d s = stops refl refl refl
  dispatch-Effect suspended_evse authorize_stop r d s = stops_authorized refl refl refl
  dispatch-Effect suspended_evse fault_detected r d s = faults refl refl refl
  dispatch-Effect finishing plug_out r d s = moves _ (inr refl, refl) refl refl
  dispatch-Effect finishing fault_detected r d s = moves _ ((λ h. cc), refl) refl refl
  dispatch-Effect EvseState.reserved plug_in r d s = moves _ (inr refl, refl) refl refl
  dispatch-Effect EvseState.reserved cancel_reservation r d s = moves _ (refl, refl) refl refl
  dispatch-Effect EvseState.reserved set_unavailable r d s =
      moves _ (inr (inr refl), refl) refl refl
  dispatch-Effect EvseState.reserved fault_detected r d s = moves _ ((λ h. cc), refl) refl refl
  dispatch-Effect EvseState.unavailable set_available r d s = moves _ (refl, refl) refl refl
  dispatch-Effect EvseState.unavailable fault_detected r d s = moves _ ((λ h. cc), refl) refl refl
  dispatch-Effect EvseState.faulted fault_cleared r d s = moves _ (refl, refl) refl refl
  dispatch-Effect _ _ r d s = refuses (λ new h. ground arith) refl
