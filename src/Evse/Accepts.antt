-- ===== src/Evse/Accepts.antt =====
-- `processEvent` against the diagram: what it accepts, and what it leaves alone.
use ocpp_gw.Base.{
  ◌≡◌, refl, ◌≢◌, ◌∙◌, ◌⊎◌, subst, inl, inr, String, Bool, true, false, is_some, if◌then◌else◌,
  arith,
}
use ocpp_gw.Evse.Types.{
  EvseState, charging, finishing, EvseEvent, authorize_start, Platform, Evse, Readings, IdTag,
  missing, not_string, tag, Reply, accepted, refused,
}
use ocpp_gw.Evse.Machine.{
  start_transaction, stop_transaction, move_to, start_authorized, stop_with, stop_authorized,
  fault_with_transaction, process_event,
}
use ocpp_gw.Evse.Connector.{handle_state_transition}
use ocpp_gw.Evse.Diagram.{
  Edge, Tagged, Effect, refuses, moves, starts, stops, stops_authorized, faults, dispatch-Effect,
}
use ocpp_gw.Evse.Invariant.{IsConsistent}

Edge-functional :
    (st : EvseState) (e : EvseEvent) (a b : EvseState) → Edge st e a → Edge st e b → a ≡ b
Edge-functional st authorize_start a b h k = ground arith
Edge-functional st _ a b h k = ground arith

-- An operation that was asked for a state: it went there and was accepted, or changed nothing.
abbrev Went : {p : Platform} → Evse p → EvseState → Evse p × Reply → Type 0
Went s new x = ((x.0.current_state ≡ new) × (x.1 ≡ accepted)) ⊎ ((x.0 ≡ s) × (x.1 ≢ accepted))

module _ {p : Platform} where
  move_to_reaches :
      (new : EvseState) (s : Evse p)
      → ((move_to new s).0.current_state ≡ new) × ((move_to new s).1 ≡ accepted)
  unfolding move_to handle_state_transition
  move_to_reaches new s = ground arith

  -- A transaction that cannot be started or stopped leaves the machine as it is.
  start_transaction_fails :
      (r : Readings p) (t : String) (s : Evse p)
      → (start_transaction r t s).1 ≡ false
      → (start_transaction r t s).0 ≡ s
  unfolding start_transaction
  start_transaction_fails r t s h = ground arith

  stop_transaction_fails :
      (r : Readings p) (reason : String) (s : Evse p)
      → (stop_transaction r reason s).1 ≡ false
      → (stop_transaction r reason s).0 ≡ s
  unfolding stop_transaction
  stop_transaction_fails r reason s h = ground arith

  -- The conditional move that both end in.
  attempt-Went :
      (new : EvseState) (s s' : Evse p) (done : Bool)
      → (done ≡ false → s' ≡ s)
      → Went s new (if done then move_to new s' else (s', refused))
  attempt-Went new s s' true same = inl (move_to_reaches new s')
  attempt-Went new s s' false same = inr (same refl, λ h. cc)

  start_authorized-Went :
      (r : Readings p) (d : IdTag) (s : Evse p) → Went s charging (start_authorized r d s)
  unfolding start_authorized
  start_authorized-Went r missing s = inr (refl, λ h. cc)
  start_authorized-Went r not_string s = inr (refl, λ h. cc)
  start_authorized-Went r (tag t) s = attempt-Went charging s _ _ (start_transaction_fails r t s)

  stop_with-Went :
      (r : Readings p) (reason : String) (s : Evse p) → Went s finishing (stop_with r reason s)
  unfolding stop_with
  stop_with-Went r reason s = attempt-Went finishing s _ _ (stop_transaction_fails r reason s)

  stop_authorized-Went :
      (r : Readings p) (d : IdTag) (s : Evse p) → Went s finishing (stop_authorized r d s)
  unfolding stop_authorized
  stop_authorized-Went r missing s = inr (refl, λ h. cc)
  stop_authorized-Went r _ s = stop_with-Went r "DeAuthorized" s

  fault_with_transaction_reaches :
      (r : Readings p) (s : Evse p)
      → ((fault_with_transaction r s).0.current_state ≡ EvseState.faulted)
        × ((fault_with_transaction r s).1 ≡ accepted)
  unfolding fault_with_transaction
  fault_with_transaction_reaches r s = move_to_reaches EvseState.faulted _

  -- A call takes an edge of the diagram and is accepted, or changes nothing and is not.
  abbrev pub Takes : EvseState → EvseEvent → Evse p → Evse p × Reply → Type 0
  Takes st e s x = (Edge st e x.0.current_state × (x.1 ≡ accepted)) ⊎ ((x.0 ≡ s) × (x.1 ≢ accepted))

  Takes-Went :
      (st new : EvseState) (e k : EvseEvent) (s : Evse p) (x : Evse p × Reply)
      → e ≡ k
      → Edge st k new
      → Went s new x
      → Takes st e s x
  Takes-Went st new e k s x a g (inl (w, c)) = rw (a, w) (inl (g, c))
  Takes-Went st new e k s x a g (inr w) = inr w

  Effect-Takes :
      (st : EvseState) (e : EvseEvent) (r : Readings p) (d : IdTag) (s : Evse p)
      (x : Evse p × Reply)
      → Effect st e r d s x
      → Takes st e s x
  Effect-Takes st e r d s x (refuses n q) = rw q (inr (refl, λ h. cc))
  Effect-Takes st e r d s x (moves new g t q) =
      rw q (Takes-Went st new e e s (move_to new s) refl g (inl (move_to_reaches new s)))
  Effect-Takes st e r d s x (starts a b q) =
      rw q (Takes-Went st charging e _ s _ a (b, refl) (start_authorized-Went r d s))
  Effect-Takes st e r d s x (stops a b q) =
      rw q (Takes-Went st finishing e _ s _ a (b, refl) (stop_with-Went r "Local" s))
  Effect-Takes st e r d s x (stops_authorized a b q) =
      rw q (Takes-Went st finishing e _ s _ a (b, refl) (stop_authorized-Went r d s))
  Effect-Takes st e r d s x (faults a b q) = rw q (
      Takes-Went st EvseState.faulted e _ s _ a ((λ h. ground arith), refl)
        (inl (fault_with_transaction_reaches r s)))

  -- An accepted event goes along an edge of the state diagram, from the old state to the new one; with any
  -- other answer the whole machine is unchanged.
  pub process_event-Takes :
      (e : EvseEvent) (r : Readings p) (d : IdTag) (s : Evse p)
      → Takes s.current_state e s (process_event e r d s)
  unfolding process_event
  process_event-Takes e r d s = Effect-Takes s.current_state e r d s _ (dispatch-Effect _ e r d s)

  start_authorized_accepts :
      (r : Readings p) (t : String) (s : Evse p)
      → is_some s.current_transaction ≡ false
      → (start_authorized r (tag t) s).1 ≡ accepted
  unfolding start_authorized start_transaction move_to
  start_authorized_accepts r t s h = ground arith

  stop_with_accepts :
      (r : Readings p) (reason : String) (s : Evse p)
      → is_some s.current_transaction ≡ true
      → (stop_with r reason s).1 ≡ accepted
  unfolding stop_with stop_transaction move_to
  stop_with_accepts r reason s h = ground arith

  stop_authorized_accepts :
      (r : Readings p) (d : IdTag) (s : Evse p)
      → is_some s.current_transaction ≡ true
      → d ≢ missing
      → (stop_authorized r d s).1 ≡ accepted
  unfolding stop_authorized
  stop_authorized_accepts r missing s h k = absurd (k refl)
  stop_authorized_accepts r _ s h k = stop_with_accepts r "DeAuthorized" s h

  Effect-accepts :
      (e : EvseEvent) (new : EvseState) (r : Readings p) (d : IdTag) (s : Evse p)
      (x : Evse p × Reply)
      → IsConsistent s
      → Edge s.current_state e new
      → Tagged e d
      → Effect s.current_state e r d s x
      → x.1 ≡ accepted
  Effect-accepts e new r d s x v g t (refuses n q) = absurd (n new g)
  Effect-accepts e new r d s x v g t (moves other h k q) = rw q (move_to_reaches other s).1
  Effect-accepts e new r d s x v g t (starts a b q) =
      let (id_tag, given) = subst (λ k. Tagged k d) a t in
      rw (q, given) (start_authorized_accepts r id_tag s (rw b at v.transaction_follows))
  Effect-accepts e new r d s x v g t (stops a b q) =
      rw q (stop_with_accepts r "Local" s (v.transaction_follows ∙ b))
  Effect-accepts e new r d s x v g t (stops_authorized a b q) =
      rw q (stop_authorized_accepts r d s (v.transaction_follows ∙ b) (subst (λ k. Tagged k d) a t))
  Effect-accepts e new r d s x v g t (faults a b q) = rw q (fault_with_transaction_reaches r s).1

  -- A consistent machine follows every edge of the diagram when the event carries the data that it
  -- needs: the event is accepted and the new state is the edge's end.
  pub process_event_accepts :
      (e : EvseEvent) (new : EvseState) (r : Readings p) (d : IdTag) (s : Evse p)
      → IsConsistent s
      → Edge s.current_state e new
      → Tagged e d
      → ((process_event e r d s).1 ≡ accepted) × ((process_event e r d s).0.current_state ≡ new)
  unfolding process_event
  process_event_accepts e new r d s v g t = elim (process_event-Takes e r d s) [
    | inl (h, k) ↦ (k, Edge-functional s.current_state e _ _ h g)
    | inr (h, k) ↦ absurd (k (Effect-accepts e new r d s _ v g t (dispatch-Effect _ e r d s)))
  ]
