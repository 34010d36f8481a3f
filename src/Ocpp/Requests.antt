-- ===== src/Ocpp/Requests.antt =====
-- Requests and their answers: the requests that wait for a result, and the answer to a call.
use ocpp_gw.Base.{
  String, ◌≡◌, refl, sym, ap, subst, ◌∙◌, Bool, true, false, Bool-cases, Option, inl, inr, none,
  some, [], ◌∷◌, ◌++◌, if◌then◌else◌,
}
use ocpp_gw.Base.Dict.{Dict, lookup, insert, erase, lookup-insert}
use ocpp_gw.Ocpp.Json.{JsonLib, IsJson}
use ocpp_gw.Ocpp.Message.{
  MessageType, call, OcppMessageAction, unknown, OcppMessage, create_call_result,
}
use ocpp_gw.Ocpp.Codec.{Pending, serialize_message, parse_message}
use ocpp_gw.Ocpp.Processor.{
  OcppMessageProcessor, Calls, send_direct_message, queue_message, store_pending, send_text,
  send_message,
}
use ocpp_gw.Ocpp.RoundTrip.{is_result, parse_message-serialize_message}
use text.Mathlib.TextEquality.{eq_iff}

lookup-insert_same {ℓ} :
    {V : Type ℓ} (k : String) (v : V) (m : Dict V) → lookup k (insert k v m) ≡ some v
lookup-insert_same k v m =
    lookup-insert k k v m ∙ ap (λ b. if b then some v else lookup k m) ((eq_iff k k).1 refl)

module _ {l : JsonLib} where
  send_direct_message-pending :
      (w : l.Wire) (p : OcppMessageProcessor l)
      → (send_direct_message w p).1.pending_requests ≡ p.pending_requests
  unfolding send_direct_message
  send_direct_message-pending w p =
      let result : Option (Calls l → l.Wire → Bool) → Bool × OcppMessageProcessor l = λ c. elim c [
        | none ↦ (false, p)
        | some g ↦ (g p.calls w, record p { calls = p.calls ++ (w, g p.calls w) ∷ [] })
      ] in
      elim p.callback as (λ c. (result c).1.pending_requests ≡ p.pending_requests) [
        | none ↦ refl
        | some g ↦ refl
      ]

  send_message-pending :
      (m : OcppMessage l) (w : l.Wire) (p : OcppMessageProcessor l)
      → m.type ≡ call
      → serialize_message m ≡ some w
      → (send_message m p).1.pending_requests
        ≡ (if p.connected then insert m.id m.action p.pending_requests else p.pending_requests)
  unfolding send_message send_text queue_message
  send_message-pending m w p t h =
      let sent : Option l.Wire → Bool × OcppMessageProcessor l =
        λ o. elim o [ none ↦ (false, p) | some v ↦ send_text m v p ] in
      let stored : MessageType → Pending = λ u. store_pending u m.id m.action p.pending_requests in
      let q : OcppMessageProcessor l = record p { pending_requests = stored m.type } in
      let text : Bool → Bool × OcppMessageProcessor l =
        λ b. if b then send_direct_message w q else (true, queue_message w p) in
      let kept : Bool → Pending =
        λ b. if b then insert m.id m.action p.pending_requests else p.pending_requests in
      ap (λ o. (sent o).1.pending_requests) h ∙ elim (Bool-cases p.connected) [
        | inl c ↦
            ap (λ b. (text b).1.pending_requests) c
            ∙ send_direct_message-pending w q
            ∙ ap stored t
            ∙ sym (ap kept c)
        | inr c ↦ ap (λ b. (text b).1.pending_requests) c ∙ sym (ap kept c)
      ]

  -- What a result for the request `m` is read as.
  abbrev pub answer : OcppMessage l → l.Json → OcppMessageAction → OcppMessage l
  answer m payload action = record (create_call_result m.id payload) { action = action }

  -- The same, when these requests are pending, and which are pending after it.
  abbrev pub answer_by :
      OcppMessage l → l.Json → Pending → Option OcppMessageAction → OcppMessage l × Pending
  answer_by m payload pending none = (answer m payload unknown, pending)
  answer_by m payload pending (some action) = (answer m payload action, erase m.id pending)

  module _ (laws : IsJson l) where
    -- When a call was sent while connected, a result for its id whose payload the text keeps is read with the
    -- call's action, and no request of that id is pending any longer. When it was sent while offline, it is
    -- not pending: the result is read as before it was sent, with the action of an older request of that id,
    -- which is then pending no longer, or else with the action unknown.
    pub parse_message-send_message :
        (m : OcppMessage l) (w v : l.Wire) (payload : l.Json) (p : OcppMessageProcessor l)
        → m.type ≡ call
        → serialize_message m ≡ some w
        → l.kept payload ≡ true
        → serialize_message (create_call_result {l = l} m.id payload) ≡ some v
        → let pending = (send_message m p).1.pending_requests in
          parse_message l v pending
          ≡ some (
              if p.connected
              then (answer m payload m.action, erase m.id pending)
              else answer_by m payload p.pending_requests (lookup m.id p.pending_requests))
    unfolding create_call_result
    parse_message-send_message m w v payload p t h kept k =
        let Read : Type 0 = OcppMessage l × Pending in
        let read : Pending → Read = λ q. answer_by m payload q (lookup m.id q) in
        let old = p.pending_requests in
        let after : Bool → Pending = λ b. if b then insert m.id m.action old else old in
        let expected : Bool → Pending → Read =
          λ b q. if b then (answer m payload m.action, erase m.id q) else read old in
        let sent = send_message-pending m w p t h in
        parse_message-serialize_message laws (create_call_result m.id payload) v
          (send_message m p).1.pending_requests (is_result m.id payload) kept k
        ∙ ap some (
            subst (λ q. read q ≡ expected p.connected q) (sym sent)
              (elim (Bool-cases p.connected) [
                | inl c ↦
                    subst (λ b. read (after b) ≡ expected b (after b)) (sym c)
                      (ap (answer_by m payload (after true)) (lookup-insert_same m.id m.action old))
                | inr c ↦ subst (λ b. read (after b) ≡ expected b (after b)) (sym c) refl
              ]))
