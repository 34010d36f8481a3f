-- ===== src/Ocpp/RoundTrip.antt =====
-- Messages written and read back.
use ocpp_gw.Base.{String, ◌≡◌, refl, ◌∙◌, true, false, all, none, some, List, [], ◌∷◌, arith}
use ocpp_gw.Base.Dict.{Dict, lookup, insert, erase}
use ocpp_gw.Ocpp.Json.{JsonLib, IsJson}
use ocpp_gw.Ocpp.Message.{
  MessageType, call, call_result, call_error, type_number, OcppMessageAction, unknown,
  action_to_string, string_to_action-action_to_string, OcppMessage, create_call, create_call_result,
  create_call_error, error_members,
}
use ocpp_gw.Ocpp.Codec.{
  Pending, message_type, body, serialize_message, parse_call, parse_call_result, parse_call_error,
  parse_by, parse_items, parse_message,
}

module _ {l : JsonLib} where
  -- The messages that the factories make; an error with its details.
  pub data Made : OcppMessage l → Type 0 where
    is_call :
        (fresh id : String) (action : OcppMessageAction) (payload : l.Json)
        → Made (create_call fresh id action payload)
    is_result : (id : String) (payload : l.Json) → Made (create_call_result id payload)
    is_error :
        (id error_code description : String) (details : l.Json)
        → l.is_null details ≡ false
        → Made (create_call_error id error_code description details)

  -- What the peer that sent the request makes of a message: a result gets the action of its request,
  -- which is pending no longer.
  abbrev pub received_by : MessageType → OcppMessage l → Pending → OcppMessage l × Pending
  received_by call_result m pending = elim (lookup m.id pending) [
    | none ↦ (m, pending)
    | some action ↦ (record m { action = action }, erase m.id pending)
  ]
  received_by _ m pending = (m, pending)

  abbrev pub received : OcppMessage l → Pending → OcppMessage l × Pending
  received m pending = received_by m.type m pending

  module _ (laws : IsJson l) where
    message_type-type_number : (t : MessageType) → message_type (type_number t) ≡ some t
    message_type-type_number t = ground arith

    as_number-type_number :
        (t : MessageType) → l.as_number (l.number (type_number t)) ≡ some (type_number t)
    as_number-type_number call = laws.as_number-number 2 (omega arith)
    as_number-type_number call_result = laws.as_number-number 3 (omega arith)
    as_number-type_number call_error = laws.as_number-number 4 (omega arith)

    elements_kept :
        (t : MessageType) (id : String) (rest : List l.Json)
        → all l.kept rest ≡ true
        → l.kept (l.array (l.number (type_number t) ∷ l.text id ∷ rest)) ≡ true
    elements_kept t id rest k = ground (
      arith,
      laws.kept-array (l.number (type_number t) ∷ l.text id ∷ rest),
      laws.kept-number (type_number t),
      laws.kept-text id,
    )

    -- Reading what was written comes down to reading the elements after the first two.
    parse-serialize :
        (m : OcppMessage l) (rest : List l.Json) (w : l.Wire) (pending : Pending)
        → body l m.type m.action m.payload ≡ some rest
        → all l.kept rest ≡ true
        → serialize_message m ≡ some w
        → parse_message l w pending ≡ parse_by l m.type m.id rest pending
    unfolding serialize_message parse_message parse_items
    parse-serialize m rest w pending e k h =
        let js = l.number (type_number m.type) ∷ l.text m.id ∷ rest in
        rw
          (
            parse_message,
            laws.parse-dump (l.array js) w (elements_kept m.type m.id rest k) (ground arith),
            laws.items-array js,
            parse_items,
            as_number-type_number m.type,
            message_type-type_number m.type,
            laws.as_text-text m.id,
          )
          refl

    body-member :
        (p error_code description details : l.Json)
        → l.member "code" p ≡ some error_code
        → l.member "description" p ≡ some description
        → l.member "details" p ≡ some details
        → body l call_error unknown p ≡ some (error_code ∷ description ∷ details ∷ [])
    unfolding body
    body-member p error_code description details e f g = rw (body, e, f, g) refl

    body-no_details :
        (p error_code description : l.Json)
        → l.member "code" p ≡ some error_code
        → l.member "description" p ≡ some description
        → l.member "details" p ≡ none
        → body l call_error unknown p ≡ some (error_code ∷ description ∷ [])
    unfolding body
    body-no_details p error_code description e f g = rw (body, e, f, g) refl

    body-error :
        (error_code description : String) (details : l.Json)
        → l.is_null details ≡ false
        → body l call_error unknown (l.object (error_members l error_code description details))
          ≡ some (l.text error_code ∷ l.text description ∷ details ∷ [])
    unfolding error_members insert lookup
    body-error error_code description details h =
        let members : Dict l.Json = error_members l error_code description details in
        body-member (l.object members) (l.text error_code) (l.text description) details
          (laws.member-object "code" members ∙ rw h refl)
          (laws.member-object "description" members ∙ rw h refl)
          (laws.member-object "details" members ∙ rw h refl)

    result_lem :
        (id : String) (payload : l.Json) (pending : Pending)
        → parse_call_result l id (payload ∷ []) pending
          ≡ some (received_by call_result (create_call_result id payload) pending)
    unfolding parse_call_result create_call_result
    result_lem id payload pending = ground arith

    payload_kept : (payload : l.Json) → l.kept payload ≡ true → all l.kept (payload ∷ []) ≡ true
    payload_kept payload k = ground arith

    error_kept :
        (error_code description : String) (details : l.Json)
        → l.is_null details ≡ false
        → l.kept (l.object (error_members l error_code description details)) ≡ true
        → all l.kept (l.text error_code ∷ l.text description ∷ details ∷ []) ≡ true
    unfolding error_members insert
    error_kept error_code description details n k = ground (
      arith,
      laws.kept-object (error_members l error_code description details),
      laws.kept-text error_code,
      laws.kept-text description,
    )

    -- Every message that the factories make (an error only with details that are not null) whose payload the
    -- text keeps, with no number in it that is not finite, is read back once it is written: a call and an error
    -- as they were, a result with the action of the pending request of its id, which is then pending no longer.
    pub parse_message-serialize_message :
        (m : OcppMessage l) (w : l.Wire) (pending : Pending)
        → Made m
        → l.kept m.payload ≡ true
        → serialize_message m ≡ some w
        → parse_message l w pending ≡ some (received m pending)
    unfolding create_call create_call_result create_call_error parse_call parse_call_result
        parse_call_error body error_members insert
    parse_message-serialize_message m w pending (is_call fresh id action payload) k h =
        let name = l.text (action_to_string action) in
        rw
          (
            parse-serialize m (name ∷ payload ∷ []) w pending refl
                (ground (arith, laws.kept-text (action_to_string action))) h,
            parse_call,
            laws.as_text-text (action_to_string action),
            string_to_action-action_to_string action,
          )
          refl
    parse_message-serialize_message m w pending (is_result id payload) k h =
        parse-serialize (create_call_result id payload) (payload ∷ []) w pending refl
          (payload_kept payload k) h
        ∙ result_lem id payload pending
    parse_message-serialize_message m w pending (is_error id error_code description details n) k h =
        rw
          (
            parse-serialize m (l.text error_code ∷ l.text description ∷ details ∷ []) w pending
                (body-error error_code description details n)
                (error_kept error_code description details n k) h,
            parse_call_error,
            laws.as_text-text error_code,
            laws.as_text-text description,
            error_members,
            n,
          )
          refl

    -- An error without details, once written, is not read back: the parser refuses it.
    pub parse_message-null_error :
        (id error_code description : String) (w : l.Wire) (pending : Pending)
        → serialize_message (create_call_error {l = l} id error_code description l.null) ≡ some w
        → parse_message l w pending ≡ none
    unfolding create_call_error error_members insert lookup parse_call_error
    parse_message-null_error id error_code description w pending h =
        let members : Dict l.Json = error_members l error_code description l.null in
        let e = laws.is_null-null in
        parse-serialize (create_call_error id error_code description l.null)
          (l.text error_code ∷ l.text description ∷ []) w pending
          (body-no_details (l.object members) (l.text error_code) (l.text description)
            (laws.member-object "code" members ∙ rw e refl)
            (laws.member-object "description" members ∙ rw e refl)
            (laws.member-object "details" members ∙ rw e refl))
          (ground (arith, laws.kept-text error_code, laws.kept-text description)) h
