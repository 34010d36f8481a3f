-- ===== src/Ocpp/Codec.antt =====
-- `serializeMessage` and `parseMessage`. `none` is a `ProtocolError` or an exception of the JSON library.
use ocpp_gw.Base.{ℤ, pos, negsuc, String, Option, none, some, List, [], ◌∷◌, ◌==◌, if◌then◌else◌}
use ocpp_gw.Base.Dict.{Dict, lookup, insert, erase}
use ocpp_gw.Ocpp.Json.{JsonLib}
use ocpp_gw.Ocpp.Message.{
  MessageType, call, call_result, call_error, type_number, OcppMessageAction, unknown,
  action_to_string, string_to_action, OcppMessage,
}

-- The actions of the calls sent, by message id.
abbrev pub Pending : Type 0
Pending = Dict OcppMessageAction

abbrev pub message_type : ℤ → Option MessageType
message_type (pos n) =
    if n == 2
    then some call
    else if n == 3
    then some call_result
    else if n == 4
    then some call_error
    else none
message_type (negsuc n) = none

abbrev pub Parsed : JsonLib → Type 0
Parsed l = Option (OcppMessage l × Pending)

-- The elements after the first two; on a const object `operator[]` of a member that is not there is
-- undefined, and `none` too.
unfoldable pub body :
    (l : JsonLib) → MessageType → OcppMessageAction → l.Json → Option (List l.Json)
body l call action p = some (l.text (action_to_string action) ∷ p ∷ [])
body l call_result action p = some (p ∷ [])
body l call_error action p = elim (l.member "code" p) [
  | none ↦ none
  | some error_code ↦ elim (l.member "description" p) [
    | none ↦ none
    | some description ↦ elim (l.member "details" p) [
      | none ↦ some (error_code ∷ description ∷ [])
      | some details ↦ some (error_code ∷ description ∷ details ∷ [])
    ]
  ]
]

unfoldable pub serialize_message : {l : JsonLib} → OcppMessage l → Option l.Wire
serialize_message {l} m = elim (body l m.type m.action m.payload) [
  | none ↦ none
  | some rest ↦ l.dump (l.array (l.number (type_number m.type) ∷ l.text m.id ∷ rest))
]

unfoldable pub parse_call : (l : JsonLib) → String → List l.Json → Pending → Parsed l
parse_call l id (action ∷ payload ∷ _) pending = elim (l.as_text action) [
  | none ↦ none
  | some name ↦
      some (
        record { type = call; id = id; action = string_to_action name; payload = payload },
        pending,
      )
]
parse_call l id _ pending = none

-- The action is looked up among the pending requests, and the request is removed.
unfoldable pub parse_call_result : (l : JsonLib) → String → List l.Json → Pending → Parsed l
parse_call_result l id [] pending = none
parse_call_result l id (payload ∷ _) pending = elim (lookup id pending) [
  | none ↦
      some (record { type = call_result; id = id; action = unknown; payload = payload }, pending)
  | some action ↦
      some (
        record { type = call_result; id = id; action = action; payload = payload },
        erase id pending,
      )
]

unfoldable pub parse_call_error : (l : JsonLib) → String → List l.Json → Pending → Parsed l
parse_call_error l id (error_code ∷ description ∷ details ∷ _) pending =
    elim (l.as_text error_code) [
      | none ↦ none
      | some _ ↦ elim (l.as_text description) [
        | none ↦ none
        | some _ ↦ some (
          record {
            type = call_error;
            id = id;
            action = unknown;
            payload = l.object (
                insert "details" details
                  (insert "description" description (insert "code" error_code [])));
          },
          pending,
        )
      ]
    ]
parse_call_error l id _ pending = none

abbrev pub parse_by : (l : JsonLib) → MessageType → String → List l.Json → Pending → Parsed l
parse_by l call id rest pending = parse_call l id rest pending
parse_by l call_result id rest pending = parse_call_result l id rest pending
parse_by l call_error id rest pending = parse_call_error l id rest pending

-- The type, the id, and then the rest.
unfoldable pub parse_items : (l : JsonLib) → List l.Json → Pending → Parsed l
parse_items l (type ∷ id ∷ rest) pending = elim (l.as_number type) [
  | none ↦ none
  | some n ↦ elim (message_type n) [
    | none ↦ none
    | some t ↦ elim (l.as_text id) [ none ↦ none | some i ↦ parse_by l t i rest pending ]
  ]
]
parse_items l _ pending = none

unfoldable pub parse_message : (l : JsonLib) → l.Wire → Pending → Parsed l
parse_message l w pending = elim (l.parse w) [
  | none ↦ none
  | some j ↦ elim (l.items j) [ none ↦ none | some js ↦ parse_items l js pending ]
]
