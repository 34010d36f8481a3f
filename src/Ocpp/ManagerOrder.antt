-- ===== src/Ocpp/ManagerOrder.antt =====
-- The client manager: what its processor accepts reaches the stream of its WebSocket client in order.
use ocpp_gw.Base.{
  ◌≡◌, inl, inr, refl, sym, ap, ◌∙◌, String, true, false, ◌||◌, Bool-cases, List, [], ◌∷◌, ◌++◌,
  map, append-nil, append_assoc, if◌then◌else◌, arith,
}
use ocpp_gw.Ocpp.Json.{JsonLib}
use ocpp_gw.Ocpp.Processor.{OcppMessageProcessor}
use ocpp_gw.Ocpp.Delivery.{delivered}
use ocpp_gw.Ocpp.Channel.{Event, step, accepted_by, contents}
use ocpp_gw.Ocpp.Fifo.{IsCaughtUp, step-IsExtended}
use ocpp_gw.Ocpp.WebSocketState.{closed, error, WebSocketClient, state_eq}
use ocpp_gw.Ocpp.WebSocketClient.{send}
use ocpp_gw.Ocpp.WebSocketRuns as Web
use ocpp_gw.Ocpp.WebSocketOrder.{send_call-contents}
use ocpp_gw.Ocpp.Manager.{Texts, OcppClientManager, message_callback, forward, perform}
use ocpp_gw.Ocpp.Notices.{is_down, IsReady, IsSame, do_write-IsSame}
use ocpp_gw.Ocpp.Steady.{flag_after, step-quiet, step-flag}

map-append {ℓ κ} :
    {A : Type ℓ} {B : Type κ} (f : A → B) (xs ys : List A) → map f (xs ++ ys) ≡ map f xs ++ map f ys
map-append f [] ys = refl
map-append f (x ∷ xs) ys = ap (f x ∷◌) (map-append f xs ys)

send-IsSame : (message : String) (c : WebSocketClient) → IsSame c (send message c).1
unfolding send
send-IsSame message c =
    let d : WebSocketClient = record c { message_queue = c.message_queue ++ message ∷ [] } in
    let w = do_write-IsSame d in
    record {
      same_state = ground (arith, w.same_state);
      same_close = ground (arith, w.same_close);
      same_error = ground (arith, w.same_error);
      same_connect = ground (arith, w.same_connect);
      same_notices = ground (arith, w.same_notices);
    }

send-accepts :
    (message : String) (c : WebSocketClient) → is_down c ≡ false → (send message c).0 ≡ true
unfolding send
send-accepts message c h = ground arith

send-contents :
    (message : String) (c : WebSocketClient)
    → is_down c ≡ false
    → Web.contents (send message c).1 ≡ Web.contents c ++ message ∷ []
send-contents message c h =
    send_call-contents message c
    ∙ ap (λ b. Web.contents c ++ (if b then message ∷ [] else [])) (send-accepts message c h)

IsSame-transitive : (b c d : WebSocketClient) → IsSame b c → IsSame c d → IsSame b d
IsSame-transitive b c d x y = record {
  same_state = y.same_state ∙ x.same_state;
  same_close = y.same_close ∙ x.same_close;
  same_error = y.same_error ∙ x.same_error;
  same_connect = y.same_connect ∙ x.same_connect;
  same_notices = y.same_notices ∙ x.same_notices;
}

IsSame-is_down : (c d : WebSocketClient) → IsSame c d → is_down d ≡ is_down c
IsSame-is_down c d s = ap (λ t. state_eq t closed || state_eq t error) s.same_state

module _ {l : JsonLib} (t : Texts l) where
  forward-IsSame : (ws : List l.Wire) (c : WebSocketClient) → IsSame c (forward t ws c)
  unfolding forward
  forward-IsSame [] c = record {
    same_state = refl;
    same_close = refl;
    same_error = refl;
    same_connect = refl;
    same_notices = refl;
  }
  forward-IsSame (w ∷ ws) c =
      let d = (send (t.to_text w) c).1 in
      IsSame-transitive c d (forward t ws d) (send-IsSame (t.to_text w) c) (forward-IsSame ws d)

  forward-nothing : (c : WebSocketClient) → Web.contents (forward t [] c) ≡ Web.contents c
  unfolding forward
  forward-nothing c = refl

  forward-contents :
      (ws : List l.Wire) (c : WebSocketClient)
      → is_down c ≡ false
      → Web.contents (forward t ws c) ≡ Web.contents c ++ map t.to_text ws
  unfolding forward
  forward-contents [] c h = sym (append-nil (Web.contents c))
  forward-contents (w ∷ ws) c h =
      let d = (send (t.to_text w) c).1 in
      forward-contents ws d (IsSame-is_down c d (send-IsSame (t.to_text w) c) ∙ h)
      ∙ ap (λ x. x ++ map t.to_text ws) (send-contents (t.to_text w) c h)
      ∙ append_assoc (Web.contents c) (t.to_text w ∷ []) (map t.to_text ws)

  -- The texts given to the stream, those that wait in the client, and those that wait in the processor.
  abbrev pub total : OcppClientManager l → List String
  total m = Web.contents m.ws_client ++ map t.to_text m.processor.message_queue

  total-regrouped :
      (given given' : List String) (made rest queue ws : List l.Wire)
      → given' ≡ given ++ map t.to_text made
      → made ++ rest ≡ queue ++ ws
      → given' ++ map t.to_text rest ≡ (given ++ map t.to_text queue) ++ map t.to_text ws
  total-regrouped given given' made rest queue ws e h =
      ap (λ x. x ++ map t.to_text rest) e
      ∙ append_assoc given (map t.to_text made) (map t.to_text rest)
      ∙ ap (given ++◌) (
          sym (map-append t.to_text made rest)
          ∙ ap (map t.to_text) h
          ∙ map-append t.to_text queue ws)
      ∙ sym (append_assoc given (map t.to_text queue) (map t.to_text ws))

  -- What holds of the manager also while it handles a notice.
  pub record IsConserved (m : OcppClientManager l) : Type 0 where
    pub caught_up : IsCaughtUp (message_callback l) m.processor
    pub ready : IsReady m.ws_client
    pub conserved : total m ≡ map t.to_text m.accepted

  -- A processor that takes itself for connected has a client that accepts messages.
  pub record IsLinked (m : OcppClientManager l) : Type 0 where
    pub upheld : IsConserved m
    pub linked : m.processor.connected ≡ true → is_down m.ws_client ≡ false

  abbrev pub idle : OcppClientManager l → OcppMessageProcessor l
  idle m = record m.processor { calls = [] }

  perform-given :
      (e : Event l) (m : OcppClientManager l)
      → IsConserved m
      → (flag_after e m.processor.connected ≡ true → is_down m.ws_client ≡ false)
      → Web.contents (perform t e m).ws_client
        ≡ Web.contents m.ws_client ++ map t.to_text (delivered (step e (idle m)).calls)
  unfolding perform delivered
  perform-given e m k up =
      let c = m.ws_client in
      let q = step e (idle m) in
      elim (Bool-cases (flag_after e m.processor.connected)) [
        | inl on ↦ forward-contents (delivered q.calls) c (up on)
        | inr off ↦
            let none_made = step-quiet e (idle m) k.caught_up.has_callback off in
            ap (λ cs. Web.contents (forward t (delivered cs) c)) none_made
            ∙ forward-nothing c
            ∙ sym (append-nil (Web.contents c))
            ∙ ap (λ cs. Web.contents c ++ map t.to_text (delivered cs)) (sym none_made)
      ]

  -- An operation of the processor that leaves it connected only over a client that accepts messages.
  pub perform-IsLinked :
      (e : Event l) (m : OcppClientManager l)
      → IsConserved m
      → (flag_after e m.processor.connected ≡ true → is_down m.ws_client ≡ false)
      → IsLinked (perform t e m)
  unfolding perform contents delivered
  perform-IsLinked e m k up =
      let c = m.ws_client in
      let q = step e (idle m) in
      let resting : IsCaughtUp (message_callback l) (idle m) = record {
        has_callback = k.caught_up.has_callback;
        none_waiting = k.caught_up.none_waiting;
      } in
      let x = step-IsExtended {f = message_callback l} (λ cs w. refl) e (idle m) resting in
      let same = forward-IsSame (delivered q.calls) c in
      let flag = step-flag e (idle m) k.caught_up.has_callback in
      record {
        upheld = record {
          caught_up = x.caught_up;
          ready = record {
            has_close = same.same_close ∙ k.ready.has_close;
            has_error = same.same_error ∙ k.ready.has_error;
          };
          conserved =
              total-regrouped (Web.contents c) (Web.contents (forward t (delivered q.calls) c))
                (delivered q.calls) q.message_queue m.processor.message_queue
                (accepted_by e (idle m)) (perform-given e m k up) x.extended
              ∙ ap (λ x. x ++ map t.to_text (accepted_by e (idle m))) k.conserved
              ∙ sym (map-append t.to_text m.accepted (accepted_by e (idle m)));
        };
        linked = λ on. IsSame-is_down c (forward t (delivered q.calls) c) same ∙ up (sym flag ∙ on);
      }
