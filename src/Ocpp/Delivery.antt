-- ===== src/Ocpp/Delivery.antt =====
-- What becomes of the messages given to the processor: delivery from the queue, and over a history.
use ocpp_gw.Base.{
  ℕ, ◌≡◌, refl, sym, ap, ◌∙◌, subst, Bool, true, false, none, some, List, [], ◌∷◌, ◌++◌, map,
  append-nil, append_assoc, length, if◌then◌else◌, arith,
}
use ocpp_gw.Ocpp.Json.{JsonLib}
use ocpp_gw.Ocpp.Processor.{
  OcppMessageProcessor, Calls, Drained, count_sent, send_direct_message, drain, process_queue,
}

module _ {ℓ} {W : Type ℓ} where
  -- The wires of the calls that returned, and of those that threw.
  unfoldable pub delivered : List (W × Bool) → List W
  delivered [] = []
  delivered ((w, ok) ∷ cs) = if ok then w ∷ delivered cs else delivered cs

  unfoldable pub failed : List (W × Bool) → List W
  failed [] = []
  failed ((w, ok) ∷ cs) = if ok then failed cs else w ∷ failed cs

  pub delivered-append :
      (cs ds : List (W × Bool)) → delivered (cs ++ ds) ≡ delivered cs ++ delivered ds
  unfolding delivered
  delivered-append [] ds = refl
  delivered-append ((w, true) ∷ cs) ds = ap (w ∷◌) (delivered-append cs ds)
  delivered-append ((w, false) ∷ cs) ds = delivered-append cs ds

-- The result `r` of one attempt for each wire of `ws`, in order, from `p` on.
pub record IsDrained {l : JsonLib} (ws : List l.Wire) (p : OcppMessageProcessor l) (r : Drained l)
    : Type 0 where
  pub attempts : Calls l
  pub each_once : map (λ c. c.0) attempts ≡ ws
  pub all_made : (r.2).calls ≡ p.calls ++ attempts
  pub kept : r.1 ≡ failed attempts
  pub counted : r.0 ≡ length (delivered attempts)
  pub others_same : record (r.2) { calls = p.calls; message_queue = p.message_queue } ≡ p

module _ {l : JsonLib} where
  pub send_direct_message_lem :
      (f : Calls l → l.Wire → Bool) (w : l.Wire) (p : OcppMessageProcessor l)
      → p.callback ≡ some f
      → send_direct_message w p
        ≡ (f p.calls w, record p { calls = p.calls ++ (w, f p.calls w) ∷ [] })
  unfolding send_direct_message
  send_direct_message_lem f w p h =
      ap
        (λ c. elim c as (λ _. Bool × OcppMessageProcessor l) [
          | none ↦ (false, p)
          | some g ↦ (g p.calls w, record p { calls = p.calls ++ (w, g p.calls w) ∷ [] })
        ])
        h

  IsDrained-count_sent :
      (w : l.Wire) (ws : List l.Wire) (p : OcppMessageProcessor l) (ok : Bool) (r : Drained l)
      → IsDrained ws (record p { calls = p.calls ++ (w, ok) ∷ [] }) r
      → IsDrained (w ∷ ws) p (count_sent ok w r)
  unfolding delivered failed count_sent
  IsDrained-count_sent w ws p true r d = record {
    attempts = (w, true) ∷ d.attempts;
    each_once = ap (w ∷◌) d.each_once;
    all_made = d.all_made ∙ append_assoc p.calls ((w, true) ∷ []) d.attempts;
    kept = d.kept;
    counted = omega (arith, d.counted);
    others_same = ap {A = OcppMessageProcessor l} (λ q. record q { calls = p.calls }) d.others_same;
  }
  IsDrained-count_sent w ws p false r d = record {
    attempts = (w, false) ∷ d.attempts;
    each_once = ap (w ∷◌) d.each_once;
    all_made = d.all_made ∙ append_assoc p.calls ((w, false) ∷ []) d.attempts;
    kept = ap (w ∷◌) d.kept;
    counted = d.counted;
    others_same = ap {A = OcppMessageProcessor l} (λ q. record q { calls = p.calls }) d.others_same;
  }

  drain-IsDrained :
      (f : Calls l → l.Wire → Bool) (ws : List l.Wire) (p : OcppMessageProcessor l)
      → p.callback ≡ some f
      → IsDrained ws p (drain ws p)
  unfolding drain delivered failed
  drain-IsDrained f [] p h = record {
    attempts = [];
    each_once = refl;
    all_made = sym (append-nil p.calls);
    kept = refl;
    counted = refl;
    others_same = refl;
  }
  drain-IsDrained f (w ∷ ws) p h =
      let q : OcppMessageProcessor l = record p { calls = p.calls ++ (w, f p.calls w) ∷ [] } in
      subst (λ s. IsDrained (w ∷ ws) p (count_sent s.0 w (drain ws s.1)))
        (sym (send_direct_message_lem f w p h))
        (IsDrained-count_sent w ws p (f p.calls w) (drain ws q) (drain-IsDrained f ws q h))

  -- A connected processor with a message callback that processes its queue calls the callback once for each
  -- queued message, in order; the messages for which it threw are kept in their order, the count returned is
  -- that of the others, and nothing else changes.
  pub process_queue_lem :
      (f : Calls l → l.Wire → Bool) (p : OcppMessageProcessor l)
      → p.callback ≡ some f
      → p.connected ≡ true
      → IsDrained p.message_queue p
          ((process_queue p).0, ((process_queue p).1).message_queue, (process_queue p).1)
  unfolding process_queue
  process_queue_lem f p h c =
      let d = drain-IsDrained f p.message_queue p h in
      let r = drain p.message_queue p in
      subst
        (λ (s : ℕ × OcppMessageProcessor l).
          IsDrained p.message_queue p (s.0, (s.1).message_queue, s.1))
        (sym (ap (λ b. if b then (r.0, record (r.2) { message_queue = r.1 }) else (0, p)) c))
        (record {
          attempts = d.attempts;
          each_once = d.each_once;
          all_made = d.all_made;
          kept = d.kept;
          counted = d.counted;
          others_same = d.others_same;
        })
