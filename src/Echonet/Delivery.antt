-- ===== src/Echonet/Delivery.antt =====
-- Which answers reach the request that asked for them.
use ocpp_gw.Base.{
  subst, ℕ, ◌≡◌, ◌≢◌, refl, sym, ◌∙◌, Bool, true, false, Option-cases, inl, inr, none, some, List,
  [], ◌∷◌, ◌++◌, ◌==◌, if◌then◌else◌, All, arith,
}
use ocpp_gw.Echonet.Frame.{Frame}
use ocpp_gw.Echonet.Exchange.{
  Response, Exchange, find, remove, assign, answer_of, fulfil, handle_received_frame, receive,
  Network, conclude, send_request_with_response,
}
use ocpp_gw.Echonet.Pending.{find-remove, find-assign, receive_keeps}

-- The promise is new: it has no value, and no pending request fulfils it.
abbrev pub IsFresh : ℕ → Exchange → Type 0
IsFresh promise s = (find promise s.answers ≡ none) × ((k : ℕ) → find k s.pending ≢ some promise)

-- Frames that answer no pending request.
abbrev pub IsIdle : ℕ → Exchange → Frame → Type 0
IsIdle tid s g = (g.tid ≢ tid) × (find g.tid s.pending ≡ none)

receive-idle :
    (d : Bool) (tid : ℕ) (fs more : List Frame) (s : Exchange)
    → All (IsIdle tid s) fs
    → receive d (fs ++ more) s ≡ receive d more s
unfolding receive handle_received_frame
receive-idle d tid [] more s h = refl
receive-idle d tid (g ∷ fs) more s ((n, q), hs) = ground (arith, receive-idle d tid fs more s hs)

receive-strays :
    (d : Bool) (tid : ℕ) (fs : List Frame) (s : Exchange)
    → All (IsIdle tid s) fs
    → receive d fs s ≡ some s
unfolding receive handle_received_frame
receive-strays d tid [] s h = refl
receive-strays d tid (g ∷ fs) s ((n, q), hs) = ground (arith, receive-strays d tid fs s hs)

-- Such frames are idle too while the request is pending.
registered-IsIdle :
    (promise tid : ℕ) (answers : List (ℕ × Response)) (s : Exchange) (fs : List Frame)
    → All (IsIdle tid s) fs
    → All (IsIdle tid (record { pending = assign tid promise s.pending; answers = answers })) fs
registered-IsIdle promise tid answers s [] h = tt
registered-IsIdle promise tid answers s (g ∷ fs) ((n, q), hs) = (
  (n, ground (arith, find-assign tid g.tid promise s.pending)),
  registered-IsIdle promise tid answers s fs hs,
)

abbrev registered : ℕ → Frame → Exchange → Exchange
registered promise f s = record s { pending = assign f.tid promise s.pending }

abbrev answered : ℕ → Frame → Frame → Exchange → Exchange
answered promise f g s = record (registered promise f s) {
  answers = assign promise (answer_of g) s.answers;
}

handle-answered :
    (promise : ℕ) (f g : Frame) (s : Exchange)
    → find promise s.answers ≡ none
    → g.tid ≡ f.tid
    → handle_received_frame false g (registered promise f s) ≡ some (answered promise f g s)
unfolding handle_received_frame fulfil
handle-answered promise f g s e same = ground (arith, find-assign f.tid g.tid promise s.pending)

handle-twice :
    (promise : ℕ) (f g h : Frame) (s : Exchange)
    → h.tid ≡ f.tid
    → handle_received_frame false h (answered promise f g s) ≡ none
unfolding handle_received_frame fulfil
handle-twice promise f g h s same = ground (
  arith,
  find-assign f.tid h.tid promise s.pending,
  find-assign promise promise (answer_of g) s.answers,
)

receive-answered :
    (promise : ℕ) (f g : Frame) (before more : List Frame) (s : Exchange)
    → find promise s.answers ≡ none
    → g.tid ≡ f.tid
    → All (IsIdle f.tid s) before
    → receive false (before ++ (g ∷ more)) (registered promise f s)
      ≡ receive false more (answered promise f g s)
unfolding receive
receive-answered promise f g before more s e same b =
    receive-idle false f.tid before (g ∷ more) (registered promise f s)
      (registered-IsIdle promise f.tid s.answers s before b)
    ∙ ground (arith, handle-answered promise f g s e same)

-- An answer that comes in during the wait is delivered: if the request is sent, its promise is new and no
-- discovery is running, and the frames before the answer, and those between the wait and the removal of
-- the request, answer no request, the call returns that answer, and afterwards the request alone is gone.
pub send_request_with_response-delivers :
    (promise : ℕ) (f g : Frame) (before between afterwards : List Frame) (attempts : List Bool)
    (s : Exchange)
    → IsFresh promise s
    → g.tid ≡ f.tid
    → All (IsIdle f.tid s) before
    → All (IsIdle f.tid s) between
    → let w : Network = record {
      discovering = false;
      sent = true;
      attempts = attempts;
      during = before ++ (g ∷ []);
      between = between;
      afterwards = afterwards;
    } in
      (s' : Exchange) × ((send_request_with_response promise f w s ≡ some (s', some (answer_of g)))
        × ((k : ℕ) → find k s'.pending ≡ (if f.tid == k then none else find k s.pending)))
unfolding send_request_with_response conclude receive
send_request_with_response-delivers promise f g before between afterwards attempts s fresh same b
      m =
    let t = answered promise f g s in
    (
      record t { pending = remove f.tid t.pending },
      (
        rw
            (
              receive-answered promise f g before [] s fresh.0 same b,
              receive-strays false f.tid between t (
                  registered-IsIdle promise f.tid (assign promise (answer_of g) s.answers) s between
                    m),
              find-assign promise promise (answer_of g) s.answers,
            )
            (ground arith),
        λ k. ground (
          arith,
          find-remove f.tid k (assign f.tid promise s.pending),
          find-assign f.tid k promise s.pending,
        ),
      ),
    )

assign-strays :
    (promise tid : ℕ) (m : List (ℕ × ℕ)) (fs : List Frame)
    → ((k : ℕ) → find k m ≢ some promise)
    → All (λ g. g.tid ≢ tid) fs
    → All (λ g. find g.tid (assign tid promise m) ≢ some promise) fs
assign-strays promise tid m [] new h = tt
assign-strays promise tid m (g ∷ fs) new (h, hs) = (
  λ e. new g.tid (ground (arith, find-assign tid g.tid promise m)),
  assign-strays promise tid m fs new hs,
)

remove-strays :
    (promise tid : ℕ) (m : List (ℕ × ℕ)) (fs : List Frame)
    → ((k : ℕ) → find k m ≢ some promise)
    → All (λ g. find g.tid (remove tid (assign tid promise m)) ≢ some promise) fs
remove-strays promise tid m [] new = tt
remove-strays promise tid m (g ∷ fs) new = (
  λ e. new g.tid (
      ground
        (arith, find-remove tid g.tid (assign tid promise m), find-assign tid g.tid promise m)),
  remove-strays promise tid m fs new,
)

conclude-loses :
    (promise : ℕ) (w : Network) (s s' : Exchange) (r : Response)
    → find promise s.answers ≡ none
    → All (λ g. find g.tid s.pending ≢ some promise) w.afterwards
    → conclude promise false w s ≢ some (s', some r)
unfolding conclude
conclude-loses promise w s s' r e h q = elim (Option-cases (receive w.discovering w.afterwards s)) [
  | inl k ↦ ground arith
  | inr (t, k) ↦ ground (arith, receive_keeps w.discovering w.afterwards promise s t k)
]

-- An answer that comes after the wait is lost: if no frame up to the removal of the request carries its
-- TID, the call returns no answer, whatever is sent again and whatever frames come afterwards.
pub send_request_with_response-loses :
    (promise : ℕ) (f : Frame) (w : Network) (s s' : Exchange) (r : Response)
    → IsFresh promise s
    → w.sent ≡ true
    → All (λ g. g.tid ≢ f.tid) w.during
    → All (λ g. g.tid ≢ f.tid) w.between
    → send_request_with_response promise f w s ≢ some (s', some r)
unfolding send_request_with_response conclude receive
send_request_with_response-loses promise f w s s' r (none', new) sent n m h =
    let reg : Exchange = record s { pending = assign f.tid promise s.pending } in
    elim (Option-cases (receive w.discovering w.during reg)) [
      | inl q ↦ ground arith
      | inr (waited, q) ↦ elim (Option-cases (receive w.discovering w.between waited)) [
        | inl k ↦ ground arith
        | inr (late, k) ↦
            let first = receive_keeps w.discovering w.during promise reg waited q in
            let second = receive_keeps w.discovering w.between promise waited late k in
            let unanswered : find promise waited.answers ≡ none =
              first.1 (assign-strays promise f.tid s.pending w.during new n) ∙ none' in
            let still : find promise late.answers ≡ none =
              second.1 (
                subst (λ x. All (λ g. find g.tid x ≢ some promise) w.between) (sym first.0)
                  (assign-strays promise f.tid s.pending w.between new m))
              ∙ unanswered in
            let removed : Exchange = record late { pending = remove f.tid late.pending } in
            conclude-loses promise w removed s' r still
              (subst (λ x. All (λ g. find g.tid (remove f.tid x) ≢ some promise) w.afterwards)
                (sym (second.0 ∙ first.0)) (remove-strays promise f.tid s.pending w.afterwards new))
              (ground arith)
      ]
    ]

-- A second answer to one request ends the process: if the request is sent, its promise is new and no
-- discovery is running, a frame with its TID that comes in during the wait and another one between the end of
-- the wait and the removal of the request make the receiver thread throw, the frames before each of the two
-- being such that answer no request.
pub send_request_with_response-ends :
    (promise : ℕ) (f g h : Frame) (before middle more afterwards : List Frame)
    (attempts : List Bool) (s : Exchange)
    → IsFresh promise s
    → g.tid ≡ f.tid
    → h.tid ≡ f.tid
    → All (IsIdle f.tid s) before
    → All (IsIdle f.tid s) middle
    → let w : Network = record {
      discovering = false;
      sent = true;
      attempts = attempts;
      during = before ++ (g ∷ []);
      between = middle ++ (h ∷ more);
      afterwards = afterwards;
    } in
      send_request_with_response promise f w s ≡ none
unfolding send_request_with_response conclude receive
send_request_with_response-ends promise f g h before middle more afterwards attempts s fresh p q b
      m =
    let t = answered promise f g s in
    rw
      (
        receive-answered promise f g before [] s fresh.0 p b,
        receive-idle false f.tid middle (h ∷ more) t
            (registered-IsIdle promise f.tid (assign promise (answer_of g) s.answers) s middle m),
      )
      (ground (arith, handle-twice promise f g h s q))
