-- ===== src/Echonet/Pending.antt =====
-- The table of pending requests: its lookups, and what the handling of frames leaves as it is.
use ocpp_gw.Base.{
  subst, ℕ, ◌≡◌, ◌≢◌, sym, ◌∙◌, Bool, Option-cases, inl, inr, none, some, List, [], ◌∷◌, ◌==◌,
  if◌then◌else◌, All, arith,
}
use ocpp_gw.Echonet.Frame.{Frame}
use ocpp_gw.Echonet.Exchange.{
  Exchange, find, remove, assign, answer_of, fulfil, handle_received_frame, receive,
}

module _ {ℓ} {V : Type ℓ} where
  pub find-remove :
      (k j : ℕ) (m : List (ℕ × V)) → find j (remove k m) ≡ (if k == j then none else find j m)
  unfolding find remove
  find-remove k j [] = ground arith
  find-remove k j ((i, v) ∷ m) = ground (arith, find-remove k j m)

  pub find-assign :
      (k j : ℕ) (v : V) (m : List (ℕ × V))
      → find j (assign k v m) ≡ (if k == j then some v else find j m)
  unfolding find assign
  find-assign k j v m = ground (arith, find-remove k j m)

handle_keeps :
    (d : Bool) (g : Frame) (promise : ℕ) (s s' : Exchange)
    → handle_received_frame d g s ≡ some s'
    → (s'.pending ≡ s.pending)
      × (find g.tid s.pending ≢ some promise → find promise s'.answers ≡ find promise s.answers)
unfolding handle_received_frame fulfil
handle_keeps d g promise s s' h = elim (Option-cases (find g.tid s.pending)) [
  | inl q ↦ ground arith
  | inr (other, q) ↦ ground (arith, find-assign other promise (answer_of g) s.answers)
]

receive-next :
    (d : Bool) (g : Frame) (fs : List Frame) (s t s' : Exchange)
    → handle_received_frame d g s ≡ some t
    → receive d (g ∷ fs) s ≡ some s'
    → receive d fs t ≡ some s'
unfolding receive
receive-next d g fs s t s' q h = ground arith

pub receive_keeps :
    (d : Bool) (fs : List Frame) (promise : ℕ) (s s' : Exchange)
    → receive d fs s ≡ some s'
    → (s'.pending ≡ s.pending)
      × (All (λ g. find g.tid s.pending ≢ some promise) fs
          → find promise s'.answers ≡ find promise s.answers)
unfolding receive
receive_keeps d [] promise s s' h = ground arith
receive_keeps d (g ∷ fs) promise s s' h = elim (Option-cases (handle_received_frame d g s)) [
  | inl q ↦ absurd (ground arith)
  | inr (t, q) ↦
      let here = handle_keeps d g promise s t q in
      let later = receive_keeps d fs promise t s' (receive-next d g fs s t s' q h) in
      (
        later.0 ∙ here.0,
        λ (n, ns).
            later.1 (subst (λ m. All (λ g. find g.tid m ≢ some promise) fs) (sym here.0) ns)
            ∙ here.1 n,
      )
]
