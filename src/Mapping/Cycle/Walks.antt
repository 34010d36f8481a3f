-- ===== src/Mapping/Cycle/Walks.antt =====
-- Walks along dependencies, and names from which no walk goes on for ever.
use ocpp_gw.Base.{String, ◌≡◌, true}
use ocpp_gw.Mapping.Cycle.{Dependencies, member, neighbors}

module _ (g : Dependencies) where
  abbrev pub Edge : String → String → Type 0
  Edge u v = member v (neighbors g u) ≡ true

  pub data Walk : String → String → Type 0 where
    one : {u v : String} → Edge u v → Walk u v
    step : {u v w : String} → Edge u v → Walk v w → Walk u w

  -- Every walk from the name ends.
  pub data Ends : String → Type 0 where
    ends : {u : String} → ((v : String) → Edge u v → Ends v) → Ends u

  pub Walk-snoc : {u v w : String} → Walk u v → Edge v w → Walk u w
  Walk-snoc (one e) f = step e (one f)
  Walk-snoc (step e p) f = step e (Walk-snoc p f)

  -- A name from which every walk ends lies on no cycle.
  pub Ends-acyclic : {u : String} → Ends u → ¬ Walk u u
  Ends-acyclic (ends h) (one e) = Ends-acyclic (h _ e) (one e)
  Ends-acyclic (ends h) (step e p) = Ends-acyclic (h _ e) (Walk-snoc p e)
