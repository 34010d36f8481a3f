-- ===== src/Mapping/Cycle/Ancestors.antt =====
-- The check finds out whether a template is its own ancestor.
use ocpp_gw.Base.{
  ℕ, ◌+◌, ◌<◌, String, ◌≡◌, ◌⊎◌, inl, inr, refl, subst, Bool, Bool-cases, true, false, some, Option,
  List, [], ◌∷◌, length, str_eq, eq_iff, arith,
}
use ocpp_gw.Base.Dict.{lookup}
use ocpp_gw.Mapping.Template.{Numbers, MappingTemplate}
use ocpp_gw.Mapping.Collection.{throws, circular_dependency, apply_parents}
use ocpp_gw.Mapping.Cycle.{
  Dependencies, member, keys, neighbors, Marks, no_marks, dependency_graph, has_cycle, check_from,
  is_circular, resolve_inheritance,
}
use ocpp_gw.Mapping.Cycle.Walks.{Edge, Walk, one, step, Ends, Ends-acyclic}
use ocpp_gw.Mapping.Cycle.Search.{Tells, has_cycle-Tells}
use ocpp_gw.Mapping.Cycle.Termination.{entry, has_cycle-some}
use ocpp_gw.Mapping.Cycle.Graph.{HasParent, Edge-HasParent, HasParent-Edge}

module _ (g : Dependencies) where
  -- There is a cycle and the check says so, or the check says that there is none, and every walk from the
  -- nodes ends.
  abbrev Checked : List String → Option Bool → Type 0
  Checked nodes r =
      (((u : String) × Walk g u u) × (r ≡ some true))
      ⊎ ((r ≡ some false) × ((v : String) → member v nodes ≡ true → Ends g v))

  search_from :
      (fuel : ℕ) (v : String)
      → length g < fuel
      → (((u : String) × Walk g u u)
          × ((m : Marks) × (has_cycle fuel g v no_marks ≡ some (true, m))))
        ⊎ (Ends g v × ((m : Marks) × (has_cycle fuel g v no_marks ≡ some (false, m))))
  search_from fuel v h =
      let (b, (m, e)) = has_cycle-some g fuel v h in
      let told =
        has_cycle-Tells g fuel v no_marks
          (record { done = λ u a. absurd (ground arith); on_path = λ u a. absurd (ground arith) })
          refl (λ u a. absurd (ground arith)) in
      go b m e (subst (Tells g no_marks (Ends g v)) e told)
    where
      go :
          (b : Bool) (m : Marks)
          → has_cycle fuel g v no_marks ≡ some (b, m)
          → Tells g no_marks (Ends g v) (some (b, m))
          → (((u : String) × Walk g u u)
              × ((m : Marks) × (has_cycle fuel g v no_marks ≡ some (true, m))))
            ⊎ (Ends g v × ((m : Marks) × (has_cycle fuel g v no_marks ≡ some (false, m))))
      go true m e t = inl (t, (m, e))
      go false m e (l, t) = inr (t, (m, e))

  check_from-Checked :
      (fuel : ℕ) (nodes : List String) → length g < fuel → Checked nodes (check_from fuel g nodes)
  unfolding check_from
  check_from-Checked fuel [] h = inr (refl, λ v a. absurd (ground arith))
  check_from-Checked fuel (node ∷ nodes) h = elim (search_from fuel node h) [
    | inl (cycle, (m, e)) ↦ inl (cycle, rw (check_from, e) refl)
    | inr (end, (m, e)) ↦ elim (check_from-Checked fuel nodes h) [
      | inl (cycle, r) ↦ inl (cycle, rw (check_from, e) r)
      | inr (r, all') ↦ inr (
        rw (check_from, e) r,
        λ v a. elim (Bool-cases (str_eq node v)) [
          | inl same ↦ subst (Ends g) ((eq_iff node v).0 same) end
          | inr other ↦ all' v (ground arith)
        ],
      )
    ]
  ]

  first_link : (u v : String) → Walk g u v → (w : String) × Edge g u w
  first_link u v (one e) = (v, e)
  first_link u w (step {v} e p) = (v, e)

  -- A name on a cycle is a node.
  cycle_node : (u : String) → Walk g u u → member u (keys g) ≡ true
  cycle_node u p = elim (entry u g) [
    | inl m ↦ m
    | inr none_ ↦ let (w, e) = first_link u u p in absurd (ground arith)
  ]

module _ {n : Numbers} where
  -- `v` is the parent of `u`, or an ancestor of its parent.
  pub data Ancestor (ts : List (MappingTemplate n)) : String → String → Type 0 where
    parent : {u v : String} → HasParent ts u v → Ancestor ts u v
    further : {u v w : String} → HasParent ts u v → Ancestor ts v w → Ancestor ts u w

  module _ (ts : List (MappingTemplate n)) where
    abbrev graph : Dependencies
    graph = dependency_graph [] ts

    named : (u v : String) → Edge graph u v → HasParent ts u v
    unfolding neighbors lookup
    named u v e = elim (Edge-HasParent [] ts u v e) [ inl f ↦ absurd (ground arith) | inr p ↦ p ]

    Walk-Ancestor : {u v : String} → Walk graph u v → Ancestor ts u v
    Walk-Ancestor {u} {v} (one e) = parent (named u v e)
    Walk-Ancestor {u} (step {v} e p) = further (named u v e) (Walk-Ancestor p)

    Ancestor-Walk : {u v : String} → Ancestor ts u v → Walk graph u v
    Ancestor-Walk {u} {v} (parent p) = one (HasParent-Edge [] ts u v (inr p))
    Ancestor-Walk {u} (further {v} p a) = step (HasParent-Edge [] ts u v (inr p)) (Ancestor-Walk a)

    -- The check ends. It reports a circular dependency exactly if some template is its own ancestor.
    pub is_circular_lem :
        (((u : String) × Ancestor ts u u) × (is_circular ts ≡ some true))
        ⊎ (((u : String) → ¬ Ancestor ts u u) × (is_circular ts ≡ some false))
    unfolding is_circular
    is_circular_lem =
        elim (check_from-Checked graph (length graph + 1) (keys graph) (omega arith)) [
          | inl ((u, p), r) ↦ inl ((u, Walk-Ancestor p), r)
          | inr (r, all') ↦ inr (
            λ u a. let p = Ancestor-Walk a in Ends-acyclic graph (all' u (cycle_node graph u p)) p,
            r,
          )
        ]

    -- When some template is its own ancestor, the inheritance is refused as circular, whatever else is wrong
    -- with it; otherwise it goes on to apply the parents.
    pub resolve_inheritance_lem :
        (fuel : ℕ)
        → (((u : String) × Ancestor ts u u)
            × (resolve_inheritance fuel ts ≡ some (throws circular_dependency)))
          ⊎ (((u : String) → ¬ Ancestor ts u u)
              × (resolve_inheritance fuel ts ≡ apply_parents fuel ts))
    unfolding resolve_inheritance
    resolve_inheritance_lem fuel = elim is_circular_lem [
      | inl (cycle, r) ↦ inl (cycle, rw (resolve_inheritance, r) refl)
      | inr (none_, r) ↦ inr (none_, rw (resolve_inheritance, r) refl)
    ]
