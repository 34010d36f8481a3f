-- ===== src/Mapping/Cycle/Graph.antt =====
-- The edges of the graph are the parents that the templates name.
use ocpp_gw.Base.{
  String, ◌≡◌, ◌⊎◌, inl, inr, refl, true, ◌&&◌, Option-cases, some, is_some, List, [], ◌∷◌, str_eq,
  eq_iff, if◌then◌else◌, arith,
}
use ocpp_gw.Base.Dict.{Dict, lookup, insert, lookup-insert}
use ocpp_gw.Mapping.Template.{Numbers, MappingTemplate}
use ocpp_gw.Mapping.Cycle.{
  Dependencies, member, keys, or_empty, add_dependency, dependency_graph, neighbors,
}
use ocpp_gw.Mapping.Cycle.Walks.{Edge}

member-keys : (v : String) (m : Dict (Unit {0})) → member v (keys m) ≡ is_some (lookup v m)
unfolding lookup
member-keys v [] = refl
member-keys v ((k, u) ∷ m) = ground (arith, member-keys v m)

-- A set with one more name, or that of another node.
member-neighbors :
    (u : String) (g : Dependencies) (v : String)
    → member v (neighbors g u) ≡ is_some (lookup v (or_empty (lookup u g)))
unfolding neighbors
member-neighbors u g v = member-keys v (or_empty (lookup u g))

neighbors-add_dependency :
    (id parent u v : String) (g : Dependencies)
    → member v (neighbors (add_dependency id parent g) u)
      ≡ (if str_eq id u && str_eq parent v then true else member v (neighbors g u))
unfolding add_dependency
neighbors-add_dependency id parent u v g =
    let own = or_empty (lookup id g) in
    ground (
      arith,
      member-neighbors u (add_dependency id parent g) v,
      member-neighbors u g v,
      lookup-insert id u (insert parent tt own) g,
      lookup-insert parent v tt own,
      eq_iff id u,
    )

module _ {n : Numbers} where
  -- A template of the list has this identifier and names this parent.
  abbrev pub HasParent : List (MappingTemplate n) → String → String → Type 0
  HasParent [] u v = ⊥
  HasParent (t ∷ ts) u v = ((t.id ≡ u) × (t.parent_id ≡ some v)) ⊎ HasParent ts u v

  pub Edge-HasParent :
      (g : Dependencies) (ts : List (MappingTemplate n)) (u v : String)
      → Edge (dependency_graph g ts) u v
      → Edge g u v ⊎ HasParent ts u v
  unfolding dependency_graph
  Edge-HasParent g [] u v e = inl e
  Edge-HasParent g (t ∷ ts) u v e = elim (Option-cases t.parent_id) [
    | inl q ↦ elim (Edge-HasParent g ts u v (ground arith)) [ inl f ↦ inl f | inr p ↦ inr (inr p) ]
    | inr (parent, q) ↦ elim (Edge-HasParent (add_dependency t.id parent g) ts u v (ground arith)) [
      | inl f ↦
          ground (arith, neighbors-add_dependency t.id parent u v g, eq_iff t.id u, eq_iff parent v)
      | inr p ↦ inr (inr p)
    ]
  ]

  pub HasParent-Edge :
      (g : Dependencies) (ts : List (MappingTemplate n)) (u v : String)
      → Edge g u v ⊎ HasParent ts u v
      → Edge (dependency_graph g ts) u v
  unfolding dependency_graph
  HasParent-Edge g [] u v (inl e) = e
  HasParent-Edge g [] u v (inr h) = absurd h
  HasParent-Edge g (t ∷ ts) u v h = elim (Option-cases t.parent_id) [
    | inl q ↦ ground (arith, HasParent-Edge g ts u v)
    | inr (parent, q) ↦ ground (
      arith,
      HasParent-Edge (add_dependency t.id parent g) ts u v,
      neighbors-add_dependency t.id parent u v g,
      eq_iff t.id u,
      eq_iff parent v,
    )
  ]
