-- ===== src/Mapping/Cycle/Scenarios.antt =====
-- The check at two templates that are each other's parents.
use ocpp_gw.Base.{ℕ, String, ◌≡◌, ◌⊎◌, refl, true, some, List, [], ◌∷◌, ltb}
use ocpp_gw.Base.Dict.{lookup, insert}
use ocpp_gw.Mapping.Template.{Numbers, MappingTemplate}
use ocpp_gw.Mapping.Collection.{throws, circular_dependency, apply_parents}
use ocpp_gw.Mapping.Cycle.{
  without, add_dependency, dependency_graph, neighbors, scan, has_cycle, check_from, is_circular,
  resolve_inheritance,
}
use ocpp_gw.Mapping.Cycle.Ancestors.{Ancestor, resolve_inheritance_lem}

abbrev toy : Numbers
toy = record { Double = ℕ; at_most_zero = λ x. ltb x 1 }

abbrev template : String → String → MappingTemplate toy
template id parent = record { id = id; description = ""; parent_id = some parent; variables = [] }

abbrev mutual_parents : List (MappingTemplate toy)
mutual_parents = template "a" "b" ∷ template "b" "a" ∷ []

mutual_parents_circular : is_circular mutual_parents ≡ some true
unfolding is_circular check_from has_cycle scan neighbors dependency_graph add_dependency without
    lookup insert
mutual_parents_circular = refl

resolve_inheritance_lem_example :
    (((u : String) × Ancestor mutual_parents u u)
      × (resolve_inheritance 2 mutual_parents ≡ some (throws circular_dependency)))
    ⊎ (((u : String) → ¬ Ancestor mutual_parents u u)
        × (resolve_inheritance 2 mutual_parents ≡ apply_parents 2 mutual_parents))
resolve_inheritance_lem_example = resolve_inheritance_lem mutual_parents 2
