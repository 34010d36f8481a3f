-- ===== src/Mapping/Cycle.antt =====
-- The check of `resolveInheritance` for circular dependencies, and the whole of that function. A set of names
-- is the list of its members.
use ocpp_gw.Base.{
  ℕ, zero, suc, ◌+◌, String, Bool, true, false, not, Option, none, some, List, [], ◌∷◌, map, length,
  any, str_eq, if◌then◌else◌,
}
use ocpp_gw.Base.Dict.{Dict, lookup, insert}
use ocpp_gw.Mapping.Template.{Numbers, MappingTemplate}
use ocpp_gw.Mapping.Collection.{Outcome, throws, circular_dependency, apply_parents}
pub mod Walks
pub mod Search
pub mod Termination
pub mod Graph
pub mod Ancestors
mod Scenarios

-- `std::map<std::string, std::set<std::string>>`
abbrev pub Dependencies : Type 0
Dependencies = Dict (Dict (Unit {0}))

abbrev pub member : String → List String → Bool
member x xs = any (λ y. str_eq y x) xs

-- `erase`
unfoldable pub without : String → List String → List String
without x [] = []
without x (y ∷ ys) = let rest = without x ys in if str_eq y x then rest else y ∷ rest

abbrev pub keys {ℓ} : {V : Type ℓ} → Dict V → List String
keys m = map (λ p. p.0) m

abbrev pub or_empty : Option (Dict (Unit {0})) → Dict (Unit {0})
or_empty none = []
or_empty (some m) = m

-- `dependency_graph[id].insert(parent)`
unfoldable pub add_dependency : String → String → Dependencies → Dependencies
add_dependency id parent g = insert id (insert parent tt (or_empty (lookup id g))) g

unfoldable pub dependency_graph :
    {n : Numbers} → Dependencies → List (MappingTemplate n) → Dependencies
dependency_graph g [] = g
dependency_graph g (t ∷ ts) = elim t.parent_id [
  | none ↦ dependency_graph g ts
  | some parent ↦ dependency_graph (add_dependency t.id parent g) ts
]

unfoldable pub neighbors : Dependencies → String → List String
neighbors g node = keys (or_empty (lookup node g))

pub record Marks : Type 0 where
  pub visited : List String
  pub path : List String

abbrev pub no_marks : Marks
no_marks = record { visited = []; path = [] }

abbrev pub enter : String → Marks → Marks
enter node m = record { visited = node ∷ m.visited; path = node ∷ m.path }

abbrev pub leave : String → Option (Bool × Marks) → Option (Bool × Marks)
leave node none = none
leave node (some (true, m)) = some (true, m)
leave node (some (false, m)) = some (false, record m { path = without node m.path })

abbrev pub then_scan :
    Option (Bool × Marks) → (Marks → Option (Bool × Marks)) → Option (Bool × Marks)
then_scan none next = none
then_scan (some (true, m)) next = some (true, m)
then_scan (some (false, m)) next = next m

-- The loop over the neighbors, with the function that it calls.
unfoldable pub scan :
    (String → Marks → Option (Bool × Marks)) → Marks → List String → Option (Bool × Marks)
scan visit m [] = some (false, m)
scan visit m (x ∷ xs) =
    let rest = then_scan (visit x m) (λ m'. scan visit m' xs) in
    if member x m.path then some (true, m) else rest

-- The function `has_cycle` on fuel; `none` is fuel that is used up.
unfoldable pub has_cycle : ℕ → Dependencies → String → Marks → Option (Bool × Marks)
has_cycle zero g node m = none
has_cycle (suc fuel) g node m =
    let found = leave node (scan (has_cycle fuel g) (enter node m) (neighbors g node)) in
    if member node m.visited then some (false, m) else found

-- The loop over the graph.
unfoldable pub check_from : ℕ → Dependencies → List String → Option Bool
check_from fuel g [] = some false
check_from fuel g (node ∷ nodes) =
    let rest = check_from fuel g nodes in
    elim (has_cycle fuel g node no_marks) [
      | none ↦ none
      | some (true, m) ↦ some true
      | some (false, m) ↦ rest
    ]

-- One call for each node that is not yet visited, and one more.
unfoldable pub is_circular : {n : Numbers} → List (MappingTemplate n) → Option Bool
is_circular ts = let g = dependency_graph [] ts in check_from (length g + 1) g (keys g)

unfoldable pub resolve_inheritance :
    {n : Numbers} → ℕ → List (MappingTemplate n) → Option (Outcome (List (MappingTemplate n)))
resolve_inheritance fuel ts = elim (is_circular ts) [
  | none ↦ none
  | some true ↦ some (throws circular_dependency)
  | some false ↦ apply_parents fuel ts
]
