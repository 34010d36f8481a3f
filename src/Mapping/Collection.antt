-- ===== src/Mapping/Collection.antt =====
-- `MappingTemplateCollection`: the list of templates, and the part of `resolveInheritance` that applies
-- the parents (the other part is Mapping/Cycle). A template's identifier is never changed there.
use ocpp_gw.Base.{
  ℕ, zero, suc, String, ◌≡◌, refl, Bool, true, false, Option, none, some, List, [], ◌∷◌, ◌++◌,
  str_eq, eq_iff, if◌then◌else◌, arith,
}
use ocpp_gw.Mapping.Template.{Numbers, MappingTemplate, apply_parent}

pub data InheritanceError : Type 0 where
  parent_not_found : String → InheritanceError
  circular_dependency : InheritanceError

pub data Outcome {ℓ} (A : Type ℓ) : Type ℓ where
  ok : A → Outcome A
  throws : InheritanceError → Outcome A

abbrev pub Progress : Numbers → Type 0
Progress n = Outcome (List (MappingTemplate n) × Bool)

module _ {n : Numbers} where
  unfoldable pub find_template : String → List (MappingTemplate n) → Option (MappingTemplate n)
  find_template name [] = none
  find_template name (t ∷ ts) =
      let later = find_template name ts in if str_eq t.id name then some t else later

  unfoldable pub add_template :
      MappingTemplate n → List (MappingTemplate n) → List (MappingTemplate n)
  add_template t [] = t ∷ []
  add_template t (u ∷ us) =
      let later = add_template t us in if str_eq u.id t.id then t ∷ us else u ∷ later

  -- `applyParent` and `setParentId(std::nullopt)`.
  abbrev pub settle : MappingTemplate n → MappingTemplate n → MappingTemplate n
  settle parent t = record (apply_parent parent t) { parent_id = none }

  abbrev pub changed : Progress n → Progress n
  changed (ok (ts, c)) = ok (ts, true)
  changed (throws e) = throws e

  -- One round of the `for` loop: the templates before the one at hand, changed in place, and those from it
  -- on. The flag is `changes_made`.
  unfoldable pub apply_round : List (MappingTemplate n) → List (MappingTemplate n) → Progress n
  apply_round done [] = ok (done, false)
  apply_round done (t ∷ rest) = elim t.parent_id [
    | none ↦ apply_round (done ++ (t ∷ [])) rest
    | some parent_id ↦ elim (find_template parent_id (done ++ (t ∷ rest))) [
      | none ↦ throws (parent_not_found parent_id)
      | some parent ↦ changed (apply_round (done ++ (settle parent t ∷ [])) rest)
    ]
  ]

  -- The `do` loop, on fuel; `none` is fuel that is used up.
  unfoldable pub apply_parents :
      ℕ → List (MappingTemplate n) → Option (Outcome (List (MappingTemplate n)))
  apply_parents zero ts = none
  apply_parents (suc fuel) ts = elim (apply_round [] ts) [
    | throws e ↦ some (throws e)
    | ok (ts', true) ↦ apply_parents fuel ts'
    | ok (ts', false) ↦ some (ok ts')
  ]

  -- After a template is added, the collection has it under its identifier, and under any other what it had.
  pub find_template-add_template :
      (name : String) (t : MappingTemplate n) (ts : List (MappingTemplate n))
      → find_template name (add_template t ts)
        ≡ (if str_eq t.id name then some t else find_template name ts)
  unfolding find_template add_template
  find_template-add_template name t [] = refl
  find_template-add_template name t (u ∷ us) = ground (
    arith,
    find_template-add_template name t us,
    eq_iff u.id t.id,
    eq_iff u.id name,
    eq_iff t.id name,
  )
