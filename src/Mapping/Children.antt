-- ===== src/Mapping/Children.antt =====
-- What a template has after its parent is applied, described without the code: its own variables, and those of
-- its parent under the names that it has no variable of.
use ocpp_gw.Base.{
  String, ◌≡◌, ◌≢◌, ◌↔◌, ◌⊎◌, refl, sym, ap, ◌∙◌, subst, inl, inr, Bool, Bool-cases, Option,
  Option-cases, none, some, List, [], ◌∷◌, str_eq, eq_iff, if◌then◌else◌, All, arith,
}
use mathlib.Core.Option.{some-injective}
use ocpp_gw.Base.Dict.{Dict, insert, values}
use ocpp_gw.Base.Ordered.{IsOrdered, insert-IsOrdered, lookup-IsBefore}
use ocpp_gw.Mapping.Template.{
  Numbers, OcppVariable, MappingTemplate, find_variable, get_variable, add_all, apply_parent,
}
use ocpp_gw.Mapping.Collection.{find_template, settle}
use ocpp_gw.Mapping.Inherit.{
  or_else, IsDistinct, IsKeyed, add_all-IsKeyed, find_variable-values, apply_parent_lem,
}

-- The first element of the list under that name.
abbrev pub IsFirst : {A : Type 0} → (A → String) → String → List A → A → Type 0
IsFirst name_of name [] x = ⊥
IsFirst name_of name (y ∷ ys) x =
    ((name_of y ≡ name) × (y ≡ x)) ⊎ ((name_of y ≢ name) × IsFirst name_of name ys x)

module _ {n : Numbers} where
  abbrev pub name_of : OcppVariable n → String
  name_of v = v.ocpp_name

  abbrev pub id_of : MappingTemplate n → String
  id_of t = t.id

  abbrev pub NoneNamed : String → List (OcppVariable n) → Type 0
  NoneNamed name vs = All (λ v. name_of v ≢ name) vs

  -- `u` is `t` with what `parent` has.
  abbrev pub IsChild : MappingTemplate n → MappingTemplate n → MappingTemplate n → Type 0
  IsChild parent t u =
      ((u.id ≡ t.id) × (u.parent_id ≡ none))
      × ((u.description ≡ (if str_eq t.description "" then parent.description else t.description))
          × ((name : String) (v : OcppVariable n)
              → IsFirst name_of name u.variables v ↔ (
                  IsFirst name_of name t.variables v
                  ⊎ (NoneNamed name t.variables × IsFirst name_of name parent.variables v))))

  pub find_template-IsFirst :
      (p : String) (ts : List (MappingTemplate n)) (t : MappingTemplate n)
      → find_template p ts ≡ some t
      → IsFirst id_of p ts t
  unfolding find_template
  find_template-IsFirst p [] t h = absurd (ground arith)
  find_template-IsFirst p (u ∷ us) t h = elim (Bool-cases (str_eq u.id p)) [
    | inl e ↦ inl (
      (eq_iff u.id p).0 e,
      some-injective _ _ (sym (ap (λ b. if b then some u else find_template p us) e) ∙ h),
    )
    | inr e ↦ inr (
      λ same. absurd (ground (arith, eq_iff u.id p)),
      find_template-IsFirst p us t (sym (ap (λ b. if b then some u else find_template p us) e) ∙ h),
    )
  ]

  find_variable-IsFirst :
      (name : String) (vs : List (OcppVariable n)) (v : OcppVariable n)
      → (find_variable name vs ≡ some v) ↔ IsFirst name_of name vs v
  unfolding find_variable
  find_variable-IsFirst name [] v = (λ h. absurd (ground arith), λ h. absurd h)
  find_variable-IsFirst name (w ∷ ws) v =
      let (to, from) = find_variable-IsFirst name ws v in
      let found : Bool → Option (OcppVariable n) =
        λ b. if b then some w else find_variable name ws in
      elim (Bool-cases (str_eq w.ocpp_name name)) [
        | inl e ↦ (
          λ h. inl ((eq_iff w.ocpp_name name).0 e, some-injective _ _ (sym (ap found e) ∙ h)),
          λ k. elim k [
            | inl (_, same) ↦ ap found e ∙ ap some same
            | inr (other, _) ↦ absurd (other ((eq_iff w.ocpp_name name).0 e))
          ],
        )
        | inr e ↦ (
          λ h.
              inr (
                λ same. absurd (ground (arith, eq_iff w.ocpp_name name)),
                to (sym (ap found e) ∙ h),
              ),
          λ k. elim k [
            | inl (same, _) ↦ absurd (ground (arith, eq_iff w.ocpp_name name))
            | inr (_, later) ↦ ap found e ∙ from later
          ],
        )
      ]

  find_variable-NoneNamed :
      (name : String) (vs : List (OcppVariable n))
      → (find_variable name vs ≡ none) ↔ NoneNamed name vs
  unfolding find_variable
  find_variable-NoneNamed name [] = (λ h. tt, λ h. refl)
  find_variable-NoneNamed name (w ∷ ws) =
      let (to, from) = find_variable-NoneNamed name ws in
      (
        λ h. (
          λ same. absurd (ground (arith, eq_iff w.ocpp_name name)),
          to (ground (arith, eq_iff w.ocpp_name name)),
        ),
        λ (k, ks). ground (arith, eq_iff w.ocpp_name name, from ks),
      )

  or_else-IsFirst :
      (name : String) (ts ps : List (OcppVariable n)) (v : OcppVariable n)
      → (or_else (find_variable name ts) (find_variable name ps) ≡ some v)
        ↔ (IsFirst name_of name ts v ⊎ (NoneNamed name ts × IsFirst name_of name ps v))
  or_else-IsFirst name ts ps v =
      let pick : Option (OcppVariable n) → Option (OcppVariable n) =
        λ o. or_else o (find_variable name ps) in
      let own = find_variable-IsFirst name ts v in
      let parents = find_variable-IsFirst name ps v in
      let no = find_variable-NoneNamed name ts in
      (
        λ h. elim (Option-cases (find_variable name ts)) [
          | inl e ↦ inr (no.0 e, parents.0 (sym (ap pick e) ∙ h))
          | inr (w, e) ↦ inl (own.0 (e ∙ sym (ap pick e) ∙ h))
        ],
        λ k. elim k [ inl f ↦ ap pick (own.1 f) | inr (e, f) ↦ ap pick (no.1 e) ∙ parents.1 f ],
      )

  -- The variables that come out of a map are distinct.
  values-IsDistinct : (m : Dict (OcppVariable n)) → IsKeyed m → IsOrdered m → IsDistinct (values m)
  unfolding values
  values-IsDistinct [] k o = tt
  values-IsDistinct ((j, v) ∷ m) (k, ks) (b, o) = (
    subst (λ i. find_variable i (values m) ≡ none) k
        (find_variable-values j m ks ∙ lookup-IsBefore j m b),
    values-IsDistinct m ks o,
  )

  add_all-IsOrdered :
      (vs : List (OcppVariable n)) (m : Dict (OcppVariable n))
      → IsOrdered m
      → IsOrdered (add_all vs m)
  unfolding add_all
  add_all-IsOrdered [] m o = o
  add_all-IsOrdered (v ∷ vs) m o =
      add_all-IsOrdered vs (insert v.ocpp_name v m) (insert-IsOrdered v.ocpp_name v m o)

  pub settle-IsDistinct : (parent t : MappingTemplate n) → IsDistinct (settle parent t).variables
  unfolding apply_parent
  settle-IsDistinct parent t =
      let inherited = add_all parent.variables [] in
      values-IsDistinct (add_all t.variables inherited)
        (add_all-IsKeyed t.variables inherited (add_all-IsKeyed parent.variables [] tt))
        (add_all-IsOrdered t.variables inherited (add_all-IsOrdered parent.variables [] tt))

  pub settle-IsChild :
      (parent t : MappingTemplate n)
      → IsDistinct parent.variables
      → IsDistinct t.variables
      → IsChild parent t (settle parent t)
  unfolding apply_parent get_variable
  settle-IsChild parent t dp dt = (
    (refl, refl),
    (
      refl,
      λ name v.
          let (same, _) = apply_parent_lem name parent t dp dt in
          let (to, from) = or_else-IsFirst name t.variables parent.variables v in
          let (first, find) = find_variable-IsFirst name (settle parent t).variables v in
          (λ f. to (sym same ∙ find f), λ k. first (same ∙ from k)),
    ),
  )
