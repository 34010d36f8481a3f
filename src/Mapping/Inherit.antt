-- ===== src/Mapping/Inherit.antt =====
-- What a template knows after a variable is added, and after its parent is applied.
use ocpp_gw.Base.{
  String, ◌≡◌, refl, ◌∙◌, Option, none, some, List, [], ◌∷◌, str_eq, eq_iff, if◌then◌else◌, All,
  arith,
}
use ocpp_gw.Base.Dict.{Dict, lookup, insert, values, lookup-insert}
use ocpp_gw.Mapping.Template.{
  Numbers, OcppVariable, MappingTemplate, find_variable, get_variable, put_variable, add_variable,
  add_all, apply_parent,
}

abbrev pub or_else {ℓ} : {A : Type ℓ} → Option A → Option A → Option A
or_else none o = o
or_else (some a) o = some a

module _ {n : Numbers} where
  -- No two variables of one name.
  abbrev pub IsDistinct : List (OcppVariable n) → Type 0
  IsDistinct [] = Unit
  IsDistinct (v ∷ vs) = (find_variable v.ocpp_name vs ≡ none) × IsDistinct vs

  put_variable_lem :
      (name : String) (v : OcppVariable n) (vs : List (OcppVariable n))
      → find_variable name (put_variable v vs)
        ≡ (if str_eq v.ocpp_name name then some v else find_variable name vs)
  unfolding find_variable put_variable
  put_variable_lem name v [] = refl
  put_variable_lem name v (w ∷ ws) = ground (
    arith,
    put_variable_lem name v ws,
    eq_iff w.ocpp_name v.ocpp_name,
    eq_iff w.ocpp_name name,
    eq_iff v.ocpp_name name,
  )

  put_variable-IsDistinct :
      (v : OcppVariable n) (vs : List (OcppVariable n))
      → IsDistinct vs
      → IsDistinct (put_variable v vs)
  unfolding find_variable put_variable
  put_variable-IsDistinct v [] h = (refl, tt)
  put_variable-IsDistinct v (w ∷ ws) (h, hs) = ground (
    arith,
    put_variable_lem w.ocpp_name v ws,
    put_variable-IsDistinct v ws,
    eq_iff w.ocpp_name v.ocpp_name,
    eq_iff v.ocpp_name w.ocpp_name,
  )

  -- After a variable is added, the template has it under its name, what it had under any other name, and, if
  -- no two variables had one name before, no two of one name.
  pub add_variable_lem :
      (name : String) (v : OcppVariable n) (t : MappingTemplate n)
      → (get_variable name (add_variable v t)
          ≡ (if str_eq v.ocpp_name name then some v else get_variable name t))
        × (IsDistinct t.variables → IsDistinct (add_variable v t).variables)
  unfolding get_variable add_variable
  add_variable_lem name v t =
      (put_variable_lem name v t.variables, put_variable-IsDistinct v t.variables)

  -- Every variable stands under its own name.
  abbrev pub IsKeyed : Dict (OcppVariable n) → Type 0
  IsKeyed m = All (λ p. p.0 ≡ p.1.ocpp_name) m

  insert-IsKeyed :
      (v : OcppVariable n) (m : Dict (OcppVariable n))
      → IsKeyed m
      → IsKeyed (insert v.ocpp_name v m)
  unfolding insert
  insert-IsKeyed v [] h = (refl, tt)
  insert-IsKeyed v ((k, w) ∷ m) (h, hs) = ground (arith, insert-IsKeyed v m hs)

  pub add_all-IsKeyed :
      (vs : List (OcppVariable n)) (m : Dict (OcppVariable n)) → IsKeyed m → IsKeyed (add_all vs m)
  unfolding add_all
  add_all-IsKeyed [] m h = h
  add_all-IsKeyed (v ∷ vs) m h = add_all-IsKeyed vs (insert v.ocpp_name v m) (insert-IsKeyed v m h)

  lookup-add_all :
      (name : String) (vs : List (OcppVariable n)) (m : Dict (OcppVariable n))
      → IsDistinct vs
      → lookup name (add_all vs m) ≡ or_else (find_variable name vs) (lookup name m)
  unfolding add_all find_variable
  lookup-add_all name [] m d = refl
  lookup-add_all name (v ∷ vs) m (d, ds) = ground (
    arith,
    lookup-add_all name vs (insert v.ocpp_name v m) ds,
    lookup-insert v.ocpp_name name v m,
    eq_iff v.ocpp_name name,
  )

  pub find_variable-values :
      (name : String) (m : Dict (OcppVariable n))
      → IsKeyed m
      → find_variable name (values m) ≡ lookup name m
  unfolding find_variable values lookup
  find_variable-values name [] h = refl
  find_variable-values name ((k, v) ∷ m) (h, hs) =
      ground (arith, find_variable-values name m hs, eq_iff k name, eq_iff v.ocpp_name name)

  -- If neither template has two variables of one name, the template to which its parent is applied has its
  -- own variable under a name where it had one, and its parent's under any other name; its identifier is
  -- unchanged.
  pub apply_parent_lem :
      (name : String) (parent t : MappingTemplate n)
      → IsDistinct parent.variables
      → IsDistinct t.variables
      → (get_variable name (apply_parent parent t)
          ≡ or_else (get_variable name t) (get_variable name parent))
        × ((apply_parent parent t).id ≡ t.id)
  unfolding get_variable apply_parent lookup
  apply_parent_lem name parent t dp dt = (
    find_variable-values name _
          (add_all-IsKeyed t.variables _ (add_all-IsKeyed parent.variables [] tt))
        ∙ ground (
          arith,
          lookup-add_all name t.variables (add_all parent.variables []) dt,
          lookup-add_all name parent.variables [] dp,
        ),
    refl,
  )
