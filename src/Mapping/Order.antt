-- ===== src/Mapping/Order.antt =====
-- The order of the templates, and what each has in the end.
use ocpp_gw.Base.{
  ℕ, suc, subst, String, ◌≡◌, refl, sym, ap, ◌∙◌, Bool, Bool-cases, str_eq, if◌then◌else◌, All,
  All-append, inl, inr, Option, Option-cases, none, some, List, [], ◌∷◌, ◌++◌, append_assoc,
  append-nil, arith,
}
use mathlib.Core.Option.{some-injective}
use ocpp_gw.Mapping.Children.{
  IsFirst, id_of, IsChild, find_template-IsFirst, settle-IsDistinct, settle-IsChild,
}
use ocpp_gw.Mapping.Inherit.{IsDistinct}
use ocpp_gw.Mapping.Template.{Numbers, MappingTemplate, apply_parent}
use ocpp_gw.Mapping.Collection.{
  ok, throws, Progress, find_template, settle, changed, apply_round, apply_parents,
}
use ocpp_gw.Mapping.Resolve.{
  ids, HasKnown, IsRound, ids-append, first-IsRound, two_rounds, orphan_round, child_round,
  find_template-append, find_template-known,
}

module _ {n : Numbers} where
  -- Every parent stands before the templates that name it, as the names seen so far tell.
  abbrev pub ParentsFirst : List String → List (MappingTemplate n) → Type 0
  ParentsFirst names [] = Unit
  ParentsFirst names (t ∷ ts) = HasKnown names t × ParentsFirst (names ++ (t.id ∷ [])) ts

  -- What a template must become in the end: itself, or itself with what its parent has in the end.
  abbrev pub InheritsBy :
      List (MappingTemplate n) → MappingTemplate n → MappingTemplate n → Option String → Type 0
  InheritsBy final t u none = u ≡ t
  InheritsBy final t u (some p) =
      (parent : MappingTemplate n) × (IsFirst id_of p final parent × IsChild parent t u)

  abbrev pub Inherits : List (MappingTemplate n) → MappingTemplate n → MappingTemplate n → Type 0
  Inherits final t u = InheritsBy final t u t.parent_id

  abbrev pub AllInherit :
      List (MappingTemplate n) → List (MappingTemplate n) → List (MappingTemplate n) → Type 0
  AllInherit final [] [] = Unit
  AllInherit final (t ∷ ts) (u ∷ us) = Inherits final t u × AllInherit final ts us
  AllInherit final _ _ = ⊥

  -- What a round leaves, if the parents stand first: the templates done before, and after them those that
  -- inherit from what it leaves.
  abbrev Leaves : List (MappingTemplate n) → List (MappingTemplate n) → Progress n → Type 0
  Leaves done rest (throws e) = ⊥
  Leaves done rest (ok (out, c)) =
      (us : List (MappingTemplate n)) × ((out ≡ done ++ us) × AllInherit out rest us)

  Leaves-cons :
      (done rest : List (MappingTemplate n)) (t u : MappingTemplate n) (x : Progress n)
      → ((us : List (MappingTemplate n)) → Inherits (done ++ (u ∷ us)) t u)
      → Leaves (done ++ (u ∷ [])) rest x
      → Leaves done (t ∷ rest) x
  Leaves-cons done rest t u (throws e) h l = absurd l
  Leaves-cons done rest t u (ok (out, c)) h (us, (same, all')) =
      let same' = same ∙ append_assoc done (u ∷ []) us in
      (u ∷ us, (same', (subst (λ o. Inherits o t u) (sym same') (h us), all')))

  Leaves-changed :
      (done rest : List (MappingTemplate n)) (x : Progress n)
      → Leaves done rest x
      → Leaves done rest (changed x)
  Leaves-changed done rest (throws e) h = absurd h
  Leaves-changed done rest (ok (out, c)) h = h

  ParentsFirst-next :
      (done rest : List (MappingTemplate n)) (u : MappingTemplate n)
      → ParentsFirst (ids done ++ (u.id ∷ [])) rest
      → ParentsFirst (ids (done ++ (u ∷ []))) rest
  ParentsFirst-next done rest u h =
      subst (λ names. ParentsFirst names rest) (sym (ids-append done (u ∷ []))) h

  -- No template has two variables of one name.
  abbrev pub AllDistinct : List (MappingTemplate n) → Type 0
  AllDistinct ts = All (λ t. IsDistinct t.variables) ts

  found-IsDistinct :
      (p : String) (ts : List (MappingTemplate n)) (t : MappingTemplate n)
      → AllDistinct ts
      → find_template p ts ≡ some t
      → IsDistinct t.variables
  unfolding find_template
  found-IsDistinct p [] t d h = absurd (ground arith)
  found-IsDistinct p (u ∷ us) t (d, ds) h = elim (Bool-cases (str_eq u.id p)) [
    | inl e ↦ subst (λ o. IsDistinct o.variables) (some-injective _ _ (found e ∙ h)) d
    | inr e ↦ found-IsDistinct p us t ds (found e ∙ h)
  ]
    where
      found :
          {b : Bool}
          → str_eq u.id p ≡ b
          → (if b then some u else find_template p us) ≡ find_template p (u ∷ us)
      found e = sym (ap (λ b. if b then some u else find_template p us) e)

  found_before :
      (p : String) (done : List (MappingTemplate n)) (t : MappingTemplate n)
      → HasKnown (ids done) t
      → t.parent_id ≡ some p
      → (parent : MappingTemplate n) × (find_template p done ≡ some parent)
  found_before p done t k q = elim (Option-cases (find_template p done)) [
    | inl e ↦ absurd (ground (arith, find_template-known p done))
    | inr f ↦ f
  ]

  apply_round-Leaves :
      (done rest : List (MappingTemplate n))
      → AllDistinct done
      → AllDistinct rest
      → ParentsFirst (ids done) rest
      → Leaves done rest (apply_round done rest)
  unfolding apply_round apply_parent
  apply_round-Leaves done [] d e h = ([], (sym (append-nil done), tt))
  apply_round-Leaves done (t ∷ rest) d (e, es) (k, h) = elim (Option-cases t.parent_id) [
    | inl q ↦
        subst (λ x. Leaves done (t ∷ rest) x) (sym (orphan_round done rest t q))
          (Leaves-cons done rest t t (apply_round (done ++ (t ∷ [])) rest)
            (λ us. subst (λ o. InheritsBy (done ++ (t ∷ us)) t t o) (sym q) refl)
            (apply_round-Leaves (done ++ (t ∷ [])) rest
              (All-append (λ o. IsDistinct o.variables) done (t ∷ []) d (e, tt)) es
              (ParentsFirst-next done rest t h)))
    | inr (p, q) ↦
        let (parent, f) = found_before p done t k q in
        let u = settle parent t in
        let x = apply_round (done ++ (u ∷ [])) rest in
        let child = settle-IsChild parent t (found-IsDistinct p done parent d f) e in
        subst (λ x. Leaves done (t ∷ rest) x) (sym (child_round done rest t parent p q f))
          (Leaves-cons done rest t u (changed x)
            (λ us.
              let final = done ++ (u ∷ us) in
              subst (λ o. InheritsBy final t u o) (sym q)
                (
                  parent,
                  (
                    find_template-IsFirst p final parent
                        (find_template-append p done (u ∷ us) parent f),
                    child,
                  ),
                ))
            (Leaves-changed (done ++ (u ∷ [])) rest x (
              apply_round-Leaves (done ++ (u ∷ [])) rest
                (All-append (λ o. IsDistinct o.variables) done (u ∷ []) d
                  (settle-IsDistinct parent t, tt))
                es (ParentsFirst-next done rest u h))))
  ]

  -- If every parent stands before the templates that name it and no template has two variables of one name,
  -- the loop ends within two rounds. A template without a parent is then unchanged. One with a parent keeps its
  -- identifier, and its description unless that is empty, when it has its parent's; under a name where it had
  -- a variable it has that one, and under any other exactly the variable that its parent has in the end; and it
  -- names no parent any longer.
  pub apply_parents-AllInherit :
      (fuel : ℕ) (ts : List (MappingTemplate n))
      → ParentsFirst [] ts
      → AllDistinct ts
      → (out : List (MappingTemplate n)) × ((apply_parents (suc (suc fuel)) ts ≡ some (ok out))
          × AllInherit out ts out)
  apply_parents-AllInherit fuel ts h d =
      go (apply_round [] ts) refl (first-IsRound ts) (apply_round-Leaves [] ts tt d h)
    where
      go :
          (x : Progress n)
          → apply_round [] ts ≡ x
          → IsRound (ids ts) ts x
          → Leaves [] ts x
          → (out : List (MappingTemplate n)) × ((apply_parents (suc (suc fuel)) ts ≡ some (ok out))
              × AllInherit out ts out)
      go (throws e) q k l = absurd l
      go (ok (out, c)) q (k, (same, settled)) (us, (e, all')) =
          (out, (two_rounds fuel ts out c q settled, subst (λ o. AllInherit out ts o) (sym e) all'))
