-- ===== src/Mapping/Resolve.antt =====
-- What the application of the parents leaves, when it fails, and when every template ends with all that its
-- ancestors have.
use ocpp_gw.Base.{
  ℕ, suc, String, ◌≡◌, refl, sym, ap, ◌∙◌, Bool, true, false, inl, inr, Option-cases, none, some,
  is_some, List, [], ◌∷◌, ◌++◌, append_assoc, append-nil, str_eq, any, All, All-append, map, arith,
}
use ocpp_gw.Mapping.Template.{Numbers, MappingTemplate, apply_parent}
use ocpp_gw.Mapping.Collection.{
  ok, throws, InheritanceError, Progress, find_template, settle, changed, apply_round,
  apply_parents,
}

abbrev pub known : String → List String → Bool
known name names = any (λ k. str_eq k name) names

module _ {n : Numbers} where
  abbrev pub ids : List (MappingTemplate n) → List String
  ids ts = map (λ t. t.id) ts

  settle-id : (parent t : MappingTemplate n) → (settle parent t).id ≡ t.id
  unfolding apply_parent
  settle-id parent t = refl

  pub find_template-known :
      (name : String) (ts : List (MappingTemplate n))
      → is_some (find_template name ts) ≡ known name (ids ts)
  unfolding find_template
  find_template-known name [] = refl
  find_template-known name (t ∷ ts) = ground (arith, find_template-known name ts)

  -- A parent, if the template has one, is among the templates named.
  abbrev pub HasKnown : List String → MappingTemplate n → Type 0
  HasKnown names t = elim t.parent_id [ none ↦ Unit | some p ↦ known p names ≡ true ]

  -- What a round must be for its input: an error exactly if a parent is unknown; else templates without
  -- parents, in their places.
  abbrev pub IsRound : List String → List (MappingTemplate n) → Progress n → Type 0
  IsRound names ts (throws e) = All (HasKnown names) ts → ⊥
  IsRound names ts (ok (out, c)) =
      All (HasKnown names) ts × ((ids out ≡ names) × All (λ t. t.parent_id ≡ none) out)

  pub ids-append : (ts us : List (MappingTemplate n)) → ids (ts ++ us) ≡ ids ts ++ ids us
  ids-append [] us = refl
  ids-append (t ∷ ts) us = ap (λ x. t.id ∷ x) (ids-append ts us)

  ids-next :
      (done rest : List (MappingTemplate n)) (t : MappingTemplate n)
      → ids (done ++ (t ∷ [])) ++ ids rest ≡ ids done ++ ids (t ∷ rest)
  ids-next done rest t =
      ap (λ x. x ++ ids rest) (ids-append done (t ∷ []))
      ∙ append_assoc (ids done) (t.id ∷ []) (ids rest)

  IsRound-cons :
      (names : List String) (t : MappingTemplate n) (rest : List (MappingTemplate n))
      (x : Progress n)
      → HasKnown names t
      → IsRound names rest x
      → IsRound names (t ∷ rest) x
  IsRound-cons names t rest (throws e) k h = λ (u, us). h us
  IsRound-cons names t rest (ok (out, c)) k (ks, (same, settled)) = ((k, ks), (same, settled))

  IsRound-changed :
      (names : List String) (rest : List (MappingTemplate n)) (x : Progress n)
      → IsRound names rest x
      → IsRound names rest (changed x)
  IsRound-changed names rest (throws e) h = h
  IsRound-changed names rest (ok (out, c)) h = h

  find_template-names :
      (name : String) (names : List String) (ts : List (MappingTemplate n))
      → ids ts ≡ names
      → is_some (find_template name ts) ≡ known name names
  find_template-names name names ts h = find_template-known name ts ∙ ap (λ x. known name x) h

  found_in :
      (p : String) (names : List String) (done rest : List (MappingTemplate n))
      (t : MappingTemplate n)
      → ids done ++ ids (t ∷ rest) ≡ names
      → is_some (find_template p (done ++ (t ∷ rest))) ≡ known p names
  found_in p names done rest t h =
      find_template-names p names (done ++ (t ∷ rest)) (ids-append done (t ∷ rest) ∙ h)

  apply_round-IsRound :
      (names : List String) (done rest : List (MappingTemplate n))
      → ids done ++ ids rest ≡ names
      → All (λ t. t.parent_id ≡ none) done
      → IsRound names rest (apply_round done rest)
  unfolding apply_round apply_parent
  apply_round-IsRound names done [] h a = (tt, (sym (append-nil (ids done)) ∙ h, a))
  apply_round-IsRound names done (t ∷ rest) h a = elim (Option-cases t.parent_id) [
    | inl q ↦ rw q (
        IsRound-cons names (record t { parent_id = none }) rest
          (apply_round (done ++ (t ∷ [])) rest) tt
          (apply_round-IsRound names (done ++ (t ∷ [])) rest (ids-next done rest t ∙ h)
            (All-append (λ t. t.parent_id ≡ none) done (t ∷ []) a (q, tt))))
    | inr (p, q) ↦ rw q (elim (Option-cases (find_template p (done ++ (t ∷ rest)))) [
      | inl e ↦ rw e (λ (k, ks). absurd (ground (arith, found_in p names done rest t h)))
      | inr (parent, e) ↦ rw e (
          IsRound-cons names (record t { parent_id = some p }) rest
            (changed (apply_round (done ++ (settle parent t ∷ [])) rest))
            (ground (arith, found_in p names done rest t h))
            (IsRound-changed names rest (apply_round (done ++ (settle parent t ∷ [])) rest) (
              apply_round-IsRound names (done ++ (settle parent t ∷ [])) rest
                (ids-next done rest (settle parent t) ∙ h)
                (All-append (λ t. t.parent_id ≡ none) done (settle parent t ∷ []) a (refl, tt)))))
    ])
  ]

  pub find_template-append :
      (p : String) (ts us : List (MappingTemplate n)) (t : MappingTemplate n)
      → find_template p ts ≡ some t
      → find_template p (ts ++ us) ≡ some t
  unfolding find_template
  find_template-append p [] us t h = absurd (ground arith)
  find_template-append p (u ∷ ts) us t h = ground (arith, find_template-append p ts us t)

  pub orphan_round :
      (done rest : List (MappingTemplate n)) (t : MappingTemplate n)
      → t.parent_id ≡ none
      → apply_round done (t ∷ rest) ≡ apply_round (done ++ (t ∷ [])) rest
  unfolding apply_round
  orphan_round done rest t h = ground arith

  pub child_round :
      (done rest : List (MappingTemplate n)) (t parent : MappingTemplate n) (p : String)
      → t.parent_id ≡ some p
      → find_template p done ≡ some parent
      → apply_round done (t ∷ rest) ≡ changed (apply_round (done ++ (settle parent t ∷ [])) rest)
  unfolding apply_round
  child_round done rest t parent p h e =
      ground (arith, find_template-append p done (t ∷ rest) parent e)

  -- A round over templates without parents changes nothing.
  settled_round :
      (done rest : List (MappingTemplate n))
      → All (λ t. t.parent_id ≡ none) rest
      → apply_round done rest ≡ ok (done ++ rest, false)
  unfolding apply_round
  settled_round done [] h = rw append-nil refl
  settled_round done (t ∷ rest) (h, hs) =
      orphan_round done rest t h
      ∙ settled_round (done ++ (t ∷ [])) rest hs
      ∙ ap (λ x. ok (x, false)) (append_assoc done (t ∷ []) rest)

  pub first-IsRound : (ts : List (MappingTemplate n)) → IsRound (ids ts) ts (apply_round [] ts)
  first-IsRound ts = apply_round-IsRound (ids ts) [] ts refl tt

  pub two_rounds :
      (fuel : ℕ) (ts out : List (MappingTemplate n)) (c : Bool)
      → apply_round [] ts ≡ ok (out, c)
      → All (λ t. t.parent_id ≡ none) out
      → apply_parents (suc (suc fuel)) ts ≡ some (ok out)
  unfolding apply_parents
  two_rounds fuel ts out true h a = rw (apply_parents, h, settled_round [] out a) refl
  two_rounds fuel ts out false h a = rw (apply_parents, h) refl

  one_round :
      (fuel : ℕ) (ts : List (MappingTemplate n)) (e : InheritanceError)
      → apply_round [] ts ≡ throws e
      → apply_parents (suc fuel) ts ≡ some (throws e)
  unfolding apply_parents
  one_round fuel ts e h = rw (apply_parents, h) refl

  -- The loop ends within two rounds. If each template's parent is a template of the collection, it ends with
  -- templates under the same identifiers in the same places, none of which has a parent; if some parent
  -- is not, with an error.
  pub apply_parents_lem :
      (fuel : ℕ) (ts : List (MappingTemplate n))
      → (All (HasKnown (ids ts)) ts
          → (out : List (MappingTemplate n)) × ((apply_parents (suc (suc fuel)) ts ≡ some (ok out))
              × ((ids out ≡ ids ts) × All (λ t. t.parent_id ≡ none) out)))
        × ((All (HasKnown (ids ts)) ts → ⊥)
            → (e : InheritanceError) × (apply_parents (suc (suc fuel)) ts ≡ some (throws e)))
  apply_parents_lem fuel ts = go (apply_round [] ts) refl (first-IsRound ts)
    where
      go :
          (x : Progress n)
          → apply_round [] ts ≡ x
          → IsRound (ids ts) ts x
          → (All (HasKnown (ids ts)) ts
              → (out : List (MappingTemplate n)) × ((apply_parents (suc (suc fuel)) ts
                    ≡ some (ok out))
                  × ((ids out ≡ ids ts) × All (λ t. t.parent_id ≡ none) out)))
            × ((All (HasKnown (ids ts)) ts → ⊥)
                → (e : InheritanceError) × (apply_parents (suc (suc fuel)) ts ≡ some (throws e)))
      go (throws e) q h = (λ k. absurd (h k), λ k. (e, one_round (suc fuel) ts e q))
      go (ok (out, c)) q (k, (same, settled)) =
          (λ k'. (out, (two_rounds fuel ts out c q settled, (same, settled))), λ k'. absurd (k' k))
