-- ===== src/Ocpp/EvsesTable.antt =====
-- Finding, replacing and erasing machines in the table.
use ocpp_gw.Base.{
  ℤ, pos, negsuc, ◌≡◌, ◌↔◌, refl, ap, ◌∙◌, subst, true, false, ◌&&◌, Bool-cases, inl, inr, none,
  List, [], ◌∷◌, ◌++◌, int_eq, if◌then◌else◌, arith, All,
}
use mathlib.Core.Option.{map as option_map}
use ocpp_gw.Evse.Types.{Platform, Evse}
use ocpp_gw.Evse.Identity.{HasIds}
use ocpp_gw.Ocpp.Evses.{has_ids, find, erase, replace}

int_eq_symmetric : (a b : ℤ) → int_eq a b ≡ int_eq b a
int_eq_symmetric (pos a) (pos b) = ground arith
int_eq_symmetric (pos a) (negsuc b) = refl
int_eq_symmetric (negsuc a) (pos b) = refl
int_eq_symmetric (negsuc a) (negsuc b) = ground arith

int_eq_refl : (a : ℤ) → int_eq a a ≡ true
int_eq_refl (pos a) = ground arith
int_eq_refl (negsuc a) = ground arith

pub int_eq_iff : (a b : ℤ) → (int_eq a b ≡ true) ↔ (a ≡ b)
int_eq_iff (pos a) (pos b) =
    (λ h. ap pos (ground arith), λ h. subst (λ x. int_eq (pos a) x ≡ true) h (int_eq_refl (pos a)))
int_eq_iff (pos a) (negsuc b) = (λ h. cc, λ h. cc)
int_eq_iff (negsuc a) (pos b) = (λ h. cc, λ h. cc)
int_eq_iff (negsuc a) (negsuc b) = (
  λ h. ap negsuc (ground arith),
  λ h. subst (λ x. int_eq (negsuc a) x ≡ true) h (int_eq_refl (negsuc a)),
)

module _ {p : Platform} where
  -- No machine has the identifiers of an earlier one.
  abbrev pub IsDistinct : List (Evse p) → Type 0
  IsDistinct [] = Unit
  IsDistinct (s ∷ ss) = (find s.evse_id s.connector_id ss ≡ none) × IsDistinct ss

  find-append :
      (i j : ℤ) (ss : List (Evse p)) (s : Evse p)
      → find i j ss ≡ none
      → has_ids i j s ≡ false
      → find i j (ss ++ s ∷ []) ≡ none
  unfolding find
  find-append i j [] s h k = ground arith
  find-append i j (t ∷ ss) s h k = ground (arith, find-append i j ss s)

  -- A machine added whose identifiers are not there.
  pub append-IsDistinct :
      (ss : List (Evse p)) (s : Evse p)
      → IsDistinct ss
      → find s.evse_id s.connector_id ss ≡ none
      → IsDistinct (ss ++ s ∷ [])
  unfolding find
  append-IsDistinct [] s d h = (refl, tt)
  append-IsDistinct (t ∷ ss) s (first, d) h =
      let apart : has_ids t.evse_id t.connector_id s ≡ false = ground (
        arith,
        int_eq_symmetric s.evse_id t.evse_id,
        int_eq_symmetric s.connector_id t.connector_id,
      ) in
      (
        find-append t.evse_id t.connector_id ss s first apart,
        append-IsDistinct ss s d (ground arith),
      )

  find-erase :
      (i j e c : ℤ) (ss : List (Evse p)) → find i j ss ≡ none → find i j (erase e c ss) ≡ none
  unfolding find erase
  find-erase i j e c [] h = refl
  find-erase i j e c (s ∷ ss) h = ground (arith, find-erase i j e c ss)

  pub erase-IsDistinct : (e c : ℤ) (ss : List (Evse p)) → IsDistinct ss → IsDistinct (erase e c ss)
  unfolding erase
  erase-IsDistinct e c [] d = tt
  erase-IsDistinct e c (s ∷ ss) (first, d) = elim (Bool-cases (has_ids e c s)) [
    | inl h ↦ rw h d
    | inr h ↦ rw h (find-erase s.evse_id s.connector_id e c ss first, erase-IsDistinct e c ss d)
  ]

  -- A step of a machine, which keeps its identifiers.
  abbrev pub KeepsIds : (Evse p → Evse p) → Type 0
  KeepsIds f = (s : Evse p) → HasIds s.evse_id s.connector_id (f s)

  has_ids-kept :
      (i j : ℤ) (f : Evse p → Evse p) (s : Evse p) → KeepsIds f → has_ids i j (f s) ≡ has_ids i j s
  has_ids-kept i j f s k =
      ap (λ x. int_eq x i && int_eq (f s).connector_id j) (k s).evse
      ∙ ap (λ y. int_eq s.evse_id i && int_eq y j) (k s).connector

  -- What is found after the machine with the identifiers `e` and `c` made a step.
  pub find-replace :
      (i j e c : ℤ) (f : Evse p → Evse p) (ss : List (Evse p))
      → KeepsIds f
      → find i j (replace e c f ss)
        ≡ (if int_eq e i && int_eq c j then option_map f (find i j ss) else find i j ss)
  unfolding find replace
  find-replace i j e c f [] k = ground arith
  find-replace i j e c f (s ∷ ss) k = ground (
    arith,
    has_ids-kept i j f s k,
    int_eq_iff s.evse_id e,
    int_eq_iff s.evse_id i,
    int_eq_iff s.connector_id c,
    int_eq_iff s.connector_id j,
    int_eq_iff e i,
    int_eq_iff c j,
    find-replace i j e c f ss k,
  )

  pub replace-IsDistinct :
      (e c : ℤ) (f : Evse p → Evse p) (ss : List (Evse p))
      → KeepsIds f
      → IsDistinct ss
      → IsDistinct (replace e c f ss)
  unfolding replace
  replace-IsDistinct e c f [] k d = tt
  replace-IsDistinct e c f (s ∷ ss) k (first, d) = elim (Bool-cases (has_ids e c s)) [
    | inl h ↦ rw h (
      ap (λ x. find x (f s).connector_id ss) (k s).evse
          ∙ ap (λ y. find s.evse_id y ss) (k s).connector
          ∙ first,
      d,
    )
    | inr h ↦ rw h (
      ground (arith, find-replace s.evse_id s.connector_id e c f ss k),
      replace-IsDistinct e c f ss k d,
    )
  ]

  pub All-replace :
      (P : Evse p → Type 0) (e c : ℤ) (f : Evse p → Evse p) (ss : List (Evse p))
      → ((s : Evse p) → P s → P (f s))
      → All P ss
      → All P (replace e c f ss)
  unfolding replace
  All-replace P e c f [] k a = tt
  All-replace P e c f (s ∷ ss) k (first, a) = elim (Bool-cases (has_ids e c s)) [
    | inl h ↦ rw h (k s first, a)
    | inr h ↦ rw h (first, All-replace P e c f ss k a)
  ]

  pub All-erase :
      (P : Evse p → Type 0) (e c : ℤ) (ss : List (Evse p)) → All P ss → All P (erase e c ss)
  unfolding erase
  All-erase P e c [] a = tt
  All-erase P e c (s ∷ ss) (first, a) = elim (Bool-cases (has_ids e c s)) [
    | inl h ↦ rw h a
    | inr h ↦ rw h (first, All-erase P e c ss a)
  ]

  pub replace-absent :
      (e c : ℤ) (f : Evse p → Evse p) (ss : List (Evse p))
      → find e c ss ≡ none
      → replace e c f ss ≡ ss
  unfolding find replace
  replace-absent e c f [] h = refl
  replace-absent e c f (s ∷ ss) h = elim (Bool-cases (has_ids e c s)) [
    | inl k ↦ ground arith
    | inr k ↦ ground (arith, replace-absent e c f ss)
  ]
