-- ===== src/Ocpp/ToyJson.antt =====
-- A small JSON library for concrete inputs, in which values stand for their own texts.
use ocpp_gw.Base.{
  ℤ, String, ◌≡◌, refl, sym, ap, ◌∙◌, Bool, true, false, ◌&&◌, all, arith, Option, none, some, List,
  [], ◌∷◌, str_eq, if◌then◌else◌,
}
use ocpp_gw.Base.Dict.{Dict, lookup}
use ocpp_gw.Ocpp.Json.{JsonLib, IsJson}

mutual
  pub data Value : Type 0 where
    nil : Value
    num : ℤ → Value
    str : String → Value
    arr : Values → Value
    obj : Members → Value
    infinity : Value

  pub data Values : Type 0 where
    no_values : Values
    a_value : Value → Values → Values

  pub data Members : Type 0 where
    no_members : Members
    a_member : String → Value → Members → Members

abbrev pub values : List Value → Values
values [] = no_values
values (v ∷ vs) = a_value v (values vs)

abbrev pub elements : Values → List Value
elements no_values = []
elements (a_value v vs) = v ∷ elements vs

abbrev pub members : Dict Value → Members
members [] = no_members
members ((k, v) ∷ m) = a_member k v (members m)

abbrev pub find : String → Members → Option Value
find k no_members = none
find k (a_member j v m) = if str_eq j k then some v else find k m

abbrev pub value_is_null : Value → Bool
value_is_null nil = true
value_is_null _ = false

abbrev pub value_number : Value → Option ℤ
value_number (num n) = some n
value_number _ = none

abbrev pub value_text : Value → Option String
value_text (str s) = some s
value_text _ = none

abbrev pub value_items : Value → Option (List Value)
value_items (arr vs) = some (elements vs)
value_items _ = none

abbrev pub value_member : String → Value → Option Value
value_member k (obj m) = find k m
value_member k _ = none

abbrev mutual
  pub value_kept : Value → Bool
  value_kept infinity = false
  value_kept (arr vs) = values_kept vs
  value_kept (obj m) = members_kept m
  value_kept _ = true

  pub values_kept : Values → Bool
  values_kept no_values = true
  values_kept (a_value v vs) = value_kept v && values_kept vs

  pub members_kept : Members → Bool
  members_kept no_members = true
  members_kept (a_member k v m) = value_kept v && members_kept m

-- The text, with null for a number that is not finite.
abbrev mutual
  pub written : Value → Value
  written infinity = nil
  written (arr vs) = arr (written_values vs)
  written (obj m) = obj (written_members m)
  written nil = nil
  written (num n) = num n
  written (str s) = str s

  pub written_values : Values → Values
  written_values no_values = no_values
  written_values (a_value v vs) = a_value (written v) (written_values vs)

  pub written_members : Members → Members
  written_members no_members = no_members
  written_members (a_member k v m) = a_member k (written v) (written_members m)

abbrev pub json : JsonLib
json = record {
  Json = Value;
  Wire = Value;
  null = nil;
  number = num;
  text = str;
  array = λ vs. arr (values vs);
  object = λ m. obj (members m);
  is_null = value_is_null;
  kept = value_kept;
  as_number = value_number;
  as_text = value_text;
  items = value_items;
  member = value_member;
  dump = λ v. some (written v);
  parse = λ v. some v;
}

elements-values : (vs : List Value) → elements (values vs) ≡ vs
elements-values [] = refl
elements-values (v ∷ vs) = ap (v ∷◌) (elements-values vs)

find-members : (k : String) (m : Dict Value) → find k (members m) ≡ lookup k m
unfolding lookup
find-members k [] = refl
find-members k ((j, v) ∷ m) = ap (λ o. if str_eq j k then some v else o) (find-members k m)

mutual
  written_kept : (v : Value) → value_kept v ≡ true → written v ≡ v
  written_kept nil h = refl
  written_kept (num n) h = refl
  written_kept (str s) h = refl
  written_kept (arr vs) h = ap arr (written_values_kept vs h)
  written_kept (obj m) h = ap obj (written_members_kept m h)
  written_kept infinity h = absurd (ground arith)

  written_values_kept : (vs : Values) → values_kept vs ≡ true → written_values vs ≡ vs
  written_values_kept no_values h = refl
  written_values_kept (a_value v vs) h =
      rw (written_kept v (ground arith), written_values_kept vs (ground arith)) refl

  written_members_kept : (m : Members) → members_kept m ≡ true → written_members m ≡ m
  written_members_kept no_members h = refl
  written_members_kept (a_member k v m) h =
      rw (written_kept v (ground arith), written_members_kept m (ground arith)) refl

values_kept-values : (vs : List Value) → values_kept (values vs) ≡ all value_kept vs
values_kept-values [] = refl
values_kept-values (v ∷ vs) = ap (λ b. value_kept v && b) (values_kept-values vs)

members_kept-members : (m : Dict Value) → members_kept (members m) ≡ all (λ p. value_kept p.1) m
members_kept-members [] = refl
members_kept-members ((k, v) ∷ m) = ap (λ b. value_kept v && b) (members_kept-members m)

pub json-IsJson : IsJson json
json-IsJson = record {
  as_number-number = λ n h. refl;
  as_text-text = λ s. refl;
  items-array = λ js. ap some (elements-values js);
  member-object = find-members;
  is_null-null = refl;
  kept-number = λ n. refl;
  kept-text = λ s. refl;
  kept-array = values_kept-values;
  kept-object = members_kept-members;
  parse-dump = λ j w k h. sym h ∙ ap some (written_kept j k);
}
