-- ===== src/Mapping/Storage/Scenarios.antt =====
-- A template saved and loaded, with a small library of documents.
use ocpp_gw.Base.{
  ℕ, ℤ, pos, ◌≡◌, inl, inr, refl, Bool, true, Option, none, some, List, [], ◌∷◌, ltb, ◌==◌, arith,
}
use ocpp_gw.Config.ToyDocuments.{Tree, end, flag, amount, entry, trees, trees-IsDocuments}
use ocpp_gw.Mapping.Template.{Numbers, modbus, OcppVariable, MappingTemplate}
use ocpp_gw.Mapping.Storage.{Storage, IsStorage}
use ocpp_gw.Mapping.Storage.Load.{
  ok, load_from_yaml, load_from_yaml_string, load_from_json, load_from_json_string,
}
use ocpp_gw.Mapping.Storage.Save.{save_to_yaml, save_to_json}
use ocpp_gw.Mapping.Storage.RoundTrip.{after, load_template-save}

abbrev toy : Numbers
toy = record { Double = ℕ; at_most_zero = λ x. ltb x 1 }

abbrev flag_of : Tree → Option Bool
flag_of (flag b) = some b
flag_of _ = none

abbrev amount_of : Tree → Option ℕ
amount_of (amount x) = some x
amount_of _ = none

abbrev entry_list : List (ℤ × Tree) → Tree
entry_list [] = end
entry_list ((k, t) ∷ es) = entry k t (entry_list es)

abbrev entries_in : Tree → List (ℤ × Tree)
entries_in (entry k t rest) = (k, t) ∷ entries_in rest
entries_in _ = []

abbrev store : Storage toy
store = record {
  documents = trees;
  bool_node = flag;
  as_bool = flag_of;
  double_node = amount;
  as_double = amount_of;
  Key = ℤ;
  key_of = λ k. k;
  as_key = λ k. some k;
  int_mapping = entry_list;
  entries = λ t. some (entries_in t);
  one = 1;
  is_one = λ x. x == 1;
}

store-IsStorage : IsStorage store
store-IsStorage = record {
  document_laws = trees-IsDocuments;
  as_bool-bool_node = λ b. refl;
  as_double-double_node = λ x. refl;
  as_key-key_of = λ k. refl;
  elements-empty = inl refl;
  is_one_sound = λ x h. ground arith;
}

abbrev state : OcppVariable toy
state = record {
  ocpp_name = "Connector.State";
  type = "modbus";
  mapping = modbus (record {
    address = pos 40001;
    data_type = "enum";
    scale = 1;
    unit = "";
    enum_map = (pos 1, "Available") ∷ (pos 2, "Occupied") ∷ [];
  });
  read_only = true;
}

abbrev charger : MappingTemplate toy
charger = record {
  id = "charger";
  description = "";
  parent_id = some "base";
  variables = state ∷ [];
}

abbrev other : MappingTemplate toy
other = record { id = "other"; description = "an old one"; parent_id = none; variables = [] }

load_template-save_example :
    ((text : Tree) × ((save_to_yaml store true charger ≡ some text)
        × ((load_from_yaml store (some text) other ≡ ok (after charger other))
            × (load_from_yaml_string store text other ≡ ok (after charger other)))))
    × ((text : Tree) × ((save_to_json store true charger ≡ some text)
          × ((load_from_json store (some text) other ≡ ok (after charger other))
              × (load_from_json_string store text other ≡ ok (after charger other)))))
load_template-save_example =
    load_template-save store store charger other store-IsStorage store-IsStorage
      ((refl, inr (((refl, tt), (tt, tt)), refl)), tt)
      ((refl, inr (((refl, tt), (tt, tt)), refl)), tt)
