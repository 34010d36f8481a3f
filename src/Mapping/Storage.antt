-- ===== src/Mapping/Storage.antt =====
-- Loading and saving of a mapping template as YAML and as JSON (src/ocpp/mapping_config.cpp). What an object
-- holds after its loading has thrown is not modelled.
use ocpp_gw.Base.{
  ℕ, ℤ, pos, negsuc, int_eq, String, ◌≡◌, ◌⊎◌, Bool, true, false, not, Option, none, some, List, [],
  ◌∷◌, ◌++◌, map, ltb, is_empty, str_eq, if◌then◌else◌,
}
use mathlib.Core.Option
use ocpp_gw.Config.Documents.{Documents, IsDocuments}
use ocpp_gw.Mapping.Template.{
  Numbers, VariableFields, VariableMapping, modbus, echonet_lite, OcppVariable, MappingTemplate,
}
pub mod Variables
pub mod Load
pub mod Save
pub mod Enums
pub mod Members
pub mod RoundTrip
mod Scenarios

-- What the templates use of yaml-cpp and of nlohmann/json beyond a configuration. `int_mapping` is a node with
-- these entries assigned in this order, under the number itself in YAML and under its decimal text in JSON.
pub record Storage (n : Numbers) : Type 1 where
  pub documents : Documents
  pub bool_node : Bool → documents.Node
  pub as_bool : documents.Node → Option Bool
  pub double_node : n.Double → documents.Node
  pub as_double : documents.Node → Option n.Double
  pub Key : Type 0
  pub key_of : ℤ → Key
  -- `as<int>` of the key, or `std::stoi`
  pub as_key : Key → Option ℤ
  pub int_mapping : List (ℤ × documents.Node) → documents.Node
  -- `IsMap` or `is_object`, with the entries in the order of iteration
  pub entries : documents.Node → Option (List (Key × documents.Node))
  -- 1.0, and the test for it
  pub one : n.Double
  pub is_one : n.Double → Bool

-- What the libraries document of these, and finite numbers of type `double`.
pub record IsStorage {n : Numbers} (s : Storage n) : Type 0 where
  pub document_laws : IsDocuments s.documents
  pub as_bool-bool_node : (b : Bool) → s.as_bool (s.bool_node b) ≡ some b
  pub as_double-double_node : (x : n.Double) → s.as_double (s.double_node x) ≡ some x
  pub as_key-key_of : (k : ℤ) → s.as_key (s.key_of k) ≡ some k
  -- A list without elements is saved as an empty sequence or as no sequence.
  pub elements-empty :
      (s.documents.elements (s.documents.sequence []) ≡ some none)
      ⊎ (s.documents.elements (s.documents.sequence []) ≡ some (some []))
  pub is_one_sound : (x : n.Double) → s.is_one x ≡ true → s.one ≡ x

-- The member that holds the address of a mapping.
pub data Kind : Type 0 where
  register_kind epc_kind : Kind

abbrev pub address_key : Kind → String
address_key register_kind = "register"
address_key epc_kind = "epc"
