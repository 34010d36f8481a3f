-- ===== src/Mapping/Storage/Save.antt =====
-- `saveToYaml` and `saveToJson` of a mapping template.
use ocpp_gw.Base.{
  ℤ, String, Bool, true, not, Option, none, some, List, [], ◌∷◌, map, is_empty, str_eq,
  if◌then◌else◌,
}
use mathlib.Core.Option
use ocpp_gw.Mapping.Template.{
  Numbers, VariableFields, VariableMapping, modbus, echonet_lite, OcppVariable, MappingTemplate,
}
use ocpp_gw.Mapping.Storage.{Storage, Kind, address_key, register_kind, epc_kind}

abbrev pub when {ℓ} : {A : Type ℓ} → Bool → A → List A → List A
when b x xs = if b then x ∷ xs else xs

module _ {n : Numbers} (s : Storage n) where
  open s use {documents, bool_node, double_node, int_mapping, is_one}
  open documents use {Node, Text, text_node, int_node, mapping, sequence, print}

  abbrev pub enum_nodes : List (ℤ × String) → List (ℤ × Node)
  enum_nodes m = map (λ p. (p.0, text_node p.1)) m

  -- The members that a mapping adds to the node of its variable.
  abbrev pub mapping_members : Kind → VariableFields n → List (String × Node)
  mapping_members kind f =
      (address_key kind, int_node f.address)
      ∷ ("data_type", text_node f.data_type)
      ∷ when (not (is_one f.scale)) ("scale", double_node f.scale)
          (when (not (str_eq f.unit "")) ("unit", text_node f.unit)
            (when (not (is_empty f.enum_map)) ("enum", int_mapping (enum_nodes f.enum_map)) []))

  -- `none` is the exception of `std::get`; a variable of another type gets no members.
  abbrev pub members_by_type : String → VariableMapping n → Option (List (String × Node))
  members_by_type type (modbus f) =
      if str_eq type "modbus"
      then some (mapping_members register_kind f)
      else if str_eq type "echonet_lite"
      then none
      else some []
  members_by_type type (echonet_lite f) =
      if str_eq type "modbus"
      then none
      else if str_eq type "echonet_lite"
      then some (mapping_members epc_kind f)
      else some []

  abbrev pub variable_members : OcppVariable n → List (String × Node) → List (String × Node)
  variable_members v ms =
      ("ocpp_name", text_node v.ocpp_name)
      ∷ ("type", text_node v.type)
      ∷ when v.read_only ("read_only", bool_node true) ms

  unfoldable pub save_variable : OcppVariable n → Option Node
  save_variable v =
      Option.map (λ ms. mapping (variable_members v ms)) (members_by_type v.type v.mapping)

  unfoldable pub save_variables : List (OcppVariable n) → Option (List Node)
  save_variables [] = some []
  save_variables (v ∷ vs) =
      let rest = save_variables vs in
      elim (save_variable v) [
        | none ↦ none
        | some node ↦ elim rest [ none ↦ none | some nodes ↦ some (node ∷ nodes) ]
      ]

  abbrev with_parent : Option String → List (String × Node) → List (String × Node)
  with_parent none ms = ms
  with_parent (some p) ms = ("parent", text_node p) ∷ ms

  abbrev pub template_members : MappingTemplate n → List Node → List (String × Node)
  template_members t vs =
      ("id", text_node t.id)
      ∷ when (not (str_eq t.description "")) ("description", text_node t.description)
          (with_parent t.parent_id (("variables", sequence vs) ∷ []))

  -- The flag is whether the file opens; `none` is an exception, else what the file holds afterwards.
  abbrev pub write : Bool → MappingTemplate n → Option (List Node) → Option Text
  write opens t none = none
  write opens t (some vs) =
      if opens
      then some (print (mapping (("template", mapping (template_members t vs)) ∷ [])))
      else none

  unfoldable pub save_to_yaml : Bool → MappingTemplate n → Option Text
  save_to_yaml opens t = write opens t (save_variables t.variables)

  unfoldable pub save_to_json : Bool → MappingTemplate n → Option Text
  save_to_json opens t = write opens t (save_variables t.variables)
