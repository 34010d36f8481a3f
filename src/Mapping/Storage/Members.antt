-- ===== src/Mapping/Storage/Members.antt =====
-- What is found under each key of a node that was made for a variable or a template.
use ocpp_gw.Base.{
  String, ◌≡◌, Bool, true, not, Option, none, some, List, is_empty, str_eq, if◌then◌else◌, arith,
}
use mathlib.Core.Option
use ocpp_gw.Config.Documents.{assigned}
use ocpp_gw.Mapping.Template.{Numbers, VariableFields, OcppVariable, MappingTemplate}
use ocpp_gw.Mapping.Storage.{Storage, Kind, register_kind, epc_kind, address_key}
use ocpp_gw.Mapping.Storage.Save.{enum_nodes, mapping_members, variable_members, template_members}

-- The value where the test holds.
abbrev pub given {ℓ} : {A : Type ℓ} → Bool → A → Option A
given b x = if b then some x else none

module _ {n : Numbers} (s : Storage n) where
  open s use {documents, bool_node, double_node, int_mapping, is_one}
  open documents use {Node, text_node, int_node, sequence}

  -- The members of a variable of one kind.
  abbrev pub all_members : Kind → OcppVariable n → VariableFields n → List (String × Node)
  all_members kind v f = variable_members s v (mapping_members s kind f)

  pub has_name :
      (kind : Kind) (v : OcppVariable n) (f : VariableFields n)
      → assigned "ocpp_name" (all_members kind v f) ≡ some (text_node v.ocpp_name)
  has_name register_kind v f = ground arith
  has_name epc_kind v f = ground arith

  pub has_type :
      (kind : Kind) (v : OcppVariable n) (f : VariableFields n)
      → assigned "type" (all_members kind v f) ≡ some (text_node v.type)
  has_type register_kind v f = ground arith
  has_type epc_kind v f = ground arith

  pub has_read_only :
      (kind : Kind) (v : OcppVariable n) (f : VariableFields n)
      → assigned "read_only" (all_members kind v f) ≡ given v.read_only (bool_node true)
  has_read_only register_kind v f = ground arith
  has_read_only epc_kind v f = ground arith

  pub has_address :
      (kind : Kind) (v : OcppVariable n) (f : VariableFields n)
      → assigned (address_key kind) (all_members kind v f) ≡ some (int_node f.address)
  has_address register_kind v f = ground arith
  has_address epc_kind v f = ground arith

  pub has_data_type :
      (kind : Kind) (v : OcppVariable n) (f : VariableFields n)
      → assigned "data_type" (all_members kind v f) ≡ some (text_node f.data_type)
  has_data_type register_kind v f = ground arith
  has_data_type epc_kind v f = ground arith

  pub has_scale :
      (kind : Kind) (v : OcppVariable n) (f : VariableFields n)
      → assigned "scale" (all_members kind v f) ≡ given (not (is_one f.scale)) (double_node f.scale)
  has_scale register_kind v f = ground arith
  has_scale epc_kind v f = ground arith

  pub has_unit :
      (kind : Kind) (v : OcppVariable n) (f : VariableFields n)
      → assigned "unit" (all_members kind v f) ≡ given (not (str_eq f.unit "")) (text_node f.unit)
  has_unit register_kind v f = ground arith
  has_unit epc_kind v f = ground arith

  pub has_enum :
      (kind : Kind) (v : OcppVariable n) (f : VariableFields n)
      → assigned "enum" (all_members kind v f)
        ≡ given (not (is_empty f.enum_map)) (int_mapping (enum_nodes s f.enum_map))
  has_enum register_kind v f = ground arith
  has_enum epc_kind v f = ground arith

  pub has_id :
      (t : MappingTemplate n) (vs : List Node)
      → assigned "id" (template_members s t vs) ≡ some (text_node t.id)
  has_id t vs = ground arith

  pub has_description :
      (t : MappingTemplate n) (vs : List Node)
      → assigned "description" (template_members s t vs)
        ≡ given (not (str_eq t.description "")) (text_node t.description)
  has_description t vs = ground arith

  pub has_parent :
      (t : MappingTemplate n) (vs : List Node)
      → assigned "parent" (template_members s t vs) ≡ Option.map text_node t.parent_id
  has_parent t vs = ground arith

  pub has_variables :
      (t : MappingTemplate n) (vs : List Node)
      → assigned "variables" (template_members s t vs) ≡ some (sequence vs)
  has_variables t vs = ground arith
