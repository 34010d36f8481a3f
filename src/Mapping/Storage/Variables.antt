-- ===== src/Mapping/Storage/Variables.antt =====
-- The variables of a template, saved and loaded.
use ocpp_gw.Base.{
  ℤ, String, ◌≡◌, ◌⊎◌, inl, inr, refl, sym, ap, subst, ◌∙◌, Bool, Bool-cases, true, false, not,
  some, List, [], ◌∷◌, is_empty, str_eq, eq_iff, All, arith,
}
use mathlib.Core.Option
use ocpp_gw.Mapping.Template.{
  Numbers, VariableFields, VariableMapping, modbus, echonet_lite, OcppVariable, MappingTemplate,
}
use ocpp_gw.Mapping.Storage.{Storage, IsStorage, Kind, register_kind, epc_kind, address_key}
use ocpp_gw.Mapping.Storage.Load.{
  ok, optional, load_enum, load_list, load_mapping, load_by_type, load_variable, load_variables,
}
use ocpp_gw.Mapping.Storage.Save.{
  enum_nodes, members_by_type, mapping_members, variable_members, save_variable, save_variables,
}
use ocpp_gw.Mapping.Storage.Enums.{
  IsIncreasing, entries_of, nothing-IsBelow, load_entries-entries_of,
}
use ocpp_gw.Mapping.Storage.Members.{
  given, all_members, has_name, has_type, has_read_only, has_address, has_data_type, has_scale,
  has_unit, has_enum,
}

module _ {n : Numbers} (s : Storage n) where
  open s use {
    documents, bool_node, as_bool, double_node, as_double, int_mapping, entries, one, is_one,
  }
  open documents use {Node, text_node, mapping, sequence, elements, as_text}

  -- An enumeration in the order of its keys which the library gives back in that order, or an empty one. (yaml-cpp
  -- makes a sequence of keys that count up from 0, and nlohmann/json orders the keys as texts.)
  abbrev pub IsKept : List (ℤ × String) → Type 0
  IsKept m =
      (m ≡ []) ⊎ (IsIncreasing m × (entries (int_mapping (enum_nodes s m)) ≡ some (entries_of s m)))

  -- A mapping of the kind of its variable's type, with an enumeration that is kept.
  abbrev pub IsStorable : String → VariableMapping n → Type 0
  IsStorable type (modbus f) = (type ≡ "modbus") × IsKept f.enum_map
  IsStorable type (echonet_lite f) = (type ≡ "echonet_lite") × IsKept f.enum_map

  abbrev pub AllStorable : MappingTemplate n → Type 0
  AllStorable t = All (λ v. IsStorable v.type v.mapping) t.variables

  abbrev kind_type : Kind → String
  kind_type register_kind = "modbus"
  kind_type epc_kind = "echonet_lite"

  abbrev of_kind : Kind → VariableFields n → VariableMapping n
  of_kind register_kind f = modbus f
  of_kind epc_kind f = echonet_lite f

  module _ (laws : IsStorage s) where
    open laws use {
      document_laws, as_bool-bool_node, as_double-double_node, is_one_sound, elements-empty,
    }
    open document_laws use {as_text-text_node, as_int-int_node, member-mapping, elements-sequence}

    enum_back :
        (m : List (ℤ × String))
        → IsKept m
        → load_enum s (some (given (not (is_empty m)) (int_mapping (enum_nodes s m)))) ≡ ok m
    enum_back [] h = refl
    enum_back (p ∷ ps) (inl h) = absurd (ground arith)
    enum_back (p ∷ ps) (inr (up, e)) =
        rw e (load_entries-entries_of s laws [] (p ∷ ps) (nothing-IsBelow (p ∷ ps)) up)

    scale_back :
        (x : n.Double)
        → optional (some (given (not (is_one x)) (double_node x))) as_double one ≡ ok x
    scale_back x = elim (Bool-cases (is_one x)) [
      | inl e ↦ rw e (ap ok (is_one_sound x e))
      | inr e ↦ rw (e, as_double-double_node x) refl
    ]

    text_back :
        (x : String) → optional (some (given (not (str_eq x "")) (text_node x))) as_text "" ≡ ok x
    text_back x = elim (Bool-cases (str_eq x "")) [
      | inl e ↦ rw e (ap ok (sym ((eq_iff x "").0 e)))
      | inr e ↦ rw (e, as_text-text_node x) refl
    ]

    bool_back : (b : Bool) → optional (some (given b (bool_node true))) as_bool false ≡ ok b
    bool_back true = rw (as_bool-bool_node true) refl
    bool_back false = refl

    mapping_back :
        (kind : Kind) (v : OcppVariable n) (f : VariableFields n)
        → IsKept f.enum_map
        → load_mapping s kind (mapping (all_members s kind v f)) ≡ ok f
    unfolding load_mapping
    mapping_back kind v f kept =
        let ms = all_members s kind v f in
        rw
          (
            load_mapping,
            member-mapping (address_key kind) ms,
            has_address s kind v f,
            as_int-int_node f.address,
          )
          (rw
            (member-mapping "data_type" ms, has_data_type s kind v f, as_text-text_node f.data_type)
            (rw (member-mapping "scale" ms, has_scale s kind v f, scale_back f.scale)
              (rw (member-mapping "unit" ms, has_unit s kind v f, text_back f.unit)
                (rw (member-mapping "enum" ms, has_enum s kind v f, enum_back f.enum_map kept)
                  refl))))

    variable_back_by :
        (kind : Kind) (v : OcppVariable n) (f : VariableFields n)
        → load_by_type s v.type (mapping (all_members s kind v f)) ≡ ok v.mapping
        → load_variable s (mapping (all_members s kind v f)) ≡ ok v
    unfolding load_variable
    variable_back_by kind v f h =
        let ms = all_members s kind v f in
        rw
          (
            load_variable,
            member-mapping "ocpp_name" ms,
            has_name s kind v f,
            as_text-text_node v.ocpp_name,
          )
          (rw (member-mapping "type" ms, has_type s kind v f, as_text-text_node v.type)
            (rw (member-mapping "read_only" ms, has_read_only s kind v f, bool_back v.read_only)
              (rw h refl)))

    -- The two kinds of variable: the members that are saved, and the mapping that is loaded.
    members_of :
        (kind : Kind) (type : String) (m : VariableMapping n) (f : VariableFields n)
        → (type ≡ kind_type kind) × (m ≡ of_kind kind f)
        → members_by_type s type m ≡ some (mapping_members s kind f)
    members_of register_kind type m f (t, e) = rw (e, t) refl
    members_of epc_kind type m f (t, e) = rw (e, t) refl

    loaded_by_type :
        (kind : Kind) (f : VariableFields n) (node : Node)
        → load_mapping s kind node ≡ ok f
        → load_by_type s (kind_type kind) node ≡ ok (of_kind kind f)
    unfolding load_by_type
    loaded_by_type register_kind f node h = rw h refl
    loaded_by_type epc_kind f node h = rw h refl

    kind_back :
        (kind : Kind) (v : OcppVariable n) (f : VariableFields n)
        → v.type ≡ kind_type kind
        → v.mapping ≡ of_kind kind f
        → IsKept f.enum_map
        → (node : Node) × ((save_variable s v ≡ some node) × (load_variable s node ≡ ok v))
    unfolding save_variable
    kind_back kind v f t m kept =
        let node = mapping (all_members s kind v f) in
        (
          node,
          (
            ap (Option.map (λ ms. mapping (variable_members s v ms)))
                (members_of kind v.type v.mapping f (t, m)),
            variable_back_by kind v f (
                subst (λ x. load_by_type s x node ≡ ok v.mapping) (sym t)
                  (loaded_by_type kind f node (mapping_back kind v f kept) ∙ ap ok (sym m))),
          ),
        )

    variable_back :
        (v : OcppVariable n) (m : VariableMapping n)
        → v.mapping ≡ m
        → IsStorable v.type m
        → (node : Node) × ((save_variable s v ≡ some node) × (load_variable s node ≡ ok v))
    variable_back v (modbus f) e (t, kept) = kind_back register_kind v f t e kept
    variable_back v (echonet_lite f) e (t, kept) = kind_back epc_kind v f t e kept

    pub variables_back :
        (vs : List (OcppVariable n))
        → All (λ v. IsStorable v.type v.mapping) vs
        → (nodes : List Node) × ((save_variables s vs ≡ some nodes)
            × ((load_variables s nodes ≡ ok vs)
                × (load_list s (elements (sequence nodes)) ≡ ok vs)))
    unfolding save_variables load_variables
    variables_back [] h =
        ([], (refl, (refl, elim elements-empty [ inl e ↦ rw e refl | inr e ↦ rw e refl ])))
    variables_back (v ∷ vs) (h, hs) =
        let (node, (w, r)) = variable_back v v.mapping refl h in
        let (nodes, (ws, (rs, _))) = variables_back vs hs in
        let read : load_variables s (node ∷ nodes) ≡ ok (v ∷ vs) =
          rw (load_variables, r, rs) refl in
        (
          node ∷ nodes,
          (rw (save_variables, w, ws) refl, (read, rw (elements-sequence node nodes) read)),
        )
