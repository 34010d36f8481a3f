-- ===== src/Mapping/Storage/Load.antt =====
-- Loading a mapping template from YAML and from JSON.
use ocpp_gw.Base.{
  ℤ, pos, negsuc, int_eq, String, Bool, true, false, Option, none, some, List, [], ◌∷◌, ltb, str_eq,
  if◌then◌else◌,
}
use mathlib.Core.Option
use ocpp_gw.Mapping.Template.{
  Numbers, VariableFields, VariableMapping, modbus, echonet_lite, OcppVariable, MappingTemplate,
}
use ocpp_gw.Mapping.Storage.{Storage, Kind, address_key, register_kind, epc_kind}

-- `malformed` is an exception of the library, or a file that does not open.
pub data LoadError : Type 0 where
  missing : String → LoadError
  invalid_variable_type : String → LoadError
  malformed : LoadError

pub data Loaded {ℓ} (A : Type ℓ) : Type ℓ where
  ok : A → Loaded A
  fails : LoadError → Loaded A

infixl 5 ◌>>=◌
abbrev pub ◌>>=◌ {ℓ κ} : {A : Type ℓ} {B : Type κ} → Loaded A → (A → Loaded B) → Loaded B
ok a >>= f = f a
fails e >>= f = fails e

abbrev pub read_by {ℓ} : {A : Type ℓ} → Option A → Loaded A
read_by none = fails malformed
read_by (some a) = ok a

-- A member that must be there, and one that need not.
abbrev pub required {ℓ κ} :
    {N : Type ℓ} {A : Type κ} → String → Option (Option N) → (N → Option A) → Loaded A
required key none read = fails malformed
required key (some none) read = fails (missing key)
required key (some (some n)) read = read_by (read n)

abbrev pub optional {ℓ κ} :
    {N : Type ℓ} {A : Type κ} → Option (Option N) → (N → Option A) → A → Loaded A
optional none read default = fails malformed
optional (some none) read default = ok default
optional (some (some n)) read default = read_by (read n)

-- `<` on integers.
abbrev pub int_lt : ℤ → ℤ → Bool
int_lt (pos a) (pos b) = ltb a b
int_lt (pos a) (negsuc b) = false
int_lt (negsuc a) (pos b) = true
int_lt (negsuc a) (negsuc b) = ltb b a

-- `enum_map[key] = value`, in the order of the keys.
unfoldable pub put_enum : ℤ → String → List (ℤ × String) → List (ℤ × String)
put_enum k s [] = (k, s) ∷ []
put_enum k s ((j, t) ∷ m) =
    let rest = put_enum k s m in
    if int_lt j k then (j, t) ∷ rest else if int_eq j k then (k, s) ∷ m else (k, s) ∷ (j, t) ∷ m

module _ {n : Numbers} (s : Storage n) where
  open s use {documents, as_bool, as_double, Key, as_key, entries, one}
  open documents use {Node, Text, member, elements, as_text, as_int, parse}

  -- The loop over the entries of an enumeration.
  unfoldable pub load_entries : List (ℤ × String) → List (Key × Node) → Loaded (List (ℤ × String))
  load_entries m [] = ok m
  load_entries m ((key, value) ∷ es) = do
    k ← read_by (as_key key)
    v ← read_by (as_text value)
    load_entries (put_enum k v m) es

  abbrev load_map : Option (List (Key × Node)) → Loaded (List (ℤ × String))
  load_map none = ok []
  load_map (some es) = load_entries [] es

  abbrev pub load_enum : Option (Option Node) → Loaded (List (ℤ × String))
  load_enum none = fails malformed
  load_enum (some none) = ok []
  load_enum (some (some e)) = load_map (entries e)

  unfoldable pub load_mapping : Kind → Node → Loaded (VariableFields n)
  load_mapping kind v = do
    address ← required (address_key kind) (member (address_key kind) v) as_int
    data_type ← required "data_type" (member "data_type" v) as_text
    scale ← optional (member "scale" v) as_double one
    unit ← optional (member "unit" v) as_text ""
    enum_map ← load_enum (member "enum" v)
    ok (record {
      address = address;
      data_type = data_type;
      scale = scale;
      unit = unit;
      enum_map = enum_map;
    })

  unfoldable pub load_by_type : String → Node → Loaded (VariableMapping n)
  load_by_type type v =
      if str_eq type "modbus"
      then (do f ← load_mapping register_kind v; ok (modbus f))
      else if str_eq type "echonet_lite"
      then (do f ← load_mapping epc_kind v; ok (echonet_lite f))
      else fails (invalid_variable_type type)

  unfoldable pub load_variable : Node → Loaded (OcppVariable n)
  load_variable v = do
    name ← required "ocpp_name" (member "ocpp_name" v) as_text
    type ← required "type" (member "type" v) as_text
    read_only ← optional (member "read_only" v) as_bool false
    m ← load_by_type type v
    ok (record { ocpp_name = name; type = type; mapping = m; read_only = read_only })

  unfoldable pub load_variables : List Node → Loaded (List (OcppVariable n))
  load_variables [] = ok []
  load_variables (v ∷ vs) = do var ← load_variable v; vars ← load_variables vs; ok (var ∷ vars)

  abbrev pub load_list : Option (Option (List Node)) → Loaded (List (OcppVariable n))
  load_list none = fails malformed
  load_list (some none) = ok []
  load_list (some (some vs)) = load_variables vs

  abbrev pub load_variables_member : Option (Option Node) → Loaded (List (OcppVariable n))
  load_variables_member none = fails malformed
  load_variables_member (some none) = ok []
  load_variables_member (some (some vs)) = load_list (elements vs)

  -- A description that is not there leaves the one that the template had; a parent that is not there is reset.
  unfoldable pub load_template : Node → MappingTemplate n → Loaded (MappingTemplate n)
  load_template t old = do
    id ← required "id" (member "id" t) as_text
    description ← optional (member "description" t) as_text old.description
    parent_id ← optional (member "parent" t) (λ p. Option.map some (as_text p)) none
    variables ← load_variables_member (member "variables" t)
    ok (record { id = id; description = description; parent_id = parent_id; variables = variables })

  -- The code from the root node on.
  unfoldable pub load_root : Option Node → MappingTemplate n → Loaded (MappingTemplate n)
  load_root none old = fails malformed
  load_root (some root) old = do
    t ← required "template" (member "template" root) some
    load_template t old

  unfoldable pub load_from_yaml_string : Text → MappingTemplate n → Loaded (MappingTemplate n)
  load_from_yaml_string text old = load_root (parse text) old

  unfoldable pub load_from_json_string : Text → MappingTemplate n → Loaded (MappingTemplate n)
  load_from_json_string text old = load_root (parse text) old

  -- `none` is a file that cannot be opened.
  unfoldable pub load_from_yaml : Option Text → MappingTemplate n → Loaded (MappingTemplate n)
  load_from_yaml none old = fails malformed
  load_from_yaml (some text) old = load_root (parse text) old

  unfoldable pub load_from_json : Option Text → MappingTemplate n → Loaded (MappingTemplate n)
  load_from_json none old = fails malformed
  load_from_json (some text) old = load_root (parse text) old
