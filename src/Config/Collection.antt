-- ===== src/Config/Collection.antt =====
-- `DeviceConfigCollection`: the list of devices, loaded and saved as a whole.
use ocpp_gw.Base.{
  String, Bool, true, false, Option, none, some, List, [], ◌∷◌, ◌++◌, str_eq, if◌then◌else◌,
}
use ocpp_gw.Config.Types.{ConfigError, DeviceConfig, default_device, validate}
use ocpp_gw.Config.Documents.{Documents}
use ocpp_gw.Config.Device.{
  Ending, thrown, refused, complete, failed, skipped, saved, load_fields, save_node,
}

unfoldable pub find_device : String → List DeviceConfig → Option DeviceConfig
find_device id [] = none
find_device id (d ∷ ds) = let later = find_device id ds in if str_eq d.id id then some d else later

unfoldable pub add_device : DeviceConfig → List DeviceConfig → List DeviceConfig
add_device d [] = d ∷ []
add_device d (e ∷ es) =
    let later = add_device d es in if str_eq e.id d.id then d ∷ es else e ∷ later

-- The devices afterwards, and the result.
unfoldable pub remove_device : String → List DeviceConfig → List DeviceConfig × Bool
remove_device id [] = ([], false)
remove_device id (d ∷ ds) =
    let later = remove_device id ds in if str_eq d.id id then (ds, true) else (d ∷ later.0, later.1)

-- The first error of a device.
unfoldable pub validate_all : List DeviceConfig → Option ConfigError
validate_all [] = none
validate_all (d ∷ ds) =
    let later = validate_all ds in elim (validate d) [ some e ↦ some e | none ↦ later ]

module _ (l : Documents) where
  open l use {Node, Text, mapping, sequence, member, elements, print, parse}

  -- What a device that has been read adds to the collection; `none` is an exception.
  unfoldable pub accepted : DeviceConfig × Ending → Option (List DeviceConfig)
  accepted (d, thrown) = none
  accepted (d, refused) = some []
  accepted (d, complete) = elim (validate d) [ some e ↦ some [] | none ↦ some (d ∷ []) ]

  -- The loop over the nodes: the devices so far, the devices at its end, and the result.
  unfoldable pub load_devices : List DeviceConfig → List Node → List DeviceConfig × Bool
  load_devices ds [] = (ds, true)
  load_devices ds (n ∷ ns) = elim (accepted (load_fields l n default_device)) [
    | none ↦ (ds, false)
    | some more ↦ load_devices (ds ++ more) ns
  ]

  unfoldable pub load_list :
      Option (Option (List Node)) → List DeviceConfig → List DeviceConfig × Bool
  load_list none ds = (ds, false)
  load_list (some none) ds = (ds, false)
  load_list (some (some ns)) ds = load_devices [] ns

  -- The code from the root node on.
  unfoldable pub load_root : Option Node → List DeviceConfig → List DeviceConfig × Bool
  load_root none ds = (ds, false)
  load_root (some root) ds = elim (member "devices" root) [
    | none ↦ (ds, false)
    | some none ↦ (ds, false)
    | some (some n) ↦ load_list (elements n) ds
  ]

  unfoldable pub load_from_yaml_string : Text → List DeviceConfig → List DeviceConfig × Bool
  load_from_yaml_string text ds = load_root (parse text) ds

  unfoldable pub load_from_json_string : Text → List DeviceConfig → List DeviceConfig × Bool
  load_from_json_string text ds = load_root (parse text) ds

  unfoldable pub load_from_yaml : Option Text → List DeviceConfig → List DeviceConfig × Bool
  load_from_yaml none ds = (ds, false)
  load_from_yaml (some text) ds = load_root (parse text) ds

  unfoldable pub load_from_json : Option Text → List DeviceConfig → List DeviceConfig × Bool
  load_from_json none ds = (ds, false)
  load_from_json (some text) ds = load_root (parse text) ds

  -- The loop that makes the nodes; `none` is an exception.
  unfoldable pub save_nodes : List DeviceConfig → Option (List Node)
  save_nodes [] = some []
  save_nodes (d ∷ ds) =
      let rest = save_nodes ds in
      elim (save_node l d) [
        | failed ↦ none
        | skipped ↦ rest
        | saved n ↦ elim rest [ none ↦ none | some ns ↦ some (n ∷ ns) ]
      ]

  abbrev pub write : Bool → Option (List Node) → Option Text
  write opens none = none
  write opens (some ns) =
      if opens then some (print (mapping (("devices", sequence ns) ∷ []))) else none

  unfoldable pub save_to_yaml : Bool → List DeviceConfig → Option Text
  save_to_yaml opens ds = write opens (save_nodes ds)

  unfoldable pub save_to_json : Bool → List DeviceConfig → Option Text
  save_to_json opens ds = write opens (save_nodes ds)
