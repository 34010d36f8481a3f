-- ===== src/Config/Table.antt =====
-- The collection of devices as a table under their identifiers.
use ocpp_gw.Base.{
  String, ◌≡◌, refl, none, some, is_some, List, [], ◌∷◌, str_eq, eq_iff, if◌then◌else◌, arith,
}
use ocpp_gw.Config.Types.{DeviceConfig}
use ocpp_gw.Config.Collection.{find_device, add_device, remove_device}

-- No two devices have one identifier.
abbrev pub IsDistinct : List DeviceConfig → Type 0
IsDistinct [] = Unit {0}
IsDistinct (d ∷ ds) = (find_device d.id ds ≡ none) × IsDistinct ds

find_device-add_device :
    (k : String) (d : DeviceConfig) (ds : List DeviceConfig)
    → find_device k (add_device d ds) ≡ (if str_eq d.id k then some d else find_device k ds)
unfolding find_device add_device
find_device-add_device k d [] = refl
find_device-add_device k d (e ∷ es) =
    ground (arith, find_device-add_device k d es, eq_iff e.id d.id, eq_iff e.id k, eq_iff d.id k)

find_device-remove_device :
    (k id : String) (ds : List DeviceConfig)
    → IsDistinct ds
    → find_device k (remove_device id ds).0 ≡ (if str_eq id k then none else find_device k ds)
unfolding find_device remove_device
find_device-remove_device k id [] h = ground arith
find_device-remove_device k id (e ∷ es) (h, hs) =
    ground (arith, find_device-remove_device k id es hs, eq_iff e.id id, eq_iff e.id k, eq_iff id k)

remove_device-found :
    (id : String) (ds : List DeviceConfig) → (remove_device id ds).1 ≡ is_some (find_device id ds)
unfolding find_device remove_device
remove_device-found id [] = refl
remove_device-found id (e ∷ es) = ground (arith, remove_device-found id es)

add_device-IsDistinct :
    (d : DeviceConfig) (ds : List DeviceConfig) → IsDistinct ds → IsDistinct (add_device d ds)
unfolding find_device add_device
add_device-IsDistinct d [] h = (refl, tt)
add_device-IsDistinct d (e ∷ es) (h, hs) = ground (
  arith,
  add_device-IsDistinct d es hs,
  find_device-add_device e.id d es,
  eq_iff e.id d.id,
  eq_iff d.id e.id,
)

remove_device-IsDistinct :
    (id : String) (ds : List DeviceConfig) → IsDistinct ds → IsDistinct (remove_device id ds).0
unfolding find_device remove_device
remove_device-IsDistinct id [] h = tt
remove_device-IsDistinct id (e ∷ es) (h, hs) =
    ground (arith, remove_device-IsDistinct id es hs, find_device-remove_device e.id id es hs)

-- In a collection with no identifier twice, which both operations keep so: after a device is added, its
-- identifier finds it and any other finds what it found; after one is removed, its identifier finds nothing and
-- any other what it found; and the removal reports whether there was one.
pub find_device_lem :
    (k : String) (d : DeviceConfig) (id : String) (ds : List DeviceConfig)
    → IsDistinct ds
    → ((find_device k (add_device d ds) ≡ (if str_eq d.id k then some d else find_device k ds))
        × IsDistinct (add_device d ds))
      × ((find_device k (remove_device id ds).0 ≡ (if str_eq id k then none else find_device k ds))
          × (((remove_device id ds).1 ≡ is_some (find_device id ds))
              × IsDistinct (remove_device id ds).0))
find_device_lem k d id ds h = (
  (find_device-add_device k d ds, add_device-IsDistinct d ds h),
  (
    find_device-remove_device k id ds h,
    (remove_device-found id ds, remove_device-IsDistinct id ds h),
  ),
)
