-- ===== src/Echonet/Requests.antt =====
-- The request frames that the factories build, as a device reads them.
use ocpp_gw.Base.{
  ℕ, ◌<◌, ◌≡◌, refl, sym, ap, ◌∙◌, some, List, [], ◌∷◌, append-nil, length, map, All, arith, inl,
}
use ocpp_gw.Echonet.Frame.{
  Property, Frame, serialize, deserialize, create_get_property_frame, create_set_property_frame,
}
use ocpp_gw.Echonet.Codec.{IsCounted, IsWellFormed, deserialize-serialize}

abbrev asked : ℕ → Property
asked epc = record { epc = epc; pdc = 0; edt = [] }

length-asked : (epcs : List ℕ) → length (map asked epcs) ≡ length epcs
length-asked [] = refl
length-asked (e ∷ es) = omega (arith, length-asked es)

asked-IsCounted : (epcs : List ℕ) → All IsCounted (map asked epcs)
asked-IsCounted [] = tt
asked-IsCounted (e ∷ es) = (refl, asked-IsCounted es)

read_back : (f : Frame) → IsWellFormed f → deserialize (serialize f) ≡ some f
read_back f w = ap deserialize (sym (append-nil (serialize f))) ∙ deserialize-serialize f [] w

-- A get request for at most 255 properties, sent with a 16-bit TID, is read back with its TID, its
-- destination and the properties asked for; the counter, which the factory leaves 0, is then their number.
pub deserialize-create_get_property_frame :
    (tid group class instance : ℕ) (epcs : List ℕ)
    → tid < 65536
    → length epcs < 256
    → let f = record (create_get_property_frame group class instance epcs) { tid = tid } in
      deserialize (serialize f) ≡ some (record f { opc = length epcs })
unfolding create_get_property_frame serialize
deserialize-create_get_property_frame tid group class instance epcs h k =
    read_back
      (record (create_get_property_frame group class instance epcs) {
        tid = tid;
        opc = length epcs;
      })
      (record {
        known_ehd1 = refl;
        known_ehd2 = inl refl;
        tid_fits = h;
        opc_counts = sym (length-asked epcs);
        opc_fits = k;
        counted = asked-IsCounted epcs;
      })

-- A set request of at most 255 bytes, sent with a 16-bit TID, is read back with its TID, its destination
-- and its one property; the counter, which the factory leaves 0, is then 1.
pub deserialize-create_set_property_frame :
    (tid group class instance epc : ℕ) (edt : List ℕ)
    → tid < 65536
    → length edt < 256
    → let f = record (create_set_property_frame group class instance epc edt) { tid = tid } in
      deserialize (serialize f) ≡ some (record f { opc = 1 })
unfolding create_set_property_frame serialize
deserialize-create_set_property_frame tid group class instance epc edt h k =
    read_back
      (record (create_set_property_frame group class instance epc edt) { tid = tid; opc = 1 })
      (record {
        known_ehd1 = refl;
        known_ehd2 = inl refl;
        tid_fits = h;
        opc_counts = refl;
        opc_fits = omega arith;
        counted = (omega arith, tt);
      })
