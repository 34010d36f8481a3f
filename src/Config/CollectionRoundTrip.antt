-- ===== src/Config/CollectionRoundTrip.antt =====
-- A collection that is saved and loaded, and what a collection holds after it is loaded.
use ocpp_gw.Base.{
  ◌≡◌, ◌≢◌, ◌⊎◌, inl, inr, refl, sym, ap, ◌∙◌, subst, Bool, true, false, Option, Option-cases, none,
  some, List, [], ◌∷◌, ◌++◌, append-nil, append_assoc, All, All-append, arith,
}
use ocpp_gw.Config.Types.{DeviceConfig, default_device, validate}
use ocpp_gw.Config.Documents.{Documents, IsDocuments}
use ocpp_gw.Config.Device.{Ending, thrown, refused, complete, load_fields}
use ocpp_gw.Config.Collection.{
  accepted, load_devices, load_list, load_root, load_from_yaml_string, load_from_yaml,
  load_from_json_string, load_from_json, write, save_nodes, save_to_yaml, save_to_json,
}
use ocpp_gw.Config.RoundTrip.{node_back}

abbrev pub AllValid : List DeviceConfig → Type 0
AllValid ds = All (λ d. validate d ≡ none) ds

-- What loading may leave: valid devices, or, when it fails, what there was.
abbrev pub KeepsValid : List DeviceConfig → List DeviceConfig × Bool → Type 0
KeepsValid old (ds, true) = AllValid ds
KeepsValid old (ds, false) = (ds ≡ old) ⊎ AllValid ds

-- An empty collection is read back only where the node it is saved as counts as a sequence.
abbrev pub IsListable : Documents → List DeviceConfig → Type 0
IsListable l ds = (ds ≢ []) ⊎ (l.elements (l.sequence []) ≡ some (some []))

module _ (l : Documents) where
  open l use {Node, Text, mapping, sequence, elements, member, print, parse}

  accepted-AllValid :
      (r : DeviceConfig × Ending) (more : List DeviceConfig)
      → accepted l r ≡ some more
      → AllValid more
  unfolding accepted
  accepted-AllValid (d, thrown) more h = absurd (ground arith)
  accepted-AllValid (d, refused) more h = subst AllValid {x = []} (ground arith) tt
  accepted-AllValid (d, complete) more h = elim (Option-cases (validate d)) [
    | inl e ↦ subst AllValid {x = d ∷ []} (ground arith) (e, tt)
    | inr (x, e) ↦ subst AllValid {x = []} (ground arith) tt
  ]

  load_devices-AllValid :
      (ds : List DeviceConfig) (ns : List Node) → AllValid ds → AllValid (load_devices l ds ns).0
  unfolding load_devices
  load_devices-AllValid ds [] h = h
  load_devices-AllValid ds (n ∷ ns) h =
      elim (Option-cases (accepted l (load_fields l n default_device))) [
        | inl e ↦ rw (load_devices, e) h
        | inr (more, e) ↦
            rw (load_devices, e)
              (load_devices-AllValid (ds ++ more) ns (
                All-append (λ d. validate d ≡ none) ds more h
                  (accepted-AllValid (load_fields l n default_device) more e)))
      ]

  AllValid-KeepsValid :
      (old : List DeviceConfig) (r : List DeviceConfig × Bool) → AllValid r.0 → KeepsValid old r
  AllValid-KeepsValid old (ds, true) h = h
  AllValid-KeepsValid old (ds, false) h = inr h

  load_list-KeepsValid :
      (o : Option (Option (List Node))) (old : List DeviceConfig)
      → KeepsValid old (load_list l o old)
  unfolding load_list
  load_list-KeepsValid none old = inl refl
  load_list-KeepsValid (some none) old = inl refl
  load_list-KeepsValid (some (some ns)) old =
      AllValid-KeepsValid old (load_devices l [] ns) (load_devices-AllValid [] ns tt)

  load_member-KeepsValid :
      (o : Option (Option Node)) (root : Node) (old : List DeviceConfig)
      → member "devices" root ≡ o
      → KeepsValid old (load_root l (some root) old)
  unfolding load_root
  load_member-KeepsValid none root old e = rw (load_root, e) (inl refl)
  load_member-KeepsValid (some none) root old e = rw (load_root, e) (inl refl)
  load_member-KeepsValid (some (some n)) root old e =
      rw (load_root, e) (load_list-KeepsValid (elements n) old)

  load_root-KeepsValid :
      (o : Option Node) (old : List DeviceConfig) → KeepsValid old (load_root l o old)
  unfolding load_root
  load_root-KeepsValid none old = inl refl
  load_root-KeepsValid (some root) old =
      load_member-KeepsValid (member "devices" root) root old refl

  -- Whatever the library makes of the file or the text: when the collection reports success, each of its devices
  -- passes validation; when it reports failure, its devices are those it had before, or pass validation.
  pub load-KeepsValid :
      (file : Option Text) (text : Text) (old : List DeviceConfig)
      → KeepsValid old (load_from_yaml l file old)
        × (KeepsValid old (load_from_yaml_string l text old)
            × (KeepsValid old (load_from_json l file old)
                × KeepsValid old (load_from_json_string l text old)))
  unfolding load_from_yaml load_from_yaml_string load_from_json load_from_json_string
  load-KeepsValid none text old = (
    inl refl,
    (load_root-KeepsValid (parse text) old, (inl refl, load_root-KeepsValid (parse text) old)),
  )
  load-KeepsValid (some file) text old = (
    load_root-KeepsValid (parse file) old,
    (
      load_root-KeepsValid (parse text) old,
      (load_root-KeepsValid (parse file) old, load_root-KeepsValid (parse text) old),
    ),
  )

  module _ (laws : IsDocuments l) where
    open laws use {member-mapping, elements-sequence, parse-print}

    accepted_valid :
        (d : DeviceConfig) → validate d ≡ none → accepted l (d, complete) ≡ some (d ∷ [])
    unfolding accepted
    accepted_valid d h = rw (accepted, h) refl

    load_devices-saved :
        (ds : List DeviceConfig)
        → AllValid ds
        → (ns : List Node) × ((save_nodes l ds ≡ some ns)
            × (((before : List DeviceConfig) → load_devices l before ns ≡ (before ++ ds, true))
                × (IsListable l ds → elements (sequence ns) ≡ some (some ns))))
    unfolding save_nodes load_devices
    load_devices-saved [] h = (
      [],
      (
        refl,
        (
          λ before. ap (λ x. (x, true)) (sym (append-nil before)),
          λ some_. elim some_ [ inl filled ↦ absurd (filled refl) | inr e ↦ e ],
        ),
      ),
    )
    load_devices-saved (d ∷ ds) (v, vs) =
        let (n, (s, b)) = node_back l laws d default_device v in
        let (ns, (ss, (bs, listed))) = load_devices-saved ds vs in
        (
          n ∷ ns,
          (
            rw (save_nodes, s, ss) refl,
            (
              λ before.
                  rw (load_devices, b, accepted_valid d v)
                    (bs (before ++ (d ∷ []))
                      ∙ ap (λ x. (x, true)) (append_assoc before (d ∷ []) ds)),
              λ some_. elements-sequence n ns,
            ),
          ),
        )

    root_back :
        (ds old : List DeviceConfig)
        → AllValid ds
        → IsListable l ds
        → (text : Text) × ((write l true (save_nodes l ds) ≡ some text)
            × (load_root l (parse text) old ≡ (ds, true)))
    unfolding load_root load_list
    root_back ds old h some_ =
        let (ns, (s, (b, listed))) = load_devices-saved ds h in
        let root = ("devices", sequence ns) ∷ [] in
        (
          print (mapping root),
          (
            rw s refl,
            rw (parse-print (mapping root), load_root, member-mapping "devices" root, listed some_)
                (b []),
          ),
        )

-- A collection of valid devices is saved as YAML and as JSON when the file opens; and loading the file, or its
-- text, into any collection reports success and leaves the same devices in the same order. (An empty collection
-- must be one that the library saves as a sequence.)
pub load-save_all :
    (yaml json : Documents) (ds old : List DeviceConfig)
    → IsDocuments yaml
    → IsDocuments json
    → AllValid ds
    → IsListable yaml ds
    → IsListable json ds
    → ((text : yaml.Text) × ((save_to_yaml yaml true ds ≡ some text)
          × ((load_from_yaml yaml (some text) old ≡ (ds, true))
              × (load_from_yaml_string yaml text old ≡ (ds, true)))))
      × ((text : json.Text) × ((save_to_json json true ds ≡ some text)
            × ((load_from_json json (some text) old ≡ (ds, true))
                × (load_from_json_string json text old ≡ (ds, true)))))
unfolding save_to_yaml save_to_json load_from_yaml load_from_yaml_string load_from_json
    load_from_json_string
load-save_all yaml json ds old y j h ly lj =
    let (text, (s, b)) = root_back yaml y ds old h ly in
    let (text', (s', b')) = root_back json j ds old h lj in
    ((text, (s, (b, b))), (text', (s', (b', b'))))
