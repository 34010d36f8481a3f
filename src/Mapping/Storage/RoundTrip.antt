-- ===== src/Mapping/Storage/RoundTrip.antt =====
-- A template that is saved and loaded.
use ocpp_gw.Base.{
  String, ◌≡◌, inl, inr, refl, Bool-cases, true, not, Option, none, some, List, [], ◌∷◌, str_eq,
  if◌then◌else◌,
}
use mathlib.Core.Option
use ocpp_gw.Mapping.Template.{Numbers, MappingTemplate}
use ocpp_gw.Mapping.Storage.{Storage, IsStorage}
use ocpp_gw.Mapping.Storage.Load.{
  ok, optional, load_list, load_template, load_root, load_from_yaml, load_from_yaml_string,
  load_from_json, load_from_json_string,
}
use ocpp_gw.Mapping.Storage.Save.{
  save_variables, template_members, write, save_to_yaml, save_to_json,
}
use ocpp_gw.Mapping.Storage.Members.{given, has_id, has_description, has_parent, has_variables}
use ocpp_gw.Mapping.Storage.Variables.{AllStorable, variables_back}

-- What a template becomes when another is loaded into it.
abbrev pub after : {n : Numbers} → MappingTemplate n → MappingTemplate n → MappingTemplate n
after t old = record t {
  description = if str_eq t.description "" then old.description else t.description;
}

module _ {n : Numbers} (s : Storage n) where
  open s use {documents}
  open documents use {Node, Text, text_node, mapping, sequence, elements, as_text, print, parse}

  module _ (laws : IsStorage s) where
    open laws use {document_laws}
    open document_laws use {as_text-text_node, member-mapping, parse-print}

    description_back :
        (x old : String)
        → optional (some (given (not (str_eq x "")) (text_node x))) as_text old
          ≡ ok (if str_eq x "" then old else x)
    description_back x old = elim (Bool-cases (str_eq x "")) [
      | inl e ↦ rw e refl
      | inr e ↦ rw (e, as_text-text_node x) refl
    ]

    parent_back :
        (p : Option String)
        → optional (some (Option.map text_node p)) (λ x. Option.map some (as_text x)) none ≡ ok p
    parent_back none = refl
    parent_back (some p) = rw (as_text-text_node p) refl

    template_back :
        (t old : MappingTemplate n) (nodes : List Node)
        → load_list s (elements (sequence nodes)) ≡ ok t.variables
        → load_template s (mapping (template_members s t nodes)) old ≡ ok (after t old)
    unfolding load_template
    template_back t old nodes h =
        let ms = template_members s t nodes in
        rw (load_template, member-mapping "id" ms, has_id s t nodes, as_text-text_node t.id)
          (rw
            (
              member-mapping "description" ms,
              has_description s t nodes,
              description_back t.description old.description,
            )
            (rw (member-mapping "parent" ms, has_parent s t nodes, parent_back t.parent_id)
              (rw (member-mapping "variables" ms, has_variables s t nodes, h) refl)))

    root_back :
        (t old : MappingTemplate n)
        → AllStorable s t
        → (text : Text) × ((write s true t (save_variables s t.variables) ≡ some text)
            × (load_root s (parse text) old ≡ ok (after t old)))
    unfolding load_root
    root_back t old h =
        let (nodes, (w, (_, r))) = variables_back s laws t.variables h in
        let node = mapping (template_members s t nodes) in
        let root = ("template", node) ∷ [] in
        (
          print (mapping root),
          (
            rw w refl,
            rw (parse-print (mapping root), load_root, member-mapping "template" root)
                (template_back t old nodes r),
          ),
        )

-- A template, each of whose variables has a mapping of the kind of its type with an enumeration that the library
-- keeps, is saved as YAML and as JSON when the file opens; and loading the file, or its text, into any template
-- gives the template that was saved, but for an empty description, which leaves the one that was there.
pub load_template-save :
    {n : Numbers} (yaml json : Storage n) (t old : MappingTemplate n)
    → IsStorage yaml
    → IsStorage json
    → AllStorable yaml t
    → AllStorable json t
    → ((text : yaml.documents.Text) × ((save_to_yaml yaml true t ≡ some text)
          × ((load_from_yaml yaml (some text) old ≡ ok (after t old))
              × (load_from_yaml_string yaml text old ≡ ok (after t old)))))
      × ((text : json.documents.Text) × ((save_to_json json true t ≡ some text)
            × ((load_from_json json (some text) old ≡ ok (after t old))
                × (load_from_json_string json text old ≡ ok (after t old)))))
unfolding save_to_yaml save_to_json load_from_yaml load_from_yaml_string load_from_json
    load_from_json_string
load_template-save yaml json t old y j hy hj =
    let (text, (w, r)) = root_back yaml y t old hy in
    let (text', (w', r')) = root_back json j t old hj in
    ((text, (w, (r, r))), (text', (w', (r', r'))))
