-- ===== src/Config/ToyDocuments.antt =====
-- A small library of documents, in which the text of a node is the node itself.
use ocpp_gw.Base.{
  ℕ, ℤ, String, ◌≡◌, refl, ap, Bool, Option, none, some, List, [], ◌∷◌, str_eq, if◌then◌else◌,
}
use ocpp_gw.Config.Documents.{Documents, IsDocuments, assigned}

pub data Tree : Type 0 where
  end : Tree
  word : String → Tree
  number : ℤ → Tree
  field : String → Tree → Tree → Tree
  item : Tree → Tree → Tree
  flag : Bool → Tree
  amount : ℕ → Tree
  entry : ℤ → Tree → Tree → Tree

abbrev fields : List (String × Tree) → Tree
fields [] = end
fields ((k, v) ∷ ms) = field k v (fields ms)

abbrev items : List Tree → Tree
items [] = end
items (t ∷ ts) = item t (items ts)

abbrev field_of : String → Tree → Option Tree
field_of k (field j v rest) = elim (field_of k rest) [
  | some w ↦ some w
  | none ↦ if str_eq j k then some v else none
]
field_of k _ = none

abbrev items_of : Tree → List Tree
items_of (item t rest) = t ∷ items_of rest
items_of _ = []

abbrev elements_of : Tree → Option (Option (List Tree))
elements_of (item t rest) = some (some (t ∷ items_of rest))
elements_of _ = some none

abbrev word_of : Tree → Option String
word_of (word s) = some s
word_of _ = none

abbrev number_of : Tree → Option ℤ
number_of (number n) = some n
number_of _ = none

abbrev pub trees : Documents
trees = record {
  Node = Tree;
  Text = Tree;
  text_node = word;
  int_node = number;
  mapping = fields;
  sequence = items;
  member = λ k t. some (field_of k t);
  elements = elements_of;
  as_text = word_of;
  as_int = number_of;
  print = λ t. t;
  parse = λ t. some t;
}

field_of-fields : (k : String) (ms : List (String × Tree)) → field_of k (fields ms) ≡ assigned k ms
field_of-fields k [] = refl
field_of-fields k ((j, v) ∷ ms) = rw (field_of-fields k ms) refl

items_of-items : (ts : List Tree) → items_of (items ts) ≡ ts
items_of-items [] = refl
items_of-items (t ∷ ts) = ap (◌∷◌ t) (items_of-items ts)

pub trees-IsDocuments : IsDocuments trees
trees-IsDocuments = record {
  as_text-text_node = λ s. refl;
  as_int-int_node = λ n. refl;
  member-mapping = λ k ms. ap some (field_of-fields k ms);
  elements-sequence = λ n ns. ap (λ ts. some (some (n ∷ ts))) (items_of-items ns);
  parse-print = λ n. refl;
}
