-- ===== src/Config/Documents.antt =====
-- What the configuration uses of yaml-cpp and of jsoncpp, as parameters: nodes, their construction and
-- inspection, and the two ways between nodes and text. One record serves for both libraries.
use ocpp_gw.Base.{ℤ, String, ◌≡◌, Option, none, some, List, [], ◌∷◌, str_eq, if◌then◌else◌}

-- Nodes are taken up to what the operations tell of them: a scalar that is written and read again is the same
-- node. The outer `none` of `member` and `elements`, and that of `as_text` and `as_int`, is an exception.
pub record Documents : Type 1 where
  pub Node : Type 0
  pub Text : Type 0
  pub text_node : String → Node
  pub int_node : ℤ → Node
  -- a new node with these members assigned in this order
  pub mapping : List (String × Node) → Node
  -- the node that holds a list before anything is appended to it, with these elements appended
  pub sequence : List Node → Node
  -- `isMember` or the test of `operator[]`, with the member
  pub member : String → Node → Option (Option Node)
  -- `isArray` or `IsSequence`, with the elements
  pub elements : Node → Option (Option (List Node))
  pub as_text : Node → Option String
  pub as_int : Node → Option ℤ
  pub print : Node → Text
  pub parse : Text → Option Node

-- The last member assigned under a key.
abbrev pub assigned {ℓ} : {A : Type ℓ} → String → List (String × A) → Option A
assigned k [] = none
assigned k ((j, v) ∷ ms) = elim (assigned k ms) [
  | some w ↦ some w
  | none ↦ if str_eq j k then some v else none
]

-- What the libraries document of them.
pub record IsDocuments (l : Documents) : Type 0 where
  pub as_text-text_node : (s : String) → l.as_text (l.text_node s) ≡ some s
  pub as_int-int_node : (n : ℤ) → l.as_int (l.int_node n) ≡ some n
  pub member-mapping :
      (k : String) (ms : List (String × l.Node)) → l.member k (l.mapping ms) ≡ some (assigned k ms)
  pub elements-sequence :
      (n : l.Node) (ns : List l.Node) → l.elements (l.sequence (n ∷ ns)) ≡ some (some (n ∷ ns))
  pub parse-print : (n : l.Node) → l.parse (l.print n) ≡ some n
