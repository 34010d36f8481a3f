-- ===== src/Mapping/Storage/Enums.antt =====
-- An enumeration loaded entry by entry.
use ocpp_gw.Base.{
  ℤ, String, ◌≡◌, refl, sym, ap, ◌∙◌, true, List, [], ◌∷◌, ◌++◌, append-nil, append_assoc, map, All,
  All-append,
}
use ocpp_gw.Mapping.Template.{Numbers}
use ocpp_gw.Mapping.Storage.{Storage, IsStorage}
use ocpp_gw.Mapping.Storage.Load.{ok, int_lt, put_enum, load_entries}

-- The keys increase, as they do in a `std::map`.
abbrev pub IsIncreasing : List (ℤ × String) → Type 0
IsIncreasing [] = Unit {0}
IsIncreasing (p ∷ ps) = All (λ q. int_lt p.0 q.0 ≡ true) ps × IsIncreasing ps

abbrev pub IsBelow : List (ℤ × String) → List (ℤ × String) → Type 0
IsBelow m ps = All (λ q. All (λ p. int_lt p.0 q.0 ≡ true) m) ps

put_enum-last :
    (k : ℤ) (s : String) (m : List (ℤ × String))
    → All (λ p. int_lt p.0 k ≡ true) m
    → put_enum k s m ≡ m ++ ((k, s) ∷ [])
unfolding put_enum
put_enum-last k s [] h = refl
put_enum-last k s ((j, t) ∷ m) (h, hs) = rw (put_enum, h) (ap (◌∷◌ (j, t)) (put_enum-last k s m hs))

IsBelow-snoc :
    (m ps : List (ℤ × String)) (p : ℤ × String)
    → IsBelow m ps
    → All (λ q. int_lt p.0 q.0 ≡ true) ps
    → IsBelow (m ++ (p ∷ [])) ps
IsBelow-snoc m [] p h k = tt
IsBelow-snoc m (q ∷ ps) p (h, hs) (k, ks) =
    (All-append (λ p. int_lt p.0 q.0 ≡ true) m (p ∷ []) h (k, tt), IsBelow-snoc m ps p hs ks)

-- The entries of an enumeration's node, in the order of the keys.
abbrev pub entries_of :
    {n : Numbers} (s : Storage n) → List (ℤ × String) → List (s.Key × s.documents.Node)
entries_of s m = map (λ p. (s.key_of p.0, s.documents.text_node p.1)) m

pub nothing-IsBelow : (ps : List (ℤ × String)) → IsBelow [] ps
nothing-IsBelow [] = tt
nothing-IsBelow (p ∷ ps) = (tt, nothing-IsBelow ps)

module _ {n : Numbers} (s : Storage n) (laws : IsStorage s) where
  open laws use {document_laws, as_key-key_of}
  open document_laws use {as_text-text_node}

  pub load_entries-entries_of :
      (m ps : List (ℤ × String))
      → IsBelow m ps
      → IsIncreasing ps
      → load_entries s m (entries_of s ps) ≡ ok (m ++ ps)
  unfolding load_entries
  load_entries-entries_of m [] b h = ap ok (sym (append-nil m))
  load_entries-entries_of m ((k, t) ∷ ps) (b, bs) (h, hs) =
      rw (load_entries, as_key-key_of k, as_text-text_node t, put_enum-last k t m b)
        (load_entries-entries_of (m ++ ((k, t) ∷ [])) ps (IsBelow-snoc m ps (k, t) bs h) hs
          ∙ ap ok (append_assoc m ((k, t) ∷ []) ps))
