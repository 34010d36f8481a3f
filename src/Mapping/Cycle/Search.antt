-- ===== src/Mapping/Cycle/Search.antt =====
-- What the search for a cycle tells, and what it leaves marked.
use ocpp_gw.Base.{
  ℕ, zero, suc, String, ◌≡◌, ◌⊎◌, inl, inr, refl, sym, ◌∙◌, subst, Bool, Bool-cases, true, false,
  Option, none, some, List, [], ◌∷◌, str_eq, eq_iff, if◌then◌else◌, arith,
}
use ocpp_gw.Mapping.Cycle.{
  Dependencies, member, without, neighbors, Marks, enter, leave, then_scan, scan, has_cycle,
}
use ocpp_gw.Mapping.Cycle.Walks.{Edge, Walk, one, Ends, ends, Walk-snoc}

pub member-without :
    (x u : String) (xs : List String)
    → member u (without x xs) ≡ (if str_eq x u then false else member u xs)
unfolding without
member-without x u [] = ground arith
member-without x u (y ∷ ys) =
    ground (arith, member-without x u ys, eq_iff y x, eq_iff y u, eq_iff x u)

module _ (g : Dependencies) where
  -- Every walk ends from a name that is visited and is not on the path; the path is visited.
  pub record IsMarked (m : Marks) : Type 0 where
    pub done : (u : String) → member u m.visited ≡ true → member u m.path ≡ false → Ends g u
    pub on_path : (u : String) → member u m.path ≡ true → member u m.visited ≡ true

  -- What holds after a search that found no cycle.
  pub record Leaves (m m' : Marks) : Type 0 where
    pub marked : IsMarked m'
    pub same_path : (u : String) → member u m'.path ≡ member u m.path

  -- What a search tells: a cycle, or that every walk from some names ends.
  abbrev pub Tells : Marks → Type 0 → Option (Bool × Marks) → Type 0
  Tells m P none = Unit
  Tells m P (some (true, m')) = (u : String) × Walk g u u
  Tells m P (some (false, m')) = Leaves m m' × P

  -- Each name on the path leads to the name at hand.
  abbrev pub LeadsTo : Marks → String → Type 0
  LeadsTo m v = (u : String) → member u m.path ≡ true → Walk g u v

  abbrev pub Visits : (String → Marks → Option (Bool × Marks)) → Type 0
  Visits visit =
      (v : String) (m : Marks)
      → IsMarked m
      → member v m.path ≡ false
      → LeadsTo m v
      → Tells m (Ends g v) (visit v m)

  enter-IsMarked : (v : String) (m : Marks) → IsMarked m → IsMarked (enter v m)
  enter-IsMarked v m h = record {
    done = λ u a b. h.done u (ground arith) (ground arith);
    on_path = λ u a. ground (arith, h.on_path u);
  }

  Leaves-trans : (m m' m'' : Marks) → Leaves m m' → Leaves m' m'' → Leaves m m''
  Leaves-trans m m' m'' a b = record {
    marked = b.marked;
    same_path = λ u. b.same_path u ∙ a.same_path u;
  }

  -- The names of a list, all of which the name at hand depends on.
  abbrev Ended : List String → Type 0
  Ended xs = (x : String) → member x xs ≡ true → Ends g x

  Tells-then_scan :
      (m : Marks) (P Q : Type 0) (r : Option (Bool × Marks)) (next : Marks → Option (Bool × Marks))
      → Tells m P r
      → ((m' : Marks) → Leaves m m' → P → Tells m' Q (next m'))
      → Tells m (P × Q) (then_scan r next)
  Tells-then_scan m P Q none next h k = tt
  Tells-then_scan m P Q (some (true, m')) next h k = h
  Tells-then_scan m P Q (some (false, m')) next (l, p) k = go (next m') (k m' l p)
    where
      go : (r : Option (Bool × Marks)) → Tells m' Q r → Tells m (P × Q) r
      go none h = tt
      go (some (true, m'')) h = h
      go (some (false, m'')) (l', q) = (Leaves-trans m m' m'' l l', (p, q))

  Tells-map :
      (m : Marks) (P Q : Type 0) (r : Option (Bool × Marks)) → (P → Q) → Tells m P r → Tells m Q r
  Tells-map m P Q none f h = tt
  Tells-map m P Q (some (true, m')) f h = h
  Tells-map m P Q (some (false, m')) f (l, p) = (l, f p)

  scan-Tells :
      (visit : String → Marks → Option (Bool × Marks)) (v : String) (m : Marks) (xs : List String)
      → Visits visit
      → IsMarked m
      → ((x : String) → member x xs ≡ true → Edge g v x)
      → ((u : String) → member u m.path ≡ true → (u ≡ v) ⊎ Walk g u v)
      → Tells m (Ended xs) (scan visit m xs)
  unfolding scan
  scan-Tells visit v m [] visits h edges leads =
      (record { marked = h; same_path = λ u. refl }, λ x e. absurd (ground arith))
  scan-Tells visit v m (x ∷ xs) visits h edges leads = elim (Bool-cases (member x m.path)) [
    | inl back ↦ rw (scan, back) (x, closing (leads x back))
    | inr free ↦
        rw (scan, free)
          (Tells-map m (Ends g x × Ended xs) (Ended (x ∷ xs))
            (then_scan (visit x m) (λ m'. scan visit m' xs))
            (λ (e, es). λ y a. elim (Bool-cases (str_eq x y)) [
              | inl same ↦ subst (Ends g) ((eq_iff x y).0 same) e
              | inr other ↦ es y (ground arith)
            ])
            (Tells-then_scan m (Ends g x) (Ended xs) (visit x m) (λ m'. scan visit m' xs)
              (visits x m h free (λ u a. follow u (leads u a)))
              (λ m' l p.
                scan-Tells visit v m' xs visits l.marked (λ y a. edges y (ground arith))
                  (λ u a. leads u (sym (l.same_path u) ∙ a)))))
  ]
    where
      edge : Edge g v x
      edge = edges x (ground (arith, eq_iff x x))

      closing : (x ≡ v) ⊎ Walk g x v → Walk g x x
      closing (inl e) = one (subst (λ y. Edge g y x) (sym e) edge)
      closing (inr w) = Walk-snoc g w edge

      follow : (u : String) → (u ≡ v) ⊎ Walk g u v → Walk g u x
      follow u (inl e) = one (subst (λ y. Edge g y x) (sym e) edge)
      follow u (inr w) = Walk-snoc g w edge

  -- After the neighbors of a name, the name itself is done.
  leave-Tells :
      (v : String) (m : Marks) (r : Option (Bool × Marks))
      → member v m.path ≡ false
      → Tells (enter v m) (Ended (neighbors g v)) r
      → Tells m (Ends g v) (leave v r)
  leave-Tells v m none off h = tt
  leave-Tells v m (some (true, m')) off h = h
  leave-Tells v m (some (false, m')) off (l, es) =
      let e = ends es in
      (
        record {
          marked = record {
            done = λ u a b. elim (Bool-cases (str_eq v u)) [
              | inl same ↦ subst (Ends g) ((eq_iff v u).0 same) e
              | inr other ↦ l.marked.done u a (ground (arith, member-without v u m'.path))
            ];
            on_path = λ u a. l.marked.on_path u (ground (arith, member-without v u m'.path));
          };
          same_path = λ u. ground (arith, member-without v u m'.path, l.same_path u, eq_iff v u);
        },
        e,
      )

  -- The search from a name, started on marks that mean what they should, and with a path that leads to the name:
  -- if it reports a cycle there is one, and if it reports none, every walk from the name ends.
  pub has_cycle-Tells : (fuel : ℕ) → Visits (has_cycle fuel g)
  unfolding has_cycle
  has_cycle-Tells zero v m h off leads = tt
  has_cycle-Tells (suc fuel) v m h off leads = elim (Bool-cases (member v m.visited)) [
    | inl seen ↦
        rw (has_cycle, seen) (record { marked = h; same_path = λ u. refl }, h.done v seen off)
    | inr fresh ↦
        rw (has_cycle, fresh)
          (leave-Tells v m (scan (has_cycle fuel g) (enter v m) (neighbors g v)) off (
            scan-Tells (has_cycle fuel g) v (enter v m) (neighbors g v) (has_cycle-Tells fuel)
              (enter-IsMarked v m h) (λ x a. a)
              (λ u a. elim (Bool-cases (str_eq v u)) [
                | inl same ↦ inl (sym ((eq_iff v u).0 same))
                | inr other ↦ inr (leads u (ground arith))
              ])))
  ]
