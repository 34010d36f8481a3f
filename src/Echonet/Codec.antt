-- ===== src/Echonet/Codec.antt =====
-- `serialize` and `deserialize` are inverse on well-formed frames.
use mathlib.Core.Option.{some-injective}
use ocpp_gw.Base.{
  ℕ, zero, suc, ◌≤◌, ◌<◌, ◌≡◌, refl, sym, subst, ◌∙◌, ◌⊎◌, inl, inr, false, some, Option-cases,
  List, [], ◌∷◌, ◌++◌, ltb, length, length-append, length-take, drop, take, take-length-append,
  drop-length-append, take-append-drop, All, append_assoc, arith,
}
use ocpp_gw.Echonet.Frame.{
  Property, Frame, read_header, serialize, serialize_properties, deserialize,
  deserialize_properties,
}

-- A property whose counter is the number of its bytes.
abbrev pub IsCounted : Property → Type 0
IsCounted p = p.pdc ≡ length p.edt

-- A frame that the format can carry: a known header, a 16-bit TID, at most 255 properties, each with
-- its counter, and `opc` their number.
pub record IsWellFormed (f : Frame) : Type 0 where
  pub known_ehd1 : f.ehd1 ≡ 0x10
  pub known_ehd2 : (f.ehd2 ≡ 0x81) ⊎ (f.ehd2 ≡ 0x82)
  pub tid_fits : f.tid < 65536
  pub opc_counts : f.opc ≡ length f.properties
  pub opc_fits : f.opc < 256
  pub counted : All IsCounted f.properties

long_enough {ℓ} : {A : Type ℓ} (xs ys : List A) → ltb (length (xs ++ ys)) (length xs) ≡ false
long_enough xs ys = ground (arith, length-append xs ys)

deserialize_properties-serialize :
    (ps : List Property) (extra : List ℕ)
    → All IsCounted ps
    → deserialize_properties (length ps) (serialize_properties ps ++ extra) ≡ some ps
unfolding deserialize_properties serialize_properties
deserialize_properties-serialize [] extra h = refl
deserialize_properties-serialize (p ∷ ps) extra (h, hs) =
    let behind = serialize_properties ps ++ extra in
    rw (
      append_assoc p.edt (serialize_properties ps) extra,
      h,
      long_enough p.edt behind,
      take-length-append p.edt behind,
      drop-length-append p.edt behind,
      deserialize_properties-serialize ps extra hs,
    )

-- Reading back what `serialize` wrote of a well-formed frame gives the frame, whatever bytes follow it.
pub deserialize-serialize :
    (f : Frame) (extra : List ℕ) → IsWellFormed f → deserialize (serialize f ++ extra) ≡ some f
unfolding deserialize serialize
deserialize-serialize f extra w =
    ground (arith, deserialize_properties-serialize f.properties extra w.counted)

-- What a successful run of the property loop says of the bytes that it was given.
abbrev Reads : ℕ → List ℕ → List Property → Type 0
Reads n bytes ps =
    (extra : List ℕ) × (bytes ≡ serialize_properties ps ++ extra)
    × (length ps ≡ n)
    × All IsCounted ps

Reads-cons :
    (n epc pdc : ℕ) (more : List ℕ) (ps : List Property)
    → pdc ≤ length more
    → Reads n (drop pdc more) ps
    → Reads (suc n) (epc ∷ pdc ∷ more) (record { epc = epc; pdc = pdc; edt = take pdc more } ∷ ps)
unfolding serialize_properties
Reads-cons n epc pdc more ps h (extra, e, l, c) = (
  extra,
  rw (append_assoc (take pdc more) (serialize_properties ps) extra, ← e, take-append-drop pdc more),
  omega arith,
  (omega (arith, length-take pdc more), c),
)

deserialize_properties_step :
    (n epc pdc : ℕ) (more : List ℕ) (ps : List Property)
    → deserialize_properties (suc n) (epc ∷ pdc ∷ more) ≡ some ps
    → (rest : List Property) × (deserialize_properties n (drop pdc more) ≡ some rest)
      × (pdc ≤ length more)
      × (record { epc = epc; pdc = pdc; edt = take pdc more } ∷ rest ≡ ps)
unfolding deserialize_properties
deserialize_properties_step n epc pdc more ps h =
    elim (Option-cases (deserialize_properties n (drop pdc more))) [
      | inl e ↦ absurd (ground arith)
      | inr (rest, e) ↦ (rest, e, ground arith, ground arith)
    ]

deserialize_properties_none :
    (bytes : List ℕ) (ps : List Property)
    → deserialize_properties 0 bytes ≡ some ps
    → Reads 0 bytes ps
unfolding deserialize_properties serialize_properties
deserialize_properties_none bytes ps h =
    subst (Reads 0 bytes) (some-injective [] ps h) (bytes, refl, refl, tt)

deserialize_properties-Reads :
    (n : ℕ) (bytes : List ℕ) (ps : List Property)
    → deserialize_properties n bytes ≡ some ps
    → Reads n bytes ps
deserialize_properties-Reads zero bytes ps h = deserialize_properties_none bytes ps h
deserialize_properties-Reads (suc n) [] ps h = unfold deserialize_properties in cc
deserialize_properties-Reads (suc n) (epc ∷ []) ps h = unfold deserialize_properties in cc
deserialize_properties-Reads (suc n) (epc ∷ pdc ∷ more) ps h =
    let (rest, e, fits, same) = deserialize_properties_step n epc pdc more ps h in
    subst (Reads (suc n) (epc ∷ pdc ∷ more)) same
      (Reads-cons n epc pdc more rest fits (deserialize_properties-Reads n _ rest e))

-- What `deserialize` makes of the twelve bytes of a header and those that follow.
deserialize_step :
    (b0 b1 b2 b3 b4 b5 b6 b7 b8 b9 b10 b11 : ℕ) (more : List ℕ) (f : Frame)
    → let bytes = b0 ∷ b1 ∷ b2 ∷ b3 ∷ b4 ∷ b5 ∷ b6 ∷ b7 ∷ b8 ∷ b9 ∷ b10 ∷ b11 ∷ more in
      deserialize bytes ≡ some f
      → (b0 ≡ 0x10)
        × ((b1 ≡ 0x81) ⊎ (b1 ≡ 0x82))
        × (deserialize_properties b11 more ≡ some f.properties)
        × (f ≡ record (read_header bytes) { properties = f.properties })
unfolding deserialize
deserialize_step b0 b1 b2 b3 b4 b5 b6 b7 b8 b9 b10 b11 more f h =
    elim (Option-cases (deserialize_properties b11 more)) [
      | inl e ↦ absurd (ground arith)
      | inr (rest, e) ↦ (ground arith, ground arith, ground arith, ground arith)
    ]

abbrev IsByte : ℕ → Type 0
IsByte b = b < 256

deserialize_header :
    (b0 b1 b2 b3 b4 b5 b6 b7 b8 b9 b10 b11 : ℕ) (more extra : List ℕ) (f : Frame)
    → let bytes = b0 ∷ b1 ∷ b2 ∷ b3 ∷ b4 ∷ b5 ∷ b6 ∷ b7 ∷ b8 ∷ b9 ∷ b10 ∷ b11 ∷ more in
      All IsByte bytes
      → f ≡ record (read_header bytes) { properties = f.properties }
      → length f.properties ≡ b11
      → more ≡ serialize_properties f.properties ++ extra
      → (f.ehd1 ≡ b0)
        × (f.ehd2 ≡ b1)
        × (f.tid < 65536)
        × (f.opc ≡ b11)
        × (bytes ≡ serialize f ++ extra)
unfolding serialize
deserialize_header b0 b1 b2 b3 b4 b5 b6 b7 b8 b9 b10 b11 more extra f bs same count tail =
    (ground arith, ground arith, ground arith, ground arith, ground arith)

-- Bytes, each below 256, that `deserialize` accepts as a frame are that frame, which is well-formed, as
-- `serialize` writes it, with bytes behind it that are ignored.
pub deserialize-IsWellFormed :
    (bytes : List ℕ) (f : Frame)
    → All IsByte bytes
    → deserialize bytes ≡ some f
    → IsWellFormed f × ((extra : List ℕ) × (bytes ≡ serialize f ++ extra))
deserialize-IsWellFormed (b0 ∷ b1 ∷ b2 ∷ b3 ∷ b4 ∷ b5 ∷ b6 ∷ b7 ∷ b8 ∷ b9 ∷ b10 ∷ b11 ∷ more) f bs
      h =
    let (known1, known2, e, same) =
      deserialize_step b0 b1 b2 b3 b4 b5 b6 b7 b8 b9 b10 b11 more f h in
    let (extra, tail, count, counted) = deserialize_properties-Reads b11 more f.properties e in
    let (at0, at1, fits, at11, written) =
      deserialize_header b0 b1 b2 b3 b4 b5 b6 b7 b8 b9 b10 b11 more extra f bs same count tail in
    (
      record {
        known_ehd1 = at0 ∙ known1;
        known_ehd2 = ground arith;
        tid_fits = fits;
        opc_counts = at11 ∙ sym count;
        opc_fits = omega arith;
        counted = counted;
      },
      (extra, written),
    )
deserialize-IsWellFormed _ f bs h = unfold deserialize in cc
