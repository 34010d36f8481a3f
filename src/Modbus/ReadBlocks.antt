-- ===== src/Modbus/ReadBlocks.antt =====
-- A block read and cut up gives each address the value that a read of its own gives.
use ocpp_gw.Base.{
  ℕ, zero, suc, ◌+◌, ◌-◌, ◌≤◌, ◌<◌, ◌≡◌, refl, sym, ap, ◌∙◌, List, [], ◌∷◌, get_or, drop, arith,
}
use ocpp_gw.Device.Types.{
  RegisterType, coil, discrete_input, input_register, holding_register, epc, RegisterAddress,
}
use ocpp_gw.Modbus.Convert.{convert_to_register_value}
use ocpp_gw.Modbus.Group.{RegisterGroup}
use ocpp_gw.Modbus.Group.Blocks.{Covers}
use ocpp_gw.Modbus.Read.{
  words, Line, bit_value, register_value, read_coil, read_discrete_input, read_input_register,
  read_holding_register, read_by, cut, group_result,
}

-- A line to a device whose registers do not change: what is read is what they hold.
pub record IsSteady (line : Line) (memory : RegisterType → ℕ → ℕ) : Type 0 where
  pub holds :
      (type : RegisterType) (start n i : ℕ) (ws : List ℕ)
      → line.read type start n ≡ words ws
      → i < n
      → get_or ws i 0 ≡ memory type (start + i)

get_or-drop : (k i : ℕ) (ws : List ℕ) → get_or (drop k ws) i 0 ≡ get_or ws (k + i) 0
get_or-drop zero i ws = ap (λ n. get_or ws n 0) (omega arith)
get_or-drop (suc k) i [] = refl
get_or-drop (suc k) i (w ∷ ws) =
    get_or-drop k i ws
    ∙ sym (ap (λ n. get_or (w ∷ ws) n 0) {x = suc k + i} {y = suc (k + i)} (omega arith))

-- Two arrays that agree on the words of an address.
abbrev pub Agree : ℕ → List ℕ → List ℕ → Type 0
Agree n xs ys = (i : ℕ) → i < n → get_or xs i 0 ≡ get_or ys i 0

pub register_value-Agree :
    (a : RegisterAddress) (xs ys : List ℕ)
    → 1 ≤ a.count
    → Agree a.count xs ys
    → register_value a xs ≡ register_value a ys
unfolding convert_to_register_value
register_value-Agree a xs ys some_ agree = ground (arith, agree 0, agree 1, agree 2, agree 3)

bit_value-Agree : (xs ys : List ℕ) → Agree 1 xs ys → bit_value xs ≡ bit_value ys
bit_value-Agree xs ys agree = ground (arith, agree 0)

-- The words of an address in a block that covers it are those that a read of its own gives.
cut-Agree :
    (line : Line) (memory : RegisterType → ℕ → ℕ) (type : RegisterType) (g : RegisterGroup)
    (a : RegisterAddress) (n : ℕ) (ws vs : List ℕ)
    → IsSteady line memory
    → Covers g a
    → n ≤ a.count
    → line.read type g.start_address g.count ≡ words ws
    → line.read type a.address n ≡ words vs
    → Agree n (cut g a ws) vs
cut-Agree line memory type g a n ws vs steady (_, low, high) le block own i lt =
    let k = a.address - g.start_address in
    get_or-drop k i ws
    ∙ steady.holds type g.start_address g.count (k + i) ws block (omega arith)
    ∙ ap (memory type) (omega arith)
    ∙ sym (steady.holds type a.address n i vs own lt)

-- The registers that a read of its own asks for.
abbrev pub asked : RegisterType → RegisterAddress → ℕ
asked coil a = 1
asked discrete_input a = 1
asked _ a = a.count

group_result-by :
    (type : RegisterType) (line : Line) (memory : RegisterType → ℕ → ℕ) (g : RegisterGroup)
    (a : RegisterAddress) (ws vs : List ℕ)
    → IsSteady line memory
    → Covers g a
    → 1 ≤ a.count
    → line.read type g.start_address g.count ≡ words ws
    → line.read type a.address (asked type a) ≡ words vs
    → group_result type line g (words ws) a ≡ read_by type line a
unfolding group_result read_coil read_discrete_input read_input_register read_holding_register
group_result-by coil line memory g a ws vs steady c le block own =
    rw own (
      bit_value-Agree (cut g a ws) vs
        (cut-Agree line memory coil g a 1 ws vs steady c le block own))
group_result-by discrete_input line memory g a ws vs steady c le block own = rw own (
    bit_value-Agree (cut g a ws) vs
      (cut-Agree line memory discrete_input g a 1 ws vs steady c le block own))
group_result-by input_register line memory g a ws vs steady c le block own = rw own (
    register_value-Agree a (cut g a ws) vs le
      (cut-Agree line memory input_register g a a.count ws vs steady c (omega arith) block own))
group_result-by holding_register line memory g a ws vs steady c le block own = rw own (
    register_value-Agree a (cut g a ws) vs le
      (cut-Agree line memory holding_register g a a.count ws vs steady c (omega arith) block own))
group_result-by epc line memory g a ws vs steady c le block own = refl
group_result-by RegisterType.unknown line memory g a ws vs steady c le block own = refl

-- Where the registers do not change and both reads succeed: what a block that covers an address gives for it,
-- cut out of the words of the block, is the result of reading that address alone.
pub group_result-read_by :
    (line : Line) (memory : RegisterType → ℕ → ℕ) (g : RegisterGroup) (a : RegisterAddress)
    (ws vs : List ℕ)
    → IsSteady line memory
    → Covers g a
    → 1 ≤ a.count
    → line.read g.type g.start_address g.count ≡ words ws
    → line.read g.type a.address (asked g.type a) ≡ words vs
    → group_result g.type line g (line.read g.type g.start_address g.count) a
      ≡ read_by a.type line a
group_result-read_by line memory g a ws vs steady c le block own =
    ap (λ answer. group_result g.type line g answer a) block
    ∙ group_result-by g.type line memory g a ws vs steady c le block own
    ∙ ap (λ type. read_by type line a) (sym c.0)
