-- ===== src/Modbus/WriteBack.antt =====
-- A value written to holding registers and read back.
use ocpp_gw.Base.{
  ℕ, ◌+◌, ◌-◌, ◌≤◌, ◌≡◌, ◌⊎◌, inl, inr, sym, ap, ◌∙◌, ◌&&◌, List, [], ◌∷◌, leb, ltb, if◌then◌else◌,
  length, get_or, All, arith,
}
use ocpp_gw.Device.Types.{
  RegisterType, holding_register, RegisterAddress, RegisterValue, create_success_read_result,
}
use ocpp_gw.Modbus.Convert.{convert_to_register_value, convert_from_register_value}
use ocpp_gw.Modbus.Group.{same_type}
use ocpp_gw.Modbus.RoundTrip.{IsByte, IsSized, type_after, convert_to-convert_from}
use ocpp_gw.Modbus.Read.{words, Line, data_type_of, register_value, read_holding_register}
use ocpp_gw.Modbus.ReadBlocks.{IsSteady, Agree, register_value-Agree}
use ocpp_gw.Modbus.Write.{
  Request, write_bit, write_bits, write_register_word, write_registers, register_request,
}

-- The words of a request to holding registers.
abbrev pub words_of_request : Request → List ℕ
words_of_request (write_register_word _ w) = w ∷ []
words_of_request (write_registers _ ws) = ws
words_of_request _ = []

abbrev pub address_of_request : Request → ℕ
address_of_request (write_bit address _) = address
address_of_request (write_bits address _) = address
address_of_request (write_register_word address _) = address
address_of_request (write_registers address _) = address

-- The device's registers after a request to holding registers.
abbrev pub stored : Request → (RegisterType → ℕ → ℕ) → RegisterType → ℕ → ℕ
stored r memory type i =
    let start = address_of_request r in
    let ws = words_of_request r in
    if same_type type holding_register && leb start i && ltb i (start + length ws)
    then get_or ws (i - start) 0
    else memory type i

-- Addresses of one, two or four registers.
abbrev pub IsPlain : RegisterAddress → Type 0
IsPlain a = (a.count ≡ 1) ⊎ ((a.count ≡ 2) ⊎ (a.count ≡ 4))

request-words :
    (a : RegisterAddress) (v : RegisterValue)
    → IsPlain a
    → v.type ≡ data_type_of a.count
    → (words_of_request (register_request a v) ≡ convert_from_register_value v)
      × (length (convert_from_register_value v) ≡ a.count)
unfolding register_request convert_from_register_value
request-words a v (inl c) t = (ground arith, ground arith)
request-words a v (inr (inl c)) t = (ground arith, ground arith)
request-words a v (inr (inr c)) t = (ground arith, ground arith)

request-address :
    (a : RegisterAddress) (v : RegisterValue)
    → address_of_request (register_request a v) ≡ a.address
unfolding register_request
request-address a v = ground arith

plain-type :
    (a : RegisterAddress) → IsPlain a → type_after (data_type_of a.count) ≡ data_type_of a.count
plain-type a (inl c) = ground arith
plain-type a (inr (inl c)) = ground arith
plain-type a (inr (inr c)) = ground arith

plain-count : (a : RegisterAddress) → IsPlain a → 1 ≤ a.count
plain-count a (inl c) = omega (arith, c)
plain-count a (inr (inl c)) = omega (arith, c)
plain-count a (inr (inr c)) = omega (arith, c)

-- The words of a request make the value again.
request-value :
    (a : RegisterAddress) (v : RegisterValue)
    → IsPlain a
    → v.type ≡ data_type_of a.count
    → All IsByte v.bytes
    → IsSized v.type v.bytes
    → register_value a (words_of_request (register_request a v)) ≡ create_success_read_result v
request-value a v c t b s =
    let ws = convert_from_register_value v in
    let w = request-words a v c t in
    ap create_success_read_result (
      ap (λ x. convert_to_register_value x a.count (data_type_of a.count)) w.0
      ∙ ap (λ n. convert_to_register_value ws n (data_type_of a.count)) (sym w.1)
      ∙ ap (convert_to_register_value ws (length ws)) (sym t)
      ∙ convert_to-convert_from v.type v.bytes b s
      ∙ ap (λ y. record v { type = y }) (ap type_after t ∙ plain-type a c ∙ sym t))

-- A value of the type that the number of registers calls for (one, two or four), with as many bytes as that
-- type has, written to holding registers and read back: when the device stores the words of the request at
-- its address, answers the read, and its answers are what it holds, the result is the value as it was.
pub read_holding_register-register_request :
    (line : Line) (memory : RegisterType → ℕ → ℕ) (a : RegisterAddress) (v : RegisterValue)
    (vs : List ℕ)
    → IsPlain a
    → v.type ≡ data_type_of a.count
    → All IsByte v.bytes
    → IsSized v.type v.bytes
    → IsSteady line (stored (register_request a v) memory)
    → line.read holding_register a.address a.count ≡ words vs
    → read_holding_register line a ≡ create_success_read_result v
unfolding read_holding_register
read_holding_register-register_request line memory a v vs c t b s steady own =
    let ws = words_of_request (register_request a v) in
    let w = request-words a v c t in
    let place = request-address a v in
    let full : length ws ≡ a.count = ap length w.0 ∙ w.1 in
    let agree : Agree a.count vs ws =
      λ i lt. steady.holds holding_register a.address a.count i vs own lt ∙ ground arith in
    rw own (register_value-Agree a vs ws (plain-count a c) agree ∙ request-value a v c t b s)
