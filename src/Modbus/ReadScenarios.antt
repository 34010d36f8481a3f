-- ===== src/Modbus/ReadScenarios.antt =====
-- Reading on a concrete device, whose register at an address holds that address plus one.
use ocpp_gw.Base.{
  ℕ, zero, suc, ◌+◌, ◌<◌, ◌≡◌, refl, ap, ◌∙◌, inl, inr, List, [], ◌∷◌, get_or, arith,
}
use ocpp_gw.Device.Types.{
  RegisterType, holding_register, uint32, RegisterAddress, RegisterValue,
  create_success_read_result,
}
use ocpp_gw.Modbus.Group.{RegisterGroup}
use ocpp_gw.Modbus.Read.{words, Line, read_holding_register, read_by, group_result}
use ocpp_gw.Modbus.ReadBlocks.{IsSteady, group_result-read_by}
use ocpp_gw.Modbus.Write.{register_request}
use ocpp_gw.Modbus.WriteBack.{stored, read_holding_register-register_request}

abbrev from : ℕ → ℕ → List ℕ
from start zero = []
from start (suc n) = suc start ∷ from (suc start) n

abbrev line : Line
line = record { read = λ type start n. words (from start n); strerror = λ code. "timeout" }

from-holds : (start n i : ℕ) → i < n → get_or (from start n) i 0 ≡ suc (start + i)
from-holds start zero i h = ground arith
from-holds start (suc n) zero h = omega arith
from-holds start (suc n) (suc i) h = from-holds (suc start) n i (omega arith) ∙ omega arith

line-IsSteady : IsSteady line (λ type i. suc i)
line-IsSteady = record {
  holds =
      λ type start n i ws h lt. ap (λ xs. get_or xs i 0) (ground arith) ∙ from-holds start n i lt;
}

-- Two registers at address 12.
abbrev pair : RegisterAddress
pair = record {
  type = holding_register;
  address = 12;
  eoj_class_group_code = 0;
  eoj_class_code = 0;
  eoj_instance_code = 0;
  epc = 0;
  count = 2;
}

abbrev block : RegisterGroup
block = record { type = holding_register; start_address = 10; count = 6; addresses = pair ∷ [] }

group_result-read_by_example :
    group_result holding_register line block (line.read holding_register 10 6) pair
    ≡ read_by holding_register line pair
group_result-read_by_example =
    group_result-read_by line (λ type i. suc i) block pair (from 10 6) (from 12 2) line-IsSteady
      (refl, omega arith, omega arith) (omega arith) refl refl

-- What a memory holds from an address on.
abbrev held : (ℕ → ℕ) → ℕ → ℕ → List ℕ
held memory start zero = []
held memory start (suc n) = memory start ∷ held memory (suc start) n

held-holds :
    (memory : ℕ → ℕ) (start n i : ℕ) → i < n → get_or (held memory start n) i 0 ≡ memory (start + i)
held-holds memory start zero i h = ground arith
held-holds memory start (suc n) zero h = ap memory (omega arith)
held-holds memory start (suc n) (suc i) h =
    held-holds memory (suc start) n i (omega arith) ∙ ap memory (omega arith)

-- A line to a device that holds a memory.
abbrev line_to : (RegisterType → ℕ → ℕ) → Line
line_to memory = record {
  read = λ type start n. words (held (memory type) start n);
  strerror = λ code. "timeout";
}

line_to-IsSteady : (memory : RegisterType → ℕ → ℕ) → IsSteady (line_to memory) memory
line_to-IsSteady memory = record {
  holds = λ type start n i ws h lt.
      ap (λ xs. get_or xs i 0) (ground arith) ∙ held-holds (memory type) start n i lt;
}

abbrev number : RegisterValue
number = record { type = uint32; bytes = 1 ∷ 2 ∷ 3 ∷ 4 ∷ [] }

abbrev after : RegisterType → ℕ → ℕ
after = stored (register_request pair number) (λ type i. 0)

read_holding_register-register_request_example :
    read_holding_register (line_to after) pair ≡ create_success_read_result number
read_holding_register-register_request_example =
    read_holding_register-register_request (line_to after) (λ type i. 0) pair number
      (held (after holding_register) 12 2) (inr (inl refl)) refl
      (omega arith, (omega arith, (omega arith, (omega arith, tt)))) refl (line_to-IsSteady after)
      refl
