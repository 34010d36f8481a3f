-- ===== src/Ocpp/Json.antt =====
-- What the OCPP code uses of the JSON library nlohmann/json, as parameters: values, their
-- construction and inspection, and the two ways between values and text.
use ocpp_gw.Base.{ℕ, ◌<◌, ◌^◌, ℤ, pos, String, ◌≡◌, Bool, true, Option, some, List, all}
use ocpp_gw.Base.Dict.{Dict, lookup}

-- `Wire` is the text of a value. `dump` is `none` where it throws, for text that is not UTF-8.
pub record JsonLib : Type 1 where
  pub Json : Type 0
  pub Wire : Type 0
  pub null : Json
  pub number : ℤ → Json
  pub text : String → Json
  pub array : List Json → Json
  pub object : Dict Json → Json
  pub is_null : Json → Bool
  -- Whether the text keeps the value: no part of it is a number that is not finite, which `dump` writes as
  -- null, or a binary value.
  pub kept : Json → Bool
  -- `is_number` with `get<int>`, `is_string` with `get<std::string>`, `is_array` with the elements
  pub as_number : Json → Option ℤ
  pub as_text : Json → Option String
  pub items : Json → Option (List Json)
  -- `contains` with `operator[]`
  pub member : String → Json → Option Json
  pub dump : Json → Option Wire
  pub parse : Wire → Option Json

-- What the library documents of them, for an `int` of 32 bits.
pub record IsJson (l : JsonLib) : Type 0 where
  pub as_number-number : (n : ℕ) → n < 2 ^ 31 → l.as_number (l.number (pos n)) ≡ some (pos n)
  pub as_text-text : (s : String) → l.as_text (l.text s) ≡ some s
  pub items-array : (js : List l.Json) → l.items (l.array js) ≡ some js
  pub member-object : (k : String) (m : Dict l.Json) → l.member k (l.object m) ≡ lookup k m
  pub is_null-null : l.is_null l.null ≡ true
  pub kept-number : (n : ℤ) → l.kept (l.number n) ≡ true
  pub kept-text : (s : String) → l.kept (l.text s) ≡ true
  pub kept-array : (js : List l.Json) → l.kept (l.array js) ≡ all l.kept js
  pub kept-object : (m : Dict l.Json) → l.kept (l.object m) ≡ all (λ p. l.kept p.1) m
  pub parse-dump :
      (j : l.Json) (w : l.Wire) → l.kept j ≡ true → l.dump j ≡ some w → l.parse w ≡ some j
