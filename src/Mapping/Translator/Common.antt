-- ===== src/Mapping/Translator/Common.antt =====
-- The data types that the conversions for the two kinds of device share: a value written and read back.
use ocpp_gw.Base.{
  ℕ, ◌^◌, ◌<◌, ℤ, pos, String, ◌≡◌, refl, sym, ap, subst, ◌∙◌, Bool, true, false, some, List, [],
  ◌∷◌, length, ltb, str_eq, arith,
}
use ocpp_gw.Mapping.Template.{Numbers, VariableFields}
use ocpp_gw.Mapping.Translator.{Arithmetic, OcppValue, bool, int, double, string, Translated, ok}
use ocpp_gw.Mapping.Translator.Values.{
  pattern_of, signed, four_bytes, half, wide, modbus_size, echonet_lite_size,
}
use ocpp_gw.Mapping.Translator.Convert.{read_common, write_common}
use ocpp_gw.Mapping.Translator.Words.{
  FitsUnsigned, FitsSigned, word_of-half, signed-half, double_word_of-four_bytes, pattern_of-lt,
  unsigned_pattern, signed_pattern,
}

module _ {n : Numbers} (a : Arithmetic n) where
  open a use {
    of_int, to_int, round, times, divide, float_bits, of_float_bits, string_bytes, string_of,
  }

  -- The number that is written for a value.
  abbrev pub written : VariableFields n → ℤ → ℤ
  written f k = round (divide (of_int k) f.scale)

  -- The value that is read for a number.
  abbrev pub seen : VariableFields n → ℤ → ℤ
  seen f q = to_int (times (of_int q) f.scale)

  -- Values that a mapping of one of the shared data types can carry: the number written fits the type and
  -- scales back to the value, a float survives its conversion, a text is not empty.
  pub data Carries (f : VariableFields n) : OcppValue n → Type 0 where
    uint16 :
        (k : ℤ)
        → f.data_type ≡ "uint16"
        → FitsUnsigned 16 (written f k)
        → seen f (written f k) ≡ k
        → Carries f (int k)
    int16 :
        (k : ℤ)
        → f.data_type ≡ "int16"
        → FitsSigned 16 (written f k)
        → seen f (written f k) ≡ k
        → Carries f (int k)
    uint32 :
        (k : ℤ)
        → f.data_type ≡ "uint32"
        → FitsUnsigned 32 (written f k)
        → seen f (written f k) ≡ k
        → Carries f (int k)
    int32 :
        (k : ℤ)
        → f.data_type ≡ "int32"
        → FitsSigned 32 (written f k)
        → seen f (written f k) ≡ k
        → Carries f (int k)
    float32 :
        (x : n.Double)
        → f.data_type ≡ "float32"
        → float_bits (divide x f.scale) < 2 ^ 32
        → times (of_float_bits (float_bits (divide x f.scale))) f.scale ≡ x
        → Carries f (double x)
    boolean : (b : Bool) → f.data_type ≡ "boolean" → Carries f (bool b)
    text :
        (s : String)
        → f.data_type ≡ "string"
        → 0 < length (string_bytes s)
        → string_of (string_bytes s) ≡ s
        → Carries f (string s)

  -- What a round trip is for the two halves of a conversion.
  abbrev pub ComesBack :
      (OcppValue n → Translated (List ℕ))
      → (List ℕ → Translated (OcppValue n))
      → OcppValue n
      → Type 0
  ComesBack write read v = (bytes : List ℕ) × ((write v ≡ ok bytes) × (read bytes ≡ ok v))

  -- A data type that the conversions share, and bytes enough for it.
  abbrev pub IsPlain : String → List ℕ → Type 0
  IsPlain t bytes =
      ((str_eq t "enum" ≡ false) × ((str_eq t "uint8" ≡ false) × (str_eq t "int8" ≡ false)))
      × ((k : ℕ) × ((modbus_size t ≡ some k)
            × ((echonet_lite_size t ≡ some k) × (ltb (length bytes) k ≡ false))))

  abbrev pub IsShared : VariableFields n → OcppValue n → Type 0
  IsShared f v =
      (bytes : List ℕ) × ((write_common a f v ≡ ok bytes)
        × ((read_common a f bytes ≡ ok v) × IsPlain f.data_type bytes))

  plain : {t u : String} (bytes : List ℕ) → t ≡ u → IsPlain u bytes → IsPlain t bytes
  plain bytes e h = subst (λ t. IsPlain t bytes) (sym e) h

  pub seen_back :
      (f : VariableFields n) (k q : ℤ)
      → q ≡ written f k
      → seen f (written f k) ≡ k
      → ◌≡◌ {A = Translated (OcppValue n)} (ok (int (seen f q))) (ok (int k))
  seen_back f k q e same = ap (λ q. ok (int (seen f q))) e ∙ ap (λ q. ok (int q)) same

  pub back_common : (f : VariableFields n) (v : OcppValue n) → Carries f v → IsShared f v
  unfolding write_common read_common modbus_size echonet_lite_size
  back_common f (int k) (uint16 _ e fits same) =
      let q = written f k in
      (
        half q,
        (
          rw e refl,
          (
            rw e (seen_back f k _ (word_of-half q fits) same),
            plain (half q) e ((refl, (refl, refl)), (2, (refl, (refl, refl)))),
          ),
        ),
      )
  back_common f (int k) (int16 _ e fits same) =
      let q = written f k in
      (
        half q,
        (
          rw e refl,
          (
            rw e (seen_back f k _ (signed-half q fits) same),
            plain (half q) e ((refl, (refl, refl)), (2, (refl, (refl, refl)))),
          ),
        ),
      )
  back_common f (int k) (uint32 _ e fits same) =
      let q = written f k in
      let p = double_word_of-four_bytes (pattern_of 32 q) (pattern_of-lt q) in
      (
        wide q,
        (
          rw e refl,
          (
            rw e (seen_back f k _ (ap pos p ∙ unsigned_pattern q fits) same),
            plain (wide q) e ((refl, (refl, refl)), (4, (refl, (refl, refl)))),
          ),
        ),
      )
  back_common f (int k) (int32 _ e fits same) =
      let q = written f k in
      let p = double_word_of-four_bytes (pattern_of 32 q) (pattern_of-lt q) in
      (
        wide q,
        (
          rw e refl,
          (
            rw e (seen_back f k _ (ap (signed 32) p ∙ signed_pattern q fits) same),
            plain (wide q) e ((refl, (refl, refl)), (4, (refl, (refl, refl)))),
          ),
        ),
      )
  back_common f (double x) (float32 _ e fits same) =
      let p = float_bits (divide x f.scale) in
      (
        four_bytes p,
        (
          rw e refl,
          (
            rw e (
                ap (λ p. ok (double (times (of_float_bits p) f.scale)))
                  (double_word_of-four_bytes p fits)
                ∙ ap (λ x. ok (double x)) same),
            plain (four_bytes p) e ((refl, (refl, refl)), (4, (refl, (refl, refl)))),
          ),
        ),
      )
  back_common f (bool true) (boolean _ e) = (
    1 ∷ [],
    (rw e refl, (rw e refl, plain (1 ∷ []) e ((refl, (refl, refl)), (1, (refl, (refl, refl)))))),
  )
  back_common f (bool false) (boolean _ e) = (
    0 ∷ [],
    (rw e refl, (rw e refl, plain (0 ∷ []) e ((refl, (refl, refl)), (1, (refl, (refl, refl)))))),
  )
  back_common f (string s) (text _ e filled same) = (
    string_bytes s,
    (
      rw e refl,
      (
        rw e (ap (λ x. ok (string x)) same),
        plain (string_bytes s) e ((refl, (refl, refl)), (1, (refl, (refl, ground arith)))),
      ),
    ),
  )
