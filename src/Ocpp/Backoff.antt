-- ===== src/Ocpp/Backoff.antt =====
-- `calculateReconnectInterval` of the WebSocket client.
use ocpp_gw.Base.{
  ℕ, ◌+◌, ◌-◌, ◌*◌, ◌/◌, ◌^◌, ◌≤◌, ℤ, pos, negsuc, ◌≡◌, refl, Bool, true, Option, none, some, ltb,
  leb, if◌then◌else◌, arith,
}
use Prim.Native.Nat.{min}
use native.Mathlib.Nat.{mul-le-mul_left}

-- `WebSocketConfig` as far as reconnecting reads it, in seconds; the numbers are not negative.
pub record WebSocketConfig : Type 0 where
  pub reconnect_interval : ℕ
  pub max_reconnect_interval : ℕ
  pub max_reconnect_attempts : ℕ

-- `1 << (attempts - 1)` as a signed 32-bit `int`; `none` where it is not one.
unfoldable pub exp_factor : ℕ → Option ℕ
exp_factor attempts = if ltb (attempts - 1) 31 then some (2 ^ (attempts - 1)) else none

unfoldable pub base_interval : WebSocketConfig → ℕ → Option ℕ
base_interval config attempts =
    if ltb 1 attempts
    then elim (exp_factor attempts) [
      | none ↦ none
      | some factor ↦ some (
          if ltb config.max_reconnect_interval (config.reconnect_interval * factor)
          then config.max_reconnect_interval
          else config.reconnect_interval * factor)
    ]
    else some config.reconnect_interval

-- The division is towards zero. `jitter` is what the random generator draws, a percentage.
unfoldable pub add_jitter : ℤ → ℕ → ℕ
add_jitter (pos j) interval = interval + interval * j / 100
add_jitter (negsuc j) interval = interval - interval * (j + 1) / 100

unfoldable pub calculate_reconnect_interval : WebSocketConfig → ℕ → ℤ → Option ℕ
calculate_reconnect_interval config attempts jitter = elim (base_interval config attempts) [
  | none ↦ none
  | some interval ↦ some (add_jitter jitter interval)
]

-- From -20 to 20.
abbrev pub is_jitter : ℤ → Bool
is_jitter (pos j) = leb j 20
is_jitter (negsuc j) = ltb j 20

add_jitter-bounds :
    (jitter : ℤ) (b : ℕ)
    → is_jitter jitter ≡ true
    → (b * 80 ≤ add_jitter jitter b * 100) × (add_jitter jitter b * 100 ≤ b * 120)
unfolding add_jitter
add_jitter-bounds (pos j) b h =
    let bound : b * j ≤ b * 20 = mul-le-mul_left b (ground arith) in
    (omega arith, omega (arith, bound))
add_jitter-bounds (negsuc j) b h =
    let bound : b * (j + 1) ≤ b * 20 = mul-le-mul_left b (ground arith) in
    (omega (arith, bound), omega arith)

base_interval_lem :
    (config : WebSocketConfig) (attempts : ℕ)
    → config.reconnect_interval ≤ config.max_reconnect_interval
    → 1 ≤ attempts
    → attempts ≤ 31
    → base_interval config attempts
      ≡ some (min (config.reconnect_interval * 2 ^ (attempts - 1)) config.max_reconnect_interval)
unfolding base_interval exp_factor
base_interval_lem config attempts le first few = ground arith

-- For the first 31 attempts, an initial interval of at most the maximum and a jitter of at most 20 percent,
-- the interval is within 20 percent of the initial interval doubled once for each attempt after the first, or of
-- the maximum where that is less.
pub calculate_reconnect_interval-bounds :
    (config : WebSocketConfig) (attempts : ℕ) (jitter : ℤ)
    → config.reconnect_interval ≤ config.max_reconnect_interval
    → 1 ≤ attempts
    → attempts ≤ 31
    → is_jitter jitter ≡ true
    → let b = min (config.reconnect_interval * 2 ^ (attempts - 1)) config.max_reconnect_interval in
      (i : ℕ) × (calculate_reconnect_interval config attempts jitter ≡ some i)
      × (b * 80 ≤ i * 100)
      × (i * 100 ≤ b * 120)
unfolding calculate_reconnect_interval
calculate_reconnect_interval-bounds config attempts jitter le first few small =
    let b = min (config.reconnect_interval * 2 ^ (attempts - 1)) config.max_reconnect_interval in
    let around = add_jitter-bounds jitter b small in
    (
      add_jitter jitter b,
      rw (calculate_reconnect_interval, base_interval_lem config attempts le first few) refl,
      around.0,
      around.1,
    )
