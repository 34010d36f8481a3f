-- ===== src/Echonet/Counter.antt =====
-- The transaction identifiers that a new adapter gives out, one after the other.
use ocpp_gw.Base.{ℕ, zero, suc, ◌+◌, ◌%◌, ◌<◌, ◌≡◌, arith}
use ocpp_gw.Echonet.Exchange.{get_next_tid}

-- The counter after so many calls.
unfoldable pub counter_after : ℕ → ℕ → ℕ
counter_after zero next_tid = next_tid
counter_after (suc k) next_tid = (get_next_tid (counter_after k next_tid)).1

abbrev Counts : ℕ → ℕ → Type 0
Counts k c = (c < 65536) × ((get_next_tid c).0 ≡ k % 65535 + 1)

next-Counts : (k c : ℕ) → Counts k c → Counts (suc k) (get_next_tid c).1
unfolding get_next_tid
next-Counts k c (h, e) = (ground arith, ground arith)

counter_after-Counts : (k : ℕ) → Counts k (counter_after k 1)
unfolding counter_after get_next_tid
counter_after-Counts zero = (ground arith, ground arith)
counter_after-Counts (suc k) = next-Counts k (counter_after k 1) (counter_after-Counts k)

-- The identifiers run through 1 to 65535 and start again: after k calls on a new adapter the next one is
-- k % 65535 + 1.
pub get_next_tid_lem : (k : ℕ) → (get_next_tid (counter_after k 1)).0 ≡ k % 65535 + 1
get_next_tid_lem k = (counter_after-Counts k).1
