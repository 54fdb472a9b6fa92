-- ===== src/Stream/Delays.antt =====
-- How long main.go waits before it opens the event stream again.
use nomad_ondemand_scaler.Prelude.{ℕ, zero, suc, ◌+◌, ◌*◌, ◌%◌, ◌≤◌, ◌≡◌, arith, refl}
use nomad_ondemand_scaler.Stream.{retry_time, next_retry_time}

-- The pause after a number of failures goes in steps of five seconds from 5 to 60, and round again. So it
-- is never less and never more.
pub retry_time_lem :
    (k : ℕ) → (retry_time k ≡ 5 * (k % 12 + 1)) × (5 ≤ retry_time k) × (retry_time k ≤ 60)
unfolding retry_time next_retry_time
retry_time_lem zero = (refl, omega arith, omega arith)
retry_time_lem (suc k) = let (at, low, high) = retry_time_lem k in ground (arith, at)
