-- ===== src/Traffic/Breaker.antt =====
-- internal/core/traffic/breaker.go: the sliding window of the breaker's statistics. Times are in
-- nanoseconds on a clock that starts at 0; the lock makes each method one step.
pub mod Window
pub mod Middleware
use mini_gateway.Common.{
  ℕ, suc, ◌+◌, ◌-◌, ◌/◌, Bool, true, false, List, [], ◌∷◌, ◌++◌, select, length, leb, ◌==◌,
  if◌then◌else◌,
}

pub record RequestStat : Type 0 where
  pub success : Bool
  pub latency : ℕ
  pub timestamp : ℕ

pub record TimeSlidingWindow : Type 0 where
  pub requests : List RequestStat
  pub duration : ℕ

unfoldable pub new_window : ℕ → TimeSlidingWindow
new_window duration = record { requests = []; duration = duration }

unfoldable pub update : RequestStat → TimeSlidingWindow → TimeSlidingWindow
update stat sw = record sw { requests = sw.requests ++ stat ∷ [] }

-- `now.Sub(timestamp) <= duration`; a timestamp after now counts.
abbrev pub is_valid : ℕ → ℕ → RequestStat → Bool
is_valid duration now stat = leb now (stat.timestamp + duration)

-- One round of the clean-up goroutine.
unfoldable pub cleanup : ℕ → TimeSlidingWindow → TimeSlidingWindow
cleanup now sw = record sw { requests = select (is_valid sw.duration now) sw.requests }

unfoldable pub count_failed : List RequestStat → ℕ
count_failed [] = 0
count_failed (stat ∷ stats) = (if stat.success then 0 else 1) + count_failed stats

-- The numerator and the denominator of the quotient that the code returns as a float64; 0 / 1 for an
-- empty window.
unfoldable pub error_rate : TimeSlidingWindow → ℕ × ℕ
unfolding count_failed
error_rate sw =
    if length sw.requests == 0 then (0, 1) else (count_failed sw.requests, length sw.requests)

unfoldable pub total_latency : List RequestStat → ℕ
total_latency [] = 0
total_latency (stat ∷ stats) = stat.latency + total_latency stats

unfoldable pub avg_latency : TimeSlidingWindow → ℕ
unfolding total_latency
avg_latency sw =
    if length sw.requests == 0 then 0 else total_latency sw.requests / length sw.requests
