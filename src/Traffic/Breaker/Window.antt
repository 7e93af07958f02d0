-- ===== src/Traffic/Breaker/Window.antt =====
-- What the window holds after any sequence of its steps.
use mini_gateway.Common.{
  ℕ, ◌+◌, ◌*◌, ◌≤◌, ◌<◌, ◌≡◌, refl, append-nil, append_assoc, false, List, [], ◌∷◌, ◌++◌, select,
  length, leb, ◌==◌, All, arith, Bool-cases, inl, inr,
}
use native.Mathlib.Nat.{div-le_of_le-mul, suc-mul}
use mini_gateway.Traffic.Breaker.{
  RequestStat, TimeSlidingWindow, new_window, update, is_valid, cleanup, count_failed, error_rate,
  total_latency, avg_latency,
}

pub data Step : Type 0 where
  finished : RequestStat → Step
  tick : ℕ → Step

unfoldable pub run : List Step → TimeSlidingWindow → TimeSlidingWindow
unfolding update cleanup
run [] sw = sw
run (finished stat ∷ steps) sw = run steps (update stat sw)
run (tick now ∷ steps) sw = run steps (cleanup now sw)

abbrev pub stats_of : List Step → List RequestStat
stats_of [] = []
stats_of (finished stat ∷ steps) = stat ∷ stats_of steps
stats_of (tick now ∷ steps) = stats_of steps

-- The ticks are not later than a time.
abbrev pub NotAfter : ℕ → List Step → Type 0
NotAfter now [] = Unit
NotAfter now (finished stat ∷ steps) = NotAfter now steps
NotAfter now (tick t ∷ steps) = (t ≤ now) × NotAfter now steps

-- A round keeps whatever a later round keeps.
select-earlier :
    (duration t now : ℕ) (stats rest : List RequestStat)
    → t ≤ now
    → select (is_valid duration now) (select (is_valid duration t) stats ++ rest)
      ≡ select (is_valid duration now) (stats ++ rest)
select-earlier duration t now [] rest h = refl
select-earlier duration t now (stat ∷ stats) rest h =
    let ih = select-earlier duration t now stats rest h in
    elim (Bool-cases (leb t (stat.timestamp + duration))) [
      | inl kept ↦ rw (kept, ih) refl
      | inr dropped ↦
          let gone : leb now (stat.timestamp + duration) ≡ false = ground (arith, h, dropped) in
          rw (dropped, ih, gone) refl
    ]

run-requests :
    (steps : List Step) (sw : TimeSlidingWindow) (now : ℕ)
    → NotAfter now steps
    → (cleanup now (run steps sw)).requests
      ≡ select (is_valid sw.duration now) (sw.requests ++ stats_of steps)
unfolding run cleanup update
run-requests [] sw now h = rw (append-nil sw.requests) refl
run-requests (finished stat ∷ steps) sw now h =
    rw
      (
        run-requests steps (update stat sw) now h,
        append_assoc sw.requests (stat ∷ []) (stats_of steps),
      )
      refl
run-requests (tick t ∷ steps) sw now h =
    rw
      (
        run-requests steps (cleanup t sw) now h.1,
        select-earlier sw.duration t now sw.requests (stats_of steps) h.0,
      )
      refl

-- After any sequence of requests and rounds of the clean-up, a round at a time that is not before any
-- of them leaves the requests of the last `duration`, all of them, in the order they finished.
pub cleanup-run :
    (duration : ℕ) (steps : List Step) (now : ℕ)
    → NotAfter now steps
    → (cleanup now (run steps (new_window duration))).requests
      ≡ select (is_valid duration now) (stats_of steps)
unfolding new_window
cleanup-run duration steps now h = run-requests steps (new_window duration) now h

count_failed-le : (stats : List RequestStat) → count_failed stats ≤ length stats
unfolding count_failed
count_failed-le [] = omega arith
count_failed-le (stat ∷ stats) = ground (arith, count_failed-le stats)

total_latency-le :
    (most : ℕ) (stats : List RequestStat)
    → All (λ s. s.latency ≤ most) stats
    → total_latency stats ≤ length stats * most
unfolding total_latency
total_latency-le most [] h = omega arith
total_latency-le most (stat ∷ stats) h =
    let rest = total_latency-le most stats h.1 in
    ground (arith, h.0, rest, suc-mul (length stats) most)

-- The error rate is a fraction between 0 and 1, and the average latency is at most the largest.
pub rates-bounded :
    (sw : TimeSlidingWindow) (most : ℕ)
    → All (λ s. s.latency ≤ most) sw.requests
    → ((error_rate sw).0 ≤ (error_rate sw).1) × (0 < (error_rate sw).1) × (avg_latency sw ≤ most)
unfolding error_rate avg_latency
rates-bounded sw most h = elim (Bool-cases (length sw.requests == 0)) [
  | inl empty ↦ rw empty (omega arith, omega arith, omega arith)
  | inr full ↦ rw full (
    count_failed-le sw.requests,
    ground (arith, full),
    div-le_of_le-mul (length sw.requests) (total_latency-le most sw.requests h),
  )
]
