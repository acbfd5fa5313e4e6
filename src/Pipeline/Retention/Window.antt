-- ===== src/Pipeline/Retention/Window.antt =====
-- How long a copy is held, and what a skip relies on.
use mathlib.Core.Path.{subst}
use gitdr.Common.{
  ℕ, ◌+◌, ◌-◌, ◌*◌, ◌≤◌, ◌<◌, ◌≡◌, refl, true, ◌&&◌, some, arith, Text, GoMap, ltb, pos, wrap64,
  add_time, nanos_per_day, Bool-cases, inl, inr,
}
use gitdr.Pipeline.Retention.{hours_of_days, retention_window, retention_until}
use gitdr.Pipeline.Unchanged.{decide_unchanged}
use gitdr.Pipeline.Unchanged.Decision.{skip-safe}

-- Days that fit: 106751 of them are the last whole days of an int64 of nanoseconds.
hours_of_days-fits : (d : ℕ) → d ≤ 106751 → hours_of_days d ≡ pos (d * nanos_per_day)
unfolding wrap64
hours_of_days-fits d h = ground arith

window-fits :
    (d p : ℕ)
    → d ≤ 106751
    → 0 < d
    → (n : ℕ) × (retention_window (some d) (pos p) ≡ pos n)
      × (0 < n)
      × (n ≤ d * nanos_per_day)
      × (0 < p → n ≤ p)
unfolding retention_window
window-fits d p h z = elim (Bool-cases (ltb 0 p && ltb p (d * nanos_per_day))) [
  | inl short ↦
      (p, ground (arith, hours_of_days-fits d h), ground arith, ground arith, λ q. ground arith)
  | inr long ↦ (
    d * nanos_per_day,
    ground (arith, hours_of_days-fits d h),
    omega arith,
    omega arith,
    λ q. ground arith,
  )
]

retention_until-fits : (now d : ℕ) → d ≤ 106751 → retention_until now d ≡ now + d * nanos_per_day
unfolding retention_until add_time
retention_until-fits now d h = rw (hours_of_days-fits d h, retention_until) refl

-- A copy that a skip relies on is still locked, if its own run took no more than two thirds of the
-- retention. For a configured retention of d days, at most 106751, and a lock period p that the
-- destination reports, zero for none: where the copy's run counted its lock from `started`, no later
-- than the copy and at most two thirds of the d days before it, and a later run that goes by the same
-- retention's window skips the repository, then the copy is not from the future, it is younger than
-- a third of the d days, than a third of the period where there is one, and than thirty days, and
-- the lock that its run asked for has not ended.
pub skip-held :
    (previous current : GoMap Text) (started copied_at now d p : ℕ)
    → 0 < d
    → d ≤ 106751
    → started ≤ copied_at
    → 3 * (copied_at - started) ≤ 2 * (d * nanos_per_day)
    → (decide_unchanged previous current copied_at now (retention_window (some d) (pos p))).skip
      ≡ true
    → (copied_at ≤ now)
      × (3 * (now - copied_at) < d * nanos_per_day)
      × (0 < p → 3 * (now - copied_at) < p)
      × (now < copied_at + 30 * nanos_per_day)
      × (now < retention_until started d)
skip-held previous current started copied_at now d p z h before_copy soon s =
    let (n, e, q, days, period) = window-fits d p h z in
    let (past, third, _, month) =
      skip-safe previous current copied_at now n q
        (subst (λ w. (decide_unchanged previous current copied_at now w).skip ≡ true) e s) in
    (
      past,
      omega (arith, third, days),
      (λ r. omega (arith, third, period r)),
      month,
      rw (retention_until-fits started d h) (omega (arith, third, days, before_copy, soon, past)),
    )

-- The lock that a run asks for ends the configured days from now, for 106751 days at most. From
-- 106752 days through 213503 the product of days and hours passes the end of an int64, and the lock
-- would end before now.
pub retention_until_lem :
    (now d : ℕ)
    → (d ≤ 106751 → retention_until now d ≡ now + d * nanos_per_day)
      × (0 < now → 106752 ≤ d → d ≤ 213503 → retention_until now d < now)
unfolding retention_until wrap64 add_time
retention_until_lem now d = (retention_until-fits now d, (λ z a b. ground arith))
