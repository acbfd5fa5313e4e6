-- ===== src/Source/RateLimit.antt =====
-- internal/source/github/ratelimit.go: what one API request waits for and how often it is sent, and
-- the time that a run may spend waiting. What GitHub, the clocks and the other requests of the run
-- do comes as a function of the number of the send.
pub mod Waiting
pub mod Budget
pub mod Turns
pub mod Ends
use gitdr.Common.{
  ℕ, zero, suc, ◌+◌, ◌-◌, ◌*◌, ◌^◌, Bool, true, false, not, ◌&&◌, Option, none, some, List, [], ◌∷◌,
  if◌then◌else◌, ltb, leb, ◌==◌, ℤ, pos, negsuc, lt_int, wrap64, sub_time, add_time,
  nanos_per_second,
}

abbrev pub rate_limit_waits : ℕ
rate_limit_waits = 5

abbrev pub server_error_attempts : ℕ
server_error_attempts = 4

abbrev pub unnamed_wait : ℕ
unnamed_wait = 60 * nanos_per_second

abbrev pub rate_limit_slack : ℕ
rate_limit_slack = nanos_per_second

-- What a send answers. A primary limit may name its reset, and the refusal its date; a secondary one
-- may name a duration.
pub data Answer : Type 0 where
  fine server_error other_error : Answer
  primary : Option ℕ → Option ℕ → Answer
  secondary : Option ℤ → Answer

-- The wait for a limit that no time is named for.
abbrev pub unnamed : ℕ → ℕ → ℕ
unnamed now waits = now + unnamed_wait * 2 ^ waits

-- `limitLifts`.
unfoldable pub limit_lifts : Answer → ℕ → ℕ → Option ℕ
unfolding add_time sub_time
limit_lifts (primary none date) now waits = some (unnamed now waits)
limit_lifts (primary (some reset) none) now waits = some reset
limit_lifts (primary (some reset) (some date)) now waits = some (add_time now (sub_time reset date))
limit_lifts (secondary (some d)) now waits =
    some (if lt_int (pos 0) d then add_time now d else unnamed now waits)
limit_lifts (secondary none) now waits = some (unnamed now waits)
limit_lifts _ now waits = none

-- waitBudget.
pub record WaitBudget : Type 0 where
  pub most : ℤ
  pub spent : ℤ
  pub until : ℕ

-- The sum of two int64, the second not negative.
unfoldable pub add_charge : ℤ → ℕ → ℤ
unfolding wrap64
add_charge (pos s) charge = wrap64 (s + charge)
add_charge (negsuc s) charge = if ltb s charge then pos (charge - s - 1) else negsuc (s - charge)

-- `max(d, 0)`.
abbrev pub at_least_zero : ℤ → ℕ
at_least_zero (pos d) = d
at_least_zero (negsuc _) = 0

abbrev pub new_wait : WaitBudget → ℕ → ℕ → ℕ
new_wait b now resume = at_least_zero (sub_time resume (if ltb now b.until then b.until else now))

-- `reserve`.
unfoldable pub reserve : WaitBudget → ℕ → ℕ → Bool × WaitBudget
unfolding sub_time add_charge
reserve b now resume =
    let total = add_charge b.spent (new_wait b now resume) in
    if lt_int b.most total
    then (false, b)
    else (true, record b { spent = total; until = if ltb b.until resume then resume else b.until })

-- Waits asked for one after another, and those of them that are granted, the latest first.
unfoldable pub reserve_all : WaitBudget → List (ℕ × ℕ) → List (ℕ × ℕ) → WaitBudget × List (ℕ × ℕ)
unfolding reserve
reserve_all b [] granted = (b, granted)
reserve_all b ((now, resume) ∷ asked) granted =
    let r = reserve b now resume in
    reserve_all r.1 asked (if r.0 then (now, resume) ∷ granted else granted)

-- A send: what it answers, the clock behind it, the jitter, the waits that other requests reserve
-- before this one does, and whether the sleep runs to its end.
pub record Send : Type 0 where
  pub answer : Answer
  pub now : ℕ
  pub jitter : ℕ
  pub others : List (ℕ × ℕ)
  pub slept : Bool

-- How a call ends. `out_of_waits`, `past_deadline`, `over_budget`, `stopped_waiting`, `still_failing`
-- and `stopped_retrying` are marked transient; `refused` is the error as it came.
pub data Called : Type 0 where
  answered refused out_of_waits past_deadline over_budget : Called
  stopped_waiting still_failing stopped_retrying : Called

-- When the wait for a limit ends: not in the past, and a slack later.
abbrev pub resume_after : ℕ → Send → ℕ
resume_after reset s = (if ltb reset s.now then s.now else reset) + (rate_limit_slack + s.jitter)

abbrev pub is_past : Option ℕ → ℕ → Bool
is_past none resume = false
is_past (some deadline) resume = ltb deadline resume

-- What a send that meets a limit comes to: the end of the call, or none for a wait that was served;
-- and the budget after it.
unfoldable pub wait_out : Option ℕ → ℕ → ℕ → WaitBudget → Send → Option Called × WaitBudget
unfolding reserve reserve_all
wait_out deadline waits reset b s =
    let resume = resume_after reset s in
    let seen = (reserve_all b s.others []).0 in
    let reserved = reserve seen s.now resume in
    if waits == rate_limit_waits
    then (some out_of_waits, b)
    else if is_past deadline resume
    then (some past_deadline, b)
    else if not (reserved.0)
    then (some over_budget, reserved.1)
    else if s.slept
    then (none, reserved.1)
    else (some stopped_waiting, reserved.1)

-- The loop of `call` from a send on: the call's end, the sends made, and the budget. None means
-- that the fuel ran out.
unfoldable pub call_loop :
    ℕ → Option ℕ → ℕ → ℕ → ℕ → WaitBudget → (ℕ → Send) → Option (Called × ℕ × WaitBudget)
unfolding limit_lifts wait_out
call_loop zero deadline k waits server_errors b send = none
call_loop (suc fuel) deadline k waits server_errors b send =
    let s = send k in
    elim (limit_lifts s.answer s.now waits) [
      | some reset ↦
          let w = wait_out deadline waits reset b s in
          elim w.0 [
            | some end ↦ some (end, suc k, w.1)
            | none ↦ call_loop fuel deadline (suc k) (waits + 1) server_errors w.1 send
          ]
      | none ↦ elim s.answer [
        | fine ↦ some (answered, suc k, b)
        | server_error ↦ elim (server_errors + 1 == server_error_attempts) [
          | true ↦ some (still_failing, suc k, b)
          | false ↦ elim s.slept [
            | true ↦ call_loop fuel deadline (suc k) waits (server_errors + 1) b send
            | false ↦ some (stopped_retrying, suc k, b)
          ]
        ]
        | other ↦ some (refused, suc k, b)
      ]
    ]

abbrev pub call_fuel : ℕ
call_fuel = 9

-- `call`.
unfoldable pub call : Option ℕ → WaitBudget → (ℕ → Send) → Option (Called × ℕ × WaitBudget)
unfolding call_loop
call deadline b send = call_loop call_fuel deadline 0 0 0 b send
