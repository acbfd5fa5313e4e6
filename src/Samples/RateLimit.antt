-- ===== src/Samples/RateLimit.antt =====
-- A limit of two hundred nanoseconds, and a request that meets a limit, a 5xx and an answer.
use gitdr.Common.{
  ℕ, suc, ◌+◌, ◌≤◌, ◌<◌, ◌≡◌, refl, arith, true, none, some, List, [], ◌∷◌, if◌then◌else◌, ◌==◌,
  pos, sub_time, wrap64, add_time,
}
use gitdr.Source.RateLimit.{
  fine, server_error, primary, Send, WaitBudget, Called, answered, call, call_loop, reserve,
  reserve_all, add_charge, limit_lifts, wait_out,
}
use gitdr.Source.RateLimit.Waiting.{time_waiting, grant_all}
use gitdr.Source.RateLimit.Budget.{reserve_all-refines}
use gitdr.Source.RateLimit.Turns.{Shown, Retried}
use gitdr.Source.RateLimit.Ends.{call-ends}

abbrev budget : WaitBudget
budget = record { most = pos 40; spent = pos 0; until = 0 }

-- Two that overlap, one past the limit, and one that still fits.
abbrev asked : List (ℕ × ℕ)
asked = (10, 20) ∷ (15, 30) ∷ (50, 90) ∷ (60, 75) ∷ []

reserve_all-refines_example :
    let out = reserve_all budget asked [] in
    let granted = grant_all 40 asked [] in
    (out.1 ≡ granted) × (time_waiting granted ≤ 40) × (out.0.spent ≡ pos (time_waiting granted))
reserve_all-refines_example = reserve_all-refines 40 asked (omega arith) (omega arith)

third_refused : (reserve_all budget asked []).1 ≡ (60, 75) ∷ (15, 30) ∷ (10, 20) ∷ []
unfolding reserve_all reserve sub_time add_charge wrap64
third_refused = refl

overlap_once : (reserve_all budget asked []).0.spent ≡ pos 35
unfolding reserve_all reserve sub_time add_charge wrap64
overlap_once = refl

-- A wait of three hundred years is granted once anything is spent: the sum passes the end of an int64.
far_granted : (reserve (record budget { spent = pos 1 }) 0 (10000000000000000000)).0 ≡ true
unfolding reserve sub_time add_charge wrap64
far_granted = refl

abbrev three_sends : ℕ → Send
three_sends k = record {
  answer = if k == 0 then primary (some 20) (some 5) else if k == 1 then server_error else fine;
  now = 10 + k;
  jitter = 3;
  others = [];
  slept = true;
}

abbrev wide : WaitBudget
wide = record { most = pos 3600000000000; spent = pos 0; until = 0 }

call-ends_example :
    (out : Called) × (last : ℕ) × (b : WaitBudget) × (call none wide three_sends
      ≡ some (out, suc last, b))
    × (last ≤ 8)
    × Shown none wide three_sends last out
    × ((i : ℕ) → i < last → Retried none wide three_sends i)
call-ends_example = call-ends none wide three_sends

sends_thrice :
    call none wide three_sends
    ≡ some (answered, 3, record wide { spent = pos 1000000018; until = 1000000028 })
unfolding call call_loop limit_lifts wait_out reserve reserve_all sub_time add_charge wrap64
    add_time
sends_thrice = refl
