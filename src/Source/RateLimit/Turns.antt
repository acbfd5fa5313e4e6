-- ===== src/Source/RateLimit/Turns.antt =====
-- call: the answers that a request is sent again after, and what a wait comes to.
use gitdr.Common.{
  ℕ, zero, suc, ◌+◌, ◌≤◌, ◌<◌, ◌≡◌, ◌≢◌, ◌⊎◌, refl, ◌∙◌, ap, inl, inr, Bool, true, false, Option,
  none, some, [], arith, if◌then◌else◌, ◌==◌, ==_iff, Bool-cases,
}
use gitdr.Source.RateLimit.{
  Answer, fine, server_error, other_error, primary, secondary, Send, WaitBudget, Called, answered,
  refused, out_of_waits, past_deadline, over_budget, stopped_waiting, still_failing,
  stopped_retrying, limit_lifts, wait_out, resume_after, is_past, rate_limit_waits, reserve,
  reserve_all,
}

-- Whether an answer is the refusal for a limit.
unfoldable pub is_limit : Answer → Bool
is_limit (primary _ _) = true
is_limit (secondary _) = true
is_limit _ = false

unfoldable pub is_server_error : Answer → Bool
is_server_error server_error = true
is_server_error _ = false

-- Of the first `n` sends, those with such an answer.
unfoldable pub count_sends : (Answer → Bool) → (ℕ → Send) → ℕ → ℕ
count_sends test send zero = 0
count_sends test send (suc n) = count_sends test send n + (if test (send n).answer then 1 else 0)

-- The wait for the limit that a send met, after so many waits before it, ends by the deadline or not.
abbrev pub Lifts : Option ℕ → Send → ℕ → Bool → Type 0
Lifts deadline s waits late =
    (reset : ℕ) × (limit_lifts s.answer s.now waits ≡ some reset)
    × (is_past deadline (resume_after reset s) ≡ late)

-- The budget that a request meets, with what the others reserve before it does.
abbrev pub seen_by : WaitBudget → Send → WaitBudget
seen_by b s = (reserve_all b s.others []).0

-- The budget before a send: every limit before it has asked for its wait.
unfoldable pub budget_before : WaitBudget → (ℕ → Send) → ℕ → WaitBudget
unfolding count_sends
budget_before b send zero = b
budget_before b send (suc k) =
    let before = budget_before b send k in
    elim (limit_lifts (send k).answer (send k).now (count_sends is_limit send k)) [
      | none ↦ before
      | some reset ↦
          (reserve (seen_by before (send k)) (send k).now (resume_after reset (send k))).1
    ]

-- Whether the budget, as it is then, covers the wait for a limit.
abbrev pub covers : WaitBudget → Send → ℕ → Bool
covers b s reset = (reserve (seen_by b s) s.now (resume_after reset s)).0

-- A send that another one follows: a 5xx, or a limit whose wait ends by the deadline and is covered
-- by the budget.
abbrev pub Retried : Option ℕ → WaitBudget → (ℕ → Send) → ℕ → Type 0
Retried deadline b send i =
    ((send i).slept ≡ true)
    × ((is_server_error (send i).answer ≡ true)
        ⊎ ((reset : ℕ) × (limit_lifts (send i).answer (send i).now (count_sends is_limit send i)
              ≡ some reset)
            × (is_past deadline (resume_after reset (send i)) ≡ false)
            × (covers (budget_before b send i) (send i) reset ≡ true)))

-- What the last send shows.
abbrev pub Shown : Option ℕ → WaitBudget → (ℕ → Send) → ℕ → Called → Type 0
Shown deadline b send i answered = (send i).answer ≡ fine
Shown deadline b send i refused = (send i).answer ≡ other_error
Shown deadline b send i out_of_waits =
    (is_limit (send i).answer ≡ true) × (count_sends is_limit send i ≡ 5)
Shown deadline b send i past_deadline = Lifts deadline (send i) (count_sends is_limit send i) true
Shown deadline b send i over_budget =
    (reset : ℕ) × (limit_lifts (send i).answer (send i).now (count_sends is_limit send i)
      ≡ some reset)
    × (covers (budget_before b send i) (send i) reset ≡ false)
Shown deadline b send i stopped_waiting =
    (is_limit (send i).answer ≡ true) × ((send i).slept ≡ false)
Shown deadline b send i still_failing =
    (is_server_error (send i).answer ≡ true) × (count_sends is_server_error send i ≡ 3)
Shown deadline b send i stopped_retrying =
    (is_server_error (send i).answer ≡ true) × ((send i).slept ≡ false)

-- A loop's result from send `k` on.
abbrev pub Ended :
    Option ℕ → WaitBudget → ℕ → (ℕ → Send) → Option (Called × ℕ × WaitBudget) → Type 0
Ended deadline b k send result =
    (out : Called) × (last : ℕ) × (b' : WaitBudget) × (result ≡ some (out, suc last, b'))
    × (k ≤ last)
    × (last ≤ 8)
    × Shown deadline b send last out
    × ((i : ℕ) → k ≤ i → i < last → Retried deadline b send i)

pub kinds :
    (a : Answer)
    → (a ≡ fine)
      ⊎ ((a ≡ other_error)
          ⊎ ((a ≡ server_error)
              ⊎ ((is_limit a ≡ true)
                  × (is_server_error a ≡ false)
                  × ((now waits : ℕ) → (reset : ℕ) × (limit_lifts a now waits ≡ some reset)))))
unfolding is_limit is_server_error limit_lifts
kinds fine = inl refl
kinds other_error = inr (inl refl)
kinds server_error = inr (inr (inl refl))
kinds (primary none date) = inr (inr (inr (refl, refl, λ now waits. (_, refl))))
kinds (primary (some reset) none) = inr (inr (inr (refl, refl, λ now waits. (_, refl))))
kinds (primary (some reset) (some date)) = inr (inr (inr (refl, refl, λ now waits. (_, refl))))
kinds (secondary none) = inr (inr (inr (refl, refl, λ now waits. (_, refl))))
kinds (secondary (some d)) = inr (inr (inr (refl, refl, λ now waits. (_, refl))))

pub lifts_never :
    {a b : Answer} (now waits : ℕ)
    → limit_lifts b now waits ≡ none
    → a ≡ b
    → limit_lifts a now waits ≡ none
lifts_never now waits never is = ap (λ (a : Answer). limit_lifts a now waits) is ∙ never

-- What a wait comes to.
abbrev pub Waited : Option ℕ → WaitBudget → ℕ → ℕ → Send → Option Called → Type 0
Waited deadline b waits reset s none =
    (waits ≢ 5)
    × (is_past deadline (resume_after reset s) ≡ false)
    × (s.slept ≡ true)
    × (covers b s reset ≡ true)
Waited deadline b waits reset s (some out_of_waits) = waits ≡ 5
Waited deadline b waits reset s (some past_deadline) =
    is_past deadline (resume_after reset s) ≡ true
Waited deadline b waits reset s (some over_budget) = covers b s reset ≡ false
Waited deadline b waits reset s (some stopped_waiting) = s.slept ≡ false
Waited deadline b waits reset s (some _) = ⊥

pub wait_out-Waited :
    (deadline : Option ℕ) (waits reset : ℕ) (b : WaitBudget) (s : Send)
    → Waited deadline b waits reset s (wait_out deadline waits reset b s).0
unfolding wait_out
wait_out-Waited deadline waits reset b s =
    let resume = resume_after reset s in
    let seen = (reserve_all b s.others []).0 in
    elim (Bool-cases (waits == rate_limit_waits)) [
      | inl full ↦ rw full ((==_iff waits 5).0 full)
      | inr room ↦ elim (Bool-cases (is_past deadline resume)) [
        | inl late ↦ rw (room, late) late
        | inr early ↦ elim (Bool-cases (reserve seen s.now resume).0) [
          | inr over ↦ rw (room, early, over) over
          | inl granted ↦ elim (Bool-cases s.slept) [
            | inl slept ↦
                rw (room, early, granted, slept) (ground (arith, room), early, refl, granted)
            | inr woken ↦ rw (room, early, granted, woken) refl
          ]
        ]
      ]
    ]

-- A wait that is served is charged.
pub wait_out-charged :
    (deadline : Option ℕ) (waits reset : ℕ) (b : WaitBudget) (s : Send)
    → (wait_out deadline waits reset b s).0 ≡ none
    → (wait_out deadline waits reset b s).1 ≡ (reserve (seen_by b s) s.now (resume_after reset s)).1
unfolding wait_out
wait_out-charged deadline waits reset b s h = ground arith
