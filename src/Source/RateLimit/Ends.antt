-- ===== src/Source/RateLimit/Ends.antt =====
-- call: how often a request is sent, and what it ends with.
use mathlib.Core.Path.{subst}
use gitdr.Common.{
  ℕ, zero, suc, ◌+◌, ◌≤◌, ◌<◌, ◌≡◌, ◌≢◌, ◌⊎◌, refl, sym, ◌∙◌, inl, inr, true, false, Option, none,
  some, arith, ◌==◌, ==_iff, Bool-cases,
}
use gitdr.Source.RateLimit.{
  fine, server_error, other_error, Send, WaitBudget, Called, answered, refused, out_of_waits,
  past_deadline, over_budget, stopped_waiting, still_failing, stopped_retrying, limit_lifts,
  wait_out, server_error_attempts, call_loop, call,
}
use gitdr.Source.RateLimit.Turns.{
  is_limit, is_server_error, count_sends, budget_before, wait_out-charged, Retried, Shown, Ended,
  kinds, lifts_never, Waited, wait_out-Waited,
}

ends_here :
    (deadline : Option ℕ) (b0 : WaitBudget) (k : ℕ) (send : ℕ → Send) (out : Called)
    (b : WaitBudget) {result : Option (Called × ℕ × WaitBudget)}
    → result ≡ some (out, suc k, b)
    → k ≤ 8
    → Shown deadline b0 send k out
    → Ended deadline b0 k send result
ends_here deadline b0 k send out b e small shown =
    (out, k, b, e, omega arith, small, shown, λ i from lt. absurd (omega arith))

ends_later :
    (deadline : Option ℕ) (b0 : WaitBudget) (k : ℕ) (send : ℕ → Send)
    {result later : Option (Called × ℕ × WaitBudget)}
    → result ≡ later
    → Retried deadline b0 send k
    → Ended deadline b0 (suc k) send later
    → Ended deadline b0 k send result
ends_later deadline b0 k send e retried (out, last, b, e', low, high, shown, before) = (
  out,
  last,
  b,
  e ∙ e',
  omega arith,
  high,
  shown,
  λ i from lt. elim (Bool-cases (k == i)) [
    | inl same ↦ subst (Retried deadline b0 send) ((==_iff k i).0 same) retried
    | inr other ↦ before i (ground (arith, other)) lt
  ],
)

-- The state of the loop at send `k`.
abbrev At : WaitBudget → ℕ → (ℕ → Send) → ℕ → ℕ → WaitBudget → Type 0
At b0 k send waits server_errors b =
    (b ≡ budget_before b0 send k)
    × (k ≡ waits + server_errors)
    × (count_sends is_limit send k ≡ waits)
    × (count_sends is_server_error send k ≡ server_errors)
    × (waits ≤ 5)
    × (server_errors ≤ 3)

module _ (deadline : Option ℕ) (b0 : WaitBudget) (send : ℕ → Send) where
  Waited-Shown :
      (k waits reset : ℕ) (b : WaitBudget) (out : Called)
      → b ≡ budget_before b0 send k
      → count_sends is_limit send k ≡ waits
      → is_limit (send k).answer ≡ true
      → limit_lifts (send k).answer (send k).now (count_sends is_limit send k) ≡ some reset
      → Waited deadline b waits reset (send k) (some out)
      → Shown deadline b0 send k out
  Waited-Shown k waits reset b answered is_b count limit lifts w = absurd w
  Waited-Shown k waits reset b refused is_b count limit lifts w = absurd w
  Waited-Shown k waits reset b out_of_waits is_b count limit lifts w = (limit, count ∙ w)
  Waited-Shown k waits reset b past_deadline is_b count limit lifts w = (reset, lifts, w)
  Waited-Shown k waits reset b over_budget is_b count limit lifts w = (reset, lifts, rw (← is_b) w)
  Waited-Shown k waits reset b stopped_waiting is_b count limit lifts w = (limit, w)
  Waited-Shown k waits reset b still_failing is_b count limit lifts w = absurd w
  Waited-Shown k waits reset b stopped_retrying is_b count limit lifts w = absurd w

  -- The loop where send `k` meets a limit.
  limit-Ended :
      (fuel k waits server_errors reset : ℕ) (b : WaitBudget)
      → At b0 k send waits server_errors b
      → is_limit (send k).answer ≡ true
      → limit_lifts (send k).answer (send k).now waits ≡ some reset
      → (o : Option Called) → o ≡ (wait_out deadline waits reset b (send k)).0
      → Waited deadline b waits reset (send k) o
      → ((b' : WaitBudget)
          → b' ≡ budget_before b0 send (suc k)
          → waits ≢ 5
          → Ended deadline b0
              (suc k)
              send
              (call_loop fuel deadline (suc k) (waits + 1) server_errors b' send))
      → Ended deadline b0 k send (call_loop (suc fuel) deadline k waits server_errors b send)
  unfolding call_loop budget_before
  limit-Ended fuel k waits server_errors reset b (is_b, sum, count, _, _, _) limit lifts none e
        (room, early, slept, covered) again =
      let b' = (wait_out deadline waits reset b (send k)).1 in
      let charged : b' ≡ budget_before b0 send (suc k) =
        wait_out-charged deadline waits reset b (send k) (sym e)
        ∙ rw (budget_before, count, lifts, ← is_b) refl in
      ends_later deadline b0 k send
        {later = call_loop fuel deadline (suc k) (waits + 1) server_errors b' send}
        (rw (call_loop, lifts, ← e) refl)
        (slept, inr (reset, rw count lifts, early, rw (← is_b) covered)) (again b' charged room)
  limit-Ended fuel k waits server_errors reset b (is_b, sum, count, _, few, fewer) limit lifts
        (some out) e waited again =
      ends_here deadline b0 k send out (wait_out deadline waits reset b (send k)).1
        (rw (call_loop, lifts, ← e) refl) (omega arith)
        (Waited-Shown k waits reset b out is_b count limit (rw count lifts) waited)

  -- The loop where send `k` meets a 5xx.
  server-Ended :
      (fuel k waits server_errors : ℕ) (b : WaitBudget)
      → At b0 k send waits server_errors b
      → (send k).answer ≡ server_error
      → (server_errors < 3
          → Ended deadline b0
              (suc k)
              send
              (call_loop fuel deadline (suc k) waits (server_errors + 1) b send))
      → Ended deadline b0 k send (call_loop (suc fuel) deadline k waits server_errors b send)
  unfolding call_loop is_server_error
  server-Ended fuel k waits server_errors b (is_b, sum, _, count, few, fewer) is again =
      let never : limit_lifts (send k).answer (send k).now waits ≡ none =
        lifts_never (send k).now waits (unfold limit_lifts in refl) is in
      elim (Bool-cases (server_errors + 1 == server_error_attempts)) [
        | inl last ↦
            ends_here deadline b0 k send still_failing b (rw (call_loop, never, is, last) refl)
              (omega arith)
              (rw is refl, count ∙ ground (arith, (==_iff (server_errors + 1) 4).0 last))
        | inr more ↦ elim (Bool-cases (send k).slept) [
          | inl slept ↦
              ends_later deadline b0 k send
                {later = call_loop fuel deadline (suc k) waits (server_errors + 1) b send}
                (rw (call_loop, never, is, more, slept) refl) (slept, inl (rw is refl))
                (again (ground (arith, more)))
          | inr woken ↦
              ends_here deadline b0 k send stopped_retrying b
                (rw (call_loop, never, is, more, woken) refl) (omega arith) (rw is refl, woken)
        ]
      ]

  once-Ended :
      (fuel k waits server_errors : ℕ) (b : WaitBudget)
      → At b0 k send waits server_errors b
      → ((send k).answer ≡ fine) ⊎ ((send k).answer ≡ other_error)
      → Ended deadline b0 k send (call_loop (suc fuel) deadline k waits server_errors b send)
  unfolding call_loop
  once-Ended fuel k waits server_errors b (is_b, sum, _, _, few, fewer) (inl is) =
      let never : limit_lifts (send k).answer (send k).now waits ≡ none =
        lifts_never (send k).now waits (unfold limit_lifts in refl) is in
      ends_here deadline b0 k send answered b (rw (call_loop, never, is) refl) (omega arith) is
  once-Ended fuel k waits server_errors b (is_b, sum, _, _, few, fewer) (inr is) =
      let never : limit_lifts (send k).answer (send k).now waits ≡ none =
        lifts_never (send k).now waits (unfold limit_lifts in refl) is in
      ends_here deadline b0 k send refused b (rw (call_loop, never, is) refl) (omega arith) is

  At-limit :
      (k waits server_errors : ℕ) (b : WaitBudget)
      → At b0 k send waits server_errors b
      → is_limit (send k).answer ≡ true
      → is_server_error (send k).answer ≡ false
      → waits ≢ 5
      → (b' : WaitBudget) → b' ≡ budget_before b0 send (suc k)
      → At b0 (suc k) send (waits + 1) server_errors b'
  unfolding count_sends
  At-limit k waits server_errors b (is_b, sum, count, count', few, fewer) limit not_server room b'
        is_b' =
      (
        is_b',
        omega arith,
        rw (limit, count) refl,
        rw (not_server, count') (omega arith),
        omega arith,
        fewer,
      )

  At-server :
      (k waits server_errors : ℕ) (b : WaitBudget)
      → At b0 k send waits server_errors b
      → (send k).answer ≡ server_error
      → server_errors < 3
      → At b0 (suc k) send waits (server_errors + 1) b
  unfolding count_sends is_limit is_server_error budget_before
  At-server k waits server_errors b (is_b, sum, count, count', few, fewer) is room =
      let never : limit_lifts (send k).answer (send k).now (count_sends is_limit send k) ≡ none =
        lifts_never {b = server_error} (send k).now (count_sends is_limit send k)
          (unfold limit_lifts in refl) is in
      (
        rw (budget_before, never) is_b,
        omega arith,
        rw (is, count) (omega arith),
        rw (is, count') refl,
        few,
        omega arith,
      )

  call_loop-Ended :
      (fuel k waits server_errors : ℕ) (b : WaitBudget)
      → At b0 k send waits server_errors b
      → 9 ≤ fuel + k
      → Ended deadline b0 k send (call_loop fuel deadline k waits server_errors b send)
  call_loop-Ended zero k waits server_errors b (is_b, sum, _, _, few, fewer) enough =
      absurd (omega arith)
  call_loop-Ended (suc fuel) k waits server_errors b at enough = elim (kinds (send k).answer) [
    | inl is ↦ once-Ended fuel k waits server_errors b at (inl is)
    | inr (inl is) ↦ once-Ended fuel k waits server_errors b at (inr is)
    | inr (inr (inl is)) ↦ server-Ended fuel k waits server_errors b at is (λ room.
        call_loop-Ended fuel (suc k) waits (server_errors + 1) b
          (At-server k waits server_errors b at is room) (omega arith))
    | inr (inr (inr (limit, not_server, lifts))) ↦
        let (reset, l) = lifts (send k).now waits in
        limit-Ended fuel k waits server_errors reset b at limit l
          (wait_out deadline waits reset b (send k)).0 refl
          (wait_out-Waited deadline waits reset b (send k))
          (λ b' is_b' room.
            call_loop-Ended fuel (suc k) (waits + 1) server_errors b'
              (At-limit k waits server_errors b at limit not_server room b' is_b') (omega arith))
  ]

-- A request is sent at most nine times, and how it ends is what its last send shows. Whatever GitHub
-- answers and the budget grants, the call ends after a last send. It succeeds if that one is
-- answered and gives back at once an error that is neither a limit nor a 5xx. It gives up on a limit
-- that five waits were served for, whose wait would pass the deadline, that the budget refuses, or whose
-- wait is broken off; and on a 5xx that is the fourth, or whose wait is broken off. Every send before
-- the last met a 5xx or a limit; it was waited for to the end, for a limit up to an instant that is
-- not past the deadline, and the budget covered that wait. The budget that a send meets is what the
-- waits of the sends before it and of the other requests have left of it.
pub call-ends :
    (deadline : Option ℕ) (b : WaitBudget) (send : ℕ → Send)
    → (out : Called) × (last : ℕ) × (b' : WaitBudget) × (call deadline b send
        ≡ some (out, suc last, b'))
      × (last ≤ 8)
      × Shown deadline b send last out
      × ((i : ℕ) → i < last → Retried deadline b send i)
unfolding call count_sends budget_before
call-ends deadline b send =
    let (out, last, b', e, _, few, shown, before) =
      call_loop-Ended deadline b send 9 0 0 0 b (refl, refl, refl, refl, omega arith, omega arith)
        (omega arith) in
    (out, last, b', e, few, shown, λ i lt. before i (omega arith) lt)
