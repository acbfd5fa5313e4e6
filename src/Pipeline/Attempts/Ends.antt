-- ===== src/Pipeline/Attempts/Ends.antt =====
-- retry and fetchLFS: how many attempts there are, and what they come to.
use gitdr.Common.{
  ℕ, zero, suc, ◌+◌, ◌-◌, ◌≤◌, ◌<◌, ◌≡◌, ◌⊎◌, refl, inl, inr, true, false, none, some, arith, ltb,
  ltb→lt, ◌==◌, ==_iff, Bool-cases, ap, ◌∙◌,
}
use gitdr.Pipeline.Attempts.{
  Try, RetryFault, failed_at, retry_loop, retry, Fetch, Fetched, fetched, unfetched, interrupted,
  no_credential, first_failed, nothing_more, fetch_loop, fetch_lfs,
}

-- What the fetch came to at attempt `k`, after `before` objects.
abbrev pub Outcome : Fetch → ℕ → ℕ → Fetched → Type 0
Outcome f before k fetched = (f.authed ≡ true) × (f.fails ≡ false)
Outcome f before k (unfetched no_credential) = f.authed ≡ false
Outcome f before k (unfetched interrupted) = (f.fails ≡ true) × (f.stopped ≡ true)
Outcome f before k (unfetched first_failed) = (f.fails ≡ true) × (k ≡ 1) × (f.has ≤ before)
Outcome f before k (unfetched (nothing_more at had)) =
    (f.fails ≡ true) × (at ≡ k) × (had ≡ before) × (f.has ≤ before)

-- The loop ends at attempt `last`, of no more than there are objects still to come, with what that
-- attempt came to after the one before it.
abbrev Ended : ℕ → ℕ → ℕ → ℕ → (ℕ → Fetch) → Type 0
Ended fuel k had total answer =
    (last : ℕ) × (before : ℕ) × (out : Fetched) × (fetch_loop fuel k had answer ≡ some out)
    × (k ≤ last)
    × (last ≤ k + (total - had))
    × (((last ≡ k) × (before ≡ had)) ⊎ (before ≡ (answer (last - 1)).has))
    × Outcome (answer last) before last out

ends_here :
    (fuel k had total : ℕ) (answer : ℕ → Fetch) (out : Fetched)
    → fetch_loop fuel k had answer ≡ some out
    → Outcome (answer k) had k out
    → Ended fuel k had total answer
ends_here fuel k had total answer out e h =
    (k, had, out, e, omega arith, omega arith, inl (refl, refl), h)

ends_later :
    (fuel k had total : ℕ) (answer : ℕ → Fetch)
    → fetch_loop (suc fuel) k had answer ≡ fetch_loop fuel (suc k) (answer k).has answer
    → had < (answer k).has
    → (answer k).has ≤ total
    → Ended fuel (suc k) (answer k).has total answer
    → Ended (suc fuel) k had total answer
ends_later fuel k had total answer e more most (last, before, out, e', low, high, seen, h) =
    (last, before, out, e ∙ e', omega arith, omega arith, inr (seen_before seen), h)
  where
    seen_before :
        ((last ≡ suc k) × (before ≡ (answer k).has)) ⊎ (before ≡ (answer (last - 1)).has)
        → before ≡ (answer (last - 1)).has
    seen_before (inl (at, b)) = b ∙ ap (λ (i : ℕ). (answer i).has) (omega arith)
    seen_before (inr b) = b

not-ltb : (a b : ℕ) → ltb a b ≡ false → b ≤ a
not-ltb a b h = ground arith

fetch_loop-ends :
    (fuel k had total : ℕ) (answer : ℕ → Fetch)
    → ((i : ℕ) → (answer i).has ≤ total)
    → total - had < fuel
    → Ended fuel k had total answer
unfolding fetch_loop
fetch_loop-ends zero k had total answer most h = absurd (omega arith)
fetch_loop-ends (suc fuel) k had total answer most h = elim (Bool-cases (answer k).authed) [
  | inr refused ↦
      ends_here (suc fuel) k had total answer (unfetched no_credential) (rw refused refl) refused
  | inl authed ↦ elim (Bool-cases (answer k).fails) [
    | inr good ↦
        ends_here (suc fuel) k had total answer fetched (rw (authed, good) refl) (authed, good)
    | inl bad ↦ elim (Bool-cases (answer k).stopped) [
      | inl off ↦
          ends_here (suc fuel) k had total answer (unfetched interrupted)
            (rw (authed, bad, off) refl) (bad, off)
      | inr on ↦ elim (Bool-cases (ltb had (answer k).has)) [
        | inl more ↦
            ends_later fuel k had total answer (rw (authed, bad, on, more) refl)
              (ltb→lt had (answer k).has more) (most k)
              (fetch_loop-ends fuel (suc k) (answer k).has total answer most
                (omega (arith, ltb→lt had (answer k).has more, most k)))
        | inr nothing ↦ elim (Bool-cases (k == 1)) [
          | inl first ↦
              ends_here (suc fuel) k had total answer (unfetched first_failed)
                (rw (authed, bad, on, nothing, first) refl)
                (bad, (==_iff k 1).0 first, not-ltb had (answer k).has nothing)
          | inr again ↦
              ends_here (suc fuel) k had total answer (unfetched (nothing_more k had))
                (rw (authed, bad, on, nothing, again) refl)
                (bad, refl, refl, not-ltb had (answer k).has nothing)
        ]
      ]
    ]
  ]
]

-- The LFS fetch ends. Where the mirror can come to hold at most `total` objects, fuel above what is
-- missing of them is enough for an answer: it comes at an attempt that at most that many others
-- stand before. The answer is what that attempt shows: the fetch succeeded, or the credential was
-- refused, or the context was done, or the attempt failed and left no more objects than there were
-- before it, which are those of the start or of the attempt before.
pub fetch_lfs-ends :
    (fuel had total : ℕ) (answer : ℕ → Fetch)
    → ((i : ℕ) → (answer i).has ≤ total)
    → total - had < fuel
    → (last : ℕ) × (before : ℕ) × (out : Fetched) × (fetch_lfs fuel had answer ≡ some out)
      × (1 ≤ last)
      × (last ≤ 1 + (total - had))
      × (((last ≡ 1) × (before ≡ had)) ⊎ (before ≡ (answer (last - 1)).has))
      × Outcome (answer last) before last out
unfolding fetch_lfs
fetch_lfs-ends fuel had total answer most h = fetch_loop-ends fuel 1 had total answer most h

retry_loop-none :
    (left i : ℕ) (attempt : ℕ → Try) (err : RetryFault)
    → retry_loop left i attempt (some err) ≡ none
    → (k : ℕ) × (k < i + left) × ((attempt k).fails ≡ false)
unfolding retry_loop
retry_loop-none zero i attempt err h = cc
retry_loop-none (suc left) i attempt err h = elim (Bool-cases (attempt i).fails) [
  | inr good ↦ (i, omega arith, good)
  | inl bad ↦
      let (k, lt, good) = retry_loop-none left (suc i) attempt (failed_at i) (ground arith) in
      (k, omega arith, good)
]

-- A retry that returns no error has made an attempt that succeeded.
pub retry-none :
    (attempts : ℕ) (attempt : ℕ → Try)
    → retry (suc attempts) attempt ≡ none
    → (k : ℕ) × (k < suc attempts) × ((attempt k).fails ≡ false)
unfolding retry retry_loop
retry-none attempts attempt h = elim (Bool-cases (attempt 0).fails) [
  | inr good ↦ (0, omega arith, good)
  | inl bad ↦
      let (k, lt, good) = retry_loop-none attempts 1 attempt (failed_at 0) (ground arith) in
      (k, omega arith, good)
]
