-- ===== src/Pipeline/Attempts.antt =====
-- internal/pipeline/backup.go, retry and fetchLFS: what is tried again, and until when. What an
-- attempt and the context answer comes as a function of the attempt's number.
pub mod Ends
use gitdr.Common.{
  ℕ, zero, suc, ◌+◌, ◌-◌, Bool, true, false, Option, none, some, if◌then◌else◌, ltb, ◌==◌,
}

-- The error of a context that is done, or the one that the attempt of this number failed with.
pub data RetryFault : Type 0 where
  cancelled : RetryFault
  failed_at : ℕ → RetryFault

-- An attempt: whether it fails, whether the context is done behind it, and whether it ends the wait.
pub record Try : Type 0 where
  pub fails : Bool
  pub stopped : Bool
  pub cut_short : Bool

-- The loop of `retry`, `left` rounds from attempt `i` on, `err` the error so far.
unfoldable pub retry_loop : ℕ → ℕ → (ℕ → Try) → Option RetryFault → Option RetryFault
retry_loop zero i attempt err = err
retry_loop (suc left) i attempt err =
    let again = retry_loop left (suc i) attempt (some (failed_at i)) in
    if (attempt i).fails
    then (if (attempt i).stopped
        then some cancelled
        else if ltb 0 left
        then (if (attempt i).cut_short then some cancelled else again)
        else again)
    else none

-- `retry`: none where an attempt succeeds.
unfoldable pub retry : ℕ → (ℕ → Try) → Option RetryFault
unfolding retry_loop
retry attempts attempt = retry_loop attempts 0 attempt none

-- One run of `git lfs fetch`: the credential, its error, the context, and the objects there are then.
pub record Fetch : Type 0 where
  pub authed : Bool
  pub fails : Bool
  pub stopped : Bool
  pub has : ℕ

pub data LfsFault : Type 0 where
  no_credential interrupted first_failed : LfsFault
  -- The attempt that fetched nothing, and what had been fetched before it.
  nothing_more : ℕ → ℕ → LfsFault

pub data Fetched : Type 0 where
  fetched : Fetched
  unfetched : LfsFault → Fetched

-- The loop of `fetchLFS` from an attempt on, with the objects there were before it. It has no bound
-- of its own: none means that the fuel ran out.
unfoldable pub fetch_loop : ℕ → ℕ → ℕ → (ℕ → Fetch) → Option Fetched
fetch_loop zero attempt had answer = none
fetch_loop (suc fuel) attempt had answer =
    let has = (answer attempt).has in
    let again = fetch_loop fuel (suc attempt) has answer in
    if (answer attempt).authed
    then (if (answer attempt).fails
        then (if (answer attempt).stopped
            then some (unfetched interrupted)
            else if ltb had has
            then again
            else if attempt == 1
            then some (unfetched first_failed)
            else some (unfetched (nothing_more attempt had)))
        else some fetched)
    else some (unfetched no_credential)

-- `fetchLFS`.
unfoldable pub fetch_lfs : ℕ → ℕ → (ℕ → Fetch) → Option Fetched
unfolding fetch_loop
fetch_lfs fuel had answer = fetch_loop fuel 1 had answer
