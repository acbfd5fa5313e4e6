-- ===== src/Samples/FanOut.antt =====
-- A run of one repository, a fetch of large files, and requests that meet a limit.
use gitdr.Common.{
  ℕ, ◌-◌, ◌≤◌, ◌≡◌, ◌≢◌, ◌⊎◌, refl, arith, true, false, none, some, [], ◌∷◌, Text, codes, text_eq,
  if◌then◌else◌, ◌==◌, Rearranged,
}
use gitdr.Pipeline.Manifest.{RepoEntry, status_success, status_failed}
use gitdr.Pipeline.FanOut.{
  State, returned, update, start, launch, all_started, finish, leave, all_done, Reach, here, later,
  at_least_one, settle, mark_stopped,
}
use gitdr.Pipeline.FanOut.Settled.{Settled}
use gitdr.Pipeline.FanOut.Events.{recorded, returned_lem}
use gitdr.Pipeline.FanOut.Ends.{moves, Going, OwnMove, ends_lem}
use gitdr.Pipeline.Attempts.{
  Fetch, Fetched, fetched, fetch_lfs, fetch_loop, retry, retry_loop, cancelled,
}
use gitdr.Pipeline.Attempts.Ends.{Outcome, fetch_lfs-ends}

abbrev slug_at : ℕ → Text
slug_at i = codes "group/one"

abbrev one_entry : RepoEntry
one_entry = record {
  slug = slug_at 0;
  status = status_success;
  error = [];
  reason = [];
  artifacts = [];
  refs = [];
  copied_at = none;
}

-- The run when it has returned.
abbrev last_state : State
last_state = record {
  phase = returned;
  next = 1;
  stopped = false;
  held = [];
  working = update (update (λ _. false) 0 true) 0 false;
  settled = update (λ _. none) 0 (some one_entry);
  progress = λ _. [];
  events = one_entry ∷ [];
}

abbrev one_run : Reach slug_at [] 1 1 start last_state
unfolding start at_least_one settle mark_stopped text_eq status_success status_failed
one_run =
    later
      (later
        (later
          (later (later here (launch refl (omega arith) refl (omega arith)))
            (finish 0 one_entry false refl refl (λ h. h)))
          (leave 0 [] [] refl refl))
        (all_started refl refl))
      (all_done refl refl)

returned_lem_example :
    Settled slug_at 1 last_state.settled
    × Rearranged (recorded 1 last_state.settled) last_state.events
    × ((t : State)
        → Reach slug_at [] 1 1 last_state t
        → (t.settled ≡ last_state.settled) × (t.events ≡ last_state.events))
returned_lem_example = returned_lem slug_at [] 1 1 one_run refl

ends_lem_example :
    (moves slug_at [] 1 1 one_run ≤ 7)
    × (last_state.phase ≢ returned → Going slug_at [] 1 1 last_state)
    × (last_state.phase ≢ returned → last_state.stopped ≡ true → OwnMove slug_at [] 1 1 last_state)
ends_lem_example = ends_lem slug_at [] 1 1 one_run

-- Two objects: the first attempt leaves one, the second succeeds.
abbrev two_fetches : ℕ → Fetch
two_fetches k = record {
  authed = true;
  fails = k == 1;
  stopped = false;
  has = if k == 1 then 1 else 2;
}

two_fetches_few : (i : ℕ) → (two_fetches i).has ≤ 2
two_fetches_few i = ground arith

fetch_lfs-ends_example :
    (last : ℕ) × (before : ℕ) × (out : Fetched) × (fetch_lfs 3 0 two_fetches ≡ some out)
    × (1 ≤ last)
    × (last ≤ 3)
    × (((last ≡ 1) × (before ≡ 0)) ⊎ (before ≡ (two_fetches (last - 1)).has))
    × Outcome (two_fetches last) before last out
fetch_lfs-ends_example = fetch_lfs-ends 3 0 2 two_fetches two_fetches_few (omega arith)

fetches_twice : fetch_lfs 3 0 two_fetches ≡ some fetched
unfolding fetch_lfs fetch_loop
fetches_twice = refl

-- A clone that fails twice and then is told to stop.
gives_up_early :
    retry 3 (λ i. record { fails = true; stopped = 0 == i - 1; cut_short = i == 1 })
    ≡ some cancelled
unfolding retry retry_loop
gives_up_early = refl
