-- ===== src/Pipeline/FanOut.antt =====
-- internal/pipeline/backup.go, fanOut: the repositories of a run copied at once, as a step relation.
-- One step is what a goroutine or the run itself does between two of its waits; what backupOne
-- returns and when, what is written meanwhile, and when the context is done, the steps choose.
pub mod Settled
pub mod Events
pub mod Ends
use gitdr.Common.{
  ℕ, zero, suc, ◌+◌, ◌≤◌, ◌<◌, ◌≡◌, ◌≢◌, Bool, true, false, ◌&&◌, Option, none, some, List, [], ◌∷◌,
  ◌++◌, Text, GoMap, codes, text_eq, lookup, insert, length, if◌then◌else◌, ◌==◌,
}
use gitdr.Pipeline.Manifest.{RepoEntry, ArtifactInfo, status_failed}

-- `failedEntry`, with the error's message.
unfoldable pub failed_entry : Text → Text → RepoEntry
failed_entry slug error = record {
  slug = slug;
  status = status_failed;
  error = error;
  reason = [];
  artifacts = [];
  refs = [];
  copied_at = none;
}

unfoldable pub stopped_before : Text
stopped_before = codes "stopped before it finished"

-- `copyProgress.wrote`: what a repository has written, by kind.
unfoldable pub wrote : ArtifactInfo → GoMap ArtifactInfo → GoMap ArtifactInfo
wrote a progress = insert a.kind a progress

unfoldable pub written_loop : GoMap ArtifactInfo → List Text → List ArtifactInfo
written_loop progress [] = []
written_loop progress (kind ∷ kinds) = elim (lookup kind progress) [
  | some a ↦ a ∷ written_loop progress kinds
  | none ↦ written_loop progress kinds
]

-- `copyProgress.written`: in the order in which a manifest lists them.
unfoldable pub written : GoMap ArtifactInfo → List ArtifactInfo
unfolding written_loop
written progress =
    written_loop progress (codes "bundle" ∷ codes "meta" ∷ codes "sha256" ∷ codes "lfs" ∷ [])

-- What the run is at: starting repositories, recording those it does not start, waiting for those
-- in flight, and done.
pub data Phase : Type 0 where
  starting refusing waiting returned : Phase

-- The tables are indexed by a repository's place in the list. `held` is who holds a place of the
-- semaphore, and `working` whose backupOne is still to be settled.
pub record State : Type 0 where
  pub phase : Phase
  pub next : ℕ
  pub stopped : Bool
  pub held : List ℕ
  pub working : ℕ → Bool
  pub settled : ℕ → Option RepoEntry
  pub progress : ℕ → GoMap ArtifactInfo
  pub events : List RepoEntry

abbrev pub update {ℓ} : {A : Type ℓ} → (ℕ → A) → ℕ → A → ℕ → A
update f i v j = if j == i then v else f j

-- `limit`, the concurrency: at least one.
unfoldable pub at_least_one : ℕ → ℕ
at_least_one zero = 1
at_least_one (suc n) = suc n

-- `settle`: the first entry of a repository stays, and its event is written then.
unfoldable pub settle : ℕ → RepoEntry → State → State
settle i e s = elim (s.settled i) [
  | some _ ↦ s
  | none ↦ record s { settled = update s.settled i (some e); events = e ∷ s.events }
]

-- What the goroutine makes of an entry that failed once the run was stopped.
unfoldable pub mark_stopped : Bool → RepoEntry → RepoEntry
unfolding stopped_before
mark_stopped seen e =
    if text_eq e.status status_failed && seen
    then record e { error = stopped_before ++ codes ": " ++ e.error }
    else e

unfoldable pub start : State
start = record {
  phase = starting;
  next = 0;
  stopped = false;
  held = [];
  working = λ _. false;
  settled = λ _. none;
  progress = λ _. [];
  events = [];
}

module _ (slug_at : ℕ → Text) (cause : Text) where
  unfoldable pub refused_entry : ℕ → RepoEntry
  unfolding failed_entry stopped_before
  refused_entry i = failed_entry (slug_at i) (stopped_before ++ codes ": " ++ cause)

  -- The entry of one still running when the wait ends, with what it has written.
  unfoldable pub abandoned_entry : State → ℕ → RepoEntry
  unfolding failed_entry stopped_before
  abandoned_entry s i =
      record (failed_entry (slug_at i)
        (stopped_before ++ codes ": " ++ cause ++ codes "; still running 30s after the stop")) {
          artifacts = written (s.progress i);
        }

  -- The last loop: the repositories from `i` on, `k` of them, those not settled recorded.
  unfoldable pub abandon : ℕ → ℕ → State → State
  unfolding settle
  abandon zero i s = s
  abandon (suc k) i s = abandon k (suc i) (settle i (abandoned_entry s i) s)

  -- `n` repositories, at most `limit` of them at once.
  pub data Step (n limit : ℕ) (s : State) : State → Type 0 where
    -- The context is done: at the deadline, or on a stop signal.
    stop : s.stopped ≡ false → Step n limit s (record s { stopped = true })
    launch :
        s.phase ≡ starting
        → s.next < n
        → s.stopped ≡ false
        → length s.held < at_least_one limit
        → Step n limit s (record s {
          next = suc s.next;
          held = s.next ∷ s.held;
          working = update s.working s.next true;
        })
    -- The loop breaks off, or has started them all.
    break_off :
        s.phase ≡ starting
        → s.next < n
        → s.stopped ≡ true
        → Step n limit s (record s { phase = refusing })
    all_started : s.phase ≡ starting → s.next ≡ n → Step n limit s (record s { phase = waiting })
    refuse :
        s.phase ≡ refusing
        → s.next < n
        → Step n limit s (record (settle s.next (refused_entry s.next) s) { next = suc s.next })
    all_refused : s.phase ≡ refusing → s.next ≡ n → Step n limit s (record s { phase = waiting })
    -- A repository in flight writes an artifact.
    write :
        (i : ℕ) (a : ArtifactInfo)
        → s.working i ≡ true
        → Step n limit s (record s { progress = update s.progress i (wrote a (s.progress i)) })
    -- backupOne returns: `seen` is what the goroutine read of the context before it settled.
    finish :
        (i : ℕ) (e : RepoEntry) (seen : Bool)
        → s.working i ≡ true
        → e.slug ≡ slug_at i
        → (seen ≡ true → s.stopped ≡ true)
        → Step n limit s
            (record (settle i (mark_stopped seen e) s) { working = update s.working i false })
    -- A goroutine that has settled gives its place back.
    leave :
        (i : ℕ) (before after : List ℕ)
        → s.working i ≡ false
        → s.held ≡ before ++ (i ∷ after)
        → Step n limit s (record s { held = before ++ after })
    all_done : s.phase ≡ waiting → s.held ≡ [] → Step n limit s (record s { phase = returned })
    -- The wait for those in flight ends before they do.
    give_up :
        s.phase ≡ waiting
        → s.stopped ≡ true
        → Step n limit s (record (abandon n 0 s) { phase = returned })

  pub data Reach (n limit : ℕ) (s : State) : State → Type 0 where
    here : Reach n limit s s
    later : {t u : State} → Reach n limit s t → Step n limit t u → Reach n limit s u
