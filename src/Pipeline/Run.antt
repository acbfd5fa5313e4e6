-- ===== src/Pipeline/Run.antt =====
-- internal/pipeline/backup.go, run: one run from its preflight to its manifest, with selectRepos and
-- uploadManifest. What the source lists and what the destination answers are values; what fanOut
-- returns is a function of what it is given.
pub mod Ends
use gitdr.Common.{
  ℕ, Bool, true, false, not, ◌&&◌, Option, none, some, List, [], ◌∷◌, ◌++◌, Text, GoMap, codes,
  text_eq, insert, is_nil, is_some, if◌then◌else◌, path_join, format_stamp,
}
use gitdr.Common.Results.{Result, ok, err, ◌>>=◌, ◌>>◌, guard, or_fail}
use gitdr.Pipeline.BackupOne.{named_for_recopy}
use gitdr.Pipeline.Manifest.{RepoEntry, status_failed, status_string}
use gitdr.Pipeline.Manifests.{Repo, slug, manifest_dir, manifest_suffix}
use gitdr.Pipeline.Manifests.Read.{Store, Codecs}
use gitdr.Pipeline.Previous.{PreviousCopy, holds_key, load_previous}
use gitdr.Pipeline.Retention.{
  Verdict, is_immutable, WormStatus, WormFault, worm_check, retention_window, retention_until,
  Observation, present, absent, not_checked, observe_retention,
}

pub data RunFault : Type 0 where
  preflight_failed : WormFault → RunFault
  unlisted no_repositories no_credential retention_dropped : RunFault

-- What a run is configured with and told. `fanned` is what fanOut makes of the repositories, of the
-- names to copy again, of the previous copies and of the instant that a write is locked until, none
-- for a destination that is not confirmed immutable.
pub record RunSetup : Type 0 where
  pub require_worm : Bool
  pub worm : Option WormStatus
  pub listed : Option (List Repo)
  pub authed : Bool
  pub days : ℕ
  pub recopy : List Text
  pub pub_key : Text
  pub clock : Text → Text → ℕ
  pub fanned : List Repo → List Text → GoMap PreviousCopy → Option ℕ → List RepoEntry
  pub observer : Option (Text → Observation)
  pub put : Text → Bool

-- The manifest, as far as the run decides it.
pub record RunManifest : Type 0 where
  pub finished_at : ℕ
  pub status : Text
  pub verdict : Verdict
  pub observed : Observation
  pub repos : List RepoEntry

-- BackupResult: the manifest, and `key`, where it is stored, empty where it or its signature is not.
-- With it what the run has done by then: `stored` lists the keys of the writes that the destination
-- took, in order, and `fails` is whether the run returns an error.
pub record Ran : Type 0 where
  pub manifest : RunManifest
  pub key : Text
  pub stored : List Text
  pub fails : Bool

abbrev pub checked_worm : WormStatus × Option WormFault → Result RunFault WormStatus
checked_worm (st, none) = ok st
checked_worm (st, some fault) = err (preflight_failed fault)

-- `selectRepos`, less the filter that the source applies.
unfoldable pub select_repos : Option (List Repo) → Result RunFault (List Repo)
select_repos none = err unlisted
select_repos (some []) = err no_repositories
select_repos (some (r ∷ repos)) = ok (r ∷ repos)

unfoldable pub selected_slugs : GoMap Bool → List Repo → GoMap Bool
selected_slugs selected [] = selected
selected_slugs selected (r ∷ repos) = selected_slugs (insert (slug r) true selected) repos

-- Whether no entry failed.
unfoldable pub none_failed : List RepoEntry → Bool
none_failed [] = true
none_failed (e ∷ entries) = not (text_eq e.status status_failed) && none_failed entries

abbrev pub is_absent : Observation → Bool
is_absent absent = true
is_absent present = false
is_absent not_checked = false

abbrev pub filing_key : Text → ℕ → Text
filing_key dir finished = path_join (dir ∷ (format_stamp finished ++ manifest_suffix) ∷ [])

abbrev pub signature_key : Text → Text
signature_key key = key ++ codes ".sig"

-- `uploadManifest`: the manifest and then its signature. The key, none where a write fails, and the
-- keys of the writes that the destination took.
unfoldable pub upload_manifest : (Text → Bool) → Text → ℕ → Option Text × List Text
upload_manifest put dir finished =
    let key = filing_key dir finished in
    if not (put key)
    then (none, [])
    else if not (put (signature_key key))
    then (none, key ∷ [])
    else (some key, key ∷ signature_key key ∷ [])

-- The end of the run.
unfoldable pub file_manifest : (Text → Bool) → Text → RunManifest → Ran
unfolding upload_manifest none_failed
file_manifest put dir m =
    let (filed, stored) = upload_manifest put dir m.finished_at in
    elim filed [
      | none ↦ record { manifest = m; key = []; stored = stored; fails = true }
      | some key ↦ record {
        manifest = m;
        key = key;
        stored = stored;
        fails = not (none_failed m.repos);
      }
    ]

abbrev pub lock_until : WormStatus → ℕ → ℕ → Option ℕ
lock_until st days now = if is_immutable st.verdict then some (retention_until now days) else none

-- What fanOut returns for the repositories selected, at the instant `now`.
unfoldable pub entries_of_run :
    Codecs → Store → RunSetup → WormStatus → List Repo → ℕ → List RepoEntry
unfolding selected_slugs named_for_recopy load_previous
entries_of_run c st s worm repos now =
    let selected = selected_slugs [] repos in
    s.fanned repos (named_for_recopy (λ name. holds_key name selected) s.recopy)
      (load_previous c st (some s.pub_key) (retention_window (some s.days) worm.period) s.clock now
        (some selected) (manifest_dir repos)).out
      (lock_until worm s.days now)

-- The manifest of a run, with what the run observes of its own objects.
unfoldable pub run_manifest :
    Codecs → Store → RunSetup → WormStatus → List Repo → ℕ → ℕ → RunManifest
unfolding entries_of_run observe_retention none_failed
run_manifest c st s worm repos now finish =
    let entries = entries_of_run c st s worm repos now in
    let seen = observe_retention worm.verdict s.observer entries in
    record {
      finished_at = finish;
      status = status_string (none_failed entries);
      verdict = seen.1;
      observed = seen.0;
      repos = entries;
    }

-- `run`: `now` stands for both readings of the clock before fanOut, the one that the lock is counted
-- from and the one that the previous copies are aged by; `finish` is when the run finishes.
unfoldable pub run : Codecs → Store → RunSetup → ℕ → ℕ → Result RunFault Ran
unfolding worm_check select_repos run_manifest file_manifest
run c st s now finish = do
  worm ← checked_worm (worm_check s.require_worm s.worm)
  repos ← select_repos s.listed
  guard s.authed no_credential
  let m = run_manifest c st s worm repos now finish
  guard (not (s.require_worm && is_absent m.observed)) retention_dropped
  ok (file_manifest s.put (manifest_dir repos) m)
