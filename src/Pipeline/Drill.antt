-- ===== src/Pipeline/Drill.antt =====
-- internal/pipeline/drill.go: the repositories of a manifest restored and compared, and the report
-- of it filed (with CompareSourceRefs of refs.go). What git and the disk answer for a repository
-- comes by its slug.
pub mod Run
pub mod Proves
pub mod Report
use gitdr.Common.{
  ℕ, zero, suc, Bool, true, false, not, ◌&&◌, ◌||◌, Option, none, some, List, [], ◌∷◌, ◌++◌, map,
  Text, GoMap, codes, text_eq, length, take, is_nil, is_some, if◌then◌else◌, ltb, ◌==◌, slash,
  split_slash, sort_by, path_join, path_dir, format_stamp, to_upper, trim_space,
}
use gitdr.Common.Results.{Result, ok, err, ◌>>=◌, ◌>>◌, guard, or_fail}
use gitdr.Pipeline.Attempts.{Try, RetryFault, retry}
use gitdr.Pipeline.Manifest.{RepoEntry, ArtifactInfo, status_success, status_failed, status_string}
use gitdr.Pipeline.Manifests.{newest_manifest}
use gitdr.Pipeline.Manifests.Read.{Store, Codecs, ManifestDoc, load_manifest}
use gitdr.Pipeline.Manifests.Read
use gitdr.Pipeline.Refs.{BundleRef, RefMismatch, RefComparison, compare_refs, comparison_ok}
use gitdr.Pipeline.Restore.{Machine, RestoreResult, restore}
use gitdr.Pipeline.RestoreChecks.{
  KeyParts, RestoreChecks, RestoreRequest, RestoreFault, split_artifact_key, recorded_checks,
}
use gitdr.Pipeline.Resume.{artifact_keys}
use gitdr.Pipeline.Retention.{WormStatus, is_immutable, retention_until}
use gitdr.Pipeline.Unchanged.{entries_to_refs}

pub data DrillFault : Type 0 where
  unreadable_slug no_artifact_key no_recorded_bundle no_work_dir : DrillFault
  unrestored : RestoreFault → DrillFault
  -- The restored refs could not be read, or they are not what the source advertised.
  refs_again_unread unlike_source : DrillFault

-- What a drill of one repository is told by the machine it runs on: for the restore, and when the
-- restored refs are read a second time.
pub record DrillMachine : Type 0 where
  pub made_dir : Bool
  pub restoring : Machine
  pub refs_again : Option (GoMap Text)
  pub head_again : Text

-- Where the declared object of a mismatch is from.
pub data DrillMismatch : Type 0 where
  of_bundle of_source : RefMismatch → DrillMismatch

-- `fault` is the value behind the error's message.
pub record DrillRepo : Type 0 where
  pub slug : Text
  pub status : Text
  pub fault : Option DrillFault
  pub source_refs : ℕ
  pub bundle_refs : ℕ
  pub restored_refs : ℕ
  pub unreferenced : List Text
  pub source_match : Option Bool
  pub mismatches : List DrillMismatch

unfoldable pub locate_in : List ArtifactInfo → Option KeyParts
unfolding split_artifact_key
locate_in [] = none
locate_in (a ∷ artifacts) = elim (split_artifact_key a.key) [
  | some parts ↦ some parts
  | none ↦ locate_in artifacts
]

-- `locate`.
unfoldable pub locate : RepoEntry → Result DrillFault KeyParts
unfolding locate_in split_slash
locate e = elim (locate_in e.artifacts) [
  | some parts ↦ ok parts
  | none ↦ err (if ltb 1 (length (split_slash e.slug)) then no_artifact_key else unreadable_slug)
]

abbrev pub located : KeyParts → RestoreRequest
located parts = record {
  manifest_key = [];
  host = parts.host;
  owner = parts.owner;
  name = parts.name;
  date = parts.date;
}

-- What the drilled manifest records of the entry's artifacts.
abbrev pub entry_checks : Text → Text → RepoEntry → KeyParts → RestoreChecks
entry_checks manifest_key pub_key e parts =
    let keys = artifact_keys parts.host parts.owner parts.name parts.date in
    recorded_checks manifest_key pub_key e keys.0 keys.2

-- The checks handed to the restore: those of a manifest that was verified.
unfoldable pub verified_checks :
    Text → Option Text → RepoEntry → KeyParts → Result DrillFault (Option RestoreChecks)
unfolding artifact_keys recorded_checks
verified_checks manifest_key none e parts = ok none
verified_checks manifest_key (some pub_key) e parts = do
  guard (not (is_nil (entry_checks manifest_key pub_key e parts).bundle_sha)) no_recorded_bundle
  ok (some (entry_checks manifest_key pub_key e parts))

abbrev pub or_unrestored : Result RestoreFault RestoreResult → Result DrillFault RestoreResult
or_unrestored (ok res) = ok res
or_unrestored (err e) = err (unrestored e)

-- The range over the source's refs.
unfoldable pub as_declared : GoMap Text → List BundleRef
as_declared [] = []
as_declared ((name, oid) ∷ refs) = record { name = name; oid = oid } ∷ as_declared refs

-- `CompareSourceRefs`: none for a comparison that could not be made.
unfoldable pub compare_source_refs : GoMap Text → DrillMachine → Option RefComparison
unfolding as_declared
compare_source_refs source machine = if is_nil source then none else elim machine.refs_again [
  | none ↦ none
  | some restored ↦ some (compare_refs (as_declared source) restored machine.head_again)
]

abbrev pub nothing_drilled : RepoEntry → DrillRepo
nothing_drilled e = record {
  slug = e.slug;
  status = status_success;
  fault = none;
  source_refs = length e.refs;
  bundle_refs = 0;
  restored_refs = 0;
  unreferenced = [];
  source_match = none;
  mismatches = [];
}

abbrev pub failed_drill : RepoEntry → DrillFault → DrillRepo
failed_drill e fault = record (nothing_drilled e) { status = status_failed; fault = some fault }

abbrev pub restored_drill : RepoEntry → RestoreResult → DrillRepo
restored_drill e res = record (nothing_drilled e) {
  bundle_refs = res.refs.declared;
  restored_refs = res.refs.matched;
  unreferenced = res.refs.unreferenced;
  mismatches = map of_bundle res.refs.mismatches;
}

-- The verdict of the second comparison on top of the first.
unfoldable pub judge_source : DrillRepo → Option RefComparison → DrillRepo
unfolding comparison_ok
judge_source out none = record out {
  source_match = some false;
  status = status_failed;
  fault = some refs_again_unread;
}
judge_source out (some src) =
    if comparison_ok src then record out { source_match = some true } else record out {
      source_match = some false;
      status = status_failed;
      fault = some unlike_source;
      mismatches = out.mismatches ++ map of_source src.mismatches;
    }

abbrev pub join_source : RepoEntry → DrillMachine → DrillRepo → DrillRepo
join_source e machine out =
    if length e.refs == 0
    then out
    else judge_source out (compare_source_refs (entries_to_refs e.refs) machine)

module _ (decrypt : Option (Text → Option Text)) (hash : Text → Text) (c : Codecs) (st : Store)
    (pub_key : Option Text) where
  -- The part of `drillOne` up to the restored repository.
  unfoldable pub restored_copy : Text → DrillMachine → RepoEntry → Result DrillFault RestoreResult
  unfolding locate verified_checks restore
  restored_copy manifest_key machine e = do
    parts ← locate e
    checks ← verified_checks manifest_key pub_key e parts
    guard machine.made_dir no_work_dir
    or_unrestored (restore decrypt hash c st machine.restoring pub_key checks (located parts))

  abbrev pub judge_copy : RepoEntry → DrillMachine → Result DrillFault RestoreResult → DrillRepo
  judge_copy e machine (err fault) = failed_drill e fault
  judge_copy e machine (ok res) = join_source e machine (restored_drill e res)

  -- `drillOne`.
  unfoldable pub drill_one : Text → DrillMachine → RepoEntry → DrillRepo
  unfolding restored_copy judge_source compare_source_refs
  drill_one manifest_key machine e = judge_copy e machine (restored_copy manifest_key machine e)

  -- The loop over the chosen entries.
  unfoldable pub drill_entries : Text → (Text → DrillMachine) → List RepoEntry → List DrillRepo
  unfolding drill_one
  drill_entries manifest_key machines [] = []
  drill_entries manifest_key machines (e ∷ entries) =
      drill_one manifest_key (machines e.slug) e ∷ drill_entries manifest_key machines entries
