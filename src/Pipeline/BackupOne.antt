-- ===== src/Pipeline/BackupOne.antt =====
-- internal/pipeline/backup.go, backupOne and namedForRecopy: what a run does with one repository.
-- What a message says is a function of the value behind it.
pub mod Skip
pub mod Accounts
use gitdr.Common.{
  ℕ, Bool, true, false, not, ◌&&◌, ◌||◌, Option, none, some, List, [], ◌∷◌, ◌++◌, Text, GoMap,
  text_eq, is_nil, if◌then◌else◌, trim_space, ℤ,
}
use gitdr.Pipeline.Manifest.{RepoEntry, ArtifactInfo, status_success, status_skipped}
use gitdr.Pipeline.Manifests.{Repo, slug}
use gitdr.Pipeline.Unchanged.{
  DecisionReason, UnchangedDecision, no_reason, decide_unchanged, refs_to_entries,
}
use gitdr.Pipeline.Previous.{PreviousCopy}
use gitdr.Pipeline.Resume.{Resumed, ResumeFault, copies, fails, skips}
use gitdr.Pipeline.FanOut.{failed_entry}
use gitdr.Pipeline.Copy.{Copied}

unfoldable pub mentions : Text → List Text → Bool
mentions name [] = false
mentions name (n ∷ names) = text_eq n name || mentions name names

-- The loop of `namedForRecopy`: the names taken and those warned about so far.
unfoldable pub recopy_loop : (Text → Bool) → List Text → List Text → List Text → List Text
unfolding mentions
recopy_loop selected named warned [] = named
recopy_loop selected named warned (name ∷ names) =
    let slug = trim_space name in
    let known = is_nil slug || (mentions slug named || mentions slug warned) in
    recopy_loop selected (if known || not (selected slug) then named else slug ∷ named)
      (if known || selected slug then warned else slug ∷ warned) names

-- `namedForRecopy`.
unfoldable pub named_for_recopy : (Text → Bool) → List Text → List Text
unfolding recopy_loop
named_for_recopy selected names = recopy_loop selected [] [] names

abbrev no_decision : UnchangedDecision
no_decision = record { skip = false; reason = no_reason }

-- The decision, set aside for a repository that is named for a recopy.
unfoldable pub decide_copy :
    Bool → Option PreviousCopy → GoMap Text → ℕ → ℤ → Option PreviousCopy × UnchangedDecision
decide_copy recopy none current now window = (none, no_decision)
decide_copy recopy (some prev) current now window =
    let d = decide_unchanged prev.refs current prev.copied_at now window in
    (some prev, if d.skip && recopy then no_decision else d)

-- The entry of a repository that has not changed.
unfoldable pub skip_unchanged : Repo → PreviousCopy → Text → RepoEntry
skip_unchanged repo prev reason = record {
  slug = slug repo;
  status = status_skipped;
  error = [];
  reason = reason;
  artifacts = [];
  refs = refs_to_entries prev.refs;
  copied_at = some prev.copied_at;
}

abbrev pub written_nothing : RepoEntry → Copied
written_nothing e = record { entry = e; refs = none; sent = [] }

abbrev pub refs_or_empty : Option (GoMap Text) → GoMap Text
refs_or_empty none = []
refs_or_empty (some refs) = refs

-- A copy that succeeded is recorded with its refs and its instant.
unfoldable pub record_copy : ℕ → Copied → Copied
record_copy now c =
    if text_eq c.entry.status status_success
    then record c {
      entry = record c.entry {
        refs = refs_to_entries (refs_or_empty c.refs);
        copied_at = some now;
      };
    }
    else c

module _ (resume_message : ResumeFault → Text) (reason_text : DecisionReason → Text) where
  unfoldable pub copy_or_skip : Repo → Option PreviousCopy × UnchangedDecision → ℕ → Copied → Copied
  unfolding skip_unchanged record_copy
  copy_or_skip repo (none, d) copied_now copy = record_copy copied_now copy
  copy_or_skip repo (some prev, d) copied_now copy =
      if d.skip
      then written_nothing (skip_unchanged repo prev (reason_text d.reason))
      else record_copy copied_now copy

  -- `backupOne`: `rerun` is what `resumed` answers, and `copy` what `backupRepo` does when it is
  -- called. The two readings of the clock are two instants.
  unfoldable pub backup_one :
      Bool → Resumed → Repo → Bool → Option PreviousCopy → GoMap Text → ℕ → ℤ → ℕ → Copied → Copied
  unfolding decide_copy copy_or_skip failed_entry
  backup_one resume rerun repo recopy previous current now window copied_now copy =
      let went_on =
        copy_or_skip repo (decide_copy recopy previous current now window) copied_now copy in
      if not resume then went_on else elim rerun [
        | copies ↦ went_on
        | fails fault ↦ written_nothing (failed_entry (slug repo) (resume_message fault))
        | skips e ↦ written_nothing e
      ]
