-- ===== src/Pipeline/BackupOne/Accounts.antt =====
-- backupOne: what the entry of a repository says of it.
use gitdr.Common.{
  ℕ, ◌≡◌, ◌⊎◌, ◌↔◌, Bool, true, false, Option, none, some, List, [], Text, GoMap, Member, ℤ,
}
use gitdr.Pipeline.Manifest.{
  RepoEntry, ArtifactInfo, status_success, status_failed, status_skipped, reason_empty,
}
use gitdr.Pipeline.Manifests.{Repo, slug}
use gitdr.Pipeline.Manifests.Read.{Store, Codecs}
use gitdr.Pipeline.Recorded.{Memory}
use gitdr.Pipeline.Unchanged.{DecisionReason, decide_unchanged, refs_to_entries}
use gitdr.Pipeline.Previous.{PreviousCopy}
use gitdr.Pipeline.Resume.{Resumed, ResumeFault, skips, resumed}
use gitdr.Pipeline.Upload.{Staged, PutResult}
use gitdr.Pipeline.Copy.{CopyFault, Answers, Prepared, Copied, backup_repo}
use gitdr.Pipeline.Copy
use gitdr.Pipeline.Copy.Sidecar.{Whole}
use gitdr.Pipeline.BackupOne.{decide_copy, record_copy, copy_or_skip, backup_one}

-- What backupRepo's entry says besides its artifacts: a failure, a success or a repository without
-- commits, with no refs and no instant yet.
abbrev Plain : Text → RepoEntry → Type 0
Plain slug e =
    (e.slug ≡ slug)
    × (e.refs ≡ [])
    × (e.copied_at ≡ none)
    × ((e.status ≡ status_failed)
        ⊎ ((e.status ≡ status_success) ⊎ ((e.status ≡ status_skipped) × (e.reason ≡ reason_empty))))

module _ (seal : Option (Text → Option Text)) (hash : Text → Text) (repo : Repo) (date : Text)
    (put : List ArtifactInfo → Staged → Option PutResult) (message : CopyFault → Text) where
  module _ (c : Codecs) (st : Store) (pub_key : Option Text) (keep : Option (Text → Bool))
      (resume_message : ResumeFault → Text) (reason_text : DecisionReason → Text) (resume : Bool)
      (s : Memory) (searched_at checked_at now copied_now : ℕ) (recopy : Bool)
      (previous : Option PreviousCopy) (current : GoMap Text) (window : ℤ) (a : Answers) where
    abbrev pub rerun : Resumed
    rerun = (resumed c st pub_key keep date searched_at checked_at repo s).0

    abbrev pub one : Copied
    one =
        backup_one resume_message reason_text resume rerun repo recopy previous current now window
          copied_now (backup_repo seal hash repo date put message current a)

    -- Why a repository is skipped: a copy that the rerun of the date found, or the previous copy of
    -- a repository that is not named for a recopy, or the clone has no refs.
    abbrev pub SkippedFor : RepoEntry → Type 0
    SkippedFor e =
        ((resume ≡ true) × (rerun ≡ skips e))
        ⊎ (((prev : PreviousCopy) × (previous ≡ some prev)
              × (recopy ≡ false)
              × ((decide_unchanged prev.refs current prev.copied_at now window).skip ≡ true)
              × (e.refs ≡ refs_to_entries prev.refs)
              × (e.copied_at ≡ some prev.copied_at))
            ⊎ ((e.reason ≡ reason_empty)
                × ((p : Prepared) × Whole seal hash repo date put message current a p
                    × (p.has_refs ≡ false))))

    abbrev Says : Copied → Type 0
    Says d =
        (d.entry.slug ≡ slug repo)
        × ((b : ArtifactInfo) → Member b d.sent ↔ Member b d.entry.artifacts)
        × (d.entry.status ≡ status_failed → (d.entry.refs ≡ []) × (d.entry.copied_at ≡ none))
        × (d.entry.status ≡ status_success
            → (p : Prepared) × Whole seal hash repo date put message current a p
              × (d.entry.refs ≡ refs_to_entries p.refs)
              × (d.entry.copied_at ≡ some copied_now))
        × (d.entry.status ≡ status_skipped → SkippedFor d.entry)

    abbrev went_on : Option PreviousCopy → Copied
    went_on previous =
        copy_or_skip resume_message reason_text repo
          (decide_copy recopy previous current now window) copied_now
          (backup_repo seal hash repo date put message current a)

    abbrev unchanged : PreviousCopy → Bool
    unchanged prev = (decide_unchanged prev.refs current prev.copied_at now window).skip

    abbrev copied : Copied
    copied = record_copy copied_now (backup_repo seal hash repo date put message current a)
