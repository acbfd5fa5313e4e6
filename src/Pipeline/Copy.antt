-- ===== src/Pipeline/Copy.antt =====
-- internal/pipeline/backup.go, backupRepo: one repository copied. Everything that reads the source or
-- can fail here comes first, then the uploads. What git, the source and the disk answer are values.
pub mod Kinds
pub mod Written
pub mod Sidecar
use gitdr.Common.{
  Bool, true, false, not, ◌&&◌, ◌||◌, Option, none, some, ℕ, List, [], ◌∷◌, ◌++◌, Text, GoMap,
  codes, if◌then◌else◌, path_join, is_some,
}
use gitdr.Common.Results.{Result, ok, err, ◌>>=◌, ◌>>◌, guard, or_fail}
use gitdr.Pipeline.Manifest.{
  RepoEntry, ArtifactInfo, status_success, status_failed, status_skipped, reason_empty,
}
use gitdr.Pipeline.Manifests.{Repo, slug}
use gitdr.Pipeline.Refs.{BundleRef}
use gitdr.Pipeline.CopiedRefs.{clone_holds, bundle_holds}
use gitdr.Pipeline.Attempts.{Try, retry, Fetched, fetched}
use gitdr.Pipeline.FanOut.{written}
use gitdr.Pipeline.Upload.{
  Staged, LocalFile, PutResult, Uploaded, stage_bytes, stage_files, largest_first, bundle_sha,
  sidecar_line, upload,
}

pub data CopyFault : Type 0 where
  no_temp no_clone_url no_metadata clone_failed refs_unread clone_lacks refs_unchecked : CopyFault
  lfs_unfetched lfs_unkept lfs_unarchived : CopyFault
  unbundled bundle_differs mirror_left unstaged not_uploaded : CopyFault

-- FetchMetadata: its bytes, or an error that will probably pass, or any other.
pub data Metadata : Type 0 where
  found : Text → Metadata
  transient refused : Metadata

-- What one copy is told, in the order in which it asks. `relisted` is the source asked again, and
-- `readable` whether the stored form of a kind's file can be made and read.
pub record Answers : Type 0 where
  pub made_temp : Bool
  pub clone_url : Bool
  pub metadata : Metadata
  pub stopped : Bool
  pub clones : ℕ → Try
  pub mirror_refs : Option (GoMap Text)
  pub relisted : Option (GoMap Text)
  pub has_refs : Option Bool
  pub lfs_on : Bool
  pub lfs_fetch : Fetched
  pub lfs_kept : Bool
  pub lfs_files : Bool
  pub lfs_tar : Option Text
  pub bundle : Option Text
  pub heads : Option (List BundleRef)
  pub mirror_removed : Bool
  pub readable : Text → Bool

abbrev pub is_fetched : Fetched → Bool
is_fetched fetched = true
is_fetched _ = false

-- A failure of the metadata that ends the copy before the clone.
abbrev pub ends_early : Metadata → Bool → Bool
ends_early (found _) stopped = false
ends_early transient stopped = true
ends_early refused stopped = stopped

abbrev pub is_found : Metadata → Bool
is_found (found _) = true
is_found _ = false

-- What is ready when the first write begins: the refs of the clone, whether it has any, and the
-- artifacts in the order of their uploads.
pub record Prepared : Type 0 where
  pub refs : GoMap Text
  pub has_refs : Bool
  pub staged : List Staged

-- The copy's entry, the refs it is of, none for a failure, and what the destination took.
pub record Copied : Type 0 where
  pub entry : RepoEntry
  pub refs : Option (GoMap Text)
  pub sent : List ArtifactInfo

module _ (seal : Option (Text → Option Text)) (hash : Text → Text) (repo : Repo) (date : Text) where
  abbrev pub key_of : Text → Text
  key_of suffix =
      path_join
        (path_join (repo.host ∷ repo.owner ∷ repo.name ∷ date ∷ []) ∷ (repo.name ++ suffix) ∷ [])

  abbrev pub local : Answers → Text → Text → Text → LocalFile
  local a kind suffix plain = record {
    kind = kind;
    key = key_of suffix;
    plain = plain;
    readable = a.readable kind;
  }

  -- The LFS objects, fetched and archived.
  unfoldable pub lfs_part : Answers → Bool → Result CopyFault (List LocalFile)
  lfs_part a has_refs = if not (has_refs && a.lfs_on) then ok [] else do
    guard (is_fetched a.lfs_fetch) lfs_unfetched
    guard a.lfs_kept lfs_unkept
    if not a.lfs_files then ok [] else do
      tar ← or_fail a.lfs_tar lfs_unarchived
      ok (local a (codes "lfs") (codes ".lfs.tar") tar ∷ [])

  unfoldable pub bundle_part : Answers → Bool → GoMap Text → Result CopyFault (List LocalFile)
  bundle_part a has_refs copied = if not has_refs then ok [] else do
    bundle ← or_fail a.bundle unbundled
    guard (not (is_some (bundle_holds a.heads copied))) bundle_differs
    ok (local a (codes "bundle") (codes ".bundle") bundle ∷ [])

  unfoldable pub meta_part : Metadata → Result CopyFault (List Staged)
  meta_part (found meta) = do
    m ← or_fail (stage_bytes seal hash (codes "meta") (key_of (codes ".meta.json")) meta) unstaged
    ok (m ∷ [])
  meta_part transient = ok []
  meta_part refused = ok []

  unfoldable pub sidecar_part : Bool → List Staged → Result CopyFault (List Staged)
  unfolding bundle_sha sidecar_line
  sidecar_part has_refs files = if not has_refs then ok [] else do
    s ←
        or_fail
          (stage_bytes seal hash (codes "sha256") (key_of (codes ".sha256"))
            (sidecar_line (bundle_sha files []) repo.name))
          unstaged
    ok (s ∷ [])

  -- What the source is asked: the refs of the clone, and whether it has any.
  unfoldable pub gather : GoMap Text → Answers → Result CopyFault (GoMap Text × Bool)
  gather advertised a = do
    guard a.made_temp no_temp
    guard a.clone_url no_clone_url
    guard (not (ends_early a.metadata a.stopped)) no_metadata
    guard (not (is_some (retry 3 a.clones))) clone_failed
    copied ← or_fail a.mirror_refs refs_unread
    guard (not (is_some (clone_holds advertised copied a.relisted))) clone_lacks
    has_refs ← or_fail a.has_refs refs_unchecked
    ok (copied, has_refs)

  -- The files that git and tar write, and the mirror out of the way.
  unfoldable pub local_files : Answers → GoMap Text × Bool → Result CopyFault (List LocalFile)
  unfolding lfs_part bundle_part
  local_files a (copied, has_refs) = do
    lfs ← lfs_part a has_refs
    bundle ← bundle_part a has_refs copied
    guard a.mirror_removed mirror_left
    ok (lfs ++ bundle)

  -- The stored form of everything, in the order of the uploads.
  unfoldable pub make_ready :
      Answers → GoMap Text × Bool → List LocalFile → Result CopyFault Prepared
  unfolding meta_part sidecar_part largest_first
  make_ready a (copied, has_refs) locals = do
    files ← or_fail (stage_files seal hash locals) unstaged
    meta ← meta_part a.metadata
    sidecar ← sidecar_part has_refs files
    ok (record {
      refs = copied;
      has_refs = has_refs;
      staged = largest_first (files ++ meta) ++ sidecar;
    })

  -- Everything up to the first write.
  unfoldable pub prepare : GoMap Text → Answers → Result CopyFault Prepared
  unfolding gather local_files make_ready
  prepare advertised a = do
    read ← gather advertised a
    locals ← local_files a read
    make_ready a read locals

  module _ (put : List ArtifactInfo → Staged → Option PutResult) (message : CopyFault → Text) where
    abbrev pub copy_entry : Text → Text → Text → List ArtifactInfo → RepoEntry
    copy_entry status reason error artifacts = record {
      slug = slug repo;
      status = status;
      error = error;
      reason = reason;
      artifacts = artifacts;
      refs = [];
      copied_at = none;
    }

    -- `fail`: a reason belongs to a skip.
    abbrev pub failed_copy : CopyFault → List ArtifactInfo → List ArtifactInfo → Copied
    failed_copy fault artifacts sent = record {
      entry = copy_entry status_failed [] (message fault) artifacts;
      refs = none;
      sent = sent;
    }

    abbrev pub good_copy : Prepared → Uploaded → Copied
    good_copy p u = record {
      entry =
          if p.has_refs
          then copy_entry status_success [] [] (written u.progress)
          else copy_entry status_skipped reason_empty [] (written u.progress);
      refs = some p.refs;
      sent = u.sent;
    }

    -- The end of it: a write that failed, or the metadata that could not be had.
    unfoldable pub finish_copy : Metadata → Prepared → Uploaded → Copied
    unfolding written
    finish_copy metadata p u =
        if u.failed
        then failed_copy not_uploaded (written u.progress) u.sent
        else if not (is_found metadata)
        then failed_copy no_metadata (written u.progress) u.sent
        else good_copy p u

    -- `backupRepo`.
    unfoldable pub backup_repo : GoMap Text → Answers → Copied
    unfolding prepare upload finish_copy
    backup_repo advertised a = elim (prepare advertised a) [
      | err fault ↦ failed_copy fault [] []
      | ok p ↦ finish_copy a.metadata p (upload put [] [] p.staged)
    ]
