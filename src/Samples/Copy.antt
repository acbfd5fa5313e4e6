-- ===== src/Samples/Copy.antt =====
-- The copy of one repository with one branch, to a destination that takes everything.
use gitdr.Common.{
  ◌≡◌, ◌↔◌, refl, true, false, Option, none, some, List, [], ◌∷◌, Text, GoMap, codes, text_eq,
  lookup, insert, Member, sort_by,
}
use gitdr.Pipeline.Manifest.{ArtifactInfo, status_failed}
use gitdr.Pipeline.Manifests.{Repo}
use gitdr.Pipeline.Unchanged.{same_refs}
use gitdr.Pipeline.CopiedRefs.{clone_holds, bundle_holds}
use gitdr.Pipeline.Attempts.{retry, fetched}
use gitdr.Pipeline.Upload.{stage_files, Staged, PutResult}
use gitdr.Pipeline.Upload.Progress.{kinds}
use gitdr.Pipeline.Copy.{
  CopyFault, Answers, found, backup_repo, prepare, gather, local_files, make_ready, finish_copy,
}
use gitdr.Pipeline.Copy
use gitdr.Pipeline.Copy.Written.{written_lem}

abbrev repo : Repo
repo = record { host = codes "github.com"; owner = codes "group"; name = codes "one" }

abbrev date : Text
date = codes "2026-05-04"

abbrev main_ref : GoMap Text
main_ref = (codes "refs/heads/main", codes "aaaa") ∷ []

abbrev checksum : Text → Text
checksum bytes = codes "5d"

abbrev takes_all : List ArtifactInfo → Staged → Option PutResult
takes_all sent a = some (record { key = a.key; size = a.size; retain_until = 9 })

-- A destination that has taken one artifact takes no more.
abbrev takes_one : List ArtifactInfo → Staged → Option PutResult
takes_one [] a = some (record { key = a.key; size = a.size; retain_until = 9 })
takes_one (_ ∷ _) a = none

abbrev answers : Answers
answers = record {
  made_temp = true;
  clone_url = true;
  metadata = found (codes "{}");
  stopped = false;
  clones = λ _. record { fails = false; stopped = false; cut_short = false };
  mirror_refs = some main_ref;
  relisted = none;
  has_refs = some true;
  lfs_on = false;
  lfs_fetch = fetched;
  lfs_kept = true;
  lfs_files = false;
  lfs_tar = none;
  bundle = some (codes "bundle bytes");
  heads = some (record { name = codes "refs/heads/main"; oid = codes "aaaa" } ∷ []);
  mirror_removed = true;
  readable = λ _. true;
}

abbrev says : CopyFault → Text
says _ = codes "failed"

abbrev meta_artifact : ArtifactInfo
meta_artifact = record {
  kind = codes "meta";
  key = codes "github.com/group/one/2026-05-04/one.meta.json";
  size = 2;
  sha256 = codes "5d";
  retain_until = 9;
}

written_lem_example :
    Member meta_artifact (backup_repo none checksum repo date takes_all says main_ref answers).sent
    ↔ Member meta_artifact
        (backup_repo none checksum repo date takes_all says main_ref answers).entry.artifacts
written_lem_example =
    written_lem none checksum repo date takes_all says main_ref answers meta_artifact

stored_in_order :
    kinds (backup_repo none checksum repo date takes_all says main_ref answers).sent
    ≡ codes "bundle" ∷ codes "meta" ∷ codes "sha256" ∷ []
unfolding backup_repo retry clone_holds sort_by lookup text_eq bundle_holds same_refs insert
    stage_files
stored_in_order = refl

cut_off :
    (backup_repo none checksum repo date takes_one says main_ref answers).entry.status
    ≡ status_failed
unfolding backup_repo status_failed retry clone_holds sort_by lookup text_eq bundle_holds same_refs
    insert stage_files
cut_off = refl
