-- ===== src/Pipeline/Manifest.antt =====
-- internal/pipeline/manifest.go: the data of a run's manifest. Instants are nanoseconds, a text
-- that the code only compares is its bytes, and an error is the value behind its message.
use gitdr.Common.{ℕ, Bool, Option, List, Text, codes}

unfoldable pub status_success : Text
status_success = codes "success"

unfoldable pub status_failed : Text
status_failed = codes "failed"

unfoldable pub status_skipped : Text
status_skipped = codes "skipped"

unfoldable pub reason_resume : Text
reason_resume = codes "already backed up for this date"

unfoldable pub reason_empty : Text
reason_empty = codes "repository has no commits"

unfoldable pub reason_unchanged : Text
reason_unchanged = codes "unchanged since"

pub record RefEntry : Type 0 where
  pub name : Text
  pub commit : Text

pub record ArtifactInfo : Type 0 where
  pub kind : Text
  pub key : Text
  pub size : ℕ
  pub sha256 : Text
  pub retain_until : ℕ

-- `error` is the whole message, [] when there is none.
pub record RepoEntry : Type 0 where
  pub slug : Text
  pub status : Text
  pub error : Text
  pub reason : Text
  pub artifacts : List ArtifactInfo
  pub refs : List RefEntry
  pub copied_at : Option ℕ

-- `statusString`.
unfoldable pub status_string : Bool → Text
unfolding status_success status_failed
status_string Bool.true = status_success
status_string Bool.false = status_failed
