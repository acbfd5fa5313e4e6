-- ===== src/Pipeline/Upload.antt =====
-- internal/pipeline/backup.go: an artifact made ready (stageFile, stageBytes) and the uploads at the
-- end of backupRepo. The destination is a function that answers a create-only write, given what it
-- has taken of this repository before; encryption and SHA-256 in hexadecimal are functions.
pub mod Progress
use gitdr.Common.{
  ℕ, Bool, true, false, Option, none, some, List, [], ◌∷◌, ◌++◌, Text, GoMap, codes, text_eq,
  length, if◌then◌else◌, leb,
}
use gitdr.Pipeline.Manifest.{ArtifactInfo}
use gitdr.Pipeline.FanOut.{wrote}

-- stagedArtifact: the bytes to be stored, with their size and checksum.
pub record Staged : Type 0 where
  pub kind : Text
  pub key : Text
  pub stored : Text
  pub size : ℕ
  pub sha : Text

-- A file that git or tar has written, and whether it can be read back.
pub record LocalFile : Type 0 where
  pub kind : Text
  pub key : Text
  pub plain : Text
  pub readable : Bool

-- dest.PutResult.
pub record PutResult : Type 0 where
  pub key : Text
  pub size : ℕ
  pub retain_until : ℕ

-- `artifact`.
unfoldable pub artifact : Text → PutResult → Text → ArtifactInfo
artifact kind res sha = record {
  kind = kind;
  key = res.key;
  size = res.size;
  sha256 = sha;
  retain_until = res.retain_until;
}

module _ (seal : Option (Text → Option Text)) (hash : Text → Text) where
  abbrev pub ready : Text → Text → Text → Staged
  ready kind key stored = record {
    kind = kind;
    key = key;
    stored = stored;
    size = length stored;
    sha = hash stored;
  }

  -- `stageBytes`: none where the encryption fails.
  unfoldable pub stage_bytes : Text → Text → Text → Option Staged
  stage_bytes kind key plain = elim seal [
    | none ↦ some (ready kind key plain)
    | some encrypt ↦ elim (encrypt plain) [
      | none ↦ none
      | some stored ↦ some (ready kind key stored)
    ]
  ]

  -- `stageFile`.
  unfoldable pub stage_file : LocalFile → Option Staged
  unfolding stage_bytes
  stage_file f = if f.readable then stage_bytes f.kind f.key f.plain else none

  -- The loop over the files.
  unfoldable pub stage_files : List LocalFile → Option (List Staged)
  unfolding stage_file
  stage_files [] = some []
  stage_files (f ∷ files) = elim (stage_file f) [
    | none ↦ none
    | some a ↦ elim (stage_files files) [ none ↦ none | some staged ↦ some (a ∷ staged) ]
  ]

-- `slices.SortStableFunc` by size, the largest first: those of one size keep their order.
unfoldable pub insert_sized : Staged → List Staged → List Staged
insert_sized a [] = a ∷ []
insert_sized a (b ∷ staged) =
    if leb b.size a.size then a ∷ b ∷ staged else b ∷ insert_sized a staged

unfoldable pub largest_first : List Staged → List Staged
unfolding insert_sized
largest_first [] = []
largest_first (a ∷ staged) = insert_sized a (largest_first staged)

-- The loop for the bundle's checksum.
unfoldable pub bundle_sha : List Staged → Text → Text
bundle_sha [] sha = sha
bundle_sha (a ∷ files) sha =
    bundle_sha files (if text_eq a.kind (codes "bundle") then a.sha else sha)

-- The sidecar, in the form of sha256sum.
unfoldable pub sidecar_line : Text → Text → Text
sidecar_line sha name = sha ++ (codes "  " ++ (name ++ codes ".bundle\n"))

-- What the uploads come to: what has been written by kind, what the destination took, in order, and
-- whether a write failed.
pub record Uploaded : Type 0 where
  pub progress : GoMap ArtifactInfo
  pub sent : List ArtifactInfo
  pub failed : Bool

module _ (put : List ArtifactInfo → Staged → Option PutResult) where
  -- The loop of the uploads, up to the first that fails.
  unfoldable pub upload : List ArtifactInfo → GoMap ArtifactInfo → List Staged → Uploaded
  unfolding artifact wrote
  upload sent progress [] = record { progress = progress; sent = sent; failed = false }
  upload sent progress (a ∷ staged) = elim (put sent a) [
    | none ↦ record { progress = progress; sent = sent; failed = true }
    | some res ↦
        let b = artifact a.kind res a.sha in upload (sent ++ (b ∷ [])) (wrote b progress) staged
  ]
