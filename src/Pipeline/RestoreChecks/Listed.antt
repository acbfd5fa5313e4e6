-- ===== src/Pipeline/RestoreChecks/Listed.antt =====
-- internal/pipeline/restore.go, recordedChecks: the checksums are of artifacts that the entry lists.
use gitdr.Common.{
  ◌≡◌, ◌≢◌, ◌⊎◌, refl, sym, ◌∙◌, inl, inr, List, [], ◌∷◌, arith, Text, text_eq, text_eq_iff,
  text_ne, Bool-cases, All, Member, here, there,
}
use gitdr.Pipeline.Manifest.{ArtifactInfo}
use gitdr.Pipeline.RestoreChecks.{RestoreChecks, record_one, recorded_loop}

-- An artifact of the list has the key and the checksum.
abbrev pub Lists : List ArtifactInfo → Text → Text → Type 0
Lists artifacts key sha = (a : ArtifactInfo) × Member a artifacts × (a.key ≡ key) × (a.sha256 ≡ sha)

later :
    (a : ArtifactInfo) (artifacts : List ArtifactInfo) (key sha : Text)
    → Lists artifacts key sha
    → Lists (a ∷ artifacts) key sha
later a artifacts key sha (b, m, k, s) = (b, there m, k, s)

one_bundle :
    (bundle_key lfs_key : Text) (a : ArtifactInfo) (c : RestoreChecks)
    → ((a.key ≡ bundle_key) × ((record_one bundle_key lfs_key a c).bundle_sha ≡ a.sha256))
      ⊎ ((a.key ≢ bundle_key) × ((record_one bundle_key lfs_key a c).bundle_sha ≡ c.bundle_sha))
one_bundle bundle_key lfs_key a c = elim (Bool-cases (text_eq a.key bundle_key)) [
  | inl on ↦ inl ((text_eq_iff a.key bundle_key).0 on, rw on refl)
  | inr off ↦ inr (text_ne a.key bundle_key off, rw off (ground arith))
]

one_lfs :
    (bundle_key lfs_key : Text) (a : ArtifactInfo) (c : RestoreChecks)
    → ((a.key ≡ lfs_key) × ((record_one bundle_key lfs_key a c).lfs_sha ≡ a.sha256))
      ⊎ ((record_one bundle_key lfs_key a c).lfs_sha ≡ c.lfs_sha)
one_lfs bundle_key lfs_key a c = elim (Bool-cases (text_eq a.key bundle_key)) [
  | inl on ↦ inr (rw on refl)
  | inr off ↦ elim (Bool-cases (text_eq a.key lfs_key)) [
    | inl on ↦ inl ((text_eq_iff a.key lfs_key).0 on, rw (off, on) refl)
    | inr other ↦ inr (rw (off, other) refl)
  ]
]

pub recorded_loop-bundle :
    (bundle_key lfs_key : Text) (artifacts : List ArtifactInfo) (c : RestoreChecks)
    → Lists artifacts bundle_key (recorded_loop bundle_key lfs_key artifacts c).bundle_sha
      ⊎ (((recorded_loop bundle_key lfs_key artifacts c).bundle_sha ≡ c.bundle_sha)
          × All (λ a. a.key ≢ bundle_key) artifacts)
unfolding recorded_loop
recorded_loop-bundle bundle_key lfs_key [] c = inr (refl, tt)
recorded_loop-bundle bundle_key lfs_key (a ∷ artifacts) c =
    elim (recorded_loop-bundle bundle_key lfs_key artifacts (record_one bundle_key lfs_key a c)) [
      | inl found ↦ inl (later a artifacts bundle_key _ found)
      | inr (same, others) ↦ elim (one_bundle bundle_key lfs_key a c) [
        | inl (key, sha) ↦ inl (a, here, key, sym (same ∙ sha))
        | inr (key, sha) ↦ inr (same ∙ sha, (key, others))
      ]
    ]

pub recorded_loop-lfs :
    (bundle_key lfs_key : Text) (artifacts : List ArtifactInfo) (c : RestoreChecks)
    → Lists artifacts lfs_key (recorded_loop bundle_key lfs_key artifacts c).lfs_sha
      ⊎ ((recorded_loop bundle_key lfs_key artifacts c).lfs_sha ≡ c.lfs_sha)
unfolding recorded_loop
recorded_loop-lfs bundle_key lfs_key [] c = inr refl
recorded_loop-lfs bundle_key lfs_key (a ∷ artifacts) c =
    elim (recorded_loop-lfs bundle_key lfs_key artifacts (record_one bundle_key lfs_key a c)) [
      | inl found ↦ inl (later a artifacts lfs_key _ found)
      | inr same ↦ elim (one_lfs bundle_key lfs_key a c) [
        | inl (key, sha) ↦ inl (a, here, key, sym (same ∙ sha))
        | inr sha ↦ inr (same ∙ sha)
      ]
    ]

pub recorded_loop-manifest_key :
    (bundle_key lfs_key : Text) (artifacts : List ArtifactInfo) (c : RestoreChecks)
    → (recorded_loop bundle_key lfs_key artifacts c).manifest_key ≡ c.manifest_key
unfolding recorded_loop
recorded_loop-manifest_key bundle_key lfs_key [] c = refl
recorded_loop-manifest_key bundle_key lfs_key (a ∷ artifacts) c =
    recorded_loop-manifest_key bundle_key lfs_key artifacts (record_one bundle_key lfs_key a c)
    ∙ ground arith
