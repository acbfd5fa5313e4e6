-- ===== src/Pipeline/Copy/Sidecar.antt =====
-- backupRepo: the checksum sidecar, and what a success holds.
use gitdr.Common.{
  ◌≡◌, inl, inr, refl, ap, ◌∙◌, false, Option, List, [], ◌∷◌, arith, Text, GoMap, take, length,
}
use gitdr.Pipeline.Manifest.{ArtifactInfo, status_success, status_failed, status_skipped}
use gitdr.Common.Results.{ok}
use gitdr.Pipeline.Manifests.{Repo}
use gitdr.Pipeline.Upload.{Staged, PutResult, Uploaded, upload}
use gitdr.Pipeline.Upload.Progress.{staged_kinds, kinds}
use gitdr.Pipeline.Copy.{
  CopyFault, Answers, Metadata, Prepared, Copied, prepare, finish_copy, backup_repo,
}
use gitdr.Pipeline.Copy.Kinds.{prepare-Shape}
use gitdr.Pipeline.Copy.Written.{Result-cases, uploaded-Sent, finish_copy-sent}
use gitdr.Pipeline.Copy

take_all_kinds : (xs : List Staged) → take (length xs) (staged_kinds xs) ≡ staged_kinds xs
take_all_kinds [] = refl
take_all_kinds (a ∷ xs) = ap (λ ks. a.kind ∷ ks) (take_all_kinds xs)

module _ (seal : Option (Text → Option Text)) (hash : Text → Text) (repo : Repo) (date : Text)
    (put : List ArtifactInfo → Staged → Option PutResult) (message : CopyFault → Text) where
  finish_copy-skipped :
      (m : Metadata) (p : Prepared) (u : Uploaded)
      → (finish_copy seal hash repo date put message m p u).entry.status ≡ status_skipped
      → (u.failed ≡ false) × (p.has_refs ≡ false)
  unfolding finish_copy status_success status_failed status_skipped
  finish_copy-skipped m p u h = ground arith

  abbrev copy_of : GoMap Text → Answers → Copied
  copy_of = backup_repo seal hash repo date put message

  -- Everything that was made ready is stored.
  abbrev pub Whole : GoMap Text → Answers → Prepared → Type 0
  Whole advertised a p =
      (prepare seal hash repo date advertised a ≡ ok p)
      × (kinds (copy_of advertised a).sent ≡ staged_kinds p.staged)

  -- A copy that is skipped is of a clone without refs, and everything made ready for it is stored.
  pub skipped_lem :
      (advertised : GoMap Text) (a : Answers)
      → (copy_of advertised a).entry.status ≡ status_skipped
      → (p : Prepared) × Whole advertised a p × (p.has_refs ≡ false)
  unfolding backup_repo status_skipped status_failed
  skipped_lem advertised a h = elim (Result-cases (prepare seal hash repo date advertised a)) [
    | inl (fault, e) ↦ absurd (ground (arith, e, h))
    | inr (p, e) ↦
        let s = prepare-Shape seal hash repo date advertised a e in
        let u : Uploaded = upload put [] [] p.staged in
        let (sent, _) = finish_copy-sent seal hash repo date put message a.metadata p u in
        let (_, (n, ks, all)) = uploaded-Sent put s in
        let (kept, has) = finish_copy-skipped a.metadata p u (ground (arith, e, h)) in
        rw (e, backup_repo)
          (rw sent (
            p,
            (
              refl,
              ks ∙ ap (λ k. take k (staged_kinds p.staged)) (all kept) ∙ take_all_kinds p.staged,
            ),
            has,
          ))
  ]
