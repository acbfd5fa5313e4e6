-- ===== src/Pipeline/Copy/Written.antt =====
-- backupRepo: a copy's entry against what the destination took.
use gitdr.Common.{
  ℕ, zero, suc, ◌≡◌, ◌↔◌, refl, Option, none, List, [], ◌∷◌, arith, Text, GoMap, lookup, All,
  Member, here, there, take, inl, inr, ◌⊎◌,
}
use gitdr.Pipeline.Manifest.{ArtifactInfo}
use gitdr.Common.Results.{Result, ok, err}
use gitdr.Pipeline.Manifests.{Repo}
use gitdr.Pipeline.FanOut.{written}
use gitdr.Pipeline.Upload.{Staged, PutResult, Uploaded, upload}
use gitdr.Pipeline.Upload.Progress.{
  staged_kinds, kinds, listed_kinds, Records, Sent, upload-Sent, written-Records,
}
use gitdr.Pipeline.Copy.{CopyFault, Answers, Metadata, Prepared, prepare, finish_copy, backup_repo}
use gitdr.Pipeline.Copy.Kinds.{Shape, prepare-Shape, shape-DistinctKeys, shape-listed}

pub Result-cases :
    (r : Result CopyFault Prepared)
    → ((e : CopyFault) × (r ≡ err e)) ⊎ ((p : Prepared) × (r ≡ ok p))
Result-cases (ok p) = inr (p, refl)
Result-cases (err e) = inl (e, refl)

pub Member-kinds :
    {b : ArtifactInfo} (xs : List ArtifactInfo) → Member b xs → Member b.kind (kinds xs)
Member-kinds [] m = elim m [ ]
Member-kinds (x ∷ xs) here = here
Member-kinds (x ∷ xs) (there m) = there (Member-kinds xs m)

Member-take : (n : ℕ) (ks : List Text) {k : Text} → Member k (take n ks) → Member k ks
Member-take zero ks m = elim m [ ]
Member-take (suc n) [] m = elim m [ ]
Member-take (suc n) (j ∷ ks) here = here
Member-take (suc n) (j ∷ ks) (there m) = there (Member-take n ks m)

listed_kind :
    (xs : List Staged) {k : Text}
    → All (λ a. Member a.kind listed_kinds) xs
    → Member k (staged_kinds xs)
    → Member k listed_kinds
listed_kind [] h m = elim m [ ]
listed_kind (x ∷ xs) h here = h.0
listed_kind (x ∷ xs) h (there m) = listed_kind xs h.1 m

module _ (put : List ArtifactInfo → Staged → Option PutResult) {p : Prepared} {metadata : Metadata}
    (s : Shape p metadata) where
  nothing_written : (xs : List Staged) → All (λ a. lookup {V = ArtifactInfo} a.kind [] ≡ none) xs
  unfolding lookup
  nothing_written [] = tt
  nothing_written (x ∷ xs) = (refl, nothing_written xs)

  nothing_Records : Records [] []
  unfolding lookup
  nothing_Records k b = (λ e. cc, λ (m, e). elim m [ ])

  pub uploaded-Sent : Sent put [] p.staged (upload put [] [] p.staged)
  uploaded-Sent =
      upload-Sent put [] [] p.staged nothing_Records (shape-DistinctKeys s)
        (nothing_written p.staged)

  uploaded-listed :
      (b : ArtifactInfo) → Member b (upload put [] [] p.staged).sent → Member b.kind listed_kinds
  uploaded-listed b m =
      let (r, (n, ks, all)) = uploaded-Sent in
      listed_kind p.staged (shape-listed s)
        (Member-take n (staged_kinds p.staged) (rw ks at (Member-kinds _ m)))

  uploaded-written :
      (b : ArtifactInfo)
      → Member b (upload put [] [] p.staged).sent
        ↔ Member b (written (upload put [] [] p.staged).progress)
  uploaded-written b =
      let both = written-Records (upload put [] [] p.staged).progress _ uploaded-Sent.0 b in
      (λ m. both.1 (m, uploaded-listed b m), λ m. (both.0 m).0)

module _ (seal : Option (Text → Option Text)) (hash : Text → Text) (repo : Repo) (date : Text)
    (put : List ArtifactInfo → Staged → Option PutResult) (message : CopyFault → Text) where
  pub finish_copy-sent :
      (m : Metadata) (p : Prepared) (u : Uploaded)
      → ((finish_copy seal hash repo date put message m p u).sent ≡ u.sent)
        × ((finish_copy seal hash repo date put message m p u).entry.artifacts ≡ written u.progress)
  unfolding finish_copy
  finish_copy-sent m p u = ground arith

  -- Whatever becomes of a copy, its entry lists an artifact exactly when the destination took it: a
  -- copy that fails among its uploads lists what it wrote, and one that fails before lists nothing.
  pub written_lem :
      (advertised : GoMap Text) (a : Answers) (b : ArtifactInfo)
      → Member b (backup_repo seal hash repo date put message advertised a).sent
        ↔ Member b (backup_repo seal hash repo date put message advertised a).entry.artifacts
  unfolding backup_repo
  written_lem advertised a b = elim (Result-cases (prepare seal hash repo date advertised a)) [
    | inl (fault, e) ↦ rw (e, backup_repo) (λ m. m, λ m. m)
    | inr (p, e) ↦
        let (sent, artifacts) = finish_copy-sent a.metadata p (upload put [] [] p.staged) in
        rw (e, backup_repo)
          (rw (sent, artifacts)
            (uploaded-written put (prepare-Shape seal hash repo date advertised a e) b))
  ]
