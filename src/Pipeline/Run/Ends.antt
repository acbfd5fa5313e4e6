-- ===== src/Pipeline/Run/Ends.antt =====
-- internal/pipeline/backup.go, run: what a run that ends has done and says.
use gitdr.Common.{ℕ, ◌≡◌, ◌≢◌, ◌↔◌, Bool, true, false, some, List, [], ◌∷◌, Text, All}
use gitdr.Pipeline.Manifest.{RepoEntry, status_success, status_failed}
use gitdr.Pipeline.Manifests.{Repo}
use gitdr.Pipeline.Manifests.Read.{Store, Codecs}
use gitdr.Pipeline.Retention.{is_immutable, WormStatus, absent}
use gitdr.Pipeline.Run.{RunSetup, RunManifest, Ran, filing_key, signature_key, entries_of_run}

abbrev pub NoFailure : List RepoEntry → Type 0
NoFailure entries = All (λ e. e.status ≢ status_failed) entries

-- The destination took the manifest, under the key that is named for its finish, and the signature.
abbrev pub Filed : (Text → Bool) → Text → Ran → Type 0
Filed put dir out =
    let key = filing_key dir out.manifest.finished_at in
    (out.key ≡ key)
    × (out.stored ≡ key ∷ signature_key key ∷ [])
    × (put key ≡ true)
    × (put (signature_key key) ≡ true)

-- The run's own account of how it ended.
abbrev pub Told : (Text → Bool) → Text → Ran → Type 0
Told put dir out =
    ((out.fails ≡ false) ↔ (Filed put dir out × NoFailure out.manifest.repos))
    × ((out.manifest.status ≡ status_success) ↔ NoFailure out.manifest.repos)

module _ (c : Codecs) (st : Store) (s : RunSetup) (now finish : ℕ) where
  -- Immutable by the preflight, and no object that was asked about lacks its retention.
  abbrev pub Held : WormStatus → RunManifest → Type 0
  Held worm m = (s.worm ≡ some worm) × (is_immutable worm.verdict ≡ true) × (m.observed ≢ absent)

  abbrev pub Kept : WormStatus → List Repo → RunManifest → Type 0
  Kept worm repos m =
      (m.repos ≡ entries_of_run c st s worm repos now)
      × (is_immutable m.verdict ≡ true → Held worm m)
      × (s.require_worm ≡ true → Held worm m)
