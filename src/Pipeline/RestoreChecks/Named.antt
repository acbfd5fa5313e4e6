-- ===== src/Pipeline/RestoreChecks/Named.antt =====
-- internal/pipeline/restore.go, checksFromManifest: the checks that a signed manifest bears out.
use mathlib.Core.Path.{subst}
use gitdr.Common.{
  ◌≡◌, ◌≢◌, ◌⊎◌, refl, sym, ap, ◌∙◌, inl, inr, true, ◌&&◌, some, List, [], ◌∷◌, Text, codes,
  text_eq, text_eq_iff, is_nil, Bool-cases, All-member, Member, here, there,
}
use gitdr.Common.Results.{
  Result, ok, ◌>>=◌, ◌>>◌, guard, or_fail, >>=-eq-ok, guard-eq-ok, or_fail-eq-ok,
}
use gitdr.Pipeline.Manifest.{RepoEntry, ArtifactInfo, status_success}
use gitdr.Pipeline.Manifests.Read.{Store, Codecs, ManifestDoc, Loaded, load_manifest}
use gitdr.Pipeline.Manifests.Read
use gitdr.Pipeline.Recorded.{copy_status}
use gitdr.Pipeline.Resume.{artifact_keys}
use gitdr.Pipeline.RestoreChecks.{
  KeyParts, RestoreChecks, RestoreRequest, RestoreFault, split_artifact_key, recorded_checks,
  find_entry, find_kind, request_slug, loaded, keys_of_recorded, placed, checks_from_entry,
  checks_from_manifest, no_bundle, foreign_key, not_a_copy, own_place, no_repository,
}
use gitdr.Pipeline.RestoreChecks.Listed.{
  Lists, recorded_loop-bundle, recorded_loop-lfs, recorded_loop-manifest_key,
}

abbrev pub ok_doc : ManifestDoc → Loaded ManifestDoc
ok_doc = Read.ok

-- The bundle and the archive that the checks are of.
abbrev pub bundle_key_of : RestoreRequest → Text
bundle_key_of req = (artifact_keys req.host req.owner req.name req.date).0

abbrev pub lfs_key_of : RestoreRequest → Text
lfs_key_of req = (artifact_keys req.host req.owner req.name req.date).2

pub some_same : {A : Type 0} {a b : A} → some a ≡ some b → a ≡ b
some_same h = cc

pub ok_same : {A : Type 0} {x y : A} → ◌≡◌ {A = Result RestoreFault A} (ok x) (ok y) → x ≡ y
ok_same h = cc

loaded-ok : (l : Loaded ManifestDoc) {m : ManifestDoc} → loaded l ≡ ok m → l ≡ ok_doc m
loaded-ok (Read.ok m) h = cc
loaded-ok (Read.err e) h = cc

module _ (c : Codecs) (st : Store) (pub_key : Text) where
  -- A manifest that loads with the public key, under the key that the checks name, has an entry of
  -- the repository that records a copy. It lists the bundle of the request with the checksum of the
  -- checks, and the archive with theirs, where they have one.
  abbrev pub SignedFor : Text → RestoreRequest → RestoreChecks → Type 0
  SignedFor slug req checks =
      (m : ManifestDoc) × (load_manifest c st (some pub_key) checks.manifest_key ≡ ok_doc m)
      × ((e : RepoEntry) × Member e m.repos
          × (e.slug ≡ slug)
          × (copy_status e ≡ true)
          × Lists e.artifacts (bundle_key_of req) checks.bundle_sha
          × (Lists e.artifacts (lfs_key_of req) checks.lfs_sha ⊎ (checks.lfs_sha ≡ [])))

  pub recorded-SignedFor :
      (slug manifest_key : Text) (m : ManifestDoc) (e : RepoEntry) (a : ArtifactInfo)
      (req : RestoreRequest)
      → load_manifest c st (some pub_key) manifest_key ≡ ok_doc m
      → Member e m.repos
      → e.slug ≡ slug
      → copy_status e ≡ true
      → Member a e.artifacts
      → a.key ≡ bundle_key_of req
      → SignedFor slug req
          (recorded_checks manifest_key pub_key e (bundle_key_of req) (lfs_key_of req))
  unfolding recorded_checks
  recorded-SignedFor slug manifest_key m e a req loads member named status is_in key =
      let start : RestoreChecks = record {
        manifest_key = manifest_key;
        bundle_sha = [];
        lfs_sha = [];
        pub_key = pub_key;
      } in
      (
        m,
        ap (load_manifest c st (some pub_key))
              (recorded_loop-manifest_key (bundle_key_of req) (lfs_key_of req) e.artifacts start)
            ∙ loads,
        (
          e,
          member,
          named,
          status,
          elim (recorded_loop-bundle (bundle_key_of req) (lfs_key_of req) e.artifacts start) [
            | inl found ↦ found
            | inr (_, others) ↦
                absurd (All-member (λ a. a.key ≢ bundle_key_of req) e.artifacts others is_in key)
          ],
          recorded_loop-lfs (bundle_key_of req) (lfs_key_of req) e.artifacts start,
        ),
      )

  find_entry-Member :
      (slug : Text) (repos : List RepoEntry) {e : RepoEntry}
      → find_entry slug repos ≡ some e
      → Member e repos × (e.slug ≡ slug)
  unfolding find_entry
  find_entry-Member slug [] h = cc
  find_entry-Member slug (x ∷ repos) {e} h = elim (Bool-cases (text_eq x.slug slug)) [
    | inl on ↦
        let is : x ≡ e = some_same (rw (on, find_entry) at h) in
        rw (← is) (here, (text_eq_iff x.slug slug).0 on)
    | inr off ↦
        let (m, named) = find_entry-Member slug repos (rw (off, find_entry) at h) in
        (there m, named)
  ]

  find_kind-Member :
      (kind : Text) (artifacts : List ArtifactInfo) {a : ArtifactInfo}
      → find_kind kind artifacts ≡ some a
      → Member a artifacts
  unfolding find_kind
  find_kind-Member kind [] h = cc
  find_kind-Member kind (x ∷ artifacts) {a} h = elim (Bool-cases (text_eq x.kind kind)) [
    | inl on ↦ let is : x ≡ a = some_same (rw (on, find_kind) at h) in rw (← is) here
    | inr off ↦ there (find_kind-Member kind artifacts (rw (off, find_kind) at h))
  ]

  keys_of_recorded-ok :
      (recorded : Text) {parts : KeyParts} {lfs_key : Text}
      → keys_of_recorded recorded ≡ ok (parts, lfs_key)
      → (recorded ≡ (artifact_keys parts.host parts.owner parts.name parts.date).0)
        × (lfs_key ≡ (artifact_keys parts.host parts.owner parts.name parts.date).2)
  unfolding keys_of_recorded
  keys_of_recorded-ok recorded {parts} {lfs_key} h =
      let (p, is_p, h1) =
        >>=-eq-ok (or_fail (split_artifact_key recorded) foreign_key)
          (λ (p : KeyParts).
            guard (text_eq (artifact_keys p.host p.owner p.name p.date).0 recorded) foreign_key
            >> ok (p, (artifact_keys p.host p.owner p.name p.date).2))
          h in
      let (same, h2) =
        guard-eq-ok _ foreign_key (ok (p, (artifact_keys p.host p.owner p.name p.date).2)) h1 in
      let key = (text_eq_iff (artifact_keys p.host p.owner p.name p.date).0 recorded).0 same in
      let both : (p, (artifact_keys p.host p.owner p.name p.date).2) ≡ (parts, lfs_key) =
        ok_same h2 in
      let is : p ≡ parts = ap (λ (t : KeyParts × Text). t.0) both in
      (
        sym key ∙ ap (λ (q : KeyParts). (artifact_keys q.host q.owner q.name q.date).0) is,
        sym (ap (λ (t : KeyParts × Text). t.1) both)
            ∙ ap (λ (q : KeyParts). (artifact_keys q.host q.owner q.name q.date).2) is,
      )

  placed-SignedFor :
      (key : Text) (m : ManifestDoc) (req : RestoreRequest) (e : RepoEntry) (a : ArtifactInfo)
      (parts : KeyParts) (lfs_key : Text) {req' : RestoreRequest} {checks : RestoreChecks}
      → load_manifest c st (some pub_key) key ≡ ok_doc m
      → Member e m.repos
      → e.slug ≡ request_slug req
      → copy_status e ≡ true
      → Member a e.artifacts
      → a.key ≡ bundle_key_of (placed req parts)
      → lfs_key ≡ lfs_key_of (placed req parts)
      → ◌≡◌ {A = RestoreRequest × RestoreChecks}
          (placed req parts, recorded_checks key pub_key e a.key lfs_key)
          (req', checks)
      → SignedFor (request_slug req) req' checks
  placed-SignedFor key m req e a parts lfs_key loads member named status is_in is_key is_lfs both =
      subst (λ (t : RestoreRequest × RestoreChecks). SignedFor (request_slug req) t.0 t.1)
        (ap
            (λ (k : Text).
              (placed req parts, recorded_checks key pub_key e k (lfs_key_of (placed req parts))))
            (sym is_key)
          ∙ ap (λ (k : Text). (placed req parts, recorded_checks key pub_key e a.key k))
              (sym is_lfs)
          ∙ both)
        (recorded-SignedFor (request_slug req) key m e a (placed req parts) loads member named
          status is_in is_key)

  checks_from_entry-SignedFor :
      (key : Text) (m : ManifestDoc) (req : RestoreRequest) (e : RepoEntry) {req' : RestoreRequest}
      {checks : RestoreChecks}
      → load_manifest c st (some pub_key) key ≡ ok_doc m
      → Member e m.repos
      → e.slug ≡ request_slug req
      → checks_from_entry pub_key key req e ≡ ok (req', checks)
      → SignedFor (request_slug req) req' checks
  unfolding checks_from_entry
  checks_from_entry-SignedFor key m req e {req'} {checks} loads member named h =
      let (good, h1) =
        guard-eq-ok (text_eq e.status status_success) (not_a_copy e.status)
          (or_fail (find_kind (codes "bundle") e.artifacts) no_bundle >>= λ a.
            keys_of_recorded a.key >>= λ found.
            ok (placed req found.0, recorded_checks key pub_key e a.key found.1))
          h in
      let (a, is_a, h2) =
        >>=-eq-ok (or_fail (find_kind (codes "bundle") e.artifacts) no_bundle)
          (λ (a : ArtifactInfo). keys_of_recorded a.key >>= λ found.
            ok (placed req found.0, recorded_checks key pub_key e a.key found.1))
          h1 in
      let ((parts, lfs_key), is_found, h3) =
        >>=-eq-ok (keys_of_recorded a.key)
          (λ found. ok (placed req found.0, recorded_checks key pub_key e a.key found.1)) h2 in
      let (is_key, is_lfs) = keys_of_recorded-ok a.key is_found in
      let is_in = find_kind-Member (codes "bundle") e.artifacts (or_fail-eq-ok _ no_bundle is_a) in
      let status : copy_status e ≡ true = rw good refl in
      placed-SignedFor key m req e a parts lfs_key loads member named status is_in is_key is_lfs
        (ok_same h3)

  pub checks_from_manifest-SignedFor :
      (req : RestoreRequest) {req' : RestoreRequest} {checks : RestoreChecks}
      → checks_from_manifest c st (some pub_key) req ≡ ok (req', checks)
      → SignedFor (request_slug req) req' checks
  unfolding checks_from_manifest
  checks_from_manifest-SignedFor req h =
      let (own, h1) =
        guard-eq-ok (is_nil req.host && is_nil req.date) own_place
          (loaded (load_manifest c st (some pub_key) req.manifest_key) >>= λ m.
            or_fail (find_entry (request_slug req) m.repos) no_repository >>= λ e.
            checks_from_entry pub_key req.manifest_key req e)
          h in
      let (m, is_m, h2) =
        >>=-eq-ok (loaded (load_manifest c st (some pub_key) req.manifest_key))
          (λ (m : ManifestDoc).
            or_fail (find_entry (request_slug req) m.repos) no_repository >>= λ e.
            checks_from_entry pub_key req.manifest_key req e)
          h1 in
      let (e, is_e, h3) =
        >>=-eq-ok (or_fail (find_entry (request_slug req) m.repos) no_repository)
          (λ e. checks_from_entry pub_key req.manifest_key req e) h2 in
      let (member, named) =
        find_entry-Member (request_slug req) m.repos (or_fail-eq-ok _ no_repository is_e) in
      checks_from_entry-SignedFor req.manifest_key m req e (loaded-ok _ is_m) member named h3
