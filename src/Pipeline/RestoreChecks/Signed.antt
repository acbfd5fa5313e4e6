-- ===== src/Pipeline/RestoreChecks/Signed.antt =====
-- internal/pipeline/restore.go: what a restore is checked against is what a signed manifest records.
use mathlib.Core.Path.{subst}
use gitdr.Common.{
  ℕ, ◌≡◌, refl, sym, ap, ◌∙◌, inl, inr, Bool, true, Option, none, some, List, [], ◌∷◌, arith, Text,
  text_eq, is_nil, Bool-cases, Option-cases, Member, here, there, parse_dashed,
}
use gitdr.Common.Results.{ok, or_fail, >>=-eq-ok}
use gitdr.Pipeline.Manifest.{RepoEntry, ArtifactInfo}
use gitdr.Pipeline.Manifests.{manifest_search_dirs}
use gitdr.Pipeline.Manifests.Read.{Store, Codecs}
use gitdr.Pipeline.Recorded.{RecordedCopy, SearchReport, find, no_memory, copy_status, records_copy}
use gitdr.Pipeline.Recorded.Cache.{OneSize, nothing-IsFaithful}
use gitdr.Pipeline.Recorded.Found.{Backed, find-Backed}
use gitdr.Pipeline.Recorded.Sound.{records_copy_iff}
use gitdr.Pipeline.RestoreChecks.{
  RestoreChecks, RestoreRequest, request_slug, checks_from_manifest, found_checks,
  find_restore_checks, checks_named, checks_dated, restore_checks, bad_date,
}
use gitdr.Pipeline.RestoreChecks.Named.{
  SignedFor, recorded-SignedFor, checks_from_manifest-SignedFor, ok_same, bundle_key_of, lfs_key_of,
}

recorded_copy-status :
    (e : RepoEntry) (slug key : Text)
    → records_copy e slug key ≡ true
    → (e.slug ≡ slug)
      × (copy_status e ≡ true)
      × ((a : ArtifactInfo) × Member a e.artifacts × (a.key ≡ key))
unfolding records_copy
recorded_copy-status e slug key h =
    let (named, _, listed) = (records_copy_iff e slug key).0 h in
    (
      named,
      elim (Bool-cases (copy_status e)) [ inl on ↦ on | inr off ↦ absurd (ground (arith, off)) ],
      listed,
    )

single_key : {k key : Text} → Member k (key ∷ []) → k ≡ key
single_key here = refl
single_key (there m) = elim m [ ]

module _ (c : Codecs) (st : Store) (pub_key : Text) where
  found_checks-SignedFor :
      (size_of : Text → ℕ) (dirs : List Text) (req : RestoreRequest)
      (o : Option (Option RecordedCopy)) (rep : SearchReport) {checks : RestoreChecks}
      → ((r : RecordedCopy)
          → o ≡ some (some r)
          → Backed c st
              (some pub_key)
              (some (λ s. text_eq s (request_slug req)))
              (request_slug req)
              (bundle_key_of req ∷ [])
              none
              size_of
              dirs
              r)
      → found_checks pub_key (bundle_key_of req) (lfs_key_of req) o rep ≡ ok checks
      → SignedFor c st pub_key (request_slug req) req checks
  unfolding found_checks
  found_checks-SignedFor size_of dirs req none rep backed h = cc
  found_checks-SignedFor size_of dirs req (some none) rep backed h = elim (Option-cases rep.named) [
    | inl n ↦ absurd (ground (arith, n))
    | inr (e, n) ↦ absurd (ground (arith, n))
  ]
  found_checks-SignedFor size_of dirs req (some (some r)) rep {checks} backed h =
      let ((k, is_k, records), (m, loads, member, _), _, _) = backed r refl in
      let (named, status, (a, is_in, key)) =
        recorded_copy-status r.entry (request_slug req) k records in
      subst (SignedFor c st pub_key (request_slug req) req) (ok_same h) (
        recorded-SignedFor c st pub_key (request_slug req) r.manifest_key m r.entry a req loads
          member named status is_in (key ∙ single_key is_k))

  find_restore_checks-SignedFor :
      (size_of : Text → ℕ) (req : RestoreRequest) {checks : RestoreChecks}
      → OneSize c st (some pub_key) (some (λ s. text_eq s (request_slug req))) size_of
      → find_restore_checks c st pub_key req ≡ ok checks
      → SignedFor c st pub_key (request_slug req) req checks
  unfolding find_restore_checks
  find_restore_checks-SignedFor size_of req {checks} z h =
      let dirs = manifest_search_dirs req.host req.owner in
      let keep : Option (Text → Bool) = some (λ s. text_eq s (request_slug req)) in
      let (day, _, h1) =
        >>=-eq-ok (or_fail (parse_dashed req.date) bad_date)
          (λ (day : ℕ).
            let search =
              find c st (some pub_key) keep dirs day (request_slug req) (bundle_key_of req ∷ [])
                none no_memory in
            found_checks pub_key (bundle_key_of req) (lfs_key_of req) search.0 search.1)
          h in
      let search =
        find c st (some pub_key) keep dirs day (request_slug req) (bundle_key_of req ∷ []) none
          no_memory in
      found_checks-SignedFor size_of dirs req search.0 search.1
        (λ r is_r.
          find-Backed c st (some pub_key) keep size_of dirs day (request_slug req)
            (bundle_key_of req ∷ []) none no_memory z
            (nothing-IsFaithful c st (some pub_key) keep size_of) is_r)
        h1

-- With a public key a restore is checked against what a signed manifest records. Whatever
-- the start of `Restore` settles on, from the manifest the request names or from the one that is
-- found for its date, is a set of checks that this manifest bears out: it loads with the public key
-- and has an entry of the repository asked for that records a copy; that entry lists the bundle at
-- the place to be read with the checksum of the checks, and the archive with the checksum that the
-- checks have for it, where they have one. For a store that lists each key at one size.
pub restore_checks-Signed :
    (c : Codecs) (st : Store) (pub_key : Text) (size_of : Text → ℕ) (req : RestoreRequest)
    {req' : RestoreRequest} {checks : Option RestoreChecks}
    → OneSize c st (some pub_key) (some (λ s. text_eq s (request_slug req))) size_of
    → restore_checks c st (some pub_key) none req ≡ ok (req', checks)
    → (k : RestoreChecks) × (checks ≡ some k) × SignedFor c st pub_key (request_slug req) req' k
unfolding restore_checks checks_named checks_dated
restore_checks-Signed c st pub_key size_of req {req'} {checks} z h =
    elim (Bool-cases (is_nil req.manifest_key)) [
      | inr off ↦
          let (found, is_found, h1) =
            >>=-eq-ok (checks_from_manifest c st (some pub_key) req)
              (λ (t : RestoreRequest × RestoreChecks). ok (t.0, some t.1)) (rw off at h) in
          let both = ok_same h1 in
          let is_req : found.0 ≡ req' =
            ap (λ (t : RestoreRequest × Option RestoreChecks). t.0) both in
          (
            found.1,
            sym (ap (λ (t : RestoreRequest × Option RestoreChecks). t.1) both),
            subst (λ (r : RestoreRequest). SignedFor c st pub_key (request_slug req) r found.1)
                (is_req) (checks_from_manifest-SignedFor c st pub_key req is_found),
          )
      | inl on ↦
          let (found, is_found, h1) =
            >>=-eq-ok (find_restore_checks c st pub_key req)
              (λ (k : RestoreChecks). ok (req, some k)) (rw on at h) in
          let both = ok_same h1 in
          let is_req : req ≡ req' = ap (λ (t : RestoreRequest × Option RestoreChecks). t.0) both in
          (
            found,
            sym (ap (λ (t : RestoreRequest × Option RestoreChecks). t.1) both),
            subst (λ (r : RestoreRequest). SignedFor c st pub_key (request_slug req) r found)
                (is_req) (find_restore_checks-SignedFor c st pub_key size_of req z is_found),
          )
    ]
