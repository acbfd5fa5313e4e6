-- ===== src/Pipeline/Restore/Bundle.antt =====
-- internal/pipeline/restore.go: what the fetch and the clone of a bundle have shown.
use gitdr.Common.{
  ◌≡◌, sym, ap, ◌∙◌, true, not, ◌||◌, Option, some, List, Text, GoMap, equal_fold, is_nil, is_some,
}
use gitdr.Common.Results.{
  Result, ok, ◌>>=◌, ◌>>◌, guard, or_fail, >>=-eq-ok, guard-eq-ok, or_fail-eq-ok,
}
use gitdr.Pipeline.Manifests.Read.{Store}
use gitdr.Pipeline.Refs.{BundleRef, RefComparison, compare_refs, comparison_ok}
use gitdr.Pipeline.RestoreChecks.{
  RestoreChecks, RestoreFault, undownloaded, encrypted, wrong_checksum, unlike_manifest,
  undecrypted, bad_bundle, uncloned, refs_unread, refs_differ,
}
use gitdr.Pipeline.Restore.{
  Machine, download, is_encrypted, sidecar_sha, fetch_bundle, agrees, opened, compare_restored,
  clone_bundle,
}

pub same_ok : {A : Type 0} {x y : A} → ◌≡◌ {A = Result RestoreFault A} (ok x) (ok y) → x ≡ y
same_ok h = cc

module _ (decrypt : Option (Text → Option Text)) (hash : Text → Text) where
  -- The bundle that is stored has the checksum of the checks.
  pub fetch_bundle-ok :
      (st : Store) (c : RestoreChecks) (bundle_key sha_key : Text) {stored : Text}
      → fetch_bundle decrypt hash st (some c) bundle_key sha_key ≡ ok stored
      → (download st bundle_key ≡ some stored) × (equal_fold c.bundle_sha (hash stored) ≡ true)
  unfolding fetch_bundle
  fetch_bundle-ok st c bundle_key sha_key {stored} h =
      let (s, is_s, h1) =
        >>=-eq-ok (or_fail (download st bundle_key) undownloaded)
          (λ (s : Text).
            guard (is_some decrypt || not (is_encrypted s)) encrypted
            >> (sidecar_sha decrypt hash st sha_key >>= λ (want : Text).
                guard (equal_fold want (hash s)) wrong_checksum
                >> (guard (agrees decrypt hash (some c) (hash s)) unlike_manifest >> ok s)))
          h in
      let (_, h2) =
        guard-eq-ok _ encrypted
          (sidecar_sha decrypt hash st sha_key >>= λ (want : Text).
            guard (equal_fold want (hash s)) wrong_checksum
            >> (guard (agrees decrypt hash (some c) (hash s)) unlike_manifest >> ok s))
          h1 in
      let (want, _, h3) =
        >>=-eq-ok (sidecar_sha decrypt hash st sha_key)
          (λ (want : Text).
            guard (equal_fold want (hash s)) wrong_checksum
            >> (guard (agrees decrypt hash (some c) (hash s)) unlike_manifest >> ok s))
          h2 in
      let (_, h4) =
        guard-eq-ok _ wrong_checksum
          (guard (agrees decrypt hash (some c) (hash s)) unlike_manifest >> ok s) h3 in
      let (same, h5) = guard-eq-ok _ unlike_manifest (ok s) h4 in
      let is : s ≡ stored = same_ok h5 in
      (
        or_fail-eq-ok _ undownloaded is_s ∙ ap some is,
        ap (λ (t : Text). equal_fold c.bundle_sha (hash t)) (sym is) ∙ same,
      )

  -- A comparison of what the bundle declares with what the clone has.
  abbrev pub Compared : Machine → Text → RefComparison → Type 0
  Compared m stored refs =
      (bundle : Text) × (opened decrypt hash stored ≡ some bundle)
      × ((declared : List BundleRef) × (m.heads bundle ≡ some declared)
          × ((restored : GoMap Text) × (m.clone_refs ≡ some restored)
              × (refs ≡ compare_refs declared restored m.clone_head)))

  compare_restored-ok :
      (m : Machine) (bundle : Text) {refs : RefComparison}
      → compare_restored decrypt hash m bundle ≡ ok refs
      → (declared : List BundleRef) × (m.heads bundle ≡ some declared)
        × ((restored : GoMap Text) × (m.clone_refs ≡ some restored)
            × (refs ≡ compare_refs declared restored m.clone_head))
  unfolding compare_restored
  compare_restored-ok m bundle h =
      let (declared, is_declared, h1) =
        >>=-eq-ok (or_fail (m.heads bundle) refs_unread)
          (λ (declared : List BundleRef).
            guard (not (is_nil declared)) refs_unread
            >> (or_fail m.clone_refs refs_unread >>= λ (restored : GoMap Text).
                ok (compare_refs declared restored m.clone_head)))
          h in
      let (_, h2) =
        guard-eq-ok _ refs_unread
          (or_fail m.clone_refs refs_unread >>= λ (restored : GoMap Text).
            ok (compare_refs declared restored m.clone_head))
          h1 in
      let (restored, is_restored, h3) =
        >>=-eq-ok (or_fail m.clone_refs refs_unread)
          (λ (restored : GoMap Text). ok (compare_refs declared restored m.clone_head)) h2 in
      (
        declared,
        or_fail-eq-ok _ refs_unread is_declared,
        (restored, or_fail-eq-ok _ refs_unread is_restored, sym (same_ok h3)),
      )

  pub clone_bundle-ok :
      (m : Machine) (stored : Text) {refs : RefComparison}
      → clone_bundle decrypt hash m stored ≡ ok refs
      → Compared m stored refs × (comparison_ok refs ≡ true)
  unfolding clone_bundle
  clone_bundle-ok m stored {refs} h =
      let (bundle, is_bundle, h1) =
        >>=-eq-ok (or_fail (opened decrypt hash stored) undecrypted)
          (λ (bundle : Text).
            guard (m.bundle_verifies bundle) bad_bundle
            >> (guard (m.clones bundle) uncloned
                >> (compare_restored decrypt hash m bundle >>= λ (r : RefComparison).
                    guard (comparison_ok r) refs_differ >> ok r)))
          h in
      let (_, h2) =
        guard-eq-ok _ bad_bundle
          (guard (m.clones bundle) uncloned
            >> (compare_restored decrypt hash m bundle >>= λ (r : RefComparison).
                guard (comparison_ok r) refs_differ >> ok r))
          h1 in
      let (_, h3) =
        guard-eq-ok _ uncloned
          (compare_restored decrypt hash m bundle >>= λ (r : RefComparison).
            guard (comparison_ok r) refs_differ >> ok r)
          h2 in
      let (r, is_r, h4) =
        >>=-eq-ok (compare_restored decrypt hash m bundle)
          (λ (r : RefComparison). guard (comparison_ok r) refs_differ >> ok r) h3 in
      let (fine, h5) = guard-eq-ok _ refs_differ (ok r) h4 in
      let is : r ≡ refs = same_ok h5 in
      let (declared, heads, (restored, has, compared)) = compare_restored-ok m bundle is_r in
      (
        (
          bundle,
          or_fail-eq-ok _ undecrypted is_bundle,
          (declared, heads, (restored, has, sym is ∙ compared)),
        ),
        ap comparison_ok (sym is) ∙ fine,
      )
