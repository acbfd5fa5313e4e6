-- ===== src/Pipeline/Restore/Proved.antt =====
-- internal/pipeline/restore.go: what a restore that succeeds has shown of the repository.
use mathlib.Core.Path.{subst}
use gitdr.Common.{ℕ, ◌≡◌, refl, Bool, true, Option, none, some, [], Text, text_eq, equal_fold}
use gitdr.Common.Results.{ok, ◌>>=◌, or_fail, >>=-eq-ok, guard-eq-ok}
use gitdr.Pipeline.Manifests.Read.{Store, Codecs}
use gitdr.Pipeline.Resume.{artifact_keys}
use gitdr.Pipeline.Recorded.Cache.{OneSize}
use gitdr.Pipeline.Refs.{RefComparison, comparison_ok}
use gitdr.Pipeline.RestoreChecks.{
  RestoreChecks, RestoreRequest, request_slug, restore_checks, no_temp, head_unread,
}
use gitdr.Pipeline.RestoreChecks.Named.{SignedFor, bundle_key_of, lfs_key_of}
use gitdr.Pipeline.RestoreChecks.Signed.{restore_checks-Signed}
use gitdr.Pipeline.Restore.{
  Machine, RestoreResult, download, fetch_bundle, clone_bundle, restore_lfs, restore_with, restore,
}
use gitdr.Pipeline.Restore.Bundle.{same_ok, Compared, fetch_bundle-ok, clone_bundle-ok}
use gitdr.Pipeline.Restore.Archive.{Agreed, restore_lfs-ok}

module _ (decrypt : Option (Text → Option Text)) (hash : Text → Text) where
  -- What a result says that a restore has shown.
  abbrev pub Restored : Store → Machine → RestoreRequest → RestoreChecks → RestoreResult → Type 0
  Restored st m req c res =
      ((stored : Text) × (download st (bundle_key_of req) ≡ some stored)
        × (equal_fold c.bundle_sha (hash stored) ≡ true)
        × (res.sha256 ≡ hash stored)
        × Compared decrypt hash m stored res.refs)
      × (comparison_ok res.refs ≡ true)
      × Agreed decrypt hash st c (lfs_key_of req) res.lfs
      × (m.pointers ≡ some [])
      × (res.signed ≡ true)

  pub restore_with-ok :
      (st : Store) (m : Machine) (req : RestoreRequest) (c : RestoreChecks) {res : RestoreResult}
      → restore_with decrypt hash st m req (some c) ≡ ok res
      → Restored st m req c res
  unfolding restore_with
  restore_with-ok st m req c {res} h =
      let sha_key = (artifact_keys req.host req.owner req.name req.date).1 in
      let result : Text → RefComparison → Bool → Bool → RestoreResult = λ s r checked_out lfs.
        record {
          bundle_key = bundle_key_of req;
          sha256 = hash s;
          refs = r;
          signed = true;
          lfs = lfs;
          checked_out = checked_out;
        } in
      let last = λ (s : Text) (r : RefComparison) (checked_out : Bool).
        restore_lfs decrypt hash st m (some c) (lfs_key_of req) checked_out >>= λ (lfs : Bool).
        ok (result s r checked_out lfs) in
      let third = λ (s : Text) (r : RefComparison).
        or_fail m.head_resolves head_unread >>= λ (checked_out : Bool). last s r checked_out in
      let second =
        λ (s : Text). clone_bundle decrypt hash m s >>= λ (r : RefComparison). third s r in
      let (_, h0) =
        guard-eq-ok m.made_temp no_temp
          (fetch_bundle decrypt hash st (some c) (bundle_key_of req) sha_key >>= second) h in
      let (s, is_s, h1) =
        >>=-eq-ok (fetch_bundle decrypt hash st (some c) (bundle_key_of req) sha_key) second h0 in
      let (r, is_r, h2) = >>=-eq-ok (clone_bundle decrypt hash m s) (third s) h1 in
      let (checked_out, _, h3) = >>=-eq-ok (or_fail m.head_resolves head_unread) (last s r) h2 in
      let (lfs, is_lfs, h4) =
        >>=-eq-ok (restore_lfs decrypt hash st m (some c) (lfs_key_of req) checked_out)
          (λ (lfs : Bool). ok (result s r checked_out lfs)) h3 in
      let (got, same) = fetch_bundle-ok decrypt hash st c (bundle_key_of req) sha_key is_s in
      let (compared, fine) = clone_bundle-ok decrypt hash m s is_r in
      let (agreed, none_left) =
        restore_lfs-ok decrypt hash st m c (lfs_key_of req) checked_out is_lfs in
      subst (Restored st m req c) (same_ok h4)
        ((s, got, same, refl, compared), fine, agreed, none_left, refl)

-- A restore with a public key that succeeds has given back what a signed manifest records. A
-- manifest that loads with the key has an entry of the repository asked for that records a copy and
-- lists the bundle's place with the checksum of the checks. The bundle stored there hashes to that
-- checksum; it is the hash the result gives. The clone's refs, compared with those that the opened
-- bundle declares, come out equal. The archive of large files is recorded, stored and hashes
-- to its recorded checksum, or it is neither recorded nor listed in the store. No file of the
-- tree is a pointer that was left. Whatever git and the disk answer, for a store that lists each
-- key at one size.
pub restore-Proved :
    (decrypt : Option (Text → Option Text)) (hash : Text → Text) (c : Codecs) (st : Store)
    (m : Machine) (pub_key : Text) (size_of : Text → ℕ) (req : RestoreRequest) {res : RestoreResult}
    → OneSize c st (some pub_key) (some (λ s. text_eq s (request_slug req))) size_of
    → restore decrypt hash c st m (some pub_key) none req ≡ ok res
    → (placed : RestoreRequest) × ((checks : RestoreChecks) × SignedFor c st pub_key
          (request_slug req)
          placed
          checks
        × Restored decrypt hash st m placed checks res)
unfolding restore
restore-Proved decrypt hash c st m pub_key size_of req {res} z h =
    let ((placed, checks), is_found, h1) =
      >>=-eq-ok (restore_checks c st (some pub_key) none req)
        (λ (t : RestoreRequest × Option RestoreChecks). restore_with decrypt hash st m t.0 t.1) h in
    let (k, is_k, signed) = restore_checks-Signed c st pub_key size_of req z is_found in
    (
      placed,
      (
        k,
        signed,
        restore_with-ok decrypt hash st m placed k (
            subst (λ (o : Option RestoreChecks). restore_with decrypt hash st m placed o ≡ ok res)
              is_k h1),
      ),
    )
