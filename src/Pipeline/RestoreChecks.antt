-- ===== src/Pipeline/RestoreChecks.antt =====
-- internal/pipeline/restore.go: what the signed manifest says of the artifacts of a restore, from the
-- manifest it is given or from the one it finds (with splitArtifactKey of drill.go).
pub mod Listed
pub mod Named
pub mod Signed
use gitdr.Common.{
  ℕ, zero, suc, ◌-◌, Bool, true, false, not, ◌&&◌, ◌||◌, Option, none, some, List, [], ◌∷◌, ◌++◌,
  Text, codes, text_eq, length, take, drop, is_nil, is_some, if◌then◌else◌, ltb, slash, split_slash,
  join_slash, parse_dashed,
}
use gitdr.Common.Results.{Result, ok, err, ◌>>=◌, ◌>>◌, guard, or_fail}
use gitdr.Pipeline.Manifest.{RepoEntry, ArtifactInfo, status_success}
use gitdr.Pipeline.Manifests.{manifest_search_dirs}
use gitdr.Pipeline.Manifests.Read.{Store, Codecs, ManifestDoc, Loaded, load_manifest}
use gitdr.Pipeline.Manifests.Read
use gitdr.Pipeline.Recorded.{RecordedCopy, SearchReport, find, no_memory}
use gitdr.Pipeline.Resume.{artifact_keys}

-- Where a dated artifact is filed.
pub record KeyParts : Type 0 where
  pub host : Text
  pub owner : Text
  pub name : Text
  pub date : Text

abbrev pub nth : ℕ → List Text → Text
nth i [] = []
nth zero (p ∷ parts) = p
nth (suc i) (_ ∷ parts) = nth i parts

-- `splitArtifactKey`: read from the end, as the owner can have more than one segment.
unfoldable pub split_artifact_key : Text → Option KeyParts
split_artifact_key key =
    let parts = split_slash key in
    let n = length parts in
    if ltb n 5
    then none
    else some (record {
      host = nth 0 parts;
      owner = join_slash (take (n - 4) (drop 1 parts));
      name = nth (n - 3) parts;
      date = nth (n - 2) parts;
    })

-- restoreChecks: `lfs_sha` is empty where the manifest records no archive.
pub record RestoreChecks : Type 0 where
  pub manifest_key : Text
  pub bundle_sha : Text
  pub lfs_sha : Text
  pub pub_key : Text

abbrev pub record_one : Text → Text → ArtifactInfo → RestoreChecks → RestoreChecks
record_one bundle_key lfs_key a c =
    if text_eq a.key bundle_key
    then record c { bundle_sha = a.sha256 }
    else if text_eq a.key lfs_key
    then record c { lfs_sha = a.sha256 }
    else c

-- The loop of `recordedChecks`: the last artifact of a key decides.
unfoldable pub recorded_loop : Text → Text → List ArtifactInfo → RestoreChecks → RestoreChecks
recorded_loop bundle_key lfs_key [] c = c
recorded_loop bundle_key lfs_key (a ∷ artifacts) c =
    recorded_loop bundle_key lfs_key artifacts (record_one bundle_key lfs_key a c)

-- `recordedChecks`.
unfoldable pub recorded_checks : Text → Text → RepoEntry → Text → Text → RestoreChecks
unfolding recorded_loop
recorded_checks manifest_key pub_key e bundle_key lfs_key =
    recorded_loop bundle_key lfs_key e.artifacts
      (record { manifest_key = manifest_key; bundle_sha = []; lfs_sha = []; pub_key = pub_key })

-- RestoreRequest, and what of it a manifest names.
pub record RestoreRequest : Type 0 where
  pub manifest_key : Text
  pub host : Text
  pub owner : Text
  pub name : Text
  pub date : Text

pub data RestoreFault : Type 0 where
  needs_key own_place unloaded no_repository no_bundle foreign_key bad_date : RestoreFault
  search_failed unverified_checks : RestoreFault
  -- The status that the manifest gives the repository instead of a copy.
  not_a_copy : Text → RestoreFault
  -- Nothing found: of the manifests seen, those that were too large and those passed over.
  unrecorded : ℕ → ℕ → ℕ → RestoreFault
  no_temp undownloaded encrypted sidecar_unread wrong_checksum unlike_manifest : RestoreFault
  undecrypted bad_bundle uncloned refs_unread refs_differ head_unread : RestoreFault
  lfs_unlisted lfs_missing lfs_unrecorded lfs_undownloaded lfs_unlike_manifest : RestoreFault
  lfs_undecrypted lfs_unextracted lfs_uninstalled lfs_unhooked lfs_unfilled : RestoreFault
  tree_unread pointers_left : RestoreFault

unfoldable pub find_entry : Text → List RepoEntry → Option RepoEntry
find_entry slug [] = none
find_entry slug (e ∷ repos) = if text_eq e.slug slug then some e else find_entry slug repos

unfoldable pub find_kind : Text → List ArtifactInfo → Option ArtifactInfo
find_kind kind [] = none
find_kind kind (a ∷ artifacts) = if text_eq a.kind kind then some a else find_kind kind artifacts

abbrev pub request_slug : RestoreRequest → Text
request_slug req = req.owner ++ (slash ∷ req.name)

abbrev pub loaded : Loaded ManifestDoc → Result RestoreFault ManifestDoc
loaded (Read.ok m) = ok m
loaded (Read.err e) = err unloaded

-- The keys of a bundle that a manifest records, held to the one layout that backup writes.
unfoldable pub keys_of_recorded : Text → Result RestoreFault (KeyParts × Text)
unfolding split_artifact_key artifact_keys
keys_of_recorded recorded = do
  parts ← or_fail (split_artifact_key recorded) foreign_key
  let keys = artifact_keys parts.host parts.owner parts.name parts.date
  guard (text_eq (keys.0) recorded) foreign_key
  ok (parts, keys.2)

abbrev pub placed : RestoreRequest → KeyParts → RestoreRequest
placed req parts = record req {
  host = parts.host;
  owner = parts.owner;
  name = parts.name;
  date = parts.date;
}

-- What an entry's copy says of the request.
unfoldable pub checks_from_entry :
    Text → Text → RestoreRequest → RepoEntry → Result RestoreFault (RestoreRequest × RestoreChecks)
unfolding find_kind keys_of_recorded recorded_checks
checks_from_entry pub_key key req e = do
  guard (text_eq e.status status_success) (not_a_copy e.status)
  a ← or_fail (find_kind (codes "bundle") e.artifacts) no_bundle
  found ← keys_of_recorded a.key
  ok (placed req found.0, recorded_checks key pub_key e a.key found.1)

-- `checksFromManifest`.
unfoldable pub checks_from_manifest :
    Codecs
    → Store
    → Option Text
    → RestoreRequest
    → Result RestoreFault (RestoreRequest × RestoreChecks)
unfolding find_entry checks_from_entry
checks_from_manifest c st none req = err needs_key
checks_from_manifest c st (some pub_key) req = do
  guard (is_nil req.host && is_nil req.date) own_place
  m ← loaded (load_manifest c st (some pub_key) req.manifest_key)
  e ← or_fail (find_entry (request_slug req) m.repos) no_repository
  checks_from_entry pub_key req.manifest_key req e

-- What the search for the bundle's manifest comes to.
unfoldable pub found_checks :
    Text
    → Text
    → Text
    → Option (Option RecordedCopy)
    → SearchReport
    → Result RestoreFault RestoreChecks
unfolding recorded_checks
found_checks pub_key bundle_key lfs_key none rep = err search_failed
found_checks pub_key bundle_key lfs_key (some (some r)) rep =
    ok (recorded_checks r.manifest_key pub_key r.entry bundle_key lfs_key)
found_checks pub_key bundle_key lfs_key (some none) rep = elim rep.named [
  | some (e, key) ↦ err (not_a_copy e.status)
  | none ↦ err (unrecorded rep.seen rep.too_large_count rep.passed)
]

-- `findRestoreChecks`.
unfoldable pub find_restore_checks :
    Codecs → Store → Text → RestoreRequest → Result RestoreFault RestoreChecks
unfolding found_checks artifact_keys
find_restore_checks c st pub_key req = do
  day ← or_fail (parse_dashed req.date) bad_date
  let keys = artifact_keys req.host req.owner req.name req.date
  let search =
      find c st (some pub_key) (some (λ s. text_eq s (request_slug req)))
        (manifest_search_dirs req.host req.owner) day (request_slug req) ((keys.0) ∷ []) none
        no_memory
  found_checks pub_key (keys.0) (keys.2) (search.0) (search.1)

unfoldable pub checks_named :
    Codecs
    → Store
    → Option Text
    → RestoreRequest
    → Result RestoreFault (RestoreRequest × Option RestoreChecks)
unfolding checks_from_manifest
checks_named c st pub_key req = do
  found ← checks_from_manifest c st pub_key req
  ok (found.0, some found.1)

unfoldable pub checks_dated :
    Codecs
    → Store
    → Option Text
    → RestoreRequest
    → Result RestoreFault (RestoreRequest × Option RestoreChecks)
unfolding find_restore_checks
checks_dated c st none req = ok (req, none)
checks_dated c st (some pub_key) req = do
  checks ← find_restore_checks c st pub_key req
  ok (req, some checks)

-- The start of `Restore`: the checks of a caller that has verified the manifest, of a named
-- manifest, or of the one that is found; none without a public key.
unfoldable pub restore_checks :
    Codecs
    → Store
    → Option Text
    → Option RestoreChecks
    → RestoreRequest
    → Result RestoreFault (RestoreRequest × Option RestoreChecks)
unfolding checks_named checks_dated
restore_checks c st none (some checks) req = err unverified_checks
restore_checks c st (some pub_key) (some checks) req = do
  guard (text_eq pub_key checks.pub_key) unverified_checks
  ok (req, some checks)
restore_checks c st pub_key none req =
    if not (is_nil req.manifest_key)
    then checks_named c st pub_key req
    else checks_dated c st pub_key req
