-- ===== src/Pipeline/Restore.antt =====
-- internal/pipeline/restore.go, Restore: one repository restored and held to what it should be. What
-- git, git-lfs and the disk answer are values; encryption and SHA-256 in hexadecimal are functions.
pub mod Bundle
pub mod Archive
pub mod Proved
use gitdr.Common.{
  ℕ, zero, suc, Bool, true, false, not, ◌&&◌, ◌||◌, Option, none, some, List, [], ◌∷◌, ◌++◌, Text,
  GoMap, codes, text_eq, equal_fold, has_prefix, length, take, is_nil, is_some, if◌then◌else◌, ltb,
  is_space, drop_spaces,
}
use gitdr.Common.Results.{Result, ok, err, ◌>>=◌, ◌>>◌, guard, or_fail}
use gitdr.Crypto.Encrypt.{enc_magic}
use gitdr.Pipeline.Manifests.{Object}
use gitdr.Pipeline.Manifests.Read.{Store, Codecs}
use gitdr.Pipeline.Refs.{BundleRef, RefComparison, compare_refs, comparison_ok}
use gitdr.Pipeline.Resume.{artifact_keys}
use gitdr.Pipeline.RestoreChecks.{
  RestoreChecks, RestoreRequest, RestoreFault, restore_checks, no_temp, undownloaded, encrypted,
  sidecar_unread, wrong_checksum, unlike_manifest, undecrypted, bad_bundle, uncloned, refs_unread,
  refs_differ, head_unread, lfs_unlisted, lfs_missing, lfs_unrecorded, lfs_undownloaded,
  lfs_unlike_manifest, lfs_undecrypted, lfs_unextracted, lfs_uninstalled, lfs_unhooked,
  lfs_unfilled, tree_unread, pointers_left,
}

-- What a restore is told by the machine it runs on. `clone_head` is empty for a HEAD that does not
-- resolve; `pointers` are the files of the tree that are git-lfs pointers, none where it cannot be
-- read.
pub record Machine : Type 0 where
  pub made_temp : Bool
  pub bundle_verifies : Text → Bool
  pub clones : Text → Bool
  pub heads : Text → Option (List BundleRef)
  pub clone_refs : Option (GoMap Text)
  pub clone_head : Text
  pub head_resolves : Option Bool
  pub extracts : Text → Bool
  pub lfs_available : Bool
  pub lfs_hooked : Bool
  pub lfs_filled : Bool
  pub pointers : Option (List Text)

pub record RestoreResult : Type 0 where
  pub bundle_key : Text
  pub sha256 : Text
  pub refs : RefComparison
  pub signed : Bool
  pub lfs : Bool
  pub checked_out : Bool

-- `downloadToFile`.
unfoldable pub download : Store → Text → Option Text
download st key = elim (st.get key) [
  | none ↦ none
  | some body ↦ if body.fails then none else some body.bytes
]

-- `IsEncrypted` on the first eight bytes of a file: `fileIsEncrypted`.
unfoldable pub is_encrypted : Text → Bool
unfolding has_prefix enc_magic
is_encrypted b = if ltb (length b) 8 then false else has_prefix (take 8 b) enc_magic

unfoldable pub take_word : Text → Text
take_word [] = []
take_word (c ∷ s) = let rest = take_word s in if is_space c then [] else c ∷ rest

abbrev pub sidecar_limit : ℕ
sidecar_limit = 8192

-- `io.ReadAll` of the sidecar through its limit.
unfoldable pub read_sidecar : Store → Text → Option Text
read_sidecar st key = elim (st.get key) [
  | none ↦ none
  | some body ↦
      if body.fails && ltb (length body.bytes) sidecar_limit
      then none
      else some (take sidecar_limit body.bytes)
]

module _ (decrypt : Option (Text → Option Text)) (hash : Text → Text) where
  -- What is stored, decrypted where there is a key.
  abbrev pub opened : Text → Option Text
  opened stored = elim decrypt [ none ↦ some stored | some open_sealed ↦ open_sealed stored ]

  -- `readSHASidecar`: the first word.
  unfoldable pub sidecar_sha : Store → Text → Result RestoreFault Text
  unfolding read_sidecar take_word drop_spaces
  sidecar_sha st key = do
    b ← or_fail (read_sidecar st key) sidecar_unread
    plain ← or_fail (opened b) sidecar_unread
    let word = take_word (drop_spaces plain)
    guard (not (is_nil word)) sidecar_unread
    ok word

  abbrev pub agrees : Option RestoreChecks → Text → Bool
  agrees none sha = true
  agrees (some c) sha = equal_fold c.bundle_sha sha

  -- The stored bundle, held to its sidecar and to the manifest.
  unfoldable pub fetch_bundle :
      Store → Option RestoreChecks → Text → Text → Result RestoreFault Text
  unfolding download is_encrypted sidecar_sha
  fetch_bundle st checks bundle_key sha_key = do
    stored ← or_fail (download st bundle_key) undownloaded
    guard (is_some decrypt || not (is_encrypted stored)) encrypted
    want ← sidecar_sha st sha_key
    guard (equal_fold want (hash stored)) wrong_checksum
    guard (agrees checks (hash stored)) unlike_manifest
    ok stored

  -- `CompareRestoredRefs`.
  unfoldable pub compare_restored : Machine → Text → Result RestoreFault RefComparison
  compare_restored m bundle = do
    declared ← or_fail (m.heads bundle) refs_unread
    guard (not (is_nil declared)) refs_unread
    restored ← or_fail m.clone_refs refs_unread
    ok (compare_refs declared restored m.clone_head)

  -- The bundle cloned, and the clone held to what the bundle declares.
  unfoldable pub clone_bundle : Machine → Text → Result RestoreFault RefComparison
  unfolding compare_restored
  clone_bundle m stored = do
    bundle ← or_fail (opened stored) undecrypted
    guard (m.bundle_verifies bundle) bad_bundle
    guard (m.clones bundle) uncloned
    refs ← compare_restored m bundle
    guard (comparison_ok refs) refs_differ
    ok refs

  -- Whether the store has the archive: a listing that fails has not said so.
  abbrev pub lfs_stored : Option (List Object) → Bool
  lfs_stored none = false
  lfs_stored (some []) = false
  lfs_stored (some (_ ∷ _)) = true

  -- The manifest and the destination have to agree on whether there is an archive.
  unfoldable pub agree_on_lfs :
      Option RestoreChecks → Option (List Object) → Result RestoreFault (Unit {0})
  agree_on_lfs none listed = ok tt
  agree_on_lfs (some c) listed =
      if not (is_nil c.lfs_sha) && not (lfs_stored listed)
      then err (if is_some listed then lfs_missing else lfs_unlisted)
      else if is_nil c.lfs_sha && lfs_stored listed
      then err lfs_unrecorded
      else ok tt

  abbrev pub lfs_agrees : Option RestoreChecks → Text → Bool
  lfs_agrees none sha = true
  lfs_agrees (some c) sha = equal_fold c.lfs_sha sha

  -- The files read back: none of them may be a pointer.
  unfoldable pub no_pointers : Machine → Result RestoreFault (Unit {0})
  no_pointers m = do left ← or_fail m.pointers tree_unread; guard (is_nil left) pointers_left

  -- The archive put back into the clone.
  unfoldable pub put_back_lfs :
      Store → Machine → Option RestoreChecks → Text → Bool → Result RestoreFault (Unit {0})
  unfolding download no_pointers
  put_back_lfs st m checks lfs_key checked_out = do
    stored ← or_fail (download st lfs_key) lfs_undownloaded
    guard (lfs_agrees checks (hash stored)) lfs_unlike_manifest
    tar ← or_fail (opened stored) lfs_undecrypted
    guard (m.extracts tar) lfs_unextracted
    guard m.lfs_available lfs_uninstalled
    guard m.lfs_hooked lfs_unhooked
    guard (not checked_out || m.lfs_filled) lfs_unfilled
    no_pointers m

  unfoldable pub restore_lfs :
      Store → Machine → Option RestoreChecks → Text → Bool → Result RestoreFault Bool
  unfolding agree_on_lfs put_back_lfs no_pointers
  restore_lfs st m checks lfs_key checked_out = do
    agree_on_lfs checks (st.list lfs_key)
    (if lfs_stored (st.list lfs_key)
        then put_back_lfs st m checks lfs_key checked_out
        else no_pointers m)
    ok (lfs_stored (st.list lfs_key))

  -- `Restore` with its checks made.
  unfoldable pub restore_with :
      Store → Machine → RestoreRequest → Option RestoreChecks → Result RestoreFault RestoreResult
  unfolding artifact_keys fetch_bundle clone_bundle restore_lfs
  restore_with st m req checks = do
    let keys = artifact_keys req.host req.owner req.name req.date
    guard m.made_temp no_temp
    stored ← fetch_bundle st checks keys.0 keys.1
    refs ← clone_bundle m stored
    checked_out ← or_fail m.head_resolves head_unread
    lfs ← restore_lfs st m checks keys.2 checked_out
    ok (record {
      bundle_key = keys.0;
      sha256 = hash stored;
      refs = refs;
      signed = is_some checks;
      lfs = lfs;
      checked_out = checked_out;
    })

  -- `Restore`.
  unfoldable pub restore :
      Codecs
      → Store
      → Machine
      → Option Text
      → Option RestoreChecks
      → RestoreRequest
      → Result RestoreFault RestoreResult
  unfolding restore_checks restore_with
  restore c st m pub_key verified req = do
    found ← restore_checks c st pub_key verified req
    restore_with st m found.0 found.1
