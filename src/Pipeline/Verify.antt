-- ===== src/Pipeline/Verify.antt =====
-- internal/pipeline/verify.go: a manifest's signature, and its artifacts read back. The reads run at
-- once and finish in any order, which comes as a list; SHA-256 in hexadecimal is a function.
pub mod Order
pub mod Passes
use gitdr.Common.{
  ℕ, zero, suc, ◌+◌, Bool, true, false, not, ◌&&◌, Option, none, some, List, [], ◌∷◌, ◌++◌, Text,
  codes, text_eq, equal_fold, has_prefix, length, is_nil, trim_space, if◌then◌else◌,
}
use gitdr.Pipeline.Manifest.{RepoEntry, ArtifactInfo}
use gitdr.Pipeline.Manifests.Read.{
  Store, Codecs, ManifestDoc, Capped, got, over_limit, failed_read, read_capped,
}
use gitdr.Pipeline.Manifests.{manifest_schema_prefix, max_manifest_bytes, max_signature_bytes}

pub data VerifyFault : Type 0 where
  manifest_too_large manifest_unread signature_unread : VerifyFault
  signature_undecoded wrong_signature unparsed wrong_document : VerifyFault
  artifact_failures : ℕ → VerifyFault

-- `no_failure` is the empty text of a slot that no read filled in.
pub data VerifyFailure : Type 0 where
  no_failure invalid_signature : VerifyFailure
  unread_artifact mismatched : Text → VerifyFailure

pub record VerifyResult : Type 0 where
  pub signature_valid : Bool
  pub artifacts_checked : ℕ
  pub artifacts_ok : ℕ
  pub failures : List VerifyFailure

pub record ArtifactCheck : Type 0 where
  pub ok : Bool
  pub failure : VerifyFailure

abbrev pub no_check : ArtifactCheck
no_check = record { ok = false; failure = no_failure }

unfoldable pub get_sha : Store → (Text → Text) → Text → Option Text
get_sha st hash key = elim (st.get key) [
  | none ↦ none
  | some body ↦ if body.fails then none else some (hash body.bytes)
]

unfoldable pub check_artifact : Store → (Text → Text) → ArtifactInfo → ArtifactCheck
unfolding get_sha
check_artifact st hash a = elim (get_sha st hash a.key) [
  | none ↦ record { ok = false; failure = unread_artifact a.key }
  | some sum ↦
      if not (equal_fold sum a.sha256)
      then record { ok = false; failure = mismatched a.key }
      else record { ok = true; failure = no_failure }
]

abbrev pub all_artifacts : List RepoEntry → List ArtifactInfo
all_artifacts [] = []
all_artifacts (e ∷ repos) = e.artifacts ++ all_artifacts repos

abbrev pub Job : Type 0
Job = ℕ × ArtifactInfo

-- The reads that are started, each with its slot.
abbrev pub numbered : ℕ → List ArtifactInfo → List Job
numbered i [] = []
numbered i (a ∷ artifacts) = (i, a) ∷ numbered (suc i) artifacts

abbrev pub set_slot : ℕ → ArtifactCheck → List ArtifactCheck → List ArtifactCheck
set_slot i c [] = []
set_slot zero c (_ ∷ slots) = c ∷ slots
set_slot (suc i) c (s ∷ slots) = s ∷ set_slot i c slots

abbrev pub empty_slots : List ArtifactInfo → List ArtifactCheck
empty_slots [] = []
empty_slots (_ ∷ artifacts) = no_check ∷ empty_slots artifacts

-- Each read that finishes fills its own slot.
unfoldable pub fill_slots :
    (ArtifactInfo → ArtifactCheck) → List Job → List ArtifactCheck → List ArtifactCheck
fill_slots check [] slots = slots
fill_slots check ((i, a) ∷ finished) slots = fill_slots check finished (set_slot i (check a) slots)

-- `readBack`, with the order in which the reads finish.
unfoldable pub read_back :
    (ArtifactInfo → ArtifactCheck) → List ArtifactInfo → List Job → List ArtifactCheck
unfolding fill_slots
read_back check artifacts finished = fill_slots check finished (empty_slots artifacts)

-- The loop that counts the checks.
unfoldable pub count_checks : List ArtifactCheck → VerifyResult → VerifyResult
count_checks [] res = res
count_checks (c ∷ checks) res = count_checks checks (
    if c.ok
    then record res { artifacts_ok = res.artifacts_ok + 1 }
    else record res { failures = res.failures ++ (c.failure ∷ []) })

abbrev pub unsigned : VerifyResult
unsigned = record {
  signature_valid = false;
  artifacts_checked = 0;
  artifacts_ok = 0;
  failures = [];
}

abbrev pub signed : VerifyResult
signed = record { signature_valid = true; artifacts_checked = 0; artifacts_ok = 0; failures = [] }

unfoldable pub manifest_schema : Text
manifest_schema = codes "gitdr.manifest/v5"

abbrev pub is_manifest : Text → Bool
is_manifest schema = not (
    not (is_nil schema)
    && (not (text_eq schema manifest_schema) && not (has_prefix schema manifest_schema_prefix)))

abbrev pub verdict : VerifyResult → VerifyResult × Option VerifyFault
verdict res =
    (res, if is_nil res.failures then none else some (artifact_failures (length res.failures)))

module _ (c : Codecs) (st : Store) (hash : Text → Text) (pub_key : Text)
    (order : List Job → List Job) (key : Text) where
  unfoldable pub verify_artifacts : List ArtifactInfo → VerifyResult × Option VerifyFault
  unfolding read_back count_checks check_artifact
  verify_artifacts artifacts =
      let checks = read_back (check_artifact st hash) artifacts (order (numbered 0 artifacts)) in
      verdict (count_checks checks (record signed { artifacts_checked = length checks }))

  unfoldable pub verify_doc : Text → VerifyResult × Option VerifyFault
  unfolding verify_artifacts manifest_schema
  verify_doc canon = elim (c.decode canon) [
    | none ↦ (signed, some unparsed)
    | some m ↦
        if not (is_manifest m.head.schema)
        then (signed, some wrong_document)
        else verify_artifacts (all_artifacts m.repos)
  ]

  unfoldable pub verify_signed : Text → VerifyResult × Option VerifyFault
  unfolding verify_doc
  verify_signed canon = elim (read_capped st (key ++ codes ".sig") max_signature_bytes) [
    | over_limit ↦ (unsigned, some signature_unread)
    | failed_read ↦ (unsigned, some signature_unread)
    | got b64 ↦ elim (c.base64 (trim_space b64)) [
      | none ↦ (unsigned, some signature_undecoded)
      | some sig ↦
          if c.verify pub_key canon sig
          then verify_doc canon
          else (record unsigned { failures = invalid_signature ∷ [] }, some wrong_signature)
    ]
  ]

  -- `verifyWithin`.
  unfoldable pub verify_within : ℕ → VerifyResult × Option VerifyFault
  unfolding verify_signed
  verify_within limit = elim (read_capped st key limit) [
    | over_limit ↦ (unsigned, some manifest_too_large)
    | failed_read ↦ (unsigned, some manifest_unread)
    | got canon ↦ verify_signed canon
  ]
