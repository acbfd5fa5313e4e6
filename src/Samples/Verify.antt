-- ===== src/Samples/Verify.antt =====
-- The verification of the sample manifest, and a configuration.
use Prim.Native.String.{String}
use gitdr.Common.{
  to_upper, equal_fold, has_prefix, trim_space, ℕ, ◌+◌, ◌≡◌, refl, ◌⊎◌, true, none, some, List, [],
  ◌∷◌, map, Text, codes, text_eq, Rearranged-refl, pos, swap,
}
use gitdr.Config.Accepts.{BackendOk, validate-none}
use gitdr.Config.{Config, validate, mode_known, github_token_file, refused, both_credentials}
use gitdr.Pipeline.Manifest.{ArtifactInfo}
use gitdr.Pipeline.Manifests.Loader.{ReadsAs, SignedBy}
use gitdr.Pipeline.Manifests.Read.{read_capped, ManifestDoc}
use gitdr.Pipeline.Manifests.{manifest_schema_prefix, max_signature_bytes, max_manifest_bytes}
use gitdr.Pipeline.Verify.Order.{read_back-map}
use gitdr.Pipeline.Verify.Passes.{Verified, verify_within-Verified}
use gitdr.Pipeline.Verify.{
  ArtifactCheck, no_check, Job, read_back, all_artifacts, is_manifest, verify_within,
}
use gitdr.Samples.Manifests.{manifest_key, key_bytes, sample_codecs, sample_store}

-- The sample manifest records an empty checksum.
abbrev no_hash : Text → Text
no_hash bytes = []

abbrev as_started : List Job → List Job
as_started jobs = jobs

verifies :
    (verify_within sample_codecs sample_store no_hash key_bytes as_started manifest_key
      max_manifest_bytes).1
    ≡ none
unfolding verify_within read_capped text_eq max_manifest_bytes max_signature_bytes trim_space
    has_prefix manifest_schema_prefix equal_fold
verifies = refl

verify_within-Verified_example :
    (canon : Text) × ReadsAs sample_store manifest_key max_manifest_bytes canon
    × SignedBy sample_codecs sample_store key_bytes manifest_key canon
    × ((m : ManifestDoc) × (sample_codecs.decode canon ≡ some m)
        × (is_manifest m.head.schema ≡ true)
        × Verified sample_store no_hash
            (all_artifacts m.repos)
            (verify_within sample_codecs sample_store no_hash key_bytes as_started manifest_key
              max_manifest_bytes).0)
verify_within-Verified_example =
    verify_within-Verified sample_codecs sample_store no_hash key_bytes as_started manifest_key
      max_manifest_bytes (λ jobs. Rearranged-refl jobs) verifies

abbrev artifact_at : String → ArtifactInfo
artifact_at key = record { kind = []; key = codes key; size = 0; sha256 = []; retain_until = 0 }

abbrev two_artifacts : List ArtifactInfo
two_artifacts = artifact_at "a" ∷ artifact_at "b" ∷ []

abbrev only_a : ArtifactInfo → ArtifactCheck
only_a a = record no_check { ok = text_eq a.key (codes "a") }

-- The second read finishes first.
abbrev finished : List Job
finished = (1, artifact_at "b") ∷ (0, artifact_at "a") ∷ []

read_back-map_example : read_back only_a two_artifacts finished ≡ map only_a two_artifacts
read_back-map_example = read_back-map only_a two_artifacts finished swap

abbrev sample_config : Config
sample_config = record {
  source_kind = codes "github";
  github = record {
    private_key = [];
    private_key_path = [];
    token_path = [];
    max_rate_limit_wait = pos 0;
  };
  destination = record {
    kind = codes "s3";
    s3_bucket = codes "backups";
    multipart_threshold = pos 0;
    part_size = pos 0;
    gcs_bucket = [];
    azure_container = [];
    azure_account = [];
    retention_mode = codes "compliance";
    retention_days = pos 30;
  };
}

accepted : validate sample_config ≡ none
unfolding validate text_eq trim_space to_upper
accepted = refl

validate-none_example :
    ((sample_config.source_kind ≡ codes "github") ⊎ (sample_config.source_kind ≡ codes "gitlab"))
    × BackendOk sample_config.destination
    × (mode_known sample_config.destination.retention_mode ≡ true)
    × ((n : ℕ) × (sample_config.destination.retention_days ≡ pos (n + 1)))
    × ((w : ℕ) × (sample_config.github.max_rate_limit_wait ≡ pos w))
validate-none_example = validate-none sample_config accepted

both_refused :
    github_token_file (record {
      private_key = codes "k";
      private_key_path = [];
      token_path = codes "t";
      max_rate_limit_wait = pos 0;
    })
    ≡ refused both_credentials
unfolding github_token_file trim_space
both_refused = refl
