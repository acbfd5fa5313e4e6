-- ===== src/Samples/Restore.antt =====
-- A signed manifest of one copy, the restore of it, and a drill.
use gitdr.Common.{
  trim_space, has_prefix, path_base, path_dir, path_join, format_stamp, split_slash, join_slash,
  equal_fold, drop_spaces, lookup, insert, cut_prefix, sort_by, ℕ, ◌≡◌, refl, true, false, ◌&&◌,
  Option, none, some, List, [], ◌∷◌, Text, GoMap, codes, text_eq, if◌then◌else◌, All,
}
use mathlib.Core.Path.{subst}
use gitdr.Common.Results.{ok}
use gitdr.Pipeline.Attempts.{Try, retry}
use gitdr.Pipeline.Manifest.{RepoEntry, status_success, status_string}
use gitdr.Pipeline.Manifests.{
  Object, max_manifest_bytes, max_signature_bytes, manifest_schema_prefix, manifest_suffix,
}
use gitdr.Pipeline.Manifests.Read.{
  Body, Store, Codecs, ManifestDoc, load_manifest, read_manifest_bytes, read_capped, check_signed,
  check_signature, checked_doc, check_manifest_head,
}
use gitdr.Pipeline.Refs.{
  search_candidates, compare_one, compare_refs, comparison_ok, head_ref, heads_prefix, candidates,
}
use gitdr.Crypto.Encrypt.{enc_magic}
use gitdr.Pipeline.Unchanged.{entries_to_refs}
use gitdr.Pipeline.Recorded.{listed_size}
use gitdr.Pipeline.Recorded.Cache.{OneSize}
use gitdr.Pipeline.RestoreChecks.{
  RestoreChecks, RestoreRequest, request_slug, restore_checks, split_artifact_key,
}
use gitdr.Pipeline.RestoreChecks.Named.{SignedFor}
use gitdr.Pipeline.Restore.{Machine, RestoreResult, restore}
use gitdr.Pipeline.Restore.Proved.{Restored, restore-Proved}
use gitdr.Pipeline.Drill.{DrillMachine}
use gitdr.Pipeline.Drill.Run.{Filing, DrillRequest, Drilled, drill}
use gitdr.Pipeline.Drill.Report.{Evidence, drill-proves}
use gitdr.Samples.Manifests.{finish, manifest_key, bundle_key, one_slug, key_bytes}

abbrev main_ref : GoMap Text
main_ref = (codes "refs/heads/main", codes "aaaa") ∷ []

-- The entry records the bundle with its checksum.
abbrev copied_entry : RepoEntry
copied_entry = record {
  slug = one_slug;
  status = status_success;
  error = [];
  reason = [];
  artifacts =
      record {
        kind = codes "bundle";
        key = bundle_key;
        size = 7;
        sha256 = codes "5d";
        retain_until = 0;
      }
      ∷ [];
  refs = record { name = codes "refs/heads/main"; commit = codes "aaaa" } ∷ [];
  copied_at = some finish;
}

abbrev copied_doc : ManifestDoc
copied_doc = record {
  head = record { schema = codes "gitdr.manifest/v1"; run_id = []; finished_at = finish };
  repos = copied_entry ∷ [];
}

abbrev bytes_of : Text → Option Body
bytes_of bytes = some (record { bytes = bytes; fails = false })

-- The listings are empty. A key that is neither the manifest's nor the sidecar's nor the bundle's
-- is a signature.
abbrev store : Store
store = record {
  list = λ prefix. some [];
  get = λ key.
      if text_eq key manifest_key
      then bytes_of (codes "{}")
      else if text_eq key bundle_key
      then bytes_of (codes "bundle!")
      else if text_eq key (codes "github.com/group/one/2026-05-04/one.sha256")
      then bytes_of (codes "5d  one.bundle")
      else bytes_of (codes "sig");
}

abbrev codecs : Codecs
codecs = record {
  base64 = λ text. some text;
  verify = λ key bytes sig. text_eq key key_bytes && text_eq sig (codes "sig");
  decode = λ bytes. some copied_doc;
}

abbrev checksum : Text → Text
checksum bytes = codes "5d"

abbrev machine : Machine
machine = record {
  made_temp = true;
  bundle_verifies = λ _. true;
  clones = λ _. true;
  heads = λ _. some (record { name = codes "refs/heads/main"; oid = codes "aaaa" } ∷ []);
  clone_refs = some main_ref;
  clone_head = codes "aaaa";
  head_resolves = some true;
  extracts = λ _. true;
  lfs_available = true;
  lfs_hooked = true;
  lfs_filled = true;
  pointers = some [];
}

abbrev by_manifest : RestoreRequest
by_manifest = record {
  manifest_key = manifest_key;
  host = [];
  owner = codes "group";
  name = codes "one";
  date = [];
}

abbrev at_place : RestoreRequest
at_place = record {
  manifest_key = manifest_key;
  host = codes "github.com";
  owner = codes "group";
  name = codes "one";
  date = codes "2026-05-04";
}

abbrev checks : RestoreChecks
checks = record {
  manifest_key = manifest_key;
  bundle_sha = codes "5d";
  lfs_sha = [];
  pub_key = key_bytes;
}

abbrev AtTwo : Option (List Object) → Type 0
AtTwo none = Unit
AtTwo (some objs) = All (λ o. listed_size objs o.key 0 ≡ 2) objs

store-OneSize :
    OneSize codecs store
      (some key_bytes)
      (some (λ s. text_eq s (request_slug by_manifest)))
      (λ _. 2)
store-OneSize prefix objs e = subst AtTwo e tt

settles_checks :
    restore_checks codecs store (some key_bytes) none by_manifest ≡ ok (at_place, some checks)
unfolding restore_checks load_manifest read_manifest_bytes read_capped text_eq max_manifest_bytes
    check_signed check_signature max_signature_bytes trim_space checked_doc check_manifest_head
    has_prefix manifest_schema_prefix path_base format_stamp manifest_suffix status_success
    split_slash join_slash path_join
settles_checks = refl

abbrev result : RestoreResult
result = record {
  bundle_key = bundle_key;
  sha256 = codes "5d";
  refs = record { declared = 1; matched = 1; unreferenced = []; mismatches = [] };
  signed = true;
  lfs = false;
  checked_out = true;
}

restores : restore none checksum codecs store machine (some key_bytes) none by_manifest ≡ ok result
unfolding restore load_manifest read_manifest_bytes read_capped text_eq max_manifest_bytes
    check_signed check_signature max_signature_bytes trim_space checked_doc check_manifest_head
    has_prefix manifest_schema_prefix path_base format_stamp manifest_suffix status_success
    split_slash join_slash path_join equal_fold drop_spaces compare_refs lookup cut_prefix sort_by
    comparison_ok enc_magic head_ref heads_prefix candidates compare_one search_candidates
restores = refl

restore-Proved_example :
    (placed : RestoreRequest) × ((k : RestoreChecks) × SignedFor codecs store key_bytes
        (request_slug by_manifest)
        placed
        k
      × Restored none checksum store machine placed k result)
restore-Proved_example =
    restore-Proved none checksum codecs store machine key_bytes (λ _. 2) by_manifest store-OneSize
      restores

abbrev drilling : Text → DrillMachine
drilling slug = record {
  made_dir = true;
  restoring = machine;
  refs_again = some main_ref;
  head_again = codes "aaaa";
}

abbrev drill_all : DrillRequest
drill_all = record { manifest_key = manifest_key; dir = []; sample = 0 }

abbrev puts : Filing → ℕ → Try
puts filing i = record { fails = false; stopped = false; cut_short = false }

abbrev drilled : Drilled
drilled = record {
  report = record {
    manifest_key = manifest_key;
    manifest_signed = true;
    finished_at = finish;
    status = status_success;
    eligible = 1;
    drilled = 1;
    repos =
        record {
          slug = one_slug;
          status = status_success;
          fault = none;
          source_refs = 1;
          bundle_refs = 1;
          restored_refs = 1;
          unreferenced = [];
          source_match = some true;
          mismatches = [];
        }
        ∷ [];
  };
  report_key = codes "github.com/group/drills/20260504T120000Z.drill.json";
  failures = false;
  not_stored = none;
  filed =
      record { key = codes "github.com/group/drills/20260504T120000Z.drill.json"; lock = none }
      ∷ record {
        key = codes "github.com/group/drills/20260504T120000Z.drill.json.sig";
        lock = none;
      }
      ∷ [];
}

drills :
    drill none checksum codecs store
      (some key_bytes)
      true
      puts
      0
      []
      none
      drill_all
      drilling
      finish
      finish
    ≡ ok drilled
unfolding drill load_manifest read_manifest_bytes read_capped text_eq max_manifest_bytes
    check_signed check_signature max_signature_bytes trim_space checked_doc check_manifest_head
    has_prefix manifest_schema_prefix path_base format_stamp manifest_suffix status_success
    split_slash join_slash path_join status_string sort_by split_artifact_key equal_fold drop_spaces
    compare_refs lookup cut_prefix comparison_ok enc_magic head_ref heads_prefix candidates
    entries_to_refs insert path_dir retry compare_one search_candidates
drills = refl

drill-proves_example :
    Evidence none checksum codecs store key_bytes drill_all drilling drilled.report
drill-proves_example =
    drill-proves none checksum codecs store key_bytes true puts 0 [] none drill_all drilling finish
      finish drills refl
