-- ===== src/Samples/Manifests.antt =====
-- One signed manifest in a store of three objects, and where runs file theirs.
use Prim.Native.String.{String}
use gitdr.Common.{
  trim_space, cut_suffix, parse_stamp, path_dir, sort_by, path_join, ℕ, ◌+◌, ◌*◌, ◌≡◌, refl, ◌⊎◌,
  true, false, ◌&&◌, Option, none, some, List, [], ◌∷◌, ◌++◌, Text, codes, text_eq, text_le, All,
  has_prefix, path_base, format_stamp, nanos_per_day, nanos_per_hour, if◌then◌else◌,
}
use gitdr.Pipeline.Manifest.{RepoEntry, status_success}
use gitdr.Pipeline.Manifests.{
  max_signature_bytes, named_at, manifest_name, filed_manifests, Repo, Object, manifest_dir,
  newest_manifest, max_manifest_bytes, manifest_schema_prefix, manifest_suffix,
}
use gitdr.Pipeline.Manifests.Filed.{Filed}
use gitdr.Pipeline.Manifests.Newest.{Due, newest_manifest_lem}
use gitdr.Pipeline.Manifests.Read.{
  check_manifest_head, checked_doc, check_signature, check_signed, read_capped, read_manifest_bytes,
  Body, Store, Codecs, ManifestDoc, ok, err, refused, wrong_name, load_manifest,
}
use gitdr.Pipeline.Manifests.Loader.{ReadsAs, SignedBy, load_manifest-trusted}

abbrev repo_at : String → String → Repo
repo_at owner name = record { host = codes "github.com"; owner = codes owner; name = codes name }

-- Two repositories of one group and one of a subgroup.
abbrev three_repos : List Repo
three_repos = repo_at "group" "one" ∷ repo_at "group" "two" ∷ repo_at "group/sub" "three" ∷ []

run_dir : manifest_dir three_repos ≡ codes "github.com/group/manifests"
unfolding manifest_dir path_join text_eq
run_dir = refl

-- The fourth of May 2026, at noon.
abbrev pub finish : ℕ
finish = 739739 * nanos_per_day + 12 * nanos_per_hour

abbrev pub dir : Text
dir = codes "github.com/group/manifests"

abbrev pub manifest_key : Text
manifest_key = codes "github.com/group/manifests/20260504T120000Z.manifest.json"

abbrev pub later_key : Text
later_key = codes "github.com/group/manifests/20260505T120000Z.manifest.json"

abbrev pub bundle_key : Text
bundle_key = codes "github.com/group/one/2026-05-04/one.bundle"

abbrev pub one_slug : Text
one_slug = codes "group/one"

abbrev pub one_entry : RepoEntry
one_entry = record {
  slug = one_slug;
  status = status_success;
  error = [];
  reason = [];
  artifacts =
      record { kind = codes "bundle"; key = bundle_key; size = 7; sha256 = []; retain_until = 0 }
      ∷ [];
  refs = record { name = codes "refs/heads/main"; commit = codes "aaaa" } ∷ [];
  copied_at = some finish;
}

abbrev pub one_doc : ManifestDoc
one_doc = record {
  head = record { schema = codes "gitdr.manifest/v1"; run_id = []; finished_at = finish };
  repos = one_entry ∷ [];
}

abbrev raw_bytes : Text
raw_bytes = codes "{}"

abbrev signature : Text
signature = codes "sig"

abbrev pub key_bytes : Text
key_bytes = codes "pub"

abbrev object_at : Text → Object
object_at key = record { key = key; size = 2; last_modified = finish }

abbrev pub listed_objects : List Object
listed_objects = object_at bundle_key ∷ object_at manifest_key ∷ object_at later_key ∷ []

abbrev holds : Text → Option Body
holds bytes = some (record { bytes = bytes; fails = false })

-- Every list request answers the three objects; a key that ends in .sig is a signature.
abbrev pub sample_store : Store
sample_store = record {
  list = λ prefix. some listed_objects;
  get = λ key.
      if text_eq key manifest_key
      then holds raw_bytes
      else if text_eq key later_key
      then holds raw_bytes
      else holds signature;
}

abbrev pub sample_codecs : Codecs
sample_codecs = record {
  base64 = λ text. some text;
  verify = λ key bytes sig. text_eq key key_bytes && text_eq sig signature;
  decode = λ bytes. if text_eq bytes raw_bytes then some one_doc else none;
}

loads_signed : load_manifest sample_codecs sample_store (some key_bytes) manifest_key ≡ ok one_doc
unfolding load_manifest read_manifest_bytes read_capped text_eq max_manifest_bytes check_signed
    check_signature max_signature_bytes trim_space checked_doc check_manifest_head has_prefix
    manifest_schema_prefix path_base format_stamp manifest_suffix
loads_signed = refl

-- The same bytes under the name of a later run are refused.
copy_refused :
    load_manifest sample_codecs sample_store (some key_bytes) later_key ≡ err (refused wrong_name)
unfolding load_manifest read_manifest_bytes read_capped text_eq max_manifest_bytes check_signed
    check_signature max_signature_bytes trim_space checked_doc check_manifest_head has_prefix
    manifest_schema_prefix path_base format_stamp
copy_refused = refl

load_manifest-trusted_example :
    (raw : Text) × ReadsAs sample_store manifest_key max_manifest_bytes raw
    × SignedBy sample_codecs sample_store key_bytes manifest_key raw
    × (sample_codecs.decode raw ≡ some one_doc)
    × (has_prefix one_doc.head.schema manifest_schema_prefix ≡ true)
    × (path_base manifest_key ≡ format_stamp one_doc.head.finished_at ++ manifest_suffix)
load_manifest-trusted_example =
    load_manifest-trusted sample_codecs sample_store key_bytes manifest_key loads_signed

newest_at_finish : newest_manifest sample_store.list dir finish ≡ some manifest_key
unfolding newest_manifest filed_manifests sort_by text_eq path_dir manifest_name path_base text_le
    named_at parse_stamp cut_suffix
newest_at_finish = refl

newest_manifest_lem_example :
    ((manifest_key ≡ []) × All (λ o. Filed dir o.key → Due finish o.key → ⊥) listed_objects)
    ⊎ (Filed dir manifest_key
        × Due finish manifest_key
        × All
            (λ o. Filed dir o.key → Due finish o.key → text_le o.key manifest_key ≡ true)
            listed_objects)
newest_manifest_lem_example = newest_manifest_lem sample_store.list dir finish refl newest_at_finish
