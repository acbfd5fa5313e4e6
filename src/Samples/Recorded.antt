-- ===== src/Samples/Recorded.antt =====
-- The search for the manifest that records a copy, over the store of one manifest.
use gitdr.Common.{
  ℕ, ◌≡◌, refl, ◌↔◌, ◌⊎◌, true, Option, none, some, List, [], ◌∷◌, Text, text_eq, Member, All,
  lookup, insert, is_some, path_join, compact_date, sort_by, path_dir, path_base, text_le,
  parse_stamp, cut_suffix, trim_space, has_prefix, format_stamp,
}
use mathlib.Core.Path.{subst}
use gitdr.Pipeline.Manifest.{ArtifactInfo, status_success, status_skipped, reason_empty}
use gitdr.Pipeline.Manifests.{
  Object, filed_manifests, manifest_name, named_at, max_manifest_bytes, max_signature_bytes,
  manifest_schema_prefix, manifest_suffix,
}
use gitdr.Pipeline.Manifests.Read.{
  oversized, read_manifest_entries, load_manifest, keep_entries, read_manifest_bytes, read_capped,
  check_signed, check_signature, checked_doc, check_manifest_head,
}
use gitdr.Pipeline.Recorded.{
  RecordedCopy, Memory, no_memory, records_copy, find, listed_size, in_time, fresh_load,
  judge_manifest, records_any,
}
use gitdr.Pipeline.Recorded.Cache.{OneSize, IsFaithful, nothing-IsFaithful, find-no_memory}
use gitdr.Pipeline.Recorded.Found.{Backed, find-Backed}
use gitdr.Pipeline.Recorded.Sound.{records_copy_iff}
use gitdr.Samples.Manifests.{
  finish, dir, manifest_key, bundle_key, one_slug, one_entry, key_bytes, sample_store,
  sample_codecs,
}

records_copy_iff_example : (records_copy one_entry one_slug bundle_key ≡ true) ↔ (
    (one_entry.slug ≡ one_slug)
    × ((one_entry.status ≡ status_success)
        ⊎ ((one_entry.status ≡ status_skipped) × (one_entry.reason ≡ reason_empty)))
    × ((a : ArtifactInfo) × Member a one_entry.artifacts × (a.key ≡ bundle_key)))
records_copy_iff_example = records_copy_iff one_entry one_slug bundle_key

abbrev pub found_copy : RecordedCopy
found_copy = record { manifest_key = manifest_key; finished_at = finish; entry = one_entry }

-- What is held in memory once the search has run.
abbrev filled : Memory
filled =
    (find sample_codecs sample_store (some key_bytes) none (dir ∷ []) finish one_slug
      (bundle_key ∷ []) (some finish) no_memory).2

finds_the_copy :
    (find sample_codecs sample_store
      (some key_bytes)
      none
      (dir ∷ [])
      finish
      one_slug
      (bundle_key ∷ [])
      (some finish)
      no_memory).0
    ≡ some (some found_copy)
unfolding find no_memory lookup insert text_eq is_some path_join compact_date filed_manifests
    sort_by path_dir manifest_name path_base text_le in_time named_at parse_stamp cut_suffix
    fresh_load oversized max_manifest_bytes read_manifest_entries load_manifest keep_entries
    read_manifest_bytes read_capped check_signed check_signature max_signature_bytes trim_space
    checked_doc check_manifest_head has_prefix manifest_schema_prefix format_stamp manifest_suffix
    judge_manifest records_any records_copy status_success listed_size
finds_the_copy = refl

abbrev pub two_bytes : Text → ℕ
two_bytes key = 2

-- A listing gives every key of it two bytes.
abbrev AtTwo : Option (List Object) → Type 0
AtTwo none = Unit
AtTwo (some objs) = All (λ o. listed_size objs o.key 0 ≡ two_bytes o.key) objs

pub sample-OneSize : OneSize sample_codecs sample_store (some key_bytes) none two_bytes
unfolding listed_size text_eq
sample-OneSize prefix objs e = subst AtTwo e (refl, (refl, (refl, tt)))

find-no_memory_example :
    let before =
      find sample_codecs sample_store
        (some key_bytes)
        none
        (dir ∷ [])
        finish
        one_slug
        (bundle_key ∷ [])
        (some finish)
        no_memory in
    (before.0 ≡ before.0)
    × (before.1 ≡ before.1)
    × IsFaithful sample_codecs sample_store (some key_bytes) none two_bytes before.2
find-no_memory_example =
    find-no_memory sample_codecs sample_store (some key_bytes) none two_bytes (dir ∷ []) finish
      one_slug (bundle_key ∷ []) (some finish) no_memory sample-OneSize
      (nothing-IsFaithful sample_codecs sample_store (some key_bytes) none two_bytes)

find-Backed_example :
    Backed sample_codecs sample_store
      (some key_bytes)
      none
      one_slug
      (bundle_key ∷ [])
      (some finish)
      two_bytes
      (dir ∷ [])
      found_copy
find-Backed_example =
    find-Backed sample_codecs sample_store (some key_bytes) none two_bytes (dir ∷ []) finish
      one_slug (bundle_key ∷ []) (some finish) no_memory sample-OneSize
      (nothing-IsFaithful sample_codecs sample_store (some key_bytes) none two_bytes) finds_the_copy
