-- ===== src/Samples/Backup.antt =====
-- A rerun, the copies of the run before, and the retention of what was written.
use gitdr.Common.{
  ◌-◌, length, text_le, true, parse_dashed, dashed_date, format_stamp, has_prefix, trim_space,
  text_le, sort_by, compact_date, path_join, is_some, insert, wrap64, sub_time, text_eq, path_base,
  cut_suffix, parse_stamp, ℕ, ◌+◌, ◌*◌, ◌≤◌, ◌<◌, ◌≡◌, refl, ◌↔◌, ◌⊎◌, false, none, some, List, [],
  ◌∷◌, ◌++◌, arith, Text, codes, All, slash, path_dir, lookup, ℤ, pos, nanos_per_day,
}
use gitdr.Pipeline.Manifest.{
  status_failed, status_success, RepoEntry, status_skipped, reason_resume,
}
use gitdr.Pipeline.Manifests.{
  manifest_search_dirs, slug, manifest_schema_prefix, max_signature_bytes, max_manifest_bytes,
  manifest_name, filed_manifests, manifest_suffix, Repo, Object, named_at,
}
use gitdr.Pipeline.Manifests.Read.{
  Store, check_manifest_head, checked_doc, check_signature, check_signed, read_capped,
  read_manifest_bytes, keep_entries, load_manifest, read_manifest_entries, oversized,
}
use gitdr.Pipeline.Previous.Reads.{Agree}
use gitdr.Pipeline.Previous.Newest.{previous_loop_newest, load_previous-read, first_entry}
use gitdr.Pipeline.Previous.Recorded.{Recent, load_previous-Recent}
use gitdr.Pipeline.Previous.{
  decide_entries, deciding, PreviousCopy, previous_copy, previous_loop, load_previous,
  nothing_decided, stops_at, read_previous,
}
use gitdr.Pipeline.Recorded.Cache.{nothing-IsFaithful}
use gitdr.Pipeline.Recorded.{
  copied_at_of, names_artifact, listed_size, records_copy, records_any, judge_manifest, fresh_load,
  in_time, find, RecordedCopy, no_memory,
}
use gitdr.Pipeline.Resume.Copies.{resumed_copies_iff}
use gitdr.Pipeline.Resume.Skips.{Rests, resumed-skips}
use gitdr.Pipeline.Resume.{
  resume_under, resume_found, resume_recorded, resume_at, plausible_copied_at, first_not_listed,
  first_not_stored, is_stored, first_foreign, filed_under, artifact_keys, copies, skips, date_dir,
  resumed,
}
use gitdr.Pipeline.Retention.Observed.{Reports, observe_retention_lem}
use gitdr.Pipeline.Retention.Samples.{Sampled, retention_samples-Sampled}
use gitdr.Pipeline.Retention.Window.{skip-held, retention_until_lem}
use gitdr.Pipeline.Retention.{
  Observation, absent, immutable, not_immutable, retention_window, retention_until,
  retention_samples, observe_retention,
}
use gitdr.Pipeline.Unchanged.{refresh_bound, entries_to_refs, decide_unchanged}
use gitdr.Samples.Manifests.{
  finish, dir, later_key, manifest_key, one_slug, one_entry, one_doc, key_bytes, listed_objects,
  sample_store, sample_codecs,
}
use gitdr.Samples.Recorded.{two_bytes, sample-OneSize}
use gitdr.Samples.Unchanged.{one_branch, day0}

abbrev one_repo : Repo
one_repo = record { host = codes "github.com"; owner = codes "group"; name = codes "one" }

abbrev that_day : Text
that_day = codes "2026-05-04"

abbrev skipped_entry : RepoEntry
skipped_entry = record {
  slug = one_slug;
  status = status_skipped;
  error = [];
  reason = reason_resume;
  artifacts = [];
  refs = one_entry.refs;
  copied_at = some finish;
}

rerun_skips :
    (resumed sample_codecs sample_store
      (some key_bytes)
      none
      that_day
      finish
      finish
      one_repo
      no_memory).0
    ≡ skips skipped_entry
unfolding find no_memory lookup insert text_eq is_some path_join compact_date filed_manifests
    sort_by path_dir manifest_name path_base text_le in_time named_at parse_stamp cut_suffix
    fresh_load oversized max_manifest_bytes read_manifest_entries load_manifest keep_entries
    read_manifest_bytes read_capped check_signed check_signature max_signature_bytes trim_space
    checked_doc check_manifest_head has_prefix manifest_schema_prefix format_stamp manifest_suffix
    judge_manifest records_any records_copy status_success listed_size resumed artifact_keys
    filed_under first_foreign is_stored first_not_stored first_not_listed plausible_copied_at
    resume_at resume_recorded resume_found resume_under date_dir dashed_date parse_dashed
    names_artifact copied_at_of slug manifest_search_dirs status_skipped reason_resume
rerun_skips = refl

resumed-skips_example :
    (objs : List Object) × (sample_store.list (date_dir one_repo that_day ++ (slash ∷ []))
      ≡ some objs)
    × ((r : RecordedCopy) × Rests sample_codecs sample_store
          (some key_bytes)
          none
          two_bytes
          that_day
          finish
          finish
          one_repo
          objs
          skipped_entry
          r)
resumed-skips_example =
    resumed-skips sample_codecs sample_store (some key_bytes) none two_bytes that_day finish finish
      one_repo no_memory sample-OneSize
      (nothing-IsFaithful sample_codecs sample_store (some key_bytes) none two_bytes) rerun_skips

resumed_copies_iff_example :
    ((resumed sample_codecs sample_store
        (some key_bytes)
        none
        that_day
        finish
        finish
        one_repo
        no_memory).0
      ≡ copies)
    ↔ ((sample_store.list (date_dir one_repo that_day ++ (slash ∷ [])) ≡ none)
        ⊎ ((objs : List Object) × (sample_store.list (date_dir one_repo that_day ++ (slash ∷ []))
              ≡ some objs)
            × All (λ o. path_dir o.key ≡ date_dir one_repo that_day → ⊥) objs))
resumed_copies_iff_example =
    resumed_copies_iff sample_codecs sample_store (some key_bytes) none that_day finish finish
      one_repo no_memory

abbrev next_day : ℕ
next_day = finish + nanos_per_day

abbrev reads_at : Text → Text → ℕ
reads_at key slug = next_day

abbrev thirty_days : ℤ
thirty_days = pos (30 * nanos_per_day)

load_previous-read_example :
    let out =
      load_previous sample_codecs sample_store
        (some key_bytes)
        thirty_days
        reads_at
        next_day
        none
        dir in
    (length out.tried ≤ 10)
    × ((other : Store)
        → other.list (dir ++ (slash ∷ [])) ≡ sample_store.list (dir ++ (slash ∷ []))
        → All (Agree sample_store other) out.tried
        → load_previous sample_codecs other (some key_bytes) thirty_days reads_at next_day none dir
          ≡ out)
load_previous-read_example =
    load_previous-read sample_codecs sample_store (some key_bytes) thirty_days reads_at next_day
      none dir

reads_the_manifest :
    read_previous sample_codecs sample_store key_bytes thirty_days reads_at next_day none
      listed_objects manifest_key nothing_decided
    ≡ some one_doc
unfolding read_previous deciding lookup text_eq status_failed oversized max_manifest_bytes
    read_manifest_entries load_manifest keep_entries read_manifest_bytes read_capped check_signed
    check_signature max_signature_bytes trim_space checked_doc check_manifest_head has_prefix
    manifest_schema_prefix format_stamp manifest_suffix path_base status_success listed_size
reads_the_manifest = refl

named_for_finish : named_at manifest_key ≡ some finish
unfolding named_at parse_stamp cut_suffix path_base text_eq manifest_suffix
named_for_finish = refl

young_enough :
    stops_at sample_codecs sample_store key_bytes thirty_days reads_at next_day none finish
      nothing_decided
    ≡ false
unfolding stops_at sub_time
young_enough = refl

first_is_the_entry : first_entry one_slug one_doc.repos ≡ some one_entry
unfolding first_entry text_eq
first_is_the_entry = refl

both_are_filed : filed_manifests listed_objects dir ≡ later_key ∷ manifest_key ∷ []
unfolding filed_manifests text_eq manifest_suffix path_dir path_base sort_by manifest_name text_le
both_are_filed = refl

previous_loop_newest_example :
    (lookup one_slug
        (previous_loop sample_codecs sample_store key_bytes thirty_days reads_at next_day none
          listed_objects
          (manifest_key ∷ [])
          nothing_decided).out
      ≡ previous_copy next_day one_doc.head one_entry)
    × All (λ k. text_le k manifest_key ≡ true) []
unfolding lookup
previous_loop_newest_example =
    previous_loop_newest sample_codecs sample_store key_bytes thirty_days reads_at next_day none
      listed_objects dir one_slug (later_key ∷ []) manifest_key [] finish nothing_decided
      both_are_filed named_for_finish refl young_enough reads_the_manifest refl refl
      first_is_the_entry

skip-held_example :
    (day0 + 60 ≤ day0 + nanos_per_day)
    × (3 * (day0 + nanos_per_day - (day0 + 60)) < 30 * nanos_per_day)
    × (0 < 7 * nanos_per_day → 3 * (day0 + nanos_per_day - (day0 + 60)) < 7 * nanos_per_day)
    × (day0 + nanos_per_day < day0 + 60 + 30 * nanos_per_day)
    × (day0 + nanos_per_day < retention_until day0 30)
unfolding decide_unchanged retention_window text_eq lookup sub_time wrap64
skip-held_example =
    skip-held one_branch one_branch day0 (day0 + 60) (day0 + nanos_per_day) 30 (7 * nanos_per_day)
      (omega arith) (omega arith) (omega arith) (omega arith) refl

retention_until_lem_example :
    (106752 ≤ 106751 → retention_until day0 106752 ≡ day0 + 106752 * nanos_per_day)
    × (0 < day0 → 106752 ≤ 106752 → 106752 ≤ 213503 → retention_until day0 106752 < day0)
retention_until_lem_example = retention_until_lem day0 106752

-- One object answers absent.
abbrev no_lock : Text → Observation
no_lock key = absent

observe_retention_lem_example :
    Reports no_lock
      (retention_samples (one_entry ∷ []))
      immutable
      (observe_retention immutable (some no_lock) (one_entry ∷ []))
observe_retention_lem_example = observe_retention_lem immutable no_lock (one_entry ∷ [])

absent_lowers :
    observe_retention immutable (some no_lock) (one_entry ∷ []) ≡ (absent, not_immutable)
unfolding observe_retention text_eq
absent_lowers = refl

retention_samples-Sampled_example : Sampled (one_entry ∷ []) (retention_samples (one_entry ∷ []))
retention_samples-Sampled_example = retention_samples-Sampled (one_entry ∷ [])

abbrev kept_copy : PreviousCopy
kept_copy = record { refs = (codes "refs/heads/main", codes "aaaa") ∷ []; copied_at = finish }

takes_the_copy :
    lookup one_slug
      (load_previous sample_codecs sample_store
        (some key_bytes)
        thirty_days
        reads_at
        next_day
        none
        dir).out
    ≡ some kept_copy
unfolding read_previous deciding lookup text_eq status_failed oversized max_manifest_bytes
    read_manifest_entries load_manifest keep_entries read_manifest_bytes read_capped check_signed
    check_signature max_signature_bytes trim_space checked_doc check_manifest_head has_prefix
    manifest_schema_prefix format_stamp manifest_suffix path_base status_success listed_size
    load_previous filed_manifests sort_by path_dir manifest_name text_le named_at parse_stamp
    cut_suffix stops_at decide_entries previous_copy plausible_copied_at entries_to_refs insert
    previous_loop sub_time refresh_bound
takes_the_copy = refl

load_previous-Recent_example :
    Recent sample_codecs sample_store key_bytes thirty_days reads_at next_day none dir one_slug
      kept_copy
load_previous-Recent_example =
    load_previous-Recent sample_codecs sample_store key_bytes thirty_days reads_at next_day none dir
      one_slug takes_the_copy
