-- ===== src/Pipeline/Recorded.antt =====
-- internal/pipeline/recorded.go: what counts as a copy, and the search for the manifest that
-- records one. The search keeps what it has listed and loaded.
pub mod Cache
pub mod Sound
pub mod Found
use gitdr.Common.{
  ℕ, zero, suc, ◌+◌, Bool, true, false, not, ◌&&◌, ◌||◌, Option, none, some, List, [], ◌∷◌, ◌++◌,
  Text, GoMap, text_eq, lookup, insert, length, is_nil, is_some, if◌then◌else◌, ltb, ◌==◌,
  path_join, compact_date, nanos_per_day,
}
use gitdr.Pipeline.Manifest.{RepoEntry, ArtifactInfo, status_success, status_skipped, reason_empty}
use gitdr.Pipeline.Manifests.{Object, filed_manifests, named_at}
use gitdr.Pipeline.Manifests.Read.{
  Store, Codecs, LoadError, too_large, Loaded, ok, err, oversized, read_manifest_entries,
}

-- `namesArtifact`.
unfoldable pub names_artifact : List ArtifactInfo → Text → Bool
names_artifact [] key = false
names_artifact (a ∷ artifacts) key = text_eq a.key key || names_artifact artifacts key

-- The statuses under which an entry may record a copy.
abbrev pub copy_status : RepoEntry → Bool
copy_status e =
    text_eq e.status status_success
    || (text_eq e.status status_skipped && text_eq e.reason reason_empty)

-- `recordsCopy`.
unfoldable pub records_copy : RepoEntry → Text → Text → Bool
unfolding names_artifact
records_copy e slug key =
    if not (text_eq e.slug slug)
    then false
    else if copy_status e
    then names_artifact e.artifacts key
    else false

-- `copiedAtOf`.
unfoldable pub copied_at_of : RepoEntry → ℕ → Option ℕ
copied_at_of e finished =
    if is_some e.copied_at then e.copied_at else if length e.refs == 0 then none else some finished

pub record RecordedCopy : Type 0 where
  pub manifest_key : Text
  pub finished_at : ℕ
  pub entry : RepoEntry

-- `named` is the first entry that lists the artifact without recording it, with its manifest.
pub record SearchReport : Type 0 where
  pub seen : ℕ
  pub passed : ℕ
  pub too_large_count : ℕ
  pub largest : Option ℕ
  pub named : Option (RepoEntry × Text)

pub record SearchedManifest : Type 0 where
  pub finished_at : ℕ
  pub error : Option LoadError
  pub entries : GoMap RepoEntry

-- What a search keeps of its reads: `copySearch`'s two maps.
pub record Memory : Type 0 where
  pub listings : GoMap (List Object)
  pub loaded : GoMap SearchedManifest

unfoldable pub no_memory : Memory
no_memory = record { listings = []; loaded = [] }

-- The callback of `load`: the first entry of a repository is kept.
unfoldable pub first_entries : GoMap RepoEntry → List RepoEntry → GoMap RepoEntry
first_entries out [] = out
first_entries out (e ∷ es) =
    first_entries (if is_some (lookup e.slug out) then out else insert e.slug e out) es

abbrev pub keeps_slug : Option (Text → Bool) → RepoEntry → Bool
keeps_slug none e = true
keeps_slug (some keep) e = keep e.slug

-- `listedSizes`: the last object of a key decides, and a key not listed has size 0.
unfoldable pub listed_size : List Object → Text → ℕ → ℕ
listed_size [] key before = before
listed_size (o ∷ objs) key before =
    listed_size objs key (if text_eq o.key key then o.size else before)

abbrev unusable : LoadError → SearchedManifest
unusable e = record { finished_at = 0; error = some e; entries = [] }

abbrev count_large : LoadError → SearchReport → SearchReport
count_large (too_large size) rep = record rep {
  too_large_count = rep.too_large_count + 1;
  largest = if rep.too_large_count == 0 then some size else rep.largest;
}
count_large _ rep = rep

-- Whether the entry records one of the keys as a copy, and whether it names one.
unfoldable pub records_any : RepoEntry → Text → List Text → Bool
records_any e slug [] = false
records_any e slug (k ∷ keys) = records_copy e slug k || records_any e slug keys

unfoldable pub names_any : RepoEntry → List Text → Bool
names_any e [] = false
names_any e (k ∷ keys) = names_artifact e.artifacts k || names_any e keys

abbrev note_named : RepoEntry → Text → List Text → SearchReport → SearchReport
note_named e key keys rep =
    if is_some rep.named
    then rep
    else if names_any e keys
    then record rep { named = some (e, key) }
    else rep

-- A manifest named later than `not_after`, or for no instant, is left out where a limit is set.
unfoldable pub in_time : Option ℕ → Text → Bool
in_time none key = true
in_time (some limit) key = elim (named_at key) [ none ↦ false | some at ↦ not (ltb limit at) ]

-- What one loaded manifest says: the copy, or the report to go on with.
unfoldable pub judge_manifest :
    Text → List Text → Text → SearchedManifest → SearchReport → Option RecordedCopy × SearchReport
judge_manifest slug keys key m rep = elim m.error [
  | some e ↦ (none, count_large e (record rep { passed = rep.passed + 1 }))
  | none ↦ elim (lookup slug m.entries) [
    | none ↦ (none, rep)
    | some e ↦
        if records_any e slug keys
        then (some (record { manifest_key = key; finished_at = m.finished_at; entry = e }), rep)
        else (none, note_named e key keys rep)
  ]
]

module _ (c : Codecs) (st : Store) (pub_key : Option Text) (keep : Option (Text → Bool)) where
  unfoldable pub fresh_load : Text → ℕ → SearchedManifest
  unfolding first_entries
  fresh_load key size = elim (oversized size) [
    | some e ↦ unusable e
    | none ↦ elim (read_manifest_entries c st pub_key key (keeps_slug keep)) [
      | err e ↦ unusable e
      | ok m ↦ record {
        finished_at = m.head.finished_at;
        error = none;
        entries = first_entries [] m.repos;
      }
    ]
  ]

  -- `load`.
  unfoldable pub load : Text → ℕ → Memory → SearchedManifest × Memory
  load key size s = elim (lookup key s.loaded) [
    | some m ↦ (m, s)
    | none ↦ let m = fresh_load key size in (m, record s { loaded = insert key m s.loaded })
  ]

  -- `list`.
  unfoldable pub list_prefix : Text → Memory → Option (List Object) × Memory
  list_prefix prefix s = elim (lookup prefix s.listings) [
    | some objs ↦ (some objs, s)
    | none ↦ elim (st.list prefix) [
      | none ↦ (none, s)
      | some objs ↦ (some objs, record s { listings = insert prefix objs s.listings })
    ]
  ]

  module _ (slug : Text) (keys : List Text) (not_after : Option ℕ) where
    -- The loop over the manifests of one listing.
    unfoldable pub scan_manifests :
        List Object
        → List Text
        → SearchReport
        → Memory
        → Option RecordedCopy × SearchReport × Memory
    scan_manifests objs [] rep s = (none, rep, s)
    scan_manifests objs (key ∷ rest) rep s =
        let (m, s') = load key (listed_size objs key 0) s in
        let (hit, rep') = judge_manifest slug keys key m (record rep { seen = rep.seen + 1 }) in
        let skipped = scan_manifests objs rest rep s in
        let went_on = scan_manifests objs rest rep' s' in
        if in_time not_after key
        then (if is_some hit then (hit, rep', s') else went_on)
        else skipped

    -- The loops over the directories and the two days of each. `none` is a listing that failed.
    unfoldable pub scan_prefixes :
        List (Text × Text)
        → SearchReport
        → Memory
        → Option (Option RecordedCopy) × SearchReport × Memory
    scan_prefixes [] rep s = (some none, rep, s)
    scan_prefixes ((dir, prefix) ∷ rest) rep s =
        let (listed, s') = list_prefix prefix s in
        elim listed [
          | none ↦ (none, rep, s')
          | some objs ↦
              let (hit, rep', s'') = scan_manifests objs (filed_manifests objs dir) rep s' in
              let went_on = scan_prefixes rest rep' s'' in
              if is_some hit then (some hit, rep', s'') else went_on
        ]

-- The directories in order, each with the date of the copy and then the day after.
unfoldable pub dated_prefixes : List Text → ℕ → List (Text × Text)
dated_prefixes [] day = []
dated_prefixes (dir ∷ dirs) day =
    (dir, path_join (dir ∷ compact_date day ∷ []))
    ∷ (dir, path_join (dir ∷ compact_date (day + nanos_per_day) ∷ []))
    ∷ dated_prefixes dirs day

abbrev pub no_report : SearchReport
no_report = record { seen = 0; passed = 0; too_large_count = 0; largest = none; named = none }

-- `copySearch.find`.
unfoldable pub find :
    Codecs
    → Store
    → Option Text
    → Option (Text → Bool)
    → List Text
    → ℕ
    → Text
    → List Text
    → Option ℕ
    → Memory
    → Option (Option RecordedCopy) × SearchReport × Memory
unfolding scan_prefixes scan_manifests load list_prefix dated_prefixes
find c st pub_key keep dirs day slug keys not_after s =
    scan_prefixes c st pub_key keep slug keys not_after (dated_prefixes dirs day) no_report s
