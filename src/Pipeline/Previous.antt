-- ===== src/Pipeline/Previous.antt =====
-- internal/pipeline/previous.go: the copies that the recent manifests of a run's directory record.
-- Each reading of the clock is an instant of its own.
pub mod Recorded
pub mod Newest
pub mod Reads
use gitdr.Common.{
  ℕ, ◌+◌, Bool, true, false, not, ◌&&◌, ◌||◌, Option, none, some, List, [], ◌∷◌, ◌++◌, Text, GoMap,
  text_eq, lookup, insert, length, is_some, if◌then◌else◌, ltb, ◌==◌, slash, ℤ, lt_int, sub_time,
}
use gitdr.Pipeline.Manifest.{RepoEntry, status_failed}
use gitdr.Pipeline.Manifests.{Object, filed_manifests, named_at}
use gitdr.Pipeline.Manifests.Read.{
  Store, Codecs, ManifestHead, ManifestDoc, Loaded, ok, err, oversized, read_manifest_entries,
}
use gitdr.Pipeline.Recorded.{listed_size}
use gitdr.Pipeline.Resume.{plausible_copied_at}
use gitdr.Pipeline.Unchanged.{entries_to_refs, refresh_bound}

pub record PreviousCopy : Type 0 where
  pub refs : GoMap Text
  pub copied_at : ℕ

abbrev pub max_previous_manifests : ℕ
max_previous_manifests = 10

-- The instant of the copy: the run's own finish for a manifest that does not record one.
abbrev pub copy_instant : ManifestHead → RepoEntry → ℕ
copy_instant head e = elim e.copied_at [ none ↦ head.finished_at | some at ↦ at ]

-- `previousCopy`.
unfoldable pub previous_copy : ℕ → ManifestHead → RepoEntry → Option PreviousCopy
unfolding plausible_copied_at
previous_copy now head e =
    if text_eq e.status status_failed || (length e.refs == 0)
    then none
    else elim (plausible_copied_at (copy_instant head e) head.finished_at now) [
      | some fault ↦ none
      | none ↦ some (record { refs = entries_to_refs e.refs; copied_at = copy_instant head e })
    ]

-- What indexing a Boolean map gives for a key it lacks.
abbrev pub holds_key : Text → GoMap Bool → Bool
holds_key k m = elim (lookup k m) [ none ↦ false | some b ↦ b ]

abbrev pub is_selected : Option (GoMap Bool) → Text → Bool
is_selected none slug = true
is_selected (some selected) slug = holds_key slug selected

-- The callback of the read: whether an entry is kept. The code copies four fields of a kept entry,
-- which are all that is read of it here.
unfoldable pub deciding : GoMap Bool → Option (GoMap Bool) → RepoEntry → Bool
deciding decided selected e =
    if holds_key e.slug decided || not (is_selected selected e.slug)
    then false
    else not (text_eq e.status status_failed && (length e.artifacts == 0))

-- `tried` is the keys of the manifests that the loop set out to read, the latest first.
pub record PreviousState : Type 0 where
  pub out : GoMap PreviousCopy
  pub decided : GoMap Bool
  pub read : ℕ
  pub tried : List Text

abbrev pub decide_one : (Text → ℕ) → ManifestHead → RepoEntry → PreviousState → PreviousState
decide_one clock head e s = record s {
  out = elim (previous_copy (clock e.slug) head e) [
    | none ↦ s.out
    | some c ↦ insert e.slug c s.out
  ];
  decided = insert e.slug true s.decided;
}

-- The loop over the kept entries of one manifest.
unfoldable pub decide_entries :
    (Text → ℕ) → ManifestHead → List RepoEntry → PreviousState → PreviousState
decide_entries clock head [] s = s
decide_entries clock head (e ∷ es) s =
    decide_entries clock head es
      (if holds_key e.slug s.decided then s else decide_one clock head e s)

abbrev pub all_decided : Option (GoMap Bool) → PreviousState → Bool
all_decided none s = false
all_decided (some selected) s = length s.decided == length selected

abbrev pub one_more : PreviousState → PreviousState
one_more s = record s { read = s.read + 1 }

abbrev pub trying : Text → PreviousState → PreviousState
trying key s = record s { tried = key ∷ s.tried }

module _ (c : Codecs) (st : Store) (pub_key : Text) (retention : ℤ) (clock : Text → Text → ℕ)
    (now : ℕ) (selected : Option (GoMap Bool)) where
  -- Whether the read stops before a manifest of that finish.
  unfoldable pub stops_at : ℕ → PreviousState → Bool
  unfolding refresh_bound
  stops_at finished s =
      not (lt_int (sub_time now finished) (refresh_bound retention))
      || (s.read == max_previous_manifests)

  unfoldable pub read_previous : List Object → Text → PreviousState → Option ManifestDoc
  unfolding deciding
  read_previous objs key s = elim (oversized (listed_size objs key 0)) [
    | some e ↦ none
    | none ↦ elim (read_manifest_entries c st (some pub_key) key (deciding s.decided selected)) [
      | err e ↦ none
      | ok m ↦ some m
    ]
  ]

  unfoldable pub previous_loop : List Object → List Text → PreviousState → PreviousState
  unfolding stops_at read_previous decide_entries
  previous_loop objs [] s = s
  previous_loop objs (key ∷ keys) s = elim (named_at key) [
    | none ↦ previous_loop objs keys s
    | some finished ↦ elim (ltb now finished) [
      | true ↦ previous_loop objs keys s
      | false ↦ elim (stops_at finished s) [
        | true ↦ s
        | false ↦ elim (read_previous objs key s) [
          | none ↦ previous_loop objs keys (one_more (trying key s))
          | some m ↦
              let s' = decide_entries (clock key) m.head m.repos (one_more (trying key s)) in
              elim (all_decided selected s') [ true ↦ s' | false ↦ previous_loop objs keys s' ]
        ]
      ]
    ]
  ]

abbrev pub nothing_decided : PreviousState
nothing_decided = record { out = []; decided = []; read = 0; tried = [] }

-- `loadPrevious`, from the state that its loop leaves. A run without a key, or with a listing that
-- fails, knows of no copy.
unfoldable pub load_previous :
    Codecs
    → Store
    → Option Text
    → ℤ
    → (Text → Text → ℕ)
    → ℕ
    → Option (GoMap Bool)
    → Text
    → PreviousState
unfolding previous_loop
load_previous c st none retention clock now selected dir = nothing_decided
load_previous c st (some pub_key) retention clock now selected dir =
    elim (st.list (dir ++ (slash ∷ []))) [
      | none ↦ nothing_decided
      | some objs ↦
          previous_loop c st pub_key retention clock now selected objs (filed_manifests objs dir)
            nothing_decided
    ]
