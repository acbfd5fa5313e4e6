-- ===== src/Pipeline/Resume.antt =====
-- internal/pipeline/backup.go, resumed: what a rerun of one date does with a repository that has
-- objects under it already. An error is the value behind its message.
pub mod Skips
pub mod Copies
use gitdr.Common.{
  ℕ, Bool, true, false, not, ◌&&◌, ◌||◌, Option, none, some, List, [], ◌∷◌, ◌++◌, Text, codes,
  text_eq, is_nil, if◌then◌else◌, ltb, ◌==◌, slash, path_join, path_dir, dashed_date, parse_dashed,
  sort_by,
}
use gitdr.Pipeline.Manifest.{RepoEntry, ArtifactInfo, status_skipped, reason_resume}
use gitdr.Pipeline.Manifests.{Repo, Object, slug, manifest_search_dirs}
use gitdr.Pipeline.Manifests.Read.{Store, Codecs}
use gitdr.Pipeline.Recorded.{RecordedCopy, SearchReport, Memory, names_artifact, copied_at_of, find}

-- The bundle, the checksum and the LFS archive: `artifactKeys`.
unfoldable pub artifact_keys : Text → Text → Text → Text → Text × Text × Text
artifact_keys host owner name date =
    let prefix = path_join (host ∷ owner ∷ name ∷ date ∷ []) in
    (
      path_join (prefix ∷ (name ++ codes ".bundle") ∷ []),
      path_join (prefix ∷ (name ++ codes ".sha256") ∷ []),
      path_join (prefix ∷ (name ++ codes ".lfs.tar") ∷ []),
    )

pub data CopiedAtFault : Type 0 where
  after_finish after_now : CopiedAtFault

-- `plausibleCopiedAt`.
unfoldable pub plausible_copied_at : ℕ → ℕ → ℕ → Option CopiedAtFault
plausible_copied_at copied_at finished now =
    if ltb finished copied_at
    then some after_finish
    else if ltb now copied_at
    then some after_now
    else none

-- Why a repository fails instead of being skipped.
pub data ResumeFault : Type 0 where
  bad_date search_failed : ResumeFault
  foreign_object : Object → ResumeFault
  -- The keys stored under the date, none of which a manifest records.
  unrecorded : List Text → ResumeFault
  -- The manifest that lists one of them, and the status it gives it.
  recorded_as : Text → Text → ResumeFault
  -- The manifest, and the key that it alone or the store alone has.
  not_stored not_listed : Text → Text → ResumeFault
  implausible : Text → CopiedAtFault → ResumeFault

-- `copies` is the answer false; `fails` stands for a failed entry.
pub data Resumed : Type 0 where
  copies : Resumed
  fails : ResumeFault → Resumed
  skips : RepoEntry → Resumed

abbrev pub object_key : Object → Text
object_key o = o.key

unfoldable pub date_dir : Repo → Text → Text
date_dir repo date = path_join (repo.host ∷ repo.owner ∷ repo.name ∷ date ∷ [])

-- The loop over the listing: what is filed directly in the folder.
unfoldable pub filed_under : Text → List Object → List Object
filed_under dir [] = []
filed_under dir (o ∷ objs) =
    let rest = filed_under dir objs in if text_eq (path_dir o.key) dir then o ∷ rest else rest

abbrev pub written_on : Text → Object → Bool
written_on date o = not ((o.last_modified == 0) || not (text_eq (dashed_date o.last_modified) date))

-- The first of the objects that the store does not say it wrote on the date.
unfoldable pub first_foreign : Text → List Object → Option Object
first_foreign date [] = none
first_foreign date (o ∷ objs) = if written_on date o then first_foreign date objs else some o

unfoldable pub is_stored : List Object → Text → Bool
is_stored [] key = false
is_stored (o ∷ objs) key = text_eq o.key key || is_stored objs key

unfoldable pub first_not_stored : List Object → List ArtifactInfo → Option Text
unfolding is_stored
first_not_stored under [] = none
first_not_stored under (a ∷ artifacts) =
    if is_stored under a.key then first_not_stored under artifacts else some a.key

unfoldable pub first_not_listed : List ArtifactInfo → List Object → Option Text
first_not_listed artifacts [] = none
first_not_listed artifacts (o ∷ under) =
    if names_artifact artifacts o.key then first_not_listed artifacts under else some o.key

abbrev pub skip_entry : Text → RecordedCopy → Option ℕ → Resumed
skip_entry slug r at = skips (record {
  slug = slug;
  status = status_skipped;
  error = [];
  reason = reason_resume;
  artifacts = [];
  refs = r.entry.refs;
  copied_at = at;
})

-- The end of `resumed`: whether the instant of the copy can be believed.
unfoldable pub resume_at : Text → RecordedCopy → ℕ → Option ℕ → Resumed
unfolding plausible_copied_at
resume_at slug r now none = skip_entry slug r none
resume_at slug r now (some at) = elim (plausible_copied_at at r.finished_at now) [
  | some fault ↦ fails (implausible r.manifest_key fault)
  | none ↦ skip_entry slug r (some at)
]

-- With a copy found: the manifest and the store hold the same keys, or the repository fails.
unfoldable pub resume_recorded : Text → List Object → RecordedCopy → ℕ → Resumed
unfolding first_not_stored first_not_listed resume_at
resume_recorded slug under r now = elim (first_not_stored under r.entry.artifacts) [
  | some key ↦ fails (not_stored r.manifest_key key)
  | none ↦ elim (first_not_listed r.entry.artifacts under) [
    | some key ↦ fails (not_listed r.manifest_key key)
    | none ↦ resume_at slug r now (copied_at_of r.entry r.finished_at)
  ]
]

abbrev keys_of : List Object → List Text
keys_of [] = []
keys_of (o ∷ objs) = o.key ∷ keys_of objs

unfoldable pub resume_found :
    Text → List Object → Option (Option RecordedCopy) → SearchReport → ℕ → Resumed
unfolding resume_recorded
resume_found slug under none rep now = fails search_failed
resume_found slug under (some none) rep now = elim rep.named [
  | none ↦ fails (unrecorded (keys_of under))
  | some (e, key) ↦ fails (recorded_as key e.status)
]
resume_found slug under (some (some r)) rep now = resume_recorded slug under r now

module _ (c : Codecs) (st : Store) (pub_key : Option Text) (keep : Option (Text → Bool)) where
  abbrev pub resume_keys : Repo → Text → List Text
  resume_keys repo date =
      (artifact_keys repo.host repo.owner repo.name date).0
      ∷ path_join (date_dir repo date ∷ (repo.name ++ codes ".meta.json") ∷ [])
      ∷ []

  -- With something under the date: its two calls of the clock come as two instants.
  unfoldable pub resume_under : Text → ℕ → ℕ → Repo → List Object → Memory → Resumed × Memory
  unfolding first_foreign artifact_keys resume_found
  resume_under date searched_at checked_at repo under s = elim (parse_dashed date) [
    | none ↦ (fails bad_date, s)
    | some day ↦ elim (first_foreign date under) [
      | some o ↦ (fails (foreign_object o), s)
      | none ↦
          let (found, rep, s') =
            find c st pub_key keep (manifest_search_dirs repo.host repo.owner) day (slug repo)
              (resume_keys repo date) (some searched_at) s in
          (resume_found (slug repo) under found rep checked_at, s')
    ]
  ]

  unfoldable pub resumed : Text → ℕ → ℕ → Repo → Memory → Resumed × Memory
  unfolding filed_under date_dir resume_under
  resumed date searched_at checked_at repo s = elim (st.list (date_dir repo date ++ (slash ∷ []))) [
    | none ↦ (copies, s)
    | some objs ↦
        let under = filed_under (date_dir repo date) (sort_by object_key objs) in
        let went_on = resume_under date searched_at checked_at repo under s in
        if is_nil under then (copies, s) else went_on
  ]
