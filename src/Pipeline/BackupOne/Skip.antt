-- ===== src/Pipeline/BackupOne/Skip.antt =====
-- resumed: the entry of a skip.
use gitdr.Common.{
  ℕ, ◌≡◌, refl, inl, inr, Bool, Option, none, some, List, [], ◌∷◌, ◌++◌, Text, Option-cases, slash,
  parse_dashed, is_nil, Bool-cases, sort_by,
}
use gitdr.Pipeline.Manifest.{status_skipped}
use gitdr.Pipeline.Manifests.{Repo, Object, slug, manifest_search_dirs}
use gitdr.Pipeline.Manifests.Read.{Store, Codecs}
use gitdr.Pipeline.Recorded.{RecordedCopy, SearchReport, Memory, find, copied_at_of}
use gitdr.Pipeline.Resume.{
  Resumed, copies, fails, skips, object_key, date_dir, filed_under, first_foreign, first_not_stored,
  first_not_listed, plausible_copied_at, resume_at, resume_recorded, resume_found, resume_keys,
  resume_under, resumed,
}

-- What a skip records of its own.
abbrev pub SkipOf : Text → Resumed → Type 0
SkipOf slug copies = Unit
SkipOf slug (fails fault) = Unit
SkipOf slug (skips e) = (e.slug ≡ slug) × (e.status ≡ status_skipped) × (e.artifacts ≡ [])

at-SkipOf :
    (slug : Text) (r : RecordedCopy) (now : ℕ) (at : Option ℕ)
    → SkipOf slug (resume_at slug r now at)
unfolding resume_at
at-SkipOf slug r now none = (refl, refl, refl)
at-SkipOf slug r now (some at) = elim (Option-cases (plausible_copied_at at r.finished_at now)) [
  | inl e ↦ rw (e, resume_at) (refl, refl, refl)
  | inr (f, e) ↦ rw (e, resume_at) tt
]

recorded-SkipOf :
    (slug : Text) (under : List Object) (r : RecordedCopy) (now : ℕ)
    → SkipOf slug (resume_recorded slug under r now)
unfolding resume_recorded
recorded-SkipOf slug under r now = elim (Option-cases (first_not_stored under r.entry.artifacts)) [
  | inr (k, e) ↦ rw (e, resume_recorded) tt
  | inl e ↦ elim (Option-cases (first_not_listed r.entry.artifacts under)) [
    | inr (k, f) ↦ rw (e, f, resume_recorded) tt
    | inl f ↦ rw (e, f, resume_recorded) (at-SkipOf slug r now (copied_at_of r.entry r.finished_at))
  ]
]

found-SkipOf :
    (slug : Text) (under : List Object) (o : Option (Option RecordedCopy)) (rep : SearchReport)
    (now : ℕ)
    → SkipOf slug (resume_found slug under o rep now)
unfolding resume_found
found-SkipOf slug under none rep now = tt
found-SkipOf slug under (some none) rep now = elim (Option-cases rep.named) [
  | inl e ↦ rw (e, resume_found) tt
  | inr (n, e) ↦ rw (e, resume_found) tt
]
found-SkipOf slug under (some (some r)) rep now = recorded-SkipOf slug under r now

module _ (c : Codecs) (st : Store) (pub_key : Option Text) (keep : Option (Text → Bool)) where
  under-SkipOf :
      (date : Text) (searched_at checked_at : ℕ) (repo : Repo) (under : List Object) (s : Memory)
      → SkipOf
          (slug repo)
          (resume_under c st pub_key keep date searched_at checked_at repo under s).0
  unfolding resume_under
  under-SkipOf date searched_at checked_at repo under s = elim (Option-cases (parse_dashed date)) [
    | inl e ↦ rw (e, resume_under) tt
    | inr (day, e) ↦ elim (Option-cases (first_foreign date under)) [
      | inr (o, f) ↦ rw (e, f, resume_under) tt
      | inl f ↦
          let search =
            find c st pub_key keep (manifest_search_dirs repo.host repo.owner) day (slug repo)
              (resume_keys c st pub_key keep repo date) (some searched_at) s in
          rw (e, f, resume_under) (found-SkipOf (slug repo) under search.0 search.1 checked_at)
    ]
  ]

  pub resumed-SkipOf :
      (date : Text) (searched_at checked_at : ℕ) (repo : Repo) (s : Memory)
      → SkipOf (slug repo) (resumed c st pub_key keep date searched_at checked_at repo s).0
  unfolding resumed
  resumed-SkipOf date searched_at checked_at repo s =
      elim (Option-cases (st.list (date_dir repo date ++ (slash ∷ [])))) [
        | inl e ↦ rw (e, resumed) tt
        | inr (objs, e) ↦
            let under : List Object = filed_under (date_dir repo date) (sort_by object_key objs) in
            elim (Bool-cases (is_nil under)) [
              | inl bare ↦ rw (e, bare, resumed) tt
              | inr full ↦
                  rw (e, full, resumed) (under-SkipOf date searched_at checked_at repo under s)
            ]
      ]
