-- ===== src/Pipeline/Resume/Skips.antt =====
-- What a rerun that skips a repository has seen.
use gitdr.Common.{
  ℕ, ◌≤◌, ◌≡◌, refl, ◌≢◌, inl, inr, Bool, true, Option, none, some, List, [], ◌∷◌, ◌++◌, arith,
  Text, text_eq, text_eq_iff, Bool-cases, Option-cases, All, All-member, All-tabulate, Member, here,
  there, slash, path_dir, dashed_date, sort_by, sort_by-Rearranged, Rearranged-Member,
  Rearranged-symm, parse_dashed,
}
use gitdr.Pipeline.Manifest.{RepoEntry, ArtifactInfo, status_skipped, reason_resume}
use gitdr.Pipeline.Manifests.{Repo, Object, slug, manifest_search_dirs}
use gitdr.Pipeline.Manifests.Read.{Store, Codecs}
use gitdr.Pipeline.Recorded.{RecordedCopy, Memory, names_artifact, copied_at_of, find}
use gitdr.Pipeline.Recorded.Cache.{OneSize, IsFaithful}
use gitdr.Pipeline.Recorded.Found.{Backed, find-Backed}
use gitdr.Pipeline.Recorded.Sound.{names_artifact-Member}
use gitdr.Pipeline.Resume.{
  skips, plausible_copied_at, object_key, date_dir, filed_under, written_on, first_foreign,
  is_stored, first_not_stored, first_not_listed, resume_at, resume_recorded, resume_found,
  resume_keys, resume_under, resumed,
}

kept_first :
    (P : Object → Type 0) {x o : Object} {xs ys : List Object}
    → P x
    → (Member o xs → Member o ys × P o)
    → Member o (x ∷ xs)
    → Member o (x ∷ ys) × P o
kept_first P p f here = (here, p)
kept_first P p f (there m) = let (n, q) = f m in (there n, q)

filed_under-Member :
    (dir : Text) (objs : List Object) {o : Object}
    → Member o (filed_under dir objs)
    → Member o objs × (path_dir o.key ≡ dir)
unfolding filed_under
filed_under-Member dir [] m = elim m [ ]
filed_under-Member dir (x ∷ objs) {o} m = elim (Bool-cases (text_eq (path_dir x.key) dir)) [
  | inr out ↦ let (n, e) = filed_under-Member dir objs (rw out at m) in (there n, e)
  | inl kept ↦
      kept_first (λ y. path_dir y.key ≡ dir) ((text_eq_iff (path_dir x.key) dir).0 kept)
        (λ n. filed_under-Member dir objs n) (rw kept at m)
]

Member-filed_under :
    (dir : Text) (objs : List Object) {o : Object}
    → Member o objs
    → path_dir o.key ≡ dir
    → Member o (filed_under dir objs)
unfolding filed_under
Member-filed_under dir [] m e = elim m [ ]
Member-filed_under dir (o ∷ objs) here e = rw ((text_eq_iff (path_dir o.key) dir).1 e) here
Member-filed_under dir (x ∷ objs) {o} (there m) e =
    elim (Bool-cases (text_eq (path_dir x.key) dir)) [
      | inl kept ↦ rw kept (there (Member-filed_under dir objs m e))
      | inr out ↦ rw out (Member-filed_under dir objs m e)
    ]

first_foreign-All :
    (date : Text) (under : List Object)
    → first_foreign date under ≡ none
    → All (λ o. written_on date o ≡ true) under
unfolding first_foreign
first_foreign-All date [] h = tt
first_foreign-All date (o ∷ under) h = elim (Bool-cases (written_on date o)) [
  | inl w ↦ (w, first_foreign-All date under (ground arith))
  | inr w ↦ absurd (ground arith)
]

is_stored-Member :
    (under : List Object) (key : Text)
    → is_stored under key ≡ true
    → (o : Object) × Member o under × (o.key ≡ key)
unfolding is_stored
is_stored-Member [] key h = cc
is_stored-Member (o ∷ under) key h = elim (Bool-cases (text_eq o.key key)) [
  | inl e ↦ (o, here, (text_eq_iff o.key key).0 e)
  | inr e ↦ let (p, m, k) = is_stored-Member under key (ground arith) in (p, there m, k)
]

first_not_stored-none :
    (under : List Object) (artifacts : List ArtifactInfo)
    → first_not_stored under artifacts ≡ none
    → All (λ a. is_stored under a.key ≡ true) artifacts
unfolding first_not_stored
first_not_stored-none under [] h = tt
first_not_stored-none under (a ∷ artifacts) h = elim (Bool-cases (is_stored under a.key)) [
  | inl e ↦ (e, first_not_stored-none under artifacts (ground arith))
  | inr e ↦ absurd (ground arith)
]

first_not_listed-none :
    (artifacts : List ArtifactInfo) (under : List Object)
    → first_not_listed artifacts under ≡ none
    → All (λ o. names_artifact artifacts o.key ≡ true) under
unfolding first_not_listed
first_not_listed-none artifacts [] h = tt
first_not_listed-none artifacts (o ∷ under) h = elim (Bool-cases (names_artifact artifacts o.key)) [
  | inl e ↦ (e, first_not_listed-none artifacts under (ground arith))
  | inr e ↦ absurd (ground arith)
]

-- The entry a skip records of a copy, which was made by the finish of its manifest and by now.
abbrev pub Carries : Text → RecordedCopy → ℕ → RepoEntry → Type 0
Carries slug r now e =
    (e.slug ≡ slug)
    × (e.status ≡ status_skipped)
    × (e.reason ≡ reason_resume)
    × (e.refs ≡ r.entry.refs)
    × (e.copied_at ≡ copied_at_of r.entry r.finished_at)
    × ((at : ℕ) → e.copied_at ≡ some at → (at ≤ r.finished_at) × (at ≤ now))

resume_at-Carries :
    (slug : Text) (r : RecordedCopy) (now : ℕ) (at : Option ℕ) {e : RepoEntry}
    → copied_at_of r.entry r.finished_at ≡ at
    → resume_at slug r now at ≡ skips e
    → Carries slug r now e
unfolding resume_at plausible_copied_at
resume_at-Carries slug r now none {e} c h = (
  ground (arith, c),
  ground (arith, c),
  ground (arith, c),
  ground (arith, c),
  ground (arith, c),
  λ at k. absurd (ground arith),
)
resume_at-Carries slug r now (some at) {e} c h =
    elim (Option-cases (plausible_copied_at at r.finished_at now)) [
      | inr (f, p) ↦ absurd (ground arith)
      | inl p ↦ (
        ground (arith, c),
        ground (arith, c),
        ground (arith, c),
        ground (arith, c),
        ground (arith, c),
        λ at' k. ground arith,
      )
    ]

-- What holds of the store and the copy when a repository is skipped: the store lists the folder,
-- every object in it is one that the store says it wrote on the date, and those are the objects
-- that the copy lists, no more and no fewer.
abbrev pub Settled : Text → Text → List Object → RecordedCopy → Type 0
Settled dir date objs r =
    All (λ o. path_dir o.key ≡ dir → (o.last_modified ≢ 0) × (dashed_date o.last_modified ≡ date))
      objs
    × All
        (λ o.
          path_dir o.key ≡ dir → (a : ArtifactInfo) × Member a r.entry.artifacts × (a.key ≡ o.key))
        objs
    × All (λ a. (o : Object) × Member o objs × (path_dir o.key ≡ dir) × (o.key ≡ a.key))
        r.entry.artifacts

written_on-date :
    (date : Text) (o : Object)
    → written_on date o ≡ true
    → (o.last_modified ≢ 0) × (dashed_date o.last_modified ≡ date)
written_on-date date o h =
    ((λ e. ground (arith, e)), ground (arith, text_eq_iff (dashed_date o.last_modified) date))

resume_recorded-Settled :
    (slug dir date : Text) (objs : List Object) (r : RecordedCopy) (now : ℕ) {e : RepoEntry}
    → first_foreign date (filed_under dir (sort_by object_key objs)) ≡ none
    → resume_recorded slug (filed_under dir (sort_by object_key objs)) r now ≡ skips e
    → Settled dir date objs r × Carries slug r now e
unfolding resume_recorded
resume_recorded-Settled slug dir date objs r now {e} f h =
    let under : List Object = filed_under dir (sort_by object_key objs) in
    let sorts = sort_by-Rearranged object_key objs in
    let within : (o : Object) → Member o objs → path_dir o.key ≡ dir → Member o under =
      λ o m d. Member-filed_under dir (sort_by object_key objs) (Rearranged-Member sorts m) d in
    elim (Option-cases (first_not_stored under r.entry.artifacts)) [
      | inr (k, p) ↦ absurd (ground (arith, p))
      | inl p ↦ elim (Option-cases (first_not_listed r.entry.artifacts under)) [
        | inr (k, q) ↦ absurd (ground (arith, p, q))
        | inl q ↦ (
          (
            All-tabulate _ objs (λ o m d. written_on-date date o (
                All-member (λ o. written_on date o ≡ true) under (first_foreign-All date under f)
                  (within o m d))),
            All-tabulate _ objs (λ o m d. names_artifact-Member r.entry.artifacts o.key (
                All-member (λ o. names_artifact r.entry.artifacts o.key ≡ true) under
                  (first_not_listed-none r.entry.artifacts under q) (within o m d))),
            All-tabulate _ r.entry.artifacts (λ a m.
                let (o, n, k) = is_stored-Member under a.key (
                  All-member (λ a. is_stored under a.key ≡ true) r.entry.artifacts
                    (first_not_stored-none under r.entry.artifacts p) m) in
                let (l, d) = filed_under-Member dir (sort_by object_key objs) n in
                (o, Rearranged-Member (Rearranged-symm sorts) l, d, k)),
          ),
          resume_at-Carries slug r now (copied_at_of r.entry r.finished_at) {e = e} refl
              (ground (arith, p, q)),
        )
      ]
    ]

module _ (c : Codecs) (st : Store) (pub_key : Option Text) (keep : Option (Text → Bool))
    (size_of : Text → ℕ) (date : Text) (searched_at checked_at : ℕ) (repo : Repo) where
  -- The copy that a skip rests on.
  abbrev pub Rests : List Object → RepoEntry → RecordedCopy → Type 0
  Rests objs e r =
      Backed c st pub_key keep (slug repo) (resume_keys c st pub_key keep repo date)
        (some searched_at) size_of (manifest_search_dirs repo.host repo.owner) r
      × Settled (date_dir repo date) date objs r
      × Carries (slug repo) r checked_at e

  resume_under-Rests :
      (objs : List Object) (s : Memory) {e : RepoEntry}
      → OneSize c st pub_key keep size_of
      → IsFaithful c st pub_key keep size_of s
      → (resume_under c st pub_key keep date searched_at checked_at repo
          (filed_under (date_dir repo date) (sort_by object_key objs))
          s).0
        ≡ skips e
      → (r : RecordedCopy) × Rests objs e r
  unfolding resume_under resume_found
  resume_under-Rests objs s {e} z f h =
      let under : List Object = filed_under (date_dir repo date) (sort_by object_key objs) in
      elim (Option-cases (parse_dashed date)) [
        | inl p ↦ absurd (ground (arith, p))
        | inr (day, p) ↦ elim (Option-cases (first_foreign date under)) [
          | inr (o, q) ↦ absurd (ground (arith, p, q))
          | inl q ↦
              let search =
                find c st pub_key keep (manifest_search_dirs repo.host repo.owner) day (slug repo)
                  (resume_keys c st pub_key keep repo date) (some searched_at) s in
              let h' : resume_found (slug repo) under search.0 search.1 checked_at ≡ skips e =
                ground (arith, p, q) in
              elim (Option-cases search.0) [
                | inl n ↦ absurd (ground (arith, n))
                | inr (none, n) ↦ absurd (ground (arith, n))
                | inr (some r, n) ↦
                    let (settled, carried) =
                      resume_recorded-Settled (slug repo) (date_dir repo date) date objs r
                        checked_at {e = e} q (ground (arith, n)) in
                    (
                      r,
                      (
                        find-Backed c st pub_key keep size_of
                            (manifest_search_dirs repo.host repo.owner) day (slug repo)
                            (resume_keys c st pub_key keep repo date) (some searched_at) s z f n,
                        settled,
                        carried,
                      ),
                    )
              ]
        ]
      ]

-- A rerun skips a repository as already backed up only on a copy that a manifest records. The
-- manifest loads with the run's key, is filed where the repository's manifests are and is not named
-- later than the search; its entry is a success, or a repository without commits, that lists the
-- date's bundle or metadata. Every object directly under the date is one that the store says it
-- wrote on that date; they are the artifacts of the entry, no more and no fewer. The skip carries
-- the copy's refs and its instant, which is not later than that manifest's finish or than now. For
-- a search whose memory holds only what the store's reads give, and a store that lists each key at
-- one size.
pub resumed-skips :
    (c : Codecs) (st : Store) (pub_key : Option Text) (keep : Option (Text → Bool))
    (size_of : Text → ℕ) (date : Text) (searched_at checked_at : ℕ) (repo : Repo) (s : Memory)
    {e : RepoEntry}
    → OneSize c st pub_key keep size_of
    → IsFaithful c st pub_key keep size_of s
    → (resumed c st pub_key keep date searched_at checked_at repo s).0 ≡ skips e
    → (objs : List Object) × (st.list (date_dir repo date ++ (slash ∷ [])) ≡ some objs)
      × ((r : RecordedCopy) × Rests c st pub_key keep size_of date searched_at checked_at repo objs
            e r)
unfolding resumed
resumed-skips c st pub_key keep size_of date searched_at checked_at repo s {e} z f h =
    elim (Option-cases (st.list (date_dir repo date ++ (slash ∷ [])))) [
      | inl n ↦ absurd (ground (arith, n))
      | inr (objs, n) ↦ (
        objs,
        n,
        resume_under-Rests c st pub_key keep size_of date searched_at checked_at repo objs s {e = e}
            z f (ground (arith, n)),
      )
    ]
