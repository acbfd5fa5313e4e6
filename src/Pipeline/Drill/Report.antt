-- ===== src/Pipeline/Drill/Report.antt =====
-- internal/pipeline/drill.go, Drill: what its report says.
use mathlib.Core.Path.{subst}
use gitdr.Common.{
  ℕ, zero, suc, ◌≡◌, ◌⊎◌, ◌<◌, ◌≤◌, refl, sym, ap, ◌∙◌, inl, inr, Bool, true, false, not, ◌&&◌,
  Option, none, some, List, [], ◌∷◌, arith, map, Text, text_eq, text_eq_iff, length, Bool-cases,
  ltb, ltb→lt, ◌==◌, Rearranged-length, All, All-member, Member, here, there, sort_by-Rearranged,
  Rearranged-Member, take, and_split,
}
use gitdr.Common.Results.{Result, ok, err, ◌>>=◌, >>=-eq-ok}
use gitdr.Pipeline.Attempts.{Try}
use gitdr.Pipeline.Manifest.{RepoEntry, status_success, status_string}
use gitdr.Pipeline.Manifests.Read.{Store, Codecs, ManifestDoc, Loaded, load_manifest}
use gitdr.Pipeline.Manifests.Read
use gitdr.Pipeline.RestoreChecks.Named.{ok_doc}
use gitdr.Pipeline.Refs.{RefComparison, comparison_ok}
use gitdr.Pipeline.Restore.{RestoreResult}
use gitdr.Pipeline.Unchanged.{entries_to_refs}
use gitdr.Pipeline.Retention.{WormStatus}
use gitdr.Pipeline.Drill.{
  DrillMachine, DrillRepo, drill_one, drill_entries, DrillFault, judge_source, judge_copy,
  restored_drill, compare_source_refs, restored_copy,
}
use gitdr.Pipeline.Drill.Run.{
  DrillReport, DrillRequest, Drilled, Filing, LoadFault, successes, eligible_entries,
  chosen_entries, entry_slug, all_good, manifest_to_drill, drillable, drilled_of, report_retention,
  upload_drill, report_of, drill,
}
use gitdr.Pipeline.Drill.Proves.{Proven, drill_entries-Proven}

successes-Member :
    (repos : List RepoEntry) {e : RepoEntry}
    → Member e repos
    → e.status ≡ status_success
    → Member e (successes repos)
unfolding successes
successes-Member [] m good = elim m [ ]
successes-Member (e ∷ repos) here good = rw ((text_eq_iff e.status status_success).1 good) here
successes-Member (x ∷ repos) {e} (there m) good =
    elim (Bool-cases (text_eq x.status status_success)) [
      | inl on ↦ rw on (there (successes-Member repos m good))
      | inr off ↦ rw off (successes-Member repos m good)
    ]

-- Without a sample every successful entry is chosen.
chosen_entries-Member :
    (repos : List RepoEntry) {e : RepoEntry}
    → Member e repos
    → e.status ≡ status_success
    → Member e (chosen_entries 0 repos)
unfolding chosen_entries eligible_entries
chosen_entries-Member repos m good =
    Rearranged-Member (sort_by-Rearranged entry_slug (successes repos))
      (successes-Member repos m good)

length-take : {A : Type 0} (n : ℕ) (xs : List A) → n ≤ length xs → length (take n xs) ≡ n
length-take zero xs h = refl
length-take (suc n) [] h = absurd (ground arith)
length-take (suc n) (x ∷ xs) h = ap suc (length-take n xs (ground arith))

-- How many are drilled: the sample, or all that are eligible.
abbrev pub drill_slug : DrillRepo → Text
drill_slug r = r.slug

drilled_lem :
    (sample : ℕ) (repos : List RepoEntry)
    → (length (chosen_entries sample repos) ≡ length (eligible_entries repos))
      ⊎ ((length (chosen_entries sample repos) ≡ sample)
          × (0 < sample)
          × (sample < length (eligible_entries repos)))
unfolding chosen_entries
drilled_lem sample repos =
    elim (Bool-cases (ltb 0 sample && ltb sample (length (eligible_entries repos)))) [
      | inr off ↦ inl (rw off refl)
      | inl on ↦
          let (some_of, fewer) = and_split (ltb 0 sample) _ on in
          let lt = ltb→lt sample (length (eligible_entries repos)) fewer in
          inr (
            rw on (length-take sample (eligible_entries repos) (omega (arith, lt))),
            ltb→lt 0 sample some_of,
            lt,
          )
    ]

judge_source-slug :
    (out : DrillRepo) (src : Option RefComparison) → (judge_source out src).slug ≡ out.slug
unfolding judge_source
judge_source-slug out none = refl
judge_source-slug out (some src) = elim (Bool-cases (comparison_ok src)) [
  | inl on ↦ rw on refl
  | inr off ↦ rw off refl
]

module _ (decrypt : Option (Text → Option Text)) (hash : Text → Text) (c : Codecs)
    (st : Store) where
  judge_copy-slug :
      (pub_key : Option Text) (e : RepoEntry) (machine : DrillMachine)
      (r : Result DrillFault RestoreResult)
      → (judge_copy decrypt hash c st pub_key e machine r).slug ≡ e.slug
  judge_copy-slug pub_key e machine (err fault) = refl
  judge_copy-slug pub_key e machine (ok res) = elim (Bool-cases (length e.refs == 0)) [
    | inl bare ↦ rw bare refl
    | inr refs ↦
        let src = compare_source_refs (entries_to_refs e.refs) machine in
        rw refs (judge_source-slug (restored_drill e res) src)
  ]

  drill_entries-slugs :
      (pub_key : Option Text) (manifest_key : Text) (machines : Text → DrillMachine)
      (entries : List RepoEntry)
      → map drill_slug (drill_entries decrypt hash c st pub_key manifest_key machines entries)
        ≡ map entry_slug entries
  unfolding drill_entries drill_one
  drill_entries-slugs pub_key manifest_key machines [] = refl
  drill_entries-slugs pub_key manifest_key machines (e ∷ entries) =
      let first =
        judge_copy-slug pub_key e (machines e.slug)
          (restored_copy decrypt hash c st pub_key manifest_key (machines e.slug) e) in
      let others = drill_entries-slugs pub_key manifest_key machines entries in
      λ i. first i ∷ others i

  -- What a report says of the manifest that it is of.
  abbrev pub Accounts : DrillRequest → ManifestDoc → DrillReport → Type 0
  Accounts req m r =
      (map drill_slug r.repos ≡ map entry_slug (chosen_entries req.sample m.repos))
      × (r.eligible ≡ length (successes m.repos))
      × (r.drilled ≡ length (chosen_entries req.sample m.repos))
      × ((r.drilled ≡ r.eligible)
          ⊎ ((r.drilled ≡ req.sample) × (0 < req.sample) × (req.sample < r.eligible)))

  report_of-Accounts :
      (pub_key : Option Text) (req : DrillRequest) (machines : Text → DrillMachine) (finish : ℕ)
      (key : Text) (m : ManifestDoc)
      → Accounts req m (report_of decrypt hash c st pub_key req machines finish key m)
  unfolding report_of eligible_entries
  report_of-Accounts pub_key req machines finish key m = (
    drill_entries-slugs pub_key key machines (chosen_entries req.sample m.repos),
    sym (Rearranged-length (sort_by-Rearranged entry_slug (successes m.repos))),
    refl,
    drilled_lem req.sample m.repos,
  )

drillable-ok : (l : Loaded ManifestDoc) {m : ManifestDoc} → drillable l ≡ ok m → l ≡ ok_doc m
drillable-ok (Read.ok m) h = cc
drillable-ok (Read.err e) h = cc

ok_same : {A : Type 0} {x y : A} → ◌≡◌ {A = Result LoadFault A} (ok x) (ok y) → x ≡ y
ok_same h = cc

module _ (decrypt : Option (Text → Option Text)) (hash : Text → Text) (c : Codecs) (st : Store)
    (pub_key : Text) (req : DrillRequest) (machines : Text → DrillMachine) where
  -- The report is of a manifest that loads, and each entry that was chosen of it is proved.
  abbrev pub Evidence : DrillReport → Type 0
  Evidence r =
      (m : ManifestDoc) × (load_manifest c st (some pub_key) r.manifest_key ≡ ok_doc m)
      × (r.status ≡ status_success)
      × Accounts decrypt hash c st req m r
      × All (λ e. Proven decrypt hash c st pub_key r.manifest_key e (machines e.slug))
          (chosen_entries req.sample m.repos)
      × ((e : RepoEntry)
          → Member e m.repos
          → e.status ≡ status_success
          → req.sample ≡ 0
          → Proven decrypt hash c st pub_key r.manifest_key e (machines e.slug))

  report_of-Evidence :
      (finish : ℕ) (key : Text) (m : ManifestDoc)
      → load_manifest c st (some pub_key) key ≡ ok_doc m
      → all_good (
          drill_entries decrypt hash c st
            (some pub_key)
            key
            machines
            (chosen_entries req.sample m.repos))
        ≡ true
      → Evidence (report_of decrypt hash c st (some pub_key) req machines finish key m)
  unfolding report_of status_success status_string
  report_of-Evidence finish key m loads good =
      let proven =
        drill_entries-Proven decrypt hash c st pub_key key machines
          (chosen_entries req.sample m.repos) good in
      (
        m,
        loads,
        rw good refl,
        report_of-Accounts decrypt hash c st (some pub_key) req machines finish key m,
        proven,
        λ e is_in success all_of.
            All-member (λ e. Proven decrypt hash c st pub_key key e (machines e.slug))
              (chosen_entries req.sample m.repos) proven
              (subst (λ n. Member e (chosen_entries n m.repos)) (sym all_of)
                (chosen_entries-Member m.repos is_in success)),
      )

-- A drill with a public key that finds no failure has proved each repository that it chose. It drills
-- a manifest that loads with the key, and its report names the chosen entries in their order: all the
-- successful ones, or of more than that the sample's number. For each of them the entry's key gives
-- the place that was restored from, and the entry lists the bundle there with the checksum that the
-- stored bundle hashes to. The restored refs equal those that the bundle declares, and they
-- carry those that the entry recorded of the source, where it recorded any. The archive of
-- large files is recorded and stored with its checksum, or neither. Without a sample this holds of
-- every entry of the manifest that is a success. Whatever becomes of the report's own upload.
pub drill-proves :
    (decrypt : Option (Text → Option Text)) (hash : Text → Text) (c : Codecs) (st : Store)
    (pub_key : Text) (signs : Bool) (put : Filing → ℕ → Try) (days : ℕ) (mode : Text)
    (worm : Option WormStatus) (req : DrillRequest) (machines : Text → DrillMachine)
    (start finish : ℕ) {out : Drilled}
    → drill decrypt hash c st (some pub_key) signs put days mode worm req machines start finish
      ≡ ok out
    → out.failures ≡ false
    → Evidence decrypt hash c st pub_key req machines out.report
unfolding drill report_of
drill-proves decrypt hash c st pub_key signs put days mode worm req machines start finish {out} h
      good =
    let report = λ (key : Text) (m : ManifestDoc).
      report_of decrypt hash c st (some pub_key) req machines finish key m in
    let result = λ (key : Text) (m : ManifestDoc).
      let up = upload_drill signs put (report_retention days mode worm finish) (report key m) in
      drilled_of (report key m) up in
    let (key, _, h1) =
      >>=-eq-ok (manifest_to_drill st req.manifest_key req.dir start)
        (λ (key : Text). drillable (load_manifest c st (some pub_key) key) >>= λ (m : ManifestDoc).
          ok (result key m))
        h in
    let (m, is_m, h2) =
      >>=-eq-ok (drillable (load_manifest c st (some pub_key) key))
        (λ (m : ManifestDoc). ok (result key m)) h1 in
    let is : result key m ≡ out = ok_same h2 in
    let all = chosen_entries req.sample m.repos in
    let repos = drill_entries decrypt hash c st (some pub_key) key machines all in
    let no_failure : not (all_good repos) ≡ false = ap (λ (o : Drilled). o.failures) is ∙ good in
    subst (λ (o : Drilled). Evidence decrypt hash c st pub_key req machines o.report) is
      (report_of-Evidence decrypt hash c st pub_key req machines finish key m (drillable-ok _ is_m)
        (ground (arith, no_failure)))
