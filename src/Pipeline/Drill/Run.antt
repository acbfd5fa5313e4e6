-- ===== src/Pipeline/Drill/Run.antt =====
-- internal/pipeline/drill.go, Drill: which repositories are drilled, the report, and where it is filed.
use gitdr.Common.{
  ℕ, Bool, true, false, not, ◌&&◌, Option, none, some, List, [], ◌∷◌, ◌++◌, Text, codes, text_eq,
  length, take, is_nil, is_some, if◌then◌else◌, ltb, ◌==◌, sort_by, path_join, path_dir,
  format_stamp, to_upper, trim_space,
}
use gitdr.Common.Results.{Result, ok, err, ◌>>=◌}
use gitdr.Pipeline.Attempts.{Try, RetryFault, retry}
use gitdr.Pipeline.Manifest.{RepoEntry, status_success, status_string}
use gitdr.Pipeline.Manifests.{newest_manifest}
use gitdr.Pipeline.Manifests.Read.{Store, Codecs, ManifestDoc, load_manifest}
use gitdr.Pipeline.Manifests.Read
use gitdr.Pipeline.Retention.{WormStatus, is_immutable, retention_until}
use gitdr.Pipeline.Drill.{DrillMachine, DrillRepo, drill_entries}

unfoldable pub successes : List RepoEntry → List RepoEntry
successes [] = []
successes (e ∷ repos) =
    let rest = successes repos in if text_eq e.status status_success then e ∷ rest else rest

abbrev pub entry_slug : RepoEntry → Text
entry_slug e = e.slug

-- The eligible entries in the order of their slugs, and those of them that are drilled.
unfoldable pub eligible_entries : List RepoEntry → List RepoEntry
unfolding successes
eligible_entries repos = sort_by entry_slug (successes repos)

unfoldable pub chosen_entries : ℕ → List RepoEntry → List RepoEntry
unfolding eligible_entries
chosen_entries sample repos =
    let eligible = eligible_entries repos in
    if ltb 0 sample && ltb sample (length eligible) then take sample eligible else eligible

unfoldable pub all_good : List DrillRepo → Bool
all_good [] = true
all_good (r ∷ repos) = text_eq r.status status_success && all_good repos

-- DrillReport, less its id and its two instants besides the finish.
pub record DrillReport : Type 0 where
  pub manifest_key : Text
  pub manifest_signed : Bool
  pub finished_at : ℕ
  pub status : Text
  pub eligible : ℕ
  pub drilled : ℕ
  pub repos : List DrillRepo

pub data LoadFault : Type 0 where
  unlisted nothing_filed : LoadFault
  unloaded : Read.LoadError → LoadFault

-- `loadManifestForDrill`, with the key of the manifest.
unfoldable pub manifest_to_drill : Store → Text → Text → ℕ → Result LoadFault Text
manifest_to_drill st named dir now =
    if not (is_nil named) then ok named else elim (newest_manifest st.list dir now) [
      | none ↦ err unlisted
      | some key ↦ if is_nil key then err nothing_filed else ok key
    ]

abbrev pub drillable : Read.Loaded ManifestDoc → Result LoadFault ManifestDoc
drillable (Read.ok m) = ok m
drillable (Read.err e) = err (unloaded e)

-- dest.Retention, none for none.
pub record Lock : Type 0 where
  pub mode : Text
  pub until : ℕ

-- `reportRetention`, with the configured days and mode.
unfoldable pub report_retention : ℕ → Text → Option WormStatus → ℕ → Option Lock
unfolding retention_until
report_retention days mode answer now = if days == 0 then none else elim answer [
  | none ↦ none
  | some st ↦
      if is_immutable st.verdict
      then some (record { mode = to_upper (trim_space mode); until = retention_until now days })
      else none
]

unfoldable pub report_key : DrillReport → Text
report_key r = path_join (
    path_dir (path_dir r.manifest_key)
    ∷ codes "drills"
    ∷ (format_stamp r.finished_at ++ codes ".drill.json")
    ∷ [])

-- A write that the destination was asked for: its key, and how it is locked.
pub record Filing : Type 0 where
  pub key : Text
  pub lock : Option Lock

-- `uploadDrill` from its writes on: what it files, where it is to be found, and whether that failed.
-- Without a signing key nothing is written.
unfoldable pub upload_drill :
    Bool → (Filing → ℕ → Try) → Option Lock → DrillReport → List Filing × Text × Option RetryFault
unfolding retry report_key
upload_drill false put lock r = ([], [], none)
upload_drill true put lock r =
    let key = report_key r in
    let report : Filing = record { key = key; lock = lock } in
    let sig : Filing = record { key = key ++ codes ".sig"; lock = lock } in
    elim (retry 3 (put report)) [
      | some e ↦ ([], [], some e)
      | none ↦ elim (retry 3 (put sig)) [
        | some e ↦ (report ∷ [], [], some e)
        | none ↦ (report ∷ sig ∷ [], key, none)
      ]
    ]

-- DrillResult with the two ways in which a drill ends badly, and what it filed.
pub record Drilled : Type 0 where
  pub report : DrillReport
  pub report_key : Text
  pub failures : Bool
  pub not_stored : Option RetryFault
  pub filed : List Filing

abbrev pub drilled_of : DrillReport → List Filing × Text × Option RetryFault → Drilled
drilled_of report up = record {
  report = report;
  report_key = up.1;
  failures = not (all_good report.repos);
  not_stored = up.2;
  filed = up.0;
}

-- DrillRequest: `dir` is where the manifests of its host and owner are filed.
pub record DrillRequest : Type 0 where
  pub manifest_key : Text
  pub dir : Text
  pub sample : ℕ

module _ (decrypt : Option (Text → Option Text)) (hash : Text → Text) (c : Codecs) (st : Store)
    (pub_key : Option Text) where
  -- The report of a manifest.
  unfoldable pub report_of :
      DrillRequest → (Text → DrillMachine) → ℕ → Text → ManifestDoc → DrillReport
  unfolding chosen_entries drill_entries all_good
  report_of req machines finish key m =
      let chosen = chosen_entries req.sample m.repos in
      let repos = drill_entries decrypt hash c st pub_key key machines chosen in
      record {
        manifest_key = key;
        manifest_signed = is_some pub_key;
        finished_at = finish;
        status = status_string (all_good repos);
        eligible = length (eligible_entries m.repos);
        drilled = length chosen;
        repos = repos;
      }

  -- `Drill`, from its start to the instant at which the last repository is compared, with the
  -- configured retention and what the destination answers of its own.
  unfoldable pub drill :
      Bool
      → (Filing → ℕ → Try)
      → ℕ
      → Text
      → Option WormStatus
      → DrillRequest
      → (Text → DrillMachine)
      → ℕ
      → ℕ
      → Result LoadFault Drilled
  unfolding manifest_to_drill report_of report_retention upload_drill
  drill signs put days mode worm req machines start finish = do
    key ← manifest_to_drill st req.manifest_key req.dir start
    m ← drillable (load_manifest c st pub_key key)
    let report = report_of req machines finish key m
    let up = upload_drill signs put (report_retention days mode worm finish) report
    ok (drilled_of report up)
