-- ===== src/Pipeline/Retention.antt =====
-- internal/pipeline/backup.go: how long a copy is held, what the preflight says of the destination,
-- and what the run observes of the objects it wrote (with internal/dest/dest.go).
pub mod Window
pub mod Observed
pub mod Samples
use gitdr.Common.{
  ℕ, ◌+◌, ◌*◌, Bool, true, false, not, ◌&&◌, ◌||◌, Option, none, some, List, [], ◌∷◌, Text, text_eq,
  is_nil, if◌then◌else◌, ltb, ℤ, pos, lt_int, le_zero, wrap64, add_time, nanos_per_hour,
}
use gitdr.Pipeline.Manifest.{RepoEntry, ArtifactInfo}

-- WormVerdict.
pub data Verdict : Type 0 where
  unknown immutable not_immutable : Verdict

-- `WormVerdict.Immutable`.
abbrev pub is_immutable : Verdict → Bool
is_immutable immutable = true
is_immutable _ = false

-- WormStatus, as far as the run decides by it: whether the refusal is a bucket that does not exist.
pub record WormStatus : Type 0 where
  pub verdict : Verdict
  pub no_such_bucket : Bool
  pub period : ℤ

abbrev pub hours_of_days : ℕ → ℤ
hours_of_days days = wrap64 (days * 24 * nanos_per_hour)

-- `retentionWindow`, with the configured days, none for a run without a configuration.
unfoldable pub retention_window : Option ℕ → ℤ → ℤ
retention_window days held =
    let window : ℤ = elim days [ none ↦ pos 0 | some d ↦ hours_of_days d ] in
    if lt_int (pos 0) held && (le_zero window || lt_int held window) then held else window

-- The instant until which `retention` asks for a lock.
unfoldable pub retention_until : ℕ → ℕ → ℕ
retention_until now days = add_time now (hours_of_days days)

pub data WormFault : Type 0 where
  unverified missing_bucket refused_mutable : WormFault

abbrev unverified_status : WormStatus
unverified_status = record { verdict = unknown; no_such_bucket = false; period = pos 0 }

-- `wormCheck`: the status the run goes by, and the error that stops it. A preflight that fails
-- answers none.
unfoldable pub worm_check : Bool → Option WormStatus → WormStatus × Option WormFault
worm_check require_worm none = (unverified_status, if require_worm then some unverified else none)
worm_check require_worm (some st) = (
  st,
  if st.no_such_bucket
      then some missing_bucket
      else if is_immutable st.verdict
      then none
      else if require_worm
      then some refused_mutable
      else none,
)

-- RetentionObservation.
pub data Observation : Type 0 where
  present absent not_checked : Observation

-- One key's answer on top of those before it.
abbrev pub weigh : Observation → Observation → Observation
weigh observed present = observed
weigh observed absent = absent
weigh present not_checked = not_checked
weigh absent not_checked = absent
weigh not_checked not_checked = not_checked

unfoldable pub observe_keys : (Text → Observation) → Observation → List Text → Observation
observe_keys observe observed [] = observed
observe_keys observe observed (key ∷ keys) =
    observe_keys observe (weigh observed (observe key)) keys

abbrev pub Extremes : Type 0
Extremes = Option ArtifactInfo × Option ArtifactInfo

abbrev pub smaller : Option ArtifactInfo → ArtifactInfo → Option ArtifactInfo
smaller none a = some a
smaller (some b) a = if ltb a.size b.size then some a else some b

abbrev pub larger : Option ArtifactInfo → ArtifactInfo → Option ArtifactInfo
larger none a = some a
larger (some b) a = if ltb b.size a.size then some a else some b

-- The inner loop of `retentionSamples`.
unfoldable pub sample_artifacts : List ArtifactInfo → Extremes → Extremes
sample_artifacts [] x = x
sample_artifacts (a ∷ artifacts) (s, l) = sample_artifacts artifacts (smaller s a, larger l a)

unfoldable pub sample_entries : List RepoEntry → Extremes → Extremes
unfolding sample_artifacts
sample_entries [] x = x
sample_entries (e ∷ entries) x = sample_entries entries (sample_artifacts e.artifacts x)

-- The two are set together, so the smallest alone is looked at.
unfoldable pub sample_keys : Extremes → List Text
sample_keys (none, _) = []
sample_keys (some s, none) = []
sample_keys (some s, some l) = if text_eq s.key l.key then s.key ∷ [] else s.key ∷ l.key ∷ []

unfoldable pub retention_samples : List RepoEntry → List Text
unfolding sample_entries sample_keys
retention_samples entries = sample_keys (sample_entries entries (none, none))

-- An object without retention is not a locked destination's.
abbrev pub lowered : Verdict → Observation → Verdict
lowered verdict absent = not_immutable
lowered verdict present = verdict
lowered verdict not_checked = verdict

unfoldable pub report_observed : Verdict → (Text → Observation) → List Text → Observation × Verdict
unfolding observe_keys
report_observed verdict observe [] = (not_checked, verdict)
report_observed verdict observe (key ∷ keys) =
    let observed = observe_keys observe present (key ∷ keys) in (observed, lowered verdict observed)

-- `observeRetention`, with the destination's observer, none where it has no way to ask.
unfoldable pub observe_retention :
    Verdict → Option (Text → Observation) → List RepoEntry → Observation × Verdict
unfolding retention_samples report_observed
observe_retention verdict observer entries =
    if not (is_immutable verdict) then (not_checked, verdict) else elim observer [
      | none ↦ (not_checked, verdict)
      | some observe ↦ report_observed verdict observe (retention_samples entries)
    ]
