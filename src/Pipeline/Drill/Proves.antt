-- ===== src/Pipeline/Drill/Proves.antt =====
-- internal/pipeline/drill.go: what a drill that succeeds has shown of the repositories it chose.
use mathlib.Core.Path.{subst}
use gitdr.Common.{
  ◌≡◌, ◌⊎◌, refl, sym, ap, inl, inr, true, false, not, Option, some, List, [], ◌∷◌, arith, Text,
  GoMap, text_eq, text_eq_iff, length, is_nil, Bool-cases, Option-cases, ◌==◌, ==_iff, All,
  and_split,
}
use gitdr.Common.Results.{Result, ok, err, ◌>>=◌, ◌>>◌, guard, >>=-eq-ok, guard-eq-ok}
use gitdr.Pipeline.Manifest.{RepoEntry, status_success, status_failed}
use gitdr.Pipeline.Manifests.Read.{Store, Codecs}
use gitdr.Pipeline.Refs.{compare_refs, comparison_ok}
use gitdr.Pipeline.Restore.{RestoreResult, restore, restore_with}
use gitdr.Pipeline.Restore.Proved.{Restored, restore_with-ok}
use gitdr.Pipeline.RestoreChecks.{
  KeyParts, RestoreChecks, RestoreRequest, RestoreFault, recorded_checks, restore_checks,
  unverified_checks,
}
use gitdr.Pipeline.RestoreChecks.Listed.{Lists, recorded_loop-bundle}
use gitdr.Pipeline.RestoreChecks.Named.{ok_same, bundle_key_of, lfs_key_of}
use gitdr.Pipeline.Unchanged.{entries_to_refs}
use gitdr.Pipeline.Drill.Run.{all_good}
use gitdr.Pipeline.Drill.{
  DrillFault, DrillMachine, DrillRepo, locate, located, entry_checks, verified_checks,
  or_unrestored, as_declared, compare_source_refs, restored_drill, judge_source, restored_copy,
  judge_copy, drill_one, drill_entries, no_recorded_bundle, no_work_dir,
}

-- The restored refs carry those that the entry records of the source, where it records any.
abbrev pub SourceHeld : RepoEntry → DrillMachine → Type 0
SourceHeld e machine =
    (length e.refs ≡ 0)
    ⊎ ((refs : GoMap Text) × (machine.refs_again ≡ some refs)
        × (comparison_ok
              (compare_refs (as_declared (entries_to_refs e.refs)) refs machine.head_again)
            ≡ true))

failed_is_no_success : status_failed ≡ status_success → ⊥
unfolding status_failed status_success
failed_is_no_success h = cc

judge_source-success :
    (out : DrillRepo) (e : RepoEntry) (machine : DrillMachine)
    → (judge_source out (compare_source_refs (entries_to_refs e.refs) machine)).status
      ≡ status_success
    → SourceHeld e machine
unfolding judge_source compare_source_refs
judge_source-success out e machine h = elim (Bool-cases (is_nil (entries_to_refs e.refs))) [
  | inl empty ↦ absurd (failed_is_no_success (rw empty at h))
  | inr some_refs ↦ elim (Option-cases machine.refs_again) [
    | inl unread ↦ absurd (failed_is_no_success (rw (some_refs, unread) at h))
    | inr (refs, read) ↦
        let src = compare_refs (as_declared (entries_to_refs e.refs)) refs machine.head_again in
        elim (Bool-cases (comparison_ok src)) [
          | inl fine ↦ inr (refs, read, fine)
          | inr differs ↦ absurd (failed_is_no_success (rw (some_refs, read, differs) at h))
        ]
  ]
]

ok_is : {A : Type 0} {x y : A} → ◌≡◌ {A = Result DrillFault A} (ok x) (ok y) → x ≡ y
ok_is h = cc

module _ (decrypt : Option (Text → Option Text)) (hash : Text → Text) (c : Codecs) (st : Store)
    (pub_key : Text) where
  judge_copy-success :
      (e : RepoEntry) (machine : DrillMachine) (r : Result DrillFault RestoreResult)
      → (judge_copy decrypt hash c st (some pub_key) e machine r).status ≡ status_success
      → (res : RestoreResult) × (r ≡ ok res) × SourceHeld e machine
  judge_copy-success e machine (err fault) h = absurd (failed_is_no_success h)
  judge_copy-success e machine (ok res) h = elim (Bool-cases (length e.refs == 0)) [
    | inl bare ↦ (res, refl, inl ((==_iff (length e.refs) 0).0 bare))
    | inr refs ↦ (res, refl, judge_source-success (restored_drill e res) e machine (rw refs at h))
  ]

  or_unrestored-ok :
      (r : Result RestoreFault RestoreResult) {res : RestoreResult}
      → or_unrestored r ≡ ok res
      → r ≡ ok res
  or_unrestored-ok (ok res) h = cc
  or_unrestored-ok (err e) h = cc

  -- What a drill of an entry has shown.
  abbrev pub Proven : Text → RepoEntry → DrillMachine → Type 0
  Proven manifest_key e machine =
      (parts : KeyParts) × (locate e ≡ ok parts)
      × ((res : RestoreResult) × Restored decrypt hash st machine.restoring (located parts)
            (entry_checks manifest_key pub_key e parts) res)
      × Lists e.artifacts (bundle_key_of (located parts))
          (entry_checks manifest_key pub_key e parts).bundle_sha
      × SourceHeld e machine

  restore-verified :
      (machine : DrillMachine) (checks : RestoreChecks) (req : RestoreRequest) {res : RestoreResult}
      → restore decrypt hash c st machine.restoring (some pub_key) (some checks) req ≡ ok res
      → Restored decrypt hash st machine.restoring req checks res
  unfolding restore restore_checks
  restore-verified machine checks req {res} h =
      let goes = λ (t : RestoreRequest × Option RestoreChecks).
        restore_with decrypt hash st machine.restoring t.0 t.1 in
      let (found, is_found, h1) =
        >>=-eq-ok (restore_checks c st (some pub_key) (some checks) req) goes h in
      let (_, h2) =
        guard-eq-ok (text_eq pub_key checks.pub_key) unverified_checks (ok (req, some checks))
          is_found in
      restore_with-ok decrypt hash st machine.restoring req checks (
        subst (λ (t : RestoreRequest × Option RestoreChecks). goes t ≡ ok res) (sym (ok_same h2))
          h1)

  entry_checks-Lists :
      (manifest_key : Text) (e : RepoEntry) (parts : KeyParts)
      → is_nil (entry_checks manifest_key pub_key e parts).bundle_sha ≡ false
      → Lists e.artifacts
          (bundle_key_of (located parts))
          (entry_checks manifest_key pub_key e parts).bundle_sha
  unfolding recorded_checks
  entry_checks-Lists manifest_key e parts h =
      elim (recorded_loop-bundle (bundle_key_of (located parts)) (lfs_key_of (located parts))
        e.artifacts
        (record {
          manifest_key = manifest_key;
          bundle_sha = [];
          lfs_sha = [];
          pub_key = pub_key;
        })) [
          | inl found ↦ found
          | inr (same, _) ↦ absurd (ground (arith, ap (λ (t : Text). is_nil t) same, h))
        ]

  verified_checks-ok :
      (manifest_key : Text) (e : RepoEntry) (parts : KeyParts) {checks : Option RestoreChecks}
      → verified_checks manifest_key (some pub_key) e parts ≡ ok checks
      → (is_nil (entry_checks manifest_key pub_key e parts).bundle_sha ≡ false)
        × (some (entry_checks manifest_key pub_key e parts) ≡ checks)
  unfolding verified_checks
  verified_checks-ok manifest_key e parts {checks} h =
      let (there_is, h1) =
        guard-eq-ok (not (is_nil (entry_checks manifest_key pub_key e parts).bundle_sha))
          no_recorded_bundle (ok (some (entry_checks manifest_key pub_key e parts))) h in
      (ground (arith, there_is), ok_is h1)

  drill_one-Proven :
      (manifest_key : Text) (machine : DrillMachine) (e : RepoEntry)
      → (drill_one decrypt hash c st (some pub_key) manifest_key machine e).status ≡ status_success
      → Proven manifest_key e machine
  unfolding drill_one restored_copy
  drill_one-Proven manifest_key machine e h =
      let last = λ (parts : KeyParts) (checks : Option RestoreChecks).
        or_unrestored
          (restore decrypt hash c st machine.restoring (some pub_key) checks (located parts)) in
      let second = λ (parts : KeyParts).
        verified_checks manifest_key (some pub_key) e parts >>= λ (checks : Option RestoreChecks).
        guard machine.made_dir no_work_dir >> last parts checks in
      let (res, is_res, held) =
        judge_copy-success e machine
          (restored_copy decrypt hash c st (some pub_key) manifest_key machine e) h in
      let (parts, is_parts, h1) = >>=-eq-ok (locate e) second is_res in
      let (checks, is_checks, h2) =
        >>=-eq-ok (verified_checks manifest_key (some pub_key) e parts)
          (λ (checks : Option RestoreChecks).
            guard machine.made_dir no_work_dir >> last parts checks)
          h1 in
      let (_, h3) = guard-eq-ok machine.made_dir no_work_dir (last parts checks) h2 in
      let (has, is) = verified_checks-ok manifest_key e parts is_checks in
      let restores = or_unrestored-ok _ h3 in
      (
        parts,
        is_parts,
        (
          res,
          restore-verified machine (entry_checks manifest_key pub_key e parts) (located parts) (
              subst
                (λ (o : Option RestoreChecks).
                  restore decrypt hash c st machine.restoring (some pub_key) o (located parts)
                  ≡ ok res)
                (sym is) restores),
        ),
        entry_checks-Lists manifest_key e parts has,
        held,
      )

  pub drill_entries-Proven :
      (manifest_key : Text) (machines : Text → DrillMachine) (entries : List RepoEntry)
      → all_good (drill_entries decrypt hash c st (some pub_key) manifest_key machines entries)
        ≡ true
      → All (λ (e : RepoEntry). Proven manifest_key e (machines e.slug)) entries
  unfolding drill_entries all_good
  drill_entries-Proven manifest_key machines [] h = tt
  drill_entries-Proven manifest_key machines (e ∷ entries) h =
      let (first, others) =
        and_split
          (text_eq
            (drill_one decrypt hash c st (some pub_key) manifest_key (machines e.slug) e).status
            status_success)
          _ h in
      (
        drill_one-Proven manifest_key (machines e.slug) e ((text_eq_iff _ status_success).0 first),
        drill_entries-Proven manifest_key machines entries others,
      )
