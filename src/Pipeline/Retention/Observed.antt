-- ===== src/Pipeline/Retention/Observed.antt =====
-- What a run reports of its destination is never more than it was told.
use gitdr.Common.{
  ◌≡◌, refl, ap, ◌≢◌, ◌↔◌, ◌⊎◌, inl, inr, true, some, List, [], ◌∷◌, arith, Text, Member, here,
  there, All,
}
use gitdr.Pipeline.Manifest.{RepoEntry}
use gitdr.Pipeline.Retention.{
  Verdict, unknown, immutable, not_immutable, is_immutable, Observation, present, absent,
  not_checked, weigh, observe_keys, retention_samples, observe_retention, report_observed, lowered,
}

-- Some key is answered absent.
abbrev pub SomeAbsent : (Text → Observation) → List Text → Type 0
SomeAbsent observe keys = (key : Text) × Member key keys × (observe key ≡ absent)

weigh-absent : (o q : Observation) → (weigh o q ≡ absent) ↔ ((o ≡ absent) ⊎ (q ≡ absent))
weigh-absent o present = ground arith
weigh-absent o absent = ground arith
weigh-absent present not_checked = ground arith
weigh-absent absent not_checked = ground arith
weigh-absent not_checked not_checked = ground arith

weigh-present : (o q : Observation) → (weigh o q ≡ present) ↔ ((o ≡ present) × (q ≡ present))
weigh-present o present = ground arith
weigh-present o absent = ground arith
weigh-present present not_checked = ground arith
weigh-present absent not_checked = ground arith
weigh-present not_checked not_checked = ground arith

no_member : {A B : Type 0} {a : A} → Member a [] → B
no_member m = elim m [ ]

spread :
    (observe : Text → Observation) (observed : Observation) (key : Text) (keys : List Text)
    → (weigh observed (observe key) ≡ absent → (observed ≡ absent) ⊎ (observe key ≡ absent))
    → (weigh observed (observe key) ≡ absent) ⊎ SomeAbsent observe keys
    → (observed ≡ absent) ⊎ SomeAbsent observe (key ∷ keys)
spread observe observed key keys f (inr (k, m, e)) = inr (k, there m, e)
spread observe observed key keys f (inl h) = elim (f h) [
  | inl o ↦ inl o
  | inr o ↦ inr (key, here, o)
]

gather :
    (observe : Text → Observation) (observed : Observation) (key : Text) (keys : List Text)
    → ((observed ≡ absent) ⊎ (observe key ≡ absent) → weigh observed (observe key) ≡ absent)
    → (observed ≡ absent) ⊎ SomeAbsent observe (key ∷ keys)
    → (weigh observed (observe key) ≡ absent) ⊎ SomeAbsent observe keys
gather observe observed key keys f (inl h) = inl (f (inl h))
gather observe observed _ keys f (inr (_, here, e)) = inl (f (inr e))
gather observe observed key keys f (inr (k, there m, e)) = inr (k, m, e)

observe_keys-absent :
    (observe : Text → Observation) (observed : Observation) (keys : List Text)
    → (observe_keys observe observed keys ≡ absent)
      ↔ ((observed ≡ absent) ⊎ SomeAbsent observe keys)
unfolding observe_keys
observe_keys-absent observe observed [] = (
  λ h. inl h,
  λ (x : (observed ≡ absent) ⊎ SomeAbsent observe []). elim x [ inl h ↦ h | inr s ↦ no_member s.1 ],
)
observe_keys-absent observe observed (key ∷ keys) =
    let ih = observe_keys-absent observe (weigh observed (observe key)) keys in
    let one = weigh-absent observed (observe key) in
    (
      λ h. spread observe observed key keys one.0 (ih.0 h),
      λ h. ih.1 (gather observe observed key keys one.1 h),
    )

observe_keys-present :
    (observe : Text → Observation) (observed : Observation) (keys : List Text)
    → (observe_keys observe observed keys ≡ present)
      ↔ ((observed ≡ present) × All (λ key. observe key ≡ present) keys)
unfolding observe_keys
observe_keys-present observe observed [] = (λ h. (h, tt), λ h. h.0)
observe_keys-present observe observed (key ∷ keys) =
    let ih = observe_keys-present observe (weigh observed (observe key)) keys in
    let one = weigh-present observed (observe key) in
    (
      λ h. ((one.0 (ih.0 h).0).0, ((one.0 (ih.0 h).0).1, (ih.0 h).1)),
      λ h. ih.1 (one.1 (h.0, h.1.0), h.1.1),
    )

either_absent :
    (observe : Text → Observation) (keys : List Text)
    → (present ≡ absent) ⊎ SomeAbsent observe keys
    → (SomeAbsent observe keys → ⊥)
    → ⊥
either_absent observe keys (inl e) f = cc
either_absent observe keys (inr s) f = f s

lowered-immutable : (o : Observation) → (is_immutable (lowered immutable o) ≡ true) ↔ (o ≢ absent)
lowered-immutable present = ground arith
lowered-immutable absent = (λ h. cc, λ h. absurd (h refl))
lowered-immutable not_checked = ground arith

lowered-same : (o : Observation) → (o ≢ absent) → lowered immutable o ≡ immutable
lowered-same present h = refl
lowered-same absent h = absurd (h refl)
lowered-same not_checked h = refl

-- What is reported for the keys that are asked about.
abbrev pub Reports : (Text → Observation) → List Text → Verdict → Observation × Verdict → Type 0
Reports observe keys verdict (observed, reported) =
    ((is_immutable reported ≡ true)
      ↔ ((is_immutable verdict ≡ true) × (SomeAbsent observe keys → ⊥)))
    × (((is_immutable verdict ≡ true) × SomeAbsent observe keys → ⊥) → reported ≡ verdict)
    × ((is_immutable verdict ≡ true) × SomeAbsent observe keys → reported ≡ not_immutable)
    × ((observed ≡ present)
        ↔ ((is_immutable verdict ≡ true) × (keys ≢ []) × All (λ key. observe key ≡ present) keys))

reported :
    (observe : Text → Observation) (keys : List Text)
    → Reports observe keys immutable (report_observed immutable observe keys)
unfolding report_observed
reported observe [] = (
  (λ h. (refl, λ s. no_member s.1), λ h. refl),
  (λ h. refl),
  (λ s. no_member s.1.1),
  (λ h. cc, λ h. absurd (h.1 refl)),
)
reported observe (key ∷ keys) =
    let seen = observe_keys-absent observe present (key ∷ keys) in
    let same = observe_keys-present observe present (key ∷ keys) in
    let low = lowered-immutable (observe_keys observe present (key ∷ keys)) in
    (
      (
        λ h. (refl, λ s. low.0 h (seen.1 (inr s))),
        λ h. low.1 (λ a. either_absent observe (key ∷ keys) (seen.0 a) h.1),
      ),
      (λ f.
          lowered-same (observe_keys observe present (key ∷ keys))
            (λ a. either_absent observe (key ∷ keys) (seen.0 a) (λ s. f (refl, s)))),
      (λ s. ap (lowered immutable) (seen.1 (inr s.1))),
      (λ h. (refl, (λ e. cc), (same.0 h).1), λ h. same.1 (refl, h.2)),
    )

-- What `observeRetention` reports. It never raises the verdict; it turns an immutable one into
-- not-immutable exactly where it asked and some sampled object holds no retention, and else leaves
-- the verdict as it was; and it says that retention is present only where it asked about an object
-- of the run and every one it asked about held one.
pub observe_retention_lem :
    (verdict : Verdict) (observe : Text → Observation) (entries : List RepoEntry)
    → Reports observe
        (retention_samples entries)
        verdict
        (observe_retention verdict (some observe) entries)
unfolding observe_retention
observe_retention_lem unknown observe entries =
    ((λ h. cc, λ h. cc), (λ h. refl), (λ h. cc), (λ h. cc, λ h. cc))
observe_retention_lem not_immutable observe entries =
    ((λ h. cc, λ h. cc), (λ h. refl), (λ h. cc), (λ h. cc, λ h. cc))
observe_retention_lem immutable observe entries = reported observe (retention_samples entries)
