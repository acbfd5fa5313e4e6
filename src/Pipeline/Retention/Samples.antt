-- ===== src/Pipeline/Retention/Samples.antt =====
-- The objects that the run asks about are its smallest and its largest.
use mathlib.Core.Path.{subst}
use gitdr.Common.{
  ℕ, ◌≤◌, ◌≡◌, refl, sym, ◌≢◌, ◌⊎◌, inl, inr, none, some, List, [], ◌∷◌, arith, Text, text_eq,
  text_eq_iff, ltb, Bool-cases, All, All-member, Member, here, there,
}
use gitdr.Pipeline.Manifest.{RepoEntry, ArtifactInfo}
use gitdr.Pipeline.Retention.{
  Extremes, smaller, larger, sample_artifacts, sample_entries, sample_keys, retention_samples,
}

-- What the two artifacts are to all those seen: both none, or the ends of the order by size.
abbrev Ends : List ArtifactInfo → Extremes → Type 0
Ends seen (none, none) = seen ≡ []
Ends seen (none, some l) = ⊥
Ends seen (some s, none) = ⊥
Ends seen (some s, some l) =
    Member s seen
    × Member l seen
    × All (λ (a : ArtifactInfo). (s.size ≤ a.size) × (a.size ≤ l.size)) seen

-- All the artifacts of the entries, the last first.
abbrev seen_artifacts : List ArtifactInfo → List ArtifactInfo → List ArtifactInfo
seen_artifacts seen [] = seen
seen_artifacts seen (a ∷ artifacts) = seen_artifacts (a ∷ seen) artifacts

abbrev seen_entries : List ArtifactInfo → List RepoEntry → List ArtifactInfo
seen_entries seen [] = seen
seen_entries seen (e ∷ entries) = seen_entries (seen_artifacts seen e.artifacts) entries

widen :
    (s l s' l' : ℕ) (seen : List ArtifactInfo)
    → s' ≤ s
    → l ≤ l'
    → All (λ (a : ArtifactInfo). (s ≤ a.size) × (a.size ≤ l)) seen
    → All (λ (a : ArtifactInfo). (s' ≤ a.size) × (a.size ≤ l')) seen
widen s l s' l' [] p q h = tt
widen s l s' l' (a ∷ seen) p q h = (ground (arith, h.0), widen s l s' l' seen p q h.1)

Ends-next :
    (seen : List ArtifactInfo) (x : Extremes) (a : ArtifactInfo)
    → Ends seen x
    → Ends (a ∷ seen) (smaller x.0 a, larger x.1 a)
Ends-next seen (none, none) a h =
    (here, here, ((omega arith, omega arith), subst (All _) (sym h) tt))
Ends-next seen (none, some l) a h = absurd h
Ends-next seen (some s, none) a h = absurd h
Ends-next seen (some s, some l) a h = elim (Bool-cases (ltb a.size s.size)) [
  | inl p ↦ elim (Bool-cases (ltb l.size a.size)) [
    | inl q ↦ rw p (
        rw q (
          here,
          here,
          (
            (omega arith, omega arith),
            widen s.size l.size a.size a.size seen (ground arith) (ground arith) h.2,
          ),
        ))
    | inr q ↦ rw p (
        rw q (
          here,
          there h.1,
          (
            (omega arith, ground arith),
            widen s.size l.size a.size l.size seen (ground arith) (omega arith) h.2,
          ),
        ))
  ]
  | inr p ↦ elim (Bool-cases (ltb l.size a.size)) [
    | inl q ↦ rw p (
        rw q (
          there h.0,
          here,
          (
            (ground arith, omega arith),
            widen s.size l.size s.size a.size seen (omega arith) (ground arith) h.2,
          ),
        ))
    | inr q ↦ rw p (rw q (there h.0, there h.1, ((ground arith, ground arith), h.2)))
  ]
]

Ends-artifacts :
    (seen artifacts : List ArtifactInfo) (x : Extremes)
    → Ends seen x
    → Ends (seen_artifacts seen artifacts) (sample_artifacts artifacts x)
unfolding sample_artifacts
Ends-artifacts seen [] x h = h
Ends-artifacts seen (a ∷ artifacts) (s, l) h =
    Ends-artifacts (a ∷ seen) artifacts (smaller s a, larger l a) (Ends-next seen (s, l) a h)

Ends-entries :
    (seen : List ArtifactInfo) (entries : List RepoEntry) (x : Extremes)
    → Ends seen x
    → Ends (seen_entries seen entries) (sample_entries entries x)
unfolding sample_entries
Ends-entries seen [] x h = h
Ends-entries seen (e ∷ entries) x h =
    Ends-entries (seen_artifacts seen e.artifacts) entries (sample_artifacts e.artifacts x)
      (Ends-artifacts seen e.artifacts x h)

-- An entry of the run lists the artifact.
abbrev pub Wrote : List RepoEntry → ArtifactInfo → Type 0
Wrote entries a = (e : RepoEntry) × Member e entries × Member a e.artifacts

Member-seen_artifacts :
    (seen artifacts : List ArtifactInfo) {a : ArtifactInfo}
    → Member a (seen_artifacts seen artifacts)
    → Member a seen ⊎ Member a artifacts
Member-seen_artifacts seen [] m = inl m
Member-seen_artifacts seen (b ∷ artifacts) m = elim (Member-seen_artifacts (b ∷ seen) artifacts m) [
  | inl n ↦ front n
  | inr n ↦ inr (there n)
]
  where
    front :
        {a b : ArtifactInfo} {seen artifacts : List ArtifactInfo}
        → Member a (b ∷ seen)
        → Member a seen ⊎ Member a (b ∷ artifacts)
    front here = inr here
    front (there n) = inl n

seen_artifacts-Member :
    (seen artifacts : List ArtifactInfo) {a : ArtifactInfo}
    → Member a seen ⊎ Member a artifacts
    → Member a (seen_artifacts seen artifacts)
seen_artifacts-Member seen [] (inl m) = m
seen_artifacts-Member seen [] (inr m) = elim m [ ]
seen_artifacts-Member seen (b ∷ artifacts) (inl m) =
    seen_artifacts-Member (b ∷ seen) artifacts (inl (there m))
seen_artifacts-Member seen (_ ∷ artifacts) {a} (inr here) =
    seen_artifacts-Member (a ∷ seen) artifacts (inl here)
seen_artifacts-Member seen (b ∷ artifacts) (inr (there m)) =
    seen_artifacts-Member (b ∷ seen) artifacts (inr m)

Member-seen_entries :
    (seen : List ArtifactInfo) (entries : List RepoEntry) {a : ArtifactInfo}
    → Member a (seen_entries seen entries)
    → Member a seen ⊎ Wrote entries a
Member-seen_entries seen [] m = inl m
Member-seen_entries seen (e ∷ entries) m =
    elim (Member-seen_entries (seen_artifacts seen e.artifacts) entries m) [
      | inr (x, n, k) ↦ inr (x, there n, k)
      | inl n ↦ elim (Member-seen_artifacts seen e.artifacts n) [
        | inl k ↦ inl k
        | inr k ↦ inr (e, here, k)
      ]
    ]

seen_entries-Member :
    (seen : List ArtifactInfo) (entries : List RepoEntry) {a : ArtifactInfo}
    → Member a seen ⊎ Wrote entries a
    → Member a (seen_entries seen entries)
seen_entries-Member seen [] (inl m) = m
seen_entries-Member seen [] (inr (e, m, k)) = elim m [ ]
seen_entries-Member seen (e ∷ entries) (inl m) =
    seen_entries-Member (seen_artifacts seen e.artifacts) entries
      (inl (seen_artifacts-Member seen e.artifacts (inl m)))
seen_entries-Member seen (_ ∷ entries) (inr (e, here, k)) =
    seen_entries-Member (seen_artifacts seen e.artifacts) entries
      (inl (seen_artifacts-Member seen e.artifacts (inr k)))
seen_entries-Member seen (x ∷ entries) (inr (e, there m, k)) =
    seen_entries-Member (seen_artifacts seen x.artifacts) entries (inr (e, m, k))

wrote :
    (entries : List RepoEntry) {a : ArtifactInfo}
    → Member a (seen_entries [] entries)
    → Wrote entries a
wrote entries m = elim (Member-seen_entries [] entries m) [ inl n ↦ elim n [ ] | inr w ↦ w ]

-- The keys asked about are those of two artifacts.
abbrev pub Asks : ArtifactInfo → ArtifactInfo → List Text → Type 0
Asks s l keys =
    ((s.key ≢ l.key) × (keys ≡ s.key ∷ l.key ∷ [])) ⊎ ((s.key ≡ l.key) × (keys ≡ s.key ∷ []))

sample_keys-Asks : (s l : ArtifactInfo) → Asks s l (sample_keys (some s, some l))
unfolding sample_keys
sample_keys-Asks s l = elim (Bool-cases (text_eq s.key l.key)) [
  | inl e ↦ inr ((text_eq_iff s.key l.key).0 e, ground (arith, e))
  | inr e ↦ inl ((λ z. ground (arith, text_eq_iff s.key l.key)), ground (arith, e))
]

-- What `retentionSamples` answers: the extremes of what was written, or no key.
abbrev pub Sampled : List RepoEntry → List Text → Type 0
Sampled entries keys =
    ((keys ≡ []) × ((a : ArtifactInfo) → Wrote entries a → ⊥))
    ⊎ ((s : ArtifactInfo) × (l : ArtifactInfo) × Wrote entries s
        × Wrote entries l
        × ((a : ArtifactInfo) → Wrote entries a → (s.size ≤ a.size) × (a.size ≤ l.size))
        × Asks s l keys)

Ends-Sampled :
    (entries : List RepoEntry) (x : Extremes)
    → Ends (seen_entries [] entries) x
    → Sampled entries (sample_keys x)
unfolding sample_keys
Ends-Sampled entries (none, none) h =
    inl (refl, λ a w. gone (subst (Member a) h (seen_entries-Member [] entries (inr w))))
  where
    gone : {a : ArtifactInfo} → Member a [] → ⊥
    gone m = elim m [ ]
Ends-Sampled entries (none, some l) h = absurd h
Ends-Sampled entries (some s, none) h = absurd h
Ends-Sampled entries (some s, some l) h = inr (
  s,
  l,
  wrote entries h.0,
  wrote entries h.1,
  (λ a w.
      All-member (λ (a : ArtifactInfo). (s.size ≤ a.size) × (a.size ≤ l.size))
        (seen_entries [] entries) h.2 (seen_entries-Member [] entries (inr w))),
  sample_keys-Asks s l,
)

-- The objects whose retention a run asks about are two that it wrote, no written one smaller than
-- the first or larger than the second; they are one key where these are one, and none exactly
-- where the run wrote nothing.
pub retention_samples-Sampled :
    (entries : List RepoEntry) → Sampled entries (retention_samples entries)
unfolding retention_samples
retention_samples-Sampled entries =
    Ends-Sampled entries (sample_entries entries (none, none))
      (Ends-entries [] entries (none, none) refl)
