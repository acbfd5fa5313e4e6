-- ===== src/Pipeline/Recorded/Sound.antt =====
-- What a copy that the search finds is.
use gitdr.Common.{
  ℕ, ◌+◌, ◌≡◌, ◌↔◌, ◌⊎◌, inl, inr, Bool, true, Option, none, some, List, [], ◌∷◌, arith, Text,
  GoMap, text_eq, text_eq_iff, lookup, insert, lookup-insert, is_some, if◌then◌else◌, Bool-cases,
  Option-cases, All, Member, here, there,
}
use gitdr.Pipeline.Manifest.{RepoEntry, ArtifactInfo, status_success, status_skipped, reason_empty}
use gitdr.Pipeline.Manifests.{Object}
use gitdr.Pipeline.Manifests.Read.{Store, Codecs}
use gitdr.Pipeline.Recorded.Cache.{IsFaithful, load-IsFaithful}
use gitdr.Pipeline.Recorded.{
  RecordedCopy, SearchReport, SearchedManifest, Memory, names_artifact, records_copy, records_any,
  first_entries, listed_size, fresh_load, load, judge_manifest, in_time, scan_manifests,
}

pub names_artifact-Member :
    (artifacts : List ArtifactInfo) (key : Text)
    → names_artifact artifacts key ≡ true
    → (a : ArtifactInfo) × Member a artifacts × (a.key ≡ key)
unfolding names_artifact
names_artifact-Member [] key h = cc
names_artifact-Member (a ∷ artifacts) key h = elim (Bool-cases (text_eq a.key key)) [
  | inl e ↦ (a, here, (text_eq_iff a.key key).0 e)
  | inr e ↦ let (b, m, k) = names_artifact-Member artifacts key (ground arith) in (b, there m, k)
]

pub Member-names_artifact :
    (artifacts : List ArtifactInfo) (a : ArtifactInfo) (key : Text)
    → Member a artifacts
    → a.key ≡ key
    → names_artifact artifacts key ≡ true
unfolding names_artifact
Member-names_artifact (_ ∷ artifacts) a key here e = ground (arith, text_eq_iff a.key key)
Member-names_artifact (b ∷ artifacts) a key (there m) e =
    ground (arith, Member-names_artifact artifacts a key m e)
Member-names_artifact [] a key m e = elim m [ ]

-- `recordsCopy` answers true exactly for an entry of the repository that lists the artifact, and
-- that is a success or a skip for want of commits: never for a failed entry.
pub records_copy_iff :
    (e : RepoEntry) (slug key : Text)
    → (records_copy e slug key ≡ true) ↔ (
        (e.slug ≡ slug)
        × ((e.status ≡ status_success) ⊎ ((e.status ≡ status_skipped) × (e.reason ≡ reason_empty)))
        × ((a : ArtifactInfo) × Member a e.artifacts × (a.key ≡ key)))
unfolding records_copy
records_copy_iff e slug key =
    let same = text_eq_iff e.slug slug in
    let won = text_eq_iff e.status status_success in
    let skipped = text_eq_iff e.status status_skipped in
    let empty = text_eq_iff e.reason reason_empty in
    (
      λ h. (
        ground (arith, same),
        ground (arith, won, skipped, empty),
        names_artifact-Member e.artifacts key (ground arith),
      ),
      λ (s, status, (a, m, k)).
          ground (arith, same, won, skipped, empty, Member-names_artifact e.artifacts a key m k),
    )

pub records_any-Member :
    (e : RepoEntry) (slug : Text) (keys : List Text)
    → records_any e slug keys ≡ true
    → (k : Text) × Member k keys × (records_copy e slug k ≡ true)
unfolding records_any
records_any-Member e slug [] h = cc
records_any-Member e slug (k ∷ keys) h = elim (Bool-cases (records_copy e slug k)) [
  | inl r ↦ (k, here, r)
  | inr r ↦ let (j, m, q) = records_any-Member e slug keys (ground arith) in (j, there m, q)
]

pub first_entries-Member :
    (slug : Text) (out : GoMap RepoEntry) (es : List RepoEntry) {e : RepoEntry}
    → lookup slug (first_entries out es) ≡ some e
    → (lookup slug out ≡ some e) ⊎ (Member e es × (e.slug ≡ slug))
unfolding first_entries
first_entries-Member slug out [] h = inl h
first_entries-Member slug out (x ∷ es) {e} h =
    elim (first_entries-Member slug
      (if is_some (lookup x.slug out) then out else insert x.slug x out) es h) [
        | inr (m, k) ↦ inr (there m, k)
        | inl found ↦ elim (Bool-cases (is_some (lookup x.slug out))) [
          | inl old ↦ inl (ground arith)
          | inr new ↦ elim (Bool-cases (text_eq x.slug slug)) [
            | inl same ↦
                let q : x ≡ e = ground (arith, lookup-insert slug x.slug x out) in
                inr (rw q here, rw (← q) ((text_eq_iff x.slug slug).0 same))
            | inr other ↦ inl (ground (arith, lookup-insert slug x.slug x out))
          ]
        ]
      ]

module _ (c : Codecs) (st : Store) (pub_key : Option Text) (keep : Option (Text → Bool))
    (slug : Text) (keys : List Text) (not_after : Option ℕ) where
  -- The copy comes from a manifest that the loader accepts.
  abbrev pub Held : RecordedCopy → SearchedManifest → Type 0
  Held r m =
      (m.error ≡ none)
      × (lookup slug m.entries ≡ some r.entry)
      × (m.finished_at ≡ r.finished_at)
      × (records_any r.entry slug keys ≡ true)

  judge_manifest-Held :
      (key : Text) (m : SearchedManifest) (rep : SearchReport) {r : RecordedCopy}
      → (judge_manifest slug keys key m rep).0 ≡ some r
      → (r.manifest_key ≡ key) × Held r m
  unfolding judge_manifest
  judge_manifest-Held key m rep h = elim (Option-cases m.error) [
    | inr (x, e) ↦ absurd (ground arith)
    | inl e ↦ elim (Option-cases (lookup slug m.entries)) [
      | inl f ↦ absurd (ground arith)
      | inr (x, f) ↦ (ground arith, (ground arith, ground arith, ground arith, ground arith))
    ]
  ]

  module _ (size_of : Text → ℕ) where
    -- It comes from one of the manifests looked at, one that is not left out by its name.
    abbrev pub HeldAt : RecordedCopy → List Text → Type 0
    HeldAt r found =
        Member r.manifest_key found
        × (in_time not_after r.manifest_key ≡ true)
        × Held r (fresh_load c st pub_key keep r.manifest_key (size_of r.manifest_key))

    pub scan_manifests-HeldAt :
        (objs : List Object) (found : List Text) (rep : SearchReport) (s : Memory)
        {r : RecordedCopy}
        → All (λ key. listed_size objs key 0 ≡ size_of key) found
        → IsFaithful c st pub_key keep size_of s
        → (scan_manifests c st pub_key keep slug keys not_after objs found rep s).0 ≡ some r
        → HeldAt r found
    unfolding scan_manifests
    scan_manifests-HeldAt objs [] rep s z f h = cc
    scan_manifests-HeldAt objs (key ∷ found) rep s {r} z f h =
        let (m, f') = load-IsFaithful c st pub_key keep size_of key s f in
        let loaded : SearchedManifest = fresh_load c st pub_key keep key (size_of key) in
        let verdict = judge_manifest slug keys key loaded (record rep { seen = rep.seen + 1 }) in
        let h' = rw m at (rw z.0 at h) in
        elim (Bool-cases (in_time not_after key)) [
          | inr early ↦
              let (q, t, d) = scan_manifests-HeldAt objs found rep s z.1 f (rw early at h') in
              (there q, t, d)
          | inl due ↦ elim (Bool-cases (is_some verdict.0)) [
            | inl hit ↦
                let (k, d) =
                  judge_manifest-Held key loaded (record rep { seen = rep.seen + 1 }) {r = r}
                    (rw hit at (rw due at h')) in
                (rw k here, rw k due, rw k d)
            | inr miss ↦
                let (q, t, d) =
                  scan_manifests-HeldAt objs found verdict.1
                    (load c st pub_key keep key (size_of key) s).1 z.1 f'
                    (rw miss at (rw due at h')) in
                (there q, t, d)
          ]
        ]
