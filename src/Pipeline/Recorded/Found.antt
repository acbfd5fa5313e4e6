-- ===== src/Pipeline/Recorded/Found.antt =====
-- A copy that the search finds is recorded by a manifest the loader accepts.
use gitdr.Common.{
  ℕ, ◌≡◌, refl, sym, ◌∙◌, ap, inl, inr, Bool, true, Option, none, some, List, [], ◌∷◌, arith, Text,
  lookup, is_some, Bool-cases, Option-cases, All, All-member, All-tabulate, Member, Member-cons,
  there,
}
use gitdr.Pipeline.Manifest.{RepoEntry}
use gitdr.Pipeline.Manifests.{Object, filed_manifests}
use gitdr.Pipeline.Manifests.Filed.{Filed, filed_manifests-All, filed_manifests-Filed}
use gitdr.Pipeline.Manifests.Read.{
  Store, Codecs, ManifestDoc, Loaded, ok, err, load_manifest, read_manifest_entries, keep_entries,
  oversized,
}
use gitdr.Pipeline.Recorded.Cache.{OneSize, IsFaithful, list_prefix-IsFaithful, scan_manifests-same}
use gitdr.Pipeline.Recorded.Sound.{
  HeldAt, scan_manifests-HeldAt, records_any-Member, first_entries-Member,
}
use gitdr.Pipeline.Recorded.{
  RecordedCopy, SearchReport, SearchedManifest, Memory, records_copy, keeps_slug, first_entries,
  listed_size, fresh_load, list_prefix, in_time, scan_manifests, scan_prefixes, dated_prefixes,
  find, no_report,
}

pub Member-keep_entries :
    (keeps : RepoEntry → Bool) (es : List RepoEntry) {e : RepoEntry}
    → Member e (keep_entries keeps es)
    → Member e es
unfolding keep_entries
Member-keep_entries keeps [] m = m
Member-keep_entries keeps (x ∷ es) {e} m = elim (Bool-cases (keeps x)) [
  | inr out ↦ there (Member-keep_entries keeps es (rw out at m))
  | inl kept ↦ Member-cons (λ n. Member-keep_entries keeps es n) (rw kept at m)
]

module _ (c : Codecs) (st : Store) (pub_key : Option Text) (keep : Option (Text → Bool)) where
  -- The manifest of a key, as a search holds it once it has loaded.
  abbrev held : ManifestDoc → SearchedManifest
  held m = record {
    finished_at = m.head.finished_at;
    error = none;
    entries = first_entries [] (keep_entries (keeps_slug keep) m.repos);
  }

  Loads : Text → ℕ → Type 0
  Loads key size =
      (m : ManifestDoc) × (load_manifest c st pub_key key ≡ ok m)
      × (fresh_load c st pub_key keep key size ≡ held m)

  fresh_load-Loads :
      (key : Text) (size : ℕ) (r : Loaded ManifestDoc)
      → load_manifest c st pub_key key ≡ r
      → (fresh_load c st pub_key keep key size).error ≡ none
      → Loads key size
  unfolding fresh_load read_manifest_entries Loads
  fresh_load-Loads key size (err x) q h = absurd (ground arith)
  fresh_load-Loads key size (ok m) q h = elim (Option-cases (oversized size)) [
    | inr (x, f) ↦ absurd (ground arith)
    | inl f ↦ (m, q, ground arith)
  ]

  fresh_load-entry :
      (slug key : Text) (size : ℕ) {e : RepoEntry}
      → (fresh_load c st pub_key keep key size).error ≡ none
      → lookup slug (fresh_load c st pub_key keep key size).entries ≡ some e
      → (m : ManifestDoc) × (load_manifest c st pub_key key ≡ ok m)
        × Member e m.repos
        × ((fresh_load c st pub_key keep key size).finished_at ≡ m.head.finished_at)
  unfolding Loads lookup
  fresh_load-entry slug key size h l =
      let (m, q, same) = fresh_load-Loads key size (load_manifest c st pub_key key) refl h in
      let l' = rw same at l in
      elim (first_entries-Member slug [] (keep_entries (keeps_slug keep) m.repos) l') [
        | inl z ↦ absurd (ground arith)
        | inr (member, _) ↦ (
          m,
          q,
          Member-keep_entries (keeps_slug keep) m.repos member,
          ap (λ (x : SearchedManifest). x.finished_at) same,
        )
      ]

  module _ (slug : Text) (keys : List Text) (not_after : Option ℕ) (size_of : Text → ℕ) where
    -- What the copy is shown to be.
    abbrev pub Backed : List Text → RecordedCopy → Type 0
    Backed dirs r =
        ((k : Text) × Member k keys × (records_copy r.entry slug k ≡ true))
        × ((m : ManifestDoc) × (load_manifest c st pub_key r.manifest_key ≡ ok m)
            × Member r.entry m.repos
            × (r.finished_at ≡ m.head.finished_at))
        × (in_time not_after r.manifest_key ≡ true)
        × ((dir : Text) × Member dir dirs × Filed dir r.manifest_key)

    HeldAt-Backed :
        (objs : List Object) (dir : Text) (dirs : List Text) (r : RecordedCopy)
        → Member dir dirs
        → HeldAt c st pub_key keep slug keys not_after size_of r (filed_manifests objs dir)
        → Backed dirs r
    HeldAt-Backed objs dir dirs r d (m, t, (e, l, f, k)) =
        let (doc, q, member, finish) =
          fresh_load-entry slug r.manifest_key (size_of r.manifest_key) e l in
        (
          records_any-Member r.entry slug keys k,
          (doc, q, member, sym f ∙ finish),
          t,
          (
            dir,
            d,
            All-member (Filed dir) (filed_manifests objs dir) (filed_manifests-Filed objs dir) m,
          ),
        )

    -- The directories that the dated prefixes come from.
    abbrev From : List Text → List (Text × Text) → Type 0
    From dirs prefixes = All (λ (p : Text × Text). Member p.0 dirs) prefixes

    scan_prefixes-Backed :
        (dirs : List Text) (prefixes : List (Text × Text)) (rep : SearchReport) (s : Memory)
        {r : RecordedCopy}
        → From dirs prefixes
        → OneSize c st pub_key keep size_of
        → IsFaithful c st pub_key keep size_of s
        → (scan_prefixes c st pub_key keep slug keys not_after prefixes rep s).0 ≡ some (some r)
        → Backed dirs r
    unfolding scan_prefixes
    scan_prefixes-Backed dirs [] rep s d z f h = absurd (ground arith)
    scan_prefixes-Backed dirs ((dir, prefix) ∷ rest) rep s {r} d z f h =
        let (l, f') = list_prefix-IsFaithful c st pub_key keep size_of prefix s f in
        let s' : Memory = (list_prefix c st pub_key keep prefix s).1 in
        elim (Option-cases (st.list prefix)) [
          | inl e ↦ absurd (ground arith)
          | inr (objs, e) ↦
              let sizes =
                filed_manifests-All (λ k. listed_size objs k 0 ≡ size_of k) objs dir
                  (z prefix objs e) in
              let out =
                scan_manifests c st pub_key keep slug keys not_after objs (filed_manifests objs dir)
                  rep s' in
              let (_, _, f'') =
                scan_manifests-same c st pub_key keep size_of slug keys not_after objs
                  (filed_manifests objs dir) rep s' s' sizes f' f' in
              let h' = rw (l ∙ e, scan_prefixes) at h in
              elim (Bool-cases (is_some out.0)) [
                | inl hit ↦ HeldAt-Backed objs dir dirs r d.0 (
                    scan_manifests-HeldAt c st pub_key keep slug keys not_after size_of objs
                      (filed_manifests objs dir) rep s' sizes f' (ground (arith, h')))
                | inr miss ↦ scan_prefixes-Backed dirs rest out.1 out.2 d.1 z f'' (rw miss at h')
              ]
        ]

dated_prefixes-From :
    (P : Text → Type 0) (dirs : List Text) (day : ℕ)
    → All P dirs
    → All (λ (p : Text × Text). P p.0) (dated_prefixes dirs day)
unfolding dated_prefixes
dated_prefixes-From P [] day h = tt
dated_prefixes-From P (dir ∷ dirs) day h = (h.0, (h.0, dated_prefixes-From P dirs day h.1))

-- A copy that a search returns is one a manifest records: an entry of the repository that records
-- one of the keys asked for, out of a manifest the loader accepts with the search's key, filed
-- directly in one of the directories under a manifest's name, and not named later than the limit,
-- where one is set; the finish it gives is that manifest's. For a search whose memory holds only
-- what the store's reads give, and a store that lists each key at one size.
pub find-Backed :
    (c : Codecs) (st : Store) (pub_key : Option Text) (keep : Option (Text → Bool))
    (size_of : Text → ℕ) (dirs : List Text) (day : ℕ) (slug : Text) (keys : List Text)
    (not_after : Option ℕ) (s : Memory) {r : RecordedCopy}
    → OneSize c st pub_key keep size_of
    → IsFaithful c st pub_key keep size_of s
    → (find c st pub_key keep dirs day slug keys not_after s).0 ≡ some (some r)
    → Backed c st pub_key keep slug keys not_after size_of dirs r
unfolding find
find-Backed c st pub_key keep size_of dirs day slug keys not_after s z f h =
    scan_prefixes-Backed c st pub_key keep slug keys not_after size_of dirs
      (dated_prefixes dirs day) no_report s
      (dated_prefixes-From (λ d. Member d dirs) dirs day
        (All-tabulate (λ d. Member d dirs) dirs (λ d m. m)))
      z f h
