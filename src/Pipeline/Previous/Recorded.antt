-- ===== src/Pipeline/Previous/Recorded.antt =====
-- A copy that `loadPrevious` gives is one that a recent manifest records.
use mathlib.Core.Path.{subst}
use gitdr.Common.{
  ℕ, ◌≤◌, ◌≡◌, refl, ◌≢◌, inl, inr, Bool, true, false, Option, some, List, [], ◌∷◌, ◌++◌, arith,
  Text, GoMap, text_eq, text_eq_iff, lookup, lookup-insert, if◌then◌else◌, ltb, Bool-cases,
  Option-cases, All, Member, here, there, slash, ℤ, lt_int, sub_time,
}
use gitdr.Pipeline.Manifest.{RepoEntry, status_failed}
use gitdr.Pipeline.Manifests.{Object, filed_manifests, named_at}
use gitdr.Pipeline.Manifests.Filed.{Filed, filed_manifests-Filed}
use gitdr.Pipeline.Manifests.Read.{
  Store, Codecs, ManifestHead, ManifestDoc, Loaded, ok, err, oversized, load_manifest,
  read_manifest_entries, keep_entries,
}
use gitdr.Pipeline.Previous.{
  PreviousCopy, PreviousState, copy_instant, previous_copy, holds_key, deciding, decide_one,
  decide_entries, all_decided, one_more, trying, stops_at, read_previous, previous_loop,
  load_previous, nothing_decided,
}
use gitdr.Pipeline.Recorded.Found.{Member-keep_entries}
use gitdr.Pipeline.Recorded.{listed_size}
use gitdr.Pipeline.Resume.{plausible_copied_at}
use gitdr.Pipeline.Unchanged.{entries_to_refs, refresh_bound}

-- What an entry gives: a copy that was not a failure, whose refs are known, made by the finish of
-- the manifest and by now.
abbrev pub Given : ℕ → ManifestHead → RepoEntry → PreviousCopy → Type 0
Given now head e r =
    (e.status ≢ status_failed)
    × (e.refs ≢ [])
    × (r.refs ≡ entries_to_refs e.refs)
    × (r.copied_at ≡ copy_instant head e)
    × (r.copied_at ≤ head.finished_at)
    × (r.copied_at ≤ now)

previous_copy-Given :
    (now : ℕ) (head : ManifestHead) (e : RepoEntry) (r : PreviousCopy)
    → previous_copy now head e ≡ some r
    → Given now head e r
unfolding previous_copy plausible_copied_at
previous_copy-Given now head e r h = (
  (λ z. ground (arith, text_eq_iff e.status status_failed, z)),
  (λ z. ground (arith, z)),
  ground arith,
  ground arith,
  ground arith,
  ground arith,
)

-- Every copy of the state is one that P allows.
abbrev AllCopies : (Text → PreviousCopy → Type 0) → PreviousState → Type 0
AllCopies P s = (slug : Text) (r : PreviousCopy) → lookup slug s.out ≡ some r → P slug r

decide_one-AllCopies :
    (P : Text → PreviousCopy → Type 0) (clock : Text → ℕ) (head : ManifestHead) (e : RepoEntry)
    (s : PreviousState)
    → ((r : PreviousCopy) → previous_copy (clock e.slug) head e ≡ some r → P e.slug r)
    → AllCopies P s
    → AllCopies P (decide_one clock head e s)
decide_one-AllCopies P clock head e s f a slug r h =
    elim (Option-cases (previous_copy (clock e.slug) head e)) [
      | inl n ↦ a slug r (ground (arith, n))
      | inr (q, n) ↦ elim (Bool-cases (text_eq e.slug slug)) [
        | inr other ↦ a slug r (ground (arith, n, lookup-insert slug e.slug q s.out))
        | inl same ↦
            let k : e.slug ≡ slug = (text_eq_iff e.slug slug).0 same in
            let v : q ≡ r = ground (arith, n, lookup-insert slug e.slug q s.out) in
            subst (λ x. P x r) k (f r (ground (arith, n, v)))
      ]
    ]

either_state :
    (P : Text → PreviousCopy → Type 0) (b : Bool) (s t : PreviousState)
    → AllCopies P s
    → AllCopies P t
    → AllCopies P (if b then s else t)
either_state P true s t a d = a
either_state P false s t a d = d

decide_entries-AllCopies :
    (P : Text → PreviousCopy → Type 0) (clock : Text → ℕ) (head : ManifestHead)
    (es : List RepoEntry) (s : PreviousState)
    → ((e : RepoEntry) (r : PreviousCopy)
        → Member e es
        → previous_copy (clock e.slug) head e ≡ some r
        → P e.slug r)
    → AllCopies P s
    → AllCopies P (decide_entries clock head es s)
unfolding decide_entries
decide_entries-AllCopies P clock head [] s f a = a
decide_entries-AllCopies P clock head (e ∷ es) s f a =
    decide_entries-AllCopies P clock head es
      (if holds_key e.slug s.decided then s else decide_one clock head e s)
      (λ x r m. f x r (there m))
      (either_state P (holds_key e.slug s.decided) s (decide_one clock head e s) a
        (decide_one-AllCopies P clock head e s (λ r. f e r here) a))

module _ (c : Codecs) (st : Store) (pub_key : Text) (retention : ℤ) (clock : Text → Text → ℕ)
    (now : ℕ) (selected : Option (GoMap Bool)) (dir : Text) where
  -- Where a copy comes from.
  abbrev pub Recent : Text → PreviousCopy → Type 0
  Recent slug r =
      (key : Text) × Filed dir key
      × ((finished : ℕ) × (named_at key ≡ some finished)
          × (finished ≤ now)
          × (lt_int (sub_time now finished) (refresh_bound retention) ≡ true))
      × ((m : ManifestDoc) × (load_manifest c st (some pub_key) key ≡ ok m)
          × ((e : RepoEntry) × Member e m.repos
              × (e.slug ≡ slug)
              × Given (clock key slug) m.head e r))

  read_previous-load :
      (objs : List Object) (key : Text) (s : PreviousState) (l : Loaded ManifestDoc)
      {m : ManifestDoc}
      → load_manifest c st (some pub_key) key ≡ l
      → read_previous c st pub_key retention clock now selected objs key s ≡ some m
      → (doc : ManifestDoc) × (load_manifest c st (some pub_key) key ≡ ok doc)
        × (m ≡ record {
          head = doc.head;
          repos = keep_entries (deciding s.decided selected) doc.repos;
        })
  unfolding read_previous read_manifest_entries
  read_previous-load objs key s (err x) q h =
      elim (Option-cases (oversized (listed_size objs key 0))) [
        | inr (y, o) ↦ absurd (ground (arith, o))
        | inl o ↦ absurd (ground (arith, o, q))
      ]
  read_previous-load objs key s (ok doc) q h =
      elim (Option-cases (oversized (listed_size objs key 0))) [
        | inr (y, o) ↦ absurd (ground (arith, o))
        | inl o ↦ (doc, q, ground (arith, o, q))
      ]

  read_previous-Recent :
      (objs : List Object) (key : Text) (finished : ℕ) (s : PreviousState) {m : ManifestDoc}
      → Filed dir key
      → named_at key ≡ some finished
      → ltb now finished ≡ false
      → stops_at c st pub_key retention clock now selected finished s ≡ false
      → read_previous c st pub_key retention clock now selected objs key s ≡ some m
      → (e : RepoEntry) (r : PreviousCopy) → Member e m.repos
      → previous_copy (clock key e.slug) m.head e ≡ some r
      → Recent e.slug r
  unfolding stops_at
  read_previous-Recent objs key finished s {m} f n l stop h e r member p =
      let (doc, q, same) =
        read_previous-load objs key s (load_manifest c st (some pub_key) key) refl h in
      (
        key,
        f,
        (finished, n, ground arith, ground arith),
        (
          doc,
          q,
          (
            e,
            Member-keep_entries (deciding s.decided selected) doc.repos
                (subst (λ (d : ManifestDoc). Member e d.repos) same member),
            refl,
            previous_copy-Given (clock key e.slug) doc.head e r (
                subst (λ (d : ManifestDoc). previous_copy (clock key e.slug) d.head e ≡ some r) same
                  p),
          ),
        ),
      )

  previous_loop-Recent :
      (objs : List Object) (keys : List Text) (s : PreviousState)
      → All (Filed dir) keys
      → AllCopies Recent s
      → AllCopies Recent (previous_loop c st pub_key retention clock now selected objs keys s)
  unfolding previous_loop
  previous_loop-Recent objs [] s f a = a
  previous_loop-Recent objs (key ∷ keys) s f a = elim (Option-cases (named_at key)) [
    | inl n ↦ rw (n, previous_loop) (previous_loop-Recent objs keys s f.1 a)
    | inr (finished, n) ↦ elim (Bool-cases (ltb now finished)) [
      | inl l ↦ rw (n, previous_loop) (rw l (previous_loop-Recent objs keys s f.1 a))
      | inr l ↦ elim (Bool-cases (stops_at c st pub_key retention clock now selected finished s)) [
        | inl stop ↦ rw (n, previous_loop) (rw l (rw stop a))
        | inr go ↦
            elim (Option-cases
              (read_previous c st pub_key retention clock now selected objs key s)) [
                | inl r ↦
                    rw (n, previous_loop)
                      (rw l (
                        rw go
                          (rw r (previous_loop-Recent objs keys (one_more (trying key s)) f.1 a))))
                | inr (m, r) ↦
                    let s' : PreviousState =
                      decide_entries (clock key) m.head m.repos (one_more (trying key s)) in
                    let a' : AllCopies Recent s' =
                      decide_entries-AllCopies Recent (clock key) m.head m.repos
                        (one_more (trying key s))
                        (read_previous-Recent objs key finished s f.0 n l go r) a in
                    elim (Bool-cases (all_decided selected s')) [
                      | inl done ↦ rw (n, previous_loop) (rw l (rw go (rw r (rw done a'))))
                      | inr on ↦
                          rw (n, previous_loop)
                            (rw l (rw go (rw r (rw on (previous_loop-Recent objs keys s' f.1 a')))))
                    ]
              ]
      ]
    ]
  ]

-- A copy that a run takes over from before is one that a manifest records. The manifest loads with
-- the run's key, is filed in the run's directory, and its name is not later than now and younger
-- than the refresh bound; its entry for the repository is not a failure and states refs, which are
-- the copy's; the copy was made by that manifest's finish and by the clock's reading at it.
pub load_previous-Recent :
    (c : Codecs) (st : Store) (pub_key : Text) (retention : ℤ) (clock : Text → Text → ℕ) (now : ℕ)
    (selected : Option (GoMap Bool)) (dir slug : Text) {r : PreviousCopy}
    → lookup slug (load_previous c st (some pub_key) retention clock now selected dir).out ≡ some r
    → Recent c st pub_key retention clock now selected dir slug r
unfolding load_previous lookup
load_previous-Recent c st pub_key retention clock now selected dir slug {r} h =
    elim (Option-cases (st.list (dir ++ (slash ∷ [])))) [
      | inl n ↦ absurd (ground (arith, n))
      | inr (objs, n) ↦
          previous_loop-Recent c st pub_key retention clock now selected dir objs
            (filed_manifests objs dir) nothing_decided (filed_manifests-Filed objs dir)
            (λ k x z. absurd (ground (arith, z))) slug r (ground (arith, n))
    ]
