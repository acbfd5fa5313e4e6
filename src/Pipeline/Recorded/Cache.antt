-- ===== src/Pipeline/Recorded/Cache.antt =====
-- What a search remembers never changes an answer.
use gitdr.Common.{
  ℕ, ◌+◌, ◌≡◌, refl, sym, ◌∙◌, inl, inr, Bool, Option, some, List, [], ◌∷◌, arith, Text,
  text_eq_iff, lookup, lookup-insert, is_some, Bool-cases, Option-cases, All,
}
use gitdr.Pipeline.Manifests.{Object, filed_manifests}
use gitdr.Pipeline.Manifests.Filed.{filed_manifests-All}
use gitdr.Pipeline.Manifests.Read.{Store, Codecs}
use gitdr.Pipeline.Recorded.{
  RecordedCopy, SearchReport, SearchedManifest, Memory, no_memory, listed_size, fresh_load, load,
  list_prefix, judge_manifest, in_time, scan_manifests, scan_prefixes, dated_prefixes, no_report,
  find,
}

module _ (c : Codecs) (st : Store) (pub_key : Option Text) (keep : Option (Text → Bool))
    (size_of : Text → ℕ) where
  -- The store lists a key at one size wherever it lists it.
  abbrev pub OneSize : Type 0
  OneSize =
      (prefix : Text) (objs : List Object)
      → st.list prefix ≡ some objs
      → All (λ o. listed_size objs o.key 0 ≡ size_of o.key) objs

  -- All that is remembered is what a read would give.
  pub record IsFaithful (s : Memory) : Type 0 where
    pub listed :
        (prefix : Text) (objs : List Object)
        → lookup prefix s.listings ≡ some objs
        → st.list prefix ≡ some objs
    pub read :
        (key : Text) (m : SearchedManifest)
        → lookup key s.loaded ≡ some m
        → m ≡ fresh_load c st pub_key keep key (size_of key)

  pub load-IsFaithful :
      (key : Text) (s : Memory)
      → IsFaithful s
      → ((load c st pub_key keep key (size_of key) s).0
          ≡ fresh_load c st pub_key keep key (size_of key))
        × IsFaithful (load c st pub_key keep key (size_of key) s).1
  unfolding load
  load-IsFaithful key s f = elim (Option-cases (lookup key s.loaded)) [
    | inl e ↦
        rw (e, load)
          (
            refl,
            record {
              listed = f.listed;
              read = λ k m h. ground (
                arith,
                text_eq_iff key k,
                f.read k m,
                lookup-insert k key (fresh_load c st pub_key keep key (size_of key)) s.loaded,
              );
            },
          )
    | inr (m, e) ↦ rw (e, load) (f.read key m e, f)
  ]

  pub list_prefix-IsFaithful :
      (prefix : Text) (s : Memory)
      → IsFaithful s
      → ((list_prefix c st pub_key keep prefix s).0 ≡ st.list prefix)
        × IsFaithful (list_prefix c st pub_key keep prefix s).1
  unfolding list_prefix
  list_prefix-IsFaithful prefix s f = elim (Option-cases (lookup prefix s.listings)) [
    | inr (objs, e) ↦ rw (e, list_prefix) (sym (f.listed prefix objs e), f)
    | inl e ↦ elim (Option-cases (st.list prefix)) [
      | inl g ↦ rw (e, list_prefix) (rw (g, list_prefix) (refl, f))
      | inr (objs, g) ↦
          rw (e, list_prefix)
            (rw (g, list_prefix)
              (
                refl,
                record {
                  listed = λ p os h. ground (
                    arith,
                    text_eq_iff prefix p,
                    f.listed p os,
                    lookup-insert p prefix objs s.listings,
                  );
                  read = f.read;
                },
              ))
    ]
  ]

  module _ (slug : Text) (keys : List Text) (not_after : Option ℕ) where
    abbrev scan :
        List Object
        → List Text
        → SearchReport
        → Memory
        → Option RecordedCopy × SearchReport × Memory
    scan = scan_manifests c st pub_key keep slug keys not_after

    abbrev verdict : Text → SearchReport → Option RecordedCopy × SearchReport
    verdict key rep =
        judge_manifest slug keys key (fresh_load c st pub_key keep key (size_of key))
          (record rep { seen = rep.seen + 1 })

    -- Two faithful memories give one answer, and leave the first faithful.
    pub scan_manifests-same :
        (objs : List Object) (found : List Text) (rep : SearchReport) (s t : Memory)
        → All (λ key. listed_size objs key 0 ≡ size_of key) found
        → IsFaithful s
        → IsFaithful t
        → ((scan objs found rep s).0 ≡ (scan objs found rep t).0)
          × ((scan objs found rep s).1 ≡ (scan objs found rep t).1)
          × IsFaithful (scan objs found rep s).2
    unfolding scan_manifests
    scan_manifests-same objs [] rep s t z f g = (refl, refl, f)
    scan_manifests-same objs (key ∷ found) rep s t z f g = rw z.0 (
        let (m, f') = load-IsFaithful key s f in
        let (n, g') = load-IsFaithful key t g in
        rw m (
          rw n (elim (Bool-cases (in_time not_after key)) [
            | inr early ↦ rw early (scan_manifests-same objs found rep s t z.1 f g)
            | inl due ↦ rw due (elim (Bool-cases (is_some (verdict key rep).0)) [
              | inl hit ↦ rw hit (refl, refl, f')
              | inr miss ↦ rw miss (
                  scan_manifests-same objs found (verdict key rep).1
                    (load c st pub_key keep key (size_of key) s).1
                    (load c st pub_key keep key (size_of key) t).1 z.1 f' g')
            ])
          ])))

    abbrev answers :
        List (Text × Text)
        → Memory
        → SearchReport
        → Option (Option RecordedCopy) × SearchReport × Memory
    answers prefixes s rep = scan_prefixes c st pub_key keep slug keys not_after prefixes rep s

    -- Two faithful memories give one answer.
    scan_prefixes-same :
        (prefixes : List (Text × Text)) (rep : SearchReport) (s t : Memory)
        → OneSize
        → IsFaithful s
        → IsFaithful t
        → ((answers prefixes s rep).0 ≡ (answers prefixes t rep).0)
          × ((answers prefixes s rep).1 ≡ (answers prefixes t rep).1)
          × IsFaithful (answers prefixes s rep).2
    unfolding scan_prefixes
    scan_prefixes-same [] rep s t z f g = (refl, refl, f)
    scan_prefixes-same ((dir, prefix) ∷ rest) rep s t z f g =
        let (l, f') = list_prefix-IsFaithful prefix s f in
        let (m, g') = list_prefix-IsFaithful prefix t g in
        elim (Option-cases (st.list prefix)) [
          | inl e ↦ rw (l ∙ e, scan_prefixes) (rw (m ∙ e, scan_prefixes) (refl, refl, f'))
          | inr (objs, e) ↦
              let sizes =
                filed_manifests-All (λ k. listed_size objs k 0 ≡ size_of k) objs dir
                  (z prefix objs e) in
              let s' = (list_prefix c st pub_key keep prefix s).1 in
              let t' = (list_prefix c st pub_key keep prefix t).1 in
              let (hit, report, f'') =
                scan_manifests-same objs (filed_manifests objs dir) rep s' t' sizes f' g' in
              let (_, _, g'') =
                scan_manifests-same objs (filed_manifests objs dir) rep t' s' sizes g' f' in
              rw (l ∙ e, scan_prefixes)
                (rw (m ∙ e, scan_prefixes)
                  (rw hit (
                    rw report
                      (elim (Bool-cases (is_some (scan objs (filed_manifests objs dir) rep t').0)) [
                        | inl stop ↦ rw stop (refl, refl, f'')
                        | inr on ↦ rw on (
                            scan_prefixes-same rest (scan objs (filed_manifests objs dir) rep t').1
                              (scan objs (filed_manifests objs dir) rep s').2
                              (scan objs (filed_manifests objs dir) rep t').2 z f'' g'')
                      ]))))
        ]

pub nothing-IsFaithful :
    (c : Codecs) (st : Store) (pub_key : Option Text) (keep : Option (Text → Bool))
    (size_of : Text → ℕ)
    → IsFaithful c st pub_key keep size_of no_memory
unfolding no_memory lookup
nothing-IsFaithful c st pub_key keep size_of = record {
  listed = λ prefix objs h. cc;
  read = λ key m h. cc;
}

-- A search that has answered questions before answers the next one as a search that has read
-- nothing would: the same copy or none or a failed listing, with the same report. For a memory
-- that holds only what the store's reads give, and a store that lists each key at one size; and
-- the search leaves such a memory.
pub find-no_memory :
    (c : Codecs) (st : Store) (pub_key : Option Text) (keep : Option (Text → Bool))
    (size_of : Text → ℕ) (dirs : List Text) (day : ℕ) (slug : Text) (keys : List Text)
    (not_after : Option ℕ) (s : Memory)
    → OneSize c st pub_key keep size_of
    → IsFaithful c st pub_key keep size_of s
    → let before = find c st pub_key keep dirs day slug keys not_after s in
      let fresh = find c st pub_key keep dirs day slug keys not_after no_memory in
      (before.0 ≡ fresh.0) × (before.1 ≡ fresh.1) × IsFaithful c st pub_key keep size_of before.2
unfolding find
find-no_memory c st pub_key keep size_of dirs day slug keys not_after s z f =
    scan_prefixes-same c st pub_key keep size_of slug keys not_after (dated_prefixes dirs day)
      no_report s no_memory z f (nothing-IsFaithful c st pub_key keep size_of)
