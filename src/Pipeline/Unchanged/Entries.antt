-- ===== src/Pipeline/Unchanged/Entries.antt =====
-- The ref map and the sorted slice that a manifest stores of it.
use gitdr.Common.{
  ◌≡◌, refl, sym, ◌∙◌, ap, ◌≢◌, Option, none, some, List, [], ◌∷◌, arith, Text, GoMap, text_eq,
  text_eq_iff, text_eq_refl, lookup, insert, lookup-insert, NodupKeys, All, if◌then◌else◌, sort_by,
  sort_by_unique, sort_by-Rearranged, DistinctKeys, Rearranged, none_left, keep, swap, chain,
  sort_by-IsSorted, IsSorted, Rearranged-DistinctKeys, Rearranged-refl, Rearranged-symm, Bool-cases,
  inl, inr,
}
use gitdr.Pipeline.Manifest.{RefEntry}
use gitdr.Pipeline.Unchanged.SameRefs.{remove, lookup-remove, remove-NodupKeys}
use gitdr.Pipeline.Unchanged.{
  entry_name, entries_of, refs_to_entries, assign_entries, entries_to_refs,
}

-- The last entry of a name decides, as an assignment to the map does.
last_commit : Text → List RefEntry → Option Text → Option Text
last_commit k [] before = before
last_commit k (e ∷ es) before =
    last_commit k es (if text_eq e.name k then some e.commit else before)

lookup-assign_entries :
    (k : Text) (out : GoMap Text) (es : List RefEntry)
    → lookup k (assign_entries out es) ≡ last_commit k es (lookup k out)
unfolding assign_entries last_commit
lookup-assign_entries k out [] = refl
lookup-assign_entries k out (e ∷ es) =
    lookup-assign_entries k (insert e.name e.commit out) es
    ∙ ap (last_commit k es) (lookup-insert k e.name e.commit out)

last_commit_absent :
    (k : Text) (es : List RefEntry) (before : Option Text)
    → All (λ e. k ≢ entry_name e) es
    → last_commit k es before ≡ before
unfolding last_commit
last_commit_absent k [] before h = refl
last_commit_absent k (e ∷ es) before h =
    ground (arith, text_eq_iff e.name k, last_commit_absent k es before h.1)

-- With distinct names the entries may be assigned in any order.
last_commit-Rearranged :
    (k : Text) {es fs : List RefEntry} (before : Option Text)
    → Rearranged es fs
    → DistinctKeys entry_name es
    → last_commit k es before ≡ last_commit k fs before
unfolding last_commit
last_commit-Rearranged k before none_left d = refl
last_commit-Rearranged k before (keep {x = x} r) d =
    last_commit-Rearranged k (if text_eq x.name k then some x.commit else before) r d.1
last_commit-Rearranged k before (swap {x = x} {y = y} {xs = es}) d =
    ap (last_commit k es) (ground (arith, text_eq_iff x.name k, text_eq_iff y.name k, d.0.0))
last_commit-Rearranged k before (chain r s) d =
    last_commit-Rearranged k before r d
    ∙ last_commit-Rearranged k before s (Rearranged-DistinctKeys entry_name r d)

absent-entries_of :
    (k : Text) (m : GoMap Text) → lookup k m ≡ none → All (λ e. k ≢ entry_name e) (entries_of m)
unfolding entries_of lookup
absent-entries_of k [] h = tt
absent-entries_of k ((j, v) ∷ m) h =
    ((λ e. ground (arith, text_eq_iff j k)), absent-entries_of k m (ground arith))

entries_of-DistinctKeys : (m : GoMap Text) → NodupKeys m → DistinctKeys entry_name (entries_of m)
unfolding entries_of
entries_of-DistinctKeys [] u = tt
entries_of-DistinctKeys ((j, v) ∷ m) u = (absent-entries_of j m u.0, entries_of-DistinctKeys m u.1)

last_commit-entries_of :
    (k : Text) (m : GoMap Text) (before : Option Text)
    → NodupKeys m
    → last_commit k (entries_of m) before ≡ elim (lookup k m) [ none ↦ before | some v ↦ some v ]
unfolding last_commit entries_of lookup
last_commit-entries_of k [] before u = refl
last_commit-entries_of k ((j, v) ∷ m) before u = ground (
  arith,
  text_eq_iff j k,
  last_commit-entries_of k m before u.1,
  last_commit-entries_of k m (some v) u.1,
)

or_none : (o : Option Text) → elim o [ none ↦ none | some v ↦ some v ] ≡ o
or_none none = refl
or_none (some v) = refl

-- Reading back the slice that a manifest stores of a ref map, in which no key is twice, gives
-- every ref name the object that the map gave it.
pub entries_to_refs-refs_to_entries :
    (refs : GoMap Text) (k : Text)
    → NodupKeys refs
    → lookup k (entries_to_refs (refs_to_entries refs)) ≡ lookup k refs
unfolding entries_to_refs refs_to_entries lookup
entries_to_refs-refs_to_entries refs k u =
    lookup-assign_entries k [] (sort_by entry_name (entries_of refs))
    ∙ (sym (
          last_commit-Rearranged k none (sort_by-Rearranged entry_name (entries_of refs))
            (entries_of-DistinctKeys refs u))
        ∙ (last_commit-entries_of k refs none u ∙ or_none (lookup k refs)))

abbrev entry : Text → Text → RefEntry
entry k v = record { name = k; commit = v }

entries_of-remove :
    (k v : Text) (m : GoMap Text)
    → lookup k m ≡ some v
    → Rearranged (entries_of m) (entry k v ∷ entries_of (remove k m))
unfolding entries_of lookup remove
entries_of-remove k v [] h = cc
entries_of-remove k v ((j, w) ∷ m) h = elim (Bool-cases (text_eq j k)) [
  | inl e ↦
      let same : entry j w ≡ entry k v = ground (arith, text_eq_iff j k) in
      rw e (rw same (Rearranged-refl (entry k v ∷ entries_of m)))
  | inr e ↦ rw e (chain (keep (entries_of-remove k v m (ground arith))) swap)
]

entries_of-Rearranged :
    (a b : GoMap Text)
    → NodupKeys a
    → NodupKeys b
    → ((k : Text) → lookup k a ≡ lookup k b)
    → Rearranged (entries_of a) (entries_of b)
unfolding entries_of lookup
entries_of-Rearranged [] [] ua ub h = none_left
entries_of-Rearranged [] ((i, w) ∷ b) ua ub h = absurd (ground (arith, h i, text_eq_refl i))
entries_of-Rearranged ((j, v) ∷ a) b ua ub h =
    let found : lookup j b ≡ some v = ground (arith, h j, text_eq_refl j) in
    chain
      (keep (
        entries_of-Rearranged a (remove j b) ua.1 (remove-NodupKeys j b ub)
          (λ k. ground (arith, h k, lookup-remove k j b ub, text_eq_iff j k))))
      (Rearranged-symm (entries_of-remove j v b found))

-- What is signed does not depend on the order in which Go ranges over the map: two maps in which
-- no key is twice and that give every name the same object are stored as one slice, which is
-- sorted by name.
pub refs_to_entries_canonical :
    (a b : GoMap Text)
    → NodupKeys a
    → NodupKeys b
    → ((k : Text) → lookup k a ≡ lookup k b)
    → (refs_to_entries a ≡ refs_to_entries b) × IsSorted entry_name (refs_to_entries a)
unfolding refs_to_entries
refs_to_entries_canonical a b ua ub h = (
  sort_by_unique entry_name (entries_of-Rearranged a b ua ub h) (entries_of-DistinctKeys a ua),
  sort_by-IsSorted entry_name (entries_of a),
)
