-- ===== src/Pipeline/Previous/Newest.antt =====
-- The newest manifest that decides a repository is the one believed, and few are read.
use mathlib.Core.Path.{subst}
use gitdr.Common.{
  All, text_le, ℕ, length, ap, ◌≤◌, ◌≡◌, refl, sym, ◌∙◌, inl, inr, Bool, true, false, Option, none,
  some, List, [], ◌∷◌, ◌++◌, arith, Text, GoMap, text_eq, text_eq_iff, lookup, lookup-insert,
  if◌then◌else◌, ltb, Bool-cases, Option-cases, slash, ℤ,
}
use gitdr.Pipeline.Manifest.{RepoEntry}
use gitdr.Pipeline.Manifests.{Object, filed_manifests, named_at}
use gitdr.Pipeline.Manifests.Read.{Store, Codecs, ManifestHead, ManifestDoc}
use gitdr.Pipeline.Manifests.Newest.{Falls, filed_manifests-Falls, Falls-after}
use gitdr.Pipeline.Previous.Reads.{Agree, read-decide_entries, loop-same}
use gitdr.Pipeline.Previous.{
  PreviousState, previous_copy, holds_key, decide_one, decide_entries, all_decided, one_more,
  trying, stops_at, read_previous, previous_loop, load_previous, nothing_decided,
  max_previous_manifests,
}

-- The counter is the number of manifests tried, which is within the bound.
abbrev Counts : PreviousState → Type 0
Counts s = (s.read ≡ length s.tried) × (s.read ≤ max_previous_manifests)

decided_stays :
    (slug : Text) (clock : Text → ℕ) (head : ManifestHead) (es : List RepoEntry) (s : PreviousState)
    → holds_key slug s.decided ≡ true
    → (lookup slug (decide_entries clock head es s).out ≡ lookup slug s.out)
      × (holds_key slug (decide_entries clock head es s).decided ≡ true)
unfolding decide_entries
decided_stays slug clock head [] s d = (refl, d)
decided_stays slug clock head (e ∷ es) s d = elim (Bool-cases (holds_key e.slug s.decided)) [
  | inl old ↦ rw (old, decide_entries) (decided_stays slug clock head es s d)
  | inr new ↦
      let other : text_eq e.slug slug ≡ false = elim (Bool-cases (text_eq e.slug slug)) [
        | inr o ↦ o
        | inl same ↦ absurd (
            ground (
              arith,
              subst (λ k. holds_key k s.decided ≡ false) ((text_eq_iff e.slug slug).0 same) new,
            ))
      ] in
      let s' : PreviousState = decide_one clock head e s in
      let (o, k) =
        decided_stays slug clock head es s'
          (ground (arith, lookup-insert slug e.slug true s.decided)) in
      let kept : lookup slug s'.out ≡ lookup slug s.out =
        elim (Option-cases (previous_copy (clock e.slug) head e)) [
          | inl n ↦ ground (arith, n)
          | inr (c, n) ↦ ground (arith, n, lookup-insert slug e.slug c s.out)
        ] in
      rw (new, decide_entries) (o ∙ kept, k)
]

-- The first entry of a repository.
unfoldable pub first_entry : Text → List RepoEntry → Option RepoEntry
first_entry slug [] = none
first_entry slug (e ∷ es) = if text_eq e.slug slug then some e else first_entry slug es

decide_entries-first :
    (slug : Text) (clock : Text → ℕ) (head : ManifestHead) (es : List RepoEntry) (s : PreviousState)
    {e : RepoEntry}
    → holds_key slug s.decided ≡ false
    → lookup slug s.out ≡ none
    → first_entry slug es ≡ some e
    → (lookup slug (decide_entries clock head es s).out ≡ previous_copy (clock slug) head e)
      × (holds_key slug (decide_entries clock head es s).decided ≡ true)
unfolding decide_entries first_entry
decide_entries-first slug clock head [] s u n f = absurd (ground arith)
decide_entries-first slug clock head (x ∷ es) s {e} u n f =
    elim (Bool-cases (text_eq x.slug slug)) [
      | inl same ↦
          let k : slug ≡ x.slug = sym ((text_eq_iff x.slug slug).0 same) in
          let first : x ≡ e = ground (arith, same) in
          let undecided : holds_key x.slug s.decided ≡ false =
            subst (λ k. holds_key k s.decided ≡ false) k u in
          let s' : PreviousState = decide_one clock head x s in
          let (o, d) =
            decided_stays slug clock head es s'
              (ground (arith, lookup-insert slug x.slug true s.decided)) in
          let put : lookup slug s'.out ≡ previous_copy (clock x.slug) head x =
            elim (Option-cases (previous_copy (clock x.slug) head x)) [
              | inl q ↦ ground (arith, q)
              | inr (c, q) ↦ ground (arith, q, lookup-insert slug x.slug c s.out)
            ] in
          let spoken : previous_copy (clock x.slug) head x ≡ previous_copy (clock slug) head e =
            subst (λ k. previous_copy (clock k) head x ≡ previous_copy (clock slug) head e) k
              (subst (λ y. previous_copy (clock slug) head x ≡ previous_copy (clock slug) head y)
                first refl) in
          rw (undecided, decide_entries) (o ∙ (put ∙ spoken), d)
      | inr other ↦ elim (Bool-cases (holds_key x.slug s.decided)) [
        | inl old ↦
            rw (old, decide_entries)
              (decide_entries-first slug clock head es s u n (ground (arith, other)))
        | inr new ↦
            let s' : PreviousState = decide_one clock head x s in
            let out : lookup slug s'.out ≡ none =
              elim (Option-cases (previous_copy (clock x.slug) head x)) [
                | inl q ↦ ground (arith, q)
                | inr (c, q) ↦ ground (arith, q, lookup-insert slug x.slug c s.out)
              ] in
            rw (new, decide_entries)
              (decide_entries-first slug clock head es s'
                (ground (arith, lookup-insert slug x.slug true s.decided)) out
                (ground (arith, other)))
      ]
    ]

module _ (c : Codecs) (st : Store) (pub_key : Text) (retention : ℤ) (clock : Text → Text → ℕ)
    (now : ℕ) (selected : Option (GoMap Bool)) (objs : List Object) where
  abbrev loop : List Text → PreviousState → PreviousState
  loop keys s = previous_loop c st pub_key retention clock now selected objs keys s

  previous_loop-stays :
      (slug : Text) (keys : List Text) (s : PreviousState)
      → holds_key slug s.decided ≡ true
      → lookup slug (loop keys s).out ≡ lookup slug s.out
  unfolding previous_loop
  previous_loop-stays slug [] s d = refl
  previous_loop-stays slug (key ∷ keys) s d = elim (Option-cases (named_at key)) [
    | inl n ↦ rw (n, previous_loop) (previous_loop-stays slug keys s d)
    | inr (finished, n) ↦ elim (Bool-cases (ltb now finished)) [
      | inl l ↦ rw (n, previous_loop) (rw l (previous_loop-stays slug keys s d))
      | inr l ↦ elim (Bool-cases (stops_at c st pub_key retention clock now selected finished s)) [
        | inl stop ↦ rw (n, previous_loop) (rw l (rw stop refl))
        | inr go ↦
            elim (Option-cases
              (read_previous c st pub_key retention clock now selected objs key s)) [
                | inl r ↦
                    rw (n, previous_loop)
                      (rw l
                        (rw go (rw r (previous_loop-stays slug keys (one_more (trying key s)) d))))
                | inr (m, r) ↦
                    let s' : PreviousState =
                      decide_entries (clock key) m.head m.repos (one_more (trying key s)) in
                    let (o, d') =
                      decided_stays slug (clock key) m.head m.repos (one_more (trying key s)) d in
                    elim (Bool-cases (all_decided selected s')) [
                      | inl done ↦ rw (n, previous_loop) (rw l (rw go (rw r (rw done o))))
                      | inr on ↦
                          rw (n, previous_loop)
                            (rw l (rw go (rw r (rw on (previous_loop-stays slug keys s' d' ∙ o)))))
                    ]
              ]
      ]
    ]
  ]

  previous_loop-read : (keys : List Text) (s : PreviousState) → Counts s → Counts (loop keys s)
  unfolding previous_loop stops_at
  previous_loop-read [] s b = b
  previous_loop-read (key ∷ keys) s b = elim (Option-cases (named_at key)) [
    | inl n ↦ rw (n, previous_loop) (previous_loop-read keys s b)
    | inr (finished, n) ↦ elim (Bool-cases (ltb now finished)) [
      | inl l ↦ rw (n, previous_loop) (rw l (previous_loop-read keys s b))
      | inr l ↦ elim (Bool-cases (stops_at c st pub_key retention clock now selected finished s)) [
        | inl stop ↦ rw (n, previous_loop) (rw l (rw stop b))
        | inr go ↦
            let below : Counts (one_more (trying key s)) =
              (ground (arith, b.0), ground (arith, b.1)) in
            elim (Option-cases
              (read_previous c st pub_key retention clock now selected objs key s)) [
                | inl r ↦
                    rw (n, previous_loop)
                      (rw l
                        (rw go (rw r (previous_loop-read keys (one_more (trying key s)) below))))
                | inr (m, r) ↦
                    let s' : PreviousState =
                      decide_entries (clock key) m.head m.repos (one_more (trying key s)) in
                    let (reads, tries) =
                      read-decide_entries (clock key) m.head m.repos (one_more (trying key s)) in
                    let b' : Counts s' =
                      (reads ∙ below.0 ∙ sym (ap length tries), omega (arith, reads, below.1)) in
                    elim (Bool-cases (all_decided selected s')) [
                      | inl done ↦ rw (n, previous_loop) (rw l (rw go (rw r (rw done b'))))
                      | inr on ↦
                          rw (n, previous_loop)
                            (rw l (rw go (rw r (rw on (previous_loop-read keys s' b')))))
                    ]
              ]
      ]
    ]
  ]

-- The newest manifest that decides a repository is the one believed. Where the loop over the
-- manifests filed in a directory comes to one of them, reads it, and keeps an entry of a repository
-- that is undecided so far, what the loop ends with for the repository is what the first such entry
-- gives, a copy or none: no manifest behind it and no second entry changes it. Those behind it are no
-- newer: none has a later key, which states the instant of its finish.
pub previous_loop_newest :
    (c : Codecs) (st : Store) (pub_key : Text) (retention : ℤ) (clock : Text → Text → ℕ) (now : ℕ)
    (selected : Option (GoMap Bool)) (objs : List Object) (dir slug : Text) (newer : List Text)
    (key : Text) (keys : List Text) (finished : ℕ) (s : PreviousState) {m : ManifestDoc}
    {e : RepoEntry}
    → filed_manifests objs dir ≡ newer ++ (key ∷ keys)
    → named_at key ≡ some finished
    → ltb now finished ≡ false
    → stops_at c st pub_key retention clock now selected finished s ≡ false
    → read_previous c st pub_key retention clock now selected objs key s ≡ some m
    → holds_key slug s.decided ≡ false
    → lookup slug s.out ≡ none
    → first_entry slug m.repos ≡ some e
    → (lookup slug (previous_loop c st pub_key retention clock now selected objs (key ∷ keys) s).out
        ≡ previous_copy (clock key slug) m.head e)
      × All (λ k. text_le k key ≡ true) keys
unfolding previous_loop
previous_loop_newest c st pub_key retention clock now selected objs dir slug newer key keys finished
      s {m} split n l go r u z f =
    let s' : PreviousState = decide_entries (clock key) m.head m.repos (one_more (trying key s)) in
    let (o, d) =
      decide_entries-first slug (clock key) m.head m.repos (one_more (trying key s)) u z f in
    let older = Falls-after newer key keys (subst Falls split (filed_manifests-Falls objs dir)) in
    elim (Bool-cases (all_decided selected s')) [
      | inl done ↦ rw (n, previous_loop) (rw l (rw go (rw r (rw done (o, older)))))
      | inr on ↦
          rw (n, previous_loop)
            (rw l (
              rw go (
                rw r (
                  rw on (
                    (
                      previous_loop-stays c st pub_key retention clock now selected objs slug keys
                            s' d
                          ∙ o,
                      older,
                    ))))))
    ]

-- A run sets out to read at most ten previous manifests, whatever its directory holds, the ones that
-- it then refuses or cannot read included; and what it takes over depends on the listing and on
-- those manifests and their signatures alone. Over any other store that lists the same and holds the
-- same at their keys, it ends with the same.
pub load_previous-read :
    (c : Codecs) (st : Store) (pub_key : Option Text) (retention : ℤ) (clock : Text → Text → ℕ)
    (now : ℕ) (selected : Option (GoMap Bool)) (dir : Text)
    → let out = load_previous c st pub_key retention clock now selected dir in
      (length out.tried ≤ 10)
      × ((other : Store)
          → other.list (dir ++ (slash ∷ [])) ≡ st.list (dir ++ (slash ∷ []))
          → All (Agree st other) out.tried
          → load_previous c other pub_key retention clock now selected dir ≡ out)
unfolding load_previous
load_previous-read c st none retention clock now selected dir =
    (omega arith, λ other lists agree. refl)
load_previous-read c st (some pub_key) retention clock now selected dir =
    elim (Option-cases (st.list (dir ++ (slash ∷ [])))) [
      | inl n ↦
          rw (n, load_previous) (omega arith, λ other lists agree. rw (load_previous, lists) refl)
      | inr (objs, n) ↦
          let keys = filed_manifests objs dir in
          let (counted, few) =
            previous_loop-read c st pub_key retention clock now selected objs keys nothing_decided
              (refl, omega arith) in
          rw (n, load_previous)
            (
              omega (arith, counted, few),
              λ other lists agree.
                  rw (load_previous, lists)
                    (loop-same c pub_key retention clock now selected objs st other keys
                      nothing_decided agree),
            )
    ]
