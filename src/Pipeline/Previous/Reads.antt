-- ===== src/Pipeline/Previous/Reads.antt =====
-- What the loop over the previous manifests depends on: the manifests that it sets out to read.
use mathlib.Core.Path.{subst}
use gitdr.Common.{
  ℕ, ◌≡◌, refl, ◌∙◌, inl, inr, Bool, Option, none, some, List, [], ◌∷◌, ◌++◌, arith, Text, GoMap,
  codes, ltb, Bool-cases, Option-cases, ℤ, All, if◌then◌else◌,
}
use gitdr.Pipeline.Manifest.{RepoEntry}
use gitdr.Pipeline.Manifests.{Object, named_at, max_manifest_bytes}
use gitdr.Pipeline.Manifests.Loader.{Capped-cases}
use gitdr.Pipeline.Manifests.Read.{
  Store, Codecs, ManifestHead, oversized, read_capped, check_signature, check_signed,
  read_manifest_bytes, load_manifest, read_manifest_entries,
}
use gitdr.Pipeline.Previous.{
  PreviousState, holds_key, decide_one, decide_entries, all_decided, one_more, trying, stops_at,
  read_previous, previous_loop, deciding,
}
use gitdr.Pipeline.Recorded.{listed_size}

-- The two stores hold the same manifest and the same signature there.
abbrev pub Agree : Store → Store → Text → Type 0
Agree st other key =
    (other.get key ≡ st.get key) × (other.get (key ++ codes ".sig") ≡ st.get (key ++ codes ".sig"))

pub read-decide_entries :
    (clock : Text → ℕ) (head : ManifestHead) (es : List RepoEntry) (s : PreviousState)
    → ((decide_entries clock head es s).read ≡ s.read)
      × ((decide_entries clock head es s).tried ≡ s.tried)
unfolding decide_entries
read-decide_entries clock head [] s = (refl, refl)
read-decide_entries clock head (e ∷ es) s =
    let (reads, tries) =
      read-decide_entries clock head es
        (if holds_key e.slug s.decided then s else decide_one clock head e s) in
    (reads ∙ ground arith, tries ∙ ground arith)

read_capped-same :
    (st other : Store) (key : Text) (limit : ℕ)
    → other.get key ≡ st.get key
    → read_capped other key limit ≡ read_capped st key limit
unfolding read_capped
read_capped-same st other key limit h = rw (read_capped, h) refl

check_signed-same :
    (c : Codecs) (st other : Store) (key_of : Option Text) (key raw : Text)
    → other.get (key ++ codes ".sig") ≡ st.get (key ++ codes ".sig")
    → check_signed c other key_of key raw ≡ check_signed c st key_of key raw
unfolding check_signed check_signature
check_signed-same c st other none key raw h = refl
check_signed-same c st other (some pub_key) key raw h =
    rw (check_signature, read_capped-same st other (key ++ codes ".sig") _ h) refl

read_manifest_bytes-same :
    (c : Codecs) (st other : Store) (key_of : Option Text) (key : Text)
    → Agree st other key
    → read_manifest_bytes c other key_of key ≡ read_manifest_bytes c st key_of key
unfolding read_manifest_bytes
read_manifest_bytes-same c st other key_of key (body, sig) =
    let same = read_capped-same st other key max_manifest_bytes body in
    elim (Capped-cases (read_capped st key max_manifest_bytes)) [
      | inl (raw, e) ↦
          rw (read_manifest_bytes, same, e) (check_signed-same c st other key_of key raw sig)
      | inr (inl e) ↦ rw (read_manifest_bytes, same, e) refl
      | inr (inr e) ↦ rw (read_manifest_bytes, same, e) refl
    ]

read_manifest_entries-same :
    (c : Codecs) (st other : Store) (key_of : Option Text) (key : Text) (keeps : RepoEntry → Bool)
    → Agree st other key
    → read_manifest_entries c other key_of key keeps ≡ read_manifest_entries c st key_of key keeps
unfolding read_manifest_entries load_manifest
read_manifest_entries-same c st other key_of key keeps agree =
    rw (read_manifest_entries, load_manifest, read_manifest_bytes-same c st other key_of key agree)
      refl

module _ (c : Codecs) (pub_key : Text) (retention : ℤ) (clock : Text → Text → ℕ) (now : ℕ)
    (selected : Option (GoMap Bool)) (objs : List Object) where
  abbrev loop : Store → List Text → PreviousState → PreviousState
  loop st keys s = previous_loop c st pub_key retention clock now selected objs keys s

  read_previous-same :
      (st other : Store) (key : Text) (s : PreviousState)
      → Agree st other key
      → read_previous c other pub_key retention clock now selected objs key s
        ≡ read_previous c st pub_key retention clock now selected objs key s
  unfolding read_previous
  read_previous-same st other key s h = elim (Option-cases (oversized (listed_size objs key 0))) [
    | inr (e, big) ↦ rw (read_previous, big) refl
    | inl fits ↦
        rw
          (
            read_previous,
            fits,
            read_manifest_entries-same c st other (some pub_key) key (deciding s.decided selected)
                h,
          )
          refl
  ]

  -- What holds of every manifest that was tried in the end holds of those tried so far.
  loop-tried :
      (P : Text → Type 0) (st : Store) (keys : List Text) (s : PreviousState)
      → All P (loop st keys s).tried
      → All P s.tried
  unfolding previous_loop
  loop-tried P st [] s = λ h. h
  loop-tried P st (key ∷ keys) s = elim (Option-cases (named_at key)) [
    | inl n ↦ rw (n, previous_loop) (loop-tried P st keys s)
    | inr (finished, n) ↦ elim (Bool-cases (ltb now finished)) [
      | inl l ↦ rw (n, previous_loop) (rw l (loop-tried P st keys s))
      | inr l ↦ elim (Bool-cases (stops_at c st pub_key retention clock now selected finished s)) [
        | inl stop ↦ rw (n, previous_loop) (rw l (rw stop (λ h. h)))
        | inr go ↦
            elim (Option-cases
              (read_previous c st pub_key retention clock now selected objs key s)) [
                | inl r ↦
                    rw (n, previous_loop)
                      (rw l
                        (rw go (rw r (λ h. (loop-tried P st keys (one_more (trying key s)) h).1))))
                | inr (m, r) ↦
                    let s' : PreviousState =
                      decide_entries (clock key) m.head m.repos (one_more (trying key s)) in
                    let back : All P s'.tried → All P s.tried = λ h.
                      (subst (All P)
                        (read-decide_entries (clock key) m.head m.repos (one_more (trying key s))).1
                        h).1 in
                    elim (Bool-cases (all_decided selected s')) [
                      | inl done ↦ rw (n, previous_loop) (rw l (rw go (rw r (rw done back))))
                      | inr on ↦
                          rw (n, previous_loop)
                            (rw l (rw go (rw r (rw on (λ h. back (loop-tried P st keys s' h))))))
                    ]
              ]
      ]
    ]
  ]

  pub loop-same :
      (st other : Store) (keys : List Text) (s : PreviousState)
      → All (Agree st other) (loop st keys s).tried
      → loop other keys s ≡ loop st keys s
  unfolding previous_loop
  loop-same st other [] s = λ h. refl
  loop-same st other (key ∷ keys) s = elim (Option-cases (named_at key)) [
    | inl n ↦ rw (n, previous_loop) (loop-same st other keys s)
    | inr (finished, n) ↦ elim (Bool-cases (ltb now finished)) [
      | inl l ↦ rw (n, previous_loop) (rw l (loop-same st other keys s))
      | inr l ↦ elim (Bool-cases (stops_at c st pub_key retention clock now selected finished s)) [
        | inl stop ↦ rw (n, previous_loop) (rw l (rw stop (λ h. refl)))
        | inr go ↦
            let s1 : PreviousState = one_more (trying key s) in
            let same = read_previous-same st other key s in
            elim (Option-cases
              (read_previous c st pub_key retention clock now selected objs key s)) [
                | inl r ↦
                    rw (n, previous_loop)
                      (rw l (
                        rw go (
                          rw r (λ h.
                            let agree = (loop-tried (Agree st other) st keys s1 h).0 in
                            rw (same agree, r) (loop-same st other keys s1 h)))))
                | inr (m, r) ↦
                    let s' : PreviousState = decide_entries (clock key) m.head m.repos s1 in
                    let agree : All (Agree st other) s'.tried → Agree st other key = λ h.
                      (subst (All (Agree st other))
                        (read-decide_entries (clock key) m.head m.repos s1).1 h).0 in
                    elim (Bool-cases (all_decided selected s')) [
                      | inl done ↦
                          rw (n, previous_loop)
                            (rw l (rw go (rw r (rw done (λ h. rw (same (agree h), r, done) refl)))))
                      | inr on ↦
                          rw (n, previous_loop)
                            (rw l (
                              rw go (
                                rw r (
                                  rw on (λ h.
                                    rw
                                      (
                                        same (agree (loop-tried (Agree st other) st keys s' h)),
                                        r,
                                        on,
                                      )
                                      (loop-same st other keys s' h))))))
                    ]
              ]
      ]
    ]
  ]
