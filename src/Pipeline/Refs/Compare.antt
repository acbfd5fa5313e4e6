-- ===== src/Pipeline/Refs/Compare.antt =====
-- What `compareRefs` counts, and when it finds nothing wrong.
use gitdr.Common.{
  ℕ, ◌+◌, ◌≡◌, refl, ◌∙◌, ◌≢◌, ◌↔◌, ◌⊎◌, inl, inr, Bool, true, false, not, ◌&&◌, ◌||◌, and_split,
  none, some, List, [], ◌∷◌, ◌++◌, arith, Text, text_eq, text_eq_iff, equal_fold, lookup, GoMap,
  length, length-append, is_nil, All, Member, here, there, if◌then◌else◌, Bool-cases, Option-cases,
  Rearranged-All, Rearranged-symm, sort_by-Rearranged, Rearranged-length, sort_by,
}
use gitdr.Pipeline.Refs.{
  BundleRef, RefComparison, comparison_ok, head_ref, candidates, clonable, search_candidates,
  compare_one, compare_loop, compare_refs,
}

-- Every declared ref is counted once.
abbrev total : RefComparison → ℕ
total c = c.matched + length c.mismatches + length c.unreferenced

total-compare_one :
    (restored : GoMap Text) (head : Text) (c : RefComparison) (d : BundleRef)
    → total (compare_one restored head c d) ≡ total c + 1
unfolding compare_one
total-compare_one restored head c d = ground (
  arith,
  length-append c.mismatches (record { ref = d.name; want = d.oid; got = [] } ∷ []),
  length-append c.mismatches (record { ref = d.name; want = d.oid; got = head } ∷ []),
  length-append c.mismatches (
      record {
        ref = d.name;
        want = d.oid;
        got = (search_candidates restored d.oid (candidates d.name) []).0;
      }
      ∷ []),
  length-append c.unreferenced (d.name ∷ []),
)

total-compare_loop :
    (restored : GoMap Text) (head : Text) (c : RefComparison) (ds : List BundleRef)
    → total (compare_loop restored head c ds) ≡ total c + length ds
unfolding compare_loop
total-compare_loop restored head c [] = omega arith
total-compare_loop restored head c (d ∷ ds) = omega (
  arith,
  total-compare_loop restored head (compare_one restored head c d) ds,
  total-compare_one restored head c d,
)

declared-compare_one :
    (restored : GoMap Text) (head : Text) (c : RefComparison) (d : BundleRef)
    → (compare_one restored head c d).declared ≡ c.declared
unfolding compare_one
declared-compare_one restored head c d = ground arith

declared-compare_loop :
    (restored : GoMap Text) (head : Text) (c : RefComparison) (ds : List BundleRef)
    → (compare_loop restored head c ds).declared ≡ c.declared
unfolding compare_loop
declared-compare_loop restored head c [] = refl
declared-compare_loop restored head c (d ∷ ds) =
    declared-compare_loop restored head (compare_one restored head c d) ds
    ∙ declared-compare_one restored head c d

-- Whatever the header, the restored refs and HEAD are, the comparison's `Declared` is the number
-- of header lines, and it is the sum of the matched, the mismatched and the unreferenced ones.
pub compare_refs-accounts :
    (declared : List BundleRef) (restored : GoMap Text) (head : Text)
    → let c = compare_refs declared restored head in
      (c.declared ≡ length declared)
      × (c.matched + length c.mismatches + length c.unreferenced ≡ c.declared)
unfolding compare_refs
compare_refs-accounts declared restored head =
    (e, total-compare_loop restored head _ sorted ∙ omega (arith, e, same))
  where
    sorted : List BundleRef
    sorted = sort_by (λ (d : BundleRef). d.name) declared

    same : length declared ≡ length sorted
    same = Rearranged-length (sort_by-Rearranged (λ (d : BundleRef). d.name) declared)

    e : (compare_refs declared restored head).declared ≡ length declared
    e = declared-compare_loop restored head _ sorted

-- The ref stands at the declared object in a place where a clone may put it.
abbrev pub Landed : GoMap Text → Text → List Text → Type 0
Landed restored oid places =
    (place : Text) × Member place places
    × ((got : Text) × (lookup place restored ≡ some got) × (equal_fold got oid ≡ true))

-- No such place holds an object for it.
abbrev pub Missing : GoMap Text → List Text → Type 0
Missing restored places =
    All (λ place. (lookup place restored ≡ none) ⊎ (lookup place restored ≡ some [])) places

-- What a restore owes one declared ref.
abbrev pub Accounted : GoMap Text → Text → BundleRef → Type 0
Accounted restored head d =
    ((d.name ≡ head_ref) × (head ≢ []) × (equal_fold head d.oid ≡ true))
    ⊎ ((d.name ≢ head_ref)
        × (Landed restored d.oid (candidates d.name)
            ⊎ (Missing restored (candidates d.name) × (clonable d.name ≡ false))))

search_candidates-Landed :
    (restored : GoMap Text) (oid : Text) (places : List Text) (found : Text)
    → (search_candidates restored oid places found).1 ≡ true
    → Landed restored oid places
unfolding search_candidates
search_candidates-Landed restored oid [] found h = cc
search_candidates-Landed restored oid (p ∷ places) found h =
    elim (Option-cases (lookup p restored)) [
      | inl e ↦
          let (q, m, l) =
            search_candidates-Landed restored oid places found (rw (e, search_candidates) at h) in
          (q, there m, l)
      | inr (got, e) ↦ elim (Bool-cases (equal_fold got oid)) [
        | inl f ↦ (p, here, (got, e, f))
        | inr f ↦
            let (q, m, l) =
              search_candidates-Landed restored oid places (if is_nil found then got else found)
                (ground arith) in
            (q, there m, l)
      ]
    ]

Landed-search_candidates :
    (restored : GoMap Text) (oid place got : Text) (places : List Text) (found : Text)
    → Member place places
    → lookup place restored ≡ some got
    → equal_fold got oid ≡ true
    → (search_candidates restored oid places found).1 ≡ true
unfolding search_candidates
Landed-search_candidates restored oid place got [] found m e f = elim m [ ]
Landed-search_candidates restored oid place got (p ∷ places) found here e f =
    rw (e, search_candidates) (rw f refl)
Landed-search_candidates restored oid place got (p ∷ places) found (there m) e f =
    elim (Option-cases (lookup p restored)) [
      | inl a ↦
          rw (a, search_candidates)
            (Landed-search_candidates restored oid place got places found m e f)
      | inr (g, a) ↦
          let rest =
            Landed-search_candidates restored oid place got places
              (if is_nil found then g else found) m e f in
          ground arith
    ]

search_candidates_keeps :
    (restored : GoMap Text) (oid : Text) (places : List Text) (c : ℕ) (found : Text)
    → (search_candidates restored oid places (c ∷ found)).0 ≡ c ∷ found
unfolding search_candidates
search_candidates_keeps restored oid [] c found = refl
search_candidates_keeps restored oid (p ∷ places) c found =
    ground (arith, search_candidates_keeps restored oid places c found)

-- What the search brings back when nothing matched: empty exactly when nothing was found.
search_candidates-Missing :
    (restored : GoMap Text) (oid : Text) (places : List Text)
    → (search_candidates restored oid places []).1 ≡ false
    → (search_candidates restored oid places []).0 ≡ []
    → Missing restored places
unfolding search_candidates
search_candidates-Missing restored oid [] n z = tt
search_candidates-Missing restored oid (p ∷ places) n z = elim (Option-cases (lookup p restored)) [
  | inl a ↦ (
    inl a,
    search_candidates-Missing restored oid places (rw (a, search_candidates) at n)
        (rw (a, search_candidates) at z),
  )
  | inr ([], a) ↦
      (inr a, search_candidates-Missing restored oid places (ground arith) (ground arith))
  | inr (c ∷ got, a) ↦ absurd (ground (arith, search_candidates_keeps restored oid places c got))
]

Missing-search_candidates :
    (restored : GoMap Text) (oid : Text) (places : List Text)
    → Missing restored places
    → (search_candidates restored oid places []).0 ≡ []
unfolding search_candidates
Missing-search_candidates restored oid [] h = refl
Missing-search_candidates restored oid (p ∷ places) h =
    ground (arith, Missing-search_candidates restored oid places h.1)

is_nil-append : {A : Type 0} (xs : List A) (x : A) → is_nil (xs ++ x ∷ []) ≡ false
is_nil-append [] x = refl
is_nil-append (_ ∷ xs) x = refl

abbrev found_by : GoMap Text → BundleRef → Text × Bool
found_by restored d = search_candidates restored d.oid (candidates d.name) []

-- Whether one declared ref adds no mismatch.
abbrev clean : GoMap Text → Text → BundleRef → Bool
clean restored head d =
    if text_eq d.name head_ref
    then not (is_nil head) && equal_fold head d.oid
    else (found_by restored d).1 || (is_nil (found_by restored d).0 && not (clonable d.name))

is_nil-compare_one :
    (restored : GoMap Text) (head : Text) (c : RefComparison) (d : BundleRef)
    → is_nil (compare_one restored head c d).mismatches
      ≡ (is_nil c.mismatches && clean restored head d)
unfolding compare_one
is_nil-compare_one restored head c d = ground (
  arith,
  is_nil-append c.mismatches (record { ref = d.name; want = d.oid; got = [] }),
  is_nil-append c.mismatches (record { ref = d.name; want = d.oid; got = head }),
  is_nil-append c.mismatches (record { ref = d.name; want = d.oid; got = (found_by restored d).0 }),
)

is_nil-eq : {A : Type 0} (xs : List A) → is_nil xs ≡ true → xs ≡ []
is_nil-eq [] h = refl
is_nil-eq (_ ∷ xs) h = cc

clean-Accounted :
    (restored : GoMap Text) (head : Text) (d : BundleRef)
    → clean restored head d ≡ true
    → Accounted restored head d
clean-Accounted restored head d h = elim (Bool-cases (text_eq d.name head_ref)) [
  | inl e ↦ inl ((text_eq_iff _ _).0 e, λ z. (ground arith), ground arith)
  | inr e ↦ inr (
    λ z. (ground (arith, text_eq_iff d.name head_ref)),
    elim (Bool-cases (found_by restored d).1) [
      | inl m ↦ inl (search_candidates-Landed restored d.oid (candidates d.name) [] m)
      | inr m ↦ inr (
        search_candidates-Missing restored d.oid (candidates d.name) m (is_nil-eq _ (ground arith)),
        ground arith,
      )
    ],
  )
]

Accounted-clean :
    (restored : GoMap Text) (head : Text) (d : BundleRef)
    → Accounted restored head d
    → clean restored head d ≡ true
Accounted-clean restored head d (inl (n, z, f)) =
    rw ((text_eq_iff d.name head_ref).1 n) (ground arith)
Accounted-clean restored head d (inr (n, inl (place, m, (got, e, f)))) = ground (
  arith,
  text_eq_iff d.name head_ref,
  Landed-search_candidates restored d.oid place got (candidates d.name) [] m e f,
)
Accounted-clean restored head d (inr (n, inr (m, k))) = ground (
  arith,
  text_eq_iff d.name head_ref,
  Missing-search_candidates restored d.oid (candidates d.name) m,
)

is_nil-compare_loop :
    (restored : GoMap Text) (head : Text) (c : RefComparison) (ds : List BundleRef)
    → (is_nil (compare_loop restored head c ds).mismatches ≡ true)
      ↔ ((is_nil c.mismatches ≡ true) × All (Accounted restored head) ds)
unfolding compare_loop
is_nil-compare_loop restored head c [] = (λ h. (h, tt), λ h. h.0)
is_nil-compare_loop restored head c (d ∷ ds) =
    let ih = is_nil-compare_loop restored head (compare_one restored head c d) ds in
    let one = is_nil-compare_one restored head c d in
    (
      λ h.
          let both =
            and_split (is_nil c.mismatches) (clean restored head d) (rw (← one) (ih.0 h).0) in
          (both.0, (clean-Accounted restored head d both.1, (ih.0 h).1)),
      λ h. ih.1 (one ∙ (rw (h.0, Accounted-clean restored head d h.1.0)), h.1.1),
    )

-- The comparison is OK exactly when every ref the bundle declares is accounted for: HEAD by the
-- restored repository's own HEAD, any other by the declared object in one of the places a clone
-- may put it, or, where a clone's refspec creates no such ref, by its absence from all of them.
pub comparison_ok-compare_refs :
    (declared : List BundleRef) (restored : GoMap Text) (head : Text)
    → (comparison_ok (compare_refs declared restored head) ≡ true)
      ↔ All (Accounted restored head) declared
unfolding comparison_ok compare_refs
comparison_ok-compare_refs declared restored head =
    let sorts = sort_by-Rearranged (λ (d : BundleRef). d.name) declared in
    let loop = is_nil-compare_loop restored head _ (sort_by (λ (d : BundleRef). d.name) declared) in
    (
      λ h. Rearranged-All (Accounted restored head) (Rearranged-symm sorts) (loop.0 h).1,
      λ h. loop.1 (refl, Rearranged-All (Accounted restored head) sorts h),
    )
