-- ===== src/Pipeline/CopiedRefs/Holds.antt =====
-- When a clone and a bundle pass.
use gitdr.Common.{
  ◌≡◌, refl, ◌∙◌, ap, ◌≢◌, ◌↔◌, ◌⊎◌, inl, inr, Bool, true, false, Option, none, some, List, [], ◌∷◌,
  arith, Text, GoMap, lookup, insert, insert-NodupKeys, NodupKeys, is_nil, Bool-cases, Option-cases,
  All, sort_by, sort_by-Rearranged, Rearranged-All, Rearranged-symm,
}
use gitdr.Pipeline.CopiedRefs.{
  lacking_refs, still_there, check_lacking, clone_holds, declared_refs, bundle_holds,
}
use gitdr.Pipeline.Manifests.{whole}
use gitdr.Pipeline.Refs.{BundleRef, clonable}
use gitdr.Pipeline.Unchanged.SameRefs.{Filled, same_refs_iff}
use gitdr.Pipeline.Unchanged.{same_refs}

-- The source was asked again, and no longer lists the ref.
abbrev pub Gone : Option (GoMap Text) → Text → Type 0
Gone now name = (refs : GoMap Text) × (now ≡ some refs) × (lookup name refs ≡ none)

still_there-All :
    (now : GoMap Text) (names : List Text)
    → (is_nil (still_there now names) ≡ true) ↔ All (λ name. lookup name now ≡ none) names
unfolding still_there
still_there-All now [] = (λ h. tt, λ h. refl)
still_there-All now (name ∷ names) =
    let ih = still_there-All now names in
    elim (Option-cases (lookup name now)) [
      | inl e ↦ (λ h. (e, ih.0 (ground (arith, e, h))), λ h. ground (arith, e, ih.1 h.1))
      | inr (v, e) ↦ (λ h. absurd (ground (arith, e, h)), λ h. absurd (ground (arith, e, h.0)))
    ]

Gone-lookup : (now : GoMap Text) (name : Text) → Gone (some now) name → lookup name now ≡ none
Gone-lookup now name (refs, e, l) =
    let same : now ≡ refs = ground (arith, e) in ap (lookup name) same ∙ l

All-Gone :
    (now : GoMap Text) (names : List Text)
    → All (λ name. lookup name now ≡ none) names ↔ All (Gone (some now)) names
All-Gone now [] = (λ h. tt, λ h. tt)
All-Gone now (name ∷ names) =
    let ih = All-Gone now names in
    (λ h. ((now, refl, h.0), ih.0 h.1), λ (g, h). (Gone-lookup now name g, ih.1 h))

check_lacking-Gone :
    (names : List Text) (now : Option (GoMap Text))
    → (check_lacking names now ≡ none) ↔ All (Gone now) names
unfolding check_lacking
check_lacking-Gone [] now = (λ h. tt, λ h. refl)
check_lacking-Gone (name ∷ names) none =
    (λ h. absurd (ground (arith, h)), λ h. absurd (ground (arith, h.0.1)))
check_lacking-Gone (name ∷ names) (some refs) =
    let still = still_there-All refs (name ∷ names) in
    let gone = All-Gone refs (name ∷ names) in
    elim (Bool-cases (is_nil (still_there refs (name ∷ names)))) [
      | inl e ↦ (λ h. gone.0 (still.0 e), λ h. ground (arith, e))
      | inr e ↦
          (λ h. absurd (ground (arith, e, h)), λ h. absurd (ground (arith, e, still.1 (gone.1 h))))
    ]

-- A ref the source advertised that the clone may be without.
abbrev pub Excused : GoMap Text → Option (GoMap Text) → Text → Type 0
Excused copied now name = (lookup name copied ≢ none) ⊎ (clonable name ≡ false) ⊎ Gone now name

no_excuse :
    (P : Type 0) (found : Option Text) (can : Bool)
    → found ≡ none
    → can ≡ true
    → (found ≢ none) ⊎ (can ≡ false) ⊎ P
    → P
no_excuse P found can e c (inl g) = absurd (g e)
no_excuse P found can e c (inr (inl g)) = absurd (ground (arith, c, g))
no_excuse P found can e c (inr (inr p)) = p

lacking_refs-All :
    (P : Text → Type 0) (copied advertised : GoMap Text)
    → All P (lacking_refs copied advertised)
      ↔ All
          (λ (p : Text × Text). (lookup p.0 copied ≢ none) ⊎ (clonable p.0 ≡ false) ⊎ P p.0)
          advertised
unfolding lacking_refs
lacking_refs-All P copied [] = (λ h. tt, λ h. tt)
lacking_refs-All P copied ((name, oid) ∷ advertised) =
    let ih = lacking_refs-All P copied advertised in
    elim (Option-cases (lookup name copied)) [
      | inr (v, e) ↦ rw e (λ h. (inl (λ z. ground (arith, e, z)), ih.0 h), λ h. ih.1 h.1)
      | inl e ↦ elim (Bool-cases (clonable name)) [
        | inr c ↦ rw e (rw c (λ h. (inr (inl refl), ih.0 h), λ h. ih.1 h.1))
        | inl c ↦ rw e (
            rw c (
              λ h. (inr (inr h.0), ih.0 h.1),
              λ h. (no_excuse (P name) none true refl refl h.0, ih.1 h.1),
            ))
      ]
    ]

-- A clone passes exactly where every ref the source advertised before it is one the clone holds, one
-- that a clone does not create, or one that the source, asked again, no longer lists: a question that
-- fails excuses nothing.
pub clone_holds_iff :
    (advertised copied : GoMap Text) (now : Option (GoMap Text))
    → (clone_holds advertised copied now ≡ none)
      ↔ All (λ (p : Text × Text). Excused copied now p.0) advertised
unfolding clone_holds
clone_holds_iff advertised copied now =
    let names : List Text = lacking_refs copied advertised in
    let sorts = sort_by-Rearranged whole names in
    let gone = check_lacking-Gone (sort_by whole names) now in
    let all = lacking_refs-All (Gone now) copied advertised in
    (
      λ h. all.0 (Rearranged-All (Gone now) (Rearranged-symm sorts) (gone.0 h)),
      λ h. gone.1 (Rearranged-All (Gone now) sorts (all.1 h)),
    )

declared_refs-NodupKeys :
    (out : GoMap Text) (heads : List BundleRef)
    → NodupKeys out
    → NodupKeys (declared_refs out heads)
unfolding declared_refs
declared_refs-NodupKeys out [] u = u
declared_refs-NodupKeys out (h ∷ heads) u =
    declared_refs-NodupKeys (insert h.name h.oid out) heads (insert-NodupKeys h.name h.oid out u)

-- A bundle passes exactly where its header was read and declares every ref that the clone holds, at
-- the object the clone has it at, and no other: for refs of which no name is twice and no object id
-- is empty.
pub bundle_holds_iff :
    (heads : Option (List BundleRef)) (copied : GoMap Text)
    → NodupKeys copied
    → Filled copied
    → (bundle_holds heads copied ≡ none) ↔ (
        (lines : List BundleRef) × (heads ≡ some lines)
        × ((k : Text) → lookup k copied ≡ lookup k (declared_refs [] lines)))
unfolding bundle_holds
bundle_holds_iff none copied u f =
    (λ h. absurd (ground (arith, h)), λ h. absurd (ground (arith, h.1)))
bundle_holds_iff (some lines) copied u f =
    let declared : GoMap Text = declared_refs [] lines in
    let same = same_refs_iff copied declared u (declared_refs-NodupKeys [] lines tt) f in
    elim (Bool-cases (same_refs copied declared)) [
      | inl e ↦ (λ h. (lines, refl, same.0 e), λ h. ground (arith, e))
      | inr e ↦ (
        λ h. absurd (ground (arith, e, h)),
        λ (ls, q, k).
            let one : ls ≡ lines = ground (arith, q) in
            absurd
              (ground (arith, e, same.1 (λ n. k n ∙ ap (λ l. lookup n (declared_refs [] l)) one))),
      )
    ]
