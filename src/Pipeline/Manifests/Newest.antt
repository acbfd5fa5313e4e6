-- ===== src/Pipeline/Manifests/Newest.antt =====
-- What the newest manifest is.
use gitdr.Common.{
  ℕ, ◌≤◌, ◌≡◌, refl, sym, ◌⊎◌, inl, inr, true, ◌&&◌, Option, some, List, [], ◌∷◌, ◌++◌, arith, Text,
  text_eq, text_eq_iff, text_le, text_le_refl, All, Bool-cases, Option-cases, ltb, path_dir,
  path_base, sort_by, IsSorted, Rearranged-All, Rearranged-symm, sort_by-Rearranged,
  sort_by-IsSorted, slash, reverse-Rearranged, chain,
}
use mathlib.Core.Path.{subst}
use mathlib.Core.List.{reverse, reverse-cons}
use gitdr.Pipeline.Manifests.Filed.{Filed, filed_manifests-Filed}
use gitdr.Pipeline.Manifests.{
  Object, filed_keys, filed_manifests, manifest_name, named_at, newest_loop, newest_manifest, whole,
}

-- Its name is an instant that has come.
abbrev pub Due : ℕ → Text → Type 0
Due now key = (at : ℕ) × (named_at key ≡ some at) × (at ≤ now)

-- Every later key in the list is not after this one.
abbrev pub Falls : List Text → Type 0
Falls [] = Unit
Falls (x ∷ xs) = All (λ y. text_le y x ≡ true) xs × Falls xs

Falls-append :
    (xs : List Text) (x : Text)
    → Falls xs
    → All (λ y. text_le x y ≡ true) xs
    → Falls (xs ++ (x ∷ []))
Falls-append [] x h k = (tt, tt)
Falls-append (y ∷ xs) x h k = (join xs h.0, Falls-append xs x h.1 k.1)
  where
    join :
        (zs : List Text)
        → All (λ z. text_le z y ≡ true) zs
        → All (λ z. text_le z y ≡ true) (zs ++ (x ∷ []))
    join [] g = (k.0, tt)
    join (z ∷ zs) g = (g.0, join zs g.1)

reverse-Falls : (xs : List Text) → IsSorted whole xs → Falls (reverse xs)
reverse-Falls [] h = tt
reverse-Falls (x ∷ xs) h = rw reverse-cons (
    Falls-append (reverse xs) x (reverse-Falls xs h.1)
      (Rearranged-All (λ y. text_le x y ≡ true) (reverse-Rearranged xs) h.0))

pub filed_manifests-Falls : (objs : List Object) (dir : Text) → Falls (filed_manifests objs dir)
unfolding filed_manifests
filed_manifests-Falls objs dir =
    let keys : List Text = filed_keys objs dir in
    reverse-Falls (sort_by whole keys) (sort_by-IsSorted whole keys)

pub Falls-after :
    (xs : List Text) (x : Text) (ys : List Text)
    → Falls (xs ++ (x ∷ ys))
    → All (λ y. text_le y x ≡ true) ys
Falls-after [] x ys h = h.0
Falls-after (_ ∷ xs) x ys h = Falls-after xs x ys h.1

-- What holds of every key that is filed holds of every listed object that is filed.
filed_keys_complete :
    (P : Text → Type 0) (objs : List Object) (dir : Text)
    → All P (filed_keys objs dir)
    → All (λ o. Filed dir o.key → P o.key) objs
unfolding filed_keys
filed_keys_complete P [] dir h = tt
filed_keys_complete P (o ∷ objs) dir h =
    elim (Bool-cases (text_eq (path_dir o.key) dir && manifest_name (path_base o.key))) [
      | inl e ↦
          let both : All P (o.key ∷ filed_keys objs dir) = rw e at h in
          ((λ _. both.0), filed_keys_complete P objs dir both.1)
      | inr e ↦ (
        (λ f. absurd (ground (arith, text_eq_iff (path_dir o.key) dir))),
        filed_keys_complete P objs dir (rw e at h),
      )
    ]

-- The first key that is due, of keys that fall.
abbrev Newest : (Text → Type 0) → ℕ → List Text → Text → Type 0
Newest P now keys r =
    ((r ≡ []) × All (λ k. Due now k → ⊥) keys)
    ⊎ (P r × Due now r × All (λ k. Due now k → text_le k r ≡ true) keys)

falls-Due :
    (r : Text) (now : ℕ) (keys : List Text)
    → All (λ y. text_le y r ≡ true) keys
    → All (λ k. Due now k → text_le k r ≡ true) keys
falls-Due r now [] h = tt
falls-Due r now (k ∷ keys) h = ((λ _. h.0), falls-Due r now keys h.1)

Newest-passed :
    (P : Text → Type 0) (k : Text) (keys : List Text) (now : ℕ)
    → (Due now k → ⊥)
    → Newest P now keys (newest_loop keys now)
    → Newest P now (k ∷ keys) (newest_loop keys now)
Newest-passed P k keys now not_due (inl (e, h)) = inl (e, (not_due, h))
Newest-passed P k keys now not_due (inr (p, d, h)) = inr (p, d, ((λ due. absurd (not_due due)), h))

newest_loop-Due :
    (k : Text) (keys : List Text) (now : ℕ)
    → (Due now k × (newest_loop (k ∷ keys) now ≡ k))
      ⊎ ((Due now k → ⊥) × (newest_loop (k ∷ keys) now ≡ newest_loop keys now))
unfolding newest_loop
newest_loop-Due k keys now = elim (Option-cases (named_at k)) [
  | inl e ↦ inr ((λ d. ground (arith, d.1)), rw (e, newest_loop) refl)
  | inr (at, e) ↦ elim (Bool-cases (ltb now at)) [
    | inl late ↦ inr ((λ d. ground (arith, d.1, d.2)), rw (e, newest_loop) (rw late refl))
    | inr due ↦ inl ((at, e, ground arith), rw (e, newest_loop) (rw due refl))
  ]
]

newest_loop-Newest :
    (P : Text → Type 0) (keys : List Text) (now : ℕ)
    → Falls keys
    → All P keys
    → Newest P now keys (newest_loop keys now)
newest_loop-Newest P [] now f h = inl (unfold newest_loop in refl, tt)
newest_loop-Newest P (k ∷ keys) now f h =
    let rest = newest_loop-Newest P keys now f.1 h.1 in
    elim (newest_loop-Due k keys now) [
      | inl (d, e) ↦
          subst (Newest P now (k ∷ keys)) (sym e)
            (inr (h.0, d, ((λ _. text_le_refl k), falls-Due k now keys f.0)))
      | inr (d, e) ↦ subst (Newest P now (k ∷ keys)) (sym e) (Newest-passed P k keys now d rest)
    ]

-- Of the manifests listed for a directory, the newest is filed directly in it, under a manifest's
-- name whose instant is not later than now, and no listed one that is filed so and due has a later
-- key. It is the empty key exactly where nothing listed is filed so and due.
pub newest_manifest_lem :
    (list : Text → Option (List Object)) (dir : Text) (now : ℕ) {objs : List Object} {key : Text}
    → list (dir ++ (slash ∷ [])) ≡ some objs
    → newest_manifest list dir now ≡ some key
    → ((key ≡ []) × All (λ o. Filed dir o.key → Due now o.key → ⊥) objs)
      ⊎ (Filed dir key
          × Due now key
          × All (λ o. Filed dir o.key → Due now o.key → text_le o.key key ≡ true) objs)
unfolding newest_manifest filed_manifests
newest_manifest_lem list dir now {objs} {key} e h =
    let keys : List Text = filed_keys objs dir in
    let order = chain (sort_by-Rearranged whole keys) (reverse-Rearranged (sort_by whole keys)) in
    let found : newest_loop (filed_manifests objs dir) now ≡ key = ground arith in
    elim (subst (Newest (Filed dir) now (filed_manifests objs dir)) found (
      newest_loop-Newest (Filed dir) (filed_manifests objs dir) now (filed_manifests-Falls objs dir)
        (filed_manifests-Filed objs dir))) [
          | inl (z, none_due) ↦ inl (
            z,
            filed_keys_complete (λ k. Due now k → ⊥) objs dir
                (Rearranged-All (λ k. Due now k → ⊥) (Rearranged-symm order) none_due),
          )
          | inr (f, d, top) ↦ inr (
            f,
            d,
            filed_keys_complete (λ k. Due now k → text_le k key ≡ true) objs dir
                (Rearranged-All (λ k. Due now k → text_le k key ≡ true) (Rearranged-symm order)
                  top),
          )
        ]
