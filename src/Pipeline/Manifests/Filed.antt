-- ===== src/Pipeline/Manifests/Filed.antt =====
-- What holds of the listed objects holds of the manifests filed among them.
use gitdr.Common.{
  ◌≡◌, true, ◌&&◌, List, [], ◌∷◌, Text, text_eq, text_eq_iff, All, arith, Bool-cases, inl, inr,
  path_dir, path_base, sort_by, Rearranged-All, sort_by-Rearranged, reverse-Rearranged, chain,
}
use gitdr.Pipeline.Manifests.{Object, filed_keys, filed_manifests, manifest_name, whole}

-- The key is filed directly in the directory, under a manifest's name.
abbrev pub Filed : Text → Text → Type 0
Filed dir key = (path_dir key ≡ dir) × (manifest_name (path_base key) ≡ true)

filed_keys-All :
    (P : Text → Type 0) (objs : List Object) (dir : Text)
    → All (λ o. P o.key) objs
    → All P (filed_keys objs dir)
unfolding filed_keys
filed_keys-All P [] dir h = tt
filed_keys-All P (o ∷ objs) dir h =
    let rest = filed_keys-All P objs dir h.1 in
    elim (Bool-cases (text_eq (path_dir o.key) dir && manifest_name (path_base o.key))) [
      | inl e ↦ rw e (h.0, rest)
      | inr e ↦ rw e rest
    ]

pub filed_manifests-All :
    (P : Text → Type 0) (objs : List Object) (dir : Text)
    → All (λ o. P o.key) objs
    → All P (filed_manifests objs dir)
unfolding filed_manifests
filed_manifests-All P objs dir h =
    Rearranged-All P
      (chain (sort_by-Rearranged whole (filed_keys objs dir))
        (reverse-Rearranged (sort_by whole (filed_keys objs dir))))
      (filed_keys-All P objs dir h)

filed_keys-Filed : (objs : List Object) (dir : Text) → All (Filed dir) (filed_keys objs dir)
unfolding filed_keys
filed_keys-Filed [] dir = tt
filed_keys-Filed (o ∷ objs) dir =
    let rest = filed_keys-Filed objs dir in
    elim (Bool-cases (text_eq (path_dir o.key) dir && manifest_name (path_base o.key))) [
      | inl e ↦ rw e (((text_eq_iff _ _).0 (ground arith), ground arith), rest)
      | inr e ↦ rw e rest
    ]

pub filed_manifests-Filed :
    (objs : List Object) (dir : Text) → All (Filed dir) (filed_manifests objs dir)
unfolding filed_manifests
filed_manifests-Filed objs dir =
    Rearranged-All (Filed dir)
      (chain (sort_by-Rearranged whole (filed_keys objs dir))
        (reverse-Rearranged (sort_by whole (filed_keys objs dir))))
      (filed_keys-Filed objs dir)
