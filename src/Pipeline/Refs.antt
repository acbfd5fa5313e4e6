-- ===== src/Pipeline/Refs.antt =====
-- internal/pipeline/refs.go: a restored repository against the refs its bundle declares.
pub mod Compare
pub mod Order
use gitdr.Common.{
  ℕ, ◌+◌, Bool, true, false, not, Option, none, some, List, [], ◌∷◌, ◌++◌, Text, codes, text_eq,
  has_prefix, cut_prefix, equal_fold, lookup, GoMap, length, is_nil, if◌then◌else◌, ◌||◌, sort_by,
}

-- A ref of a bundle's header, gitexec.BundleRef.
pub record BundleRef : Type 0 where
  pub name : Text
  pub oid : Text

pub record RefMismatch : Type 0 where
  pub ref : Text
  pub want : Text
  pub got : Text

pub record RefComparison : Type 0 where
  pub declared : ℕ
  pub matched : ℕ
  pub unreferenced : List Text
  pub mismatches : List RefMismatch

-- `RefComparison.OK`.
unfoldable pub comparison_ok : RefComparison → Bool
comparison_ok c = is_nil c.mismatches

unfoldable pub head_ref : Text
head_ref = codes "HEAD"

unfoldable pub heads_prefix : Text
heads_prefix = codes "refs/heads/"

unfoldable pub tags_prefix : Text
tags_prefix = codes "refs/tags/"

unfoldable pub remotes_prefix : Text
remotes_prefix = codes "refs/remotes/origin/"

-- Where a declared ref may stand in a clone.
unfoldable pub candidates : Text → List Text
candidates name = elim (cut_prefix name heads_prefix) [
  | some branch ↦ name ∷ (remotes_prefix ++ branch) ∷ []
  | none ↦ name ∷ []
]

-- Whether a clone's default refspec creates the ref.
unfoldable pub clonable : Text → Bool
clonable name = has_prefix name heads_prefix || has_prefix name tags_prefix

-- The loop over the candidates: the first object found, and whether one of them is the declared
-- one, where it breaks off.
unfoldable pub search_candidates : GoMap Text → Text → List Text → Text → Text × Bool
search_candidates restored oid [] found = (found, false)
search_candidates restored oid (cand ∷ cands) found = elim (lookup cand restored) [
  | none ↦ search_candidates restored oid cands found
  | some got ↦
      let found' = if is_nil found then got else found in
      if equal_fold got oid then (found', true) else search_candidates restored oid cands found'
]

abbrev pub mismatch : RefComparison → BundleRef → Text → RefComparison
mismatch c d got = record c {
  mismatches = c.mismatches ++ (record { ref = d.name; want = d.oid; got = got } ∷ []);
}

-- The case of HEAD: what the restored repository's own HEAD resolves to.
compare_head : Text → RefComparison → BundleRef → RefComparison
compare_head restored_head c d =
    if is_nil restored_head
    then mismatch c d []
    else if equal_fold restored_head d.oid
    then record c { matched = c.matched + 1 }
    else mismatch c d restored_head

-- The case of any other ref, from what the search found.
judge : RefComparison → BundleRef → Text × Bool → RefComparison
judge c d (found, matched) =
    if matched
    then record c { matched = c.matched + 1 }
    else if not (is_nil found)
    then mismatch c d found
    else if clonable d.name
    then mismatch c d []
    else record c { unreferenced = c.unreferenced ++ (d.name ∷ []) }

-- The body of the loop over the declared refs.
unfoldable pub compare_one : GoMap Text → Text → RefComparison → BundleRef → RefComparison
unfolding compare_head judge
compare_one restored restored_head c d =
    if text_eq d.name head_ref
    then compare_head restored_head c d
    else judge c d (search_candidates restored d.oid (candidates d.name) [])

unfoldable pub compare_loop : GoMap Text → Text → RefComparison → List BundleRef → RefComparison
compare_loop restored restored_head c [] = c
compare_loop restored restored_head c (d ∷ ds) =
    compare_loop restored restored_head (compare_one restored restored_head c d) ds

unfoldable pub compare_refs : List BundleRef → GoMap Text → Text → RefComparison
unfolding compare_loop
compare_refs declared restored restored_head =
    compare_loop restored restored_head
      (record { declared = length declared; matched = 0; unreferenced = []; mismatches = [] })
      (sort_by (λ (d : BundleRef). d.name) declared)
