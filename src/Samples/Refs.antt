-- ===== src/Samples/Refs.antt =====
-- A bundle of two branches and a tag against restored repositories.
use Prim.Native.String.{String}
use gitdr.Common.{
  equal_fold, has_prefix, lookup, cut_prefix, text_eq, text_le, sort_by, ◌≡◌, refl, ◌↔◌, true,
  false, List, [], ◌∷◌, Text, GoMap, codes, All, swap, text_ne,
}
use gitdr.Pipeline.Refs.{
  remotes_prefix, tags_prefix, clonable, heads_prefix, candidates, search_candidates, head_ref,
  compare_one, BundleRef, comparison_ok, compare_refs,
}
use gitdr.Pipeline.Refs.Compare.{Accounted, comparison_ok-compare_refs}
use gitdr.Pipeline.Refs.Order.{compare_refs-Rearranged}

abbrev a_oid : Text
a_oid = codes "aaaa"

abbrev b_oid : Text
b_oid = codes "bbbb"

abbrev declares : String → Text → BundleRef
declares name oid = record { name = codes name; oid = oid }

abbrev header : List BundleRef
header =
    declares "HEAD" a_oid
    ∷ declares "refs/heads/main" a_oid
    ∷ declares "refs/heads/dev" b_oid
    ∷ declares "refs/pull/1/head" b_oid
    ∷ []

-- What a plain clone of the bundle holds.
abbrev cloned : GoMap Text
cloned = (codes "refs/heads/main", a_oid) ∷ (codes "refs/remotes/origin/dev", codes "BBBB") ∷ []

-- And without the branch that is not checked out.
abbrev lost : GoMap Text
lost = (codes "refs/heads/main", a_oid) ∷ []

clone_passes : comparison_ok (compare_refs header cloned a_oid) ≡ true
unfolding comparison_ok compare_refs sort_by text_le compare_one text_eq head_ref search_candidates
    candidates cut_prefix heads_prefix lookup clonable has_prefix tags_prefix equal_fold
    remotes_prefix
clone_passes = refl

clone_counts : (compare_refs header cloned a_oid).matched ≡ 3
unfolding compare_refs sort_by text_le compare_one text_eq head_ref search_candidates candidates
    cut_prefix heads_prefix lookup clonable has_prefix tags_prefix equal_fold remotes_prefix
clone_counts = refl

lost_branch_fails : comparison_ok (compare_refs header lost a_oid) ≡ false
unfolding comparison_ok compare_refs sort_by text_le compare_one text_eq head_ref search_candidates
    candidates cut_prefix heads_prefix lookup clonable has_prefix tags_prefix equal_fold
    remotes_prefix
lost_branch_fails = refl

comparison_ok-compare_refs_example :
    (comparison_ok (compare_refs header cloned a_oid) ≡ true) ↔ All (Accounted cloned a_oid) header
comparison_ok-compare_refs_example = comparison_ok-compare_refs header cloned a_oid

abbrev two_refs : List BundleRef
two_refs = declares "refs/heads/main" a_oid ∷ declares "refs/heads/dev" b_oid ∷ []

abbrev two_refs_swapped : List BundleRef
two_refs_swapped = declares "refs/heads/dev" b_oid ∷ declares "refs/heads/main" a_oid ∷ []

compare_refs-Rearranged_example :
    compare_refs two_refs cloned a_oid ≡ compare_refs two_refs_swapped cloned a_oid
unfolding text_eq
compare_refs-Rearranged_example =
    compare_refs-Rearranged two_refs two_refs_swapped cloned a_oid
      ((text_ne _ _ refl, tt), (tt, tt)) swap
