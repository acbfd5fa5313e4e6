-- ===== src/Pipeline/Refs/Order.antt =====
-- internal/pipeline/refs.go: the sort of `compareRefs` makes it independent of the order in which
-- the refs are declared.
use gitdr.Common.{
  ◌≡◌, Text, GoMap, List, DistinctKeys, Rearranged, sort_by_unique, Rearranged-length,
}
use gitdr.Pipeline.Refs.{BundleRef, compare_refs}

abbrev pub ref_name : BundleRef → Text
ref_name d = d.name

-- A header whose names are distinct gives one comparison, in whatever order git lists it and in
-- whatever order a range over the source's ref map visits it.
pub compare_refs-Rearranged :
    (declared listed : List BundleRef) (restored : GoMap Text) (head : Text)
    → DistinctKeys ref_name declared
    → Rearranged declared listed
    → compare_refs declared restored head ≡ compare_refs listed restored head
unfolding compare_refs
compare_refs-Rearranged declared listed restored head d r =
    rw (sort_by_unique ref_name r d, Rearranged-length r)
