-- ===== src/Samples/CopiedRefs.antt =====
-- A clone of two branches that lost one, and the bundle of it.
use gitdr.Pipeline.Unchanged.{same_refs}
use gitdr.Common.{
  insert, has_prefix, text_eq, sort_by, ◌≡◌, refl, ◌↔◌, none, some, List, [], ◌∷◌, Text, GoMap,
  codes, lookup, All, NodupKeys,
}
use gitdr.Pipeline.CopiedRefs.Holds.{Excused, clone_holds_iff, bundle_holds_iff}
use gitdr.Pipeline.CopiedRefs.{clone_holds, bundle_holds, declared_refs, lacks, unasked, differs}
use gitdr.Pipeline.Refs.{heads_prefix, clonable, BundleRef}

abbrev dev : Text
dev = codes "refs/heads/dev"

abbrev advertised : GoMap Text
advertised = (codes "refs/heads/main", codes "aaaa") ∷ (dev, codes "bbbb") ∷ []

abbrev copied : GoMap Text
copied = (codes "refs/heads/main", codes "aaaa") ∷ []

abbrev header : List BundleRef
header = record { name = codes "refs/heads/main"; oid = codes "aaaa" } ∷ []

clone_holds_iff_example :
    (clone_holds advertised copied (some copied) ≡ none)
    ↔ All (λ (p : Text × Text). Excused copied (some copied) p.0) advertised
clone_holds_iff_example = clone_holds_iff advertised copied (some copied)

deleted_meanwhile : clone_holds advertised copied (some copied) ≡ none
unfolding clone_holds sort_by lookup text_eq clonable has_prefix heads_prefix
deleted_meanwhile = refl

still_advertised : clone_holds advertised copied (some advertised) ≡ some (lacks (dev ∷ []))
unfolding clone_holds sort_by lookup text_eq clonable has_prefix heads_prefix
still_advertised = refl

not_asked : clone_holds advertised copied none ≡ some (unasked (dev ∷ []))
unfolding clone_holds sort_by lookup text_eq clonable has_prefix heads_prefix
not_asked = refl

copied-NodupKeys : NodupKeys copied
unfolding lookup
copied-NodupKeys = (refl, tt)

bundle_holds_iff_example : (bundle_holds (some header) copied ≡ none) ↔ (
    (lines : List BundleRef) × (some header ≡ some lines)
    × ((k : Text) → lookup k copied ≡ lookup k (declared_refs [] lines)))
bundle_holds_iff_example = bundle_holds_iff (some header) copied copied-NodupKeys ((λ e. cc), tt)

bundle_lacks : bundle_holds (some header) advertised ≡ some (differs (dev ∷ []) [] [])
unfolding bundle_holds same_refs insert sort_by lookup text_eq
bundle_lacks = refl
