-- ===== src/Pipeline/CopiedRefs.antt =====
-- internal/pipeline/copiedrefs.go: a clone and its bundle against the refs they are of. What git and
-- the source answer comes as values, none for a question that failed.
pub mod Holds
use gitdr.Common.{
  Bool, true, false, not, ◌&&◌, Option, none, some, List, [], ◌∷◌, Text, GoMap, text_eq, lookup,
  insert, is_nil, is_some, if◌then◌else◌, sort_by,
}
use gitdr.Pipeline.Manifests.{whole}
use gitdr.Pipeline.Refs.{BundleRef, clonable}
use gitdr.Pipeline.Unchanged.{same_refs}

abbrev pub lacks_ref : GoMap Text → Text → Bool
lacks_ref copied name = not (is_some (lookup name copied)) && clonable name

-- The range loop of `cloneHolds`.
unfoldable pub lacking_refs : GoMap Text → GoMap Text → List Text
lacking_refs copied [] = []
lacking_refs copied ((name, _) ∷ advertised) =
    let rest = lacking_refs copied advertised in if lacks_ref copied name then name ∷ rest else rest

unfoldable pub still_there : GoMap Text → List Text → List Text
still_there now [] = []
still_there now (name ∷ names) =
    let rest = still_there now names in if is_some (lookup name now) then name ∷ rest else rest

pub data CloneFault : Type 0 where
  unasked lacks : List Text → CloneFault

unfoldable pub check_lacking : List Text → Option (GoMap Text) → Option CloneFault
unfolding still_there
check_lacking [] now = none
check_lacking (name ∷ names) none = some (unasked (name ∷ names))
check_lacking (name ∷ names) (some refs) =
    let still = still_there refs (name ∷ names) in if is_nil still then none else some (lacks still)

-- `cloneHolds`, with the refs that the source lists when it is asked again.
unfoldable pub clone_holds : GoMap Text → GoMap Text → Option (GoMap Text) → Option CloneFault
unfolding lacking_refs check_lacking
clone_holds advertised copied now =
    check_lacking (sort_by whole (lacking_refs copied advertised)) now

-- What the bundle's header declares, the last line of a name deciding.
unfoldable pub declared_refs : GoMap Text → List BundleRef → GoMap Text
declared_refs out [] = out
declared_refs out (h ∷ heads) = declared_refs (insert h.name h.oid out) heads

-- The loop over the copied refs: the names that the header lacks, and those it has elsewhere.
unfoldable pub missing_names : GoMap Text → GoMap Text → List Text
missing_names declared [] = []
missing_names declared ((name, _) ∷ copied) =
    let rest = missing_names declared copied in
    if is_some (lookup name declared) then rest else name ∷ rest

unfoldable pub moved_names : GoMap Text → GoMap Text → List Text
moved_names declared [] = []
moved_names declared ((name, oid) ∷ copied) =
    let rest = moved_names declared copied in
    elim (lookup name declared) [
      | none ↦ rest
      | some got ↦ if text_eq got oid then rest else name ∷ rest
    ]

pub data BundleFault : Type 0 where
  unread : BundleFault
  -- The names it lacks, those it declares at another object, and those the clone does not hold.
  differs : List Text → List Text → List Text → BundleFault

-- `bundleHolds`.
unfoldable pub bundle_holds : Option (List BundleRef) → GoMap Text → Option BundleFault
unfolding declared_refs missing_names moved_names
bundle_holds none copied = some unread
bundle_holds (some heads) copied =
    let declared = declared_refs [] heads in
    if same_refs copied declared
    then none
    else some (
        differs (sort_by whole (missing_names declared copied))
          (sort_by whole (moved_names declared copied))
          (sort_by whole (missing_names copied declared)))
