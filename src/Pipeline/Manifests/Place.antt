-- ===== src/Pipeline/Manifests/Place.antt =====
-- A restore looks for a manifest where a run filed it.
use gitdr.Common.{◌≡◌, some, List, ◌++◌, Text, cut_last}

-- One path is another with some segments cut off its end.
data Cuts (s : Text) : Text → Type 0 where
  uncut : Cuts s s
  cut : {t before after : Text} → Cuts s t → cut_last t ≡ some (before, after) → Cuts s before

-- The first list is the start of the second.
abbrev Starts : List Text → List Text → Type 0
Starts shared segs = (rest : List Text) × (segs ≡ shared ++ rest)

-- The same, from the front: how the search walks.
data Walks : Text → Text → Type 0 where
  arrived : {s : Text} → Walks s s
  above : {s before after t : Text} → cut_last s ≡ some (before, after) → Walks before t → Walks s t
