-- ===== src/Pipeline/Unchanged.antt =====
-- internal/pipeline/unchanged.go: whether a repository needs copying again.
pub mod SameRefs
pub mod Decision
pub mod Entries
use gitdr.Common.{
  ℕ, ◌+◌, ◌*◌, ◌/◌, Bool, true, false, not, ◌&&◌, Option, none, some, List, [], ◌∷◌, Text, GoMap,
  text_eq, lookup, insert, length, is_nil, if◌then◌else◌, ◌==◌, sort_by, ℤ, pos, negsuc, is_neg,
  lt_int, le_zero, min_int, div_int, sub_time, nanos_per_day,
}
use gitdr.Pipeline.Manifest.{RefEntry, reason_unchanged}

-- The reason of a decision, as what its message is made of: the age in days of a copy that is
-- refreshed, or the instant of the copy that a skip relies on.
pub data DecisionReason : Type 0 where
  no_reason : DecisionReason
  refreshed : ℕ → DecisionReason
  unchanged_since : ℕ → DecisionReason

pub record UnchangedDecision : Type 0 where
  pub skip : Bool
  pub reason : DecisionReason

abbrev pub refresh_floor : ℕ
refresh_floor = 3

abbrev pub max_skip_days : ℕ
max_skip_days = 30

-- What indexing a map gives for a key it lacks: the empty text.
abbrev pub value_or_empty : Option Text → Text
value_or_empty none = []
value_or_empty (some v) = v

-- The range loop of `sameRefs`.
unfoldable pub agree_on : GoMap Text → GoMap Text → Bool
agree_on [] b = true
agree_on ((name, oid) ∷ a) b =
    if text_eq (value_or_empty (lookup name b)) oid then agree_on a b else false

unfoldable pub same_refs : GoMap Text → GoMap Text → Bool
unfolding agree_on
same_refs a b = if not (length a == length b) then false else agree_on a b

unfoldable pub refresh_bound : ℤ → ℤ
refresh_bound retention =
    let limit = pos (max_skip_days * nanos_per_day) in
    if le_zero retention then limit else min_int limit (div_int retention refresh_floor)

-- The days of `int(age.Hours()/24)`, for an age that is not negative.
abbrev pub age_days : ℤ → ℕ
age_days (pos n) = n / nanos_per_day
age_days (negsuc _) = 0

abbrev copy_again : UnchangedDecision
copy_again = record { skip = false; reason = no_reason }

unfoldable pub decide_unchanged : GoMap Text → GoMap Text → ℕ → ℕ → ℤ → UnchangedDecision
unfolding same_refs refresh_bound
decide_unchanged previous current copied_at now retention =
    if length previous == 0
    then copy_again
    else if length current == 0
    then copy_again
    else if not (same_refs previous current)
    then copy_again
    else let age = sub_time now copied_at in
      if is_neg age
      then copy_again
      else if not (lt_int age (refresh_bound retention))
      then record { skip = false; reason = refreshed (age_days age) }
      else record { skip = true; reason = unchanged_since copied_at }

abbrev pub entry_name : RefEntry → Text
entry_name e = e.name

-- The range loop of `refsToEntries`, before its sort.
unfoldable pub entries_of : GoMap Text → List RefEntry
entries_of [] = []
entries_of ((name, oid) ∷ refs) = record { name = name; commit = oid } ∷ entries_of refs

unfoldable pub refs_to_entries : GoMap Text → List RefEntry
unfolding entries_of
refs_to_entries refs = sort_by entry_name (entries_of refs)

-- The assignments of `entriesToRefs`, in the order of the entries.
unfoldable pub assign_entries : GoMap Text → List RefEntry → GoMap Text
assign_entries out [] = out
assign_entries out (e ∷ entries) = assign_entries (insert e.name e.commit out) entries

-- `nil` and an empty map are one empty map: every use of the result ranges over it or indexes it.
unfoldable pub entries_to_refs : List RefEntry → GoMap Text
unfolding assign_entries
entries_to_refs entries = assign_entries [] entries
