-- ===== src/Samples/Unchanged.antt =====
-- The decision to skip, on a repository with one branch.
use gitdr.Common.{
  sub_time, text_eq, ℕ, ◌+◌, ◌*◌, ◌/◌, ◌≤◌, ◌<◌, ◌≡◌, refl, ◌≢◌, ◌↔◌, true, false, [], ◌∷◌, Text,
  GoMap, lookup, NodupKeys, codes, pos, nanos_per_day,
}
use gitdr.Pipeline.Unchanged.{
  decide_unchanged, same_refs, refs_to_entries, entries_to_refs, refreshed,
}
use gitdr.Pipeline.Unchanged.SameRefs.{Filled, same_refs_iff}
use gitdr.Pipeline.Unchanged.Decision.{skip_iff}
use gitdr.Pipeline.Unchanged.Entries.{entries_to_refs-refs_to_entries}

abbrev main_branch : Text
main_branch = codes "refs/heads/main"

abbrev dev_branch : Text
dev_branch = codes "refs/heads/dev"

abbrev oid : Text
oid = codes "1111111111111111111111111111111111111111"

abbrev other_oid : Text
other_oid = codes "2222222222222222222222222222222222222222"

abbrev pub one_branch : GoMap Text
one_branch = (main_branch, oid) ∷ []

abbrev two_branches : GoMap Text
two_branches = (main_branch, oid) ∷ (dev_branch, other_oid) ∷ []

abbrev two_swapped : GoMap Text
two_swapped = (dev_branch, other_oid) ∷ (main_branch, oid) ∷ []

-- A day in the year 2026.
abbrev pub day0 : ℕ
day0 = 739600 * nanos_per_day

abbrev thirty_days : ℕ
thirty_days = 30 * nanos_per_day

-- Copied nine days ago under thirty days of retention: still skipped.
skipped_at_nine_days :
    (decide_unchanged one_branch one_branch day0 (day0 + 9 * nanos_per_day) (pos thirty_days)).skip
    ≡ true
unfolding decide_unchanged text_eq lookup sub_time
skipped_at_nine_days = refl

-- And copied ten days ago: refreshed.
copied_at_ten_days :
    (decide_unchanged one_branch one_branch day0
      (day0 + 10 * nanos_per_day)
      (pos thirty_days)).reason
    ≡ refreshed 10
unfolding decide_unchanged text_eq lookup sub_time
copied_at_ten_days = refl

-- A copy made later than now is made again.
copied_from_the_future :
    (decide_unchanged one_branch one_branch (day0 + 1) day0 (pos thirty_days)).skip ≡ false
unfolding decide_unchanged text_eq lookup sub_time
copied_from_the_future = refl

-- A moved branch is copied.
copied_when_moved :
    (decide_unchanged one_branch ((main_branch, other_oid) ∷ []) day0 day0 (pos thirty_days)).skip
    ≡ false
unfolding decide_unchanged text_eq lookup
copied_when_moved = refl

two_branches-NodupKeys : NodupKeys two_branches
unfolding lookup text_eq
two_branches-NodupKeys = (refl, (refl, tt))

two_swapped-NodupKeys : NodupKeys two_swapped
unfolding lookup text_eq
two_swapped-NodupKeys = (refl, (refl, tt))

two_branches-Filled : Filled two_branches
two_branches-Filled = ((λ e. cc), ((λ e. cc), tt))

skip_iff_example : ((decide_unchanged two_branches two_swapped day0 day0 (pos 0)).skip ≡ true) ↔ (
    (two_branches ≢ [])
    × (two_swapped ≢ [])
    × ((k : Text) → lookup k two_branches ≡ lookup k two_swapped)
    × (day0 ≤ day0)
    × (day0 < day0 + 30 * nanos_per_day)
    × (0 < 0 → day0 < day0 + 0 / 3))
skip_iff_example =
    skip_iff two_branches two_swapped day0 day0 0 two_branches-NodupKeys two_swapped-NodupKeys
      two_branches-Filled

same_refs_iff_example :
    (same_refs two_branches two_swapped ≡ true)
    ↔ ((k : Text) → lookup k two_branches ≡ lookup k two_swapped)
same_refs_iff_example =
    same_refs_iff two_branches two_swapped two_branches-NodupKeys two_swapped-NodupKeys
      two_branches-Filled

entries_to_refs-refs_to_entries_example :
    lookup main_branch (entries_to_refs (refs_to_entries two_branches))
    ≡ lookup main_branch two_branches
entries_to_refs-refs_to_entries_example =
    entries_to_refs-refs_to_entries two_branches main_branch two_branches-NodupKeys

-- The two maps agree on every name.
same_answers : (k : Text) → lookup k two_branches ≡ lookup k two_swapped
unfolding same_refs text_eq lookup
same_answers =
    (same_refs_iff two_branches two_swapped two_branches-NodupKeys two_swapped-NodupKeys
        two_branches-Filled).0
      refl
