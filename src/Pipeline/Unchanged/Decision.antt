-- ===== src/Pipeline/Unchanged/Decision.antt =====
-- What a skip guarantees, and exactly when there is one.
use gitdr.Common.{
  ℕ, ◌+◌, ◌-◌, ◌*◌, ◌/◌, ◌≤◌, ◌<◌, ◌≡◌, refl, ◌≢◌, ◌↔◌, true, [], ◌∷◌, arith, Text, GoMap, lookup,
  NodupKeys, pos, sub_time, nanos_per_day,
}
use gitdr.Pipeline.Unchanged.{same_refs, decide_unchanged}
use gitdr.Pipeline.Unchanged.SameRefs.{Filled, same_refs_iff}

-- What a copy that a skip relies on is. For a retention of n nanoseconds, n above zero: the copy was
-- made by now, its age is less than a third of the retention, so less than the retention, and it is
-- less than thirty days old.
pub skip-safe :
    (previous current : GoMap Text) (copied_at now n : ℕ)
    → 0 < n
    → (decide_unchanged previous current copied_at now (pos n)).skip ≡ true
    → (copied_at ≤ now)
      × (3 * (now - copied_at) < n)
      × (now < copied_at + n)
      × (now < copied_at + 30 * nanos_per_day)
unfolding decide_unchanged sub_time
skip-safe previous current copied_at now n p h = ground arith

skip-parts :
    (previous current : GoMap Text) (copied_at now n : ℕ)
    → (decide_unchanged previous current copied_at now (pos n)).skip ≡ true
    → (previous ≢ [])
      × (current ≢ [])
      × (same_refs previous current ≡ true)
      × (copied_at ≤ now)
      × (now < copied_at + 30 * nanos_per_day)
      × (0 < n → now < copied_at + n / 3)
unfolding decide_unchanged sub_time
skip-parts [] current copied_at now n h = ground arith
skip-parts (p ∷ previous) [] copied_at now n h = ground arith
skip-parts (p ∷ previous) (c ∷ current) copied_at now n h =
    ((λ e. cc), (λ e. cc), ground arith, ground arith, ground arith, (λ z. ground arith))

parts-skip :
    (previous current : GoMap Text) (copied_at now n : ℕ)
    → (previous ≢ [])
      × (current ≢ [])
      × (same_refs previous current ≡ true)
      × (copied_at ≤ now)
      × (now < copied_at + 30 * nanos_per_day)
      × (0 < n → now < copied_at + n / 3)
    → (decide_unchanged previous current copied_at now (pos n)).skip ≡ true
unfolding decide_unchanged sub_time
parts-skip [] current copied_at now n h = absurd (h.0 refl)
parts-skip (p ∷ previous) [] copied_at now n h = absurd (h.1 refl)
parts-skip (p ∷ previous) (c ∷ current) copied_at now n h = ground arith

-- When a repository is skipped. For a recorded and a listed ref map in which no key is twice, the
-- recorded one with no empty object id, and a retention of n nanoseconds, zero for an unknown one:
-- the decision is a skip exactly when both maps hold something, they give every ref name the same
-- object, the copy was made by now, it is less than thirty days old, and for a known retention
-- younger than a third of it.
pub skip_iff :
    (previous current : GoMap Text) (copied_at now n : ℕ)
    → NodupKeys previous
    → NodupKeys current
    → Filled previous
    → ((decide_unchanged previous current copied_at now (pos n)).skip ≡ true) ↔ (
        (previous ≢ [])
        × (current ≢ [])
        × ((k : Text) → lookup k previous ≡ lookup k current)
        × (copied_at ≤ now)
        × (now < copied_at + 30 * nanos_per_day)
        × (0 < n → now < copied_at + n / 3))
skip_iff previous current copied_at now n up uc f =
    let same = same_refs_iff previous current up uc f in
    (
      λ h.
          let (a, b, c, d, e, g) = skip-parts previous current copied_at now n h in
          (a, b, same.0 c, d, e, g),
      λ (a, b, c, d, e, g). parts-skip previous current copied_at now n (a, b, same.1 c, d, e, g),
    )
