-- ===== src/Pipeline/Unchanged/SameRefs.antt =====
-- `sameRefs` is equality of maps.
use gitdr.Common.{
  ◌≤◌, suc, ◌≡◌, refl, sym, ◌∙◌, ◌≢◌, ◌↔◌, true, none, some, [], ◌∷◌, arith, Text, GoMap, text_eq,
  text_eq_iff, text_eq_refl, lookup, length, NodupKeys, if◌then◌else◌,
}
use gitdr.Pipeline.Unchanged.{agree_on, same_refs, value_or_empty}

-- Every value is a text with at least one byte, as an object id is.
abbrev pub Filled : GoMap Text → Type 0
Filled [] = Unit
Filled ((_, oid) ∷ m) = (oid ≢ []) × Filled m

-- The second map holds every entry of the first.
abbrev Within : GoMap Text → GoMap Text → Type 0
Within [] b = Unit
Within ((k, v) ∷ a) b = (lookup k b ≡ some v) × Within a b

-- The map without one key.
unfoldable pub remove : Text → GoMap Text → GoMap Text
remove k [] = []
remove k ((j, w) ∷ m) = if text_eq j k then m else (j, w) ∷ remove k m

pub lookup-remove :
    (j k : Text) (m : GoMap Text)
    → NodupKeys m
    → lookup j (remove k m) ≡ (if text_eq k j then none else lookup j m)
unfolding lookup remove
lookup-remove j k [] u = ground arith
lookup-remove j k ((i, w) ∷ m) u =
    ground (arith, text_eq_iff i k, text_eq_iff k j, text_eq_iff i j, lookup-remove j k m u.1)

pub remove-NodupKeys : (k : Text) (m : GoMap Text) → NodupKeys m → NodupKeys (remove k m)
unfolding remove
remove-NodupKeys k [] u = tt
remove-NodupKeys k ((j, w) ∷ m) u =
    ground (arith, remove-NodupKeys k m u.1, lookup-remove j k m u.1)

length-remove :
    (k : Text) (m : GoMap Text) (v : Text)
    → lookup k m ≡ some v
    → suc (length (remove k m)) ≡ length m
unfolding lookup remove
length-remove k [] v h = cc
length-remove k ((j, w) ∷ m) v h = ground (arith, length-remove k m v)

Within-remove :
    (k : Text) (a b : GoMap Text)
    → lookup k a ≡ none
    → NodupKeys b
    → Within a b
    → Within a (remove k b)
unfolding lookup
Within-remove k [] b f u h = tt
Within-remove k ((j, w) ∷ a) b f u h = (
  rw (lookup-remove j k b u) (ground (arith, text_eq_iff j k, text_eq_iff k j)),
  Within-remove k a b (ground arith) u h.1,
)

-- With as many entries, the first map has every key of the second.
covers :
    (a b : GoMap Text) (k : Text)
    → NodupKeys a
    → NodupKeys b
    → Within a b
    → length a ≡ length b
    → lookup k a ≡ lookup k b
unfolding lookup
covers [] [] k ua ub w e = refl
covers [] (y ∷ b) k ua ub w e = absurd (omega arith)
covers ((j, v) ∷ a) b k ua ub w e =
    let rest =
      covers a (remove j b) k ua.1 (remove-NodupKeys j b ub) (Within-remove j a b ua.0 ub w.1)
        (omega (arith, length-remove j b v w.0)) in
    ground (arith, text_eq_iff j k, lookup-remove k j b ub)

Within-length : (a b : GoMap Text) → NodupKeys a → NodupKeys b → Within a b → length a ≤ length b
Within-length [] b ua ub w = omega arith
Within-length ((j, v) ∷ a) b ua ub w = omega (
  arith,
  length-remove j b v w.0,
  Within-length a (remove j b) ua.1 (remove-NodupKeys j b ub) (Within-remove j a b ua.0 ub w.1),
)

Within-agree_on : (a b : GoMap Text) → Within a b → agree_on a b ≡ true
unfolding agree_on
Within-agree_on [] b w = refl
Within-agree_on ((j, v) ∷ a) b w = rw w.0 (rw (text_eq_refl v) (Within-agree_on a b w.1))

agree_on-Within : (a b : GoMap Text) → Filled a → agree_on a b ≡ true → Within a b
unfolding agree_on
agree_on-Within [] b f h = tt
agree_on-Within ((j, v) ∷ a) b f h = (
  ground (arith, text_eq_iff (value_or_empty (lookup j b)) v),
  agree_on-Within a b f.1 (ground arith),
)

lookup-cons_fresh :
    (j k v : Text) (a : GoMap Text)
    → lookup j a ≡ none
    → (lookup k a ≢ none)
    → lookup k ((j, v) ∷ a) ≡ lookup k a
unfolding lookup
lookup-cons_fresh j k v a f n = ground (arith, text_eq_iff j k)

-- Every entry of a map is found by its key, also behind entries with other keys.
Within-self :
    (a b : GoMap Text)
    → NodupKeys a
    → ((k v : Text) → lookup k a ≡ some v → lookup k b ≡ some v)
    → Within a b
unfolding lookup
Within-self [] b u h = tt
Within-self ((j, v) ∷ a) b u h = (
  h j v (rw (text_eq_refl j) refl),
  Within-self a b u.1 (λ k w e. h k w (ground (arith, text_eq_iff j k))),
)

-- For maps in which no key is twice and the first of which holds no empty object id, `sameRefs`
-- answers true exactly when the two maps give every name the same answer: the same names, the
-- same objects, nothing extra on either side.
pub same_refs_iff :
    (a b : GoMap Text)
    → NodupKeys a
    → NodupKeys b
    → Filled a
    → (same_refs a b ≡ true) ↔ ((k : Text) → lookup k a ≡ lookup k b)
unfolding same_refs
same_refs_iff a b ua ub f = (
  λ h k. covers a b k ua ub (agree_on-Within a b f (ground arith)) (ground arith),
  λ h.
      let ab = Within-self a b ua (λ k v e. sym (h k) ∙ e) in
      let ba = Within-self b a ub (λ k v e. h k ∙ e) in
      let same : length a ≡ length b =
        omega (arith, Within-length a b ua ub ab, Within-length b a ub ua ba) in
      ground (arith, Within-agree_on a b ab),
)
