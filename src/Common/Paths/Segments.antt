-- ===== src/Common/Paths/Segments.antt =====
-- A path is the join of its segments, and its last segment can be cut off.
use gitdr.Common.Tests.{◌==◌, Bool-cases, Option-cases}
use gitdr.Common.Lists.{is_nil, All, length}
use gitdr.Common.Bytes.{Text}
use gitdr.Common.Paths.{slash, push_byte, split_slash, join_slash, cut_last, Slashless}
use Prim.Native.Nat.{ℕ, suc, ◌≤◌}
use mathlib.Core.Path.{◌≡◌, refl, sym, ◌∙◌, ap}
use mathlib.Core.Logic.{inl, inr}
use mathlib.Core.Bool.{false}
use mathlib.Core.List.{List, [], ◌∷◌, ◌++◌, append_assoc}
use mathlib.Core.Option.{none, some}
use native.Mathlib.Omega.{arith}

push_byte-Slashless :
    (c : ℕ) (segs : List Text) → All Slashless segs → All Slashless (push_byte c segs)
unfolding push_byte
push_byte-Slashless c [] h = tt
push_byte-Slashless c (seg ∷ segs) h = elim (Bool-cases (c == slash)) [
  | inl e ↦ rw e (tt, h)
  | inr e ↦ rw e (((λ z. ground arith), h.0), h.1)
]

pub split_slash-Slashless : (s : Text) → All Slashless (split_slash s)
unfolding split_slash
split_slash-Slashless [] = (tt, tt)
split_slash-Slashless (c ∷ s) = push_byte-Slashless c (split_slash s) (split_slash-Slashless s)

pub split_slash-ne-nil : (s : Text) → is_nil (split_slash s) ≡ false
unfolding split_slash
split_slash-ne-nil [] = refl
split_slash-ne-nil (c ∷ s) =
    elim (split_slash s) as (λ segs. is_nil segs ≡ false → is_nil (push_byte c segs) ≡ false) [
      | [] ↦ λ h. h
      | seg ∷ segs ↦ λ h. ground arith
    ]
      (split_slash-ne-nil s)

join_slash-push_byte :
    (c : ℕ) (segs : List Text)
    → is_nil segs ≡ false
    → join_slash (push_byte c segs) ≡ c ∷ join_slash segs
unfolding push_byte join_slash
join_slash-push_byte c [] h = cc
join_slash-push_byte c (seg ∷ []) h = ground arith
join_slash-push_byte c (seg ∷ next ∷ segs) h = ground arith

pub join_slash-split_slash : (s : Text) → join_slash (split_slash s) ≡ s
unfolding split_slash join_slash
join_slash-split_slash [] = refl
join_slash-split_slash (c ∷ s) =
    join_slash-push_byte c (split_slash s) (split_slash-ne-nil s)
    ∙ ap (λ (t : Text). c ∷ t) (join_slash-split_slash s)

pub join_slash-snoc :
    (seg x : Text) (segs : List Text)
    → join_slash ((seg ∷ segs) ++ (x ∷ [])) ≡ join_slash (seg ∷ segs) ++ (slash ∷ x)
unfolding join_slash
join_slash-snoc seg x [] = refl
join_slash-snoc seg x (next ∷ segs) =
    ap (λ (t : Text). seg ++ (slash ∷ t)) (join_slash-snoc next x segs)
    ∙ sym (append_assoc seg (slash ∷ join_slash (next ∷ segs)) (slash ∷ x))

cut_last-Slashless : (x : Text) → Slashless x → cut_last x ≡ none
unfolding cut_last
cut_last-Slashless [] h = refl
cut_last-Slashless (c ∷ x) h = ground (arith, cut_last-Slashless x h.1, h.0)

pub cut_last-append : (t x : Text) → Slashless x → cut_last (t ++ (slash ∷ x)) ≡ some (t, x)
unfolding cut_last
cut_last-append [] x h = ground (arith, cut_last-Slashless x h)
cut_last-append (c ∷ t) x h = ground (arith, cut_last-append t x h)

pub cut_last-length :
    (s : Text) {before after : Text}
    → cut_last s ≡ some (before, after)
    → suc (length before) ≤ length s
unfolding cut_last
cut_last-length [] h = cc
cut_last-length (c ∷ s) h = elim (Option-cases (cut_last s)) [
  | inl e ↦ ground arith
  | inr (p, e) ↦ let ih = cut_last-length s e in ground arith
]
