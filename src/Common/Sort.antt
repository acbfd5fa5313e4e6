-- ===== src/Common/Sort.antt =====
-- Sorting by a textual key, as `sort.Slice` is called: insertion, which for distinct keys gives
-- the only order there is.
use mathlib.Core.Path.{◌≡◌, refl, sym, ◌∙◌, ap}
use mathlib.Core.Logic.{◌≢◌, inl, inr}
use mathlib.Core.Bool.{true}
use mathlib.Core.List.{List, [], ◌∷◌, ◌++◌, reverse, reverse-cons}
use Prim.Native.Nat.{suc}
use native.Mathlib.Omega.{arith}
use gitdr.Common.Tests.{if◌then◌else◌, Bool-cases}
use gitdr.Common.Lists.{length, All, All-member, All-tabulate, Member}
use gitdr.Common.Bytes.{Text, text_le, text_le_total, text_le_trans, text_le_antisym}

-- The same values in another order.
pub data Rearranged {ℓ} {A : Type ℓ} : List A → List A → Type ℓ where
  none_left : Rearranged [] []
  keep : {x : A} {xs ys : List A} → Rearranged xs ys → Rearranged (x ∷ xs) (x ∷ ys)
  swap : {x y : A} {xs : List A} → Rearranged (x ∷ y ∷ xs) (y ∷ x ∷ xs)
  chain : {xs ys zs : List A} → Rearranged xs ys → Rearranged ys zs → Rearranged xs zs

module _ {ℓ} {A : Type ℓ} where
  pub Rearranged-refl : (xs : List A) → Rearranged xs xs
  Rearranged-refl [] = none_left
  Rearranged-refl (x ∷ xs) = keep (Rearranged-refl xs)

  pub Rearranged-symm : {xs ys : List A} → Rearranged xs ys → Rearranged ys xs
  Rearranged-symm none_left = none_left
  Rearranged-symm (keep r) = keep (Rearranged-symm r)
  Rearranged-symm swap = swap
  Rearranged-symm (chain r s) = chain (Rearranged-symm s) (Rearranged-symm r)

  pub Rearranged-All {κ} :
      (P : A → Type κ) {xs ys : List A} → Rearranged xs ys → All P xs → All P ys
  Rearranged-All P none_left h = h
  Rearranged-All P (keep r) h = (h.0, Rearranged-All P r h.1)
  Rearranged-All P swap h = (h.1.0, (h.0, h.1.1))
  Rearranged-All P (chain r s) h = Rearranged-All P s (Rearranged-All P r h)

  pub Rearranged-length : {xs ys : List A} → Rearranged xs ys → length xs ≡ length ys
  Rearranged-length none_left = refl
  Rearranged-length (keep r) = ap suc (Rearranged-length r)
  Rearranged-length swap = refl
  Rearranged-length (chain r s) = Rearranged-length r ∙ Rearranged-length s

pub Rearranged-Member :
    {A : Type 0} {xs ys : List A} {a : A} → Rearranged xs ys → Member a xs → Member a ys
Rearranged-Member {ys = ys} r m =
    All-member (λ x. Member x ys) _
      (Rearranged-All (λ x. Member x ys) (Rearranged-symm r)
        (All-tabulate (λ x. Member x ys) ys (λ x n. n)))
      m

module _ {ℓ} {A : Type ℓ} where
  snoc-Rearranged : (x : A) (xs : List A) → Rearranged (x ∷ xs) (xs ++ (x ∷ []))
  snoc-Rearranged x [] = keep none_left
  snoc-Rearranged x (y ∷ xs) = chain swap (keep (snoc-Rearranged x xs))

  pub reverse-Rearranged : (xs : List A) → Rearranged xs (reverse xs)
  reverse-Rearranged [] = none_left
  reverse-Rearranged (x ∷ xs) =
      rw reverse-cons (chain (keep (reverse-Rearranged xs)) (snoc-Rearranged x (reverse xs)))

module _ {ℓ} {A : Type ℓ} (key : A → Text) where
  insert_sorted : A → List A → List A
  insert_sorted x [] = x ∷ []
  insert_sorted x (y ∷ ys) = if text_le (key x) (key y) then x ∷ y ∷ ys else y ∷ insert_sorted x ys

  unfoldable pub sort_by : List A → List A
  unfolding insert_sorted
  sort_by [] = []
  sort_by (x ∷ xs) = insert_sorted x (sort_by xs)

  abbrev pub IsSorted : List A → Type ℓ
  IsSorted [] = Unit
  IsSorted (x ∷ xs) = All (λ y. text_le (key x) (key y) ≡ true) xs × IsSorted xs

  -- No two values have one key.
  abbrev pub DistinctKeys : List A → Type ℓ
  DistinctKeys [] = Unit
  DistinctKeys (x ∷ xs) = All (λ y. key x ≢ key y) xs × DistinctKeys xs

  insert_sorted-Rearranged : (x : A) (ys : List A) → Rearranged (x ∷ ys) (insert_sorted x ys)
  unfolding insert_sorted
  insert_sorted-Rearranged x [] = keep none_left
  insert_sorted-Rearranged x (y ∷ ys) = elim (Bool-cases (text_le (key x) (key y))) [
    | inl e ↦ rw e (Rearranged-refl (x ∷ y ∷ ys))
    | inr e ↦ rw e (chain swap (keep (insert_sorted-Rearranged x ys)))
  ]

  pub sort_by-Rearranged : (xs : List A) → Rearranged xs (sort_by xs)
  unfolding sort_by
  sort_by-Rearranged [] = none_left
  sort_by-Rearranged (x ∷ xs) =
      chain (keep (sort_by-Rearranged xs)) (insert_sorted-Rearranged x (sort_by xs))

  All-le_trans :
      (x y : A) (ys : List A)
      → text_le (key x) (key y) ≡ true
      → All (λ z. text_le (key y) (key z) ≡ true) ys
      → All (λ z. text_le (key x) (key z) ≡ true) ys
  All-le_trans x y [] e h = tt
  All-le_trans x y (z ∷ ys) e h =
      (text_le_trans (key x) (key y) (key z) e h.0, All-le_trans x y ys e h.1)

  insert_sorted-IsSorted : (x : A) (ys : List A) → IsSorted ys → IsSorted (insert_sorted x ys)
  unfolding insert_sorted
  insert_sorted-IsSorted x [] _ = (tt, tt)
  insert_sorted-IsSorted x (y ∷ ys) h = elim (Bool-cases (text_le (key x) (key y))) [
    | inl e ↦ rw e ((e, All-le_trans x y ys e h.0), h)
    | inr e ↦ rw e (
      Rearranged-All (λ z. text_le (key y) (key z) ≡ true) (insert_sorted-Rearranged x ys)
          (text_le_total (key x) (key y) e, h.0),
      insert_sorted-IsSorted x ys h.1,
    )
  ]

  pub sort_by-IsSorted : (xs : List A) → IsSorted (sort_by xs)
  unfolding sort_by
  sort_by-IsSorted [] = tt
  sort_by-IsSorted (x ∷ xs) = insert_sorted-IsSorted x (sort_by xs) (sort_by-IsSorted xs)

  pub Rearranged-DistinctKeys :
      {xs ys : List A} → Rearranged xs ys → DistinctKeys xs → DistinctKeys ys
  Rearranged-DistinctKeys none_left h = h
  Rearranged-DistinctKeys (keep {x = x} r) h =
      (Rearranged-All (λ y. key x ≢ key y) r h.0, Rearranged-DistinctKeys r h.1)
  Rearranged-DistinctKeys swap h = ((λ e. h.0.0 (sym e), h.1.0), (h.0.1, h.1.1))
  Rearranged-DistinctKeys (chain r s) h = Rearranged-DistinctKeys s (Rearranged-DistinctKeys r h)

  -- Two insertions with different keys may be made in either order.
  insert_sorted_comm :
      (x y : A) (zs : List A)
      → key x ≢ key y
      → insert_sorted x (insert_sorted y zs) ≡ insert_sorted y (insert_sorted x zs)
  unfolding insert_sorted
  insert_sorted_comm x y [] n =
      ground (arith, text_le_total (key x) (key y), text_le_antisym (key x) (key y))
  insert_sorted_comm x y (z ∷ zs) n = ground (
    arith,
    text_le_total (key x) (key y),
    text_le_antisym (key x) (key y),
    text_le_total (key x) (key z),
    text_le_total (key y) (key z),
    text_le_trans (key x) (key y) (key z),
    text_le_trans (key y) (key x) (key z),
    text_le_trans (key x) (key z) (key y),
    text_le_trans (key y) (key z) (key x),
    insert_sorted_comm x y zs n,
  )

  -- With distinct keys the sorted list does not depend on the order it was given in.
  pub sort_by_unique :
      {xs ys : List A} → Rearranged xs ys → DistinctKeys xs → sort_by xs ≡ sort_by ys
  unfolding sort_by
  sort_by_unique none_left d = refl
  sort_by_unique (keep {x = x} r) d = ap (insert_sorted x) (sort_by_unique r d.1)
  sort_by_unique (swap {x = x} {y = y} {xs = xs}) d = insert_sorted_comm x y (sort_by xs) d.0.0
  sort_by_unique (chain r s) d = sort_by_unique r d ∙ sort_by_unique s (Rearranged-DistinctKeys r d)
