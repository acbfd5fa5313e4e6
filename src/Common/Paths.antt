-- ===== src/Common/Paths.antt =====
-- Slash-separated paths, as `strings.Split`, `strings.Join` and package path treat them.
pub mod Segments
use Prim.Native.Nat.{ℕ, zero, suc, ◌≤◌, ◌<◌}
use mathlib.Core.Path.{◌≡◌, refl, sym, ◌∙◌, ap}
use mathlib.Core.Logic.{◌≢◌, ◌⊎◌, inl, inr}
use mathlib.Core.Bool.{Bool, true, false, not, ◌&&◌, ◌||◌}
use mathlib.Core.List.{List, [], ◌∷◌, ◌++◌, reverse, append_assoc, append-nil}
use mathlib.Core.Option.{Option, none, some}
use native.Mathlib.Omega.{arith}
use gitdr.Common.Tests.{if◌then◌else◌, ◌==◌, ==_iff, Bool-cases}
use gitdr.Common.Lists.{length, is_nil, All}
use gitdr.Common.Bytes.{Text, codes, text_eq}

abbrev pub slash : ℕ
slash = b'/'

unfoldable pub push_byte : ℕ → List Text → List Text
push_byte c [] = []
push_byte c (seg ∷ segs) = if c == slash then [] ∷ seg ∷ segs else (c ∷ seg) ∷ segs

-- `strings.Split(s, "/")`: never empty.
unfoldable pub split_slash : Text → List Text
unfolding push_byte
split_slash [] = [] ∷ []
split_slash (c ∷ s) = push_byte c (split_slash s)

-- `strings.Join(segs, "/")`.
unfoldable pub join_slash : List Text → Text
join_slash [] = []
join_slash (seg ∷ []) = seg
join_slash (seg ∷ next ∷ segs) = seg ++ (slash ∷ join_slash (next ∷ segs))

-- What stands before the last slash, and what stands behind it: `strings.LastIndex(s, "/")`.
unfoldable pub cut_last : Text → Option (Text × Text)
cut_last [] = none
cut_last (c ∷ s) = elim (cut_last s) [
  | some (before, after) ↦ some (c ∷ before, after)
  | none ↦ if c == slash then some ([], s) else none
]

unfoldable pub pop_segment : Bool → List Text → List Text
pop_segment rooted [] = if rooted then [] else codes ".." ∷ []
pop_segment rooted (top ∷ stack) =
    if text_eq top (codes "..") then codes ".." ∷ top ∷ stack else stack

-- One segment of `path.Clean` on the stack of those kept, the last on top.
unfoldable pub clean_segment : Bool → List Text → Text → List Text
unfolding pop_segment
clean_segment rooted stack seg =
    if is_nil seg || text_eq seg (codes ".")
    then stack
    else if text_eq seg (codes "..")
    then pop_segment rooted stack
    else seg ∷ stack

unfoldable pub clean_segments : Bool → List Text → List Text → List Text
unfolding clean_segment
clean_segments rooted stack [] = reverse stack
clean_segments rooted stack (seg ∷ segs) =
    clean_segments rooted (clean_segment rooted stack seg) segs

abbrev is_rooted : Text → Bool
is_rooted [] = false
is_rooted (c ∷ _) = c == slash

-- `path.Clean`.
unfoldable pub path_clean : Text → Text
unfolding clean_segments split_slash join_slash
path_clean s =
    let kept = join_slash (clean_segments (is_rooted s) [] (split_slash s)) in
    if is_rooted s then slash ∷ kept else if is_nil kept then codes "." else kept

unfoldable pub drop_empty : List Text → List Text
drop_empty [] = []
drop_empty (seg ∷ segs) = if is_nil seg then drop_empty segs else seg ∷ drop_empty segs

-- `path.Join`: empty elements are left out.
unfoldable pub path_join : List Text → Text
unfolding drop_empty path_clean
path_join elems =
    let kept = drop_empty elems in if is_nil kept then [] else path_clean (join_slash kept)

-- A byte in front of what stripping left of the rest.
unfoldable pub keep_unless : Bool → ℕ → Text → Text
keep_unless is_slash c [] = if is_slash then [] else c ∷ []
keep_unless is_slash c (d ∷ s) = c ∷ d ∷ s

-- `path.Dir` and `path.Base`.
unfoldable pub path_dir : Text → Text
unfolding cut_last path_clean
path_dir s = elim (cut_last s) [
  | none ↦ codes "."
  | some (before, _) ↦ path_clean (before ++ (slash ∷ []))
]

unfoldable pub strip_slashes : Text → Text
unfolding keep_unless
strip_slashes [] = []
strip_slashes (c ∷ s) = keep_unless (c == slash) c (strip_slashes s)

unfoldable pub path_base : Text → Text
unfolding strip_slashes cut_last
path_base s =
    if is_nil s
    then codes "."
    else let t = strip_slashes s in
      if is_nil t then slash ∷ [] else elim (cut_last t) [ none ↦ t | some (_, after) ↦ after ]

-- No byte of the segment is a slash.
abbrev pub Slashless : Text → Type 0
Slashless = All (λ c. c ≢ slash)
