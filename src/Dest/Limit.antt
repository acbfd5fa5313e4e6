-- ===== src/Dest/Limit.antt =====
-- internal/dest/limit.go: a body that ends at a limit.
pub mod Bound
use gitdr.Common.{
  ℕ, ◌+◌, ◌-◌, ◌^◌, Bool, true, false, ◌&&◌, Option, none, some, List, [], ◌∷◌, ◌++◌, Text, length,
  take, if◌then◌else◌, ltb, ◌==◌, ℤ, pos, negsuc,
}
use gitdr.Dest.Reader.{ReadError, response_too_large, ReadResult}

-- `limitedBody`. The error stays once it is set.
pub record LimitedBody (S : Type 0) : Type 0 where
  pub inner : S
  pub left : ℕ
  pub error : Option ReadError

-- `LimitBody`.
unfoldable pub limit_body : {S : Type 0} → S → ℤ → LimitedBody S
limit_body s (negsuc _) = record { inner = s; left = 0; error = none }
limit_body s (pos limit) = record { inner = s; left = limit; error = none }

-- The room that is passed down: one byte more than is left, where an int64 holds that number.
abbrev pub room : ℕ → ℕ → ℕ
room left n = if ltb (left + 1) (2 ^ 63) && ltb (left + 1) n then left + 1 else n

module _ {S : Type 0} (read : S → ℕ → ReadResult S) where
  abbrev pub keep_within : LimitedBody S → ReadResult S → ReadResult (LimitedBody S)
  keep_within b r =
      if ltb b.left (length r.bytes)
      then record {
        bytes = take b.left r.bytes;
        error = some response_too_large;
        after = record { inner = r.after; left = 0; error = some response_too_large };
      }
      else record {
        bytes = r.bytes;
        error = r.error;
        after = record { inner = r.after; left = b.left - length r.bytes; error = r.error };
      }

  -- `Read`, into room for n bytes.
  unfoldable pub read_limited : LimitedBody S → ℕ → ReadResult (LimitedBody S)
  read_limited b n = elim b.error [
    | some e ↦ record { bytes = []; error = some e; after = b }
    | none ↦
        if n == 0
        then record { bytes = []; error = none; after = b }
        else keep_within b (read b.inner (room b.left n))
  ]

  -- What a read takes from the stream below.
  abbrev pub taken_by : LimitedBody S → ℕ → Text
  taken_by b n = elim b.error [
    | some e ↦ []
    | none ↦ if n == 0 then [] else (read b.inner (room b.left n)).bytes
  ]

  -- Reads of the given sizes in a row: what they pass on, what they take, and the body after them.
  unfoldable pub read_all : LimitedBody S → List ℕ → Text × Text × LimitedBody S
  unfolding read_limited
  read_all b [] = ([], [], b)
  read_all b (n ∷ sizes) =
      let r = read_limited b n in
      let (passed, taken, after) = read_all r.after sizes in
      (r.bytes ++ passed, taken_by b n ++ taken, after)
