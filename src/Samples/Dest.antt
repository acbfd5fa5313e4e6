-- ===== src/Samples/Dest.antt =====
-- Readers over a stream of bytes at hand.
use gitdr.Common.{
  ℕ, ◌+◌, ◌≤◌, ◌<◌, ◌≡◌, refl, none, some, [], ◌∷◌, arith, Text, codes, length, length-take, take,
  drop, is_nil, if◌then◌else◌, pos,
}
use gitdr.Dest.Exact.Whole.{ToItsEnd, read_exactly-exact}
use gitdr.Dest.Exact.{read_exactly, exact}
use gitdr.Dest.Limit.Bound.{read_all-limit_body}
use gitdr.Dest.Limit.{limit_body, read_all}
use gitdr.Dest.Reader.{eof, response_too_large, ReadResult, Bounded}

-- A stream at hand ends once it is empty.
abbrev from_bytes : Text → ℕ → ReadResult Text
from_bytes s n = record {
  bytes = take n s;
  error = if is_nil s then some eof else none;
  after = drop n s;
}

from_bytes-Bounded : Bounded from_bytes
from_bytes-Bounded s n = omega (arith, length-take n s)

abbrev five : Text
five = codes "hello"

read_all-limit_body_example :
    let (passed, taken, after) = read_all from_bytes (limit_body five (pos 3)) (2 ∷ 2 ∷ 2 ∷ []) in
    (passed ≡ take 3 taken)
    × (length taken ≤ 3 + 1)
    × (3 < length taken → after.error ≡ some response_too_large)
read_all-limit_body_example =
    read_all-limit_body from_bytes five 3 (2 ∷ 2 ∷ 2 ∷ []) from_bytes-Bounded
      (omega arith, (omega arith, (omega arith, tt)))

limit_cuts : (read_all from_bytes (limit_body five (pos 3)) (2 ∷ 2 ∷ 2 ∷ [])).0 ≡ codes "hel"
unfolding read_all limit_body
limit_cuts = refl

-- Room for all of it, and the whole artifact with its end.
whole_passes : (read_exactly from_bytes 5 (exact five) (4 ∷ 4 ∷ [])).0 ≡ five
unfolding read_exactly
whole_passes = refl

-- A stream of one byte more never passes its fifth byte on.
long_fails : (read_exactly from_bytes 4 (exact five) (4 ∷ 4 ∷ [])).0 ≡ []
unfolding read_exactly
long_fails = refl

read_exactly-exact_example :
    let (passed, taken, after) = read_exactly from_bytes 5 (exact five) (4 ∷ 4 ∷ []) in
    (length passed ≤ 5)
    × (after.error ≡ some eof
        → (passed ≡ taken) × (length passed ≡ 5) × ToItsEnd from_bytes five taken after.inner)
    × (length passed ≡ 5 → after.error ≡ some eof)
read_exactly-exact_example =
    read_exactly-exact from_bytes 5 five (4 ∷ 4 ∷ []) from_bytes-Bounded (omega arith)
