-- ===== src/Dest/Limit/Bound.antt =====
-- What a limited body passes on.
use gitdr.Common.{
  ℕ, ◌+◌, ◌-◌, ◌^◌, ◌≤◌, ◌<◌, ◌≡◌, refl, sym, ap, inl, inr, Option, none, some, List, [], ◌∷◌, ◌++◌,
  arith, Text, length, take, length-append, ltb, ◌==◌, Bool-cases, All, pos, append-nil,
}
use gitdr.Dest.Limit.{LimitedBody, limit_body, room, read_all}
use gitdr.Dest.Reader.{ReadError, response_too_large, ReadResult, Bounded, take-append, take-nil}

module _ {S : Type 0} (read : S → ℕ → ReadResult S) (bounded : Bounded read) where
  abbrev body : S → ℕ → Option ReadError → LimitedBody S
  body s left error = record { inner = s; left = left; error = error }

  -- After an error nothing is passed on or taken.
  read_all-error :
      (s : S) (left : ℕ) (e : ReadError) (sizes : List ℕ)
      → read_all read (body s left (some e)) sizes ≡ ([], [], body s left (some e))
  unfolding read_all
  read_all-error s left e [] = refl
  read_all-error s left e (n ∷ sizes) = read_all-error s left e sizes

  -- What is passed on, with so many bytes left, of what was taken.
  abbrev Passes : ℕ → Text × Text × LimitedBody S → Type 0
  Passes left (passed, taken, after) =
      (passed ≡ take left taken)
      × (length taken ≤ left + 1)
      × (left < length taken → after.error ≡ some response_too_large)

  Passes-over :
      (left : ℕ) (bytes : Text) (s : S) (sizes : List ℕ)
      → left < length bytes
      → length bytes ≤ left + 1
      → let (passed, taken, after) = read_all read (body s 0 (some response_too_large)) sizes in
        Passes left (take left bytes ++ passed, bytes ++ taken, after)
  Passes-over left bytes s sizes over fits =
      rw (read_all-error s 0 response_too_large sizes)
        (rw (append-nil (take left bytes), append-nil bytes) (refl, fits, λ z. refl))

  Passes-on :
      (left : ℕ) (bytes : Text) (x : Text × Text × LimitedBody S)
      → length bytes ≤ left
      → Passes (left - length bytes) x
      → Passes left (bytes ++ x.0, bytes ++ x.1, x.2)
  Passes-on left bytes x fits (p, t, e) = (
    rw (take-append left bytes x.1 fits) (ap (λ ys. bytes ++ ys) p),
    omega (arith, length-append bytes x.1, t, fits),
    λ z. e (omega (arith, length-append bytes x.1, z, fits)),
  )

  read_all-Passes :
      (s : S) (left : ℕ) (error : Option ReadError) (sizes : List ℕ)
      → All (λ n. n < 2 ^ 63) sizes
      → Passes left (read_all read (body s left error) sizes)
  unfolding read_all
  read_all-Passes s left error [] w =
      (sym (take-nil left), omega arith, λ z. absurd (omega (arith, z)))
  read_all-Passes s left (some e) (n ∷ sizes) w = read_all-Passes s left (some e) sizes w.1
  read_all-Passes s left none (n ∷ sizes) w = elim (Bool-cases (n == 0)) [
    | inl z ↦ rw z (read_all-Passes s left none sizes w.1)
    | inr z ↦
        let r : ReadResult S = read s (room left n) in
        let most : length r.bytes ≤ left + 1 = ground (arith, bounded s (room left n), w.0) in
        elim (Bool-cases (ltb left (length r.bytes))) [
          | inl over ↦ rw z (rw over (Passes-over left r.bytes r.after sizes (ground arith) most))
          | inr fits ↦ rw z (
              rw fits (
                Passes-on left r.bytes
                  (read_all read (body r.after (left - length r.bytes) r.error) sizes)
                  (ground arith)
                  (read_all-Passes r.after (left - length r.bytes) r.error sizes w.1)))
        ]
  ]

-- A limited body passes on the bytes of the stream below it up to the limit, and no others, however
-- it is read: with a limit that is not negative, and reads that each have room for fewer than 2 ^ 63
-- bytes, what has been passed on is the first so many bytes of what was taken from the stream; at
-- most one byte more than the limit was taken; and once more than the limit was taken, the body says
-- that the answer is too large, for good.
pub read_all-limit_body :
    {S : Type 0} (read : S → ℕ → ReadResult S) (s : S) (limit : ℕ) (sizes : List ℕ)
    → Bounded read
    → All (λ n. n < 2 ^ 63) sizes
    → let (passed, taken, after) = read_all read (limit_body s (pos limit)) sizes in
      (passed ≡ take limit taken)
      × (length taken ≤ limit + 1)
      × (limit < length taken → after.error ≡ some response_too_large)
unfolding limit_body
read_all-limit_body read s limit sizes bounded w = read_all-Passes read bounded s limit none sizes w
