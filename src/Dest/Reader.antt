-- ===== src/Dest/Reader.antt =====
-- io.Reader: the stream below, as a function of its state and of the room it is given.
use gitdr.Common.{
  ℕ, zero, suc, ◌-◌, ◌≤◌, ◌≡◌, refl, ap, ◌∙◌, Bool, true, false, Option, some, [], ◌∷◌, ◌++◌, arith,
  Text, length, take,
}

-- The errors that the readers tell apart. `wrapped_eof` is an error that io.EOF is found in.
pub data ReadError : Type 0 where
  eof wrapped_eof no_progress response_too_large moved_outside holds_more : ReadError
  ended_after : ℕ → ReadError
  failed : ℕ → ReadError

-- `errors.Is(err, io.EOF)`.
abbrev pub is_eof : Option ReadError → Bool
is_eof (some eof) = true
is_eof (some wrapped_eof) = true
is_eof _ = false

-- One read's bytes and error, and the stream after it.
pub record ReadResult (S : Type 0) : Type 0 where
  pub bytes : Text
  pub error : Option ReadError
  pub after : S

-- The contract of io.Reader: a read gives no more bytes than it has room for.
abbrev pub Bounded : {S : Type 0} → (S → ℕ → ReadResult S) → Type 0
Bounded {S = S} read = (s : S) (n : ℕ) → length (read s n).bytes ≤ n

pub take-append :
    (n : ℕ) (xs ys : Text) → length xs ≤ n → take n (xs ++ ys) ≡ xs ++ take (n - length xs) ys
take-append n [] ys h = ap (λ k. take k ys) (omega arith)
take-append zero (x ∷ xs) ys h = absurd (omega (arith, h))
take-append (suc n) (x ∷ xs) ys h =
    ap (λ zs. x ∷ zs) (take-append n xs ys (omega (arith, h)))
    ∙ ap (λ k. x ∷ (xs ++ take k ys)) (omega arith)

pub take-nil : (n : ℕ) → take {A = ℕ} n [] ≡ []
take-nil zero = refl
take-nil (suc n) = refl

pub take_all : (n : ℕ) (xs : Text) → length xs ≤ n → take n xs ≡ xs
take_all n [] h = take-nil n
take_all zero (x ∷ xs) h = absurd (omega (arith, h))
take_all (suc n) (x ∷ xs) h = rw (take_all n xs (omega (arith, h)))
