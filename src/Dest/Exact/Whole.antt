-- ===== src/Dest/Exact/Whole.antt =====
-- An artifact is passed on whole only where its stream ends with it.
use mathlib.Core.Path.{subst}
use gitdr.Common.{
  ℕ, zero, suc, ◌+◌, ◌-◌, ◌≤◌, ◌<◌, ◌≡◌, refl, sym, ◌∙◌, ap, ◌≢◌, inl, inr, true, false, Option,
  none, some, List, [], ◌∷◌, ◌++◌, arith, Text, length, length-append, append-nil, ltb, ◌==◌, min,
  Bool-cases, Option-cases, pos,
}
use gitdr.Dest.Exact.{
  ExactReader, ExactRead, past, complete, end_error, pass_on, ask_below, read_exactly, exact,
  empty_reads,
}
use gitdr.Dest.Reader.{ReadError, eof, wrapped_eof, is_eof, ReadResult, Bounded}

-- The reads that take these bytes from a stream and leave it there, the last of them with its end.
pub data ToItsEnd {S : Type 0} (read : S → ℕ → ReadResult S) : S → Text → S → Type 0 where
  at_end :
      {s : S} (n : ℕ)
      → is_eof (read s n).error ≡ true
      → ToItsEnd read s (read s n).bytes (read s n).after
  read_on :
      {s t : S} {got : Text} (n : ℕ)
      → ToItsEnd read (read s n).after got t
      → ToItsEnd read s ((read s n).bytes ++ got) t

module _ {S : Type 0} (read : S → ℕ → ReadResult S) (size : ℕ) (bounded : Bounded read) where
  abbrev stands : S → ℕ → Option ReadError → ExactReader S
  stands s n error = record { inner = s; n = pos n; error = error }

  -- From a place short of the end: what was passed fits; the end is said only after the whole
  -- artifact, of a stream of which nothing else was taken and which ends there; and the whole artifact
  -- was passed on only with the end.
  abbrev Exactly : ℕ → S → Text × Text × ExactReader S → Type 0
  Exactly n s (passed, taken, after) =
      (n + length passed ≤ size)
      × (after.error ≡ some eof
          → (passed ≡ taken) × (n + length passed ≡ size) × ToItsEnd read s taken after.inner)
      × (n + length passed ≡ size → after.error ≡ some eof)

  read_exactly-error :
      (s : S) (n : ℕ) (e : ReadError) (rooms : List ℕ)
      → read_exactly read size (stands s n (some e)) rooms ≡ ([], [], stands s n (some e))
  unfolding read_exactly
  read_exactly-error s n e [] = refl
  read_exactly-error s n e (room ∷ rooms) = read_exactly-error s n e rooms

  no_bytes : (xs : Text) → ltb 0 (length xs) ≡ false → xs ≡ []
  no_bytes [] h = refl
  no_bytes (x ∷ xs) h = absurd (ground (arith, h))

  past-eof :
      (left : ℕ) (s : S)
      → is_eof (past read size left s).error ≡ true
      → (past read size left s).bytes ≡ []
  unfolding past
  past-eof zero s h = refl
  past-eof (suc left) s h = elim (Bool-cases (ltb 0 (length (read s 1).bytes))) [
    | inl more ↦ absurd (ground (arith, more))
    | inr bare ↦ elim (Option-cases (read s 1).error) [
      | inl on ↦ ground (arith, bare, on, past-eof left (read s 1).after)
      | inr (e, stop) ↦ ground (arith, bare, stop)
    ]
  ]

  past-ToItsEnd :
      (left : ℕ) (s : S)
      → is_eof (past read size left s).error ≡ true
      → ToItsEnd read s (past read size left s).bytes (past read size left s).after
  unfolding past
  past-ToItsEnd zero s h = absurd (ground (arith, h))
  past-ToItsEnd (suc left) s h = elim (Bool-cases (ltb 0 (length (read s 1).bytes))) [
    | inl more ↦ absurd (ground (arith, more, h))
    | inr bare ↦
        let nothing : (read s 1).bytes ≡ [] = no_bytes (read s 1).bytes bare in
        elim (Option-cases (read s 1).error) [
          | inl on ↦
              rw (bare, on)
                (subst
                  (λ got.
                    ToItsEnd read s (got ++ (past read size left (read s 1).after).bytes)
                      (past read size left (read s 1).after).after)
                  nothing
                  (read_on 1 (past-ToItsEnd left (read s 1).after (ground (arith, bare, on, h)))))
          | inr (e, stop) ↦
              rw (bare, stop)
                (subst (λ got. ToItsEnd read s got (read s 1).after) nothing
                  (at_end 1 (ground (arith, bare, stop, h))))
        ]
  ]

  asks-below : (s : S) (want : ℕ) → (want == 0) ≡ false → read s want ≡ ask_below read size s want
  asks-below s want h = rw h refl

  -- The stream below, from before an answer of its to behind it.
  abbrev From : S → ReadResult S → Type 0
  From s r =
      ((got : Text) (t : S) → ToItsEnd read r.after got t → ToItsEnd read s (r.bytes ++ got) t)
      × (is_eof r.error ≡ true → ToItsEnd read s r.bytes r.after)

  -- After the answer, the reads that follow.
  abbrev then_read : ExactRead S → List ℕ → Text × Text × ExactReader S
  then_read r rooms =
      let (passed, taken, after) = read_exactly read size r.after rooms in
      (r.bytes ++ passed, r.taken ++ taken, after)

  complete-Exactly :
      (n : ℕ) (got taken : Text) (error : Option ReadError) (from s : S) (rooms : List ℕ)
      → n < size
      → n + length got ≡ size
      → (error ≢ none)
      → (is_eof error ≡ true → (got ≡ taken) × ToItsEnd read from taken s)
      → Exactly n from (then_read (complete read size n got taken error s) rooms)
  complete-Exactly n got taken none from s rooms below full some' same = absurd (some' refl)
  complete-Exactly n got taken (some e) from s rooms below full some' same =
      elim (Bool-cases (is_eof (some e))) [
        | inl end ↦ rw end (
            rw (read_exactly-error s (n + length got) eof rooms) (
              rw (append-nil got, append-nil taken)
                (omega (arith, full), (λ z. ((same end).0, full, (same end).1)), λ z. refl)))
        | inr other ↦ rw other (
            rw (read_exactly-error s n e rooms) (
              rw (append-nil taken) (
                omega (arith, below),
                (λ z. absurd (ground (arith, other, z))),
                λ z. absurd (omega (arith, z, below)),
              )))
      ]

  past-some : (left : ℕ) (s : S) → (past read size left s).error ≢ none
  unfolding past
  past-some zero s h = ground arith
  past-some (suc left) s h = elim (Bool-cases (ltb 0 (length (read s 1).bytes))) [
    | inl more ↦ ground (arith, more)
    | inr bare ↦ elim (Option-cases (read s 1).error) [
      | inl on ↦ past-some left (read s 1).after (ground (arith, bare, on))
      | inr (e, stop) ↦ ground (arith, bare, stop)
    ]
  ]

  end_error-eof : (n : ℕ) (error : Option ReadError) → end_error n error ≢ some eof
  end_error-eof n none h = ground arith
  end_error-eof n (some eof) h = ground arith
  end_error-eof n (some wrapped_eof) h = ground arith
  end_error-eof n (some e) h = elim (Bool-cases (is_eof (some e))) [
    | inl y ↦ ground (arith, y)
    | inr y ↦ not_eof e y (ground (arith, y))
  ]
    where
      not_eof : (e : ReadError) → is_eof (some e) ≡ false → e ≢ eof
      not_eof e y z = ground (arith, y, z)

  Exactly-on :
      (n : ℕ) (s : S) (r : ReadResult S) (x : Text × Text × ExactReader S)
      → From s r
      → Exactly (n + length r.bytes) r.after x
      → Exactly n s (r.bytes ++ x.0, r.bytes ++ x.1, x.2)
  Exactly-on n s r x (on, _) (fits, ended, full) = (
    omega (arith, fits, length-append r.bytes x.0),
    (λ z.
        let (same, whole, to_end) = ended z in
        (
          ap (λ ys. r.bytes ++ ys) same,
          omega (arith, whole, length-append r.bytes x.0),
          on x.1 x.2.inner to_end,
        )),
    λ z. full (omega (arith, z, length-append r.bytes x.0)),
  )

  pass_on-Exactly :
      (n : ℕ) (s : S) (r : ReadResult S) (rooms : List ℕ)
      → From s r
      → n < size
      → length r.bytes ≤ size - n
      → ((m : ℕ) (error : Option ReadError)
          → m < size
          → (error ≢ some eof)
          → Exactly m r.after (read_exactly read size (stands r.after m error) rooms))
      → Exactly n s (then_read (pass_on read size n r) rooms)
  unfolding pass_on
  pass_on-Exactly n s r rooms from below most later =
      elim (Bool-cases (ltb (n + length r.bytes) size)) [
        | inl short ↦ rw short (
            Exactly-on n s r
              (read_exactly read size
                (stands r.after (n + length r.bytes) (end_error (n + length r.bytes) r.error))
                rooms)
              from
              (later (n + length r.bytes) (end_error (n + length r.bytes) r.error) (ground arith)
                (end_error-eof (n + length r.bytes) r.error)))
        | inr whole ↦
            let full : n + length r.bytes ≡ size = ground (arith, most, below) in
            elim (Option-cases r.error) [
              | inr (e, given) ↦ rw whole (
                  rw given (
                    complete-Exactly n r.bytes r.bytes (some e) s r.after rooms below full
                      (λ z. ground (arith, z))
                      (λ z. (refl, from.1 (subst (λ o. is_eof o ≡ true) (sym given) z)))))
              | inl on ↦
                  let q : ReadResult S = past read size empty_reads r.after in
                  rw whole (
                    rw on (
                      complete-Exactly n r.bytes (r.bytes ++ q.bytes) q.error s q.after rooms below
                        full (past-some empty_reads r.after)
                        (λ z. (
                          sym (
                              ap (λ ys. r.bytes ++ ys) (past-eof empty_reads r.after z)
                              ∙ append-nil r.bytes),
                          from.0 q.bytes q.after (past-ToItsEnd empty_reads r.after z),
                        ))))
            ]
      ]

  read_exactly-Exactly :
      (s : S) (n : ℕ) (error : Option ReadError) (rooms : List ℕ)
      → n < size
      → (error ≢ some eof)
      → Exactly n s (read_exactly read size (stands s n error) rooms)
  unfolding read_exactly
  read_exactly-Exactly s n error [] below fine =
      (omega (arith, below), (λ z. absurd (fine z)), λ z. absurd (omega (arith, z, below)))
  read_exactly-Exactly s n (some e) (room ∷ rooms) below fine =
      read_exactly-Exactly s n (some e) rooms below fine
  read_exactly-Exactly s n none (room ∷ rooms) below fine = elim (Bool-cases (room == 0)) [
    | inl z ↦ rw z (read_exactly-Exactly s n none rooms below fine)
    | inr z ↦
        let r : ReadResult S = ask_below read size s (min room (size - n)) in
        let from : From s r =
          subst (From s) (asks-below s (min room (size - n)) (ground (arith, z, below)))
            ((λ got t e. read_on (min room (size - n)) e), (λ e. at_end (min room (size - n)) e)) in
        let inside : ltb size n ≡ false = ground (arith, below) in
        let most : length r.bytes ≤ size - n =
          ground (arith, z, below, bounded s (min room (size - n))) in
        rw z (
          rw inside (
            pass_on-Exactly n s r rooms from below most
              (λ m error. read_exactly-Exactly r.after m error rooms)))
  ]

-- The body of a write of so many bytes, above zero, is whole only where its stream ends with them.
-- However it is read, over any stream that keeps to io.Reader: it never passes on more than the
-- artifact's bytes; where it has passed on all of them, it has come to the end; and where it has come
-- to the end, it has passed on exactly that many, and they are all that the reads of the stream gave,
-- up to one that answered with the stream's end.
pub read_exactly-exact :
    {S : Type 0} (read : S → ℕ → ReadResult S) (size : ℕ) (s : S) (rooms : List ℕ)
    → Bounded read
    → 0 < size
    → let (passed, taken, after) = read_exactly read size (exact s) rooms in
      (length passed ≤ size)
      × (after.error ≡ some eof
          → (passed ≡ taken) × (length passed ≡ size) × ToItsEnd read s taken after.inner)
      × (length passed ≡ size → after.error ≡ some eof)
read_exactly-exact read size s rooms bounded some' =
    let (fits, ended, full) =
      read_exactly-Exactly read size bounded s 0 none rooms some' (λ z. ground (arith, z)) in
    (
      omega (arith, fits),
      (λ z. let (same, whole, to_end) = ended z in (same, omega (arith, whole), to_end)),
      λ z. full (omega (arith, z)),
    )
