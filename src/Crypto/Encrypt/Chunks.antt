-- ===== src/Crypto/Encrypt/Chunks.antt =====
-- The chunks of a stream are cut where they were joined.
use gitdr.Common.{
  ℕ, zero, suc, ◌+◌, ◌-◌, ◌≤◌, ◌<◌, ◌≡◌, refl, ◌∙◌, ap, inl, inr, true, false, none, some, [], ◌∷◌,
  ◌++◌, arith, Text, length, take, drop, is_nil, Bool-cases, length-append, length-take,
  length-drop, take-append-drop,
}
use gitdr.Crypto.Encrypt.{
  Aead, chunk_nonce, next_counter, encrypt_chunks, Decrypted, after_chunk, decrypt_chunks, enc_tag,
}

-- The documented behaviour of a cipher.AEAD with a tag of sixteen bytes: what is sealed opens under
-- its nonce, and is longer than the text by the tag.
pub record IsLawful (a : Aead) : Type 0 where
  pub opens :
      (key nonce plain : Text) → a.open_sealed key nonce (a.seal key nonce plain) ≡ some plain
  pub length-seal : (key nonce plain : Text) → length (a.seal key nonce plain) ≡ length plain + 16

pub take-append : (n : ℕ) (xs ys : Text) → length xs ≡ n → take n (xs ++ ys) ≡ xs
take-append zero [] ys h = refl
take-append zero (x ∷ xs) ys h = absurd (omega (arith, h))
take-append (suc n) [] ys h = absurd (omega (arith, h))
take-append (suc n) (x ∷ xs) ys h = ap (λ zs. x ∷ zs) (take-append n xs ys (omega (arith, h)))

pub drop-append : (n : ℕ) (xs ys : Text) → length xs ≡ n → drop n (xs ++ ys) ≡ ys
drop-append zero [] ys h = refl
drop-append zero (x ∷ xs) ys h = absurd (omega (arith, h))
drop-append (suc n) [] ys h = absurd (omega (arith, h))
drop-append (suc n) (x ∷ xs) ys h = drop-append n xs ys (omega (arith, h))

take_short : (n : ℕ) (xs : Text) → length xs ≤ n → take n xs ≡ xs
take_short zero [] h = refl
take_short zero (x ∷ xs) h = absurd (omega (arith, h))
take_short (suc n) [] h = refl
take_short (suc n) (x ∷ xs) h = ap (λ zs. x ∷ zs) (take_short n xs (omega (arith, h)))

drop_short : (n : ℕ) (xs : Text) → length xs ≤ n → drop n xs ≡ []
drop_short zero [] h = refl
drop_short zero (x ∷ xs) h = absurd (omega (arith, h))
drop_short (suc n) [] h = refl
drop_short (suc n) (x ∷ xs) h = drop_short n xs (omega (arith, h))

nil-length : (xs : Text) → is_nil xs ≡ true → length xs ≡ 0
nil-length [] h = refl
nil-length (x ∷ xs) h = cc

filled-length : (xs : Text) → is_nil xs ≡ false → 0 < length xs
filled-length [] h = cc
filled-length (x ∷ xs) h = omega arith

length-filled : (xs : Text) → 0 < length xs → is_nil xs ≡ false
length-filled [] h = absurd (omega (arith, h))
length-filled (x ∷ xs) h = refl

module _ (a : Aead) (law : IsLawful a) (size : ℕ) (full : 0 < size) (dek prefix : Text) where
  abbrev chunks : ℕ → ℕ → Text → Text
  chunks fuel counter plain = encrypt_chunks fuel a size dek prefix counter plain

  abbrev cut : ℕ → ℕ → Text → Decrypted
  cut fuel counter cipher = decrypt_chunks fuel a (size + enc_tag) dek prefix counter cipher

  chunks-filled :
      (fuel counter : ℕ) (plain : Text) → 0 < fuel → 0 < length (chunks fuel counter plain)
  unfolding encrypt_chunks
  chunks-filled zero counter plain h = absurd (omega (arith, h))
  chunks-filled (suc fuel) counter plain h =
      let rest = drop size plain in
      let nonce : Text = chunk_nonce prefix counter (is_nil rest) in
      elim (Bool-cases (is_nil rest)) [
        | inl e ↦
            rw (e, encrypt_chunks)
              (omega
                (arith, law.length-seal dek (chunk_nonce prefix counter true) (take size plain)))
        | inr e ↦
            rw (e, encrypt_chunks)
              (omega (
                arith,
                length-append (a.seal dek (chunk_nonce prefix counter false) (take size plain))
                    (chunks fuel (next_counter counter) rest),
                law.length-seal dek (chunk_nonce prefix counter false) (take size plain),
              ))
      ]

  cut_last :
      (fuel counter : ℕ) (plain : Text)
      → length plain ≤ size
      → cut (suc fuel) counter (a.seal dek (chunk_nonce prefix counter true) plain)
        ≡ record { written = plain; fault = none }
  unfolding decrypt_chunks
  cut_last fuel counter plain h =
      let cipher : Text = a.seal dek (chunk_nonce prefix counter true) plain in
      let short : length cipher ≤ size + enc_tag =
        omega (arith, law.length-seal dek (chunk_nonce prefix counter true) plain) in
      rw (drop_short (size + enc_tag) cipher short, decrypt_chunks)
        (rw (take_short (size + enc_tag) cipher short, decrypt_chunks)
          (rw (law.opens dek (chunk_nonce prefix counter true) plain)
            (rw (drop_short (size + enc_tag) cipher short) refl)))

  cut_first :
      (fuel counter : ℕ) (plain later : Text)
      → length plain ≡ size
      → 0 < length later
      → cut (suc fuel) counter (a.seal dek (chunk_nonce prefix counter false) plain ++ later)
        ≡ after_chunk plain (cut fuel (next_counter counter) later)
  unfolding decrypt_chunks
  cut_first fuel counter plain later h z =
      let cipher : Text = a.seal dek (chunk_nonce prefix counter false) plain in
      let exact : length cipher ≡ size + enc_tag =
        omega (arith, law.length-seal dek (chunk_nonce prefix counter false) plain, h) in
      rw (drop-append (size + enc_tag) cipher later exact, decrypt_chunks)
        (rw (length-filled later z, decrypt_chunks)
          (rw (take-append (size + enc_tag) cipher later exact, decrypt_chunks)
            (rw (law.opens dek (chunk_nonce prefix counter false) plain) (
              rw (drop-append (size + enc_tag) cipher later exact)
                (rw (length-filled later z) refl)))))

  pub decrypt_chunks-encrypt_chunks :
      (fuel fuel' counter : ℕ) (plain : Text)
      → length plain < fuel
      → length (chunks fuel counter plain) < fuel'
      → cut fuel' counter (chunks fuel counter plain) ≡ record { written = plain; fault = none }
  unfolding encrypt_chunks
  decrypt_chunks-encrypt_chunks zero fuel' counter plain h k = absurd (omega (arith, h))
  decrypt_chunks-encrypt_chunks (suc fuel) zero counter plain h k = absurd (omega (arith, k))
  decrypt_chunks-encrypt_chunks (suc fuel) (suc fuel') counter plain h k =
      let rest : Text = drop size plain in
      let first : Text = take size plain in
      elim (Bool-cases (is_nil rest)) [
        | inl e ↦
            let short : length plain ≤ size =
              omega (arith, nil-length rest e, length-drop size plain) in
            rw (e, encrypt_chunks)
              (rw (take_short size plain short) (cut_last fuel' counter plain short))
        | inr e ↦
            let more : 0 < length rest = filled-length rest e in
            let left : length rest ≡ length plain - size = length-drop size plain in
            let exact : length first ≡ size = omega (arith, length-take size plain, more, left) in
            let below : length rest < fuel = omega (arith, more, left, h, full) in
            let later : Text = chunks fuel (next_counter counter) rest in
            let sealed : Text = a.seal dek (chunk_nonce prefix counter false) first in
            let k' : length (sealed ++ later) < suc fuel' = rw (e, encrypt_chunks) at k in
            let below' : length later < fuel' = omega (
              arith,
              k',
              length-append sealed later,
              law.length-seal dek (chunk_nonce prefix counter false) first,
            ) in
            rw (e, encrypt_chunks)
              (cut_first fuel' counter first later exact
                  (chunks-filled fuel (next_counter counter) rest (omega (arith, below)))
                ∙ (ap (after_chunk first) (
                      decrypt_chunks-encrypt_chunks fuel fuel' (next_counter counter) rest below
                        below')
                    ∙ ap (λ w. record { written = w; fault = none }) (take-append-drop size plain)))
      ]
