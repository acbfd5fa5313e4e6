-- ===== src/Crypto/Encrypt/Envelope.antt =====
-- What is encrypted decrypts.
use gitdr.Common.{
  suc, ◌≤◌, ◌<◌, ◌≡◌, refl, ◌∙◌, ap, true, none, some, ◌∷◌, ◌++◌, arith, Text, text_eq, length,
  drop, ◌==◌, length-append, append_assoc, Bool-cases, inl, inr,
}
use gitdr.Crypto.Encrypt.{
  Aead, enc_magic, enc_chunk, encrypt_chunks, encrypt, parse_header, decrypt_body, decrypt_with,
  decrypt,
}
use gitdr.Crypto.Encrypt.Chunks.{IsLawful, take-append, drop-append, decrypt_chunks-encrypt_chunks}

cut_header :
    (nonce wrapped prefix cipher : Text)
    → length nonce ≡ 12
    → length wrapped ≡ 48
    → length prefix ≡ 4
    → let body = nonce ++ (wrapped ++ (prefix ++ cipher)) in
      (parse_header body ≡ record { wrap_nonce = nonce; wrapped = wrapped; prefix = prefix })
      × (drop 4 (drop 48 (drop 12 body)) ≡ cipher)
unfolding parse_header
cut_header nonce wrapped prefix cipher n w p = (
  rw (take-append 12 nonce (wrapped ++ (prefix ++ cipher)) n, parse_header)
      (rw (drop-append 12 nonce (wrapped ++ (prefix ++ cipher)) n) (
        rw (take-append 48 wrapped (prefix ++ cipher) w) (
          rw (drop-append 48 wrapped (prefix ++ cipher) w)
            (rw (take-append 4 prefix cipher p) refl)))),
  rw (drop-append 12 nonce (wrapped ++ (prefix ++ cipher)) n)
      (rw (drop-append 48 wrapped (prefix ++ cipher) w) (drop-append 4 prefix cipher p)),
)

chunk_positive : 0 < enc_chunk
unfolding enc_chunk
chunk_positive = omega arith

decrypt_body-opens :
    (a : Aead) (law : IsLawful a) (kek dek nonce prefix plain : Text)
    → length dek ≡ 32
    → length nonce ≡ 12
    → length prefix ≡ 4
    → decrypt_body a kek (
        nonce
        ++ (a.seal kek nonce dek
            ++ (prefix ++ encrypt_chunks (suc (length plain)) a enc_chunk dek prefix 0 plain)))
      ≡ record { written = plain; fault = none }
unfolding decrypt_with
decrypt_body-opens a law kek dek nonce prefix plain d n p =
    let cipher : Text = encrypt_chunks (suc (length plain)) a enc_chunk dek prefix 0 plain in
    let w : length (a.seal kek nonce dek) ≡ 48 = omega (arith, law.length-seal kek nonce dek, d) in
    let (header, rest) = cut_header nonce (a.seal kek nonce dek) prefix cipher n w p in
    rw (header, rest)
      (rw (law.opens kek nonce dek, decrypt_with)
        (decrypt_chunks-encrypt_chunks a law enc_chunk (chunk_positive) dek prefix
          (suc (length plain)) (suc (length cipher)) 0 plain (omega arith) (omega arith)))

joined :
    (nonce wrapped prefix cipher : Text)
    → (enc_magic ++ (1 ∷ (nonce ++ (wrapped ++ prefix)))) ++ cipher
      ≡ enc_magic ++ (1 ∷ (nonce ++ (wrapped ++ (prefix ++ cipher))))
joined nonce wrapped prefix cipher = rw (
  append_assoc enc_magic (1 ∷ (nonce ++ (wrapped ++ prefix))) cipher,
  append_assoc nonce (wrapped ++ prefix) cipher,
  append_assoc wrapped prefix cipher,
)

past_header :
    (a : Aead) (kek body : Text)
    → (length kek == 32) ≡ true
    → 64 ≤ length body
    → decrypt a kek (enc_magic ++ (1 ∷ body)) ≡ decrypt_body a kek body
unfolding decrypt enc_magic text_eq
past_header a kek body k h = ground arith

-- Encryption loses nothing: with a lawful cipher, a data key of 32 bytes, a nonce of 12 and a prefix
-- of 4, whatever `Encrypt` makes of a text, `Decrypt` turns back into the text under the same key,
-- whole and without an error, whatever the text's length.
pub decrypt-encrypt :
    (a : Aead) (kek dek nonce prefix plain : Text) {cipher : Text}
    → IsLawful a
    → length dek ≡ 32
    → length nonce ≡ 12
    → length prefix ≡ 4
    → encrypt a kek dek nonce prefix plain ≡ some cipher
    → decrypt a kek cipher ≡ record { written = plain; fault = none }
unfolding encrypt
decrypt-encrypt a kek dek nonce prefix plain {cipher} law d n p h =
    elim (Bool-cases (length kek == 32)) [
      | inr k ↦ absurd (ground arith)
      | inl k ↦
          let w : Text = a.seal kek nonce dek in
          let chunks : Text = encrypt_chunks (suc (length plain)) a enc_chunk dek prefix 0 plain in
          let body : Text = nonce ++ (w ++ (prefix ++ chunks)) in
          let long : 64 ≤ length body = omega (
            arith,
            law.length-seal kek nonce dek,
            d,
            n,
            p,
            length-append nonce (w ++ (prefix ++ chunks)),
            length-append w (prefix ++ chunks),
            length-append prefix chunks,
          ) in
          let stream : cipher ≡ enc_magic ++ (1 ∷ body) =
            ground (arith, k) ∙ joined nonce w prefix chunks in
          ap (decrypt a kek) stream
          ∙ (past_header a kek body k long
              ∙ decrypt_body-opens a law kek dek nonce prefix plain d n p)
    ]
