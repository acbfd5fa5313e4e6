-- ===== src/Samples/Crypto.antt =====
-- A cipher that lengthens and changes nothing, and what is sealed with it.
use gitdr.Common.{
  ℕ, ◌≡◌, refl, true, none, some, [], ◌∷◌, ◌++◌, arith, Text, codes, length-append, drop,
}
use gitdr.Crypto.Encrypt.Chunks.{IsLawful}
use gitdr.Crypto.Encrypt.Envelope.{decrypt-encrypt}
use gitdr.Crypto.Encrypt.Nonce.{chunk_nonce_injective}
use gitdr.Crypto.Encrypt.{enc_chunk, Aead, encrypt, decrypt}

abbrev tag : Text
tag = 0 ∷ 0 ∷ 0 ∷ 0 ∷ 0 ∷ 0 ∷ 0 ∷ 0 ∷ 0 ∷ 0 ∷ 0 ∷ 0 ∷ 0 ∷ 0 ∷ 0 ∷ 0 ∷ []

-- A tag of zeros in front of the text.
abbrev plain_cipher : Aead
plain_cipher = record {
  seal = λ key nonce plain. tag ++ plain;
  open_sealed = λ key nonce cipher. some (drop 16 cipher);
}

plain_cipher-IsLawful : IsLawful plain_cipher
plain_cipher-IsLawful = record {
  opens = λ key nonce plain. refl;
  length-seal = λ key nonce plain. omega (arith, length-append tag plain);
}

abbrev key_of_32 : Text
key_of_32 = codes "0123456789abcdef0123456789abcdef"

abbrev nonce_of_12 : Text
nonce_of_12 = codes "0123456789ab"

abbrev prefix_of_4 : Text
prefix_of_4 = codes "pref"

-- The envelope of a short text.
abbrev enveloped : Text
enveloped =
    codes "GDRE"
    ++ (1 ∷ (nonce_of_12 ++ (tag ++ (key_of_32 ++ (prefix_of_4 ++ (tag ++ codes "hello"))))))

seals_hello :
    encrypt plain_cipher key_of_32 key_of_32 nonce_of_12 prefix_of_4 (codes "hello")
    ≡ some enveloped
unfolding encrypt enc_chunk
seals_hello = refl

decrypt-encrypt_example :
    decrypt plain_cipher key_of_32 enveloped ≡ record { written = codes "hello"; fault = none }
decrypt-encrypt_example =
    decrypt-encrypt plain_cipher key_of_32 key_of_32 nonce_of_12 prefix_of_4 (codes "hello")
      plain_cipher-IsLawful refl refl refl seals_hello

chunk_nonce_injective_example : (◌≡◌ {A = ℕ} 3 3) × (true ≡ true)
chunk_nonce_injective_example =
    chunk_nonce_injective prefix_of_4 3 3 true true (omega arith) (omega arith) refl
