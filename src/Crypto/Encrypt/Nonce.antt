-- ===== src/Crypto/Encrypt/Nonce.antt =====
-- No two chunks of a stream share a nonce.
use gitdr.Common.{ℕ, ◌^◌, ◌<◌, ◌≡◌, Bool, [], ◌∷◌, ◌++◌, arith, Text}
use gitdr.Crypto.Encrypt.{chunk_nonce}

append_cancel : (p xs ys : Text) → p ++ xs ≡ p ++ ys → xs ≡ ys
append_cancel [] xs ys h = h
append_cancel (c ∷ p) xs ys h = append_cancel p xs ys (ground (arith, h))

-- The nonce tells the chunks of a stream apart: under one prefix, two chunks below 2 ^ 56 with one
-- nonce are one chunk, and both or neither are flagged as the last.
pub chunk_nonce_injective :
    (prefix : Text) (i j : ℕ) (b d : Bool)
    → i < 2 ^ 56
    → j < 2 ^ 56
    → chunk_nonce prefix i b ≡ chunk_nonce prefix j d
    → (i ≡ j) × (b ≡ d)
unfolding chunk_nonce
chunk_nonce_injective prefix i j b d p q h =
    let same = append_cancel prefix _ _ h in (ground (arith, same), ground (arith, same))
