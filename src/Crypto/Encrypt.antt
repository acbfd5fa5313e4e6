-- ===== src/Crypto/Encrypt.antt =====
-- internal/crypto/encrypt.go: the chunked envelope. The cipher is AES-256-GCM and enters as its two
-- functions; the random bytes are arguments. A stream is the list of its bytes.
pub mod Nonce
pub mod Chunks
pub mod Envelope
use gitdr.Common.{
  ℕ, zero, suc, ◌+◌, ◌*◌, ◌/◌, ◌%◌, ◌^◌, Bool, true, false, not, Option, none, some, List, [], ◌∷◌,
  ◌++◌, Text, codes, text_eq, length, take, drop, is_nil, if◌then◌else◌, ltb, ◌==◌,
}

-- cipher.AEAD with a key: a nonce and a text, and no additional data.
pub record Aead : Type 0 where
  pub seal : Text → Text → Text → Text
  pub open_sealed : Text → Text → Text → Option Text

unfoldable pub enc_magic : Text
enc_magic = codes "GDRE"

abbrev pub enc_version : ℕ
enc_version = 1

unfoldable pub enc_chunk : ℕ
enc_chunk = 64 * 1024

abbrev pub enc_dek : ℕ
enc_dek = 32

abbrev pub enc_nonce : ℕ
enc_nonce = 12

abbrev pub enc_tag : ℕ
enc_tag = 16

abbrev pub enc_prefix : ℕ
enc_prefix = 4

abbrev pub encryption_key_size : ℕ
encryption_key_size = 32

abbrev pub byte_at : ℕ → ℕ → ℕ
byte_at counter i = counter / 2 ^ (8 * i) % 256

-- `chunkNonce`, for a prefix of four bytes.
unfoldable pub chunk_nonce : Text → ℕ → Bool → Text
chunk_nonce prefix counter last =
    prefix
    ++ (byte_at counter 6
        ∷ byte_at counter 5
        ∷ byte_at counter 4
        ∷ byte_at counter 3
        ∷ byte_at counter 2
        ∷ byte_at counter 1
        ∷ byte_at counter 0
        ∷ (if last then 1 else 0)
        ∷ [])

abbrev pub next_counter : ℕ → ℕ
next_counter counter = (counter + 1) % 2 ^ 64

-- The loop of `Encrypt`, for chunks of a size. A chunk is the last where nothing follows it.
unfoldable pub encrypt_chunks : ℕ → Aead → ℕ → Text → Text → ℕ → Text → Text
unfolding chunk_nonce
encrypt_chunks zero a size dek prefix counter plain = []
encrypt_chunks (suc fuel) a size dek prefix counter plain =
    let rest = drop size plain in
    let sealed = a.seal dek (chunk_nonce prefix counter (is_nil rest)) (take size plain) in
    let later = encrypt_chunks fuel a size dek prefix (next_counter counter) rest in
    if is_nil rest then sealed else sealed ++ later

-- The header besides the magic and the version.
pub record Header : Type 0 where
  pub wrap_nonce : Text
  pub wrapped : Text
  pub prefix : Text

abbrev pub header_bytes : Header → Text
header_bytes h = enc_magic ++ (enc_version ∷ (h.wrap_nonce ++ (h.wrapped ++ h.prefix)))

-- `Encrypt`, with its three random texts. Every round takes a byte off the text, so one round more
-- than it has bytes is enough.
unfoldable pub encrypt : Aead → Text → Text → Text → Text → Text → Option Text
unfolding encrypt_chunks enc_magic
encrypt a kek dek wrap_nonce prefix plain =
    if not (length kek == encryption_key_size)
    then none
    else some (
        header_bytes
          (record { wrap_nonce = wrap_nonce; wrapped = a.seal kek wrap_nonce dek; prefix = prefix })
        ++ encrypt_chunks (suc (length plain)) a enc_chunk dek prefix 0 plain)

pub data DecryptFault : Type 0 where
  bad_key short_header not_encrypted bad_version bad_header bad_data : DecryptFault

-- What was written by the end, and the error.
pub record Decrypted : Type 0 where
  pub written : Text
  pub fault : Option DecryptFault

abbrev pub stopped : DecryptFault → Decrypted
stopped fault = record { written = []; fault = some fault }

abbrev pub after_chunk : Text → Decrypted → Decrypted
after_chunk plain d = record { written = plain ++ d.written; fault = d.fault }

-- The loop of `Decrypt`.
unfoldable pub decrypt_chunks : ℕ → Aead → ℕ → Text → Text → ℕ → Text → Decrypted
unfolding chunk_nonce
decrypt_chunks zero a size dek prefix counter cipher = stopped bad_data
decrypt_chunks (suc fuel) a size dek prefix counter cipher =
    let rest = drop size cipher in
    let later = decrypt_chunks fuel a size dek prefix (next_counter counter) rest in
    elim (a.open_sealed dek (chunk_nonce prefix counter (is_nil rest)) (take size cipher)) [
      | none ↦ stopped bad_data
      | some plain ↦
          if is_nil rest then record { written = plain; fault = none } else after_chunk plain later
    ]

-- The bytes behind the magic and the version, cut at the fixed lengths.
unfoldable pub parse_header : Text → Header
parse_header body = record {
  wrap_nonce = take enc_nonce body;
  wrapped = take (enc_dek + enc_tag) (drop enc_nonce body);
  prefix = take enc_prefix (drop (enc_dek + enc_tag) (drop enc_nonce body));
}

abbrev pub body_length : ℕ
body_length = enc_nonce + (enc_dek + enc_tag) + enc_prefix

unfoldable pub decrypt_with : Aead → Text → Header → Text → Decrypted
unfolding decrypt_chunks enc_chunk
decrypt_with a kek h cipher = elim (a.open_sealed kek h.wrap_nonce h.wrapped) [
  | none ↦ stopped bad_header
  | some dek ↦ decrypt_chunks (suc (length cipher)) a (enc_chunk + enc_tag) dek h.prefix 0 cipher
]

abbrev pub decrypt_body : Aead → Text → Text → Decrypted
decrypt_body a kek body =
    decrypt_with a kek (parse_header body)
      (drop enc_prefix (drop (enc_dek + enc_tag) (drop enc_nonce body)))

-- `Decrypt`.
unfoldable pub decrypt : Aead → Text → Text → Decrypted
unfolding decrypt_with parse_header enc_magic
decrypt a kek cipher =
    if not (length kek == encryption_key_size)
    then stopped bad_key
    else if ltb (length cipher) (5 + body_length)
    then stopped short_header
    else if not (text_eq (take 4 cipher) enc_magic)
    then stopped not_encrypted
    else elim (drop 4 cipher) [
      | [] ↦ stopped short_header
      | version ∷ body ↦
          if not (version == enc_version) then stopped bad_version else decrypt_body a kek body
    ]
