-- ===== src/Pipeline/Manifests/Read.antt =====
-- internal/pipeline/manifests.go: reading a manifest back, with the checks it has to pass.
use gitdr.Common.{
  ℕ, Bool, not, Option, none, some, List, [], ◌∷◌, ◌++◌, Text, codes, text_eq, has_prefix, length,
  if◌then◌else◌, ltb, path_base, format_stamp, trim_space,
}
use gitdr.Pipeline.Manifest.{RepoEntry}
use gitdr.Pipeline.Manifests.{
  Object, manifest_suffix, manifest_schema_prefix, max_manifest_bytes, max_signature_bytes,
}

-- What a destination's reader gives: its bytes, and whether it then fails instead of ending.
pub record Body : Type 0 where
  pub bytes : Text
  pub fails : Bool

-- The read side of a destination. A request that fails answers none.
pub record Store : Type 0 where
  pub list : Text → Option (List Object)
  pub get : Text → Option Body

-- The head of a manifest besides its repositories.
pub record ManifestHead : Type 0 where
  pub schema : Text
  pub run_id : Text
  pub finished_at : ℕ

pub record ManifestDoc : Type 0 where
  pub head : ManifestHead
  pub repos : List RepoEntry

-- What reading needs of the standard library: base64, an Ed25519 check of a signature over bytes
-- by a public key, and the JSON decoder.
pub record Codecs : Type 0 where
  pub base64 : Text → Option Text
  pub verify : Text → Text → Text → Bool
  pub decode : Text → Option ManifestDoc

pub data Refusal : Type 0 where
  not_base64 wrong_signature wrong_schema wrong_name : Refusal

pub data LoadError : Type 0 where
  -- The listed size, 0 where only the read found out.
  too_large : ℕ → LoadError
  unreadable signature_unreadable unparsed : LoadError
  refused : Refusal → LoadError

pub data Loaded {ℓ} (A : Type ℓ) : Type ℓ where
  ok : A → Loaded A
  err : LoadError → Loaded A

infixl 5 ◌>>=◌
abbrev pub ◌>>=◌ {ℓ κ} : {A : Type ℓ} {B : Type κ} → Loaded A → (A → Loaded B) → Loaded B
ok a >>= f = f a
err e >>= f = err e

pub data Capped : Type 0 where
  got : Text → Capped
  over_limit failed_read : Capped

-- `readCapped`: at most one byte past the limit is read.
unfoldable pub read_capped : Store → Text → ℕ → Capped
read_capped st key limit = elim (st.get key) [
  | none ↦ failed_read
  | some body ↦
      if ltb limit (length body.bytes)
      then over_limit
      else if body.fails
      then failed_read
      else got body.bytes
]

-- `oversized`: the refusal by the listed size.
unfoldable pub oversized : ℕ → Option LoadError
oversized size = if ltb max_manifest_bytes size then some (too_large size) else none

unfoldable pub check_signature : Codecs → Store → Text → Text → Text → Loaded Text
check_signature c st pub_key key raw =
    elim (read_capped st (key ++ codes ".sig") max_signature_bytes) [
      | got b64 ↦ elim (c.base64 (trim_space b64)) [
        | none ↦ err (refused not_base64)
        | some sig ↦ if c.verify pub_key raw sig then ok raw else err (refused wrong_signature)
      ]
      | over_limit ↦ err signature_unreadable
      | failed_read ↦ err signature_unreadable
    ]

-- With no public key the signature is not looked at.
unfoldable pub check_signed : Codecs → Store → Option Text → Text → Text → Loaded Text
check_signed c st none key raw = ok raw
check_signed c st (some pub_key) key raw = check_signature c st pub_key key raw

unfoldable pub read_manifest_bytes : Codecs → Store → Option Text → Text → Loaded Text
read_manifest_bytes c st key_of key = elim (read_capped st key max_manifest_bytes) [
  | got raw ↦ check_signed c st key_of key raw
  | over_limit ↦ err (too_large 0)
  | failed_read ↦ err unreadable
]

unfoldable pub check_manifest_head : Text → ManifestHead → Option Refusal
check_manifest_head key head =
    if not (has_prefix head.schema manifest_schema_prefix)
    then some wrong_schema
    else if not (text_eq (path_base key) (format_stamp head.finished_at ++ manifest_suffix))
    then some wrong_name
    else none

-- The document of the bytes, once its head is checked.
unfoldable pub checked_doc : Codecs → Text → Text → Loaded ManifestDoc
checked_doc c key raw = elim (c.decode raw) [
  | none ↦ err unparsed
  | some m ↦ elim (check_manifest_head key m.head) [ none ↦ ok m | some r ↦ err (refused r) ]
]

-- `loadManifest`.
unfoldable pub load_manifest : Codecs → Store → Option Text → Text → Loaded ManifestDoc
load_manifest c st key_of key = do raw ← read_manifest_bytes c st key_of key; checked_doc c key raw

-- The entries that a reader's callback keeps, in order.
unfoldable pub keep_entries : (RepoEntry → Bool) → List RepoEntry → List RepoEntry
keep_entries keeps [] = []
keep_entries keeps (e ∷ es) = let rest = keep_entries keeps es in if keeps e then e ∷ rest else rest

-- `readManifestEntries`, with a callback that keeps some of the entries.
unfoldable pub read_manifest_entries :
    Codecs → Store → Option Text → Text → (RepoEntry → Bool) → Loaded ManifestDoc
read_manifest_entries c st key_of key keeps = do
  m ← load_manifest c st key_of key
  ok (record { head = m.head; repos = keep_entries keeps m.repos })
