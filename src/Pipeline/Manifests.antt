-- ===== src/Pipeline/Manifests.antt =====
-- internal/pipeline/manifests.go: where a run files its manifest, and the one way a manifest is
-- read back. The stored bytes, the listing, the signature check and the JSON decoder are the
-- destination's and the standard library's, and enter as functions.
pub mod Place
pub mod Newest
pub mod Read
pub mod Loader
pub mod Filed
use gitdr.Common.{
  ℕ, zero, suc, ◌+◌, ◌*◌, ◌^◌, Bool, true, false, not, ◌&&◌, Option, none, some, List, [], ◌∷◌,
  ◌++◌, Text, codes, text_eq, has_prefix, length, is_nil, if◌then◌else◌, ltb, leb, ◌==◌, slash,
  split_slash, join_slash, cut_last, path_join, path_dir, path_base, parse_stamp, format_stamp,
  is_digit, sort_by, take, drop, cut_suffix,
}
use gitdr.Pipeline.Manifest.{RepoEntry}
use mathlib.Core.List.{reverse}

-- source.Repo, as far as the keys are made of it.
pub record Repo : Type 0 where
  pub host : Text
  pub owner : Text
  pub name : Text

-- `Repo.Slug`.
unfoldable pub slug : Repo → Text
slug r = r.owner ++ (slash ∷ r.name)

-- dest.Object. The zero time is 0.
pub record Object : Type 0 where
  pub key : Text
  pub size : ℕ
  pub last_modified : ℕ

unfoldable pub manifest_suffix : Text
manifest_suffix = codes ".manifest.json"

unfoldable pub manifest_schema_prefix : Text
manifest_schema_prefix = codes "gitdr.manifest/"

unfoldable pub max_manifest_bytes : ℕ
max_manifest_bytes = 128 * 2 ^ 20

unfoldable pub max_signature_bytes : ℕ
max_signature_bytes = 2 ^ 16

-- The inner loop of `manifestAnchor`: the segments that both have from the start.
unfoldable pub shared_segments : List Text → List Text → List Text
shared_segments [] _ = []
shared_segments (_ ∷ _) [] = []
shared_segments (s ∷ shared) (t ∷ segs) =
    if text_eq s t then s ∷ shared_segments shared segs else []

unfoldable pub anchor_loop : List Text → List Repo → List Text
unfolding shared_segments
anchor_loop shared [] = shared
anchor_loop shared (r ∷ repos) = anchor_loop (shared_segments shared (split_slash r.owner)) repos

unfoldable pub manifest_anchor : List Repo → Text
unfolding anchor_loop
manifest_anchor [] = []
manifest_anchor (r ∷ repos) = join_slash (anchor_loop (split_slash r.owner) repos)

unfoldable pub manifest_dir : List Repo → Text
unfolding manifest_anchor
manifest_dir [] = []
manifest_dir (r ∷ repos) = path_join (r.host ∷ manifest_anchor (r ∷ repos) ∷ codes "manifests" ∷ [])

-- The loop of `manifestSearchDirs` over a namespace and those above it.
unfoldable pub search_loop : ℕ → Text → Text → List Text
search_loop zero host ns = []
search_loop (suc fuel) host ns =
    if is_nil ns
    then []
    else path_join (host ∷ ns ∷ codes "manifests" ∷ [])
      ∷ elim (cut_last ns) [ none ↦ [] | some (above, _) ↦ search_loop fuel host above ]

-- Each round drops a byte at least, so the length of the namespace is fuel enough.
unfoldable pub manifest_search_dirs : Text → Text → List Text
unfolding search_loop
manifest_search_dirs host owner =
    search_loop (length owner) host owner ++ (path_join (host ∷ codes "manifests" ∷ []) ∷ [])

-- `^[0-9]{8}T[0-9]{6}Z\.manifest\.json$`.
unfoldable pub digits_then : ℕ → (Text → Bool) → Text → Bool
digits_then zero rest s = rest s
digits_then (suc n) rest [] = false
digits_then (suc n) rest (c ∷ s) = is_digit c && digits_then n rest s

abbrev byte_then : ℕ → (Text → Bool) → Text → Bool
byte_then b rest [] = false
byte_then b rest (c ∷ s) = (c == b) && rest s

unfoldable pub manifest_name : Text → Bool
unfolding digits_then manifest_suffix
manifest_name =
    digits_then 8 (byte_then b'T' (digits_then 6 (byte_then b'Z' (λ s. text_eq s manifest_suffix))))

-- The range loop of `filedManifests`.
unfoldable pub filed_keys : List Object → Text → List Text
filed_keys [] dir = []
filed_keys (o ∷ objs) dir =
    let rest = filed_keys objs dir in
    if text_eq (path_dir o.key) dir && manifest_name (path_base o.key) then o.key ∷ rest else rest

abbrev pub whole : Text → Text
whole key = key

unfoldable pub filed_manifests : List Object → Text → List Text
unfolding filed_keys
filed_manifests objs dir = reverse (sort_by whole (filed_keys objs dir))

-- The instant a manifest's name claims.
unfoldable pub named_at : Text → Option ℕ
named_at key = parse_stamp (cut_suffix (path_base key) manifest_suffix)

unfoldable pub newest_loop : List Text → ℕ → Text
newest_loop [] now = []
newest_loop (key ∷ keys) now = elim (named_at key) [
  | none ↦ newest_loop keys now
  | some at ↦ let rest = newest_loop keys now in if ltb now at then rest else key
]

-- `newestManifest`: none for a listing that fails, [] where there is no manifest.
unfoldable pub newest_manifest : (Text → Option (List Object)) → Text → ℕ → Option Text
unfolding newest_loop
newest_manifest list dir now = elim (list (dir ++ (slash ∷ []))) [
  | none ↦ none
  | some objs ↦ some (newest_loop (filed_manifests objs dir) now)
]
