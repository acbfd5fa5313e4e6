-- ===== src/Pipeline/Manifests/Loader.antt =====
-- What a manifest that loads has been shown to be.
use gitdr.Common.{
  ℕ, ◌≤◌, ◌≡◌, refl, sym, ◌∙◌, ap, inl, inr, true, false, none, some, ◌++◌, arith, Text, codes,
  text_eq_iff, has_prefix, length, if◌then◌else◌, Option-cases, ◌⊎◌, path_base, format_stamp,
  trim_space,
}
use gitdr.Pipeline.Manifests.{
  manifest_suffix, manifest_schema_prefix, max_manifest_bytes, max_signature_bytes,
}
use gitdr.Pipeline.Manifests.Read.{
  Store, ManifestDoc, Codecs, Loaded, ok, err, Capped, got, over_limit, failed_read, refused,
  not_base64, wrong_signature, ◌>>=◌, read_capped, check_signature, check_signed,
  read_manifest_bytes, check_manifest_head, checked_doc, load_manifest,
}

-- The object at the key is read whole, within the limit.
abbrev pub ReadsAs : Store → Text → ℕ → Text → Type 0
ReadsAs st key limit raw =
    (st.get key ≡ some (record { bytes = raw; fails = false })) × (length raw ≤ limit)

-- The signature beside the key holds over the bytes.
abbrev pub SignedBy : Codecs → Store → Text → Text → Text → Type 0
SignedBy c st pub_key key raw =
    (b64 : Text) × (sig : Text) × ReadsAs st (key ++ codes ".sig") max_signature_bytes b64
    × (c.base64 (trim_space b64) ≡ some sig)
    × (c.verify pub_key raw sig ≡ true)

pub read_capped-ReadsAs :
    (st : Store) (key : Text) (limit : ℕ) {raw : Text}
    → read_capped st key limit ≡ got raw
    → ReadsAs st key limit raw
unfolding read_capped
read_capped-ReadsAs st key limit h = (ground arith, ground arith)

pub Capped-cases :
    (r : Capped) → ((raw : Text) × (r ≡ got raw)) ⊎ ((r ≡ over_limit) ⊎ (r ≡ failed_read))
Capped-cases (got raw) = inl (raw, refl)
Capped-cases over_limit = inr (inl refl)
Capped-cases failed_read = inr (inr refl)

check_signature-SignedBy :
    (c : Codecs) (st : Store) (pub_key key raw : Text) {out : Text}
    → check_signature c st pub_key key raw ≡ ok out
    → (out ≡ raw) × SignedBy c st pub_key key raw
unfolding check_signature
check_signature-SignedBy c st pub_key key raw {out} h =
    elim (Capped-cases (read_capped st (key ++ codes ".sig") max_signature_bytes)) [
      | inl (b64, e) ↦
          let h' : elim (c.base64 (trim_space b64)) [
            | none ↦ err (refused not_base64)
            | some sig ↦ if c.verify pub_key raw sig then ok raw else err (refused wrong_signature)
          ]
              ≡ ok out =
            rw (e, check_signature) at h in
          elim (Option-cases (c.base64 (trim_space b64))) [
            | inl f ↦ absurd (ground arith)
            | inr (sig, f) ↦ (
              ground arith,
              (
                b64,
                sig,
                read_capped-ReadsAs st (key ++ codes ".sig") max_signature_bytes e,
                f,
                ground arith,
              ),
            )
          ]
      | inr (inl e) ↦ absurd (ground arith)
      | inr (inr e) ↦ absurd (ground arith)
    ]

read_manifest_bytes-signed :
    (c : Codecs) (st : Store) (pub_key key : Text) {raw : Text}
    → read_manifest_bytes c st (some pub_key) key ≡ ok raw
    → ReadsAs st key max_manifest_bytes raw × SignedBy c st pub_key key raw
unfolding read_manifest_bytes check_signed
read_manifest_bytes-signed c st pub_key key {raw} h =
    elim (Capped-cases (read_capped st key max_manifest_bytes)) [
      | inl (r, e) ↦
          let (same, signed) =
            check_signature-SignedBy c st pub_key key r
              (let g : check_signature c st pub_key key r ≡ ok raw = ground arith in g) in
          let reads = read_capped-ReadsAs st key max_manifest_bytes e in
          (rw same reads, rw same signed)
      | inr (inl e) ↦ absurd (ground arith)
      | inr (inr e) ↦ absurd (ground arith)
    ]

checked_doc-checks :
    (c : Codecs) (key raw : Text) {m : ManifestDoc}
    → checked_doc c key raw ≡ ok m
    → (c.decode raw ≡ some m)
      × (has_prefix m.head.schema manifest_schema_prefix ≡ true)
      × (path_base key ≡ format_stamp m.head.finished_at ++ manifest_suffix)
unfolding checked_doc check_manifest_head
checked_doc-checks c key raw {m} h = elim (Option-cases (c.decode raw)) [
  | inl e ↦ absurd (ground arith)
  | inr (d, e) ↦
      let name = text_eq_iff (path_base key) (format_stamp d.head.finished_at ++ manifest_suffix) in
      let same : d ≡ m = ground arith in
      let schema : has_prefix d.head.schema manifest_schema_prefix ≡ true = ground arith in
      let named : path_base key ≡ format_stamp d.head.finished_at ++ manifest_suffix =
        ground (arith, name) in
      rw (← same) (e, schema, named)
]

bind-ok :
    {A B : Type 0} (x : Loaded A) (f : A → Loaded B) {b : B}
    → (x >>= f) ≡ ok b
    → (a : A) × (x ≡ ok a) × (f a ≡ ok b)
bind-ok (ok a) f h = (a, refl, h)
bind-ok (err e) f h = cc

-- A manifest that loads with a public key is what its key says. Its object was read whole, in at
-- most 128 MiB; the signature beside it holds over exactly those bytes; they decode to the
-- document that is returned; its schema is a run-manifest's, and its name is the stamp of its own
-- finish.
pub load_manifest-trusted :
    (c : Codecs) (st : Store) (pub_key key : Text) {m : ManifestDoc}
    → load_manifest c st (some pub_key) key ≡ ok m
    → (raw : Text) × ReadsAs st key max_manifest_bytes raw
      × SignedBy c st pub_key key raw
      × (c.decode raw ≡ some m)
      × (has_prefix m.head.schema manifest_schema_prefix ≡ true)
      × (path_base key ≡ format_stamp m.head.finished_at ++ manifest_suffix)
unfolding load_manifest
load_manifest-trusted c st pub_key key h =
    let (raw, e, f) = bind-ok (read_manifest_bytes c st (some pub_key) key) (checked_doc c key) h in
    let (reads, signed) = read_manifest_bytes-signed c st pub_key key e in
    let (decoded, schema, named) = checked_doc-checks c key raw f in
    (raw, reads, signed, decoded, schema, named)

-- A byte copy under another name does not pass as another run: if two keys hold the same bytes and
-- both load with a public key, their names are the same.
pub load_manifest_copy :
    (c : Codecs) (st : Store) (pub_key key copy : Text) {m n : ManifestDoc}
    → st.get key ≡ st.get copy
    → load_manifest c st (some pub_key) key ≡ ok m
    → load_manifest c st (some pub_key) copy ≡ ok n
    → path_base key ≡ path_base copy
load_manifest_copy c st pub_key key copy {m} {n} same h k =
    let (raw, reads, _, decoded, _, named) = load_manifest-trusted c st pub_key key h in
    let (raw', reads', _, decoded', _, named') = load_manifest-trusted c st pub_key copy k in
    let bytes : raw ≡ raw' = ground (arith, reads.0, reads'.0) in
    let doc : m ≡ n = ground (arith, decoded, decoded', bytes) in
    named
    ∙ (ap (λ (d : ManifestDoc). format_stamp d.head.finished_at ++ manifest_suffix) doc
        ∙ sym named')
