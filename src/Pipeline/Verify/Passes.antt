-- ===== src/Pipeline/Verify/Passes.antt =====
-- What a manifest that verifies has been shown to be.
use mathlib.Core.Path.{subst}
use gitdr.Common.{
  ℕ, ◌+◌, ◌≡◌, refl, sym, ◌∙◌, ap, inl, inr, true, false, Option, none, some, List, [], ◌∷◌, ◌++◌,
  map, arith, Text, codes, equal_fold, length, is_nil, trim_space, Bool-cases, Option-cases, All,
  Rearranged,
}
use gitdr.Pipeline.Manifest.{ArtifactInfo}
use gitdr.Pipeline.Manifests.Loader.{ReadsAs, SignedBy, read_capped-ReadsAs, Capped-cases}
use gitdr.Pipeline.Manifests.Read.{Body, Store, Codecs, ManifestDoc, read_capped}
use gitdr.Pipeline.Manifests.{max_signature_bytes}
use gitdr.Pipeline.Verify.Order.{read_back-map}
use gitdr.Pipeline.Verify.{
  VerifyFault, VerifyResult, ArtifactCheck, get_sha, check_artifact, all_artifacts, Job, numbered,
  read_back, count_checks, is_manifest, signed, verify_artifacts, verify_doc, verify_signed,
  verify_within,
}

-- The artifact is stored whole, with the checksum the manifest records.
abbrev pub Intact : Store → (Text → Text) → ArtifactInfo → Type 0
Intact st hash a =
    (bytes : Text) × (st.get a.key ≡ some (record { bytes = bytes; fails = false }))
    × (equal_fold (hash bytes) a.sha256 ≡ true)

check_artifact-Intact :
    (st : Store) (hash : Text → Text) (a : ArtifactInfo) (body : Option Body)
    → st.get a.key ≡ body
    → (check_artifact st hash a).ok ≡ true
    → Intact st hash a
unfolding check_artifact get_sha
check_artifact-Intact st hash a none e h = absurd (ground (arith, e))
check_artifact-Intact st hash a (some body) e h = elim (Bool-cases body.fails) [
  | inl f ↦ absurd (ground (arith, e, f))
  | inr f ↦ (body.bytes, ground (arith, e, f), ground (arith, e, f))
]

is_nil-append : {A : Type 0} (xs : List A) (x : A) → is_nil (xs ++ x ∷ []) ≡ false
is_nil-append [] x = refl
is_nil-append (_ ∷ xs) x = refl

failures_stay :
    (checks : List ArtifactCheck) (res : VerifyResult)
    → is_nil res.failures ≡ false
    → is_nil (count_checks checks res).failures ≡ false
unfolding count_checks
failures_stay [] res h = h
failures_stay (c ∷ checks) res h = elim (Bool-cases c.ok) [
  | inl e ↦
      ground (arith, e, failures_stay checks (record res { artifacts_ok = res.artifacts_ok + 1 }) h)
  | inr e ↦ ground (
    arith,
    e,
    failures_stay checks (record res { failures = res.failures ++ (c.failure ∷ []) })
        (is_nil-append res.failures c.failure),
  )
]

-- All the checks passed, and they are counted on top of those before.
abbrev Counted : List ArtifactCheck → VerifyResult → VerifyResult → Type 0
Counted checks res after =
    All (λ (c : ArtifactCheck). c.ok ≡ true) checks
    × (after.artifacts_ok ≡ res.artifacts_ok + length checks)
    × (after.artifacts_checked ≡ res.artifacts_checked)
    × (after.signature_valid ≡ res.signature_valid)

count_checks-Counted :
    (checks : List ArtifactCheck) (res : VerifyResult)
    → is_nil (count_checks checks res).failures ≡ true
    → Counted checks res (count_checks checks res)
unfolding count_checks
count_checks-Counted [] res h = (tt, omega arith, refl, refl)
count_checks-Counted (c ∷ checks) res h = elim (Bool-cases c.ok) [
  | inl e ↦
      let (all, ok, checked, sig) =
        count_checks-Counted checks (record res { artifacts_ok = res.artifacts_ok + 1 })
          (ground (arith, e, h)) in
      ((e, all), ground (arith, e, ok), ground (arith, e, checked), ground (arith, e, sig))
  | inr e ↦ absurd (
      ground (
        arith,
        e,
        h,
        failures_stay checks (record res { failures = res.failures ++ (c.failure ∷ []) })
            (is_nil-append res.failures c.failure),
      ))
]

length-map : {A B : Type 0} (f : A → B) (xs : List A) → length (map f xs) ≡ length xs
length-map f [] = refl
length-map f (x ∷ xs) = omega (arith, length-map f xs)

All-Intact :
    (st : Store) (hash : Text → Text) (artifacts : List ArtifactInfo)
    → All (λ (c : ArtifactCheck). c.ok ≡ true) (map (check_artifact st hash) artifacts)
    → All (Intact st hash) artifacts
All-Intact st hash [] h = tt
All-Intact st hash (a ∷ artifacts) h =
    (check_artifact-Intact st hash a (st.get a.key) refl h.0, All-Intact st hash artifacts h.1)

-- What the artifacts of a manifest that verifies are, and the counts that are reported.
abbrev pub Verified : Store → (Text → Text) → List ArtifactInfo → VerifyResult → Type 0
Verified st hash artifacts res =
    All (Intact st hash) artifacts
    × (res.artifacts_ok ≡ length artifacts)
    × (res.artifacts_checked ≡ length artifacts)
    × (res.signature_valid ≡ true)

module _ (c : Codecs) (st : Store) (hash : Text → Text) (pub_key : Text)
    (order : List Job → List Job) (key : Text)
    (orders : (jobs : List Job) → Rearranged jobs (order jobs)) where
  verify_artifacts-Verified :
      (artifacts : List ArtifactInfo)
      → (verify_artifacts c st hash pub_key order key artifacts).1 ≡ none
      → Verified st hash artifacts (verify_artifacts c st hash pub_key order key artifacts).0
  unfolding verify_artifacts
  verify_artifacts-Verified artifacts h =
      let check : ArtifactInfo → ArtifactCheck = check_artifact st hash in
      let checks : List ArtifactCheck = read_back check artifacts (order (numbered 0 artifacts)) in
      let start : VerifyResult = record signed { artifacts_checked = length checks } in
      let same : checks ≡ map check artifacts =
        read_back-map check artifacts (order (numbered 0 artifacts))
          (orders (numbered 0 artifacts)) in
      let size : length checks ≡ length artifacts = ap length same ∙ length-map check artifacts in
      let (all, ok, checked, sig) = count_checks-Counted checks start (ground (arith, h)) in
      (
        All-Intact st hash artifacts (subst (All (λ (k : ArtifactCheck). k.ok ≡ true)) same all),
        omega (arith, ok, size),
        omega (arith, checked, size),
        sig,
      )

  verify_doc-Verified :
      (canon : Text)
      → (verify_doc c st hash pub_key order key canon).1 ≡ none
      → (m : ManifestDoc) × (c.decode canon ≡ some m)
        × (is_manifest m.head.schema ≡ true)
        × Verified st hash (all_artifacts m.repos) (verify_doc c st hash pub_key order key canon).0
  unfolding verify_doc
  verify_doc-Verified canon h = elim (Option-cases (c.decode canon)) [
    | inl e ↦ absurd (ground (arith, e, h))
    | inr (m, e) ↦ elim (Bool-cases (is_manifest m.head.schema)) [
      | inr w ↦ absurd (ground (arith, e, w, h))
      | inl w ↦
          let run = verify_artifacts c st hash pub_key order key (all_artifacts m.repos) in
          let same : verify_doc c st hash pub_key order key canon ≡ run = ground (arith, e, w) in
          (
            m,
            e,
            w,
            subst
                (λ (r : VerifyResult × Option VerifyFault).
                  Verified st hash (all_artifacts m.repos) r.0)
                (sym same)
                (verify_artifacts-Verified (all_artifacts m.repos)
                  (sym (ap (λ (r : VerifyResult × Option VerifyFault). r.1) same) ∙ h)),
          )
    ]
  ]

  verify_signed-Verified :
      (canon : Text)
      → (verify_signed c st hash pub_key order key canon).1 ≡ none
      → SignedBy c st pub_key key canon
        × ((m : ManifestDoc) × (c.decode canon ≡ some m)
            × (is_manifest m.head.schema ≡ true)
            × Verified st hash
                (all_artifacts m.repos)
                (verify_signed c st hash pub_key order key canon).0)
  unfolding verify_signed
  verify_signed-Verified canon h =
      elim (Capped-cases (read_capped st (key ++ codes ".sig") max_signature_bytes)) [
        | inr (inl e) ↦ absurd (ground (arith, e, h))
        | inr (inr e) ↦ absurd (ground (arith, e, h))
        | inl (b64, e) ↦ elim (Option-cases (c.base64 (trim_space b64))) [
          | inl f ↦ absurd (ground (arith, e, f, h))
          | inr (sig, f) ↦ elim (Bool-cases (c.verify pub_key canon sig)) [
            | inr v ↦ absurd (ground (arith, e, f, v, h))
            | inl v ↦
                let run = verify_doc c st hash pub_key order key canon in
                let same : verify_signed c st hash pub_key order key canon ≡ run =
                  ground (arith, e, f, v) in
                let (m, d, w, done) =
                  verify_doc-Verified canon
                    (sym (ap (λ (r : VerifyResult × Option VerifyFault). r.1) same) ∙ h) in
                (
                  (
                    b64,
                    sig,
                    read_capped-ReadsAs st (key ++ codes ".sig") max_signature_bytes e,
                    f,
                    v,
                  ),
                  (
                    m,
                    d,
                    w,
                    subst
                        (λ (r : VerifyResult × Option VerifyFault).
                          Verified st hash (all_artifacts m.repos) r.0)
                        (sym same) done,
                  ),
                )
          ]
        ]
      ]

-- A manifest that verifies is signed and its artifacts are stored as it says. Where `Verify` answers
-- without an error, whatever order its reads finish in: the manifest was read whole within the limit;
-- the signature beside it holds over those bytes, which decode to a document whose
-- schema is a manifest's or is left out, so that a signed document without a schema and without
-- entries passes too; and every artifact that one of its entries lists is read whole, with the checksum the manifest records. The
-- numbers checked and found right are both the number of those artifacts.
pub verify_within-Verified :
    (c : Codecs) (st : Store) (hash : Text → Text) (pub_key : Text) (order : List Job → List Job)
    (key : Text) (limit : ℕ)
    → ((jobs : List Job) → Rearranged jobs (order jobs))
    → (verify_within c st hash pub_key order key limit).1 ≡ none
    → (canon : Text) × ReadsAs st key limit canon
      × SignedBy c st pub_key key canon
      × ((m : ManifestDoc) × (c.decode canon ≡ some m)
          × (is_manifest m.head.schema ≡ true)
          × Verified st hash
              (all_artifacts m.repos)
              (verify_within c st hash pub_key order key limit).0)
unfolding verify_within
verify_within-Verified c st hash pub_key order key limit orders h =
    elim (Capped-cases (read_capped st key limit)) [
      | inr (inl e) ↦ absurd (ground (arith, e, h))
      | inr (inr e) ↦ absurd (ground (arith, e, h))
      | inl (canon, e) ↦
          let run = verify_signed c st hash pub_key order key canon in
          let same : verify_within c st hash pub_key order key limit ≡ run = ground (arith, e) in
          let (s, (m, d, w, done)) =
            verify_signed-Verified c st hash pub_key order key orders canon
              (sym (ap (λ (r : VerifyResult × Option VerifyFault). r.1) same) ∙ h) in
          (
            canon,
            read_capped-ReadsAs st key limit e,
            s,
            (
              m,
              d,
              w,
              subst
                  (λ (r : VerifyResult × Option VerifyFault).
                    Verified st hash (all_artifacts m.repos) r.0)
                  (sym same) done,
            ),
          )
    ]
