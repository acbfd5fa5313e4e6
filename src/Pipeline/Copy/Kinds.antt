-- ===== src/Pipeline/Copy/Kinds.antt =====
-- backupRepo: the kinds of what is ready when its first write begins.
use gitdr.Common.{
  ◌≡◌, ◌≢◌, inl, inr, refl, sym, ap, ◌∙◌, Bool, true, false, not, ◌&&◌, Option, none, some, List,
  [], ◌∷◌, ◌++◌, arith, Text, GoMap, codes, text_eq, text_eq_iff, leb, Bool-cases, Option-cases,
  All, Member, here, there, Rearranged, none_left, keep, swap, chain, Rearranged-refl,
  Rearranged-All, Rearranged-DistinctKeys, DistinctKeys,
}
use mathlib.Core.Path.{ap₂, subst}
use gitdr.Common.Results.{
  Result, ok, ◌>>=◌, ◌>>◌, guard, or_fail, >>=-eq-ok, guard-eq-ok, or_fail-eq-ok,
}
use gitdr.Pipeline.Manifests.{Repo}
use gitdr.Pipeline.Upload.{
  Staged, LocalFile, stage_bytes, stage_file, stage_files, insert_sized, largest_first,
}
use gitdr.Pipeline.Upload.Progress.{staged_kind, staged_kinds, listed_kinds}
use gitdr.Pipeline.Copy.{
  Answers, Metadata, found, transient, refused, Prepared, lfs_part, bundle_part, meta_part,
  sidecar_part, prepare, CopyFault, unstaged, mirror_left, gather, local_files, make_ready,
}
use gitdr.Pipeline.Copy

abbrev pub pick : Bool → Text → List Text
pick true k = k ∷ []
pick false k = []

abbrev pub file_kinds : List LocalFile → List Text
file_kinds [] = []
file_kinds (f ∷ files) = f.kind ∷ file_kinds files

abbrev lacks : Text → List Text → Bool
lacks k [] = true
lacks k (j ∷ ks) = not (text_eq j k) && lacks k ks

abbrev distinct : List Text → Bool
distinct [] = true
distinct (k ∷ ks) = lacks k ks && distinct ks

pub lacks-All :
    (k : Text) (xs : List Staged) → lacks k (staged_kinds xs) ≡ true → All (λ a. k ≢ a.kind) xs
lacks-All k [] h = tt
lacks-All k (a ∷ xs) h =
    (λ e. ground (arith, text_eq_iff a.kind k, sym e), lacks-All k xs (ground arith))

distinct-DistinctKeys :
    (xs : List Staged) → distinct (staged_kinds xs) ≡ true → DistinctKeys staged_kind xs
distinct-DistinctKeys [] h = tt
distinct-DistinctKeys (a ∷ xs) h =
    (lacks-All a.kind xs (ground arith), distinct-DistinctKeys xs (ground arith))

stage_bytes-kind :
    (seal : Option (Text → Option Text)) (hash : Text → Text) (k key plain : Text) {a : Staged}
    → stage_bytes seal hash k key plain ≡ some a
    → a.kind ≡ k
unfolding stage_bytes
stage_bytes-kind none hash k key plain h = ground arith
stage_bytes-kind (some f) hash k key plain h = elim (Option-cases (f plain)) [
  | inl bad ↦ ground arith
  | inr (stored, good) ↦ ground arith
]

stage_file-kind :
    (seal : Option (Text → Option Text)) (hash : Text → Text) (f : LocalFile) {a : Staged}
    → stage_file seal hash f ≡ some a
    → a.kind ≡ f.kind
unfolding stage_file
stage_file-kind seal hash f h = elim (Bool-cases f.readable) [
  | inl good ↦ stage_bytes-kind seal hash f.kind f.key f.plain (rw (good, stage_file) at h)
  | inr bad ↦ cc (rw (bad, stage_file) at h)
]

some_same : {A : Type 0} {a b : A} → some a ≡ some b → a ≡ b
some_same h = cc

stage_files-kinds :
    (seal : Option (Text → Option Text)) (hash : Text → Text) (files : List LocalFile)
    {staged : List Staged}
    → stage_files seal hash files ≡ some staged
    → staged_kinds staged ≡ file_kinds files
unfolding stage_files
stage_files-kinds seal hash [] h = ground arith
stage_files-kinds seal hash (f ∷ files) h = elim (Option-cases (stage_file seal hash f)) [
  | inl bad ↦ cc (rw (bad, stage_files) at h)
  | inr (a, good) ↦ elim (Option-cases (stage_files seal hash files)) [
    | inl bad ↦ cc (rw (good, bad, stage_files) at h)
    | inr (rest, all) ↦
        sym (ap staged_kinds (some_same (rw (good, all, stage_files) at h)))
        ∙ ap₂ (λ k ks. k ∷ ks) (stage_file-kind seal hash f good)
            (stage_files-kinds seal hash files all)
  ]
]

insert_sized-Rearranged : (a : Staged) (xs : List Staged) → Rearranged (a ∷ xs) (insert_sized a xs)
unfolding insert_sized
insert_sized-Rearranged a [] = keep none_left
insert_sized-Rearranged a (b ∷ xs) = elim (Bool-cases (leb b.size a.size)) [
  | inl e ↦ rw e (Rearranged-refl (a ∷ b ∷ xs))
  | inr e ↦ rw e (chain swap (keep (insert_sized-Rearranged a xs)))
]

pub largest_first-Rearranged : (xs : List Staged) → Rearranged xs (largest_first xs)
unfolding largest_first
largest_first-Rearranged [] = none_left
largest_first-Rearranged (a ∷ xs) =
    chain (keep (largest_first-Rearranged xs)) (insert_sized-Rearranged a (largest_first xs))

one_of :
    (o : Option Staged) {staged : List Staged}
    → (or_fail o unstaged >>= λ m. ok (m ∷ [])) ≡ ok staged
    → (m : Staged) × (o ≡ some m) × (staged ≡ m ∷ [])
one_of none h = cc
one_of (some m) h = (m, refl, cc)

-- What `prepare` makes ready: its parts, and the kinds of each.
pub record Shape (p : Prepared) (metadata : Metadata) : Type 0 where
  pub first : List Staged
  pub sidecar : List Staged
  pub lfs : Bool
  pub staged : p.staged ≡ largest_first first ++ sidecar
  pub first_kinds :
      staged_kinds first
      ≡ (pick lfs (codes "lfs") ++ pick p.has_refs (codes "bundle"))
        ++ pick (Copy.is_found metadata) (codes "meta")
  pub sidecar_kinds : staged_kinds sidecar ≡ pick p.has_refs (codes "sha256")

file_kinds-append :
    (xs ys : List LocalFile) → file_kinds (xs ++ ys) ≡ file_kinds xs ++ file_kinds ys
file_kinds-append [] ys = refl
file_kinds-append (x ∷ xs) ys = ap (λ ks. x.kind ∷ ks) (file_kinds-append xs ys)

pub staged_kinds-append :
    (xs ys : List Staged) → staged_kinds (xs ++ ys) ≡ staged_kinds xs ++ staged_kinds ys
staged_kinds-append [] ys = refl
staged_kinds-append (x ∷ xs) ys = ap (λ ks. x.kind ∷ ks) (staged_kinds-append xs ys)

same_files :
    {x y : List LocalFile} → ◌≡◌ {A = Result CopyFault (List LocalFile)} (ok x) (ok y) → x ≡ y
same_files h = cc

ok_same : {p q : Prepared} → ◌≡◌ {A = Result CopyFault Prepared} (ok p) (ok q) → p ≡ q
ok_same h = cc

module _ (seal : Option (Text → Option Text)) (hash : Text → Text) (repo : Repo) (date : Text) where
  lfs_part-kinds :
      (a : Answers) (has : Bool) {files : List LocalFile}
      → lfs_part seal hash repo date a has ≡ ok files
      → (b : Bool) × (file_kinds files ≡ pick b (codes "lfs"))
  unfolding lfs_part
  lfs_part-kinds a has h = elim (Bool-cases (has && a.lfs_on)) [
    | inr off ↦ (false, ground arith)
    | inl on ↦ elim (Bool-cases a.lfs_files) [
      | inr empty ↦ (false, ground arith)
      | inl full ↦ (true, ground arith)
    ]
  ]

  bundle_part-kinds :
      (a : Answers) (has : Bool) (copied : GoMap Text) {files : List LocalFile}
      → bundle_part seal hash repo date a has copied ≡ ok files
      → file_kinds files ≡ pick has (codes "bundle")
  unfolding bundle_part
  bundle_part-kinds a false copied h = ground arith
  bundle_part-kinds a true copied h = ground arith

  meta_part-kinds :
      (m : Metadata) {staged : List Staged}
      → meta_part seal hash repo date m ≡ ok staged
      → staged_kinds staged ≡ pick (Copy.is_found m) (codes "meta")
  unfolding meta_part
  meta_part-kinds (found meta) h =
      let (m, good, is) = one_of _ h in
      rw is (ap (λ k. k ∷ []) (stage_bytes-kind seal hash (codes "meta") _ meta good))
  meta_part-kinds transient h = ground arith
  meta_part-kinds refused h = ground arith

  sidecar_part-kinds :
      (has : Bool) (files : List Staged) {staged : List Staged}
      → sidecar_part seal hash repo date has files ≡ ok staged
      → staged_kinds staged ≡ pick has (codes "sha256")
  unfolding sidecar_part
  sidecar_part-kinds false files h = ground arith
  sidecar_part-kinds true files h =
      let (m, good, is) = one_of _ h in
      rw is (ap (λ k. k ∷ []) (stage_bytes-kind seal hash (codes "sha256") _ _ good))

  local_files-kinds :
      (a : Answers) (copied : GoMap Text) (has : Bool) {files : List LocalFile}
      → local_files seal hash repo date a (copied, has) ≡ ok files
      → (b : Bool) × (file_kinds files ≡ pick b (codes "lfs") ++ pick has (codes "bundle"))
  unfolding local_files
  local_files-kinds a copied has h =
      let (lfs, is_lfs, h1) =
        >>=-eq-ok (lfs_part seal hash repo date a has)
          (λ lfs. bundle_part seal hash repo date a has copied >>= λ bundle.
            guard a.mirror_removed mirror_left >> ok (lfs ++ bundle))
          h in
      let (bundle, is_bundle, h2) =
        >>=-eq-ok (bundle_part seal hash repo date a has copied)
          (λ bundle. guard a.mirror_removed mirror_left >> ok (lfs ++ bundle)) h1 in
      let (b, ks) = lfs_part-kinds a has is_lfs in
      (
        b,
        rw (← same_files (guard-eq-ok a.mirror_removed mirror_left (ok (lfs ++ bundle)) h2).1) (
            file_kinds-append lfs bundle
            ∙ ap₂ (λ xs ys. xs ++ ys) ks (bundle_part-kinds a has copied is_bundle)),
      )

  make_ready-Shape :
      (a : Answers) (copied : GoMap Text) (has b : Bool) (locals : List LocalFile) {p : Prepared}
      → make_ready seal hash repo date a (copied, has) locals ≡ ok p
      → file_kinds locals ≡ pick b (codes "lfs") ++ pick has (codes "bundle")
      → Shape p a.metadata
  unfolding make_ready
  make_ready-Shape a copied has b locals {p} h kinds =
      let (files, is_files, h1) =
        >>=-eq-ok (or_fail (stage_files seal hash locals) unstaged)
          (λ files. meta_part seal hash repo date a.metadata >>= λ meta.
            sidecar_part seal hash repo date has files >>= λ sidecar. made files meta sidecar)
          h in
      let (meta, is_meta, h2) =
        >>=-eq-ok (meta_part seal hash repo date a.metadata)
          (λ meta.
            sidecar_part seal hash repo date has files >>= λ sidecar. made files meta sidecar)
          h1 in
      let (sidecar, is_sidecar, h3) =
        >>=-eq-ok (sidecar_part seal hash repo date has files) (λ sidecar. made files meta sidecar)
          h2 in
      ok_Shape h3 (record {
        first = files ++ meta;
        sidecar = sidecar;
        lfs = b;
        staged = refl;
        first_kinds =
            staged_kinds-append files meta
            ∙ ap₂ (λ xs ys. xs ++ ys)
                (stage_files-kinds seal hash locals (or_fail-eq-ok _ unstaged is_files) ∙ kinds)
                (meta_part-kinds a.metadata is_meta);
        sidecar_kinds = sidecar_part-kinds has files is_sidecar;
      })
    where
      made : List Staged → List Staged → List Staged → Result CopyFault Prepared
      made files meta sidecar = ok (record {
        refs = copied;
        has_refs = has;
        staged = largest_first (files ++ meta) ++ sidecar;
      })

      ok_Shape :
          {q : Prepared}
          → ◌≡◌ {A = Result CopyFault Prepared} (ok q) (ok p)
          → Shape q a.metadata
          → Shape p a.metadata
      ok_Shape e shape = subst (λ r. Shape r a.metadata) (ok_same e) shape

  pub prepare-Shape :
      (advertised : GoMap Text) (a : Answers) {p : Prepared}
      → prepare seal hash repo date advertised a ≡ ok p
      → Shape p a.metadata
  unfolding prepare
  prepare-Shape advertised a h =
      let ((copied, has), is_read, h1) =
        >>=-eq-ok (gather seal hash repo date advertised a)
          (λ read. local_files seal hash repo date a read >>= λ locals.
            make_ready seal hash repo date a read locals)
          h in
      let (locals, is_locals, h2) =
        >>=-eq-ok (local_files seal hash repo date a (copied, has))
          (λ locals. make_ready seal hash repo date a (copied, has) locals) h1 in
      let (b, ks) = local_files-kinds a copied has is_locals in
      make_ready-Shape a copied has b locals h2 ks

kinds-All :
    (P : Text → Type 0) (xs : List Staged) → All P (staged_kinds xs) → All (λ a. P a.kind) xs
kinds-All P [] h = tt
kinds-All P (a ∷ xs) h = (h.0, kinds-All P xs h.1)

append-Rearranged :
    {A : Type 0} {xs ys : List A} (zs : List A)
    → Rearranged xs ys
    → Rearranged (xs ++ zs) (ys ++ zs)
append-Rearranged zs none_left = Rearranged-refl zs
append-Rearranged zs (keep r) = keep (append-Rearranged zs r)
append-Rearranged zs swap = swap
append-Rearranged zs (chain r s) = chain (append-Rearranged zs r) (append-Rearranged zs s)

abbrev all_kinds : Bool → Bool → Bool → List Text
all_kinds lfs has meta =
    ((pick lfs (codes "lfs") ++ pick has (codes "bundle")) ++ pick meta (codes "meta"))
    ++ pick has (codes "sha256")

all_kinds-distinct : (lfs has meta : Bool) → distinct (all_kinds lfs has meta) ≡ true
unfolding text_eq
all_kinds-distinct true true true = refl
all_kinds-distinct true true false = refl
all_kinds-distinct true false true = refl
all_kinds-distinct true false false = refl
all_kinds-distinct false true true = refl
all_kinds-distinct false true false = refl
all_kinds-distinct false false true = refl
all_kinds-distinct false false false = refl

first-lacks :
    (lfs has meta : Bool)
    → lacks
        (codes "sha256")
        ((pick lfs (codes "lfs") ++ pick has (codes "bundle")) ++ pick meta (codes "meta"))
      ≡ true
unfolding text_eq
first-lacks true true true = refl
first-lacks true true false = refl
first-lacks true false true = refl
first-lacks true false false = refl
first-lacks false true true = refl
first-lacks false true false = refl
first-lacks false false true = refl
first-lacks false false false = refl

picked : (b : Bool) {k : Text} → Member k listed_kinds → All (λ k. Member k listed_kinds) (pick b k)
picked true m = (m, tt)
picked false m = tt

All-joined :
    (xs ys : List Text)
    → All (λ k. Member k listed_kinds) xs
    → All (λ k. Member k listed_kinds) ys
    → All (λ k. Member k listed_kinds) (xs ++ ys)
All-joined [] ys hx hy = hy
All-joined (x ∷ xs) ys hx hy = (hx.0, All-joined xs ys hx.1 hy)

all_kinds-listed : (lfs has meta : Bool) → All (λ k. Member k listed_kinds) (all_kinds lfs has meta)
all_kinds-listed lfs has meta =
    All-joined _ _
      (All-joined _ _ (All-joined _ _ (picked lfs (there (there (there here)))) (picked has here))
        (picked meta (there here)))
      (picked has (there (there here)))

module _ {p : Prepared} {metadata : Metadata} (s : Shape p metadata) where
  shape_kinds :
      staged_kinds (s.first ++ s.sidecar) ≡ all_kinds s.lfs p.has_refs (Copy.is_found metadata)
  shape_kinds =
      staged_kinds-append s.first s.sidecar ∙ ap₂ (λ xs ys. xs ++ ys) s.first_kinds s.sidecar_kinds

  shape-Rearranged : Rearranged (s.first ++ s.sidecar) p.staged
  shape-Rearranged =
      subst (λ xs. Rearranged (s.first ++ s.sidecar) xs) (sym s.staged)
        (append-Rearranged s.sidecar (largest_first-Rearranged s.first))

  -- No two artifacts of a copy are of one kind, and a manifest lists every one of the kinds.
  pub shape-DistinctKeys : DistinctKeys staged_kind p.staged
  shape-DistinctKeys = Rearranged-DistinctKeys staged_kind shape-Rearranged (
      distinct-DistinctKeys (s.first ++ s.sidecar)
        (ap distinct shape_kinds ∙ all_kinds-distinct s.lfs p.has_refs (Copy.is_found metadata)))

  pub shape-listed : All (λ a. Member a.kind listed_kinds) p.staged
  shape-listed =
      Rearranged-All (λ a. Member a.kind listed_kinds) shape-Rearranged
        (kinds-All (λ k. Member k listed_kinds) (s.first ++ s.sidecar)
          (subst (All (λ k. Member k listed_kinds)) (sym shape_kinds)
            (all_kinds-listed s.lfs p.has_refs (Copy.is_found metadata))))

  -- The sidecar is not among what is sorted, and stands last.
  pub shape-lacks : All (λ a. codes "sha256" ≢ a.kind) (largest_first s.first)
  shape-lacks =
      Rearranged-All (λ a. codes "sha256" ≢ a.kind) (largest_first-Rearranged s.first)
        (lacks-All (codes "sha256") s.first (
          ap (lacks (codes "sha256")) s.first_kinds
          ∙ first-lacks s.lfs p.has_refs (Copy.is_found metadata)))
