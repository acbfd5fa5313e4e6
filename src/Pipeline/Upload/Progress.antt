-- ===== src/Pipeline/Upload/Progress.antt =====
-- The uploads: what is recorded as written against what the destination took.
use gitdr.Common.{
  ℕ, suc, ◌≡◌, ◌≢◌, ◌⊎◌, ◌↔◌, refl, sym, ap, ◌∙◌, inl, inr, Bool, true, false, Option, none, some,
  List, [], ◌∷◌, ◌++◌, append-nil, append_assoc, Text, GoMap, codes, text_eq, text_eq_iff, text_ne,
  lookup, lookup-insert, length, take, Bool-cases, Option-cases, All, Member, here, there,
  DistinctKeys,
}
use gitdr.Pipeline.Manifest.{ArtifactInfo}
use gitdr.Pipeline.FanOut.{wrote, written, written_loop}
use gitdr.Pipeline.Upload.{Staged, PutResult, Uploaded, artifact, upload}

abbrev pub staged_kind : Staged → Text
staged_kind a = a.kind

abbrev pub staged_kinds : List Staged → List Text
staged_kinds [] = []
staged_kinds (a ∷ staged) = a.kind ∷ staged_kinds staged

abbrev pub kinds : List ArtifactInfo → List Text
kinds [] = []
kinds (a ∷ artifacts) = a.kind ∷ kinds artifacts

-- The map holds what was sent, each under its kind.
abbrev pub Records : GoMap ArtifactInfo → List ArtifactInfo → Type 0
Records progress sent =
    (k : Text) (b : ArtifactInfo) → (lookup k progress ≡ some b) ↔ (Member b sent × (b.kind ≡ k))

kinds-append : (xs ys : List ArtifactInfo) → kinds (xs ++ ys) ≡ kinds xs ++ kinds ys
kinds-append [] ys = refl
kinds-append (x ∷ xs) ys = ap (λ ks. x.kind ∷ ks) (kinds-append xs ys)

Member-before : (xs ys : List ArtifactInfo) {b : ArtifactInfo} → Member b xs → Member b (xs ++ ys)
Member-before [] ys m = elim m [ ]
Member-before (x ∷ xs) ys here = here
Member-before (x ∷ xs) ys (there m) = there (Member-before xs ys m)

Member-last : (xs : List ArtifactInfo) (b : ArtifactInfo) → Member b (xs ++ (b ∷ []))
Member-last [] b = here
Member-last (x ∷ xs) b = there (Member-last xs b)

Member-snoc :
    (xs : List ArtifactInfo) (c : ArtifactInfo) {b : ArtifactInfo}
    → Member b (xs ++ (c ∷ []))
    → Member b xs ⊎ (b ≡ c)
Member-snoc [] c here = inr refl
Member-snoc [] c (there m) = elim m [ ]
Member-snoc (x ∷ xs) c here = inl here
Member-snoc (x ∷ xs) c (there m) = elim (Member-snoc xs c m) [
  | inl n ↦ inl (there n)
  | inr e ↦ inr e
]

some_same : {b c : ArtifactInfo} → some c ≡ some b → c ≡ b
some_same h = cc

Member-eq : {b c : ArtifactInfo} {xs : List ArtifactInfo} → c ≡ b → Member c xs → Member b xs
Member-eq e m = rw (← e) m

wrote-Records :
    (progress : GoMap ArtifactInfo) (sent : List ArtifactInfo) (c : ArtifactInfo)
    → Records progress sent
    → lookup c.kind progress ≡ none
    → Records (wrote c progress) (sent ++ (c ∷ []))
unfolding wrote
wrote-Records progress sent c r fresh k b = elim (Bool-cases (text_eq c.kind k)) [
  | inl on ↦
      let same : c.kind ≡ k = (text_eq_iff c.kind k).0 on in
      let at : lookup k (wrote c progress) ≡ some c =
        lookup-insert k c.kind c progress ∙ rw on refl in
      (
        λ e.
            let is : c ≡ b = some_same (sym at ∙ e) in
            (Member-eq is (Member-last sent c), ap (λ (x : ArtifactInfo). x.kind) (sym is) ∙ same),
        λ (m, e). elim (Member-snoc sent c m) [
          | inr is ↦ at ∙ ap some (sym is)
          | inl old ↦ cc (fresh, (r c.kind b).1 (old, e ∙ sym same))
        ],
      )
  | inr off ↦
      let at : lookup k (wrote c progress) ≡ lookup k progress =
        lookup-insert k c.kind c progress ∙ rw off refl in
      (
        λ e. let (m, is) = (r k b).0 (sym at ∙ e) in (Member-before sent (c ∷ []) m, is),
        λ (m, e). elim (Member-snoc sent c m) [
          | inl old ↦ at ∙ (r k b).1 (old, e)
          | inr is ↦ absurd (text_ne c.kind k off (ap (λ (x : ArtifactInfo). x.kind) (sym is) ∙ e))
        ],
      )
]

abbrev Listed : GoMap ArtifactInfo → List Text → ArtifactInfo → Type 0
Listed progress ks b = (k : Text) × Member k ks × (lookup k progress ≡ some b)

later_kind :
    (progress : GoMap ArtifactInfo) (k : Text) (ks : List Text) (b : ArtifactInfo)
    → Listed progress ks b
    → Listed progress (k ∷ ks) b
later_kind progress k ks b (j, m, e) = (j, there m, e)

written_loop-Listed :
    (progress : GoMap ArtifactInfo) (ks : List Text) (b : ArtifactInfo)
    → Member b (written_loop progress ks)
    → Listed progress ks b
unfolding written_loop
written_loop-Listed progress [] b m = elim m [ ]
written_loop-Listed progress (k ∷ ks) b m = elim (Option-cases (lookup k progress)) [
  | inl free ↦
      later_kind progress k ks b (written_loop-Listed progress ks b (rw (free, written_loop) at m))
  | inr (c, at) ↦ first_kind c at (written_loop-Listed progress ks b) (rw (at, written_loop) at m)
]
  where
    first_kind :
        (c : ArtifactInfo)
        → lookup k progress ≡ some c
        → (Member b (written_loop progress ks) → Listed progress ks b)
        → Member b (c ∷ written_loop progress ks)
        → Listed progress (k ∷ ks) b
    first_kind c at f here = (k, here, at)
    first_kind c at f (there n) = later_kind progress k ks b (f n)

Listed-written_loop :
    (progress : GoMap ArtifactInfo) (ks : List Text) {k : Text} (b : ArtifactInfo)
    → Member k ks
    → lookup k progress ≡ some b
    → Member b (written_loop progress ks)
unfolding written_loop
Listed-written_loop progress [] b m e = elim m [ ]
Listed-written_loop progress (j ∷ ks) b here e = rw (e, written_loop) here
Listed-written_loop progress (j ∷ ks) b (there m) e = elim (Option-cases (lookup j progress)) [
  | inl free ↦ rw (free, written_loop) (Listed-written_loop progress ks b m e)
  | inr (c, at) ↦ rw (at, written_loop) (there (Listed-written_loop progress ks b m e))
]

-- The kinds that a manifest lists.
abbrev pub listed_kinds : List Text
listed_kinds = codes "bundle" ∷ codes "meta" ∷ codes "sha256" ∷ codes "lfs" ∷ []

-- Of a map that holds what was sent, the artifacts listed are those sent of the listed kinds.
pub written-Records :
    (progress : GoMap ArtifactInfo) (sent : List ArtifactInfo)
    → Records progress sent
    → (b : ArtifactInfo)
    → Member b (written progress) ↔ (Member b sent × Member b.kind listed_kinds)
unfolding written
written-Records progress sent r b = (
  λ m.
      let (k, n, e) = written_loop-Listed progress listed_kinds b m in
      let (is_sent, is) = (r k b).0 e in (is_sent, rw is n),
  λ (m, n). Listed-written_loop progress listed_kinds b n ((r b.kind b).1 (m, refl)),
)

module _ (put : List ArtifactInfo → Staged → Option PutResult) where
  -- No artifact is of a kind that is written already.
  abbrev Fresh : GoMap ArtifactInfo → List Staged → Type 0
  Fresh progress = All (λ a. lookup a.kind progress ≡ none)

  wrote-Fresh :
      (progress : GoMap ArtifactInfo) (c : ArtifactInfo) (staged : List Staged)
      → All (λ a. c.kind ≢ a.kind) staged
      → Fresh progress staged
      → Fresh (wrote c progress) staged
  unfolding wrote
  wrote-Fresh progress c [] n f = tt
  wrote-Fresh progress c (a ∷ staged) n f = (
    lookup-insert a.kind c.kind c progress ∙ rw (differs (text_eq c.kind a.kind) refl) f.0,
    wrote-Fresh progress c staged n.1 f.1,
  )
    where
      differs : (t : Bool) → text_eq c.kind a.kind ≡ t → text_eq c.kind a.kind ≡ false
      differs true e = absurd (n.0 ((text_eq_iff c.kind a.kind).0 e))
      differs false e = e

  -- What the uploads of artifacts of different kinds come to: the map holds what was sent, and the
  -- kinds sent are those of the artifacts in their order, all of them unless a write failed.
  abbrev pub Sent : List ArtifactInfo → List Staged → Uploaded → Type 0
  Sent sent staged u =
      Records u.progress u.sent
      × ((n : ℕ) × (kinds u.sent ≡ kinds sent ++ take n (staged_kinds staged))
          × (u.failed ≡ false → n ≡ length staged))

  pub upload-Sent :
      (sent : List ArtifactInfo) (progress : GoMap ArtifactInfo) (staged : List Staged)
      → Records progress sent
      → DistinctKeys staged_kind staged
      → Fresh progress staged
      → Sent sent staged (upload put sent progress staged)
  unfolding upload artifact
  upload-Sent sent progress [] r d f = (r, (0, sym (append-nil (kinds sent)), λ _. refl))
  upload-Sent sent progress (a ∷ staged) r d f = elim (Option-cases (put sent a)) [
    | inl refused ↦ rw (refused, upload) (r, (0, sym (append-nil (kinds sent)), λ e. cc))
    | inr (res, taken) ↦
        let c : ArtifactInfo = artifact a.kind res a.sha in
        let (r', (n, ks, all)) =
          upload-Sent (sent ++ (c ∷ [])) (wrote c progress) staged
            (wrote-Records progress sent c r f.0) d.1 (wrote-Fresh progress c staged d.0 f.1) in
        rw (taken, upload)
          (
            r',
            (
              suc n,
              ks
                  ∙ ap (λ xs. xs ++ take n (staged_kinds staged)) (kinds-append sent (c ∷ []))
                  ∙ append_assoc (kinds sent) (a.kind ∷ []) (take n (staged_kinds staged)),
              λ e. ap suc (all e),
            ),
          )
  ]
