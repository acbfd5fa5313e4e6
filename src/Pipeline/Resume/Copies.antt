-- ===== src/Pipeline/Resume/Copies.antt =====
-- When a rerun goes ahead with a copy.
use mathlib.Core.Path.{subst}
use gitdr.Common.{
  ℕ, ◌≡◌, refl, ◌≢◌, ◌↔◌, ◌⊎◌, inl, inr, Bool, true, Option, none, some, List, [], ◌∷◌, ◌++◌, arith,
  Text, is_nil, Bool-cases, Option-cases, All, slash, path_dir, parse_dashed, sort_by,
  sort_by-Rearranged, Rearranged-symm, Rearranged-All, text_eq, text_eq_iff,
}
use gitdr.Pipeline.Manifests.{Repo, Object, slug, manifest_search_dirs}
use gitdr.Pipeline.Manifests.Read.{Store, Codecs}
use gitdr.Pipeline.Recorded.{RecordedCopy, SearchReport, Memory, copied_at_of, find}
use gitdr.Pipeline.Resume.{
  copies, object_key, date_dir, filed_under, first_foreign, first_not_stored, first_not_listed,
  resume_at, resume_recorded, resume_found, resume_keys, resume_under, resumed,
}

resume_found-copies :
    (slug' : Text) (under : List Object) (found : Option (Option RecordedCopy)) (rep : SearchReport)
    (now : ℕ)
    → resume_found slug' under found rep now ≢ copies
unfolding resume_found resume_recorded resume_at
resume_found-copies slug' under none rep now h = ground arith
resume_found-copies slug' under (some none) rep now h = ground arith
resume_found-copies slug' under (some (some r)) rep now h =
    elim (Option-cases (first_not_stored under r.entry.artifacts)) [
      | inr (k, p) ↦ ground (arith, p)
      | inl p ↦ elim (Option-cases (first_not_listed r.entry.artifacts under)) [
        | inr (k, q) ↦ ground (arith, p, q)
        | inl q ↦ elim (Option-cases (copied_at_of r.entry r.finished_at)) [
          | inl a ↦ ground (arith, p, q, a)
          | inr (at, a) ↦ ground (arith, p, q, a)
        ]
      ]
    ]

resume_under-copies :
    (c : Codecs) (st : Store) (pub_key : Option Text) (keep : Option (Text → Bool)) (date : Text)
    (searched_at checked_at : ℕ) (repo : Repo) (under : List Object) (s : Memory)
    → (resume_under c st pub_key keep date searched_at checked_at repo under s).0 ≢ copies
unfolding resume_under
resume_under-copies c st pub_key keep date searched_at checked_at repo under s h =
    elim (Option-cases (parse_dashed date)) [
      | inl p ↦ ground (arith, p)
      | inr (day, p) ↦ elim (Option-cases (first_foreign date under)) [
        | inr (o, q) ↦ ground (arith, p, q)
        | inl q ↦
            let search =
              find c st pub_key keep (manifest_search_dirs repo.host repo.owner) day (slug repo)
                (resume_keys c st pub_key keep repo date) (some searched_at) s in
            resume_found-copies (slug repo) under search.0 search.1 checked_at
              (ground (arith, p, q))
      ]
    ]

filed_under-nil :
    (dir : Text) (objs : List Object)
    → (is_nil (filed_under dir objs) ≡ true) ↔ All (λ o. path_dir o.key ≢ dir) objs
unfolding filed_under
filed_under-nil dir [] = (λ h. tt, λ h. refl)
filed_under-nil dir (o ∷ objs) = elim (Bool-cases (text_eq (path_dir o.key) dir)) [
  | inl e ↦ (λ h. absurd (ground arith), λ h. absurd (h.0 ((text_eq_iff (path_dir o.key) dir).0 e)))
  | inr e ↦
      let ih = filed_under-nil dir objs in
      (
        λ h. ((λ z. ground (arith, text_eq_iff (path_dir o.key) dir)), ih.0 (ground arith)),
        λ h. rw e (ih.1 h.1),
      )
]

nothing_there :
    (dir : Text) (listed : Option (List Object)) (objs : List Object)
    → listed ≡ some objs
    → (listed ≡ none)
      ⊎ ((os : List Object) × (listed ≡ some os) × All (λ o. path_dir o.key ≢ dir) os)
    → All (λ o. path_dir o.key ≢ dir) objs
nothing_there dir listed objs n (inl m) = absurd (ground (arith, n, m))
nothing_there dir listed objs n (inr (os, m, a)) =
    let q : os ≡ objs = ground (arith, n, m) in subst (All (λ o. path_dir o.key ≢ dir)) q a

-- A rerun goes ahead with a copy exactly where the folder of the date cannot be listed, whatever
-- lies in it, or where the listing shows no object directly in it.
pub resumed_copies_iff :
    (c : Codecs) (st : Store) (pub_key : Option Text) (keep : Option (Text → Bool)) (date : Text)
    (searched_at checked_at : ℕ) (repo : Repo) (s : Memory)
    → ((resumed c st pub_key keep date searched_at checked_at repo s).0 ≡ copies) ↔ (
        (st.list (date_dir repo date ++ (slash ∷ [])) ≡ none)
        ⊎ ((objs : List Object) × (st.list (date_dir repo date ++ (slash ∷ [])) ≡ some objs)
            × All (λ o. path_dir o.key ≢ date_dir repo date) objs))
unfolding resumed
resumed_copies_iff c st pub_key keep date searched_at checked_at repo s =
    elim (Option-cases (st.list (date_dir repo date ++ (slash ∷ [])))) [
      | inl n ↦ (λ h. inl n, λ h. ground (arith, n))
      | inr (objs, n) ↦
          let dir : Text = date_dir repo date in
          let sorts = sort_by-Rearranged object_key objs in
          let empty = filed_under-nil dir (sort_by object_key objs) in
          elim (Bool-cases (is_nil (filed_under dir (sort_by object_key objs)))) [
            | inl z ↦ (
              λ h. inr (
                objs,
                n,
                Rearranged-All (λ o. path_dir o.key ≢ dir) (Rearranged-symm sorts) (empty.0 z),
              ),
              λ h. ground (arith, n, z),
            )
            | inr z ↦ (
              λ h. absurd (
                  resume_under-copies c st pub_key keep date searched_at checked_at repo
                    (filed_under dir (sort_by object_key objs)) s (ground (arith, n, z))),
              λ h. absurd (
                  ground (
                    arith,
                    z,
                    empty.1 (
                        Rearranged-All (λ o. path_dir o.key ≢ dir) sorts
                          (nothing_there dir (st.list (dir ++ (slash ∷ []))) objs n h)),
                  )),
            )
          ]
    ]
