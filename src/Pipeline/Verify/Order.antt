-- ===== src/Pipeline/Verify/Order.antt =====
-- The checks come in the manifest's order, whatever order the reads finish in.
use gitdr.Common.{
  ℕ, zero, suc, ◌<◌, ◌≡◌, refl, sym, ◌∙◌, ap, ◌≢◌, List, [], ◌∷◌, map, arith, All, Rearranged,
  none_left, keep, swap, chain, Rearranged-All,
}
use gitdr.Pipeline.Manifest.{ArtifactInfo}
use gitdr.Pipeline.Verify.{
  ArtifactCheck, Job, numbered, set_slot, empty_slots, fill_slots, read_back,
}

set_slot_comm :
    (i j : ℕ) (c d : ArtifactCheck) (slots : List ArtifactCheck)
    → (i ≢ j)
    → set_slot j d (set_slot i c slots) ≡ set_slot i c (set_slot j d slots)
set_slot_comm i j c d [] h = refl
set_slot_comm zero zero c d (s ∷ slots) h = absurd (h refl)
set_slot_comm zero (suc j) c d (s ∷ slots) h = refl
set_slot_comm (suc i) zero c d (s ∷ slots) h = refl
set_slot_comm (suc i) (suc j) c d (s ∷ slots) h =
    ap (λ ss. s ∷ ss) (set_slot_comm i j c d slots (λ e. h (ap suc e)))

-- No slot is twice.
abbrev Apart : List Job → Type 0
Apart [] = Unit
Apart (j ∷ jobs) = All (λ (k : Job). j.0 ≢ k.0) jobs × Apart jobs

Rearranged-Apart : {xs ys : List Job} → Rearranged xs ys → Apart xs → Apart ys
Rearranged-Apart none_left h = h
Rearranged-Apart (keep {x = x} r) h =
    (Rearranged-All (λ (k : Job). x.0 ≢ k.0) r h.0, Rearranged-Apart r h.1)
Rearranged-Apart swap h = (((λ e. h.0.0 (sym e)), h.1.0), (h.0.1, h.1.1))
Rearranged-Apart (chain r s) h = Rearranged-Apart s (Rearranged-Apart r h)

fill_slots-Rearranged :
    (check : ArtifactInfo → ArtifactCheck) {xs ys : List Job} (slots : List ArtifactCheck)
    → Rearranged xs ys
    → Apart xs
    → fill_slots check xs slots ≡ fill_slots check ys slots
unfolding fill_slots
fill_slots-Rearranged check slots none_left h = refl
fill_slots-Rearranged check slots (keep {x = x} r) h =
    fill_slots-Rearranged check (set_slot x.0 (check x.1) slots) r h.1
fill_slots-Rearranged check slots (swap {x = x} {y = y} {xs = rest}) h =
    ap (fill_slots check rest) (set_slot_comm x.0 y.0 (check x.1) (check y.1) slots h.0.0)
fill_slots-Rearranged check slots (chain r s) h =
    fill_slots-Rearranged check slots r h
    ∙ fill_slots-Rearranged check slots s (Rearranged-Apart r h)

numbered-later :
    (i j : ℕ) (artifacts : List ArtifactInfo)
    → i < j
    → All (λ (k : Job). i ≢ k.0) (numbered j artifacts)
numbered-later i j [] h = tt
numbered-later i j (a ∷ artifacts) h =
    ((λ e. omega (arith, e, h)), numbered-later i (suc j) artifacts (omega (arith, h)))

numbered-Apart : (i : ℕ) (artifacts : List ArtifactInfo) → Apart (numbered i artifacts)
numbered-Apart i [] = tt
numbered-Apart i (a ∷ artifacts) =
    (numbered-later i (suc i) artifacts (omega arith), numbered-Apart (suc i) artifacts)

past_first :
    (check : ArtifactInfo → ArtifactCheck) (i : ℕ) (artifacts : List ArtifactInfo)
    (c : ArtifactCheck) (slots : List ArtifactCheck)
    → fill_slots check (numbered (suc i) artifacts) (c ∷ slots)
      ≡ c ∷ fill_slots check (numbered i artifacts) slots
unfolding fill_slots
past_first check i [] c slots = refl
past_first check i (a ∷ artifacts) c slots =
    past_first check (suc i) artifacts c (set_slot i (check a) slots)

in_turn :
    (check : ArtifactInfo → ArtifactCheck) (artifacts : List ArtifactInfo)
    → fill_slots check (numbered 0 artifacts) (empty_slots artifacts) ≡ map check artifacts
unfolding fill_slots
in_turn check [] = refl
in_turn check (a ∷ artifacts) =
    past_first check 0 artifacts (check a) (empty_slots artifacts)
    ∙ ap (λ cs. check a ∷ cs) (in_turn check artifacts)

-- Whatever order the reads finish in, what `readBack` returns is each artifact's own check, in the
-- manifest's order, as if they had been read one at a time.
pub read_back-map :
    (check : ArtifactInfo → ArtifactCheck) (artifacts : List ArtifactInfo) (finished : List Job)
    → Rearranged (numbered 0 artifacts) finished
    → read_back check artifacts finished ≡ map check artifacts
unfolding read_back
read_back-map check artifacts finished r =
    sym (fill_slots-Rearranged check (empty_slots artifacts) r (numbered-Apart 0 artifacts))
    ∙ in_turn check artifacts
