-- ===== src/Pipeline/FanOut/Events.antt =====
-- fanOut: each repository is settled once, with one event, and what returns late is dropped.
use gitdr.Common.{
  ℕ, zero, suc, ◌+◌, ◌≤◌, ◌<◌, ◌≡◌, ◌≢◌, refl, inl, inr, Option, none, some, List, [], ◌∷◌, arith,
  Text, ◌==◌, Bool-cases, Option-cases, ◌∙◌, ==_iff, Rearranged, none_left, keep, swap, chain,
  Rearranged-refl,
}
use gitdr.Pipeline.Manifest.{RepoEntry}
use gitdr.Pipeline.FanOut.{
  State, returned, update, settle, mark_stopped, start, refused_entry, abandoned_entry, abandon,
  Step, stop, launch, break_off, all_started, refuse, all_refused, write, finish, leave, all_done,
  give_up, Reach, here, later,
}
use gitdr.Pipeline.FanOut.Settled.{Named, Settled, Inv, told, Step-Inv, start-Inv}

abbrev with_slot : Option RepoEntry → List RepoEntry → List RepoEntry
with_slot none entries = entries
with_slot (some e) entries = e ∷ entries

-- The entries in the first `n` slots.
abbrev pub recorded : ℕ → (ℕ → Option RepoEntry) → List RepoEntry
recorded zero settled = []
recorded (suc n) settled = with_slot (settled n) (recorded n settled)

with_slot-Rearranged :
    (o : Option RepoEntry) (e : RepoEntry) {xs ys : List RepoEntry}
    → Rearranged xs (e ∷ ys)
    → Rearranged (with_slot o xs) (e ∷ with_slot o ys)
with_slot-Rearranged none e r = r
with_slot-Rearranged (some x) e r = chain (keep r) swap

recorded_above :
    (n i : ℕ) (f : ℕ → Option RepoEntry) (v : Option RepoEntry)
    → n ≤ i
    → recorded n (update f i v) ≡ recorded n f
recorded_above zero i f v h = refl
recorded_above (suc n) i f v h = elim (Bool-cases (n == i)) [
  | inl on ↦ absurd (ground arith)
  | inr off ↦ rw (off, recorded_above n i f v (omega arith)) refl
]

recorded_new :
    (n i : ℕ) (f : ℕ → Option RepoEntry) (e : RepoEntry)
    → i < n
    → f i ≡ none
    → Rearranged (recorded n (update f i (some e))) (e ∷ recorded n f)
recorded_new zero i f e h free = absurd (omega arith)
recorded_new (suc n) i f e h free = elim (Bool-cases (n == i)) [
  | inl on ↦
      let same : n ≡ i = (==_iff n i).0 on in
      rw (on, recorded_above n i f (some e) (omega arith)) (rw (same, free) (Rearranged-refl _))
  | inr off ↦ rw off (with_slot-Rearranged (f n) e (recorded_new n i f e (ground arith) free))
]

-- One event for each entry.
abbrev Told : ℕ → State → Type 0
Told n s = Rearranged (recorded n s.settled) s.events

settle-Told : (n i : ℕ) (e : RepoEntry) (s : State) → i < n → Told n s → Told n (settle i e s)
unfolding settle
settle-Told n i e s h r = elim (Option-cases (s.settled i)) [
  | inl free ↦ rw (free, settle) (chain (recorded_new n i s.settled e h free) (keep r))
  | inr (old, is_old) ↦ rw (is_old, settle) r
]

abandon-Told :
    (slug_at : ℕ → Text) (cause : Text) (n k i : ℕ) (s : State)
    → i + k ≤ n
    → Told n s
    → Told n (abandon slug_at cause k i s)
unfolding abandon
abandon-Told slug_at cause n zero i s h r = r
abandon-Told slug_at cause n (suc k) i s h r =
    abandon-Told slug_at cause n k (suc i) (settle i (abandoned_entry slug_at cause s i) s)
      (omega arith) (settle-Told n i (abandoned_entry slug_at cause s i) s (omega arith) r)

settle_twice : (i : ℕ) (e : RepoEntry) (s : State) → s.settled i ≢ none → settle i e s ≡ s
unfolding settle
settle_twice i e s h = elim (Option-cases (s.settled i)) [
  | inl free ↦ absurd (h free)
  | inr (old, is_old) ↦ rw (is_old, settle) refl
]

Named-entry :
    (slug_at : ℕ → Text) (i : ℕ) {o : Option RepoEntry} {e : RepoEntry}
    → o ≡ some e
    → Named slug_at i o
    → e.slug ≡ slug_at i
Named-entry slug_at i {e = e} h named = rw h at named

recorded-nil : (n : ℕ) → recorded n (λ _. none) ≡ []
recorded-nil zero = refl
recorded-nil (suc n) = recorded-nil n

module _ (slug_at : ℕ → Text) (cause : Text) (n limit : ℕ) where
  Step-Told :
      {s t : State} → Step slug_at cause n limit s t → Inv slug_at n limit s → Told n s → Told n t
  Step-Told {s} (stop h) v r = r
  Step-Told {s} (launch p lt on room) v r = r
  Step-Told {s} (break_off p lt off) v r = r
  Step-Told {s} (all_started p e) v r = r
  Step-Told {s} (refuse p lt) v r = settle-Told n s.next (refused_entry slug_at cause s.next) s lt r
  Step-Told {s} (all_refused p e) v r = r
  Step-Told {s} (write i a w) v r = r
  Step-Told {s} (finish i e seen w names sees) v r =
      settle-Told n i (mark_stopped seen e) s (omega (arith, (v.in_flight i w).0, v.within)) r
  Step-Told {s} (leave i before after off split) v r = r
  Step-Told {s} (all_done p empty) v r = r
  Step-Told {s} (give_up p off) v r = abandon-Told slug_at cause n n 0 s (omega arith) r

  pub Reach-Inv : {s : State} → Reach slug_at cause n limit start s → Inv slug_at n limit s
  Reach-Inv here = start-Inv slug_at cause n limit
  Reach-Inv (later r st) = Step-Inv slug_at cause n limit st (Reach-Inv r)

  Reach-Told : {s : State} → Reach slug_at cause n limit start s → Told n s
  unfolding start
  Reach-Told here = rw recorded-nil none_left
  Reach-Told (later r st) = Step-Told st (Reach-Inv r) (Reach-Told r)

  -- A step of a run that has returned.
  Step-late :
      {s t : State}
      → Step slug_at cause n limit s t
      → Inv slug_at n limit s
      → s.phase ≡ returned
      → (t.phase ≡ returned) × (t.settled ≡ s.settled) × (t.events ≡ s.events)
  Step-late {s} (stop h) v p = (p, refl, refl)
  Step-late {s} (launch q lt on room) v p = cc
  Step-late {s} (break_off q lt off) v p = cc
  Step-late {s} (all_started q e) v p = cc
  Step-late {s} (refuse q lt) v p = cc
  Step-late {s} (all_refused q e) v p = cc
  Step-late {s} (write i a w) v p = (p, refl, refl)
  Step-late {s} (finish i e seen w names sees) v p =
      rw
        (settle_twice i (mark_stopped seen e) s
          ((v.gone p).1 i (omega (arith, (v.in_flight i w).0, v.within))))
        (p, refl, refl)
  Step-late {s} (leave i before after off split) v p = (p, refl, refl)
  Step-late {s} (all_done q empty) v p = cc
  Step-late {s} (give_up q off) v p = cc

  Reach-late :
      {s t : State}
      → Inv slug_at n limit s
      → s.phase ≡ returned
      → Reach slug_at cause n limit s t
      → Inv slug_at n limit t
        × (t.phase ≡ returned)
        × (t.settled ≡ s.settled)
        × (t.events ≡ s.events)
  Reach-late v p here = (v, p, refl, refl)
  Reach-late v p (later r st) =
      let (w, q, same, told) = Reach-late v p r in
      let (q', same', told') = Step-late st w q in
      (Step-Inv slug_at cause n limit st w, q', same' ∙ same, told' ∙ told)

  Settled-of :
      {s : State} → Inv slug_at n limit s → s.phase ≡ returned → Settled slug_at n s.settled
  Settled-of {s} v p i lt = elim (Option-cases (s.settled i)) [
    | inl free ↦ absurd ((v.gone p).1 i lt free)
    | inr (e, is_e) ↦ (e, is_e, Named-entry slug_at i is_e (v.named i))
  ]

  -- However the run's steps fall, once fanOut has returned every repository of the run has an
  -- entry under its slug, and the events written are those entries, one for each, in some order.
  -- Whatever its goroutines still do changes neither the entries nor the events.
  pub returned_lem :
      {s : State}
      → Reach slug_at cause n limit start s
      → s.phase ≡ returned
      → Settled slug_at n s.settled
        × Rearranged (recorded n s.settled) s.events
        × ((t : State)
            → Reach slug_at cause n limit s t
            → (t.settled ≡ s.settled) × (t.events ≡ s.events))
  returned_lem r p = (
    Settled-of (Reach-Inv r) p,
    Reach-Told r,
    λ t late. let (_, _, same, told) = Reach-late (Reach-Inv r) p late in (same, told),
  )
