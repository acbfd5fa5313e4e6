-- ===== src/Pipeline/FanOut/Settled.antt =====
-- fanOut: what holds in every state of a run, and what the run returns.
use gitdr.Common.{
  ℕ, zero, suc, ◌+◌, ◌≤◌, ◌<◌, ◌≡◌, ◌≢◌, ◌⊎◌, refl, inl, inr, Bool, true, false, Option, none, some,
  List, [], ◌∷◌, ◌++◌, arith, Text, length, length-append, ◌==◌, Bool-cases, Option-cases, Member,
  here, there, sym, ap, ◌∙◌, fun_ext, ==_iff,
}
use gitdr.Pipeline.Manifest.{RepoEntry}
use gitdr.Pipeline.FanOut.{
  State, waiting, returned, update, at_least_one, settle, mark_stopped, start, failed_entry,
  refused_entry, abandoned_entry, abandon, Step, stop, launch, break_off, all_started, refuse,
  all_refused, write, finish, leave, all_done, give_up,
}

Member-removed :
    (before after : List ℕ) {i j : ℕ}
    → j ≢ i
    → Member j (before ++ (i ∷ after))
    → Member j (before ++ after)
Member-removed [] after ne here = absurd (ne refl)
Member-removed [] after ne (there m) = m
Member-removed (x ∷ before) after ne here = here
Member-removed (x ∷ before) after ne (there m) = there (Member-removed before after ne m)

pub Member-subst : {xs ys : List ℕ} {j : ℕ} → xs ≡ ys → Member j xs → Member j ys
Member-subst e m = rw (← e) m

-- What a slot holds after it is settled with `e`.
abbrev pub kept : Option RepoEntry → RepoEntry → RepoEntry
kept none e = e
kept (some old) e = old

nothing_in : {j : ℕ} → Member j [] → ⊥
nothing_in m = elim m [ ]

module _ (slug_at : ℕ → Text) where
  -- A repository's slot is empty, or holds an entry that names it.
  abbrev pub Named : ℕ → Option RepoEntry → Type 0
  Named i none = Unit
  Named i (some e) = e.slug ≡ slug_at i

  -- Every repository of the first `n` has an entry that names it.
  abbrev pub Settled : (n : ℕ) → (ℕ → Option RepoEntry) → Type 0
  Settled n settled =
      (i : ℕ) → i < n → (e : RepoEntry) × (settled i ≡ some e) × (e.slug ≡ slug_at i)

  pub record Inv (n limit : ℕ) (s : State) : Type 0 where
    pub few : length s.held ≤ at_least_one limit
    pub within : s.next ≤ n
    pub in_flight : (i : ℕ) → s.working i ≡ true → (i < s.next) × Member i s.held
    pub named : (i : ℕ) → Named i (s.settled i)
    pub done : (i : ℕ) → i < s.next → s.working i ≡ false → s.settled i ≢ none
    pub over : (s.phase ≡ waiting) → s.next ≡ n
    pub gone : (s.phase ≡ returned) → (s.next ≡ n) × ((i : ℕ) → i < n → s.settled i ≢ none)

-- What the events are after it is settled with `e`.
abbrev pub told : Option RepoEntry → RepoEntry → List RepoEntry → List RepoEntry
told none e events = e ∷ events
told (some old) e events = events

abbrev pub after_settle : ℕ → RepoEntry → State → State
after_settle i e s = record s {
  settled = update s.settled i (some (kept (s.settled i) e));
  events = told (s.settled i) e s.events;
}

update_same :
    (f : ℕ → Option RepoEntry) (i : ℕ) (e : RepoEntry) → f i ≡ some e → update f i (some e) ≡ f
update_same f i e h = fun_ext (λ j. elim (Bool-cases (j == i)) [
  | inr off ↦ rw off refl
  | inl on ↦ rw on (sym (rw ((==_iff j i).0 on) h))
])

-- A slot that is settled is left as it is, and one that is not is filled.
pub settle_lem : (i : ℕ) (e : RepoEntry) (s : State) → settle i e s ≡ after_settle i e s
unfolding settle
settle_lem i e s = elim (Option-cases (s.settled i)) [
  | inl free ↦ rw (free, settle) refl
  | inr (old, is_old) ↦
      rw (is_old, settle)
        (ap (λ f. record s { settled = f }) (sym (update_same s.settled i old is_old)))
]

-- The last loop changes the slots and the events alone.
pub abandon_lem :
    (slug_at : ℕ → Text) (cause : Text) (k i : ℕ) (s : State)
    → abandon slug_at cause k i s ≡ record s {
      settled = (abandon slug_at cause k i s).settled;
      events = (abandon slug_at cause k i s).events;
    }
unfolding abandon
abandon_lem slug_at cause zero i s = refl
abandon_lem slug_at cause (suc k) i s =
    abandon_lem slug_at cause k (suc i) (settle i (abandoned_entry slug_at cause s i) s)
    ∙ ap
        (λ (u : State). record u {
          settled = (abandon slug_at cause (suc k) i s).settled;
          events = (abandon slug_at cause (suc k) i s).events;
        })
        (settle_lem i (abandoned_entry slug_at cause s i) s)

filled :
    (f : ℕ → Option RepoEntry) (i j : ℕ) (e : RepoEntry) → f j ≢ none → update f i (some e) j ≢ none
filled f i j e h = ground arith

filled_here : (f : ℕ → Option RepoEntry) (i : ℕ) (e : RepoEntry) → update f i (some e) i ≢ none
filled_here f i e = ground arith

kept-Named :
    (slug_at : ℕ → Text) (i : ℕ) (o : Option RepoEntry) (e : RepoEntry)
    → e.slug ≡ slug_at i
    → Named slug_at i o
    → (kept o e).slug ≡ slug_at i
kept-Named slug_at i none e h n = h
kept-Named slug_at i (some old) e h n = n

update-Named :
    (slug_at : ℕ → Text) (f : ℕ → Option RepoEntry) (i : ℕ) (e : RepoEntry)
    → e.slug ≡ slug_at i
    → ((j : ℕ) → Named slug_at j (f j))
    → (j : ℕ) → Named slug_at j (update f i (some (kept (f i) e)) j)
update-Named slug_at f i e h named j = elim (Bool-cases (j == i)) [
  | inr off ↦ rw off (named j)
  | inl on ↦ rw on (rw ((==_iff j i).0 on) (kept-Named slug_at i (f i) e h (named i)))
]

after_filled :
    (f : ℕ → Option RepoEntry) (o : Option RepoEntry) (i k j : ℕ) (e : RepoEntry)
    → ((i ≤ j) × (j < i + suc k)) ⊎ (f j ≢ none)
    → ((suc i ≤ j) × (j < suc i + k)) ⊎ (update f i (some (kept o e)) j ≢ none)
after_filled f o i k j e (inr h) = inr (filled f i j (kept o e) h)
after_filled f o i k j e (inl (low, high)) = elim (Bool-cases (j == i)) [
  | inl on ↦ inr (rw on (λ q. cc))
  | inr off ↦ inl (ground arith, omega arith)
]

-- The last loop fills the slots that it visits, empties none, and names each.
abandon-filled :
    (slug_at : ℕ → Text) (cause : Text) (k i : ℕ) (s : State) (j : ℕ)
    → ((i ≤ j) × (j < i + k)) ⊎ (s.settled j ≢ none)
    → (abandon slug_at cause k i s).settled j ≢ none
unfolding abandon
abandon-filled slug_at cause zero i s j (inl (a, b)) = absurd (omega arith)
abandon-filled slug_at cause zero i s j (inr h) = h
abandon-filled slug_at cause (suc k) i s j h =
    abandon-filled slug_at cause k (suc i) (settle i (abandoned_entry slug_at cause s i) s) j (
      rw settle_lem
        (after_filled s.settled (s.settled i) i k j (abandoned_entry slug_at cause s i) h))

abandoned_slug :
    (slug_at : ℕ → Text) (cause : Text) (s : State) (i : ℕ)
    → (abandoned_entry slug_at cause s i).slug ≡ slug_at i
unfolding abandoned_entry failed_entry
abandoned_slug slug_at cause s i = refl

refused_slug :
    (slug_at : ℕ → Text) (cause : Text) (i : ℕ) → (refused_entry slug_at cause i).slug ≡ slug_at i
unfolding refused_entry failed_entry
refused_slug slug_at cause i = refl

marked_slug : (seen : Bool) (e : RepoEntry) → (mark_stopped seen e).slug ≡ e.slug
unfolding mark_stopped
marked_slug seen e = ground arith

abandon-Named :
    (slug_at : ℕ → Text) (cause : Text) (k i : ℕ) (s : State)
    → ((j : ℕ) → Named slug_at j (s.settled j))
    → (j : ℕ) → Named slug_at j ((abandon slug_at cause k i s).settled j)
unfolding abandon
abandon-Named slug_at cause zero i s named = named
abandon-Named slug_at cause (suc k) i s named =
    abandon-Named slug_at cause k (suc i) (settle i (abandoned_entry slug_at cause s i) s) (
      rw settle_lem (
        update-Named slug_at s.settled i (abandoned_entry slug_at cause s i)
          (abandoned_slug slug_at cause s i) named))

module _ (slug_at : ℕ → Text) (cause : Text) (n limit : ℕ) where
  pub start-Inv : Inv slug_at n limit start
  unfolding start at_least_one
  start-Inv = record {
    few = omega arith;
    within = omega arith;
    in_flight = λ i h. cc;
    named = λ i. tt;
    done = λ i h. absurd (omega arith);
    over = λ e. cc;
    gone = λ e. cc;
  }

  pub Step-Inv :
      {s t : State} → Step slug_at cause n limit s t → Inv slug_at n limit s → Inv slug_at n limit t
  Step-Inv {s} (stop h) v = record {
    few = v.few;
    within = v.within;
    in_flight = v.in_flight;
    named = v.named;
    done = v.done;
    over = v.over;
    gone = v.gone;
  }
  Step-Inv {s} (launch p lt on room) v = record {
    few = omega (arith, room);
    within = lt;
    in_flight = λ i h. elim (Bool-cases (i == s.next)) [
      | inl on ↦ (ground arith, rw ((==_iff i s.next).0 on) here)
      | inr off ↦ let (before, m) = v.in_flight i (rw off at h) in (omega arith, there m)
    ];
    named = v.named;
    done = λ i before idle. elim (Bool-cases (i == s.next)) [
      | inl on ↦ ground arith
      | inr off ↦ v.done i (ground arith) (rw off at idle)
    ];
    over = λ e. cc;
    gone = λ e. cc;
  }
  Step-Inv {s} (break_off p lt off) v = record {
    few = v.few;
    within = v.within;
    in_flight = v.in_flight;
    named = v.named;
    done = v.done;
    over = λ e. cc;
    gone = λ e. cc;
  }
  Step-Inv {s} (all_started p e) v = record {
    few = v.few;
    within = v.within;
    in_flight = v.in_flight;
    named = v.named;
    done = v.done;
    over = λ _. e;
    gone = λ e. cc;
  }
  Step-Inv {s} (refuse p lt) v = rw settle_lem (record {
    few = v.few;
    within = lt;
    in_flight = λ i h. let (before, m) = v.in_flight i h in (omega arith, m);
    named =
        update-Named slug_at s.settled s.next (refused_entry slug_at cause s.next)
          (refused_slug slug_at cause s.next) v.named;
    done = λ i before idle. elim (Bool-cases (i == s.next)) [
      | inl on ↦ rw on (λ q. cc)
      | inr off ↦ rw off (v.done i (ground arith) idle)
    ];
    over = λ e. cc;
    gone = λ e. cc;
  })
  Step-Inv {s} (all_refused p e) v = record {
    few = v.few;
    within = v.within;
    in_flight = v.in_flight;
    named = v.named;
    done = v.done;
    over = λ _. e;
    gone = λ e. cc;
  }
  Step-Inv {s} (write i a w) v = record {
    few = v.few;
    within = v.within;
    in_flight = v.in_flight;
    named = v.named;
    done = v.done;
    over = v.over;
    gone = v.gone;
  }
  Step-Inv {s} (finish i e seen w names sees) v = rw settle_lem (record {
    few = v.few;
    within = v.within;
    in_flight = λ j h. elim (Bool-cases (j == i)) [
      | inl on ↦ ground arith
      | inr off ↦ v.in_flight j (rw off at h)
    ];
    named =
        update-Named slug_at s.settled i (mark_stopped seen e) (marked_slug seen e ∙ names) v.named;
    done = λ j before idle. elim (Bool-cases (j == i)) [
      | inl on ↦ rw on (λ q. cc)
      | inr off ↦ rw off (v.done j before (rw off at idle))
    ];
    over = v.over;
    gone = λ r. (
      (v.gone r).0,
      λ j lt. filled s.settled i j (kept (s.settled i) (mark_stopped seen e)) ((v.gone r).1 j lt),
    );
  })
  Step-Inv {s} (leave i before after off split) v = record {
    few = omega (
      arith,
      v.few,
      ap length split,
      length-append before (i ∷ after),
      length-append before after,
    );
    within = v.within;
    in_flight = λ j h.
        let (before', m) = v.in_flight j h in
        (
          before',
          Member-removed before after (λ (q : j ≡ i). cc (ap s.working q)) (Member-subst split m),
        );
    named = v.named;
    done = v.done;
    over = v.over;
    gone = v.gone;
  }
  Step-Inv {s} (all_done p empty) v = record {
    few = v.few;
    within = v.within;
    in_flight = v.in_flight;
    named = v.named;
    done = v.done;
    over = λ e. cc;
    gone = λ _. (
      v.over p,
      λ i lt. v.done i (omega (arith, v.over p)) (elim (Bool-cases (s.working i)) [
        | inr idle ↦ idle
        | inl busy ↦ absurd (nothing_in (Member-subst empty (v.in_flight i busy).1))
      ]),
    );
  }
  Step-Inv {s} (give_up p off) v = rw abandon_lem (record {
    few = v.few;
    within = v.within;
    in_flight = v.in_flight;
    named = abandon-Named slug_at cause n 0 s v.named;
    done = λ i before idle.
        abandon-filled slug_at cause n 0 s i (inl (omega arith, omega (arith, v.within)));
    over = λ e. cc;
    gone = λ _.
        (v.over p, λ i lt. abandon-filled slug_at cause n 0 s i (inl (omega arith, omega arith)));
  })
