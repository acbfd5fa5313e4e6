-- ===== src/Pipeline/FanOut/Ends.antt =====
-- fanOut: a run ends. What is counted is the work left to its steps, the writes apart.
use gitdr.Common.{
  ℕ, zero, suc, ◌+◌, ◌-◌, ◌*◌, ◌≤◌, ◌<◌, ◌≡◌, ◌≢◌, ◌⊎◌, refl, sym, ◌∙◌, inl, inr, Bool, true, false,
  List, [], ◌∷◌, ◌++◌, arith, Text, ltb, ltb→lt, length, length-append, if◌then◌else◌, ◌==◌,
  Bool-cases, ap, ==_iff, here,
}
use gitdr.Pipeline.FanOut.{
  Phase, State, starting, refusing, waiting, returned, update, at_least_one, start, Step, stop,
  launch, break_off, all_started, refuse, all_refused, write, finish, leave, all_done, give_up,
  Reach, here, later,
}
use gitdr.Pipeline.FanOut.Settled.{Inv, settle_lem, abandon_lem}
use gitdr.Pipeline.FanOut.Events.{Reach-Inv}

abbrev count_working : ℕ → (ℕ → Bool) → ℕ
count_working zero working = 0
count_working (suc n) working = (if working n then 1 else 0) + count_working n working

abbrev phase_left : Phase → ℕ
phase_left starting = 3
phase_left refusing = 2
phase_left waiting = 1
phase_left returned = 0

-- Three for a repository that is still to be started, two and then one for one in flight, and one
-- for each change of the run's own.
abbrev pub work_left : ℕ → State → ℕ
work_left n s =
    3 * (n - s.next)
    + count_working n s.working
    + length s.held
    + phase_left s.phase
    + (if s.stopped then 0 else 1)

count_above :
    (n i : ℕ) (f : ℕ → Bool) (b : Bool) → n ≤ i → count_working n (update f i b) ≡ count_working n f
count_above zero i f b h = refl
count_above (suc n) i f b h = elim (Bool-cases (n == i)) [
  | inl on ↦ absurd (ground arith)
  | inr off ↦ rw off (omega (arith, count_above n i f b (omega arith)))
]

count_started :
    (n i : ℕ) (f : ℕ → Bool) → count_working n (update f i true) ≤ suc (count_working n f)
count_started zero i f = omega arith
count_started (suc n) i f = elim (Bool-cases (n == i)) [
  | inl on ↦ rw on (ground (arith, ==_iff n i, count_above n i f true))
  | inr off ↦ rw off (omega (arith, count_started n i f))
]

count_finished :
    (n i : ℕ) (f : ℕ → Bool)
    → i < n
    → f i ≡ true
    → suc (count_working n (update f i false)) ≡ count_working n f
count_finished zero i f lt h = absurd (omega arith)
count_finished (suc n) i f lt h = elim (Bool-cases (n == i)) [
  | inl on ↦
      let same : n ≡ i = (==_iff n i).0 on in
      rw (on, count_above n i f false (omega arith)) (rw (same, h) (omega arith))
  | inr off ↦ rw off (omega (arith, count_finished n i f (ground arith) h))
]

count_none : (n : ℕ) → count_working n (λ _. false) ≡ 0
count_none zero = refl
count_none (suc n) = omega (arith, count_none n)

List-cases : (xs : List ℕ) → (xs ≡ []) ⊎ ((x : ℕ) × (rest : List ℕ) × (xs ≡ [] ++ (x ∷ rest)))
List-cases [] = inl refl
List-cases (x ∷ rest) = inr (x, rest, refl)

at_least_one_pos : (limit : ℕ) → 0 < at_least_one limit
unfolding at_least_one
at_least_one_pos zero = omega arith
at_least_one_pos (suc n) = omega arith

Phase-cases : (p : Phase) → (p ≡ starting) ⊎ ((p ≡ refusing) ⊎ ((p ≡ waiting) ⊎ (p ≡ returned)))
Phase-cases starting = inl refl
Phase-cases refusing = inr (inl refl)
Phase-cases waiting = inr (inr (inl refl))
Phase-cases returned = inr (inr (inr refl))

module _ (slug_at : ℕ → Text) (cause : Text) (n limit : ℕ) where
  -- A write is no move; any other step is one.
  abbrev pub is_move : {s t : State} → Step slug_at cause n limit s t → ℕ
  is_move (write i a w) = 0
  is_move _ = 1

  abbrev pub moves : {s t : State} → Reach slug_at cause n limit s t → ℕ
  moves here = 0
  moves (later r st) = moves r + is_move st

  Step-lowers :
      {s t : State} (st : Step slug_at cause n limit s t)
      → Inv slug_at n limit s
      → is_move st + work_left n t ≤ work_left n s
  Step-lowers {s} (stop h) v = ground arith
  Step-lowers {s} (launch p lt on room) v = omega (arith, count_started n s.next s.working)
  Step-lowers {s} (break_off p lt off) v = ground arith
  Step-lowers {s} (all_started p e) v = ground arith
  Step-lowers {s} (refuse p lt) v = rw settle_lem (omega arith)
  Step-lowers {s} (all_refused p e) v = ground arith
  Step-lowers {s} (write i a w) v = omega arith
  Step-lowers {s} (finish i e seen w names sees) v =
      rw settle_lem (
        omega
          (arith, count_finished n i s.working (omega (arith, (v.in_flight i w).0, v.within)) w))
  Step-lowers {s} (leave i before after off split) v =
      omega (arith, ap length split, length-append before (i ∷ after), length-append before after)
  Step-lowers {s} (all_done p empty) v = ground arith
  Step-lowers {s} (give_up p off) v = rw abandon_lem (ground arith)

  -- The run's own moves: not the stop, nor what a repository in flight does.
  abbrev pub is_own : {s t : State} → Step slug_at cause n limit s t → Bool
  is_own (stop _) = false
  is_own (write i a w) = false
  is_own (finish i e seen w names sees) = false
  is_own _ = true

  abbrev pub OwnMove : State → Type 0
  OwnMove s = (t : State) × (st : Step slug_at cause n limit s t) × (is_own st ≡ true)

  -- What a run waits for: it can go on by itself, or it is not stopped and a repository is in flight.
  abbrev pub Going : State → Type 0
  Going s = OwnMove s ⊎ ((s.stopped ≡ false) × (i : ℕ) × (s.working i ≡ true))

  holder-Going :
      (s : State) (i : ℕ) (before after : List ℕ)
      → s.stopped ≡ false
      → s.held ≡ before ++ (i ∷ after)
      → Going s
  holder-Going s i before after on split = elim (Bool-cases (s.working i)) [
    | inl busy ↦ inr (on, i, busy)
    | inr idle ↦ inl (_, leave i before after idle split, refl)
  ]

  starting-Going : (s : State) → Inv slug_at n limit s → s.phase ≡ starting → Going s
  starting-Going s v p = elim (Bool-cases (ltb s.next n)) [
    | inr last ↦ inl (_, all_started p (ground (arith, v.within)), refl)
    | inl more ↦ elim (Bool-cases s.stopped) [
      | inl off ↦ inl (_, break_off p (ltb→lt _ _ more) off, refl)
      | inr on ↦ elim (Bool-cases (ltb (length s.held) (at_least_one limit))) [
        | inl room ↦ inl (_, launch p (ltb→lt _ _ more) on (ltb→lt _ _ room), refl)
        | inr full ↦ elim (List-cases s.held) [
          | inr (i, rest, split) ↦ holder-Going s i [] rest on split
          | inl empty ↦ absurd (ground (arith, ap length empty, at_least_one_pos limit))
        ]
      ]
    ]
  ]

  waiting-Going : (s : State) → s.phase ≡ waiting → Going s
  waiting-Going s p = elim (List-cases s.held) [
    | inl empty ↦ inl (_, all_done p empty, refl)
    | inr (i, rest, split) ↦ elim (Bool-cases s.stopped) [
      | inl off ↦ inl (_, give_up p off, refl)
      | inr on ↦ holder-Going s i [] rest on split
    ]
  ]

  never_stuck : (s : State) → Inv slug_at n limit s → s.phase ≢ returned → Going s
  never_stuck s v p = elim (Phase-cases s.phase) [
    | inl at_start ↦ starting-Going s v at_start
    | inr (inl at_refusal) ↦ elim (Bool-cases (ltb s.next n)) [
      | inl more ↦ inl (_, refuse at_refusal (ltb→lt _ _ more), refl)
      | inr last ↦ inl (_, all_refused at_refusal (ground (arith, v.within)), refl)
    ]
    | inr (inr (inl at_wait)) ↦ waiting-Going s at_wait
    | inr (inr (inr over)) ↦ absurd (p over)
  ]

  moves_left :
      {s : State} (r : Reach slug_at cause n limit start s) → moves r + work_left n s ≤ 3 * n + 4
  unfolding start
  moves_left here = omega (arith, count_none n)
  moves_left (later {t = t} r st) =
      omega (arith, moves_left r, Step-lowers st (Reach-Inv slug_at cause n limit r))

  -- A run ends, unless it is never stopped and waits for a repository that does not end. However its
  -- steps fall, a run of `n` repositories makes at most 3 * n + 4 moves,
  -- the steps besides the writes of repositories in flight. While it has not returned it can make a
  -- move of its own, or it has not been stopped and a repository is in flight, which it waits for.
  -- Once it is stopped, it can always make a move of its own until it has returned: nothing that a
  -- repository does, or fails to do, is needed for that.
  pub ends_lem :
      {s : State} (r : Reach slug_at cause n limit start s)
      → (moves r ≤ 3 * n + 4)
        × (s.phase ≢ returned → Going s)
        × (s.phase ≢ returned → s.stopped ≡ true → OwnMove s)
  ends_lem {s} r =
      let going = never_stuck s (Reach-Inv slug_at cause n limit r) in
      (
        omega (arith, moves_left r),
        going,
        λ p off. elim (going p) [
          | inl own ↦ own
          | inr (on, _, _) ↦ absurd (let z : false ≡ true = sym on ∙ off in cc)
        ],
      )
