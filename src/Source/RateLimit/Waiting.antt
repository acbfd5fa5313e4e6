-- ===== src/Source/RateLimit/Waiting.antt =====
-- The time during which something waits, which a waitBudget is to spend.
use gitdr.Common.{
  ℕ, zero, suc, ◌+◌, ◌-◌, ◌≤◌, ◌<◌, ◌^◌, ◌≡◌, refl, ◌∙◌, ap, inl, inr, Bool, true, false, ◌&&◌,
  ◌||◌, List, [], ◌∷◌, arith, if◌then◌else◌, ltb, leb, leb→le, ltb→lt, Bool-cases, pos,
}
use gitdr.Source.RateLimit.{WaitBudget}

-- Whether one of the waits, each from its first instant to before its second, is under way.
unfoldable pub waits_at : List (ℕ × ℕ) → ℕ → Bool
waits_at [] t = false
waits_at ((now, resume) ∷ ws) t = (leb now t && ltb t resume) || waits_at ws t

-- How many instants before `n` have a wait under way.
unfoldable pub waited_before : ℕ → List (ℕ × ℕ) → ℕ
unfolding waits_at
waited_before zero ws = 0
waited_before (suc n) ws = waited_before n ws + (if waits_at ws n then 1 else 0)

-- The instant by which all of the waits are over.
unfoldable pub all_over : List (ℕ × ℕ) → ℕ
all_over [] = 0
all_over ((now, resume) ∷ ws) = if ltb (all_over ws) resume then resume else all_over ws

-- The time with a wait under way.
unfoldable pub time_waiting : List (ℕ × ℕ) → ℕ
unfolding waited_before all_over
time_waiting ws = waited_before (all_over ws) ws

-- The specification: a wait is granted as long as the time with a wait under way stays in the limit.
unfoldable pub grant_all : ℕ → List (ℕ × ℕ) → List (ℕ × ℕ) → List (ℕ × ℕ)
unfolding time_waiting
grant_all most [] granted = granted
grant_all most ((now, resume) ∷ asked) granted =
    grant_all most asked (
      if leb (time_waiting ((now, resume) ∷ granted)) most
      then (now, resume) ∷ granted
      else granted)

-- Instants that do not go back, each wait after its own and shorter than 2 ^ 62 nanoseconds.
abbrev pub InOrder : ℕ → List (ℕ × ℕ) → Type 0
InOrder last [] = Unit
InOrder last ((now, resume) ∷ asked) =
    (last ≤ now) × (now ≤ resume) × (resume < now + 2 ^ 62) × InOrder now asked

waits_at-over : (ws : List (ℕ × ℕ)) (t : ℕ) → all_over ws ≤ t → waits_at ws t ≡ false
unfolding waits_at all_over
waits_at-over [] t h = refl
waits_at-over ((now, resume) ∷ ws) t h = elim (Bool-cases (ltb (all_over ws) resume)) [
  | inl e ↦ ground (arith, e, waits_at-over ws t)
  | inr e ↦ ground (arith, e, waits_at-over ws t)
]

waited_before-same :
    (n : ℕ) (ws vs : List (ℕ × ℕ))
    → ((t : ℕ) → t < n → waits_at ws t ≡ waits_at vs t)
    → waited_before n ws ≡ waited_before n vs
unfolding waited_before
waited_before-same zero ws vs h = refl
waited_before-same (suc n) ws vs h =
    let before = waited_before-same n ws vs (λ t lt. h t (omega arith)) in
    rw (before, h n (omega arith)) refl

-- The part of a wait of `d` instants past `until` that does not begin before `now`.
abbrev past_now : ℕ → ℕ → ℕ → ℕ
past_now now until d = if ltb now until then d else until + d - now

waited_before-suc :
    (n : ℕ) (ws : List (ℕ × ℕ))
    → waited_before (suc n) ws ≡ waited_before n ws + (if waits_at ws n then 1 else 0)
unfolding waited_before
waited_before-suc n ws = refl

-- At an instant past the waits so far and before the end of a new one, only the new one counts.
waits_at-new :
    (now resume t : ℕ) (ws : List (ℕ × ℕ))
    → all_over ws ≤ t
    → t < resume
    → waits_at ((now, resume) ∷ ws) t ≡ leb now t
unfolding waits_at
waits_at-new now resume t ws over h = ground (arith, waits_at-over ws t over)

waited_before-past :
    (now resume until d : ℕ) (ws : List (ℕ × ℕ))
    → all_over ws ≤ until
    → until + d ≤ resume
    → waited_before (until + d) ((now, resume) ∷ ws)
      ≡ waited_before until ((now, resume) ∷ ws) + past_now now until d
waited_before-past now resume until zero ws over h = ground arith
waited_before-past now resume until (suc d) ws over h =
    let before = waited_before-past now resume until d ws over (omega arith) in
    let at = waits_at-new now resume (until + d) ws (omega arith) (omega arith) in
    let w = (now, resume) ∷ ws in
    ap (λ n. waited_before n w) (omega arith)
    ∙ waited_before-suc (until + d) w
    ∙ ground (arith, before, at)

-- The budget has spent what the waits granted take, none of them is over later than it says, and one
-- of them is under way from the latest instant to then.
abbrev pub Books : ℕ → List (ℕ × ℕ) → WaitBudget → Type 0
Books last ws b =
    (b.spent ≡ pos (time_waiting ws))
    × (b.until ≡ all_over ws)
    × ((t : ℕ) → last ≤ t → t < all_over ws → waits_at ws t ≡ true)

-- What a new wait adds.
abbrev pub added : ℕ → ℕ → ℕ → ℕ
added now resume until = resume - (if ltb now until then until else now)

waits_at-inside :
    (last now resume t : ℕ) (ws : List (ℕ × ℕ))
    → ((t : ℕ) → last ≤ t → t < all_over ws → waits_at ws t ≡ true)
    → last ≤ now
    → t < all_over ws
    → waits_at ((now, resume) ∷ ws) t ≡ waits_at ws t
unfolding waits_at
waits_at-inside last now resume t ws busy later lt = elim (Bool-cases (leb now t)) [
  | inl on ↦ ground (arith, on, leb→le now t on, busy t (omega (arith, leb→le now t on)) lt)
  | inr off ↦ ground (arith, off)
]

pub time_waiting-added :
    (last now resume : ℕ) (ws : List (ℕ × ℕ))
    → ((t : ℕ) → last ≤ t → t < all_over ws → waits_at ws t ≡ true)
    → last ≤ now
    → now ≤ resume
    → time_waiting ((now, resume) ∷ ws) ≡ time_waiting ws + added now resume (all_over ws)
unfolding time_waiting all_over
time_waiting-added last now resume ws busy later ends =
    let same =
      waited_before-same (all_over ws) ((now, resume) ∷ ws) ws
        (λ t lt. waits_at-inside last now resume t ws busy later lt) in
    elim (Bool-cases (ltb (all_over ws) resume)) [
      | inl on ↦
          let lt = ltb→lt (all_over ws) resume on in
          let past =
            waited_before-past now resume (all_over ws) (resume - all_over ws) ws (omega arith)
              (omega (arith, lt)) in
          let to_end : waited_before resume ((now, resume) ∷ ws)
              ≡ waited_before (all_over ws + (resume - all_over ws)) ((now, resume) ∷ ws) =
            ap (λ n. waited_before n ((now, resume) ∷ ws)) (omega (arith, lt)) in
          ground (arith, on, to_end, past, same)
      | inr off ↦ ground (arith, off, same)
    ]

pub waits_at-granted :
    (last now resume t : ℕ) (ws : List (ℕ × ℕ))
    → ((t : ℕ) → last ≤ t → t < all_over ws → waits_at ws t ≡ true)
    → last ≤ now
    → now ≤ t
    → t < all_over ((now, resume) ∷ ws)
    → waits_at ((now, resume) ∷ ws) t ≡ true
unfolding waits_at all_over
waits_at-granted last now resume t ws busy later from lt = elim (Bool-cases (ltb t (all_over ws))) [
  | inl on ↦ ground (arith, busy t (omega arith) (ltb→lt t (all_over ws) on))
  | inr off ↦ ground (arith, off)
]
