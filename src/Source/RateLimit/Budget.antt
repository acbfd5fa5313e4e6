-- ===== src/Source/RateLimit/Budget.antt =====
-- waitBudget: what is spent is the time during which something waits.
use gitdr.Common.{
  ℕ, ◌+◌, ◌-◌, ◌≤◌, ◌<◌, ◌^◌, ◌≡◌, refl, ap, inl, inr, Bool, true, false, List, [], ◌∷◌, arith,
  if◌then◌else◌, ltb, leb, leb→le, Bool-cases, pos, wrap64, sub_time,
}
use gitdr.Source.RateLimit.{WaitBudget, at_least_zero, add_charge, new_wait, reserve, reserve_all}
use gitdr.Source.RateLimit.Waiting.{
  all_over, time_waiting, grant_all, InOrder, Books, added, time_waiting-added, waits_at-granted,
}

add_charge-fits :
    (s charge : ℕ) → s + charge < 2 ^ 63 → add_charge (pos s) charge ≡ pos (s + charge)
unfolding add_charge wrap64
add_charge-fits s charge h = ground arith

sub_time-fits : (t u : ℕ) → t - u < 2 ^ 63 → at_least_zero (sub_time t u) ≡ t - u
unfolding sub_time
sub_time-fits t u h = ground arith

add_charge-exact :
    (last now resume : ℕ) (ws : List (ℕ × ℕ)) (b : WaitBudget)
    → time_waiting ws < 2 ^ 62
    → Books last ws b
    → last ≤ now
    → now ≤ resume
    → resume < now + 2 ^ 62
    → add_charge b.spent (new_wait b now resume) ≡ pos (time_waiting ((now, resume) ∷ ws))
add_charge-exact last now resume ws b fits (spent, over, busy) later ends short =
    let sum = time_waiting-added last now resume ws busy later ends in
    let charge : new_wait b now resume ≡ added now resume (all_over ws) =
      rw over (
        sub_time-fits resume (if ltb now (all_over ws) then all_over ws else now) (ground arith)) in
    rw (spent, charge, sum)
      (add_charge-fits (time_waiting ws) (added now resume (all_over ws)) (ground arith))

reserve-granted :
    (most now resume total : ℕ) (b : WaitBudget)
    → b.most ≡ pos most
    → add_charge b.spent (new_wait b now resume) ≡ pos total
    → leb total most ≡ true
    → reserve b now resume ≡ (
      true,
      record b { spent = pos total; until = if ltb b.until resume then resume else b.until },
    )
unfolding reserve
reserve-granted most now resume total b is_most sum h = rw (sum, is_most) (ground (arith, h))

reserve-refused :
    (most now resume total : ℕ) (b : WaitBudget)
    → b.most ≡ pos most
    → add_charge b.spent (new_wait b now resume) ≡ pos total
    → leb total most ≡ false
    → reserve b now resume ≡ (false, b)
unfolding reserve
reserve-refused most now resume total b is_most sum h = rw (sum, is_most) (ground (arith, h))

reserve_all-step :
    (now resume : ℕ) (b b' : WaitBudget) (asked ws : List (ℕ × ℕ)) (granted : Bool)
    → reserve b now resume ≡ (granted, b')
    → reserve_all b ((now, resume) ∷ asked) ws
      ≡ reserve_all b' asked (if granted then (now, resume) ∷ ws else ws)
unfolding reserve_all
reserve_all-step now resume b b' asked ws granted h =
    ap (λ (r : Bool × WaitBudget). reserve_all r.1 asked (if r.0 then (now, resume) ∷ ws else ws)) h

grant_all-step :
    (most now resume : ℕ) (asked ws : List (ℕ × ℕ)) (granted : Bool)
    → leb (time_waiting ((now, resume) ∷ ws)) most ≡ granted
    → grant_all most ((now, resume) ∷ asked) ws
      ≡ grant_all most asked (if granted then (now, resume) ∷ ws else ws)
unfolding grant_all
grant_all-step most now resume asked ws granted h =
    ap (λ (g : Bool). grant_all most asked (if g then (now, resume) ∷ ws else ws)) h

Books-granted :
    (last now resume : ℕ) (ws : List (ℕ × ℕ)) (b : WaitBudget)
    → Books last ws b
    → last ≤ now
    → Books now ((now, resume) ∷ ws) (record b {
      spent = pos (time_waiting ((now, resume) ∷ ws));
      until = if ltb b.until resume then resume else b.until;
    })
unfolding all_over
Books-granted last now resume ws b (spent, over, busy) later =
    (refl, rw over refl, λ t from lt. waits_at-granted last now resume t ws busy later from lt)

-- From a budget that books the waits so far, those granted are those of the specification.
abbrev Grants : ℕ → List (ℕ × ℕ) → WaitBudget × List (ℕ × ℕ) → Type 0
Grants most ws out = (out.1 ≡ ws) × (time_waiting ws ≤ most) × (out.0.spent ≡ pos (time_waiting ws))

reserve_all-Books :
    (most last : ℕ) (b : WaitBudget) (asked ws : List (ℕ × ℕ))
    → most < 2 ^ 62
    → b.most ≡ pos most
    → time_waiting ws ≤ most
    → Books last ws b
    → InOrder last asked
    → Grants most (grant_all most asked ws) (reserve_all b asked ws)
reserve_all-Books most last b [] ws small is_most fits books order =
    unfold reserve_all grant_all in (refl, fits, books.0)
reserve_all-Books most last b ((now, resume) ∷ asked) ws small is_most fits books order =
    let (later, ends, short, rest) = order in
    let total = time_waiting ((now, resume) ∷ ws) in
    let sum = add_charge-exact last now resume ws b (omega arith) books later ends short in
    elim (Bool-cases (leb total most)) [
      | inl on ↦
          let b' : WaitBudget = record b {
            spent = pos total;
            until = if ltb b.until resume then resume else b.until;
          } in
          let step = reserve-granted most now resume total b is_most sum on in
          rw
            (
              reserve_all-step now resume b b' asked ws true step,
              grant_all-step most now resume asked ws true on,
            )
            (reserve_all-Books most now b' asked ((now, resume) ∷ ws) small is_most
              (leb→le total most on) (Books-granted last now resume ws b books later) rest)
      | inr off ↦
          let step = reserve-refused most now resume total b is_most sum off in
          rw
            (
              reserve_all-step now resume b b asked ws false step,
              grant_all-step most now resume asked ws false off,
            )
            (reserve_all-Books most now b asked ws small is_most fits
              (books.0, books.1, λ t from lt. books.2 t (omega arith) lt) rest)
    ]

-- What a budget spends is the time with a wait under way. From nothing spent, and however many
-- requests ask, the waits it grants are those of the specification: each is granted exactly if the
-- instants with some granted wait under way, this one included, stay in the limit. What it has then
-- spent is the number of those instants, waits that overlap counted once, and is in the limit. For
-- instants that do not go back, waits below 146 years, and a limit below that.
pub reserve_all-refines :
    (most : ℕ) (asked : List (ℕ × ℕ))
    → most < 2 ^ 62
    → InOrder 0 asked
    → let out = reserve_all (record { most = pos most; spent = pos 0; until = 0 }) asked [] in
      let granted = grant_all most asked [] in
      (out.1 ≡ granted) × (time_waiting granted ≤ most) × (out.0.spent ≡ pos (time_waiting granted))
unfolding time_waiting all_over
reserve_all-refines most asked small order =
    reserve_all-Books most 0 (record { most = pos most; spent = pos 0; until = 0 }) asked [] small
      refl (omega arith) (refl, refl, λ t from lt. absurd (omega arith)) order
