-- ===== src/Grants/Delivery/Starved.antt =====
-- Items that have used up their attempts (deliverShopGrantLines of jobs.service.ts).
use mastermind_minecraft_ser.Prelude.{
  ℕ, suc, Bool, true, false, ◌≡◌, ◌⊎◌, refl, ap, ◌∙◌, List, [], ◌∷◌, ◌++◌, All, take, filter, leb,
  ltb, arith, inl, inr, Bool-cases,
}
use mastermind_minecraft_ser.Grants.Items.{Runtime, max_grant_attempts}
use mastermind_minecraft_ser.Grants.Status.{LineGrantItem}
use mastermind_minecraft_ser.Grants.Delivery.{
  Line, GrantJob, Recipient, State, stop, leave, next_step, is_due, is_open, is_stale,
  deliver_items, deliver_lines, deliver_shop_grant_lines, line_items,
}
use mastermind_minecraft_ser.Grants.Delivery.Bounds.{branches}

abbrev pub IsExhausted : Runtime → Line → Type 0
IsExhausted js l = All (λ i. ltb i.attempts max_grant_attempts ≡ false) (line_items js l)

not_due :
    (js : Runtime) (who : Recipient) (limit count : ℕ) (stale : Bool) (i : LineGrantItem)
    → ltb i.attempts max_grant_attempts ≡ false
    → (next_step js who limit stale count i ≡ stop) ⊎ (next_step js who limit stale count i ≡ leave)
unfolding next_step
not_due js who limit count stale i h =
    let due : is_due stale i ≡ false = ground arith in
    elim (Bool-cases (leb limit count)) [
      | inl full ↦ inl (rw full refl)
      | inr room ↦ inr (rw room (rw due refl))
    ]

exhausted_items :
    (js : Runtime) (works : ℕ → Bool) (who : Recipient) (limit : ℕ) (stale : Bool) (index : ℕ)
    (before rest : List LineGrantItem) (s : State)
    → All (λ i. ltb i.attempts max_grant_attempts ≡ false) rest
    → deliver_items js works who limit stale index before rest s ≡ s
unfolding deliver_items
exhausted_items js works who limit stale index before [] s h = refl
exhausted_items js works who limit stale index before (i ∷ is) s h =
    elim (not_due js who limit s.count stale i h.0) [
      | inl e ↦ rw (e, deliver_items) refl
      | inr e ↦
          rw (e, deliver_items)
            (exhausted_items js works who limit stale (suc index) (before ++ (i ∷ [])) is s h.1)
    ]

exhausted_lines :
    (js : Runtime) (works : ℕ → ℕ → Bool) (who : Recipient) (limit : ℕ) (written lines : List Line)
    (jobs : List GrantJob) (count : ℕ)
    → All (IsExhausted js) lines
    → (deliver_lines js works who limit written lines jobs count).1 ≡ jobs
unfolding deliver_lines
exhausted_lines js works who limit written [] jobs count h = refl
exhausted_lines js works who limit written (l ∷ ls) jobs count h =
    let start : State = record { line = l; jobs = jobs; count = count } in
    let stale = is_stale l.grant_queued_at who.now in
    let s = deliver_items js (works l.id) who limit stale 0 [] (line_items js l) start in
    let same_state =
      exhausted_items js (works l.id) who limit stale 0 [] (line_items js l) start h.0 in
    branches (λ r. r.1 ≡ jobs) (leb limit count) who.online _ _ _ refl
      (exhausted_lines js works who limit written ls jobs count h.1)
      (exhausted_lines js works who limit (s.line ∷ written) ls s.jobs s.count h.1
        ∙ ap (λ (t : State). t.jobs) same_state)

-- While the items of the first sixteen open lines of a player have all used up their attempts, a delivery
-- makes no job, whatever the player's other lines hold.
pub deliver_shop_grant_lines-starved :
    (js : Runtime) (works : ℕ → ℕ → Bool) (has_member : Bool) (who : Recipient) (limit player : ℕ)
    (lines : List Line)
    → All (IsExhausted js) (take 16 (filter (is_open player) lines))
    → (deliver_shop_grant_lines js works has_member who limit player lines).1 ≡ []
unfolding deliver_shop_grant_lines
deliver_shop_grant_lines-starved js works true who limit player lines h =
    exhausted_lines js works who limit [] (take 16 (filter (is_open player) lines)) [] 0 h
deliver_shop_grant_lines-starved js works false who limit player lines h = refl
