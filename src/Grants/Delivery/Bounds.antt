-- ===== src/Grants/Delivery/Bounds.antt =====
-- The jobs of a delivery (deliverShopGrantLines of jobs.service.ts).
use mastermind_minecraft_ser.Prelude.{
  ℕ, suc, ◌≤◌, Bool, true, false, not, ◌≡◌, ◌⊎◌, refl, pos, Text, Option, none, some, List, [], ◌∷◌,
  ◌++◌, All, take, filter, length, leb, arith, if◌then◌else◌, inl, inr,
}
use mastermind_minecraft_ser.Json.{int, string, number}
use mastermind_minecraft_ser.Grants.Items.{Runtime}
use mastermind_minecraft_ser.Grants.Status.{LineGrantItem}
use mastermind_minecraft_ser.Grants.Command.{build_give_command}
use mastermind_minecraft_ser.Grants.Command.Safety.{IsCommand, build_give_command-IsCommand}
use mastermind_minecraft_ser.Grants.Delivery.{
  Line, GrantJob, Recipient, State, Step, stop, leave, invalid, give_item, command_step, next_step,
  is_due, is_open, is_stale, deliver_items, deliver_lines, deliver_shop_grant_lines,
  queue_shop_grant_job, line_items, kept_item, queued_item, invalid_item, write_invalid,
}

pub Step-cases :
    (x : Step)
    → (x ≡ stop) ⊎ ((x ≡ leave) ⊎ ((x ≡ invalid) ⊎ ((command : Text) × (x ≡ give_item command))))
Step-cases stop = inl refl
Step-cases leave = inr (inl refl)
Step-cases invalid = inr (inr (inl refl))
Step-cases (give_item command) = inr (inr (inr (command, refl)))

command_step-give :
    (o : Option Text) (command : Text) → command_step o ≡ give_item command → o ≡ some command
unfolding command_step
command_step-give none command h = absurd (ground arith)
command_step-give (some c) command h = ground arith

three_steps :
    (p q : Bool) (r : Step) (command : Text)
    → (if p then stop else if not q then leave else r) ≡ give_item command
    → (p ≡ false) × (q ≡ true) × (r ≡ give_item command)
three_steps p q r command h = (ground arith, ground arith, ground arith)

-- an item is given below the limit, when it is due, by its command
pub next_step-give :
    (js : Runtime) (who : Recipient) (limit count : ℕ) (stale : Bool) (i : LineGrantItem)
    (command : Text)
    → next_step js who limit stale count i ≡ give_item command
    → (leb limit count ≡ false)
      × (is_due stale i ≡ true)
      × (build_give_command js
            (some who.name)
            (string i.name)
            (number (int (pos i.quantity)))
            who.uuid
          ≡ some command)
unfolding next_step
next_step-give js who limit count stale i command h =
    let (below, due, made) = three_steps (leb limit count) (is_due stale i) _ command h in
    (below, due, command_step-give _ command made)

-- The jobs are counted, no more than the limit, and each is a give command.
pub record IsWithin (limit : ℕ) (s : State) : Type 0 where
  pub counted : length s.jobs ≡ s.count
  pub bounded : s.count ≤ limit
  pub commands : All (λ j. IsCommand j.command) s.jobs

queue-IsWithin :
    (works : Bool) (now index limit : ℕ) (command : Text) (grants : List LineGrantItem) (s : State)
    → IsCommand command
    → leb limit s.count ≡ false
    → IsWithin limit s
    → IsWithin limit (queue_shop_grant_job works now index command grants s)
unfolding queue_shop_grant_job
queue-IsWithin true now index limit command grants s c below w = record {
  counted = omega (arith, w.counted);
  bounded = ground arith;
  commands = (c, w.commands);
}
queue-IsWithin false now index limit command grants s c below w = record {
  counted = w.counted;
  bounded = w.bounded;
  commands = w.commands;
}

deliver_items-IsWithin :
    (js : Runtime) (works : ℕ → Bool) (who : Recipient) (limit : ℕ) (stale : Bool) (index : ℕ)
    (before rest : List LineGrantItem) (s : State)
    → IsWithin limit s
    → IsWithin limit (deliver_items js works who limit stale index before rest s)
unfolding deliver_items
deliver_items-IsWithin js works who limit stale index before [] s w = w
deliver_items-IsWithin js works who limit stale index before (i ∷ is) s w =
    elim (Step-cases (next_step js who limit stale s.count i)) [
      | inl e ↦ rw (e, deliver_items) w
      | inr (inl e) ↦
          rw (e, deliver_items)
            (deliver_items-IsWithin js works who limit stale (suc index) (before ++ (i ∷ [])) is s
              w)
      | inr (inr (inl e)) ↦
          rw (e, deliver_items)
            (deliver_items-IsWithin js works who limit stale (suc index)
              (before ++ (invalid_item i ∷ [])) is
              (record s { line = write_invalid (before ++ (invalid_item i ∷ is)) s.line })
              (record { counted = w.counted; bounded = w.bounded; commands = w.commands }))
      | inr (inr (inr (command, e))) ↦
          let (below, due, made) = next_step-give js who limit s.count stale i command e in
          rw (e, deliver_items)
            (deliver_items-IsWithin js works who limit stale (suc index)
              (before ++ (kept_item (works index) i ∷ [])) is
              (queue_shop_grant_job (works index) who.now index command
                (before ++ (queued_item i ∷ is)) s)
              (queue-IsWithin (works index) who.now index limit command
                (before ++ (queued_item i ∷ is)) s
                (build_give_command-IsCommand js (some who.name) (string i.name)
                  (number (int (pos i.quantity))) who.uuid command made)
                below w))
    ]

pub branches :
    (P : List Line × List GrantJob → Type 0) (b c : Bool) (x y z : List Line × List GrantJob)
    → P x
    → P y
    → P z
    → P (if b then x else if not c then y else z)
branches P true c x y z hx hy hz = hx
branches P false true x y z hx hy hz = hz
branches P false false x y z hx hy hz = hy

deliver_lines-bounded :
    (js : Runtime) (works : ℕ → ℕ → Bool) (who : Recipient) (limit : ℕ) (written lines : List Line)
    (jobs : List GrantJob) (count : ℕ)
    → length jobs ≡ count
    → count ≤ limit
    → All (λ j. IsCommand j.command) jobs
    → let made = (deliver_lines js works who limit written lines jobs count).1 in
      (length made ≤ limit) × All (λ j. IsCommand j.command) made
unfolding deliver_lines
deliver_lines-bounded js works who limit written [] jobs count counted bounded good =
    (omega arith, good)
deliver_lines-bounded js works who limit written (l ∷ ls) jobs count counted bounded good =
    let start : State = record { line = l; jobs = jobs; count = count } in
    let stale = is_stale l.grant_queued_at who.now in
    let s = deliver_items js (works l.id) who limit stale 0 [] (line_items js l) start in
    let w =
      deliver_items-IsWithin js (works l.id) who limit stale 0 [] (line_items js l) start
        (record { counted = counted; bounded = bounded; commands = good }) in
    branches (λ r. (length r.1 ≤ limit) × All (λ j. IsCommand j.command) r.1) (leb limit count)
      who.online _ _ _ (omega (arith, counted), good)
      (deliver_lines-bounded js works who limit written ls jobs count counted bounded good)
      (deliver_lines-bounded js works who limit (s.line ∷ written) ls s.jobs s.count w.counted
        w.bounded w.commands)

-- A delivery queues at most as many console jobs as its limit, whatever the player's lines hold and whichever
-- jobs can be made, and the text of each is a give command: printable characters without a line break,
-- at most 127, of which the first is `g`.
pub deliver_shop_grant_lines-bounded :
    (js : Runtime) (works : ℕ → ℕ → Bool) (has_member : Bool) (who : Recipient) (limit player : ℕ)
    (lines : List Line)
    → let jobs = (deliver_shop_grant_lines js works has_member who limit player lines).1 in
      (length jobs ≤ limit) × All (λ j. IsCommand j.command) jobs
unfolding deliver_shop_grant_lines
deliver_shop_grant_lines-bounded js works true who limit player lines =
    deliver_lines-bounded js works who limit [] (take 16 (filter (is_open player) lines)) [] 0 refl
      (omega arith) tt
deliver_shop_grant_lines-bounded js works false who limit player lines = (omega arith, tt)
