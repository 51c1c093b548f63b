-- ===== src/Grants/Delivery/Kept.antt =====
-- The stored items of a line through a delivery (jobs.service.ts).
use mathlib.Core.Path.{subst}
use mastermind_minecraft_ser.Prelude.{
  ℕ, zero, suc, ◌≤◌, Bool, true, false, ◌≡◌, refl, sym, ap, ◌∙◌, Text, List, [], ◌∷◌, ◌++◌, All,
  take, length, length-append, leb, ltb, arith, inl, inr, Bool-cases, filter,
}
use mastermind_minecraft_ser.Prelude.Trim.{All-append}
use mastermind_minecraft_ser.Grants.Items.{Runtime, max_grant_attempts, max_grant_items}
use mastermind_minecraft_ser.Grants.Status.{LineGrantItem}
use mastermind_minecraft_ser.Grants.Stored.{line_items_value, line_grant_items}
use mastermind_minecraft_ser.Grants.Stored.Lines.{IsStoredItem, line_grant_items-again}
use mastermind_minecraft_ser.Grants.Delivery.{
  Line, Recipient, State, next_step, deliver_items, queue_shop_grant_job, line_items, kept_item,
  queued_item, invalid_item, write_invalid, deliver_lines, deliver_shop_grant_lines, is_open,
  is_stale, GrantJob,
}
use mastermind_minecraft_ser.Grants.Delivery.Bounds.{Step-cases, next_step-give, branches}

-- An item as it is stored, with at most eight attempts.
abbrev pub IsGood : LineGrantItem → Type 0
IsGood i = IsStoredItem i × (i.attempts ≤ max_grant_attempts)

-- one to eight items
abbrev pub IsFull : List LineGrantItem → Type 0
IsFull is = All IsGood is × (1 ≤ length is) × (length is ≤ max_grant_items)

-- The column of the line holds such items.
abbrev pub IsKept : Line → Type 0
IsKept l = (is : List LineGrantItem) × (l.grant_items ≡ line_items_value is) × IsFull is

invalid-IsGood : (i : LineGrantItem) → IsGood i → IsGood (invalid_item i)
invalid-IsGood i h = (
  record {
    name = h.0.name;
    quantity = h.0.quantity;
    status = refl;
    attempts = h.0.attempts;
    error = omega arith;
  },
  h.1,
)

queued-IsGood :
    (i : LineGrantItem)
    → ltb i.attempts max_grant_attempts ≡ true
    → IsGood i
    → IsGood (queued_item i)
queued-IsGood i below h = (
  record {
    name = h.0.name;
    quantity = h.0.quantity;
    status = refl;
    attempts = ground arith;
    error = tt;
  },
  ground arith,
)

kept-IsGood :
    (works : Bool) (i : LineGrantItem)
    → ltb i.attempts max_grant_attempts ≡ true
    → IsGood i
    → IsGood (kept_item works i)
kept-IsGood true i below h = queued-IsGood i below h
kept-IsGood false i below h = (
  record {
    name = h.0.name;
    quantity = h.0.quantity;
    status = refl;
    attempts = h.0.attempts;
    error = h.0.error;
  },
  h.1,
)

queue-items :
    (works : Bool) (now index : ℕ) (command : Text) (grants : List LineGrantItem) (s : State)
    → (queue_shop_grant_job works now index command grants s).line.grant_items
      ≡ line_items_value grants
unfolding queue_shop_grant_job
queue-items true now index command grants s = refl
queue-items false now index command grants s = refl

-- an item in the middle may be replaced
middle :
    (before is : List LineGrantItem) (i j : LineGrantItem)
    → IsGood j
    → IsFull (before ++ (i ∷ is))
    → All IsGood before
    → All IsGood is
    → IsFull (before ++ (j ∷ is))
middle before is i j good full hb hr = (
  All-append IsGood before (j ∷ is) hb (good, hr),
  omega (arith, full.1, length-append before (i ∷ is), length-append before (j ∷ is)),
  omega (arith, full.2, length-append before (i ∷ is), length-append before (j ∷ is)),
)

-- the item goes to those before
onwards :
    (before is : List LineGrantItem) (i j : LineGrantItem)
    → IsGood j
    → IsFull (before ++ (i ∷ is))
    → All IsGood before
    → All IsGood is
    → IsFull ((before ++ (j ∷ [])) ++ is) × All IsGood (before ++ (j ∷ []))
onwards before is i j good full hb hr =
    let first = All-append IsGood before (j ∷ []) hb (good, tt) in
    (
      (
        All-append IsGood (before ++ (j ∷ [])) is first hr,
        omega (
          arith,
          full.1,
          length-append before (i ∷ is),
          length-append before (j ∷ []),
          length-append (before ++ (j ∷ [])) is,
        ),
        omega (
          arith,
          full.2,
          length-append before (i ∷ is),
          length-append before (j ∷ []),
          length-append (before ++ (j ∷ [])) is,
        ),
      ),
      first,
    )

deliver_items-IsKept :
    (js : Runtime) (works : ℕ → Bool) (who : Recipient) (limit : ℕ) (stale : Bool) (index : ℕ)
    (before rest : List LineGrantItem) (s : State)
    → IsFull (before ++ rest)
    → All IsGood before
    → All IsGood rest
    → IsKept s.line
    → IsKept (deliver_items js works who limit stale index before rest s).line
unfolding deliver_items
deliver_items-IsKept js works who limit stale index before [] s full hb hr k = k
deliver_items-IsKept js works who limit stale index before (i ∷ is) s full hb hr k =
    elim (Step-cases (next_step js who limit stale s.count i)) [
      | inl e ↦ rw (e, deliver_items) k
      | inr (inl e) ↦
          let (full2, hb2) = onwards before is i i hr.0 full hb hr.1 in
          rw (e, deliver_items)
            (deliver_items-IsKept js works who limit stale (suc index) (before ++ (i ∷ [])) is s
              full2 hb2 hr.1 k)
      | inr (inr (inl e)) ↦
          let good = invalid-IsGood i hr.0 in
          let (full2, hb2) = onwards before is i (invalid_item i) good full hb hr.1 in
          rw (e, deliver_items)
            (deliver_items-IsKept js works who limit stale (suc index)
              (before ++ (invalid_item i ∷ [])) is
              (record s { line = write_invalid (before ++ (invalid_item i ∷ is)) s.line }) full2 hb2
              hr.1
              (
                before ++ (invalid_item i ∷ is),
                refl,
                middle before is i (invalid_item i) good full hb hr.1,
              ))
      | inr (inr (inr (command, e))) ↦
          let (below, due, made) = next_step-give js who limit s.count stale i command e in
          let few : ltb i.attempts max_grant_attempts ≡ true = ground arith in
          let grants = before ++ (queued_item i ∷ is) in
          let (full2, hb2) =
            onwards before is i (kept_item (works index) i) (kept-IsGood (works index) i few hr.0)
              full hb hr.1 in
          rw (e, deliver_items)
            (deliver_items-IsKept js works who limit stale (suc index)
              (before ++ (kept_item (works index) i ∷ [])) is
              (queue_shop_grant_job (works index) who.now index command grants s) full2 hb2 hr.1
              (
                grants,
                queue-items (works index) who.now index command grants s,
                middle before is i (queued_item i) (queued-IsGood i few hr.0) full hb hr.1,
              ))
    ]

stored_items : (is : List LineGrantItem) → All IsGood is → All IsStoredItem is
stored_items [] h = tt
stored_items (i ∷ is) h = (h.0.0, stored_items is h.1)

-- the items that are read are those that were stored
pub line_items-kept : (js : Runtime) (l : Line) → IsKept l → IsFull (line_items js l)
line_items-kept js l (is, stored, full) =
    subst IsFull
      (sym (
        ap (λ v. line_grant_items js v l.grant_item_name l.grant_quantity) stored
        ∙ line_grant_items-again js is l.grant_item_name l.grant_quantity (stored_items is full.0)
            full.1 full.2))
      full

All-take : (P : Line → Type 0) (n : ℕ) (ls : List Line) → All P ls → All P (take n ls)
All-take P zero ls h = tt
All-take P (suc n) [] h = tt
All-take P (suc n) (l ∷ ls) h = (h.0, All-take P n ls h.1)

All-filter : (P : Line → Type 0) (p : Line → Bool) (ls : List Line) → All P ls → All P (filter p ls)
unfolding filter
All-filter P p [] h = tt
All-filter P p (l ∷ ls) h = elim (Bool-cases (p l)) [
  | inl hit ↦ rw (hit, filter) (h.0, All-filter P p ls h.1)
  | inr miss ↦ rw (miss, filter) (All-filter P p ls h.1)
]

deliver_lines-IsKept :
    (js : Runtime) (works : ℕ → ℕ → Bool) (who : Recipient) (limit : ℕ) (written lines : List Line)
    (jobs : List GrantJob) (count : ℕ)
    → All IsKept written
    → All IsKept lines
    → All IsKept (deliver_lines js works who limit written lines jobs count).0
unfolding deliver_lines
deliver_lines-IsKept js works who limit written [] jobs count hw hl = hw
deliver_lines-IsKept js works who limit written (l ∷ ls) jobs count hw hl =
    let start : State = record { line = l; jobs = jobs; count = count } in
    let stale = is_stale l.grant_queued_at who.now in
    let s = deliver_items js (works l.id) who limit stale 0 [] (line_items js l) start in
    let full = line_items-kept js l hl.0 in
    let kept =
      deliver_items-IsKept js (works l.id) who limit stale 0 [] (line_items js l) start full tt
        full.0 hl.0 in
    branches (λ r. All IsKept r.0) (leb limit count) who.online _ _ _ hw
      (deliver_lines-IsKept js works who limit written ls jobs count hw hl.1)
      (deliver_lines-IsKept js works who limit (s.line ∷ written) ls s.jobs s.count (kept, hw) hl.1)

-- Every line that a delivery writes keeps one to eight items that are read back as they are stored: an
-- accepted name and quantity, a state that the code sets, at most eight attempts, and an error of at most
-- 180 characters, where all the lines did before.
pub deliver_shop_grant_lines-IsKept :
    (js : Runtime) (works : ℕ → ℕ → Bool) (has_member : Bool) (who : Recipient) (limit player : ℕ)
    (lines : List Line)
    → All IsKept lines
    → All IsKept (deliver_shop_grant_lines js works has_member who limit player lines).0
unfolding deliver_shop_grant_lines
deliver_shop_grant_lines-IsKept js works true who limit player lines h =
    deliver_lines-IsKept js works who limit [] (take 16 (filter (is_open player) lines)) [] 0 tt (
      All-take IsKept 16 (filter (is_open player) lines)
        (All-filter IsKept (is_open player) lines h))
deliver_shop_grant_lines-IsKept js works false who limit player lines h = tt
