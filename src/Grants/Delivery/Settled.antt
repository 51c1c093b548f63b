-- ===== src/Grants/Delivery/Settled.antt =====
-- The stored items of a line when a job is reported (jobs.service.ts).
use mastermind_minecraft_ser.Prelude.{
  ℕ, zero, suc, ◌≤◌, Bool, ◌≡◌, refl, Text, Option, none, some, List, [], ◌∷◌, All, take, length,
  ltb, arith, inl, inr, update_first, Bool-cases,
}
use mastermind_minecraft_ser.Grants.Items.{Runtime}
use mastermind_minecraft_ser.Grants.Status.{LineGrantItem}
use mastermind_minecraft_ser.Grants.Outcome.{RunResult, GrantOutcome, classify_grant_output}
use mastermind_minecraft_ser.Grants.Delivery.{
  line_items_value, Line, line_items, set_at, settle_items, settle_item, is_waiting, next_status,
  next_error, failure_text, finish_shop_grant,
}
use mastermind_minecraft_ser.Grants.Delivery.Kept.{IsGood, IsFull, IsKept, line_items-kept}

length-take : (n : ℕ) (t : Text) → length (take n t) ≤ n
length-take zero t = omega arith
length-take (suc n) [] = omega arith
length-take (suc n) (c ∷ t) = omega (arith, length-take n t)

failure-short : (output : Text) → length (failure_text output) ≤ 180
unfolding failure_text
failure-short [] = omega arith
failure-short (c ∷ t) = length-take 180 (c ∷ t)

settle-IsGood :
    (outcome : GrantOutcome) (output : Text) (i : LineGrantItem)
    → IsGood i
    → IsGood (settle_item outcome output i)
unfolding next_status next_error
settle-IsGood GrantOutcome.delivered output i h = (
  record {
    name = h.0.name;
    quantity = h.0.quantity;
    status = refl;
    attempts = h.0.attempts;
    error = tt;
  },
  h.1,
)
settle-IsGood GrantOutcome.failed output i h = (
  record {
    name = h.0.name;
    quantity = h.0.quantity;
    status = refl;
    attempts = h.0.attempts;
    error = failure-short output;
  },
  h.1,
)
settle-IsGood GrantOutcome.retry output i h = (
  record {
    name = h.0.name;
    quantity = h.0.quantity;
    status = refl;
    attempts = h.0.attempts;
    error = failure-short output;
  },
  h.1,
)

set_at-All :
    (f : LineGrantItem → LineGrantItem) (index : ℕ) (is : List LineGrantItem)
    → ((i : LineGrantItem) → IsGood i → IsGood (f i))
    → All IsGood is
    → All IsGood (set_at index f is) × (length (set_at index f is) ≡ length is)
unfolding set_at
set_at-All f index [] hf h = (tt, refl)
set_at-All f zero (i ∷ is) hf h = ((hf i h.0, h.1), refl)
set_at-All f (suc index) (i ∷ is) hf h =
    let (good, same_length) = set_at-All f index is hf h.1 in
    ((h.0, good), omega (arith, same_length))

first-All :
    (f : LineGrantItem → LineGrantItem) (p : LineGrantItem → Bool) (is : List LineGrantItem)
    → ((i : LineGrantItem) → IsGood i → IsGood (f i))
    → All IsGood is
    → All IsGood (update_first p f is) × (length (update_first p f is) ≡ length is)
unfolding update_first
first-All f p [] hf h = (tt, refl)
first-All f p (i ∷ is) hf h = elim (Bool-cases (p i)) [
  | inl hit ↦ rw (hit, update_first) ((hf i h.0, h.1), refl)
  | inr miss ↦
      let (good, same_length) = first-All f p is hf h.1 in
      rw (miss, update_first) ((h.0, good), omega (arith, same_length))
]

settle_items-All :
    (f : LineGrantItem → LineGrantItem) (index : Option ℕ) (is : List LineGrantItem)
    → ((i : LineGrantItem) → IsGood i → IsGood (f i))
    → All IsGood is
    → All IsGood (settle_items index f is) × (length (settle_items index f is) ≡ length is)
unfolding settle_items
settle_items-All f none is hf h = first-All f is_waiting is hf h
settle_items-All f (some k) is hf h = elim (Bool-cases (ltb k (length is))) [
  | inl inside ↦ rw (inside, settle_items) (set_at-All f k is hf h)
  | inr outside ↦ rw (outside, settle_items) (first-All f is_waiting is hf h)
]

-- The report of an item's job, whatever its output and whichever item it names, leaves a line of one to
-- eight good items a line of as many good items, which are read back as they are stored.
pub finish_shop_grant-IsKept :
    (js : Runtime) (now : ℕ) (index : Option ℕ) (output : Text) (result : RunResult) (l : Line)
    → IsKept l
    → (is : List LineGrantItem) × ((finish_shop_grant js now index output result l).grant_items
        ≡ line_items_value is)
      × IsFull is
      × (length is ≡ length (line_items js l))
unfolding finish_shop_grant
finish_shop_grant-IsKept js now index output result l h =
    let full = line_items-kept js l h in
    let outcome = classify_grant_output output result in
    let (good, same_length) =
      settle_items-All (settle_item outcome output) index (line_items js l)
        (settle-IsGood outcome output) full.0 in
    (
      settle_items index (settle_item outcome output) (line_items js l),
      refl,
      (good, omega (arith, same_length, full.1), omega (arith, same_length, full.2)),
      same_length,
    )
