-- ===== src/Grants/Status/Aggregate.antt =====
-- The line's status tells whether an item is still to be delivered.
use mastermind_minecraft_ser.Prelude.{
  Bool, true, false, ◌||◌, ◌≡◌, inl, inr, refl, List, [], ◌∷◌, any, all, All, arith, Bool-cases,
}
use mastermind_minecraft_ser.Grants.Status.{
  LineGrantItem, LineStatus, has_pending, has_queued, is_pending, is_queued, is_delivered,
  is_failed, aggregate_grant_status,
}

-- one of the four states that the code writes
abbrev pub IsKnown : LineGrantItem → Type 0
IsKnown i = (is_pending i || is_queued i || is_delivered i || is_failed i) ≡ true

-- still to be delivered
abbrev pub is_open : LineGrantItem → Bool
is_open i = is_pending i || is_queued i

-- the line is looked at again by the delivery loop
abbrev pub is_active : LineStatus → Bool
is_active has_pending = true
is_active has_queued = true
is_active _ = false

any-open : (is : List LineGrantItem) → any is_open is ≡ (any is_pending is || any is_queued is)
any-open [] = refl
any-open (i ∷ is) = ground (arith, any-open is)

not-all_delivered : (is : List LineGrantItem) → any is_open is ≡ true → all is_delivered is ≡ false
not-all_delivered [] h = absurd (ground arith)
not-all_delivered (i ∷ is) h = ground (arith, not-all_delivered is)

not-all_failed : (is : List LineGrantItem) → any is_open is ≡ true → all is_failed is ≡ false
not-all_failed [] h = absurd (ground arith)
not-all_failed (i ∷ is) h = ground (arith, not-all_failed is)

-- with every item settled, one of the kinds is missing only if all are of the other
settled :
    (is : List LineGrantItem)
    → All IsKnown is
    → any is_open is ≡ false
    → ((any is_delivered is ≡ false) → all is_failed is ≡ true)
      × ((any is_failed is ≡ false) → all is_delivered is ≡ true)
settled [] k h = (λ _. refl, λ _. refl)
settled (i ∷ is) k h = (
  λ d. ground (arith, settled is k.1, (settled is k.1 (ground arith)).0),
  λ d. ground (arith, settled is k.1, (settled is k.1 (ground arith)).1),
)

-- A line whose items hold known states has one of the two statuses that the delivery loop selects
-- exactly when one of its items is pending or queued.
pub aggregate-active :
    (is : List LineGrantItem)
    → All IsKnown is
    → is_active (aggregate_grant_status is) ≡ any is_open is
unfolding aggregate_grant_status
aggregate-active [] k = refl
aggregate-active (i ∷ is) k = elim (Bool-cases (any is_open (i ∷ is))) [
  | inl o ↦ ground (arith, any-open (i ∷ is), not-all_delivered (i ∷ is), not-all_failed (i ∷ is))
  | inr s ↦ ground (arith, any-open (i ∷ is), (settled (i ∷ is) k s).0, (settled (i ∷ is) k s).1)
]
