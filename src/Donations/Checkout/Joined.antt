-- ===== src/Donations/Checkout/Joined.antt =====
-- Lists that are joined with commas and read back.
use mastermind_minecraft_ser.Prelude.{
  ℕ, zero, suc, pos, negsuc, Bool, true, false, ◌≡◌, refl, ap, ◌∙◌, Text, same, join_commas, trim,
  is_space, Option, none, List, [], ◌∷◌, map, all, All, filter, arith, ◌==◌,
}
use mastermind_minecraft_ser.Prelude.Trim.{All-append}
use mastermind_minecraft_ser.Prelude.Split.{Lacks, IsTight, split_commas-join, trim-tight}
use mastermind_minecraft_ser.Json.{JsNumber, int, fraction, nan}
use mastermind_minecraft_ser.Grants.Items.{Runtime, is_letter, is_digit}
use mastermind_minecraft_ser.Grants.Command.{decimal}
use mastermind_minecraft_ser.Donations.Signature.Digits.{
  All-map, IsNumeral, decimal-IsNumeral, decimal-Lacks, decimal-IsTight,
}
use mastermind_minecraft_ser.Donations.Stripe.{
  is_item_id, is_item_id_char, shop_item_ids_of, single_item, line_amounts_of, positives,
}
use mastermind_minecraft_ser.Donations.Checkout.{
  CheckoutLineItem, has_price, is_price, whole_cents, cents_of,
}
use mastermind_minecraft_ser.Donations.Checkout.Body.{joined}

id_char-lacks : (c : ℕ) → is_item_id_char c ≡ true → (c == b',') ≡ false
unfolding is_item_id_char is_letter is_digit
id_char-lacks c h = ground arith

id_char-no_space : (c : ℕ) → is_item_id_char c ≡ true → is_space c ≡ false
unfolding is_item_id_char is_letter is_digit is_space
id_char-no_space c h = ground arith

all-All : (p : ℕ → Bool) (t : Text) → all p t ≡ true → All (λ c. p c ≡ true) t
all-All p [] h = tt
all-All p (c ∷ t) h = (ground arith, all-All p t (ground arith))

id-chars : (t : Text) → is_item_id t ≡ true → All (λ c. is_item_id_char c ≡ true) t
unfolding is_item_id
id-chars t h = all-All is_item_id_char t (ground arith)

-- a part that has neither commas nor spaces
abbrev IsPlain : Text → Type 0
IsPlain t = Lacks b',' t × IsTight t

id-IsPlain : (t : Text) → is_item_id t ≡ true → IsPlain t
id-IsPlain t h =
    (All-map _ _ t id_char-lacks (id-chars t h), All-map _ _ t id_char-no_space (id-chars t h))

decimal-IsPlain : (n : ℕ) → IsPlain (decimal n)
unfolding is_digit
decimal-IsPlain n = (decimal-Lacks b',' n refl, decimal-IsTight n)

All-parts : (P Q : Text → Type 0) (ts : List Text) → ((t : Text) → P t → Q t) → All P ts → All Q ts
All-parts P Q [] f h = tt
All-parts P Q (t ∷ ts) f h = (f t h.0, All-parts P Q ts f h.1)

join-IsTight : (ts : List Text) → All IsTight ts → IsTight (join_commas ts)
unfolding join_commas is_space
join-IsTight [] h = tt
join-IsTight (t ∷ []) h = h.0
join-IsTight (t ∷ next ∷ ts) h =
    All-append _ t (b',' ∷ join_commas (next ∷ ts)) h.0 (refl, join-IsTight (next ∷ ts) h.1)

map-trim : (ts : List Text) → All IsTight ts → map trim ts ≡ ts
map-trim [] h = refl
map-trim (t ∷ ts) h = rw (trim-tight t h.0, map-trim ts h.1) refl

filter-true : (p : Text → Bool) (ts : List Text) → All (λ t. p t ≡ true) ts → filter p ts ≡ ts
unfolding filter
filter-true p [] h = refl
filter-true p (t ∷ ts) h = rw (h.0, filter, filter-true p ts h.1) refl

-- a joined list whose first part is not empty is not empty
join-filled : (c : ℕ) (t : Text) (ts : List Text) → same (join_commas ((c ∷ t) ∷ ts)) [] ≡ false
unfolding join_commas same
join-filled c t [] = refl
join-filled c t (next ∷ ts) = refl

numeral-joined : (t : Text) (ts : List Text) → IsNumeral t → same (join_commas (t ∷ ts)) [] ≡ false
numeral-joined [] ts h = absurd h
numeral-joined (c ∷ t) ts h = join-filled c t ts

numeral-filled : (n : ℕ) (ts : List Text) → same (join_commas (decimal n ∷ ts)) [] ≡ false
numeral-filled n ts = numeral-joined (decimal n) ts (decimal-IsNumeral n)

pub ids-joined :
    (ids : List Text) (one : Option Text)
    → All (λ t. is_item_id t ≡ true) ids
    → (ids ≡ [] → one ≡ none)
    → shop_item_ids_of (joined ids (join_commas ids)) one ≡ ids
unfolding shop_item_ids_of single_item is_item_id
ids-joined [] one h alone = rw (alone refl) refl
ids-joined ([] ∷ ids) one h alone = absurd (ground arith)
ids-joined ((c ∷ t) ∷ ids) one h alone =
    let plain = All-parts _ IsPlain ((c ∷ t) ∷ ids) id-IsPlain h in
    let tight = All-parts IsPlain IsTight ((c ∷ t) ∷ ids) (λ s k. k.1) plain in
    rw
      (
        trim-tight (join_commas ((c ∷ t) ∷ ids)) (join-IsTight ((c ∷ t) ∷ ids) tight),
        join-filled c t ids,
        split_commas-join (c ∷ t) ids
            (All-parts IsPlain (Lacks b',') ((c ∷ t) ∷ ids) (λ s k. k.0) plain),
        map-trim ((c ∷ t) ∷ ids) tight,
      )
      (filter-true is_item_id ((c ∷ t) ∷ ids) h)

abbrev decimals : List CheckoutLineItem → List Text
decimals items = map (λ item. decimal (cents_of item)) items

decimals-All : (items : List CheckoutLineItem) → All IsPlain (decimals items)
decimals-All [] = tt
decimals-All (item ∷ items) = (decimal-IsPlain (cents_of item), decimals-All items)

is_price-cents : (a : JsNumber) → is_price a ≡ true → (n : ℕ) × (whole_cents a ≡ suc n)
unfolding is_price whole_cents
is_price-cents (int (pos (suc n))) h = (n, refl)
is_price-cents (int (pos zero)) h = absurd (ground arith)
is_price-cents (int (negsuc n)) h = absurd (ground arith)
is_price-cents (fraction n) h = absurd (ground arith)
is_price-cents nan h = absurd (ground arith)

-- The runtime reads the numbers of the amounts back as they were written.
abbrev pub ReadsBack : Runtime → List CheckoutLineItem → Type 0
ReadsBack js items =
    All (λ item. js.to_number (decimal (cents_of item)) ≡ int (pos (cents_of item))) items

positives-suc :
    (n : JsNumber) (k m : ℕ) (ns : List JsNumber)
    → n ≡ int (pos k)
    → k ≡ suc m
    → positives (n ∷ ns) ≡ k ∷ positives ns
unfolding positives
positives-suc n k m ns e f = rw (e, f) refl

positives-decimals :
    (js : Runtime) (items : List CheckoutLineItem)
    → all has_price items ≡ true
    → ReadsBack js items
    → positives (map (λ part. js.to_number (trim part)) (decimals items)) ≡ map cents_of items
unfolding positives has_price cents_of
positives-decimals js [] h r = refl
positives-decimals js (item ∷ items) h r =
    let (n, e) = is_price-cents item.amount_cents (ground arith) in
    positives-suc _ (cents_of item) n _
      (ap js.to_number (trim-tight (decimal (cents_of item)) (decimal-IsTight (cents_of item)))
        ∙ r.0)
      e
    ∙ ap (λ (ns : List ℕ). cents_of item ∷ ns) (positives-decimals js items (ground arith) r.1)

-- the amounts are sent when there are shop items
abbrev pub billed : List Text → List ℕ → List ℕ
billed [] ns = []
billed (id ∷ ids) ns = ns

pub amounts-joined :
    (js : Runtime) (ids : List Text) (items : List CheckoutLineItem)
    → all has_price items ≡ true
    → ReadsBack js items
    → line_amounts_of js (joined ids (join_commas (decimals items)))
      ≡ billed ids (map cents_of items)
unfolding line_amounts_of join_commas
amounts-joined js [] items h r = refl
amounts-joined js (id ∷ ids) [] h r = rw (trim-tight [] tt) refl
amounts-joined js (id ∷ ids) (item ∷ items) h r =
    let plain = decimals-All (item ∷ items) in
    let tight = All-parts IsPlain IsTight (decimals (item ∷ items)) (λ s k. k.1) plain in
    rw
      (
        trim-tight (join_commas (decimals (item ∷ items)))
            (join-IsTight (decimals (item ∷ items)) tight),
        numeral-filled (cents_of item) (decimals items),
        split_commas-join (decimal (cents_of item)) (decimals items)
            (All-parts IsPlain (Lacks b',') (decimals (item ∷ items)) (λ s k. k.0) plain),
      )
      (positives-decimals js (item ∷ items) h r)
