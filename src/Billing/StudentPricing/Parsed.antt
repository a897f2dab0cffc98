-- ===== src/Billing/StudentPricing/Parsed.antt =====
-- What a configuration that is accepted as tiered holds.
use eleeveon_schools_backend.Prelude.{
  ℕ, ◌<◌, ◌≡◌, ◌⊎◌, inl, inr, Bool, true, not, none, some, get_or, List, [], ◌∷◌, ltb, length,
  arith, ◌||◌, sym, ◌∙◌,
}
use eleeveon_schools_backend.Result.{Result, ok, error, ◌>>=◌, bind-eq-ok, throw_if-eq-ok}
use eleeveon_schools_backend.Number.{pos, negsuc}
use eleeveon_schools_backend.Json.{
  finite, not_finite, Value, undefined, null, number, text, array, object, bool, Fields, items, get,
}
use eleeveon_schools_backend.Billing.Calculator.{BillingCycle}
use eleeveon_schools_backend.Billing.StudentPricing.{
  PricingMode, fixed, per_student, tiered, Tier, StudentPricing, nonnegative, mode_of, threshold,
  is_empty, parse_tier, tier_of, tiers_from, period_of, minimum_of, ends_unlimited, parse_tiers,
  rates_of, of_mode, pricing_of, parse_student_pricing,
}
use eleeveon_schools_backend.Billing.StudentPricing.Tiers.{IsLadder, top, rung}
use mathlib.Core.Option.{some-injective}

abbrev AboveOrTop : ℕ → Bool → Tier → Type 0
AboveOrTop last is_last t =
    ((t.up_to ≡ none) × (is_last ≡ true)) ⊎ ((u : ℕ) × (t.up_to ≡ some u) × (last < u))

threshold-eq-ok : (last : ℕ) (v : Value) (u : ℕ) → threshold last v ≡ ok u → last < u
threshold-eq-ok last (number (finite (pos n))) u h = ground arith
threshold-eq-ok last (number (finite (negsuc n))) u h = cc
threshold-eq-ok last (number not_finite) u h = cc
threshold-eq-ok last _ u h = cc

limited_tier :
    (last : ℕ) (is_last : Bool) (price : ℕ) (v : Value) (t : Tier)
    → (do
      u ← threshold last v
      ok (let r : Tier = record { up_to = some u; unit_price = price } in r))
      ≡ ok t
    → AboveOrTop last is_last t
limited_tier last is_last price v t h =
    let (u, e, same) = bind-eq-ok (threshold last v) _ h in
    inr (u, ground arith, threshold-eq-ok last v u e)

parse_tier-eq-ok :
    (last : ℕ) (is_last : Bool) (price : ℕ) (v : Value) (t : Tier)
    → parse_tier last is_last price v ≡ ok t
    → AboveOrTop last is_last t
parse_tier-eq-ok last is_last price null t h = ground arith
parse_tier-eq-ok last is_last price (number n) t h = limited_tier last is_last price (number n) t h
parse_tier-eq-ok last is_last price _ t h = cc

tier_of-eq-ok :
    (last : ℕ) (is_last : Bool) (v : Value) (t : Tier)
    → tier_of last is_last v ≡ ok t
    → AboveOrTop last is_last t
tier_of-eq-ok last is_last (object o) t h =
    let (price, _, e) = bind-eq-ok (nonnegative (get o "unitPrice")) _ h in
    parse_tier-eq-ok last is_last price (get o "upTo") t e
tier_of-eq-ok last is_last _ t h = cc

nil_of_is_empty :
    (vs : List Value) (ts : List Tier) (last : ℕ)
    → is_empty vs ≡ true
    → tiers_from last vs ≡ ok ts
    → ts ≡ []
unfolding tiers_from
nil_of_is_empty [] ts last e h = cc
nil_of_is_empty (v ∷ vs) ts last e h = cc

IsLadder-cons :
    (last : ℕ) (b : Bool) (t : Tier) (ts : List Tier)
    → AboveOrTop last b t
    → ((b ≡ true) → ts ≡ [])
    → ((u : ℕ) → t.up_to ≡ some u → ends_unlimited ts ≡ true → IsLadder u ts)
    → ends_unlimited (t ∷ ts) ≡ true
    → IsLadder last (t ∷ ts)
IsLadder-cons last b t ts (inl (e, is_last)) empty next h = rw (empty is_last) (top t e)
IsLadder-cons last b t [] (inr (u, e, above)) empty next h = absurd (ground arith)
IsLadder-cons last b t (s ∷ ts) (inr (u, e, above)) empty next h = rung t u e above (next u e h)

tiers_from-cons :
    (last : ℕ) (v : Value) (vs : List Value) (t : Tier) (ts : List Tier)
    → tiers_from last (v ∷ vs) ≡ ok (t ∷ ts)
    → (tier_of last (is_empty vs) v ≡ ok t) × (tiers_from (get_or t.up_to last) vs ≡ ok ts)
unfolding tiers_from
tiers_from-cons last v vs t ts h =
    let (t', tier, next) = bind-eq-ok (tier_of last (is_empty vs) v) _ h in
    let (ts', later, same) = bind-eq-ok (tiers_from (get_or t'.up_to last) vs) _ next in
    let (e, es) = cons_of_ok t' t ts' ts same in (cc, rw (← e) (cc))
  where
    cons_of_ok :
        (a b : Tier) (us ws : List Tier)
        → (let r : Result (List Tier) = ok (a ∷ us) in r) ≡ ok (b ∷ ws)
        → (a ≡ b) × (us ≡ ws)
    cons_of_ok a b us ws e = (cc, cc)

tiers_from-IsLadder :
    (last : ℕ) (vs : List Value) (ts : List Tier)
    → tiers_from last vs ≡ ok ts
    → ends_unlimited ts ≡ true
    → IsLadder last ts
unfolding tiers_from
tiers_from-IsLadder last [] [] h e = cc
tiers_from-IsLadder last [] (t ∷ ts) h e = cc
tiers_from-IsLadder last (v ∷ vs) [] h e = cc
tiers_from-IsLadder last (v ∷ vs) (t' ∷ ts') h e =
    let (tier, later) = tiers_from-cons last v vs t' ts' h in
    IsLadder-cons last (is_empty vs) t' ts' (tier_of-eq-ok last (is_empty vs) v t' tier)
      (λ none_left. nil_of_is_empty vs ts' (get_or t'.up_to last) none_left later)
      (λ u limited ends. tiers_from-IsLadder u vs ts' (next_from u limited later) ends) e
  where
    next_from :
        (u : ℕ)
        → t'.up_to ≡ some u
        → tiers_from (get_or t'.up_to last) vs ≡ ok ts'
        → tiers_from u vs ≡ ok ts'
    next_from u limited later = rw limited at later

parse_tiers-IsLadder : (v : Value) (ts : List Tier) → parse_tiers v ≡ ok ts → IsLadder 0 ts
unfolding parse_tiers
parse_tiers-IsLadder (array vs) ts h =
    let (_, read) = throw_if-eq-ok (is_empty (items vs) || ltb 20 (length (items vs))) error _ h in
    let (us, tiers, checked) = bind-eq-ok (tiers_from 0 (items vs)) _ read in
    let (ends, same) = throw_if-eq-ok (not (ends_unlimited us)) error _ checked in
    tiers_from-IsLadder 0 (items vs) ts (ground arith) (ground arith)
parse_tiers-IsLadder _ ts h = cc

-- What is parsed as tiered has tiers that form a ladder.
abbrev pub HasLadder : StudentPricing → Type 0
HasLadder p = (ts : List Tier) × (p.tiers ≡ some ts) × IsLadder 0 ts

rates_of-HasLadder :
    (m : PricingMode) (o : Fields) (period : BillingCycle) (minimum : ℕ) (p : StudentPricing)
    → rates_of m o period minimum ≡ ok p
    → p.mode ≡ tiered
    → HasLadder p
unfolding rates_of
rates_of-HasLadder fixed o period minimum p h e = ground arith
rates_of-HasLadder per_student o period minimum p h e =
    let (rate, _, same) = bind-eq-ok (nonnegative (get o "perStudentRate")) _ h in ground arith
rates_of-HasLadder tiered o period minimum p h e =
    let (ts, parsed, same) = bind-eq-ok (parse_tiers (get o "tiers")) _ h in
    (ts, ground arith, parse_tiers-IsLadder (get o "tiers") ts parsed)

of_mode-HasLadder :
    (m : PricingMode) (o : Fields) (p : StudentPricing)
    → of_mode m o ≡ ok p
    → p.mode ≡ tiered
    → HasLadder p
unfolding of_mode
of_mode-HasLadder fixed o p h e = ground arith
of_mode-HasLadder per_student o p h e =
    let (period, _, next) = bind-eq-ok (period_of (get o "billingPeriod")) _ h in
    let (minimum, _, read) = bind-eq-ok (minimum_of (get o "minimumAmount")) _ next in
    rates_of-HasLadder per_student o period minimum p read e
of_mode-HasLadder tiered o p h e =
    let (period, _, next) = bind-eq-ok (period_of (get o "billingPeriod")) _ h in
    let (minimum, _, read) = bind-eq-ok (minimum_of (get o "minimumAmount")) _ next in
    rates_of-HasLadder tiered o period minimum p read e

pricing_of-HasLadder :
    (v : Value) (p : StudentPricing) → pricing_of v ≡ ok p → p.mode ≡ tiered → HasLadder p
unfolding pricing_of
pricing_of-HasLadder undefined p h e = ground arith
pricing_of-HasLadder null p h e = ground arith
pricing_of-HasLadder (object o) p h e =
    let (m, _, read) = bind-eq-ok (mode_of (get o "mode")) _ h in of_mode-HasLadder m o p read e
pricing_of-HasLadder _ p h e = cc

pub parse-HasLadder :
    (v : Value) (p : StudentPricing)
    → parse_student_pricing v ≡ ok p
    → p.mode ≡ tiered
    → HasLadder p
unfolding parse_student_pricing
parse-HasLadder (object m) p h e = pricing_of-HasLadder (get m "pricing") p h e
parse-HasLadder undefined p h e = pricing_of-HasLadder undefined p h e
parse-HasLadder null p h e = pricing_of-HasLadder undefined p h e
parse-HasLadder (bool b) p h e = pricing_of-HasLadder undefined p h e
parse-HasLadder (number n) p h e = pricing_of-HasLadder undefined p h e
parse-HasLadder (text s) p h e = pricing_of-HasLadder undefined p h e
parse-HasLadder (array vs) p h e = pricing_of-HasLadder undefined p h e

pub parsed-IsLadder :
    (metadata : Value) (p : StudentPricing) (ts : List Tier)
    → parse_student_pricing metadata ≡ ok p
    → p.mode ≡ tiered
    → p.tiers ≡ some ts
    → IsLadder 0 ts
parsed-IsLadder v p ts h e held =
    let (us, found, ladder) = parse-HasLadder v p h e in
    let same : us ≡ ts = some-injective us ts (sym found ∙ held) in rw (← same) ladder
