-- ===== src/Billing/Reconciliation/Lifecycle.antt =====
-- The life cycle that the reconciliation keeps to, whatever other requests do in between.
use eleeveon_schools_backend.Prelude.{
  ℕ, ◌≡◌, refl, String, Bool, true, false, Option, none, some, List, [], ◌∷◌, ◌===◌, inl, inr,
  arith, any, map, Bool-cases, eq_iff, ap, ◌∙◌, ◌&&◌, sym,
}
use eleeveon_schools_backend.Result.{Result}
use eleeveon_schools_backend.Billing.Reconciliation.{
  Subscription, is_due, is_running, is_renewable, next_status, is_claimed, claim_row, with_status,
  claim, settle,
}

-- A row keeps what it has, or its trial, period or grace period is over.
pub data Lapse (now : ℕ) (s : Subscription) : Subscription → Type 0 where
  kept : Lapse now s s
  trial_over :
      s.status ≡ "trial" → is_due now s.trial_ends_at ≡ true → Lapse now s (with_status "expired" s)
  into_grace :
      s.status ≡ "active"
      → is_due now s.current_period_end ≡ true
      → Lapse now s (with_status "grace" s)
  period_over :
      is_renewable s.status ≡ true
      → is_due now s.current_period_end ≡ true
      → Lapse now s (with_status "expired" s)

pub data Lapses (now : ℕ) : List Subscription → List Subscription → Type 0 where
  no_rows : Lapses now [] []
  row :
      {s t : Subscription} {rows ends : List Subscription}
      → Lapse now s t
      → Lapses now rows ends
      → Lapses now (s ∷ rows) (t ∷ ends)

pub Lapses-refl : (now : ℕ) (db : List Subscription) → Lapses now db db
Lapses-refl now [] = no_rows
Lapses-refl now (s ∷ rows) = row kept (Lapses-refl now rows)

-- how a status changes, by the status before
pub data Change (status next : String) : Type 0 where
  from_trial : status ≡ "trial" → next ≡ "expired" → Change status next
  from_active :
      (status === "trial") ≡ false → status ≡ "active" → next ≡ "grace" → Change status next
  from_period :
      (status === "trial") ≡ false
      → is_renewable status ≡ true
      → next ≡ "expired"
      → Change status next

pub same_absurd : (a b : String) → (a === b) ≡ false → a ≡ b → ⊥
same_absurd a b differ same = let yes : (a === b) ≡ true = (eq_iff a b).1 same in cc

active_or_grace :
    (status : String)
    → is_renewable status ≡ true
    → ("grace" === status) ≡ false
    → status ≡ "active"
active_or_grace status renewable changes = elim (Bool-cases (status === "active")) [
  | inl e ↦ (eq_iff status "active").0 e
  | inr e ↦
      let grace : (status === "grace") ≡ true = ground arith in
      absurd (same_absurd "grace" status changes (sym ((eq_iff status "grace").0 grace)))
]

next_period-Change :
    (now : ℕ) (s : Subscription)
    → (s.status === "trial") ≡ false
    → (next_status now s === s.status) ≡ false
    → Change s.status (next_status now s)
unfolding next_status
next_period-Change now s other changes =
    elim (Bool-cases (is_renewable s.status && is_due now s.current_period_end)) [
      | inl due ↦ elim (Bool-cases (is_running now s.grace_ends_at)) [
        | inl e ↦
            let next : next_status now s ≡ "grace" = rw other (rw due (rw e refl)) in
            from_active other (active_or_grace s.status (ground arith) (rw next at changes)) next
        | inr e ↦ from_period other (ground arith) (rw other (rw due (rw e refl)))
      ]
      | inr e ↦ absurd (same_absurd _ _ changes (rw other (rw e refl)))
    ]

pub next_status-Change :
    (now : ℕ) (s : Subscription)
    → (next_status now s === s.status) ≡ false
    → Change s.status (next_status now s)
unfolding next_status
next_status-Change now s changes = elim (Bool-cases (s.status === "trial")) [
  | inl e ↦ elim (Bool-cases (is_due now s.trial_ends_at)) [
    | inl due ↦ from_trial ((eq_iff s.status "trial").0 e) (rw e (rw due refl))
    | inr due ↦ absurd (same_absurd _ _ changes (rw e (rw due refl)))
  ]
  | inr e ↦ next_period-Change now s e changes
]

claimed_row-Lapse :
    (now : ℕ) (seen s : Subscription)
    → (next_status now seen === seen.status) ≡ false
    → is_claimed now seen s ≡ true
    → Lapse now s (with_status (next_status now seen) s)
claimed_row-Lapse now seen s changes claimed =
    let same : s.status ≡ seen.status = (eq_iff s.status seen.status).0 (ground arith) in
    elim (next_status-Change now seen changes) [
      | from_trial e next ↦ rw next (
          trial_over (same ∙ e) (
            let trial : (seen.status === "trial") ≡ true = (eq_iff seen.status "trial").1 e in
            ground arith))
      | from_active other e next ↦ rw next (into_grace (same ∙ e) (ground arith))
      | from_period other e next ↦ rw next (period_over (ap is_renewable same ∙ e) (ground arith))
    ]

claim_row-Lapse :
    (now : ℕ) (seen s : Subscription)
    → (next_status now seen === seen.status) ≡ false
    → Lapse now s (claim_row now seen s)
claim_row-Lapse now seen s changes = elim (Bool-cases (is_claimed now seen s)) [
  | inl e ↦ rw e (claimed_row-Lapse now seen s changes e)
  | inr e ↦ rw e kept
]

map-Lapses :
    (now : ℕ) (seen : Subscription) (db : List Subscription)
    → (next_status now seen === seen.status) ≡ false
    → Lapses now db (map (claim_row now seen) db)
map-Lapses now seen [] changes = no_rows
map-Lapses now seen (s ∷ rows) changes =
    row (claim_row-Lapse now seen s changes) (map-Lapses now seen rows changes)

-- For every row that was read earlier and every table at the time of the write, each row of the
-- table keeps what it has or makes one permitted move whose date is due: a trial expires, an
-- active period turns to grace, an active or grace period expires. No other status is left or
-- entered.
pub settle-Lapses :
    (rebuild : String → Result (Unit {0})) (now : ℕ) (observe_only : Bool)
    (seen : Option Subscription) (db : List Subscription)
    → Lapses now db ((settle rebuild now observe_only seen db).1)
unfolding settle claim
settle-Lapses rebuild now observe_only none db = Lapses-refl now db
settle-Lapses rebuild now observe_only (some seen) db =
    elim (Bool-cases (next_status now seen === seen.status)) [
      | inl same ↦ rw same (Lapses-refl now db)
      | inr changes ↦ rw changes (elim (Bool-cases observe_only) [
        | inl e ↦ rw e (Lapses-refl now db)
        | inr e ↦ rw e (elim (Bool-cases (any (is_claimed now seen) db)) [
          | inl some_row ↦ rw some_row (map-Lapses now seen db changes)
          | inr no_row ↦ rw no_row (Lapses-refl now db)
        ])
      ])
    ]
