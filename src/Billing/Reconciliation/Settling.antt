-- ===== src/Billing/Reconciliation/Settling.antt =====
-- Repeated reconciliation: it settles at once, and changes an account twice at most.
use eleeveon_schools_backend.Prelude.{
  ℕ, ◌+◌, ◌≤◌, ◌≡◌, refl, String, Bool, true, false, Option, some, List, [], ◌∷◌, ◌===◌, inl, inr,
  arith, any, map, find, Bool-cases, Option-cases, eq_iff, eq_refl, if◌then◌else◌, sym, ap, ◌∙◌,
  ◌||◌,
}
use eleeveon_schools_backend.Result.{Result, ok}
use eleeveon_schools_backend.Billing.Reconciliation.{
  Subscription, is_due, is_running, is_renewable, next_status, is_claimed, claim_row, with_status,
  claim, settle, reconcile_account, of_account, unchanged,
}
use eleeveon_schools_backend.Billing.Reconciliation.Lifecycle.{
  same_absurd, Lapse, kept, trial_over, into_grace, period_over, Lapses, no_rows, row,
  settle-Lapses, from_trial, from_active, from_period, next_status-Change,
}

-- how many times a status may still change: a trial once, an active period twice
abbrev pub changes_left : String → ℕ
changes_left status =
    if status === "active" then 2 else (if status === "trial" || status === "grace" then 1 else 0)

Lapse-changes_left :
    (now : ℕ) (s t : Subscription)
    → Lapse now s t
    → t.entitlement_version + changes_left t.status ≤ s.entitlement_version + changes_left s.status
Lapse-changes_left now s t kept = omega arith
Lapse-changes_left now s t (trial_over e due) = rw e (omega arith)
Lapse-changes_left now s t (into_grace e due) = rw e (omega arith)
Lapse-changes_left now s t (period_over e due) = elim (Bool-cases (s.status === "active")) [
  | inl active ↦ rw active (omega arith)
  | inr other ↦
      let grace : (s.status === "grace") ≡ true = ground arith in
      rw ((eq_iff s.status "grace").0 grace) (omega arith)
]

-- the writes that the versions count, with those that the statuses still allow
abbrev pub versions : List Subscription → ℕ
versions [] = 0
versions (s ∷ rows) = s.entitlement_version + versions rows

abbrev pub all_changes_left : List Subscription → ℕ
all_changes_left [] = 0
all_changes_left (s ∷ rows) = changes_left s.status + all_changes_left rows

Lapses-versions :
    (now : ℕ) (db end : List Subscription)
    → Lapses now db end
    → versions end + all_changes_left end ≤ versions db + all_changes_left db
Lapses-versions now db end no_rows = omega arith
Lapses-versions now db end (row {s} {t} {rows} {ends} lapse more) =
    let first = Lapse-changes_left now s t lapse in
    let rest = Lapses-versions now rows ends more in omega arith

-- the tables after any number of reconciliations, each at a time of its own, for a row that was
-- read at any time, to observe or to write
pub data Run (rebuild : String → Result (Unit {0})) (db : List Subscription)
    : List Subscription → Type 0 where
  start : Run rebuild db db
  later :
      {end : List Subscription}
      → Run rebuild db end
      → (now : ℕ) (observe_only : Bool) (seen : Option Subscription)
      → Run rebuild db ((settle rebuild now observe_only seen end).1)

-- Reconciliations change a table a bounded number of times: however many run, at whatever times
-- and for whatever rows read earlier, the entitlement versions rise in all by no more than the
-- changes that the statuses had left, two for an active period, one for a trial or a grace
-- period and none for another status.
pub reconciliation_ends :
    (rebuild : String → Result (Unit {0})) (db end : List Subscription)
    → Run rebuild db end
    → versions end + all_changes_left end ≤ versions db + all_changes_left db
reconciliation_ends rebuild db end start = omega arith
reconciliation_ends rebuild db end (later {end = between} run now observe_only seen) =
    let before = reconciliation_ends rebuild db between run in
    let step =
      Lapses-versions now between ((settle rebuild now observe_only seen between).1)
        (settle-Lapses rebuild now observe_only seen between) in
    omega arith

next_status-graceful :
    (now : ℕ) (s : Subscription)
    → (next_status now s === s.status) ≡ false
    → s.status ≡ "active"
    → next_status now s ≡ "grace"
    → next_status now (with_status "grace" s) ≡ "grace"
unfolding next_status
next_status-graceful now s changes e next = elim (Bool-cases (is_due now s.current_period_end)) [
  | inl due ↦ elim (Bool-cases (is_running now s.grace_ends_at)) [
    | inl running ↦ rw due (rw running refl)
    | inr over ↦
        let expired : next_status now s ≡ "expired" = rw e (rw due (rw over refl)) in
        absurd (same_absurd "expired" "grace" refl (sym expired ∙ next))
  ]
  | inr due ↦ absurd (same_absurd _ _ changes (rw e (rw due refl)))
]

next_status-settles :
    (now : ℕ) (s : Subscription)
    → next_status now (with_status (next_status now s) s) ≡ next_status now s
unfolding next_status
next_status-settles now s = elim (Bool-cases (next_status now s === s.status)) [
  | inl e ↦ let same : next_status now s ≡ s.status = (eq_iff _ _).0 e in rw same same
  | inr e ↦ elim (next_status-Change now s e) [
    | from_trial _ next ↦ rw next refl
    | from_active _ active next ↦ rw next (next_status-graceful now s e active next)
    | from_period _ _ next ↦ rw next refl
  ]
]

period-is_claimed :
    (now : ℕ) (s : Subscription)
    → (s.status === "trial") ≡ false
    → (next_status now s === s.status) ≡ false
    → is_due now s.current_period_end ≡ true
unfolding next_status
period-is_claimed now s other changes = elim (Bool-cases (is_due now s.current_period_end)) [
  | inl e ↦ e
  | inr e ↦
      let same : next_status now s ≡ s.status = elim (Bool-cases (is_renewable s.status)) [
        | inl r ↦ rw other (rw r (rw e refl))
        | inr r ↦ rw other (rw r refl)
      ] in
      absurd (same_absurd _ _ changes same)
]

self-is_claimed :
    (now : ℕ) (s : Subscription)
    → (next_status now s === s.status) ≡ false
    → is_claimed now s s ≡ true
unfolding next_status
self-is_claimed now s changes =
    let id = eq_refl s.id in
    let status = eq_refl s.status in
    elim (Bool-cases (s.status === "trial")) [
      | inl e ↦ elim (Bool-cases (is_due now s.trial_ends_at)) [
        | inl due ↦ rw id (rw status (rw e due))
        | inr due ↦ absurd (same_absurd _ _ changes (rw e (rw due refl)))
      ]
      | inr e ↦ rw id (rw status (rw e (period-is_claimed now s e changes)))
    ]

claim_row-account_id :
    (now : ℕ) (seen s : Subscription) → (claim_row now seen s).account_id ≡ s.account_id
claim_row-account_id now seen s = elim (Bool-cases (is_claimed now seen s)) [
  | inl e ↦ rw e refl
  | inr e ↦ rw e refl
]

find-map-claim :
    (now : ℕ) (account : String) (seen s : Subscription) (db : List Subscription)
    → find (of_account account) db ≡ some s
    → find (of_account account) (map (claim_row now seen) db) ≡ some (claim_row now seen s)
find-map-claim now account seen s [] h = cc
find-map-claim now account seen s (t ∷ rows) h =
    rw (claim_row-account_id now seen t) (elim (Bool-cases (of_account account t)) [
      | inl e ↦ let same : t ≡ s = ground arith in rw e (ap (λ r. some (claim_row now seen r)) same)
      | inr e ↦ rw e (find-map-claim now account seen s rows (ground arith))
    ])

any-find :
    (now : ℕ) (account : String) (s : Subscription) (db : List Subscription)
    → find (of_account account) db ≡ some s
    → is_claimed now s s ≡ true
    → any (is_claimed now s) db ≡ true
any-find now account s [] h claimed = cc
any-find now account s (t ∷ rows) h claimed = elim (Bool-cases (of_account account t)) [
  | inl e ↦ let same : t ≡ s = ground arith in rw same (rw claimed refl)
  | inr e ↦ let later_row = any-find now account s rows (ground arith) claimed in ground arith
]

-- A row whose status is what it ought to be is left alone.
settle-same :
    (rebuild : String → Result (Unit {0})) (now : ℕ) (observe_only : Bool) (s : Subscription)
    (db : List Subscription)
    → next_status now s ≡ s.status
    → settle rebuild now observe_only (some s) db ≡ (ok (unchanged s.status), db)
unfolding settle
settle-same rebuild now observe_only s db same =
    let equal : (next_status now s === s.status) ≡ true = (eq_iff _ _).1 same in rw equal refl

reconciled_row :
    (rebuild : String → Result (Unit {0})) (now : ℕ) (account : String) (s : Subscription)
    (db : List Subscription)
    → find (of_account account) db ≡ some s
    → (next_status now s === s.status) ≡ false
    → find (of_account account) ((settle rebuild now false (some s) db).1)
      ≡ some (with_status (next_status now s) s)
unfolding settle claim
reconciled_row rebuild now account s db found changes =
    let self = self-is_claimed now s changes in
    let there = any-find now account s db found self in
    let after = find-map-claim now account s s db found in
    rw changes (rw there (after ∙ rw self refl))

settled_again :
    (rebuild : String → Result (Unit {0})) (now : ℕ) (observe_only : Bool) (account : String)
    (s : Subscription) (end : List Subscription)
    → find (of_account account) end ≡ some s
    → next_status now s ≡ s.status
    → reconcile_account rebuild now observe_only account end ≡ (ok (unchanged s.status), end)
unfolding reconcile_account
settled_again rebuild now observe_only account s end found same =
    rw found (settle-same rebuild now observe_only s end same)

-- Reconciling an account again at the same time changes nothing: after an enforcing
-- reconciliation the second one, observing or enforcing, answers the status of the account as
-- unchanged and leaves the table as it is.
pub reconcile_account_twice :
    (rebuild : String → Result (Unit {0})) (now : ℕ) (observe_only : Bool) (account : String)
    (db end : List Subscription)
    → (reconcile_account rebuild now false account db).1 ≡ end
    → (status : String) × (reconcile_account rebuild now observe_only account end
        ≡ (ok (unchanged status), end))
unfolding reconcile_account settle
reconcile_account_twice rebuild now observe_only account db end once =
    elim (Option-cases (find (of_account account) db)) [
      | inl missing ↦
          let same : db ≡ end = rw missing at once in
          ("no_subscription", rw (← same) (rw missing refl))
      | inr (s, found) ↦
          let written : (settle rebuild now false (some s) db).1 ≡ end = rw found at once in
          elim (Bool-cases (next_status now s === s.status)) [
            | inl e ↦
                let stays : next_status now s ≡ s.status = (eq_iff _ _).0 e in
                let same : db ≡ end = rw (settle-same rebuild now false s db stays) at written in
                (
                  s.status,
                  rw (← same) (settled_again rebuild now observe_only account s db found stays),
                )
            | inr e ↦ (
              next_status now s,
              settled_again rebuild now observe_only account (with_status (next_status now s) s) end
                  (ap (find (of_account account)) (sym written)
                    ∙ reconciled_row rebuild now account s db found e)
                  (next_status-settles now s),
            )
          ]
    ]
