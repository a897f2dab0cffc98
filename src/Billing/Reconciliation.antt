-- ===== src/Billing/Reconciliation.antt =====
-- src/billing/subscription-reconciliation.service.ts: trials, periods and grace periods that are
-- over. The answer of the read and the write that follows it are two steps, since other requests
-- may change the table between them. `rebuild` is `EntitlementsService.rebuild`, which writes
-- tables of its own: here it is only what it throws. Times are milliseconds.
pub mod Lifecycle
pub mod Settling
pub mod Trials
mod Tests
use eleeveon_schools_backend.Prelude.{
  ℕ, suc, String, Bool, true, false, not, ◌&&◌, ◌||◌, Option, none, some, List, [], ◌∷◌, ◌===◌, leb,
  ltb, find, filter, any, map, take, min, max, if◌then◌else◌,
}
use eleeveon_schools_backend.Result.{Result, err, ok, ◌>>=◌}

-- the columns of AccountSubscription that are read or written
pub record Subscription : Type 0 where
  pub id : String
  pub account_id : String
  pub status : String
  pub trial_ends_at : Option ℕ
  pub current_period_end : Option ℕ
  pub grace_ends_at : Option ℕ
  pub entitlement_version : ℕ

-- `date && date <= now`, also the filter `{ lte: now }`
abbrev pub is_due : ℕ → Option ℕ → Bool
is_due now none = false
is_due now (some date) = leb date now

-- `date && date > now`
abbrev pub is_running : ℕ → Option ℕ → Bool
is_running now none = false
is_running now (some date) = ltb now date

abbrev pub is_renewable : String → Bool
is_renewable status = status === "active" || status === "grace"

-- the status that the account ought to have
unfoldable pub next_status : ℕ → Subscription → String
next_status now s =
    if s.status === "trial"
    then (if is_due now s.trial_ends_at then "expired" else s.status)
    else if is_renewable s.status && is_due now s.current_period_end
    then (if is_running now s.grace_ends_at then "grace" else "expired")
    else s.status

-- what `reconcileAccount` returns; `raced` and `observeOnly` are true or left out
pub record Answer : Type 0 where
  pub status : String
  pub prospective_status : Option String
  pub changed : Bool
  pub observe_only : Bool
  pub raced : Bool

abbrev pub unchanged : String → Answer
unchanged status = record {
  status = status;
  prospective_status = none;
  changed = false;
  observe_only = false;
  raced = false;
}

abbrev pub of_account : String → Subscription → Bool
of_account account s = s.account_id === account

-- the filter of the `updateMany`
abbrev pub is_claimed : ℕ → Subscription → Subscription → Bool
is_claimed now seen s =
    (s.id === seen.id && s.status === seen.status)
    && (if seen.status === "trial"
        then is_due now s.trial_ends_at
        else is_due now s.current_period_end)

abbrev pub with_status : String → Subscription → Subscription
with_status status s = record s { status = status; entitlement_version = suc s.entitlement_version }

abbrev pub claim_row : ℕ → Subscription → Subscription → Subscription
claim_row now seen s = if is_claimed now seen s then with_status (next_status now seen) s else s

abbrev pub status_or_unknown : Option Subscription → String
status_or_unknown none = "unknown"
status_or_unknown (some s) = s.status

module _ (rebuild : String → Result (Unit {0})) where
  -- the write for the row `seen` that was read earlier, with the table as it is now
  unfoldable pub claim : ℕ → Subscription → List Subscription → Result Answer × List Subscription
  unfolding next_status
  claim now seen db =
      if any (is_claimed now seen) db
      then (
        (rebuild seen.account_id >>= λ done.
            ok (record (unchanged (next_status now seen)) { changed = true })),
        map (claim_row now seen) db,
      )
      else (
        ok (record (unchanged (status_or_unknown (find (of_account seen.account_id) db))) {
          raced = true;
        }),
        db,
      )

  -- what follows the read of `seen`, with the table as it is at the write
  unfoldable pub settle :
      ℕ → Bool → Option Subscription → List Subscription → Result Answer × List Subscription
  unfolding next_status claim
  settle now observe_only none db = (ok (unchanged "no_subscription"), db)
  settle now observe_only (some seen) db =
      let status = next_status now seen in
      if status === seen.status
      then (ok (unchanged seen.status), db)
      else if observe_only
      then (
        ok (record (unchanged seen.status) {
          prospective_status = some status;
          observe_only = true;
        }),
        db,
      )
      else claim now seen db

  -- `reconcileAccount`, when no other request comes between
  unfoldable pub reconcile_account :
      ℕ → Bool → String → List Subscription → Result Answer × List Subscription
  unfolding settle
  reconcile_account now observe_only account db =
      settle now observe_only (find (of_account account) db) db
