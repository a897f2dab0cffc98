-- ===== src/Billing/Reconciliation/Tests.antt =====
-- Concrete runs of the reconciliation.
use eleeveon_schools_backend.Prelude.{
  filter, length, arith, ◌≡◌, refl, ◌+◌, ◌≤◌, String, true, false, none, some, List, [], ◌∷◌, map,
}
use eleeveon_schools_backend.Result.{Result, ok, err, error}
use eleeveon_schools_backend.Billing.Reconciliation.{
  Subscription, claim, settle, reconcile_account, unchanged, next_status,
}
use eleeveon_schools_backend.Billing.Reconciliation.Lifecycle.{Lapses, settle-Lapses}
use eleeveon_schools_backend.Billing.Reconciliation.Settling.{
  start, later, versions, all_changes_left, reconciliation_ends, reconcile_account_twice,
}
use eleeveon_schools_backend.Billing.Reconciliation.Trials.{
  is_due_trial, due_trials, by_trial_end, insert_by_trial_end, process_due_trials,
  process_due_trials_is_resilient,
}

abbrev trial : Subscription
trial = record {
  id = "one";
  account_id = "first";
  status = "trial";
  trial_ends_at = some 50;
  current_period_end = none;
  grace_ends_at = none;
  entitlement_version = 1;
}

abbrev active : Subscription
active = record {
  id = "two";
  account_id = "second";
  status = "active";
  trial_ends_at = none;
  current_period_end = some 50;
  grace_ends_at = some 200;
  entitlement_version = 7;
}

abbrev db : List Subscription
db = active ∷ trial ∷ []

abbrev rebuild : String → Result (Unit {0})
rebuild account = err error

abbrev graced : List Subscription
graced = record active { status = "grace"; entitlement_version = 8 } ∷ trial ∷ []

period_turns_to_grace : (reconcile_account rebuild 100 false "second" db).1 ≡ graced
unfolding claim next_status reconcile_account settle
period_turns_to_grace = refl

-- The row is claimed though the rebuild throws.
rebuild_throws : (reconcile_account rebuild 100 false "first" db).0 ≡ err error
unfolding claim next_status reconcile_account settle
rebuild_throws = refl

earliest_trial_first :
    map
      (λ s. s.account_id)
      (due_trials 100 0 (record trial { account_id = "late"; trial_ends_at = some 90 } ∷ db))
    ≡ "first" ∷ []
unfolding by_trial_end due_trials insert_by_trial_end
earliest_trial_first = refl

settle-Lapses_example : Lapses 100 db ((settle rebuild 100 false (some active) db).1)
settle-Lapses_example = settle-Lapses rebuild 100 false (some active) db

reconciliation_ends_example : versions graced + all_changes_left graced ≤ 11
unfolding claim next_status settle
reconciliation_ends_example =
    reconciliation_ends rebuild db graced (later start 100 false (some active))

reconcile_account_twice_example :
    (status : String) × (reconcile_account rebuild 100 true "second" graced
      ≡ (ok (unchanged status), graced))
reconcile_account_twice_example =
    reconcile_account_twice rebuild 100 true "second" db graced period_turns_to_grace

-- a rebuild that answers for every account
abbrev healthy : String → Result (Unit {0})
healthy account = ok tt

few_trials : length (filter (is_due_trial 100) db) ≤ 10
few_trials = omega arith

process_due_trials_is_resilient_example :
    (map (λ r. r.account_id) ((process_due_trials rebuild (λ account. 100) true 100 10 db).0)
      ≡ map (λ s. s.account_id) (by_trial_end (filter (is_due_trial 100) db)))
    × ((process_due_trials rebuild (λ account. 100) true 100 10 db).1
        ≡ (process_due_trials healthy (λ account. 100) true 100 10 db).1)
    × ((process_due_trials rebuild (λ account. 100) false 100 10 db).1 ≡ db)
process_due_trials_is_resilient_example =
    process_due_trials_is_resilient rebuild healthy (λ account. 100) true 100 10 db few_trials
