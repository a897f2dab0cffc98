-- ===== src/Billing/Reconciliation/Trials.antt =====
-- src/billing/subscription-reconciliation.service.ts, `processDueTrials`: the job that reconciles
-- the trials that are over, the earliest first. `clock` gives the time at which the turn of an
-- account comes.
use eleeveon_schools_backend.Prelude.{
  ℕ, ◌≡◌, refl, String, Bool, true, false, not, ◌&&◌, Option, none, some, get_or, List, [], ◌∷◌,
  ◌===◌, leb, filter, map, take, min, max, if◌then◌else◌, ap, find, any, length, suc, ◌≤◌, ◌∙◌, inl,
  inr, Bool-cases,
}
use eleeveon_schools_backend.Slices.{take-all}
use eleeveon_schools_backend.Result.{Result, err, ok}
use eleeveon_schools_backend.Billing.Reconciliation.{
  Subscription, Answer, is_due, settle, reconcile_account, of_account, next_status, claim,
  is_claimed,
}

pub record TrialResult : Type 0 where
  pub account_id : String
  pub status : String
  pub changed : Bool
  pub failed : Bool

abbrev trial_end : Subscription → ℕ
trial_end s = get_or s.trial_ends_at 0

-- `orderBy: { trialEndsAt: "asc" }`
unfoldable pub insert_by_trial_end : Subscription → List Subscription → List Subscription
insert_by_trial_end s [] = s ∷ []
insert_by_trial_end s (t ∷ rows) =
    let rest = insert_by_trial_end s rows in
    if leb (trial_end s) (trial_end t) then s ∷ t ∷ rows else t ∷ rest

unfoldable pub by_trial_end : List Subscription → List Subscription
unfolding insert_by_trial_end
by_trial_end [] = []
by_trial_end (s ∷ rows) = insert_by_trial_end s (by_trial_end rows)

abbrev pub is_due_trial : ℕ → Subscription → Bool
is_due_trial at s = s.status === "trial" && is_due at s.trial_ends_at

unfoldable pub due_trials : ℕ → ℕ → List Subscription → List Subscription
unfolding by_trial_end
due_trials at limit db = take (max 1 (min 500 limit)) (by_trial_end (filter (is_due_trial at) db))

-- the entry for an account, thrown or not
abbrev pub trial_result : String → Result Answer → TrialResult
trial_result account (ok answer) = record {
  account_id = account;
  status = answer.status;
  changed = answer.changed;
  failed = false;
}
trial_result account (err e) = record {
  account_id = account;
  status = "error";
  changed = false;
  failed = true;
}

module _ (rebuild : String → Result (Unit {0})) (clock : String → ℕ) (enforce : Bool) where
  -- the loop over the rows that were found
  unfoldable pub reconcile_each :
      List Subscription → List Subscription → List TrialResult × List Subscription
  unfolding reconcile_account
  reconcile_each [] db = ([], db)
  reconcile_each (s ∷ due) db =
      let (answer, next) =
        reconcile_account rebuild (clock s.account_id) (not enforce) s.account_id db in
      let (results, end) = reconcile_each due next in
      (trial_result s.account_id answer ∷ results, end)

  unfoldable pub process_due_trials :
      ℕ → ℕ → List Subscription → List TrialResult × List Subscription
  unfolding due_trials reconcile_each
  process_due_trials at limit db = reconcile_each (due_trials at limit db) db

settle-observes :
    (rebuild : String → Result (Unit {0})) (now : ℕ) (seen : Option Subscription)
    (db : List Subscription)
    → (settle rebuild now true seen db).1 ≡ db
unfolding settle
settle-observes rebuild now none db = refl
settle-observes rebuild now (some s) db = elim (Bool-cases (next_status now s === s.status)) [
  | inl e ↦ rw e refl
  | inr e ↦ rw e refl
]

reconcile_each-observes :
    (rebuild : String → Result (Unit {0})) (clock : String → ℕ) (due db : List Subscription)
    → (reconcile_each rebuild clock false due db).1 ≡ db
unfolding reconcile_each reconcile_account
reconcile_each-observes rebuild clock [] db = refl
reconcile_each-observes rebuild clock (s ∷ due) db =
    rw (settle-observes rebuild (clock s.account_id) (find (of_account s.account_id) db) db)
      (reconcile_each-observes rebuild clock due db)

trial_result-account_id :
    (account : String) (answer : Result Answer) → (trial_result account answer).account_id ≡ account
trial_result-account_id account (ok answer) = refl
trial_result-account_id account (err e) = refl

reconcile_each-reports :
    (rebuild : String → Result (Unit {0})) (clock : String → ℕ) (enforce : Bool)
    (due db : List Subscription)
    → map (λ r. r.account_id) ((reconcile_each rebuild clock enforce due db).0)
      ≡ map (λ s. s.account_id) due
unfolding reconcile_each
reconcile_each-reports rebuild clock enforce [] db = refl
reconcile_each-reports rebuild clock enforce (s ∷ due) db =
    let (answer, next) =
      reconcile_account rebuild (clock s.account_id) (not enforce) s.account_id db in
    rw (trial_result-account_id s.account_id answer)
      (ap (λ ids. s.account_id ∷ ids) (reconcile_each-reports rebuild clock enforce due next))

-- what is written, whatever the rebuild of the entitlements answers
settle-written :
    (rebuild other : String → Result (Unit {0})) (now : ℕ) (observe_only : Bool)
    (seen : Option Subscription) (db : List Subscription)
    → (settle rebuild now observe_only seen db).1 ≡ (settle other now observe_only seen db).1
unfolding settle claim
settle-written rebuild other now observe_only none db = refl
settle-written rebuild other now observe_only (some s) db =
    elim (Bool-cases (next_status now s === s.status)) [
      | inl e ↦ rw e refl
      | inr e ↦ elim (Bool-cases observe_only) [
        | inl o ↦ rw e (rw o refl)
        | inr o ↦ elim (Bool-cases (any (is_claimed now s) db)) [
          | inl c ↦ rw e (rw o (rw c refl))
          | inr c ↦ rw e (rw o (rw c refl))
        ]
      ]
    ]

reconcile_each-written :
    (rebuild other : String → Result (Unit {0})) (clock : String → ℕ) (enforce : Bool)
    (due db : List Subscription)
    → (reconcile_each rebuild clock enforce due db).1
      ≡ (reconcile_each other clock enforce due db).1
unfolding reconcile_each reconcile_account
reconcile_each-written rebuild other clock enforce [] db = refl
reconcile_each-written rebuild other clock enforce (s ∷ due) db =
    let seen = find (of_account s.account_id) db in
    reconcile_each-written rebuild other clock enforce due
      ((settle rebuild (clock s.account_id) (not enforce) seen db).1)
    ∙ ap (λ next. (reconcile_each other clock enforce due next).1)
        (settle-written rebuild other (clock s.account_id) (not enforce) seen db)

length-insert :
    (s : Subscription) (rows : List Subscription)
    → length (insert_by_trial_end s rows) ≡ suc (length rows)
unfolding insert_by_trial_end
length-insert s [] = refl
length-insert s (t ∷ rows) = elim (Bool-cases (leb (trial_end s) (trial_end t))) [
  | inl e ↦ rw e refl
  | inr e ↦ rw e (ap suc (length-insert s rows))
]

length-by_trial_end : (rows : List Subscription) → length (by_trial_end rows) ≡ length rows
unfolding by_trial_end
length-by_trial_end [] = refl
length-by_trial_end (s ∷ rows) =
    length-insert s (by_trial_end rows) ∙ ap suc (length-by_trial_end rows)

due_trials-all :
    (at limit : ℕ) (db : List Subscription)
    → length (filter (is_due_trial at) db) ≤ max 1 (min 500 limit)
    → due_trials at limit db ≡ by_trial_end (filter (is_due_trial at) db)
unfolding due_trials
due_trials-all at limit db few =
    let same = length-by_trial_end (filter (is_due_trial at) db) in
    take-all (max 1 (min 500 limit)) (by_trial_end (filter (is_due_trial at) db)) (rw same few)

-- Where no more trials are due than the limit, between 1 and 500, lets through, the job reports on
-- every trial that is due, each once and the earliest end first, whichever rebuilds throw; and the
-- rows that it leaves are those that it leaves with any other rebuilds, so that an account whose
-- rebuild throws keeps no other from being reconciled. In observing mode it leaves the rows as
-- they are.
pub process_due_trials_is_resilient :
    (rebuild other : String → Result (Unit {0})) (clock : String → ℕ) (enforce : Bool)
    (at limit : ℕ) (db : List Subscription)
    → length (filter (is_due_trial at) db) ≤ max 1 (min 500 limit)
    → (map (λ r. r.account_id) ((process_due_trials rebuild clock enforce at limit db).0)
        ≡ map (λ s. s.account_id) (by_trial_end (filter (is_due_trial at) db)))
      × ((process_due_trials rebuild clock enforce at limit db).1
          ≡ (process_due_trials other clock enforce at limit db).1)
      × ((process_due_trials rebuild clock false at limit db).1 ≡ db)
unfolding process_due_trials
process_due_trials_is_resilient rebuild other clock enforce at limit db few = (
  reconcile_each-reports rebuild clock enforce (due_trials at limit db) db
      ∙ ap (map (λ s. s.account_id)) (due_trials-all at limit db few),
  reconcile_each-written rebuild other clock enforce (due_trials at limit db) db,
  reconcile_each-observes rebuild clock (due_trials at limit db) db,
)
