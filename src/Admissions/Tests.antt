-- ===== src/Admissions/Tests.antt =====
-- Concrete runs of the assignment of admission numbers.
use eleeveon_schools_backend.Prelude.{◌≡◌, refl, true, false, none, some, [], ◌∷◌}
use eleeveon_schools_backend.Result.{ok, err, conflict}
use eleeveon_schools_backend.Text.{trim, to_upper_case}
use eleeveon_schools_backend.Admissions.{
  automatic, AdmissionConfiguration, RawConfiguration, AdmissionAssignment, AdmissionAllocationArgs,
  Identity, Tables, normalize_config, assign_in_transaction, create_identity, allocate, assign_new,
}
use eleeveon_schools_backend.Admissions.Confirmed.{confirmed, confirmed_number_wins}
use eleeveon_schools_backend.Admissions.Allocation.{FirstFreeOf, generated_number_is_first_free}

abbrev raw : RawConfiguration
raw = record {
  mode = some "automatic";
  scope = none;
  prefix = some "abc";
  separator = none;
  padding = none;
  next_sequence = some 7;
}

abbrev config : AdmissionConfiguration
config = record {
  mode = automatic;
  prefix = "ABC";
  separator = "-";
  padding = 3;
  next_sequence = 7;
}

abbrev request : AdmissionAllocationArgs
request = record {
  account_id = "account";
  school_id = "school";
  branch_id = "branch";
  student_id = "ama";
  supplied = none;
  provisional_automatic = false;
  config = raw;
}

-- The first number of the branch is held already.
abbrev held : Identity
held = record {
  account_id = "account";
  school_id = "school";
  branch_id = "branch";
  student_id = "kofi";
  admission_number = "abc-007";
  normalized_number = "ABC-007";
}

abbrev assignment : AdmissionAssignment
assignment = record {
  admission_number = "ABC-008";
  normalized_number = "ABC-008";
  assigned_automatically = true;
}

abbrev db : Tables
db = record { identities = held ∷ []; sequences = [] }

abbrev after : Tables
after = record {
  identities =
      record {
        account_id = "account";
        school_id = "school";
        branch_id = "branch";
        student_id = "ama";
        admission_number = "ABC-008";
        normalized_number = "ABC-008";
      }
      ∷ held
      ∷ [];
  sequences =
      record {
        account_id = "account";
        school_id = "school";
        branch_id = "branch";
        next_sequence = 9;
      }
      ∷ [];
}

accepted : normalize_config raw ≡ ok config
unfolding normalize_config trim to_upper_case
accepted = refl

assigned : assign_in_transaction db request ≡ ok (after, some assignment)
unfolding assign_in_transaction assign_new allocate create_identity trim to_upper_case
assigned = refl

abbrev stale : AdmissionAllocationArgs
stale = record request { supplied = some "OTHER-1" }

confirmed_number_wins_example :
    assign_in_transaction after stale ≡ ok (after, some (confirmed assignment))
confirmed_number_wins_example =
    confirmed_number_wins db after request stale assignment config assigned refl refl refl refl
      accepted

-- the number that another student holds
abbrev taken : AdmissionAllocationArgs
taken = record request { supplied = some "ABC-007"; config = record raw { mode = some "manual" } }

taken_run : assign_in_transaction db taken ≡ err conflict
unfolding assign_in_transaction trim to_upper_case assign_new create_identity
taken_run = refl

generated_number_is_first_free_example :
    (c : AdmissionConfiguration) × (normalize_config raw ≡ ok c)
    × FirstFreeOf
        (trim "account")
        (trim "school")
        (trim "branch")
        (trim "ama")
        c
        db
        after
        assignment
generated_number_is_first_free_example =
    generated_number_is_first_free db after request assignment assigned refl
