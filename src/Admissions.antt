-- ===== src/Admissions.antt =====
-- src/admissions/admission-number.service.ts: admission numbers of the students of a branch. The
-- two tables are lists; a transaction takes the tables and returns the new ones, or throws and
-- leaves them as they were.
pub mod Registered
pub mod Allocation
mod Tests
pub mod Confirmed
pub mod Keys
use Prim.Native.String.{◌++◌, len}
use eleeveon_schools_backend.Prelude.{
  ℕ, zero, suc, ◌+◌, ◌-◌, ◌*◌, ◌/◌, ◌%◌, String, Bool, true, false, not, ◌&&◌, ◌||◌, Option, none,
  some, get_or, List, [], ◌∷◌, ◌===◌, ◌!==◌, ◌==ℕ◌, ltb, leb, find, any, if◌then◌else◌, map,
}
use eleeveon_schools_backend.Result.{
  Result, ok, err, bad_request, conflict, error, ◌>>=◌, ◌>>◌, throw_if,
}
use eleeveon_schools_backend.Number.{safe_limit}
use eleeveon_schools_backend.Text.{trim, to_upper_case, decimal, pad_start}

pub data AdmissionMode : Type 0 where
  manual automatic automatic_or_manual : AdmissionMode

pub record AdmissionConfiguration : Type 0 where
  pub mode : AdmissionMode
  pub prefix : String
  pub separator : String
  pub padding : ℕ
  pub next_sequence : ℕ

-- A configuration as it is stored, where each field may be missing; the numbers are integers.
pub record RawConfiguration : Type 0 where
  pub mode : Option String
  pub scope : Option String
  pub prefix : Option String
  pub separator : Option String
  pub padding : Option ℕ
  pub next_sequence : Option ℕ

pub record AdmissionAssignment : Type 0 where
  pub admission_number : String
  pub normalized_number : String
  pub assigned_automatically : Bool

pub record AdmissionAllocationArgs : Type 0 where
  pub account_id : String
  pub school_id : String
  pub branch_id : String
  pub student_id : String
  pub supplied : Option String
  pub provisional_automatic : Bool
  pub config : RawConfiguration

-- a row of StudentAdmissionIdentity
pub record Identity : Type 0 where
  pub account_id : String
  pub school_id : String
  pub branch_id : String
  pub student_id : String
  pub admission_number : String
  pub normalized_number : String

-- a row of AdmissionNumberSequence
pub record Sequence : Type 0 where
  pub account_id : String
  pub school_id : String
  pub branch_id : String
  pub next_sequence : ℕ

pub record Tables : Type 0 where
  pub identities : List Identity
  pub sequences : List Sequence

abbrev pub normalize_number : String → String
normalize_number s = to_upper_case (trim s)

abbrev pub mode_of : String → Result AdmissionMode
mode_of s =
    if s === "manual"
    then ok manual
    else if s === "automatic"
    then ok automatic
    else if s === "automatic_or_manual"
    then ok automatic_or_manual
    else err bad_request

-- `raw.scope != null && raw.scope !== "branch"`
abbrev other_scope : Option String → Bool
other_scope none = false
other_scope (some s) = s !== "branch"

unfoldable pub normalize_config : RawConfiguration → Result AdmissionConfiguration
normalize_config raw = do
  mode ← mode_of (get_or raw.mode "manual")
  throw_if (other_scope raw.scope) bad_request
  let prefix = normalize_number (get_or raw.prefix "")
  let separator = get_or raw.separator "-"
  let padding = get_or raw.padding 3
  let next_sequence = get_or raw.next_sequence 1
  throw_if (ltb 32 (len prefix) || ltb 5 (len separator)) bad_request
  throw_if (ltb padding 1 || ltb 12 padding) bad_request
  throw_if (leb safe_limit next_sequence || ltb next_sequence 1) bad_request
  ok (record {
    mode = mode;
    prefix = prefix;
    separator = separator;
    padding = padding;
    next_sequence = next_sequence;
  })

-- The unique keys of the tables
abbrev pub of_student : String → String → Identity → Bool
of_student account student i = i.account_id === account && i.student_id === student

abbrev pub holds_number : String → String → String → String → Identity → Bool
holds_number account school branch number i =
    (i.account_id === account && i.school_id === school)
    && (i.branch_id === branch && i.normalized_number === number)

abbrev pub of_branch : String → String → String → Sequence → Bool
of_branch account school branch s =
    s.account_id === account && (s.school_id === school && s.branch_id === branch)

-- `studentAdmissionIdentity.create`: the database refuses a row that repeats a unique key with P2002,
-- which is no exception of the program's own.
unfoldable pub create_identity : Identity → List Identity → Result (List Identity)
create_identity i rows = do
  throw_if (any (of_student i.account_id i.student_id) rows) error
  throw_if (any (holds_number i.account_id i.school_id i.branch_id i.normalized_number) rows) error
  ok (i ∷ rows)

-- `admissionNumberSequence.upsert` with an empty update
abbrev seed_sequence : Sequence → Option Sequence → Tables → Sequence × Tables
seed_sequence fresh (some s) db = (s, db)
seed_sequence fresh none db =
    (fresh, record { identities = db.identities; sequences = fresh ∷ db.sequences })

unfoldable pub upsert_sequence : Sequence → Tables → Sequence × Tables
upsert_sequence fresh db =
    seed_sequence fresh
      (find (of_branch fresh.account_id fresh.school_id fresh.branch_id) db.sequences) db

-- `admissionNumberSequence.update` of the row of a branch
abbrev set_next : String → String → String → ℕ → Sequence → Sequence
set_next account school branch next s =
    if of_branch account school branch s
    then record {
      account_id = s.account_id;
      school_id = s.school_id;
      branch_id = s.branch_id;
      next_sequence = next;
    }
    else s

unfoldable pub format_number : AdmissionConfiguration → ℕ → String
unfolding decimal pad_start
format_number config candidate =
    let separator = if config.prefix === "" then "" else config.separator in
    config.prefix ++ separator ++ pad_start (decimal candidate) config.padding "0"

module _ (account school branch student : String) (config : AdmissionConfiguration) where
  abbrev pub identity_of : String → String → Identity
  identity_of number normalized = record {
    account_id = account;
    school_id = school;
    branch_id = branch;
    student_id = student;
    admission_number = number;
    normalized_number = normalized;
  }

  abbrev pub is_used : Tables → ℕ → Bool
  is_used db candidate =
      any (holds_number account school branch (normalize_number (format_number config candidate)))
        db.identities

  -- The body of the loop past the test for a used number
  abbrev pub claim : Tables → ℕ → Result (Tables × Option AdmissionAssignment)
  claim db candidate = do
    let number = format_number config candidate
    let normalized = normalize_number number
    rows ← create_identity (identity_of number normalized) db.identities
    ok (
      record {
        identities = rows;
        sequences = map (set_next account school branch (suc candidate)) db.sequences;
      },
      some (record {
        admission_number = number;
        normalized_number = normalized;
        assigned_automatically = true;
      }),
    )

  -- `for (let attempts = 0; attempts < 100_000; attempts++, candidate++)`, by what is left of the
  -- attempts
  unfoldable pub allocate : ℕ → Tables → ℕ → Result (Tables × Option AdmissionAssignment)
  unfolding format_number
  allocate zero db candidate = err conflict
  allocate (suc attempts) db candidate =
      let rest = allocate attempts db (suc candidate) in
      do
        throw_if (leb safe_limit candidate) conflict
        throw_if (normalize_number (format_number config candidate) === "") bad_request
        if is_used db candidate then rest else claim db candidate

  -- `catch` of P2002 as a ConflictException; the database throws nothing else here
  abbrev pub as_conflict : Result (List Identity) → Result (List Identity)
  as_conflict (ok rows) = ok rows
  as_conflict (err thrown) = err conflict

  -- A number that was supplied and is not provisional
  abbrev pub claim_supplied : Tables → String → Result (Tables × Option AdmissionAssignment)
  claim_supplied db supplied = do
    rows ←
        as_conflict
          (create_identity (identity_of supplied (normalize_number supplied)) db.identities)
    ok (
      record { identities = rows; sequences = db.sequences },
      some (record {
        admission_number = supplied;
        normalized_number = normalize_number supplied;
        assigned_automatically = false;
      }),
    )

  abbrev pub is_automatic : AdmissionMode → Bool
  is_automatic automatic = true
  is_automatic _ = false

  abbrev pub is_manual : AdmissionMode → Bool
  is_manual manual = true
  is_manual _ = false

  abbrev pub fresh_sequence : Sequence
  fresh_sequence = record {
    account_id = account;
    school_id = school;
    branch_id = branch;
    next_sequence = config.next_sequence;
  }

  -- The student has no identity yet.
  unfoldable pub assign_new : Tables → String → Bool → Result (Tables × Option AdmissionAssignment)
  unfolding upsert_sequence
  assign_new db supplied provisional =
      if not (normalize_number supplied === "") && not provisional
      then throw_if (is_automatic config.mode) bad_request >> claim_supplied db supplied
      else if is_manual config.mode
      then throw_if provisional bad_request >> ok (db, none)
      else let (sequence, seeded) = upsert_sequence fresh_sequence db in
        allocate 100000 seeded sequence.next_sequence

  -- `if (existing)`: a confirmed number always wins.
  abbrev pub assign_as :
      Option Identity → Tables → String → Bool → Result (Tables × Option AdmissionAssignment)
  assign_as none db supplied provisional = assign_new db supplied provisional
  assign_as (some existing) db supplied provisional = do
    throw_if (existing.school_id !== school || existing.branch_id !== branch) conflict
    ok (
      db,
      some (record {
        admission_number = existing.admission_number;
        normalized_number = existing.normalized_number;
        assigned_automatically = false;
      }),
    )

unfoldable pub assign_in_transaction :
    Tables → AdmissionAllocationArgs → Result (Tables × Option AdmissionAssignment)
unfolding normalize_config
assign_in_transaction db args = do
  let account = trim args.account_id
  let school = trim args.school_id
  let branch = trim args.branch_id
  let student = trim args.student_id
  throw_if ((account === "" || school === "") || (branch === "" || student === "")) bad_request
  config ← normalize_config args.config
  let existing = find (of_student account student) db.identities
  let supplied = trim (get_or args.supplied "")
  assign_as account school branch student config existing db supplied args.provisional_automatic
