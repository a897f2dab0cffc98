-- ===== src/Licenses/Validation/Verdicts.antt =====
-- When a validation accepts, and what it changes.
use eleeveon_schools_backend.Prelude.{
  ◌≡◌, refl, ap, sym, ◌∙◌, ◌↔◌, ◌≤◌, ℕ, String, Bool, true, false, not, ◌&&◌, ◌||◌, Option, none,
  some, ◌∷◌, ◌===◌, arith, inl, inr, Bool-cases, find, if◌then◌else◌,
}
use eleeveon_schools_backend.Result.{ok, not_found, or_throw, bind-eq-ok, ok_injective}
use eleeveon_schools_backend.Licenses.Activation.{was_active, other_fingerprint}
use eleeveon_schools_backend.Licenses.Perpetual.{
  PerpetualLicense, ValidationEvent, Tables, find_plan,
}
use eleeveon_schools_backend.Licenses.Validation.{
  Verdict, Check, is_accepted, is_plainly_valid, is_overdue, is_within, is_after, license_grace,
  covers, time_verdict, verdict, Answer, answer_of, conclude, check_of, verdict_text, validate,
}

-- the checks of a validation as their answers
abbrev ladder : Bool → Bool → Bool → Bool → Bool → Bool → Verdict → Verdict
ladder is_suspended is_revoked active registered other covered timed =
    if is_suspended
    then Verdict.suspended
    else if is_revoked
    then Verdict.revoked
    else if not active
    then Verdict.activation_blocked
    else if not registered
    then Verdict.device_blocked
    else if other
    then Verdict.device_blocked
    else if not covered
    then Verdict.version_blocked
    else timed

record IsPassed (a b c d e f : Bool) (t : Verdict) : Type 0 where
  first : a ≡ false
  second : b ≡ false
  third : c ≡ true
  fourth : d ≡ true
  fifth : e ≡ false
  sixth : f ≡ true
  timely : is_accepted t ≡ true

ladder-IsPassed :
    (a b c d e f : Bool) (t : Verdict)
    → is_accepted (ladder a b c d e f t) ≡ true
    → IsPassed a b c d e f t
ladder-IsPassed true b c d e f t h = cc
ladder-IsPassed false true c d e f t h = cc
ladder-IsPassed false false false d e f t h = cc
ladder-IsPassed false false true false e f t h = cc
ladder-IsPassed false false true true true f t h = cc
ladder-IsPassed false false true true false false t h = cc
ladder-IsPassed false false true true false true t h = record {
  first = refl;
  second = refl;
  third = refl;
  fourth = refl;
  fifth = refl;
  sixth = refl;
  timely = h;
}

abbrev ladder_of : Check → Verdict → Verdict
ladder_of c =
    ladder (c.license.status === "suspended") (c.license.status === "revoked")
      (was_active c.activation) (was_active c.device)
      (other_fingerprint c.activation c.fingerprint_hash) (covers c)

verdict-ladder : (now : ℕ) (c : Check) → verdict now c ≡ ladder_of c (time_verdict now c.license)
unfolding verdict
verdict-ladder now c = refl

time_verdict-accepted :
    (now : ℕ) (l : PerpetualLicense)
    → is_accepted (time_verdict now l) ≡ (not (is_overdue now l) || is_within now (license_grace l))
time_verdict-accepted now l = elim (Bool-cases (is_overdue now l)) [
  | inl e ↦ elim (Bool-cases (is_within now (license_grace l))) [
    | inl f ↦ rw e (rw f refl)
    | inr f ↦ rw e (rw f refl)
  ]
  | inr e ↦ rw e refl
]

-- the conditions under which a licence may be used, in no order
pub record IsUsable (now : ℕ) (c : Check) : Type 0 where
  pub not_suspended : (c.license.status === "suspended") ≡ false
  pub not_revoked : (c.license.status === "revoked") ≡ false
  pub activated : was_active c.activation ≡ true
  pub registered : was_active c.device ≡ true
  pub same_machine : other_fingerprint c.activation c.fingerprint_hash ≡ false
  pub covered : covers c ≡ true
  pub in_time : (not (is_overdue now c.license) || is_within now (license_grace c.license)) ≡ true

-- A validation accepts exactly when the licence is neither suspended nor revoked, the device is
-- activated, registered and the same machine, the version is covered, and the next validation is
-- not overdue or its grace period lasts.
pub accepted_iff : (now : ℕ) (c : Check) → (is_accepted (verdict now c) ≡ true) ↔ IsUsable now c
accepted_iff now c = (usable_when_accepted, accepted_when_usable)
  where
    usable_when_accepted : is_accepted (verdict now c) ≡ true → IsUsable now c
    usable_when_accepted h =
        let passed =
          ladder-IsPassed _ _ _ _ _ _ (time_verdict now c.license)
            (rw (verdict-ladder now c) at h) in
        record {
          not_suspended = passed.first;
          not_revoked = passed.second;
          activated = passed.third;
          registered = passed.fourth;
          same_machine = passed.fifth;
          covered = passed.sixth;
          in_time = sym (time_verdict-accepted now c.license) ∙ passed.timely;
        }

    accepted_when_usable : IsUsable now c → is_accepted (verdict now c) ≡ true
    accepted_when_usable u = rw (verdict-ladder now c) (
        rw u.not_suspended (
          rw u.not_revoked (
            rw u.activated (
              rw u.registered (
                rw u.same_machine
                  (rw u.covered (time_verdict-accepted now c.license ∙ u.in_time)))))))

-- how much a verdict grants
abbrev pub rank : Verdict → ℕ
rank Verdict.valid = 2
rank Verdict.grace = 1
rank _ = 0

ladder_antitone :
    (a b c d e f : Bool) (t u : Verdict)
    → rank u ≤ rank t
    → rank (ladder a b c d e f u) ≤ rank (ladder a b c d e f t)
ladder_antitone true b c d e f t u h = omega arith
ladder_antitone false true c d e f t u h = omega arith
ladder_antitone false false false d e f t u h = omega arith
ladder_antitone false false true false e f t u h = omega arith
ladder_antitone false false true true true f t u h = omega arith
ladder_antitone false false true true false false t u h = omega arith
ladder_antitone false false true true false true t u h = h

is_after_monotone :
    (now later : ℕ) (date : Option ℕ)
    → now ≤ later
    → is_after now date ≡ true
    → is_after later date ≡ true
is_after_monotone now later none h e = e
is_after_monotone now later (some date) h e = ground arith

is_within_antitone :
    (now later : ℕ) (date : Option ℕ)
    → now ≤ later
    → is_within later date ≡ true
    → is_within now date ≡ true
is_within_antitone now later none h e = e
is_within_antitone now later (some date) h e = ground arith

abbrev timed : Bool → Bool → Verdict
timed overdue within =
    if overdue
    then (if within then Verdict.grace else Verdict.validation_required)
    else Verdict.valid

timed_antitone :
    (overdue within overdue_later within_later : Bool)
    → (overdue ≡ true → overdue_later ≡ true)
    → (within_later ≡ true → within ≡ true)
    → rank (timed overdue_later within_later) ≤ rank (timed overdue within)
timed_antitone false within false v h k = omega arith
timed_antitone false within true true h k = omega arith
timed_antitone false within true false h k = omega arith
timed_antitone true within false v h k = let e = h refl in cc
timed_antitone true within true false h k = omega arith
timed_antitone true true true true h k = omega arith
timed_antitone true false true true h k = let e = k refl in cc

and_monotone : (a b c : Bool) → (b ≡ true → c ≡ true) → (a && b) ≡ true → (a && c) ≡ true
and_monotone true b c h e = h e
and_monotone false b c h e = e

time_verdict_antitone :
    (now later : ℕ) (l : PerpetualLicense)
    → now ≤ later
    → rank (time_verdict later l) ≤ rank (time_verdict now l)
time_verdict_antitone now later l h =
    timed_antitone (is_overdue now l) (is_within now (license_grace l)) (is_overdue later l)
      (is_within later (license_grace l))
      (and_monotone l.requires_periodic_validation _ _
        (is_after_monotone now later l.next_validation_at h))
      (is_within_antitone now later (license_grace l) h)

-- Without a renewal a licence only loses with time: from valid to its grace period, and from there
-- to a validation that is required.
pub verdict_antitone :
    (now later : ℕ) (c : Check) → now ≤ later → rank (verdict later c) ≤ rank (verdict now c)
verdict_antitone now later c h = rw (verdict-ladder now c) (
    rw (verdict-ladder later c) (
      ladder_antitone (c.license.status === "suspended") (c.license.status === "revoked")
        (was_active c.activation) (was_active c.device)
        (other_fingerprint c.activation c.fingerprint_hash) (covers c) (time_verdict now c.license)
        (time_verdict later c.license) (time_verdict_antitone now later c.license h)))

-- A validation that is not plainly valid, a grace period included, changes no licence, activation
-- or device: it adds one event.
pub unrenewed_validation :
    (now : ℕ) (key_hash device hash : String) (app_version : Option String) (db end : Tables)
    (answer : Answer)
    → validate now key_hash device hash app_version db ≡ ok (answer, end)
    → is_plainly_valid answer.verdict ≡ false
    → (event : ValidationEvent) × (end ≡ record db { events = event ∷ db.events })
unfolding validate
unrenewed_validation now key_hash device hash app_version db end answer h refused =
    let (license, _, h1) =
      bind-eq-ok (or_throw (find (λ l. l.key_hash === key_hash) db.licenses) not_found) _ h in
    let (plan, _, h2) = bind-eq-ok (or_throw (find_plan license.plan_id db) not_found) _ h1 in
    let v = verdict now (check_of license plan device hash app_version db) in
    let e : (answer_of now v license, conclude now device v license db) ≡ (answer, end) =
      ok_injective _ _ h2 in
    let same : v ≡ answer.verdict = ap (λ p. p.0.verdict) e in
    let plain : is_plainly_valid v ≡ false = rw same refused in
    (
      record { license_id = license.id; device_id = device; verdict = verdict_text v },
      sym (ap (λ p. p.1) e) ∙ rw plain refl,
    )
