-- ===== src/Commercial/Access.antt =====
-- How the access status of an account moves with time.
use eleeveon_schools_backend.Prelude.{
  ℕ, ◌≤◌, ◌<◌, String, ◌≡◌, refl, Bool, true, false, arith, includes, List, [], ◌∷◌,
}
use eleeveon_schools_backend.Commercial.{
  When, absent, not_a_date, at, AccessInput, normalized, NormalizedAccessStatus, active, grace,
  expired, is_past, access_at, status_at,
}

-- the statuses in which `createAccess` lets an account change its data
abbrev pub may_mutate : NormalizedAccessStatus → Bool
may_mutate active = true
may_mutate NormalizedAccessStatus.trial = true
may_mutate _ = false

still_ahead : (w : When) (a b : ℕ) → a ≤ b → is_past w b ≡ false → is_past w a ≡ false
still_ahead absent a b h e = refl
still_ahead not_a_date a b h e = e
still_ahead (at t) a b h e = ground arith

access_at-earlier :
    (s : String) (u g : When) (a b : ℕ)
    → may_mutate (access_at s u g b) ≡ true
    → is_past u a ≡ false
    → access_at s u g a ≡ access_at s u g b
unfolding access_at
access_at-earlier s u g a b m e = ground arith

not_past_of_may_mutate :
    (s : String) (u g : When) (b : ℕ) → may_mutate (access_at s u g b) ≡ true → is_past u b ≡ false
unfolding access_at
not_past_of_may_mutate s u g b m = ground arith

-- Access to change data never comes back as time passes: whoever has it at a time had the same
-- status at every earlier time.
pub status_at_antitone :
    (input : AccessInput) (earlier later : ℕ)
    → earlier ≤ later
    → may_mutate (status_at input later) ≡ true
    → status_at input earlier ≡ status_at input later
unfolding status_at
status_at_antitone i a b h m =
    access_at-earlier (normalized i.status) i.valid_until i.grace_ends_at a b m (
      still_ahead i.valid_until a b h
        (not_past_of_may_mutate (normalized i.status) i.valid_until i.grace_ends_at b m))

-- the status strings that `statusAt` tells apart
abbrev pub known_statuses : List String
known_statuses =
    "suspended" ∷ "revoked" ∷ "cancelled" ∷ "canceled" ∷ "expired" ∷ "pending" ∷ "unresolved"
    ∷ "active" ∷ "trial" ∷ "grace" ∷ "past_due" ∷ []

access_at_of_unknown :
    (s : String) (u g early late : ℕ)
    → includes s known_statuses ≡ false
    → early < u
    → u ≤ late
    → late < g
    → (access_at s (at u) (at g) early ≡ expired) × (access_at s (at u) (at g) late ≡ grace)
unfolding access_at
access_at_of_unknown s u g early late k a b c = ground arith

-- A status string that is none of the known ones counts as expired before its end date, and then,
-- from the end date until the grace period ends, as within grace.
pub unknown_status_revives :
    (input : AccessInput) (u g early late : ℕ)
    → includes (normalized input.status) known_statuses ≡ false
    → input.valid_until ≡ at u
    → input.grace_ends_at ≡ at g
    → early < u
    → u ≤ late
    → late < g
    → (status_at input early ≡ expired) × (status_at input late ≡ grace)
unfolding status_at
unknown_status_revives i u g early late k eu eg a b c =
    rw (eu, eg) (access_at_of_unknown (normalized i.status) u g early late k a b c)
