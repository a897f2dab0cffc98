-- ===== src/Entitlements/Capacity.antt =====
-- How capacity, what remains, and time go together.
use eleeveon_schools_backend.Prelude.{
  ℕ, ◌+◌, ◌≤◌, ◌≡◌, ◌↔◌, Bool, true, ◌&&◌, Option, none, some, arith,
}
use eleeveon_schools_backend.Commercial.{status_at}
use eleeveon_schools_backend.Commercial.Access.{may_mutate, status_at_antitone}
use eleeveon_schools_backend.Entitlements.{
  EntitlementResourceKey, EffectiveAccessSnapshot, fits, remaining_of, used, remaining,
  has_capacity,
}

-- Nothing limits the resource, or enough of it remains.
abbrev pub IsLeft : Option ℕ → ℕ → Type 0
IsLeft none increase = Unit
IsLeft (some left) increase = increase ≤ left

fits_iff :
    (open_ : Bool) (limit : Option ℕ) (taken increase : ℕ)
    → 1 ≤ increase
    → ((open_ && fits limit (taken + increase)) ≡ true)
      ↔ ((open_ ≡ true) × IsLeft (remaining_of limit taken) increase)
fits_iff open_ none taken increase one = ground arith
fits_iff open_ (some limit) taken increase one = ground arith

-- There is capacity for an increase of 1 or more exactly when the account may change its data at
-- that time and either the resource is unlimited or what remains is at least the increase.
pub has_capacity_iff :
    (snapshot : EffectiveAccessSnapshot) (usage : EntitlementResourceKey → Option ℕ) (now : ℕ)
    (resource : EntitlementResourceKey) (increase : ℕ)
    → 1 ≤ increase
    → (has_capacity snapshot usage now resource increase ≡ true) ↔ (
        (may_mutate (status_at snapshot.access now) ≡ true)
        × IsLeft (remaining snapshot usage now resource) increase)
unfolding has_capacity remaining
has_capacity_iff snapshot usage now resource increase one =
    fits_iff (may_mutate (status_at snapshot.access now)) (snapshot.limits resource)
      (used snapshot usage now resource) increase one

-- Capacity never comes back as time passes: what fits at a time fits at every earlier time, with
-- the same snapshot and usage.
pub has_capacity_antitone :
    (snapshot : EffectiveAccessSnapshot) (usage : EntitlementResourceKey → Option ℕ)
    (earlier later : ℕ) (resource : EntitlementResourceKey) (increase : ℕ)
    → earlier ≤ later
    → has_capacity snapshot usage later resource increase ≡ true
    → has_capacity snapshot usage earlier resource increase ≡ true
unfolding has_capacity
has_capacity_antitone snapshot usage earlier later resource increase h fit =
    rw (status_at_antitone snapshot.access earlier later h (ground arith)) fit
