-- ===== src/Lib.antt =====
-- Eleeveon Schools backend: the rules that decide what an account pays, what it may do, and what it
-- exchanges, as functions on the rows that they read and write.
--
-- The program is a NestJS service over a PostgreSQL database. Requests reach controllers, pass the
-- role guard (src/common), and call services. The services that are modelled keep no state of their
-- own: each reads rows, decides, and writes rows, mostly in one transaction. A table is a list of
-- rows here, a transaction takes the tables to the new ones or throws, and an exception is a value
-- of `Result` that leaves the tables as they were. A service that writes without a transaction is an
-- `Action`, which also tells what was written before it threw. The clock, the environment's
-- variables, the ids that the database gives, the hashes of the crypto service and the answers of
-- Paystack are arguments.
--
-- Files, by the part of the program (paths from the repository's root):
--   Prelude, Slices, Text, Result, Action, Number, Json: shared names and lemmas; JavaScript's
--     trim, case conversions, padStart, split and parseInt on ASCII letters; exceptions; floats as
--     a parameter; JSON values
--   Roles: src/common/roles.ts and roles.guard.ts (normalizeRole, RolesGuard.canActivate);
--     Roles/Scope: src/common/scope.ts and src/licenses/commercial-operator.ts
--   Commercial: src/commercial/deployment-policy.ts (statusAt, chooseCommercialBase and the readers)
--   Billing/Calculator, Billing/Calendar: src/billing/subscription-calculator.service.ts and the UTC
--     calendar that periodEnd uses
--   Billing/StudentPricing: src/billing/student-pricing.ts (parseStudentPricing and
--     calculateStudentQuote)
--   Billing/Pricing, Billing/Pricing/Resolution: src/billing/pricing-resolution.service.ts (resolve)
--   Billing/Quotes: src/billing/subscription-change.service.ts, quote, on the prices that resolve finds
--   Billing/Orders: src/billing/subscription-change.service.ts, persistQuote to scheduleDowngrade;
--     Billing/Orders/Activation: applyPaidChangeOrder and apply
--   Billing/Reconciliation: src/billing/subscription-reconciliation.service.ts (reconcileAccount;
--     Billing/Reconciliation/Trials: processDueTrials)
--   Admissions: src/admissions/admission-number.service.ts
--   Sync/Policy: src/sync/subscription-sync-policy.service.ts
--   Sync/Records, Sync/Push, Sync/Pull: src/sync/sync.service.ts, upsertRecord with its lookup and
--     conflicts, and the pages of pull for owners and the platform
--   Licenses/Version, Licenses/Policy: src/licenses/utils/version.util.ts, license-policy.service.ts
--   Licenses/Activation: src/licenses/license-activation.service.ts
--   Licenses/Perpetual, Licenses/Validation, Licenses/Upgrade: the rows of perpetual licences,
--     src/licenses/license-validation.service.ts and license-upgrade.service.ts
--   RecordStore: src/payment-gateway/record-store.service.ts, which finance reads and writes through
--   Finance: src/finance/finance.service.ts, with Finance/Gateway, Finance/Checkout and the transfer
--     in Finance/Wallet for src/payment-gateway/payment-gateway.service.ts
--   Permissions: src/permissions/permissions.service.ts
--   Entitlements: src/entitlements/entitlement-policy.service.ts
-- A child module holds the proofs about its parent, and the modules named Tests hold runs at
-- concrete inputs.
--
-- Bounds. The allocation of an admission number has the source's own bound of 100,000 attempts.
-- Following the pages of a pull takes at most one request more than there are rows. The digits of
-- a number are taken with the number itself as fuel. The other loops run over lists.
--
-- Assumptions. Amounts of money are whole and not negative, as in the database; those of school
-- fees, which the code adds as floats, are counted in the smallest unit. Rates of student
-- pricing have at most three decimals. Where the code divides, the float operations are
-- a parameter with the laws of rounding to nearest. The order of record ids is a parameter.
--
-- Not modelled: controllers and request validation; the providers of payments, messages and files;
-- the renewals that ask for a quote;
-- entitlement rebuilding; the parts of synchronisation for students, media assets and limited roles;
-- payroll and memberships; interleavings inside one transaction, which the database serialises.
pub mod Prelude
pub mod Text
pub mod Result
pub mod Number
pub mod Finance
pub mod Json
pub mod Slices
pub mod Permissions
pub mod RecordStore
pub mod Roles
pub mod Commercial
pub mod Billing
pub mod Action
pub mod Admissions
pub mod Sync
pub mod Licenses
pub mod Entitlements
