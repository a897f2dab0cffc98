-- ===== src/Billing.antt =====
-- src/billing: prices, periods, quotes and the orders that change a subscription.
pub mod Calendar
pub mod Calculator
pub mod StudentPricing
pub mod Orders
pub mod Pricing
pub mod Quotes
pub mod Reconciliation
mod Tests
