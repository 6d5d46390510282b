-- ===== src/Billing.antt =====
-- billing/src: the freeze lifecycle of an account, its balance and its transactions.
pub mod Extern
pub mod Rates
pub mod Types
pub mod Freeze
pub mod Account
pub mod Calculator
pub mod Subscription
pub mod Tests
