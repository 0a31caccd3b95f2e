-- ===== src/Invoicemap.antt =====
-- internal/invoicemap: the translation of a Stripe invoice into a NAV InvoiceData document.
pub mod Rational
pub mod Currency
pub mod Rounding
pub mod Tax
pub mod Lines
pub mod Reconcile
pub mod Customer
pub mod Build
pub mod Mapper
pub mod Options
