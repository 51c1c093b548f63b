-- ===== src/Donations.antt =====
-- control-plane/src/donations: the ledger of donations and refunds, and the webhook handlers.
pub mod Ledger
pub mod Stripe
pub mod Signature
pub mod Checkout
pub mod Shop
pub mod Lines
pub mod Webhook
mod Examples
