-- ===== src/Webhooks.antt =====
-- The webhook capabilities: the Pix key subscriptions, the Pix Automatico registrations, and the
-- evidence about a listed page.
pub mod Signature
pub mod Readiness
pub mod ReadinessText
pub mod ReadinessInputs
pub mod ReadinessNetwork
pub mod Urls
pub mod Subscription
pub mod Automatic
pub mod Pagination
pub mod Observe
pub mod Provenance
