-- ===== src/Tests.antt =====
-- Runs of the modelled code on small inputs, and the theorems at such inputs.
mod Scope
mod Access
mod Cash
mod Payments
mod Returns
mod Drafts
mod Advances
mod Idempotency
mod Transfers
mod Sales
