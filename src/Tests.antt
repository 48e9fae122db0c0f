-- ===== src/Tests.antt =====
-- Concrete inputs, and each theorem with hypotheses at one of them.
mod Data
mod Tokens
mod Sessions
mod Auth
mod Hashcash
mod Objects
mod Cleanup
mod Billing
mod Listing
mod Tables
mod Routes
mod Bots
