-- ===== src/Tests.antt =====
-- Runs at concrete inputs.
mod Fixtures
mod Sessions
mod Accounts
mod Access
mod Requests
mod Lifetime
mod Http
mod Starting
mod Unit
mod Promoting
mod Updating
