-- ===== src/Tests.antt =====
-- Tests: the properties at concrete inputs.
mod Data
mod Requests
mod Messages
mod Session
mod Uploads
mod Handlers
mod Accounts
mod Listings
mod Start
mod Threads
mod Whole
mod Boot
