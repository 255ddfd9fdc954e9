-- ===== src/Tests.antt =====
-- Concrete inputs on which the theorems are applied.
mod Fixtures
mod Household
mod Analysis
mod Alerting
mod Zones
mod Sessions
mod Answers
mod Routing
mod Restart
mod Records
mod Streams
mod Interplay
mod Linked
mod Connected
mod Whole
