-- ===== src/Tests.antt =====
-- Concrete runs: each theorem at data where its hypotheses hold.
mod Data
mod Requests
mod Payout
mod Money
mod Publishing
mod Positions
mod Instant
mod Policies
mod Strategy
mod Tlv
mod Venues
mod Updates
mod Setup
