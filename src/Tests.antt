-- ===== src/Tests.antt =====
-- Concrete inputs for the theorems: a hash of headers without collisions, a short chain with a
-- block beside it, and the runs of each component on them.
pub mod Hashing
pub mod Chains
pub mod Branches
pub mod Outputs
pub mod Totals
pub mod Peers
pub mod Pending
pub mod Rates
pub mod Unconfirmed
pub mod Blocks
pub mod Answers
pub mod Requests
