-- ===== src/Ice.antt =====
-- agent: the candidates and addresses of an ICE agent.
pub mod Address
pub mod Candidate
pub mod Check
pub mod Component
mod Tests
