-- ===== src/PseudoTcp.antt =====
-- agent/pseudotcp.c: TCP over an unreliable packet transport.
pub mod Fifo
mod Tests
pub mod Receive
pub mod Segment
pub mod Window
pub mod Clock
pub mod State
