-- ===== src/Xray.antt =====
-- The parts of BOT/xray.py.
pub mod Inbounds
pub mod Ladder
pub mod Security
pub mod Subscriptions
pub mod Moves
