-- ===== src/Honeypot.antt =====
-- Storage/remote/honeypot_agent.py: the decoy services.
pub mod Guard
