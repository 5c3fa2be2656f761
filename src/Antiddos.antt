-- ===== src/Antiddos.antt =====
-- BOT/antiddos.py: the settings of the flood protection, what its agent reports, and the sockets
-- that it finds open to the world.
pub mod Policy
pub mod Status
