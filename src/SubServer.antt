-- ===== src/SubServer.antt =====
-- Storage/remote/sub_server.py: the subscription server that runs beside the core.
pub mod Throttle
pub mod Registry
pub mod Cache
pub mod Client
pub mod Handler
mod Tests
pub mod Slots
