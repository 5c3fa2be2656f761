-- ===== src/Notify.antt =====
-- BOT/notify.py: which security events the owner of the bot is told of, and how often.
pub mod Settings
pub mod Centre
