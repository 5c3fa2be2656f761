-- ===== src/App.antt =====
-- BOT/app.py: the front end that the chat talks to.
pub mod Front
pub mod Clicks
mod Tests
