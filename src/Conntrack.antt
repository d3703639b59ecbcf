-- ===== src/Conntrack.antt =====
-- conntrack/: how many connections may be tracked at once, and who waits for a slot.
pub mod Maps
pub mod Instance
mod Tests
