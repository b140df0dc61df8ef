-- ===== src/Common.antt =====
-- common/: the world of positionables, the event handlers, the objects and the tables.
pub mod World
pub mod Event
pub mod Object
pub mod Storage
mod Tests
