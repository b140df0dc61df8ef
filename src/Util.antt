-- ===== src/Util.antt =====
-- util/: counted strings, linked lists, times, loggers and allocators.
pub mod IlString
pub mod LinkedList
pub mod Timer
pub mod Alloc
pub mod Logger
mod Tests
