-- ===== src/Event.antt =====
-- src/common/event: the bounded queue and the two event dispatchers.
pub mod Queue
pub mod Dispatcher
pub mod Async
