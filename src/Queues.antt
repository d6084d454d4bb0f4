-- ===== src/Queues.antt =====
-- The queues between a service and its sidecars: baseplate/lib/message_queue.py and EventQueue of
-- baseplate/lib/events.py.
pub mod Message
pub mod Events
pub mod Delivery
pub mod Full
pub mod Timeout
mod Tests
