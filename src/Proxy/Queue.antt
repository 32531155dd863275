-- ===== src/Proxy/Queue.antt =====
-- proxy/queue: the prepare and ready queues of each instance.
pub mod Task
pub mod Predict
pub mod Reservation
pub mod Progress
pub mod Release
mod Tests
