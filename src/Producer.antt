-- ===== src/Producer.antt =====
-- producer/: the process that sends the messages of a chunk of a push to RocketMQ.
pub mod Bitmap
pub mod Prepare
pub mod Chosen
pub mod Task
pub mod Report
